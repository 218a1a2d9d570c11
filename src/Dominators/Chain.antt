-- ===== src/Dominators/Chain.antt =====
-- The dominators of a block that the entry reaches are in a line.
use mathlib.Core.Path.{subst}
use jerryscript_optimizer.Prelude.{
  ℕ, ◌≡◌, ◌⊎◌, refl, inl, inr, ⊎_elim, sym, ◌==◌, arith, Bool-cases,
}
use jerryscript_optimizer.Blocks.{BlockHeap}
use jerryscript_optimizer.Dominators.Steps.{Walk, here, onward, Visits, Dominates}

module _ (h : BlockHeap) (entry : ℕ) where
  -- A way to a block visits it.
  pub ends_there : {n : ℕ} (w : Walk h entry n) → Visits w n
  unfolding Visits
  ends_there here = refl
  ends_there (onward p w m) = inl refl

  -- Every way visits the entry.
  pub from_entry : {n : ℕ} (w : Walk h entry n) → Visits w entry
  unfolding Visits
  from_entry here = refl
  from_entry (onward p w m) = inr (from_entry w)

  -- The way up to a block that it visits.
  up_to :
      {n : ℕ} (b : ℕ) (w : Walk h entry n)
      → Visits w b
      → (v : Walk h entry b) × ((x : ℕ) → Visits v x → Visits w x)
  unfolding Visits
  up_to b here v =
      subst (λ y. (u : Walk h entry y) × ((x : ℕ) → Visits u x → x ≡ entry)) (sym v)
        (here, λ x e. e)
  up_to {n} b (onward p w m) v =
      ⊎_elim
        (λ e.
          subst (λ y. (u : Walk h entry y) × ((x : ℕ) → Visits u x → (x ≡ n) ⊎ Visits w x)) (sym e)
            (onward p w m, λ x vx. vx))
        (λ r. let (u, within) = up_to b w r in (u, λ x vx. inr (within x vx))) v

  pub Dominates-trans :
      (a b c : ℕ) → Dominates h entry a b → Dominates h entry b c → Dominates h entry a c
  Dominates-trans a b c ab bc w = let (v, within) = up_to b w (bc w) in within a (ab v)

  -- Of two dominators of a block that the entry reaches, one dominates the other.
  pub Dominates-chain :
      {n : ℕ} (a b : ℕ)
      → Walk h entry n
      → Dominates h entry a n
      → Dominates h entry b n
      → Dominates h entry a b ⊎ Dominates h entry b a
  unfolding Visits
  Dominates-chain a b here da db =
      let ea : a ≡ entry = da here in
      inl (subst (λ y. Dominates h entry y b) (sym ea) (λ w. from_entry w))
  Dominates-chain {n} a b (onward p w m) da db = elim (Bool-cases (a == n)) [
    | inl e ↦ let ea : a ≡ n = ground arith in inr (subst (Dominates h entry b) (sym ea) db)
    | inr na ↦ elim (Bool-cases (b == n)) [
      | inl e ↦ let eb : b ≡ n = ground arith in inl (subst (Dominates h entry a) (sym eb) da)
      | inr nb ↦
          Dominates-chain a b w
            (λ v. ⊎_elim (λ e. absurd (ground arith)) (λ r. r) (da (onward p v m)))
            (λ v. ⊎_elim (λ e. absurd (ground arith)) (λ r. r) (db (onward p v m)))
    ]
  ]
