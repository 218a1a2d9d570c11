-- ===== src/Dominators/Steps.antt =====
-- What `computeDominators` keeps true, and one step of it.
use jerryscript_optimizer.Prelude.{
  ℕ, ◌<◌, ◌≡◌, ◌≢◌, ◌⊎◌, refl, sym, ◌∙◌, true, false, List, [], ◌∷◌, ◌==◌, arith, Bool-cases, inl,
  inr, ⊎_elim,
}
use jerryscript_optimizer.Prelude.Sets.{mem, subset}
use jerryscript_optimizer.Prelude.Count.{missing_of_not_subset}
use jerryscript_optimizer.Prelude.Totals.{Grows, total, total_strict}
use jerryscript_optimizer.Blocks.{BlockHeap}
use jerryscript_optimizer.Dominators.{step, refine}
use jerryscript_optimizer.Dominators.Clean.{clean_step}
use jerryscript_optimizer.Dominators.Round.{
  next_set, mem-next_set, clean_step-refine, replaced, replaced_self, replaced_ne,
  replaced_predecessors, next_set_mono,
}

-- Ways from the entry along the edges.
pub data Walk (h : BlockHeap) (entry : ℕ) : ℕ → Type 0 where
  here : Walk h entry entry
  onward : {n : ℕ} (p : ℕ) → Walk h entry p → mem p (h n).predecessors ≡ true → Walk h entry n

unfoldable pub Visits : {h : BlockHeap} {entry n : ℕ} → Walk h entry n → ℕ → Type 0
Visits {entry = e} here d = d ≡ e
Visits {n = n} (onward p w m) d = (d ≡ n) ⊎ Visits w d

-- Every way to the block passes the other.
abbrev pub Dominates : BlockHeap → ℕ → ℕ → ℕ → Type 0
Dominates h entry d n = (w : Walk h entry n) → Visits w d

abbrev pub doms : BlockHeap → ℕ → List ℕ
doms h p = (h p).dominators

-- The shape that the analysis relies on: the entry stands in front of the other blocks, each of
-- which has a predecessor, and the predecessors are listed.
pub record IsConnected (h : BlockHeap) (entry : ℕ) (bbs : List ℕ) : Type 0 where
  pub apart : mem entry bbs ≡ false
  pub entered : (b : ℕ) → mem b bbs ≡ true → (h b).predecessors ≢ []
  pub closed :
      (b p : ℕ) → mem b bbs ≡ true → mem p (h b).predecessors ≡ true → mem p (entry ∷ bbs) ≡ true

pub record Inv (h0 : BlockHeap) (entry : ℕ) (bbs : List ℕ) (h : BlockHeap) : Type 0 where
  pub edges : (p : ℕ) → (h p).predecessors ≡ (h0 p).predecessors
  pub first : (h entry).dominators ≡ entry ∷ []
  pub shrinks : (b d : ℕ) → mem b bbs ≡ true → mem d (next_set h b) ≡ true → mem d (doms h b) ≡ true
  pub within : (b d : ℕ) → mem b bbs ≡ true → mem d (doms h b) ≡ true → mem d (entry ∷ bbs) ≡ true
  pub complete :
      (n d : ℕ)
      → mem n (entry ∷ bbs) ≡ true
      → mem d (entry ∷ bbs) ≡ true
      → Dominates h0 entry d n
      → mem d (doms h n) ≡ true

module _ (h0 : BlockHeap) (entry : ℕ) (bbs : List ℕ) (shape : IsConnected h0 entry bbs) where
  module _ (h : BlockHeap) (inv : Inv h0 entry bbs h) (b : ℕ) (mb : mem b bbs ≡ true) where
    pub some_pred : (h b).predecessors ≢ []
    some_pred e = shape.entered b mb (sym (inv.edges b) ∙ e)

    abbrev after : BlockHeap
    after = replaced h b (next_set h b)

    -- A claim on the replaced list and on every other block's list.
    after_step :
        (P : ℕ → List ℕ → Type 0)
        → P b (next_set h b)
        → ((p : ℕ) → P p (doms h p))
        → (p : ℕ) → P p (doms after p)
    after_step P new old p = elim (Bool-cases (p == b)) [
      | inl e ↦ let q : p ≡ b = ground arith in rw (q, replaced_self h b (next_set h b)) new
      | inr e ↦ rw (replaced_ne h b p (next_set h b) e) (old p)
    ]

    down : Grows (doms after) (doms h)
    down p d =
        after_step (λ q set. mem d set ≡ true → mem d (doms h q) ≡ true) (inv.shrinks b d mb)
          (λ q m. m) p

    not_entry : (entry == b) ≡ false
    not_entry = elim (Bool-cases (entry == b)) [
      | inl e ↦ let q : b ≡ entry = ground arith in cc (subst_mem q mb, shape.apart)
      | inr e ↦ e
    ]
      where
        subst_mem : b ≡ entry → mem b bbs ≡ true → mem entry bbs ≡ true
        subst_mem q m = rw q at m

    -- What the equation takes for the block is a dominator, and lies among the listed blocks.
    next_within : (d : ℕ) → mem d (next_set h b) ≡ true → mem d (entry ∷ bbs) ≡ true
    next_within d m = inv.within b d mb (inv.shrinks b d mb m)

    next_complete :
        (d : ℕ) → mem d (entry ∷ bbs) ≡ true → Dominates h0 entry d b → mem d (next_set h b) ≡ true
    unfolding Visits
    next_complete d md dom = elim (Bool-cases (d == b)) [
      | inl e ↦ (mem-next_set h b d some_pred).1 (inl (ground arith))
      | inr e ↦ (mem-next_set h b d some_pred).1 (
          inr (λ p mp.
            let mp0 : mem p (h0 b).predecessors ≡ true = rw (← inv.edges b) mp in
            inv.complete p d (shape.closed b p mb mp0) md (λ w.
              ⊎_elim (λ same. absurd (ground arith)) (λ earlier. earlier) (dom (onward p w mp0)))))
    ]

    pub step-Inv : Inv h0 entry bbs after
    step-Inv = record {
      edges = λ p. replaced_predecessors h b p (next_set h b) ∙ inv.edges p;
      first = replaced_ne h b entry (next_set h b) not_entry ∙ inv.first;
      shrinks = λ c d mc m.
          let some : (h c).predecessors ≢ [] = λ e. shape.entered c mc (sym (inv.edges c) ∙ e) in
          let old =
            next_set_mono h after c some (replaced_predecessors h b c (next_set h b)) down d m in
          elim (Bool-cases (c == b)) [
            | inl e ↦
                let q : c ≡ b = ground arith in
                let old' : mem d (next_set h b) ≡ true = rw q at old in
                rw (q, replaced_self h b (next_set h b)) old'
            | inr e ↦ rw (replaced_ne h b c (next_set h b) e) (inv.shrinks c d mc old)
          ];
      within = λ c d mc.
          after_step (λ q set. mem q bbs ≡ true → mem d set ≡ true → mem d (entry ∷ bbs) ≡ true)
            (λ mq m. next_within d m) (λ q mq m. inv.within q d mq m) c mc;
      complete = λ n d mn md dom.
          after_step
            (λ q set. mem q (entry ∷ bbs) ≡ true → Dominates h0 entry d q → mem d set ≡ true)
            (λ mq dq. next_complete d md dq) (λ q mq dq. inv.complete q d mq md dq) n mn dom;
    }

    -- A step that replaces the list takes an entry out.
    pub step_loud :
        subset (doms h b) (next_set h b) ≡ false
        → total (entry ∷ bbs) (doms after) bbs < total (entry ∷ bbs) (doms h) bbs
    step_loud e =
        let (d, old, gone) = missing_of_not_subset (doms h b) (next_set h b) e in
        let gone' : mem d (doms after b) ≡ false = rw (replaced_self h b (next_set h b)) gone in
        total_strict (entry ∷ bbs) (doms after) (doms h) bbs b d down mb (inv.within b d mb old)
          gone' old

  -- A step answers without a fault. It keeps the memory where the list lies in the equation's set.
  pub step_result :
      (h : BlockHeap) (b : ℕ)
      → Inv h0 entry bbs h
      → mem b bbs ≡ true
      → ((clean_step h b ≡ step h false) × (subset (doms h b) (next_set h b) ≡ true))
        ⊎ ((g : BlockHeap) × (clean_step h b ≡ step g true)
            × Inv h0 entry bbs g
            × Grows (doms g) (doms h)
            × (total (entry ∷ bbs) (doms g) bbs < total (entry ∷ bbs) (doms h) bbs))
  unfolding refine
  step_result h b inv mb =
      let eq = clean_step-refine h b (some_pred h inv b mb) in
      elim (Bool-cases (subset (doms h b) (next_set h b))) [
        | inl e ↦ inl (eq ∙ rw e refl, e)
        | inr e ↦ inr (
          replaced h b (next_set h b),
          eq ∙ rw e refl,
          step-Inv h inv b mb,
          down h inv b mb,
          step_loud h inv b mb e,
        )
      ]
