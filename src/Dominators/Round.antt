-- ===== src/Dominators/Round.antt =====
-- One block's step and its equation: the block itself, and what all predecessors share.
use jerryscript_optimizer.Prelude.{
  ℕ, ◌≡◌, ◌≢◌, ◌↔◌, ◌⊎◌, refl, sym, ◌∙◌, true, false, List, [], ◌∷◌, ◌==◌, ==_iff, arith,
  Bool-cases, List-cases, inl, inr, ⊎_elim,
}
use jerryscript_optimizer.Prelude.Sets.{
  mem, insert_all, keep, mem-insert, mem-insert_all, mem-keep, mem_nil, mem-cons,
}
use jerryscript_optimizer.Blocks.{BlockHeap, update}
use jerryscript_optimizer.Dominators.{refine}
use jerryscript_optimizer.Dominators.Clean.{kept_all, shared_set, clean_step}

-- The set that the body computes for a block with predecessors.
unfoldable pub next_set : BlockHeap → ℕ → List ℕ
next_set h b = elim (h b).predecessors [ [] ↦ [] | first ∷ preds ↦ shared_set h b first preds ]

-- A block is a dominator of each of the listed predecessors.
abbrev pub OfEach : BlockHeap → ℕ → List ℕ → Type 0
OfEach h d preds = (p : ℕ) → mem p preds ≡ true → mem d (h p).dominators ≡ true

kept_all_sound :
    (h : BlockHeap) (set preds : List ℕ) (d : ℕ)
    → mem d (kept_all h set preds) ≡ true
    → (mem d set ≡ true) × OfEach h d preds
unfolding kept_all mem
kept_all_sound h set [] d m = (m, λ p none_left. cc)
kept_all_sound h set (q ∷ preds) d m =
    let (kept, each) = kept_all_sound h (keep (λ elem. mem elem (h q).dominators) set) preds d m in
    let both = mem-keep (λ elem. mem elem (h q).dominators) d set in
    (
      ground arith,
      λ p mp. elim (Bool-cases (p == q)) [
        | inl e ↦ let s : p ≡ q = ground arith in rw s (ground arith)
        | inr e ↦ each p (ground arith)
      ],
    )

kept_all_complete :
    (h : BlockHeap) (set preds : List ℕ) (d : ℕ)
    → mem d set ≡ true
    → OfEach h d preds
    → mem d (kept_all h set preds) ≡ true
unfolding kept_all
kept_all_complete h set [] d m each = m
kept_all_complete h set (q ∷ preds) d m each =
    let here : mem d (h q).dominators ≡ true = each q (ground (arith, mem-cons q q preds)) in
    kept_all_complete h (keep (λ elem. mem elem (h q).dominators) set) preds d
      (ground (arith, mem-keep (λ elem. mem elem (h q).dominators) d set))
      (λ p mp. each p (ground (arith, mem-cons p q preds)))

-- For a block with predecessors: itself, and what dominates each predecessor.
pub mem-next_set :
    (h : BlockHeap) (b d : ℕ)
    → (h b).predecessors ≢ []
    → (mem d (next_set h b) ≡ true) ↔ ((d ≡ b) ⊎ OfEach h d (h b).predecessors)
unfolding next_set shared_set
mem-next_set h b d some_pred = elim (List-cases (h b).predecessors) [
  | inl e ↦ absurd (some_pred e)
  | inr (first, preds, e) ↦
      let one = mem-insert_all d [] (h first).dominators in
      let empty = mem_nil d in
      let all = mem-insert d b (kept_all h (insert_all [] (h first).dominators) preds) in
      rw e (
        λ m. elim (Bool-cases (d == b)) [
          | inl same ↦ inl (ground arith)
          | inr other ↦
              let (m1, each) =
                kept_all_sound h (insert_all [] (h first).dominators) preds d (ground arith) in
              inr (λ p mp. elim (Bool-cases (p == first)) [
                | inl s ↦ let s' : p ≡ first = ground arith in rw s' (ground arith)
                | inr s ↦ each p (ground (arith, mem-cons p first preds))
              ])
        ],
        λ c.
            ⊎_elim (λ same. ground arith)
              (λ each.
                let here : mem d (h first).dominators ≡ true =
                  each first (ground (arith, mem-cons first first preds)) in
                let m1 =
                  kept_all_complete h (insert_all [] (h first).dominators) preds d (ground arith)
                    (λ p mp. each p (ground (arith, mem-cons p first preds))) in
                ground arith)
              c,
      )
]

pub clean_step-refine :
    (h : BlockHeap) (b : ℕ) → (h b).predecessors ≢ [] → clean_step h b ≡ refine h b (next_set h b)
unfolding clean_step next_set
clean_step-refine h b some_pred = elim (List-cases (h b).predecessors) [
  | inl e ↦ absurd (some_pred e)
  | inr (first, preds, e) ↦ rw (e, clean_step, next_set) refl
]

-- The memory after a changing step: smaller lists, the same edges.
abbrev pub replaced : BlockHeap → ℕ → List ℕ → BlockHeap
replaced h b set = update h b (record (h b) { dominators = set })

pub replaced_self : (h : BlockHeap) (b : ℕ) (set : List ℕ) → (replaced h b set b).dominators ≡ set
replaced_self h b set = let e : (b == b) ≡ true = (==_iff b b).1 refl in rw e

pub replaced_ne :
    (h : BlockHeap) (b p : ℕ) (set : List ℕ)
    → (p == b) ≡ false
    → (replaced h b set p).dominators ≡ (h p).dominators
replaced_ne h b p set e = rw e

pub replaced_predecessors :
    (h : BlockHeap) (b p : ℕ) (set : List ℕ)
    → (replaced h b set p).predecessors ≡ (h p).predecessors
replaced_predecessors h b p set = ground arith

-- Smaller sets give smaller sets.
pub next_set_mono :
    (h g : BlockHeap) (b : ℕ)
    → (h b).predecessors ≢ []
    → (g b).predecessors ≡ (h b).predecessors
    → ((p d : ℕ) → mem d (g p).dominators ≡ true → mem d (h p).dominators ≡ true)
    → (d : ℕ) → mem d (next_set g b) ≡ true
    → mem d (next_set h b) ≡ true
next_set_mono h g b some_pred same down d m =
    let some_pred' : (g b).predecessors ≢ [] = λ e. some_pred (sym same ∙ e) in
    (mem-next_set h b d some_pred).1 (
      ⊎_elim (λ e. inl e) (λ each. inr (λ p mp. down p d (each p (rw same mp))))
        ((mem-next_set g b d some_pred').0 m))
