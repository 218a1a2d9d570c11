-- ===== src/Dominators/Kept.antt =====
-- What `computeDominators` keeps of every block: its list is a set, and all but its list is as before.
use jerryscript_optimizer.Prelude.{
  ℕ, zero, suc, ◌≡◌, refl, ◌∙◌, ap, Bool, true, false, List, [], ◌∷◌, ◌==◌, arith, Bool-cases,
  List-cases, inl, inr, ◌⊎◌, none, if◌then◌else◌,
}
use jerryscript_optimizer.Prelude.Sets.{
  mem, keep, subset, insert_all, mem-keep, IsNodup, IsNodup-insert, IsNodup-insert_all,
}
use jerryscript_optimizer.Blocks.{BasicBlock, BlockHeap, update}
use jerryscript_optimizer.Dominators.Correct.{start_lists}
use jerryscript_optimizer.Dominators.{
  refine, step, fault, Step, done, undefined, fill, start_dominators,
}
use jerryscript_optimizer.Dominators.Clean.{
  kept_all, shared_set, clean_step, clean_round, clean_loop, clean_dominators,
}

pub keep-IsNodup : (p : ℕ → Bool) (xs : List ℕ) → IsNodup xs → IsNodup (keep p xs)
unfolding keep
keep-IsNodup p [] nd = tt
keep-IsNodup p (x ∷ xs) nd = elim (Bool-cases (p x)) [
  | inl e ↦ rw e (ground (arith, mem-keep p x xs), keep-IsNodup p xs nd.1)
  | inr e ↦ rw e (keep-IsNodup p xs nd.1)
]

kept_all-IsNodup :
    (h : BlockHeap) (set preds : List ℕ) → IsNodup set → IsNodup (kept_all h set preds)
unfolding kept_all
kept_all-IsNodup h set [] nd = nd
kept_all-IsNodup h set (q ∷ preds) nd =
    kept_all-IsNodup h (keep (λ elem. mem elem (h q).dominators) set) preds
      (keep-IsNodup (λ elem. mem elem (h q).dominators) set nd)

-- A block without its list of dominators.
abbrev pub rest_of : BasicBlock → BasicBlock
rest_of b = record b { dominators = [] }

pub record Kept (h g : BlockHeap) : Type 0 where
  pub sets : (p : ℕ) → IsNodup (h p).dominators → IsNodup (g p).dominators
  pub same : (p : ℕ) → rest_of (g p) ≡ rest_of (h p)

Kept-refl : (h : BlockHeap) → Kept h h
Kept-refl h = record { sets = λ p nd. nd; same = λ p. refl }

Kept-trans : (h g k : BlockHeap) → Kept h g → Kept g k → Kept h k
Kept-trans h g k a b = record {
  sets = λ p nd. b.sets p (a.sets p nd);
  same = λ p. b.same p ∙ a.same p;
}

refine-Kept :
    (h : BlockHeap) (bb : ℕ) (set : List ℕ)
    → IsNodup set
    → (g : BlockHeap) × (c : Bool) × (refine h bb set ≡ step g c) × Kept h g
unfolding refine
refine-Kept h bb set nd = elim (Bool-cases (subset (h bb).dominators set)) [
  | inl e ↦ (h, false, rw e refl, Kept-refl h)
  | inr e ↦ (
    update h bb (record (h bb) { dominators = set }),
    true,
    rw e refl,
    record { sets = λ p old. ground arith; same = λ p. ground arith },
  )
]

-- A step that gives blocks keeps them.
unfoldable pub Keeps : BlockHeap → Step → Type 0
Keeps h fault = Unit {0}
Keeps h (step g c) = Kept h g

pub clean_step-Kept : (h : BlockHeap) (bb : ℕ) → Keeps h (clean_step h bb)
unfolding clean_step shared_set Keeps
clean_step-Kept h bb = elim (List-cases (h bb).predecessors) [
  | inl e ↦ rw (e, Keeps) tt
  | inr (first, preds, e) ↦
      let set = kept_all h (insert_all [] (h first).dominators) preds in
      let nd = IsNodup-insert bb set (
        kept_all-IsNodup h (insert_all [] (h first).dominators) preds
          (IsNodup-insert_all [] (h first).dominators tt)) in
      let (g, c, run, kept) = refine-Kept h bb (shared_set h bb first preds) nd in
      rw (e, run, Keeps) kept
]

pub Step-cases : (s : Step) → (s ≡ fault) ⊎ ((g : BlockHeap) × (c : Bool) × (s ≡ step g c))
Step-cases fault = inl refl
Step-cases (step g c) = inr (g, c, refl)

pub clean_round-Kept : (h : BlockHeap) (bs : List ℕ) (c : Bool) → Keeps h (clean_round h bs c)
unfolding clean_round Keeps
clean_round-Kept h [] c = Kept-refl h
clean_round-Kept h (b ∷ bs) c =
    let first = clean_step-Kept h b in
    elim (Step-cases (clean_step h b)) [
      | inl e ↦ rw (e, Keeps) tt
      | inr (g, now, e) ↦
          let kept : Kept h g = rw (e, Keeps) at first in
          let later = clean_round-Kept g bs (if now then true else c) in
          rw (e, Keeps) (both h g (clean_round g bs (if now then true else c)) kept later)
    ]
  where
    both : (h g : BlockHeap) (s : Step) → Kept h g → Keeps g s → Keeps h s
    both h g fault a b = tt
    both h g (step k c) a b = Kept-trans h g k a b

pub clean_loop-Kept :
    (fuel : ℕ) (h : BlockHeap) (bbs : List ℕ) (g : BlockHeap)
    → clean_loop fuel h bbs ≡ done g
    → Kept h g
unfolding clean_loop Keeps
clean_loop-Kept zero h bbs g run = absurd (cc)
clean_loop-Kept (suc fuel) h bbs g run =
    let first = clean_round-Kept h bbs false in
    elim (Step-cases (clean_round h bbs false)) [
      | inl e ↦ let bad : undefined ≡ done g = rw (e, clean_loop) at run in absurd (cc)
      | inr (k, c, e) ↦
          let kept : Kept h k = rw (e, Keeps) at first in
          let run' = rw (e, clean_loop) at run in
          elim (Bool-cases c) [
            | inl more ↦
                Kept-trans h k g kept (clean_loop-Kept fuel k bbs g (rw (more, clean_loop) at run'))
            | inr still ↦
                let same : done k ≡ done g = rw (still, clean_loop) at run' in
                let eq : k ≡ g = cc in rw (← eq) kept
          ]
    ]

fill_idom :
    (h : BlockHeap) (all bbs : List ℕ) (p : ℕ)
    → (fill h all bbs p).idom ≡ (if mem p bbs then none else (h p).idom)
unfolding fill mem
fill_idom h all [] p = refl
fill_idom h all (b ∷ bbs) p =
    ground
      (arith, fill_idom (update h b (record (h b) { dominators = all; idom = none })) all bbs p)

-- Where the blocks are different, `computeDominators` leaves sets, and the first block without an
-- immediate dominator.
pub clean_dominators-Kept :
    (fuel : ℕ) (h : BlockHeap) (entry : ℕ) (bbs : List ℕ) (g : BlockHeap)
    → IsNodup (entry ∷ bbs)
    → clean_dominators fuel h entry bbs ≡ done g
    → ((p : ℕ) → mem p bbs ≡ true → IsNodup (g p).dominators) × ((g entry).idom ≡ none)
unfolding clean_dominators start_dominators
clean_dominators-Kept fuel h entry bbs g nd run =
    let kept = clean_loop-Kept fuel (start_dominators h entry bbs) bbs g run in
    (
      λ p mp.
          let listed = (start_lists h entry bbs p).0 in
          let whole : (start_dominators h entry bbs p).dominators ≡ entry ∷ bbs =
            listed ∙ rw mp refl in
          kept.sets p (rw whole nd),
      let self : (entry == entry) ≡ true = ground arith in
          ap (λ (b : BasicBlock). b.idom) (kept.same entry)
          ∙ fill_idom (update h entry (record (h entry) { dominators = entry ∷ []; idom = none }))
              (entry ∷ bbs) bbs entry
          ∙ rw (nd.0, self) refl,
    )
