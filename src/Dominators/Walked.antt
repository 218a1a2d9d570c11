-- ===== src/Dominators/Walked.antt =====
-- Where the walks of `computeDominators` erase nothing, it is the textbook iteration; and what it
-- returns or runs into.
use jerryscript_optimizer.Prelude.{
  ℕ, zero, suc, ◌*◌, ◌<◌, ◌≡◌, ◌⊎◌, ◌↔◌, refl, sym, ◌∙◌, ap, Bool, true, false, Option, none, some,
  List, [], ◌∷◌, ◌==◌, arith, Bool-cases, List-cases, inl, inr, length, if◌then◌else◌,
}
use jerryscript_optimizer.Prelude.Sets.{
  mem, keep, subset, insert_all, mem-cons, mem_nil, mem-insert_all,
}
use jerryscript_optimizer.Prelude.Count.{subset_apply}
use jerryscript_optimizer.Blocks.{BasicBlock, BlockHeap}
use jerryscript_optimizer.Dominators.{
  intersect_all, intersection, refine_by, refine, dominator_step, dominator_round, dominator_loop,
  Step, fault, step, done, undefined, start_dominators, compute_dominators,
}
use jerryscript_optimizer.Dominators.Clean.{
  kept_all, shared_set, clean_step, clean_round, clean_loop, clean_dominators,
}
use jerryscript_optimizer.Dominators.Steps.{Dominates, doms, IsConnected}
use jerryscript_optimizer.Dominators.Correct.{start_lists, clean_correct}
use jerryscript_optimizer.Dominators.Kept.{
  Keeps, Step-cases, clean_step-Kept, clean_round-Kept, clean_loop-Kept,
}

-- A block that several ways lead into.
abbrev pub IsJoin : BlockHeap → ℕ → Type 0
IsJoin h b = (first p : ℕ) × (rest : List ℕ) × ((h b).predecessors ≡ first ∷ p ∷ rest)

-- No walk for the block would erase anything.
abbrev IsSettled : BlockHeap → ℕ → Type 0
IsSettled h b =
    (first : ℕ) (rest : List ℕ) (p : ℕ)
    → (h b).predecessors ≡ first ∷ rest
    → mem p rest ≡ true
    → subset (insert_all [] (doms h first)) (doms h p) ≡ true

keep_all : (xs ys : List ℕ) → subset xs ys ≡ true → keep (λ e. mem e ys) xs ≡ xs
unfolding keep subset
keep_all [] ys s = refl
keep_all (x ∷ xs) ys s =
    let here : mem x ys ≡ true = ground arith in
    rw here (ap (λ l. x ∷ l) (keep_all xs ys (ground arith)))

intersect_all_lem :
    (h : BlockHeap) (set preds x : List ℕ)
    → intersect_all h set preds ≡ some x
    → (x ≡ set)
      × (kept_all h set preds ≡ set)
      × ((p : ℕ) → mem p preds ≡ true → subset set (h p).dominators ≡ true)
unfolding intersect_all kept_all
intersect_all_lem h set [] x run = (cc, refl, λ p m. absurd (cc (mem_nil p)))
intersect_all_lem h set (q ∷ preds) x run = elim (Bool-cases (subset set (h q).dominators)) [
  | inl e ↦
      let (same, all, covers) = intersect_all_lem h set preds x (rw e at run) in
      (
        same,
        rw (keep_all set (h q).dominators e) all,
        λ p mp. elim (Bool-cases (p == q)) [
          | inl at ↦ let pq : p ≡ q = ground arith in rw pq e
          | inr at ↦ covers p (ground (arith, mem-cons p q preds))
        ],
      )
  | inr e ↦ let bad : none ≡ some x = rw e at run in absurd (cc)
]

-- A walk faults at a join only; else the step is that of the textbook.
abbrev StepCases : BlockHeap → ℕ → Type 0
StepCases h b =
    ((dominator_step h b ≡ fault) × IsJoin h b)
    ⊎ ((dominator_step h b ≡ clean_step h b) × IsSettled h b)

walk_cases :
    (h : BlockHeap) (b first : ℕ) (rest : List ℕ) (o : Option (List ℕ))
    → (h b).predecessors ≡ first ∷ rest
    → intersect_all h (insert_all [] (h first).dominators) rest ≡ o
    → StepCases h b
unfolding intersect_all dominator_step intersection refine_by clean_step shared_set
walk_cases h b first [] none e run = absurd (cc)
walk_cases h b first (p ∷ rest) none e run =
    inl (stops h b first (p ∷ rest) e run, (first, p, rest, e))
  where
    stops :
        (h : BlockHeap) (b first : ℕ) (rest : List ℕ)
        → (h b).predecessors ≡ first ∷ rest
        → intersect_all h (insert_all [] (h first).dominators) rest ≡ none
        → dominator_step h b ≡ fault
    stops h b first rest e run = rw (e, dominator_step, intersection, run, refine_by) refl
walk_cases h b first rest (some x) e run =
    let (same, all, covers) = intersect_all_lem h (insert_all [] (h first).dominators) rest x run in
    inr (
      rw (e, dominator_step, intersection, run, refine_by, clean_step, shared_set, all, same) refl,
      λ f r p e' mp.
          let both : first ∷ rest ≡ f ∷ r = sym e ∙ e' in
          let fs : f ≡ first = cc both in
          let rs : r ≡ rest = cc both in rw fs (covers p (rw rs at mp)),
    )

step_cases : (h : BlockHeap) (b : ℕ) → StepCases h b
unfolding dominator_step clean_step
step_cases h b = elim (List-cases (h b).predecessors) [
  | inl e ↦ inr (rw (e, dominator_step, clean_step) refl, λ f r p e' mp. absurd (cc))
  | inr (first, rest, e) ↦
      walk_cases h b first rest (intersect_all h (insert_all [] (h first).dominators) rest) e refl
]

refine_still :
    (h : BlockHeap) (b : ℕ) (set : List ℕ) (g : BlockHeap) → refine h b set ≡ step g false → g ≡ h
unfolding refine
refine_still h b set g run = elim (Bool-cases (subset (h b).dominators set)) [
  | inl e ↦ let same : step h false ≡ step g false = rw e at run in cc same
  | inr e ↦ let bad = rw e at run in absurd (cc bad)
]

-- A step that changes nothing keeps the memory, and no walk of it erased anything.
step_still :
    (h : BlockHeap) (b : ℕ) (g : BlockHeap)
    → dominator_step h b ≡ step g false
    → (g ≡ h) × IsSettled h b
unfolding clean_step
step_still h b g run = elim (step_cases h b) [
  | inl (stop, join) ↦ absurd (cc (stop, run))
  | inr (same, settled) ↦
      let clean : clean_step h b ≡ step g false = sym same ∙ run in
      elim (List-cases (h b).predecessors) [
        | inl e ↦ let bad : fault ≡ step g false = rw (e, clean_step) at clean in absurd (cc)
        | inr (first, rest, e) ↦
            let kept : refine h b (shared_set h b first rest) ≡ step g false =
              rw (e, clean_step) at clean in
            (refine_still h b (shared_set h b first rest) g kept, settled)
      ]
]

never_quiet : (bs : List ℕ) (h g : BlockHeap) → dominator_round h bs true ≡ step g false → ⊥
unfolding dominator_round
never_quiet [] h g run = cc
never_quiet (b ∷ bs) h g run = elim (Step-cases (dominator_step h b)) [
  | inl e ↦ let bad : fault ≡ step g false = rw (e, dominator_round) at run in cc
  | inr (k, true, e) ↦ never_quiet bs k g (rw (e, dominator_round) at run)
  | inr (k, false, e) ↦ never_quiet bs k g (rw (e, dominator_round) at run)
]

round_quiet :
    (bs : List ℕ) (h g : BlockHeap)
    → dominator_round h bs false ≡ step g false
    → (g ≡ h) × ((b : ℕ) → mem b bs ≡ true → IsSettled h b)
unfolding dominator_round
round_quiet [] h g run = (cc, λ b m. absurd (cc (mem_nil b)))
round_quiet (b ∷ bs) h g run = elim (Step-cases (dominator_step h b)) [
  | inl e ↦ let bad : fault ≡ step g false = rw (e, dominator_round) at run in absurd (cc)
  | inr (k, true, e) ↦ absurd (never_quiet bs k g (rw (e, dominator_round) at run))
  | inr (k, false, e) ↦
      let (kh, settled) = step_still h b k e in
      let run' : dominator_round k bs false ≡ step g false = rw (e, dominator_round) at run in
      let (gh, all) = round_quiet bs h g (rw kh at run') in
      (
        gh,
        λ d md. elim (Bool-cases (d == b)) [
          | inl q ↦ let db : d ≡ b = ground arith in rw db settled
          | inr q ↦ all d (ground (arith, mem-cons d b bs))
        ],
      )
]

loop-IsSettled :
    (fuel : ℕ) (h : BlockHeap) (bbs : List ℕ) (g : BlockHeap)
    → dominator_loop fuel h bbs ≡ done g
    → (b : ℕ) → mem b bbs ≡ true
    → IsSettled g b
unfolding dominator_loop
loop-IsSettled zero h bbs g run b mb = absurd (cc)
loop-IsSettled (suc fuel) h bbs g run b mb = elim (Step-cases (dominator_round h bbs false)) [
  | inl e ↦ let bad : undefined ≡ done g = rw (e, dominator_loop) at run in absurd (cc)
  | inr (k, true, e) ↦ loop-IsSettled fuel k bbs g (rw (e, dominator_loop) at run) b mb
  | inr (k, false, e) ↦
      let same : done k ≡ done g = rw (e, dominator_loop) at run in
      let gk : g ≡ k = cc same in let (kh, all) = round_quiet bbs h k e in rw (gk, kh) (all b mb)
]

-- Some listed block is a join.
abbrev pub HasJoin : BlockHeap → List ℕ → Type 0
HasJoin h bbs = (b : ℕ) × (mem b bbs ≡ true) × IsJoin h b

abbrev SameEdges : BlockHeap → BlockHeap → Type 0
SameEdges h0 h = (p : ℕ) → (h p).predecessors ≡ (h0 p).predecessors

edges_after :
    (h0 h : BlockHeap) (s : Step) (g : BlockHeap) (c : Bool)
    → SameEdges h0 h
    → Keeps h s
    → s ≡ step g c
    → SameEdges h0 g
unfolding Keeps
edges_after h0 h fault g c same kept e p = absurd (cc)
edges_after h0 h (step k d) g c same kept e p =
    let gk : g ≡ k = cc e in
    ap (λ (m : BlockHeap). (m p).predecessors) gk
    ∙ ap (λ (b : BasicBlock). b.predecessors) (kept.same p)
    ∙ same p

round_cases :
    (h0 : BlockHeap) (bs : List ℕ) (h : BlockHeap) (c : Bool)
    → SameEdges h0 h
    → ((dominator_round h bs c ≡ fault) × HasJoin h0 bs)
      ⊎ (dominator_round h bs c ≡ clean_round h bs c)
unfolding dominator_round clean_round
round_cases h0 [] h c same = inr refl
round_cases h0 (b ∷ bs) h c same = elim (step_cases h b) [
  | inl (stop, (first, p, rest, e)) ↦ inl (
    rw (stop, dominator_round) refl,
    (b, ground (arith, mem-cons b b bs), (first, p, rest, sym (same b) ∙ e)),
  )
  | inr (eq, settled) ↦ elim (Step-cases (clean_step h b)) [
    | inl f ↦ let f' = eq ∙ f in inr (rw (f', f, dominator_round, clean_round) refl)
    | inr (g, now, f) ↦
        let f' = eq ∙ f in
        let edges = edges_after h0 h (clean_step h b) g now same (clean_step-Kept h b) f in
        elim (round_cases h0 bs g (if now then true else c) edges) [
          | inl (stop, (d, md, join)) ↦
              inl (rw (f', dominator_round) stop, (d, ground (arith, mem-cons d b bs), join))
          | inr rest ↦ inr (rw (f', f, dominator_round, clean_round) rest)
        ]
  ]
]

loop_cases :
    (h0 : BlockHeap) (bbs : List ℕ) (fuel : ℕ) (h : BlockHeap)
    → SameEdges h0 h
    → ((dominator_loop fuel h bbs ≡ undefined) × HasJoin h0 bbs)
      ⊎ (dominator_loop fuel h bbs ≡ clean_loop fuel h bbs)
unfolding dominator_loop clean_loop
loop_cases h0 bbs zero h same = inr refl
loop_cases h0 bbs (suc fuel) h same = elim (round_cases h0 bbs h false same) [
  | inl (stop, join) ↦ inl (rw (stop, dominator_loop) refl, join)
  | inr eq ↦ elim (Step-cases (clean_round h bbs false)) [
    | inl f ↦ let f' = eq ∙ f in inr (rw (f', f, dominator_loop, clean_loop) refl)
    | inr (g, false, f) ↦ let f' = eq ∙ f in inr (rw (f', f, dominator_loop, clean_loop) refl)
    | inr (g, true, f) ↦
        let f' = eq ∙ f in
        let edges =
          edges_after h0 h (clean_round h bbs false) g true same (clean_round-Kept h bbs false) f in
        elim (loop_cases h0 bbs fuel g edges) [
          | inl (stop, join) ↦ inl (rw (f', dominator_loop) stop, join)
          | inr rest ↦ inr (rw (f', f, dominator_loop, clean_loop) rest)
        ]
  ]
]

-- Of two listed blocks one is in the list of the other exactly when it dominates it.
abbrev pub IsExact : BlockHeap → ℕ → List ℕ → BlockHeap → Type 0
IsExact h entry bbs g =
    (n d : ℕ)
    → mem n (entry ∷ bbs) ≡ true
    → mem d (entry ∷ bbs) ≡ true
    → (mem d (g n).dominators ≡ true) ↔ Dominates h entry d n

-- Where every block but the entry has predecessors and these are listed, `computeDominators` with
-- fuel for every pair of blocks returns, and of two listed blocks one is in the list of the other
-- exactly when every way from the entry to the other passes it; or it runs into the undefined
-- behaviour of erasing from the set that it walks, and then some block has two predecessors.
pub compute_dominators_correct :
    (h : BlockHeap) (entry : ℕ) (bbs : List ℕ) (fuel : ℕ)
    → IsConnected h entry bbs
    → length bbs * suc (length bbs) < fuel
    → ((g : BlockHeap) × (compute_dominators fuel h entry bbs ≡ done g) × IsExact h entry bbs g)
      ⊎ ((compute_dominators fuel h entry bbs ≡ undefined) × HasJoin h bbs)
unfolding compute_dominators clean_dominators
compute_dominators_correct h entry bbs fuel shape enough =
    let (g, run, exact) = clean_correct h entry bbs fuel shape enough in
    elim (loop_cases h bbs fuel (start_dominators h entry bbs)
      (λ p. (start_lists h entry bbs p).1)) [
        | inl bad ↦ inr bad
        | inr same ↦ inl (g, same ∙ run, exact)
      ]

-- What it returns is what the textbook iteration returns.
pub done_clean :
    (h : BlockHeap) (entry : ℕ) (bbs : List ℕ) (fuel : ℕ) (g : BlockHeap)
    → compute_dominators fuel h entry bbs ≡ done g
    → clean_dominators fuel h entry bbs ≡ done g
unfolding compute_dominators clean_dominators
done_clean h entry bbs fuel g run =
    elim (loop_cases h bbs fuel (start_dominators h entry bbs)
      (λ p. (start_lists h entry bbs p).1)) [
        | inl (bad, join) ↦ absurd (cc (bad, run))
        | inr same ↦ sym same ∙ run
      ]

clean_run :
    (h : BlockHeap) (entry : ℕ) (bbs : List ℕ) (fuel : ℕ) (g : BlockHeap)
    → compute_dominators fuel h entry bbs ≡ done g
    → clean_loop fuel (start_dominators h entry bbs) bbs ≡ done g
unfolding clean_dominators
clean_run h entry bbs fuel g run = done_clean h entry bbs fuel g run

-- Where some block's first predecessor has a dominator that a further predecessor does not have, as
-- behind the two branches of a condition, `computeDominators` runs into undefined behaviour.
pub compute_dominators_undefined :
    (h : BlockHeap) (entry : ℕ) (bbs : List ℕ) (fuel : ℕ)
    → IsConnected h entry bbs
    → length bbs * suc (length bbs) < fuel
    → (b first p d : ℕ) (rest : List ℕ) → mem b bbs ≡ true
    → (h b).predecessors ≡ first ∷ rest
    → mem p rest ≡ true
    → mem d (entry ∷ bbs) ≡ true
    → Dominates h entry d first
    → (Dominates h entry d p → ⊥)
    → compute_dominators fuel h entry bbs ≡ undefined
unfolding compute_dominators
compute_dominators_undefined h entry bbs fuel shape enough b first p d rest mb e mp md dom other =
    elim (compute_dominators_correct h entry bbs fuel shape enough) [
      | inr (bad, join) ↦ bad
      | inl (g, run, exact) ↦
          let settled = loop-IsSettled fuel (start_dominators h entry bbs) bbs g run b mb in
          let kept =
            clean_loop-Kept fuel (start_dominators h entry bbs) bbs g
              (clean_run h entry bbs fuel g run) in
          let edges : (g b).predecessors ≡ first ∷ rest =
            ap (λ (x : BasicBlock). x.predecessors) (kept.same b)
            ∙ (start_lists h entry bbs b).1
            ∙ e in
          let in_first : mem first (h b).predecessors ≡ true =
            rw e (ground (arith, mem-cons first first rest)) in
          let in_rest : mem p (h b).predecessors ≡ true =
            rw e (ground (arith, mem-cons p first rest)) in
          let lf = shape.closed b first mb in_first in
          let lp = shape.closed b p mb in_rest in
          let at_first : mem d (doms g first) ≡ true = (exact first d lf md).1 dom in
          let in_set : mem d (insert_all [] (doms g first)) ≡ true =
            ground (arith, mem-insert_all d [] (doms g first)) in
          let at_p =
            subset_apply (insert_all [] (doms g first)) (doms g p) d (settled first rest p edges mp)
              in_set in
          absurd (other ((exact p d lp md).0 at_p))
    ]
