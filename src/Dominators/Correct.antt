-- ===== src/Dominators/Correct.antt =====
-- What `computeDominators` returns, against the ways from the entry.
use jerryscript_optimizer.Prelude.{
  ℕ, suc, ◌*◌, ◌<◌, ◌≡◌, ◌≢◌, ◌↔◌, refl, sym, ◌∙◌, true, none, List, [], ◌∷◌, ◌==◌, ==_iff, arith,
  Bool-cases, List-cases, if◌then◌else◌, inl, inr, ⊎_elim, length,
}
use jerryscript_optimizer.Prelude.Sets.{mem, mem-cons, mem_nil}
use jerryscript_optimizer.Prelude.Count.{subset_apply}
use jerryscript_optimizer.Prelude.Totals.{total-le}
use jerryscript_optimizer.Blocks.{BlockHeap, update}
use jerryscript_optimizer.Dominators.{done, fill, start_dominators}
use jerryscript_optimizer.Dominators.Clean.{clean_dominators}
use jerryscript_optimizer.Dominators.Round.{next_set, OfEach, mem-next_set}
use jerryscript_optimizer.Dominators.Steps.{
  Walk, here, onward, Visits, Dominates, doms, IsConnected, Inv,
}
use jerryscript_optimizer.Dominators.Solution.{Quiet, loop_ends}

fill_lists :
    (h : BlockHeap) (all bbs : List ℕ) (p : ℕ)
    → (doms (fill h all bbs) p ≡ (if mem p bbs then all else doms h p))
      × ((fill h all bbs p).predecessors ≡ (h p).predecessors)
unfolding fill
fill_lists h all [] p = rw (mem_nil p) (refl, refl)
fill_lists h all (b ∷ bbs) p = ground (
  arith,
  mem-cons p b bbs,
  fill_lists (update h b (record (h b) { dominators = all; idom = none })) all bbs p,
)

pub start_lists :
    (h : BlockHeap) (entry : ℕ) (bbs : List ℕ) (p : ℕ)
    → (doms (start_dominators h entry bbs) p
        ≡ (if mem p bbs then entry ∷ bbs else if p == entry then entry ∷ [] else doms h p))
      × ((start_dominators h entry bbs p).predecessors ≡ (h p).predecessors)
unfolding start_dominators
start_lists h entry bbs p = ground (
  arith,
  fill_lists (update h entry (record (h entry) { dominators = entry ∷ []; idom = none }))
      (entry ∷ bbs) bbs p,
)

module _ (h : BlockHeap) (entry : ℕ) (bbs : List ℕ) (shape : IsConnected h entry bbs) where
  start_list : (b : ℕ) → mem b bbs ≡ true → doms (start_dominators h entry bbs) b ≡ entry ∷ bbs
  start_list b mb = (start_lists h entry bbs b).0 ∙ rw mb refl

  start_entry : doms (start_dominators h entry bbs) entry ≡ entry ∷ []
  start_entry =
      let e : (entry == entry) ≡ true = (==_iff entry entry).1 refl in
      (start_lists h entry bbs entry).0 ∙ rw (shape.apart, e) refl

  -- Every listed block's list lies among the listed blocks.
  start_within :
      (b d : ℕ)
      → mem b (entry ∷ bbs) ≡ true
      → mem d (doms (start_dominators h entry bbs) b) ≡ true
      → mem d (entry ∷ bbs) ≡ true
  start_within b d mb md = elim (Bool-cases (mem b bbs)) [
    | inl m ↦ rw (start_list b m) at md
    | inr m ↦
        let q : b ≡ entry = ground (arith, mem-cons b entry bbs) in
        let md' : mem d (entry ∷ []) ≡ true = rw (q, start_entry) at md in
        ground (arith, mem-cons d entry [], mem_nil d, mem-cons d entry bbs)
  ]

  -- A dominator of every predecessor lies among the listed blocks, since there is a predecessor.
  shared_within :
      (b d : ℕ)
      → mem b bbs ≡ true
      → OfEach (start_dominators h entry bbs) d (start_dominators h entry bbs b).predecessors
      → mem d (entry ∷ bbs) ≡ true
  shared_within b d mb each =
      let edges = (start_lists h entry bbs b).1 in
      elim (List-cases (h b).predecessors) [
        | inl e ↦ absurd (shape.entered b mb e)
        | inr (p, rest, e) ↦
            let mp : mem p (h b).predecessors ≡ true = rw e (ground (arith, mem-cons p p rest)) in
            start_within p d (shape.closed b p mb mp) (each p (rw edges mp))
      ]

  Inv-start : Inv h entry bbs (start_dominators h entry bbs)
  unfolding Visits
  Inv-start = record {
    edges = λ p. (start_lists h entry bbs p).1;
    first = start_entry;
    shrinks = λ b d mb m.
        let some : (start_dominators h entry bbs b).predecessors ≢ [] =
          λ e. shape.entered b mb (sym (start_lists h entry bbs b).1 ∙ e) in
        rw (start_list b mb) (
          ⊎_elim (λ e. rw e (ground (arith, mem-cons b entry bbs)))
            (λ each. shared_within b d mb each)
            ((mem-next_set (start_dominators h entry bbs) b d some).0 m));
    within = λ b d mb m. start_within b d (ground (arith, mem-cons b entry bbs)) m;
    complete = λ n d mn md dom. elim (Bool-cases (mem n bbs)) [
      | inl m ↦ rw (start_list n m) md
      | inr m ↦
          let q : n ≡ entry = ground (arith, mem-cons n entry bbs) in
          let dom' : Dominates h entry d entry = rw q at dom in
          let at_once : d ≡ entry = dom' here in
          rw (q, start_entry) (ground (arith, mem-cons d entry []))
    ];
  }

  sound :
      (g : BlockHeap)
      → Inv h entry bbs g
      → Quiet h entry bbs shape bbs g
      → (d : ℕ) {n : ℕ} (w : Walk h entry n) → mem n (entry ∷ bbs) ≡ true
      → mem d (doms g n) ≡ true
      → Visits w d
  unfolding Visits
  sound g inv quiet d here mn md =
      let md' : mem d (entry ∷ []) ≡ true = rw inv.first at md in
      ground (arith, mem-cons d entry [], mem_nil d)
  sound g inv quiet d (onward {n = n} p w mp) mn md = elim (Bool-cases (mem n bbs)) [
    | inl mb ↦
        let some : (g n).predecessors ≢ [] = λ e. shape.entered n mb (sym (inv.edges n) ∙ e) in
        let next = subset_apply (doms g n) (next_set g n) d (quiet n mb) md in
        ⊎_elim (λ e. inl e)
          (λ each.
            inr (sound g inv quiet d w (shape.closed n p mb mp) (each p (rw (inv.edges n) mp))))
          ((mem-next_set g n d some).0 next)
    | inr no_b ↦
        let q : n ≡ entry = ground (arith, mem-cons n entry bbs) in
        let md' : mem d (entry ∷ []) ≡ true = rw (q, inv.first) at md in
        inl (ground (arith, mem-cons d entry [], mem_nil d))
  ]

-- Where every block but the entry has predecessors and these are listed, `computeDominators` with
-- fuel for every pair of blocks returns, without reading the first of no predecessors, and of two
-- listed blocks one is in the list of the other exactly when every way from the entry to the other
-- passes it.
pub clean_correct :
    (h : BlockHeap) (entry : ℕ) (bbs : List ℕ) (fuel : ℕ)
    → IsConnected h entry bbs
    → length bbs * suc (length bbs) < fuel
    → (g : BlockHeap) × (clean_dominators fuel h entry bbs ≡ done g)
      × ((n d : ℕ)
          → mem n (entry ∷ bbs) ≡ true
          → mem d (entry ∷ bbs) ≡ true
          → (mem d (g n).dominators ≡ true) ↔ Dominates h entry d n)
unfolding clean_dominators
clean_correct h entry bbs fuel shape enough =
    let start = start_dominators h entry bbs in
    let bound = total-le (entry ∷ bbs) (doms start) bbs in
    let (g, run, inv, quiet) =
      loop_ends h entry bbs shape fuel start (Inv-start h entry bbs shape) (omega arith) in
    (
      g,
      run,
      λ n d mn md. (λ m w. sound h entry bbs shape g inv quiet d w mn m, inv.complete n d mn md),
    )

-- The returned lists hold listed blocks only.
pub clean_within :
    (h : BlockHeap) (entry : ℕ) (bbs : List ℕ) (fuel : ℕ)
    → IsConnected h entry bbs
    → length bbs * suc (length bbs) < fuel
    → (g : BlockHeap) × (clean_dominators fuel h entry bbs ≡ done g)
      × ((b d : ℕ) → mem b bbs ≡ true → mem d (doms g b) ≡ true → mem d (entry ∷ bbs) ≡ true)
unfolding clean_dominators
clean_within h entry bbs fuel shape enough =
    let start = start_dominators h entry bbs in
    let bound = total-le (entry ∷ bbs) (doms start) bbs in
    let (g, run, inv, quiet) =
      loop_ends h entry bbs shape fuel start (Inv-start h entry bbs shape) (omega arith) in
    (g, run, inv.within)
