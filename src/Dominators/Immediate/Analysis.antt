-- ===== src/Dominators/Immediate/Analysis.antt =====
-- The whole analysis against the ways from the entry.
use mathlib.Core.Path.{subst}
use jerryscript_optimizer.Prelude.{
  ℕ, suc, ◌*◌, ◌<◌, ◌≤◌, ◌≡◌, ◌≢◌, ◌⊎◌, ◌↔◌, refl, sym, ◌∙◌, ap, true, false, not, Option, none,
  some, List, [], ◌∷◌, ◌==◌, arith, length, Bool-cases, inl, inr, ⊎_elim,
}
use jerryscript_optimizer.Prelude.Sets.{mem, mem-keep, mem-cons, mem_nil, IsNodup}
use jerryscript_optimizer.Prelude.Count.{subset_of, length-le_of_subset}
use jerryscript_optimizer.Blocks.{BlockHeap}
use jerryscript_optimizer.Dominators.{dominated_by, done, undefined, compute_dominators}
use jerryscript_optimizer.Dominators.Steps.{Walk, Dominates, doms, IsConnected}
use jerryscript_optimizer.Dominators.Correct.{clean_within}
use jerryscript_optimizer.Dominators.Walked.{IsExact, compute_dominators_correct, done_clean}
use jerryscript_optimizer.Dominators.Kept.{keep-IsNodup, clean_dominators-Kept}
use jerryscript_optimizer.Dominators.Chain.{
  ends_there, from_entry, Dominates-trans, Dominates-chain,
}
use jerryscript_optimizer.Dominators.Immediate.{erase, set_idom, compute_imm_dominator, finish, run}
use jerryscript_optimizer.Dominators.Immediate.Closest.{
  IsLine, mem-erase, erase-mem, mem_not_empty, closest_ends,
}

-- The block's closest dominator among the others in its list.
abbrev Found : BlockHeap → ℕ → Option ℕ → Type 0
Found g n x =
    (d : ℕ) × (x ≡ some d)
    × (mem d (erase n (doms g n)) ≡ true)
    × ((e : ℕ) → mem e (erase n (doms g n)) ≡ true → (e ≡ d) ⊎ (dominated_by g d e ≡ true))

-- What the search relies on for one block.
record IsReady (g : BlockHeap) (fuel n : ℕ) : Type 0 where
  some_left : erase n (doms g n) ≢ []
  apart : IsNodup (erase n (doms g n))
  line : IsLine g (erase n (doms g n))
  enough : length (erase n (doms g n)) ≤ fuel

IsLine-same :
    (g h : BlockHeap) (xs : List ℕ) → ((p : ℕ) → doms h p ≡ doms g p) → IsLine g xs → IsLine h xs
unfolding dominated_by
IsLine-same g h xs same l =
    let there = λ (i j : ℕ). ap (mem j) (same i) in
    record {
      total = λ i j mi mj. rw (there i j, there j i) (l.total i j mi mj);
      passes = λ i j k mi mj mk a b.
          there i k ∙ l.passes i j k mi mj mk (sym (there i j) ∙ a) (sym (there j k) ∙ b);
    }

-- The loop sets the immediate dominator of each block of the list, and nothing else.
compute_imm_dominator_ends :
    (g : BlockHeap) (fuel : ℕ) (bs : List ℕ) (h : BlockHeap)
    → ((p : ℕ) → doms h p ≡ doms g p)
    → ((b : ℕ) → mem b bs ≡ true → IsReady g fuel b)
    → (k : BlockHeap) × (compute_imm_dominator fuel h bs ≡ some k)
      × ((p : ℕ) → mem p bs ≡ true → Found g p (k p).idom)
      × ((p : ℕ) → mem p bs ≡ false → (k p).idom ≡ (h p).idom)
unfolding compute_imm_dominator dominated_by
compute_imm_dominator_ends g fuel [] h same ready =
    (h, refl, λ p m. absurd (cc (mem_nil p)), λ p m. refl)
compute_imm_dominator_ends g fuel (b ∷ bs) h same ready =
    let r = ready b (ground (arith, mem-cons b b bs)) in
    let list : erase b (doms h b) ≡ erase b (doms g b) = ap (erase b) (same b) in
    let (d, found, md, all) =
      closest_ends fuel h (erase b (doms g b)) r.some_left r.apart
        (IsLine-same g h (erase b (doms g b)) same r.line) r.enough in
    let (k, run, each, others) =
      compute_imm_dominator_ends g fuel bs (set_idom h b d) (λ p. kept p d)
        (λ x mx. ready x (ground (arith, mem-cons x b bs))) in
    (
      k,
      rw (list, found) run,
      λ p mp. elim (Bool-cases (mem p bs)) [
        | inl m ↦ each p m
        | inr m ↦
            let pb : p ≡ b = ground (arith, mem-cons p b bs) in
            let at : (set_idom h b d p).idom ≡ some d = rw pb (ground arith) in
            rw pb (
              d,
              sym (ap (λ q. (k q).idom) pb) ∙ others p m ∙ at,
              md,
              λ e me. ⊎_elim (λ ed. inl ed) (λ de. inr (sym (ap (mem e) (same d)) ∙ de)) (all e me),
            )
      ],
      λ p mp. others p (ground (arith, mem-cons p b bs)) ∙ ground (arith, mem-cons p b bs),
    )
  where
    kept : (p d : ℕ) → doms (set_idom h b d) p ≡ doms g p
    kept p d = ground (arith, same p)

-- Each listed block has the closest of its dominators but itself: one that every other such
-- dominator dominates.
abbrev pub IsImmediate : BlockHeap → ℕ → List ℕ → ℕ → Option ℕ → Type 0
IsImmediate h entry bbs n x =
    (d : ℕ) × (x ≡ some d)
    × (mem d (entry ∷ bbs) ≡ true)
    × (d ≢ n)
    × Dominates h entry d n
    × ((e : ℕ) → mem e (entry ∷ bbs) ≡ true → e ≢ n → Dominates h entry e n → Dominates h entry e d)

module _ (h : BlockHeap) (entry : ℕ) (bbs : List ℕ) (shape : IsConnected h entry bbs)
    (nd : IsNodup (entry ∷ bbs)) (reached : (n : ℕ) → mem n bbs ≡ true → Walk h entry n)
    (g : BlockHeap)
    (exact : (n d : ℕ)
      → mem n (entry ∷ bbs) ≡ true
      → mem d (entry ∷ bbs) ≡ true
      → (mem d (doms g n) ≡ true) ↔ Dominates h entry d n)
    (within : (b d : ℕ) → mem b bbs ≡ true → mem d (doms g b) ≡ true → mem d (entry ∷ bbs) ≡ true)
    (sets : (p : ℕ) → mem p bbs ≡ true → IsNodup (doms g p)) where
  listed : (n : ℕ) → mem n bbs ≡ true → mem n (entry ∷ bbs) ≡ true
  listed n m = ground (arith, mem-cons n entry bbs)

  -- A member of the searched list, as a dominator.
  strict :
      (n d : ℕ)
      → mem n bbs ≡ true
      → mem d (erase n (doms g n)) ≡ true
      → (mem d (entry ∷ bbs) ≡ true) × (d ≢ n) × Dominates h entry d n
  strict n d mn md =
      let m = mem-erase n d (doms g n) md in
      let md' = within n d mn m in
      (
        md',
        λ e. ground (arith, mem-keep (λ x. not (x == n)) d (doms g n)),
        (exact n d (listed n mn) md').0 m,
      )

  ready : (fuel n : ℕ) → length bbs < fuel → mem n bbs ≡ true → IsReady g fuel n
  unfolding dominated_by
  ready fuel n lt mn =
      let entry_listed : mem entry (entry ∷ bbs) ≡ true =
        ground (arith, mem-cons entry entry bbs) in
      let top = (exact n entry (listed n mn) entry_listed).1 (λ w. from_entry h entry w) in
      let other : entry ≢ n = λ e. ground (arith, shape.apart) in
      let apart = keep-IsNodup (λ d. not (d == n)) (doms g n) (sets n mn) in
      let inside = λ (d : ℕ). λ (md : mem d (erase n (doms g n)) ≡ true). (strict n d mn md).0 in
      record {
        some_left =
            mem_not_empty entry (erase n (doms g n)) (erase-mem n entry (doms g n) top other);
        apart = apart;
        line = record {
          total = λ i j mi mj.
              let (li, ni, di) = strict n i mn mi in
              let (lj, nj, dj) = strict n j mn mj in
              ⊎_elim (λ ij. inr ((exact j i lj li).1 ij)) (λ ji. inl ((exact i j li lj).1 ji))
                (Dominates-chain h entry i j (reached n mn) di dj);
          passes = λ i j k mi mj mk ij jk.
              let li = inside i mi in
              let lj = inside j mj in
              let lk = inside k mk in
              (exact i k li lk).1
                (Dominates-trans h entry k j i ((exact j k lj lk).0 jk) ((exact i j li lj).0 ij));
        };
        enough =
            let size =
              length-le_of_subset (erase n (doms g n)) (entry ∷ bbs) apart
                (subset_of (erase n (doms g n)) (entry ∷ bbs) inside) in
            omega (arith, size, lt);
      }

  immediate : (n : ℕ) (x : Option ℕ) → mem n bbs ≡ true → Found g n x → IsImmediate h entry bbs n x
  unfolding dominated_by
  immediate n x mn (d, e, md, all) =
      let (ld, other, dom) = strict n d mn md in
      (
        d,
        e,
        ld,
        other,
        dom,
        λ c lc nc dc.
            let mc = erase-mem n c (doms g n) ((exact n c (listed n mn) lc).1 dc) nc in
            ⊎_elim
              (λ same. subst (λ y. Dominates h entry y d) (sym same) (λ w. ends_there h entry w))
              (λ by. (exact d c ld lc).0 by) (all c mc),
      )

-- The assertion holds.
finish_lem :
    (fuel entry : ℕ) (bbs : List ℕ) (g : BlockHeap)
    → (g entry).idom ≡ none
    → finish fuel entry bbs (done g) ≡ compute_imm_dominator fuel g bbs
unfolding finish
finish_lem fuel entry bbs g e = rw (e, finish) refl

-- The rest of the analysis, when the lists are there.
run_done :
    (rounds fuel : ℕ) (h : BlockHeap) (entry : ℕ) (bbs : List ℕ) (g : BlockHeap)
    → IsConnected h entry bbs
    → IsNodup (entry ∷ bbs)
    → ((n : ℕ) → mem n bbs ≡ true → Walk h entry n)
    → length bbs * suc (length bbs) < rounds
    → length bbs < fuel
    → compute_dominators rounds h entry bbs ≡ done g
    → IsExact h entry bbs g
    → (k : BlockHeap) × (run rounds fuel h entry bbs ≡ some k)
      × ((n : ℕ) → mem n bbs ≡ true → IsImmediate h entry bbs n (k n).idom)
unfolding run
run_done rounds fuel h entry bbs g shape nd reached enough lt analysed exact =
    let clean = done_clean h entry bbs rounds g analysed in
    let (g', analysed', within') = clean_within h entry bbs rounds shape enough in
    let same : g' ≡ g = cc in
    let within =
      subst
        (λ (x : BlockHeap).
          (b d : ℕ) → mem b bbs ≡ true → mem d (doms x b) ≡ true → mem d (entry ∷ bbs) ≡ true)
        same within' in
    let (sets, first) = clean_dominators-Kept rounds h entry bbs g nd clean in
    let (k, found, each, others) =
      compute_imm_dominator_ends g fuel bbs g (λ p. refl)
        (λ b mb. ready h entry bbs shape nd reached g exact within sets fuel b lt mb) in
    (
      k,
      rw (analysed, finish_lem fuel entry bbs g first) found,
      λ n mn.
          immediate h entry bbs shape nd reached g exact within sets n (k n).idom mn (each n mn),
    )

-- Where the blocks are different, the entry reaches each of them, their predecessors are listed, and
-- `computeDominators` does not erase from the set that it walks, the analysis returns, with rounds
-- for every pair of blocks and a round of the search for each block, and each block but the entry
-- has its immediate dominator: a listed block other than itself that every way from the entry to it
-- passes, and that every way to passes each other such block.
pub run-IsImmediate :
    (rounds fuel : ℕ) (h : BlockHeap) (entry : ℕ) (bbs : List ℕ)
    → IsConnected h entry bbs
    → IsNodup (entry ∷ bbs)
    → ((n : ℕ) → mem n bbs ≡ true → Walk h entry n)
    → length bbs * suc (length bbs) < rounds
    → length bbs < fuel
    → compute_dominators rounds h entry bbs ≢ undefined
    → (k : BlockHeap) × (run rounds fuel h entry bbs ≡ some k)
      × ((n : ℕ) → mem n bbs ≡ true → IsImmediate h entry bbs n (k n).idom)
run-IsImmediate rounds fuel h entry bbs shape nd reached enough lt walks =
    elim (compute_dominators_correct h entry bbs rounds shape enough) [
      | inl (g, analysed, exact) ↦
          run_done rounds fuel h entry bbs g shape nd reached enough lt analysed exact
      | inr bad ↦ absurd (walks bad.0)
    ]
