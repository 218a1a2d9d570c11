-- ===== src/Cfg/Split/Doubles.antt =====
-- What `split` does to the instructions and to the edges of the two blocks.
use jerryscript_optimizer.Prelude.{
  ℕ, ◌+◌, ◌*◌, ◌<◌, ◌≡◌, ◌≢◌, refl, ◌∙◌, sym, ap, Bool, true, false, not, some, List, [], ◌∷◌, ◌++◌,
  ◌==◌, leb, if◌then◌else◌, arith, length, Bool-cases, inl, inr,
}
use mathlib.Core.Path.{fun_ext}
use mathlib.Core.List.{append_assoc, append-nil}
use jerryscript_optimizer.Prelude.Sets.{mem, keep}
use jerryscript_optimizer.Prelude.Times.{times}
use jerryscript_optimizer.Blocks.{BasicBlock, BlockHeap}
use jerryscript_optimizer.Edges.{bridge, add_successor, add_predecessor, is_empty}
use jerryscript_optimizer.Edges.Counts.{
  leaving, bare, bare-add_successor, bare-add_predecessor, add_successor_edges,
  add_predecessor_edges,
}
use jerryscript_optimizer.Edges.Removal.{IsGraph, remove_all_successors_ends}
use jerryscript_optimizer.Edges.Bridge.{
  bridge-Bridged, add_successor-IsGraph, add_predecessor-IsGraph,
}
use jerryscript_optimizer.Cfg.{Graph, add_ins}
use jerryscript_optimizer.Cfg.Split.{move_insts, relink, cut, split}

-- The edges behind a split: those that left the block leave the other one, twice each, and two
-- edges join the block to the other one.
abbrev pub relinked : BlockHeap → ℕ → ℕ → ℕ → ℕ → ℕ
relinked h from into a b =
    if a == from
    then (if b == into then 2 else 0)
    else leaving h a b + (if a == into then 2 * leaving h from b else 0)

relink_ends :
    (fuel : ℕ) (h : BlockHeap) (from into : ℕ)
    → IsGraph h
    → from ≢ into
    → mem from (h from).successors ≡ false
    → length (h from).successors < fuel
    → (k : BlockHeap) × (relink fuel h from into ≡ some k)
      × IsGraph k
      × ((p : ℕ) → bare (k p) ≡ bare (h p))
      × ((a b : ℕ) → leaving k a b ≡ relinked h from into a b)
unfolding relink
relink_ends fuel h from into gr ne no_loop lt =
    let b = bridge-Bridged h from into (h from).successors gr (ground arith) no_loop in
    let h1 = bridge h into (h from).successors in
    let (h2, run, d) = remove_all_successors_ends fuel h1 from b.graph (rw b.here lt) in
    let h3 = add_predecessor h2 into from in
    (
      add_successor h3 from into,
      rw run refl,
      add_successor-IsGraph h3 from into (add_predecessor-IsGraph h2 into from d.graph),
      λ p.
          bare-add_successor h3 from into p
          ∙ bare-add_predecessor h2 into from p
          ∙ d.same p
          ∙ b.same p,
      λ x y. ground (
        arith,
        add_successor_edges h3 from into x y,
        add_predecessor_edges h2 into from x y,
        d.edges x y,
        b.edges x y,
      ),
    )

abbrev no_insts : BasicBlock → BasicBlock
no_insts b = record b { insts = [] }

-- What the first loop does with the instructions that are late.
record Moved (g : Graph) (into : ℕ) (late : ℕ → Bool) (xs : List ℕ) (r : Graph × Bool)
    : Type 0 where
  gains : (r.0.blocks into).insts ≡ (g.blocks into).insts ++ keep late xs
  others : (p : ℕ) → (p == into) ≡ false → r.0.blocks p ≡ g.blocks p
  same : (p : ℕ) → no_insts (r.0.blocks p) ≡ no_insts (g.blocks p)
  offsets : (i : ℕ) → (r.0.insns i).offset ≡ (g.insns i).offset
  homes : (i : ℕ) → (r.0.insns i).bb ≡ (if mem i (keep late xs) then into else (g.insns i).bb)
  copied : r.1 ≡ not (is_empty (keep late xs))

add_ins_lem :
    (g : Graph) (into i : ℕ)
    → (((add_ins g into i).blocks into).insts ≡ (g.blocks into).insts ++ (i ∷ []))
      × ((p : ℕ) → (p == into) ≡ false → (add_ins g into i).blocks p ≡ g.blocks p)
      × ((p : ℕ) → no_insts ((add_ins g into i).blocks p) ≡ no_insts (g.blocks p))
      × ((j : ℕ) → ((add_ins g into i).insns j).offset ≡ (g.insns j).offset)
      × ((j : ℕ) → ((add_ins g into i).insns j).bb ≡ (if j == i then into else (g.insns j).bb))
unfolding add_ins
add_ins_lem g into i =
    let self : (into == into) ≡ true = ground arith in
    (rw self refl, λ p e. rw e refl, λ p. ground arith, λ j. ground arith, λ j. ground arith)

move_insts_lem :
    (g : Graph) (into offset : ℕ) (late : ℕ → Bool) (xs : List ℕ)
    → ((i : ℕ) → leb offset (g.insns i).offset ≡ late i)
    → Moved g into late xs (move_insts g into offset xs)
unfolding move_insts keep mem
move_insts_lem g into offset late [] test = record {
  gains = sym (append-nil (g.blocks into).insts);
  others = λ p e. refl;
  same = λ p. refl;
  offsets = λ i. refl;
  homes = λ i. refl;
  copied = refl;
}
move_insts_lem g into offset late (i ∷ rest) test = elim (Bool-cases (late i)) [
  | inl e ↦
      let now : leb offset (g.insns i).offset ≡ true = test i ∙ e in
      let g1 = add_ins g into i in
      let (gains, others, same, offsets, homes) = add_ins_lem g into i in
      let m =
        move_insts_lem g1 into offset late rest
          (λ j. ap (λ n. leb offset n) (offsets j) ∙ test j) in
      let kept : keep late (i ∷ rest) ≡ i ∷ keep late rest = rw e refl in
      rw now record {
        gains =
            m.gains
            ∙ ap (λ l. l ++ keep late rest) gains
            ∙ append_assoc (g.blocks into).insts (i ∷ []) (keep late rest)
            ∙ ap (λ l. (g.blocks into).insts ++ l) (sym kept);
        others = λ p ne. m.others p ne ∙ others p ne;
        same = λ p. m.same p ∙ same p;
        offsets = λ j. m.offsets j ∙ offsets j;
        homes = λ j. rw kept (ground (arith, m.homes j, homes j));
        copied = rw kept refl;
      }
  | inr e ↦
      let now : leb offset (g.insns i).offset ≡ false = test i ∙ e in
      let m = move_insts_lem g into offset late rest test in
      let kept : keep late (i ∷ rest) ≡ keep late rest = rw e refl in
      rw now record {
        gains = m.gains ∙ ap (λ l. (g.blocks into).insts ++ l) (sym kept);
        others = m.others;
        same = m.same;
        offsets = m.offsets;
        homes = λ j. rw kept (m.homes j);
        copied = rw kept m.copied;
      }
]

module _ (g : Graph) (from into offset : ℕ) (gr : IsGraph g.blocks) (ne : from ≢ into) where
  abbrev late : ℕ → Bool
  late i = leb offset (g.insns i).offset

  abbrev gone : List ℕ
  gone = keep late (g.blocks from).insts

  abbrev moved : Graph × Bool
  moved = move_insts g into offset (g.blocks from).insts

  abbrev after : Graph
  after = cut moved.0 from (λ i. leb offset (moved.0.insns i).offset)

  moved-Moved : Moved g into late (g.blocks from).insts moved
  moved-Moved = move_insts_lem g into offset late (g.blocks from).insts (λ i. refl)

  after_same : (p : ℕ) → no_insts (after.blocks p) ≡ no_insts (g.blocks p)
  unfolding cut
  after_same p = elim (Bool-cases (p == from)) [
    | inl e ↦ let q : p ≡ from = ground arith in rw (e, q) (moved-Moved.same from)
    | inr e ↦ rw e (moved-Moved.same p)
  ]

  after_successors : (p : ℕ) → (after.blocks p).successors ≡ (g.blocks p).successors
  after_successors p = ap (λ (b : BasicBlock). b.successors) (after_same p)

  after_from : (after.blocks from).insts ≡ keep (λ i. not (late i)) (g.blocks from).insts
  unfolding cut
  after_from =
      let self : (from == from) ≡ true = ground arith in
      let other : (from == into) ≡ false = ground arith in
      let test = fun_ext (λ (i : ℕ). ap (λ n. not (leb offset n)) (moved-Moved.offsets i)) in
      let list = ap (λ (b : BasicBlock). b.insts) (moved-Moved.others from other) in
      rw self
        (ap (λ f. keep f (moved.0.blocks from).insts) test ∙ ap (keep (λ i. not (late i))) list)

  after_into : (after.blocks into).insts ≡ (g.blocks into).insts ++ gone
  unfolding cut
  after_into = let other : (into == from) ≡ false = ground arith in rw other moved-Moved.gains

  after_homes : (i : ℕ) → (after.insns i).bb ≡ (if mem i gone then into else (g.insns i).bb)
  unfolding cut
  after_homes i = moved-Moved.homes i

  after-IsGraph : IsGraph after.blocks
  after-IsGraph = record {
    ids = λ p. ap (λ (b : BasicBlock). b.id) (after_same p) ∙ gr.ids p;
    symmetric = λ a b.
        ap (times b) (after_successors a)
        ∙ gr.symmetric a b
        ∙ sym (ap (λ (k : BasicBlock). times a k.predecessors) (after_same b));
  }

  after_relinked : (a b : ℕ) → relinked after.blocks from into a b ≡ relinked g.blocks from into a b
  after_relinked a b =
      let one = ap (times b) (after_successors a) in
      let two = ap (times b) (after_successors from) in ground (arith, one, two)

-- A block that is not its own successor is split with one round for each successor and one more.
-- Its instructions from the offset on stand behind those of the other block, and name that; it
-- keeps the earlier ones, in order. If none was moved the edges are as before. If one was, the
-- edges that left the block leave the other one, but twice each, and two edges join the two.
pub split_doubles :
    (fuel : ℕ) (g : Graph) (from into offset : ℕ)
    → IsGraph g.blocks
    → from ≢ into
    → mem from (g.blocks from).successors ≡ false
    → length (g.blocks from).successors < fuel
    → let late = λ (i : ℕ). leb offset (g.insns i).offset in
      let gone = keep late (g.blocks from).insts in
      (k : Graph) × (split fuel g from into offset ≡ some k)
      × IsGraph k.blocks
      × ((k.blocks from).insts ≡ keep (λ i. not (late i)) (g.blocks from).insts)
      × ((k.blocks into).insts ≡ (g.blocks into).insts ++ gone)
      × ((i : ℕ) → (k.insns i).bb ≡ (if mem i gone then into else (g.insns i).bb))
      × ((a b : ℕ)
          → leaving k.blocks a b
            ≡ (if is_empty gone then leaving g.blocks a b else relinked g.blocks from into a b))
unfolding split
split_doubles fuel g from into offset gr ne no_loop lt =
    let m = moved-Moved g from into offset gr ne in
    let g1 = after g from into offset gr ne in
    let kept = after_from g from into offset gr ne in
    let gained = after_into g from into offset gr ne in
    let homes = after_homes g from into offset gr ne in
    let graph = after-IsGraph g from into offset gr ne in
    let out = after_successors g from into offset gr ne in
    let xs = keep (λ i. leb offset (g.insns i).offset) (g.blocks from).insts in
    elim (Bool-cases (is_empty xs)) [
      | inl e ↦
          let none_moved : (move_insts g into offset (g.blocks from).insts).1 ≡ false =
            m.copied ∙ rw e refl in
          (g1, rw none_moved refl, graph, kept, gained, homes, λ a b. rw e (ap (times b) (out a)))
      | inr e ↦
          let some_moved : (move_insts g into offset (g.blocks from).insts).1 ≡ true =
            m.copied ∙ rw e refl in
          let (h, run, graph', same, edges) =
            relink_ends fuel g1.blocks from into graph ne (ap (mem from) (out from) ∙ no_loop)
              (rw (out from) lt) in
          let insts = λ (p : ℕ). ap (λ (b : BasicBlock). b.insts) (same p) in
          (
            record g1 { blocks = h },
            rw (some_moved, run) refl,
            graph',
            insts from ∙ kept,
            insts into ∙ gained,
            homes,
            λ a b. rw e (edges a b ∙ after_relinked g from into offset gr ne a b),
          )
    ]
