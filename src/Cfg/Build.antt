-- ===== src/Cfg/Build.antt =====
-- What `buildBlocks` builds from the leaders.
use mathlib.Core.List.{append-nil}
use jerryscript_optimizer.Prelude.{
  ℕ, suc, ◌<◌, ◌≡◌, refl, ◌∙◌, ap, Bool, true, false, ◌||◌, some, List, [], ◌∷◌, ◌++◌, ◌==◌, arith,
  All, All-map, append-All,
}
use jerryscript_optimizer.Prelude.Sets.{mem, mem-cons, mem_nil, IsNodup}
use jerryscript_optimizer.Prelude.Times.{times, times_nil}
use jerryscript_optimizer.Blocks.{BasicBlock, BlockHeap}
use jerryscript_optimizer.Cfg.{
  Graph, InsHeap, new_bb, place, connect, home, leads, ends_flow, fill_blocks, first_blocks,
  last_block, build_blocks,
}
use jerryscript_optimizer.Cfg.Leaders.{Ascending}
use jerryscript_optimizer.Cfg.Shape.{
  below, gather, gather_same, HasNoSets, IsClear, IsBuilt, Placed, core, connect-IsBuilt,
  insts-connect,
}
use jerryscript_optimizer.Cfg.Fill.{
  Filled, Filled-trans, place-Filled, new_bb-Filled, fill_blocks-Filled,
}
use jerryscript_optimizer.Cfg.Heads.{
  head, heads, heads_same, heads-fill_blocks, heads-place_first, place_not_empty, no_leader,
}

-- The memory before the pass: every address stands for itself, and holds no block.
pub record IsEmptyMemory (h : BlockHeap) : Type 0 where
  pub ids : (p : ℕ) → (h p).id ≡ p
  pub clear : (p : ℕ) → IsClear (h p)
  pub fresh : (p : ℕ) → HasNoSets (h p)

-- The pass's members when `buildBlocks` starts.
abbrev pub start : BlockHeap → InsHeap → Graph
start h insns = record { blocks = h; insns = insns; bbs = []; bb_id = 0 }

pub start-IsBuilt : (h : BlockHeap) (insns : InsHeap) → IsEmptyMemory h → IsBuilt (start h insns)
unfolding below
start-IsBuilt h insns e = record {
  graph = record {
    ids = e.ids;
    symmetric = λ a b. let x = e.clear a in let y = e.clear b in nothing (h a) (h b) a b x y;
  };
  listed = refl;
  above = λ p le. e.clear p;
  fresh = e.fresh;
}
  where
    nothing :
        (x y : BasicBlock) (a b : ℕ)
        → IsClear x
        → IsClear y
        → times b x.successors ≡ times a y.predecessors
    nothing x y a b cx cy = cc (cx.no_successors, cy.no_predecessors, times_nil a, times_nil b)

connect-Filled :
    (g0 g : Graph) (bb a b : ℕ) (is : List ℕ)
    → Filled g0 is g bb
    → a < g.bb_id
    → b < g.bb_id
    → Filled g0 is (connect g a b) bb
connect-Filled g0 g bb a b is f la lb = record {
  built = connect-IsBuilt g a b f.built la lb;
  last = f.last;
  grows = f.grows;
  gathers =
      gather_same (connect g a b).blocks g.blocks g.bb_id (λ p lt. insts-connect g a b p)
      ∙ f.gathers;
  cores = f.cores;
  stay = λ j m at. let old = f.stay j m at in (old.0, rw (insts-connect g a b (home g j)) old.1);
  placed =
      All-map (Placed g) (Placed (connect g a b)) is
        (λ i at. (at.0, rw (insts-connect g a b (home g i)) at.1)) f.placed;
}

pub first_blocks-Filled : (g : Graph) → IsBuilt g → Filled g [] (first_blocks g) (suc g.bb_id)
unfolding first_blocks new_bb
first_blocks-Filled g built =
    let g1 = new_bb true g in
    let one = new_bb-Filled true g built in
    let two = new_bb-Filled false g1 one.built in
    let both = Filled-trans g g1 (new_bb false g1) g.bb_id g1.bb_id [] [] tt one two in
    connect-Filled g (new_bb false g1) (suc g.bb_id) g.bb_id (suc g.bb_id) [] both (bound g)
      (bound' g)
  where
    bound : (g : Graph) → g.bb_id < (new_bb false (new_bb true g)).bb_id
    bound g = omega arith

    bound' : (g : Graph) → suc g.bb_id < (new_bb false (new_bb true g)).bb_id
    bound' g = omega arith

-- A new block and an edge do not change which instructions start a block.
heads-connect_new :
    (inv : Bool) (g : Graph) (a b : ℕ)
    → heads (connect (new_bb inv g) a b).blocks (suc g.bb_id) ≡ heads g.blocks g.bb_id
unfolding heads new_bb
heads-connect_new inv g a b =
    let g' = connect (new_bb inv g) a b in
    let at : (g.bb_id == g.bb_id) ≡ true = ground arith in
    let same = λ (p : ℕ). insts-connect (new_bb inv g) a b p in
    let low = heads_same g'.blocks g.blocks g.bb_id (λ p lt. same p ∙ ground arith) in
    let here : (g'.blocks g.bb_id).insts ≡ [] = same g.bb_id ∙ rw at refl in
    cc (low, ap head here, append-nil (heads g.blocks g.bb_id))

first_blocks_lem :
    (g : Graph)
    → g.bb_id ≡ 0
    → (heads (first_blocks g).blocks 1 ≡ []) × (((first_blocks g).blocks 1).insts ≡ [])
unfolding first_blocks heads new_bb
first_blocks_lem g z =
    let g' = new_bb false (new_bb true g) in
    let same = λ (p : ℕ). insts-connect g' g.bb_id (suc g.bb_id) p in
    let zero_empty : ((first_blocks g).blocks 0).insts ≡ [] = same 0 ∙ rw z refl in
    let one_empty : ((first_blocks g).blocks 1).insts ≡ [] = same 1 ∙ rw z refl in
    (ap head zero_empty, one_empty)

Ascending-IsNodup : (xs : List ℕ) → Ascending xs → IsNodup xs
Ascending-IsNodup [] a = tt
Ascending-IsNodup (x ∷ xs) a = (missing xs a.0, Ascending-IsNodup xs a.1)
  where
    missing : (ys : List ℕ) → All (λ y. x < y) ys → mem x ys ≡ false
    missing [] h = mem_nil x
    missing (y ∷ ys) h = ground (arith, mem-cons x y ys, missing ys h.1)

module _ (h : BlockHeap) (insns : InsHeap) (empty : IsEmptyMemory h) (first : ℕ) (rest ls : List ℕ)
    (sorted : Ascending (first ∷ rest)) (leaders : Ascending (first ∷ ls))
    (within : (x : ℕ) → mem x ls ≡ true → mem x rest ≡ true) where
  abbrev order : List ℕ
  order = first ∷ rest

  abbrev begun : Graph
  begun = first_blocks (start h insns)

  abbrev filled : Graph × ℕ
  filled = fill_blocks begun 1 ls false order

  begun-Filled : Filled (start h insns) [] begun 1
  begun-Filled = first_blocks-Filled (start h insns) (start-IsBuilt h insns empty)

  code-Filled : Filled begun order filled.0 filled.1
  code-Filled =
      fill_blocks-Filled begun 1 ls false order begun-Filled.built begun-Filled.last
        (Ascending-IsNodup order sorted)

  filled_heads : heads filled.0.blocks filled.0.bb_id ≡ first ∷ ls
  unfolding fill_blocks
  filled_heads =
      let (no_heads, no_insts) = first_blocks_lem (start h insns) refl in
      let behind_first : leads ls first ≡ false = no_leader first ls rest sorted within in
      let g = place begun 1 false first in
      let one = place-Filled begun 1 false first begun-Filled.built begun-Filled.last in
      let more =
        heads-fill_blocks g 1 ls (false || ends_flow (begun.insns first)) rest one.built one.last
          (place_not_empty begun 1 false first) leaders.1 sorted.1 within in
      let only = heads-place_first begun 1 false first begun-Filled.last no_insts in
      rw (behind_first, fill_blocks)
        (more ∙ ap (λ l. l ++ ls) (only ∙ ap (λ l. l ++ (first ∷ [])) no_heads))

  abbrev finished : Graph
  finished = last_block filled.0 filled.1

  finished-Filled : Filled (start h insns) (order ++ []) finished filled.0.bb_id
  unfolding last_block
  finished-Filled =
      let both =
        Filled-trans (start h insns) begun filled.0 1 filled.1 [] order tt begun-Filled
          code-Filled in
      let end = new_bb-Filled true filled.0 code-Filled.built in
      let all =
        Filled-trans (start h insns) filled.0 (new_bb true filled.0) filled.1 filled.0.bb_id order
          [] (nothing_left order) both end in
      connect-Filled (start h insns) (new_bb true filled.0) filled.0.bb_id filled.1 filled.0.bb_id
        (order ++ []) all (omega (arith, code-Filled.last, end.last)) (omega (arith, end.last))
    where
      nothing_left : (l : List ℕ) → All (λ i. mem i [] ≡ false) l
      nothing_left [] = tt
      nothing_left (i ∷ l) = (mem_nil i, nothing_left l)

  -- From an empty memory, instructions in ascending order, the first of which is a leader, and
  -- further leaders in ascending order among the others: `buildBlocks` returns blocks that hold the
  -- instructions in the order of the code, each in the block that it names; a block starts at each
  -- leader and at no other instruction; the blocks are numbered from 0 as listed, and each edge
  -- stands in both of its lists. An instruction is as before but for its block and the mark of dead
  -- code.
  pub build_blocks_correct :
      (g : Graph) × (build_blocks (start h insns) order (first ∷ ls) ≡ some g)
      × IsBuilt g
      × (gather g.blocks g.bb_id ≡ order)
      × (heads g.blocks g.bb_id ≡ first ∷ ls)
      × All (Placed g) order
      × ((i : ℕ) → core (g.insns i) ≡ core (insns i))
  unfolding build_blocks last_block gather
  build_blocks_correct =
      let f = finished-Filled in
      let one_more = heads-connect_new true filled.0 filled.1 filled.0.bb_id in
      (
        finished,
        refl,
        f.built,
        f.gathers ∙ append-nil order,
        rw f.last (one_more ∙ filled_heads),
        (append-All (Placed finished) order [] f.placed).0,
        f.cores,
      )
