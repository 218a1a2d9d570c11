-- ===== src/Cfg/Valid.antt =====
-- Which blocks `buildBlocks` marks invalid: the first and the last.
use jerryscript_optimizer.Prelude.{
  ℕ, suc, ◌<◌, ◌≡◌, refl, ◌∙◌, Bool, true, false, ◌||◌, List, [], ◌∷◌, ◌==◌, arith, Bool-cases, inl,
  inr,
}
use jerryscript_optimizer.Cfg.{
  Graph, new_bb, place, leads, behind, ends_flow, fill_blocks, first_blocks, last_block,
}
use jerryscript_optimizer.Cfg.Shape.{invalid-connect}
use jerryscript_optimizer.Cfg.Fill.{place_blocks}

-- Of the blocks so far, the first only is marked.
abbrev FirstMarked : Graph → Type 0
FirstMarked g = (p : ℕ) → p < g.bb_id → (g.blocks p).invalid ≡ (p == 0)

place-invalid :
    (g : Graph) (bb : ℕ) (found : Bool) (i p : ℕ)
    → ((place g bb found i).blocks p).invalid ≡ (g.blocks p).invalid
place-invalid g bb found i p =
    let (blocks, bbs, bb_id) = place_blocks g bb found i in ground (arith, blocks)

place-FirstMarked :
    (g : Graph) (bb : ℕ) (found : Bool) (i : ℕ) → FirstMarked g → FirstMarked (place g bb found i)
place-FirstMarked g bb found i m p lt =
    let (blocks, bbs, bb_id) = place_blocks g bb found i in
    place-invalid g bb found i p ∙ m p (omega (arith, bb_id))

new_bb-FirstMarked : (g : Graph) → 0 < g.bb_id → FirstMarked g → FirstMarked (new_bb false g)
unfolding new_bb
new_bb-FirstMarked g some_block m p lt = elim (Bool-cases (p == g.bb_id)) [
  | inl e ↦ let other : (p == 0) ≡ false = ground arith in rw (e, other) refl
  | inr e ↦ rw e (m p (ground arith))
]

new_bb_more : (g : Graph) → 0 < (new_bb false g).bb_id
unfolding new_bb
new_bb_more g = omega arith

fill_blocks-FirstMarked :
    (g : Graph) (bb : ℕ) (leaders : List ℕ) (found : Bool) (is : List ℕ)
    → 0 < g.bb_id
    → FirstMarked g
    → FirstMarked (fill_blocks g bb leaders found is).0
unfolding fill_blocks
fill_blocks-FirstMarked g bb leaders found [] pos m = m
fill_blocks-FirstMarked g bb leaders found (i ∷ rest) pos m = elim (Bool-cases (leads leaders i)) [
  | inl e ↦
      let g1 = new_bb false g in
      let (blocks, bbs, bb_id) = place_blocks g1 g.bb_id false i in
      let more = new_bb_more g in
      rw (e, fill_blocks)
        (fill_blocks-FirstMarked (place g1 g.bb_id false i) g.bb_id (behind leaders)
          (false || ends_flow (g.insns i)) rest (omega (arith, bb_id, more))
          (place-FirstMarked g1 g.bb_id false i (new_bb-FirstMarked g pos m)))
  | inr e ↦
      let (blocks, bbs, bb_id) = place_blocks g bb found i in
      rw (e, fill_blocks)
        (fill_blocks-FirstMarked (place g bb found i) bb leaders (found || ends_flow (g.insns i))
          rest (omega (arith, bb_id)) (place-FirstMarked g bb found i m))
]

first_blocks-FirstMarked : (g : Graph) → g.bb_id ≡ 0 → FirstMarked (first_blocks g)
unfolding first_blocks new_bb
first_blocks-FirstMarked g z p lt =
    let g' = new_bb false (new_bb true g) in
    invalid-connect g' g.bb_id (suc g.bb_id) p ∙ ground arith

first_blocks_some : (g : Graph) → 0 < (first_blocks g).bb_id
unfolding first_blocks new_bb
first_blocks_some g = omega arith

last_block-invalid :
    (g : Graph) (bb p : ℕ)
    → FirstMarked g
    → p < (last_block g bb).bb_id
    → ((last_block g bb).blocks p).invalid ≡ (p == 0 || p == g.bb_id)
unfolding last_block new_bb
last_block-invalid g bb p m lt = invalid-connect (new_bb true g) bb g.bb_id p ∙ ground (arith, m p)

-- Of the blocks that `buildBlocks` makes, the first and the last are invalid.
pub built-invalid :
    (g : Graph) (leaders : List ℕ) (order : List ℕ) (p : ℕ)
    → g.bb_id ≡ 0
    → let filled = fill_blocks (first_blocks g) 1 leaders false order in
      p < (last_block filled.0 filled.1).bb_id
      → ((last_block filled.0 filled.1).blocks p).invalid ≡ (p == 0 || p == filled.0.bb_id)
built-invalid g leaders order p z lt =
    let g1 = first_blocks g in
    let filled = fill_blocks g1 1 leaders false order in
    last_block-invalid filled.0 filled.1 p
      (fill_blocks-FirstMarked g1 1 leaders false order (first_blocks_some g)
        (first_blocks-FirstMarked g z))
      lt
