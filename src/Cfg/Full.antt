-- ===== src/Cfg/Full.antt =====
-- Every block that `buildBlocks` makes between the first and the last has an instruction.
use jerryscript_optimizer.Prelude.{
  ℕ, suc, ◌<◌, ◌≡◌, ◌≢◌, refl, ◌∙◌, sym, ap, Bool, true, false, ◌||◌, List, [], ◌∷◌, ◌++◌, ◌==◌,
  arith, Bool-cases, inl, inr,
}
use jerryscript_optimizer.Blocks.{BasicBlock}
use jerryscript_optimizer.Cfg.{
  Graph, new_bb, place, connect, leads, behind, ends_flow, fill_blocks, first_blocks, last_block,
}
use jerryscript_optimizer.Cfg.Shape.{insts-connect, invalid-connect}
use jerryscript_optimizer.Cfg.Fill.{place_blocks}
use jerryscript_optimizer.Cfg.Heads.{place_not_empty}

abbrev pub HasCode : BasicBlock → Type 0
HasCode b = b.invalid ≡ false → b.insts ≢ []

abbrev pub IsFull : Graph → Type 0
IsFull g = (p : ℕ) → p < g.bb_id → HasCode (g.blocks p)

-- A graph that lacks an instruction in one block only.
abbrev FullBut : Graph → ℕ → Type 0
FullBut g bb = (p : ℕ) → p < g.bb_id → p ≢ bb → HasCode (g.blocks p)

not_empty : (xs : List ℕ) (i : ℕ) → xs ++ (i ∷ []) ≢ []
not_empty [] i e = cc
not_empty (x ∷ xs) i e = cc

place-IsFull :
    (g : Graph) (bb : ℕ) (found : Bool) (i : ℕ) → FullBut g bb → IsFull (place g bb found i)
place-IsFull g bb found i full p lt valid =
    let (blocks, bbs, bb_id) = place_blocks g bb found i in
    elim (Bool-cases (p == bb)) [
      | inl e ↦ let q : p ≡ bb = ground arith in rw q (place_not_empty g bb found i)
      | inr e ↦
          let same : (place g bb found i).blocks p ≡ g.blocks p = rw (blocks, e) refl in
          let other : p ≢ bb = ground arith in
          let valid' : (g.blocks p).invalid ≡ false =
            ap (λ (b : BasicBlock). b.invalid) (sym same) ∙ valid in
          λ none_left.
            full p (omega (arith, bb_id)) other valid'
              (ap (λ (b : BasicBlock). b.insts) (sym same) ∙ none_left)
    ]

new_bb-FullBut : (inv : Bool) (g : Graph) → IsFull g → FullBut (new_bb inv g) g.bb_id
unfolding new_bb
new_bb-FullBut inv g full p lt ne =
    let other : (p == g.bb_id) ≡ false = ground arith in rw other (full p (omega (arith, ne)))

fill_blocks-IsFull :
    (g : Graph) (bb : ℕ) (leaders : List ℕ) (found : Bool) (is : List ℕ)
    → IsFull g
    → IsFull (fill_blocks g bb leaders found is).0
unfolding fill_blocks
fill_blocks-IsFull g bb leaders found [] full = full
fill_blocks-IsFull g bb leaders found (i ∷ rest) full = elim (Bool-cases (leads leaders i)) [
  | inl e ↦
      let g1 = new_bb false g in
      rw (e, fill_blocks)
        (fill_blocks-IsFull (place g1 g.bb_id false i) g.bb_id (behind leaders)
          (false || ends_flow (g.insns i)) rest
          (place-IsFull g1 g.bb_id false i (new_bb-FullBut false g full)))
  | inr e ↦
      rw (e, fill_blocks)
        (fill_blocks-IsFull (place g bb found i) bb leaders (found || ends_flow (g.insns i)) rest
          (place-IsFull g bb found i (λ p lt ne. full p lt)))
]

connect-IsFull : (g : Graph) (a b : ℕ) → IsFull g → IsFull (connect g a b)
connect-IsFull g a b full p lt valid none_left =
    full p lt (sym (invalid-connect g a b p) ∙ valid) (sym (insts-connect g a b p) ∙ none_left)

-- The two blocks at the start: the first is marked invalid, the second is still empty.
first_blocks-FullBut : (g : Graph) → g.bb_id ≡ 0 → FullBut (first_blocks g) 1
unfolding first_blocks new_bb
first_blocks-FullBut g z p lt ne valid =
    let g' = new_bb false (new_bb true g) in
    let p0 : p ≡ 0 = omega (arith, ne) in
    let marked : ((first_blocks g).blocks 0).invalid ≡ true =
      invalid-connect g' g.bb_id (suc g.bb_id) 0 ∙ rw z refl in
    cc (p0, marked, valid)

-- The last block is marked invalid.
last_block-IsFull : (g : Graph) (bb : ℕ) → IsFull g → IsFull (last_block g bb)
unfolding last_block new_bb
last_block-IsFull g bb full =
    connect-IsFull (new_bb true g) bb g.bb_id (λ p lt valid. full_new p lt valid)
  where
    full_new : (p : ℕ) → p < suc g.bb_id → HasCode ((new_bb true g).blocks p)
    full_new p lt valid = elim (Bool-cases (p == g.bb_id)) [
      | inl e ↦ let bad : true ≡ false = rw e at valid in cc
      | inr e ↦ let old = new_bb-FullBut true g full p lt (ground arith) valid in old
    ]

-- The blocks that `buildBlocks` makes from the first instruction and the rest.
pub built-IsFull :
    (g : Graph) (bb : ℕ) (leaders : List ℕ) (first : ℕ) (rest : List ℕ)
    → g.bb_id ≡ 0
    → leads leaders first ≡ false
    → let filled = fill_blocks (first_blocks g) 1 leaders false (first ∷ rest) in
      IsFull (last_block filled.0 filled.1)
unfolding fill_blocks
built-IsFull g bb leaders first rest z e =
    let g1 = first_blocks g in
    last_block-IsFull (fill_blocks g1 1 leaders false (first ∷ rest)).0 _ (
      rw (e, fill_blocks)
        (fill_blocks-IsFull (place g1 1 false first) 1 leaders (false || ends_flow (g1.insns first))
          rest (place-IsFull g1 1 false first (first_blocks-FullBut g z))))
