-- ===== src/Cfg/Heads.antt =====
-- `buildBlocks` starts a block at each leader, and nowhere else.
use mathlib.Core.List.{append_assoc, append-nil}
use jerryscript_optimizer.Prelude.{
  ℕ, zero, suc, ◌<◌, ◌≡◌, ◌≢◌, refl, ◌∙◌, sym, ap, Bool, true, false, ◌||◌, List, [], ◌∷◌, ◌++◌,
  ◌==◌, arith, Bool-cases, inl, inr, All,
}
use jerryscript_optimizer.Prelude.Sets.{mem, mem-cons, mem_nil}
use jerryscript_optimizer.Blocks.{BlockHeap}
use jerryscript_optimizer.Cfg.{Graph, new_bb, place, leads, ends_flow, fill_blocks}
use jerryscript_optimizer.Cfg.Leaders.{Ascending}
use jerryscript_optimizer.Cfg.Shape.{IsBuilt}
use jerryscript_optimizer.Cfg.Fill.{place_blocks, place-Filled, new_bb-Filled}

abbrev pub head : List ℕ → List ℕ
head [] = []
head (x ∷ xs) = x ∷ []

-- The first instruction of each block that has one, in the order of the blocks.
unfoldable pub heads : BlockHeap → ℕ → List ℕ
heads h zero = []
heads h (suc n) = heads h n ++ head (h n).insts

pub heads_same :
    (h k : BlockHeap) (n : ℕ)
    → ((p : ℕ) → p < n → (h p).insts ≡ (k p).insts)
    → heads h n ≡ heads k n
unfolding heads
heads_same h k zero same = refl
heads_same h k (suc n) same =
    cc (heads_same h k n (λ p lt. same p (omega arith)), ap head (same n (omega arith)))

head-append : (xs ys : List ℕ) → xs ≢ [] → head (xs ++ ys) ≡ head xs
head-append [] ys ne = absurd (ne refl)
head-append (x ∷ xs) ys ne = refl

not_empty : (xs : List ℕ) (i : ℕ) → xs ++ (i ∷ []) ≢ []
not_empty [] i e = cc
not_empty (x ∷ xs) i e = cc

-- The block's own list after an instruction is put into it.
place_here :
    (g : Graph) (bb : ℕ) (found : Bool) (i : ℕ)
    → ((place g bb found i).blocks bb).insts ≡ (g.blocks bb).insts ++ (i ∷ [])
place_here g bb found i =
    let at : (bb == bb) ≡ true = ground arith in rw ((place_blocks g bb found i).0, at) refl

heads-place :
    (g : Graph) (bb : ℕ) (found : Bool) (i : ℕ)
    → g.bb_id ≡ suc bb
    → heads (place g bb found i).blocks (place g bb found i).bb_id
      ≡ heads g.blocks bb ++ head ((g.blocks bb).insts ++ (i ∷ []))
unfolding heads
heads-place g bb found i top =
    let (blocks, bbs, bb_id) = place_blocks g bb found i in
    let low =
      heads_same (place g bb found i).blocks g.blocks bb (λ p lt. rw blocks (ground arith)) in
    rw (bb_id ∙ top, low, place_here g bb found i) refl

heads-new_bb : (g : Graph) → heads (new_bb false g).blocks g.bb_id ≡ heads g.blocks g.bb_id
unfolding new_bb
heads-new_bb g = heads_same (new_bb false g).blocks g.blocks g.bb_id (λ p lt. ground arith)

insts-new_bb : (g : Graph) → ((new_bb false g).blocks g.bb_id).insts ≡ []
unfolding new_bb
insts-new_bb g = ground arith

-- A leader to come is not an instruction that stands before all that are left.
pub no_leader :
    (i : ℕ) (leaders rest : List ℕ)
    → Ascending (i ∷ rest)
    → ((x : ℕ) → mem x leaders ≡ true → mem x rest ≡ true)
    → leads leaders i ≡ false
no_leader i [] rest up within = refl
no_leader i (l ∷ ls) rest up within =
    let there = within l (ground (arith, mem-cons l l ls)) in
    ground (arith, later i l rest up.0 there)
  where
    later : (i l : ℕ) (rest : List ℕ) → All (λ x. i < x) rest → mem l rest ≡ true → i < l
    later i l [] h m = absurd (cc (mem_nil l))
    later i l (x ∷ xs) h m = ground (arith, mem-cons l x xs, later i l xs h.1)

heads-place_more :
    (g : Graph) (bb : ℕ) (found : Bool) (i : ℕ)
    → g.bb_id ≡ suc bb
    → (g.blocks bb).insts ≢ []
    → heads (place g bb found i).blocks (place g bb found i).bb_id ≡ heads g.blocks g.bb_id
unfolding heads
heads-place_more g bb found i top ne =
    heads-place g bb found i top ∙ rw (head-append (g.blocks bb).insts (i ∷ []) ne, top) refl

-- The first instruction of a new block.
pub heads-place_first :
    (g : Graph) (bb : ℕ) (found : Bool) (i : ℕ)
    → g.bb_id ≡ suc bb
    → (g.blocks bb).insts ≡ []
    → heads (place g bb found i).blocks (place g bb found i).bb_id ≡ heads g.blocks bb ++ (i ∷ [])
heads-place_first g bb found i top e = heads-place g bb found i top ∙ rw e refl

pub place_not_empty :
    (g : Graph) (bb : ℕ) (found : Bool) (i : ℕ) → ((place g bb found i).blocks bb).insts ≢ []
place_not_empty g bb found i e = not_empty (g.blocks bb).insts i (sym (place_here g bb found i) ∙ e)

-- From a state whose last block has instructions, the loop starts a block at each leader to come.
pub heads-fill_blocks :
    (g : Graph) (bb : ℕ) (leaders : List ℕ) (found : Bool) (is : List ℕ)
    → IsBuilt g
    → g.bb_id ≡ suc bb
    → (g.blocks bb).insts ≢ []
    → Ascending leaders
    → Ascending is
    → ((x : ℕ) → mem x leaders ≡ true → mem x is ≡ true)
    → let result = fill_blocks g bb leaders found is in
      heads result.0.blocks result.0.bb_id ≡ heads g.blocks g.bb_id ++ leaders
unfolding fill_blocks
heads-fill_blocks g bb [] found [] built top ne al ai within = sym (append-nil _)
heads-fill_blocks g bb (l ∷ ls) found [] built top ne al ai within =
    absurd (cc (within l (ground (arith, mem-cons l l ls)), mem_nil l))
heads-fill_blocks g bb leaders found (i ∷ rest) built top ne al ai within =
    elim (Bool-cases (leads leaders i)) [
      | inl e ↦
          let (ls, eq, later) = split leaders e al within in
          let g1 = new_bb false g in
          let g2 = place g1 g.bb_id false i in
          let one = new_bb-Filled false g built in
          let two = place-Filled g1 g.bb_id false i one.built one.last in
          let three =
            heads-fill_blocks g2 g.bb_id ls (false || ends_flow (g.insns i)) rest two.built two.last
              (place_not_empty g1 g.bb_id false i) (later.0) ai.1 later.1 in
          rw (e, fill_blocks, eq)
            (three
              ∙ ap (λ l. l ++ ls)
                  (heads-place_first g1 g.bb_id false i one.last (insts-new_bb g)
                    ∙ ap (λ l. l ++ (i ∷ [])) (heads-new_bb g))
              ∙ append_assoc (heads g.blocks g.bb_id) (i ∷ []) ls)
      | inr e ↦
          let g2 = place g bb found i in
          let two = place-Filled g bb found i built top in
          let three =
            heads-fill_blocks g2 bb leaders (found || ends_flow (g.insns i)) rest two.built two.last
              (place_not_empty g bb found i) al ai.1 (stays leaders e al within) in
          rw (e, fill_blocks)
            (three ∙ ap (λ l. l ++ leaders) (heads-place_more g bb found i top ne))
    ]
  where
    above_all : (x y : ℕ) (xs : List ℕ) → All (λ z. x < z) xs → mem y xs ≡ true → x < y
    above_all x y [] h m = absurd (cc (mem_nil y))
    above_all x y (z ∷ zs) h m = ground (arith, mem-cons y z zs, above_all x y zs h.1)

    split :
        (leaders : List ℕ)
        → leads leaders i ≡ true
        → Ascending leaders
        → ((x : ℕ) → mem x leaders ≡ true → mem x (i ∷ rest) ≡ true)
        → (ls : List ℕ) × (leaders ≡ i ∷ ls)
          × (Ascending ls × ((x : ℕ) → mem x ls ≡ true → mem x rest ≡ true))
    split [] e al within = absurd (cc)
    split (l ∷ ls) e al within =
        let q : l ≡ i = ground arith in
        (
          ls,
          ap (λ k. k ∷ ls) q,
          (
            al.1,
            λ x m.
                let lt = above_all l x ls al.0 m in
                ground (arith, within x, mem-cons x l ls, mem-cons x i rest),
          ),
        )

    stays :
        (leaders : List ℕ)
        → leads leaders i ≡ false
        → Ascending leaders
        → ((x : ℕ) → mem x leaders ≡ true → mem x (i ∷ rest) ≡ true)
        → (x : ℕ) → mem x leaders ≡ true
        → mem x rest ≡ true
    stays [] e al within x m = absurd (cc (mem_nil x))
    stays (l ∷ ls) e al within x m =
        let first = within l (ground (arith, mem-cons l l ls)) in
        let after : mem l rest ≡ true = ground (arith, mem-cons l i rest) in
        let up = above_all i l rest ai.0 after in
        elim (Bool-cases (x == l)) [
          | inl q ↦ let q' : x ≡ l = ground arith in rw q' after
          | inr q ↦
              let rest_m : mem x ls ≡ true = ground (arith, mem-cons x l ls) in
              let lt = above_all l x ls al.0 rest_m in ground (arith, within x, mem-cons x i rest)
        ]
