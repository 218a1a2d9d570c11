-- ===== src/LiveRanges.antt =====
-- src/liveness-analysis.cpp, `buildLiveRanges`: for each register the intervals of offsets between
-- a write and the last use before the next write.
-- `std::unordered_map` is an association list; nothing proved depends on its order.
pub mod Chain
mod Examples
use jerryscript_optimizer.Prelude.{
  ℕ, zero, suc, ◌+◌, Bool, true, false, Option, none, some, List, [], ◌∷◌, ◌++◌, ◌==◌,
  if◌then◌else◌,
}
use jerryscript_optimizer.Inst.{Ins, InstFlags, has_flag}

pub record LiveInterval : Type 0 where
  pub start : ℕ
  pub end : ℕ

abbrev pub Ranges : Type 0
Ranges = List (ℕ × List LiveInterval)

pub find : Ranges → ℕ → Option (List LiveInterval)
find [] r = none
find ((q, li) ∷ m) r = if r == q then some li else find m r

-- `insert` of a key that `find` did not see, and writing through the iterator that it returned.
pub store : Ranges → ℕ → List LiveInterval → Ranges
store [] r v = (r, v) ∷ []
store ((q, li) ∷ m) r v = if r == q then (q, v) ∷ m else (q, li) ∷ store m r v

-- `back()->setEnd(offset)`. The list is never empty: see `Chain`.
pub set_end_last : List LiveInterval → ℕ → List LiveInterval
set_end_last [] e = []
set_end_last (i ∷ []) e = record i { end = e } ∷ []
set_end_last (i ∷ j ∷ is) e = i ∷ set_end_last (j ∷ is) e

abbrev pub new_interval : ℕ → ℕ → LiveInterval
new_interval s e = record { start = s; end = e }

pub write_range : Ranges → ℕ → ℕ → Ranges
write_range m r offset = elim (find m r) [
  | none ↦ store m r (new_interval offset 0 ∷ [])
  | some li ↦ store m r (set_end_last li offset ++ (new_interval offset 0 ∷ []))
]

-- A register that is read before any write is live from the start of the block.
pub read_range : ℕ → ℕ → Ranges → ℕ → Ranges
read_range bb_start offset m r = elim (find m r) [
  | none ↦ store m r (new_interval bb_start offset ∷ [])
  | some li ↦ store m r (set_end_last li offset)
]

pub read_ranges : ℕ → ℕ → Ranges → List ℕ → Ranges
read_ranges bb_start offset m [] = m
read_ranges bb_start offset m (r ∷ regs) =
    read_ranges bb_start offset (read_range bb_start offset m r) regs

-- The loop body. A write ends it with `continue`.
pub range_step : ℕ → Ranges → Ins → Ranges
range_step bb_start m ins =
    if has_flag ins InstFlags.write_reg
    then write_range m ins.write_reg ins.offset
    else if has_flag ins InstFlags.read_reg
    then read_ranges bb_start ins.offset m ins.read_regs
    else m

pub range_block : ℕ → Ranges → List Ins → Ranges
range_block bb_start m [] = m
range_block bb_start m (i ∷ insns) = range_block bb_start (range_step bb_start m i) insns

-- `bb->insns()[0]->offset()`; a block with no instruction reads nothing.
abbrev pub block_start : List Ins → ℕ
block_start [] = 0
block_start (i ∷ insns) = i.offset

range_blocks : Ranges → List (List Ins) → Ranges
range_blocks m [] = m
range_blocks m (bb ∷ bbs) = range_blocks (range_block (block_start bb) m bb) bbs

-- The arguments, 0 up to `argument_end`, are live from offset 0. `insert` keeps a present key.
argument_ranges : ℕ → Ranges → Ranges
argument_ranges zero m = m
argument_ranges (suc i) m =
    let rest = argument_ranges i m in
    elim (find rest i) [ none ↦ store rest i (new_interval 0 0 ∷ []) | some li ↦ rest ]

-- The blocks as lists of their instructions.
pub build_live_ranges : ℕ → Ranges → List (List Ins) → Ranges
build_live_ranges argument_end m bbs = range_blocks (argument_ranges argument_end m) bbs
