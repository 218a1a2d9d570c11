-- ===== src/LiveRanges/Chain.antt =====
-- The intervals of one register, in the order of their creation, abut: each ends where the next
-- one starts. And which registers an instruction's step can touch.
use jerryscript_optimizer.Prelude.{
  ℕ, zero, suc, ◌≡◌, ◌≢◌, refl, true, some, Option-cases, List, [], ◌∷◌, ◌++◌, ◌==◌, arith,
  Bool-cases, if◌then◌else◌, inl, inr,
}
use jerryscript_optimizer.Inst.{Ins, InstFlags, has_flag}
use jerryscript_optimizer.LiveRanges.{
  LiveInterval, Ranges, find, store, set_end_last, new_interval, write_range, read_range,
  read_ranges, range_step, range_block, block_start, range_blocks, argument_ranges,
  build_live_ranges,
}

pub find-store :
    (m : Ranges) (r q : ℕ) (v : List LiveInterval)
    → find (store m r v) q ≡ (if q == r then some v else find m q)
unfolding find store
find-store [] r q v = refl
find-store ((k, li) ∷ m) r q v = ground (arith, find-store m r q v)

-- Not empty, and each interval but the last ends where the next one starts.
abbrev pub IsChain : List LiveInterval → Type 0
IsChain [] = ⊥
IsChain (i ∷ []) = Unit {0}
IsChain (i ∷ j ∷ is) = (i.end ≡ j.start) × IsChain (j ∷ is)

pub start_of : List LiveInterval → ℕ
start_of [] = 0
start_of (i ∷ is) = i.start

set_end_last-start : (li : List LiveInterval) (e : ℕ) → start_of (set_end_last li e) ≡ start_of li
unfolding set_end_last start_of
set_end_last-start [] e = refl
set_end_last-start (i ∷ []) e = refl
set_end_last-start (i ∷ j ∷ is) e = refl

set_end_last-IsChain : (li : List LiveInterval) (e : ℕ) → IsChain li → IsChain (set_end_last li e)
unfolding set_end_last
set_end_last-IsChain [] e c = absurd c
set_end_last-IsChain (i ∷ []) e c = tt
set_end_last-IsChain (i ∷ j ∷ []) e c = (c.0, tt)
set_end_last-IsChain (i ∷ j ∷ k ∷ is) e c = (c.0, set_end_last-IsChain (j ∷ k ∷ is) e c.1)

extend-IsChain :
    (li : List LiveInterval) (e : ℕ)
    → IsChain li
    → IsChain (set_end_last li e ++ (new_interval e 0 ∷ []))
unfolding set_end_last
extend-IsChain [] e c = absurd c
extend-IsChain (i ∷ []) e c = (refl, tt)
extend-IsChain (i ∷ j ∷ []) e c = (c.0, (refl, tt))
extend-IsChain (i ∷ j ∷ k ∷ is) e c = (c.0, extend-IsChain (j ∷ k ∷ is) e c.1)

abbrev pub AreChains : Ranges → Type 0
AreChains m = (r : ℕ) (li : List LiveInterval) → find m r ≡ some li → IsChain li

store-AreChains :
    (m : Ranges) (r : ℕ) (v : List LiveInterval) → AreChains m → IsChain v → AreChains (store m r v)
store-AreChains m r v c cv q li e = elim (Bool-cases (q == r)) [
  | inl same ↦
      let e' : some v ≡ some li = rw (find-store, same) at e in let w : v ≡ li = cc in rw (← w) cv
  | inr other ↦ c q li (rw (find-store, other) at e)
]

write_range-AreChains :
    (m : Ranges) (r offset : ℕ) → AreChains m → AreChains (write_range m r offset)
unfolding write_range
write_range-AreChains m r offset c = elim (Option-cases (find m r)) [
  | inl e ↦ rw (e, write_range) (store-AreChains m r _ c tt)
  | inr (li, e) ↦
      rw (e, write_range) (store-AreChains m r _ c (extend-IsChain li offset (c r li e)))
]

read_range-AreChains :
    (s offset : ℕ) (m : Ranges) (r : ℕ) → AreChains m → AreChains (read_range s offset m r)
unfolding read_range
read_range-AreChains s offset m r c = elim (Option-cases (find m r)) [
  | inl e ↦ rw (e, read_range) (store-AreChains m r _ c tt)
  | inr (li, e) ↦
      rw (e, read_range) (store-AreChains m r _ c (set_end_last-IsChain li offset (c r li e)))
]

read_ranges-AreChains :
    (s offset : ℕ) (m : Ranges) (regs : List ℕ)
    → AreChains m
    → AreChains (read_ranges s offset m regs)
unfolding read_ranges
read_ranges-AreChains s offset m [] c = c
read_ranges-AreChains s offset m (r ∷ regs) c =
    read_ranges-AreChains s offset (read_range s offset m r) regs
      (read_range-AreChains s offset m r c)

range_step-AreChains : (s : ℕ) (m : Ranges) (i : Ins) → AreChains m → AreChains (range_step s m i)
unfolding range_step
range_step-AreChains s m i c = elim (Bool-cases i.flags.write_reg) [
  | inl w ↦ rw w (write_range-AreChains m i.write_reg i.offset c)
  | inr w ↦ elim (Bool-cases i.flags.read_reg) [
    | inl r ↦ rw (w, r) (read_ranges-AreChains s i.offset m i.read_regs c)
    | inr r ↦ rw (w, r) c
  ]
]

range_block-AreChains :
    (s : ℕ) (m : Ranges) (insns : List Ins) → AreChains m → AreChains (range_block s m insns)
unfolding range_block
range_block-AreChains s m [] c = c
range_block-AreChains s m (i ∷ insns) c =
    range_block-AreChains s (range_step s m i) insns (range_step-AreChains s m i c)

range_blocks-AreChains :
    (m : Ranges) (bbs : List (List Ins)) → AreChains m → AreChains (range_blocks m bbs)
unfolding range_blocks
range_blocks-AreChains m [] c = c
range_blocks-AreChains m (bb ∷ bbs) c =
    range_blocks-AreChains (range_block (block_start bb) m bb) bbs
      (range_block-AreChains (block_start bb) m bb c)

argument_ranges-AreChains : (n : ℕ) (m : Ranges) → AreChains m → AreChains (argument_ranges n m)
unfolding argument_ranges
argument_ranges-AreChains zero m c = c
argument_ranges-AreChains (suc i) m c =
    let deep = argument_ranges-AreChains i m c in
    elim (Option-cases (find (argument_ranges i m) i)) [
      | inl e ↦ rw (e, argument_ranges) (store-AreChains (argument_ranges i m) i _ deep tt)
      | inr (li, e) ↦ rw (e, argument_ranges) deep
    ]

pub AreChains-nil : AreChains []
unfolding find
AreChains-nil r li e = cc

-- Whatever the blocks and their instructions are, each register that has ranges after
-- `buildLiveRanges` has one at least, and each of its intervals but the last ends at the offset
-- where the next one starts.
pub build_live_ranges-AreChains :
    (argument_end : ℕ) (bbs : List (List Ins)) → AreChains (build_live_ranges argument_end [] bbs)
unfolding build_live_ranges
build_live_ranges-AreChains n bbs =
    range_blocks-AreChains _ bbs (argument_ranges-AreChains n [] AreChains-nil)

-- An instruction that writes a register leaves the ranges of every other register as they were,
-- those of the registers that it reads among them.
pub range_step_write :
    (s : ℕ) (m : Ranges) (i : Ins) (r : ℕ)
    → has_flag i InstFlags.write_reg ≡ true
    → r ≢ i.write_reg
    → find (range_step s m i) r ≡ find m r
unfolding range_step write_range
range_step_write s m i r w ne = elim (Option-cases (find m i.write_reg)) [
  | inl e ↦ ground (arith, find-store m i.write_reg r (new_interval i.offset 0 ∷ []))
  | inr (li, e) ↦ ground (
    arith,
    find-store m i.write_reg r (set_end_last li i.offset ++ (new_interval i.offset 0 ∷ [])),
  )
]
