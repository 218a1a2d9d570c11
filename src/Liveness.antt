-- ===== src/Liveness.antt =====
-- src/liveness-analysis.cpp: upward exposed and killed registers of each block, and the registers
-- that are live at its end, by iteration until nothing changes.
pub mod SetsEqual
pub mod Equation
pub mod Rounds
pub mod Measure
pub mod Solution
pub mod Correct
pub mod KillUe
mod Examples
use mathlib.Core.List.{foldl}
use jerryscript_optimizer.Prelude.{
  ℕ, zero, suc, Bool, true, false, not, ◌&&◌, Option, none, some, List, [], ◌∷◌, ◌==◌, length,
  if◌then◌else◌,
}
use jerryscript_optimizer.Prelude.Sets.{mem, insert, insert_all, subset, keep}
use jerryscript_optimizer.Inst.{Ins, InstFlags, has_flag}
use jerryscript_optimizer.Blocks.{BasicBlock, BlockHeap, update}

-- The reads of one instruction: a register that the block has not written yet is upward exposed.
expose : BasicBlock → ℕ → BasicBlock
expose bb reg = if mem reg bb.kill then bb else record bb { ue = insert reg bb.ue }

define : BasicBlock → ℕ → BasicBlock
define bb reg = record bb { kill = insert reg bb.kill }

compute_kill_ue_ins : BlockHeap → Ins → BlockHeap
unfolding expose define
compute_kill_ue_ins h ins =
    let h1 =
      if has_flag ins InstFlags.read_reg
      then update h ins.bb (foldl expose (h ins.bb) ins.read_regs)
      else h in
    if has_flag ins InstFlags.write_reg
    then update h1 ins.bb (define (h1 ins.bb) ins.write_reg)
    else h1

pub compute_kill_ue : BlockHeap → List Ins → BlockHeap
compute_kill_ue = foldl compute_kill_ue_ins

-- Sizes first, then each element of the first set is looked up in the second.
pub sets_equal : List ℕ → List ℕ → Bool
sets_equal a b = if length a == length b then subset a b else false

-- What survives a successor: its live-out set without the registers that it writes.
abbrev pub difference : BasicBlock → List ℕ
difference succ = keep (λ reg. not (mem reg succ.kill)) succ.live_out

new_live_out : BlockHeap → List ℕ → List ℕ → List ℕ → List ℕ
new_live_out h ue [] acc = acc
new_live_out h ue (succ ∷ succs) acc =
    new_live_out h ue succs (insert_all (insert_all acc (difference (h succ))) ue)

pub next_live_out : BlockHeap → ℕ → List ℕ
next_live_out h bb = new_live_out h (h bb).ue (h bb).successors []

pub compute_live_out : BlockHeap → ℕ → BlockHeap
compute_live_out h bb = update h bb (record (h bb) { live_out = next_live_out h bb })

-- The body of the `while`: each block once, in order, and whether a set changed.
pub live_out_round : BlockHeap → List ℕ → Bool → BlockHeap × Bool
live_out_round h [] changed = (h, changed)
live_out_round h (bb ∷ bbs) changed =
    let h' = compute_live_out h bb in
    live_out_round h' bbs (if sets_equal (h bb).live_out (h' bb).live_out then changed else true)

-- `none`: the fuel ran out.
pub compute_live_outs : ℕ → BlockHeap → List ℕ → Option BlockHeap
compute_live_outs zero h bbs = none
compute_live_outs (suc fuel) h bbs =
    let round = live_out_round h bbs false in
    let rest = compute_live_outs fuel round.0 bbs in if round.1 then rest else some round.0
