-- ===== src/Dominators.antt =====
-- src/dominator-analysis.cpp: the dominators of each block, by iteration from all blocks down.
-- Undefined behaviour is `fault`: reading the first of no predecessors, and erasing from the set that
-- the loop walks.
pub mod Clean
pub mod Round
pub mod Steps
pub mod Solution
pub mod Correct
pub mod Walked
pub mod Chain
pub mod Kept
pub mod Immediate
mod Examples
use jerryscript_optimizer.Prelude.{
  ℕ, zero, suc, Bool, true, false, not, ◌&&◌, Option, none, some, List, [], ◌∷◌, ◌==◌, and_then,
  if◌then◌else◌,
}
use jerryscript_optimizer.Prelude.Sets.{mem, insert, insert_all, subset}
use jerryscript_optimizer.Blocks.{BasicBlock, BlockHeap, update}

-- `dominatedBy`
pub dominated_by : BlockHeap → ℕ → ℕ → Bool
dominated_by h who by = mem by (h who).dominators

-- The walk over the set for each further predecessor. An element that the predecessor's list lacks
-- is erased, which ends the walk's own iterator: undefined behaviour, `none` here.
unfoldable pub intersect_all : BlockHeap → List ℕ → List ℕ → Option (List ℕ)
intersect_all h set [] = some set
intersect_all h set (pred ∷ preds) =
    let rest = intersect_all h set preds in if subset set (h pred).dominators then rest else none

-- The set that the body computes for a block, the block itself included.
unfoldable pub intersection : BlockHeap → ℕ → ℕ → List ℕ → Option (List ℕ)
intersection h bb first preds =
    and_then (intersect_all h (insert_all [] (h first).dominators) preds)
      (λ set. some (insert bb set))

-- A dominator that is not in the set replaces the whole list by the set.
pub data Step : Type 0 where
  fault : Step
  step : BlockHeap → Bool → Step

pub refine : BlockHeap → ℕ → List ℕ → Step
refine h bb set =
    if subset (h bb).dominators set
    then step h false
    else step (update h bb (record (h bb) { dominators = set })) true

unfoldable pub refine_by : BlockHeap → ℕ → Option (List ℕ) → Step
refine_by h bb none = fault
refine_by h bb (some set) = refine h bb set

unfoldable pub dominator_step : BlockHeap → ℕ → Step
dominator_step h bb = elim (h bb).predecessors [
  | [] ↦ fault
  | first ∷ preds ↦ refine_by h bb (intersection h bb first preds)
]

-- The body of the `while`: every block but the first.
pub dominator_round : BlockHeap → List ℕ → Bool → Step
dominator_round h [] changed = step h changed
dominator_round h (bb ∷ bbs) changed = elim (dominator_step h bb) [
  | fault ↦ fault
  | step h' now ↦ dominator_round h' bbs (if now then true else changed)
]

pub data Outcome : Type 0 where
  done : BlockHeap → Outcome
  undefined out_of_fuel : Outcome

pub dominator_loop : ℕ → BlockHeap → List ℕ → Outcome
dominator_loop zero h bbs = out_of_fuel
dominator_loop (suc fuel) h bbs = elim (dominator_round h bbs false) [
  | fault ↦ undefined
  | step h' true ↦ dominator_loop fuel h' bbs
  | step h' false ↦ done h'
]

-- `run` clears the lists; `computeDominators` then fills them: the first block alone for itself, all
-- blocks for each of the others.
pub fill : BlockHeap → List ℕ → List ℕ → BlockHeap
fill h all [] = h
fill h all (bb ∷ bbs) = fill (update h bb (record (h bb) { dominators = all; idom = none })) all bbs

pub start_dominators : BlockHeap → ℕ → List ℕ → BlockHeap
start_dominators h entry bbs =
    let h1 = update h entry (record (h entry) { dominators = entry ∷ []; idom = none }) in
    fill h1 (entry ∷ bbs) bbs

-- The blocks are `entry` and, behind it, `bbs`.
pub compute_dominators : ℕ → BlockHeap → ℕ → List ℕ → Outcome
compute_dominators fuel h entry bbs = dominator_loop fuel (start_dominators h entry bbs) bbs
