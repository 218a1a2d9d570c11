-- ===== src/Edges.antt =====
-- src/basic-block.cpp: adding and removing edges between basic blocks. An edge stands in the
-- successors of the block that it leaves and in the predecessors of the one that it enters.
pub mod Counts
pub mod Removal
pub mod Bridge
mod Examples
use jerryscript_optimizer.Prelude.{
  ℕ, zero, suc, ◌+◌, Bool, true, false, not, Option, none, some, List, [], ◌∷◌, ◌++◌, ◌==◌,
  if◌then◌else◌,
}
use jerryscript_optimizer.Prelude.Sets.{keep}
use jerryscript_optimizer.Blocks.{BasicBlock, BlockHeap, update}

-- `bb->predecessors().push_back(p)` and the like.
abbrev pub push_predecessor : BlockHeap → ℕ → ℕ → BlockHeap
push_predecessor h bb p =
    update h bb (record (h bb) { predecessors = (h bb).predecessors ++ (p ∷ []) })

abbrev pub push_successor : BlockHeap → ℕ → ℕ → BlockHeap
push_successor h bb s = update h bb (record (h bb) { successors = (h bb).successors ++ (s ∷ []) })

pub add_predecessor : BlockHeap → ℕ → ℕ → BlockHeap
add_predecessor h this bb = push_successor (push_predecessor h this bb) bb this

unfoldable pub add_successor : BlockHeap → ℕ → ℕ → BlockHeap
add_successor h this bb = push_predecessor (push_successor h this bb) bb this

-- What the lambda of `remove_if` leaves in `pred` or `succ`: the last block with the id.
pub last_hit : BlockHeap → ℕ → List ℕ → Option ℕ
last_hit h id [] = none
last_hit h id (bb ∷ bbs) = elim (last_hit h id bbs) [
  | some p ↦ some p
  | none ↦ if (h bb).id == id then some bb else none
]

abbrev pub other_than : BlockHeap → ℕ → ℕ → Bool
other_than h id bb = not ((h bb).id == id)

pub drop_predecessors : BlockHeap → ℕ → ℕ → BlockHeap
drop_predecessors h bb id =
    update h bb (record (h bb) { predecessors = keep (other_than h id) (h bb).predecessors })

pub drop_successors : BlockHeap → ℕ → ℕ → BlockHeap
drop_successors h bb id =
    update h bb (record (h bb) { successors = keep (other_than h id) (h bb).successors })

-- `if (pred != nullptr) { … }`, with the memory and whether an edge was deleted.
abbrev pub unlink_predecessor : BlockHeap → ℕ → Option ℕ → BlockHeap × Bool
unlink_predecessor h id none = (h, false)
unlink_predecessor h id (some pred) = (drop_successors h pred id, true)

pub remove_predecessor : BlockHeap → ℕ → ℕ → BlockHeap × Bool
remove_predecessor h this id =
    unlink_predecessor (drop_predecessors h this id) (h this).id
      (last_hit h id (h this).predecessors)

-- Here `succ` is not initialised: with no such successor its value is undefined, `none` here.
abbrev pub unlink_successor : BlockHeap → ℕ → Option ℕ → Option (BlockHeap × Bool)
unlink_successor h id none = none
unlink_successor h id (some succ) = some (drop_predecessors h succ id, true)

pub remove_successor : BlockHeap → ℕ → ℕ → Option (BlockHeap × Bool)
remove_successor h this id =
    unlink_successor (drop_successors h this id) (h this).id (last_hit h id (h this).successors)

-- The loops of `removeAllPredecessors` and `removeAllSuccessors`, on the blocks from the iterator
-- on. After a deletion the iterator starts again; `none` is lack of fuel, or an undefined value.
pub predecessors_loop : ℕ → BlockHeap → ℕ → List ℕ → Option BlockHeap
predecessors_loop zero h this rest = none
predecessors_loop (suc fuel) h this [] = some h
predecessors_loop (suc fuel) h this (pred ∷ rest) = elim (remove_successor h pred (h this).id) [
  | none ↦ none
  | some result ↦ elim result.1 [
    | true ↦ predecessors_loop fuel result.0 this (result.0 this).predecessors
    | false ↦ predecessors_loop fuel result.0 this rest
  ]
]

pub remove_all_predecessors : ℕ → BlockHeap → ℕ → Option BlockHeap
remove_all_predecessors fuel h this = predecessors_loop fuel h this (h this).predecessors

pub successors_loop : ℕ → BlockHeap → ℕ → List ℕ → Option BlockHeap
successors_loop zero h this rest = none
successors_loop (suc fuel) h this [] = some h
successors_loop (suc fuel) h this (succ ∷ rest) =
    let result = remove_predecessor h succ (h this).id in
    elim result.1 [
      | true ↦ successors_loop fuel result.0 this (result.0 this).successors
      | false ↦ successors_loop fuel result.0 this rest
    ]

pub remove_all_successors : ℕ → BlockHeap → ℕ → Option BlockHeap
remove_all_successors fuel h this = successors_loop fuel h this (h this).successors

pub remove : ℕ → BlockHeap → ℕ → Option BlockHeap
remove fuel h this = elim (remove_all_predecessors fuel h this) [
  | none ↦ none
  | some h' ↦ remove_all_successors fuel h' this
]

abbrev pub is_empty : List ℕ → Bool
is_empty [] = true
is_empty (x ∷ xs) = false

-- `none` also stands for a failed assertion.
pub remove_inaccessible : ℕ → BlockHeap → ℕ → Option BlockHeap
remove_inaccessible fuel h this =
    if is_empty (h this).predecessors then remove_all_successors fuel h this else none

-- Each pair of calls: `pred->addSuccessor(succ)` and `succ->addPredecessor(pred)`.
pub bridge : BlockHeap → ℕ → List ℕ → BlockHeap
bridge h pred [] = h
bridge h pred (succ ∷ succs) =
    bridge (add_predecessor (add_successor h pred succ) succ pred) pred succs

pub bridge_all : BlockHeap → List ℕ → List ℕ → BlockHeap
bridge_all h [] succs = h
bridge_all h (pred ∷ preds) succs = bridge_all (bridge h pred succs) preds succs

-- Where the block is its own neighbour, the source extends a vector that it walks, which is
-- undefined; what is said of this function excludes it.
pub remove_empty : ℕ → BlockHeap → ℕ → Option BlockHeap
remove_empty fuel h this =
    let h' = bridge_all h (h this).predecessors (h this).successors in
    if is_empty (h this).insts then remove fuel h' this else none
