-- ===== src/Dominators/Clean.antt =====
-- The textbook iteration, in which the set of a block is what all its predecessors share: what
-- src/dominator-analysis.cpp computes where no element of the set that it walks has to go.
use jerryscript_optimizer.Prelude.{ℕ, zero, suc, Bool, true, false, List, [], ◌∷◌, if◌then◌else◌}
use jerryscript_optimizer.Prelude.Sets.{mem, insert, insert_all, keep}
use jerryscript_optimizer.Blocks.{BlockHeap}
use jerryscript_optimizer.Dominators.{
  Step, fault, step, refine, Outcome, done, undefined, out_of_fuel, start_dominators,
}

-- What all the predecessors share: the first one's dominators, without those that a further one's
-- list lacks.
unfoldable pub kept_all : BlockHeap → List ℕ → List ℕ → List ℕ
kept_all h set [] = set
kept_all h set (pred ∷ preds) = kept_all h (keep (λ elem. mem elem (h pred).dominators) set) preds

-- The block itself included.
unfoldable pub shared_set : BlockHeap → ℕ → ℕ → List ℕ → List ℕ
shared_set h bb first preds = insert bb (kept_all h (insert_all [] (h first).dominators) preds)

unfoldable pub clean_step : BlockHeap → ℕ → Step
clean_step h bb = elim (h bb).predecessors [
  | [] ↦ fault
  | first ∷ preds ↦ refine h bb (shared_set h bb first preds)
]

unfoldable pub clean_round : BlockHeap → List ℕ → Bool → Step
clean_round h [] changed = step h changed
clean_round h (bb ∷ bbs) changed = elim (clean_step h bb) [
  | fault ↦ fault
  | step h' now ↦ clean_round h' bbs (if now then true else changed)
]

unfoldable pub clean_loop : ℕ → BlockHeap → List ℕ → Outcome
clean_loop zero h bbs = out_of_fuel
clean_loop (suc fuel) h bbs = elim (clean_round h bbs false) [
  | fault ↦ undefined
  | step h' true ↦ clean_loop fuel h' bbs
  | step h' false ↦ done h'
]

unfoldable pub clean_dominators : ℕ → BlockHeap → ℕ → List ℕ → Outcome
clean_dominators fuel h entry bbs = clean_loop fuel (start_dominators h entry bbs) bbs
