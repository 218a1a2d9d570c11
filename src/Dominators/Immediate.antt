-- ===== src/Dominators/Immediate.antt =====
-- src/dominator-analysis.cpp: the immediate dominators, and the whole analysis.
pub mod Closest
pub mod Analysis
mod Examples
use jerryscript_optimizer.Prelude.{
  ℕ, zero, suc, Bool, true, false, not, Option, none, some, List, [], ◌∷◌, ◌==◌, length, last,
  and_then, if◌then◌else◌,
}
use jerryscript_optimizer.Prelude.Sets.{keep}
use jerryscript_optimizer.Blocks.{BlockHeap, update}
use jerryscript_optimizer.Dominators.{
  dominated_by, Outcome, done, undefined, out_of_fuel, compute_dominators,
}

-- `doms.erase(std::remove(doms.begin(), doms.end(), bb), doms.end())`
abbrev pub erase : ℕ → List ℕ → List ℕ
erase bb doms = keep (λ d. not (d == bb)) doms

-- The inner loops: the element that the first pair of comparable blocks makes go.
pub farther_of : BlockHeap → ℕ → List ℕ → Option ℕ
farther_of h i [] = none
farther_of h i (j ∷ js) =
    if dominated_by h i j then some j else if dominated_by h j i then some i else farther_of h i js

abbrev or_else : Option ℕ → Option ℕ → Option ℕ
or_else (some x) y = some x
or_else none y = y

pub farther : BlockHeap → List ℕ → Option ℕ
farther h [] = none
farther h (i ∷ is) = or_else (farther_of h i is) (farther h is)

-- The `while`, left at one element, with `goto restart` as its next round. With none or with
-- several of which no two are comparable, it goes on for ever.
pub closest : ℕ → BlockHeap → List ℕ → Option ℕ
closest zero h doms = none
closest (suc fuel) h doms = elim (farther h doms) [
  | some x ↦ closest fuel h (erase x doms)
  | none ↦ if length doms == 1 then last doms else closest fuel h doms
]

abbrev pub set_idom : BlockHeap → ℕ → ℕ → BlockHeap
set_idom h bb d = update h bb (record (h bb) { idom = some d })

pub compute_imm_dominator : ℕ → BlockHeap → List ℕ → Option BlockHeap
compute_imm_dominator fuel h [] = some h
compute_imm_dominator fuel h (bb ∷ bbs) =
    and_then (closest fuel h (erase bb (h bb).dominators))
      (λ d. compute_imm_dominator fuel (set_idom h bb d) bbs)

-- `run`, on the blocks `entry` and, behind it, `bbs`. The assertion that the first has no immediate
-- dominator is written out.
pub finish : ℕ → ℕ → List ℕ → Outcome → Option BlockHeap
finish fuel entry bbs (done h) = elim (h entry).idom [
  | none ↦ compute_imm_dominator fuel h bbs
  | some d ↦ none
]
finish fuel entry bbs undefined = none
finish fuel entry bbs out_of_fuel = none

pub run : ℕ → ℕ → BlockHeap → ℕ → List ℕ → Option BlockHeap
run rounds fuel h entry bbs = finish fuel entry bbs (compute_dominators rounds h entry bbs)
