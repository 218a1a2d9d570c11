-- ===== src/Optimizer/Examples.antt =====
-- The theorems on src/optimizer.cpp.
use jerryscript_optimizer.Prelude.{◌≡◌, ◌≢◌, true, List, [], ◌∷◌}
use jerryscript_optimizer.Optimizer.{PassKind, is_succeeded, finish_all}
use jerryscript_optimizer.Optimizer.Passes.{liveness_too_early}

abbrev finished : List PassKind
finished = PassKind.control_flow_analysis ∷ PassKind.dominator_analysis ∷ []

not_none : PassKind.dominator_analysis ≢ PassKind.none
not_none e = cc e

liveness_too_early_example :
    is_succeeded (finish_all 0 (PassKind.control_flow_analysis ∷ [])) PassKind.liveness_analysis
    ≡ true
liveness_too_early_example = liveness_too_early []
