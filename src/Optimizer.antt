-- ===== src/Optimizer.antt =====
-- src/optimizer.cpp and src/pass.h: the passes run in order on each function, and the record of
-- those that have finished. `PassKind` is an enum whose values are used as bits.
pub mod Passes
mod Examples
use jerryscript_optimizer.Prelude.{
  ℕ, ◌+◌, ◌<◌, ◌≡◌, ◌≢◌, ◌↔◌, ◌⊎◌, inl, inr, refl, Bool, true, false, not, ◌||◌, List, [], ◌∷◌,
  ◌==◌, bit_and, bit_or, if◌then◌else◌, arith, Bool-cases,
}

pub data PassKind : Type 0 where
  none control_flow_analysis dominator_analysis liveness_analysis regalloc_linear_scan : PassKind

-- The values that C++ gives the enumerators.
unfoldable pub value : PassKind → ℕ
value PassKind.none = 0
value PassKind.control_flow_analysis = 1
value PassKind.dominator_analysis = 2
value PassKind.liveness_analysis = 3
value PassKind.regalloc_linear_scan = 4

-- `(run_passes_ & pass) != 0`
unfoldable pub is_succeeded : ℕ → PassKind → Bool
is_succeeded run_passes pass = not (bit_and run_passes (value pass) == 0)

pub finish : ℕ → PassKind → ℕ
finish run_passes pass = bit_or run_passes (value pass)

pub finish_all : ℕ → List PassKind → ℕ
finish_all run_passes [] = run_passes
finish_all run_passes (p ∷ ps) = finish_all (finish run_passes p) ps

-- A pass: its kind, and what it does to a function, with the `bool` that it returns. It reads which
-- passes have finished.
module _ {ℓ} (F : Type ℓ) where
  pub record Pass : Type ℓ where
    pub kind : PassKind
    pub run : ℕ → F → F × Bool

  -- The inner loop of `Optimizer::run`: the function, the finished passes, and whether all passes
  -- returned true.
  pub run_passes : ℕ → F → List Pass → F × ℕ × Bool
  run_passes done f [] = (f, done, true)
  run_passes done f (p ∷ ps) =
      let result = p.run done f in
      let rest = run_passes (finish done p.kind) result.0 ps in
      if result.1 then rest else (result.0, done, false)

  -- The outer loop. Functions behind a failure are not touched.
  pub run : ℕ → List F → List Pass → List F × ℕ × Bool
  run done [] ps = ([], done, true)
  run done (f ∷ fs) ps =
      let first = run_passes done f ps in
      let rest = run first.1 fs ps in
      if first.2 then (first.0 ∷ rest.0, rest.1, rest.2) else (first.0 ∷ fs, first.1, false)
