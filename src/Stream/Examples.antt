-- ===== src/Stream/Examples.antt =====
-- The theorems on `buildInstructions` at the code of Sample.antt.
use jerryscript_optimizer.Prelude.{refl, arith}
use jerryscript_optimizer.Cfg.{Graph}
use jerryscript_optimizer.Stream.{build_instructions}
use jerryscript_optimizer.Stream.Tiling.{IsResult, build_instructions_correct}
use jerryscript_optimizer.Stream.Sample.{
  no_memory, sample_tables, sample_ends, sample_ends-IsOrdered, sample_code,
}

build_instructions_correct_example :
    IsResult sample_tables sample_ends no_memory sample_code
      (build_instructions sample_tables sample_ends no_memory sample_code)
build_instructions_correct_example =
    build_instructions_correct sample_tables sample_ends no_memory sample_code sample_ends-IsOrdered
      (λ n. refl) (omega arith)
