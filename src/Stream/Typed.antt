-- ===== src/Stream/Typed.antt =====
-- The instructions that `buildInstructions` returns are typed.
use jerryscript_optimizer.Prelude.{ℕ, ◌<◌, Option, none, some, List, All}
use jerryscript_optimizer.Inst.{Ins}
use jerryscript_optimizer.Bytecode.{BytecodeArguments}
use jerryscript_optimizer.Bytecode.Arguments.{IsOrdered}
use jerryscript_optimizer.Decoder.Typed.{HasItsType}
use jerryscript_optimizer.Stream.{Tables, Unset}

module _ (t : Tables) (args : BytecodeArguments) (unset : ℕ → Unset) (code : List ℕ)
    (o : IsOrdered args) where
  abbrev IsTypedIns : Ins → Type 0
  IsTypedIns i =
      All (λ r. r < args.register_end) i.read_regs × All (HasItsType args) i.argument.literals

  abbrev LeavesTyped : Option (Option Ins × List ℕ) → Type 0
  LeavesTyped none = Unit {0}
  LeavesTyped (some (none, rest)) = Unit {0}
  LeavesTyped (some (some ins, rest)) = IsTypedIns ins
