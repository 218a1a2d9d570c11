-- ===== src/Snapshot/Examples.antt =====
-- The theorems on snapshots at a writer that adds 10 bytes for the code and 6 for the literals.
use jerryscript_optimizer.Prelude.{
  ℕ, ◌+◌, ◌*◌, ◌/◌, ◌≡◌, Bool, true, false, none, some, List, [], ◌∷◌, ltb, leb, arith,
  if◌then◌else◌,
}
use jerryscript_optimizer.Bytecode.{CbcArguments}
use jerryscript_optimizer.Stream.Sample.{sample_macros, sample_marks, sample_ends}
use jerryscript_optimizer.Snapshot.{Globals, Jerry, Function, Layout, write}
use jerryscript_optimizer.Snapshot.Regions.{
  StaysInside, IsOutcome, nothing_written, write-IsOutcome,
}
use jerryscript_optimizer.Snapshot.Reading.{error_text}
use jerryscript_optimizer.Snapshot.Reading.Messages.{error_text-no_colon}

abbrev add_code : ℕ → Globals → ℕ → Globals × ℕ
add_code size globals w = (
  record globals {
    write_offset = globals.write_offset + 10;
    failed = ltb size (globals.write_offset + 10);
  },
  w + 1,
)

abbrev jerry : Jerry ℕ
jerry = record {
  magic = 1;
  version = 2;
  save_static = 1;
  aligned_header_size = 24;
  static_snapshot_add_compiled_code = λ code buffer size globals w. add_code size globals w;
  snapshot_add_compiled_code = λ code buffer size globals w. add_code size globals w;
  snapshot_get_global_flags = λ regex class. 0;
  save_literals = λ code buffer size offset w.
      ((if leb (offset + 6) size then some (offset + 6, 0) else none), w + 1);
  jerry_snapshot_set_offsets = λ start size lit_map w. w + 1;
  write_header = λ buffer size header w. w + 1;
  jerry_merge_snapshots = λ buffers sizes buffer size w. ((if leb 70 size then 70 else 0), w + 1);
}

jerry-StaysInside : StaysInside jerry
jerry-StaysInside = record {
  adds = λ code buffer size globals w h. ground arith;
  adds_static = λ code buffer size globals w h. ground arith;
  saves = λ code buffer size offset w offset' lit_map h. ground arith;
  merges = λ buffers sizes buffer size w. ground arith;
}

abbrev block : CbcArguments → List ℕ
block a =
    a.stack_limit ∷ a.argument_end ∷ a.register_end ∷ a.ident_end ∷ a.const_literal_end
    ∷ a.literal_end ∷ []

abbrev layout : Layout
layout = record {
  macros = sample_macros;
  marks = sample_marks;
  ext_line = 44;
  memory = record {
    u8_bytes = block;
    u16_bytes = block;
    align_up = λ n. (n + 7) / 8 * 8;
    alignment_log = 3;
  };
}

abbrev function_of : Bool → Function
function_of own = record {
  has_function = own;
  uint16 = false;
  args = sample_ends;
  pool = [];
  end_info = 0;
  old = [];
  insns = [];
}

abbrev two_functions : List Function
two_functions = function_of false ∷ function_of true ∷ function_of true ∷ []

write-IsOutcome_example :
    IsOutcome jerry 2 layout two_functions
      (nothing_written jerry 0)
      (write jerry layout two_functions 0)
write-IsOutcome_example = write-IsOutcome jerry layout two_functions 0 jerry-StaysInside

error_text-no_colon_example : error_text (110 ∷ 111 ∷ []) ≡ some (111 ∷ [])
error_text-no_colon_example = error_text-no_colon 110 (111 ∷ []) (ground arith)
