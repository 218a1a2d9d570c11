-- ===== src/Snapshot.antt =====
-- src/snapshot-readwriter.cpp: writing of the functions of a snapshot into the output buffer.
-- The functions of JerryScript that store into the buffer are parameters on a state `W`, which holds
-- the buffer's content; addresses are counted in words of 4 bytes from the start of
-- `output_buffer`, as `buffer_p` is. A file is not modelled: what is written to it is a region.
pub mod Regions
pub mod Reading
mod Examples
use jerryscript_optimizer.Prelude.{
  ℕ, ◌+◌, ◌-◌, ◌*◌, ◌/◌, ◌%◌, ◌^◌, Bool, true, false, not, Option, none, some, List, [], ◌∷◌, ◌++◌,
  ◌==◌, bit_and, if◌then◌else◌,
}
use jerryscript_optimizer.Inst.{Ins}
use jerryscript_optimizer.Bytecode.{CbcMacros, BytecodeArguments}
use jerryscript_optimizer.Decoder.Opcode.{OpcodeMarks}
use jerryscript_optimizer.Emit.{Memory, Compiled, emit}

-- `snapshot_globals_t`; `failed` says that `snapshot_error` is not empty.
pub record Globals : Type 0 where
  pub write_offset : ℕ
  pub failed : Bool
  pub regex_found : Bool
  pub class_found : Bool

-- `jerry_snapshot_header_t`
pub record SnapshotHeader : Type 0 where
  pub magic : ℕ
  pub version : ℕ
  pub global_flags : ℕ
  pub lit_table_offset : ℕ
  pub number_of_funcs : ℕ
  pub func_offset : ℕ

-- What JerryScript provides. A region is given by its address, in words, and its size in bytes.
pub record Jerry (W : Type 0) : Type 0 where
  pub magic : ℕ
  pub version : ℕ
  pub save_static : ℕ
  -- `JERRY_ALIGNUP(sizeof(jerry_snapshot_header_t), JMEM_ALIGNMENT)`
  pub aligned_header_size : ℕ
  pub static_snapshot_add_compiled_code : Compiled → ℕ → ℕ → Globals → W → Globals × W
  pub snapshot_add_compiled_code : Compiled → ℕ → ℕ → Globals → W → Globals × W
  pub snapshot_get_global_flags : Bool → Bool → ℕ
  -- `ecma_save_literals_for_snapshot` on the literals of the code, from the write offset on: the new
  -- write offset and the map of the literals, or `none` for `false`
  pub save_literals : Compiled → ℕ → ℕ → ℕ → W → Option (ℕ × ℕ) × W
  pub jerry_snapshot_set_offsets : ℕ → ℕ → ℕ → W → W
  -- `snapshot_write_to_buffer_by_offset`, for the header
  pub write_header : ℕ → ℕ → SnapshotHeader → W → W
  -- `jerry_merge_snapshots`: the addresses and sizes of the snapshots, and the region for the result
  pub jerry_merge_snapshots : List ℕ → List ℕ → ℕ → ℕ → W → ℕ × W

-- A function as `emit` takes it, and whether it has a function object of its own.
pub record Function : Type 0 where
  pub has_function : Bool
  pub uint16 : Bool
  pub args : BytecodeArguments
  pub pool : List ℕ
  pub end_info : ℕ
  pub old : List ℕ
  pub insns : List Ins

-- What `Bytecode::emit` takes from JerryScript.
pub record Layout : Type 0 where
  pub macros : CbcMacros
  pub marks : OpcodeMarks
  pub ext_line : ℕ
  pub memory : Memory

pub emit_function : Layout → Function → Option Compiled
emit_function l f =
    emit l.macros l.marks l.ext_line l.memory f.uint16 f.args f.pool f.end_info f.old f.insns

-- Up to the snapshots that are written: their sizes and addresses, what is left of the buffer, and
-- its content.
pub record Written (W : Type 0) : Type 0 where
  pub sizes : List ℕ
  pub buffers : List ℕ
  pub buffer_p : ℕ
  pub buffer_size : ℕ
  pub content : W

pub data Result (W : Type 0) : Type 0 where
  -- the region that is written to the file
  created : ℕ → ℕ → W → Result W
  -- "snaphot genration error"
  generation_error : Result W
  -- an assertion of `emit` failed
  failed : Result W
  -- `snapshot_sizes[0]` where nothing was written
  undefined : Result W

-- `sizeof(output_buffer) / sizeof(uint32_t)`
abbrev pub output_words : ℕ
output_words = 1048576

module _ {W : Type 0} (j : Jerry W) where
  abbrev start_globals : Globals
  start_globals = record {
    write_offset = j.aligned_header_size;
    failed = false;
    regex_found = false;
    class_found = false;
  }

  abbrev pub header_of : Globals → SnapshotHeader
  header_of globals = record {
    magic = j.magic;
    version = j.version;
    global_flags = j.snapshot_get_global_flags globals.regex_found globals.class_found;
    lit_table_offset = globals.write_offset % 2 ^ 32;
    number_of_funcs = 1;
    func_offset = j.aligned_header_size;
  }

  -- The end of `writeSnapshot`: the header, and the offset that is returned.
  pub finish_snapshot : ℕ → ℕ → SnapshotHeader → ℕ → W → ℕ × W
  finish_snapshot buffer size header offset w =
      (offset % 2 ^ 32, j.write_header buffer size header w)

  pub with_literals : ℕ → ℕ → SnapshotHeader → Option (ℕ × ℕ) × W → ℕ × W
  with_literals buffer size header (none, w) = (0, w)
  with_literals buffer size header (some (offset, lit_map), w) =
      finish_snapshot buffer size header offset (
        j.jerry_snapshot_set_offsets (buffer + j.aligned_header_size / 4)
          ((header.lit_table_offset + 2 ^ 32 - j.aligned_header_size) % 2 ^ 32) lit_map w)

  -- What stands behind the code was added.
  pub behind_code : Compiled → Bool → ℕ → ℕ → Globals × W → ℕ × W
  behind_code code static buffer size (globals, w) =
      if globals.failed
      then (0, w)
      else if static
      then finish_snapshot buffer size (header_of globals) globals.write_offset w
      else with_literals buffer size (header_of globals)
          (j.save_literals code buffer size globals.write_offset w)

  -- `writeSnapshot`
  pub write_snapshot : Compiled → ℕ → ℕ → ℕ → W → ℕ × W
  write_snapshot code opts buffer size w =
      let static = not (bit_and opts j.save_static == 0) in
      behind_code code static buffer size (
        if static
        then j.static_snapshot_add_compiled_code code buffer size start_globals w
        else j.snapshot_add_compiled_code code buffer size start_globals w)

  -- The loop of `write`. `buffer_p += res` moves by words.
  pub push_snapshot : Written W → ℕ → W → Written W
  push_snapshot s res w = record {
    sizes = s.sizes ++ (res ∷ []);
    buffers = s.buffers ++ (s.buffer_p ∷ []);
    buffer_p = s.buffer_p + res;
    buffer_size = (s.buffer_size + 2 ^ 32 - res) % 2 ^ 32;
    content = w;
  }

  -- The inner `none` is the error.
  pub write_function : Compiled → Written W → Option (Written W)
  write_function code s =
      let (res, w) = write_snapshot code 0 s.buffer_p s.buffer_size s.content in
      if res == 0 then none else some (push_snapshot s res w)

  -- What stands behind the loop, on the sizes and the addresses of the snapshots.
  pub choose_final : List ℕ → List ℕ → Written W → Result W
  choose_final (size ∷ []) (buffer ∷ buffers) s = Result.created buffer size s.content
  choose_final (size ∷ more ∷ sizes) buffers s =
      let (final_size, w) =
        j.jerry_merge_snapshots buffers (size ∷ more ∷ sizes) s.buffer_p s.buffer_size s.content in
      Result.created s.buffer_p final_size w
  choose_final _ _ s = Result.undefined

  pub finish_write : Written W → Result W
  finish_write s = choose_final s.sizes s.buffers s

  -- `k` is the rest of the loop.
  pub after_write : Option (Written W) → (Written W → Result W) → Result W
  after_write none k = Result.generation_error
  after_write (some s) k = k s

  pub after_emit : Option Compiled → Bool → Written W → (Written W → Result W) → Result W
  after_emit none has_function s k = Result.failed
  after_emit (some code) true s k = after_write (write_function code s) k
  after_emit (some code) false s k = k s

  pub write_loop : Layout → List Function → Written W → Result W
  write_loop l [] s = finish_write s
  write_loop l (f ∷ fs) s = after_emit (emit_function l f) f.has_function s (write_loop l fs)

  -- `write`
  pub write : Layout → List Function → W → Result W
  write l fs w =
      write_loop l fs
        (record { sizes = []; buffers = []; buffer_p = 0; buffer_size = output_words; content = w })
