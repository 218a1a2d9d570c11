-- ===== src/Decoder/Opcode.antt =====
-- src/inst.h and src/inst.cpp: reading and writing of an opcode, which takes two bytes when it is
-- an extended one. The numbers of three opcodes are parameters. The outer `none` is a failed
-- assertion; the inner one stands for `false`, the end of the instructions.
use jerryscript_optimizer.Prelude.{
  ℕ, ◌+◌, ◌-◌, ◌%◌, ◌^◌, ◌≤◌, ◌<◌, ◌≡◌, ◌≢◌, ◌⊎◌, inl, inr, Option, none, some, List, [], ◌∷◌, ◌++◌,
  ◌==◌, ltb, arith, if◌then◌else◌, All,
}

pub record OpcodeMarks : Type 0 where
  pub cbc_end : ℕ
  pub ext_opcode : ℕ
  pub ext_nop : ℕ

-- What JerryScript documents: the prefix is one of the plain opcodes, and these fit one byte.
pub record AreBytes (k : OpcodeMarks) : Type 0 where
  pub plain_prefix : k.ext_opcode ≤ k.cbc_end
  pub one_byte : k.cbc_end < 2 ^ 8

unfoldable pub decode_extended : OpcodeMarks → List ℕ → Option (Option ℕ × List ℕ)
decode_extended k [] = some (none, [])
decode_extended k (b ∷ rest) =
    if b == k.ext_nop then some (none, rest) else some (some ((b + 256) % 2 ^ 16), rest)

-- `Ins::decodeCBCOpcode`, with `toExtOpcode`.
unfoldable pub decode_cbc_opcode : OpcodeMarks → List ℕ → Option (Option ℕ × List ℕ)
decode_cbc_opcode k [] = none
decode_cbc_opcode k (b ∷ rest) =
    let extended = decode_extended k rest in
    if b == k.ext_opcode then extended else some (some b, rest)

-- `Opcode::emit`
unfoldable pub emit_opcode : OpcodeMarks → ℕ → List ℕ
emit_opcode k opcode =
    if ltb k.cbc_end opcode
    then k.ext_opcode % 2 ^ 8 ∷ ((opcode + 2 ^ 32 - 256) % 2 ^ 8) ∷ []
    else opcode % 2 ^ 8 ∷ []

-- The plain opcodes but the prefix, and the extended ones but the end mark.
abbrev pub IsOpcode : OpcodeMarks → ℕ → Type 0
IsOpcode k opcode =
    ((opcode ≤ k.cbc_end) × (opcode ≢ k.ext_opcode))
    ⊎ ((256 ≤ opcode) × (opcode < 512) × (opcode ≢ 256 + k.ext_nop))

-- Where the prefix is a plain opcode and these fit one byte, every opcode is read back as it was
-- written, and nothing behind it is touched.
pub decode_cbc_opcode-emit_opcode :
    (k : OpcodeMarks) (opcode : ℕ) (rest : List ℕ)
    → AreBytes k
    → IsOpcode k opcode
    → decode_cbc_opcode k (emit_opcode k opcode ++ rest) ≡ some (some opcode, rest)
unfolding decode_cbc_opcode decode_extended emit_opcode
decode_cbc_opcode-emit_opcode k opcode rest bytes (inl (le, ne)) =
    ground (arith, bytes.plain_prefix, bytes.one_byte)
decode_cbc_opcode-emit_opcode k opcode rest bytes (inr (lo, hi, ne)) =
    ground (arith, bytes.plain_prefix, bytes.one_byte)

-- Bytes that are read as an opcode, of which the first is a plain opcode, are what is written for
-- it.
pub emit_opcode-decode_cbc_opcode :
    (k : OpcodeMarks) (first : ℕ) (bytes : List ℕ) (opcode : ℕ) (rest : List ℕ)
    → AreBytes k
    → first ≤ k.cbc_end
    → All (λ b. b < 256) bytes
    → decode_cbc_opcode k (first ∷ bytes) ≡ some (some opcode, rest)
    → emit_opcode k opcode ++ rest ≡ first ∷ bytes
unfolding decode_cbc_opcode decode_extended emit_opcode
emit_opcode-decode_cbc_opcode k first [] opcode rest ok le small e =
    ground (arith, ok.plain_prefix, ok.one_byte)
emit_opcode-decode_cbc_opcode k first (b ∷ bytes) opcode rest ok le small e =
    ground (arith, ok.plain_prefix, ok.one_byte)
