-- ===== src/Stream/Decode.antt =====
-- One turn of the loop of `buildInstructions`: the instruction stands where its bytes do, its size
-- is not set yet, and the bytes behind it are a rest of the code that lies further on.
use jerryscript_optimizer.Prelude.{
  ℕ, suc, ◌+◌, ◌<◌, ◌≡◌, refl, ap, ◌∙◌, Bool-cases, inl, inr, Option, none, some, List, [], ◌∷◌,
  ◌==◌, drop, drop-drop, arith,
}
use jerryscript_optimizer.Inst.{Ins}
use jerryscript_optimizer.Bytecode.{BytecodeArguments}
use jerryscript_optimizer.Bytecode.Arguments.{IsOrdered}
use jerryscript_optimizer.Decoder.{Decoding}
use jerryscript_optimizer.Decoder.Opcode.{OpcodeMarks, decode_extended, decode_cbc_opcode}
use jerryscript_optimizer.Decoder.Typed.{Yields, IsStable}
use jerryscript_optimizer.Decoder.Group.Switch.{decode_ins-Keeps}
use jerryscript_optimizer.Stream.{
  Tables, Unset, opcode_data, decode_body, instruction_of, decode_behind, decode_ins,
}

-- The bytes are a rest of the code, behind `off`.
abbrev pub IsBehind : List ℕ → ℕ → List ℕ → Type 0
IsBehind code off bytes = (k : ℕ) × (off < k) × (bytes ≡ drop k code)

-- The instruction stands at `off` and has no size yet, and the bytes left are behind `off`.
pub record StandsAt (code : List ℕ) (off : ℕ) (s : Decoding) : Type 0 where
  pub at : s.ins.offset ≡ off
  pub no_size : s.ins.size ≡ 0
  pub behind : IsBehind code off s.bytes

behind_rest :
    (code : List ℕ) (off : ℕ) (bytes rest : List ℕ)
    → (k : ℕ) × (rest ≡ drop k bytes)
    → IsBehind code off bytes
    → IsBehind code off rest
behind_rest code off bytes rest (j, e) (k, lt, f) =
    (k + j, omega arith, e ∙ ap (drop j) f ∙ drop-drop j k code)

pub StandsAt-IsStable :
    (args : BytecodeArguments) (code : List ℕ) (off : ℕ) → IsStable args code (StandsAt code off)
StandsAt-IsStable args code off = record {
  marks = λ f s ok. record { at = ok.at; no_size = ok.no_size; behind = ok.behind };
  writes = λ r s ok. record { at = ok.at; no_size = ok.no_size; behind = ok.behind };
  reads = λ r s small ok. record { at = ok.at; no_size = ok.no_size; behind = ok.behind };
  literals = λ lit s h ok. record { at = ok.at; no_size = ok.no_size; behind = ok.behind };
  consumes = λ rest s cut ok. record {
    at = ok.at;
    no_size = ok.no_size;
    behind = behind_rest code off s.bytes rest cut ok.behind;
  };
  byte_args = λ b s ok. record { at = ok.at; no_size = ok.no_size; behind = ok.behind };
  branches = λ offset s ok. record { at = ok.at; no_size = ok.no_size; behind = ok.behind };
  lines = λ value s ok. record { at = ok.at; no_size = ok.no_size; behind = ok.behind };
  fresh = λ kind s ok. record { at = ok.at; no_size = ok.no_size; behind = ok.behind };
  rewinds = λ s ok. record {
    at = ok.at;
    no_size = ok.no_size;
    behind = (s.ins.offset + 1, omega (arith, ok.at), refl);
  };
}

cut_behind :
    (j : ℕ) (code : List ℕ) (off : ℕ) (bytes rest : List ℕ)
    → bytes ≡ drop off code
    → rest ≡ drop (suc j) bytes
    → IsBehind code off rest
cut_behind j code off bytes rest at e =
    (off + suc j, omega arith, e ∙ ap (drop (suc j)) at ∙ drop-drop (suc j) off code)

decode_extended-rest :
    (k : OpcodeMarks) (bytes : List ℕ) (opcode : ℕ) (rest : List ℕ)
    → decode_extended k bytes ≡ some (some opcode, rest)
    → rest ≡ drop 1 bytes
unfolding decode_extended
decode_extended-rest k [] opcode rest e = cc
decode_extended-rest k (b ∷ bytes) opcode rest e = ground arith

decode_cbc_opcode-behind :
    (k : OpcodeMarks) (code : List ℕ) (off b : ℕ) (bytes : List ℕ) (opcode : ℕ) (rest : List ℕ)
    → (b ∷ bytes) ≡ drop off code
    → decode_cbc_opcode k (b ∷ bytes) ≡ some (some opcode, rest)
    → IsBehind code off rest
unfolding decode_cbc_opcode
decode_cbc_opcode-behind k code off b bytes opcode rest at e =
    elim (Bool-cases (b == k.ext_opcode)) [
      | inl p ↦
          cut_behind 1 code off (b ∷ bytes) rest at
            (decode_extended-rest k bytes opcode rest (rw p at e))
      | inr p ↦ cut_behind 0 code off (b ∷ bytes) rest at (ground arith)
    ]

module _ (t : Tables) (args : BytecodeArguments) (unset : ℕ → Unset) (code : List ℕ)
    (o : IsOrdered args) (clean : (n : ℕ) → (unset n).size ≡ 0) where
  abbrev pub LeavesBehind : ℕ → Option (Option Ins × List ℕ) → Type 0
  LeavesBehind off none = Unit {0}
  LeavesBehind off (some (none, rest)) = Unit {0}
  LeavesBehind off (some (some ins, rest)) = StandsAt code off (record { ins = ins; bytes = rest })

  instruction_lem :
      (off : ℕ) (r : Option ((Unit {0}) × Decoding))
      → Yields (λ u s. (Unit {0}) × StandsAt code off s) r
      → LeavesBehind off (instruction_of t args unset code r)
  unfolding instruction_of
  instruction_lem off none h = tt
  instruction_lem off (some (u, s)) h = h.1

  pub body_lem :
      (off opcode : ℕ) (bytes : List ℕ)
      → IsBehind code off bytes
      → LeavesBehind off
          (instruction_of t args unset code (decode_body t args unset code off opcode bytes))
  unfolding decode_body
  body_lem off opcode bytes behind =
      let op = opcode_data t opcode in
      instruction_lem off _ (
        decode_ins-Keeps t.macros t.codes args code op.is_put_ident o
          (StandsAt-IsStable args code off) op _
          (record { at = refl; no_size = clean off; behind = behind }))

  behind_lem :
      (off : ℕ) (r : Option (Option ℕ × List ℕ))
      → ((opcode : ℕ) (rest : List ℕ) → r ≡ some (some opcode, rest) → IsBehind code off rest)
      → LeavesBehind off (decode_behind t args unset code off r)
  unfolding decode_behind
  behind_lem off none h = tt
  behind_lem off (some (none, rest)) h = tt
  behind_lem off (some (some opcode, rest)) h = body_lem off opcode rest (h opcode rest refl)

  -- An instruction that was decoded from the bytes at `off` stands there, its size is still the one
  -- of the memory, and the bytes left lie behind it.
  pub decode_ins_lem :
      (off b : ℕ) (bytes : List ℕ)
      → (b ∷ bytes) ≡ drop off code
      → LeavesBehind off (decode_ins t args unset code off (b ∷ bytes))
  unfolding decode_ins
  decode_ins_lem off b bytes at =
      behind_lem off (decode_cbc_opcode t.marks (b ∷ bytes))
        (λ opcode rest e. decode_cbc_opcode-behind t.marks code off b bytes opcode rest at e)
