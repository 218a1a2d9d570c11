-- ===== src/Codec/Rests.antt =====
-- Every read leaves a rest of the bytes, in which nothing is changed.
use jerryscript_optimizer.Prelude.{
  ℕ, zero, suc, ◌*◌, ◌^◌, ◌%◌, ◌-◌, ◌≡◌, refl, Bool, Bool-cases, inl, inr, none, some, List, [],
  ◌∷◌, ◌==◌, ltb, leb, bit_and, bit_or, drop, if◌then◌else◌,
}
use jerryscript_optimizer.Bytecode.{BytecodeArguments, CbcMacros}
use jerryscript_optimizer.Codec.{
  Read, next, decode_literal_index, shift_in, read_offset, decode_branch, decode_line,
}

abbrev pub IsRest : List ℕ → Read → Type 0
IsRest bytes none = Unit {0}
IsRest bytes (some (value, rest)) = (k : ℕ) × (rest ≡ drop k bytes)

pub next-IsRest : (bytes : List ℕ) → IsRest bytes (next bytes)
next-IsRest [] = tt
next-IsRest (b ∷ rest) = (1, refl)

pub decode_literal_index-IsRest :
    (args : BytecodeArguments) (bytes : List ℕ) → IsRest bytes (decode_literal_index args bytes)
unfolding decode_literal_index
decode_literal_index-IsRest args [] = tt
decode_literal_index-IsRest args (first ∷ []) = elim (Bool-cases (leb args.encoding_limit first)) [
  | inl e ↦ rw e tt
  | inr e ↦ rw e (1, refl)
]
decode_literal_index-IsRest args (first ∷ second ∷ rest) =
    elim (Bool-cases (leb args.encoding_limit first)) [
      | inl e ↦ rw e (2, refl)
      | inr e ↦ rw e (1, refl)
    ]

longer : (b : ℕ) (bytes : List ℕ) (r : Read) → IsRest bytes r → IsRest (b ∷ bytes) r
longer b bytes none h = tt
longer b bytes (some (value, rest)) (k, e) = (suc k, e)

read_offset-IsRest :
    (count offset : ℕ) (bytes : List ℕ) → IsRest bytes (read_offset count offset bytes)
unfolding read_offset
read_offset-IsRest zero offset bytes = (0, refl)
read_offset-IsRest (suc count) offset [] = tt
read_offset-IsRest (suc count) offset (b ∷ rest) =
    longer b rest (read_offset count (shift_in offset b) rest)
      (read_offset-IsRest count (shift_in offset b) rest)

negated :
    (backward : Bool) (bytes : List ℕ) (r : Read)
    → IsRest bytes r
    → IsRest bytes (elim r [
      | none ↦ none
      | some (offset, rest) ↦ some ((if backward then (2 ^ 32 - offset) % 2 ^ 32 else offset), rest)
    ])
negated backward bytes none h = tt
negated backward bytes (some (offset, rest)) h = h

pub decode_branch-IsRest :
    (len : ℕ) (backward : Bool) (bytes : List ℕ) → IsRest bytes (decode_branch len backward bytes)
unfolding decode_branch
decode_branch-IsRest len backward bytes = elim (Bool-cases (ltb 3 len)) [
  | inl e ↦ rw e tt
  | inr e ↦
      rw e (negated backward bytes _ (read_offset-IsRest (if ltb 1 len then len else 1) 0 bytes))
]

pub decode_line-IsRest :
    (m : CbcMacros) (bytes : List ℕ) (value : ℕ) → IsRest bytes (decode_line m bytes value)
unfolding decode_line
decode_line-IsRest m [] value = tt
decode_line-IsRest m (byte ∷ rest) value =
    let value' = bit_or (value * 2 ^ 7 % 2 ^ 32) (bit_and byte m.lower_seven_bit_mask) in
    elim (Bool-cases (bit_and byte m.highest_bit_mask == 0)) [
      | inl e ↦ rw e (1, refl)
      | inr e ↦
          rw e (longer byte rest (decode_line m rest value') (decode_line-IsRest m rest value'))
    ]
