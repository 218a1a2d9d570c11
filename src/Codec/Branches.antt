-- ===== src/Codec/Branches.antt =====
-- Branch offsets: what `Argument::emit` writes and what `decodeArguments` reads.
use jerryscript_optimizer.Prelude.{
  ℕ, zero, suc, ◌+◌, ◌-◌, ◌*◌, ◌/◌, ◌%◌, ◌^◌, ◌≤◌, ◌<◌, ◌≡◌, ◌↔◌, refl, sym, ◌∙◌, false, some, List,
  [], ◌∷◌, ◌++◌, ◌==◌, arith, length, All, Bool-cases, inl, inr,
}
use native.Mathlib.Nat.{pow-suc}
use jerryscript_optimizer.Prelude.Bits.{bit_or_byte, bit_and_byte}
use jerryscript_optimizer.Codec.{emit_offset, offset_fuel, shift_in, read_offset, decode_branch}

-- The number that bytes stand for with the lowest first.
pub little_endian : List ℕ → ℕ
little_endian [] = 0
little_endian (b ∷ bytes) = b + 256 * little_endian bytes

-- The last byte is not 0.
abbrev pub IsTrimmed : List ℕ → Type 0
IsTrimmed [] = Unit {0}
IsTrimmed (b ∷ []) = 0 < b
IsTrimmed (b ∷ c ∷ bytes) = IsTrimmed (c ∷ bytes)

cons-IsTrimmed :
    (b : ℕ) (bytes : List ℕ)
    → 0 < b + 256 * little_endian bytes
    → IsTrimmed bytes
    → IsTrimmed (b ∷ bytes)
unfolding little_endian
cons-IsTrimmed b [] h t = omega arith
cons-IsTrimmed b (c ∷ bytes) h t = t

emit_offset_writes :
    (fuel offset : ℕ)
    → offset < 256 ^ fuel
    → (bytes : List ℕ) × (emit_offset (suc fuel) offset ≡ some bytes)
      × (little_endian bytes ≡ offset)
      × All (λ b. b < 256) bytes
      × IsTrimmed bytes
      × (length bytes ≤ fuel)
unfolding emit_offset little_endian
emit_offset_writes zero offset h =
    let e : offset ≡ 0 = omega arith in ([], rw e refl, omega arith, tt, tt, omega arith)
emit_offset_writes (suc fuel) offset h =
    let (bytes, e, v, bounds, trimmed, len) =
      emit_offset_writes fuel (offset / 256) (omega (arith, pow-suc 256 fuel)) in
    elim (Bool-cases (offset == 0)) [
      | inl z ↦ ([], rw z refl, ground arith, tt, tt, omega arith)
      | inr z ↦
          let low = bit_and_byte offset in
          let value : offset % 256 + 256 * little_endian bytes ≡ offset = omega arith in
          (
            (offset % 256) ∷ bytes,
            rw (z, emit_offset) (rw (e, low) refl),
            value,
            (omega arith, bounds),
            cons-IsTrimmed (offset % 256) bytes (ground arith) trimmed,
            omega arith,
          )
    ]

-- For every 32-bit offset the loop of `Argument::emit` ends, and writes the bytes of the offset,
-- the lowest first, without zero bytes at the end: four at most.
pub emit_offset_lem :
    (offset : ℕ)
    → offset < 2 ^ 32
    → (bytes : List ℕ) × (emit_offset offset_fuel offset ≡ some bytes)
      × (little_endian bytes ≡ offset)
      × All (λ b. b < 256) bytes
      × IsTrimmed bytes
      × (length bytes ≤ 4)
emit_offset_lem offset h = emit_offset_writes 4 offset h

shift_in_sum : (offset b : ℕ) → b < 256 → shift_in offset b ≡ offset * 256 + b
unfolding shift_in
shift_in_sum offset b h = bit_or_byte offset b h

shift_in_first : (b : ℕ) → b < 256 → shift_in 0 b ≡ b
shift_in_first b h = omega (arith, shift_in_sum 0 b h)

-- A forward offset of one byte that is not 0 is read back as it was written.
pub decode_branch-emit_offset :
    (offset : ℕ) (rest : List ℕ)
    → 0 < offset
    → offset < 256
    → (bytes : List ℕ) × (emit_offset offset_fuel offset ≡ some bytes)
      × (decode_branch 1 false (bytes ++ rest) ≡ some (offset, rest))
unfolding decode_branch read_offset emit_offset
decode_branch-emit_offset offset rest pos h =
    let low = bit_and_byte offset in
    (offset ∷ [], ground (arith, low), rw (shift_in_first offset h) refl)

-- A forward offset of two bytes is read back as it was written exactly when its bytes are equal:
-- the bytes are written lowest first and read highest first.
pub decode_branch-emit_offset_two :
    (offset : ℕ) (rest : List ℕ)
    → 256 ≤ offset
    → offset < 65536
    → (bytes : List ℕ) × (emit_offset offset_fuel offset ≡ some bytes)
      × (decode_branch 2 false (bytes ++ rest) ≡ some (offset % 256 * 256 + offset / 256, rest))
      × ((decode_branch 2 false (bytes ++ rest) ≡ some (offset, rest))
          ↔ (offset % 256 ≡ offset / 256))
unfolding decode_branch read_offset emit_offset
decode_branch-emit_offset_two offset rest lo hi =
    let low = bit_and_byte offset in
    let high = bit_and_byte (offset / 256) in
    let top : offset / 256 % 256 ≡ offset / 256 = omega arith in
    let first = shift_in_first (offset % 256) (omega arith) in
    let second = shift_in_sum (offset % 256) (offset / 256) (omega arith) in
    let run : some (shift_in (shift_in 0 (offset % 256)) (offset / 256), rest)
        ≡ some (offset % 256 * 256 + offset / 256, rest) =
      rw (first, second) refl in
    (
      (offset % 256) ∷ (offset / 256) ∷ [],
      ground (arith, low, high),
      run,
      (
        λ e.
            let same : some (offset, rest) ≡ some (offset % 256 * 256 + offset / 256, rest) =
              sym e ∙ run in
            ground arith,
        λ e. run ∙ (λ i. some (back e i, rest)),
      ),
    )
  where
    back : offset % 256 ≡ offset / 256 → offset % 256 * 256 + offset / 256 ≡ offset
    back e = omega arith

at_least_four :
    (bytes : List ℕ)
    → 2 ^ 24 ≤ little_endian bytes
    → All (λ b. b < 256) bytes
    → length bytes ≤ 4
    → length bytes ≡ 4
unfolding little_endian
at_least_four [] v h len = absurd (omega arith)
at_least_four (a ∷ []) v h len = absurd (omega arith)
at_least_four (a ∷ b ∷ []) v h len = absurd (omega arith)
at_least_four (a ∷ b ∷ c ∷ []) v h len = absurd (omega arith)
at_least_four (a ∷ b ∷ c ∷ d ∷ rest) v h len = omega arith

-- Every backward offset is written as four bytes, however many its branch has room for.
pub emit_offset_backward :
    (distance : ℕ)
    → 0 < distance
    → distance ≤ 2 ^ 31
    → (bytes : List ℕ) × (emit_offset offset_fuel ((2 ^ 32 - distance) % 2 ^ 32) ≡ some bytes)
      × (length bytes ≡ 4)
emit_offset_backward distance pos h =
    let offset = (2 ^ 32 - distance) % 2 ^ 32 in
    let (bytes, e, v, bounds, trimmed, len) = emit_offset_lem offset (omega arith) in
    (bytes, e, at_least_four bytes (omega arith) bounds len)
