-- ===== src/Codec/Lines.antt =====
-- Line information: what `Ins::emit` writes and what `decodeGroupOpcode` reads.
use jerryscript_optimizer.Prelude.{
  ℕ, zero, suc, ◌*◌, ◌/◌, ◌%◌, ◌^◌, ◌≤◌, ◌<◌, ◌≡◌, refl, some, List, [], ◌∷◌, ◌++◌, ◌==◌, bit_and,
  bit_or, arith, length, All, Bool-cases, inl, inr,
}
use native.Mathlib.Nat.{pow-suc}
use jerryscript_optimizer.Prelude.Bits.{bit_or_seven, bit_and_low, bit_and_high}
use jerryscript_optimizer.Bytecode.{CbcMacros, AreDocumented}
use jerryscript_optimizer.Codec.{decode_line, emit_line}

module _ (m : CbcMacros) (doc : AreDocumented m) where
  low_mask : (x : ℕ) → bit_and x m.lower_seven_bit_mask ≡ x % 128
  low_mask x = rw doc.seven_bits (bit_and_low x)

  high_mask : (x : ℕ) → bit_and x m.highest_bit_mask ≡ x / 128 % 2 * 128
  high_mask x = rw doc.top_bit (bit_and_high x)

  -- With a round for every seven bits the loop of `Ins::emit` ends. It writes one byte at least and
  -- one for each round at most, all of them below 128.
  pub emit_line_ends :
      (fuel line : ℕ)
      → line < 128 ^ suc fuel
      → (bytes : List ℕ) × (emit_line m (suc fuel) line ≡ some bytes)
        × All (λ b. b < 128) bytes
        × (1 ≤ length bytes)
        × (length bytes ≤ suc fuel)
  unfolding emit_line
  emit_line_ends zero line h =
      let stop : bit_and (line / 128) m.highest_bit_mask ≡ 0 =
        omega (arith, high_mask (line / 128)) in
      (
        (line % 128) ∷ [],
        rw (low_mask line, stop) refl,
        (omega arith, tt),
        omega arith,
        omega arith,
      )
  emit_line_ends (suc fuel) line h =
      let (bytes, e, small, some_byte, len) =
        emit_line_ends fuel (line / 128) (omega (arith, pow-suc 128 (suc fuel))) in
      elim (Bool-cases (bit_and (line / 128) m.highest_bit_mask == 0)) [
        | inl z ↦ (
          (line % 128) ∷ [],
          rw (low_mask line, z) refl,
          (omega arith, tt),
          omega arith,
          omega arith,
        )
        | inr z ↦ (
          (line % 128) ∷ bytes,
          rw (z, emit_line) (rw (e, low_mask line) refl),
          (omega arith, small),
          omega arith,
          omega arith,
        )
      ]

  -- What is written for a line below 2 ^ 14 is read back as its remainder by 128.
  pub decode_line-emit_line :
      (fuel line : ℕ) (rest : List ℕ)
      → line < 2 ^ 14
      → (bytes : List ℕ) × (emit_line m (suc fuel) line ≡ some bytes)
        × (decode_line m (bytes ++ rest) 0 ≡ some (line % 128, rest))
  unfolding emit_line decode_line
  decode_line-emit_line fuel line rest h =
      let stop : bit_and (line / 128) m.highest_bit_mask ≡ 0 =
        omega (arith, high_mask (line / 128)) in
      let last : bit_and (line % 128) m.highest_bit_mask ≡ 0 =
        omega (arith, high_mask (line % 128)) in
      let low : bit_and (line % 128) m.lower_seven_bit_mask ≡ line % 128 =
        omega (arith, low_mask (line % 128)) in
      let join : bit_or 0 (line % 128) ≡ line % 128 =
        omega (arith, bit_or_seven 0 (line % 128) (omega arith)) in
      ((line % 128) ∷ [], rw (low_mask line, stop) refl, rw (last, low, join) refl)
