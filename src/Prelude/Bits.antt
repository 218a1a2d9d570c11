-- ===== src/Prelude/Bits.antt =====
-- `|` and `&` of the byte codecs as arithmetic. The native operations stand for a recursion on
-- binary digits with fuel; the first lemmas drop the fuel.
use Prim.Native.Nat.{ℕ, zero, suc, ◌+◌, ◌*◌, ◌/◌, ◌%◌, ◌^◌, ◌≤◌, ◌<◌, max, bit_and, bit_or}
use Prim.Native.Nat.{min, digits, bit_or-bitwise, bit_and-bitwise}
use mathlib.Core.Path.{◌≡◌, refl}
use mathlib.Core.Bool.{Bool, true, ◌&&◌}
use native.Mathlib.Omega.{arith}
use native.Mathlib.Nat.{le_refl, pow-suc}
use mathlib.Core.Path.{ap}
use jerryscript_optimizer.Prelude.Tests.{◌==◌, ==_iff}

module _ (z : ℕ → ℕ) (f : ℕ → ℕ → ℕ) where
  fuel_is_enough : (n m a b : ℕ) → a ≤ n → a ≤ m → digits z f n a b ≡ digits z f m a b
  fuel_is_enough zero zero a b p q = refl
  fuel_is_enough zero (suc m) zero b p q = refl
  fuel_is_enough zero (suc m) (suc a) b p q = absurd (omega arith)
  fuel_is_enough (suc n) zero zero b p q = refl
  fuel_is_enough (suc n) zero (suc a) b p q = absurd (omega arith)
  fuel_is_enough (suc n) (suc m) zero b p q = refl
  fuel_is_enough (suc n) (suc m) (suc a) b p q =
      rw (fuel_is_enough n m (suc a / 2) (b / 2) (omega arith) (omega arith))

or_digit : (a b : ℕ) → bit_or a b ≡ bit_or (a / 2) (b / 2) * 2 + max (a % 2) (b % 2)
or_digit zero b = simp bit_or-bitwise (omega arith)
or_digit (suc a) b =
    let enough =
      fuel_is_enough (λ y. y) max a (suc a / 2) (suc a / 2) (b / 2) (omega arith) (le_refl _) in
    simp bit_or-bitwise (omega (arith, enough))

and_digit : (a b : ℕ) → bit_and a b ≡ bit_and (a / 2) (b / 2) * 2 + min (a % 2) (b % 2)
and_digit zero b = simp bit_and-bitwise (omega arith)
and_digit (suc a) b =
    let enough =
      fuel_is_enough (λ y. 0) min a (suc a / 2) (suc a / 2) (b / 2) (omega arith) (le_refl _) in
    simp bit_and-bitwise (omega (arith, enough))

and_zero_upto : (n a : ℕ) → a ≤ n → bit_and a 0 ≡ 0
and_zero_upto n zero h = refl
and_zero_upto zero (suc a) h = absurd (omega arith)
and_zero_upto (suc n) (suc a) h =
    omega (arith, and_digit (suc a) 0, and_zero_upto n (suc a / 2) (omega arith))

and_zero : (a : ℕ) → bit_and a 0 ≡ 0
and_zero a = and_zero_upto a a (le_refl a)

and_odd : (a m : ℕ) → bit_and a (2 * m + 1) ≡ bit_and (a / 2) m * 2 + a % 2
and_odd a m =
    let half : (2 * m + 1) / 2 ≡ m = omega arith in rw (and_digit a (2 * m + 1), half) (omega arith)

and_even : (a m : ℕ) → bit_and a (2 * m) ≡ bit_and (a / 2) m * 2
and_even a m =
    let half : 2 * m / 2 ≡ m = omega arith in rw (and_digit a (2 * m), half) (omega arith)

-- `x & CBC_LOWER_SEVEN_BIT_MASK`
pub bit_and_low : (a : ℕ) → bit_and a 0x7f ≡ a % 128
bit_and_low a = omega (
  arith,
  and_odd a 63,
  and_odd (a / 2) 31,
  and_odd (a / 2 / 2) 15,
  and_odd (a / 2 / 2 / 2) 7,
  and_odd (a / 2 / 2 / 2 / 2) 3,
  and_odd (a / 2 / 2 / 2 / 2 / 2) 1,
  and_odd (a / 2 / 2 / 2 / 2 / 2 / 2) 0,
  and_zero (a / 2 / 2 / 2 / 2 / 2 / 2 / 2),
)

-- `x & 0xFF`
pub bit_and_byte : (a : ℕ) → bit_and a 0xff ≡ a % 256
bit_and_byte a = omega (arith, and_odd a 127, bit_and_low (a / 2))

-- `x & CBC_HIGHEST_BIT_MASK`
pub bit_and_high : (a : ℕ) → bit_and a 0x80 ≡ a / 128 % 2 * 128
bit_and_high a = omega (
  arith,
  and_even a 64,
  and_even (a / 2) 32,
  and_even (a / 2 / 2) 16,
  and_even (a / 2 / 2 / 2) 8,
  and_even (a / 2 / 2 / 2 / 2) 4,
  and_even (a / 2 / 2 / 2 / 2 / 2) 2,
  and_even (a / 2 / 2 / 2 / 2 / 2 / 2) 1,
  and_odd (a / 2 / 2 / 2 / 2 / 2 / 2 / 2) 0,
  and_zero (a / 2 / 2 / 2 / 2 / 2 / 2 / 2 / 2),
)

zero-or : (b : ℕ) → bit_or 0 b ≡ b
zero-or b = simp bit_or-bitwise refl

or_zero_upto : (n a : ℕ) → a ≤ n → bit_or a 0 ≡ a
or_zero_upto n zero h = refl
or_zero_upto zero (suc a) h = absurd (omega arith)
or_zero_upto (suc n) (suc a) h =
    omega (arith, or_digit (suc a) 0, or_zero_upto n (suc a / 2) (omega arith))

-- A field of `k` bits under a value shifted past it: `(q << k) | r`.
or_below : (k q r : ℕ) → r < 2 ^ k → bit_or (q * 2 ^ k) r ≡ q * 2 ^ k + r
or_below zero q r h =
    let e : r ≡ 0 = omega arith in rw (e, or_zero_upto (q * 1) (q * 1) (le_refl _)) (omega arith)
or_below (suc k) q r h = ground (
  arith,
  or_digit (q * 2 ^ suc k) r,
  pow-suc 2 k,
  ap (λ (t : ℕ). q * t) (pow-suc 2 k),
  or_below k q (r / 2) (omega arith),
)

pub bit_or_byte : (q r : ℕ) → r < 256 → bit_or (q * 256) r ≡ q * 256 + r
bit_or_byte q r h = or_below 8 q r h

pub bit_or_seven : (q r : ℕ) → r < 128 → bit_or (q * 128) r ≡ q * 128 + r
bit_or_seven q r h = or_below 7 q r h

-- Over a byte, every value is checked.
unfoldable pub all_below : ℕ → (ℕ → Bool) → Bool
all_below zero p = true
all_below (suc n) p = p n && all_below n p

pub all_below_apply : (n : ℕ) (p : ℕ → Bool) (x : ℕ) → all_below n p ≡ true → x < n → p x ≡ true
unfolding all_below
all_below_apply zero p x h lt = absurd (omega arith)
all_below_apply (suc n) p x h lt = ground (arith, all_below_apply n p x)

top_bit_table : all_below 128 (λ x. bit_or x 0x80 == x + 128) ≡ true
unfolding all_below
top_bit_table = refl

-- `x | CBC_HIGHEST_BIT_MASK` on seven bits.
pub bit_or_top : (x : ℕ) → x < 128 → bit_or x 0x80 ≡ x + 128
bit_or_top x h = (==_iff _ (x + 128)).0 (all_below_apply 128 _ x top_bit_table h)
