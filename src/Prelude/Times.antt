-- ===== src/Prelude/Times.antt =====
-- How often a number stands in a list.
use Prim.Native.Nat.{ℕ, ◌+◌, ◌<◌}
use mathlib.Core.Path.{◌≡◌, refl}
use mathlib.Core.Bool.{Bool, true, false}
use mathlib.Core.List.{List, [], ◌∷◌, ◌++◌}
use native.Mathlib.Omega.{arith}
use jerryscript_optimizer.Prelude.Tests.{◌==◌, if◌then◌else◌}
use jerryscript_optimizer.Prelude.Lists.{length}
use jerryscript_optimizer.Prelude.Sets.{mem, keep}

unfoldable pub times : ℕ → List ℕ → ℕ
times r [] = 0
times r (x ∷ xs) = (if r == x then 1 else 0) + times r xs

pub times_nil : (r : ℕ) → times r [] ≡ 0
unfolding times
times_nil r = refl

pub times-cons : (r x : ℕ) (xs : List ℕ) → times r (x ∷ xs) ≡ (if r == x then 1 else 0) + times r xs
unfolding times
times-cons r x xs = refl

pub times-append : (r : ℕ) (xs ys : List ℕ) → times r (xs ++ ys) ≡ times r xs + times r ys
unfolding times
times-append r [] ys = omega arith
times-append r (x ∷ xs) ys = omega (arith, times-append r xs ys)

pub times-keep :
    (p : ℕ → Bool) (r : ℕ) (xs : List ℕ) → times r (keep p xs) ≡ (if p r then times r xs else 0)
unfolding times keep
times-keep p r [] = ground arith
times-keep p r (x ∷ xs) = ground (arith, times-keep p r xs)

pub mem-times : (r : ℕ) (xs : List ℕ) → mem r xs ≡ (if times r xs == 0 then false else true)
unfolding times mem
mem-times r [] = refl
mem-times r (x ∷ xs) = ground (arith, mem-times r xs)

pub length-keep-le : (p : ℕ → Bool) (xs : List ℕ) → length (keep p xs) < length xs + 1
unfolding keep
length-keep-le p [] = omega arith
length-keep-le p (x ∷ xs) = ground (arith, length-keep-le p xs)

pub length-keep-lt :
    (p : ℕ → Bool) (r : ℕ) (xs : List ℕ)
    → p r ≡ false
    → mem r xs ≡ true
    → length (keep p xs) < length xs
unfolding keep mem
length-keep-lt p r [] h m = absurd (cc)
length-keep-lt p r (x ∷ xs) h m = ground (arith, length-keep-lt p r xs, length-keep-le p xs)

pub times_head : (r : ℕ) (xs ys : List ℕ) → xs ≡ r ∷ ys → mem r xs ≡ true
unfolding mem
times_head r xs ys e = rw e (ground arith)
