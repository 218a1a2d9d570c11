-- ===== src/Prelude/Count.antt =====
-- Sizes of sets: what comparing two sizes says of the members.
use Prim.Native.Nat.{ℕ, suc, ◌≤◌}
use mathlib.Core.Path.{◌≡◌, refl}
use mathlib.Core.Logic.{inl, inr}
use mathlib.Core.Bool.{true, false}
use mathlib.Core.List.{List, [], ◌∷◌}
use native.Mathlib.Omega.{arith}
use jerryscript_optimizer.Prelude.Tests.{◌==◌, if◌then◌else◌, Bool-cases}
use jerryscript_optimizer.Prelude.Lists.{length, All}
use jerryscript_optimizer.Prelude.Sets.{mem, subset, IsNodup, mem_nil, mem-cons}

-- The first occurrence of an element taken out.
erase : ℕ → List ℕ → List ℕ
erase a [] = []
erase a (x ∷ xs) = if a == x then xs else x ∷ erase a xs

length-erase : (a : ℕ) (xs : List ℕ) → mem a xs ≡ true → suc (length (erase a xs)) ≡ length xs
unfolding mem erase
length-erase a [] h = cc
length-erase a (x ∷ xs) h = ground (arith, length-erase a xs)

mem-erase_ne : (a b : ℕ) (xs : List ℕ) → (b == a) ≡ false → mem b (erase a xs) ≡ mem b xs
unfolding mem erase
mem-erase_ne a b [] h = refl
mem-erase_ne a b (x ∷ xs) h = ground (arith, mem-erase_ne a b xs)

pub subset_of :
    (xs ys : List ℕ) → ((a : ℕ) → mem a xs ≡ true → mem a ys ≡ true) → subset xs ys ≡ true
unfolding mem subset
subset_of [] ys h = refl
subset_of (x ∷ xs) ys h = ground (arith, h x, subset_of xs ys (λ a m. h a (ground arith)))

pub subset_apply :
    (xs ys : List ℕ) (a : ℕ) → subset xs ys ≡ true → mem a xs ≡ true → mem a ys ≡ true
unfolding mem subset
subset_apply [] ys a h m = cc
subset_apply (x ∷ xs) ys a h m = ground (arith, subset_apply xs ys a)

subset-erase :
    (x : ℕ) (xs ys : List ℕ)
    → mem x xs ≡ false
    → subset xs ys ≡ true
    → subset xs (erase x ys) ≡ true
unfolding mem subset
subset-erase x [] ys n h = refl
subset-erase x (y ∷ xs) ys n h = ground (arith, subset-erase x xs ys, mem-erase_ne x y ys)

-- A set that lies in another has at most as many elements.
pub length-le_of_subset :
    (xs ys : List ℕ) → IsNodup xs → subset xs ys ≡ true → length xs ≤ length ys
unfolding subset
length-le_of_subset [] ys n h = omega arith
length-le_of_subset (x ∷ xs) ys n h =
    ground (arith, length-erase x ys, subset-erase x xs ys, length-le_of_subset xs (erase x ys) n.1)

-- A set that lies in another of the same size is the same set.
pub mem_of_same_length :
    (xs ys : List ℕ) (a : ℕ)
    → IsNodup xs
    → subset xs ys ≡ true
    → length xs ≡ length ys
    → mem a ys ≡ true
    → mem a xs ≡ true
unfolding subset mem
mem_of_same_length [] [] a n h l m = m
mem_of_same_length [] (y ∷ ys) a n h l m = absurd (omega arith)
mem_of_same_length (x ∷ xs) ys a n h l m = ground (
  arith,
  length-erase x ys,
  subset-erase x xs ys,
  mem-erase_ne x a ys,
  mem_of_same_length xs (erase x ys) a n.1,
)

-- A list that is not contained in another has an element that the other lacks.
pub missing_of_not_subset :
    (xs ys : List ℕ) → subset xs ys ≡ false → (a : ℕ) × (mem a xs ≡ true) × (mem a ys ≡ false)
unfolding subset mem
missing_of_not_subset [] ys h = cc
missing_of_not_subset (x ∷ xs) ys h = elim (Bool-cases (mem x ys)) [
  | inl here ↦ let (a, p, q) = missing_of_not_subset xs ys (ground arith) in (a, ground arith, q)
  | inr gone ↦ (x, ground arith, gone)
]

pub All-mem : (P : ℕ → Type 0) (xs : List ℕ) (x : ℕ) → All P xs → mem x xs ≡ true → P x
All-mem P [] x h m = absurd (cc (mem_nil x))
All-mem P (y ∷ ys) x h m = elim (Bool-cases (x == y)) [
  | inl e ↦ let q : x ≡ y = ground arith in rw q h.0
  | inr e ↦ All-mem P ys x h.1 (ground (arith, mem-cons x y ys))
]
