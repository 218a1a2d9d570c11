-- ===== src/Prelude/Sets.antt =====
-- Sets of numbers as lists without duplicates: what `std::unordered_set<uint32_t>` is used for.
-- Nothing here says in which order a set is walked; the lemmas speak of membership and size alone.
use Prim.Native.Nat.{ℕ}
use mathlib.Core.Path.{◌≡◌, refl}
use mathlib.Core.Bool.{Bool, true, false, ◌&&◌, ◌||◌}
use mathlib.Core.List.{List, [], ◌∷◌, ◌++◌}
use native.Mathlib.Omega.{arith}
use jerryscript_optimizer.Prelude.Tests.{◌==◌, if◌then◌else◌}

unfoldable pub mem : ℕ → List ℕ → Bool
mem a [] = false
mem a (x ∷ xs) = a == x || mem a xs

-- `set.insert(a)`
unfoldable pub insert : ℕ → List ℕ → List ℕ
insert a xs = if mem a xs then xs else a ∷ xs

-- `set.insert(first, last)`
unfoldable pub insert_all : List ℕ → List ℕ → List ℕ
insert_all acc [] = acc
insert_all acc (x ∷ xs) = insert_all (insert x acc) xs

-- Each element of the first list is one of the second.
unfoldable pub subset : List ℕ → List ℕ → Bool
subset [] b = true
subset (x ∷ xs) b = mem x b && subset xs b

-- The elements that a test keeps, in order.
unfoldable pub keep : (ℕ → Bool) → List ℕ → List ℕ
keep p [] = []
keep p (x ∷ xs) = let rest = keep p xs in if p x then x ∷ rest else rest

abbrev pub IsNodup : List ℕ → Type 0
IsNodup [] = Unit {0}
IsNodup (x ∷ xs) = (mem x xs ≡ false) × IsNodup xs

pub mem_nil : (a : ℕ) → mem a [] ≡ false
unfolding mem
mem_nil a = refl

pub mem-cons : (a x : ℕ) (xs : List ℕ) → mem a (x ∷ xs) ≡ (a == x || mem a xs)
unfolding mem
mem-cons a x xs = refl

pub mem-insert : (a x : ℕ) (xs : List ℕ) → mem a (insert x xs) ≡ (a == x || mem a xs)
unfolding insert mem
mem-insert a x xs = ground arith

pub IsNodup-insert : (x : ℕ) (xs : List ℕ) → IsNodup xs → IsNodup (insert x xs)
unfolding insert
IsNodup-insert x xs h = ground arith

pub mem-insert_all : (a : ℕ) (acc xs : List ℕ) → mem a (insert_all acc xs) ≡ (mem a xs || mem a acc)
unfolding insert_all mem
mem-insert_all a acc [] = refl
mem-insert_all a acc (x ∷ xs) =
    ground (arith, mem-insert_all a (insert x acc) xs, mem-insert a x acc)

pub IsNodup-insert_all : (acc xs : List ℕ) → IsNodup acc → IsNodup (insert_all acc xs)
unfolding insert_all
IsNodup-insert_all acc [] h = h
IsNodup-insert_all acc (x ∷ xs) h = IsNodup-insert_all (insert x acc) xs (IsNodup-insert x acc h)

pub mem-append : (a : ℕ) (xs ys : List ℕ) → mem a (xs ++ ys) ≡ (mem a xs || mem a ys)
unfolding mem
mem-append a [] ys = refl
mem-append a (x ∷ xs) ys = ground (arith, mem-append a xs ys)

pub mem-keep : (p : ℕ → Bool) (a : ℕ) (xs : List ℕ) → mem a (keep p xs) ≡ (mem a xs && p a)
unfolding mem keep
mem-keep p a [] = refl
mem-keep p a (x ∷ xs) = ground (arith, mem-keep p a xs)
