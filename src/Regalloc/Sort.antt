-- ===== src/Regalloc/Sort.antt =====
-- The sort keeps every interval, and puts them in order.
use jerryscript_optimizer.Prelude.{
  ℕ, suc, ◌+◌, ◌≤◌, ◌≡◌, refl, Bool, true, false, List, [], ◌∷◌, ◌==◌, arith, Bool-cases,
  if◌then◌else◌, inl, inr, length, All, Pairs, All-map,
}
use jerryscript_optimizer.Regalloc.{RegLiveInterval, insert_by, sort_by, by_start, by_end}

-- How many of the intervals are mapped to a register.
unfoldable pub held : ℕ → List RegLiveInterval → ℕ
held r [] = 0
held r (a ∷ as') = (if r == a.mapped then 1 else 0) + held r as'

module _ (lt : RegLiveInterval → RegLiveInterval → Bool) where
  held-insert_by :
      (r : ℕ) (x : RegLiveInterval) (ys : List RegLiveInterval)
      → held r (insert_by lt x ys) ≡ (if r == x.mapped then 1 else 0) + held r ys
  unfolding insert_by held
  held-insert_by r x [] = refl
  held-insert_by r x (y ∷ ys) = ground (arith, held-insert_by r x ys)

  pub held-sort_by : (r : ℕ) (xs : List RegLiveInterval) → held r (sort_by lt xs) ≡ held r xs
  unfolding sort_by held
  held-sort_by r [] = refl
  held-sort_by r (x ∷ xs) = ground (arith, held-insert_by r x (sort_by lt xs), held-sort_by r xs)

  length-insert_by :
      (x : RegLiveInterval) (ys : List RegLiveInterval)
      → length (insert_by lt x ys) ≡ suc (length ys)
  unfolding insert_by
  length-insert_by x [] = refl
  length-insert_by x (y ∷ ys) = ground (arith, length-insert_by x ys)

  pub length-sort_by : (xs : List RegLiveInterval) → length (sort_by lt xs) ≡ length xs
  unfolding sort_by
  length-sort_by [] = refl
  length-sort_by (x ∷ xs) = omega (arith, length-insert_by x (sort_by lt xs), length-sort_by xs)

  module _ {κ} (P : RegLiveInterval → Type κ) where
    All-insert_by :
        (x : RegLiveInterval) (ys : List RegLiveInterval)
        → P x
        → All P ys
        → All P (insert_by lt x ys)
    unfolding insert_by
    All-insert_by x [] px pys = (px, tt)
    All-insert_by x (y ∷ ys) px pys = elim (Bool-cases (lt y x)) [
      | inl e ↦ rw e (pys.0, All-insert_by x ys px pys.1)
      | inr e ↦ rw e (px, pys)
    ]

    pub All-sort_by : (xs : List RegLiveInterval) → All P xs → All P (sort_by lt xs)
    unfolding sort_by
    All-sort_by [] h = tt
    All-sort_by (x ∷ xs) h = All-insert_by x (sort_by lt xs) h.0 (All-sort_by xs h.1)

    insert_by-All :
        (x : RegLiveInterval) (ys : List RegLiveInterval)
        → All P (insert_by lt x ys)
        → P x × All P ys
    unfolding insert_by
    insert_by-All x [] h = h
    insert_by-All x (y ∷ ys) h = elim (Bool-cases (lt y x)) [
      | inl e ↦
          let h' : P y × All P (insert_by lt x ys) = rw (e, insert_by) at h in
          let (px, pys) = insert_by-All x ys h'.1 in (px, (h'.0, pys))
      | inr e ↦ let h' : P x × (P y × All P ys) = rw (e, insert_by) at h in (h'.0, h'.1)
    ]

    pub sort_by-All : (xs : List RegLiveInterval) → All P (sort_by lt xs) → All P xs
    unfolding sort_by
    sort_by-All [] h = tt
    sort_by-All (x ∷ xs) h =
        let (px, pxs) = insert_by-All x (sort_by lt xs) h in (px, sort_by-All xs pxs)

abbrev pub StartsBefore : RegLiveInterval → RegLiveInterval → Type 0
StartsBefore a b = a.start ≤ b.start

abbrev pub EndsBefore : RegLiveInterval → RegLiveInterval → Type 0
EndsBefore a b = a.end ≤ b.end

-- In order, when the comparison refines the order by a key.
module _ (lt : RegLiveInterval → RegLiveInterval → Bool) (key : RegLiveInterval → ℕ)
    (below : (a b : RegLiveInterval) → lt a b ≡ true → key a ≤ key b)
    (above : (a b : RegLiveInterval) → lt a b ≡ false → key b ≤ key a) where
  abbrev KeyBefore : RegLiveInterval → RegLiveInterval → Type 0
  KeyBefore a b = key a ≤ key b

  insert_by_sorted :
      (x : RegLiveInterval) (ys : List RegLiveInterval)
      → Pairs KeyBefore ys
      → Pairs KeyBefore (insert_by lt x ys)
  unfolding insert_by
  insert_by_sorted x [] s = (tt, tt)
  insert_by_sorted x (y ∷ ys) s = elim (Bool-cases (lt y x)) [
    | inl e ↦
        rw e (All-insert_by lt (KeyBefore y) x ys (below y x e) s.0, insert_by_sorted x ys s.1)
    | inr e ↦
        let le = above y x e in
        rw e ((le, All-map (KeyBefore y) (KeyBefore x) ys (λ z h. omega arith) s.0), s)
  ]

  pub sort_by_sorted : (xs : List RegLiveInterval) → Pairs KeyBefore (sort_by lt xs)
  unfolding sort_by
  sort_by_sorted [] = tt
  sort_by_sorted (x ∷ xs) = insert_by_sorted x (sort_by lt xs) (sort_by_sorted xs)

pub sorted_by_start : (xs : List RegLiveInterval) → Pairs StartsBefore (sort_by by_start xs)
unfolding by_start
sorted_by_start =
    sort_by_sorted by_start (λ a. a.start) (λ a b h. ground arith) (λ a b h. ground arith)

pub sorted_by_end : (xs : List RegLiveInterval) → Pairs EndsBefore (sort_by by_end xs)
unfolding by_end
sorted_by_end = sort_by_sorted by_end (λ a. a.end) (λ a b h. ground arith) (λ a b h. ground arith)
