-- ===== src/Regalloc/Expire.antt =====
-- `expireOldIntervals`: which intervals leave, and where their registers go.
use jerryscript_optimizer.Prelude.Times.{times, times-append}
use jerryscript_optimizer.Prelude.{
  ℕ, suc, ◌+◌, ◌≤◌, ◌<◌, ◌≡◌, refl, ◌∙◌, List, [], ◌∷◌, ◌++◌, ltb, arith, Bool-cases, inl, inr,
  length, All, Pairs, All-map,
}
use jerryscript_optimizer.Regalloc.{
  RegLiveInterval, sort_by, by_end, expire_front, expire_old_intervals,
}
use jerryscript_optimizer.Regalloc.Sort.{
  held, held-sort_by, length-sort_by, All-sort_by, sort_by-All, EndsBefore, sorted_by_end,
}

front_returns :
    (active : List RegLiveInterval) (registers : List ℕ) (start : ℕ)
    → (freed : List ℕ) × ((expire_front active registers start).1 ≡ freed ++ registers)
      × ((r : ℕ) → held r (expire_front active registers start).0 + times r freed ≡ held r active)
      × (length (expire_front active registers start).0 + length freed ≡ length active)
unfolding expire_front held times
front_returns [] registers start = ([], refl, λ r. omega arith, omega arith)
front_returns (a ∷ active) registers start = elim (Bool-cases (ltb start a.end)) [
  | inl e ↦ ([], rw e refl, λ r. ground arith, ground arith)
  | inr e ↦
      let (freed, top, once, sizes) = front_returns active (a.mapped ∷ registers) start in
      (
        freed ++ (a.mapped ∷ []),
        rw e (top ∙ shift freed a.mapped registers),
        λ r. ground (arith, once r, times-append r freed (a.mapped ∷ [])),
        ground (arith, sizes, grow freed a.mapped),
      )
]
  where
    shift : (xs : List ℕ) (x : ℕ) (ys : List ℕ) → xs ++ (x ∷ ys) ≡ (xs ++ (x ∷ [])) ++ ys
    shift [] x ys = refl
    shift (y ∷ xs) x ys = λ i. y ∷ shift xs x ys i

    grow : (xs : List ℕ) (x : ℕ) → length (xs ++ (x ∷ [])) ≡ suc (length xs)
    grow [] x = refl
    grow (y ∷ xs) x = omega (arith, grow xs x)

-- The registers of the intervals that leave come on top of the free ones, each as often as it was
-- held, and none is lost.
pub expire_returns :
    (active : List RegLiveInterval) (registers : List ℕ) (iv : RegLiveInterval)
    → (freed : List ℕ) × ((expire_old_intervals active registers iv).1 ≡ freed ++ registers)
      × ((r : ℕ)
          → held r (expire_old_intervals active registers iv).0 + times r freed ≡ held r active)
      × (length (expire_old_intervals active registers iv).0 + length freed ≡ length active)
unfolding expire_old_intervals
expire_returns active registers iv =
    let (freed, top, once, sizes) = front_returns (sort_by by_end active) registers iv.start in
    (freed, top, λ r. once r ∙ held-sort_by by_end r active, sizes ∙ length-sort_by by_end active)

module _ {κ} (P : RegLiveInterval → Type κ) where
  front-All :
      (active : List RegLiveInterval) (registers : List ℕ) (start : ℕ)
      → All P active
      → All P (expire_front active registers start).0
  unfolding expire_front
  front-All [] registers start h = tt
  front-All (a ∷ active) registers start h = elim (Bool-cases (ltb start a.end)) [
    | inl e ↦ rw e h
    | inr e ↦ rw e (front-All active (a.mapped ∷ registers) start h.1)
  ]

  front-All_back :
      (active : List RegLiveInterval) (registers : List ℕ) (start : ℕ)
      → ((a : RegLiveInterval) → a.end ≤ start → P a)
      → All P (expire_front active registers start).0
      → All P active
  unfolding expire_front
  front-All_back [] registers start gone h = tt
  front-All_back (a ∷ active) registers start gone h = elim (Bool-cases (ltb start a.end)) [
    | inl e ↦ rw (e, expire_front) at h
    | inr e ↦ (
      gone a (ground arith),
      front-All_back active (a.mapped ∷ registers) start gone (rw (e, expire_front) at h),
    )
  ]

  pub expire-All :
      (active : List RegLiveInterval) (registers : List ℕ) (iv : RegLiveInterval)
      → All P active
      → All P (expire_old_intervals active registers iv).0
  unfolding expire_old_intervals
  expire-All active registers iv h =
      front-All (sort_by by_end active) registers iv.start (All-sort_by by_end P active h)

  -- What holds of the intervals that stay, and of every interval that ended, holds of all.
  pub expire-All_back :
      (active : List RegLiveInterval) (registers : List ℕ) (iv : RegLiveInterval)
      → ((a : RegLiveInterval) → a.end ≤ iv.start → P a)
      → All P (expire_old_intervals active registers iv).0
      → All P active
  unfolding expire_old_intervals
  expire-All_back active registers iv gone h =
      sort_by-All by_end P active (front-All_back (sort_by by_end active) registers iv.start gone h)

front_live :
    (active : List RegLiveInterval) (registers : List ℕ) (start : ℕ)
    → Pairs EndsBefore active
    → All (λ a. start < a.end) (expire_front active registers start).0
unfolding expire_front
front_live [] registers start s = tt
front_live (a ∷ active) registers start s = elim (Bool-cases (ltb start a.end)) [
  | inl e ↦
      let lt : start < a.end = ground arith in
      rw e (lt, All-map (EndsBefore a) (λ b. start < b.end) active (λ b h. omega arith) s.0)
  | inr e ↦ rw e (front_live active (a.mapped ∷ registers) start s.1)
]

-- Every interval that stays active ends after the start of the interval at hand.
pub expire_live :
    (active : List RegLiveInterval) (registers : List ℕ) (iv : RegLiveInterval)
    → All (λ a. iv.start < a.end) (expire_old_intervals active registers iv).0
unfolding expire_old_intervals
expire_live active registers iv =
    front_live (sort_by by_end active) registers iv.start (sorted_by_end active)
