-- ===== src/Regalloc/Mapping.antt =====
-- `computeRegisterMapping`: it always ends, and intervals that overlap get different registers.
use jerryscript_optimizer.Prelude.{
  ℕ, ◌≤◌, ◌<◌, ◌≡◌, ◌≢◌, refl, ◌⊎◌, some, List, [], ◌∷◌, ◌++◌, ◌==◌, arith, Bool-cases, List-cases,
  inl, inr, length, All, Pairs, All-map, append-All, All-zip,
}
use native.Mathlib.Nat.{le_refl, le_trans}
use jerryscript_optimizer.LiveRanges.{Ranges}
use jerryscript_optimizer.Regalloc.{
  RegLiveInterval, sort_intervals, expire_old_intervals, max_count, full, skip, take, choose,
  map_loop, prepend, push_down, compute_register_mapping,
}
use jerryscript_optimizer.Regalloc.Sort.{held, StartsBefore, sorted_by_start}
use jerryscript_optimizer.Regalloc.Expire.{expire-All_back}
use jerryscript_optimizer.Regalloc.Scan.{Inv, Inv-start, expire-Inv, some_free, take_free, not_held}

-- The same intervals of the same registers; only the mapping may differ.
abbrev pub SameIntervals : List RegLiveInterval → List RegLiveInterval → Type 0
SameIntervals [] [] = Unit {0}
SameIntervals [] (y ∷ ys) = ⊥
SameIntervals (x ∷ xs) [] = ⊥
SameIntervals (x ∷ xs) (y ∷ ys) =
    ((y.reg ≡ x.reg) × (y.start ≡ x.start) × (y.end ≡ x.end)) × SameIntervals xs ys

-- Of two intervals in the order of their starts: where the second starts before the first one
-- ends, and is not empty, their registers differ.
abbrev pub NoClash : RegLiveInterval → RegLiveInterval → Type 0
NoClash a b = b.start < a.end → b.start ≢ b.end → a.mapped ≢ b.mapped

-- An interval that is not empty has a register below the count.
abbrev pub FitsIn : ℕ → RegLiveInterval → Type 0
FitsIn n a = a.start ≢ a.end → a.mapped < n

SameIntervals_refl : (xs : List RegLiveInterval) → SameIntervals xs xs
SameIntervals_refl [] = tt
SameIntervals_refl (x ∷ xs) = ((refl, refl, refl), SameIntervals_refl xs)

starts_carry :
    (s : ℕ) (xs ys : List RegLiveInterval)
    → SameIntervals xs ys
    → All (λ x. s ≤ x.start) xs
    → All (λ y. s ≤ y.start) ys
starts_carry s [] [] same h = tt
starts_carry s [] (y ∷ ys) same h = absurd same
starts_carry s (x ∷ xs) [] same h = absurd same
starts_carry s (x ∷ xs) (y ∷ ys) same h = (omega (arith, same.0.1), starts_carry s xs ys same.1 h.1)

-- What `choose` can answer: with a register free where fewer than all are in use, not `no_register`.
choose_cases :
    (n : ℕ) (active : List RegLiveInterval) (registers : List ℕ) (iv : RegLiveInterval)
    → (length active ≢ n → registers ≢ [])
    → ((choose n active registers iv ≡ full) × (length active ≡ n))
      ⊎ ((choose n active registers iv ≡ skip) × (iv.start ≡ iv.end))
      ⊎ ((r : ℕ) × (rest : List ℕ) × (choose n active registers iv ≡ take r rest)
          × (registers ≡ r ∷ rest))
unfolding choose
choose_cases n active registers iv free = elim (Bool-cases (length active == n)) [
  | inl e ↦ inl (ground arith, ground arith)
  | inr e ↦ elim (Bool-cases (iv.start == iv.end)) [
    | inl z ↦ inr (inl (ground arith, ground arith))
    | inr z ↦ elim (List-cases registers) [
      | inl none_left ↦ absurd (free (λ q. ground arith) none_left)
      | inr (r, rest, s) ↦ inr (inr (r, rest, rw (e, z, s) refl, s))
    ]
  ]
]

-- What the scan promises from some point on.
record Promise (n : ℕ) (active ivs : List RegLiveInterval) (c : ℕ) (out : List RegLiveInterval)
    (m : ℕ) : Type 0 where
  grows : c ≤ m
  bounded : m ≤ n
  same : SameIntervals ivs out
  behind : m < n → All (λ a. All (NoClash a) out) active
  apart : m < n → Pairs NoClash out
  fits : m < n → All (FitsIn m) out

module _ (n : ℕ) (iv : RegLiveInterval) (rest active : List RegLiveInterval) (registers : List ℕ)
    (c : ℕ) (sorted : Pairs StartsBefore (iv ∷ rest)) where
  abbrev alive : List RegLiveInterval
  alive = (expire_old_intervals active registers iv).0

  -- No later interval starts before the end of one that has expired.
  ended_clear :
      (a : RegLiveInterval) (out : List RegLiveInterval)
      → a.end ≤ iv.start
      → SameIntervals rest out
      → All (NoClash a) out
  ended_clear a out le same =
      All-map (λ (o : RegLiveInterval). iv.start ≤ o.start) (NoClash a) out
        (λ o h lt ne. absurd (omega arith)) (starts_carry iv.start rest out same sorted.0)

  -- From the intervals that stayed active to all that were active before.
  restore_behind :
      (x : RegLiveInterval) (out : List RegLiveInterval)
      → x.start ≡ iv.start
      → SameIntervals rest out
      → All (λ a. All (NoClash a) (x ∷ out)) alive
      → All (λ a. All (NoClash a) (x ∷ out)) active
  restore_behind x out e same h =
      expire-All_back (λ a. All (NoClash a) (x ∷ out)) active registers iv
        (λ a le. (λ lt ne. absurd (omega arith), ended_clear a out le same)) h

  Promise-full :
      Inv n alive (expire_old_intervals active registers iv).1 c
      → length alive ≡ n
      → Promise n active (iv ∷ rest) c (iv ∷ rest) c
  Promise-full inv e =
      let top : n ≤ c = omega (arith, inv.sizes) in
      record {
        grows = le_refl c;
        bounded = omega (arith, inv.room);
        same = SameIntervals_refl (iv ∷ rest);
        behind = λ lt. absurd (omega arith);
        apart = λ lt. absurd (omega arith);
        fits = λ lt. absurd (omega arith);
      }

  Promise-skip :
      (out : List RegLiveInterval) (m : ℕ)
      → iv.start ≡ iv.end
      → Promise n alive rest c out m
      → Promise n active (iv ∷ rest) c (iv ∷ out) m
  Promise-skip out m z p = record {
    grows = p.grows;
    bounded = p.bounded;
    same = ((refl, refl, refl), p.same);
    behind = λ lt. restore_behind iv out refl p.same (
        All-map (λ a. All (NoClash a) out) (λ a. All (NoClash a) (iv ∷ out)) alive
          (λ a h. (λ l ne. absurd (ne z), h)) (p.behind lt));
    apart = λ lt. (ended_clear iv out (omega arith) p.same, p.apart lt);
    fits = λ lt. (λ ne. absurd (ne z), p.fits lt);
  }

  Promise-take :
      (r c' : ℕ) (out : List RegLiveInterval) (m : ℕ)
      → held r alive ≡ 0
      → c ≤ c'
      → r < c'
      → Promise n (alive ++ (record iv { mapped = r } ∷ [])) rest c' out m
      → Promise n active (iv ∷ rest) c (record iv { mapped = r } ∷ out) m
  Promise-take r c' out m free up small p =
      let iv' = record iv { mapped = r } in
      let split =
        λ (lt : m < n). append-All (λ a. All (NoClash a) out) alive (iv' ∷ []) (p.behind lt) in
      record {
        grows = le_trans up p.grows;
        bounded = p.bounded;
        same = ((refl, refl, refl), p.same);
        behind = λ lt. restore_behind iv' out refl p.same (
            All-map (λ a. (a.mapped ≢ r) × All (NoClash a) out) (λ a. All (NoClash a) (iv' ∷ out))
              alive (λ a h. (λ l ne. h.0, h.1))
              (All-zip (λ a. a.mapped ≢ r) (λ a. All (NoClash a) out) alive (not_held r alive free)
                (split lt).0));
        apart = λ lt. ((split lt).1.0, p.apart lt);
        fits = λ lt. (λ ne. le_trans small p.grows, p.fits lt);
      }

scan_keeps :
    (n : ℕ) (ivs active : List RegLiveInterval) (registers : List ℕ) (c : ℕ)
    → Inv n active registers c
    → Pairs StartsBefore ivs
    → (out : List RegLiveInterval) × (m : ℕ) × (map_loop n active registers c ivs ≡ some (out, m))
      × Promise n active ivs c out m
unfolding map_loop prepend
scan_keeps n [] active registers c inv sorted = (
  [],
  c,
  refl,
  record {
    grows = le_refl c;
    bounded = omega (arith, inv.room);
    same = tt;
    behind = λ lt. trivial active;
    apart = λ lt. tt;
    fits = λ lt. tt;
  },
)
  where
    trivial : (xs : List RegLiveInterval) → All (λ a. All (NoClash a) []) xs
    trivial [] = tt
    trivial (x ∷ xs) = (tt, trivial xs)
scan_keeps n (iv ∷ rest) active registers c inv sorted =
    let staying = (expire_old_intervals active registers iv).0 in
    let free = (expire_old_intervals active registers iv).1 in
    let inv' = expire-Inv n active registers c iv inv in
    elim (choose_cases n staying free iv (some_free n staying free c inv')) [
      | inl (e, full_now) ↦ (
        iv ∷ rest,
        c,
        rw (e, map_loop) refl,
        Promise-full n iv rest active registers c sorted inv' full_now,
      )
      | inr (inl (e, z)) ↦
          let (out, m, run, p) = scan_keeps n rest staying free c inv' sorted.1 in
          (
            iv ∷ out,
            m,
            rw (e, map_loop) (rw (run, prepend) refl),
            Promise-skip n iv rest active registers c sorted out m z p,
          )
      | inr (inr (r, free', e, s)) ↦
          let iv' = record iv { mapped = r } in
          let grown = staying ++ (iv' ∷ []) in
          let (inv2, unheld, up, small) = take_free n staying free c inv' r free' iv' refl s in
          let c' = max_count c (length grown) in
          let (out, m, run, p) = scan_keeps n rest grown free' c' inv2 sorted.1 in
          (
            iv' ∷ out,
            m,
            rw (e, map_loop) (rw (run, prepend) refl),
            Promise-take n iv rest active registers c sorted r c' out m unheld up small p,
          )
    ]

-- On the sorted intervals of any ranges and any number of registers the scan returns: its list has
-- the same intervals of the same registers, and its count is at most the number of registers.
-- Where the count is smaller, of any two intervals that overlap and are not empty the registers
-- differ, and every register given to such an interval lies below the count.
pub compute_register_mapping_correct :
    (regs_count : ℕ) (ranges : Ranges)
    → (out : List RegLiveInterval) × (new_count : ℕ) × (compute_register_mapping regs_count
          (sort_intervals ranges)
        ≡ some (out, new_count))
      × SameIntervals (sort_intervals ranges) out
      × (new_count ≤ regs_count)
      × (new_count < regs_count → Pairs NoClash out × All (FitsIn new_count) out)
unfolding compute_register_mapping sort_intervals
compute_register_mapping_correct n ranges =
    let (out, m, run, p) =
      scan_keeps n (sort_intervals ranges) [] (push_down n []) 0 (Inv-start n)
        (sorted_by_start _) in
    (out, m, run, p.same, p.bounded, λ lt. (p.apart lt, p.fits lt))
