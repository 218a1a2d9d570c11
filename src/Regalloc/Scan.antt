-- ===== src/Regalloc/Scan.antt =====
-- The invariant of the scan: the registers in use and the free ones are the registers, and the
-- free ones that were never used are the highest.
use jerryscript_optimizer.Prelude.Times.{times, times-append}
use jerryscript_optimizer.Prelude.{
  ℕ, zero, suc, ◌+◌, ◌≤◌, ◌<◌, ◌≡◌, ◌≢◌, refl, sym, ◌∙◌, ◌⊎◌, List, [], ◌∷◌, ◌++◌, ◌==◌, arith,
  if◌then◌else◌, inl, inr, length, length-append, All, All-map, All-append,
}
use mathlib.Core.List.{append_assoc}
use native.Mathlib.Nat.{le_refl}
use jerryscript_optimizer.Regalloc.{RegLiveInterval, expire_old_intervals, max_count, push_down}
use jerryscript_optimizer.Regalloc.Sort.{held}
use jerryscript_optimizer.Regalloc.Expire.{expire_returns, expire-All}

-- first, first + 1, … , `count` numbers.
pub range_from : ℕ → ℕ → List ℕ
range_from first zero = []
range_from first (suc count) = first ∷ range_from (suc first) count

pub record Inv (n : ℕ) (active : List RegLiveInterval) (registers : List ℕ) (new_count : ℕ)
    : Type 0 where
  pub freed : List ℕ
  pub unused : ℕ
  pub split : registers ≡ freed ++ range_from new_count unused
  pub room : new_count + unused ≡ n
  pub sizes : length active + length freed ≡ new_count
  pub once : (r : ℕ) → held r active + times r freed ≤ 1
  pub high : (r : ℕ) → new_count ≤ r → held r active + times r freed ≡ 0
  pub below : All (λ a. a.mapped < new_count) active

push_down-range : (i n : ℕ) → push_down i (range_from i n) ≡ range_from 0 (i + n)
unfolding push_down range_from
push_down-range zero n = let e : 0 + n ≡ n = omega arith in rw e
push_down-range (suc i) n =
    let e : suc i + n ≡ i + suc n = omega arith in rw e (push_down-range i (suc n))

pub Inv-start : (n : ℕ) → Inv n [] (push_down n []) 0
unfolding held times range_from
Inv-start n =
    let e : n + 0 ≡ n = omega arith in
    record {
      freed = [];
      unused = n;
      split = push_down-range n 0 ∙ rw e;
      room = omega arith;
      sizes = omega arith;
      once = λ r. omega arith;
      high = λ r h. omega arith;
      below = tt;
    }

pub expire-Inv :
    (n : ℕ) (active : List RegLiveInterval) (registers : List ℕ) (c : ℕ) (iv : RegLiveInterval)
    → Inv n active registers c
    → Inv n
        (expire_old_intervals active registers iv).0
        (expire_old_intervals active registers iv).1
        c
expire-Inv n active registers c iv inv =
    let (gone, top, once, sizes) = expire_returns active registers iv in
    record {
      freed = gone ++ inv.freed;
      unused = inv.unused;
      split = top ∙ (λ i. gone ++ inv.split i) ∙ rw append_assoc refl;
      room = inv.room;
      sizes = omega (arith, length-append gone inv.freed, sizes, inv.sizes);
      once = λ r. omega (arith, times-append r gone inv.freed, once r, inv.once r);
      high = λ r h. omega (arith, times-append r gone inv.freed, once r, inv.high r h);
      below = expire-All (λ a. a.mapped < c) active registers iv inv.below;
    }

held-append :
    (r : ℕ) (xs : List RegLiveInterval) (x : RegLiveInterval)
    → held r (xs ++ (x ∷ [])) ≡ held r xs + (if r == x.mapped then 1 else 0)
unfolding held
held-append r [] x = omega arith
held-append r (y ∷ xs) x = omega (arith, held-append r xs x)

pub not_held : (r : ℕ) (xs : List RegLiveInterval) → held r xs ≡ 0 → All (λ a. a.mapped ≢ r) xs
unfolding held
not_held r [] h = tt
not_held r (x ∷ xs) h = (ground arith, not_held r xs (ground arith))

front_nil : (freed : List ℕ) (c u : ℕ) → freed ++ range_from c u ≡ [] → (length freed ≡ 0) × (u ≡ 0)
unfolding range_from
front_nil [] c zero e = (refl, refl)
front_nil [] c (suc u) e = cc
front_nil (x ∷ fs) c u e = cc

-- Where the top of the stack comes from: a register that was given back, or the lowest unused one.
front_cases :
    (freed : List ℕ) (c u r : ℕ) (rest : List ℕ)
    → freed ++ range_from c u ≡ r ∷ rest
    → ((fs : List ℕ) × (freed ≡ r ∷ fs) × (rest ≡ fs ++ range_from c u))
      ⊎ ((u' : ℕ) × (freed ≡ []) × (u ≡ suc u') × (r ≡ c) × (rest ≡ range_from (suc c) u'))
unfolding range_from
front_cases [] c zero r rest e = cc
front_cases [] c (suc u) r rest e = inr (u, refl, refl, cc, cc)
front_cases (x ∷ fs) c u r rest e = inl (fs, cc, cc)

module _ (n : ℕ) (active : List RegLiveInterval) (registers : List ℕ) (c : ℕ)
    (inv : Inv n active registers c) where
  -- Where fewer than all registers are in use, one is free.
  pub some_free : length active ≢ n → registers ≢ []
  some_free few e =
      let (f, u) = front_nil inv.freed c inv.unused (sym inv.split ∙ e) in
      few (omega (arith, inv.sizes, inv.room))

  module _ (r : ℕ) (rest : List ℕ) (iv : RegLiveInterval) (m : iv.mapped ≡ r) where
    abbrev grown : List RegLiveInterval
    grown = active ++ (iv ∷ [])

    take_freed :
        (fs : List ℕ)
        → inv.freed ≡ r ∷ fs
        → rest ≡ fs ++ range_from c inv.unused
        → Inv n grown rest c × (held r active ≡ 0) × (length grown ≤ c) × (r < c)
    unfolding times
    take_freed fs f e =
        let once : (q : ℕ) → held q active + ((if q == r then 1 else 0) + times q fs) ≤ 1 =
          λ q. rw f at (inv.once q) in
        let high : (q : ℕ) → c ≤ q → held q active + ((if q == r then 1 else 0) + times q fs) ≡ 0 =
          λ q h. rw f at (inv.high q h) in
        let sizes : length active + suc (length fs) ≡ c = rw f at inv.sizes in
        let small : r < c = ground (arith, high r) in
        (
          record {
            freed = fs;
            unused = inv.unused;
            split = e;
            room = inv.room;
            sizes = omega (arith, length-append active (iv ∷ []));
            once = λ q. ground (arith, once q, held-append q active iv);
            high = λ q h. ground (arith, high q h, held-append q active iv);
            below = All-append (λ a. a.mapped < c) active (iv ∷ []) inv.below (omega arith, tt);
          },
          ground (arith, once r),
          omega (arith, length-append active (iv ∷ [])),
          small,
        )

    take_unused :
        (u : ℕ)
        → inv.freed ≡ []
        → inv.unused ≡ suc u
        → r ≡ c
        → rest ≡ range_from (suc c) u
        → Inv n grown rest (suc c) × (held r active ≡ 0) × (length grown ≡ suc c)
    unfolding times
    take_unused u f eu rc e =
        let once : (q : ℕ) → held q active + 0 ≤ 1 = λ q. rw f at (inv.once q) in
        let high : (q : ℕ) → c ≤ q → held q active + 0 ≡ 0 = λ q h. rw f at (inv.high q h) in
        let sizes : length active + 0 ≡ c = rw f at inv.sizes in
        (
          record {
            freed = [];
            unused = u;
            split = e;
            room = omega (arith, inv.room);
            sizes = omega (arith, length-append active (iv ∷ []));
            once = λ q. ground (arith, once q, high q, held-append q active iv);
            high = λ q h. ground (arith, high q, held-append q active iv);
            below =
                All-append (λ a. a.mapped < suc c) active (iv ∷ [])
                  (All-map (λ a. a.mapped < c) (λ a. a.mapped < suc c) active (λ a h. omega arith)
                    inv.below)
                  (omega arith, tt);
          },
          omega (arith, high r (omega arith)),
          omega (arith, length-append active (iv ∷ [])),
        )

    -- The register on top of the stack is in no use; taking it keeps the invariant, and it lies
    -- below the new count.
    pub take_free :
        registers ≡ r ∷ rest
        → Inv n grown rest (max_count c (length grown))
          × (held r active ≡ 0)
          × (c ≤ max_count c (length grown))
          × (r < max_count c (length grown))
    take_free e = elim (front_cases inv.freed c inv.unused r rest (sym inv.split ∙ e)) [
      | inl (fs, f, er) ↦
          let (inv', free, le, small) = take_freed fs f er in
          let same : max_count c (length grown) ≡ c = ground arith in
          rw same (inv', free, le_refl c, small)
      | inr (u, f, eu, rc, er) ↦
          let (inv', free, size) = take_unused u f eu rc er in
          let same : max_count c (length grown) ≡ suc c = ground arith in
          rw same (inv', free, omega arith, omega arith)
    ]
