-- ===== src/Regalloc.antt =====
-- src/regalloc-linear-scan.cpp: the intervals of all registers in the order of their starts, and a
-- scan that gives each the register that was free last.
-- A `std::vector` used as a stack is a list whose head is `back()`. `std::sort` is an insertion sort;
-- nothing proved depends on the order of elements that compare equal.
pub mod Sort
pub mod Expire
pub mod Scan
pub mod Mapping
pub mod Update
mod Examples
use jerryscript_optimizer.Prelude.{
  ℕ, zero, suc, ◌+◌, Bool, true, false, ◌&&◌, ◌||◌, Option, none, some, List, [], ◌∷◌, ◌++◌, ◌==◌,
  ltb, if◌then◌else◌, length,
}
use jerryscript_optimizer.LiveRanges.{LiveInterval, Ranges}

-- `std::pair<std::pair<uint32_t, uint32_t>, LiveInterval *>`: the register, what it is mapped to,
-- and the interval, which nothing changes any more.
pub record RegLiveInterval : Type 0 where
  pub reg : ℕ
  pub mapped : ℕ
  pub start : ℕ
  pub end : ℕ

pub insert_by :
    (RegLiveInterval → RegLiveInterval → Bool)
    → RegLiveInterval
    → List RegLiveInterval
    → List RegLiveInterval
insert_by lt x [] = x ∷ []
insert_by lt x (y ∷ ys) = let rest = insert_by lt x ys in if lt y x then y ∷ rest else x ∷ y ∷ ys

pub sort_by :
    (RegLiveInterval → RegLiveInterval → Bool) → List RegLiveInterval → List RegLiveInterval
sort_by lt [] = []
sort_by lt (x ∷ xs) = insert_by lt x (sort_by lt xs)

pub by_start : RegLiveInterval → RegLiveInterval → Bool
by_start a b =
    if ltb a.start b.start then true else if a.start == b.start then ltb a.end b.end else false

pub by_end : RegLiveInterval → RegLiveInterval → Bool
by_end a b = if ltb a.end b.end then true else if a.end == b.end then ltb a.start b.start else false

reg_intervals : ℕ → List LiveInterval → List RegLiveInterval
reg_intervals r [] = []
reg_intervals r (i ∷ is) =
    record { reg = r; mapped = r; start = i.start; end = i.end } ∷ reg_intervals r is

all_intervals : Ranges → List RegLiveInterval
all_intervals [] = []
all_intervals ((r, li) ∷ m) = reg_intervals r li ++ all_intervals m

pub sort_intervals : Ranges → List RegLiveInterval
sort_intervals m = sort_by by_start (all_intervals m)

-- The loop of `expireOldIntervals`: the ended intervals in front give their registers back.
pub expire_front : List RegLiveInterval → List ℕ → ℕ → List RegLiveInterval × List ℕ
expire_front [] registers start = ([], registers)
expire_front (a ∷ active) registers start =
    let rest = expire_front active (a.mapped ∷ registers) start in
    if ltb start a.end then (a ∷ active, registers) else rest

pub expire_old_intervals :
    List RegLiveInterval → List ℕ → RegLiveInterval → List RegLiveInterval × List ℕ
expire_old_intervals active registers interval =
    expire_front (sort_by by_end active) registers interval.start

-- What the loop of `computeRegisterMapping` does with an interval once old ones have expired.
-- `no_register` stands for `back()` of an empty vector.
pub data Choice : Type 0 where
  full skip no_register : Choice
  take : ℕ → List ℕ → Choice

pub choose : ℕ → List RegLiveInterval → List ℕ → RegLiveInterval → Choice
choose regs_count active registers iv =
    if length active == regs_count
    then full
    else if iv.start == iv.end
    then skip
    else elim registers [ [] ↦ no_register | r ∷ rest ↦ take r rest ]

abbrev pub max_count : ℕ → ℕ → ℕ
max_count new_count size = if ltb new_count size then size else new_count

pub prepend :
    RegLiveInterval → Option (List RegLiveInterval × ℕ) → Option (List RegLiveInterval × ℕ)
prepend iv none = none
prepend iv (some (ivs, n)) = some (iv ∷ ivs, n)

-- The intervals with their registers and `new_regs_count_`; `none` is undefined behaviour.
pub map_loop :
    ℕ → List RegLiveInterval → List ℕ → ℕ → List RegLiveInterval → Option (List RegLiveInterval × ℕ)
map_loop regs_count active registers new_count [] = some ([], new_count)
map_loop regs_count active registers new_count (iv ∷ rest) =
    let expired = expire_old_intervals active registers iv in
    elim (choose regs_count expired.0 expired.1 iv) [
      | full ↦ some (iv ∷ rest, new_count)
      | skip ↦ prepend iv (map_loop regs_count expired.0 expired.1 new_count rest)
      | no_register ↦ none
      | take r registers' ↦
          let iv' = record iv { mapped = r } in
          let active' = expired.0 ++ (iv' ∷ []) in
          prepend iv'
            (map_loop regs_count active' registers' (max_count new_count (length active')) rest)
    ]

-- `registers.push_back(i)` for i from regs_count - 1 down to 0.
pub push_down : ℕ → List ℕ → List ℕ
push_down zero registers = registers
push_down (suc i) registers = push_down i (i ∷ registers)

pub compute_register_mapping : ℕ → List RegLiveInterval → Option (List RegLiveInterval × ℕ)
compute_register_mapping regs_count intervals =
    map_loop regs_count [] (push_down regs_count []) 0 intervals
