-- ===== src/Stream/Memory.antt =====
-- `offsetToInst()` behind `buildInstructions`: the memory of instructions that the control flow
-- analysis takes, at the offsets in the order of the code.
use mathlib.Core.Path.{subst}
use jerryscript_optimizer.Prelude.{
  ℕ, ◌+◌, ◌<◌, ◌≤◌, ◌≡◌, ◌⊎◌, refl, inl, inr, true, false, List, [], ◌∷◌, ◌==◌, Bool-cases, map,
  All, All-map, arith, if◌then◌else◌,
}
use jerryscript_optimizer.Prelude.Sets.{mem, mem_nil, mem-cons}
use jerryscript_optimizer.Inst.{Ins, is_jump, is_conditional_jump, jump_target}
use jerryscript_optimizer.Bytecode.{BytecodeArguments}
use jerryscript_optimizer.Cfg.{InsHeap}
use jerryscript_optimizer.Cfg.Leaders.{HasOffsets, JumpsInside, Ascending}
use jerryscript_optimizer.Stream.{Tables, Unset, new_ins}
use jerryscript_optimizer.Stream.Chain.{Tiles}

-- `offsetToInst().insert({inst->offset(), inst})` for each of the instructions, and `insAt`. At the
-- other offsets, which `insAt` must not be asked for, it is an instruction at that offset.
unfoldable pub at_offset : (ℕ → Unset) → List Ins → InsHeap
at_offset unset [] x = record (new_ins (unset x)) { offset = x }
at_offset unset (i ∷ rest) x =
    let later = at_offset unset rest x in if x == i.offset then i else later

abbrev pub offsets : List Ins → List ℕ
offsets l = map (λ i. i.offset) l

pub at_offset-HasOffsets : (unset : ℕ → Unset) (l : List Ins) → HasOffsets (at_offset unset l)
unfolding at_offset
at_offset-HasOffsets unset [] x = refl
at_offset-HasOffsets unset (i ∷ rest) x = elim (Bool-cases (x == i.offset)) [
  | inl e ↦ rw e (ground arith)
  | inr e ↦ rw e (at_offset-HasOffsets unset rest x)
]

-- The same on the memory: the offsets lie side by side.
abbrev pub Runs : InsHeap → ℕ → ℕ → List ℕ → Type 0
Runs m start end [] = start ≡ end
Runs m start end (x ∷ xs) = (x ≡ start) × (0 < (m x).size) × (Runs m (x + (m x).size) end xs)

Runs-same :
    (m m' : InsHeap) (start end : ℕ) (xs : List ℕ)
    → ((x : ℕ) → start ≤ x → m' x ≡ m x)
    → Runs m start end xs
    → Runs m' start end xs
Runs-same m m' start end [] same r = r
Runs-same m m' start end (x ∷ xs) same (at, size, r) =
    let here : m' x ≡ m x = same x (omega arith) in
    (
      at,
      rw here size,
      rw here (Runs-same m m' (x + (m x).size) end xs (λ y le. same y (omega arith)) r),
    )

pub Tiles-Runs :
    (t : Tables) (args : BytecodeArguments) (unset : ℕ → Unset) (code : List ℕ) (start end : ℕ)
    (l : List Ins)
    → Tiles t args unset code start end l
    → Runs (at_offset unset l) start end (offsets l)
unfolding at_offset
Tiles-Runs t args unset code start end [] ts = ts
Tiles-Runs t args unset code start end (i ∷ rest) (at, placed, ts) =
    let here : (i.offset == i.offset) ≡ true = ground arith in
    let behind = Tiles-Runs t args unset code (i.offset + i.size) end rest ts in
    (
      at,
      rw here placed.takes,
      rw here (
          Runs-same (at_offset unset rest) (at_offset unset (i ∷ rest)) (i.offset + i.size) end
            (offsets rest)
            (λ x le.
              let other : (x == i.offset) ≡ false = ground (arith, placed.takes) in rw other refl)
            behind),
    )

pub Runs-lie :
    (m : InsHeap) (start end : ℕ) (xs : List ℕ)
    → Runs m start end xs
    → (start ≤ end) × All (λ x. (start ≤ x) × (x < end)) xs
Runs-lie m start end [] r = (omega arith, tt)
Runs-lie m start end (x ∷ xs) (at, size, r) =
    let (le, lie) = Runs-lie m (x + (m x).size) end xs r in
    (
      omega arith,
      (
        (omega arith, omega arith),
        All-map (λ y. (x + (m x).size ≤ y) × (y < end)) (λ y. (start ≤ y) × (y < end)) xs
            (λ y h. (omega (arith, h.0), h.1)) lie,
      ),
    )

pub Runs-Ascending :
    (m : InsHeap) (start end : ℕ) (xs : List ℕ) → Runs m start end xs → Ascending xs
Runs-Ascending m start end [] r = tt
Runs-Ascending m start end (x ∷ xs) (at, size, r) = (
  All-map (λ y. (x + (m x).size ≤ y) × (y < end)) (λ y. x < y) xs (λ y h. omega (arith, h.0))
      (Runs-lie m (x + (m x).size) end xs r).1,
  Runs-Ascending m (x + (m x).size) end xs r,
)

first_of :
    (m : InsHeap) (start end : ℕ) (xs : List ℕ)
    → Runs m start end xs
    → (start ≡ end) ⊎ (mem start xs ≡ true)
first_of m start end [] r = inl r
first_of m start end (x ∷ xs) r = inr (ground (arith, mem-cons start x xs, r.0))

later :
    (end y : ℕ) (ys : List ℕ) (z : ℕ)
    → (z ≡ end) ⊎ (mem z ys ≡ true)
    → (z ≡ end) ⊎ (mem z (y ∷ ys) ≡ true)
later end y ys z h = ground (arith, mem-cons z y ys)

-- Behind an instruction comes another, or the end.
pub Runs-next :
    (m : InsHeap) (start end : ℕ) (xs : List ℕ) (x : ℕ)
    → Runs m start end xs
    → mem x xs ≡ true
    → (x + (m x).size ≡ end) ⊎ (mem (x + (m x).size) xs ≡ true)
Runs-next m start end [] x r mx = absurd (cc (mem_nil x))
Runs-next m start end (y ∷ ys) x (at, size, r) mx = elim (Bool-cases (x == y)) [
  | inl e ↦
      let q : x ≡ y = ground arith in
      rw q (later end y ys (y + (m y).size) (first_of m (y + (m y).size) end ys r))
  | inr e ↦
      later end y ys (x + (m x).size)
        (Runs-next m (y + (m y).size) end ys x r (ground (arith, mem-cons x y ys)))
]

pub Runs-JumpsInside :
    (m : InsHeap) (order : List ℕ) (start end : ℕ) (xs : List ℕ)
    → Runs m start end xs
    → ((x : ℕ)
        → mem x xs ≡ true
        → (is_jump (m x) ≡ true → mem (jump_target (m x)) order ≡ true)
          × (is_conditional_jump (m x) ≡ true → x + (m x).size < end))
    → JumpsInside m order xs
Runs-JumpsInside m order start end [] r h = tt
Runs-JumpsInside m order start end (x ∷ xs) (at, size, r) h =
    let here = h x (ground (arith, mem-cons x x xs)) in
    (
      here.0,
      λ c none_left.
          let r' : Runs m (x + (m x).size) end [] =
            subst (Runs m (x + (m x).size) end) none_left r in
          omega (arith, here.1 c, r'),
      Runs-JumpsInside m order (x + (m x).size) end xs r
          (λ y my. h y (ground (arith, mem-cons y x xs))),
    )
