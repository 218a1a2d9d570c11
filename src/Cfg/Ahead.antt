-- ===== src/Cfg/Ahead.antt =====
-- `hasNext` finds that there is a next instruction where one stands.
use mathlib.Core.Path.{subst, fun_ext}
use jerryscript_optimizer.Prelude.{
  ℕ, ◌≤◌, ◌≡◌, refl, sym, true, some, List, [], ◌∷◌, ◌==◌, arith, Bool-cases, inl, inr, last,
}
use jerryscript_optimizer.Prelude.Sets.{mem, mem-cons, mem_nil}
use jerryscript_optimizer.Cfg.{next_offset, InsHeap, has_next}
use jerryscript_optimizer.Cfg.Leaders.{HasOffsets, Ascending}
use jerryscript_optimizer.Cfg.Shape.{core}

-- Where an instruction stands behind this one, `hasNext` says so.
abbrev pub IsAhead : InsHeap → List ℕ → ℕ → Type 0
IsAhead insns order i =
    mem (next_offset (insns i)) order ≡ true → has_next insns order (insns i) ≡ true

le-last :
    (x : ℕ) (xs : List ℕ) (y : ℕ)
    → Ascending (x ∷ xs)
    → mem y (x ∷ xs) ≡ true
    → (l : ℕ) × (last (x ∷ xs) ≡ some l) × (x ≤ l) × (y ≤ l)
le-last x [] y up m = (x, refl, omega arith, ground (arith, mem-cons y x [], mem_nil y))
le-last x (z ∷ xs) y up m = elim (Bool-cases (y == x)) [
  | inl e ↦
      let (l, found, le, same) = le-last z xs z up.1 (ground (arith, mem-cons z z xs)) in
      (l, found, omega (arith, up.0.0), ground (arith, up.0.0))
  | inr e ↦
      let (l, found, le, le') = le-last z xs y up.1 (ground (arith, mem-cons y x (z ∷ xs))) in
      (l, found, omega (arith, up.0.0), le')
]

pub IsAhead_lem :
    (insns : InsHeap) (first : ℕ) (rest : List ℕ) (i : ℕ)
    → HasOffsets insns
    → Ascending (first ∷ rest)
    → IsAhead insns (first ∷ rest) i
IsAhead_lem insns first rest i off up m =
    let (l, found, le, le') = le-last first rest (next_offset (insns i)) up m in
    rw found (ground (arith, off l))

pub IsAhead-same :
    (insns k : InsHeap) (order : List ℕ) (i : ℕ)
    → ((j : ℕ) → core (k j) ≡ core (insns j))
    → IsAhead insns order i
    → IsAhead k order i
IsAhead-same insns k order i same ahead =
    subst (λ (h : InsHeap). IsAhead h order i) (fun_ext (λ j. sym (same j))) ahead
