-- ===== src/Cfg/Inside.antt =====
-- The leaders stand in the code, and the first of them is its first instruction.
use jerryscript_optimizer.Prelude.{
  ℕ, ◌<◌, ◌≡◌, ap, true, ◌||◌, List, [], ◌∷◌, ◌==◌, arith, Bool-cases, List-cases, inl, inr, All,
}
use jerryscript_optimizer.Prelude.Sets.{mem, mem-cons, mem_nil}
use jerryscript_optimizer.Inst.{is_jump, jump_target}
use jerryscript_optimizer.Cfg.{InsHeap}
use jerryscript_optimizer.Cfg.Leaders.{JumpsInside, Ascending, marks, marked}

-- Leaders are instructions of the code.
pub marks_inside :
    (insns : InsHeap) (order : List ℕ) (i : ℕ) (rest : List ℕ) (x : ℕ)
    → (is_jump (insns i) ≡ true → mem (jump_target (insns i)) order ≡ true)
    → mem i order ≡ true
    → ((y : ℕ) → mem y rest ≡ true → mem y order ≡ true)
    → marks insns i rest x ≡ true
    → mem x order ≡ true
unfolding marks
marks_inside insns order i rest x target mi more m = elim (List-cases rest) [
  | inl e ↦ let m' = rw (e, marks) at m in ground (arith, target)
  | inr (y, ys, e) ↦
      let my = more y (rw e (ground (arith, mem-cons y y ys))) in
      let m' = rw (e, marks) at m in ground (arith, target)
]

pub marked_inside :
    (insns : InsHeap) (order rest : List ℕ) (x : ℕ)
    → JumpsInside insns order rest
    → ((y : ℕ) → mem y rest ≡ true → mem y order ≡ true)
    → marked insns rest x ≡ true
    → mem x order ≡ true
unfolding marked
marked_inside insns order [] x inside more m = absurd (cc)
marked_inside insns order (i ∷ rest) x inside more m =
    let later = λ (y : ℕ). λ (my : mem y rest ≡ true). more y (ground (arith, mem-cons y i rest)) in
    elim (Bool-cases (marks insns i rest x)) [
      | inl e ↦
          marks_inside insns order i rest x inside.0 (more i (ground (arith, mem-cons i i rest)))
            later e
      | inr e ↦ marked_inside insns order rest x inside.2 later (rw e at m)
    ]

pub leader_inside :
    (insns : InsHeap) (first : ℕ) (rest : List ℕ) (x : ℕ)
    → JumpsInside insns (first ∷ rest) rest
    → (x == first || marked insns rest x) ≡ true
    → mem x (first ∷ rest) ≡ true
leader_inside insns first rest x inside m = elim (Bool-cases (x == first)) [
  | inl e ↦ ground (arith, mem-cons x first rest)
  | inr e ↦
      marked_inside insns (first ∷ rest) rest x inside
        (λ y my. ground (arith, mem-cons y first rest)) (rw e at m)
]

-- In ascending order, the first of the code is the first of the leaders.
pub first_leader :
    (first : ℕ) (rest l : List ℕ)
    → Ascending (first ∷ rest)
    → Ascending l
    → mem first l ≡ true
    → ((x : ℕ) → mem x l ≡ true → mem x (first ∷ rest) ≡ true)
    → (ls : List ℕ) × (l ≡ first ∷ ls) × ((x : ℕ) → mem x ls ≡ true → mem x rest ≡ true)
first_leader first rest [] up asc m within = absurd (cc (mem_nil first))
first_leader first rest (y ∷ ys) up asc m within =
    let here : y ≡ first = ground (
      arith,
      within y (ground (arith, mem-cons y y ys)),
      mem-cons y first rest,
      mem-cons first y ys,
      above first rest y up.0,
      above y ys first asc.0,
    ) in
    (
      ys,
      ap (λ z. z ∷ ys) here,
      λ x mx. ground (
        arith,
        here,
        above y ys x asc.0 mx,
        within x (ground (arith, mem-cons x y ys)),
        mem-cons x first rest,
      ),
    )
  where
    above : (k : ℕ) (xs : List ℕ) (x : ℕ) → All (λ z. k < z) xs → mem x xs ≡ true → k < x
    above k [] x h mx = absurd (cc (mem_nil x))
    above k (z ∷ xs) x h mx = ground (arith, mem-cons x z xs, above k xs x h.1, h.0)
