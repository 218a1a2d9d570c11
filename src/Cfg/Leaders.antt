-- ===== src/Cfg/Leaders.antt =====
-- `findLeaders` against a description of the instructions that start a block.
use jerryscript_optimizer.Prelude.{
  ℕ, ◌<◌, ◌≡◌, ◌≢◌, refl, ◌∙◌, Bool, true, false, ◌&&◌, ◌||◌, some, List, [], ◌∷◌, ◌==◌, ltb,
  if◌then◌else◌, arith, Bool-cases, List-cases, inl, inr, All, Pairs, All-map,
}
use jerryscript_optimizer.Prelude.Sets.{
  mem, insert, IsNodup, mem-insert, IsNodup-insert, mem-cons, mem_nil,
}
use jerryscript_optimizer.Inst.{is_jump, is_conditional_jump, is_try_context, jump_target}
use jerryscript_optimizer.Cfg.{
  InsHeap, ins_at, jump_leaders, ins_leaders, collect_leaders, insert_offset, sort_offsets,
  find_leaders,
}

-- An instruction's address is its offset.
abbrev pub HasOffsets : InsHeap → Type 0
HasOffsets insns = (i : ℕ) → (insns i).offset ≡ i

abbrev pub is_head : ℕ → List ℕ → Bool
is_head x [] = false
is_head x (y ∷ ys) = x == y

-- What a jump marks as a leader: its target; the instruction behind it, if it is conditional; and
-- itself, if it is not, and opens or closes a part of a `try`.
unfoldable pub marks : InsHeap → ℕ → List ℕ → ℕ → Bool
marks insns i rest x =
    if is_jump (insns i)
    then x == jump_target (insns i)
      || (if is_conditional_jump (insns i)
          then is_head x rest
          else is_try_context (insns i) && x == i)
    else false

unfoldable pub marked : InsHeap → List ℕ → ℕ → Bool
marked insns [] x = false
marked insns (i ∷ rest) x = marks insns i rest x || marked insns rest x

-- Every jump goes to an instruction, and no conditional one stands last.
abbrev pub JumpsInside : InsHeap → List ℕ → List ℕ → Type 0
JumpsInside insns order [] = Unit {0}
JumpsInside insns order (i ∷ rest) =
    (is_jump (insns i) ≡ true → mem (jump_target (insns i)) order ≡ true)
    × (is_conditional_jump (insns i) ≡ true → rest ≢ [])
    × JumpsInside insns order rest

ins_leaders_lem :
    (insns : InsHeap) (order : List ℕ) (i : ℕ) (rest leaders : List ℕ)
    → (is_jump (insns i) ≡ true → mem (jump_target (insns i)) order ≡ true)
    → (is_conditional_jump (insns i) ≡ true → rest ≢ [])
    → IsNodup leaders
    → (l : List ℕ) × (ins_leaders insns order i rest leaders ≡ some l)
      × IsNodup l
      × ((x : ℕ) → mem x l ≡ (mem x leaders || marks insns i rest x))
unfolding ins_leaders jump_leaders marks
ins_leaders_lem insns order i rest leaders inside more nd =
    let target = jump_target (insns i) in
    elim (Bool-cases (is_jump (insns i))) [
      | inr e ↦ (leaders, rw e refl, nd, λ x. rw e (ground arith))
      | inl e ↦
          let at : ins_at order target ≡ some target = rw (inside e) refl in
          elim (Bool-cases (is_conditional_jump (insns i))) [
            | inl c ↦ elim (List-cases rest) [
              | inl none_left ↦ absurd (more c none_left)
              | inr (next, rest', r) ↦ (
                insert target (insert next leaders),
                rw (e, at, c, r) refl,
                IsNodup-insert target _ (IsNodup-insert next leaders nd),
                λ x.
                    rw (e, c, r)
                      (ground (
                        arith,
                        mem-insert x target (insert next leaders),
                        mem-insert x next leaders,
                      )),
              )
            ]
            | inr c ↦ elim (Bool-cases (is_try_context (insns i))) [
              | inl t ↦ (
                insert target (insert i leaders),
                rw (e, at, c, t) refl,
                IsNodup-insert target _ (IsNodup-insert i leaders nd),
                λ x.
                    rw (e, c, t)
                      (ground
                        (arith, mem-insert x target (insert i leaders), mem-insert x i leaders)),
              )
              | inr t ↦ (
                insert target leaders,
                rw (e, at, c, t) refl,
                IsNodup-insert target _ nd,
                λ x. rw (e, c, t) (ground (arith, mem-insert x target leaders)),
              )
            ]
          ]
    ]

collect_leaders_lem :
    (insns : InsHeap) (order rest leaders : List ℕ)
    → JumpsInside insns order rest
    → IsNodup leaders
    → (l : List ℕ) × (collect_leaders insns order rest leaders ≡ some l)
      × IsNodup l
      × ((x : ℕ) → mem x l ≡ (mem x leaders || marked insns rest x))
unfolding collect_leaders marked
collect_leaders_lem insns order [] leaders inside nd = (leaders, refl, nd, λ x. ground arith)
collect_leaders_lem insns order (i ∷ rest) leaders inside nd =
    let (l1, e1, nd1, m1) = ins_leaders_lem insns order i rest leaders inside.0 inside.1 nd in
    let (l, e, nd2, m) = collect_leaders_lem insns order rest l1 inside.2 nd1 in
    (l, rw e1 e, nd2, λ x. ground (arith, m x, m1 x))

mem-insert_offset :
    (insns : InsHeap) (i : ℕ) (js : List ℕ) (x : ℕ)
    → mem x (insert_offset insns i js) ≡ (x == i || mem x js)
unfolding insert_offset mem
mem-insert_offset insns i [] x = refl
mem-insert_offset insns i (j ∷ js) x = ground (arith, mem-insert_offset insns i js x)

mem-sort_offsets :
    (insns : InsHeap) (is : List ℕ) (x : ℕ) → mem x (sort_offsets insns is) ≡ mem x is
unfolding sort_offsets mem
mem-sort_offsets insns [] x = refl
mem-sort_offsets insns (i ∷ is) x =
    ground (arith, mem-insert_offset insns i (sort_offsets insns is) x, mem-sort_offsets insns is x)

All-insert_offset :
    (insns : InsHeap) (i k : ℕ) (js : List ℕ)
    → k < i
    → All (λ j. k < j) js
    → All (λ j. k < j) (insert_offset insns i js)
unfolding insert_offset
All-insert_offset insns i k [] lt h = (lt, tt)
All-insert_offset insns i k (j ∷ js) lt h =
    elim (Bool-cases (ltb (insns j).offset (insns i).offset)) [
      | inl e ↦ rw e (h.0, All-insert_offset insns i k js lt h.1)
      | inr e ↦ rw e (lt, h)
    ]

abbrev pub Ascending : List ℕ → Type 0
Ascending = Pairs ◌<◌

insert_offset-Ascending :
    (insns : InsHeap) (i : ℕ) (js : List ℕ)
    → HasOffsets insns
    → mem i js ≡ false
    → Ascending js
    → Ascending (insert_offset insns i js)
unfolding insert_offset
insert_offset-Ascending insns i [] off m a = (tt, tt)
insert_offset-Ascending insns i (j ∷ js) off m a =
    let split = mem-cons i j js in
    elim (Bool-cases (ltb (insns j).offset (insns i).offset)) [
      | inl e ↦
          let lt : j < i = ground (arith, off i, off j) in
          rw e (
            All-insert_offset insns i j js lt a.0,
            insert_offset-Ascending insns i js off (ground arith) a.1,
          )
      | inr e ↦
          let lt : i < j = ground (arith, off i, off j) in
          rw e ((lt, All-map (λ k. j < k) (λ k. i < k) js (λ k h. omega arith) a.0), a)
    ]

sort_offsets-Ascending :
    (insns : InsHeap) (is : List ℕ)
    → HasOffsets insns
    → IsNodup is
    → Ascending (sort_offsets insns is)
unfolding sort_offsets
sort_offsets-Ascending insns [] off nd = tt
sort_offsets-Ascending insns (i ∷ is) off nd =
    insert_offset-Ascending insns i (sort_offsets insns is) off (mem-sort_offsets insns is i ∙ nd.0)
      (sort_offsets-Ascending insns is off nd.1)

-- Where each instruction stands at its offset, every jump behind the first instruction goes to an
-- instruction and no conditional jump stands last, `findLeaders` returns offsets in ascending
-- order: those of the first instruction and of what the jumps behind it mark. The first
-- instruction marks nothing, even if it is a jump.
pub find_leaders_correct :
    (insns : InsHeap) (first : ℕ) (rest : List ℕ)
    → HasOffsets insns
    → JumpsInside insns (first ∷ rest) rest
    → (l : List ℕ) × (find_leaders insns (first ∷ rest) ≡ some l)
      × Ascending l
      × ((x : ℕ) → mem x l ≡ (x == first || marked insns rest x))
unfolding find_leaders insert
find_leaders_correct insns first rest off inside =
    let (l, e, nd, m) =
      collect_leaders_lem insns (first ∷ rest) rest (insert first []) inside
        (IsNodup-insert first [] tt) in
    (
      sort_offsets insns l,
      rw e refl,
      sort_offsets-Ascending insns l off nd,
      λ x. ground (arith, mem-sort_offsets insns l x, m x, mem-insert x first [], mem_nil x),
    )
