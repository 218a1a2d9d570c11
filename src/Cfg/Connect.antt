-- ===== src/Cfg/Connect.antt =====
-- `connectBlocks` against the list of the edges that the code asks for.
use mathlib.Core.List.{append_assoc, append-nil}
use jerryscript_optimizer.Prelude.{
  ℕ, zero, suc, ◌+◌, ◌<◌, ◌≡◌, ◌≢◌, refl, ◌∙◌, ap, true, false, Option, none, some, List, [], ◌∷◌,
  ◌++◌, ◌==◌, arith, Bool-cases, inl, inr, All, last,
}
use jerryscript_optimizer.Prelude.Sets.{mem, mem-cons, mem-append}
use jerryscript_optimizer.Blocks.{BasicBlock, BlockHeap}
use jerryscript_optimizer.Inst.{is_jump, is_conditional_jump, is_try_start, jump_target}
use jerryscript_optimizer.Edges.Counts.{leaving, bare, bare-add_successor, add_successor_edges}
use jerryscript_optimizer.Cfg.{
  next_offset, Graph, InsHeap, connect, home, ins_at, has_next, prev_inst, first_jump, connect_try,
  connect_branch, connect_jump, connect_next, connect_at, connect_block, connect_blocks,
}
use jerryscript_optimizer.Cfg.Shape.{below, gather, mem-below, IsBuilt, connect-IsBuilt}
use jerryscript_optimizer.Cfg.Ahead.{IsAhead}
use jerryscript_optimizer.Cfg.Full.{IsFull}
use jerryscript_optimizer.Cfg.Flow.{
  Catches, IsFlow, count, count-append, before_edge, side_edges, fall_edges, edges_at, block_edges,
  all_edges,
}

-- The graph with these edges more, and nothing else changed.
pub record Joined (g : Graph) (es : List (ℕ × ℕ)) (g' : Graph) : Type 0 where
  pub built : IsBuilt g'
  pub insns : g'.insns ≡ g.insns
  pub bbs : g'.bbs ≡ g.bbs
  pub bb_id : g'.bb_id ≡ g.bb_id
  pub same : (p : ℕ) → bare (g'.blocks p) ≡ bare (g.blocks p)
  pub edges : (a b : ℕ) → leaving g'.blocks a b ≡ leaving g.blocks a b + count a b es

Joined-none : (g : Graph) → IsBuilt g → Joined g [] g
unfolding count
Joined-none g built = record {
  built = built;
  insns = refl;
  bbs = refl;
  bb_id = refl;
  same = λ p. refl;
  edges = λ a b. omega arith;
}

Joined-connect :
    (g0 : Graph) (es : List (ℕ × ℕ)) (g : Graph) (a b : ℕ)
    → Joined g0 es g
    → a < g0.bb_id
    → b < g0.bb_id
    → Joined g0 (es ++ ((a, b) ∷ [])) (connect g a b)
unfolding count
Joined-connect g0 es g a b j la lb = record {
  built = connect-IsBuilt g a b j.built (omega (arith, j.bb_id)) (omega (arith, j.bb_id));
  insns = j.insns;
  bbs = j.bbs;
  bb_id = j.bb_id;
  same = λ p. bare-add_successor g.blocks a b p ∙ j.same p;
  edges = λ x y.
      ground (
        arith,
        add_successor_edges g.blocks a b x y,
        j.edges x y,
        count-append x y es ((a, b) ∷ []),
      );
}

prev_inst_lem :
    (order : List ℕ) (offset p : ℕ)
    → mem p order ≡ true
    → p < offset
    → (q : ℕ) × (prev_inst order offset ≡ some q) × (mem q order ≡ true)
unfolding prev_inst
prev_inst_lem order zero p m lt = absurd (omega arith)
prev_inst_lem order (suc offset) p m lt = elim (Bool-cases (mem offset order)) [
  | inl e ↦ (offset, rw e refl, e)
  | inr e ↦
      let (q, found, mq) = prev_inst_lem order offset p m (ground arith) in (q, rw e found, mq)
]

last_lem : (xs : List ℕ) → xs ≢ [] → (x : ℕ) × (last xs ≡ some x) × (mem x xs ≡ true)
last_lem [] ne = absurd (ne refl)
last_lem (x ∷ []) ne = (x, refl, ground (arith, mem-cons x x []))
last_lem (x ∷ y ∷ xs) ne =
    let (z, e, m) = last_lem (y ∷ xs) (λ bad. cc) in (z, e, ground (arith, mem-cons z x (y ∷ xs)))

first_jump_lem :
    (insns : InsHeap) (xs : List ℕ) (i : ℕ)
    → first_jump insns xs ≡ some i
    → (mem i xs ≡ true) × (is_jump (insns i) ≡ true)
unfolding first_jump
first_jump_lem insns [] i e = absurd (cc)
first_jump_lem insns (x ∷ xs) i e = elim (Bool-cases (is_jump (insns x))) [
  | inl j ↦ let here : some x ≡ some i = rw j at e in ground (arith, mem-cons i x xs)
  | inr j ↦
      let later : first_jump insns xs ≡ some i = rw j at e in
      let (m, jump) = first_jump_lem insns xs i later in (ground (arith, mem-cons i x xs), jump)
]

pub mem-gather :
    (h : BlockHeap) (n p i : ℕ) → p < n → mem i (h p).insts ≡ true → mem i (gather h n) ≡ true
unfolding gather
mem-gather h zero p i lt m = absurd (omega arith)
mem-gather h (suc n) p i lt m = elim (Bool-cases (p == n)) [
  | inl e ↦
      let q : p ≡ n = ground arith in
      let here : mem i (h n).insts ≡ true = rw (← q) m in
      ground (arith, mem-append i (gather h n) (h n).insts)
  | inr e ↦
      let early = mem-gather h n p i (ground arith) m in
      ground (arith, mem-append i (gather h n) (h n).insts)
]

module _ (g0 : Graph) (order : List ℕ)
    (flow : (i : ℕ) → mem i order ≡ true → IsFlow g0.insns order i)
    (ahead : (i : ℕ) → mem i order ≡ true → IsAhead g0.insns order i)
    (homes : (i : ℕ) → mem i order ≡ true → home g0 i < g0.bb_id)
    (inside : (p i : ℕ) → p < g0.bb_id → mem i (g0.blocks p).insts ≡ true → mem i order ≡ true)
    (full : IsFull g0) where
  at : (x : ℕ) → mem x order ≡ true → ins_at order x ≡ some x
  at x m = rw m refl

  connect_try_lem :
      (es : List (ℕ × ℕ)) (g : Graph) (t : ℕ)
      → Joined g0 es g
      → Catches g0.insns order t
      → (g' : Graph) × (connect_try order g t ≡ some g')
        × Joined g0 (es ++ before_edge g0 t (prev_inst order (g0.insns t).offset)) g'
  unfolding connect_try
  connect_try_lem es g t j (catch, target, (p, mp, lt)) =
      let (q, found, mq) = prev_inst_lem order (g0.insns t).offset p mp lt in
      let c = jump_target (g0.insns t) in
      (
        connect g (home g0 q) (home g0 c),
        rw (j.insns, catch, found, at c target) refl,
        rw found (Joined-connect g0 es g (home g0 q) (home g0 c) j (homes q mq) (homes c target)),
      )

  connect_branch_lem :
      (es : List (ℕ × ℕ)) (g : Graph) (bb i : ℕ)
      → Joined g0 es g
      → bb < g0.bb_id
      → mem i order ≡ true
      → (g' : Graph) × (connect_branch order g bb i (jump_target (g0.insns i)) ≡ some g')
        × Joined g0 (es ++ side_edges g0 order bb i) g'
  unfolding connect_branch side_edges
  connect_branch_lem es g bb i j lb m =
      let (target, next, falls, catches) = flow i m in
      elim (Bool-cases (is_conditional_jump (g0.insns i))) [
        | inl c ↦
            let n = next_offset (g0.insns i) in
            (
              connect g bb (home g0 n),
              rw (j.insns, c, at n (next c)) refl,
              rw c (Joined-connect g0 es g bb (home g0 n) j lb (homes n (next c))),
            )
        | inr c ↦ elim (Bool-cases (is_try_start (g0.insns i))) [
          | inl t ↦
              let (g', run, j') = connect_try_lem es g (jump_target (g0.insns i)) j (catches t) in
              let c' : is_conditional_jump (g.insns i) ≡ false = rw j.insns c in
              let t' : is_try_start (g.insns i) ≡ true = rw j.insns t in
              (g', rw (c', t') run, rw (c, t) j')
          | inr t ↦ (g, rw (j.insns, c, t) refl, rw (c, t, append-nil es) j)
        ]
      ]

  connect_next_lem :
      (es : List (ℕ × ℕ)) (g : Graph) (bb i : ℕ)
      → Joined g0 es g
      → bb < g0.bb_id
      → mem i order ≡ true
      → (g' : Graph) × (connect_next order g bb i ≡ some g')
        × Joined g0 (es ++ fall_edges g0 order bb (some i)) g'
  unfolding connect_next fall_edges
  connect_next_lem es g bb i j lb m =
      let (target, next, falls, catches) = flow i m in
      elim (Bool-cases (has_next g0.insns order (g0.insns i))) [
        | inl e ↦
            let n = next_offset (g0.insns i) in
            (
              connect g bb (home g0 n),
              rw (j.insns, e, at n (falls e)) refl,
              rw (falls e) (Joined-connect g0 es g bb (home g0 n) j lb (homes n (falls e))),
            )
        | inr e ↦
            let none_there : mem (next_offset (g0.insns i)) order ≡ false =
              ground (arith, ahead i m) in
            (g, rw (j.insns, e) refl, rw (none_there, append-nil es) j)
      ]

  connect_at_lem :
      (es : List (ℕ × ℕ)) (g : Graph) (bb : ℕ) (x : Option ℕ)
      → Joined g0 es g
      → bb < g0.bb_id
      → (g0.blocks bb).insts ≢ []
      → first_jump g0.insns (g0.blocks bb).insts ≡ x
      → (g' : Graph) × (connect_at order g bb x ≡ some g')
        × Joined g0 (es ++ edges_at g0 order bb x) g'
  unfolding connect_at edges_at connect_jump
  connect_at_lem es g bb (some i) j lb ne found =
      let (mi, jump) = first_jump_lem g0.insns (g0.blocks bb).insts i found in
      let m = inside bb i lb mi in
      let target = (flow i m).0 in
      let t = jump_target (g0.insns i) in
      let (g1, run, j1) = connect_branch_lem es g bb i j lb m in
      let target' : ins_at order (jump_target (g.insns i)) ≡ some t =
        rw j.insns (at t (target jump)) in
      let home_same : home g1 t ≡ home g0 t = ap (λ (k : InsHeap). (k t).bb) j1.insns in
      (
        connect g1 bb (home g0 t),
        rw (target', run, home_same) refl,
        rw (← append_assoc es (side_edges g0 order bb i) ((bb, home g0 t) ∷ []))
            (Joined-connect g0 _ g1 bb (home g0 t) j1 lb (homes t (target jump))),
      )
  connect_at_lem es g bb none j lb ne found =
      let insts : (g.blocks bb).insts ≡ (g0.blocks bb).insts =
        ap (λ (b : BasicBlock). b.insts) (j.same bb) in
      let (i, e, mi) = last_lem (g0.blocks bb).insts ne in
      let (g', run, j') = connect_next_lem es g bb i j lb (inside bb i lb mi) in
      (g', rw (insts, e) run, rw e j')

  connect_block_lem :
      (es : List (ℕ × ℕ)) (g : Graph) (bb : ℕ)
      → Joined g0 es g
      → bb < g0.bb_id
      → (g' : Graph) × (connect_block order g bb ≡ some g')
        × Joined g0 (es ++ block_edges g0 order bb) g'
  unfolding connect_block block_edges
  connect_block_lem es g bb j lb =
      let invalid : (g.blocks bb).invalid ≡ (g0.blocks bb).invalid =
        ap (λ (b : BasicBlock). b.invalid) (j.same bb) in
      let insts : (g.blocks bb).insts ≡ (g0.blocks bb).insts =
        ap (λ (b : BasicBlock). b.insts) (j.same bb) in
      elim (Bool-cases (g0.blocks bb).invalid) [
        | inl e ↦ (g, rw (invalid, e) refl, rw (e, append-nil es) j)
        | inr e ↦
            let fj : first_jump g.insns (g.blocks bb).insts
                ≡ first_jump g0.insns (g0.blocks bb).insts =
              rw (j.insns, insts) refl in
            let (g', run, j') =
              connect_at_lem es g bb (first_jump g0.insns (g0.blocks bb).insts) j lb (full bb lb e)
                refl in
            (g', rw (invalid, e, fj) run, rw e j')
      ]

  connect_blocks_lem :
      (bbs : List ℕ) (es : List (ℕ × ℕ)) (g : Graph)
      → Joined g0 es g
      → All (λ b. b < g0.bb_id) bbs
      → (g' : Graph) × (connect_blocks order g bbs ≡ some g')
        × Joined g0 (es ++ all_edges g0 order bbs) g'
  unfolding connect_blocks all_edges
  connect_blocks_lem [] es g j low = (g, refl, rw (append-nil es) j)
  connect_blocks_lem (bb ∷ bbs) es g j low =
      let (g1, run1, j1) = connect_block_lem es g bb j low.0 in
      let (g', run, j') = connect_blocks_lem bbs (es ++ block_edges g0 order bb) g1 j1 low.1 in
      (
        g',
        rw run1 run,
        rw (← append_assoc es (block_edges g0 order bb) (all_edges g0 order bbs)) j',
      )

  -- On blocks as `buildBlocks` leaves them, where control passes to existing instructions only,
  -- `connectBlocks` returns, and adds the edges that the valid blocks ask for, each as often as it
  -- is asked for, and no other; nothing else changes.
  pub connect_blocks_correct :
      IsBuilt g0
      → (g' : Graph) × (connect_blocks order g0 g0.bbs ≡ some g')
        × Joined g0 (all_edges g0 order g0.bbs) g'
  connect_blocks_correct built =
      connect_blocks_lem g0.bbs [] g0 (Joined-none g0 built)
        (rw built.listed (low g0.bb_id g0.bb_id (λ p m. mem-below p g0.bb_id m)))
    where
      low : (n k : ℕ) → ((p : ℕ) → mem p (below n) ≡ true → p < k) → All (λ b. b < k) (below n)
      low n k h = from (below n) h
        where
          from : (l : List ℕ) → ((p : ℕ) → mem p l ≡ true → p < k) → All (λ b. b < k) l
          from [] f = tt
          from (x ∷ l) f = (
            f x (ground (arith, mem-cons x x l)),
            from l (λ p m. f p (ground (arith, mem-cons p x l))),
          )
