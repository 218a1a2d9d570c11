-- ===== src/Liveness/Equation.antt =====
-- The data-flow equation that `computeLiveOut` evaluates, and that it is monotone.
use jerryscript_optimizer.Prelude.{
  ℕ, ◌≡◌, ◌∙◌, true, false, not, ◌&&◌, ◌||◌, List, [], ◌∷◌, ◌==◌, arith, Bool-cases, inl, inr, ◌↔◌,
  ◌⊎◌, ⊎_elim,
}
use jerryscript_optimizer.Prelude.Sets.{
  mem, insert_all, IsNodup, mem-insert_all, mem-keep, IsNodup-insert_all,
}
use jerryscript_optimizer.Blocks.{BlockHeap}
use jerryscript_optimizer.Liveness.{difference, new_live_out, next_live_out}

-- What one successor contributes: the block's own exposed registers, and what passes the successor.
abbrev pub Source : BlockHeap → List ℕ → ℕ → ℕ → Type 0
Source h ue r s = (mem r ue ≡ true) ⊎ ((mem r (h s).live_out ≡ true) × (mem r (h s).kill ≡ false))

step_mem :
    (h : BlockHeap) (ue acc : List ℕ) (r s : ℕ)
    → mem r (insert_all (insert_all acc (difference (h s))) ue)
      ≡ (mem r ue || (mem r (h s).live_out && not (mem r (h s).kill) || mem r acc))
step_mem h ue acc r s =
    mem-insert_all r (insert_all acc (difference (h s))) ue
    ∙ (λ i. mem r ue || mem-insert_all r acc (difference (h s)) i)
    ∙ (λ i.
        mem r ue || (mem-keep (λ reg. not (mem reg (h s).kill)) r (h s).live_out i || mem r acc))

new_live_out_sound :
    (h : BlockHeap) (ue succs acc : List ℕ) (r : ℕ)
    → mem r (new_live_out h ue succs acc) ≡ true
    → (mem r acc ≡ true) ⊎ ((s : ℕ) × (mem s succs ≡ true) × Source h ue r s)
unfolding new_live_out mem
new_live_out_sound h ue [] acc r m = inl m
new_live_out_sound h ue (s ∷ succs) acc r m = elim (new_live_out_sound h ue succs _ r m) [
  | inl now ↦ elim (Bool-cases (mem r acc)) [
    | inl old ↦ inl old
    | inr new ↦ inr (s, ground arith, ground (arith, step_mem h ue acc r s))
  ]
  | inr (t, mt, src) ↦ inr (t, ground arith, src)
]

new_live_out_keeps :
    (h : BlockHeap) (ue succs acc : List ℕ) (r : ℕ)
    → mem r acc ≡ true
    → mem r (new_live_out h ue succs acc) ≡ true
unfolding new_live_out
new_live_out_keeps h ue [] acc r m = m
new_live_out_keeps h ue (s ∷ succs) acc r m =
    new_live_out_keeps h ue succs _ r (ground (arith, step_mem h ue acc r s))

new_live_out_complete :
    (h : BlockHeap) (ue succs acc : List ℕ) (r s : ℕ)
    → mem s succs ≡ true
    → Source h ue r s
    → mem r (new_live_out h ue succs acc) ≡ true
unfolding new_live_out mem
new_live_out_complete h ue [] acc r s ms src = cc
new_live_out_complete h ue (t ∷ succs) acc r s ms src = elim (Bool-cases (s == t)) [
  | inl same ↦
      let e : s ≡ t = ground arith in
      new_live_out_keeps h ue succs _ r (ground (arith, step_mem h ue acc r t))
  | inr other ↦ new_live_out_complete h ue succs _ r s (ground arith) src
]

-- A register is in the recomputed set exactly when some successor contributes it.
pub mem-next_live_out :
    (h : BlockHeap) (p r : ℕ)
    → (mem r (next_live_out h p) ≡ true)
      ↔ ((s : ℕ) × (mem s (h p).successors ≡ true) × Source h (h p).ue r s)
unfolding next_live_out mem
mem-next_live_out h p r = (
  λ m.
      ⊎_elim (λ none_yet. cc) (λ found. found)
        (new_live_out_sound h (h p).ue (h p).successors [] r m),
  λ found. new_live_out_complete h (h p).ue (h p).successors [] r found.0 found.1 found.2,
)

new_live_out-IsNodup :
    (h : BlockHeap) (ue succs acc : List ℕ) → IsNodup acc → IsNodup (new_live_out h ue succs acc)
unfolding new_live_out
new_live_out-IsNodup h ue [] acc n = n
new_live_out-IsNodup h ue (s ∷ succs) acc n =
    new_live_out-IsNodup h ue succs _
      (IsNodup-insert_all _ ue (IsNodup-insert_all acc (difference (h s)) n))

pub next_live_out-IsNodup : (h : BlockHeap) (p : ℕ) → IsNodup (next_live_out h p)
unfolding next_live_out
next_live_out-IsNodup h p = new_live_out-IsNodup h (h p).ue (h p).successors [] tt

-- The block at an address differs in nothing but its live-out set.
pub record SameShape (h g : BlockHeap) (p : ℕ) : Type 0 where
  pub id : (h p).id ≡ (g p).id
  pub invalid : (h p).invalid ≡ (g p).invalid
  pub found : (h p).found ≡ (g p).found
  pub insts : (h p).insts ≡ (g p).insts
  pub predecessors : (h p).predecessors ≡ (g p).predecessors
  pub idom : (h p).idom ≡ (g p).idom
  pub dominators : (h p).dominators ≡ (g p).dominators
  pub succs : (h p).successors ≡ (g p).successors
  pub ue : (h p).ue ≡ (g p).ue
  pub kill : (h p).kill ≡ (g p).kill

abbrev pub Grows : BlockHeap → BlockHeap → Type 0
Grows h g = (p r : ℕ) → mem r (h p).live_out ≡ true → mem r (g p).live_out ≡ true

-- Larger sets give larger sets.
pub next_live_out_mono :
    (h g : BlockHeap)
    → ((p : ℕ) → SameShape h g p)
    → Grows h g
    → (p r : ℕ) → mem r (next_live_out h p) ≡ true
    → mem r (next_live_out g p) ≡ true
next_live_out_mono h g same grows p r m =
    let (s, ms, src) = (mem-next_live_out h p r).0 m in
    let shape = same p in
    let there = same s in
    (mem-next_live_out g p r).1 (
      s,
      rw (← shape.succs) ms,
      ⊎_elim (λ u. inl (rw (← shape.ue) u)) (λ (o, k). inr (grows s r o, rw (← there.kill) k)) src,
    )
