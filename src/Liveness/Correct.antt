-- ===== src/Liveness/Correct.antt =====
-- What `computeLiveOuts` returns, against derivations of liveness.
use jerryscript_optimizer.Prelude.{
  ℕ, ◌*◌, ◌<◌, ◌≡◌, true, false, List, ◌↔◌, inl, inr, length, some, arith, Bool-cases,
}
use jerryscript_optimizer.Prelude.Sets.{mem, mem_nil}
use jerryscript_optimizer.Blocks.{BlockHeap}
use jerryscript_optimizer.Liveness.{next_live_out, compute_live_outs}
use jerryscript_optimizer.Liveness.Equation.{SameShape, mem-next_live_out}
use jerryscript_optimizer.Liveness.Rounds.{SameShape-refl, LiveOut, own, flow, Inv}
use jerryscript_optimizer.Liveness.Measure.{exposed, mem-exposed}
use jerryscript_optimizer.Liveness.Solution.{loop_ends}

-- What the pass starts from: no block has a live-out register yet.
abbrev pub IsFresh : BlockHeap → Type 0
IsFresh h = (p : ℕ) → (h p).live_out ≡ List.[]

-- The successors of a listed block are listed.
abbrev pub IsClosed : BlockHeap → List ℕ → Type 0
IsClosed h bbs = (b s : ℕ) → mem b bbs ≡ true → mem s (h b).successors ≡ true → mem s bbs ≡ true

Inv-start : (h : BlockHeap) (all : List ℕ) → IsFresh h → Inv h all h
Inv-start h all fresh =
    let empty = λ (p r : ℕ) (m : mem r (h p).live_out ≡ true).
      let m' : mem r List.[] ≡ true = rw fresh at m in
      let no_member : ⊥ = cc (mem_nil r, m') in no_member in
    record {
      shape = SameShape-refl h;
      nodup = λ p. rw (fresh p) tt;
      grows = λ p r m. absurd (empty p r m);
      sound = λ p r m. absurd (empty p r m);
      bounded = λ p r m. absurd (empty p r m);
    }

complete :
    (h g : BlockHeap) (bbs all : List ℕ)
    → IsClosed h bbs
    → Inv h all g
    → ((b r : ℕ)
        → mem b bbs ≡ true
        → mem r (next_live_out g b) ≡ true
        → mem r (g b).live_out ≡ true)
    → (r b : ℕ) → mem b bbs ≡ true
    → LiveOut h r b
    → mem r (g b).live_out ≡ true
complete h g bbs all closed inv fixed r b mb (own s ms mr) =
    let shape = inv.shape b in
    fixed b r mb ((mem-next_live_out g b r).1 (s, rw (← shape.succs) ms, inl (rw (← shape.ue) mr)))
complete h g bbs all closed inv fixed r b mb (flow s ms mk live) =
    let shape = inv.shape b in
    let there = inv.shape s in
    let deep = complete h g bbs all closed inv fixed r s (closed b s mb ms) live in
    fixed b r mb
      ((mem-next_live_out g b r).1 (s, rw (← shape.succs) ms, inr (deep, rw (← there.kill) mk)))

-- From a fresh memory whose listed blocks have listed successors, with more fuel than the number
-- of listed blocks times the number of their exposed registers, `computeLiveOuts` returns. It has
-- changed nothing but live-out sets, and a register is in the set of a listed block exactly when a
-- derivation makes it live there.
pub compute_live_outs_correct :
    (h : BlockHeap) (bbs : List ℕ) (fuel : ℕ)
    → IsFresh h
    → IsClosed h bbs
    → length bbs * length (exposed h bbs) < fuel
    → (g : BlockHeap) × (compute_live_outs fuel h bbs ≡ some g)
      × ((p : ℕ) → SameShape h g p)
      × ((b r : ℕ) → mem b bbs ≡ true → (mem r (g b).live_out ≡ true) ↔ LiveOut h r b)
compute_live_outs_correct h bbs fuel fresh closed enough =
    let all = exposed h bbs in
    let start = Inv-start h all fresh in
    let (g, e, inv, fixed) = loop_ends h bbs all (mem-exposed h bbs) fuel h start (omega arith) in
    (g, e, inv.shape, λ b r mb. (inv.sound b r, complete h g bbs all closed inv fixed r b mb))

-- Liveness as the comment in `computeLiveOut` has it: a successor contributes the registers that
-- it exposes itself, and those that are live at its end and that it does not write.
pub data Needed (h : BlockHeap) (r : ℕ) : ℕ → Type 0 where
  read_next : {p : ℕ} (s : ℕ) → mem s (h p).successors ≡ true → mem r (h s).ue ≡ true → Needed h r p
  pass :
      {p : ℕ} (s : ℕ)
      → mem s (h p).successors ≡ true
      → mem r (h s).kill ≡ false
      → Needed h r s
      → Needed h r p

not_live :
    (h : BlockHeap) (r b : ℕ)
    → mem r (h b).ue ≡ false
    → ((s : ℕ) → mem s (h b).successors ≡ true → mem r (h s).kill ≡ true)
    → LiveOut h r b
    → ⊥
not_live h r b unread killed (own s ms mr) = cc
not_live h r b unread killed (flow s ms mk live) = cc (killed s ms)

-- Where every successor of a block writes a register, one of them reads it first, and the block
-- does not expose it, the register is needed at the end of the block, and the returned set of the
-- block lacks it.
pub compute_live_outs_misses :
    (h : BlockHeap) (bbs : List ℕ) (fuel : ℕ)
    → IsFresh h
    → IsClosed h bbs
    → length bbs * length (exposed h bbs) < fuel
    → (b s r : ℕ) → mem b bbs ≡ true
    → mem s (h b).successors ≡ true
    → mem r (h s).ue ≡ true
    → mem r (h b).ue ≡ false
    → ((t : ℕ) → mem t (h b).successors ≡ true → mem r (h t).kill ≡ true)
    → Needed h r b
      × ((g : BlockHeap) × (compute_live_outs fuel h bbs ≡ some g) × (mem r (g b).live_out ≡ false))
compute_live_outs_misses h bbs fuel fresh closed enough b s r mb ms mr unread killed =
    let (g, e, shape, exact) = compute_live_outs_correct h bbs fuel fresh closed enough in
    (
      read_next s ms mr,
      (
        g,
        e,
        elim (Bool-cases (mem r (g b).live_out)) [
          | inl m ↦ absurd (not_live h r b unread killed ((exact b r mb).0 m))
          | inr m ↦ m
        ],
      ),
    )
