-- ===== src/Liveness/Rounds.antt =====
-- One round of `computeLiveOuts`: its invariant, and what an unchanged round says.
use jerryscript_optimizer.Prelude.{
  ℕ, ◌≡◌, refl, sym, ◌∙◌, true, false, List, ◌==◌, ==_iff, arith, Bool-cases, inl, inr, ⊎_elim,
}
use jerryscript_optimizer.Prelude.Sets.{mem, IsNodup}
use jerryscript_optimizer.Blocks.{BlockHeap}
use jerryscript_optimizer.Liveness.{next_live_out, compute_live_out}
use jerryscript_optimizer.Liveness.Equation.{
  mem-next_live_out, next_live_out-IsNodup, SameShape, Grows, next_live_out_mono,
}

-- The registers that the analysis has to find, as derivations: a block with a successor exposes
-- its own registers at its end, and what is live at the end of a successor that does not write it
-- is live at the end of the block.
pub data LiveOut (h : BlockHeap) (r : ℕ) : ℕ → Type 0 where
  own : {p : ℕ} (s : ℕ) → mem s (h p).successors ≡ true → mem r (h p).ue ≡ true → LiveOut h r p
  flow :
      {p : ℕ} (s : ℕ)
      → mem s (h p).successors ≡ true
      → mem r (h s).kill ≡ false
      → LiveOut h r s
      → LiveOut h r p

pub SameShape-refl : (h : BlockHeap) (p : ℕ) → SameShape h h p
SameShape-refl h p = record {
  id = λ i. (h p).id;
  invalid = λ i. (h p).invalid;
  found = λ i. (h p).found;
  insts = λ i. (h p).insts;
  predecessors = λ i. (h p).predecessors;
  idom = λ i. (h p).idom;
  dominators = λ i. (h p).dominators;
  succs = λ i. (h p).successors;
  ue = λ i. (h p).ue;
  kill = λ i. (h p).kill;
}

pub compute_live_out-SameShape : (h : BlockHeap) (b p : ℕ) → SameShape h (compute_live_out h b) p
unfolding compute_live_out
compute_live_out-SameShape h b p = ground arith

pub compute_live_out_self :
    (h : BlockHeap) (b : ℕ) → (compute_live_out h b b).live_out ≡ next_live_out h b
unfolding compute_live_out
compute_live_out_self h b = let e : (b == b) ≡ true = (==_iff b b).1 refl in rw e

pub compute_live_out_ne :
    (h : BlockHeap) (b p : ℕ)
    → (p == b) ≡ false
    → (compute_live_out h b p).live_out ≡ (h p).live_out
unfolding compute_live_out
compute_live_out_ne h b p e = rw e

pub SameShape-trans :
    (h g k : BlockHeap) (p : ℕ) → SameShape h g p → SameShape g k p → SameShape h k p
SameShape-trans h g k p a b = record {
  id = a.id ∙ b.id;
  invalid = a.invalid ∙ b.invalid;
  found = a.found ∙ b.found;
  insts = a.insts ∙ b.insts;
  predecessors = a.predecessors ∙ b.predecessors;
  idom = a.idom ∙ b.idom;
  dominators = a.dominators ∙ b.dominators;
  succs = a.succs ∙ b.succs;
  ue = a.ue ∙ b.ue;
  kill = a.kill ∙ b.kill;
}

pub SameShape-sym : (h g : BlockHeap) (p : ℕ) → SameShape h g p → SameShape g h p
SameShape-sym h g p a = record {
  id = sym a.id;
  invalid = sym a.invalid;
  found = sym a.found;
  insts = sym a.insts;
  predecessors = sym a.predecessors;
  idom = sym a.idom;
  dominators = sym a.dominators;
  succs = sym a.succs;
  ue = sym a.ue;
  kill = sym a.kill;
}

-- A property of both the updated block's set and every other block's old set.
module _ {κ} (P : ℕ → List ℕ → Type κ) (h : BlockHeap) (b : ℕ) where
  pub after_compute :
      P b (next_live_out h b)
      → ((p : ℕ) → P p (h p).live_out)
      → (p : ℕ) → P p (compute_live_out h b p).live_out
  after_compute new old p = elim (Bool-cases (p == b)) [
    | inl e ↦ let q : p ≡ b = ground arith in rw (q, compute_live_out_self h b) new
    | inr e ↦ rw (compute_live_out_ne h b p e) (old p)
  ]

-- The invariant of the iteration, from the memory `h0` on. `all` holds every exposed register.
pub record Inv (h0 : BlockHeap) (all : List ℕ) (h : BlockHeap) : Type 0 where
  pub shape : (p : ℕ) → SameShape h0 h p
  pub nodup : (p : ℕ) → IsNodup (h p).live_out
  pub grows : (p r : ℕ) → mem r (h p).live_out ≡ true → mem r (next_live_out h p) ≡ true
  pub sound : (p r : ℕ) → mem r (h p).live_out ≡ true → LiveOut h0 r p
  pub bounded : (p r : ℕ) → mem r (h p).live_out ≡ true → mem r all ≡ true

module _ (h0 : BlockHeap) (all : List ℕ) (h : BlockHeap) (inv : Inv h0 all h) (b : ℕ) where
  pub compute-Grows : Grows h (compute_live_out h b)
  compute-Grows p r =
      after_compute (λ q out. mem r (h q).live_out ≡ true → mem r out ≡ true) h b (inv.grows b r)
        (λ q m. m) p

  next_is_live : (r : ℕ) → mem r (next_live_out h b) ≡ true → LiveOut h0 r b
  next_is_live r m =
      let (s, ms, src) = (mem-next_live_out h b r).0 m in
      let here = inv.shape b in
      let there = inv.shape s in
      ⊎_elim (λ u. own s (rw here.succs ms) (rw here.ue u))
        (λ (o, k). flow s (rw here.succs ms) (rw there.kill k) (inv.sound s r o)) src

  next_is_bounded :
      ((r : ℕ) → mem r (h0 b).ue ≡ true → mem r all ≡ true)
      → (r : ℕ) → mem r (next_live_out h b) ≡ true
      → mem r all ≡ true
  next_is_bounded exposed r m =
      let (s, ms, src) = (mem-next_live_out h b r).0 m in
      let here = inv.shape b in
      ⊎_elim (λ u. exposed r (rw here.ue u)) (λ (o, k). inv.bounded s r o) src

  pub compute-Inv :
      ((r : ℕ) → mem r (h0 b).ue ≡ true → mem r all ≡ true) → Inv h0 all (compute_live_out h b)
  compute-Inv exposed =
      let same = compute_live_out-SameShape h b in
      let up = next_live_out_mono h (compute_live_out h b) same compute-Grows in
      record {
        shape = λ p. SameShape-trans h0 h _ p (inv.shape p) (same p);
        nodup = after_compute (λ q out. IsNodup out) h b (next_live_out-IsNodup h b) inv.nodup;
        grows = λ p r.
            after_compute
              (λ q out. mem r out ≡ true → mem r (next_live_out (compute_live_out h b) q) ≡ true) h
              b (up b r) (λ q m. up q r (inv.grows q r m)) p;
        sound = λ p r.
            after_compute (λ q out. mem r out ≡ true → LiveOut h0 r q) h b (next_is_live r)
              (λ q. inv.sound q r) p;
        bounded = λ p r.
            after_compute (λ q out. mem r out ≡ true → mem r all ≡ true) h b
              (next_is_bounded exposed r) (λ q. inv.bounded q r) p;
      }
