-- ===== src/Edges/Bridge.antt =====
-- Adding edges keeps the two lists in step; and what becomes of the edges of an empty block that is
-- removed.
use jerryscript_optimizer.Prelude.{
  ℕ, ◌+◌, ◌*◌, ◌<◌, ◌≡◌, refl, ◌∙◌, false, ◌&&◌, some, List, [], ◌∷◌, ◌==◌, if◌then◌else◌, arith,
  length, Bool-cases, inl, inr,
}
use jerryscript_optimizer.Prelude.Sets.{mem, mem-cons}
use jerryscript_optimizer.Prelude.Times.{times, times_nil, times-cons}
use jerryscript_optimizer.Blocks.{BlockHeap}
use jerryscript_optimizer.Edges.{add_predecessor, add_successor, bridge, bridge_all, remove_empty}
use jerryscript_optimizer.Edges.Counts.{
  leaving, bare, HasIds-bare, add_successor_edges, add_predecessor_edges, bare-add_successor,
  bare-add_predecessor,
}
use jerryscript_optimizer.Edges.Removal.{IsGraph, remove_ends}

-- `addSuccessor` and `addPredecessor` add one edge, in both lists.
pub add_successor-IsGraph :
    (h : BlockHeap) (this bb : ℕ) → IsGraph h → IsGraph (add_successor h this bb)
add_successor-IsGraph h this bb g = record {
  ids = HasIds-bare h (add_successor h this bb) g.ids (bare-add_successor h this bb);
  symmetric = λ a b. ground (arith, add_successor_edges h this bb a b, g.symmetric a b);
}

pub add_predecessor-IsGraph :
    (h : BlockHeap) (this bb : ℕ) → IsGraph h → IsGraph (add_predecessor h this bb)
add_predecessor-IsGraph h this bb g = record {
  ids = HasIds-bare h (add_predecessor h this bb) g.ids (bare-add_predecessor h this bb);
  symmetric = λ a b. ground (arith, add_predecessor_edges h this bb a b, g.symmetric a b);
}

-- A block that an edge does not touch is the same.
untouched :
    (h : BlockHeap) (this bb p : ℕ)
    → (p == this) ≡ false
    → (p == bb) ≡ false
    → (add_successor h this bb p ≡ h p) × (add_predecessor h bb this p ≡ h p)
unfolding add_successor add_predecessor
untouched h this bb p e1 e2 = (rw (e1, e2) refl, rw (e1, e2) refl)

abbrev both_ways : BlockHeap → ℕ → ℕ → BlockHeap
both_ways h pred succ = add_predecessor (add_successor h pred succ) succ pred

-- What bridging keeps and adds.
pub record Bridged (h : BlockHeap) (this : ℕ) (extra : ℕ → ℕ → ℕ) (g : BlockHeap) : Type 0 where
  pub graph : IsGraph g
  pub same : (p : ℕ) → bare (g p) ≡ bare (h p)
  pub here : g this ≡ h this
  pub edges : (a b : ℕ) → leaving g a b ≡ leaving h a b + extra a b

Bridged-trans :
    (h h1 g : BlockHeap) (this : ℕ) (x y z : ℕ → ℕ → ℕ)
    → Bridged h this x h1
    → Bridged h1 this y g
    → ((a b : ℕ) → x a b + y a b ≡ z a b)
    → Bridged h this z g
Bridged-trans h h1 g this x y z p q sum = record {
  graph = q.graph;
  same = λ r. q.same r ∙ p.same r;
  here = q.here ∙ p.here;
  edges = λ a b. omega (arith, p.edges a b, q.edges a b, sum a b);
}

both_ways-Bridged :
    (h : BlockHeap) (this pred succ : ℕ)
    → IsGraph h
    → (this == pred) ≡ false
    → (this == succ) ≡ false
    → Bridged h this (λ a b. if a == pred && b == succ then 2 else 0) (both_ways h pred succ)
both_ways-Bridged h this pred succ gr e1 e2 =
    let h1 = add_successor h pred succ in
    record {
      graph = add_predecessor-IsGraph h1 succ pred (add_successor-IsGraph h pred succ gr);
      same = λ p. bare-add_predecessor h1 succ pred p ∙ bare-add_successor h pred succ p;
      here = (untouched h1 pred succ this e1 e2).1 ∙ (untouched h pred succ this e1 e2).0;
      edges = λ a b.
          ground
            (arith, add_successor_edges h pred succ a b, add_predecessor_edges h1 succ pred a b);
    }

pub bridge-Bridged :
    (h : BlockHeap) (this pred : ℕ) (succs : List ℕ)
    → IsGraph h
    → (this == pred) ≡ false
    → mem this succs ≡ false
    → Bridged h this (λ a b. if a == pred then 2 * times b succs else 0) (bridge h pred succs)
unfolding bridge
bridge-Bridged h this pred [] gr e m = record {
  graph = gr;
  same = λ p. refl;
  here = refl;
  edges = λ a b. ground (arith, times_nil b);
}
bridge-Bridged h this pred (succ ∷ succs) gr e m =
    let split = mem-cons this succ succs in
    let one = both_ways-Bridged h this pred succ gr e (ground arith) in
    let rest = bridge-Bridged (both_ways h pred succ) this pred succs one.graph e (ground arith) in
    Bridged-trans h (both_ways h pred succ) (bridge (both_ways h pred succ) pred succs) this _ _ _
      one rest (λ a b. ground (arith, times-cons b succ succs))

bridge_all-Bridged :
    (h : BlockHeap) (this : ℕ) (preds succs : List ℕ)
    → IsGraph h
    → mem this preds ≡ false
    → mem this succs ≡ false
    → Bridged h this (λ a b. 2 * (times a preds * times b succs)) (bridge_all h preds succs)
unfolding bridge_all
bridge_all-Bridged h this [] succs gr mp ms = record {
  graph = gr;
  same = λ p. refl;
  here = refl;
  edges = λ a b. rw (times_nil a) (omega arith);
}
bridge_all-Bridged h this (pred ∷ preds) succs gr mp ms =
    let split = mem-cons this pred preds in
    let one = bridge-Bridged h this pred succs gr (ground arith) ms in
    let rest =
      bridge_all-Bridged (bridge h pred succs) this preds succs one.graph (ground arith) ms in
    Bridged-trans h (bridge h pred succs) (bridge_all (bridge h pred succs) preds succs) this _ _ _
      one rest (λ a b. product a b)
  where
    product :
        (a b : ℕ)
        → (if a == pred then 2 * times b succs else 0) + 2 * (times a preds * times b succs)
          ≡ 2 * (times a (pred ∷ preds) * times b succs)
    product a b = elim (Bool-cases (a == pred)) [
      | inl e ↦ rw (times-cons a pred preds, e) (grind arith)
      | inr e ↦ rw (times-cons a pred preds, e) (grind arith)
    ]

-- `removeEmpty` on a block without instructions that is not its own neighbour ends, and takes the
-- block out of the graph. For each pair of an edge into the block and an edge out of it, the graph
-- gets two edges from the one's start to the other's end, not one; all else is as before.
pub remove_empty_doubles :
    (fuel : ℕ) (h : BlockHeap) (this : ℕ)
    → IsGraph h
    → (h this).insts ≡ []
    → mem this (h this).predecessors ≡ false
    → mem this (h this).successors ≡ false
    → length (h this).predecessors < fuel
    → length (h this).successors < fuel
    → (g : BlockHeap) × (remove_empty fuel h this ≡ some g)
      × IsGraph g
      × ((p : ℕ) → bare (g p) ≡ bare (h p))
      × ((a b : ℕ)
          → leaving g a b ≡ (
              if a == this
              then 0
              else if b == this
              then 0
              else leaving h a b + 2 * (leaving h a this * leaving h this b)))
unfolding remove_empty
remove_empty_doubles fuel h this gr empty mp ms lp ls =
    let h1 = bridge_all h (h this).predecessors (h this).successors in
    let b = bridge_all-Bridged h this (h this).predecessors (h this).successors gr mp ms in
    let (g, run, d) = remove_ends fuel h1 this b.graph (rw b.here lp) (rw b.here ls) in
    (
      g,
      rw (empty, remove_empty) run,
      d.graph,
      λ p. d.same p ∙ b.same p,
      λ x y. ground (arith, d.edges x y, b.edges x y, gr.symmetric x this),
    )
