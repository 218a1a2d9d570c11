-- ===== src/Edges/Removal.antt =====
-- The operations that take edges away: they end, and leave the two lists of every edge in step.
use mathlib.Core.Path.{subst}
use native.Mathlib.Nat.{le_refl, le_trans}
use jerryscript_optimizer.Prelude.{
  ℕ, zero, suc, ◌<◌, ◌≤◌, ◌≡◌, refl, ◌∙◌, sym, Bool, true, false, ◌&&◌, some, List, [], ◌∷◌, ◌==◌,
  if◌then◌else◌, arith, length,
}
use jerryscript_optimizer.Prelude.Sets.{mem, mem-cons}
use jerryscript_optimizer.Prelude.Times.{times_nil, mem-times}
use jerryscript_optimizer.Blocks.{BlockHeap}
use jerryscript_optimizer.Edges.{
  remove_predecessor, remove_successor, predecessors_loop, successors_loop, remove_all_predecessors,
  remove_all_successors, remove,
}
use jerryscript_optimizer.Edges.Counts.{
  leaving, entering, bare, HasIds, HasIds-bare, remove_predecessor_hits, remove_predecessor_edges,
  bare-remove_predecessor, remove_successor_lem, length-remove_predecessor,
  length-remove_predecessor-le,
}

-- Every block stands at its id, and every edge is in both lists, as often in the one as in the other.
pub record IsGraph (h : BlockHeap) : Type 0 where
  pub ids : HasIds h
  pub symmetric : (a b : ℕ) → leaving h a b ≡ entering h a b

-- The edges that leave or enter the block are gone, as the flags say, and nothing else is changed.
pub record Detached (out inward : Bool) (h : BlockHeap) (this : ℕ) (g : BlockHeap) : Type 0 where
  pub graph : IsGraph g
  pub same : (p : ℕ) → bare (g p) ≡ bare (h p)
  pub no_more : (p : ℕ) → length (g p).successors ≤ length (h p).successors
  pub edges :
      (a b : ℕ)
      → leaving g a b
        ≡ (if (out && a == this) then 0 else if (inward && b == this) then 0 else leaving h a b)

-- An edge in one list, seen from the other.
mem_back :
    (h : BlockHeap) (a b : ℕ)
    → IsGraph h
    → mem b (h a).successors ≡ true
    → mem a (h b).predecessors ≡ true
mem_back h a b g m =
    ground (arith, g.symmetric a b, mem-times b (h a).successors, mem-times a (h b).predecessors)

mem_forth :
    (h : BlockHeap) (a b : ℕ)
    → IsGraph h
    → mem a (h b).predecessors ≡ true
    → mem b (h a).successors ≡ true
mem_forth h a b g m =
    ground (arith, g.symmetric a b, mem-times b (h a).successors, mem-times a (h b).predecessors)

first_mem : (x : ℕ) (xs ys : List ℕ) → xs ≡ x ∷ ys → mem x xs ≡ true
first_mem x xs ys e = rw e (ground (arith, mem-cons x x ys))

-- One round of the loop over the successors.
module _ (h : BlockHeap) (g : IsGraph h) (this succ : ℕ)
    (m : mem succ (h this).successors ≡ true) where
  abbrev h' : BlockHeap
  h' = (remove_predecessor h succ (h this).id).0

  found : mem (h this).id (h succ).predecessors ≡ true
  found = rw (g.ids this) (mem_back h this succ g m)

  round_hits : (remove_predecessor h succ (h this).id).1 ≡ true
  round_hits = remove_predecessor_hits h g.ids succ (h this).id ∙ found

  round_edges :
      (a b : ℕ)
      → (leaving h' a b ≡ (if a == this && b == succ then 0 else leaving h a b))
        × (entering h' a b ≡ (if a == this && b == succ then 0 else entering h a b))
  round_edges a b =
      ground (arith, remove_predecessor_edges h g.ids succ (h this).id a b, g.ids this, found)

  round-IsGraph : IsGraph h'
  round-IsGraph = record {
    ids = HasIds-bare h h' g.ids (bare-remove_predecessor h g.ids succ (h this).id);
    symmetric = λ a b. ground (arith, round_edges a b, g.symmetric a b);
  }

  round_shorter : length (h' this).successors < length (h this).successors
  round_shorter =
      subst
        (λ k. length ((remove_predecessor h succ k).0 this).successors < length (h this).successors)
        (sym (g.ids this))
        (length-remove_predecessor h g.ids succ this (mem_back h this succ g m) m)

no_successors :
    (h : BlockHeap) (this : ℕ) → (h this).successors ≡ [] → (b : ℕ) → leaving h this b ≡ 0
no_successors h this e b = rw e (times_nil b)

-- Taking one block's edges away and then the rest is taking all away.
Detached-then :
    (out inward : Bool) (h h1 g : BlockHeap) (this : ℕ)
    → ((p : ℕ) → bare (h1 p) ≡ bare (h p))
    → ((p : ℕ) → length (h1 p).successors ≤ length (h p).successors)
    → ((a b : ℕ)
        → (if (out && a == this) then 0 else if (inward && b == this) then 0 else leaving h1 a b)
          ≡ (if (out && a == this) then 0 else if (inward && b == this) then 0 else leaving h a b))
    → Detached out inward h1 this g
    → Detached out inward h this g
Detached-then out inward h h1 g this same no_more edges d = record {
  graph = d.graph;
  same = λ p. d.same p ∙ same p;
  no_more = λ p. le_trans (d.no_more p) (no_more p);
  edges = λ a b. d.edges a b ∙ edges a b;
}

successors_loop_ends :
    (fuel : ℕ) (h : BlockHeap) (this : ℕ)
    → IsGraph h
    → length (h this).successors < fuel
    → (rest : List ℕ) → (h this).successors ≡ rest
    → (g : BlockHeap) × (successors_loop fuel h this rest ≡ some g) × Detached true false h this g
unfolding successors_loop
successors_loop_ends zero h this gr lt rest e = absurd (omega arith)
successors_loop_ends (suc fuel) h this gr lt [] e = (
  h,
  refl,
  record {
    graph = gr;
    same = λ p. refl;
    no_more = λ p. le_refl _;
    edges = λ a b. ground (arith, no_successors h this e b);
  },
)
successors_loop_ends (suc fuel) h this gr lt (succ ∷ rest) e =
    let m = first_mem succ (h this).successors rest e in
    let h1 = (remove_predecessor h succ (h this).id).0 in
    let shorter = round_shorter h gr this succ m in
    let (g, run, d) =
      successors_loop_ends fuel h1 this (round-IsGraph h gr this succ m) (omega arith)
        (h1 this).successors refl in
    (
      g,
      rw (round_hits h gr this succ m, successors_loop) run,
      Detached-then true false h h1 g this (bare-remove_predecessor h gr.ids succ (h this).id)
          (length-remove_predecessor-le h gr.ids succ (h this).id)
          (λ a b. ground (arith, round_edges h gr this succ m a b)) d,
    )

-- `removeAllSuccessors` ends, with one round for each successor and one more, and leaves the memory
-- as it was but for the edges that leave the block, which are gone.
pub remove_all_successors_ends :
    (fuel : ℕ) (h : BlockHeap) (this : ℕ)
    → IsGraph h
    → length (h this).successors < fuel
    → (g : BlockHeap) × (remove_all_successors fuel h this ≡ some g) × Detached true false h this g
unfolding remove_all_successors
remove_all_successors_ends fuel h this gr lt =
    successors_loop_ends fuel h this gr lt (h this).successors refl

no_predecessors :
    (h : BlockHeap) (this : ℕ) → (h this).predecessors ≡ [] → (a : ℕ) → entering h a this ≡ 0
no_predecessors h this e a = rw e (times_nil a)

-- `removeSuccessor` on a predecessor deletes the edge.
removed_from :
    (h : BlockHeap) (this pred : ℕ)
    → IsGraph h
    → mem pred (h this).predecessors ≡ true
    → (g : BlockHeap) × (remove_successor h pred (h this).id ≡ some (g, true))
      × IsGraph g
      × ((p : ℕ) → bare (g p) ≡ bare (h p))
      × ((p : ℕ) → length (g p).successors ≤ length (h p).successors)
      × (length (g this).predecessors < length (h this).predecessors)
      × ((a b : ℕ) → leaving g a b ≡ (if a == pred && b == this then 0 else leaving h a b))
removed_from h this pred gr m =
    let back = mem_forth h pred this gr m in
    let (g, run, same, no_more, shorter, edges) = remove_successor_lem h gr.ids pred this back in
    (
      g,
      rw (gr.ids this) run,
      record {
        ids = HasIds-bare h g gr.ids same;
        symmetric = λ a b. ground (arith, edges a b, gr.symmetric a b);
      },
      same,
      no_more,
      shorter m,
      λ a b. (edges a b).0,
    )

predecessors_loop_ends :
    (fuel : ℕ) (h : BlockHeap) (this : ℕ)
    → IsGraph h
    → length (h this).predecessors < fuel
    → (rest : List ℕ) → (h this).predecessors ≡ rest
    → (g : BlockHeap) × (predecessors_loop fuel h this rest ≡ some g) × Detached false true h this g
unfolding predecessors_loop
predecessors_loop_ends zero h this gr lt rest e = absurd (omega arith)
predecessors_loop_ends (suc fuel) h this gr lt [] e = (
  h,
  refl,
  record {
    graph = gr;
    same = λ p. refl;
    no_more = λ p. le_refl _;
    edges = λ a b. ground (arith, no_predecessors h this e a, gr.symmetric a b);
  },
)
predecessors_loop_ends (suc fuel) h this gr lt (pred ∷ rest) e =
    let m = first_mem pred (h this).predecessors rest e in
    let (h1, removed, gr1, same, no_more, shorter, edges) = removed_from h this pred gr m in
    let (g, run, d) =
      predecessors_loop_ends fuel h1 this gr1 (omega arith) (h1 this).predecessors refl in
    (
      g,
      rw (removed, predecessors_loop) run,
      Detached-then false true h h1 g this same no_more (λ a b. ground (arith, edges a b)) d,
    )

pub remove_all_predecessors_ends :
    (fuel : ℕ) (h : BlockHeap) (this : ℕ)
    → IsGraph h
    → length (h this).predecessors < fuel
    → (g : BlockHeap) × (remove_all_predecessors fuel h this ≡ some g)
      × Detached false true h this g
unfolding remove_all_predecessors
remove_all_predecessors_ends fuel h this gr lt =
    predecessors_loop_ends fuel h this gr lt (h this).predecessors refl

-- `remove` ends, with one round for each edge of the block and one more: no edge leaves the block or
-- enters it any more, every other edge is there as often as before, in both lists, and apart from
-- edges no block has changed.
pub remove_ends :
    (fuel : ℕ) (h : BlockHeap) (this : ℕ)
    → IsGraph h
    → length (h this).predecessors < fuel
    → length (h this).successors < fuel
    → (g : BlockHeap) × (remove fuel h this ≡ some g) × Detached true true h this g
unfolding remove
remove_ends fuel h this gr lp ls =
    let (h1, run1, d1) = remove_all_predecessors_ends fuel h this gr lp in
    let few = d1.no_more this in
    let (g, run2, d2) = remove_all_successors_ends fuel h1 this d1.graph (omega arith) in
    (
      g,
      rw (run1, remove) run2,
      record {
        graph = d2.graph;
        same = λ p. d2.same p ∙ d1.same p;
        no_more = λ p. le_trans (d2.no_more p) (d1.no_more p);
        edges = λ a b. ground (arith, d2.edges a b, d1.edges a b);
      },
    )
