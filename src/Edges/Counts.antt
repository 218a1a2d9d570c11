-- ===== src/Edges/Counts.antt =====
-- What each operation does to the number of edges between two blocks.
use jerryscript_optimizer.Prelude.{
  ℕ, ◌+◌, ◌≡◌, refl, Bool, true, ◌&&◌, none, some, List, [], ◌∷◌, ◌==◌, if◌then◌else◌, arith, ap,
  sym, ◌∙◌, ◌<◌, ◌≤◌, length, Bool-cases, Option-cases, inl, inr,
}
use jerryscript_optimizer.Prelude.Sets.{mem}
use jerryscript_optimizer.Prelude.Times.{
  times, times_nil, times-cons, times-append, times-keep, length-keep-lt, length-keep-le,
}
use jerryscript_optimizer.Blocks.{BasicBlock, BlockHeap}
use jerryscript_optimizer.Edges.{
  add_predecessor, add_successor, drop_predecessors, drop_successors, other_than, last_hit,
  remove_predecessor, remove_successor,
}

-- Edges from one block to another, in the list of the first and in that of the second.
abbrev pub leaving : BlockHeap → ℕ → ℕ → ℕ
leaving h a b = times b (h a).successors

abbrev pub entering : BlockHeap → ℕ → ℕ → ℕ
entering h a b = times a (h b).predecessors

-- A block without its edges.
abbrev pub bare : BasicBlock → BasicBlock
bare b = record b { predecessors = []; successors = [] }

-- Each block is the one that its id names.
abbrev pub HasIds : BlockHeap → Type 0
HasIds h = (p : ℕ) → (h p).id ≡ p

abbrev pub one_if : Bool → ℕ
one_if b = if b then 1 else 0

pub add_successor_edges :
    (h : BlockHeap) (this bb a b : ℕ)
    → (leaving (add_successor h this bb) a b ≡ leaving h a b + one_if (a == this && b == bb))
      × (entering (add_successor h this bb) a b ≡ entering h a b + one_if (a == this && b == bb))
unfolding add_successor
add_successor_edges h this bb a b = ground (
  arith,
  times-append b (h this).successors (bb ∷ []),
  times-append a (h bb).predecessors (this ∷ []),
  times-cons b bb [],
  times-cons a this [],
  times_nil a,
  times_nil b,
)

pub add_predecessor_edges :
    (h : BlockHeap) (this bb a b : ℕ)
    → (leaving (add_predecessor h this bb) a b ≡ leaving h a b + one_if (a == bb && b == this))
      × (entering (add_predecessor h this bb) a b ≡ entering h a b + one_if (a == bb && b == this))
unfolding add_predecessor
add_predecessor_edges h this bb a b = ground (
  arith,
  times-append b (h bb).successors (this ∷ []),
  times-append a (h this).predecessors (bb ∷ []),
  times-cons b this [],
  times-cons a bb [],
  times_nil a,
  times_nil b,
)

pub bare-add_successor :
    (h : BlockHeap) (this bb p : ℕ) → bare (add_successor h this bb p) ≡ bare (h p)
unfolding add_successor
bare-add_successor h this bb p = ground arith

pub bare-add_predecessor :
    (h : BlockHeap) (this bb p : ℕ) → bare (add_predecessor h this bb p) ≡ bare (h p)
unfolding add_predecessor
bare-add_predecessor h this bb p = ground arith

pub last_hit_lem :
    (h : BlockHeap) (id : ℕ) (bbs : List ℕ)
    → HasIds h
    → last_hit h id bbs ≡ (if mem id bbs then some id else none)
unfolding last_hit mem
last_hit_lem h id [] ids = refl
last_hit_lem h id (bb ∷ bbs) ids = ground (arith, ids bb, last_hit_lem h id bbs ids)

pub HasIds-bare : (h g : BlockHeap) → HasIds h → ((p : ℕ) → bare (g p) ≡ bare (h p)) → HasIds g
HasIds-bare h g ids same p = ap (λ b. b.id) (same p) ∙ ids p

pub bare-drop_predecessors :
    (h : BlockHeap) (bb id p : ℕ) → bare (drop_predecessors h bb id p) ≡ bare (h p)
unfolding drop_predecessors
bare-drop_predecessors h bb id p = ground arith

pub bare-drop_successors :
    (h : BlockHeap) (bb id p : ℕ) → bare (drop_successors h bb id p) ≡ bare (h p)
unfolding drop_successors
bare-drop_successors h bb id p = ground arith

pub drop_predecessors_edges :
    (h : BlockHeap) (bb id a b : ℕ)
    → HasIds h
    → (entering (drop_predecessors h bb id) a b
        ≡ (if a == id && b == bb then 0 else entering h a b))
      × (leaving (drop_predecessors h bb id) a b ≡ leaving h a b)
unfolding drop_predecessors
drop_predecessors_edges h bb id a b ids =
    ground (arith, ids a, times-keep (other_than h id) a (h bb).predecessors)

pub drop_successors_edges :
    (h : BlockHeap) (bb id a b : ℕ)
    → HasIds h
    → (leaving (drop_successors h bb id) a b ≡ (if a == bb && b == id then 0 else leaving h a b))
      × (entering (drop_successors h bb id) a b ≡ entering h a b)
unfolding drop_successors
drop_successors_edges h bb id a b ids =
    ground (arith, ids b, times-keep (other_than h id) b (h bb).successors)

pub drop_predecessors_successors :
    (h : BlockHeap) (bb id p : ℕ) → (drop_predecessors h bb id p).successors ≡ (h p).successors
unfolding drop_predecessors
drop_predecessors_successors h bb id p = ground arith

pub drop_successors_predecessors :
    (h : BlockHeap) (bb id p : ℕ) → (drop_successors h bb id p).predecessors ≡ (h p).predecessors
unfolding drop_successors
drop_successors_predecessors h bb id p = ground arith

pub length-drop_successors-le :
    (h : BlockHeap) (bb id p : ℕ)
    → length (drop_successors h bb id p).successors ≤ length (h p).successors
unfolding drop_successors
length-drop_successors-le h bb id p =
    ground (arith, length-keep-le (other_than h id) (h bb).successors)

-- A block whose id is dropped makes the list shorter.
length-drop_successors :
    (h : BlockHeap) (bb id s : ℕ) {old : List ℕ}
    → (h s).id ≡ id
    → mem s (h bb).successors ≡ true
    → (h bb).successors ≡ old
    → length (drop_successors h bb id bb).successors < length old
unfolding drop_successors
length-drop_successors h bb id s e m same =
    let self : (bb == bb) ≡ true = ground arith in
    rw (self, ← same) (length-keep-lt (other_than h id) s (h bb).successors (ground arith) m)

length-drop_predecessors :
    (h : BlockHeap) (bb id s : ℕ) {old : List ℕ}
    → (h s).id ≡ id
    → mem s (h bb).predecessors ≡ true
    → (h bb).predecessors ≡ old
    → length (drop_predecessors h bb id bb).predecessors < length old
unfolding drop_predecessors
length-drop_predecessors h bb id s e m same =
    let self : (bb == bb) ≡ true = ground arith in
    rw (self, ← same) (length-keep-lt (other_than h id) s (h bb).predecessors (ground arith) m)

module _ (h : BlockHeap) (ids : HasIds h) (this id : ℕ) where
  -- Whether anything is deleted: the id is that of a predecessor.
  pub remove_predecessor_hits : (remove_predecessor h this id).1 ≡ mem id (h this).predecessors
  unfolding remove_predecessor
  remove_predecessor_hits = ground (arith, last_hit_lem h id (h this).predecessors ids)

  -- Every edge from the block with the id is gone from the predecessors; and from the successors of
  -- that block, if it was found.
  pub remove_predecessor_edges :
      (a b : ℕ)
      → (entering (remove_predecessor h this id).0 a b
          ≡ (if a == id && b == this then 0 else entering h a b))
        × (leaving (remove_predecessor h this id).0 a b
            ≡ (if a == id && b == this && mem id (h this).predecessors then 0 else leaving h a b))
  unfolding remove_predecessor
  remove_predecessor_edges a b =
      let h1 = drop_predecessors h this id in
      let ids1 : HasIds h1 = HasIds-bare h h1 ids (bare-drop_predecessors h this id) in
      let first = drop_predecessors_edges h this id a b ids in
      let second = drop_successors_edges h1 id (h this).id a b ids1 in
      elim (Bool-cases (mem id (h this).predecessors)) [
        | inl e ↦
            let hit : last_hit h id (h this).predecessors ≡ some id =
              last_hit_lem h id (h this).predecessors ids ∙ rw e refl in
            rw (hit, e) (ground (arith, ids this))
        | inr e ↦
            let hit : last_hit h id (h this).predecessors ≡ none =
              last_hit_lem h id (h this).predecessors ids ∙ rw e refl in
            rw (hit, e) (ground arith)
      ]

  pub bare-remove_predecessor : (p : ℕ) → bare ((remove_predecessor h this id).0 p) ≡ bare (h p)
  unfolding remove_predecessor
  bare-remove_predecessor p =
      let h1 = drop_predecessors h this id in
      elim (Option-cases (last_hit h id (h this).predecessors)) [
        | inl e ↦ rw e (bare-drop_predecessors h this id p)
        | inr (q, e) ↦
            rw e (bare-drop_successors h1 q (h this).id p ∙ bare-drop_predecessors h this id p)
      ]

  pub length-remove_predecessor :
      mem id (h this).predecessors ≡ true
      → mem this (h id).successors ≡ true
      → length ((remove_predecessor h this id).0 id).successors < length (h id).successors
  unfolding remove_predecessor
  length-remove_predecessor m back =
      let h1 = drop_predecessors h this id in
      let hit : last_hit h id (h this).predecessors ≡ some id =
        last_hit_lem h id (h this).predecessors ids ∙ rw m refl in
      let ids1 : HasIds h1 = HasIds-bare h h1 ids (bare-drop_predecessors h this id) in
      rw hit (
        length-drop_successors h1 id (h this).id this (ids1 this ∙ sym (ids this))
          (rw (drop_predecessors_successors h this id id) back)
          (drop_predecessors_successors h this id id))

  pub length-remove_predecessor-le :
      (p : ℕ) → length ((remove_predecessor h this id).0 p).successors ≤ length (h p).successors
  unfolding remove_predecessor
  length-remove_predecessor-le p =
      let h1 = drop_predecessors h this id in
      let same = ap length (drop_predecessors_successors h this id p) in
      elim (Option-cases (last_hit h id (h this).predecessors)) [
        | inl e ↦ rw e (omega (arith, same))
        | inr (q, e) ↦ rw e (omega (arith, same, length-drop_successors-le h1 q (h this).id p))
      ]

  -- With a successor of that id, `removeSuccessor` succeeds, and mirrors `removePredecessor`.
  pub remove_successor_lem :
      mem id (h this).successors ≡ true
      → (g : BlockHeap) × (remove_successor h this id ≡ some (g, true))
        × ((p : ℕ) → bare (g p) ≡ bare (h p))
        × ((p : ℕ) → length (g p).successors ≤ length (h p).successors)
        × (mem this (h id).predecessors ≡ true
            → length (g id).predecessors < length (h id).predecessors)
        × ((a b : ℕ)
            → (leaving g a b ≡ (if a == this && b == id then 0 else leaving h a b))
              × (entering g a b ≡ (if a == this && b == id then 0 else entering h a b)))
  unfolding remove_successor
  remove_successor_lem m =
      let h1 = drop_successors h this id in
      let ids1 : HasIds h1 = HasIds-bare h h1 ids (bare-drop_successors h this id) in
      let hit : last_hit h id (h this).successors ≡ some id =
        last_hit_lem h id (h this).successors ids ∙ rw m refl in
      (
        drop_predecessors h1 id (h this).id,
        rw hit refl,
        λ p. bare-drop_predecessors h1 id (h this).id p ∙ bare-drop_successors h this id p,
        λ p.
            let same = ap length (drop_predecessors_successors h1 id (h this).id p) in
            omega (arith, same, length-drop_successors-le h this id p),
        λ back.
            length-drop_predecessors h1 id (h this).id this (ids1 this ∙ sym (ids this))
              (rw (drop_successors_predecessors h this id id) back)
              (drop_successors_predecessors h this id id),
        λ a b.
            let first = drop_successors_edges h this id a b ids in
            let second = drop_predecessors_edges h1 id (h this).id a b ids1 in
            ground (arith, ids this),
      )
