-- ===== src/Cfg/Fill.antt =====
-- `buildBlocks` puts every instruction into one block, in the order of the code.
use mathlib.Core.List.{append_assoc, append-nil}
use native.Mathlib.Nat.{le_trans}
use jerryscript_optimizer.Prelude.{
  ℕ, suc, ◌≤◌, ◌≡◌, refl, ◌∙◌, sym, ap, Bool, true, false, ◌||◌, List, [], ◌∷◌, ◌++◌, ◌==◌,
  if◌then◌else◌, arith, Bool-cases, inl, inr, All,
}
use jerryscript_optimizer.Prelude.Sets.{mem, mem-cons, mem-append, IsNodup}
use jerryscript_optimizer.Blocks.{BlockHeap, update}
use jerryscript_optimizer.Edges.Removal.{IsGraph}
use jerryscript_optimizer.Cfg.{
  Graph, new_bb, add_ins, place, home, leads, behind, ends_flow, fill_blocks,
}
use jerryscript_optimizer.Cfg.Shape.{gather, gather_same, IsBuilt, Placed, core, new_bb-IsBuilt}

-- From one graph to a later one, whose last block is `bb'`, with these instructions put in between.
pub record Filled (g : Graph) (is : List ℕ) (g' : Graph) (bb' : ℕ) : Type 0 where
  pub built : IsBuilt g'
  pub last : g'.bb_id ≡ suc bb'
  pub grows : g.bb_id ≤ g'.bb_id
  pub gathers : gather g'.blocks g'.bb_id ≡ gather g.blocks g.bb_id ++ is
  pub cores : (i : ℕ) → core (g'.insns i) ≡ core (g.insns i)
  pub stay : (j : ℕ) → mem j is ≡ false → Placed g j → Placed g' j
  pub placed : All (Placed g') is

pub Filled-trans :
    (g g1 g2 : Graph) (b1 b2 : ℕ) (is js : List ℕ)
    → All (λ i. mem i js ≡ false) is
    → Filled g is g1 b1
    → Filled g1 js g2 b2
    → Filled g (is ++ js) g2 b2
Filled-trans g g1 g2 b1 b2 is js apart p q = record {
  built = q.built;
  last = q.last;
  grows = le_trans p.grows q.grows;
  gathers = q.gathers ∙ ap (λ l. l ++ js) p.gathers ∙ append_assoc _ is js;
  cores = λ i. q.cores i ∙ p.cores i;
  stay = λ j m at.
      q.stay j (ground (arith, mem-append j is js))
        (p.stay j (ground (arith, mem-append j is js)) at);
  placed = both is apart p.placed;
}
  where
    both :
        (l : List ℕ) → All (λ i. mem i js ≡ false) l → All (Placed g1) l → All (Placed g2) (l ++ js)
    both [] a h = q.placed
    both (i ∷ l) a h = (q.stay i a.0 h.0, both l a.1 h.1)

pub new_bb-Filled : (inv : Bool) (g : Graph) → IsBuilt g → Filled g [] (new_bb inv g) g.bb_id
unfolding gather new_bb
new_bb-Filled inv g built = record {
  built = new_bb-IsBuilt inv g built;
  last = refl;
  grows = omega arith;
  gathers =
      let at : (g.bb_id == g.bb_id) ≡ true = ground arith in
      cc (gather_same (new_bb inv g).blocks g.blocks g.bb_id (λ p lt. ground arith), at);
  cores = λ i. refl;
  stay = λ j m at. ground (arith, at.0, at.1);
  placed = tt;
}

pub place_blocks :
    (g : Graph) (bb : ℕ) (found : Bool) (i : ℕ)
    → ((place g bb found i).blocks
        ≡ update g.blocks bb (record (g.blocks bb) { insts = (g.blocks bb).insts ++ (i ∷ []) }))
      × ((place g bb found i).bbs ≡ g.bbs)
      × ((place g bb found i).bb_id ≡ g.bb_id)
unfolding place add_ins
place_blocks g bb true i = (refl, refl, refl)
place_blocks g bb false i = (refl, refl, refl)

place_insns :
    (g : Graph) (bb : ℕ) (found : Bool) (i j : ℕ)
    → (core ((place g bb found i).insns j) ≡ core (g.insns j))
      × (home (place g bb found i) j ≡ (if j == i then bb else home g j))
unfolding place add_ins
place_insns g bb true i j = ground arith
place_insns g bb false i j = ground arith

module _ (g : Graph) (bb : ℕ) (found : Bool) (i : ℕ) (built : IsBuilt g)
    (top : g.bb_id ≡ suc bb) where
  abbrev put : BlockHeap
  put = update g.blocks bb (record (g.blocks bb) { insts = (g.blocks bb).insts ++ (i ∷ []) })

  put-IsGraph : IsGraph put
  put-IsGraph = record {
    ids = λ p. ground (arith, built.graph.ids p);
    symmetric = λ a b. ground (arith, built.graph.symmetric a b);
  }

  place-IsBuilt : IsBuilt (place g bb found i)
  place-IsBuilt =
      let (blocks, bbs, bb_id) = place_blocks g bb found i in
      record {
        graph = rw blocks put-IsGraph;
        listed = rw (bbs, bb_id) built.listed;
        above = λ p le.
            let clear = built.above p (rw bb_id at le) in
            rw blocks (ground (arith, rw bb_id at le, top));
        fresh = λ p. rw blocks (ground (arith, built.fresh p));
      }

  gather-put : gather put (suc bb) ≡ gather g.blocks (suc bb) ++ (i ∷ [])
  unfolding gather
  gather-put =
      let at : (bb == bb) ≡ true = ground arith in
      let low = gather_same put g.blocks bb (λ p lt. ground arith) in
      rw (at, low) (sym (append_assoc (gather g.blocks bb) (g.blocks bb).insts (i ∷ [])))

  pub place-Filled : Filled g (i ∷ []) (place g bb found i) bb
  place-Filled =
      let (blocks, bbs, bb_id) = place_blocks g bb found i in
      record {
        built = place-IsBuilt;
        last = bb_id ∙ top;
        grows = omega (arith, bb_id);
        gathers = rw (blocks, bb_id, top) gather-put;
        cores = λ j. (place_insns g bb found i j).0;
        stay = λ j m at.
            let same = (place_insns g bb found i j).1 in
            rw (blocks, bb_id)
              (ground (
                arith,
                same,
                mem-cons j i [],
                mem-append j (g.blocks bb).insts (i ∷ []),
                at.0,
                at.1,
              ));
        placed = (
          (let same = (place_insns g bb found i i).1 in
              rw (blocks, bb_id)
                (ground (arith, same, mem-cons i i [], mem-append i (g.blocks bb).insts (i ∷ [])))),
          tt,
        );
      }

none_twice : (i : ℕ) (g : Graph) (bb : ℕ) → IsBuilt g → g.bb_id ≡ suc bb → Filled g [] g bb
none_twice i g bb built top = record {
  built = built;
  last = top;
  grows = omega arith;
  gathers = sym (append-nil _);
  cores = λ i. refl;
  stay = λ j m at. at;
  placed = tt;
}

-- The loop of `buildBlocks`, from any of its states.
pub fill_blocks-Filled :
    (g : Graph) (bb : ℕ) (leaders : List ℕ) (found : Bool) (is : List ℕ)
    → IsBuilt g
    → g.bb_id ≡ suc bb
    → IsNodup is
    → let result = fill_blocks g bb leaders found is in Filled g is result.0 result.1
unfolding fill_blocks
fill_blocks-Filled g bb leaders found [] built top nd = none_twice 0 g bb built top
fill_blocks-Filled g bb leaders found (i ∷ rest) built top nd =
    elim (Bool-cases (leads leaders i)) [
      | inl e ↦
          let g1 = new_bb false g in
          let g2 = place g1 g.bb_id false i in
          let one = new_bb-Filled false g built in
          let two = place-Filled g1 g.bb_id false i one.built one.last in
          let three =
            fill_blocks-Filled g2 g.bb_id (behind leaders) (false || ends_flow (g.insns i)) rest
              two.built two.last nd.1 in
          rw (e, fill_blocks)
            (Filled-trans g g1 _ g.bb_id _ [] (i ∷ rest) tt one
              (Filled-trans g1 g2 _ g.bb_id _ (i ∷ []) rest (nd.0, tt) two three))
      | inr e ↦
          let g2 = place g bb found i in
          let two = place-Filled g bb found i built top in
          let three =
            fill_blocks-Filled g2 bb leaders (found || ends_flow (g.insns i)) rest two.built
              two.last nd.1 in
          rw (e, fill_blocks) (Filled-trans g g2 _ bb _ (i ∷ []) rest (nd.0, tt) two three)
    ]
