-- ===== src/Cfg/Shape.antt =====
-- What the graph looks like while it is built: its blocks are numbered from 0, an edge joins two of
-- them, and every other address holds no block.
use mathlib.Core.Path.{subst}
use jerryscript_optimizer.Prelude.{
  ℕ, zero, suc, ◌<◌, ◌≤◌, ◌≡◌, refl, sym, ap, Bool, true, false, List, [], ◌∷◌, ◌++◌, arith,
}
use jerryscript_optimizer.Prelude.Sets.{mem, mem-cons, mem_nil, mem-append}
use jerryscript_optimizer.Prelude.Times.{times, times_nil}
use jerryscript_optimizer.Inst.{Ins}
use jerryscript_optimizer.Blocks.{BasicBlock, BlockHeap}
use jerryscript_optimizer.Edges.{add_successor}
use jerryscript_optimizer.Edges.Counts.{leaving, entering, bare-add_successor}
use jerryscript_optimizer.Edges.Removal.{IsGraph}
use jerryscript_optimizer.Edges.Bridge.{add_successor-IsGraph}
use jerryscript_optimizer.Cfg.{Graph, new_bb, connect, home}

unfoldable pub below : ℕ → List ℕ
below zero = []
below (suc n) = below n ++ (n ∷ [])

pub mem-below : (p n : ℕ) → mem p (below n) ≡ true → p < n
unfolding below mem
mem-below p zero m = absurd (cc)
mem-below p (suc n) m =
    ground (arith, mem-append p (below n) (n ∷ []), mem-below p n, mem-cons p n [], mem_nil p)

pub below-mem : (p n : ℕ) → p < n → mem p (below n) ≡ true
unfolding below
below-mem p zero lt = absurd (omega arith)
below-mem p (suc n) lt =
    ground (arith, mem-append p (below n) (n ∷ []), below-mem p n, mem-cons p n [])

-- The instructions of the first blocks, in order.
unfoldable pub gather : BlockHeap → ℕ → List ℕ
gather h zero = []
gather h (suc n) = gather h n ++ (h n).insts

pub gather_same :
    (h k : BlockHeap) (n : ℕ)
    → ((p : ℕ) → p < n → (h p).insts ≡ (k p).insts)
    → gather h n ≡ gather k n
unfolding gather
gather_same h k zero same = refl
gather_same h k (suc n) same =
    cc (gather_same h k n (λ p lt. same p (omega arith)), same n (omega arith))

-- An address that holds no block yet.
pub record IsClear (b : BasicBlock) : Type 0 where
  pub no_successors : b.successors ≡ []
  pub no_predecessors : b.predecessors ≡ []
  pub no_insts : b.insts ≡ []

-- A block that liveness has not been computed of.
abbrev pub HasNoSets : BasicBlock → Type 0
HasNoSets b = (b.live_out ≡ []) × (b.ue ≡ []) × (b.kill ≡ [])

pub record IsBuilt (g : Graph) : Type 0 where
  pub graph : IsGraph g.blocks
  pub listed : g.bbs ≡ below g.bb_id
  pub above : (p : ℕ) → g.bb_id ≤ p → IsClear (g.blocks p)
  pub fresh : (p : ℕ) → HasNoSets (g.blocks p)

-- The instruction stands in the block that it names.
abbrev pub Placed : Graph → ℕ → Type 0
Placed g i = (home g i < g.bb_id) × (mem i (g.blocks (home g i)).insts ≡ true)

-- An instruction without its block, and whether it is dead.
abbrev pub core : Ins → Ins
core ins = record ins { bb = 0; flags = record (ins.flags) { dead = false } }

pub connect-IsBuilt :
    (g : Graph) (a b : ℕ) → IsBuilt g → a < g.bb_id → b < g.bb_id → IsBuilt (connect g a b)
unfolding add_successor
connect-IsBuilt g a b built la lb = record {
  graph = add_successor-IsGraph g.blocks a b built.graph;
  listed = built.listed;
  above = λ p le. ground (arith, built.above p le);
  fresh = λ p. subst HasNoSets (sym (bare-add_successor g.blocks a b p)) (built.fresh p);
}

pub insts-connect : (g : Graph) (a b p : ℕ) → ((connect g a b).blocks p).insts ≡ (g.blocks p).insts
insts-connect g a b p = ap (λ (k : BasicBlock). k.insts) (bare-add_successor g.blocks a b p)

pub new_bb-edges :
    (inv : Bool) (g : Graph) (a b : ℕ)
    → IsBuilt g
    → (leaving (new_bb inv g).blocks a b ≡ leaving g.blocks a b)
      × (entering (new_bb inv g).blocks a b ≡ entering g.blocks a b)
unfolding new_bb
new_bb-edges inv g a b built =
    let clear = built.above g.bb_id (omega arith) in
    let out : times b (g.blocks g.bb_id).successors ≡ 0 = rw clear.no_successors (times_nil b) in
    let into : times a (g.blocks g.bb_id).predecessors ≡ 0 =
      rw clear.no_predecessors (times_nil a) in
    ground (arith, times_nil a, times_nil b, out, into)

pub new_bb-IsBuilt : (inv : Bool) (g : Graph) → IsBuilt g → IsBuilt (new_bb inv g)
unfolding new_bb below
new_bb-IsBuilt inv g built = record {
  graph = record {
    ids = λ p. ground (arith, built.graph.ids p);
    symmetric = λ a b. ground (arith, new_bb-edges inv g a b built, built.graph.symmetric a b);
  };
  listed = listed_lem g.bb_id g.bbs built.listed;
  above = λ p le. ground (arith, built.above p);
  fresh = λ p. ground (arith, built.fresh p);
}
  where
    listed_lem : (n : ℕ) (l : List ℕ) → l ≡ below n → l ++ (n ∷ []) ≡ below (suc n)
    listed_lem n l e = rw (e, below) refl

pub invalid-connect :
    (g : Graph) (a b p : ℕ) → ((connect g a b).blocks p).invalid ≡ (g.blocks p).invalid
invalid-connect g a b p = ap (λ (k : BasicBlock). k.invalid) (bare-add_successor g.blocks a b p)
