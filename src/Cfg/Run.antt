-- ===== src/Cfg/Run.antt =====
-- `run` against a description of the graph that the code asks for.
use mathlib.Core.Path.{subst}
use jerryscript_optimizer.Prelude.{
  ℕ, suc, ◌<◌, ◌≡◌, refl, ◌∙◌, sym, ap, true, false, ◌||◌, some, List, [], ◌∷◌, ◌==◌, arith, All,
  All-map,
}
use jerryscript_optimizer.Prelude.Count.{All-mem}
use jerryscript_optimizer.Prelude.Sets.{mem}
use jerryscript_optimizer.Blocks.{BasicBlock, BlockHeap}
use jerryscript_optimizer.Edges.Counts.{leaving}
use jerryscript_optimizer.Cfg.{
  Graph, InsHeap, new_bb, fill_blocks, first_blocks, last_block, build_blocks, connect_blocks, home,
  run,
}
use jerryscript_optimizer.Cfg.Leaders.{
  HasOffsets, JumpsInside, Ascending, marked, find_leaders_correct,
}
use jerryscript_optimizer.Cfg.Shape.{IsBuilt, Placed, core, gather, gather_same}
use jerryscript_optimizer.Cfg.Heads.{heads, heads_same, no_leader}
use jerryscript_optimizer.Cfg.Full.{IsFull, built-IsFull}
use jerryscript_optimizer.Cfg.Valid.{built-invalid}
use jerryscript_optimizer.Cfg.Ahead.{IsAhead, IsAhead_lem, IsAhead-same}
use jerryscript_optimizer.Cfg.Build.{IsEmptyMemory, start, build_blocks_correct}
use jerryscript_optimizer.Cfg.Connect.{mem-gather, connect_blocks_correct}
use jerryscript_optimizer.Cfg.Flow.{
  IsFlow, count, all_edges, all_edges_same, all_edges_listed, IsFlow-same,
}
use jerryscript_optimizer.Cfg.Inside.{leader_inside, first_leader}
use jerryscript_optimizer.Cfg.EndEdges.{built-edges}

-- The graph that the code asks for. Its blocks are numbered from 0 as they are listed and hold the
-- instructions in the order of the code; a block starts where the first instruction stands and
-- where the jumps behind it mark; the first block and the last are invalid and no other; and its edges are the one from the first block, the one to the
-- last, and those that the valid blocks ask for, each as often as it is asked for.
pub record IsCfg (insns : InsHeap) (first : ℕ) (rest : List ℕ) (g : Graph) : Type 0 where
  pub built : IsBuilt g
  pub gathers : gather g.blocks g.bb_id ≡ first ∷ rest
  pub starts : (x : ℕ) → mem x (heads g.blocks g.bb_id) ≡ (x == first || marked insns rest x)
  pub placed : All (Placed g) (first ∷ rest)
  pub cores : (i : ℕ) → core (g.insns i) ≡ core (insns i)
  pub end : ℕ
  pub ends : g.bb_id ≡ suc (suc end)
  pub invalid : (p : ℕ) → p < g.bb_id → (g.blocks p).invalid ≡ (p == 0 || p == suc end)
  pub edges :
      (a b : ℕ)
      → leaving g.blocks a b
        ≡ count a b ((0, 1) ∷ (end, suc end) ∷ all_edges g (first ∷ rest) g.bbs)

-- The graph before its blocks are connected.
record IsFilled (insns : InsHeap) (first : ℕ) (rest : List ℕ) (g : Graph) : Type 0 where
  built : IsBuilt g
  gathers : gather g.blocks g.bb_id ≡ first ∷ rest
  starts : (x : ℕ) → mem x (heads g.blocks g.bb_id) ≡ (x == first || marked insns rest x)
  placed : All (Placed g) (first ∷ rest)
  cores : (i : ℕ) → core (g.insns i) ≡ core (insns i)
  full : IsFull g
  end : ℕ
  ends : g.bb_id ≡ suc (suc end)
  invalid : (p : ℕ) → p < g.bb_id → (g.blocks p).invalid ≡ (p == 0 || p == suc end)
  edges : (a b : ℕ) → leaving g.blocks a b ≡ count a b ((0, 1) ∷ (end, suc end) ∷ [])

filled_last : (g : Graph) (bb : ℕ) → (last_block g bb).bb_id ≡ suc (suc bb) → g.bb_id ≡ suc bb
unfolding last_block new_bb
filled_last g bb e = omega (arith, e)

find_build :
    (h : BlockHeap) (insns : InsHeap) (first : ℕ) (rest l : List ℕ)
    → IsEmptyMemory h
    → Ascending (first ∷ rest)
    → Ascending l
    → mem first l ≡ true
    → ((x : ℕ) → mem x l ≡ true → mem x (first ∷ rest) ≡ true)
    → ((x : ℕ) → mem x l ≡ (x == first || marked insns rest x))
    → (g : Graph) × (build_blocks (start h insns) (first ∷ rest) l ≡ some g)
      × IsFilled insns first rest g
unfolding build_blocks last_block
find_build h insns first rest l empty up asc mf within m =
    let (ls, shape, more) = first_leader first rest l up asc mf within in
    let asc' : Ascending (first ∷ ls) = rw shape at asc in
    let (g, run1, built, gathers, starts, placed, cores) =
      build_blocks_correct h insns empty first rest ls up asc' more in
    let filled = fill_blocks (first_blocks (start h insns)) 1 ls false (first ∷ rest) in
    let same : last_block filled.0 filled.1 ≡ g = cc run1 in
    let edges0 = λ (a b : ℕ). built-edges h insns ls (first ∷ rest) a b empty in
    (
      g,
      rw shape run1,
      record {
        built = built;
        gathers = gathers;
        starts = λ x. ap (mem x) (starts ∙ sym shape) ∙ m x;
        placed = placed;
        cores = cores;
        full =
            subst IsFull same
              (built-IsFull (start h insns) 1 ls first rest refl (no_leader first ls rest up more));
        end = filled.1;
        ends = ap (λ (k : Graph). k.bb_id) (sym same) ∙ (edges0 0 0).0;
        invalid =
            subst
              (λ (k : Graph).
                (p : ℕ) → p < k.bb_id → (k.blocks p).invalid ≡ (p == 0 || p == suc filled.1))
              same
              (λ p lt.
                built-invalid (start h insns) ls (first ∷ rest) p refl lt
                ∙ ap (λ n. p == 0 || p == n) (filled_last filled.0 filled.1 (edges0 0 0).0));
        edges = λ a b.
            subst
              (λ (k : Graph).
                leaving k.blocks a b ≡ count a b ((0, 1) ∷ (filled.1, suc filled.1) ∷ []))
              same (edges0 a b).1;
      },
    )

filled-IsCfg :
    (insns : InsHeap) (first : ℕ) (rest : List ℕ) (g : Graph)
    → IsFilled insns first rest g
    → ((i : ℕ) → mem i (first ∷ rest) ≡ true → IsFlow insns (first ∷ rest) i)
    → ((i : ℕ) → mem i (first ∷ rest) ≡ true → IsAhead insns (first ∷ rest) i)
    → (g' : Graph) × (connect_blocks (first ∷ rest) g g.bbs ≡ some g') × IsCfg insns first rest g'
unfolding count
filled-IsCfg insns first rest g f flow ahead =
    let order = first ∷ rest in
    let (g', run, j) =
      connect_blocks_correct g order (λ i mi. IsFlow-same insns g.insns order i f.cores (flow i mi))
        (λ i mi. IsAhead-same insns g.insns order i f.cores (ahead i mi))
        (λ i mi. (All-mem (Placed g) order i f.placed mi).0)
        (λ p i lt mi. ap (mem i) (sym f.gathers) ∙ mem-gather g.blocks g.bb_id p i lt mi) f.full
        f.built in
    let insts = λ (p : ℕ). ap (λ (b : BasicBlock). b.insts) (j.same p) in
    (
      g',
      run,
      record {
        built = j.built;
        gathers =
            ap (gather g'.blocks) j.bb_id
            ∙ gather_same g'.blocks g.blocks g.bb_id (λ p lt. insts p)
            ∙ f.gathers;
        starts = λ x.
            ap (mem x) (
              ap (heads g'.blocks) j.bb_id
              ∙ heads_same g'.blocks g.blocks g.bb_id (λ p lt. insts p))
            ∙ f.starts x;
        placed =
            All-map (Placed g) (Placed g') order
              (λ i at.
                let hm : home g' i ≡ home g i = ap (λ (k : InsHeap). (k i).bb) j.insns in
                (
                  omega (arith, hm, j.bb_id, at.0),
                  ap (λ p. mem i (g'.blocks p).insts) hm ∙ ap (mem i) (insts (home g i)) ∙ at.1,
                ))
              f.placed;
        cores = λ i. ap (λ (k : InsHeap). core (k i)) j.insns ∙ f.cores i;
        end = f.end;
        ends = j.bb_id ∙ f.ends;
        invalid = λ p lt.
            ap (λ (b : BasicBlock). b.invalid) (j.same p) ∙ f.invalid p (omega (arith, j.bb_id));
        edges = λ a b.
            let asked = all_edges_same g g' order g.bbs j.insns j.same in
            let listed = all_edges_listed g' order g.bbs g'.bbs (sym j.bbs) in
            omega (arith, j.edges a b, f.edges a b, ap (count a b) (sym listed ∙ asked));
      },
    )

pub run_correct :
    (h : BlockHeap) (insns : InsHeap) (first : ℕ) (rest : List ℕ)
    → IsEmptyMemory h
    → HasOffsets insns
    → Ascending (first ∷ rest)
    → JumpsInside insns (first ∷ rest) rest
    → ((i : ℕ) → mem i (first ∷ rest) ≡ true → IsFlow insns (first ∷ rest) i)
    → (g : Graph) × (run h insns (first ∷ rest) ≡ some g) × IsCfg insns first rest g
unfolding run
run_correct h insns first rest empty off up inside flow =
    let (l, found, asc, m) = find_leaders_correct insns first rest off inside in
    let (g, filled, f) =
      find_build h insns first rest l empty up asc (ground (arith, m first))
        (λ x mx. leader_inside insns first rest x inside (sym (m x) ∙ mx)) m in
    let (g', joined, cfg) =
      filled-IsCfg insns first rest g f flow (λ i mi. IsAhead_lem insns first rest i off up) in
    (g', rw (found, filled) joined, cfg)
