-- ===== src/Cfg.antt =====
-- src/control-flow-analysis.cpp, and the searches of src/inst.h and src/bytecode.h that it uses: the
-- instructions that start a block, the blocks, and the edges between them.
-- An `Ins *` is the offset of the instruction, and the memory maps each to the instruction that it
-- points to; `offset_to_ins_` finds an offset if it is that of an instruction. A block that this
-- pass creates is a new one, so its id serves as its address. `none` stands for undefined behaviour
-- (`end()` read, a jump to no instruction), for a failed assertion, and for a search without end.
pub mod Leaders
pub mod Shape
pub mod Fill
pub mod Heads
pub mod Full
pub mod Valid
pub mod Ahead
pub mod Build
pub mod Flow
pub mod Connect
pub mod Inside
pub mod EndEdges
pub mod Run
pub mod Split
pub mod Sample
mod Examples
use jerryscript_optimizer.Prelude.{
  ℕ, zero, suc, ◌+◌, ◌%◌, ◌^◌, Bool, true, false, not, ◌&&◌, ◌||◌, Option, none, some, List, [],
  ◌∷◌, ◌++◌, ◌==◌, ltb, leb, if◌then◌else◌, last, and_then,
}
use jerryscript_optimizer.Prelude.Sets.{mem, insert}
use jerryscript_optimizer.Inst.{
  Ins, InstFlags, has_flag, add_flag, is_jump, is_conditional_jump, is_try_start, is_try_context,
  jump_target,
}
use jerryscript_optimizer.Blocks.{BasicBlock, BlockHeap, update}
use jerryscript_optimizer.Edges.{add_successor}

abbrev pub InsHeap : Type 0
InsHeap = ℕ → Ins

-- The members of `ControlFlowAnalysis`, and what they point to.
pub record Graph : Type 0 where
  pub blocks : BlockHeap
  pub insns : InsHeap
  pub bbs : List ℕ
  pub bb_id : ℕ

-- `insAt`
abbrev pub ins_at : List ℕ → ℕ → Option ℕ
ins_at order offset = if mem offset order then some offset else none

-- `offset() + size()`, as an unsigned word.
abbrev pub next_offset : Ins → ℕ
next_offset ins = (ins.offset + ins.size) % 2 ^ 32

-- `nextInst`
abbrev pub next_inst : List ℕ → Ins → Option ℕ
next_inst order ins = ins_at order (next_offset ins)

abbrev pub reaches : ℕ → InsHeap → Option ℕ → Bool
reaches offset insns none = false
reaches offset insns (some back) = leb offset (insns back).offset

-- `hasNext`
abbrev pub has_next : InsHeap → List ℕ → Ins → Bool
has_next insns order ins = reaches (next_offset ins) insns (last order)

-- The loop of `prevInst`, below an offset. It does not end where nothing stands below.
pub prev_inst : List ℕ → ℕ → Option ℕ
prev_inst order zero = none
prev_inst order (suc offset) = if mem offset order then some offset else prev_inst order offset

-- `findLeaders`: what one jump adds, the instructions behind it at hand. The target is read first.
pub jump_leaders : InsHeap → ℕ → List ℕ → List ℕ → ℕ → Option (List ℕ)
jump_leaders insns i rest leaders target =
    if is_conditional_jump (insns i)
    then elim rest [ [] ↦ none | next ∷ rest' ↦ some (insert target (insert next leaders)) ]
    else if is_try_context (insns i)
    then some (insert target (insert i leaders))
    else some (insert target leaders)

pub ins_leaders : InsHeap → List ℕ → ℕ → List ℕ → List ℕ → Option (List ℕ)
ins_leaders insns order i rest leaders =
    if is_jump (insns i)
    then and_then (ins_at order (jump_target (insns i))) (jump_leaders insns i rest leaders)
    else some leaders

pub collect_leaders : InsHeap → List ℕ → List ℕ → List ℕ → Option (List ℕ)
collect_leaders insns order [] leaders = some leaders
collect_leaders insns order (i ∷ rest) leaders =
    and_then (ins_leaders insns order i rest leaders) (collect_leaders insns order rest)

-- `std::sort` by the offsets, as an insertion sort.
pub insert_offset : InsHeap → ℕ → List ℕ → List ℕ
insert_offset insns i [] = i ∷ []
insert_offset insns i (j ∷ js) =
    let rest = insert_offset insns i js in
    if ltb (insns j).offset (insns i).offset then j ∷ rest else i ∷ j ∷ js

pub sort_offsets : InsHeap → List ℕ → List ℕ
sort_offsets insns [] = []
sort_offsets insns (i ∷ is) = insert_offset insns i (sort_offsets insns is)

pub find_leaders : InsHeap → List ℕ → Option (List ℕ)
find_leaders insns [] = none
find_leaders insns (first ∷ rest) =
    and_then (collect_leaders insns (first ∷ rest) rest (insert first []))
      (λ leaders. some (sort_offsets insns leaders))

-- A new block: `BasicBlock(id)`.
abbrev pub fresh_block : ℕ → Bool → BasicBlock
fresh_block id invalid = record {
  id = id;
  invalid = invalid;
  found = false;
  insts = [];
  predecessors = [];
  successors = [];
  idom = none;
  dominators = [];
  ue = [];
  kill = [];
  live_out = [];
}

-- `newBB`; the new block is the one of the old `bb_id`. The blocks at the ends are marked invalid
-- when they are made; in the source the first is marked after its first edge.
pub new_bb : Bool → Graph → Graph
new_bb invalid g = record g {
  blocks = update g.blocks g.bb_id (fresh_block g.bb_id invalid);
  bbs = g.bbs ++ (g.bb_id ∷ []);
  bb_id = suc g.bb_id;
}

-- `addIns`
pub add_ins : Graph → ℕ → ℕ → Graph
add_ins g bb i = record g {
  blocks = update g.blocks bb (record (g.blocks bb) { insts = (g.blocks bb).insts ++ (i ∷ []) });
  insns = update g.insns i (record (g.insns i) { bb = bb });
}

pub place : Graph → ℕ → Bool → ℕ → Graph
place g bb found_jump i =
    let g' = add_ins g bb i in
    if found_jump
    then record g' { insns = update g'.insns i (add_flag (g'.insns i) InstFlags.dead) }
    else g'

-- Whether the instruction is `next_leader`, the first of the leaders to come.
abbrev pub leads : List ℕ → ℕ → Bool
leads [] i = false
leads (leader ∷ leaders) i = i == leader

abbrev pub behind : List ℕ → List ℕ
behind [] = []
behind (leader ∷ leaders) = leaders

pub ends_flow : Ins → Bool
ends_flow ins = is_jump ins && not (is_try_context ins)

-- The loop of `buildBlocks`: the graph and the block that the last instruction stands in.
pub fill_blocks : Graph → ℕ → List ℕ → Bool → List ℕ → Graph × ℕ
fill_blocks g bb leaders found_jump [] = (g, bb)
fill_blocks g bb leaders found_jump (i ∷ rest) =
    let new = leads leaders i in
    let g' = if new then new_bb false g else g in
    let bb' = if new then g.bb_id else bb in
    let found' = if new then false else found_jump in
    fill_blocks (place g' bb' found' i) bb' (if new then behind leaders else leaders)
      (found' || ends_flow (g.insns i)) rest

abbrev pub connect : Graph → ℕ → ℕ → Graph
connect g a b = record g { blocks = add_successor g.blocks a b }

-- `bb_start` is block 0 and the first block of instructions block 1.
pub first_blocks : Graph → Graph
first_blocks g = let g1 = new_bb false (new_bb true g) in connect g1 g.bb_id (suc g.bb_id)

pub last_block : Graph → ℕ → Graph
last_block g bb = connect (new_bb true g) bb g.bb_id

pub build_blocks : Graph → List ℕ → List ℕ → Option Graph
build_blocks g order [] = none
build_blocks g order (leader ∷ leaders) =
    let filled = fill_blocks (first_blocks g) (suc g.bb_id) leaders false order in
    some (last_block filled.0 filled.1)

-- `connectBlocks`, for a block's first jump.
pub first_jump : InsHeap → List ℕ → Option ℕ
first_jump insns [] = none
first_jump insns (i ∷ is) = if is_jump (insns i) then some i else first_jump insns is

abbrev pub home : Graph → ℕ → ℕ
home g i = (g.insns i).bb

pub connect_try : List ℕ → Graph → ℕ → Option Graph
connect_try order g target =
    if has_flag (g.insns target) InstFlags.try_catch
    then and_then (prev_inst order (g.insns target).offset) (λ try_last.
      and_then (ins_at order (jump_target (g.insns target)))
        (λ catch_next. some (connect g (home g try_last) (home g catch_next))))
    else none

pub connect_branch : List ℕ → Graph → ℕ → ℕ → ℕ → Option Graph
connect_branch order g bb i target =
    if is_conditional_jump (g.insns i)
    then and_then (next_inst order (g.insns i)) (λ next. some (connect g bb (home g next)))
    else if is_try_start (g.insns i)
    then connect_try order g target
    else some g

pub connect_jump : List ℕ → Graph → ℕ → ℕ → Option Graph
connect_jump order g bb i = and_then (ins_at order (jump_target (g.insns i))) (λ target.
    and_then (connect_branch order g bb i target) (λ g'. some (connect g' bb (home g' target))))

pub connect_next : List ℕ → Graph → ℕ → ℕ → Option Graph
connect_next order g bb i =
    if has_next g.insns order (g.insns i)
    then and_then (next_inst order (g.insns i)) (λ next. some (connect g bb (home g next)))
    else some g

-- The body of the loop, at the block's first jump.
pub connect_at : List ℕ → Graph → ℕ → Option ℕ → Option Graph
connect_at order g bb none = and_then (last (g.blocks bb).insts) (connect_next order g bb)
connect_at order g bb (some i) = connect_jump order g bb i

pub connect_block : List ℕ → Graph → ℕ → Option Graph
connect_block order g bb =
    if (g.blocks bb).invalid
    then some g
    else connect_at order g bb (first_jump g.insns (g.blocks bb).insts)

pub connect_blocks : List ℕ → Graph → List ℕ → Option Graph
connect_blocks order g [] = some g
connect_blocks order g (bb ∷ bbs) =
    and_then (connect_block order g bb) (λ g'. connect_blocks order g' bbs)

-- `run`, on the memory before it.
pub run : BlockHeap → InsHeap → List ℕ → Option Graph
run blocks insns order = and_then (find_leaders insns order) (λ leaders.
    and_then
      (build_blocks (record { blocks = blocks; insns = insns; bbs = []; bb_id = 0 }) order leaders)
      (λ g. connect_blocks order g g.bbs))
