-- ===== src/Cfg/Flow.antt =====
-- The edges that the code asks for, as a list.
use jerryscript_optimizer.Prelude.{
  ℕ, ◌+◌, ◌<◌, ◌≡◌, refl, ap, true, ◌&&◌, Option, none, some, List, [], ◌∷◌, ◌++◌, ◌==◌,
  if◌then◌else◌, arith, last, sym,
}
use jerryscript_optimizer.Prelude.Sets.{mem}
use jerryscript_optimizer.Blocks.{BasicBlock}
use jerryscript_optimizer.Inst.{
  Ins, InstFlags, has_flag, is_jump, is_conditional_jump, is_try_start, jump_target,
}
use jerryscript_optimizer.Edges.Counts.{bare}
use jerryscript_optimizer.Cfg.{next_offset, Graph, InsHeap, home, has_next, prev_inst, first_jump}
use jerryscript_optimizer.Cfg.Shape.{core}
use mathlib.Core.Path.{subst, fun_ext}

-- The end of a `try` part, its target and an instruction in front of it.
abbrev pub Catches : InsHeap → List ℕ → ℕ → Type 0
Catches insns order t =
    (has_flag (insns t) InstFlags.try_catch ≡ true)
    × (mem (jump_target (insns t)) order ≡ true)
    × ((p : ℕ) × (mem p order ≡ true) × (p < (insns t).offset))

-- Every instruction that control may pass to exists.
abbrev pub IsFlow : InsHeap → List ℕ → ℕ → Type 0
IsFlow insns order i =
    (is_jump (insns i) ≡ true → mem (jump_target (insns i)) order ≡ true)
    × (is_conditional_jump (insns i) ≡ true → mem (next_offset (insns i)) order ≡ true)
    × (has_next insns order (insns i) ≡ true → mem (next_offset (insns i)) order ≡ true)
    × (is_try_start (insns i) ≡ true → Catches insns order (jump_target (insns i)))

-- How often an edge stands in a list of edges.
unfoldable pub count : ℕ → ℕ → List (ℕ × ℕ) → ℕ
count a b [] = 0
count a b (e ∷ es) = (if a == e.0 && b == e.1 then 1 else 0) + count a b es

pub count-append :
    (a b : ℕ) (es fs : List (ℕ × ℕ)) → count a b (es ++ fs) ≡ count a b es + count a b fs
unfolding count
count-append a b [] fs = omega arith
count-append a b (e ∷ es) fs = omega (arith, count-append a b es fs)

-- The edges that a block with these instructions asks for: from its first jump to the target, and
-- to the next instruction if the jump is conditional; at the start of a `try`, also from the last
-- instruction in front of the end of its part to where that end jumps; without a jump, to the
-- instruction behind the last, if there is one.
abbrev pub before_edge : Graph → ℕ → Option ℕ → List (ℕ × ℕ)
before_edge g t none = []
before_edge g t (some p) = (home g p, home g (jump_target (g.insns t))) ∷ []

abbrev pub before : List ℕ → Ins → Option ℕ
before order ins = prev_inst order ins.offset

unfoldable pub side_edges : Graph → List ℕ → ℕ → ℕ → List (ℕ × ℕ)
side_edges g order bb i =
    if is_conditional_jump (g.insns i)
    then (bb, home g (next_offset (g.insns i))) ∷ []
    else if is_try_start (g.insns i)
    then before_edge g (jump_target (g.insns i)) (before order (g.insns (jump_target (g.insns i))))
    else []

unfoldable pub fall_edges : Graph → List ℕ → ℕ → Option ℕ → List (ℕ × ℕ)
fall_edges g order bb none = []
fall_edges g order bb (some i) =
    if mem (next_offset (g.insns i)) order then (bb, home g (next_offset (g.insns i))) ∷ [] else []

unfoldable pub edges_at : Graph → List ℕ → ℕ → Option ℕ → List (ℕ × ℕ)
edges_at g order bb none = fall_edges g order bb (last (g.blocks bb).insts)
edges_at g order bb (some i) =
    side_edges g order bb i ++ ((bb, home g (jump_target (g.insns i))) ∷ [])

unfoldable pub block_edges : Graph → List ℕ → ℕ → List (ℕ × ℕ)
block_edges g order bb =
    if (g.blocks bb).invalid
    then []
    else edges_at g order bb (first_jump g.insns (g.blocks bb).insts)

unfoldable pub all_edges : Graph → List ℕ → List ℕ → List (ℕ × ℕ)
all_edges g order [] = []
all_edges g order (bb ∷ bbs) = block_edges g order bb ++ all_edges g order bbs

-- What a block asks for does not depend on the edges that are there.
pub edges_at_same :
    (g g' : Graph) (order : List ℕ) (bb : ℕ) (x : Option ℕ)
    → g'.insns ≡ g.insns
    → (g'.blocks bb).insts ≡ (g.blocks bb).insts
    → edges_at g' order bb x ≡ edges_at g order bb x
unfolding edges_at side_edges fall_edges
edges_at_same g g' order bb none e insts = rw insts (fall (last (g.blocks bb).insts))
  where
    fall : (y : Option ℕ) → fall_edges g' order bb y ≡ fall_edges g order bb y
    fall none = refl
    fall (some i) = rw e refl
edges_at_same g g' order bb (some i) e insts = rw e refl

pub all_edges_same :
    (g g' : Graph) (order bbs : List ℕ)
    → g'.insns ≡ g.insns
    → ((p : ℕ) → bare (g'.blocks p) ≡ bare (g.blocks p))
    → all_edges g' order bbs ≡ all_edges g order bbs
unfolding all_edges block_edges
all_edges_same g g' order [] e same = refl
all_edges_same g g' order (bb ∷ bbs) e same =
    let insts = ap (λ (b : BasicBlock). b.insts) (same bb) in
    let invalid = ap (λ (b : BasicBlock). b.invalid) (same bb) in
    let jump : first_jump g'.insns (g'.blocks bb).insts ≡ first_jump g.insns (g.blocks bb).insts =
      cc (e, insts) in
    cc (
      invalid,
      jump,
      edges_at_same g g' order bb (first_jump g.insns (g.blocks bb).insts) e insts,
      all_edges_same g g' order bbs e same,
    )

-- Blocks and the mark of dead code do not change where control passes.
pub IsFlow-same :
    (insns k : InsHeap) (order : List ℕ) (i : ℕ)
    → ((j : ℕ) → core (k j) ≡ core (insns j))
    → IsFlow insns order i
    → IsFlow k order i
IsFlow-same insns k order i same flow =
    subst (λ (h : InsHeap). IsFlow h order i) (fun_ext (λ j. sym (same j))) flow

pub all_edges_listed :
    (g : Graph) (order xs ys : List ℕ) → xs ≡ ys → all_edges g order xs ≡ all_edges g order ys
all_edges_listed g order xs ys e = ap (all_edges g order) e
