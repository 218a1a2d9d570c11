-- ===== src/Blocks.antt =====
-- src/basic-block.h: basic blocks, and the memory that they live in.
-- A `BasicBlock *` is a number, and the memory maps each to the block that it points to.
-- `live_ranges_` and `locals_` are declared in the source and used nowhere.
use jerryscript_optimizer.Prelude.{ℕ, Bool, Option, List, ◌==◌, if◌then◌else◌}

pub record BasicBlock : Type 0 where
  pub id : ℕ
  pub invalid : Bool
  pub found : Bool
  pub insts : List ℕ
  pub predecessors : List ℕ
  pub successors : List ℕ
  pub idom : Option ℕ
  pub dominators : List ℕ
  pub ue : List ℕ
  pub kill : List ℕ
  pub live_out : List ℕ

abbrev pub BlockHeap : Type 0
BlockHeap = ℕ → BasicBlock

-- `*p = b`
abbrev pub update {ℓ} : {A : Type ℓ} → (ℕ → A) → ℕ → A → ℕ → A
update h p b q = if q == p then b else h q
