-- ===== src/Liveness/KillUe.antt =====
-- `computeKillUe` against a definition by the order of the instructions.
use mathlib.Core.List.{foldl}
use jerryscript_optimizer.Prelude.{
  ℕ, ◌≡◌, refl, ◌∙◌, Bool, false, not, ◌&&◌, ◌||◌, List, [], ◌∷◌, ◌==◌, arith, Bool-cases, inl, inr,
}
use jerryscript_optimizer.Prelude.Sets.{mem, mem-insert, mem-cons, mem_nil}
use jerryscript_optimizer.Inst.{Ins, InstFlags, has_flag}
use jerryscript_optimizer.Blocks.{BasicBlock, BlockHeap}
use jerryscript_optimizer.Liveness.{expose, compute_kill_ue_ins, compute_kill_ue}

pub reads : Ins → ℕ → Bool
reads ins r = has_flag ins InstFlags.read_reg && mem r ins.read_regs

pub writes : Ins → ℕ → Bool
writes ins r = has_flag ins InstFlags.write_reg && r == ins.write_reg

-- Some instruction of the block writes the register.
pub killed_by : ℕ → List Ins → ℕ → Bool
killed_by b [] r = false
killed_by b (i ∷ rest) r = i.bb == b && writes i r || killed_by b rest r

-- Some instruction of the block reads the register, and none of the block's above it writes it.
pub exposed_by : ℕ → List Ins → ℕ → Bool
exposed_by b [] r = false
exposed_by b (i ∷ rest) r =
    i.bb == b && reads i r || not (i.bb == b && writes i r) && exposed_by b rest r

expose_all :
    (bb : BasicBlock) (regs : List ℕ) (r : ℕ)
    → (mem r (foldl expose bb regs).ue ≡ (mem r bb.ue || not (mem r bb.kill) && mem r regs))
      × ((foldl expose bb regs).kill ≡ bb.kill)
unfolding expose
expose_all bb [] r = ground (arith, mem_nil r)
expose_all bb (x ∷ regs) r =
    ground (arith, expose_all (expose bb x) regs r, mem-insert r x bb.ue, mem-cons r x regs)

ins_effect :
    (h : BlockHeap) (i : Ins) (b r : ℕ)
    → (mem r (compute_kill_ue_ins h i b).ue
        ≡ (mem r (h b).ue || not (mem r (h b).kill) && (i.bb == b && reads i r)))
      × (mem r (compute_kill_ue_ins h i b).kill ≡ (mem r (h b).kill || i.bb == b && writes i r))
unfolding compute_kill_ue_ins reads writes
ins_effect h i b r = elim (Bool-cases (b == i.bb)) [
  | inl e ↦
      let q : i.bb ≡ b = ground arith in
      ground (arith, expose_all (h b) i.read_regs r, mem-insert r i.write_reg (h b).kill)
  | inr e ↦ ground arith
]

all_effect :
    (h : BlockHeap) (insns : List Ins) (b r : ℕ)
    → (mem r (compute_kill_ue h insns b).ue
        ≡ (mem r (h b).ue || not (mem r (h b).kill) && exposed_by b insns r))
      × (mem r (compute_kill_ue h insns b).kill ≡ (mem r (h b).kill || killed_by b insns r))
unfolding compute_kill_ue exposed_by killed_by
all_effect h [] b r = ground arith
all_effect h (i ∷ insns) b r =
    ground (arith, ins_effect h i b r, all_effect (compute_kill_ue_ins h i) insns b r)

-- From blocks with empty sets, the upward exposed registers of a block are those that one of its
-- instructions reads with no write by the block's instructions above it, and the killed ones are
-- those that one of its instructions writes.
pub compute_kill_ue_correct :
    (h : BlockHeap) (insns : List Ins) (b : ℕ)
    → (h b).ue ≡ []
    → (h b).kill ≡ []
    → (r : ℕ)
    → (mem r (compute_kill_ue h insns b).ue ≡ exposed_by b insns r)
      × (mem r (compute_kill_ue h insns b).kill ≡ killed_by b insns r)
compute_kill_ue_correct h insns b no_ue no_kill r =
    let (u, k) = all_effect h insns b r in
    (u ∙ rw (no_ue, no_kill, mem_nil) refl, k ∙ rw (no_kill, mem_nil) refl)

ins_keeps :
    (h : BlockHeap) (i : Ins) (b : ℕ)
    → ((compute_kill_ue_ins h i b).successors ≡ (h b).successors)
      × ((compute_kill_ue_ins h i b).live_out ≡ (h b).live_out)
unfolding compute_kill_ue_ins
ins_keeps h i b = ground (arith, expose_keeps (h i.bb) i.read_regs)
  where
    expose_keeps :
        (bb : BasicBlock) (regs : List ℕ)
        → ((foldl expose bb regs).successors ≡ bb.successors)
          × ((foldl expose bb regs).live_out ≡ bb.live_out)
    expose_keeps bb [] = (refl, refl)
    expose_keeps bb (x ∷ regs) = ground (arith, expose_keeps (expose bb x) regs)

-- `computeKillUe` changes neither edges nor live-out sets.
pub compute_kill_ue-keeps :
    (h : BlockHeap) (insns : List Ins) (b : ℕ)
    → ((compute_kill_ue h insns b).successors ≡ (h b).successors)
      × ((compute_kill_ue h insns b).live_out ≡ (h b).live_out)
unfolding compute_kill_ue
compute_kill_ue-keeps h [] b = (refl, refl)
compute_kill_ue-keeps h (i ∷ insns) b =
    ground (arith, ins_keeps h i b, compute_kill_ue-keeps (compute_kill_ue_ins h i) insns b)
