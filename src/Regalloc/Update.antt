-- ===== src/Regalloc/Update.antt =====
-- `updateInstructions`: the mapping is put into the instructions, one interval after the other, and
-- everything above the registers moves down.
use jerryscript_optimizer.Prelude.{
  ℕ, ◌+◌, ◌-◌, ◌%◌, ◌^◌, ◌<◌, ◌≡◌, ◌≢◌, refl, ◌∙◌, ap, true, false, List, [], ◌∷◌, ◌++◌, ◌==◌, leb,
  map, if◌then◌else◌, arith, All,
}
use jerryscript_optimizer.Inst.{Ins, InstFlags, Literal, has_flag, move_index}
use jerryscript_optimizer.Bytecode.{BytecodeArguments, move_reg_index}
use jerryscript_optimizer.Bytecode.Arguments.{minus}
use jerryscript_optimizer.Regalloc.{RegLiveInterval}

-- `if (x == iter.first.first) x = iter.first.second`
pub rename : RegLiveInterval → ℕ → ℕ
rename iv x = if iv.reg == x then iv.mapped else x

rename_literal : RegLiveInterval → Literal → Literal
rename_literal iv lit = record lit { index = rename iv lit.index }

rename_reads : RegLiveInterval → Ins → Ins
rename_reads iv ins =
    if has_flag ins InstFlags.read_reg
    then record ins {
      read_regs = map (rename iv) ins.read_regs;
      argument = record (ins.argument) { literals = map (rename_literal iv) ins.argument.literals };
    }
    else ins

rename_write : RegLiveInterval → Ins → Ins
rename_write iv ins =
    if has_flag ins InstFlags.write_reg
    then record ins { write_reg = rename iv ins.write_reg }
    else ins

-- The body of the two nested loops.
pub rename_ins : RegLiveInterval → Ins → Ins
rename_ins iv ins = rename_write iv (rename_reads iv ins)

-- All intervals on one instruction, in their order.
pub rename_all : List RegLiveInterval → Ins → Ins
rename_all [] ins = ins
rename_all (iv ∷ intervals) ins = rename_all intervals (rename_ins iv ins)

move_literal : BytecodeArguments → ℕ → Literal → Literal
move_literal args offset lit =
    if leb args.register_end lit.index then move_index lit offset else lit

pub move_literals : BytecodeArguments → ℕ → Ins → Ins
move_literals args offset ins = record ins {
  argument = record (ins.argument) {
    literals = map (move_literal args offset) ins.argument.literals;
  };
}

-- The argument block and the instructions after the pass. `movePoolStart` is called on the copy
-- that `literalPool()` returns, so the pool of the function stays as it is.
unfoldable pub update_instructions :
    ℕ → ℕ → List RegLiveInterval → BytecodeArguments → List Ins → BytecodeArguments × List Ins
update_instructions regs_count new_regs_count intervals args insns =
    if leb regs_count new_regs_count
    then (args, insns)
    else let offset = (new_regs_count + 2 ^ 32 - regs_count) % 2 ^ 32 in
      (
        move_reg_index args offset,
        map (λ ins. move_literals args offset (rename_all intervals ins)) insns,
      )

-- What the renamings make of one register number, in the order of the intervals.
pub renamed : List RegLiveInterval → ℕ → ℕ
renamed [] x = x
renamed (iv ∷ intervals) x = renamed intervals (rename iv x)

-- On an instruction that writes a register, the register written afterwards is what all renamings
-- in turn make of it; flags, opcode and offset stay.
pub rename_all_write :
    (intervals : List RegLiveInterval) (ins : Ins)
    → has_flag ins InstFlags.write_reg ≡ true
    → ((rename_all intervals ins).write_reg ≡ renamed intervals ins.write_reg)
      × ((rename_all intervals ins).flags ≡ ins.flags)
      × ((rename_all intervals ins).opcode ≡ ins.opcode)
      × ((rename_all intervals ins).offset ≡ ins.offset)
unfolding rename_all rename_ins rename_reads rename_write renamed
rename_all_write [] ins w = (refl, refl, refl, refl)
rename_all_write (iv ∷ intervals) ins w =
    ground (arith, rename_all_write intervals (rename_write iv (rename_reads iv ins)))

-- Registers that no interval names stay.
pub renamed_other :
    (intervals : List RegLiveInterval) (x : ℕ)
    → All (λ iv. iv.reg ≢ x) intervals
    → renamed intervals x ≡ x
unfolding renamed rename
renamed_other [] x h = refl
renamed_other (iv ∷ intervals) x h = ground (arith, renamed_other intervals x h.1)

-- Where no interval is mapped to a register that a later interval names, a register whose first
-- interval is `iv` gets the register that `iv` is mapped to.
pub renamed_first :
    (before after : List RegLiveInterval) (iv : RegLiveInterval)
    → All (λ a. a.reg ≢ iv.reg) before
    → All (λ a. a.reg ≢ iv.mapped) after
    → renamed (before ++ (iv ∷ after)) iv.reg ≡ iv.mapped
unfolding renamed rename
renamed_first [] after iv hb ha = ground (arith, renamed_other after iv.mapped ha)
renamed_first (b ∷ before) after iv hb ha = ground (arith, renamed_first before after iv hb.1 ha)

-- An instruction writes the register of an interval that is mapped to the register that the next
-- interval names, and no later interval names the target of that one: the instruction is renamed
-- twice, so that after all intervals it writes the target of the second.
pub renamed_twice :
    (after : List RegLiveInterval) (a b : RegLiveInterval) (ins : Ins)
    → has_flag ins InstFlags.write_reg ≡ true
    → ins.write_reg ≡ a.reg
    → b.reg ≡ a.mapped
    → All (λ c. c.reg ≢ b.mapped) after
    → (rename_all (a ∷ b ∷ after) ins).write_reg ≡ b.mapped
unfolding renamed rename
renamed_twice after a b ins w first e h =
    (rename_all_write (a ∷ b ∷ after) ins w).0
    ∙ ap (renamed (a ∷ b ∷ after)) first
    ∙ ground (arith, renamed_other after b.mapped h)

-- Where registers are saved, the ends above the arguments go down by the number of those saved.
pub update_instructions_args :
    (regs_count new_regs_count : ℕ) (intervals : List RegLiveInterval) (args : BytecodeArguments)
    (insns : List Ins)
    → new_regs_count < regs_count
    → regs_count < 2 ^ 16
    → (update_instructions regs_count new_regs_count intervals args insns).0
      ≡ move_reg_index args (minus (regs_count - new_regs_count))
unfolding update_instructions
update_instructions_args r n intervals args insns lt fits =
    let shorter : (n + 2 ^ 32 - r) % 2 ^ 32 ≡ 2 ^ 32 - (r - n) = omega arith in
    let test : leb r n ≡ false = ground arith in rw test (rw shorter refl)
