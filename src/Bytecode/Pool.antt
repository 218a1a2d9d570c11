-- ===== src/Bytecode/Pool.antt =====
-- Where a literal stands in the pool.
use jerryscript_optimizer.Prelude.{ℕ, ◌+◌, ◌≤◌, ◌<◌, ◌≡◌, arith}
use jerryscript_optimizer.Inst.{Literal, move_index}
use jerryscript_optimizer.Bytecode.{
  BytecodeArguments, set_literal_pool, literal_address, move_reg_index,
}
use jerryscript_optimizer.Bytecode.Arguments.{IsOrdered, minus}

-- In the pool that the lowered ends describe, at the same address and with the same number of
-- entries, a lowered literal has the address that it had.
pub literal_address_moved :
    (a : BytecodeArguments) (start k : ℕ) (lit : Literal)
    → IsOrdered a
    → a.argument_end + k ≤ a.register_end
    → a.register_end ≤ start
    → a.register_end ≤ lit.index
    → lit.index < a.literal_end
    → let pool = (set_literal_pool start a).0 in
      let pool' = (set_literal_pool start (move_reg_index a (minus k))).0 in
      (literal_address pool' (move_index lit (minus k)).index ≡ literal_address pool lit.index)
      × (pool'.size ≡ pool.size)
      × (start ≤ literal_address pool lit.index)
      × (literal_address pool lit.index < start + pool.size)
unfolding set_literal_pool literal_address move_reg_index move_index
literal_address_moved a start k lit o h s lo hi =
    (omega arith, omega arith, omega arith, omega arith)
