-- ===== src/Decoder/Registers.antt =====
-- What `setWriteReg` records.
use jerryscript_optimizer.Prelude.{ℕ, ◌<◌, ◌≡◌, refl, true, some, [], ◌∷◌, ◌++◌, ltb, arith}
use jerryscript_optimizer.Inst.{InstFlags, with_flag}
use jerryscript_optimizer.Bytecode.{BytecodeArguments}
use jerryscript_optimizer.Bytecode.Arguments.{IsOrdered}
use jerryscript_optimizer.Codec.{literal_type}
use jerryscript_optimizer.Decoder.{
  Decoding, mark, add_literal, push_read_reg, store_write_reg, literal_at, set_write_reg,
}

-- Where the ends are in order, `setWriteReg` on a register succeeds and reads no byte. It stores
-- the register as the one written, and counts it as read too: the register is added to those read,
-- both flags are set, and the register is added to the literals.
pub set_write_reg_lem :
    (args : BytecodeArguments) (index : ℕ) (s : Decoding)
    → IsOrdered args
    → index < args.register_end
    → (s' : Decoding) × (set_write_reg args index s ≡ some (tt, s'))
      × (s'.bytes ≡ s.bytes)
      × (s'.ins.write_reg ≡ index)
      × (s'.ins.read_regs ≡ s.ins.read_regs ++ (index ∷ []))
      × (s'.ins.flags ≡ with_flag (with_flag s.ins.flags InstFlags.write_reg) InstFlags.read_reg)
      × (s'.ins.argument.literals
          ≡ s.ins.argument.literals
            ++ (record { kind = literal_type args index; index = index } ∷ []))
unfolding set_write_reg literal_at mark store_write_reg push_read_reg add_literal
set_write_reg_lem args index s o small =
    let register : ltb index args.register_end ≡ true = ground arith in
    let literal : ltb index args.const_literal_end ≡ true = ground (arith, o.idents, o.constants) in
    (written s, rw (literal, register) refl, refl, refl, refl, refl, refl)
  where
    written : Decoding → Decoding
    written s = record s {
      ins = record (s.ins) {
        flags = with_flag (with_flag s.ins.flags InstFlags.write_reg) InstFlags.read_reg;
        write_reg = index;
        read_regs = s.ins.read_regs ++ (index ∷ []);
        argument = record (s.ins.argument) {
          literals =
              s.ins.argument.literals
              ++ (record { kind = literal_type args index; index = index } ∷ []);
        };
      };
    }
