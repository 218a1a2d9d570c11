-- ===== src/Decoder/Typed.antt =====
-- What decoding keeps true of an instruction. A property that each read and each store keeps is kept
-- by the whole of the decoder. The first such property: every literal that is recorded has the type
-- of the range that its index lies in, and every register that is read lies below the registers' end.
use jerryscript_optimizer.Prelude.{
  ℕ, ◌+◌, ◌<◌, ◌≡◌, refl, Bool, true, false, Option, none, some, List, [], ◌∷◌, ◌++◌, ltb, drop,
  All, All-append, arith, if◌then◌else◌,
}
use jerryscript_optimizer.Inst.{Literal, InstFlags, add_flag, OperandType}
use jerryscript_optimizer.Bytecode.{BytecodeArguments}
use jerryscript_optimizer.Codec.{Read, next, decode_literal_index, literal_type}
use jerryscript_optimizer.Codec.Rests.{IsRest, next-IsRest, decode_literal_index-IsRest}
use jerryscript_optimizer.Decoder.{
  Decoding, M, after, take_from, ◌>>=◌, ◌>>◌, return, done, assert, next_byte, mark, add_literal,
  push_read_reg, store_write_reg, store_byte_arg, read_byte_arg, read_literal_index, literal_at,
  decode_literal, set_write_reg, add_read_reg, process_put_ident, process_put,
}

-- What holds of a result, if there is one.
abbrev pub Yields : {A : Type 0} → (A → Decoding → Type 0) → Option (A × Decoding) → Type 0
Yields Q none = Unit {0}
Yields Q (some (a, s)) = Q a s

abbrev pub HasItsType : BytecodeArguments → Literal → Type 0
HasItsType args lit = lit.kind ≡ literal_type args lit.index

-- What each read and each store of the decoder keeps: a flag, the register written, a register read,
-- a literal, the bytes that are left, the operands, and a jump back behind the opcode.
pub record IsStable (args : BytecodeArguments) (code : List ℕ) (Holds : Decoding → Type 0)
    : Type 0 where
  pub marks : (f : InstFlags) (s : Decoding) → Holds s → Holds (record s { ins = add_flag s.ins f })
  pub writes :
      (r : ℕ) (s : Decoding) → Holds s → Holds (record s { ins = record (s.ins) { write_reg = r } })
  pub reads :
      (r : ℕ) (s : Decoding)
      → r < args.register_end
      → Holds s
      → Holds (record s { ins = record (s.ins) { read_regs = s.ins.read_regs ++ (r ∷ []) } })
  pub literals :
      (lit : Literal) (s : Decoding)
      → HasItsType args lit
      → Holds s
      → Holds (record s {
        ins = record (s.ins) {
          argument = record (s.ins.argument) { literals = s.ins.argument.literals ++ (lit ∷ []) };
        };
      })
  pub consumes :
      (rest : List ℕ) (s : Decoding)
      → (k : ℕ) × (rest ≡ drop k s.bytes)
      → Holds s
      → Holds (record s { bytes = rest })
  pub byte_args :
      (b : ℕ) (s : Decoding)
      → Holds s
      → Holds (record s {
        ins = record (s.ins) { argument = record (s.ins.argument) { byte_arg = some b } };
      })
  pub branches :
      (offset : ℕ) (s : Decoding)
      → Holds s
      → Holds (record s {
        ins = record (s.ins) { argument = record (s.ins.argument) { branch_offset = offset } };
      })
  pub lines :
      (value : ℕ) (s : Decoding)
      → Holds s
      → Holds (record s {
        ins = record (s.ins) { argument = record (s.ins.argument) { line_info = value } };
      })
  pub fresh :
      (kind : OperandType) (s : Decoding)
      → Holds s
      → Holds (record s {
        ins = record (s.ins) {
          argument = record {
            operands = kind;
            branch_offset = 0;
            line_info = 0;
            byte_arg = none;
            literals = [];
          };
        };
      })
  pub rewinds : (s : Decoding) → Holds s → Holds (record s { bytes = drop (s.ins.offset + 1) code })

abbrev pub IsTyped : BytecodeArguments → Decoding → Type 0
IsTyped args s =
    All (λ r. r < args.register_end) s.ins.read_regs × All (HasItsType args) s.ins.argument.literals

pub IsTyped-IsStable :
    (args : BytecodeArguments) (code : List ℕ) → IsStable args code (IsTyped args)
IsTyped-IsStable args code = record {
  marks = λ f s ok. ok;
  writes = λ r s ok. ok;
  reads = λ r s small ok.
      (All-append (λ r. r < args.register_end) s.ins.read_regs (r ∷ []) ok.0 (small, tt), ok.1);
  literals = λ lit s h ok.
      (ok.0, All-append (HasItsType args) s.ins.argument.literals (lit ∷ []) ok.1 (h, tt));
  consumes = λ rest s le ok. ok;
  byte_args = λ b s ok. ok;
  branches = λ offset s ok. ok;
  lines = λ value s ok. ok;
  fresh = λ kind s ok. (ok.0, tt);
  rewinds = λ s ok. ok;
}

module _ {args : BytecodeArguments} {code : List ℕ} {Holds : Decoding → Type 0}
    (l : IsStable args code Holds) where
  -- Where the property held, it holds again, and the value has its own.
  abbrev pub Keeps : {A : Type 0} → (A → Type 0) → M A → Type 0
  Keeps P m = (s : Decoding) → Holds s → Yields (λ a s'. P a × Holds s') (m s)

  abbrev pub KeepsTyped : M (Unit {0}) → Type 0
  KeepsTyped = Keeps (λ u. Unit {0})

  after-Keeps :
      {A B : Type 0} (P : A → Type 0) (Q : B → Type 0) (o : Option (A × Decoding)) (f : A → M B)
      → Yields (λ a s'. P a × Holds s') o
      → ((a : A) → P a → Keeps Q (f a))
      → Yields (λ b s'. Q b × Holds s') (after o f)
  after-Keeps P Q none f ho hf = tt
  after-Keeps P Q (some (a, s)) f ho hf = hf a ho.0 s ho.1

  pub bind-Keeps :
      {A B : Type 0} (P : A → Type 0) (Q : B → Type 0) (m : M A) (f : A → M B)
      → Keeps P m
      → ((a : A) → P a → Keeps Q (f a))
      → Keeps Q (m >>= f)
  bind-Keeps P Q m f hm hf s ok = after-Keeps P Q (m s) f (hm s ok) hf

  pub then-Keeps :
      {B : Type 0} (Q : B → Type 0) (m : M (Unit {0})) (k : M B)
      → KeepsTyped m
      → Keeps Q k
      → Keeps Q (m >> k)
  then-Keeps Q m k hm hk s ok = after-Keeps (λ u. Unit {0}) Q (m s) (λ u. k) (hm s ok) (λ u t. hk)

  -- What an assertion says holds behind it.
  pub assert-Keeps :
      {B : Type 0} (Q : B → Type 0) (b : Bool) (k : M B)
      → (b ≡ true → Keeps Q k)
      → Keeps Q (assert b >> k)
  assert-Keeps Q true k hk s ok = hk refl s ok
  assert-Keeps Q false k hk s ok = tt

  pub if-KeepsTyped :
      (b : Bool) (m k : M (Unit {0}))
      → (b ≡ true → KeepsTyped m)
      → KeepsTyped k
      → KeepsTyped (if b then m else k)
  if-KeepsTyped true m k hm hk = hm refl
  if-KeepsTyped false m k hm hk = hk

  pub done-Keeps : KeepsTyped done
  done-Keeps s ok = (tt, ok)

  pub return-Keeps : {A : Type 0} (P : A → Type 0) (a : A) → P a → Keeps P (return a)
  return-Keeps P a h s ok = (h, ok)

  pub mark-Keeps : (f : InstFlags) → KeepsTyped (mark f)
  unfolding mark
  mark-Keeps f s ok = (tt, l.marks f s ok)

  pub store_write_reg-Keeps : (r : ℕ) → KeepsTyped (store_write_reg r)
  unfolding store_write_reg
  store_write_reg-Keeps r s ok = (tt, l.writes r s ok)

  pub push_read_reg-Keeps : (r : ℕ) → ltb r args.register_end ≡ true → KeepsTyped (push_read_reg r)
  unfolding push_read_reg
  push_read_reg-Keeps r h s ok = (tt, l.reads r s (ground arith) ok)

  pub add_literal-Keeps : (lit : Literal) → HasItsType args lit → KeepsTyped (add_literal lit)
  unfolding add_literal
  add_literal-Keeps lit h s ok = (tt, l.literals lit s h ok)

  pub take_from-Keeps :
      (r : Read) (s : Decoding)
      → IsRest s.bytes r
      → Holds s
      → Yields (λ n s'. (Unit {0}) × Holds s') (take_from r s)
  take_from-Keeps none s le ok = tt
  take_from-Keeps (some (value, rest)) s le ok = (tt, l.consumes rest s le ok)

  pub read_byte_arg-Keeps : KeepsTyped read_byte_arg
  unfolding read_byte_arg next_byte store_byte_arg
  read_byte_arg-Keeps =
      bind-Keeps (λ b. Unit {0}) (λ u. Unit {0}) next_byte store_byte_arg
        (λ s ok. take_from-Keeps (next s.bytes) s (next-IsRest s.bytes) ok)
        (λ b t s ok. (tt, l.byte_args b s ok))

  pub read_literal_index-Keeps : Keeps (λ index. Unit {0}) (read_literal_index args)
  unfolding read_literal_index
  read_literal_index-Keeps s ok =
      take_from-Keeps (decode_literal_index args s.bytes) s
        (decode_literal_index-IsRest args s.bytes) ok

  pub literal_at-Keeps : (index : ℕ) → Keeps (HasItsType args) (literal_at args index)
  unfolding literal_at
  literal_at-Keeps index =
      let lit : Literal = record { kind = literal_type args index; index = index } in
      assert-Keeps (HasItsType args) _ _ (λ h.
        then-Keeps (HasItsType args) _ _
          (if-KeepsTyped (ltb index args.register_end) _ done
            (λ small.
              then-Keeps (λ u. Unit {0}) _ _ (mark-Keeps InstFlags.read_reg)
                (push_read_reg-Keeps index small))
            done-Keeps)
          (then-Keeps (HasItsType args) (add_literal lit) (return lit) (add_literal-Keeps lit refl)
            (λ s ok. (refl, ok))))

  -- The rest of the decoder's parts.
  pub decode_literal-Keeps : Keeps (HasItsType args) (decode_literal args)
  unfolding decode_literal
  decode_literal-Keeps =
      bind-Keeps (λ index. Unit {0}) (HasItsType args) (read_literal_index args) (literal_at args)
        read_literal_index-Keeps (λ index t. literal_at-Keeps index)

  pub forget-Keeps : (m : M Literal) → Keeps (HasItsType args) m → KeepsTyped (m >>= (λ lit. done))
  forget-Keeps m hm =
      bind-Keeps (HasItsType args) (λ u. Unit {0}) m (λ lit. done) hm (λ lit h. done-Keeps)

  pub set_write_reg-Keeps : (r : ℕ) → KeepsTyped (set_write_reg args r)
  unfolding set_write_reg
  set_write_reg-Keeps r =
      then-Keeps (λ u. Unit {0}) (mark InstFlags.write_reg) _ (mark-Keeps InstFlags.write_reg)
        (then-Keeps (λ u. Unit {0}) (store_write_reg r) _ (store_write_reg-Keeps r)
          (forget-Keeps (literal_at args r) (literal_at-Keeps r)))

  pub add_read_reg-Keeps :
      (r : ℕ) → ltb r args.register_end ≡ true → KeepsTyped (add_read_reg args r)
  unfolding add_read_reg
  add_read_reg-Keeps r small =
      then-Keeps (λ u. Unit {0}) (mark InstFlags.read_reg) _ (mark-Keeps InstFlags.read_reg)
        (then-Keeps (λ u. Unit {0}) (push_read_reg r) _ (push_read_reg-Keeps r small)
          (forget-Keeps (literal_at args r) (literal_at-Keeps r)))

  pub process_put-Keeps : (is_put_ident : Bool) → KeepsTyped (process_put args is_put_ident)
  unfolding process_put process_put_ident
  process_put-Keeps false = done-Keeps
  process_put-Keeps true =
      bind-Keeps (λ index. Unit {0}) (λ u. Unit {0}) (read_literal_index args) _
        read_literal_index-Keeps
        (λ index t.
          if-KeepsTyped (ltb index args.register_end) (set_write_reg args index) _
            (λ small. set_write_reg-Keeps index)
            (forget-Keeps (literal_at args index) (literal_at-Keeps index)))
