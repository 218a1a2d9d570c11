-- ===== src/Stream/Tiling.antt =====
-- `buildInstructions` reads the whole code, one instruction behind the other, and comes to an end.
use mathlib.Core.Path.{subst}
use jerryscript_optimizer.Prelude.{
  ℕ, zero, suc, ◌+◌, ◌-◌, ◌%◌, ◌^◌, ◌<◌, ◌≤◌, ◌≡◌, refl, sym, true, false, ap, ◌∙◌, inl, inr,
  Bool-cases, Option, none, some, List, [], ◌∷◌, ◌==◌, leb, leb→le, length, length-drop, drop,
  drop_all, arith,
}
use jerryscript_optimizer.Inst.{Ins}
use jerryscript_optimizer.Bytecode.{BytecodeArguments}
use jerryscript_optimizer.Bytecode.Arguments.{IsOrdered}
use jerryscript_optimizer.Stream.{
  Tables, Unset, Built, decode_ins, finish, after_turn, build_loop, build_instructions, offset_of,
  reverse_onto, set_previous_size,
}
use jerryscript_optimizer.Stream.Decode.{IsBehind, LeavesBehind, StandsAt, decode_ins_lem}
use jerryscript_optimizer.Stream.Chain.{
  Tiles, IsStop, IsChain, reverse-Tiles, IsOpen, sized, sized-size, closed-IsChain,
  set_previous_size-IsChain,
}

-- A rest of the code is what stands behind the bytes read.
drop-left :
    {A : Type 0} (k : ℕ) (xs : List A) → drop k xs ≡ drop (length xs - length (drop k xs)) xs
drop-left k xs = elim (Bool-cases (leb k (length xs))) [
  | inl e ↦
      let within : k ≤ length xs = leb→le k (length xs) e in
      let same : k ≡ length xs - length (drop k xs) = omega (arith, length-drop k xs) in
      ap (λ n. drop n xs) same
  | inr e ↦
      let beyond : length xs ≤ k = ground arith in
      let all : length xs ≤ length xs - length (drop k xs) = omega (arith, length-drop k xs) in
      drop_all k xs beyond ∙ sym (drop_all _ xs all)
]

module _ (t : Tables) (args : BytecodeArguments) (unset : ℕ → Unset) (code : List ℕ) where
  pub record IsTiling (insns : List Ins) : Type 0 where
    pub end : ℕ
    pub tiles : Tiles t args unset code 0 end insns
    pub within : end ≤ length code
    pub stops : IsStop t args unset code end

  -- What each outcome says. An assertion fails only where the bytes at some offset do not decode.
  abbrev pub IsResult : Built → Type 0
  IsResult (Built.built insns) = IsTiling insns
  IsResult Built.failed =
      (off : ℕ) × (off < length code) × (decode_ins t args unset code off (drop off code) ≡ none)
  IsResult Built.undefined = IsStop t args unset code 0
  IsResult Built.out_of_fuel = ⊥

  closed-IsResult :
      (p : ℕ) (l : List Ins)
      → IsChain t args unset code p l
      → p ≤ length code
      → IsStop t args unset code p
      → IsResult (Built.built (reverse_onto [] l))
  closed-IsResult p l chain le stop = record {
    end = p;
    tiles = reverse-Tiles t args unset code p p [] l chain refl;
    within = le;
    stops = stop;
  }

  -- `p` is how far the code was read.
  record IsRead (p : ℕ) (bytes : List ℕ) : Type 0 where
    within : p ≤ length code
    left : bytes ≡ drop p code
    here : offset_of t args unset code bytes ≡ p

  behind-IsRead :
      (off : ℕ) (bytes : List ℕ)
      → length code < 2 ^ 32
      → off < length code
      → IsBehind code off bytes
      → (p : ℕ) × (off < p) × IsRead p bytes
  behind-IsRead off bytes small lt (k, more, e) =
      let size : length bytes ≡ length code - k = ap length e ∙ length-drop k code in
      (
        length code - length bytes,
        omega (arith, size),
        record {
          within = omega arith;
          left =
              e
              ∙ drop-left k code
              ∙ ap (λ (l : List ℕ). drop (length code - length l) code) (sym e);
          here = omega arith;
        },
      )

  -- The loop ended at the end of the code: the last instruction gets its size.
  finish_open :
      (p : ℕ) (made : List Ins)
      → length code < 2 ^ 32
      → IsRead p []
      → IsOpen t args unset code p made
      → IsResult (finish t args unset code made [])
  unfolding finish
  finish_open p [] small at fresh = inl (omega (arith, at.here))
  finish_open p (i ∷ older) small at (fresh, chain) =
      let z : (i.size == 0) ≡ true = ground (arith, fresh.no_size) in
      let whole : p ≡ length code = omega (arith, at.here) in
      let bound : p < 2 ^ 32 = omega (arith, whole) in
      rw (z, at.here)
        (closed-IsResult p (sized t args unset code p i ∷ older)
          (closed-IsChain t args unset code p i older bound fresh chain) at.within (inl whole))

  -- The loop ended at the end mark: the last instruction has its size.
  finish_closed :
      (p : ℕ) (made : List Ins) (rest : List ℕ)
      → length code < 2 ^ 32
      → p ≤ length code
      → IsOpen t args unset code p made
      → IsStop t args unset code p
      → IsResult (finish t args unset code (set_previous_size p made) rest)
  unfolding finish set_previous_size
  finish_closed p [] rest small le fresh stop = subst (IsStop t args unset code) (sym fresh) stop
  finish_closed p (i ∷ older) rest small le (fresh, chain) stop =
      let bound : p < 2 ^ 32 = omega arith in
      let size = sized-size t args unset code p i bound fresh in
      let z : ((p + 2 ^ 32 - i.offset) % 2 ^ 32 == 0) ≡ false =
        ground (arith, size, fresh.before) in
      rw z (
        closed-IsResult p (sized t args unset code p i ∷ older)
          (closed-IsChain t args unset code p i older bound fresh chain) le stop)

  -- A turn of the loop that reads an instruction.
  module _ (o : IsOrdered args) (clean : (n : ℕ) → (unset n).size ≡ 0)
      (small : length code < 2 ^ 32) where
    -- The instruction just read has no size yet.
    added-IsOpen :
        (p q : ℕ) (ins : Ins) (rest : List ℕ) (made : List Ins)
        → p ≤ length code
        → StandsAt code p (record { ins = ins; bytes = rest })
        → decode_ins t args unset code p (drop p code) ≡ some (some ins, rest)
        → p < q
        → IsRead q rest
        → IsOpen t args unset code p made
        → IsOpen t args unset code q (ins ∷ set_previous_size p made)
    added-IsOpen p q ins rest made le at e more read fresh =
        let bound : p < 2 ^ 32 = omega arith in
        let here : p ≡ ins.offset = sym at.at in
        (
          record {
            no_size = at.no_size;
            before = omega (arith, here);
            decoded = rw here at (e ∙ ap (λ l. some (some ins, l)) read.left);
          },
          subst (λ n. IsChain t args unset code n (set_previous_size p made)) here
              (set_previous_size-IsChain t args unset code p made bound fresh),
        )

    turn_lem :
        (p : ℕ) (made : List Ins) (r : Option (Option Ins × List ℕ)) (k : List Ins → List ℕ → Built)
        → p < length code
        → decode_ins t args unset code p (drop p code) ≡ r
        → LeavesBehind t args unset code o clean p r
        → IsOpen t args unset code p made
        → ((q : ℕ) (made' : List Ins) (rest : List ℕ)
            → p < q
            → IsRead q rest
            → IsOpen t args unset code q made'
            → IsResult (k made' rest))
        → IsResult (after_turn t args unset code (set_previous_size p made) r k)
    unfolding after_turn
    turn_lem p made none k lt e left fresh go = (p, lt, e)
    turn_lem p made (some (none, rest)) k lt e left fresh go =
        finish_closed p made rest small (omega arith) fresh (inr (rest, e))
    turn_lem p made (some (some ins, rest)) k lt e left fresh go =
        let (q, more, read) = behind-IsRead p rest small lt left.behind in
        go q (ins ∷ set_previous_size p made) rest more read
          (added-IsOpen p q ins rest made (omega arith) left e more read fresh)

    build_loop_lem :
        (fuel p : ℕ) (made : List Ins) (bytes : List ℕ)
        → length bytes < fuel
        → IsRead p bytes
        → IsOpen t args unset code p made
        → IsResult (build_loop t args unset code fuel made bytes)
    unfolding build_loop
    build_loop_lem zero p made bytes enough read fresh = absurd (omega arith)
    build_loop_lem (suc fuel) p made [] enough read fresh = finish_open p made small read fresh
    build_loop_lem (suc fuel) p made (b ∷ bytes) enough read fresh =
        let size : suc (length bytes) ≡ length code - p =
          ap length read.left ∙ length-drop p code in
        let lt : p < length code = omega (arith, size) in
        rw read.here (
          turn_lem p made (decode_ins t args unset code p (b ∷ bytes)) _ lt
            (ap (decode_ins t args unset code p) (sym read.left))
            (decode_ins_lem t args unset code o clean p b bytes read.left) fresh
            (λ q made' rest more read' fresh'.
              let fewer : length rest < fuel =
                omega (arith, size, ap length read'.left, length-drop q code) in
              build_loop_lem fuel q made' rest fewer read' fresh'))

  -- Where the ends are in order, the memory of a new instruction holds 0 at its size and the code is
  -- smaller than 2 ^ 32 bytes, the loop comes to an end. The instructions that it returns lie side by
  -- side from the start of the code to its end or to the end mark; each is what the bytes at its
  -- offset decode to, and its size is the number of bytes that this takes. Otherwise the code begins
  -- with the end mark or is empty, or the bytes at some offset fail an assertion.
  pub build_instructions_correct :
      IsOrdered args
      → ((n : ℕ) → (unset n).size ≡ 0)
      → length code < 2 ^ 32
      → IsResult (build_instructions t args unset code)
  unfolding build_instructions
  build_instructions_correct o clean small =
      build_loop_lem o clean small (suc (length code)) 0 [] code (omega arith)
        (record { within = omega arith; left = refl; here = omega arith }) refl

pub built_tiles :
    (t : Tables) (args : BytecodeArguments) (unset : ℕ → Unset) (code : List ℕ)
    → IsOrdered args
    → ((n : ℕ) → (unset n).size ≡ 0)
    → length code < 2 ^ 32
    → (l : List Ins) → build_instructions t args unset code ≡ Built.built l
    → IsTiling t args unset code l
built_tiles t args unset code o clean small l e =
    subst (IsResult t args unset code) e
      (build_instructions_correct t args unset code o clean small)
