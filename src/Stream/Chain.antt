-- ===== src/Stream/Chain.antt =====
-- What the list of instructions of `buildInstructions` is, in the order of the code: each one is
-- what is decoded at its offset, and starts where the one before it ends.
use jerryscript_optimizer.Prelude.{
  ℕ, ◌+◌, ◌-◌, ◌%◌, ◌^◌, ◌<◌, ◌≡◌, refl, ap, ◌∙◌, ◌⊎◌, none, some, List, [], ◌∷◌, length, drop,
  arith,
}
use jerryscript_optimizer.Inst.{Ins}
use jerryscript_optimizer.Bytecode.{BytecodeArguments}
use jerryscript_optimizer.Stream.{Tables, Unset, decode_ins, reverse_onto, set_previous_size}

module _ (t : Tables) (args : BytecodeArguments) (unset : ℕ → Unset) (code : List ℕ) where
  -- But for its size, which was 0, the instruction is what the bytes at its offset decode to, and
  -- its size is the number of bytes that decoding takes.
  pub record IsPlaced (i : Ins) : Type 0 where
    pub takes : 0 < i.size
    pub decoded :
        decode_ins t args unset code i.offset (drop i.offset code)
        ≡ some (some (record i { size = 0 }), drop (i.offset + i.size) code)

  -- The instructions lie side by side from `start` to `end`.
  abbrev pub Tiles : ℕ → ℕ → List Ins → Type 0
  Tiles start end [] = start ≡ end
  Tiles start end (i ∷ rest) =
      (i.offset ≡ start) × (IsPlaced i) × (Tiles (i.offset + i.size) end rest)

  -- Where the loop ends: at the end of the code or at the end mark.
  abbrev pub IsStop : ℕ → Type 0
  IsStop off =
      (off ≡ length code)
      ⊎ ((rest : List ℕ) × (decode_ins t args unset code off (drop off code) ≡ some (none, rest)))

  -- The same with the newest in front.
  abbrev pub IsChain : ℕ → List Ins → Type 0
  IsChain end [] = 0 ≡ end
  IsChain end (i ∷ older) = (i.offset + i.size ≡ end) × (IsPlaced i) × (IsChain i.offset older)

  pub reverse-Tiles :
      (mid end : ℕ) (acc l : List Ins)
      → IsChain mid l
      → Tiles mid end acc
      → Tiles 0 end (reverse_onto acc l)
  reverse-Tiles mid end acc [] c ts = rw c ts
  reverse-Tiles mid end acc (i ∷ older) (e, placed, c) ts =
      reverse-Tiles i.offset end (i ∷ acc) older c (refl, placed, rw e ts)

  -- The newest instruction has no size yet, and what is left begins at `p`.
  pub record IsOpenAt (p : ℕ) (i : Ins) : Type 0 where
    pub no_size : i.size ≡ 0
    pub before : i.offset < p
    pub decoded :
        decode_ins t args unset code i.offset (drop i.offset code) ≡ some (some i, drop p code)

  abbrev pub IsOpen : ℕ → List Ins → Type 0
  IsOpen p [] = 0 ≡ p
  IsOpen p (i ∷ older) = IsOpenAt p i × IsChain i.offset older

  abbrev pub sized : ℕ → Ins → Ins
  sized p i = record i { size = (p + 2 ^ 32 - i.offset) % 2 ^ 32 }

  pub sized-size : (p : ℕ) (i : Ins) → p < 2 ^ 32 → IsOpenAt p i → (sized p i).size ≡ p - i.offset
  sized-size p i lt h = omega (arith, h.before)

  sized-IsPlaced : (p : ℕ) (i : Ins) → p < 2 ^ 32 → IsOpenAt p i → IsPlaced (sized p i)
  sized-IsPlaced p i lt h =
      let e = sized-size p i lt h in
      let clear : i ≡ record (sized p i) { size = 0 } = ap (λ n. record i { size = n }) h.no_size in
      let stop : p ≡ i.offset + (sized p i).size = omega (arith, h.before, e) in
      record {
        takes = omega (arith, h.before, e);
        decoded =
            h.decoded
            ∙ ap (λ j. some (some j, drop p code)) clear
            ∙ ap (λ n. some (some (record i { size = 0 }), drop n code)) stop;
      }

  pub closed-IsChain :
      (p : ℕ) (i : Ins) (older : List Ins)
      → p < 2 ^ 32
      → IsOpenAt p i
      → IsChain i.offset older
      → IsChain p (sized p i ∷ older)
  closed-IsChain p i older lt h c =
      (omega (arith, h.before, sized-size p i lt h), sized-IsPlaced p i lt h, c)

  pub set_previous_size-IsChain :
      (p : ℕ) (made : List Ins) → p < 2 ^ 32 → IsOpen p made → IsChain p (set_previous_size p made)
  unfolding set_previous_size
  set_previous_size-IsChain p [] lt h = h
  set_previous_size-IsChain p (i ∷ older) lt (h, c) = closed-IsChain p i older lt h c
