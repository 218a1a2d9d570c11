-- ===== src/Stream/Graph.antt =====
-- From the bytes of a function to its graph: `buildInstructions`, and `run` of
-- src/control-flow-analysis.cpp on what it leaves.
use mathlib.Core.Path.{subst}
use jerryscript_optimizer.Prelude.{
  ℕ, ◌+◌, ◌^◌, ◌<◌, ◌≤◌, ◌≡◌, refl, inl, inr, true, Option, none, some, List, [], ◌∷◌, length, last,
  All, arith,
}
use jerryscript_optimizer.Prelude.Count.{All-mem}
use jerryscript_optimizer.Prelude.Sets.{mem, mem-cons}
use jerryscript_optimizer.Inst.{Ins, is_jump, is_conditional_jump, is_try_start, jump_target}
use jerryscript_optimizer.Blocks.{BlockHeap}
use jerryscript_optimizer.Bytecode.{BytecodeArguments}
use jerryscript_optimizer.Bytecode.Arguments.{IsOrdered}
use jerryscript_optimizer.Cfg.{Graph, InsHeap, next_offset, reaches, has_next, run}
use jerryscript_optimizer.Cfg.Leaders.{HasOffsets, JumpsInside, Ascending}
use jerryscript_optimizer.Cfg.Build.{IsEmptyMemory}
use jerryscript_optimizer.Cfg.Flow.{Catches, IsFlow}
use jerryscript_optimizer.Cfg.Run.{IsCfg, run_correct}
use jerryscript_optimizer.Stream.{Tables, Unset, Built, build_instructions}
use jerryscript_optimizer.Stream.Tiling.{built_tiles}
use jerryscript_optimizer.Stream.Memory.{
  at_offset, offsets, at_offset-HasOffsets, Runs, Tiles-Runs, Runs-lie, Runs-Ascending, Runs-next,
  Runs-JumpsInside,
}

-- What the code itself must see to: a jump goes to an instruction, a conditional jump does not stand
-- last, and a `try` ends at a `catch` with instructions in front of it and somewhere to go.
pub record HasTargets (m : InsHeap) (order : List ℕ) (x : ℕ) : Type 0 where
  pub jumps : is_jump (m x) ≡ true → mem (jump_target (m x)) order ≡ true
  pub conditions : is_conditional_jump (m x) ≡ true → has_next m order (m x) ≡ true
  pub tries : is_try_start (m x) ≡ true → Catches m order (jump_target (m x))

last-All : (P : ℕ → Type 0) (xs : List ℕ) (z : ℕ) → All P xs → last xs ≡ some z → P z
last-All P [] z h e = absurd (cc)
last-All P (x ∷ []) z h e = let q : x ≡ z = cc in subst P q h.0
last-All P (x ∷ y ∷ xs) z h e = last-All P (y ∷ xs) z h.1 e

reaches_below :
    (m : InsHeap) (n end : ℕ) (o : Option ℕ)
    → HasOffsets m
    → ((z : ℕ) → o ≡ some z → z < end)
    → reaches n m o ≡ true
    → n < end
reaches_below m n end none off below e = absurd (cc)
reaches_below m n end (some z) off below e = ground (arith, off z, below z refl)

-- What the control flow analysis asks of the code.
pub record IsCode (m : InsHeap) (first : ℕ) (rest : List ℕ) : Type 0 where
  pub stands : HasOffsets m
  pub ascends : Ascending (first ∷ rest)
  pub inside : JumpsInside m (first ∷ rest) rest
  pub flows : (x : ℕ) → mem x (first ∷ rest) ≡ true → IsFlow m (first ∷ rest) x

module _ (m : InsHeap) (start end first : ℕ) (rest : List ℕ) (off : HasOffsets m)
    (runs : Runs m start end (first ∷ rest)) (small : end < 2 ^ 32)
    (targets : (x : ℕ) → mem x (first ∷ rest) ≡ true → HasTargets m (first ∷ rest) x) where
  abbrev order : List ℕ
  order = first ∷ rest

  has_next_below : (x : ℕ) → has_next m order (m x) ≡ true → next_offset (m x) < end
  has_next_below x h =
      let lie = (Runs-lie m start end order runs).1 in
      reaches_below m (next_offset (m x)) end (last order) off
        (λ z e. (last-All (λ y. (start ≤ y) × (y < end)) order z lie e).1) h

  -- The offset of what comes next does not wrap round.
  next_stands :
      (x : ℕ)
      → mem x order ≡ true
      → (next_offset (m x) ≡ x + (m x).size)
        × ((next_offset (m x) < end) → mem (next_offset (m x)) order ≡ true)
  next_stands x mx = elim (Runs-next m start end order x runs mx) [
    | inl e ↦ (omega (arith, off x), λ lt. absurd (omega (arith, off x)))
    | inr e ↦
        let lie = (Runs-lie m start end order runs).1 in
        let le = (All-mem (λ y. (start ≤ y) × (y < end)) order (x + (m x).size) lie e).1 in
        let same : next_offset (m x) ≡ x + (m x).size = omega (arith, off x, le) in
        (same, λ lt. rw same e)
  ]

  IsFlow-at : (x : ℕ) → mem x order ≡ true → IsFlow m order x
  IsFlow-at x mx =
      let t = targets x mx in
      let (same, stands) = next_stands x mx in
      (
        t.jumps,
        λ c. stands (has_next_below x (t.conditions c)),
        λ h. stands (has_next_below x h),
        t.tries,
      )

  inside_at : JumpsInside m order rest
  inside_at = Runs-JumpsInside m order (first + (m first).size) end rest runs.2 (λ x mx.
      let mx' : mem x order ≡ true = ground (arith, mem-cons x first rest) in
      let t = targets x mx' in
      (
        t.jumps,
        λ c.
            let below = has_next_below x (t.conditions c) in
            omega (arith, below, (next_stands x mx').0),
      ))

  pub Runs-IsCode : IsCode m first rest
  Runs-IsCode = record {
    stands = off;
    ascends = Runs-Ascending m start end order runs;
    inside = inside_at;
    flows = IsFlow-at;
  }

module _ (t : Tables) (args : BytecodeArguments) (unset : ℕ → Unset) (code : List ℕ)
    (o : IsOrdered args) (clean : (n : ℕ) → (unset n).size ≡ 0) (small : length code < 2 ^ 32) where
  -- What is built is code as the control flow analysis takes it.
  pub built-IsCode :
      (i : Ins) (rest : List Ins)
      → build_instructions t args unset code ≡ Built.built (i ∷ rest)
      → ((x : ℕ)
          → mem x (offsets (i ∷ rest)) ≡ true
          → HasTargets (at_offset unset (i ∷ rest)) (offsets (i ∷ rest)) x)
      → IsCode (at_offset unset (i ∷ rest)) i.offset (offsets rest)
  built-IsCode i rest e targets =
      let til = built_tiles t args unset code o clean small (i ∷ rest) e in
      let all = i ∷ rest in
      Runs-IsCode (at_offset unset all) 0 til.end i.offset (offsets rest)
        (at_offset-HasOffsets unset all) (Tiles-Runs t args unset code 0 til.end all til.tiles)
        (omega (arith, til.within)) targets

  pub built-run :
      (h : BlockHeap) (i : Ins) (rest : List Ins)
      → IsEmptyMemory h
      → build_instructions t args unset code ≡ Built.built (i ∷ rest)
      → ((x : ℕ)
          → mem x (offsets (i ∷ rest)) ≡ true
          → HasTargets (at_offset unset (i ∷ rest)) (offsets (i ∷ rest)) x)
      → (g : Graph) × (run h (at_offset unset (i ∷ rest)) (offsets (i ∷ rest)) ≡ some g)
        × IsCfg (at_offset unset (i ∷ rest)) i.offset (offsets rest) g
  built-run h i rest empty e targets =
      let c = built-IsCode i rest e targets in
      run_correct h (at_offset unset (i ∷ rest)) i.offset (offsets rest) empty c.stands c.ascends
        c.inside c.flows
