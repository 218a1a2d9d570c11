-- ===== src/Snapshot/Regions.antt =====
-- Where `write` puts the snapshots: side by side in the output buffer, and never outside it.
use mathlib.Core.Path.{subst}
use jerryscript_optimizer.Prelude.{
  ℕ, ◌+◌, ◌*◌, ◌<◌, ◌≤◌, ◌≡◌, ◌⊎◌, inl, inr, refl, sym, ap, ◌∙◌, Bool, true, false, Bool-cases,
  Option, none, some, List, [], ◌∷◌, ◌++◌, ◌==◌, length, length-append, bit_and, arith,
  if◌then◌else◌,
}
use jerryscript_optimizer.Emit.{Compiled}
use jerryscript_optimizer.Snapshot.{
  Globals, SnapshotHeader, Jerry, Function, Layout, Written, Result, output_words, emit_function,
  finish_snapshot, with_literals, behind_code, write_snapshot, push_snapshot, write_function,
  choose_final, finish_write, after_write, after_emit, write_loop, write, header_of,
}

-- JerryScript's functions do not write behind the size that they are given.
pub record StaysInside {W : Type 0} (j : Jerry W) : Type 0 where
  pub adds :
      (code : Compiled) (buffer size : ℕ) (globals : Globals) (w : W)
      → (j.snapshot_add_compiled_code code buffer size globals w).0.failed ≡ false
      → (j.snapshot_add_compiled_code code buffer size globals w).0.write_offset ≤ size
  pub adds_static :
      (code : Compiled) (buffer size : ℕ) (globals : Globals) (w : W)
      → (j.static_snapshot_add_compiled_code code buffer size globals w).0.failed ≡ false
      → (j.static_snapshot_add_compiled_code code buffer size globals w).0.write_offset ≤ size
  pub saves :
      (code : Compiled) (buffer size offset : ℕ) (w : W) (offset' lit_map : ℕ)
      → (j.save_literals code buffer size offset w).0 ≡ some (offset', lit_map)
      → offset' ≤ size
  pub merges :
      (buffers sizes : List ℕ) (buffer size : ℕ) (w : W)
      → (j.jerry_merge_snapshots buffers sizes buffer size w).0 ≤ size

-- The snapshots lie one behind the other: each takes as many words as it has bytes.
abbrev pub SideBySide : ℕ → ℕ → List ℕ → List ℕ → Type 0
SideBySide start end [] [] = start ≡ end
SideBySide start end (size ∷ sizes) (buffer ∷ buffers) =
    (buffer ≡ start) × (0 < size) × (SideBySide (start + size) end sizes buffers)
SideBySide start end _ _ = ⊥

SideBySide-append :
    (start end size : ℕ) (sizes buffers : List ℕ)
    → 0 < size
    → SideBySide start end sizes buffers
    → SideBySide start (end + size) (sizes ++ (size ∷ [])) (buffers ++ (end ∷ []))
SideBySide-append start end size [] [] more h = (sym h, more, ap (λ n. n + size) h)
SideBySide-append start end size (x ∷ xs) (y ∷ ys) more (at, some_bytes, h) =
    (at, some_bytes, SideBySide-append (start + x) end size xs ys more h)
SideBySide-append start end size [] (y ∷ ys) more h = absurd h
SideBySide-append start end size (x ∷ xs) [] more h = absurd h

-- How many functions have an object of their own.
abbrev pub own_functions : List Function → ℕ
own_functions [] = 0
own_functions (f ∷ fs) = (if f.has_function then 1 else 0) + own_functions fs

module _ {W : Type 0} (j : Jerry W) where
  -- `n` snapshots lie side by side, and what is left of the buffer stands behind them.
  pub record IsLaidOut (n : ℕ) (s : Written W) : Type 0 where
    pub side_by_side : SideBySide 0 s.buffer_p s.sizes s.buffers
    pub left : s.buffer_p + s.buffer_size ≡ output_words
    pub counted : length s.sizes ≡ n

  -- The loop of `write` comes from the functions `fs` and what was written before them to the
  -- functions that are left, each function in between emitted and, if it has an object of its own,
  -- its snapshot pushed.
  pub data Reaches (l : Layout) (rest : List Function) (s' : Written W)
      : List Function → Written W → Type 0 where
    at_last : Reaches l rest s' rest s'
    passed :
        {fs : List Function} {s : Written W} (f : Function) (code : Compiled)
        → emit_function l f ≡ some code
        → f.has_function ≡ false
        → Reaches l rest s' fs s
        → Reaches l rest s' (f ∷ fs) s
    pushed :
        {fs : List Function} {s : Written W} (f : Function) (code : Compiled) (s1 : Written W)
        → emit_function l f ≡ some code
        → f.has_function ≡ true
        → write_function j code s ≡ some s1
        → Reaches l rest s' fs s1
        → Reaches l rest s' (f ∷ fs) s

  -- What each outcome of the loop says, from `s` on, where in the end `n` snapshots are made.
  abbrev pub IsOutcome : ℕ → Layout → List Function → Written W → Result W → Type 0
  IsOutcome n l fs s0 (Result.created buffer size w) =
      (s : Written W) × Reaches l [] s fs s0
      × (IsLaidOut n s)
      × (4 * buffer + size ≤ 4 * output_words)
      × (((s.buffers ≡ buffer ∷ []) × (s.sizes ≡ size ∷ []) × (w ≡ s.content))
          ⊎ ((buffer ≡ s.buffer_p)
              × (1 < n)
              × (j.jerry_merge_snapshots s.buffers s.sizes s.buffer_p s.buffer_size s.content
                  ≡ (size, w))))
  IsOutcome n l fs s0 Result.generation_error =
      (f : Function) × (rest : List Function) × (s : Written W) × (k : ℕ) × (code : Compiled)
      × Reaches l (f ∷ rest) s fs s0
      × (IsLaidOut k s)
      × (emit_function l f ≡ some code)
      × (f.has_function ≡ true)
      × ((write_snapshot j code 0 s.buffer_p s.buffer_size s.content).0 ≡ 0)
  IsOutcome n l fs s0 Result.failed =
      (f : Function) × (rest : List Function) × (s : Written W) × Reaches l (f ∷ rest) s fs s0
      × (emit_function l f ≡ none)
  IsOutcome n l fs s0 Result.undefined = (n ≡ 0) × ((s : Written W) × Reaches l [] s fs s0)

  -- One function more in front.
  before-IsOutcome :
      (n : ℕ) (l : Layout) (f : Function) (fs : List Function) (s s1 : Written W) (r : Result W)
      → ((rest : List Function) (s' : Written W)
          → Reaches l rest s' fs s1
          → Reaches l rest s' (f ∷ fs) s)
      → IsOutcome n l fs s1 r
      → IsOutcome n l (f ∷ fs) s r
  before-IsOutcome n l f fs s s1 (Result.created buffer size w) one (s', way, laid, within, which) =
      (s', one [] s' way, laid, within, which)
  before-IsOutcome n l f fs s s1 Result.generation_error one
        (g, rest, s', k, code, way, laid, em, own, zero) =
      (g, rest, s', k, code, one (g ∷ rest) s' way, laid, em, own, zero)
  before-IsOutcome n l f fs s s1 Result.failed one (g, rest, s', way, more) =
      (g, rest, s', one (g ∷ rest) s' way, more)
  before-IsOutcome n l f fs s s1 Result.undefined one (e, reached) =
      (e, (reached.0, one [] reached.0 reached.1))

  with_literals-le :
      (buffer size : ℕ) (header : SnapshotHeader) (r : Option (ℕ × ℕ) × W)
      → ((offset lit_map : ℕ) → r.0 ≡ some (offset, lit_map) → offset ≤ size)
      → (with_literals j buffer size header r).0 ≤ size
  unfolding with_literals finish_snapshot
  with_literals-le buffer size header (none, w) h = omega arith
  with_literals-le buffer size header (some (offset, lit_map), w) h =
      let le = h offset lit_map refl in omega arith

  behind_code-le :
      (inside : StaysInside j) (code : Compiled) (static : Bool) (buffer size : ℕ) (r : Globals × W)
      → (r.0.failed ≡ false → r.0.write_offset ≤ size)
      → (behind_code j code static buffer size r).0 ≤ size
  unfolding behind_code finish_snapshot
  behind_code-le inside code static buffer size (globals, w) h = elim (Bool-cases globals.failed) [
    | inl e ↦ rw e (omega arith)
    | inr e ↦ elim (Bool-cases static) [
      | inl st ↦ let le = h e in rw (e, st) (omega arith)
      | inr st ↦
          rw (e, st)
            (with_literals-le buffer size (header_of j globals) _ (λ offset lit_map saved.
              inside.saves code buffer size globals.write_offset w offset lit_map saved))
    ]
  ]

  -- A snapshot is not longer than the region that it is given.
  pub write_snapshot-le :
      (inside : StaysInside j) (code : Compiled) (opts buffer size : ℕ) (w : W)
      → (write_snapshot j code opts buffer size w).0 ≤ size
  unfolding write_snapshot
  write_snapshot-le inside code opts buffer size w =
      elim (Bool-cases (bit_and opts j.save_static == 0)) [
        | inl e ↦
            rw e (behind_code-le inside code false buffer size _ (inside.adds code buffer size _ w))
        | inr e ↦ rw e (
            behind_code-le inside code true buffer size _ (inside.adds_static code buffer size _ w))
      ]

  push_snapshot-IsLaidOut :
      (n res : ℕ) (s : Written W) (w : W)
      → IsLaidOut n s
      → 0 < res
      → res ≤ s.buffer_size
      → IsLaidOut (n + 1) (push_snapshot j s res w)
  unfolding push_snapshot
  push_snapshot-IsLaidOut n res s w h more le = record {
    side_by_side = SideBySide-append 0 s.buffer_p res s.sizes s.buffers more h.side_by_side;
    left = omega (arith, h.left);
    counted = length-append s.sizes (res ∷ []) ∙ ap (λ k. k + 1) h.counted;
  }

  choose_final-IsOutcome :
      (n : ℕ) (l : Layout) (s : Written W) (sizes buffers : List ℕ)
      → StaysInside j
      → IsLaidOut n s
      → s.sizes ≡ sizes
      → s.buffers ≡ buffers
      → SideBySide 0 s.buffer_p sizes buffers
      → IsOutcome n l [] s (choose_final j sizes buffers s)
  unfolding choose_final
  choose_final-IsOutcome n l s [] buffers inside h e f side =
      (sym h.counted ∙ ap length e, (s, at_last))
  choose_final-IsOutcome n l s (size ∷ []) [] inside h e f side = absurd side
  choose_final-IsOutcome n l s (size ∷ []) (buffer ∷ b ∷ buffers) inside h e f side =
      absurd (side.2)
  choose_final-IsOutcome n l s (size ∷ []) (buffer ∷ []) inside h e f (at, more, end) =
      (s, at_last, h, omega (arith, at, end, h.left), inl (f, e, refl))
  choose_final-IsOutcome n l s (size ∷ more ∷ sizes) buffers inside h e f side =
      let le = inside.merges buffers (size ∷ more ∷ sizes) s.buffer_p s.buffer_size s.content in
      let several : 1 < n = omega (arith, h.counted, ap length e) in
      (s, at_last, h, omega (arith, le, h.left), inr (refl, several, rw (e, f) refl))

  write_function-IsOutcome :
      (n m : ℕ) (l : Layout) (f : Function) (fs : List Function) (code : Compiled) (s : Written W)
      (k : Written W → Result W)
      → StaysInside j
      → emit_function l f ≡ some code
      → f.has_function ≡ true
      → IsLaidOut n s
      → ((s' : Written W) → IsLaidOut (n + 1) s' → IsOutcome m l fs s' (k s'))
      → IsOutcome m l (f ∷ fs) s (after_write j (write_function j code s) k)
  unfolding after_write write_function
  write_function-IsOutcome n m l f fs code s k inside em own h go =
      let r = write_snapshot j code 0 s.buffer_p s.buffer_size s.content in
      elim (Bool-cases (r.0 == 0)) [
        | inl e ↦
            let none_written : r.0 ≡ 0 = ground arith in
            rw e (f, fs, s, n, code, at_last, h, em, own, none_written)
        | inr e ↦
            let le = write_snapshot-le inside code 0 s.buffer_p s.buffer_size s.content in
            let more : 0 < r.0 = ground arith in
            let s1 = push_snapshot j s r.0 r.1 in
            let wrote : write_function j code s ≡ some s1 = rw e refl in
            rw e (
              before-IsOutcome m l f fs s s1 (k s1)
                (λ rest s' way. pushed f code s1 em own wrote way)
                (go s1 (push_snapshot-IsLaidOut n r.0 s r.1 h more le)))
      ]

  after_emit-IsOutcome :
      (n m : ℕ) (l : Layout) (f : Function) (fs : List Function) (o : Option Compiled) (own : Bool)
      (s : Written W) (k : Written W → Result W)
      → StaysInside j
      → emit_function l f ≡ o
      → f.has_function ≡ own
      → IsLaidOut n s
      → ((s' : Written W) → IsLaidOut (n + (if own then 1 else 0)) s' → IsOutcome m l fs s' (k s'))
      → IsOutcome m l (f ∷ fs) s (after_emit j o own s k)
  unfolding after_emit
  after_emit-IsOutcome n m l f fs none own s k inside e has h go = (f, fs, s, at_last, e)
  after_emit-IsOutcome n m l f fs (some code) true s k inside e has h go =
      write_function-IsOutcome n m l f fs code s k inside e has h go
  after_emit-IsOutcome n m l f fs (some code) false s k inside e has h go =
      let same : n ≡ n + 0 = omega arith in
      before-IsOutcome m l f fs s s (k s) (λ rest s' way. passed f code e has way)
        (go s (subst (λ i. IsLaidOut i s) same h))

  write_loop-IsOutcome :
      (l : Layout) (fs : List Function) (n : ℕ) (s : Written W)
      → StaysInside j
      → IsLaidOut n s
      → IsOutcome (n + own_functions fs) l fs s (write_loop j l fs s)
  unfolding write_loop finish_write
  write_loop-IsOutcome l [] n s inside h =
      let same : n ≡ n + 0 = omega arith in
      subst (λ k. IsOutcome k l [] s (finish_write j s)) same
        (choose_final-IsOutcome n l s s.sizes s.buffers inside h refl refl h.side_by_side)
  write_loop-IsOutcome l (f ∷ fs) n s inside h =
      let one : ℕ = if f.has_function then 1 else 0 in
      let assoc : (n + one) + own_functions fs ≡ n + (one + own_functions fs) = omega arith in
      after_emit-IsOutcome n (n + (one + own_functions fs)) l f fs (emit_function l f)
        f.has_function s (write_loop j l fs) inside refl refl h
        (λ s' h'.
          subst (λ i. IsOutcome i l fs s' (write_loop j l fs s')) assoc
            (write_loop-IsOutcome l fs (n + one) s' inside h'))

  -- What `write` starts from: the whole output buffer is left.
  abbrev pub nothing_written : W → Written W
  nothing_written w = record {
    sizes = [];
    buffers = [];
    buffer_p = 0;
    buffer_size = output_words;
    content = w;
  }

  -- Where JerryScript's functions do not write behind the size that they are given, `write` ends in
  -- one of four ways. It writes a region to the file: then every function was emitted, the
  -- snapshots, one for each function with an object of its own, lie side by side from the start of
  -- the output buffer, and the region lies in the buffer and is the only snapshot, or, of several,
  -- the result of merging them all behind the last. Or it reports a generation error: then the
  -- functions in front of one with an object of its own were written like that, and the snapshot of
  -- this one has size 0. Or `emit` fails for one of the functions, all in front of it written like
  -- that. Or no function has an object of its own, which is undefined behaviour.
  pub write-IsOutcome :
      (l : Layout) (fs : List Function) (w : W)
      → StaysInside j
      → IsOutcome (own_functions fs) l fs (nothing_written w) (write j l fs w)
  unfolding write
  write-IsOutcome l fs w inside =
      let same : 0 + own_functions fs ≡ own_functions fs = omega arith in
      subst (λ i. IsOutcome i l fs (nothing_written w) (write j l fs w)) same
        (write_loop-IsOutcome l fs 0 _ inside
          (record { side_by_side = refl; left = refl; counted = refl }))
