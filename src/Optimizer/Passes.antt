-- ===== src/Optimizer/Passes.antt =====
-- What the recorded passes say.
use jerryscript_optimizer.Prelude.{
  ℕ, ◌<◌, ◌≡◌, ◌≢◌, refl, ◌∙◌, Bool, true, false, not, ◌||◌, ◌&&◌, List, [], ◌∷◌, ◌++◌, ◌==◌, ltb,
  bit_and, bit_or, arith, ltb→lt,
}
use jerryscript_optimizer.Prelude.Bits.{all_below, all_below_apply}
use jerryscript_optimizer.Optimizer.{PassKind, value, is_succeeded, finish, finish_all}

same : Bool → Bool → Bool
same true b = b
same false b = not b

same→eq : (a b : Bool) → same a b ≡ true → a ≡ b
unfolding same
same→eq a b h = ground arith

-- Bits 0 to 2 hold every value: `|` collects, and stays below 8.
bits_table :
    all_below 8 (λ r. all_below 5 (λ a.
      ltb (bit_or r a) 8
      && all_below 5 (λ b.
        same
          (not (bit_and (bit_or r a) b == 0))
          (not (bit_and r b == 0) || not (bit_and a b == 0)))))
    ≡ true
unfolding all_below same
bits_table = refl

value-lt : (p : PassKind) → value p < 5
unfolding value
value-lt p = ground arith

-- Two kinds whose values share a bit.
pub overlap : PassKind → PassKind → Bool
overlap p q = is_succeeded (value p) q

step_bits :
    (r : ℕ) (p q : PassKind)
    → r < 8
    → (finish r p < 8) × (is_succeeded (finish r p) q ≡ (is_succeeded r q || overlap p q))
unfolding finish is_succeeded overlap
step_bits r p q h =
    let row = all_below_apply 8 _ r bits_table h in
    let cell = all_below_apply 5 _ (value p) row (value-lt p) in
    let small : ltb (bit_or r (value p)) 8 ≡ true = ground arith in
    let inner : all_below 5 (λ b.
      same (not (bit_and (bit_or r (value p)) b == 0))
        (not (bit_and r b == 0) || not (bit_and (value p) b == 0)))
        ≡ true =
      ground arith in
    (ltb→lt _ _ small, same→eq _ _ (all_below_apply 5 _ (value q) inner (value-lt q)))

-- Some finished kind shares a bit with the one that is asked for.
pub any_overlap : List PassKind → PassKind → Bool
any_overlap [] q = false
any_overlap (p ∷ ps) q = overlap p q || any_overlap ps q

finished_from :
    (r : ℕ) (ps : List PassKind) (q : PassKind)
    → r < 8
    → is_succeeded (finish_all r ps) q ≡ (is_succeeded r q || any_overlap ps q)
unfolding finish_all any_overlap
finished_from r [] q h = ground arith
finished_from r (p ∷ ps) q h = ground (arith, step_bits r p q h, finished_from (finish r p) ps q)

-- After any passes have finished, `isSucceeded` answers true exactly when the value of one of them
-- shares a bit with the value of the pass that is asked for.
pub is_succeeded_iff :
    (ps : List PassKind) (q : PassKind) → is_succeeded (finish_all 0 ps) q ≡ any_overlap ps q
unfolding is_succeeded value
is_succeeded_iff ps q = finished_from 0 ps q (omega arith) ∙ nothing_yet q
  where
    nothing_yet : (q : PassKind) → (is_succeeded 0 q || any_overlap ps q) ≡ any_overlap ps q
    nothing_yet PassKind.none = refl
    nothing_yet PassKind.control_flow_analysis = refl
    nothing_yet PassKind.dominator_analysis = refl
    nothing_yet PassKind.liveness_analysis = refl
    nothing_yet PassKind.regalloc_linear_scan = refl

-- A pass that has finished is found to have succeeded, whatever finished before and after it;
-- except for the kind `NONE`.
pub is_succeeded-finish :
    (before after : List PassKind) (p : PassKind)
    → p ≢ PassKind.none
    → is_succeeded (finish_all 0 (before ++ (p ∷ after))) p ≡ true
unfolding any_overlap overlap is_succeeded value
is_succeeded-finish before after p h = is_succeeded_iff (before ++ (p ∷ after)) p ∙ found before
  where
    itself : overlap p p ≡ true
    itself = ground arith

    found : (ps : List PassKind) → any_overlap (ps ++ (p ∷ after)) p ≡ true
    found [] = rw itself refl
    found (q ∷ ps) = ground (arith, found ps)

-- Where the control flow analysis finished first, whatever finished after it, `isSucceeded` says
-- that the liveness analysis has.
pub liveness_too_early :
    (rest : List PassKind)
    → is_succeeded (finish_all 0 (PassKind.control_flow_analysis ∷ rest)) PassKind.liveness_analysis
      ≡ true
unfolding any_overlap overlap is_succeeded value
liveness_too_early rest =
    is_succeeded_iff (PassKind.control_flow_analysis ∷ rest) PassKind.liveness_analysis
