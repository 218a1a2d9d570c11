-- ===== src/Liveness/SetsEqual.antt =====
-- `setsEqual` compares sizes and looks up one way; on sets that is equality of the members.
use jerryscript_optimizer.Prelude.{
  ℕ, ◌≡◌, true, false, List, ◌==◌, length, arith, Bool-cases, if◌then◌else◌, inl, inr, ◌↔◌,
}
use jerryscript_optimizer.Prelude.Sets.{mem, subset, IsNodup}
use jerryscript_optimizer.Prelude.Count.{
  subset_of, subset_apply, length-le_of_subset, mem_of_same_length, missing_of_not_subset,
}
use jerryscript_optimizer.Liveness.{sets_equal}

-- On two sets without duplicates `setsEqual` answers true exactly when they have the same members.
pub sets_equal_iff :
    (a b : List ℕ) → IsNodup a → IsNodup b → (sets_equal a b ≡ true) ↔ ((r : ℕ) → mem r a ≡ mem r b)
unfolding sets_equal
sets_equal_iff a b na nb = (to, from)
  where
    to : (if length a == length b then subset a b else false) ≡ true → (r : ℕ) → mem r a ≡ mem r b
    to h r =
        let s : subset a b ≡ true = ground arith in
        let l : length a ≡ length b = ground arith in
        ground (arith, subset_apply a b r s, mem_of_same_length a b r na s l)

    from :
        ((r : ℕ) → mem r a ≡ mem r b) → (if length a == length b then subset a b else false) ≡ true
    from h =
        let s = subset_of a b (λ r m. rw (← h r) m) in
        let t = subset_of b a (λ r m. rw (h r) m) in
        ground (arith, length-le_of_subset a b na s, length-le_of_subset b a nb t)

-- A set that grew strictly has a new member.
pub new_member :
    (a b : List ℕ)
    → IsNodup a
    → IsNodup b
    → ((r : ℕ) → mem r a ≡ true → mem r b ≡ true)
    → sets_equal a b ≡ false
    → (r : ℕ) × (mem r b ≡ true) × (mem r a ≡ false)
unfolding sets_equal
new_member a b na nb grows h =
    let s = subset_of a b grows in
    elim (Bool-cases (subset b a)) [
      | inl t ↦ absurd (ground (arith, length-le_of_subset a b na s, length-le_of_subset b a nb t))
      | inr f ↦ missing_of_not_subset b a f
    ]
