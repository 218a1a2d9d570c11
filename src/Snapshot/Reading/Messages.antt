-- ===== src/Snapshot/Reading/Messages.antt =====
-- The text of an error that `read` returns.
use jerryscript_optimizer.Prelude.{
  ℕ, suc, ◌+◌, ◌^◌, ◌<◌, ◌≡◌, ◌≢◌, refl, ap, ◌∙◌, false, none, some, List, [], ◌∷◌, ◌++◌, ◌==◌, ◌%◌,
  ltb, length, length-append, drop, All, arith,
}
use jerryscript_optimizer.Snapshot.Reading.{find_separator, substr, error_text}

find_separator-name :
    (name message : List ℕ)
    → All (λ c. c ≢ 58) name
    → find_separator (name ++ (58 ∷ 32 ∷ message)) ≡ some (length name)
unfolding find_separator
find_separator-name [] message ok = refl
find_separator-name (a ∷ []) message ok =
    let no : (a == 58) ≡ false = ground (arith, ok.0) in rw no refl
find_separator-name (a ∷ b ∷ name) message ok =
    let no : (a == 58) ≡ false = ground (arith, ok.0) in
    rw (no, find_separator-name (b ∷ name) message ok.1) refl

drop-front : (xs ys : List ℕ) → drop (length xs + 2) (xs ++ (58 ∷ 32 ∷ ys)) ≡ ys
drop-front [] ys = refl
drop-front (x ∷ xs) ys =
    let e : suc (length xs) + 2 ≡ suc (length xs + 2) = omega arith in
    ap (λ n. drop n (x ∷ xs ++ (58 ∷ 32 ∷ ys))) e ∙ drop-front xs ys

-- Of a message behind the name of an error, which has no colon and is shorter than 2 ^ 32, the
-- message is left.
pub error_text-message :
    (name message : List ℕ)
    → All (λ c. c ≢ 58) name
    → length name < 2 ^ 32
    → error_text (name ++ (58 ∷ 32 ∷ message)) ≡ some message
unfolding error_text substr
error_text-message name message ok short =
    let long = length-append name (58 ∷ 32 ∷ message) in
    let place : (length name + 2) % 2 ^ 64 ≡ length name + 2 = omega arith in
    let within : ltb (length (name ++ (58 ∷ 32 ∷ message))) (length name + 2) ≡ false =
      ground (arith, long) in
    rw (find_separator-name name message ok, place, within) (ap some (drop-front name message))

find_separator-none : (text : List ℕ) → All (λ c. c ≢ 58) text → find_separator text ≡ none
unfolding find_separator
find_separator-none [] ok = refl
find_separator-none (a ∷ []) ok = refl
find_separator-none (a ∷ b ∷ rest) ok =
    let no : (a == 58) ≡ false = ground (arith, ok.0) in
    rw (no, find_separator-none (b ∷ rest) ok.1) refl

-- Of a text without a colon the first character is lost.
pub error_text-no_colon :
    (c : ℕ) (text : List ℕ) → All (λ a. a ≢ 58) (c ∷ text) → error_text (c ∷ text) ≡ some text
unfolding error_text substr
error_text-no_colon c text ok =
    let within : ltb (suc (length text)) 1 ≡ false = ground arith in
    rw (find_separator-none (c ∷ text) ok, within) refl
