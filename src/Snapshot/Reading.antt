-- ===== src/Snapshot/Reading.antt =====
-- src/snapshot-readwriter.cpp, what `SnapshotReadWriter::read` makes of the text of an error when
-- JerryScript refuses a function, and how many functions it asks for. A text is a list of characters.
pub mod Messages
use jerryscript_optimizer.Prelude.{
  ℕ, zero, suc, ◌+◌, ◌-◌, ◌%◌, ◌^◌, ◌&&◌, Option, none, some, List, [], ◌∷◌, ◌++◌, ◌==◌, ltb, leb,
  length, drop, if◌then◌else◌,
}

-- `error_str.find(": ")`
pub find_separator : List ℕ → Option ℕ
find_separator [] = none
find_separator (a ∷ []) = none
find_separator (a ∷ b ∷ rest) =
    let later = find_separator (b ∷ rest) in
    if a == 58 && b == 32 then some 0 else elim later [ none ↦ none | some p ↦ some (suc p) ]

-- `std::string::npos`, a size_t of 64 bits.
abbrev pub npos : ℕ
npos = 18446744073709551615

-- `error_str.substr(pos)`
pub substr : List ℕ → ℕ → Option (List ℕ)
substr text pos = if ltb (length text) pos then none else some (drop pos text)

abbrev pub position : Option ℕ → ℕ
position none = npos
position (some p) = p

-- `error_str.substr(error_str.find(": ") + 2)`
pub error_text : List ℕ → Option (List ℕ)
error_text text = substr text ((position (find_separator text) + 2) % 2 ^ 64)

-- `countFunctions`; `number_of_funcs` is the field of the header.
pub count_functions : ℕ → ℕ → ℕ → ℕ
count_functions header_size snapshot_size number_of_funcs =
    if leb snapshot_size header_size then npos else number_of_funcs
