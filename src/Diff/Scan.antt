-- ===== src/Diff/Scan.antt =====
-- src/core/git/UnifiedDiffParser.cpp: `splitLines`, `parseUint` and the searches in a line. A
-- search for a needle gives the text before the match and the text behind it.
pub mod Numbers
use git_branch_manager.Base.{
  ℕ, ◌+◌, ◌-◌, ◌*◌, ◌^◌, Bool, ◌&&◌, List, [], ◌∷◌, ◌++◌, Option, none, some, ltb, leb, ◌==◌,
  if◌then◌else◌, length, drop, false, All, ◌≡◌, arith,
}
use git_branch_manager.Base.Text.{Bytes, starts_with}

abbrev pub prepend : ℕ → Option (Bytes × Bytes) → Option (Bytes × Bytes)
prepend c none = none
prepend c (some (before, behind)) = some (c ∷ before, behind)

-- `text.find(needle)`, for a needle that is not empty.
unfoldable pub split_first : Bytes → Bytes → Option (Bytes × Bytes)
unfolding starts_with
split_first needle [] = none
split_first needle (c ∷ cs) =
    let later = prepend c (split_first needle cs) in
    if starts_with needle (c ∷ cs) then some ([], drop (length needle) (c ∷ cs)) else later

-- `text.rfind(needle)`, for a needle that is not empty.
unfoldable pub split_last : Bytes → Bytes → Option (Bytes × Bytes)
unfolding starts_with
split_last needle [] = none
split_last needle (c ∷ cs) = elim (split_last needle cs) [
  | some (before, behind) ↦ some (c ∷ before, behind)
  | none ↦ if starts_with needle (c ∷ cs) then some ([], drop (length needle) (c ∷ cs)) else none
]

-- Up to the first space, and from it on.
unfoldable pub word : Bytes → Bytes
word [] = []
word (c ∷ cs) = if c == b' ' then [] else c ∷ word cs

unfoldable pub behind_word : Bytes → Bytes
behind_word [] = []
behind_word (c ∷ cs) = if c == b' ' then c ∷ cs else behind_word cs

unfoldable pub drop_spaces : Bytes → Bytes
drop_spaces [] = []
drop_spaces (c ∷ cs) = if c == b' ' then drop_spaces cs else c ∷ cs

abbrev pub is_digit : ℕ → Bool
is_digit c = leb b'0' c && leb c b'9'

unfoldable pub leading_number : ℕ → Bytes → ℕ
leading_number acc [] = acc
leading_number acc (c ∷ cs) =
    let more = leading_number (acc * 10 + (c - b'0')) cs in if is_digit c then more else acc

-- `std::from_chars` into a `uint32_t` that was 0: a number out of range leaves it 0.
unfoldable pub parse_uint : Bytes → ℕ
unfolding leading_number
parse_uint text = let n = leading_number 0 text in if ltb n (2 ^ 32) then n else 0

-- One trailing '\r' of a line is dropped.
unfoldable pub strip_cr : Bytes → Bytes
strip_cr [] = []
strip_cr (c ∷ []) = if c == b'\r' then [] else c ∷ []
strip_cr (c ∷ d ∷ cs) = c ∷ strip_cr (d ∷ cs)

-- The lines of a text whose first line begins with `line`; a last line with no '\n' is kept as it
-- is, unless it is empty.
unfoldable pub split_lines_from : Bytes → Bytes → List Bytes
unfolding strip_cr
split_lines_from [] [] = []
split_lines_from (c ∷ line) [] = (c ∷ line) ∷ []
split_lines_from line (c ∷ cs) =
    let next = strip_cr line ∷ split_lines_from [] cs in
    let longer = split_lines_from (line ++ c ∷ []) cs in if c == b'\n' then next else longer

unfoldable pub split_lines : Bytes → List Bytes
unfolding split_lines_from
split_lines = split_lines_from []

-- A field ends at the first separator.
pub split_first-field :
    (separator : ℕ) (field rest : Bytes)
    → All (λ c. (c == separator) ≡ false) field
    → split_first (separator ∷ []) (field ++ separator ∷ rest) ≡ some (field, rest)
unfolding split_first starts_with
split_first-field separator [] rest h = ground arith
split_first-field separator (c ∷ field) rest h =
    ground (arith, h.0, split_first-field separator field rest h.1)
