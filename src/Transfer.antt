-- ===== src/Transfer.antt =====
-- src/core/git/TransferProgress.h and TransferProgress.cpp: the progress that git prints while it
-- fetches, read off a piece of its output.
pub mod Latest
use git_branch_manager.Base.Text.{Bytes, codes, starts_with}
use git_branch_manager.Base.{
  ℕ, ◌+◌, ◌*◌, ◌-◌, ◌^◌, Bool, true, false, ◌||◌, List, [], ◌∷◌, ◌++◌, Option, none, some, ltb,
  ◌==◌, if◌then◌else◌, length, drop,
}
use git_branch_manager.Diff.Scan.{split_first, leading_number, is_digit}

pub data Phase : Type 0 where
  receiving_objects resolving_deltas : Phase

pub record TransferProgress : Type 0 where
  pub phase : Phase
  pub current : ℕ
  pub total : ℕ

abbrev pub k_receiving : Bytes
k_receiving = codes "Receiving objects:"

abbrev pub k_resolving : Bytes
k_resolving = codes "Resolving deltas:"

-- The text behind the digits.
unfoldable pub behind_digits : Bytes → Bytes
behind_digits [] = []
behind_digits (c ∷ cs) = let rest = behind_digits cs in if is_digit c then rest else c ∷ cs

abbrev pub starts_with_digit : Bytes → Bool
starts_with_digit [] = false
starts_with_digit (c ∷ cs) = is_digit c

-- A number in front of a text, if it is in range and the terminator follows.
abbrev pub counted : ℕ → ℕ → Bytes → Option (ℕ × Bytes)
counted terminator value [] = none
counted terminator value (c ∷ cs) =
    if ltb value (2 ^ 64) then (if c == terminator then some (value, cs) else none) else none

-- `readCount`, with the text that it leaves.
unfoldable pub read_count : Bytes → ℕ → Option (ℕ × Bytes)
unfolding leading_number behind_digits
read_count text terminator =
    if starts_with_digit text
    then counted terminator (leading_number 0 text) (behind_digits text)
    else none

abbrev pub progress_of : Phase → ℕ → Option (ℕ × Bytes) → Option TransferProgress
progress_of phase current none = none
progress_of phase current (some total) =
    some (record { phase = phase; current = current; total = total.0 })

abbrev pub read_total : Phase → Option (ℕ × Bytes) → Option TransferProgress
read_total phase none = none
read_total phase (some (current, text)) = progress_of phase current (read_count text b')')

abbrev pub read_counts : Phase → Option (Bytes × Bytes) → Option TransferProgress
read_counts phase none = none
read_counts phase (some (before, behind)) = read_total phase (read_count behind b'/')

unfoldable pub parse_line : Bytes → Option TransferProgress
unfolding starts_with split_first read_count
parse_line line =
    if starts_with k_receiving line
    then read_counts receiving_objects (split_first (codes "(") (drop 18 line))
    else if starts_with k_resolving line
    then read_counts resolving_deltas (split_first (codes "(") (drop 17 line))
    else none

abbrev pub or_else : Option TransferProgress → Option TransferProgress → Option TransferProgress
or_else none latest = latest
or_else (some p) latest = some p

-- The loop, on a chunk whose first line begins with `line`.
unfoldable pub latest_from : Bytes → Option TransferProgress → Bytes → Option TransferProgress
unfolding parse_line
latest_from line latest [] = or_else (parse_line line) latest
latest_from line latest (c ∷ cs) =
    let next = latest_from [] (or_else (parse_line line) latest) cs in
    let longer = latest_from (line ++ c ∷ []) latest cs in
    if c == b'\r' || c == b'\n' then next else longer

unfoldable pub parse_transfer_progress : Bytes → Option TransferProgress
unfolding latest_from
parse_transfer_progress chunk = latest_from [] none chunk
