-- ===== src/WorkingCopy.antt =====
-- src/core/git/WorkingCopyStatus.h and WorkingCopyStatus.cpp: the entries of a working copy and the
-- parser of `git status --porcelain=v2 -z`. The `int` of `similarity` is its bit pattern, and a
-- modification time is counted from the earliest one that the clock can represent.
pub mod Expansion
pub mod LineCounts
pub mod Numstat
pub mod Porcelain
pub mod Read
use git_branch_manager.Base.Text.{Bytes, codes, starts_with}
use git_branch_manager.Base.{
  ℕ, zero, suc, ◌+◌, ◌-◌, ◌<◌, ◌^◌, Bool, true, false, not, ◌&&◌, ◌||◌, List, [], ◌∷◌, ◌++◌, Option,
  none, some, ltb, leb, ◌==◌, if◌then◌else◌, length, get_or, is_empty, drop,
}
use git_branch_manager.Conflict.Batch.{
  ConflictKind, no_conflict, both_added, both_modified, both_deleted, added_by_us, deleted_by_us,
  added_by_them, deleted_by_them,
}
use git_branch_manager.Diff.Scan.{split_first, is_digit, leading_number}
use git_branch_manager.Diff.Types.{FileChangeKind}

pub record WorkingCopyEntry : Type 0 where
  pub path : Bytes
  pub old_path : Bytes
  pub untracked : Bool
  pub staged : Bool
  pub index_status : FileChangeKind
  pub has_unstaged_change : Bool
  pub worktree_status : FileChangeKind
  pub unstaged_added : ℕ
  pub unstaged_removed : ℕ
  pub staged_added : ℕ
  pub staged_removed : ℕ
  pub conflict : ConflictKind
  pub ancestor_blob : Bytes
  pub ours_blob : Bytes
  pub theirs_blob : Bytes
  pub similarity : ℕ
  pub is_submodule : Bool
  pub untracked_size : ℕ
  pub untracked_mtime_ticks : ℕ

abbrev pub new_entry : Bytes → WorkingCopyEntry
new_entry path = record {
  path = path;
  old_path = [];
  untracked = false;
  staged = false;
  index_status = FileChangeKind.modified;
  has_unstaged_change = false;
  worktree_status = FileChangeKind.modified;
  unstaged_added = 0;
  unstaged_removed = 0;
  staged_added = 0;
  staged_removed = 0;
  conflict = no_conflict;
  ancestor_blob = [];
  ours_blob = [];
  theirs_blob = [];
  similarity = 0;
  is_submodule = false;
  untracked_size = 0;
  untracked_mtime_ticks = 0;
}

abbrev pub is_conflicted : WorkingCopyEntry → Bool
is_conflicted e = elim e.conflict [ no_conflict ↦ false | _ ↦ true ]

unfoldable pub kind_for_code : ℕ → FileChangeKind
kind_for_code c =
    if c == b'A'
    then FileChangeKind.added
    else if c == b'D'
    then FileChangeKind.deleted
    else if c == b'R'
    then FileChangeKind.renamed
    else if c == b'C'
    then FileChangeKind.copied
    else if c == b'T'
    then FileChangeKind.type_changed
    else FileChangeKind.modified

unfoldable pub conflict_for_xy : ℕ → ℕ → ConflictKind
conflict_for_xy x y =
    if x == b'A' && y == b'A'
    then both_added
    else if x == b'U' && y == b'U'
    then both_modified
    else if x == b'D' && y == b'D'
    then both_deleted
    else if x == b'A' && y == b'U'
    then added_by_us
    else if x == b'D' && y == b'U'
    then deleted_by_us
    else if x == b'U' && y == b'A'
    then added_by_them
    else if x == b'U' && y == b'D'
    then deleted_by_them
    else both_modified

-- `splitFieldsMax`, for one field more than the number given.
unfoldable pub split_fields : ℕ → Bytes → List Bytes
unfolding split_first
split_fields zero line = line ∷ []
split_fields (suc n) line = elim (split_first (codes " ") line) [
  | none ↦ line ∷ []
  | some (field, rest) ↦ field ∷ split_fields n rest
]

unfoldable pub blob_or_empty : Bytes → Bytes
blob_or_empty hash = if all_zero hash then [] else hash
  where
    all_zero : Bytes → Bool
    all_zero [] = true
    all_zero (c ∷ cs) = c == b'0' && all_zero cs

-- `parseScore`: the number behind what is no digit.
unfoldable pub parse_score : Bytes → ℕ
unfolding leading_number
parse_score [] = 0
parse_score (c ∷ cs) =
    let later = parse_score cs in
    let n = leading_number 0 (c ∷ cs) in
    if not (is_digit c) then later else if ltb n (2 ^ 31) then n else 0

abbrev field : List Bytes → ℕ → Bytes
field fields i = get_or fields i []

abbrev pub last_field : List Bytes → Bytes
last_field [] = []
last_field (f ∷ []) = f
last_field (f ∷ g ∷ fields) = last_field (g ∷ fields)

abbrev is_submodule_field : Bytes → Bool
is_submodule_field sub = get_or sub 0 0 == b'S'

-- An ordinary or a renamed entry without its old path and score.
unfoldable pub changed_entry : List Bytes → WorkingCopyEntry
unfolding kind_for_code
changed_entry fields =
    let x = get_or (field fields 1) 0 b'.' in
    let y = get_or (field fields 1) 1 b'.' in
    record (new_entry (last_field fields)) {
      is_submodule = is_submodule_field (field fields 2);
      staged = not (x == b'.');
      index_status = if x == b'.' then FileChangeKind.modified else kind_for_code x;
      has_unstaged_change = not (y == b'.');
      worktree_status = if y == b'.' then FileChangeKind.modified else kind_for_code y;
    }

unfoldable pub unmerged_entry : List Bytes → WorkingCopyEntry
unfolding conflict_for_xy blob_or_empty
unmerged_entry fields = record (new_entry (last_field fields)) {
  is_submodule = is_submodule_field (field fields 2);
  conflict = conflict_for_xy (get_or (field fields 1) 0 b'?') (get_or (field fields 1) 1 b'?');
  ancestor_blob = blob_or_empty (field fields 7);
  ours_blob = blob_or_empty (field fields 8);
  theirs_blob = blob_or_empty (field fields 9);
}

-- A rename, given the record behind it if there is one.
unfoldable pub renamed_entry : List Bytes → Option Bytes → WorkingCopyEntry
unfolding changed_entry parse_score
renamed_entry fields next = record (changed_entry fields) {
  similarity = parse_score (field fields 8);
  old_path = elim next [ none ↦ [] | some old_path ↦ old_path ];
}

abbrev pub untracked_entry : Bytes → WorkingCopyEntry
untracked_entry line = record (new_entry (drop 2 line)) { untracked = true }

-- The entry of a record, if it has one, given the record behind it.
unfoldable pub entry_of : Bytes → Option Bytes → Option WorkingCopyEntry
unfolding changed_entry unmerged_entry renamed_entry
entry_of [] next = none
entry_of (type ∷ rest) next =
    let line = type ∷ rest in
    if type == b'1'
    then (if ltb (length (split_fields 8 line)) 9
        then none
        else some (changed_entry (split_fields 8 line)))
    else if type == b'2'
    then (if ltb (length (split_fields 9 line)) 10
        then none
        else some (renamed_entry (split_fields 9 line) next))
    else if type == b'u'
    then (if ltb (length (split_fields 10 line)) 11
        then none
        else some (unmerged_entry (split_fields 10 line)))
    else if type == b'?'
    then some (untracked_entry line)
    else none

-- A record that takes the one behind it for its old path.
unfoldable pub spends_two : Bytes → Bool
spends_two [] = false
spends_two (type ∷ rest) = type == b'2' && not (ltb (length (split_fields 9 (type ∷ rest))) 10)

abbrev pub consed : Option WorkingCopyEntry → List WorkingCopyEntry → List WorkingCopyEntry
consed none entries = entries
consed (some e) entries = e ∷ entries

-- `parsePorcelainV2Records`
unfoldable pub parse_records : List Bytes → List WorkingCopyEntry
unfolding entry_of spends_two
parse_records [] = []
parse_records (line ∷ []) = consed (entry_of line none) []
parse_records (line ∷ next ∷ records) =
    let one = parse_records (next ∷ records) in
    let two = parse_records records in
    consed (entry_of line (some next)) (if spends_two line then two else one)

pub record WorkingCopyStatus : Type 0 where
  pub entries : List WorkingCopyEntry
  pub line_counts_unavailable : Bool

-- The lists that `staged`, `unstaged`, `untracked` and `conflicted` give.
unfoldable pub staged_entries : List WorkingCopyEntry → List WorkingCopyEntry
staged_entries [] = []
staged_entries (e ∷ es) =
    if e.staged && not (is_conflicted e) then e ∷ staged_entries es else staged_entries es

unfoldable pub unstaged_entries : List WorkingCopyEntry → List WorkingCopyEntry
unstaged_entries [] = []
unstaged_entries (e ∷ es) =
    if e.has_unstaged_change && not e.untracked && not (is_conflicted e)
    then e ∷ unstaged_entries es
    else unstaged_entries es

unfoldable pub untracked_entries : List WorkingCopyEntry → List WorkingCopyEntry
untracked_entries [] = []
untracked_entries (e ∷ es) = if e.untracked then e ∷ untracked_entries es else untracked_entries es

unfoldable pub conflicted_entries : List WorkingCopyEntry → List WorkingCopyEntry
conflicted_entries [] = []
conflicted_entries (e ∷ es) =
    if is_conflicted e then e ∷ conflicted_entries es else conflicted_entries es
