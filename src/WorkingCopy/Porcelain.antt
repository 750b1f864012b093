-- ===== src/WorkingCopy/Porcelain.antt =====
-- src/core/git/WorkingCopyStatus.cpp: the parser of status records against the lines that git prints.
use git_branch_manager.Base.Text.{Bytes, codes}
use git_branch_manager.Base.{
  ℕ, suc, Bool, true, false, not, List, [], ◌∷◌, ◌++◌, ◌≡◌, refl, ap, ◌∙◌, arith, Option, none,
  some, length, get_or, All, ◌==◌, if◌then◌else◌, ltb,
}
use git_branch_manager.Diff.Scan.{split_first-field}
use git_branch_manager.Diff.Types.{FileChangeKind}
use git_branch_manager.WorkingCopy.{
  WorkingCopyEntry, new_entry, split_fields, entry_of, spends_two, parse_records, consed,
  changed_entry, renamed_entry, unmerged_entry, kind_for_code, conflict_for_xy, blob_or_empty,
  parse_score,
}

-- One entry as git's documentation of the format has it. The path is the rest of its record; `modes`
-- are the modes and object names that are not read.
pub data StatusLine : Type 0 where
  ordinary : (x y : ℕ) (sub m1 m2 m3 m4 m5 : Bytes) (path : Bytes) → StatusLine
  moved : (x y : ℕ) (sub m1 m2 m3 m4 m5 score : Bytes) (path old_path : Bytes) → StatusLine
  unmerged : (x y : ℕ) (sub m1 m2 m3 m4 h1 h2 h3 : Bytes) (path : Bytes) → StatusLine
  untracked_path ignored_path : (path : Bytes) → StatusLine

-- Fields, each with a space behind it, and a path.
abbrev pub join_fields : List Bytes → Bytes → Bytes
join_fields [] path = path
join_fields (f ∷ fields) path = f ++ b' ' ∷ join_fields fields path

abbrev pub xy_field : ℕ → ℕ → Bytes
xy_field x y = x ∷ y ∷ []

-- The records of an entry.
abbrev pub print_line : StatusLine → List Bytes
print_line (ordinary x y sub m1 m2 m3 m4 m5 path) =
    join_fields (codes "1" ∷ xy_field x y ∷ sub ∷ m1 ∷ m2 ∷ m3 ∷ m4 ∷ m5 ∷ []) path ∷ []
print_line (moved x y sub m1 m2 m3 m4 m5 score path old_path) =
    join_fields (codes "2" ∷ xy_field x y ∷ sub ∷ m1 ∷ m2 ∷ m3 ∷ m4 ∷ m5 ∷ score ∷ []) path
    ∷ old_path
    ∷ []
print_line (unmerged x y sub m1 m2 m3 m4 h1 h2 h3 path) =
    join_fields (codes "u" ∷ xy_field x y ∷ sub ∷ m1 ∷ m2 ∷ m3 ∷ m4 ∷ h1 ∷ h2 ∷ h3 ∷ []) path ∷ []
print_line (untracked_path path) = join_fields (codes "?" ∷ []) path ∷ []
print_line (ignored_path path) = join_fields (codes "!" ∷ []) path ∷ []

abbrev pub print_lines : List StatusLine → List Bytes
print_lines [] = []
print_lines (l ∷ ls) = print_line l ++ print_lines ls

abbrev pub starts_upper_s : Bytes → Bool
starts_upper_s sub = get_or sub 0 0 == b'S'

abbrev pub kind_or_modified : ℕ → FileChangeKind
kind_or_modified x = if x == b'.' then FileChangeKind.modified else kind_for_code x

abbrev pub changed : ℕ → ℕ → Bytes → Bytes → WorkingCopyEntry
changed x y sub path = record (new_entry path) {
  is_submodule = starts_upper_s sub;
  staged = not (x == b'.');
  index_status = kind_or_modified x;
  has_unstaged_change = not (y == b'.');
  worktree_status = kind_or_modified y;
}

abbrev pub stuck : ℕ → ℕ → Bytes → Bytes → Bytes → Bytes → Bytes → WorkingCopyEntry
stuck x y sub h1 h2 h3 path = record (new_entry path) {
  is_submodule = starts_upper_s sub;
  conflict = conflict_for_xy x y;
  ancestor_blob = blob_or_empty h1;
  ours_blob = blob_or_empty h2;
  theirs_blob = blob_or_empty h3;
}

-- What an entry of git's means.
abbrev pub meaning : StatusLine → List WorkingCopyEntry
meaning (ordinary x y sub m1 m2 m3 m4 m5 path) = changed x y sub path ∷ []
meaning (moved x y sub m1 m2 m3 m4 m5 score path old_path) =
    record (changed x y sub path) { similarity = parse_score score; old_path = old_path } ∷ []
meaning (unmerged x y sub m1 m2 m3 m4 h1 h2 h3 path) = stuck x y sub h1 h2 h3 path ∷ []
meaning (untracked_path path) = record (new_entry path) { untracked = true } ∷ []
meaning (ignored_path path) = []

abbrev pub meanings : List StatusLine → List WorkingCopyEntry
meanings [] = []
meanings (l ∷ ls) = meaning l ++ meanings ls

-- A field has no space in it.
abbrev pub IsField : Bytes → Type 0
IsField = All (λ c. (c == b' ') ≡ false)

abbrev pub AreFields : List Bytes → Type 0
AreFields = All IsField

abbrev pub IsLine : StatusLine → Type 0
IsLine (ordinary x y sub m1 m2 m3 m4 m5 path) =
    AreFields (xy_field x y ∷ sub ∷ m1 ∷ m2 ∷ m3 ∷ m4 ∷ m5 ∷ [])
IsLine (moved x y sub m1 m2 m3 m4 m5 score path old_path) =
    AreFields (xy_field x y ∷ sub ∷ m1 ∷ m2 ∷ m3 ∷ m4 ∷ m5 ∷ score ∷ [])
IsLine (unmerged x y sub m1 m2 m3 m4 h1 h2 h3 path) =
    AreFields (xy_field x y ∷ sub ∷ m1 ∷ m2 ∷ m3 ∷ m4 ∷ h1 ∷ h2 ∷ h3 ∷ [])
IsLine (untracked_path path) = Unit
IsLine (ignored_path path) = Unit

split_fields-step :
    (n : ℕ) (f rest : Bytes)
    → IsField f
    → split_fields (suc n) (f ++ b' ' ∷ rest) ≡ f ∷ split_fields n rest
unfolding split_fields
split_fields-step n f rest h =
    ap
      (λ (o : Option (Bytes × Bytes)). elim o [
        | none ↦ (f ++ b' ' ∷ rest) ∷ []
        | some p ↦ p.0 ∷ split_fields n p.1
      ])
      (split_first-field b' ' f rest h)

split_fields-last : (path : Bytes) → split_fields 0 path ≡ path ∷ []
unfolding split_fields
split_fields-last path = refl

split_fields-join :
    (fields : List Bytes) (path : Bytes)
    → AreFields fields
    → split_fields (length fields) (join_fields fields path) ≡ fields ++ path ∷ []
split_fields-join [] path h = split_fields-last path
split_fields-join (f ∷ fields) path h =
    split_fields-step (length fields) f (join_fields fields path) h.0
    ∙ ap (λ l. f ∷ l) (split_fields-join fields path h.1)

abbrev if_enough : ℕ → (List Bytes → WorkingCopyEntry) → List Bytes → Option WorkingCopyEntry
if_enough n make fields = if ltb (length fields) n then none else some (make fields)

abbrev type_line : Bytes → ℕ → ℕ → List Bytes → Bytes → Bytes
type_line type x y fields path = join_fields (type ∷ xy_field x y ∷ fields) path

-- The record of an ordinary, a moved and an unmerged entry.
entry_of-ordinary :
    (x y : ℕ) (sub m1 m2 m3 m4 m5 path : Bytes) (next : Option Bytes)
    → IsLine (ordinary x y sub m1 m2 m3 m4 m5 path)
    → entry_of (type_line (codes "1") x y (sub ∷ m1 ∷ m2 ∷ m3 ∷ m4 ∷ m5 ∷ []) path) next
      ≡ some (changed x y sub path)
unfolding entry_of changed_entry
entry_of-ordinary x y sub m1 m2 m3 m4 m5 path next h = ap (if_enough 9 changed_entry) (
    split_fields-join (codes "1" ∷ xy_field x y ∷ sub ∷ m1 ∷ m2 ∷ m3 ∷ m4 ∷ m5 ∷ []) path
      ((refl, tt), h))

entry_of-moved :
    (x y : ℕ) (sub m1 m2 m3 m4 m5 score path old_path : Bytes)
    → IsLine (moved x y sub m1 m2 m3 m4 m5 score path old_path)
    → (entry_of
          (type_line (codes "2") x y (sub ∷ m1 ∷ m2 ∷ m3 ∷ m4 ∷ m5 ∷ score ∷ []) path)
          (some old_path)
        ≡ some
            (record (changed x y sub path) { similarity = parse_score score; old_path = old_path }))
      × (spends_two (type_line (codes "2") x y (sub ∷ m1 ∷ m2 ∷ m3 ∷ m4 ∷ m5 ∷ score ∷ []) path)
          ≡ true)
unfolding entry_of spends_two renamed_entry changed_entry
entry_of-moved x y sub m1 m2 m3 m4 m5 score path old_path h =
    let fields =
      split_fields-join (codes "2" ∷ xy_field x y ∷ sub ∷ m1 ∷ m2 ∷ m3 ∷ m4 ∷ m5 ∷ score ∷ []) path
        ((refl, tt), h) in
    (
      ap (if_enough 10 (λ l. renamed_entry l (some old_path))) fields,
      ap (λ l. not (ltb (length l) 10)) fields,
    )

entry_of-unmerged :
    (x y : ℕ) (sub m1 m2 m3 m4 h1 h2 h3 path : Bytes) (next : Option Bytes)
    → IsLine (unmerged x y sub m1 m2 m3 m4 h1 h2 h3 path)
    → entry_of (type_line (codes "u") x y (sub ∷ m1 ∷ m2 ∷ m3 ∷ m4 ∷ h1 ∷ h2 ∷ h3 ∷ []) path) next
      ≡ some (stuck x y sub h1 h2 h3 path)
unfolding entry_of unmerged_entry
entry_of-unmerged x y sub m1 m2 m3 m4 h1 h2 h3 path next h = ap (if_enough 11 unmerged_entry) (
    split_fields-join (codes "u" ∷ xy_field x y ∷ sub ∷ m1 ∷ m2 ∷ m3 ∷ m4 ∷ h1 ∷ h2 ∷ h3 ∷ []) path
      ((refl, tt), h))

parse_records-one :
    (line : Bytes) (o : Option WorkingCopyEntry) (rest : List Bytes)
    → ((next : Option Bytes) → entry_of line next ≡ o)
    → spends_two line ≡ false
    → parse_records (line ∷ rest) ≡ consed o (parse_records rest)
unfolding parse_records
parse_records-one line o [] h k = ap (λ e. consed e []) (h none)
parse_records-one line o (next ∷ rest) h k = rw (h (some next)) (rw k refl)

parse_records-two :
    (line next : Bytes) (o : Option WorkingCopyEntry) (rest : List Bytes)
    → entry_of line (some next) ≡ o
    → spends_two line ≡ true
    → parse_records (line ∷ next ∷ rest) ≡ consed o (parse_records rest)
unfolding parse_records
parse_records-two line next o rest h k = rw h (rw k refl)

spends_two-other : (c : ℕ) (rest : Bytes) → (c == b'2') ≡ false → spends_two (c ∷ rest) ≡ false
unfolding spends_two
spends_two-other c rest h = ground (arith, h)

entry_of-untracked :
    (path : Bytes) (next : Option Bytes)
    → entry_of (join_fields (codes "?" ∷ []) path) next
      ≡ some (record (new_entry path) { untracked = true })
unfolding entry_of
entry_of-untracked path next = refl

entry_of-ignored :
    (path : Bytes) (next : Option Bytes) → entry_of (join_fields (codes "!" ∷ []) path) next ≡ none
unfolding entry_of
entry_of-ignored path next = refl

parse_records-line :
    (l : StatusLine) (rest : List Bytes)
    → IsLine l
    → parse_records (print_line l ++ rest) ≡ meaning l ++ parse_records rest
parse_records-line (ordinary x y sub m1 m2 m3 m4 m5 path) rest h =
    parse_records-one _ _ rest (λ next. entry_of-ordinary x y sub m1 m2 m3 m4 m5 path next h)
      (spends_two-other b'1' _ refl)
parse_records-line (moved x y sub m1 m2 m3 m4 m5 score path old_path) rest h =
    let (entry, two) = entry_of-moved x y sub m1 m2 m3 m4 m5 score path old_path h in
    parse_records-two _ old_path _ rest entry two
parse_records-line (unmerged x y sub m1 m2 m3 m4 h1 h2 h3 path) rest h =
    parse_records-one _ _ rest (λ next. entry_of-unmerged x y sub m1 m2 m3 m4 h1 h2 h3 path next h)
      (spends_two-other b'u' _ refl)
parse_records-line (untracked_path path) rest h =
    parse_records-one _ _ rest (entry_of-untracked path) (spends_two-other b'?' _ refl)
parse_records-line (ignored_path path) rest h =
    parse_records-one _ _ rest (entry_of-ignored path) (spends_two-other b'!' _ refl)

-- Any sequence of status entries is read back from the records that git prints for them: paths with
-- spaces whole, a rename with its second record as its old path, ignored paths left out. The fields
-- before a path have no space in them.
pub parse_records-print :
    (ls : List StatusLine) → All IsLine ls → parse_records (print_lines ls) ≡ meanings ls
unfolding parse_records
parse_records-print [] h = refl
parse_records-print (l ∷ ls) h =
    parse_records-line l (print_lines ls) h.0
    ∙ ap (λ m. meaning l ++ m) (parse_records-print ls h.1)
