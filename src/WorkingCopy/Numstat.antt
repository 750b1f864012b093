-- ===== src/WorkingCopy/Numstat.antt =====
-- src/core/git/WorkingCopyStatus.cpp: `attachNumstat`. What `git diff --numstat -z` prints is a
-- parameter.
pub mod Joined
use git_branch_manager.Base.Text.{Bytes, codes, bytes_eq}
use git_branch_manager.Base.{
  ℕ, Bool, true, false, ◌||◌, List, [], ◌∷◌, Option, none, some, if◌then◌else◌, is_empty,
}
use git_branch_manager.Diff.Scan.{split_first, parse_uint}
use git_branch_manager.Errors.{GitResult, failed, done}
use git_branch_manager.WorkingCopy.{WorkingCopyEntry}

-- The two counts and the path of a record.
pub record CountFields : Type 0 where
  pub added : Bytes
  pub removed : Bytes
  pub path : Bytes

abbrev pub behind_second : Bytes → Option (Bytes × Bytes) → Option CountFields
behind_second added none = none
behind_second added (some second) =
    some (record { added = added; removed = second.0; path = second.1 })

abbrev pub behind_first : Option (Bytes × Bytes) → Option CountFields
behind_first none = none
behind_first (some first) = behind_second first.0 (split_first (codes "\t") first.1)

unfoldable pub count_fields : Bytes → Option CountFields
count_fields line = behind_first (split_first (codes "\t") line)

abbrev pub set_counts : Bool → ℕ → ℕ → WorkingCopyEntry → WorkingCopyEntry
set_counts true added removed e = record e { staged_added = added; staged_removed = removed }
set_counts false added removed e = record e { unstaged_added = added; unstaged_removed = removed }

-- The first entry of the path, which `byPath` has, is changed.
unfoldable pub set_at : Bool → ℕ → ℕ → Bytes → List WorkingCopyEntry → List WorkingCopyEntry
set_at staged added removed path [] = []
set_at staged added removed path (e ∷ es) =
    if bytes_eq e.path path
    then set_counts staged added removed e ∷ es
    else e ∷ set_at staged added removed path es

-- "-" is a binary blob.
unfoldable pub set_fields :
    Bool → CountFields → Bytes → List WorkingCopyEntry → List WorkingCopyEntry
unfolding set_at parse_uint
set_fields staged fields path es =
    if bytes_eq fields.added (codes "-") || bytes_eq fields.removed (codes "-")
    then es
    else set_at staged (parse_uint fields.added) (parse_uint fields.removed) path es

abbrev Entries : Type 0
Entries = List WorkingCopyEntry

-- A record: `next` goes on behind it, and `renamed` is what a record with no path does.
abbrev pub join_line :
    Bool
    → (Entries → Entries)
    → (CountFields → Entries → Entries)
    → Option CountFields
    → Entries
    → Entries
join_line staged next renamed none es = next es
join_line staged next renamed (some fields) es =
    if is_empty fields.path
    then renamed fields es
    else next (set_fields staged fields fields.path es)

-- The loop over the records. With no path the next two records are the old and the new path.
unfoldable pub join_counts : Bool → List Bytes → Entries → Entries
unfolding split_first count_fields set_fields
join_counts staged [] es = es
join_counts staged (line ∷ []) es = join_line staged (λ x. x) (λ fields x. x) (count_fields line) es
join_counts staged (line ∷ old_path ∷ []) es =
    let next = join_counts staged (old_path ∷ []) in
    join_line staged next (λ fields x. x) (count_fields line) es
join_counts staged (line ∷ old_path ∷ new_path ∷ records) es =
    let next = join_counts staged (old_path ∷ new_path ∷ records) in
    let third = join_counts staged records in
    join_line staged next (λ fields x. third (set_fields staged fields new_path x))
      (count_fields line) es

-- Without entries git is not asked.
unfoldable pub attach_numstat :
    GitResult (List Bytes) → Bool → List WorkingCopyEntry → GitResult (List WorkingCopyEntry)
unfolding join_counts
attach_numstat answer staged [] = done []
attach_numstat (failed e) staged (x ∷ es) = failed e
attach_numstat (done records) staged (x ∷ es) = done (join_counts staged records (x ∷ es))
