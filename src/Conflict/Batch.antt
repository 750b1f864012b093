-- ===== src/Conflict/Batch.antt =====
-- src/core/git/ConflictBatch.h and ConflictBatch.cpp, with `ConflictKind` of WorkingCopyStatus.h.
-- Of a `WorkingCopyEntry` the batch reads the path and the conflict.
pub mod States
pub mod Order
use git_branch_manager.Base.{
  ℕ, ◌+◌, Bool, true, false, not, ◌&&◌, ◌||◌, List, [], ◌∷◌, ◌++◌, ◌==◌, if◌then◌else◌, length,
  is_empty,
}
use git_branch_manager.Base.Text.{Bytes, bytes_eq}

pub data ConflictKind : Type 0 where
  no_conflict both_added both_modified both_deleted added_by_us deleted_by_us added_by_them
        deleted_by_them :
      ConflictKind

pub data ConflictFileState : Type 0 where
  unresolved resolved : ConflictFileState

pub record ConflictBatchEntry : Type 0 where
  pub path : Bytes
  pub kind : ConflictKind
  pub state : ConflictFileState

pub record WorkingCopyEntry : Type 0 where
  pub path : Bytes
  pub conflict : ConflictKind

pub record ConflictBatch : Type 0 where
  pub operation_fingerprint : Bytes
  pub entries : List ConflictBatchEntry

unfoldable pub for_operation : Bytes → ConflictBatch
for_operation fingerprint = record { operation_fingerprint = fingerprint; entries = [] }

unfoldable pub restore : Bytes → List ConflictBatchEntry → ConflictBatch
restore fingerprint entries = record { operation_fingerprint = fingerprint; entries = entries }

-- `stillConflicted`
unfoldable pub scan_has : Bytes → List WorkingCopyEntry → Bool
scan_has path [] = false
scan_has path (candidate ∷ conflicted) = bytes_eq candidate.path path || scan_has path conflicted

-- `alreadyTracked`
unfoldable pub is_tracked : Bytes → List ConflictBatchEntry → Bool
is_tracked path [] = false
is_tracked path (entry ∷ entries) = bytes_eq entry.path path || is_tracked path entries

-- The first loop of `merge`.
unfoldable pub derive_states :
    List WorkingCopyEntry → List ConflictBatchEntry → List ConflictBatchEntry
derive_states conflicted [] = []
derive_states conflicted (entry ∷ entries) =
    record entry { state = if scan_has entry.path conflicted then unresolved else resolved }
    ∷ derive_states conflicted entries

-- The second loop of `merge`.
unfoldable pub append_new :
    List ConflictBatchEntry → List WorkingCopyEntry → List ConflictBatchEntry
append_new entries [] = entries
append_new entries (candidate ∷ conflicted) =
    append_new
      (if is_tracked candidate.path entries
        then entries
        else entries
          ++ record { path = candidate.path; kind = candidate.conflict; state = unresolved } ∷ [])
      conflicted

unfoldable pub merge : ConflictBatch → List WorkingCopyEntry → ConflictBatch
merge batch conflicted = record batch {
  entries = append_new (derive_states conflicted batch.entries) conflicted;
}

unfoldable pub count_resolved : List ConflictBatchEntry → ℕ
count_resolved [] = 0
count_resolved (entry ∷ entries) =
    (elim entry.state [ unresolved ↦ 0 | resolved ↦ 1 ]) + count_resolved entries

unfoldable pub resolved_count : ConflictBatch → ℕ
resolved_count batch = count_resolved batch.entries

unfoldable pub all_resolved : ConflictBatch → Bool
all_resolved batch = not (is_empty batch.entries) && resolved_count batch == length batch.entries
