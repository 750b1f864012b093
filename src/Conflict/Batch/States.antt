-- ===== src/Conflict/Batch/States.antt =====
-- src/core/git/ConflictBatch.cpp: the states that a batch shows after a scan.
use git_branch_manager.Base.{
  ◌≤◌, ◌<◌, true, false, not, ◌&&◌, ◌||◌, List, [], ◌∷◌, ◌++◌, if◌then◌else◌, length, is_empty, ◌≡◌,
  refl, arith, ◌∙◌, Bool-cases, inl, inr, Option, none, some,
}
use git_branch_manager.Base.Text.{Bytes, bytes_eq, bytes_eq_iff}
use git_branch_manager.Conflict.Batch.{
  ConflictFileState, unresolved, resolved, ConflictBatchEntry, WorkingCopyEntry, ConflictBatch,
  scan_has, is_tracked, derive_states, append_new, merge, count_resolved, resolved_count,
  all_resolved,
}

-- The state that the batch shows for a path, `none` for a path that it does not track.
abbrev pub state_of : Bytes → List ConflictBatchEntry → Option ConflictFileState
state_of path [] = none
state_of path (entry ∷ entries) =
    if bytes_eq entry.path path then some entry.state else state_of path entries

-- A path that was tracked before a scan without it.
abbrev pub settled : Option ConflictFileState → Option ConflictFileState
settled none = none
settled (some state) = some resolved

bytes_eq-same : (a b c : Bytes) → bytes_eq a b ≡ true → bytes_eq a c ≡ bytes_eq b c
bytes_eq-same a b c h = let e : a ≡ b = (bytes_eq_iff a b).0 h in rw e refl

state_of-derive_states :
    (path : Bytes) (conflicted : List WorkingCopyEntry) (entries : List ConflictBatchEntry)
    → state_of path (derive_states conflicted entries) ≡ (
        if scan_has path conflicted
        then (if is_tracked path entries then some unresolved else none)
        else settled (state_of path entries))
unfolding derive_states is_tracked
state_of-derive_states path conflicted [] = ground arith
state_of-derive_states path conflicted (entry ∷ entries) =
    let rest = state_of-derive_states path conflicted entries in
    elim (Bool-cases (bytes_eq entry.path path)) [
      | inl same ↦
          let e : entry.path ≡ path = (bytes_eq_iff entry.path path).0 same in
          ground (arith, e, same)
      | inr other ↦ ground (arith, other, rest)
    ]

pub is_tracked-append :
    (path : Bytes) (entries : List ConflictBatchEntry) (e : ConflictBatchEntry)
    → is_tracked path (entries ++ e ∷ []) ≡ (is_tracked path entries || bytes_eq e.path path)
unfolding is_tracked
is_tracked-append path [] e = ground arith
is_tracked-append path (entry ∷ entries) e = ground (arith, is_tracked-append path entries e)

state_of-append :
    (path : Bytes) (entries : List ConflictBatchEntry) (e : ConflictBatchEntry)
    → state_of path (entries ++ e ∷ []) ≡ (
        if is_tracked path entries
        then state_of path entries
        else (if bytes_eq e.path path then some e.state else none))
unfolding is_tracked
state_of-append path [] e = refl
state_of-append path (entry ∷ entries) e = ground (arith, state_of-append path entries e)

state_of-untracked :
    (path : Bytes) (entries : List ConflictBatchEntry)
    → is_tracked path entries ≡ false
    → state_of path entries ≡ none
unfolding is_tracked
state_of-untracked path [] h = refl
state_of-untracked path (entry ∷ entries) h = ground (arith, h, state_of-untracked path entries)

state_of-append_new :
    (path : Bytes) (entries : List ConflictBatchEntry) (conflicted : List WorkingCopyEntry)
    → state_of path (append_new entries conflicted) ≡ (
        if is_tracked path entries
        then state_of path entries
        else (if scan_has path conflicted then some unresolved else none))
unfolding append_new scan_has
state_of-append_new path entries [] = ground (arith, state_of-untracked path entries)
state_of-append_new path entries (c ∷ conflicted) =
    let fresh : ConflictBatchEntry = record {
      path = c.path;
      kind = c.conflict;
      state = unresolved;
    } in
    elim (Bool-cases (is_tracked c.path entries)) [
      | inl old ↦
          let same : bytes_eq c.path path ≡ true → is_tracked path entries ≡ true =
            λ e. rw ((bytes_eq_iff c.path path).0 e) at old in
          ground (arith, old, same, state_of-append_new path entries conflicted)
      | inr new ↦ ground (
        arith,
        new,
        state_of-append_new path (entries ++ fresh ∷ []) conflicted,
        is_tracked-append path entries fresh,
        state_of-append path entries fresh,
      )
    ]

pub is_tracked-derive_states :
    (path : Bytes) (conflicted : List WorkingCopyEntry) (entries : List ConflictBatchEntry)
    → is_tracked path (derive_states conflicted entries) ≡ is_tracked path entries
unfolding derive_states is_tracked
is_tracked-derive_states path conflicted [] = refl
is_tracked-derive_states path conflicted (entry ∷ entries) =
    ground (arith, is_tracked-derive_states path conflicted entries)

-- After a scan, a path that the scan has is shown as unresolved, whatever the batch knew of it; one
-- that the batch tracked and the scan does not have is shown as resolved; no other is tracked.
pub state_of-merge :
    (path : Bytes) (batch : ConflictBatch) (conflicted : List WorkingCopyEntry)
    → state_of path (merge batch conflicted).entries ≡ (
        if scan_has path conflicted then some unresolved else settled (state_of path batch.entries))
unfolding merge
state_of-merge path batch conflicted = ground (
  arith,
  state_of-append_new path (derive_states conflicted batch.entries) conflicted,
  is_tracked-derive_states path conflicted batch.entries,
  state_of-derive_states path conflicted batch.entries,
  state_of-untracked path batch.entries,
)

count_resolved-le : (entries : List ConflictBatchEntry) → count_resolved entries ≤ length entries
unfolding count_resolved
count_resolved-le [] = omega arith
count_resolved-le (entry ∷ entries) = ground (arith, count_resolved-le entries)

count_resolved-lt :
    (path : Bytes) (entries : List ConflictBatchEntry)
    → state_of path entries ≡ some unresolved
    → count_resolved entries < length entries
unfolding count_resolved
count_resolved-lt path [] h = ground (arith, h)
count_resolved-lt path (entry ∷ entries) h =
    ground (arith, h, count_resolved-le entries, count_resolved-lt path entries)

count_resolved-all :
    (entries : List ConflictBatchEntry)
    → count_resolved (derive_states [] entries) ≡ length (derive_states [] entries)
unfolding count_resolved derive_states scan_has
count_resolved-all [] = refl
count_resolved-all (entry ∷ entries) = omega (arith, count_resolved-all entries)

is_empty-derive_states :
    (conflicted : List WorkingCopyEntry) (entries : List ConflictBatchEntry)
    → is_empty (derive_states conflicted entries) ≡ is_empty entries
unfolding derive_states
is_empty-derive_states conflicted [] = refl
is_empty-derive_states conflicted (entry ∷ entries) = refl

-- After a scan everything is resolved exactly if the batch tracked a path before it and the scan
-- has none: one conflict left, be it old or new, is enough to say no.
pub all_resolved-merge :
    (batch : ConflictBatch) (conflicted : List WorkingCopyEntry)
    → all_resolved (merge batch conflicted) ≡ (not (is_empty batch.entries) && is_empty conflicted)
unfolding all_resolved resolved_count
all_resolved-merge batch [] =
    unfold merge in
    unfold append_new in
    ground (arith, count_resolved-all batch.entries, is_empty-derive_states [] batch.entries)
all_resolved-merge batch (c ∷ conflicted) =
    let shown : state_of c.path (merge batch (c ∷ conflicted)).entries ≡ some unresolved =
      state_of-merge c.path batch (c ∷ conflicted)
      ∙ unfold scan_has in ground (arith, bytes_eq_iff c.path c.path) in
    ground (arith, count_resolved-lt c.path (merge batch (c ∷ conflicted)).entries shown)
