-- ===== src/Conflict/Batch/Order.antt =====
-- src/core/git/ConflictBatch.cpp: the order of a batch's entries.
use git_branch_manager.Base.{
  Bool, false, ◌||◌, if◌then◌else◌, List, [], ◌∷◌, ◌++◌, ◌≡◌, refl, arith, ◌∙◌, sym, ap, Bool-cases,
  inl, inr, append-nil, append_assoc,
}
use git_branch_manager.Base.Text.{Bytes, bytes_eq, bytes_eq_iff}
use git_branch_manager.Conflict.Batch.{
  unresolved, ConflictBatchEntry, WorkingCopyEntry, ConflictBatch, is_tracked, derive_states,
  append_new, merge,
}
use git_branch_manager.Conflict.Batch.States.{is_tracked-append, is_tracked-derive_states}

abbrev pub paths : List ConflictBatchEntry → List Bytes
paths [] = []
paths (entry ∷ entries) = entry.path ∷ paths entries

-- No path has two entries.
abbrev pub AreDistinct : List ConflictBatchEntry → Type 0
AreDistinct [] = Unit
AreDistinct (entry ∷ entries) = (is_tracked entry.path entries ≡ false) × AreDistinct entries

bytes_eq-flip : (a b : Bytes) → bytes_eq a b ≡ false → bytes_eq b a ≡ false
bytes_eq-flip a b h = elim (Bool-cases (bytes_eq b a)) [
  | inl same ↦ absurd (ground (arith, h, (bytes_eq_iff b a).0 same, (bytes_eq_iff a b).1))
  | inr other ↦ other
]

AreDistinct-append :
    (entries : List ConflictBatchEntry) (e : ConflictBatchEntry)
    → is_tracked e.path entries ≡ false
    → AreDistinct entries
    → AreDistinct (entries ++ e ∷ [])
unfolding is_tracked
AreDistinct-append [] e h d = (refl, tt)
AreDistinct-append (entry ∷ entries) e h d = (
  ground (arith, is_tracked-append entry.path entries e, d.0, h, bytes_eq-flip entry.path e.path),
  AreDistinct-append entries e (ground (arith, h)) d.1,
)

AreDistinct-derive_states :
    (conflicted : List WorkingCopyEntry) (entries : List ConflictBatchEntry)
    → AreDistinct entries
    → AreDistinct (derive_states conflicted entries)
unfolding derive_states
AreDistinct-derive_states conflicted [] d = d
AreDistinct-derive_states conflicted (entry ∷ entries) d = (
  is_tracked-derive_states entry.path conflicted entries ∙ d.0,
  AreDistinct-derive_states conflicted entries d.1,
)

AreDistinct-append_new :
    (entries : List ConflictBatchEntry) (conflicted : List WorkingCopyEntry)
    → AreDistinct entries
    → AreDistinct (append_new entries conflicted)
unfolding append_new
AreDistinct-append_new entries [] d = d
AreDistinct-append_new entries (c ∷ conflicted) d = elim (Bool-cases (is_tracked c.path entries)) [
  | inl old ↦ rw old (AreDistinct-append_new entries conflicted d)
  | inr new ↦
      rw new
        (AreDistinct-append_new (entries ++ _ ∷ []) conflicted (AreDistinct-append entries _ new d))
]

paths-append :
    (entries : List ConflictBatchEntry) (e : ConflictBatchEntry)
    → paths (entries ++ e ∷ []) ≡ paths entries ++ e.path ∷ []
paths-append [] e = refl
paths-append (entry ∷ entries) e = ground (arith, paths-append entries e)

abbrev pub is_listed : Bytes → List Bytes → Bool
is_listed path [] = false
is_listed path (p ∷ known) = bytes_eq p path || is_listed path known

-- The paths of a scan that are not among the known ones, each once, in the order of the scan.
abbrev pub new_paths : List Bytes → List WorkingCopyEntry → List Bytes
new_paths known [] = []
new_paths known (c ∷ conflicted) =
    if is_listed c.path known
    then new_paths known conflicted
    else c.path ∷ new_paths (known ++ c.path ∷ []) conflicted

is_listed-paths :
    (path : Bytes) (entries : List ConflictBatchEntry)
    → is_tracked path entries ≡ is_listed path (paths entries)
unfolding is_tracked
is_listed-paths path [] = refl
is_listed-paths path (entry ∷ entries) =
    ap (λ b. bytes_eq entry.path path || b) (is_listed-paths path entries)

paths-append_new :
    (entries : List ConflictBatchEntry) (conflicted : List WorkingCopyEntry)
    → paths (append_new entries conflicted) ≡ paths entries ++ new_paths (paths entries) conflicted
unfolding append_new
paths-append_new entries [] = sym (append-nil (paths entries))
paths-append_new entries (c ∷ conflicted) = elim (Bool-cases (is_tracked c.path entries)) [
  | inl old ↦ rw (sym (is_listed-paths c.path entries), old) (paths-append_new entries conflicted)
  | inr new ↦
      let fresh : ConflictBatchEntry = record {
        path = c.path;
        kind = c.conflict;
        state = unresolved;
      } in
      rw (sym (is_listed-paths c.path entries), new)
        (paths-append_new (entries ++ fresh ∷ []) conflicted
          ∙ ap (λ known. known ++ new_paths known conflicted) (paths-append entries fresh)
          ∙ append_assoc (paths entries) (c.path ∷ [])
              (new_paths (paths entries ++ c.path ∷ []) conflicted))
]

paths-derive_states :
    (conflicted : List WorkingCopyEntry) (entries : List ConflictBatchEntry)
    → paths (derive_states conflicted entries) ≡ paths entries
unfolding derive_states
paths-derive_states conflicted [] = refl
paths-derive_states conflicted (entry ∷ entries) =
    ap (λ rest. entry.path ∷ rest) (paths-derive_states conflicted entries)

-- A scan never reorders the tracked paths, forgets one, or lists one twice: behind them come the
-- paths of the scan that were not tracked, each once and in the order of the scan. No path has two
-- entries before the scan.
pub merge-paths :
    (batch : ConflictBatch) (conflicted : List WorkingCopyEntry)
    → AreDistinct batch.entries
    → AreDistinct (merge batch conflicted).entries
      × (paths (merge batch conflicted).entries
          ≡ paths batch.entries ++ new_paths (paths batch.entries) conflicted)
unfolding merge
merge-paths batch conflicted d =
    let derived = derive_states conflicted batch.entries in
    (
      AreDistinct-append_new derived conflicted
          (AreDistinct-derive_states conflicted batch.entries d),
      paths-append_new derived conflicted
          ∙ ap (λ known. known ++ new_paths known conflicted)
              (paths-derive_states conflicted batch.entries),
    )
