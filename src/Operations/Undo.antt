-- ===== src/Operations/Undo.antt =====
-- src/core/git/OperationRunner.cpp: the ids and the length of the undo journal.
use git_branch_manager.Base.{
  ℕ, ◌+◌, ◌-◌, ◌≤◌, ◌<◌, List, [], ◌∷◌, ◌++◌, ◌≡◌, refl, arith, length, length-append, drop, ◌⊎◌,
}
use git_branch_manager.Operations.{
  Operation, Environment, UndoEntry, new_undo_entry, record_undo_point, k_max_undo_entries,
}

length-drop_one : (xs : List UndoEntry) → length (drop 1 xs) ≡ length xs - 1
length-drop_one [] = refl
length-drop_one (x ∷ xs) = omega arith

length-pushed :
    (journal : List UndoEntry) (e : UndoEntry) → length (journal ++ e ∷ []) ≡ length journal + 1
length-pushed journal e = length-append journal (e ∷ [])

-- The entry that a record appends.
abbrev pub last_id : List UndoEntry → ℕ
last_id [] = 0
last_id (e ∷ []) = e.id
last_id (e ∷ f ∷ es) = last_id (f ∷ es)

last_id-append : (journal : List UndoEntry) (e : UndoEntry) → last_id (journal ++ e ∷ []) ≡ e.id
last_id-append [] e = refl
last_id-append (x ∷ []) e = refl
last_id-append (x ∷ y ∷ journal) e = last_id-append (y ∷ journal) e

last_id-drop :
    (e : UndoEntry) (journal : List UndoEntry)
    → 0 < length journal
    → last_id (drop 1 (journal ++ e ∷ [])) ≡ e.id
last_id-drop e [] h = absurd (omega arith)
last_id-drop e (x ∷ journal) h = last_id-append journal e

-- A record keeps the journal within 200 entries, one longer than before unless it was full, and the
-- new entry's id is the length that the journal had, plus one. So behind a full journal every
-- record gets the id 201.
pub record_undo_point-length :
    (o : Operation) (env : Environment) (journal : List UndoEntry)
    → length journal ≤ k_max_undo_entries
    → (length (record_undo_point o env journal) ≤ k_max_undo_entries)
      × ((length (record_undo_point o env journal) ≡ length journal + 1)
          ⊎ (length journal ≡ k_max_undo_entries))
      × (last_id (record_undo_point o env journal) ≡ length journal + 1)
unfolding record_undo_point
record_undo_point-length o env journal h =
    let e = new_undo_entry o env (length journal + 1) in
    ground (
      arith,
      h,
      length-pushed journal e,
      length-drop_one (journal ++ e ∷ []),
      last_id-append journal e,
      last_id-drop e journal,
    )
