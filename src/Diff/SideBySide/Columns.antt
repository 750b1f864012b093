-- ===== src/Diff/SideBySide/Columns.antt =====
-- src/core/git/SideBySideDiff.cpp: each column of the paired rows is one side of the hunk.
use git_branch_manager.Base.{
  List, [], ◌∷◌, ◌++◌, Option, none, some, append-nil, append_assoc, ◌≡◌, refl, ap, sym, ◌∙◌, arith,
}
use git_branch_manager.Diff.Types.{DiffLineKind, DiffLine, DiffHunk, context}
use git_branch_manager.Diff.SideBySide.{
  SideBySideRow, pair_runs, Pairing, start, flush_run, push_both, pair_line, pair_lines,
  pair_hunk_for_side_by_side,
}

abbrev pub option_list : Option DiffLine → List DiffLine
option_list none = []
option_list (some l) = l ∷ []

-- A column of the rows, its gaps left out.
abbrev pub lefts : List SideBySideRow → List DiffLine
lefts [] = []
lefts (r ∷ rs) = option_list r.left ++ lefts rs

abbrev pub rights : List SideBySideRow → List DiffLine
rights [] = []
rights (r ∷ rs) = option_list r.right ++ rights rs

-- The lines of the old file in order. The kind is that of the last line that is no marker: a
-- marker belongs to the old side unless it stands behind an added line.
abbrev pub on_old : DiffLineKind → DiffLineKind → DiffLine → List DiffLine
on_old last DiffLineKind.context l = l ∷ []
on_old last DiffLineKind.removed l = l ∷ []
on_old last DiffLineKind.added l = []
on_old DiffLineKind.added DiffLineKind.no_newline_marker l = []
on_old _ DiffLineKind.no_newline_marker l = l ∷ []

abbrev pub on_new : DiffLineKind → DiffLineKind → DiffLine → List DiffLine
on_new last DiffLineKind.context l = l ∷ []
on_new last DiffLineKind.added l = l ∷ []
on_new last DiffLineKind.removed l = []
on_new DiffLineKind.removed DiffLineKind.no_newline_marker l = []
on_new _ DiffLineKind.no_newline_marker l = l ∷ []

abbrev pub real_kind : DiffLineKind → DiffLineKind → DiffLineKind
real_kind last DiffLineKind.no_newline_marker = last
real_kind last k = k

abbrev pub old_side : DiffLineKind → List DiffLine → List DiffLine
old_side last [] = []
old_side last (l ∷ ls) = on_old last l.kind l ++ old_side (real_kind last l.kind) ls

abbrev pub new_side : DiffLineKind → List DiffLine → List DiffLine
new_side last [] = []
new_side last (l ∷ ls) = on_new last l.kind l ++ new_side (real_kind last l.kind) ls

lefts-append : (a b : List SideBySideRow) → lefts (a ++ b) ≡ lefts a ++ lefts b
lefts-append [] b = refl
lefts-append (r ∷ a) b = simp (lefts-append a b, append_assoc)

rights-append : (a b : List SideBySideRow) → rights (a ++ b) ≡ rights a ++ rights b
rights-append [] b = refl
rights-append (r ∷ a) b = simp (rights-append a b, append_assoc)

lefts-pair_runs : (a b : List DiffLine) → lefts (pair_runs a b) ≡ a
unfolding pair_runs
lefts-pair_runs [] [] = refl
lefts-pair_runs [] (y ∷ b) = lefts-pair_runs [] b
lefts-pair_runs (x ∷ a) [] = ap (◌∷◌ x) (lefts-pair_runs a [])
lefts-pair_runs (x ∷ a) (y ∷ b) = ap (◌∷◌ x) (lefts-pair_runs a b)

rights-pair_runs : (a b : List DiffLine) → rights (pair_runs a b) ≡ b
unfolding pair_runs
rights-pair_runs [] [] = refl
rights-pair_runs [] (y ∷ b) = ap (◌∷◌ y) (rights-pair_runs [] b)
rights-pair_runs (x ∷ a) [] = rights-pair_runs a []
rights-pair_runs (x ∷ a) (y ∷ b) = ap (◌∷◌ y) (rights-pair_runs a b)

-- What each column holds once the runs are flushed.
abbrev so_far_left : Pairing → List DiffLine
so_far_left p = lefts p.rows ++ p.removed_run

abbrev so_far_right : Pairing → List DiffLine
so_far_right p = rights p.rows ++ p.added_run

ruleset columns =
    (lefts-append, rights-append, lefts-pair_runs, rights-pair_runs, append_assoc, append-nil)

-- A line goes to the end of its columns, and only markers keep the last real kind.
record Places (k : DiffLineKind) (p : Pairing) (l : DiffLine) : Type 0 where
  left_is : so_far_left (pair_line k p l) ≡ so_far_left p ++ on_old p.last_real_kind k l
  right_is : so_far_right (pair_line k p l) ≡ so_far_right p ++ on_new p.last_real_kind k l
  kind_is : (pair_line k p l).last_real_kind ≡ real_kind p.last_real_kind k

-- `push_both` ends both columns with the line.
push_both-left :
    (p : Pairing) (l : DiffLine) → so_far_left (push_both p l) ≡ so_far_left p ++ l ∷ []
unfolding push_both
push_both-left p l = simp columns

push_both-right :
    (p : Pairing) (l : DiffLine) → so_far_right (push_both p l) ≡ so_far_right p ++ l ∷ []
unfolding push_both
push_both-right p l = simp columns

push_both-kind : (p : Pairing) (l : DiffLine) → (push_both p l).last_real_kind ≡ p.last_real_kind
unfolding push_both
push_both-kind p l = refl

marker-Places :
    (last : DiffLineKind) (p : Pairing) (l : DiffLine)
    → p.last_real_kind ≡ last
    → Places DiffLineKind.no_newline_marker p l
unfolding pair_line
marker-Places DiffLineKind.context p l e = record {
  left_is = rw (e, pair_line) (push_both-left p l);
  right_is = rw (e, pair_line) (push_both-right p l);
  kind_is = ground (arith, push_both-kind p l);
}
marker-Places DiffLineKind.added p l e = record {
  left_is = rw (e, pair_line) (sym (append-nil _));
  right_is = rw (e, pair_line) (sym (append_assoc (rights p.rows) p.added_run (l ∷ [])));
  kind_is = ground arith;
}
marker-Places DiffLineKind.removed p l e = record {
  left_is = rw (e, pair_line) (sym (append_assoc (lefts p.rows) p.removed_run (l ∷ [])));
  right_is = rw (e, pair_line) (sym (append-nil _));
  kind_is = ground arith;
}
marker-Places DiffLineKind.no_newline_marker p l e = record {
  left_is = rw (e, pair_line) (push_both-left p l);
  right_is = rw (e, pair_line) (push_both-right p l);
  kind_is = ground (arith, push_both-kind p l);
}

pair_line-Places : (k : DiffLineKind) (p : Pairing) (l : DiffLine) → Places k p l
unfolding pair_line
pair_line-Places DiffLineKind.context p l = record {
  left_is = push_both-left p l;
  right_is = push_both-right p l;
  kind_is = refl;
}
pair_line-Places DiffLineKind.added p l = record {
  left_is = sym (append-nil _);
  right_is = sym (append_assoc (rights p.rows) p.added_run (l ∷ []));
  kind_is = refl;
}
pair_line-Places DiffLineKind.removed p l = record {
  left_is = sym (append_assoc (lefts p.rows) p.removed_run (l ∷ []));
  right_is = sym (append-nil _);
  kind_is = refl;
}
pair_line-Places DiffLineKind.no_newline_marker p l = marker-Places p.last_real_kind p l refl

pair_lines-left :
    (ls : List DiffLine) (p : Pairing)
    → so_far_left (pair_lines p ls) ≡ so_far_left p ++ old_side p.last_real_kind ls
unfolding pair_lines
pair_lines-left [] p = sym (append-nil _)
pair_lines-left (l ∷ ls) p =
    let at = pair_line-Places l.kind p l in
    pair_lines-left ls (pair_line l.kind p l)
    ∙ rw (at.left_is, at.kind_is) (append_assoc (so_far_left p) _ _)

pair_lines-right :
    (ls : List DiffLine) (p : Pairing)
    → so_far_right (pair_lines p ls) ≡ so_far_right p ++ new_side p.last_real_kind ls
unfolding pair_lines
pair_lines-right [] p = sym (append-nil _)
pair_lines-right (l ∷ ls) p =
    let at = pair_line-Places l.kind p l in
    pair_lines-right ls (pair_line l.kind p l)
    ∙ rw (at.right_is, at.kind_is) (append_assoc (so_far_right p) _ _)

flush_run-left : (p : Pairing) → lefts (flush_run p).rows ≡ so_far_left p
unfolding flush_run
flush_run-left p = simp columns

flush_run-right : (p : Pairing) → rights (flush_run p).rows ≡ so_far_right p
unfolding flush_run
flush_run-right p = simp columns

-- The left column, its gaps left out, is the old side of the hunk in order, and the right column
-- the new side: no line is lost, doubled or moved to the other side.
pub pair_hunk_columns :
    (hunk : DiffHunk)
    → (lefts (pair_hunk_for_side_by_side hunk) ≡ old_side context hunk.lines)
      × (rights (pair_hunk_for_side_by_side hunk) ≡ new_side context hunk.lines)
unfolding pair_hunk_for_side_by_side
pair_hunk_columns hunk =
    let end = pair_lines start hunk.lines in
    (
      flush_run-left end ∙ pair_lines-left hunk.lines start,
      flush_run-right end ∙ pair_lines-right hunk.lines start,
    )
