-- ===== src/Diff/Parser/Writes.antt =====
-- src/core/git/UnifiedDiffParser.cpp: what holds between two lines of `parse`, and the writes
-- through its pointers that keep it.
use git_branch_manager.Base.{
  drop, ℕ, true, [], ◌∷◌, ◌++◌, some, ◌≡◌, refl, arith, All, All-append, Option-cases, inl, inr,
}
use git_branch_manager.Base.Text.{Bytes, codes}
use git_branch_manager.Diff.Scan.{split_first}
use git_branch_manager.Diff.Types.{DiffLine, DiffHunk, DiffFile}
use git_branch_manager.Diff.Parser.Numbering.{
  Last, All-update_last, Last-update_last, All-update_last_each, Last-append_one, old_next,
  new_next, old_after, new_after, IsNumbered, HunkIsNumbered, AreNumbered-append, old_after-append,
  new_after-append,
}
use git_branch_manager.Diff.Parser.{
  Parser, update_last, empty_file, set_paths, open_file, set_blobs, extended_header, open_hunk,
  push_line,
}

abbrev pub FileIsNumbered : DiffFile → Type 0
FileIsNumbered f = All HunkIsNumbered f.hunks

-- The last hunk of the file goes on at the line numbers `o` and `n`.
abbrev pub GoesOnAt : ℕ → ℕ → DiffHunk → Type 0
GoesOnAt o n h = (old_after h.old_start h.lines ≡ o) × (new_after h.new_start h.lines ≡ n)

abbrev pub FileGoesOnAt : ℕ → ℕ → DiffFile → Type 0
FileGoesOnAt o n f = Last (GoesOnAt o n) f.hunks

pub record IsValid (p : Parser) : Type 0 where
  pub filled : p.has_file ≡ true → Last (λ _. Unit {0}) p.files
  pub numbered : All FileIsNumbered p.files
  pub goes_on : p.has_hunk ≡ true → Last (FileGoesOnAt p.old_line p.new_line) p.files

module _ (l : DiffLine) (o n : ℕ) (due : IsNumbered l.kind o n l) where
  abbrev pushed : DiffHunk → DiffHunk
  pushed h = record h { lines = h.lines ++ l ∷ [] }

  pushed-IsNumbered : (h : DiffHunk) → HunkIsNumbered h → GoesOnAt o n h → HunkIsNumbered (pushed h)
  pushed-IsNumbered h v g =
      AreNumbered-append h.lines h.old_start h.new_start l v (rw (g.0, g.1) due)

  pushed-GoesOnAt :
      (h : DiffHunk) → GoesOnAt o n h → GoesOnAt (old_next l.kind o) (new_next l.kind n) (pushed h)
  pushed-GoesOnAt h g = (
    rw (old_after-append h.lines h.old_start l, g.0),
    rw (new_after-append h.lines h.new_start l, g.1),
  )

  abbrev pushed_in : DiffFile → DiffFile
  pushed_in f = record f { hunks = update_last pushed f.hunks }

  pushed_in-IsNumbered :
      (f : DiffFile) → FileIsNumbered f → FileGoesOnAt o n f → FileIsNumbered (pushed_in f)
  pushed_in-IsNumbered f =
      All-update_last HunkIsNumbered (GoesOnAt o n) HunkIsNumbered pushed pushed-IsNumbered f.hunks

  pushed_in-GoesOnAt :
      (f : DiffFile)
      → FileGoesOnAt o n f
      → FileGoesOnAt (old_next l.kind o) (new_next l.kind n) (pushed_in f)
  pushed_in-GoesOnAt f =
      Last-update_last HunkIsNumbered (GoesOnAt o n)
        (GoesOnAt (old_next l.kind o) (new_next l.kind n)) pushed pushed-GoesOnAt f.hunks

-- A line pushed with the numbers that are due keeps the parser valid.
pub push_line-IsValid :
    (p : Parser) (l : DiffLine)
    → IsValid p
    → p.has_hunk ≡ true
    → IsNumbered l.kind p.old_line p.new_line l
    → IsValid (record (push_line p l) {
      old_line = old_next l.kind p.old_line;
      new_line = new_next l.kind p.new_line;
    })
push_line-IsValid p l v inside due =
    let o = p.old_line in
    let n = p.new_line in
    record {
      filled = λ h.
          Last-update_last FileIsNumbered (λ _. Unit {0}) (λ _. Unit {0}) (pushed_in l o n due)
            (λ x _. tt) p.files (v.filled h);
      numbered =
          All-update_last FileIsNumbered (FileGoesOnAt o n) FileIsNumbered (pushed_in l o n due)
            (pushed_in-IsNumbered l o n due) p.files v.numbered (v.goes_on inside);
      goes_on = λ _.
          Last-update_last FileIsNumbered (FileGoesOnAt o n)
            (FileGoesOnAt (old_next l.kind o) (new_next l.kind n)) (pushed_in l o n due)
            (pushed_in-GoesOnAt l o n due) p.files (v.goes_on inside);
    }

-- A change of a file that leaves its hunks alone.
module _ (f : DiffFile → DiffFile) (same : (file : DiffFile) → (f file).hunks ≡ file.hunks) where
  kept_file : (file : DiffFile) → FileIsNumbered file → FileIsNumbered (f file)
  kept_file file h = rw (same file) h

  kept_last : (o n : ℕ) (file : DiffFile) → FileGoesOnAt o n file → FileGoesOnAt o n (f file)
  kept_last o n file h = rw (same file) h

  pub on_file-IsValid :
      (p : Parser) → IsValid p → IsValid (record p { files = update_last f p.files })
  on_file-IsValid p v = record {
    filled = λ h.
        Last-update_last FileIsNumbered (λ _. Unit {0}) (λ _. Unit {0}) f (λ x _. tt) p.files
          (v.filled h);
    numbered = All-update_last_each FileIsNumbered f kept_file p.files v.numbered;
    goes_on = λ inside.
        Last-update_last FileIsNumbered (FileGoesOnAt p.old_line p.new_line)
          (FileGoesOnAt p.old_line p.new_line) f (kept_last p.old_line p.new_line) p.files
          (v.goes_on inside);
  }

pub set_blobs-hunks : (rest : Bytes) (file : DiffFile) → (set_blobs rest file).hunks ≡ file.hunks
unfolding set_blobs
set_blobs-hunks rest file = ground arith

pub set_paths-hunks : (rest : Bytes) (file : DiffFile) → (set_paths rest file).hunks ≡ file.hunks
unfolding set_paths
set_paths-hunks rest file = ground arith

pub extended_header-hunks :
    (line : Bytes) (change : DiffFile → DiffFile)
    → extended_header line ≡ some change
    → (file : DiffFile) → (change file).hunks ≡ file.hunks
unfolding extended_header
extended_header-hunks line change e file = ground (arith, set_blobs-hunks (drop 6 line) file)

pub open_file-IsValid : (p : Parser) (line : Bytes) → IsValid p → IsValid (open_file p line)
unfolding open_file
open_file-IsValid p line v =
    let file = set_paths (drop 11 line) empty_file in
    record {
      filled = λ _. Last-append_one (λ _. Unit {0}) p.files file tt;
      numbered =
          All-append FileIsNumbered p.files (file ∷ []) v.numbered
            (rw (set_paths-hunks (drop 11 line) empty_file) tt, tt);
      goes_on = λ e. cc;
    }

module _ (p : Parser) (h : DiffHunk) (empty : h.lines ≡ []) where
  abbrev with_hunk : DiffFile → DiffFile
  with_hunk f = record f { hunks = f.hunks ++ h ∷ [] }

  with_hunk-IsNumbered : (f : DiffFile) → FileIsNumbered f → FileIsNumbered (with_hunk f)
  with_hunk-IsNumbered f v = All-append HunkIsNumbered f.hunks (h ∷ []) v (rw empty tt, tt)

  with_hunk-GoesOnAt :
      (f : DiffFile) → Unit {0} → FileGoesOnAt h.old_start h.new_start (with_hunk f)
  with_hunk-GoesOnAt f u =
      Last-append_one (GoesOnAt h.old_start h.new_start) f.hunks h (rw empty refl, rw empty refl)

  add_hunk-IsValid :
      IsValid p
      → p.has_file ≡ true
      → IsValid (record p {
        files = update_last with_hunk p.files;
        has_hunk = true;
        old_line = h.old_start;
        new_line = h.new_start;
      })
  add_hunk-IsValid v has = record {
    filled = λ _.
        Last-update_last FileIsNumbered (λ _. Unit {0}) (λ _. Unit {0}) with_hunk (λ x _. tt)
          p.files (v.filled has);
    numbered =
        All-update_last_each FileIsNumbered with_hunk with_hunk-IsNumbered p.files v.numbered;
    goes_on = λ _.
        Last-update_last FileIsNumbered (λ _. Unit {0}) (FileGoesOnAt h.old_start h.new_start)
          with_hunk with_hunk-GoesOnAt p.files (v.filled has);
  }

pub open_hunk-IsValid :
    (p : Parser) (line : Bytes) → IsValid p → p.has_file ≡ true → IsValid (open_hunk p line)
unfolding open_hunk
open_hunk-IsValid p line v has = elim (Option-cases (split_first (codes "@@") (drop 2 line))) [
  | inl e ↦ rw (e, open_hunk) v
  | inr (found, e) ↦ rw (e, open_hunk) (add_hunk-IsValid p _ refl v has)
]
