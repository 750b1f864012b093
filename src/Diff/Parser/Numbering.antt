-- ===== src/Diff/Parser/Numbering.antt =====
-- src/core/git/UnifiedDiffParser.cpp: the last element of a list, which a pointer to `back()`
-- stands for, and the numbers of the lines of a hunk.
use git_branch_manager.Base.{ℕ, List, [], ◌∷◌, ◌++◌, ◌≡◌, refl, All}
use git_branch_manager.Diff.Types.{DiffLineKind, DiffLine, DiffHunk}
use git_branch_manager.Diff.Parser.{update_last, increment}

-- The list is not empty, and its last element satisfies the predicate.
abbrev pub Last {ℓ} : {A : Type ℓ} → (A → Type 0) → List A → Type 0
Last P [] = ⊥
Last P (x ∷ []) = P x
Last P (x ∷ y ∷ xs) = Last P (y ∷ xs)

module _ {ℓ} {A : Type ℓ} (P Q R : A → Type 0) (f : A → A) where
  pub All-update_last :
      ((x : A) → P x → Q x → P (f x))
      → (xs : List A) → All P xs
      → Last Q xs
      → All P (update_last f xs)
  All-update_last keep [] h l = tt
  All-update_last keep (x ∷ []) h l = (keep x h.0 l, tt)
  All-update_last keep (x ∷ y ∷ xs) h l = (h.0, All-update_last keep (y ∷ xs) h.1 l)

  pub Last-update_last :
      ((x : A) → Q x → R (f x)) → (xs : List A) → Last Q xs → Last R (update_last f xs)
  Last-update_last next [] l = l
  Last-update_last next (x ∷ []) l = next x l
  Last-update_last next (x ∷ y ∷ []) l = next y l
  Last-update_last next (x ∷ y ∷ z ∷ xs) l = Last-update_last next (y ∷ z ∷ xs) l

module _ {ℓ} {A : Type ℓ} (P : A → Type 0) where
  pub All-update_last_each :
      (f : A → A) → ((x : A) → P x → P (f x)) → (xs : List A) → All P xs → All P (update_last f xs)
  All-update_last_each f keep [] h = tt
  All-update_last_each f keep (x ∷ []) h = (keep x h.0, tt)
  All-update_last_each f keep (x ∷ y ∷ xs) h = (h.0, All-update_last_each f keep (y ∷ xs) h.1)

  pub Last-append_one : (xs : List A) (x : A) → P x → Last P (xs ++ x ∷ [])
  Last-append_one [] x h = h
  Last-append_one (y ∷ []) x h = h
  Last-append_one (y ∷ z ∷ xs) x h = Last-append_one (z ∷ xs) x h

-- Line numbers on each side, and how they go on behind a line.
abbrev pub old_next : DiffLineKind → ℕ → ℕ
old_next DiffLineKind.context o = increment o
old_next DiffLineKind.removed o = increment o
old_next _ o = o

abbrev pub new_next : DiffLineKind → ℕ → ℕ
new_next DiffLineKind.context n = increment n
new_next DiffLineKind.added n = increment n
new_next _ n = n

abbrev pub old_after : ℕ → List DiffLine → ℕ
old_after o [] = o
old_after o (l ∷ ls) = old_after (old_next l.kind o) ls

abbrev pub new_after : ℕ → List DiffLine → ℕ
new_after n [] = n
new_after n (l ∷ ls) = new_after (new_next l.kind n) ls

-- A line carries the numbers of the sides that it is on, and 0 for the others.
abbrev pub IsNumbered : DiffLineKind → ℕ → ℕ → DiffLine → Type 0
IsNumbered DiffLineKind.context o n l = (l.old_line ≡ o) × (l.new_line ≡ n)
IsNumbered DiffLineKind.removed o n l = (l.old_line ≡ o) × (l.new_line ≡ 0)
IsNumbered DiffLineKind.added o n l = (l.old_line ≡ 0) × (l.new_line ≡ n)
IsNumbered DiffLineKind.no_newline_marker o n l = (l.old_line ≡ 0) × (l.new_line ≡ 0)

abbrev pub AreNumbered : ℕ → ℕ → List DiffLine → Type 0
AreNumbered o n [] = Unit
AreNumbered o n (l ∷ ls) =
    IsNumbered l.kind o n l × AreNumbered (old_next l.kind o) (new_next l.kind n) ls

-- The lines of a hunk are numbered one by one from the starts of its header.
abbrev pub HunkIsNumbered : DiffHunk → Type 0
HunkIsNumbered h = AreNumbered h.old_start h.new_start h.lines

pub AreNumbered-append :
    (ls : List DiffLine) (o n : ℕ) (l : DiffLine)
    → AreNumbered o n ls
    → IsNumbered l.kind (old_after o ls) (new_after n ls) l
    → AreNumbered o n (ls ++ l ∷ [])
AreNumbered-append [] o n l h k = (k, tt)
AreNumbered-append (x ∷ ls) o n l h k =
    (h.0, AreNumbered-append ls (old_next x.kind o) (new_next x.kind n) l h.1 k)

pub old_after-append :
    (ls : List DiffLine) (o : ℕ) (l : DiffLine)
    → old_after o (ls ++ l ∷ []) ≡ old_next l.kind (old_after o ls)
old_after-append [] o l = refl
old_after-append (x ∷ ls) o l = old_after-append ls (old_next x.kind o) l

pub new_after-append :
    (ls : List DiffLine) (n : ℕ) (l : DiffLine)
    → new_after n (ls ++ l ∷ []) ≡ new_next l.kind (new_after n ls)
new_after-append [] n l = refl
new_after-append (x ∷ ls) n l = new_after-append ls (new_next x.kind n) l
