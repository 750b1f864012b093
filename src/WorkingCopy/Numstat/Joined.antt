-- ===== src/WorkingCopy/Numstat/Joined.antt =====
-- src/core/git/WorkingCopyStatus.cpp: the join against the lines that `git diff --numstat -z` prints.
use git_branch_manager.Base.Decimal.{to_string}
use git_branch_manager.Base.Text.{Bytes, codes, bytes_eq}
use git_branch_manager.Base.{
  ℕ, ◌^◌, ◌<◌, arith, All-map, if◌then◌else◌, true, Bool, false, List, [], ◌∷◌, ◌++◌, ◌≡◌, refl, ap,
  ◌∙◌, some, All, ◌==◌, if_false, is_empty,
}
use git_branch_manager.Diff.Scan.Numbers.{to_string-AreDigits, parse_uint-to_string}
use git_branch_manager.Diff.Scan.{split_first-field, is_digit}
use git_branch_manager.WorkingCopy.Numstat.{
  CountFields, count_fields, behind_first, behind_second, set_counts, set_at, set_fields, join_line,
  join_counts,
}
use git_branch_manager.WorkingCopy.{WorkingCopyEntry}

-- What git counts in a file; a binary one has no lines.
pub data Counts : Type 0 where
  binary : Counts
  lines : (added removed : ℕ) → Counts

-- A file, or a file that was moved.
pub data NumstatLine : Type 0 where
  counted : Counts → (path : Bytes) → NumstatLine
  moved : Counts → (old_path new_path : Bytes) → NumstatLine

abbrev pub tabbed : Bytes → Bytes → Bytes → Bytes
tabbed added removed path = added ++ b'\t' ∷ (removed ++ b'\t' ∷ path)

abbrev pub print_added : Counts → Bytes
print_added binary = codes "-"
print_added (lines added removed) = to_string added

abbrev pub print_removed : Counts → Bytes
print_removed binary = codes "-"
print_removed (lines added removed) = to_string removed

abbrev pub print_line : NumstatLine → List Bytes
print_line (counted c path) = tabbed (print_added c) (print_removed c) path ∷ []
print_line (moved c old_path new_path) =
    tabbed (print_added c) (print_removed c) [] ∷ old_path ∷ new_path ∷ []

abbrev pub print_lines : List NumstatLine → List Bytes
print_lines [] = []
print_lines (l ∷ ls) = print_line l ++ print_lines ls

-- The first entry of a path is changed, the others are left.
abbrev pub change_first :
    Bytes → (WorkingCopyEntry → WorkingCopyEntry) → List WorkingCopyEntry → List WorkingCopyEntry
change_first path change [] = []
change_first path change (e ∷ es) =
    if bytes_eq e.path path then change e ∷ es else e ∷ change_first path change es

abbrev pub with_counts : Bool → ℕ → ℕ → WorkingCopyEntry → WorkingCopyEntry
with_counts true added removed e = record e { staged_added = added; staged_removed = removed }
with_counts false added removed e = record e { unstaged_added = added; unstaged_removed = removed }

abbrev pub give : Bool → Counts → Bytes → List WorkingCopyEntry → List WorkingCopyEntry
give staged binary path es = es
give staged (lines added removed) path es = change_first path (with_counts staged added removed) es

-- The counts go to the entry of the path, for a moved file the new one.
abbrev pub apply_line : Bool → NumstatLine → List WorkingCopyEntry → List WorkingCopyEntry
apply_line staged (counted c path) es = give staged c path es
apply_line staged (moved c old_path new_path) es = give staged c new_path es

abbrev pub apply_lines : Bool → List NumstatLine → List WorkingCopyEntry → List WorkingCopyEntry
apply_lines staged [] es = es
apply_lines staged (l ∷ ls) es = apply_lines staged ls (apply_line staged l es)

abbrev pub IsInRange : Counts → Type 0
IsInRange binary = Unit
IsInRange (lines added removed) = (added < 2 ^ 32) × (removed < 2 ^ 32)

abbrev pub IsLine : NumstatLine → Type 0
IsLine (counted c path) = IsInRange c × (is_empty path ≡ false)
IsLine (moved c old_path new_path) = IsInRange c

abbrev HasNoTab : Bytes → Type 0
HasNoTab = All (λ c. (c == b'\t') ≡ false)

to_string-HasNoTab : (n : ℕ) → HasNoTab (to_string n)
to_string-HasNoTab n =
    All-map (λ c. is_digit c ≡ true) (λ c. (c == b'\t') ≡ false) (to_string n)
      (λ c h. ground (arith, h)) (to_string-AreDigits n)

added-HasNoTab : (c : Counts) → HasNoTab (print_added c)
added-HasNoTab binary = (refl, tt)
added-HasNoTab (lines added removed) = to_string-HasNoTab added

removed-HasNoTab : (c : Counts) → HasNoTab (print_removed c)
removed-HasNoTab binary = (refl, tt)
removed-HasNoTab (lines added removed) = to_string-HasNoTab removed

-- A text of digits is no dash.
dash-digits : (ds : Bytes) → All (λ c. is_digit c ≡ true) ds → bytes_eq ds (codes "-") ≡ false
unfolding bytes_eq
dash-digits [] h = refl
dash-digits (d ∷ ds) h = ground (arith, h.0)

set_counts-with_counts :
    (staged : Bool) (added removed : ℕ) (e : WorkingCopyEntry)
    → set_counts staged added removed e ≡ with_counts staged added removed e
set_counts-with_counts true added removed e = refl
set_counts-with_counts false added removed e = refl

set_at-change_first :
    (staged : Bool) (added removed : ℕ) (path : Bytes) (es : List WorkingCopyEntry)
    → set_at staged added removed path es ≡ change_first path (with_counts staged added removed) es
unfolding set_at
set_at-change_first staged added removed path [] = refl
set_at-change_first staged added removed path (e ∷ es) = ground (
  arith,
  set_counts-with_counts staged added removed e,
  set_at-change_first staged added removed path es,
)

set_fields-give :
    (staged : Bool) (c : Counts) (field path : Bytes) (es : List WorkingCopyEntry)
    → IsInRange c
    → set_fields staged
        (record { added = print_added c; removed = print_removed c; path = field })
        path
        es
      ≡ give staged c path es
unfolding set_fields bytes_eq
set_fields-give staged binary field path es h = refl
set_fields-give staged (lines added removed) field path es h =
    rw
      (
        dash-digits (to_string added) (to_string-AreDigits added),
        dash-digits (to_string removed) (to_string-AreDigits removed),
        parse_uint-to_string added h.0,
        parse_uint-to_string removed h.1,
      )
      (set_at-change_first staged added removed path es)

count_fields-tabbed :
    (added removed path : Bytes)
    → HasNoTab added
    → HasNoTab removed
    → count_fields (tabbed added removed path)
      ≡ some (record { added = added; removed = removed; path = path })
unfolding count_fields
count_fields-tabbed added removed path h k =
    ap behind_first (split_first-field b'\t' added (removed ++ b'\t' ∷ path) h)
    ∙ ap (behind_second added) (split_first-field b'\t' removed path k)

fields-printed :
    (c : Counts) (path : Bytes)
    → count_fields (tabbed (print_added c) (print_removed c) path)
      ≡ some (record { added = print_added c; removed = print_removed c; path = path })
fields-printed c path =
    count_fields-tabbed (print_added c) (print_removed c) path (added-HasNoTab c)
      (removed-HasNoTab c)

join_line-counted :
    (staged : Bool) (next : List WorkingCopyEntry → List WorkingCopyEntry)
    (renamed : CountFields → List WorkingCopyEntry → List WorkingCopyEntry) (c : Counts)
    (path : Bytes) (es : List WorkingCopyEntry)
    → IsLine (counted c path)
    → join_line staged next renamed
        (count_fields (tabbed (print_added c) (print_removed c) path))
        es
      ≡ next (give staged c path es)
join_line-counted staged next renamed c path es h =
    ap (λ o. join_line staged next renamed o es) (fields-printed c path)
    ∙ if_false (is_empty path) _ _ h.1
    ∙ ap next (set_fields-give staged c path path es h.0)

join_counts-line :
    (staged : Bool) (l : NumstatLine) (records : List Bytes) (es : List WorkingCopyEntry)
    → IsLine l
    → join_counts staged (print_line l ++ records) es
      ≡ join_counts staged records (apply_line staged l es)
unfolding join_counts
join_counts-line staged (counted c path) [] es h =
    join_line-counted staged (λ x. x) (λ fields x. x) c path es h
join_counts-line staged (counted c path) (old ∷ []) es h =
    join_line-counted staged (join_counts staged (old ∷ [])) (λ fields x. x) c path es h
join_counts-line staged (counted c path) (old ∷ new ∷ records) es h =
    join_line-counted staged (join_counts staged (old ∷ new ∷ records)) _ c path es h
join_counts-line staged (moved c old_path new_path) records es h =
    ap
      (λ o.
        join_line staged (join_counts staged (old_path ∷ new_path ∷ records))
          (λ fields x. join_counts staged records (set_fields staged fields new_path x)) o es)
      (fields-printed c [])
    ∙ ap (join_counts staged records) (set_fields-give staged c [] new_path es h)

-- The join applies the lines that git prints one after the other: the numbers of added and removed
-- lines that were printed become the staged or the unstaged ones of the first entry of the path, a
-- moved file's of its new path, and all other entries stay as they are, as do all at a binary file.
-- The numbers fit 32 bits, and the path of a file that was not moved is not empty.
pub join_counts-print :
    (staged : Bool) (ls : List NumstatLine) (es : List WorkingCopyEntry)
    → All IsLine ls
    → join_counts staged (print_lines ls) es ≡ apply_lines staged ls es
unfolding join_counts
join_counts-print staged [] es h = refl
join_counts-print staged (l ∷ ls) es h =
    join_counts-line staged l (print_lines ls) es h.0
    ∙ join_counts-print staged ls (apply_line staged l es) h.1
