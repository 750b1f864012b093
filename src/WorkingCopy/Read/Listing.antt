-- ===== src/WorkingCopy/Read/Listing.antt =====
-- src/core/git/WorkingCopyStatus.cpp: what the counting of lines leaves of the entries.
use git_branch_manager.Base.Text.{Bytes, bytes_eq}
use git_branch_manager.Base.{
  ℕ, Bool, true, false, List, [], ◌∷◌, ◌≡◌, refl, sym, ap, ◌∙◌, arith, Option, none, some,
  Bool-cases, inl, inr, if◌then◌else◌, is_empty,
}
use git_branch_manager.Errors.{GitResult, failed, done}
use git_branch_manager.WorkingCopy.LineCounts.{
  Files, Stat, UntrackedLineCountCache, count_untracked_lines, count_entries, count_entry, count_at,
  count_looked_up, count_contents, stat_of, lookup,
}
use git_branch_manager.WorkingCopy.Numstat.{
  CountFields, count_fields, set_counts, set_at, set_fields, join_line, join_counts, attach_numstat,
}
use git_branch_manager.Diff.Scan.{parse_uint}
use git_branch_manager.WorkingCopy.Read.{zero_counts}
use git_branch_manager.WorkingCopy.{WorkingCopyEntry}

-- An entry without what the counting of lines may set.
abbrev pub uncounted : WorkingCopyEntry → WorkingCopyEntry
uncounted e = record e {
  unstaged_added = 0;
  unstaged_removed = 0;
  staged_added = 0;
  staged_removed = 0;
  untracked_size = 0;
  untracked_mtime_ticks = 0;
}

abbrev pub listing : List WorkingCopyEntry → List WorkingCopyEntry
listing [] = []
listing (e ∷ es) = uncounted e ∷ listing es

set_counts-uncounted :
    (staged : Bool) (a r : ℕ) (e : WorkingCopyEntry)
    → uncounted (set_counts staged a r e) ≡ uncounted e
set_counts-uncounted true a r e = refl
set_counts-uncounted false a r e = refl

set_at-listing :
    (staged : Bool) (a r : ℕ) (path : Bytes) (es : List WorkingCopyEntry)
    → listing (set_at staged a r path es) ≡ listing es
unfolding set_at
set_at-listing staged a r path [] = refl
set_at-listing staged a r path (e ∷ es) = elim (Bool-cases (bytes_eq e.path path)) [
  | inl same ↦ rw same (ap (λ x. x ∷ listing es) (set_counts-uncounted staged a r e))
  | inr other ↦ rw other (ap (λ l. uncounted e ∷ l) (set_at-listing staged a r path es))
]

set_fields-listing :
    (staged : Bool) (fields : CountFields) (path : Bytes) (es : List WorkingCopyEntry)
    → listing (set_fields staged fields path es) ≡ listing es
unfolding set_fields
set_fields-listing staged fields path es =
    ground
      (arith, set_at-listing staged (parse_uint fields.added) (parse_uint fields.removed) path es)

if-listing :
    (b : Bool) (x y es : List WorkingCopyEntry)
    → listing x ≡ listing es
    → listing y ≡ listing es
    → listing (if b then x else y) ≡ listing es
if-listing true x y es h k = h
if-listing false x y es h k = k

join_line-listing :
    (staged : Bool) (next : List WorkingCopyEntry → List WorkingCopyEntry)
    (renamed : CountFields → List WorkingCopyEntry → List WorkingCopyEntry) (o : Option CountFields)
    (es : List WorkingCopyEntry)
    → ((x : List WorkingCopyEntry) → listing (next x) ≡ listing x)
    → ((fields : CountFields) (x : List WorkingCopyEntry) → listing (renamed fields x) ≡ listing x)
    → listing (join_line staged next renamed o es) ≡ listing es
join_line-listing staged next renamed none es h k = h es
join_line-listing staged next renamed (some fields) es h k =
    if-listing (is_empty fields.path) _ _ es (k fields es)
      (h _ ∙ set_fields-listing staged fields fields.path es)

join_counts-listing :
    (staged : Bool) (records : List Bytes) (es : List WorkingCopyEntry)
    → listing (join_counts staged records es) ≡ listing es
unfolding join_counts
join_counts-listing staged [] es = refl
join_counts-listing staged (line ∷ []) es =
    join_line-listing staged _ _ (count_fields line) es (λ x. refl) (λ fields x. refl)
join_counts-listing staged (line ∷ old ∷ []) es =
    join_line-listing staged _ _ (count_fields line) es (join_counts-listing staged (old ∷ []))
      (λ fields x. refl)
join_counts-listing staged (line ∷ old ∷ new ∷ records) es =
    join_line-listing staged _ _ (count_fields line) es
      (join_counts-listing staged (old ∷ new ∷ records))
      (λ fields x. join_counts-listing staged records _ ∙ set_fields-listing staged fields new x)

pub attach-listing :
    (answer : GitResult (List Bytes)) (staged : Bool) (es counted : List WorkingCopyEntry)
    → attach_numstat answer staged es ≡ done counted
    → listing counted ≡ listing es
unfolding attach_numstat
attach-listing answer staged [] counted h = let same : [] ≡ counted = cc in ap listing (sym same)
attach-listing (failed e) staged (x ∷ es) counted h = absurd cc
attach-listing (done records) staged (x ∷ es) counted h =
    let same : join_counts staged records (x ∷ es) ≡ counted = cc in
    ap listing (sym same) ∙ join_counts-listing staged records (x ∷ es)

pub zero-listing : (es : List WorkingCopyEntry) → listing (zero_counts es) ≡ listing es
zero-listing [] = refl
zero-listing (e ∷ es) = ap (λ l. uncounted e ∷ l) (zero-listing es)

count_contents-uncounted :
    (started : ℕ) (c : UntrackedLineCountCache) (e : WorkingCopyEntry) (stat : Stat)
    (o : Option Bytes)
    → uncounted (count_contents started c e stat o).1 ≡ uncounted e
unfolding count_contents
count_contents-uncounted started c e stat none = refl
count_contents-uncounted started c e stat (some contents) = refl

count_looked_up-uncounted :
    (files : Files) (started : ℕ) (e : WorkingCopyEntry) (stat : Stat)
    (o : UntrackedLineCountCache × Option ℕ)
    → uncounted (count_looked_up files started e stat o).1 ≡ uncounted e
count_looked_up-uncounted files started e stat (c, none) =
    count_contents-uncounted started c e stat (files.contents e.path)
count_looked_up-uncounted files started e stat (c, some lines) = refl

count_at-uncounted :
    (files : Files) (started : ℕ) (c : UntrackedLineCountCache) (e : WorkingCopyEntry)
    (o : Option Stat)
    → uncounted (count_at files started c e o).1 ≡ uncounted e
count_at-uncounted files started c e none = refl
count_at-uncounted files started c e (some stat) =
    count_looked_up-uncounted files started e stat (lookup c e.path stat)

pick-uncounted :
    (files : Files) (started : ℕ) (c : UntrackedLineCountCache) (e : WorkingCopyEntry) (b : Bool)
    → uncounted (if b then count_entry files started c e else (c, e)).1 ≡ uncounted e
unfolding count_entry
pick-uncounted files started c e true = count_at-uncounted files started c e (stat_of files e.path)
pick-uncounted files started c e false = refl

count_entries-listing :
    (files : Files) (started : ℕ) (c : UntrackedLineCountCache) (es : List WorkingCopyEntry)
    → listing (count_entries files started c es).1 ≡ listing es
unfolding count_entries
count_entries-listing files started c [] = refl
count_entries-listing files started c (e ∷ es) =
    let one : UntrackedLineCountCache × WorkingCopyEntry =
      if e.untracked then count_entry files started c e else (c, e) in
    ap (λ x. x ∷ listing (count_entries files started one.0 es).1)
      (pick-uncounted files started c e e.untracked)
    ∙ ap (λ l. uncounted e ∷ l) (count_entries-listing files started one.0 es)

pub count_untracked-listing :
    (bare : Bool) (files : Files) (started : ℕ) (c : UntrackedLineCountCache)
    (es : List WorkingCopyEntry)
    → listing (count_untracked_lines bare files started c es).1 ≡ listing es
unfolding count_untracked_lines
count_untracked-listing true files started c es = refl
count_untracked-listing false files started c es = count_entries-listing files started c es
