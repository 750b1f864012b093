-- ===== src/WorkingCopy/Expansion.antt =====
-- src/core/git/WorkingCopyStatus.cpp: `expandUntrackedDirectories`. What `ls-files` answers for the
-- path specifications is a parameter.
use git_branch_manager.Base.Text.{Bytes, codes, starts_with}
use git_branch_manager.Base.{
  ℕ, Bool, true, false, ◌&&◌, List, [], ◌∷◌, ◌++◌, append_assoc, ◌≡◌, refl, sym, ap, ◌∙◌, arith,
  All, ltb, ◌==◌, if◌then◌else◌, length, is_empty, drop, Bool-cases, inl, inr,
}
use git_branch_manager.Errors.{GitResult, failed, done}
use git_branch_manager.WorkingCopy.Porcelain.{
  StatusLine, ordinary, moved, unmerged, untracked_path, ignored_path, print_line, print_lines,
}

abbrev pub ends_in_slash : Bytes → Bool
ends_in_slash [] = false
ends_in_slash (c ∷ []) = c == b'/'
ends_in_slash (c ∷ d ∷ cs) = ends_in_slash (d ∷ cs)

-- A record `? dir/`.
unfoldable pub is_directory_record : Bytes → Bool
unfolding starts_with
is_directory_record line =
    ltb 2 (length line) && starts_with (codes "? ") line && ends_in_slash line

-- The records that are kept as they are.
unfoldable pub kept_records : List Bytes → List Bytes
kept_records [] = []
kept_records (line ∷ records) =
    if is_directory_record line then kept_records records else line ∷ kept_records records

unfoldable pub pathspecs : List Bytes → List Bytes
pathspecs [] = []
pathspecs (line ∷ records) =
    if is_directory_record line
    then (codes ":(literal)" ++ drop 2 line) ∷ pathspecs records
    else pathspecs records

abbrev pub untracked_records : List Bytes → List Bytes
untracked_records [] = []
untracked_records (path ∷ paths) = (codes "? " ++ path) ∷ untracked_records paths

unfoldable pub expand_untracked_directories :
    (List Bytes → GitResult (List Bytes)) → List Bytes → GitResult (List Bytes)
unfolding is_directory_record kept_records pathspecs
expand_untracked_directories list_others records =
    let asked : GitResult (List Bytes) = elim (list_others (pathspecs records)) [
      | failed e ↦ failed e
      | done paths ↦ done (kept_records records ++ untracked_records paths)
    ] in
    if is_empty (pathspecs records) then done (kept_records records) else asked

-- An untracked path with a slash at its end is a directory.
abbrev pub is_directory : StatusLine → Bool
is_directory (untracked_path path) = ends_in_slash path
is_directory _ = false

abbrev pub kept_lines : List StatusLine → List StatusLine
kept_lines [] = []
kept_lines (l ∷ ls) = if is_directory l then kept_lines ls else l ∷ kept_lines ls

-- The specifications that name the directories.
abbrev pub directory_specs : List StatusLine → List Bytes
directory_specs [] = []
directory_specs (untracked_path path ∷ ls) =
    if ends_in_slash path
    then (codes ":(literal)" ++ path) ∷ directory_specs ls
    else directory_specs ls
directory_specs (_ ∷ ls) = directory_specs ls

abbrev pub file_lines : List Bytes → List StatusLine
file_lines [] = []
file_lines (path ∷ paths) = untracked_path path ∷ file_lines paths

-- The old path of a rename is a file.
abbrev pub HasFile : StatusLine → Type 0
HasFile (moved x y sub m1 m2 m3 m4 m5 score path old_path) = (ends_in_slash old_path ≡ false)
HasFile _ = Unit

directory-slash : (line : Bytes) → ends_in_slash line ≡ false → is_directory_record line ≡ false
unfolding is_directory_record
directory-slash line h = ground (arith, h)

directory-untracked : (path : Bytes) → is_directory_record (codes "? " ++ path) ≡ ends_in_slash path
unfolding is_directory_record
directory-untracked [] = refl
directory-untracked (c ∷ path) = ground arith

directory-other :
    (c : ℕ) (rest : Bytes) → (b'?' == c) ≡ false → is_directory_record (c ∷ rest) ≡ false
unfolding is_directory_record
directory-other c rest h = ground (arith, h)

-- What is left of the records behind a line that is kept, or that is a directory.
abbrev KeepsOne : Bytes → List Bytes → Type 0
KeepsOne line rest =
    (kept_records (line ∷ rest) ≡ line ∷ kept_records rest)
    × (pathspecs (line ∷ rest) ≡ pathspecs rest)

keeps_one :
    (line : Bytes) (rest : List Bytes) → is_directory_record line ≡ false → KeepsOne line rest
unfolding kept_records pathspecs
keeps_one line rest h = ground (arith, h)

drops_one :
    (line : Bytes) (rest : List Bytes)
    → is_directory_record line ≡ true
    → (kept_records (line ∷ rest) ≡ kept_records rest)
      × (pathspecs (line ∷ rest) ≡ (codes ":(literal)" ++ drop 2 line) ∷ pathspecs rest)
unfolding kept_records pathspecs
drops_one line rest h = ground (arith, h)

abbrev IsSplit : List StatusLine → Type 0
IsSplit ls =
    (kept_records (print_lines ls) ≡ print_lines (kept_lines ls))
    × (pathspecs (print_lines ls) ≡ directory_specs ls)

kept-one :
    (line : Bytes) (ls : List StatusLine)
    → is_directory_record line ≡ false
    → IsSplit ls
    → (kept_records (line ∷ print_lines ls) ≡ line ∷ print_lines (kept_lines ls))
      × (pathspecs (line ∷ print_lines ls) ≡ directory_specs ls)
kept-one line ls h k =
    let (kept, specs) = keeps_one line (print_lines ls) h in
    (kept ∙ ap (λ l. line ∷ l) k.0, specs ∙ k.1)

untracked-one :
    (path : Bytes) (ls : List StatusLine) → IsSplit ls → IsSplit (untracked_path path ∷ ls)
untracked-one path ls k =
    let same = directory-untracked path in
    let line = codes "? " ++ path in
    elim (Bool-cases (ends_in_slash path)) [
      | inl slash ↦
          let (kept, specs) = drops_one line (print_lines ls) (same ∙ slash) in
          let found = ap (λ l. (codes ":(literal)" ++ path) ∷ l) k.1 in
          ((rw slash (kept ∙ k.0)), (rw slash (specs ∙ found)))
      | inr file ↦
          let (kept, specs) = kept-one line ls (same ∙ file) k in ((rw file kept), (rw file specs))
    ]

nothing-IsSplit : IsSplit []
unfolding kept_records pathspecs
nothing-IsSplit = (refl, refl)

kept-print : (ls : List StatusLine) → All HasFile ls → IsSplit ls
kept-print [] h = nothing-IsSplit
kept-print (ordinary x y sub m1 m2 m3 m4 m5 path ∷ ls) h =
    kept-one _ ls (directory-other b'1' _ refl) (kept-print ls h.1)
kept-print (moved x y sub m1 m2 m3 m4 m5 score path old_path ∷ ls) h =
    let (kept, specs) = kept-one old_path ls (directory-slash old_path h.0) (kept-print ls h.1) in
    let (kept', specs') = keeps_one _ (old_path ∷ print_lines ls) (directory-other b'2' _ refl) in
    (rw (sym kept) kept', specs' ∙ specs)
kept-print (unmerged x y sub m1 m2 m3 m4 h1 h2 h3 path ∷ ls) h =
    kept-one _ ls (directory-other b'u' _ refl) (kept-print ls h.1)
kept-print (untracked_path path ∷ ls) h = untracked-one path ls (kept-print ls h.1)
kept-print (ignored_path path ∷ ls) h =
    kept-one _ ls (directory-other b'!' _ refl) (kept-print ls h.1)

print-append : (a b : List StatusLine) → print_lines (a ++ b) ≡ print_lines a ++ print_lines b
print-append [] b = refl
print-append (l ∷ a) b =
    ap (λ r. print_line l ++ r) (print-append a b)
    ∙ sym (append_assoc (print_line l) (print_lines a) (print_lines b))

untracked-print : (paths : List Bytes) → untracked_records paths ≡ print_lines (file_lines paths)
untracked-print [] = refl
untracked-print (path ∷ paths) = ap (λ l. (codes "? " ++ path) ∷ l) (untracked-print paths)

-- The two branches of the expansion, given the kept records and the specifications.
abbrev expanded :
    (List Bytes → GitResult (List Bytes)) → List Bytes → List Bytes → GitResult (List Bytes)
expanded list_others kept specs = if is_empty specs then done kept else elim (list_others specs) [
  | failed e ↦ failed e
  | done paths ↦ done (kept ++ untracked_records paths)
]

expand-expanded :
    (list_others : List Bytes → GitResult (List Bytes)) (records : List Bytes)
    → expand_untracked_directories list_others records
      ≡ expanded list_others (kept_records records) (pathspecs records)
unfolding expand_untracked_directories
expand-expanded list_others records = refl

listed-print :
    (answer : GitResult (List Bytes)) (ls : List StatusLine)
    → (elim answer as (λ a. GitResult (List Bytes)) [
      | failed e ↦ failed e
      | done paths ↦ done (print_lines ls ++ untracked_records paths)
    ])
      ≡ (elim answer as (λ a. GitResult (List Bytes)) [
        | failed e ↦ failed e
        | done paths ↦ done (print_lines (ls ++ file_lines paths))
      ])
listed-print (failed e) ls = refl
listed-print (done paths) ls = ap done (
    ap (λ r. print_lines ls ++ r) (untracked-print paths)
    ∙ sym (print-append ls (file_lines paths)))

-- Expanding the records of a status gives those of the status in which the untracked directories are
-- replaced by the files that git lists in them, behind the other entries. git is asked for just
-- these directories, and not at all if there is none; its error is passed on. No rename has an old
-- path with a slash at its end.
pub expand-print :
    (list_others : List Bytes → GitResult (List Bytes)) (ls : List StatusLine)
    → All HasFile ls
    → expand_untracked_directories list_others (print_lines ls) ≡ (
        if is_empty (directory_specs ls)
        then done (print_lines (kept_lines ls))
        else elim (list_others (directory_specs ls)) [
          | failed e ↦ failed e
          | done paths ↦ done (print_lines (kept_lines ls ++ file_lines paths))
        ])
expand-print list_others ls h =
    let (kept, specs) = kept-print ls h in
    expand-expanded list_others (print_lines ls)
    ∙ ap (λ k. expanded list_others k (pathspecs (print_lines ls))) kept
    ∙ ap (expanded list_others (print_lines (kept_lines ls))) specs
    ∙ ap (λ a. if is_empty (directory_specs ls) then done (print_lines (kept_lines ls)) else a)
        (listed-print (list_others (directory_specs ls)) (kept_lines ls))
