-- ===== src/Tests/WorkingCopyTests.antt =====
-- src/core/git/WorkingCopyStatus.cpp and src/core/base/Error.cpp: a small status.
use git_branch_manager.Base.Text.{Bytes, codes, bytes_eq}
use git_branch_manager.Base.{
  ◌<◌, true, false, List, [], ◌∷◌, ◌++◌, ◌≡◌, refl, arith, some, none, Bool-cases, inl, inr, All,
  is_empty, if◌then◌else◌,
}
use git_branch_manager.Errors.Classify.{IsClassified, classify_git_stderr-IsClassified}
use git_branch_manager.Errors.{GitResult, failed, done, k_patterns, classify_git_stderr}
use git_branch_manager.WorkingCopy.Expansion.{
  HasFile, expand-print, directory_specs, kept_lines, file_lines, expand_untracked_directories,
}
use git_branch_manager.WorkingCopy.LineCounts.Cached.{
  IsRight, IsReadable, read_entries, count_untracked_lines-read,
}
use git_branch_manager.WorkingCopy.LineCounts.{
  Files, Stat, UntrackedLineCountCache, empty_cache, count_lines, count_untracked_lines, stat_of,
}
use git_branch_manager.WorkingCopy.Numstat.Joined
use git_branch_manager.WorkingCopy.Numstat.{join_counts}
use git_branch_manager.WorkingCopy.Porcelain.{
  StatusLine, ordinary, moved, untracked_path, IsLine, print_lines, meanings, parse_records-print,
}
use git_branch_manager.WorkingCopy.Read.Outcome.{IsReadOf, read-IsReadOf}
use git_branch_manager.WorkingCopy.Read.{World, read}
use git_branch_manager.WorkingCopy.{WorkingCopyEntry, new_entry, parse_records}

abbrev untracked_entries : List WorkingCopyEntry
untracked_entries =
    record (new_entry (codes "notes")) { untracked = true }
    ∷ record (new_entry (codes "more")) { untracked = true }
    ∷ record (new_entry (codes "locked")) { untracked = true }
    ∷ []

abbrev zero_mode : Bytes
zero_mode = codes "100644"

-- A changed file with a space in its path, a rename and an untracked directory.
abbrev status_lines : List StatusLine
status_lines =
    ordinary b'.' b'M' (codes "N...") zero_mode zero_mode zero_mode (codes "a1") (codes "a2")
      (codes "my file")
    ∷ moved b'R' b'.' (codes "N...") zero_mode zero_mode zero_mode (codes "b1") (codes "b2")
        (codes "R90") (codes "new") (codes "old")
    ∷ untracked_path (codes "dir/")
    ∷ []

status-IsLine : All IsLine status_lines
status-IsLine = ground arith

parse_records-print_example : parse_records (print_lines status_lines) ≡ meanings status_lines
parse_records-print_example = parse_records-print status_lines status-IsLine

abbrev list_others : List Bytes → GitResult (List Bytes)
list_others specs = done (codes "dir/a" ∷ codes "dir/b" ∷ [])

status-HasFile : All HasFile status_lines
status-HasFile = ground arith

expand-print_example : expand_untracked_directories list_others (print_lines status_lines) ≡ (
    if is_empty (directory_specs status_lines)
    then done (print_lines (kept_lines status_lines))
    else elim (list_others (directory_specs status_lines)) [
      | failed e ↦ failed e
      | done paths ↦ done (print_lines (kept_lines status_lines ++ file_lines paths))
    ])
expand-print_example = expand-print list_others status_lines status-HasFile

abbrev numstat_lines : List Joined.NumstatLine
numstat_lines =
    Joined.moved (Joined.lines 3 1) (codes "old") (codes "new")
    ∷ Joined.counted (Joined.lines 12 0) (codes "my file")
    ∷ Joined.counted Joined.binary (codes "new")
    ∷ []

numstat-IsLine : All Joined.IsLine numstat_lines
numstat-IsLine = ground arith

join_counts-print_example :
    join_counts true (Joined.print_lines numstat_lines) (meanings status_lines)
    ≡ Joined.apply_lines true numstat_lines (meanings status_lines)
join_counts-print_example =
    Joined.join_counts-print true numstat_lines (meanings status_lines) numstat-IsLine

-- Every file was written at time 3 and holds two lines, and one cannot be read.
abbrev files : Files
files = record {
  file_size = λ path. some 4;
  last_write_time = λ path. some 3;
  contents = λ path. if bytes_eq path (codes "locked") then none else some (codes "a\nb\n");
}

abbrev content_of : Bytes → Stat → Bytes
content_of path stat = codes "a\nb\n"

-- The count of one file is remembered.
abbrev warm_cache : UntrackedLineCountCache
warm_cache = record empty_cache {
  entries =
      record {
        path = codes "notes";
        stat = record { size = 4; modified = 3 };
        lines = count_lines (codes "a\nb\n");
      }
      ∷ [];
}

warm-IsRight : IsRight content_of 4 warm_cache.entries
warm-IsRight = ((refl, omega arith), tt)

warm-hit : (count_untracked_lines false files 5 warm_cache untracked_entries).0.hits ≡ 1
unfolding count_untracked_lines bytes_eq
warm-hit = refl

files-settled :
    (path : Bytes) (stat : Stat) (contents : Bytes)
    → stat_of files path ≡ some stat
    → stat.modified < 5
    → files.contents path ≡ some contents
    → contents ≡ content_of path stat
files-settled path stat contents h k read = elim (Bool-cases (bytes_eq path (codes "locked"))) [
  | inl locked ↦ absurd (ground (arith, locked, read))
  | inr other ↦ ground (arith, other, read)
]

warm-IsReadable : All (IsReadable files) warm_cache.entries
unfolding bytes_eq
warm-IsReadable = (λ still. (codes "a\nb\n", refl), tt)

count_untracked_lines-read_example :
    ((count_untracked_lines false files 5 warm_cache untracked_entries).1
      ≡ read_entries files untracked_entries)
    × IsRight content_of 5
        (count_untracked_lines false files 5 warm_cache untracked_entries).0.entries
count_untracked_lines-read_example =
    count_untracked_lines-read content_of 4 5 files warm_cache untracked_entries files-settled
      (omega arith) warm-IsRight warm-IsReadable

-- The staged numstat pass times out.
abbrev world : World
world = record {
  is_bare = false;
  status = done (codes "? notes" ∷ []);
  list_others = list_others;
  numstat =
      λ staged. if staged then failed (classify_git_stderr (codes "timed out") 1) else done [];
  files = files;
  now = 5;
}

world-expanded :
    expand_untracked_directories world.list_others (codes "? notes" ∷ [])
    ≡ done (codes "? notes" ∷ [])
unfolding expand_untracked_directories
world-expanded = refl

read-IsReadOf_example :
    IsReadOf world empty_cache (parse_records (codes "? notes" ∷ [])) (read world empty_cache).1
read-IsReadOf_example =
    read-IsReadOf world empty_cache (codes "? notes" ∷ []) (codes "? notes" ∷ []) refl
      world-expanded

classify_git_stderr-IsClassified_example :
    IsClassified k_patterns
      (codes "fatal: CONFLICT")
      1
      (classify_git_stderr (codes "fatal: CONFLICT") 1)
classify_git_stderr-IsClassified_example =
    classify_git_stderr-IsClassified (codes "fatal: CONFLICT") 1
