-- ===== src/WorkingCopy/LineCounts.antt =====
-- src/core/git/WorkingCopyStatus.h and WorkingCopyStatus.cpp: the lines of untracked files, counted
-- by `countUntrackedLines` through `UntrackedLineCountCache`. What the file system answers about a
-- path is the record `Files`; a count wraps at 32 bits.
pub mod Cached
use git_branch_manager.Base.Text.{Bytes, codes, bytes_eq}
use git_branch_manager.Base.{
  ℕ, zero, suc, ◌+◌, ◌%◌, ◌^◌, Bool, true, false, not, ◌&&◌, ◌||◌, List, [], ◌∷◌, Option, none,
  some, ltb, ◌==◌, if◌then◌else◌, length, is_empty,
}
use git_branch_manager.Text.Traits.{EncodingKind, detect_text_traits, TextTraits, ends_in_newline}
use git_branch_manager.WorkingCopy.{WorkingCopyEntry}

abbrev pub k_untracked_line_count_byte_cap : ℕ
k_untracked_line_count_byte_cap = 2 ^ 20

-- `UntrackedLineCountCache::Stat`
pub record Stat : Type 0 where
  pub size : ℕ
  pub modified : ℕ

abbrev pub stat_eq : Stat → Stat → Bool
stat_eq a b = a.size == b.size && a.modified == b.modified

pub record CacheEntry : Type 0 where
  pub path : Bytes
  pub stat : Stat
  pub lines : ℕ

pub record UntrackedLineCountCache : Type 0 where
  pub entries : List CacheEntry
  pub hits : ℕ
  pub misses : ℕ

abbrev pub empty_cache : UntrackedLineCountCache
empty_cache = record { entries = []; hits = 0; misses = 0 }

-- The first entry of the path; there is one at most.
abbrev pub find_entry : List CacheEntry → Bytes → Option CacheEntry
find_entry [] path = none
find_entry (e ∷ es) path = if bytes_eq e.path path then some e else find_entry es path

abbrev pub remembered : List CacheEntry → Bytes → Stat → Option ℕ
remembered es path stat = elim (find_entry es path) [
  | none ↦ none
  | some e ↦ if stat_eq e.stat stat then some e.lines else none
]

abbrev pub answer : UntrackedLineCountCache → Option ℕ → UntrackedLineCountCache × Option ℕ
answer c none = (record c { misses = c.misses + 1 }, none)
answer c (some lines) = (record c { hits = c.hits + 1 }, some lines)

unfoldable pub lookup : UntrackedLineCountCache → Bytes → Stat → UntrackedLineCountCache × Option ℕ
lookup c path stat = answer c (remembered c.entries path stat)

-- `entries_[path] = entry`
abbrev pub assign_entry : List CacheEntry → CacheEntry → List CacheEntry
assign_entry [] e = e ∷ []
assign_entry (x ∷ es) e = if bytes_eq x.path e.path then e ∷ es else x ∷ assign_entry es e

unfoldable pub store : UntrackedLineCountCache → CacheEntry → ℕ → UntrackedLineCountCache
store c e pass_started_at =
    if ltb e.stat.modified pass_started_at
    then record c { entries = assign_entry c.entries e }
    else c

abbrev pub has_path : List Bytes → Bytes → Bool
has_path [] path = false
has_path (p ∷ paths) path = bytes_eq p path || has_path paths path

abbrev pub retained : List CacheEntry → List Bytes → List CacheEntry
retained [] live = []
retained (e ∷ es) live = if has_path live e.path then e ∷ retained es live else retained es live

unfoldable pub retain_only : UntrackedLineCountCache → List Bytes → UntrackedLineCountCache
retain_only c live = record c { entries = retained c.entries live }

-- `file_size`, `last_write_time` and the contents of a file, each of which may fail.
pub record Files : Type 0 where
  pub file_size : Bytes → Option ℕ
  pub last_write_time : Bytes → Option ℕ
  pub contents : Bytes → Option Bytes

abbrev pub count_newlines : Bytes → ℕ
count_newlines [] = 0
count_newlines (c ∷ cs) = if c == b'\n' then suc (count_newlines cs) else count_newlines cs

abbrev pub is_binary : EncodingKind → Bool
is_binary EncodingKind.binary = true
is_binary _ = false

unfoldable pub count_lines : Bytes → ℕ
unfolding detect_text_traits
count_lines contents =
    let ended = is_empty contents || ends_in_newline contents in
    let lines = if ended then count_newlines contents else count_newlines contents + 1 in
    if is_binary (detect_text_traits contents).encoding then 0 else lines % 2 ^ 32

-- The size and the time of a file that is looked at.
unfoldable pub stat_of : Files → Bytes → Option Stat
stat_of files path = elim (files.file_size path) [
  | none ↦ none
  | some size ↦
      if ltb k_untracked_line_count_byte_cap size then none else elim (files.last_write_time path) [
        | none ↦ none
        | some modified ↦ some (record { size = size; modified = modified })
      ]
]

abbrev pub with_stat : WorkingCopyEntry → Stat → WorkingCopyEntry
with_stat e stat = record e { untracked_size = stat.size; untracked_mtime_ticks = stat.modified }

abbrev pub with_lines : WorkingCopyEntry → ℕ → WorkingCopyEntry
with_lines e lines = record e { unstaged_added = lines; unstaged_removed = 0 }

-- The contents of a file whose count is not remembered, if it could be read.
unfoldable pub count_contents :
    ℕ
    → UntrackedLineCountCache
    → WorkingCopyEntry
    → Stat
    → Option Bytes
    → UntrackedLineCountCache × WorkingCopyEntry
unfolding store
count_contents pass_started_at c e stat none = (c, with_stat e stat)
count_contents pass_started_at c e stat (some contents) =
    let lines = count_lines contents in
    let new : CacheEntry = record { path = e.path; stat = stat; lines = lines } in
    (store c new pass_started_at, with_lines (with_stat e stat) lines)

abbrev pub count_looked_up :
    Files
    → ℕ
    → WorkingCopyEntry
    → Stat
    → UntrackedLineCountCache × Option ℕ
    → UntrackedLineCountCache × WorkingCopyEntry
count_looked_up files pass_started_at e stat (c, none) =
    count_contents pass_started_at c e stat (files.contents e.path)
count_looked_up files pass_started_at e stat (c, some lines) =
    (c, with_lines (with_stat e stat) lines)

abbrev pub count_at :
    Files
    → ℕ
    → UntrackedLineCountCache
    → WorkingCopyEntry
    → Option Stat
    → UntrackedLineCountCache × WorkingCopyEntry
count_at files pass_started_at c e none = (c, e)
count_at files pass_started_at c e (some stat) =
    count_looked_up files pass_started_at e stat (lookup c e.path stat)

-- One round of the loop, for an untracked entry.
unfoldable pub count_entry :
    Files
    → ℕ
    → UntrackedLineCountCache
    → WorkingCopyEntry
    → UntrackedLineCountCache × WorkingCopyEntry
unfolding lookup count_contents stat_of
count_entry files pass_started_at c e = count_at files pass_started_at c e (stat_of files e.path)

unfoldable pub count_entries :
    Files
    → ℕ
    → UntrackedLineCountCache
    → List WorkingCopyEntry
    → UntrackedLineCountCache × List WorkingCopyEntry
unfolding count_entry
count_entries files pass_started_at c [] = (c, [])
count_entries files pass_started_at c (e ∷ es) =
    let one = if e.untracked then count_entry files pass_started_at c e else (c, e) in
    let rest = count_entries files pass_started_at one.0 es in (rest.0, one.1 ∷ rest.1)

-- The paths that `live` collects.
abbrev pub untracked_paths : List WorkingCopyEntry → List Bytes
untracked_paths [] = []
untracked_paths (e ∷ es) = if e.untracked then e.path ∷ untracked_paths es else untracked_paths es

unfoldable pub count_untracked_lines :
    Bool
    → Files
    → ℕ
    → UntrackedLineCountCache
    → List WorkingCopyEntry
    → UntrackedLineCountCache × List WorkingCopyEntry
unfolding count_entries retain_only
count_untracked_lines is_bare files pass_started_at c entries =
    let counted = count_entries files pass_started_at c entries in
    if is_bare then (c, entries) else (retain_only counted.0 (untracked_paths entries), counted.1)
