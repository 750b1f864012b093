-- ===== src/WorkingCopy/LineCounts/Cached.antt =====
-- src/core/git/WorkingCopyStatus.cpp: the cache of line counts never changes what is counted.
use git_branch_manager.Base.Text.{Bytes, bytes_eq, bytes_eq_iff}
use git_branch_manager.Base.{
  ℕ, ◌+◌, ◌≤◌, ◌<◌, Bool, true, false, List, [], ◌∷◌, ◌≡◌, refl, sym, ap, ◌∙◌, arith, Option, none,
  some, Option-cases, Bool-cases, inl, inr, All, All-map, ltb, if◌then◌else◌,
}
use git_branch_manager.WorkingCopy.LineCounts.{
  Stat, stat_eq, CacheEntry, UntrackedLineCountCache, find_entry, remembered, lookup, assign_entry,
  store, retained, retain_only, Files, count_lines, stat_of, with_stat, with_lines, count_contents,
  count_entry, count_entries, untracked_paths, count_untracked_lines, has_path,
}
use git_branch_manager.WorkingCopy.{WorkingCopyEntry}

-- The count without a cache: every file is read.
abbrev pub read_contents : WorkingCopyEntry → Stat → Option Bytes → WorkingCopyEntry
read_contents e stat none = with_stat e stat
read_contents e stat (some contents) = with_lines (with_stat e stat) (count_lines contents)

abbrev pub read_at : Files → WorkingCopyEntry → Option Stat → WorkingCopyEntry
read_at files e none = e
read_at files e (some stat) = read_contents e stat (files.contents e.path)

abbrev pub read_entry : Files → WorkingCopyEntry → WorkingCopyEntry
read_entry files e = read_at files e (stat_of files e.path)

abbrev pub read_entries : Files → List WorkingCopyEntry → List WorkingCopyEntry
read_entries files [] = []
read_entries files (e ∷ es) =
    (if e.untracked then read_entry files e else e) ∷ read_entries files es

-- The contents of a file that was last written before the pass, if it can be read, are those that
-- belong to its path, size and time.
abbrev pub IsSettled : (Bytes → Stat → Bytes) → ℕ → Files → Type 0
IsSettled content_of pass_started_at files =
    (path : Bytes) (stat : Stat) (contents : Bytes)
    → stat_of files path ≡ some stat
    → stat.modified < pass_started_at
    → files.contents path ≡ some contents
    → contents ≡ content_of path stat

-- A file that still has the size and time that are remembered can be read.
abbrev pub IsReadable : Files → CacheEntry → Type 0
IsReadable files e =
    stat_of files e.path ≡ some e.stat
    → (contents : Bytes) × (files.contents e.path ≡ some contents)

-- Each remembered count is that of the contents that belong to the path, size and time, and the time
-- lies before the bound.
abbrev pub IsRight : (Bytes → Stat → Bytes) → ℕ → List CacheEntry → Type 0
IsRight content_of bound =
    All (λ e. (e.lines ≡ count_lines (content_of e.path e.stat)) × (e.stat.modified < bound))

-- The same for the pass that goes on, with the files as they are.
abbrev IsKept : (Bytes → Stat → Bytes) → ℕ → Files → CacheEntry → Type 0
IsKept content_of bound files e =
    (e.lines ≡ count_lines (content_of e.path e.stat))
    × (e.stat.modified < bound)
    × IsReadable files e

module _ (P : CacheEntry → Type 0) where
  find-All :
      (es : List CacheEntry) (path : Bytes) (e : CacheEntry)
      → All P es
      → find_entry es path ≡ some e
      → (e.path ≡ path) × P e
  find-All [] path e h k = absurd cc
  find-All (x ∷ es) path e h k = elim (Bool-cases (bytes_eq x.path path)) [
    | inl same ↦
        let found : x ≡ e = ground (arith, same, k) in
        let equal : x.path ≡ path = (bytes_eq_iff x.path path).0 same in rw (sym found) (equal, h.0)
    | inr other ↦ find-All es path e h.1 (ground (arith, other, k))
  ]

  assign-All : (es : List CacheEntry) (e : CacheEntry) → All P es → P e → All P (assign_entry es e)
  assign-All [] e h k = (k, tt)
  assign-All (x ∷ es) e h k = elim (Bool-cases (bytes_eq x.path e.path)) [
    | inl same ↦ rw same (k, h.1)
    | inr other ↦ rw other (h.0, assign-All es e h.1 k)
  ]

  retained-All : (es : List CacheEntry) (live : List Bytes) → All P es → All P (retained es live)
  retained-All [] live h = tt
  retained-All (e ∷ es) live h = elim (Bool-cases (has_path live e.path)) [
    | inl kept ↦ rw kept (h.0, retained-All es live h.1)
    | inr gone ↦ rw gone (retained-All es live h.1)
  ]

stat_eq-same : (a b : Stat) → stat_eq a b ≡ true → a ≡ b
stat_eq-same a b h = ground (arith, h)

remembered-read :
    (content_of : Bytes → Stat → Bytes) (bound : ℕ) (files : Files) (es : List CacheEntry)
    (path : Bytes) (stat : Stat) (lines : ℕ)
    → All (IsKept content_of bound files) es
    → remembered es path stat ≡ some lines
    → stat_of files path ≡ some stat
    → (lines ≡ count_lines (content_of path stat))
      × (stat.modified < bound)
      × ((contents : Bytes) × (files.contents path ≡ some contents))
remembered-read f bound files es path stat lines h k there =
    elim (Option-cases (find_entry es path)) [
      | inl missing ↦ absurd (ground (arith, missing, k))
      | inr (e, found) ↦ elim (Bool-cases (stat_eq e.stat stat)) [
        | inl same ↦
            let (at, (right, before, readable)) =
              find-All (IsKept f bound files) es path e h found in
            let equal = stat_eq-same e.stat stat same in
            let told : e.lines ≡ lines = ground (arith, found, same, k) in
            let timed : e.stat.modified ≡ stat.modified = ap (λ s. s.modified) equal in
            let still : stat_of files e.path ≡ some e.stat =
              ap (stat_of files) at ∙ there ∙ ap some (sym equal) in
            let (contents, read) = readable still in
            (
              cc,
              omega (arith, before, timed),
              (contents, ap (λ p. files.contents p) (sym at) ∙ read),
            )
        | inr other ↦ absurd (ground (arith, found, other, k))
      ]
    ]

-- What a round of the loop gives, beside the entry that is read.
abbrev IsRound :
    (Bytes → Stat → Bytes)
    → ℕ
    → Files
    → WorkingCopyEntry
    → UntrackedLineCountCache × WorkingCopyEntry
    → Type 0
IsRound content_of started files e result =
    (result.1 ≡ e) × All (IsKept content_of started files) result.0.entries

count_contents-IsRound :
    (content_of : Bytes → Stat → Bytes) (started : ℕ) (files : Files) (c : UntrackedLineCountCache)
    (e : WorkingCopyEntry) (stat : Stat)
    → IsSettled content_of started files
    → All (IsKept content_of started files) c.entries
    → stat_of files e.path ≡ some stat
    → IsRound content_of started files
        (read_contents e stat (files.contents e.path))
        (count_contents started c e stat (files.contents e.path))
unfolding count_contents store
count_contents-IsRound f started files c e stat settled h k =
    elim (Option-cases (files.contents e.path)) [
      | inl unread ↦ rw unread (refl, h)
      | inr (contents, read) ↦ elim (Bool-cases (ltb stat.modified started)) [
        | inl before ↦
            let equal : contents ≡ f e.path stat =
              settled e.path stat contents k (ground (arith, before)) read in
            let new : CacheEntry = record {
              path = e.path;
              stat = stat;
              lines = count_lines contents;
            } in
            rw read (
              rw before (
                refl,
                assign-All (IsKept f started files) c.entries new h
                    (ap count_lines equal, ground (arith, before), λ still. (contents, read)),
              ))
        | inr late ↦ rw read (rw late (refl, h))
      ]
    ]

count_entry-IsRound :
    (content_of : Bytes → Stat → Bytes) (started : ℕ) (files : Files) (c : UntrackedLineCountCache)
    (e : WorkingCopyEntry)
    → IsSettled content_of started files
    → All (IsKept content_of started files) c.entries
    → IsRound content_of started files (read_entry files e) (count_entry files started c e)
unfolding count_entry lookup
count_entry-IsRound f started files c e settled h = elim (Option-cases (stat_of files e.path)) [
  | inl none_there ↦ rw none_there (refl, h)
  | inr (stat, there) ↦ elim (Option-cases (remembered c.entries e.path stat)) [
    | inl missed ↦
        let missing : UntrackedLineCountCache = record c { misses = c.misses + 1 } in
        rw there (rw missed (count_contents-IsRound f started files missing e stat settled h there))
    | inr (lines, hit) ↦
        let (right, before, (contents, read)) =
          remembered-read f started files c.entries e.path stat lines h hit there in
        let equal : contents ≡ f e.path stat = settled e.path stat contents there before read in
        let told : lines ≡ count_lines contents = right ∙ ap count_lines (sym equal) in
        rw there (
          rw hit
            (ap (with_lines (with_stat e stat)) told ∙ sym (ap (read_contents e stat) read), h))
  ]
]

pick-IsRound :
    (content_of : Bytes → Stat → Bytes) (started : ℕ) (files : Files) (c : UntrackedLineCountCache)
    (e : WorkingCopyEntry) (b : Bool)
    → IsSettled content_of started files
    → All (IsKept content_of started files) c.entries
    → IsRound content_of started files
        (if b then read_entry files e else e)
        (if b then count_entry files started c e else (c, e))
pick-IsRound f started files c e true settled h = count_entry-IsRound f started files c e settled h
pick-IsRound f started files c e false settled h = (refl, h)

count_entries-read :
    (content_of : Bytes → Stat → Bytes) (started : ℕ) (files : Files) (c : UntrackedLineCountCache)
    (es : List WorkingCopyEntry)
    → IsSettled content_of started files
    → All (IsKept content_of started files) c.entries
    → ((count_entries files started c es).1 ≡ read_entries files es)
      × All (IsKept content_of started files) (count_entries files started c es).0.entries
unfolding count_entries
count_entries-read f started files c [] settled h = (refl, h)
count_entries-read f started files c (e ∷ es) settled h =
    let one : UntrackedLineCountCache × WorkingCopyEntry =
      if e.untracked then count_entry files started c e else (c, e) in
    let (same, right) = pick-IsRound f started files c e e.untracked settled h in
    let (rest, right') = count_entries-read f started files one.0 es settled right in
    (
      ap (λ x. x ∷ (count_entries files started one.0 es).1) same
          ∙ ap (λ l. (if e.untracked then read_entry files e else e) ∷ l) rest,
      right',
    )

IsRight-IsKept :
    (content_of : Bytes → Stat → Bytes) (bound started : ℕ) (files : Files) (es : List CacheEntry)
    → bound ≤ started
    → IsRight content_of bound es
    → All (IsReadable files) es
    → All (IsKept content_of started files) es
IsRight-IsKept f bound started files [] h k r = tt
IsRight-IsKept f bound started files (e ∷ es) h k r =
    ((k.0.0, omega (arith, k.0.1), r.0), IsRight-IsKept f bound started files es h k.1 r.1)

-- A pass with the cache gives the entries that a pass without it gives, which reads every file, and
-- leaves a cache that is right for the next pass: for a cache that is right for an earlier pass, if
-- the contents of a file, once its time lies before the pass, are determined by its path, size and
-- time, and no file that still has its remembered size and time has become unreadable.
pub count_untracked_lines-read :
    (content_of : Bytes → Stat → Bytes) (bound started : ℕ) (files : Files)
    (c : UntrackedLineCountCache) (es : List WorkingCopyEntry)
    → ((path : Bytes) (stat : Stat) (contents : Bytes)
        → stat_of files path ≡ some stat
        → stat.modified < started
        → files.contents path ≡ some contents
        → contents ≡ content_of path stat)
    → bound ≤ started
    → IsRight content_of bound c.entries
    → All (IsReadable files) c.entries
    → ((count_untracked_lines false files started c es).1 ≡ read_entries files es)
      × IsRight content_of started (count_untracked_lines false files started c es).0.entries
unfolding count_untracked_lines retain_only
count_untracked_lines-read f bound started files c es settled h k r =
    let (same, right) =
      count_entries-read f started files c es settled
        (IsRight-IsKept f bound started files c.entries h k r) in
    (
      same,
      All-map (IsKept f started files)
          (λ e. (e.lines ≡ count_lines (f e.path e.stat)) × (e.stat.modified < started)) _
          (λ e kept. (kept.0, kept.1))
          (retained-All (IsKept f started files) _ (untracked_paths es) right),
    )
