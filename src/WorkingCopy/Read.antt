-- ===== src/WorkingCopy/Read.antt =====
-- src/core/git/WorkingCopyStatus.cpp: `WorkingCopyStatusReader::read`. The answers of the four git
-- commands and the file system are the record `World`.
pub mod Listing
pub mod Outcome
use git_branch_manager.Base.Text.{Bytes}
use git_branch_manager.Base.{ℕ, Bool, true, false, List, [], ◌∷◌, if◌then◌else◌}
use git_branch_manager.Errors.{ErrorCode, GitError, GitResult, failed, done, code_eq}
use git_branch_manager.WorkingCopy.Expansion.{expand_untracked_directories}
use git_branch_manager.WorkingCopy.LineCounts.{
  Files, UntrackedLineCountCache, count_untracked_lines,
}
use git_branch_manager.WorkingCopy.Numstat.{attach_numstat}
use git_branch_manager.WorkingCopy.{WorkingCopyEntry, WorkingCopyStatus, parse_records}

-- `numstat` is told whether it is the staged side.
pub record World : Type 0 where
  pub is_bare : Bool
  pub status : GitResult (List Bytes)
  pub list_others : List Bytes → GitResult (List Bytes)
  pub numstat : Bool → GitResult (List Bytes)
  pub files : Files
  pub now : ℕ

abbrev pub zero_counts : List WorkingCopyEntry → List WorkingCopyEntry
zero_counts [] = []
zero_counts (e ∷ es) =
    record e { unstaged_added = 0; unstaged_removed = 0; staged_added = 0; staged_removed = 0 }
    ∷ zero_counts es

abbrev pub status_of : List WorkingCopyEntry → Bool → WorkingCopyStatus
status_of entries unavailable = record { entries = entries; line_counts_unavailable = unavailable }

abbrev pub failed_if :
    Bool
    → UntrackedLineCountCache
    → List WorkingCopyEntry
    → GitError
    → UntrackedLineCountCache × GitResult WorkingCopyStatus
failed_if true c entries e = (c, failed e)
failed_if false c entries e = (c, done (status_of (zero_counts entries) true))

-- A pass that has failed: only a cancelled one fails the read.
unfoldable pub failed_pass :
    UntrackedLineCountCache
    → List WorkingCopyEntry
    → GitError
    → UntrackedLineCountCache × GitResult WorkingCopyStatus
unfolding code_eq
failed_pass c entries e = failed_if (code_eq e.code ErrorCode.cancelled) c entries e

-- Behind both passes.
unfoldable pub count_untracked :
    World
    → UntrackedLineCountCache
    → List WorkingCopyEntry
    → UntrackedLineCountCache × GitResult WorkingCopyStatus
unfolding count_untracked_lines
count_untracked w c entries =
    let counted = count_untracked_lines w.is_bare w.files w.now c entries in
    (counted.0, done (status_of counted.1 false))

abbrev pub behind_staged :
    World
    → UntrackedLineCountCache
    → List WorkingCopyEntry
    → GitResult (List WorkingCopyEntry)
    → UntrackedLineCountCache × GitResult WorkingCopyStatus
behind_staged w c entries (failed e) = failed_pass c entries e
behind_staged w c entries (done counted) = count_untracked w c counted

-- The second round of the loop.
unfoldable pub staged_pass :
    World
    → UntrackedLineCountCache
    → List WorkingCopyEntry
    → UntrackedLineCountCache × GitResult WorkingCopyStatus
unfolding attach_numstat failed_pass count_untracked
staged_pass w c entries = behind_staged w c entries (attach_numstat (w.numstat true) true entries)

abbrev pub behind_unstaged :
    World
    → UntrackedLineCountCache
    → List WorkingCopyEntry
    → GitResult (List WorkingCopyEntry)
    → UntrackedLineCountCache × GitResult WorkingCopyStatus
behind_unstaged w c entries (failed e) = failed_pass c entries e
behind_unstaged w c entries (done counted) = staged_pass w c counted

-- The first round of the loop.
unfoldable pub unstaged_pass :
    World
    → UntrackedLineCountCache
    → List WorkingCopyEntry
    → UntrackedLineCountCache × GitResult WorkingCopyStatus
unfolding attach_numstat failed_pass staged_pass
unstaged_pass w c entries =
    behind_unstaged w c entries (attach_numstat (w.numstat false) false entries)

abbrev pub read_listed :
    World
    → UntrackedLineCountCache
    → GitResult (List Bytes)
    → UntrackedLineCountCache × GitResult WorkingCopyStatus
read_listed w c (failed e) = (c, failed e)
read_listed w c (done records) = unstaged_pass w c (parse_records records)

abbrev pub read_records :
    World
    → UntrackedLineCountCache
    → GitResult (List Bytes)
    → UntrackedLineCountCache × GitResult WorkingCopyStatus
read_records w c (failed e) = (c, failed e)
read_records w c (done records) =
    read_listed w c (expand_untracked_directories w.list_others records)

unfoldable pub read :
    World → UntrackedLineCountCache → UntrackedLineCountCache × GitResult WorkingCopyStatus
unfolding unstaged_pass parse_records expand_untracked_directories
read w c = read_records w c w.status
