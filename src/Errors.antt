-- ===== src/Errors.antt =====
-- src/core/base/Error.h and Error.cpp: the errors of git calls and their classification by what
-- git printed. `std::tolower` is that of the "C" locale, and an exit code its bit pattern.
pub mod Classify
use git_branch_manager.Base.{
  ℕ, ◌+◌, Bool, true, false, ◌&&◌, ◌||◌, List, [], ◌∷◌, leb, ◌==◌, if◌then◌else◌,
}
use git_branch_manager.Base.Text.{Bytes, codes}

-- `GitError::Code`
pub data ErrorCode : Type 0 where
  unknown not_found invalid_argument conflict lock_held auth host_key non_fast_forward
        dirty_work_tree hook_rejected cancelled process_failed spawn_failed parse_error corrupt
        unsupported timeout too_large database io not_cancellable stale_branch_tip
        missing_branch_tip :
      ErrorCode

pub record GitError : Type 0 where
  pub code : ErrorCode
  pub message : Bytes
  pub detail : Bytes
  pub argv : List Bytes
  pub exit_code : ℕ

-- `GitError(code, message, detail)`
abbrev pub git_error : ErrorCode → Bytes → Bytes → GitError
git_error code message detail = record {
  code = code;
  message = message;
  detail = detail;
  argv = [];
  exit_code = 0;
}

-- `GitResult`
pub data GitResult {ℓ} (A : Type ℓ) : Type ℓ where
  failed : GitError → GitResult A
  done : A → GitResult A

-- `cancelled()`
abbrev pub cancelled_error : GitError
cancelled_error = git_error cancelled (codes "Operation cancelled") []

abbrev pub to_lower : ℕ → ℕ
to_lower c = if leb b'A' c && leb c b'Z' then c + 32 else c

unfoldable pub starts_with_insensitive : Bytes → Bytes → Bool
starts_with_insensitive [] text = true
starts_with_insensitive (p ∷ ps) [] = false
starts_with_insensitive (p ∷ ps) (c ∷ cs) =
    to_lower c == to_lower p && starts_with_insensitive ps cs

unfoldable pub contains_insensitive : Bytes → Bytes → Bool
unfolding starts_with_insensitive
contains_insensitive [] needle = starts_with_insensitive needle []
contains_insensitive (c ∷ cs) needle =
    starts_with_insensitive needle (c ∷ cs) || contains_insensitive cs needle

pub record Pattern : Type 0 where
  pub needle : Bytes
  pub code : ErrorCode
  pub summary : Bytes

abbrev pattern_of : Bytes → ErrorCode → Bytes → Pattern
pattern_of needle code summary = record { needle = needle; code = code; summary = summary }

abbrev pub k_patterns : List Pattern
k_patterns =
    pattern_of (codes "unable to create") lock_held (codes "Could not create a Git lock file")
    ∷ pattern_of (codes "index.lock") lock_held
        (codes "Another Git process appears to be running in this repository")
    ∷ pattern_of (codes "cannot lock ref") lock_held (codes "Could not lock a Git reference")
    ∷ pattern_of (codes "would be overwritten by") dirty_work_tree
        (codes "Local changes would be overwritten")
    ∷ pattern_of (codes "local changes to the following files") dirty_work_tree
        (codes "Local changes would be overwritten")
    ∷ pattern_of (codes "please commit your changes or stash them") dirty_work_tree
        (codes "Commit or stash your changes first")
    ∷ pattern_of (codes "you have unstaged changes") dirty_work_tree
        (codes "You have unstaged changes")
    ∷ pattern_of (codes "conflict") conflict (codes "The operation stopped with conflicts")
    ∷ pattern_of (codes "after resolving the conflicts") conflict
        (codes "The operation stopped with conflicts")
    ∷ pattern_of (codes "non-fast-forward") non_fast_forward
        (codes "The remote has commits you do not have locally")
    ∷ pattern_of (codes "fetch first") non_fast_forward
        (codes "The remote has commits you do not have locally")
    ∷ pattern_of (codes "not possible to fast-forward") non_fast_forward
        (codes "Cannot fast-forward: the branches have diverged")
    ∷ pattern_of (codes "stale info") non_fast_forward
        (codes "The remote has moved since you last fetched; fetch and try again")
    ∷ pattern_of (codes "host key verification failed") host_key
        (codes "The server's host key could not be verified")
    ∷ pattern_of (codes "authenticity of host") host_key (codes "Unknown SSH host key")
    ∷ pattern_of (codes "authentication failed") auth (codes "Authentication failed")
    ∷ pattern_of (codes "could not read username") auth (codes "Git needs credentials")
    ∷ pattern_of (codes "permission denied (publickey") auth (codes "SSH key was rejected")
    ∷ pattern_of (codes "terminal prompts disabled") auth (codes "Git needs credentials")
    ∷ pattern_of (codes "pre-commit hook") hook_rejected (codes "A pre-commit hook rejected this")
    ∷ pattern_of (codes "commit-msg hook") hook_rejected (codes "A commit-msg hook rejected this")
    ∷ pattern_of (codes "hook declined") hook_rejected (codes "A Git hook rejected this")
    ∷ pattern_of (codes "nothing to commit") invalid_argument
        (codes "There is nothing staged to commit")
    ∷ pattern_of (codes "nothing added to commit") invalid_argument
        (codes "There is nothing staged to commit")
    ∷ pattern_of (codes "patch does not apply") conflict
        (codes "This change no longer matches the file; refresh and try again")
    ∷ pattern_of (codes "patch failed") conflict
        (codes "This change no longer matches the file; refresh and try again")
    ∷ pattern_of (codes "did not match any file") not_found (codes "No matching ref or path")
    ∷ pattern_of (codes "unknown revision") not_found (codes "Unknown revision")
    ∷ pattern_of (codes "not a git repository") not_found (codes "Not a Git repository")
    ∷ pattern_of (codes "bad object") not_found (codes "No such object")
    ∷ pattern_of (codes "does not exist") not_found (codes "Not found")
    ∷ pattern_of (codes "object file is empty") corrupt
        (codes "The repository has a corrupt object")
    ∷ pattern_of (codes "loose object") corrupt (codes "The repository has a corrupt object")
    ∷ pattern_of (codes "unknown option") unsupported
        (codes "This Git version does not support an option we used")
    ∷ pattern_of (codes "timed out") timeout (codes "The operation timed out")
    ∷ []

-- The loop over the patterns.
unfoldable pub classify_from : List Pattern → Bytes → ℕ → GitError
unfolding contains_insensitive
classify_from [] text exit_code =
    record (git_error process_failed (codes "Git reported an error") text) { exit_code = exit_code }
classify_from (p ∷ ps) text exit_code =
    let later = classify_from ps text exit_code in
    if contains_insensitive text p.needle
    then record (git_error p.code p.summary text) { exit_code = exit_code }
    else later

unfoldable pub classify_git_stderr : Bytes → ℕ → GitError
unfolding classify_from
classify_git_stderr = classify_from k_patterns

-- `toString(code)`
unfoldable pub code_name : ErrorCode → Bytes
code_name unknown = codes "Unknown"
code_name not_found = codes "NotFound"
code_name invalid_argument = codes "InvalidArgument"
code_name conflict = codes "Conflict"
code_name lock_held = codes "LockHeld"
code_name auth = codes "Auth"
code_name host_key = codes "HostKey"
code_name non_fast_forward = codes "NonFastForward"
code_name dirty_work_tree = codes "DirtyWorkTree"
code_name hook_rejected = codes "HookRejected"
code_name cancelled = codes "Cancelled"
code_name process_failed = codes "ProcessFailed"
code_name spawn_failed = codes "SpawnFailed"
code_name parse_error = codes "ParseError"
code_name corrupt = codes "Corrupt"
code_name unsupported = codes "Unsupported"
code_name timeout = codes "Timeout"
code_name too_large = codes "TooLarge"
code_name database = codes "Database"
code_name io = codes "Io"
code_name not_cancellable = codes "NotCancellable"
code_name stale_branch_tip = codes "StaleBranchTip"
code_name missing_branch_tip = codes "MissingBranchTip"

-- The code is that of an error of a given kind.
unfoldable pub code_eq : ErrorCode → ErrorCode → Bool
code_eq unknown unknown = true
code_eq not_found not_found = true
code_eq invalid_argument invalid_argument = true
code_eq conflict conflict = true
code_eq lock_held lock_held = true
code_eq auth auth = true
code_eq host_key host_key = true
code_eq non_fast_forward non_fast_forward = true
code_eq dirty_work_tree dirty_work_tree = true
code_eq hook_rejected hook_rejected = true
code_eq cancelled cancelled = true
code_eq process_failed process_failed = true
code_eq spawn_failed spawn_failed = true
code_eq parse_error parse_error = true
code_eq corrupt corrupt = true
code_eq unsupported unsupported = true
code_eq timeout timeout = true
code_eq too_large too_large = true
code_eq database database = true
code_eq io io = true
code_eq not_cancellable not_cancellable = true
code_eq stale_branch_tip stale_branch_tip = true
code_eq missing_branch_tip missing_branch_tip = true
code_eq _ _ = false
