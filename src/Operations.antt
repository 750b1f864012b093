-- ===== src/Operations.antt =====
-- src/core/git/OperationRunner.h and OperationRunner.cpp: how one queued operation is run. What
-- the operation, the repository and the clock answer during a run is the record `Environment`.
pub mod Attempts
pub mod LockWait
pub mod Queue
pub mod Undo
use git_branch_manager.Base.Text.{Bytes, codes}
use git_branch_manager.Base.{
  ℕ, zero, suc, ◌+◌, ◌-◌, ◌*◌, ◌^◌, ◌%◌, Bool, true, false, not, ◌&&◌, ◌||◌, List, [], ◌∷◌, ◌++◌,
  Option, none, some, ltb, ◌==◌, if◌then◌else◌, length, drop, is_empty,
}
use git_branch_manager.Errors.{ErrorCode, GitError, git_error, cancelled_error, code_eq}
use git_branch_manager.Graph.ObjectId.{ObjectId, null_id}
use git_branch_manager.RepoState.{ℤ, pos, negsuc, RepoState, describe, is_sequencer_operation}

pub data ChoiceKind : Type 0 where
  stash_and_retry force_discard abort retry remove_lock : ChoiceKind

pub record OperationChoice : Type 0 where
  pub kind : ChoiceKind
  pub destructive : Bool

pub record OperationOutcome : Type 0 where
  pub succeeded : Bool
  pub error : Option GitError
  pub choices : List OperationChoice
  pub summary : Bytes
  pub kind : Bytes
  pub mutated_refs : Bool
  pub refs_moved : Option Bool

abbrev pub default_outcome : OperationOutcome
default_outcome = record {
  succeeded = false;
  error = none;
  choices = [];
  summary = [];
  kind = [];
  mutated_refs = false;
  refs_moved = none;
}

abbrev pub cancelled_outcome : OperationOutcome
cancelled_outcome = record default_outcome { error = some cancelled_error }

-- What the virtual functions of an `Operation` answer, `run` aside.
pub record Operation : Type 0 where
  pub description : Bytes
  pub kind : Bytes
  pub killable_mid_flight : Bool
  pub is_background : Bool
  pub retries_on_lock_held : Bool
  pub is_housekeeping : Bool
  pub allowed_during_sequencer_operation : Bool

-- `run` returns or throws.
pub data Attempt : Type 0 where
  returned : OperationOutcome → Attempt
  threw : Attempt

-- `cancelled_at` is what `isCancelled` answers as it is asked for the n-th time, `attempt` what
-- `run` does as it is called for the n-th time, `head` what `readHead` gives.
pub record Environment : Type 0 where
  pub cancelled_at : ℕ → Bool
  pub state : RepoState
  pub attempt : ℕ → Attempt
  pub head : Option (ObjectId × Bytes)
  pub timestamp : ℕ
  pub lock_path : Bytes
  pub exception_text : Bytes
  pub describe_throws : Bool
  pub kind_throws : Bool
  pub callback_throws : Bool

abbrev pub k_stale_lock_seconds : ℕ
k_stale_lock_seconds = 600

abbrev pub k_lock_retries : ℕ
k_lock_retries = 2

abbrev pub is_older : Option ℤ → Bool
is_older none = false
is_older (some (pos n)) = ltb k_stale_lock_seconds n
is_older (some (negsuc n)) = false

abbrev pub choice : ChoiceKind → Bool → OperationChoice
choice kind destructive = record { kind = kind; destructive = destructive }

abbrev pub lock_summary : Bytes
lock_summary = codes "Another Git process appears to be running in this repository"

unfoldable pub lock_outcome : RepoState → Bytes → OperationOutcome
lock_outcome s lock_path = record default_outcome {
  summary = lock_summary;
  error = some (git_error ErrorCode.lock_held lock_summary (codes "Lock file: " ++ lock_path));
  choices =
      choice retry false
      ∷ (if is_older s.index_lock_age_seconds then choice remove_lock true ∷ [] else []);
}

unfoldable pub sequencer_outcome : RepoState → OperationOutcome
unfolding describe
sequencer_outcome s = record default_outcome {
  summary = describe s;
  error = some (
      git_error ErrorCode.conflict (codes "Finish or abort the operation in progress first")
        (describe s));
  choices = choice abort true ∷ [];
}

-- `preflight`, behind the wait for the lock.
unfoldable pub preflight : Operation → Environment → Option OperationOutcome
unfolding lock_outcome sequencer_outcome
preflight o env =
    if env.cancelled_at 1
    then some cancelled_outcome
    else if env.state.index_locked
    then some (lock_outcome env.state env.lock_path)
    else if is_sequencer_operation env.state && not o.allowed_during_sequencer_operation
    then some (sequencer_outcome env.state)
    else none

pub record UndoEntry : Type 0 where
  pub id : ℕ
  pub description : Bytes
  pub head_before : ObjectId
  pub branch_before : Bytes
  pub timestamp : ℕ

abbrev pub k_max_undo_entries : ℕ
k_max_undo_entries = 200

abbrev pub new_undo_entry : Operation → Environment → ℕ → UndoEntry
new_undo_entry o env id = record {
  id = id;
  description = o.description;
  head_before = elim env.head [ none ↦ null_id | some h ↦ h.0 ];
  branch_before = elim env.head [ none ↦ [] | some h ↦ h.1 ];
  timestamp = env.timestamp;
}

unfoldable pub record_undo_point : Operation → Environment → List UndoEntry → List UndoEntry
record_undo_point o env journal =
    let pushed = journal ++ new_undo_entry o env (length journal + 1) ∷ [] in
    if ltb k_max_undo_entries (length pushed) then drop 1 pushed else pushed

-- The result of the `try` block, how often `run` was called, the undo journal and the counter of
-- housekeeping edges.
pub record Execution : Type 0 where
  pub outcome : OperationOutcome
  pub runs : ℕ
  pub journal : List UndoEntry
  pub edges : ℕ

abbrev pub thrown_outcome : Environment → OperationOutcome
thrown_outcome env = record default_outcome {
  error =
      some (
        git_error ErrorCode.unknown (codes "The operation failed unexpectedly") env.exception_text);
}

abbrev pub is_lock_held : Option GitError → Bool
is_lock_held none = false
is_lock_held (some e) = code_eq e.code ErrorCode.lock_held

-- The loop of retries behind the `n`-th call, with `left` retries to go.
unfoldable pub retry_from :
    Operation → Environment → ℕ → ℕ → OperationOutcome → OperationOutcome × ℕ
unfolding code_eq
retry_from o env zero n outcome = (outcome, n)
retry_from o env (suc left) n outcome =
    let again : OperationOutcome × ℕ = elim (env.attempt n) [
      | threw ↦ (record outcome { succeeded = false; error = (thrown_outcome env).error }, n + 1)
      | returned next ↦ retry_from o env left (n + 1) next
    ] in
    if not outcome.succeeded
      && o.retries_on_lock_held
      && is_lock_held outcome.error
      && not (env.cancelled_at (n + 1))
    then again
    else (outcome, n)

-- The first call and its retries.
unfoldable pub run_with_retries : Operation → Environment → OperationOutcome × ℕ
unfolding retry_from
run_with_retries o env = elim (env.attempt 0) [
  | threw ↦ (thrown_outcome env, 1)
  | returned outcome ↦ retry_from o env k_lock_retries 1 outcome
]

-- The branch of an operation that nothing blocks.
unfoldable pub run_unblocked : Operation → Environment → List UndoEntry → ℕ → Execution
unfolding run_with_retries record_undo_point
run_unblocked o env journal edges =
    let result = run_with_retries o env in
    record {
      outcome = result.0;
      runs = result.1;
      journal = if o.is_housekeeping then journal else record_undo_point o env journal;
      edges = if o.is_housekeeping then edges + 1 + 1 else edges;
    }

abbrev unstarted : OperationOutcome → List UndoEntry → ℕ → Execution
unstarted outcome journal edges = record {
  outcome = outcome;
  runs = 0;
  journal = journal;
  edges = edges;
}

-- Up to the outcome's kind.
unfoldable pub execute : Operation → Environment → List UndoEntry → ℕ → Execution
unfolding run_unblocked preflight
execute o env journal edges =
    if env.cancelled_at 0
    then unstarted cancelled_outcome journal edges
    else elim (preflight o env) [
      | some blocked ↦ unstarted blocked journal edges
      | none ↦ run_unblocked o env journal edges
    ]
