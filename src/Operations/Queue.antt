-- ===== src/Operations/Queue.antt =====
-- src/core/git/OperationRunner.h, OperationRunner.cpp and OperationId.cpp: the queue of a runner and
-- its one worker. A `CancellationSource` is shared by the handle, the queue and the worker, so it is
-- kept by the id of its operation; every operation has a callback.
pub mod Fifo
pub mod Steps
pub mod Withdrawn
use git_branch_manager.Base.Text.{Bytes, codes}
use git_branch_manager.Base.{
  ℕ, ◌+◌, ◌%◌, Bool, true, false, not, ◌&&◌, ◌||◌, List, [], ◌∷◌, ◌++◌, Option, none, some, ◌==◌,
  if◌then◌else◌, ltb,
}
use git_branch_manager.Errors.{ErrorCode, git_error}
use git_branch_manager.Operations.{
  Operation, OperationOutcome, Environment, UndoEntry, default_outcome, execute, is_older,
  thrown_outcome,
}
use git_branch_manager.RepoState.{RepoState}

pub record QueuedOperation : Type 0 where
  pub id : ℕ
  pub operation : Operation

-- What `runQueued` leaves: how often `run` was called, what the callback was given, and whether the
-- callback is still to be called and an exception is on its way.
pub record Completion : Type 0 where
  pub runs : ℕ
  pub journal : List UndoEntry
  pub edges : ℕ
  pub deliveries : List OperationOutcome
  pub on_done : Bool
  pub throws : Bool

unfoldable pub run_queued : Operation → Environment → List UndoEntry → ℕ → Completion
unfolding execute
run_queued o env journal edges =
    let x = execute o env journal edges in
    if env.describe_throws
    then record {
      runs = 0;
      journal = journal;
      edges = edges;
      deliveries = [];
      on_done = true;
      throws = true;
    }
    else if env.kind_throws
    then record {
      runs = x.runs;
      journal = x.journal;
      edges = x.edges;
      deliveries = [];
      on_done = true;
      throws = true;
    }
    else record {
      runs = x.runs;
      journal = x.journal;
      edges = x.edges;
      deliveries = record x.outcome { kind = o.kind } ∷ [];
      on_done = false;
      throws = env.callback_throws;
    }

unfoldable pub fail_undelivered : Operation → Environment → Completion → Completion
fail_undelivered o env c =
    let failed = record (thrown_outcome env) { kind = if env.kind_throws then [] else o.kind } in
    if c.on_done then record c { deliveries = c.deliveries ++ failed ∷ []; on_done = false } else c

-- The `try` block of `workerLoop`.
unfoldable pub complete : Operation → Environment → List UndoEntry → ℕ → Completion
unfolding run_queued fail_undelivered
complete o env journal edges =
    let c = run_queued o env journal edges in if c.throws then fail_undelivered o env c else c

-- Where the worker is: waiting, or with an operation that it has popped, whose description it has
-- published, and of which it has asked whether it is cancelled.
pub data Worker : Type 0 where
  idle : Worker
  popped begun : QueuedOperation → Worker
  checked : QueuedOperation → Bool → Worker

-- `cancelled` has the ids whose sources are cancelled, and `next_id` is the counter of
-- `nextQueuedOperationId`.
pub record Runner : Type 0 where
  pub queue : List QueuedOperation
  pub cancelled : List ℕ
  pub next_id : ℕ
  pub worker : Worker
  pub running_id : ℕ
  pub running_killable : Bool
  pub running_description : Bytes
  pub journal : List UndoEntry
  pub edges : ℕ
  pub stopping : Bool
  pub preparing_for_shutdown : Bool

abbrev pub new_runner : ℕ → Runner
new_runner next_id = record {
  queue = [];
  cancelled = [];
  next_id = next_id;
  worker = idle;
  running_id = 0;
  running_killable = false;
  running_description = [];
  journal = [];
  edges = 0;
  stopping = false;
  preparing_for_shutdown = false;
}

abbrev pub has_id : List ℕ → ℕ → Bool
has_id [] id = false
has_id (x ∷ ids) id = x == id || has_id ids id

abbrev pub is_cancelled : Runner → ℕ → Bool
is_cancelled r id = has_id r.cancelled id

-- The ids of the waiting background work.
abbrev pub background_ids : List QueuedOperation → List ℕ
background_ids [] = []
background_ids (q ∷ queue) =
    if q.operation.is_background then q.id ∷ background_ids queue else background_ids queue

-- The sources that a submission cancels.
abbrev pub submit_cancels : Runner → Operation → List ℕ
submit_cancels r o =
    if not o.is_background
    then background_ids r.queue
    else if r.preparing_for_shutdown
    then r.next_id ∷ []
    else []

unfoldable pub submit : Runner → Operation → Runner
submit r o = record r {
  queue = r.queue ++ record { id = r.next_id; operation = o } ∷ [];
  cancelled = submit_cancels r o ++ r.cancelled;
  next_id = r.next_id + 1;
}

abbrev pub is_queued : List QueuedOperation → ℕ → Bool
is_queued [] id = false
is_queued (q ∷ queue) id = q.id == id || is_queued queue id

-- `runs`
unfoldable pub has_operation : Runner → ℕ → Bool
has_operation r id = not (id == 0) && (id == r.running_id || is_queued r.queue id)

-- With the description, where one is told.
pub data CancelResult : Type 0 where
  cancelled_it : CancelResult
  not_cancellable : Bytes → CancelResult
  not_found : CancelResult

-- `CancellationSource::cancel`, which a caller may also call on the handle.
abbrev pub cancel_source : Runner → ℕ → Runner
cancel_source r id = record r { cancelled = id ∷ r.cancelled }

unfoldable pub cancel : Runner → ℕ → Runner × CancelResult
cancel r id =
    if is_queued r.queue id
    then (cancel_source r id, cancelled_it)
    else if id == 0 || not (id == r.running_id)
    then (r, not_found)
    else if not r.running_killable
    then (r, not_cancellable r.running_description)
    else (cancel_source r id, cancelled_it)

unfoldable pub prepare_for_shutdown : Runner → Runner
prepare_for_shutdown r = record r {
  preparing_for_shutdown = true;
  cancelled = background_ids r.queue ++ r.cancelled;
}

-- The destructor, before it joins the worker.
abbrev pub stop : Runner → Runner
stop r = record r { stopping = true }

-- The first locked block of `workerLoop`, with the front of the queue and the rest of it.
unfoldable pub take_front : Runner → QueuedOperation → List QueuedOperation → Runner
take_front r q rest = record r { queue = rest; worker = popped q; running_id = q.id }

-- The locked block of `runQueued`.
unfoldable pub begin_run : Runner → QueuedOperation → Runner
begin_run r q = record r {
  worker = begun q;
  running_killable = q.operation.killable_mid_flight;
  running_description = q.operation.description;
}

-- The first question of `runQueued`.
unfoldable pub check_cancelled : Runner → QueuedOperation → Runner
check_cancelled r q = record r { worker = checked q (is_cancelled r q.id) }

-- The rest of `runQueued`, and the second locked block of `workerLoop`.
unfoldable pub finish_run : Runner → Completion → Runner
finish_run r c = record r {
  worker = idle;
  running_id = 0;
  running_killable = false;
  journal = c.journal;
  edges = c.edges;
}

-- `state`, given the counter before and after the repository is read.
unfoldable pub observe_state : ℕ → RepoState → ℕ → RepoState
observe_state before current after =
    if current.index_locked && (not (before % 2 == 0) || not (after == before))
    then record current { index_locked = false; index_lock_age_seconds = none }
    else current

-- `removeStaleIndexLock`: whether the file is removed and what is answered, `removable` being
-- whether the file system removes it.
unfoldable pub remove_stale_index_lock : RepoState → Bool → Bool × Bool
remove_stale_index_lock current removable =
    if not current.index_locked
    then (false, true)
    else if not (is_older current.index_lock_age_seconds)
    then (false, false)
    else (removable, removable)
