-- ===== src/Operations/Queue/Steps.antt =====
-- src/core/git/OperationRunner.cpp: the steps of a runner, each of them one critical section or one
-- read of an atomic flag, in any interleaving of the callers and the worker.
use git_branch_manager.Base.{ℕ, ◌+◌, Bool, true, List, [], ◌∷◌, All, ◌⊎◌, ◌≡◌, length, arith}
use git_branch_manager.Operations.{Operation, Environment, UndoEntry}
use git_branch_manager.Operations.Queue.{
  QueuedOperation, Completion, complete, run_queued, fail_undelivered, idle, popped, begun, checked,
  Runner, submit, CancelResult, cancel, cancel_source, prepare_for_shutdown, stop, take_front,
  begin_run, check_cancelled, finish_run,
}

pub data Event : Type 0 where
  submitted : ℕ → Event
  cancel_asked : ℕ → CancelResult → Event
  handle_cancelled : ℕ → Event
  prepared stopped : Event
  took began : ℕ → Event
  asked : ℕ → Bool → Event
  finished : ℕ → Completion → Event
  passed : Event

-- `passes` is the counter of ids taken on by another runner of the process.
pub data Step : Runner → Event → Runner → Type 0 where
  submits : (r : Runner) (o : Operation) → Step r (submitted r.next_id) (submit r o)
  cancels : (r : Runner) (id : ℕ) → Step r (cancel_asked id (cancel r id).1) (cancel r id).0
  cancels_handle : (r : Runner) (id : ℕ) → Step r (handle_cancelled id) (cancel_source r id)
  prepares : (r : Runner) → Step r prepared (prepare_for_shutdown r)
  stops : (r : Runner) → Step r stopped (stop r)
  takes :
      (r : Runner) (q : QueuedOperation) (rest : List QueuedOperation)
      → r.worker ≡ idle
      → r.queue ≡ q ∷ rest
      → Step r (took q.id) (take_front r q rest)
  begins :
      (r : Runner) (q : QueuedOperation) → r.worker ≡ popped q → Step r (began q.id) (begin_run r q)
  checks :
      (r : Runner) (q : QueuedOperation)
      → r.worker ≡ begun q
      → (b : Bool) → (check_cancelled r q).worker ≡ checked q b
      → Step r (asked q.id b) (check_cancelled r q)
  finishes :
      (r : Runner) (q : QueuedOperation) (b : Bool) (env : Environment)
      → r.worker ≡ checked q b
      → env.cancelled_at 0 ≡ b
      → Step r
          (finished q.id (complete q.operation env r.journal r.edges))
          (finish_run r (complete q.operation env r.journal r.edges))
  passes : (r : Runner) → Step r passed (record r { next_id = r.next_id + 1 })

-- Any number of steps, the latest event first.
pub data Steps : Runner → List Event → Runner → Type 0 where
  rests : (r : Runner) → Steps r [] r
  goes_on :
      (r r' r'' : Runner) (e : Event) (es : List Event)
      → Steps r es r'
      → Step r' e r''
      → Steps r (e ∷ es) r''

-- However an operation ends, by an outcome or by an exception of its own or of the callback, the
-- callback is called exactly once, and is told the operation's kind unless asking for it throws.
pub complete-once :
    (o : Operation) (env : Environment) (journal : List UndoEntry) (edges : ℕ)
    → (length (complete o env journal edges).deliveries ≡ 1)
      × ((env.kind_throws ≡ true)
          ⊎ All (λ d. d.kind ≡ o.kind) (complete o env journal edges).deliveries)
unfolding complete run_queued fail_undelivered
complete-once o env journal edges = ground arith
