-- ===== src/Tests/OperationsTests.antt =====
-- src/core/git/OperationRunner.cpp and RepoState.cpp: a queue with one background operation.
use git_branch_manager.Base.Text.{codes}
use git_branch_manager.Base.{
  ℕ, ◌+◌, ◌*◌, ◌≤◌, ◌<◌, true, false, not, List, [], ◌∷◌, ◌++◌, ◌≡◌, refl, arith, none, some, ◌⊎◌,
  All, length, ◌==◌, if◌then◌else◌,
}
use git_branch_manager.Errors.{ErrorCode, git_error}
use git_branch_manager.Operations.Attempts.{
  may_start, HasRun, IsRefused, execute-HasRun, run_with_retries-wanted, wants_retry,
}
use git_branch_manager.Operations.LockWait.{
  Rounds, wait_for_live_index_lock, wait_for_live_index_lock-ends, IsFirstEnd,
}
use git_branch_manager.Operations.Queue.Fifo.{
  Steps-IsFifo, finished_ids, submitted_ids, working_ids, queue_ids, IsRising,
}
use git_branch_manager.Operations.Queue.Steps.{
  Event, submitted, finished, took, began, asked, Steps, rests, goes_on, submits, takes, begins,
  checks, finishes, complete-once,
}
use git_branch_manager.Operations.Queue.Withdrawn.{submit-never, cancel-never, NeverRan}
use git_branch_manager.Operations.Queue.{
  QueuedOperation, Runner, new_runner, has_id, background_ids, is_queued, submit, cancel,
  cancelled_it, take_front, begin_run, check_cancelled, finish_run, complete, Completion,
}
use git_branch_manager.Operations.Undo.{record_undo_point-length, last_id}
use git_branch_manager.Operations.{
  Operation, OperationOutcome, Environment, UndoEntry, returned, default_outcome, execute,
  run_with_retries, record_undo_point, k_max_undo_entries,
}
use git_branch_manager.RepoState.Flags.{read_state-operation, any_sequencer_file, any_state_file}
use git_branch_manager.RepoState.{
  default_state, Disk, merge_head, rebase_merge, read_state, is_sequencer_operation, is_clean,
}

abbrev background : Operation
background = record {
  description = codes "Housekeeping";
  kind = codes "gc";
  killable_mid_flight = false;
  is_background = true;
  retries_on_lock_held = false;
  is_housekeeping = true;
  allowed_during_sequencer_operation = false;
}

abbrev stage : Operation
stage = record {
  description = codes "Stage";
  kind = codes "stage";
  killable_mid_flight = false;
  is_background = false;
  retries_on_lock_held = true;
  is_housekeeping = false;
  allowed_during_sequencer_operation = true;
}

abbrev lock_held : OperationOutcome
lock_held = record default_outcome { error = some (git_error ErrorCode.lock_held [] []) }

-- The first call meets a lock, the second succeeds.
abbrev environment : Environment
environment = record {
  cancelled_at = λ n. false;
  state = default_state;
  attempt = λ n.
      if n == 0 then returned lock_held else returned (record default_outcome { succeeded = true });
  head = none;
  timestamp = 7;
  lock_path = [];
  exception_text = [];
  describe_throws = false;
  kind_throws = false;
  callback_throws = true;
}

retried : (run_with_retries stage environment).1 ≡ 2
unfolding run_with_retries
retried = refl

execute-HasRun_example :
    ((may_start stage environment ≡ true)
      × HasRun stage environment [] 0 (execute stage environment [] 0))
    ⊎ ((may_start stage environment ≡ false) × IsRefused [] 0 (execute stage environment [] 0))
execute-HasRun_example = execute-HasRun stage environment [] 0

once : 0 + 1 < (run_with_retries stage environment).1
unfolding run_with_retries
once = omega arith

run_with_retries-wanted_example :
    (a : OperationOutcome) × (environment.attempt 0 ≡ returned a)
    × (wants_retry stage environment (0 + 1) a ≡ true)
run_with_retries-wanted_example = run_with_retries-wanted stage environment 0 once

complete-once_example :
    (length (complete stage environment [] 0).deliveries ≡ 1)
    × ((environment.kind_throws ≡ true)
        ⊎ All (λ d. d.kind ≡ stage.kind) (complete stage environment [] 0).deliveries)
complete-once_example = complete-once stage environment [] 0

abbrev journal : List UndoEntry
journal = []

record_undo_point-length_example :
    (length (record_undo_point stage environment journal) ≤ k_max_undo_entries)
    × ((length (record_undo_point stage environment journal) ≡ length journal + 1)
        ⊎ (length journal ≡ k_max_undo_entries))
    × (last_id (record_undo_point stage environment journal) ≡ length journal + 1)
record_undo_point-length_example = record_undo_point-length stage environment journal (omega arith)

-- A repository that stays locked, looked at every 20 milliseconds.
abbrev rounds : Rounds
rounds = record {
  state = λ n. record default_state { index_locked = true };
  is_cancelled = λ n. false;
  is_stopping = λ n. false;
  now = λ n. n * 20;
}

rounds-sleep : (n : ℕ) → n * 20 + 20 ≤ (n + 1) * 20
rounds-sleep n = omega arith

wait_for_live_index_lock-ends_example :
    (n : ℕ) × (wait_for_live_index_lock rounds 0 2000 ≡ some n) × IsFirstEnd rounds (0 + 2000) 0 n
wait_for_live_index_lock-ends_example =
    wait_for_live_index_lock-ends rounds 0 2000 (omega arith) rounds-sleep

abbrev one_waits : Runner
one_waits = submit (new_runner 1) background

waits : Steps (new_runner 1) (submitted 1 ∷ []) one_waits
waits =
    goes_on (new_runner 1) (new_runner 1) one_waits (submitted 1) [] (rests (new_runner 1))
      (submits (new_runner 1) background)

Steps-IsFifo_example :
    (finished_ids (submitted 1 ∷ []) ++ (working_ids one_waits.worker ++ queue_ids one_waits.queue)
      ≡ submitted_ids (submitted 1 ∷ []))
    × IsRising (submitted_ids (submitted 1 ∷ []))
Steps-IsFifo_example = Steps-IsFifo 1 one_waits (submitted 1 ∷ []) waits

-- The user stages a file while the background operation waits, and the worker takes it.
abbrev first : QueuedOperation
first = record { id = 1; operation = background }

abbrev second : QueuedOperation
second = record { id = 2; operation = stage }

abbrev after_submit : Runner
after_submit = submit one_waits stage

abbrev after_take : Runner
after_take = take_front after_submit first (second ∷ [])

abbrev after_begin : Runner
after_begin = begin_run after_take first

abbrev after_check : Runner
after_check = check_cancelled after_begin first

abbrev cancelled_environment : Environment
cancelled_environment = record environment { cancelled_at = λ n. true }

abbrev completion : Completion
completion = complete background cancelled_environment after_check.journal after_check.edges

abbrev worked : List Event
worked = finished 1 completion ∷ asked 1 true ∷ began 1 ∷ took 1 ∷ []

works : Steps after_submit worked (finish_run after_check completion)
unfolding submit take_front begin_run check_cancelled
works =
    goes_on after_submit after_check _ (finished 1 completion) _
      (goes_on after_submit after_begin after_check (asked 1 true) _
        (goes_on after_submit after_take after_begin (began 1) _
          (goes_on after_submit after_submit after_take (took 1) [] (rests after_submit)
            (takes after_submit first (second ∷ []) refl refl))
          (begins after_take first refl))
        (checks after_begin first refl true refl))
      (finishes after_check first true cancelled_environment refl refl)

waiting : has_id (background_ids one_waits.queue) 1 ≡ true
unfolding submit
waiting = refl

submit-never_example : All (NeverRan 1) worked
submit-never_example =
    submit-never 1 one_waits (finish_run after_check completion) (submitted 1 ∷ []) worked stage 1
      waits refl waiting works

queued : is_queued one_waits.queue 1 ≡ true
unfolding submit
queued = refl

cancel-never_example : ((cancel one_waits 1).1 ≡ cancelled_it) × All (NeverRan 1) []
cancel-never_example =
    cancel-never 1 one_waits (cancel one_waits 1).0 (submitted 1 ∷ []) [] 1 waits queued
      (rests (cancel one_waits 1).0)

-- A merge that has stopped in the middle of a rebase.
abbrev disk : Disk
disk = record {
  is_valid = true;
  exists = λ file. elim file [ merge_head ↦ true | rebase_merge ↦ true | _ ↦ false ];
  read_small_file = λ file limit. none;
  modified_time_ns = λ file. none;
  now_ns = 0;
}

read_state-operation_example :
    (is_sequencer_operation (read_state disk) ≡ any_sequencer_file disk)
    × (is_clean (read_state disk) ≡ not (any_state_file disk))
read_state-operation_example = read_state-operation disk refl
