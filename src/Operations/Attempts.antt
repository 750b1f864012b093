-- ===== src/Operations/Attempts.antt =====
-- src/core/git/OperationRunner.cpp: how often an operation is run, and what the run leaves behind.
use git_branch_manager.Base.{
  ℕ, zero, suc, ◌+◌, ◌≤◌, ◌<◌, Bool, true, false, not, ◌&&◌, List, ◌≡◌, refl, arith, if◌then◌else◌,
  Bool-cases, inl, inr, ◌⊎◌,
}
use git_branch_manager.Operations.{
  Operation, OperationOutcome, Environment, Attempt, returned, threw, UndoEntry, Execution, execute,
  preflight, run_unblocked, run_with_retries, retry_from, lock_outcome, sequencer_outcome,
  is_lock_held, k_lock_retries, record_undo_point,
}
use git_branch_manager.RepoState.{is_sequencer_operation}

-- The preflight lets the operation start.
abbrev pub may_start : Operation → Environment → Bool
may_start o env =
    not (env.cancelled_at 0)
    && not (env.cancelled_at 1)
    && not env.state.index_locked
    && not (is_sequencer_operation env.state && not o.allowed_during_sequencer_operation)

-- The outcome asks for another call, as far as the loop of retries looks.
abbrev pub wants_retry : Operation → Environment → ℕ → OperationOutcome → Bool
wants_retry o env n outcome =
    not outcome.succeeded
    && o.retries_on_lock_held
    && is_lock_held outcome.error
    && not (env.cancelled_at (n + 1))

Attempt-cases :
    (a : Attempt) → ((outcome : OperationOutcome) × (a ≡ returned outcome)) ⊎ (a ≡ threw)
Attempt-cases (returned outcome) = inl (outcome, refl)
Attempt-cases threw = inr refl

retry_from-runs :
    (o : Operation) (env : Environment) (left n : ℕ) (outcome : OperationOutcome)
    → (n ≤ (retry_from o env left n outcome).1) × ((retry_from o env left n outcome).1 ≤ n + left)
unfolding retry_from
retry_from-runs o env zero n outcome = (omega arith, omega arith)
retry_from-runs o env (suc left) n outcome = elim (Attempt-cases (env.attempt n)) [
  | inl (next, e) ↦ ground (arith, e, retry_from-runs o env left (n + 1) next)
  | inr e ↦ ground (arith, e)
]

run_with_retries-runs :
    (o : Operation) (env : Environment)
    → (1 ≤ (run_with_retries o env).1) × ((run_with_retries o env).1 ≤ 3)
unfolding run_with_retries
run_with_retries-runs o env = elim (Attempt-cases (env.attempt 0)) [
  | inl (next, e) ↦ ground (arith, e, retry_from-runs o env k_lock_retries 1 next)
  | inr e ↦ ground (arith, e)
]

-- The journal and the counter of housekeeping edges after an operation that has run.
abbrev pub LeavesTraces : Operation → Environment → List UndoEntry → ℕ → Execution → Type 0
LeavesTraces o env journal edges x =
    (x.journal ≡ (if o.is_housekeeping then journal else record_undo_point o env journal))
    × (x.edges ≡ (if o.is_housekeeping then edges + 2 else edges))

-- Nothing has happened but the refusal.
abbrev pub IsRefused : List UndoEntry → ℕ → Execution → Type 0
IsRefused journal edges x =
    (x.runs ≡ 0) × (x.journal ≡ journal) × (x.edges ≡ edges) × (x.outcome.succeeded ≡ false)

abbrev pub HasRun : Operation → Environment → List UndoEntry → ℕ → Execution → Type 0
HasRun o env journal edges x = (1 ≤ x.runs) × (x.runs ≤ 3) × LeavesTraces o env journal edges x

-- An operation is run one to three times exactly if it is not cancelled, no index lock is held and
-- no sequencer operation is in its way. Then one undo point is recorded, or, for housekeeping, two
-- edges are counted. Else it is not run, fails, and leaves the journal and the counter alone.
pub execute-HasRun :
    (o : Operation) (env : Environment) (journal : List UndoEntry) (edges : ℕ)
    → ((may_start o env ≡ true) × HasRun o env journal edges (execute o env journal edges))
      ⊎ ((may_start o env ≡ false) × IsRefused journal edges (execute o env journal edges))
unfolding execute preflight run_unblocked lock_outcome sequencer_outcome
execute-HasRun o env journal edges = ground (arith, run_with_retries-runs o env)

same_or_above : (n m : ℕ) → n ≤ m → (m ≡ n) ⊎ (n + 1 ≤ m)
same_or_above n m h = omega arith

retry_from-wanted :
    (o : Operation) (env : Environment) (left n m : ℕ) (outcome : OperationOutcome)
    → env.attempt n ≡ returned outcome
    → n ≤ m
    → m + 1 < (retry_from o env left (n + 1) outcome).1
    → (a : OperationOutcome) × (env.attempt m ≡ returned a) × (wants_retry o env (m + 1) a ≡ true)
unfolding retry_from
retry_from-wanted o env zero n m outcome e h k = absurd (omega arith)
retry_from-wanted o env (suc left) n m outcome e h k =
    elim (Bool-cases (wants_retry o env (n + 1) outcome)) [
      | inr enough ↦ absurd (ground (arith, enough, h, k))
      | inl wanted ↦ elim (same_or_above n m h) [
        | inl same ↦ (outcome, (rw same e), (rw same wanted))
        | inr above ↦ elim (Attempt-cases (env.attempt (n + 1))) [
          | inl (next, called) ↦
              retry_from-wanted o env left (n + 1) m next called above
                (ground (arith, wanted, called, k))
          | inr failed ↦ absurd (ground (arith, wanted, failed, k, above))
        ]
      ]
    ]

-- A call that is not the last one has returned, failed for a held lock, and belongs to an operation
-- that asks for retries and was not cancelled behind it.
pub run_with_retries-wanted :
    (o : Operation) (env : Environment) (m : ℕ)
    → m + 1 < (run_with_retries o env).1
    → (a : OperationOutcome) × (env.attempt m ≡ returned a) × (wants_retry o env (m + 1) a ≡ true)
unfolding run_with_retries
run_with_retries-wanted o env m h = elim (Attempt-cases (env.attempt 0)) [
  | inl (first, called) ↦
      retry_from-wanted o env k_lock_retries 0 m first called (omega arith)
        (ground (arith, called, h))
  | inr failed ↦ absurd (ground (arith, failed, h))
]
