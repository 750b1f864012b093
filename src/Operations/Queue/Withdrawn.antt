-- ===== src/Operations/Queue/Withdrawn.antt =====
-- src/core/git/OperationRunner.cpp: an operation that is cancelled before the worker asks is not run.
use git_branch_manager.Base.{
  ℕ, ◌<◌, Bool, true, false, not, ◌||◌, List, [], ◌∷◌, ◌++◌, ◌≡◌, refl, arith, All, ◌==◌,
  Bool-cases, inl, inr, ◌⊎◌,
}
use git_branch_manager.Operations.{Operation, Environment, execute}
use git_branch_manager.Operations.Queue.{
  QueuedOperation, complete, run_queued, fail_undelivered, Worker, idle, popped, begun, checked,
  Runner, submit, submit_cancels, cancel, prepare_for_shutdown, take_front, begin_run,
  check_cancelled, finish_run, is_cancelled, has_id, background_ids, is_queued, cancelled_it,
  new_runner,
}
use git_branch_manager.Operations.Queue.Fifo.{
  IsRising, finished_ids, working_ids, queue_ids, Steps-IsFifo,
}
use git_branch_manager.Operations.Queue.Steps.{
  Event, finished, Step, submits, cancels, cancels_handle, prepares, stops, takes, begins, checks,
  finishes, passes, Steps, rests, goes_on,
}

-- The worker has not found the operation uncancelled.
abbrev pub is_unasked : Worker → ℕ → Bool
is_unasked (checked q b) id = b || not (q.id == id)
is_unasked _ id = true

-- The operation is cancelled, and the worker has not passed the question by.
pub record IsWithdrawn (r : Runner) (id : ℕ) : Type 0 where
  cancelled : is_cancelled r id ≡ true
  unasked : is_unasked r.worker id ≡ true

-- Where the operation is finished, it was not run.
abbrev pub NeverRan : ℕ → Event → Type 0
NeverRan id (finished x c) = ((x == id) ≡ false) ⊎ (c.runs ≡ 0)
NeverRan id _ = Unit

has_id-append : (a b : List ℕ) (id : ℕ) → has_id b id ≡ true → has_id (a ++ b) id ≡ true
has_id-append [] b id h = h
has_id-append (x ∷ a) b id h = ground (arith, has_id-append a b id h)

complete-cancelled :
    (o : Operation) (env : Environment) (r : Runner)
    → env.cancelled_at 0 ≡ true
    → (complete o env r.journal r.edges).runs ≡ 0
unfolding complete run_queued fail_undelivered execute
complete-cancelled o env r h = ground (arith, h)

finish-never :
    (r : Runner) (id : ℕ) (q : QueuedOperation) (b : Bool) (env : Environment)
    → r.worker ≡ checked q b
    → env.cancelled_at 0 ≡ b
    → is_unasked r.worker id ≡ true
    → ((q.id == id) ≡ false) ⊎ ((complete q.operation env r.journal r.edges).runs ≡ 0)
finish-never r id q b env at c h =
    let asked : (b || not (q.id == id)) ≡ true = rw at at h in
    elim (Bool-cases (q.id == id)) [
      | inl same ↦ inr (complete-cancelled q.operation env r (ground (arith, same, c, asked)))
      | inr other ↦ inl other
    ]

cancel-keeps : (r : Runner) (x id : ℕ) → IsWithdrawn r id → IsWithdrawn (cancel r x).0 id
unfolding cancel
cancel-keeps r x id h = record {
  cancelled = ground (arith, h.cancelled);
  unasked = ground (arith, h.unasked);
}

check-unasked :
    (r : Runner) (q : QueuedOperation) (id : ℕ)
    → is_cancelled r id ≡ true
    → is_unasked (check_cancelled r q).worker id ≡ true
unfolding check_cancelled
check-unasked r q id h = elim (Bool-cases (q.id == id)) [
  | inl same ↦ let equal : q.id ≡ id = ground (arith, same) in rw equal (ground (arith, h))
  | inr other ↦ ground (arith, other)
]

Step-IsWithdrawn :
    (r r' : Runner) (e : Event) (id : ℕ)
    → Step r e r'
    → IsWithdrawn r id
    → IsWithdrawn r' id × NeverRan id e
unfolding submit prepare_for_shutdown take_front begin_run check_cancelled finish_run
Step-IsWithdrawn _ _ _ id (submits r o) h = (
  record {
    cancelled = has_id-append (submit_cancels r o) r.cancelled id h.cancelled;
    unasked = h.unasked;
  },
  tt,
)
Step-IsWithdrawn _ _ _ id (cancels r x) h = (cancel-keeps r x id h, tt)
Step-IsWithdrawn _ _ _ id (cancels_handle r x) h = (
  record { cancelled = has_id-append (x ∷ []) r.cancelled id h.cancelled; unasked = h.unasked },
  tt,
)
Step-IsWithdrawn _ _ _ id (prepares r) h = (
  record {
    cancelled = has_id-append (background_ids r.queue) r.cancelled id h.cancelled;
    unasked = h.unasked;
  },
  tt,
)
Step-IsWithdrawn _ _ _ id (stops r) h =
    (record { cancelled = h.cancelled; unasked = h.unasked }, tt)
Step-IsWithdrawn _ _ _ id (takes r q rest free front) h =
    (record { cancelled = h.cancelled; unasked = refl }, tt)
Step-IsWithdrawn _ _ _ id (begins r q at) h =
    (record { cancelled = h.cancelled; unasked = refl }, tt)
Step-IsWithdrawn _ _ _ id (checks r q at b to) h =
    (record { cancelled = h.cancelled; unasked = check-unasked r q id h.cancelled }, tt)
Step-IsWithdrawn _ _ _ id (finishes r q b env at c) h =
    (record { cancelled = h.cancelled; unasked = refl }, finish-never r id q b env at c h.unasked)
Step-IsWithdrawn _ _ _ id (passes r) h =
    (record { cancelled = h.cancelled; unasked = h.unasked }, tt)

-- Behind a cancellation in time no step finishes the operation as one that was run.
pub IsWithdrawn-never :
    (r r' : Runner) (es : List Event) (id : ℕ)
    → IsWithdrawn r id
    → Steps r es r'
    → All (NeverRan id) es × IsWithdrawn r' id
IsWithdrawn-never _ _ _ id h (rests _) = (tt, h)
IsWithdrawn-never _ _ _ id h (goes_on r r' r'' e es before step) =
    let (all, k) = IsWithdrawn-never r r' es id h before in
    let (k', never) = Step-IsWithdrawn r' r'' e id step k in ((never, all), k')

IsRising-tail : (a b : List ℕ) → IsRising (a ++ b) → IsRising b
IsRising-tail [] b h = h
IsRising-tail (x ∷ a) b h = IsRising-tail a b h.1

queued-id :
    (bound id : ℕ) (queue : List QueuedOperation)
    → All (λ y. bound < y) (queue_ids queue)
    → is_queued queue id ≡ true
    → bound < id
queued-id bound id [] h k = absurd cc
queued-id bound id (q ∷ queue) h k = elim (Bool-cases (q.id == id)) [
  | inl same ↦ ground (arith, same, h.0)
  | inr other ↦ queued-id bound id queue h.1 (ground (arith, other, k))
]

-- An operation that waits is not the one that the worker has.
waiting-unasked :
    (w : Worker) (queue : List QueuedOperation) (id : ℕ)
    → IsRising (working_ids w ++ queue_ids queue)
    → is_queued queue id ≡ true
    → is_unasked w id ≡ true
waiting-unasked idle queue id h k = refl
waiting-unasked (popped q) queue id h k = refl
waiting-unasked (begun q) queue id h k = refl
waiting-unasked (checked q b) queue id h k = ground (arith, queued-id q.id id queue h.0 k)

reached-unasked :
    (next_id : ℕ) (r : Runner) (before : List Event) (id : ℕ)
    → Steps (new_runner next_id) before r
    → is_queued r.queue id ≡ true
    → is_unasked r.worker id ≡ true
reached-unasked next_id r before id steps h =
    let (same, rising) = Steps-IsFifo next_id r before steps in
    waiting-unasked r.worker r.queue id (IsRising-tail (finished_ids before) _ (rw same rising)) h

cancel-withdraws :
    (r : Runner) (id : ℕ)
    → is_queued r.queue id ≡ true
    → is_unasked r.worker id ≡ true
    → IsWithdrawn (cancel r id).0 id
unfolding cancel
cancel-withdraws r id h unasked = record {
  cancelled = ground (arith, h);
  unasked = ground (arith, h, unasked);
}

-- An operation that waits in the queue can be cancelled, and is then never run, whatever happens
-- later.
pub cancel-never :
    (next_id : ℕ) (r r' : Runner) (before es : List Event) (id : ℕ)
    → Steps (new_runner next_id) before r
    → is_queued r.queue id ≡ true
    → Steps (cancel r id).0 es r'
    → ((cancel r id).1 ≡ cancelled_it) × All (NeverRan id) es
unfolding cancel
cancel-never next_id r r' before es id reached h steps =
    let unasked = reached-unasked next_id r before id reached h in
    (
      ground (arith, h),
      (IsWithdrawn-never (cancel r id).0 r' es id (cancel-withdraws r id h unasked) steps).0,
    )

background-queued :
    (queue : List QueuedOperation) (id : ℕ)
    → has_id (background_ids queue) id ≡ true
    → is_queued queue id ≡ true
background-queued [] id h = absurd cc
background-queued (q ∷ queue) id h = ground (arith, h, background-queued queue id)

has_id-front : (a b : List ℕ) (id : ℕ) → has_id a id ≡ true → has_id (a ++ b) id ≡ true
has_id-front [] b id h = absurd cc
has_id-front (x ∷ a) b id h = ground (arith, h, has_id-front a b id)

-- A submission of the user's withdraws all background work that waits: none of it is ever run.
pub submit-never :
    (next_id : ℕ) (r r' : Runner) (before es : List Event) (o : Operation) (id : ℕ)
    → Steps (new_runner next_id) before r
    → o.is_background ≡ false
    → has_id (background_ids r.queue) id ≡ true
    → Steps (submit r o) es r'
    → All (NeverRan id) es
unfolding submit
submit-never next_id r r' before es o id reached user h steps =
    let unasked = reached-unasked next_id r before id reached (background-queued r.queue id h) in
    let named : is_cancelled (submit r o) id ≡ true =
      ground (arith, user, has_id-front (background_ids r.queue) r.cancelled id h) in
    let withdrawn : IsWithdrawn (submit r o) id = record { cancelled = named; unasked = unasked } in
    (IsWithdrawn-never (submit r o) r' es id withdrawn steps).0
