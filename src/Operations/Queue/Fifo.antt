-- ===== src/Operations/Queue/Fifo.antt =====
-- src/core/git/OperationRunner.cpp: the order in which submitted operations are finished.
use git_branch_manager.Base.{
  ℕ, ◌+◌, ◌<◌, Bool, List, [], ◌∷◌, ◌++◌, ◌≡◌, refl, sym, ap, ◌∙◌, arith, All, All-append, All-map,
}
use git_branch_manager.Operations.{Operation}
use git_branch_manager.Operations.Queue.{
  QueuedOperation, Worker, idle, popped, begun, checked, Runner, new_runner, submit, cancel,
  prepare_for_shutdown, take_front, begin_run, check_cancelled, finish_run,
}
use git_branch_manager.Operations.Queue.Steps.{
  Event, submitted, finished, Step, submits, cancels, cancels_handle, prepares, stops, takes,
  begins, checks, finishes, passes, Steps, rests, goes_on,
}

abbrev pub submitted_ids : List Event → List ℕ
submitted_ids [] = []
submitted_ids (submitted id ∷ es) = submitted_ids es ++ id ∷ []
submitted_ids (_ ∷ es) = submitted_ids es

abbrev pub finished_ids : List Event → List ℕ
finished_ids [] = []
finished_ids (finished id c ∷ es) = finished_ids es ++ id ∷ []
finished_ids (_ ∷ es) = finished_ids es

abbrev pub working_ids : Worker → List ℕ
working_ids idle = []
working_ids (popped q) = q.id ∷ []
working_ids (begun q) = q.id ∷ []
working_ids (checked q b) = q.id ∷ []

abbrev pub queue_ids : List QueuedOperation → List ℕ
queue_ids [] = []
queue_ids (q ∷ queue) = q.id ∷ queue_ids queue

queue_ids-append : (a b : List QueuedOperation) → queue_ids (a ++ b) ≡ queue_ids a ++ queue_ids b
queue_ids-append [] b = refl
queue_ids-append (q ∷ a) b = ap (λ l. q.id ∷ l) (queue_ids-append a b)

-- The operations that are not finished, in the order in which they will be.
abbrev pub open_ids : Runner → List ℕ
open_ids r = working_ids r.worker ++ queue_ids r.queue

snoc-open : (f w q : List ℕ) (x : ℕ) → f ++ (w ++ (q ++ x ∷ [])) ≡ (f ++ (w ++ q)) ++ x ∷ []
snoc-open [] [] q x = refl
snoc-open [] (y ∷ w) q x = ap (λ l. y ∷ l) (snoc-open [] w q x)
snoc-open (y ∷ f) w q x = ap (λ l. y ∷ l) (snoc-open f w q x)

pop-open : (f q : List ℕ) (x : ℕ) → (f ++ x ∷ []) ++ q ≡ f ++ (x ∷ q)
pop-open [] q x = refl
pop-open (y ∷ f) q x = ap (λ l. y ∷ l) (pop-open f q x)

submit-open :
    (r : Runner) (o : Operation)
    → queue_ids (submit r o).queue ≡ queue_ids r.queue ++ r.next_id ∷ []
unfolding submit
submit-open r o = queue_ids-append r.queue _

cancel-open : (r : Runner) (id : ℕ) → open_ids (cancel r id).0 ≡ open_ids r
unfolding cancel
cancel-open r id = ground arith

take-open :
    (r : Runner) (q : QueuedOperation) (rest : List QueuedOperation)
    → r.worker ≡ idle
    → r.queue ≡ q ∷ rest
    → open_ids r ≡ q.id ∷ queue_ids rest
take-open r q rest free front = rw free (rw front refl)

begin-open :
    (r : Runner) (q : QueuedOperation) → r.worker ≡ popped q → open_ids r ≡ q.id ∷ queue_ids r.queue
begin-open r q at = rw at refl

check-open :
    (r : Runner) (q : QueuedOperation) → r.worker ≡ begun q → open_ids r ≡ q.id ∷ queue_ids r.queue
check-open r q at = rw at refl

finish-open :
    (r : Runner) (q : QueuedOperation) (b : Bool)
    → r.worker ≡ checked q b
    → open_ids r ≡ q.id ∷ queue_ids r.queue
finish-open r q b at = rw at refl

-- One step keeps the finished and the open ids together those submitted.
Step-open :
    (r r' : Runner) (e : Event) (es : List Event)
    → Step r e r'
    → finished_ids es ++ open_ids r ≡ submitted_ids es
    → finished_ids (e ∷ es) ++ open_ids r' ≡ submitted_ids (e ∷ es)
unfolding submit prepare_for_shutdown take_front begin_run check_cancelled finish_run
Step-open _ _ _ es (submits r o) h =
    ap (λ l. finished_ids es ++ (working_ids r.worker ++ l)) (submit-open r o)
    ∙ snoc-open (finished_ids es) (working_ids r.worker) (queue_ids r.queue) r.next_id
    ∙ ap (λ l. l ++ r.next_id ∷ []) h
Step-open _ _ _ es (cancels r id) h = ap (λ l. finished_ids es ++ l) (cancel-open r id) ∙ h
Step-open _ _ _ es (cancels_handle r id) h = h
Step-open _ _ _ es (prepares r) h = h
Step-open _ _ _ es (stops r) h = h
Step-open _ _ _ es (takes r q rest free front) h =
    ap (λ l. finished_ids es ++ l) (sym (take-open r q rest free front)) ∙ h
Step-open _ _ _ es (begins r q at) h = ap (λ l. finished_ids es ++ l) (sym (begin-open r q at)) ∙ h
Step-open _ _ _ es (checks r q at b to) h =
    ap (λ l. finished_ids es ++ l) (sym (check-open r q at)) ∙ h
Step-open _ _ _ es (finishes r q b env at c) h =
    pop-open (finished_ids es) (queue_ids r.queue) q.id
    ∙ ap (λ l. finished_ids es ++ l) (sym (finish-open r q b at))
    ∙ h
Step-open _ _ _ es (passes r) h = h

Steps-open :
    (next_id : ℕ) (r : Runner) (es : List Event)
    → Steps (new_runner next_id) es r
    → finished_ids es ++ open_ids r ≡ submitted_ids es
Steps-open next_id _ _ (rests _) = refl
Steps-open next_id _ _ (goes_on _ r r' e es before step) =
    Step-open r r' e es step (Steps-open next_id r es before)

-- Each id of a list is greater than the one before it, and all are less than the bound.
abbrev pub IsRising : List ℕ → Type 0
IsRising [] = Unit
IsRising (x ∷ xs) = All (λ y. x < y) xs × IsRising xs

abbrev IsBelow : ℕ → List ℕ → Type 0
IsBelow bound = All (λ x. x < bound)

IsRising-snoc : (xs : List ℕ) (x : ℕ) → IsRising xs → IsBelow x xs → IsRising (xs ++ x ∷ [])
IsRising-snoc [] x h k = (tt, tt)
IsRising-snoc (y ∷ xs) x h k =
    (All-append (λ z. y < z) xs (x ∷ []) h.0 (k.0, tt), IsRising-snoc xs x h.1 k.1)

-- The ids of the submissions rise, and the counter is above them.
record HasRisen (r : Runner) (es : List Event) : Type 0 where
  rising : IsRising (submitted_ids es)
  below : IsBelow r.next_id (submitted_ids es)

IsBelow-later : (bound : ℕ) (xs : List ℕ) → IsBelow bound xs → IsBelow (bound + 1) xs
IsBelow-later bound xs = All-map _ _ xs (λ x h. omega arith)

cancel-next_id : (r : Runner) (id : ℕ) → (cancel r id).0.next_id ≡ r.next_id
unfolding cancel
cancel-next_id r id = ground arith

Step-HasRisen :
    (r r' : Runner) (e : Event) (es : List Event)
    → Step r e r'
    → HasRisen r es
    → HasRisen r' (e ∷ es)
unfolding submit prepare_for_shutdown take_front begin_run check_cancelled finish_run
Step-HasRisen _ _ _ es (submits r o) h = record {
  rising = IsRising-snoc (submitted_ids es) r.next_id h.rising h.below;
  below =
      All-append (λ x. x < r.next_id + 1) (submitted_ids es) (r.next_id ∷ [])
        (IsBelow-later r.next_id (submitted_ids es) h.below) (omega arith, tt);
}
Step-HasRisen _ _ _ es (cancels r id) h = record {
  rising = h.rising;
  below = rw (cancel-next_id r id) h.below;
}
Step-HasRisen _ _ _ es (cancels_handle r id) h = record { rising = h.rising; below = h.below }
Step-HasRisen _ _ _ es (prepares r) h = record { rising = h.rising; below = h.below }
Step-HasRisen _ _ _ es (stops r) h = record { rising = h.rising; below = h.below }
Step-HasRisen _ _ _ es (takes r q rest free front) h = record { rising = h.rising; below = h.below }
Step-HasRisen _ _ _ es (begins r q at) h = record { rising = h.rising; below = h.below }
Step-HasRisen _ _ _ es (checks r q at b to) h = record { rising = h.rising; below = h.below }
Step-HasRisen _ _ _ es (finishes r q b env at c) h = record { rising = h.rising; below = h.below }
Step-HasRisen _ _ _ es (passes r) h = record {
  rising = h.rising;
  below = IsBelow-later r.next_id (submitted_ids es) h.below;
}

Steps-HasRisen :
    (next_id : ℕ) (r : Runner) (es : List Event) → Steps (new_runner next_id) es r → HasRisen r es
Steps-HasRisen next_id _ _ (rests _) = record { rising = tt; below = tt }
Steps-HasRisen next_id _ _ (goes_on _ r r' e es before step) =
    Step-HasRisen r r' e es step (Steps-HasRisen next_id r es before)

-- Whatever callers and worker do to a new runner, in any interleaving: the operations finished, then
-- the one that the worker has, then those that wait are the operations submitted, each once and in
-- the order of their submission.
pub Steps-IsFifo :
    (next_id : ℕ) (r : Runner) (es : List Event)
    → Steps (new_runner next_id) es r
    → (finished_ids es ++ (working_ids r.worker ++ queue_ids r.queue) ≡ submitted_ids es)
      × IsRising (submitted_ids es)
Steps-IsFifo next_id r es steps =
    (Steps-open next_id r es steps, (Steps-HasRisen next_id r es steps).rising)
