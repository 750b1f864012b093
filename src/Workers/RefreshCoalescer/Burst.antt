-- ===== src/Workers/RefreshCoalescer/Burst.antt =====
-- src/core/workers/RefreshCoalescer.h: a burst of requests becomes one refresh, whose batch is
-- the union of what was asked for.
use git_branch_manager.Base.{
  ℕ, ◌+◌, ◌^◌, ◌≤◌, ◌<◌, Bool, true, false, ◌||◌, List, [], ◌∷◌, ◌≡◌, arith, if◌then◌else◌, All,
}
use git_branch_manager.Workers.RefreshCoalescer.Delivery.{IsValid}
use git_branch_manager.Workers.RefreshCoalescer.{
  GraphUpdateOrigin, explicit, auto_fetch_resync, RefreshCoalescer, k_delay, is_explicit, request,
  on_timeout, on_finished, take_pending,
}

pub record Request : Type 0 where
  pub refs : Bool
  pub history : Bool
  pub origin : GraphUpdateOrigin
  pub at : ℕ

pub request_all : RefreshCoalescer → List Request → RefreshCoalescer
request_all c [] = c
request_all c (q ∷ qs) = request_all (request c q.refs q.history q.origin q.at).0 qs

abbrev pub some_refs : List Request → Bool
some_refs [] = false
some_refs (q ∷ qs) = q.refs || some_refs qs

abbrev pub some_history : List Request → Bool
some_history [] = false
some_history (q ∷ qs) = q.history || some_history qs

abbrev pub some_explicit : List Request → Bool
some_explicit [] = false
some_explicit (q ∷ qs) = is_explicit q.origin || some_explicit qs

-- The pending batch after a burst, whatever else the coalescer is doing: each flag is set if it
-- was, or if a request of the burst sets it, and one explicit request makes the batch explicit.
pub batch-request_all :
    (qs : List Request) (c : RefreshCoalescer)
    → let p = (take_pending (request_all c qs)).1 in
      (p.wants_refs ≡ (c.pending_wants_refs || some_refs qs))
      × (p.wants_history ≡ (c.pending_wants_history || some_history qs))
      × (p.origin
          ≡ (if c.pending_has_explicit || some_explicit qs then explicit else auto_fetch_resync))
unfolding request_all take_pending request
batch-request_all [] c = ground arith
batch-request_all (q ∷ qs) c =
    ground (arith, batch-request_all qs (request c q.refs q.history q.origin q.at).0)

-- Waiting for the timer, with no event after time `t`.
record IsArmed (t : ℕ) (g : ℕ) (c : RefreshCoalescer) : Type 0 where
  delay_is : c.debouncer.delay ≡ k_delay
  idle : c.debouncer.running ≡ false
  clean : c.debouncer.dirty ≡ false
  waiting : c.debouncer.pending ≡ true
  settled : c.debouncer.last_event ≤ t
  same : c.generation ≡ g

request_all-IsArmed :
    (qs : List Request) (t g : ℕ) (c : RefreshCoalescer)
    → All (λ q. q.at ≤ t) qs
    → IsArmed t g c
    → IsArmed t g (request_all c qs)
unfolding request_all request
request_all-IsArmed [] t g c h v = v
request_all-IsArmed (q ∷ qs) t g c h v =
    request_all-IsArmed qs t g (request c q.refs q.history q.origin q.at).0 h.1 (ground arith)

-- The timer starts a run, it starts no other while that one runs or after it has reported.
pub record RunsOnce (c : RefreshCoalescer) (g later : ℕ) : Type 0 where
  pub fires : (on_timeout c later).1 ≡ g + 1
  pub not_again : (t : ℕ) → (on_timeout (on_timeout c later).0 t).1 ≡ 0
  pub no_follow_up : (on_finished (on_timeout c later).0 (g + 1)).1 ≡ false
  pub not_after : (t : ℕ) → (on_timeout (on_finished (on_timeout c later).0 (g + 1)).0 t).1 ≡ 0

IsArmed-RunsOnce :
    (c : RefreshCoalescer) (t g later : ℕ)
    → IsArmed t g c
    → t + k_delay ≤ later
    → g + 1 < 2 ^ 64
    → RunsOnce c g later
unfolding on_timeout on_finished
IsArmed-RunsOnce c t g later v quiet more = record {
  fires = ground arith;
  not_again = λ t. ground arith;
  no_follow_up = ground arith;
  not_after = λ t. ground arith;
}

-- A burst of one or more requests on an idle coalescer, none after time `t`, is one run: the
-- timer starts it once the quiet time has passed after `t`, and without a further request it
-- starts no second one, neither during the run nor after its report.
pub request_all-RunsOnce :
    (q : Request) (qs : List Request) (c : RefreshCoalescer) (t later : ℕ)
    → IsValid c
    → c.debouncer.running ≡ false
    → All (λ q. q.at ≤ t) (q ∷ qs)
    → t + k_delay ≤ later
    → c.generation + 1 < 2 ^ 64
    → RunsOnce (request_all c (q ∷ qs)) c.generation later
unfolding request_all request
request_all-RunsOnce q qs c t later v idle h quiet more =
    IsArmed-RunsOnce (request_all c (q ∷ qs)) t c.generation later
      (request_all-IsArmed qs t c.generation (request c q.refs q.history q.origin q.at).0 h.1
        (ground arith))
      quiet more
