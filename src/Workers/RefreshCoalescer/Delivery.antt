-- ===== src/Workers/RefreshCoalescer/Delivery.antt =====
-- src/core/workers/RefreshCoalescer.h: no request is lost, and a burst is one refresh.
use git_branch_manager.Base.{
  ℕ, ◌+◌, ◌^◌, ◌≤◌, ◌<◌, Bool, true, false, not, ◌&&◌, ◌||◌, ◌≡◌, ◌≢◌, leb, refl, arith,
}
use git_branch_manager.Workers.RefreshCoalescer.{
  GraphUpdateOrigin, is_explicit, PendingRefresh, arm, fold, RefreshCoalescer, k_delay, init,
  request, on_timeout, fire_now, on_finished, take_pending, reset,
}

-- The debouncer has the coalescer's delay, it is dirty exactly while it runs with an event
-- recorded, and the last generation fits its type.
pub record IsValid (c : RefreshCoalescer) : Type 0 where
  pub delay_is : c.debouncer.delay ≡ k_delay
  pub dirty_is : c.debouncer.dirty ≡ (c.debouncer.running && c.debouncer.pending)
  pub in_range : c.generation < 2 ^ 64

pub data Call : Type 0 where
  requests fires : Bool → Bool → GraphUpdateOrigin → ℕ → Call
  times_out finishes : ℕ → Call
  takes resets : Call

pub step : RefreshCoalescer → Call → RefreshCoalescer
step c (requests r h o now) = (request c r h o now).0
step c (fires r h o now) = (fire_now c r h o now).0
step c (times_out now) = (on_timeout c now).0
step c (finishes g) = (on_finished c g).0
step c takes = (take_pending c).0
step c resets = reset c

pub init-IsValid : IsValid init
unfolding init
init-IsValid = record { delay_is = refl; dirty_is = refl; in_range = omega arith }

-- Every public operation keeps a coalescer valid: the debouncer has the coalescer's delay, it is
-- dirty exactly while it runs with an event recorded, and the generation fits a `uint64_t`.
pub step-IsValid : (c : RefreshCoalescer) (call : Call) → IsValid c → IsValid (step c call)
unfolding step request fire_now on_timeout on_finished take_pending reset
step-IsValid c (requests r h o now) v = ground arith
step-IsValid c (fires r h o now) v = ground arith
step-IsValid c (times_out now) v = ground arith
step-IsValid c (finishes g) v = ground arith
step-IsValid c takes v = ground arith
step-IsValid c resets v = ground arith

-- A batch asks for what a request asks for, and is explicit if the request is.
pub record Covers (r h : Bool) (o : GraphUpdateOrigin) (p : PendingRefresh) : Type 0 where
  pub refs : (not r || p.wants_refs) ≡ true
  pub history : (not h || p.wants_history) ≡ true
  pub origin_is : (not (is_explicit o) || is_explicit p.origin) ≡ true

-- What a dispatch by the timer delivers: its generation is not 0, and the batch it takes.
pub record Delivers (r h : Bool) (o : GraphUpdateOrigin) (c : RefreshCoalescer) (now : ℕ)
    : Type 0 where
  pub fired : (on_timeout c now).1 ≢ 0
  pub runs : (on_timeout c now).0.debouncer.running ≡ true
  pub batch : Covers r h o (take_pending (on_timeout c now).0).1

module _ (c : RefreshCoalescer) (r h : Bool) (o : GraphUpdateOrigin) (now later : ℕ) (v : IsValid c)
    (more : c.generation + 1 < 2 ^ 64) where
  -- A request while nothing runs asks for the timer, and once the quiet time has passed the
  -- timer starts a run that covers it.
  pub request_idle :
      c.debouncer.running ≡ false
      → now + k_delay ≤ later
      → ((request c r h o now).1 ≡ arm) × Delivers r h o (request c r h o now).0 later
  unfolding request on_timeout take_pending
  request_idle idle quiet = ground arith

  -- A request during a run is folded: when that run reports its generation the follow-up is owed,
  -- and the timer then starts a run that covers the request.
  pub request_running :
      c.debouncer.running ≡ true
      → c.generation ≢ 0
      → k_delay ≤ later
      → let busy = (request c r h o now).0 in
        ((request c r h o now).1 ≡ fold)
        × ((on_finished busy c.generation).1 ≡ true)
        × Delivers r h o (on_finished busy c.generation).0 later
  unfolding request on_timeout on_finished take_pending
  request_running runs started quiet = ground arith

-- A report of any other generation than the current one changes nothing.
pub on_finished_stale :
    (c : RefreshCoalescer) (g : ℕ) → g ≢ c.generation → on_finished c g ≡ (c, false)
unfolding on_finished
on_finished_stale c g stale = ground arith

-- After `fireNow` the run that it supersedes can no longer end the new one, and what `fireNow` was
-- asked for is in the batch of the new one, with what was pending, that is what no run had taken
-- yet: what waited for the timer and what was folded into the superseded run.
pub fire_now_supersedes :
    (c : RefreshCoalescer) (r h : Bool) (o : GraphUpdateOrigin) (now : ℕ)
    → IsValid c
    → let (c', g) = fire_now c r h o now in
      (on_finished c' c.generation ≡ (c', false))
      × (g ≢ c.generation)
      × Covers r h o (take_pending c').1
      × Covers c.pending_wants_refs c.pending_wants_history
          (take_pending c).1.origin
          (take_pending c').1
unfolding fire_now on_finished take_pending
fire_now_supersedes c r h o now v = ground arith

-- Whether `fireNow` leaves a run in flight depends on the time: it does exactly if the clock has
-- counted the delay since its epoch.
pub fire_now-running :
    (c : RefreshCoalescer) (r h : Bool) (o : GraphUpdateOrigin) (now : ℕ)
    → (fire_now c r h o now).0.debouncer.running ≡ leb k_delay now
unfolding fire_now
fire_now-running c r h o now = ground arith
