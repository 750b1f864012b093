-- ===== src/Workers/RefreshCoalescer.antt =====
-- src/core/workers/RefreshCoalescer.h, over the debouncer. Ticks are nanoseconds, the unit of
-- `std::chrono::steady_clock`; a generation is a `uint64_t` and wraps.
pub mod Delivery
pub mod Burst
use git_branch_manager.Base.{ℕ, ◌+◌, ◌%◌, ◌^◌, Bool, true, false, ◌||◌, ◌==◌, if◌then◌else◌}
use git_branch_manager.Workers.Debouncer.{Debouncer, make, notify_event, should_fire}
use git_branch_manager.Workers.Debouncer

pub data GraphUpdateOrigin : Type 0 where
  explicit auto_fetch_resync : GraphUpdateOrigin

pub data RefreshAction : Type 0 where
  arm fold : RefreshAction

pub record PendingRefresh : Type 0 where
  pub wants_refs : Bool
  pub wants_history : Bool
  pub origin : GraphUpdateOrigin

pub record RefreshCoalescer : Type 0 where
  pub debouncer : Debouncer
  pub generation : ℕ
  pub pending_wants_refs : Bool
  pub pending_wants_history : Bool
  pub pending_has_explicit : Bool

-- 150 ms.
abbrev pub k_delay : ℕ
k_delay = 150_000_000

abbrev pub is_explicit : GraphUpdateOrigin → Bool
is_explicit explicit = true
is_explicit auto_fetch_resync = false

unfoldable pub init : RefreshCoalescer
unfolding make
init = record {
  debouncer = make k_delay;
  generation = 0;
  pending_wants_refs = false;
  pending_wants_history = false;
  pending_has_explicit = false;
}

unfoldable pub next_generation : ℕ → ℕ
next_generation g = (g + 1) % 2 ^ 64

unfoldable pub merge_into_pending :
    RefreshCoalescer → Bool → Bool → GraphUpdateOrigin → RefreshCoalescer
merge_into_pending c wants_refs wants_history origin = record c {
  pending_wants_refs = c.pending_wants_refs || wants_refs;
  pending_wants_history = c.pending_wants_history || wants_history;
  pending_has_explicit = c.pending_has_explicit || is_explicit origin;
}

-- `notifyEvent(at)` and then `shouldFire(now)`, its answer dropped.
abbrev notify_and_poll : Debouncer → ℕ → ℕ → Debouncer
notify_and_poll d at now = (should_fire (notify_event d at) now).0

unfoldable pub request :
    RefreshCoalescer → Bool → Bool → GraphUpdateOrigin → ℕ → RefreshCoalescer × RefreshAction
unfolding merge_into_pending notify_event should_fire
request c wants_refs wants_history origin now =
    let merged = merge_into_pending c wants_refs wants_history origin in
    (
      record merged { debouncer = notify_and_poll merged.debouncer now now },
      if merged.debouncer.running then fold else arm,
    )

unfoldable pub on_timeout : RefreshCoalescer → ℕ → RefreshCoalescer × ℕ
unfolding should_fire next_generation
on_timeout c now =
    let (d, fires) = should_fire c.debouncer now in
    let g = next_generation c.generation in
    if fires
    then (record c { debouncer = d; generation = g }, g)
    else (record c { debouncer = d }, 0)

unfoldable pub fire_now :
    RefreshCoalescer → Bool → Bool → GraphUpdateOrigin → ℕ → RefreshCoalescer × ℕ
unfolding merge_into_pending make notify_event should_fire next_generation
fire_now c wants_refs wants_history origin now =
    let merged = merge_into_pending c wants_refs wants_history origin in
    let g = next_generation merged.generation in
    (record merged { debouncer = notify_and_poll (make k_delay) 0 now; generation = g }, g)

unfoldable pub on_finished : RefreshCoalescer → ℕ → RefreshCoalescer × Bool
unfolding Debouncer.finish
on_finished c generation =
    if generation == 0
    then (c, false)
    else if generation == c.generation
    then (let (d, again) = Debouncer.finish c.debouncer in (record c { debouncer = d }, again))
    else (c, false)

unfoldable pub take_pending : RefreshCoalescer → RefreshCoalescer × PendingRefresh
take_pending c = (
  record c {
    pending_wants_refs = false;
    pending_wants_history = false;
    pending_has_explicit = false;
  },
  record {
    wants_refs = c.pending_wants_refs;
    wants_history = c.pending_wants_history;
    origin = if c.pending_has_explicit then explicit else auto_fetch_resync;
  },
)

unfoldable pub reset : RefreshCoalescer → RefreshCoalescer
unfolding make
reset c = record c {
  debouncer = make k_delay;
  pending_wants_refs = false;
  pending_wants_history = false;
  pending_has_explicit = false;
}
