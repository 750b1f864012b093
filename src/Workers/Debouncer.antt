-- ===== src/Workers/Debouncer.antt =====
-- src/core/workers/Debouncer.h. A point in time is the number of clock ticks since the clock's
-- epoch, and `now - lastEvent_ < delay_` is written `now < lastEvent_ + delay_`, the same test
-- over the signed difference.
use git_branch_manager.Base.{ℕ, ◌+◌, Bool, true, false, ◌||◌, ltb, if◌then◌else◌}

pub record Debouncer : Type 0 where
  pub delay : ℕ
  pub last_event : ℕ
  pub pending : Bool
  pub running : Bool
  pub dirty : Bool

unfoldable pub make : ℕ → Debouncer
make delay = record {
  delay = delay;
  last_event = 0;
  pending = false;
  running = false;
  dirty = false;
}

unfoldable pub notify_event : Debouncer → ℕ → Debouncer
notify_event d now = record d { last_event = now; pending = true }

unfoldable pub should_fire : Debouncer → ℕ → Debouncer × Bool
should_fire d now =
    if d.running
    then (if d.pending then (record d { dirty = true }, false) else (d, false))
    else if d.pending
    then (if ltb now (d.last_event + d.delay)
        then (d, false)
        else (record d { pending = false; running = true }, true))
    else (d, false)

unfoldable pub finish : Debouncer → Debouncer × Bool
finish d =
    if d.dirty
    then (record d { running = false; dirty = false; pending = true; last_event = 0 }, true)
    else (record d { running = false }, false)

unfoldable pub has_pending : Debouncer → Bool
has_pending d = d.pending || d.dirty

unfoldable pub set_delay : Debouncer → ℕ → Debouncer
set_delay d delay = record d { delay = delay }
