-- ===== src/Tests/WorkersTests.antt =====
-- src/core/workers: requests, runs and reports.
use git_branch_manager.Base.{true, false, [], ◌∷◌, ◌≡◌, ◌≢◌, refl, arith}
use git_branch_manager.Workers.RefreshCoalescer.Burst.{
  request_all, request_all-RunsOnce, RunsOnce, Request,
}
use git_branch_manager.Workers.RefreshCoalescer.Delivery.{
  IsValid, Delivers, Covers, request_running, fire_now_supersedes,
}
use git_branch_manager.Workers.RefreshCoalescer.{
  RefreshCoalescer, explicit, auto_fetch_resync, fold, k_delay, request, fire_now, on_finished,
  take_pending,
}

-- A coalescer with nothing in flight, and one whose first run is.
abbrev idle : RefreshCoalescer
idle = record {
  debouncer = record {
    delay = k_delay;
    last_event = 0;
    pending = false;
    running = false;
    dirty = false;
  };
  generation = 0;
  pending_wants_refs = false;
  pending_wants_history = false;
  pending_has_explicit = false;
}

abbrev running : RefreshCoalescer
running = record {
  debouncer = record {
    delay = k_delay;
    last_event = 1_000_000_000;
    pending = false;
    running = true;
    dirty = false;
  };
  generation = 1;
  pending_wants_refs = false;
  pending_wants_history = false;
  pending_has_explicit = false;
}

idle-IsValid : IsValid idle
idle-IsValid = record { delay_is = refl; dirty_is = refl; in_range = omega arith }

running-IsValid : IsValid running
running-IsValid = record { delay_is = refl; dirty_is = refl; in_range = omega arith }

request_running_example :
    ((request running false true explicit 1_100_000_000).1 ≡ fold)
    × ((on_finished (request running false true explicit 1_100_000_000).0 1).1 ≡ true)
    × Delivers false true explicit
        (on_finished (request running false true explicit 1_100_000_000).0 1).0
        1_200_000_000
request_running_example =
    request_running running false true explicit 1_100_000_000 1_200_000_000 running-IsValid
      (omega arith) refl (λ e. absurd (omega arith)) (omega arith)

-- An explicit refresh of the history has been folded into the run.
abbrev folded : RefreshCoalescer
folded = record running { pending_wants_history = true; pending_has_explicit = true }

folded-IsValid : IsValid folded
folded-IsValid = record { delay_is = refl; dirty_is = refl; in_range = omega arith }

fire_now_supersedes_example :
    let (c', g) = fire_now folded true false auto_fetch_resync 2_000_000_000 in
    (on_finished c' 1 ≡ (c', false))
    × (g ≢ 1)
    × Covers true false auto_fetch_resync (take_pending c').1
    × Covers false true (take_pending folded).1.origin (take_pending c').1
fire_now_supersedes_example =
    fire_now_supersedes folded true false auto_fetch_resync 2_000_000_000 folded-IsValid

abbrev first : Request
first = record { refs = true; history = false; origin = auto_fetch_resync; at = 1_000_000_000 }

abbrev second : Request
second = record { refs = false; history = true; origin = explicit; at = 1_050_000_000 }

request_all-RunsOnce_example : RunsOnce (request_all idle (first ∷ second ∷ [])) 0 1_200_000_000
request_all-RunsOnce_example =
    request_all-RunsOnce first (second ∷ []) idle 1_050_000_000 1_200_000_000 idle-IsValid refl
      (omega arith, (omega arith, tt)) (omega arith) (omega arith)
