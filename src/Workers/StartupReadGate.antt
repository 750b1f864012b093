-- ===== src/Workers/StartupReadGate.antt =====
-- src/core/workers/StartupReadGate.h
pub mod Once
use git_branch_manager.Base.{Bool, true, false, if◌then◌else◌}

pub record Gate : Type 0 where
  pub open_flag : Bool
  pub pending : Bool

unfoldable pub closed : Gate
closed = record { open_flag = false; pending = false }

unfoldable pub request_or_hold : Gate → Gate × Bool
request_or_hold g = if g.open_flag then (g, true) else (record g { pending = true }, false)

unfoldable pub release : Gate → Gate × Bool
release g =
    if g.pending
    then (record g { open_flag = true; pending = false }, true)
    else (record g { open_flag = true }, false)
