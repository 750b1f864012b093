-- ===== src/Workers/StartupReadGate/Once.antt =====
-- src/core/workers/StartupReadGate.h: what a caller sees over a whole sequence of calls.
use git_branch_manager.Base.{
  ℕ, zero, suc, ◌+◌, ◌≤◌, Bool, true, false, ◌||◌, List, [], ◌∷◌, ◌≡◌, arith, ltb, if◌then◌else◌,
}
use git_branch_manager.Workers.StartupReadGate.{Gate, closed, request_or_hold, release}

pub data Call : Type 0 where
  requests releases : Call

-- The state after a call, and whether the caller runs the read now.
pub call : Gate → Call → Gate × Bool
unfolding request_or_hold release
call g requests = request_or_hold g
call g releases = release g

pub after : Gate → List Call → Gate
after g [] = g
after g (c ∷ cs) = after (call g c).0 cs

abbrev one_if : Bool → ℕ
one_if b = if b then 1 else 0

-- How many held reads the calls of `release` start.
pub started_late : Gate → List Call → ℕ
started_late g [] = 0
started_late g (requests ∷ cs) = started_late (call g requests).0 cs
started_late g (releases ∷ cs) = one_if (call g releases).1 + started_late (call g releases).0 cs

-- How many requests are answered by running at once.
pub started_now : Gate → List Call → ℕ
started_now g [] = 0
started_now g (requests ∷ cs) = one_if (call g requests).1 + started_now (call g requests).0 cs
started_now g (releases ∷ cs) = started_now (call g releases).0 cs

pub count_requests : List Call → ℕ
count_requests [] = 0
count_requests (requests ∷ cs) = suc (count_requests cs)
count_requests (releases ∷ cs) = count_requests cs

-- Once open, the gate holds nothing back.
open_gate :
    (cs : List Call) (g : Gate)
    → g.open_flag ≡ true
    → g.pending ≡ false
    → (started_late g cs ≡ 0) × (started_now g cs ≡ count_requests cs)
unfolding started_late started_now count_requests call
open_gate [] g o p = (omega arith, omega arith)
open_gate (requests ∷ cs) g o p = ground (arith, open_gate cs (call g requests).0)
open_gate (releases ∷ cs) g o p = ground (arith, open_gate cs (call g releases).0)

shut_gate : (cs : List Call) (g : Gate) → g.open_flag ≡ false → started_late g cs ≤ 1
unfolding started_late call
shut_gate [] g o = omega arith
shut_gate (requests ∷ cs) g o = ground (arith, shut_gate cs (call g requests).0)
shut_gate (releases ∷ cs) g o = ground (arith, open_gate cs (call g releases).0)

-- Whatever the sequence of calls on a new gate, `release` starts at most one held read.
pub started_late-le-one : (cs : List Call) → started_late closed cs ≤ 1
unfolding closed
started_late-le-one cs = shut_gate cs closed (ground arith)

-- Requests before the first release.
pub request_times : ℕ → List Call → List Call
request_times zero cs = cs
request_times (suc n) cs = requests ∷ request_times n cs

held :
    (n : ℕ) (cs : List Call) (g : Gate)
    → g.open_flag ≡ false
    → (started_late g (request_times n (releases ∷ cs)) ≡ one_if (g.pending || ltb 0 n))
      × (started_now g (request_times n (releases ∷ cs)) ≡ count_requests cs)
unfolding started_late started_now call request_times
held zero cs g o = ground (arith, open_gate cs (release g).0)
held (suc n) cs g o = ground (arith, held n cs (request_or_hold g).0)

-- After n requests and a `release` on a new gate, whatever calls follow: the held requests have
-- run as one read exactly if n is not 0, no other read is started by `release`, and each request
-- behind the first `release`, and no other, is answered by running at once.
pub held_then_open :
    (n : ℕ) (cs : List Call)
    → (started_late closed (request_times n (releases ∷ cs)) ≡ one_if (ltb 0 n))
      × (started_now closed (request_times n (releases ∷ cs)) ≡ count_requests cs)
unfolding closed
held_then_open n cs = ground (arith, held n cs closed)
