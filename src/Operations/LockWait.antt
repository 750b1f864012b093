-- ===== src/Operations/LockWait.antt =====
-- src/core/git/OperationRunner.cpp: the wait for the lock of another git process. Every round of the
-- loop sees the repository, the flags and the clock anew.
use git_branch_manager.Base.{
  ℕ, zero, suc, ◌+◌, ◌*◌, ◌/◌, ◌≤◌, ◌<◌, Bool, true, false, not, ◌||◌, ◌≡◌, refl, arith, leb,
  if◌then◌else◌, Option, none, some, Bool-cases, inl, inr, ◌⊎◌,
}
use git_branch_manager.Operations.{is_older}
use git_branch_manager.RepoState.{RepoState}

-- What the n-th round sees: the state of the repository, whether the operation is cancelled,
-- whether the runner is stopping or preparing for shutdown, and the time in milliseconds.
pub record Rounds : Type 0 where
  pub state : ℕ → RepoState
  pub is_cancelled : ℕ → Bool
  pub is_stopping : ℕ → Bool
  pub now : ℕ → ℕ

abbrev pub k_poll : ℕ
k_poll = 20

-- The conditions on which a round returns before its sleep.
abbrev pub ends_wait : Rounds → ℕ → ℕ → Bool
ends_wait r deadline n =
    not (r.state n).index_locked
    || is_older (r.state n).index_lock_age_seconds
    || r.is_cancelled n
    || leb deadline (r.now n)
    || r.is_stopping n

-- The round that returns, from the n-th on; none, if the fuel is spent before.
unfoldable pub wait_from : Rounds → ℕ → ℕ → ℕ → Option ℕ
wait_from r deadline zero n = none
wait_from r deadline (suc fuel) n =
    let later = wait_from r deadline fuel (n + 1) in
    if ends_wait r deadline n then some n else later

abbrev pub wait_rounds : ℕ → ℕ
wait_rounds lock_wait = suc (lock_wait / k_poll + 1)

-- `waitForLiveIndexLock`, the clock having been read once before the first round.
unfoldable pub wait_for_live_index_lock : Rounds → ℕ → ℕ → Option ℕ
unfolding wait_from
wait_for_live_index_lock r started lock_wait =
    wait_from r (started + lock_wait) (wait_rounds lock_wait) 0

-- The round that returns is the first one that ends the wait.
abbrev pub IsFirstEnd : Rounds → ℕ → ℕ → ℕ → Type 0
IsFirstEnd r deadline from n =
    (ends_wait r deadline n ≡ true) × ((m : ℕ) → from ≤ m → m < n → ends_wait r deadline m ≡ false)

least_or_above : (from m : ℕ) → from ≤ m → (m ≡ from) ⊎ (from + 1 ≤ m)
least_or_above from m h = omega arith

wait_from-first :
    (r : Rounds) (deadline fuel from : ℕ)
    → deadline ≤ r.now from + fuel * k_poll
    → ((n : ℕ) → r.now n + k_poll ≤ r.now (n + 1))
    → (n : ℕ) × (wait_from r deadline (suc fuel) from ≡ some n) × IsFirstEnd r deadline from n
unfolding wait_from
wait_from-first r deadline zero from h sleeps =
    let due : leb deadline (r.now from) ≡ true = ground (arith, h) in
    let ends : ends_wait r deadline from ≡ true = ground (arith, due) in
    (from, (rw ends refl), (ends, λ m l k. absurd (omega arith)))
wait_from-first r deadline (suc fuel) from h sleeps =
    elim (Bool-cases (ends_wait r deadline from)) [
      | inl ends ↦ (from, (rw ends refl), (ends, λ m l k. absurd (omega arith)))
      | inr goes_on ↦
          let (n, found, (ends, before)) =
            wait_from-first r deadline fuel (from + 1) (grind (arith, h, sleeps from)) sleeps in
          (
            n,
            (rw goes_on found),
            (
              ends,
              λ m l k. elim (least_or_above from m l) [
                | inl same ↦ rw same goes_on
                | inr above ↦ before m above k
              ],
            ),
          )
    ]

-- The wait ends at the first round that has a reason for it, in at most one round for each 20
-- milliseconds of the time allowed and two more, if the clock goes on and a sleep lasts as long as
-- asked for.
pub wait_for_live_index_lock-ends :
    (r : Rounds) (started lock_wait : ℕ)
    → started ≤ r.now 0
    → ((n : ℕ) → r.now n + k_poll ≤ r.now (n + 1))
    → (n : ℕ) × (wait_for_live_index_lock r started lock_wait ≡ some n)
      × IsFirstEnd r (started + lock_wait) 0 n
unfolding wait_for_live_index_lock
wait_for_live_index_lock-ends r started lock_wait h sleeps =
    wait_from-first r (started + lock_wait) (lock_wait / k_poll + 1) 0 (ground (arith, h)) sleeps
