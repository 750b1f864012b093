-- ===== src/Graph/LaneAllocator/Lowest.antt =====
-- src/core/graph/LaneAllocator.h: an allocation takes the lowest free lane of its range.
use git_branch_manager.Base.{
  ℕ, zero, suc, ◌+◌, ◌-◌, ◌≤◌, ◌<◌, Bool, true, false, ◌≡◌, ◌⊎◌, inl, inr, refl, arith, Option,
  none, some, if◌then◌else◌, leb, ◌==◌, Bool-cases,
}
use git_branch_manager.Graph.LaneAllocator.{
  LaneAllocator, k_overflow_lane, take_lane, update, first_clear, lowest_free_at_or_after,
  mark_used, allocate_leftmost, allocate_after,
}
use git_branch_manager.Graph.Types.{k_max_lanes}

-- Every lane from `start` up to `stop` is taken.
abbrev pub IsFull : (ℕ → Bool) → ℕ → ℕ → Type 0
IsFull used start stop = (i : ℕ) → start ≤ i → i < stop → used i ≡ true

-- `lane` is the lowest free lane from `start` on.
pub record IsLowest (used : ℕ → Bool) (start lane : ℕ) : Type 0 where
  pub from : start ≤ lane
  pub below : lane < k_max_lanes
  pub free : used lane ≡ false
  pub lowest : IsFull used start lane

IsFull-cons :
    (used : ℕ → Bool) (start stop : ℕ)
    → used start ≡ true
    → IsFull used (start + 1) stop
    → IsFull used start stop
IsFull-cons used start stop here rest i h k = elim (Bool-cases (i == start)) [
  | inl same ↦ let e : i ≡ start = ground arith in rw e here
  | inr other ↦ rest i (ground arith) k
]

abbrev Found : (ℕ → Bool) → ℕ → ℕ → Option ℕ → Type 0
Found used start stop none = IsFull used start stop
Found used start stop (some lane) =
    (start ≤ lane) × (lane < stop) × (used lane ≡ false) × IsFull used start lane

Found-cons :
    (used : ℕ → Bool) (start stop : ℕ) (o : Option ℕ)
    → used start ≡ true
    → Found used (start + 1) stop o
    → Found used start stop o
Found-cons used start stop none here f = IsFull-cons used start stop here f
Found-cons used start stop (some lane) here f =
    (omega arith, f.1, f.2, IsFull-cons used start lane here f.3)

first_clear-Found :
    (used : ℕ → Bool) (count start stop : ℕ)
    → start + count ≡ stop
    → Found used start stop (first_clear used count start)
unfolding first_clear
first_clear-Found used zero start stop e = λ i h k. absurd (omega arith)
first_clear-Found used (suc count) start stop e = elim (Bool-cases (used start)) [
  | inr free ↦ rw free (omega arith, omega arith, free, λ i h k. absurd (omega arith))
  | inl taken ↦ rw taken (
      Found-cons used start stop _ taken
        (first_clear-Found used count (start + 1) stop (omega arith)))
]

-- The result of the search below `kMaxLanes`.
abbrev Lowest : (ℕ → Bool) → ℕ → ℕ → Type 0
Lowest used start lane =
    ((lane ≡ k_overflow_lane) × IsFull used start k_max_lanes) ⊎ IsLowest used start lane

capped-Lowest :
    (used : ℕ → Bool) (start : ℕ) (o : Option ℕ)
    → start < k_max_lanes
    → Found used start 64 o
    → Lowest used start (elim o [
      | none ↦ k_overflow_lane
      | some index ↦ if leb k_max_lanes index then k_overflow_lane else index
    ])
capped-Lowest used start none h f = inl (refl, λ i a b. f i a (omega arith))
capped-Lowest used start (some lane) h f = elim (Bool-cases (leb k_max_lanes lane)) [
  | inl over ↦ rw over (inl (refl, λ i a b. f.3 i a (ground arith)))
  | inr inside ↦
      rw inside (inr (record { from = f.0; below = ground arith; free = f.2; lowest = f.3 }))
]

lowest_free_at_or_after-Lowest :
    (lanes : LaneAllocator) (start : ℕ)
    → Lowest lanes.used start (lowest_free_at_or_after lanes start)
lowest_free_at_or_after-Lowest lanes start = elim (Bool-cases (leb k_max_lanes start)) [
  | inl past ↦
      unfold lowest_free_at_or_after in rw past (inl (refl, λ i a b. absurd (ground arith)))
  | inr inside ↦
      let found = first_clear-Found lanes.used (64 - start) start 64 (ground arith) in
      unfold lowest_free_at_or_after in
      rw inside (capped-Lowest lanes.used start _ (ground arith) found)
]

-- An allocation from `start` on gives the overflow lane and changes nothing if every lane of the
-- range is taken; otherwise it takes the lowest free one, and no other bit changes.
abbrev pub Allocates : LaneAllocator → ℕ → LaneAllocator × ℕ → Type 0
Allocates lanes start r =
    ((r ≡ (lanes, k_overflow_lane)) × IsFull lanes.used start k_max_lanes)
    ⊎ (IsLowest lanes.used start r.1 × (r.0.used ≡ update lanes.used r.1 true))

take_lane-Allocates :
    (lanes : LaneAllocator) (start lane : ℕ)
    → Lowest lanes.used start lane
    → Allocates lanes start (take_lane lanes lane)
unfolding mark_used
take_lane-Allocates lanes start lane (inl (e, full)) = inl (ground arith, full)
take_lane-Allocates lanes start lane (inr low) =
    let inside : leb k_max_lanes lane ≡ false = ground (arith, low.below) in
    rw inside (inr (low, refl))

-- A ref tip gets the lowest free lane of all, or the overflow lane with nothing changed if every
-- lane is taken; a lane that is given is marked, and no other bit changes.
pub allocate_leftmost-Allocates :
    (lanes : LaneAllocator) → Allocates lanes 0 (allocate_leftmost lanes)
unfolding allocate_leftmost
allocate_leftmost-Allocates lanes =
    take_lane-Allocates lanes 0 _ (lowest_free_at_or_after-Lowest lanes 0)

pub allocate_after-Allocates :
    (lanes : LaneAllocator) (after : ℕ)
    → after < k_max_lanes
    → Allocates lanes (after + 1) (allocate_after lanes after)
unfolding allocate_after
allocate_after-Allocates lanes after h =
    let inside : leb k_max_lanes after ≡ false = ground arith in
    rw inside
      (take_lane-Allocates lanes (after + 1) _ (lowest_free_at_or_after-Lowest lanes (after + 1)))

-- Right of the overflow lane there is only it.
pub allocate_after-overflow :
    (lanes : LaneAllocator) (after : ℕ)
    → k_max_lanes ≤ after
    → allocate_after lanes after ≡ (lanes, k_overflow_lane)
unfolding allocate_after
allocate_after-overflow lanes after h = ground arith
