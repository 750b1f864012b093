-- ===== src/Graph/LaneAllocator.antt =====
-- src/core/graph/LaneAllocator.h. The mask `used_` is the function of its bits, and each array the
-- function of its elements; both are read and written below `kMaxLanes` only.
pub mod Lowest
use git_branch_manager.Base.{
  ℕ, zero, suc, ◌+◌, ◌-◌, Bool, true, false, not, ◌&&◌, List, [], ◌∷◌, Option, none, some, ltb, leb,
  ◌==◌, if◌then◌else◌,
}
use git_branch_manager.Graph.LaneColor.{color_for_seed, k_neighbor_window}
use git_branch_manager.Graph.ObjectId.{ObjectId, null_id}
use git_branch_manager.Graph.Types.{k_max_lanes}

pub record LaneAllocator : Type 0 where
  pub used : ℕ → Bool
  pub high_water : ℕ
  pub seeds : ℕ → ObjectId
  pub colors : ℕ → ℕ

abbrev pub k_overflow_lane : ℕ
k_overflow_lane = k_max_lanes

abbrev pub is_overflow : ℕ → Bool
is_overflow lane = leb k_max_lanes lane

abbrev pub update {ℓ} : {A : Type ℓ} → (ℕ → A) → ℕ → A → ℕ → A
update f i v j = if j == i then v else f j

abbrev pub empty : LaneAllocator
empty = record { used = λ _. false; high_water = 0; seeds = λ _. null_id; colors = λ _. 0 }

-- The lowest clear bit of the next `count` bits from `start`; `none` if all are set.
unfoldable pub first_clear : (ℕ → Bool) → ℕ → ℕ → Option ℕ
first_clear used zero start = none
first_clear used (suc count) start =
    let later = first_clear used count (start + 1) in if used start then later else some start

-- `countTrailingZeros(~used_ & (~0ULL << start))` over the 64 bits.
unfoldable pub lowest_free_at_or_after : LaneAllocator → ℕ → ℕ
lowest_free_at_or_after lanes start =
    if leb k_max_lanes start
    then k_overflow_lane
    else elim (first_clear lanes.used (64 - start) start) [
      | none ↦ k_overflow_lane
      | some index ↦ if leb k_max_lanes index then k_overflow_lane else index
    ]

unfoldable pub mark_used : LaneAllocator → ℕ → LaneAllocator
mark_used lanes lane = record lanes {
  used = update lanes.used lane true;
  high_water = if ltb lanes.high_water (lane + 1) then lane + 1 else lanes.high_water;
}

-- The tail that both allocations share.
abbrev pub take_lane : LaneAllocator → ℕ → LaneAllocator × ℕ
take_lane lanes lane =
    if is_overflow lane then (lanes, k_overflow_lane) else (mark_used lanes lane, lane)

unfoldable pub allocate_leftmost : LaneAllocator → LaneAllocator × ℕ
allocate_leftmost lanes = take_lane lanes (lowest_free_at_or_after lanes 0)

unfoldable pub allocate_after : LaneAllocator → ℕ → LaneAllocator × ℕ
allocate_after lanes after =
    if is_overflow after
    then (lanes, k_overflow_lane)
    else take_lane lanes (lowest_free_at_or_after lanes (after + 1))

unfoldable pub reserve : LaneAllocator → ℕ → LaneAllocator
reserve lanes lane = if is_overflow lane then lanes else mark_used lanes lane

unfoldable pub release : LaneAllocator → ℕ → LaneAllocator
release lanes lane =
    if is_overflow lane then lanes else record lanes { used = update lanes.used lane false }

unfoldable pub in_use : LaneAllocator → ℕ → Bool
in_use lanes lane = not (is_overflow lane) && lanes.used lane

unfoldable pub color_of : LaneAllocator → ℕ → ℕ
color_of lanes lane = if is_overflow lane then 0 else lanes.colors lane

unfoldable pub seed_of : LaneAllocator → ℕ → ObjectId
seed_of lanes lane = if is_overflow lane then null_id else lanes.seeds lane

abbrev drawn_color : LaneAllocator → ℕ → Option ℕ
drawn_color lanes lane = if in_use lanes lane then some (lanes.colors lane) else none

-- `neighborColor(lane, -delta)` and `neighborColor(lane, delta)`.
unfoldable pub left_color : LaneAllocator → ℕ → ℕ → Option ℕ
unfolding in_use
left_color lanes lane delta = if ltb lane delta then none else drawn_color lanes (lane - delta)

unfoldable pub right_color : LaneAllocator → ℕ → ℕ → Option ℕ
unfolding in_use
right_color lanes lane delta =
    if leb k_max_lanes (lane + delta) then none else drawn_color lanes (lane + delta)

-- `count` neighbours from the distance `delta` on.
unfoldable pub side_colors : (ℕ → Option ℕ) → ℕ → ℕ → List (Option ℕ)
side_colors color zero delta = []
side_colors color (suc count) delta = color delta ∷ side_colors color count (delta + 1)

unfoldable pub seed : LaneAllocator → ℕ → ObjectId → LaneAllocator
seed lanes lane oid = if is_overflow lane then lanes else record lanes {
  seeds = update lanes.seeds lane oid;
  colors = update lanes.colors lane (
      color_for_seed lane oid (side_colors (left_color lanes lane) k_neighbor_window 1)
        (side_colors (right_color lanes lane) k_neighbor_window 1));
}
