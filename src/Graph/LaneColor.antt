-- ===== src/Graph/LaneColor.antt =====
-- src/core/graph/LaneAllocator.h: the colour of a lane among its neighbours. A neighbour that is
-- not drawn (`kNoNeighbor`) is `none`; palette indices are below 12, so no distance is negative.
pub mod Choice
use git_branch_manager.Base.{
  ℕ, zero, suc, ◌+◌, ◌-◌, ◌*◌, ◌/◌, ◌%◌, min, Bool, true, List, [], ◌∷◌, Option, none, some, ltb,
  leb, ◌==◌, if◌then◌else◌,
}
use git_branch_manager.Graph.ObjectId.{ObjectId, hash}
use git_branch_manager.Graph.Types.{k_palette_size}

abbrev pub k_neighbor_window : ℕ
k_neighbor_window = 5

unfoldable pub required_separation : ℕ → ℕ
required_separation columns =
    if columns == 1
    then 3
    else if columns == 2
    then 2
    else if leb columns k_neighbor_window
    then 1
    else 0

unfoldable pub penalty_weight : ℕ → ℕ
penalty_weight columns = if columns == 1 then 100 else if columns == 2 then 10 else 1

unfoldable pub color_distance : ℕ → ℕ → ℕ
color_distance a b = let d = (a - b) + (b - a) in min d (k_palette_size - d)

unfoldable pub shortfall : ℕ → Option ℕ → ℕ → ℕ
unfolding required_separation penalty_weight color_distance
shortfall candidate none columns = 0
shortfall candidate (some neighbor) columns =
    (required_separation columns - color_distance candidate neighbor) * penalty_weight columns

-- The window on both sides, nearest first; `columns` is the distance of the first pair.
unfoldable pub crowding_from : ℕ → ℕ → List (Option ℕ) → List (Option ℕ) → ℕ
unfolding shortfall
crowding_from candidate columns (l ∷ left) (r ∷ right) =
    shortfall candidate l columns
    + shortfall candidate r columns
    + crowding_from candidate (columns + 1) left right
crowding_from candidate columns _ _ = 0

unfoldable pub crowding_of : ℕ → List (Option ℕ) → List (Option ℕ) → ℕ
unfolding crowding_from
crowding_of candidate left right = crowding_from candidate 1 left right

abbrev pub k_choices : ℕ
k_choices = 11

-- The candidate at a step: base, base + 1 taken back at odd steps, and so on outwards, round 1..11.
unfoldable pub candidate_at : ℕ → ℕ → ℕ
candidate_at base step =
    if step % 2 == 0
    then 1 + (base - 1 + step / 2 + k_choices * 2) % k_choices
    else 1 + (base - 1 + k_choices * 2 - (step + 1) / 2) % k_choices

-- `bestPenalty < 0 || penalty < bestPenalty`, with -1 as `none`.
abbrev pub improves : ℕ → Option ℕ → Bool
improves penalty none = true
improves penalty (some best_penalty) = ltb penalty best_penalty

-- The loop with `rounds` steps to go.
unfoldable pub probe : (ℕ → ℕ) → ℕ → ℕ → ℕ → ℕ → Option ℕ → ℕ
unfolding candidate_at
probe crowding base zero step best best_penalty = best
probe crowding base (suc rounds) step best best_penalty =
    let candidate = candidate_at base step in
    let penalty = crowding candidate in
    let better = probe crowding base rounds (step + 1) candidate (some penalty) in
    let same = probe crowding base rounds (step + 1) best best_penalty in
    if penalty == 0 then candidate else if improves penalty best_penalty then better else same

abbrev pub base_color : ObjectId → ℕ
base_color oid = 1 + hash oid % k_choices

unfoldable pub color_for_seed : ℕ → ObjectId → List (Option ℕ) → List (Option ℕ) → ℕ
color_for_seed lane oid left right =
    if lane == 0
    then 0
    else probe (λ c. crowding_of c left right) (base_color oid) k_choices 0 (base_color oid) none
