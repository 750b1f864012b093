-- ===== src/Tests/GraphTests.antt =====
-- src/core/graph: lanes, colours and a small walk.
use git_branch_manager.Base.{
  inl, replicate, ℕ, ◌<◌, ◌≤◌, true, List, [], ◌∷◌, ◌≡◌, ◌⊎◌, refl, arith, some, none, ◌==◌,
  if◌then◌else◌,
}
use git_branch_manager.Graph.Snapshot.Range.{FindsAll, edges_in_range-overlapping}
use git_branch_manager.Graph.Builder.Downward.{IsShown, walk-IsDrawn}
use git_branch_manager.Graph.Builder.Finish.{finish, snapshot}
use git_branch_manager.Graph.Builder.Live.{total}
use git_branch_manager.Graph.Builder.Walk.{Commit, add_all, tips, add_all-lanes, add_all-lane_zero}
use git_branch_manager.Graph.Builder.{GraphOptions, make}
use git_branch_manager.Graph.LaneAllocator.{LaneAllocator}
use git_branch_manager.Graph.LaneColor.Choice.{IsColor, color_for_seed_least}
use git_branch_manager.Graph.LaneColor.{color_for_seed, crowding_of, base_color}
use git_branch_manager.Graph.ObjectId.Hex.{AreBytes, from_hex-hex}
use git_branch_manager.Graph.ObjectId.{from_hex, hex, ObjectId, null_id, id_eq}
use git_branch_manager.Base.Text.{bytes_eq}

abbrev id : ℕ → ObjectId
id n = record { bytes = n ∷ [] }

-- Lanes 0 and 2 are taken.
abbrev lanes : LaneAllocator
lanes = record {
  used = λ i. if i == 0 then true else i == 2;
  high_water = 3;
  seeds = λ i. null_id;
  colors = λ i. 0;
}

color_for_seed_example :
    let r = color_for_seed 3 (id 200) (some 4 ∷ none ∷ []) (some 5 ∷ []) in
    IsColor r
    × ((c : ℕ)
        → IsColor c
        → crowding_of r (some 4 ∷ none ∷ []) (some 5 ∷ [])
          ≤ crowding_of c (some 4 ∷ none ∷ []) (some 5 ∷ []))
    × ((r ≡ base_color (id 200))
        ⊎ (0 < crowding_of (base_color (id 200)) (some 4 ∷ none ∷ []) (some 5 ∷ [])))
color_for_seed_example =
    color_for_seed_least 3 (id 200) (some 4 ∷ none ∷ []) (some 5 ∷ []) (λ e. absurd (omega arith))

-- HEAD's tip 9 is known, and the walk begins with another branch.
abbrev options : GraphOptions
options = record { max_rows = 100; trunk_tip = id 9 }

abbrev side : List Commit
side =
    record { oid = id 8; parents = id 7 ∷ id 6 ∷ []; commit_time = 50 }
    ∷ record { oid = id 7; parents = id 5 ∷ []; commit_time = 40 }
    ∷ []

abbrev walk : List Commit
walk = record { oid = id 9; parents = id 5 ∷ []; commit_time = 60 } ∷ side

walk-tips : tips options walk ≤ 1
unfolding id_eq bytes_eq
walk-tips = omega arith

side-tips : tips options side ≡ 0
unfolding id_eq bytes_eq
side-tips = refl

add_all-lanes_example :
    ((add_all (make options) walk).lane_ref_count 1 ≡ total 1 (add_all (make options) walk).pending)
    × ((total 1 (add_all (make options) walk).pending ≡ 0)
        ⊎ ((add_all (make options) walk).lanes.used 1 ≡ true))
add_all-lanes_example = add_all-lanes options walk 1 walk-tips (omega arith)

add_all-lane_zero_example :
    ((add_all (make options) side).lanes.used 0 ≡ true)
    × (total 0 (add_all (make options) side).pending ≡ 0)
add_all-lane_zero_example = add_all-lane_zero options side refl side-tips

walk-IsDrawn_example :
    IsShown options.max_rows (snapshot (add_all (make options) walk))
    × IsShown options.max_rows (snapshot (finish (add_all (make options) walk)))
walk-IsDrawn_example = walk-IsDrawn options walk

abbrev sha1 : ObjectId
sha1 = record { bytes = replicate 20 171 }

sha1-AreBytes : AreBytes sha1.bytes
sha1-AreBytes = grind arith

from_hex-hex_example : from_hex (hex sha1) ≡ sha1
from_hex-hex_example = from_hex-hex sha1 sha1-AreBytes (inl refl)

edges_in_range-overlapping_example :
    FindsAll (snapshot (add_all (make options) walk)) 1 2
    × FindsAll (snapshot (finish (add_all (make options) walk))) 1 2
edges_in_range-overlapping_example = edges_in_range-overlapping options walk 1 2
