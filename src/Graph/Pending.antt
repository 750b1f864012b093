-- ===== src/Graph/Pending.antt =====
-- src/core/graph/GraphBuilder.h and GraphBuilder.cpp: the edges that wait for their parent, by the
-- parent's id. The map `pending_` is an association list.
use git_branch_manager.Base.{
  ℕ, Bool, true, false, List, [], ◌∷◌, ◌++◌, ltb, ◌==◌, min, if◌then◌else◌,
}
use git_branch_manager.Graph.ObjectId.{ObjectId, id_eq}

pub record PendingEdge : Type 0 where
  pub edge_id : ℕ
  pub parent_pool_index : ℕ
  pub lane : ℕ
  pub child_row : ℕ
  pub color : ℕ
  pub first_parent : Bool

abbrev pub Pending : Type 0
Pending = List (ObjectId × List PendingEdge)

-- The edges waiting for `oid`, none where the map has no entry.
unfoldable pub waiting_for : ObjectId → Pending → List PendingEdge
waiting_for oid [] = []
waiting_for oid ((key, edges) ∷ m) = if id_eq key oid then edges else waiting_for oid m

unfoldable pub erase : ObjectId → Pending → Pending
erase oid [] = []
erase oid ((key, edges) ∷ m) = if id_eq key oid then m else (key, edges) ∷ erase oid m

-- `pending_[oid].push_back(edge)`
unfoldable pub push_pending : ObjectId → PendingEdge → Pending → Pending
push_pending oid edge [] = (oid, edge ∷ []) ∷ []
push_pending oid edge ((key, edges) ∷ m) =
    if id_eq key oid then (key, edges ++ edge ∷ []) ∷ m else (key, edges) ∷ push_pending oid edge m

abbrev rank : PendingEdge → ℕ
rank edge = if edge.first_parent then 0 else 1

-- Whether the loop of `chooseLane` replaces its best edge.
unfoldable pub beats : PendingEdge → PendingEdge → Bool
beats candidate best =
    if ltb (rank candidate) (rank best)
    then true
    else if rank candidate == rank best
    then ltb candidate.lane best.lane
    else false

unfoldable pub best_edge : PendingEdge → List PendingEdge → PendingEdge
best_edge best [] = best
best_edge best (candidate ∷ edges) =
    best_edge (if beats candidate best then candidate else best) edges

unfoldable pub choose_lane : List PendingEdge → ℕ
choose_lane [] = 0
choose_lane (edge ∷ edges) = (best_edge edge edges).lane

-- The lowest lane of the edges that wait for a parent already, from the front one on.
unfoldable pub lowest_lane : ℕ → List PendingEdge → ℕ
lowest_lane lane [] = lane
lowest_lane lane (edge ∷ edges) = lowest_lane (min lane edge.lane) edges
