-- ===== src/Graph/Builder.antt =====
-- src/core/graph/GraphBuilder.h and GraphBuilder.cpp. A lane's reference count is at most the
-- number of edges, which the range of `EdgeId` bounds, so its `uint32_t` does not wrap.
pub mod Live
pub mod Steps
pub mod Adds
pub mod Walk
pub mod Finish
pub mod Edges
pub mod Downward
pub mod Ordered
use Prim.Native.Nat.{bit_or}
use git_branch_manager.Base.{
  ℕ, suc, ◌+◌, ◌-◌, ◌%◌, ◌^◌, min, Bool, true, false, not, ◌&&◌, List, [], ◌∷◌, ◌++◌, Option, none,
  some, ltb, leb, ◌==◌, if◌then◌else◌, length, set, replicate, is_empty, get_elem?,
}
use git_branch_manager.Graph.LaneAllocator.{
  LaneAllocator, is_overflow, update, allocate_leftmost, allocate_after, reserve, release, color_of,
  seed,
}
use git_branch_manager.Graph.LaneAllocator
use git_branch_manager.Graph.ObjectId.{ObjectId, is_null, id_eq}
use git_branch_manager.Graph.Pending.{
  PendingEdge, Pending, waiting_for, erase, push_pending, choose_lane, lowest_lane,
}
use git_branch_manager.Graph.Types.{
  k_row_boundary, EdgeKind, first_parent, merge_parent, octopus, RowMeta, flag_is_merge,
  flag_boundary, flag_lane_overflow, Edge, GraphSnapshot,
}

pub record GraphOptions : Type 0 where
  pub max_rows : ℕ
  pub trunk_tip : ObjectId

pub record GraphBuilder : Type 0 where
  pub options : GraphOptions
  pub lanes : LaneAllocator
  pub pending : Pending
  pub lane_ref_count : ℕ → ℕ
  pub snapshot : GraphSnapshot
  pub finished : Bool

unfoldable pub make : GraphOptions → GraphBuilder
make options = record {
  options = options;
  lanes = if is_null options.trunk_tip then LaneAllocator.empty else reserve LaneAllocator.empty 0;
  pending = [];
  lane_ref_count = λ _. 0;
  snapshot = record {
    oids = [];
    rows = [];
    parent_pool = [];
    edges = [];
    lane_count = 0;
    complete = false;
    truncated = false;
    overflowed_edges = 0;
  };
  finished = false;
}

-- `edges[i].parentRow = row`
unfoldable pub set_parent_row : ℕ → ℕ → List Edge → List Edge
set_parent_row i row edges = elim (get_elem? edges i) [
  | none ↦ edges
  | some edge ↦ set edges i (record edge { parent_row = row })
]

-- `if (laneRefCount_[lane] > 0) --laneRefCount_[lane];` below the overflow lane.
unfoldable pub drop_reference : (ℕ → ℕ) → ℕ → ℕ → ℕ
drop_reference refs lane =
    if not (is_overflow lane) && ltb 0 (refs lane) then update refs lane (refs lane - 1) else refs

unfoldable pub add_reference : (ℕ → ℕ) → ℕ → ℕ → ℕ
add_reference refs lane = if is_overflow lane then refs else update refs lane (refs lane + 1)

unfoldable pub patch_references : (ℕ → ℕ) → List PendingEdge → ℕ → ℕ
patch_references refs [] = refs
patch_references refs (edge ∷ incoming) = patch_references (drop_reference refs edge.lane) incoming

unfoldable pub patch_edges : List Edge → List PendingEdge → ℕ → List Edge
unfolding set_parent_row
patch_edges edges [] row = edges
patch_edges edges (edge ∷ incoming) row =
    patch_edges (set_parent_row edge.edge_id row edges) incoming row

unfoldable pub patch_pool : List ℕ → List PendingEdge → ℕ → List ℕ
patch_pool pool [] row = pool
patch_pool pool (edge ∷ incoming) row =
    patch_pool (set pool edge.parent_pool_index row) incoming row

-- The loop of `patchIncoming` writes three stores, one for each function.
unfoldable pub patch_incoming : GraphBuilder → List PendingEdge → ℕ → GraphBuilder
patch_incoming b incoming row = record b {
  lane_ref_count = patch_references b.lane_ref_count incoming;
  snapshot = record b.snapshot {
    edges = patch_edges b.snapshot.edges incoming row;
    parent_pool = patch_pool b.snapshot.parent_pool incoming row;
  };
}

-- The incoming lanes other than `lane` that nothing descends in any more.
unfoldable pub release_incoming : LaneAllocator → (ℕ → ℕ) → ℕ → List PendingEdge → LaneAllocator
release_incoming lanes refs lane [] = lanes
release_incoming lanes refs lane (edge ∷ incoming) =
    release_incoming
      (if not (edge.lane == lane) && not (is_overflow edge.lane) && refs edge.lane == 0
        then release lanes edge.lane
        else lanes)
      refs lane incoming

abbrev pub is_trunk_tip : GraphBuilder → ObjectId → Bool
is_trunk_tip b oid = not (is_null b.options.trunk_tip) && id_eq oid b.options.trunk_tip

-- The lane that a commit occupies, with the allocator behind the choice.
unfoldable pub place : LaneAllocator → Bool → ObjectId → List PendingEdge → LaneAllocator × ℕ
place lanes is_tip oid incoming =
    if is_tip
    then (seed lanes 0 oid, 0)
    else if is_empty incoming
    then (let (taken, lane) = allocate_leftmost lanes in (seed taken lane oid, lane))
    else (lanes, choose_lane incoming)

unfoldable pub row_flags : ℕ → ℕ → ℕ
row_flags parent_count lane =
    let counted = min parent_count 7 in
    let merged = if ltb 1 parent_count then bit_or counted flag_is_merge else counted in
    if is_overflow lane then bit_or merged flag_lane_overflow else merged

unfoldable pub push_row : GraphBuilder → ObjectId → ℕ → ℕ → ℕ → ℕ → GraphBuilder
unfolding row_flags
push_row b oid lane color commit_time parent_count =
    let meta : RowMeta = record {
      parent_offset = length b.snapshot.parent_pool;
      edge_offset = length b.snapshot.edges;
      commit_time = commit_time;
      lane = lane;
      color = color;
      flags = row_flags parent_count lane;
    } in
    record b {
      snapshot = record b.snapshot {
        oids = b.snapshot.oids ++ oid ∷ [];
        rows = b.snapshot.rows ++ meta ∷ [];
        parent_pool = b.snapshot.parent_pool ++ replicate parent_count k_row_boundary;
      };
    }

-- `createEdge`, the entry in `pending_` and the reference count, for one parent.
unfoldable pub open_edge : GraphBuilder → ObjectId → Edge → ℕ → Bool → GraphBuilder
open_edge b parent edge pool_index is_first =
    let waiting : PendingEdge = record {
      edge_id = length b.snapshot.edges;
      parent_pool_index = pool_index;
      lane = edge.lane;
      child_row = edge.child_row;
      color = edge.color;
      first_parent = is_first;
    } in
    record b {
      pending = push_pending parent waiting b.pending;
      lane_ref_count = add_reference b.lane_ref_count edge.lane;
      snapshot = record b.snapshot {
        edges = b.snapshot.edges ++ edge ∷ [];
        overflowed_edges =
            if is_overflow edge.lane
            then (b.snapshot.overflowed_edges + 1) % 2 ^ 32
            else b.snapshot.overflowed_edges;
      };
    }

-- The column for a later parent: that of an edge already waiting for it, or one strictly right.
unfoldable pub merge_lane : LaneAllocator → ℕ → ObjectId → List PendingEdge → LaneAllocator × ℕ
merge_lane lanes lane parent [] =
    let (taken, target) = allocate_after lanes lane in (seed taken target parent, target)
merge_lane lanes lane parent (front ∷ edges) = (lanes, lowest_lane front.lane edges)

unfoldable pub open_merge_edge : GraphBuilder → ℕ → ℕ → EdgeKind → ObjectId → ℕ → GraphBuilder
open_merge_edge b row lane kind parent pool_index =
    let (lanes, target) = merge_lane b.lanes lane parent (waiting_for parent b.pending) in
    open_edge (record b { lanes = lanes }) parent
      (record {
        child_row = row;
        parent_row = k_row_boundary;
        lane = target;
        child_lane = lane;
        color = color_of lanes target;
        kind = kind;
      })
      pool_index false

-- Parents 2..n, the first of them with the pool slot `pool_index`.
unfoldable pub open_merge_edges : GraphBuilder → ℕ → ℕ → EdgeKind → List ObjectId → ℕ → GraphBuilder
open_merge_edges b row lane kind [] pool_index = b
open_merge_edges b row lane kind (parent ∷ parents) pool_index =
    open_merge_edges (open_merge_edge b row lane kind parent pool_index) row lane kind parents
      (pool_index + 1)

abbrev pub publish_lane_count : GraphBuilder → GraphBuilder
publish_lane_count b = record b { snapshot = record b.snapshot { lane_count = b.lanes.high_water } }

-- A root commit ends its column.
unfoldable pub end_column : GraphBuilder → ℕ → GraphBuilder
end_column b lane =
    if not (is_overflow lane) && b.lane_ref_count lane == 0
    then record b { lanes = release b.lanes lane }
    else b

abbrev pub later_kind : List ObjectId → EdgeKind
later_kind (a ∷ b ∷ c ∷ rest) = octopus
later_kind _ = merge_parent

unfoldable pub open_edges : GraphBuilder → ℕ → ℕ → ℕ → ℕ → List ObjectId → GraphBuilder
open_edges b row lane color offset [] = end_column b lane
open_edges b row lane color offset (parent ∷ parents) =
    open_merge_edges
      (open_edge b parent
        (record {
          child_row = row;
          parent_row = k_row_boundary;
          lane = lane;
          child_lane = lane;
          color = color;
          kind = first_parent;
        })
        offset true)
      row lane (later_kind (parent ∷ parents)) parents (offset + 1)

-- The commit leaves the map of waiting edges, takes its lane and colour, and closes the edges that
-- waited for it.
unfoldable pub settle : GraphBuilder → ObjectId → GraphBuilder × ℕ × ℕ
settle b oid =
    let incoming = waiting_for oid b.pending in
    let (lanes, lane) = place b.lanes (is_trunk_tip b oid) oid incoming in
    let patched =
      patch_incoming (record b { pending = erase oid b.pending; lanes = lanes }) incoming
        (length b.snapshot.rows) in
    (
      record patched { lanes = release_incoming lanes patched.lane_ref_count lane incoming },
      lane,
      color_of lanes lane,
    )

unfoldable pub add : GraphBuilder → ObjectId → List ObjectId → ℕ → GraphBuilder
add b oid parents commit_time =
    if leb b.options.max_rows (length b.snapshot.rows)
    then record b { snapshot = record b.snapshot { truncated = true } }
    else (let row = length b.snapshot.rows in
        let (settled, lane, color) = settle b oid in
        let offset = length settled.snapshot.parent_pool in
        let pushed = push_row settled oid lane color commit_time (length parents) in
        publish_lane_count (open_edges pushed row lane color offset parents))
