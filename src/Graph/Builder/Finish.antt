-- ===== src/Graph/Builder/Finish.antt =====
-- src/core/graph/GraphBuilder.cpp: `setRowFlags`, `finish` and `snapshot`, without the indices that
-- `finalizeIndices` derives.
use Prim.Native.Nat.{bit_or}
use git_branch_manager.Base.{ℕ, true, List, [], ◌∷◌, none, some, set, get_elem?, if◌then◌else◌}
use git_branch_manager.Graph.Builder.{GraphBuilder, set_parent_row}
use git_branch_manager.Graph.Pending.{PendingEdge, Pending}
use git_branch_manager.Graph.Types.{k_row_boundary, RowMeta, flag_boundary, Edge, GraphSnapshot}

-- `rows[row].flags |= flags_to_set`, nothing past the end.
unfoldable pub or_flags : ℕ → ℕ → List RowMeta → List RowMeta
or_flags row flags_to_set rows = elim (get_elem? rows row) [
  | none ↦ rows
  | some meta ↦ set rows row (record meta { flags = bit_or meta.flags flags_to_set })
]

unfoldable pub set_row_flags : GraphBuilder → ℕ → ℕ → GraphBuilder
unfolding or_flags
set_row_flags b row flags_to_set = record b {
  snapshot = record b.snapshot { rows = or_flags row flags_to_set b.snapshot.rows };
}

unfoldable pub mark_truncated : GraphBuilder → GraphBuilder
mark_truncated b = record b { snapshot = record b.snapshot { truncated = true } }

-- The edges of one entry of `pending_` become boundary stubs.
unfoldable pub stub_edges : List Edge → List PendingEdge → List Edge
unfolding set_parent_row
stub_edges edges [] = edges
stub_edges edges (edge ∷ waiting) =
    stub_edges (set_parent_row edge.edge_id k_row_boundary edges) waiting

unfoldable pub flag_children : List RowMeta → List PendingEdge → List RowMeta
unfolding or_flags
flag_children rows [] = rows
flag_children rows (edge ∷ waiting) =
    flag_children (or_flags edge.child_row flag_boundary rows) waiting

unfoldable pub stub_all : List Edge → Pending → List Edge
unfolding stub_edges
stub_all edges [] = edges
stub_all edges ((oid, waiting) ∷ pending) = stub_all (stub_edges edges waiting) pending

unfoldable pub flag_all : List RowMeta → Pending → List RowMeta
unfolding flag_children
flag_all rows [] = rows
flag_all rows ((oid, waiting) ∷ pending) = flag_all (flag_children rows waiting) pending

unfoldable pub finish : GraphBuilder → GraphBuilder
unfolding stub_all flag_all
finish b = record b {
  finished = true;
  snapshot = record b.snapshot {
    edges = stub_all b.snapshot.edges b.pending;
    rows = flag_all b.snapshot.rows b.pending;
    complete = true;
    lane_count = b.lanes.high_water;
  };
}

unfoldable pub snapshot : GraphBuilder → GraphSnapshot
unfolding stub_all
snapshot b = record b.snapshot {
  complete = b.finished;
  edges = if b.finished then b.snapshot.edges else stub_all b.snapshot.edges b.pending;
}
