-- ===== src/Graph/Snapshot.antt =====
-- src/core/graph/GraphSnapshot.h and GraphSnapshot.cpp: the indices of a snapshot and the queries
-- that read them. `std::stable_sort` is an insertion sort, and `std::lower_bound` on its result
-- the first element that is not less.
pub mod Range
use git_branch_manager.Base.{
  ℕ, zero, suc, ◌+◌, ◌-◌, ◌*◌, ◌/◌, min, max, Bool, true, false, not, ◌&&◌, ◌||◌, List, [], ◌∷◌,
  ◌++◌, Option, none, some, ltb, leb, ◌==◌, if◌then◌else◌, length, is_empty, get_elem?, get_or,
  drop, take,
}
use git_branch_manager.Graph.ObjectId.{ObjectId, null_id, id_eq, id_less}
use git_branch_manager.Graph.Types.{k_row_boundary, RowMeta, Edge, GraphSnapshot}

abbrev pub k_bucket_rows : ℕ
k_bucket_rows = 64

-- The private fields of `GraphSnapshot`.
pub record Indices : Type 0 where
  pub edge_bucket : List ℕ
  pub bucket_max_lane : List ℕ
  pub oid_order : List ℕ

-- The last row that an edge is in; a stub is in the row below its child.
abbrev pub end_row : Edge → ℕ
end_row edge = if edge.parent_row == k_row_boundary then edge.child_row + 1 else edge.parent_row

-- The `while` loop: the edges that are left and the index of the first of them.
unfoldable pub skip_closed : ℕ → ℕ → List Edge → ℕ × List Edge
skip_closed bucket_start index [] = (index, [])
skip_closed bucket_start index (edge ∷ edges) =
    let later = skip_closed bucket_start (index + 1) edges in
    if leb bucket_start (end_row edge) then (index, edge ∷ edges) else later

-- `edgeBucket_` for `count` buckets from `bucket` on.
unfoldable pub edge_buckets : ℕ → ℕ → ℕ → List Edge → List ℕ
unfolding skip_closed
edge_buckets zero bucket index edges = []
edge_buckets (suc count) bucket index edges =
    let (index', edges') = skip_closed (bucket * k_bucket_rows) index edges in
    index' ∷ edge_buckets count (bucket + 1) index' edges'

unfoldable pub widest_lane : List RowMeta → ℕ
widest_lane [] = 0
widest_lane (row ∷ rows) = max row.lane (widest_lane rows)

-- `bucketMaxLane_` for `count` buckets, the rows being those from the first bucket on.
unfoldable pub lane_buckets : ℕ → List RowMeta → List ℕ
unfolding widest_lane
lane_buckets zero rows = []
lane_buckets (suc count) rows =
    widest_lane (take k_bucket_rows rows) ∷ lane_buckets count (drop k_bucket_rows rows)

-- A row goes before the first row of the sorted ones whose id is greater.
unfoldable pub insert_row : List ObjectId → ℕ → List ℕ → List ℕ
insert_row oids row [] = row ∷ []
insert_row oids row (first ∷ order) =
    let later = insert_row oids row order in
    if id_less (get_or oids row null_id) (get_or oids first null_id)
    then row ∷ first ∷ order
    else first ∷ later

-- The rows below `count`, sorted by id, rows of the same id in their own order.
unfoldable pub sort_rows : List ObjectId → ℕ → List ℕ
unfolding insert_row
sort_rows oids zero = []
sort_rows oids (suc count) = insert_row oids count (sort_rows oids count)

unfoldable pub bucket_count : List RowMeta → ℕ
bucket_count rows = if is_empty rows then 1 else length rows / k_bucket_rows + 1

unfoldable pub finalize_indices : GraphSnapshot → Indices
unfolding edge_buckets lane_buckets sort_rows bucket_count
finalize_indices s = record {
  edge_bucket = edge_buckets (bucket_count s.rows) 0 0 s.edges;
  bucket_max_lane = lane_buckets (bucket_count s.rows) s.rows;
  oid_order = sort_rows s.oids (length s.oids);
}

unfoldable pub lower_bound : List ObjectId → ObjectId → List ℕ → Option ℕ
lower_bound oids oid [] = none
lower_bound oids oid (row ∷ order) =
    let later = lower_bound oids oid order in
    if id_less (get_or oids row null_id) oid then later else some row

unfoldable pub find_row : GraphSnapshot → Indices → ObjectId → Option ℕ
unfolding lower_bound
find_row s x oid = elim (lower_bound s.oids oid x.oid_order) [
  | none ↦ none
  | some row ↦ if id_eq (get_or s.oids row null_id) oid then some row else none
]

-- `rows[row + 1].parentOffset`, or the size of the pool for the last row.
abbrev pub parent_end : GraphSnapshot → ℕ → ℕ
parent_end s row = elim (get_elem? s.rows (row + 1)) [
  | some next ↦ next.parent_offset
  | none ↦ length s.parent_pool
]

unfoldable pub parent_count_of : GraphSnapshot → ℕ → ℕ
parent_count_of s row = elim (get_elem? s.rows row) [
  | none ↦ 0
  | some meta ↦ parent_end s row - meta.parent_offset
]

unfoldable pub parents_of : GraphSnapshot → ℕ → List ℕ
unfolding parent_count_of
parents_of s row = elim (get_elem? s.rows row) [
  | none ↦ []
  | some meta ↦ take (parent_count_of s row) (drop meta.parent_offset s.parent_pool)
]

-- The loop from `index` on.
unfoldable pub scan_edges : ℕ → ℕ → List Edge → List Edge
scan_edges first_row last_row [] = []
scan_edges first_row last_row (edge ∷ edges) =
    let later = scan_edges first_row last_row edges in
    if ltb last_row edge.child_row
    then []
    else if leb first_row (end_row edge)
    then edge ∷ later
    else later

abbrev pub start_index : List ℕ → ℕ → ℕ
start_index buckets first_row =
    if is_empty buckets
    then 0
    else get_or buckets (min (first_row / k_bucket_rows) (length buckets - 1)) 0

unfoldable pub edges_in_range : GraphSnapshot → Indices → ℕ → ℕ → List Edge
unfolding scan_edges
edges_in_range s x first_row last_row =
    if is_empty s.edges || is_empty s.rows || ltb last_row first_row
    then []
    else scan_edges first_row last_row (drop (start_index x.edge_bucket first_row) s.edges)

-- The rows from `from` to `to`, one by one.
abbrev pub widest_between : List RowMeta → ℕ → ℕ → ℕ
widest_between rows from to = widest_lane (take (to + 1 - from) (drop from rows))

-- The loop over `count` buckets from `bucket` on.
unfoldable pub widest_in_buckets : GraphSnapshot → Indices → ℕ → ℕ → ℕ → ℕ → ℕ
unfolding widest_lane
widest_in_buckets s x first_row last_row zero bucket = 0
widest_in_buckets s x first_row last_row (suc count) bucket =
    let start = bucket * k_bucket_rows in
    let stop = start + k_bucket_rows - 1 in
    let later = widest_in_buckets s x first_row last_row count (bucket + 1) in
    let whole = get_or x.bucket_max_lane bucket 0 in
    let part = widest_between s.rows (max start first_row) (min stop last_row) in
    max (if leb first_row start && leb stop last_row then whole else part) later

unfoldable pub widest_edge : List Edge → ℕ
widest_edge [] = 0
widest_edge (edge ∷ edges) = max (max edge.lane edge.child_lane) (widest_edge edges)

unfoldable pub max_lane_in_range : GraphSnapshot → Indices → ℕ → ℕ → ℕ
unfolding widest_in_buckets edges_in_range widest_edge
max_lane_in_range s x first_row last_row =
    let last = min last_row (length s.rows - 1) in
    let first_bucket = first_row / k_bucket_rows in
    let last_bucket = min (last / k_bucket_rows) (length x.bucket_max_lane - 1) in
    if is_empty s.rows || ltb last first_row
    then 0
    else max (widest_in_buckets s x first_row last (last_bucket + 1 - first_bucket) first_bucket)
        (widest_edge (edges_in_range s x first_row last))
