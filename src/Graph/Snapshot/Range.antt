-- ===== src/Graph/Snapshot/Range.antt =====
-- src/core/graph/GraphSnapshot.cpp: the query for the edges of a range finds what a scan of all
-- edges finds.
use git_branch_manager.Base.{
  ℕ, zero, suc, ◌+◌, ◌-◌, ◌*◌, ◌/◌, min, ◌≤◌, ◌<◌, ◌&&◌, ◌||◌, List, [], ◌∷◌, ◌≡◌, refl, arith, sym,
  ap, ◌∙◌, ltb, leb, if◌then◌else◌, length, is_empty, get_or, drop, All, Bool-cases, inl, inr,
  List-cases,
}
use git_branch_manager.Graph.Builder.Finish.{finish, snapshot}
use git_branch_manager.Graph.Builder.Ordered.{
  children, IsAscending, snapshot-IsAscending, finish-IsAscending,
}
use git_branch_manager.Graph.Builder.Walk.{Commit, add_all}
use git_branch_manager.Graph.Builder.{GraphOptions, make}
use git_branch_manager.Graph.Snapshot.{
  k_bucket_rows, end_row, skip_closed, edge_buckets, bucket_count, finalize_indices, scan_edges,
  start_index, edges_in_range,
}
use git_branch_manager.Graph.Types.{RowMeta, Edge, GraphSnapshot}

-- The edges that are in a row of the range, among all.
abbrev pub overlapping : ℕ → ℕ → List Edge → List Edge
overlapping first_row last_row [] = []
overlapping first_row last_row (edge ∷ edges) =
    if leb edge.child_row last_row && leb first_row (end_row edge)
    then edge ∷ overlapping first_row last_row edges
    else overlapping first_row last_row edges

drop-suc :
    (edges : List Edge) (i : ℕ) (e : Edge) (rest : List Edge)
    → drop i edges ≡ e ∷ rest
    → drop (suc i) edges ≡ rest
drop-suc [] zero e rest h = absurd cc
drop-suc [] (suc i) e rest h = absurd cc
drop-suc (x ∷ edges) zero e rest h = cc
drop-suc (x ∷ edges) (suc i) e rest h = drop-suc edges i e rest h

add_one : (n : ℕ) → n + 1 ≡ suc n
add_one n = omega arith

-- The edges before an index end above a row.
record Skips (all : List Edge) (start : ℕ) (p : ℕ × List Edge) : Type 0 where
  at : drop p.0 all ≡ p.1
  same :
      (first_row last_row : ℕ)
      → start ≤ first_row
      → overlapping first_row last_row all ≡ overlapping first_row last_row p.1

skip_closed-Skips :
    (all : List Edge) (start index : ℕ) (edges : List Edge)
    → Skips all start (index, edges)
    → Skips all start (skip_closed start index edges)
unfolding skip_closed
skip_closed-Skips all start index [] k = k
skip_closed-Skips all start index (e ∷ edges) k = elim (Bool-cases (leb start (end_row e))) [
  | inl reaches ↦ rw reaches k
  | inr closed ↦ rw closed (
      skip_closed-Skips all start (index + 1) edges (record {
        at = ap (λ i. drop i all) (add_one index) ∙ drop-suc all index e edges k.at;
        same = λ f l h. k.same f l h ∙ ground (arith, closed, h);
      }))
]

edge_buckets-Skips :
    (all : List Edge) (count bucket index : ℕ) (edges : List Edge) (i : ℕ)
    → Skips all (bucket * k_bucket_rows) (index, edges)
    → i < count
    → (p : ℕ × List Edge) × (p.0 ≡ get_or (edge_buckets count bucket index edges) i 0)
      × Skips all ((bucket + i) * k_bucket_rows) p
unfolding edge_buckets
edge_buckets-Skips all zero bucket index edges i k h = absurd (omega arith)
edge_buckets-Skips all (suc count) bucket index edges zero k h =
    let p = skip_closed (bucket * k_bucket_rows) index edges in
    let q = skip_closed-Skips all (bucket * k_bucket_rows) index edges k in
    (p, refl, record { at = q.at; same = λ f l b. q.same f l (omega arith) })
edge_buckets-Skips all (suc count) bucket index edges (suc i) k h =
    let p = skip_closed (bucket * k_bucket_rows) index edges in
    let q = skip_closed-Skips all (bucket * k_bucket_rows) index edges k in
    let (r, e, s) =
      edge_buckets-Skips all count (bucket + 1) p.0 p.1 i
        (record { at = q.at; same = λ f l b. q.same f l (omega arith) }) (omega arith) in
    (r, e, record { at = s.at; same = λ f l b. s.same f l (omega arith) })

-- Behind an edge that begins below the range none is in it.
none-overlapping :
    (edges : List Edge) (first_row last_row bound : ℕ)
    → All (λ c. bound ≤ c) (children edges)
    → last_row < bound
    → overlapping first_row last_row edges ≡ []
none-overlapping [] f l b h k = refl
none-overlapping (e ∷ edges) f l b h k = ground (arith, h.0, k, none-overlapping edges f l b h.1 k)

scan_edges-overlapping :
    (first_row last_row : ℕ) (edges : List Edge)
    → IsAscending (children edges)
    → scan_edges first_row last_row edges ≡ overlapping first_row last_row edges
unfolding scan_edges
scan_edges-overlapping f l [] h = refl
scan_edges-overlapping f l (e ∷ edges) h = elim (Bool-cases (ltb l e.child_row)) [
  | inl below ↦ ground (arith, below, none-overlapping edges f l e.child_row h.0)
  | inr inside ↦ ground (arith, inside, scan_edges-overlapping f l edges h.1)
]

IsAscending-drop :
    (i : ℕ) (edges : List Edge)
    → IsAscending (children edges)
    → IsAscending (children (drop i edges))
IsAscending-drop zero edges h = h
IsAscending-drop (suc i) [] h = h
IsAscending-drop (suc i) (e ∷ edges) h = IsAscending-drop i edges h.1

length-edge_buckets :
    (count bucket index : ℕ) (edges : List Edge)
    → length (edge_buckets count bucket index edges) ≡ count
unfolding edge_buckets
length-edge_buckets zero bucket index edges = refl
length-edge_buckets (suc count) bucket index edges =
    ap suc (length-edge_buckets count (bucket + 1) _ _)

bucket-first : (f n : ℕ) → (0 + min (f / k_bucket_rows) n) * k_bucket_rows ≤ f
bucket-first f n = ground arith

start_index-at :
    (count first_row : ℕ) (edges : List Edge)
    → 0 < count
    → start_index (edge_buckets count 0 0 edges) first_row
      ≡ get_or (edge_buckets count 0 0 edges) (min (first_row / k_bucket_rows) (count - 1)) 0
unfolding edge_buckets
start_index-at zero f edges h = absurd (omega arith)
start_index-at (suc n) f edges h =
    ap (λ m. get_or (edge_buckets (suc n) 0 0 edges) (min (f / k_bucket_rows) (m - 1)) 0)
      (length-edge_buckets (suc n) 0 0 edges)

start_index-same :
    (count first_row last_row : ℕ) (edges : List Edge)
    → 0 < count
    → overlapping first_row last_row
        (drop (start_index (edge_buckets count 0 0 edges) first_row) edges)
      ≡ overlapping first_row last_row edges
start_index-same count f l edges h =
    let i = min (f / k_bucket_rows) (count - 1) in
    let (p, e, k) =
      edge_buckets-Skips edges count 0 0 edges i (record { at = refl; same = λ f' l' h'. refl })
        (omega arith) in
    ap (λ j. overlapping f l (drop j edges)) (start_index-at count f edges h ∙ sym e)
    ∙ ap (overlapping f l) k.at
    ∙ sym (k.same f l (bucket-first f (count - 1)))

bucket_count-positive : (rows : List RowMeta) → 0 < bucket_count rows
unfolding bucket_count
bucket_count-positive [] = omega arith
bucket_count-positive (x ∷ rows) = omega arith

-- The query by the index gives the edges that a scan of all edges gives.
abbrev pub FindsAll : GraphSnapshot → ℕ → ℕ → Type 0
FindsAll s first_row last_row = edges_in_range s (finalize_indices s) first_row last_row ≡ (
    if is_empty s.rows || ltb last_row first_row
    then []
    else overlapping first_row last_row s.edges)

query-overlapping :
    (s : GraphSnapshot) (first_row last_row : ℕ)
    → IsAscending (children s.edges)
    → FindsAll s first_row last_row
unfolding edges_in_range finalize_indices
query-overlapping s f l h =
    let i = start_index (edge_buckets (bucket_count s.rows) 0 0 s.edges) f in
    let a = scan_edges-overlapping f l (drop i s.edges) (IsAscending-drop i s.edges h) in
    let b = start_index-same (bucket_count s.rows) f l s.edges (bucket_count-positive s.rows) in
    elim (List-cases s.edges) [
      | inl none_left ↦ ground (arith, none_left)
      | inr (e, es, some_left) ↦ ground (arith, some_left, a, b)
    ]

-- The edges of a range of rows, found by the index, are those that a scan of all edges finds: for
-- every snapshot of a walk that goes on and for the graph of a walk that has ended, every first row
-- and every last row.
pub edges_in_range-overlapping :
    (options : GraphOptions) (commits : List Commit) (first_row last_row : ℕ)
    → FindsAll (snapshot (add_all (make options) commits)) first_row last_row
      × FindsAll (snapshot (finish (add_all (make options) commits))) first_row last_row
edges_in_range-overlapping options commits f l = (
  query-overlapping (snapshot (add_all (make options) commits)) f l
      (snapshot-IsAscending options commits),
  query-overlapping (snapshot (finish (add_all (make options) commits))) f l
      (finish-IsAscending options commits),
)
