-- ===== src/Graph/Builder/Downward.antt =====
-- src/core/graph/GraphBuilder.cpp: the rows and edges of a graph, from the first commit to `finish`.
use git_branch_manager.Base.{
  ℕ, ◌+◌, ◌≤◌, ◌<◌, Bool, true, false, not, ◌&&◌, List, [], ◌∷◌, ◌≡◌, refl, arith, ◌==◌, leb, ap,
  Bool-cases, Option-cases, inl, inr, ◌∙◌, length, All-append, length-append, length-set, get_elem?,
}
use git_branch_manager.Graph.Builder.Finish.{or_flags, flag_children, flag_all, finish, snapshot}
use git_branch_manager.Graph.Builder.Walk.{Commit, add_all, add_all-options}
use git_branch_manager.Graph.Builder.{
  GraphOptions, GraphBuilder, make, settle, patch_incoming, open_edge, open_merge_edge,
  open_merge_edges, end_column, open_edges, push_row, add,
}
use git_branch_manager.Graph.LaneAllocator.{is_overflow}
use git_branch_manager.Graph.ObjectId.{ObjectId}
use git_branch_manager.Graph.Pending.{PendingEdge, Pending, waiting_for}
use git_branch_manager.Graph.Types.{flag_boundary, RowMeta, EdgeKind, Edge, GraphSnapshot}
use git_branch_manager.Graph.Builder.Edges.{
  IsDownward, AreDownward, patch_edges-AreDownward, stub_all-AreDownward,
}

-- What a builder holds: one id for each row, no more rows than asked for, and edges that go down.
pub record IsDrawn (b : GraphBuilder) : Type 0 where
  pub aligned : length b.snapshot.oids ≡ length b.snapshot.rows
  pub capped : length b.snapshot.rows ≤ b.options.max_rows
  pub downward : AreDownward (length b.snapshot.rows) b.snapshot.edges

open_edge-IsDrawn :
    (b : GraphBuilder) (parent : ObjectId) (edge : Edge) (slot : ℕ) (first : Bool)
    → IsDownward (length b.snapshot.rows) edge
    → IsDrawn b
    → IsDrawn (open_edge b parent edge slot first)
unfolding open_edge
open_edge-IsDrawn b parent edge slot first e d = record {
  aligned = d.aligned;
  capped = d.capped;
  downward = All-append (IsDownward (length b.snapshot.rows)) b.snapshot.edges _ d.downward (e, tt);
}

open_merge_edges-IsDrawn :
    (b : GraphBuilder) (row lane : ℕ) (kind : EdgeKind) (parents : List ObjectId) (slot : ℕ)
    → row < length b.snapshot.rows
    → IsDrawn b
    → IsDrawn (open_merge_edges b row lane kind parents slot)
unfolding open_merge_edges open_merge_edge open_edge
open_merge_edges-IsDrawn b row lane kind [] slot h d = d
open_merge_edges-IsDrawn b row lane kind (parent ∷ parents) slot h d =
    open_merge_edges-IsDrawn (open_merge_edge b row lane kind parent slot) row lane kind parents
      (slot + 1) h
      (record {
        aligned = d.aligned;
        capped = d.capped;
        downward =
            All-append (IsDownward (length b.snapshot.rows)) b.snapshot.edges _ d.downward
              ((h, inl refl), tt);
      })

open_edges-IsDrawn :
    (b : GraphBuilder) (row lane color offset : ℕ) (parents : List ObjectId)
    → row < length b.snapshot.rows
    → IsDrawn b
    → IsDrawn (open_edges b row lane color offset parents)
unfolding open_edges end_column open_edge
open_edges-IsDrawn b row lane color offset [] h d =
    elim (Bool-cases (not (is_overflow lane) && b.lane_ref_count lane == 0)) [
      | inl ends ↦
          rw ends (record { aligned = d.aligned; capped = d.capped; downward = d.downward })
      | inr goes_on ↦ rw goes_on d
    ]
open_edges-IsDrawn b row lane color offset (parent ∷ parents) h d =
    open_merge_edges-IsDrawn _ row lane _ parents (offset + 1) h
      (open_edge-IsDrawn b parent _ offset true (h, inl refl) d)

pushed-IsDrawn :
    (b : GraphBuilder) (oid : ObjectId) (lane color time parent_count : ℕ)
    → leb b.options.max_rows (length b.snapshot.rows) ≡ false
    → IsDrawn b
    → IsDrawn (push_row (settle b oid).0 oid lane color time parent_count)
unfolding push_row settle patch_incoming
pushed-IsDrawn b oid lane color time parent_count fits d =
    let grown = length-append b.snapshot.rows in
    let small : length b.snapshot.rows + 1 ≤ b.options.max_rows = ground (arith, fits) in
    record {
      aligned = omega (arith, d.aligned, length-append b.snapshot.oids (oid ∷ []), grown _);
      capped = rw (grown _) small;
      downward = rw (grown _) (
          patch_edges-AreDownward b.snapshot.edges (waiting_for oid b.pending)
            (length b.snapshot.rows) d.downward);
    }

next_row :
    (b : GraphBuilder) (oid : ObjectId) (lane color time parent_count : ℕ)
    → length b.snapshot.rows
      < length (push_row (settle b oid).0 oid lane color time parent_count).snapshot.rows
unfolding push_row settle patch_incoming
next_row b oid lane color time parent_count = omega (arith, length-append b.snapshot.rows _)

pub add-IsDrawn :
    (b : GraphBuilder) (oid : ObjectId) (parents : List ObjectId) (time : ℕ)
    → IsDrawn b
    → IsDrawn (add b oid parents time)
unfolding add
add-IsDrawn b oid parents time d =
    elim (Bool-cases (leb b.options.max_rows (length b.snapshot.rows))) [
      | inl full ↦
          rw full (record { aligned = d.aligned; capped = d.capped; downward = d.downward })
      | inr fits ↦
          let next =
            open_edges-IsDrawn _ (length b.snapshot.rows) _ _ _ parents
              (next_row b oid _ _ time (length parents))
              (pushed-IsDrawn b oid _ _ time (length parents) fits d) in
          rw fits
            (record { aligned = next.aligned; capped = next.capped; downward = next.downward })
    ]

make-IsDrawn : (options : GraphOptions) → IsDrawn (make options)
unfolding make
make-IsDrawn options = record { aligned = refl; capped = omega arith; downward = tt }

pub add_all-IsDrawn :
    (b : GraphBuilder) (commits : List Commit) → IsDrawn b → IsDrawn (add_all b commits)
unfolding add_all
add_all-IsDrawn b [] d = d
add_all-IsDrawn b (c ∷ commits) d =
    add_all-IsDrawn (add b c.oid c.parents c.commit_time) commits
      (add-IsDrawn b c.oid c.parents c.commit_time d)

or_flags-length :
    (row flags : ℕ) (rows : List RowMeta) → length (or_flags row flags rows) ≡ length rows
unfolding or_flags
or_flags-length row flags rows = elim (Option-cases (get_elem? rows row)) [
  | inl absent ↦ rw (absent, or_flags) refl
  | inr (meta, found) ↦ rw (found, or_flags) (length-set rows row _)
]

flag_children-length :
    (rows : List RowMeta) (waiting : List PendingEdge)
    → length (flag_children rows waiting) ≡ length rows
unfolding flag_children
flag_children-length rows [] = refl
flag_children-length rows (x ∷ waiting) =
    flag_children-length (or_flags x.child_row flag_boundary rows) waiting
    ∙ or_flags-length x.child_row flag_boundary rows

flag_all-length :
    (rows : List RowMeta) (pending : Pending) → length (flag_all rows pending) ≡ length rows
unfolding flag_all
flag_all-length rows [] = refl
flag_all-length rows ((oid, waiting) ∷ pending) =
    flag_all-length (flag_children rows waiting) pending ∙ flag_children-length rows waiting

-- A snapshot: one id for each row, at most so many rows, and edges that go down.
pub record IsShown (max_rows : ℕ) (s : GraphSnapshot) : Type 0 where
  pub aligned : length s.oids ≡ length s.rows
  pub capped : length s.rows ≤ max_rows
  pub downward : AreDownward (length s.rows) s.edges

snapshot-IsShown :
    (b : GraphBuilder) (max_rows : ℕ)
    → b.options.max_rows ≡ max_rows
    → IsDrawn b
    → IsShown max_rows (snapshot b)
unfolding snapshot
snapshot-IsShown b max_rows same d = elim (Bool-cases b.finished) [
  | inl closed ↦ rw closed (record {
    aligned = d.aligned;
    capped = omega (arith, d.capped, same);
    downward = d.downward;
  })
  | inr goes_on ↦ rw goes_on (record {
    aligned = d.aligned;
    capped = omega (arith, d.capped, same);
    downward = stub_all-AreDownward (length b.snapshot.rows) b.snapshot.edges b.pending d.downward;
  })
]

finish-IsDrawn : (b : GraphBuilder) → IsDrawn b → IsDrawn (finish b)
unfolding finish
finish-IsDrawn b d =
    let kept = flag_all-length b.snapshot.rows b.pending in
    record {
      aligned = omega (arith, kept, d.aligned);
      capped = omega (arith, kept, d.capped);
      downward =
          rw kept
            (stub_all-AreDownward (length b.snapshot.rows) b.snapshot.edges b.pending d.downward);
    }

finish-options : (b : GraphBuilder) → (finish b).options ≡ b.options
unfolding finish
finish-options b = refl

-- The graph of a whole walk, and every part of it that is shown while the walk goes on: there is
-- one id for each row, no more rows than the options ask for, and each edge hangs from a row of the
-- graph and ends strictly below it in a row of the graph, or at the boundary. It holds for every
-- order of the commits, also one that is not topological.
pub walk-IsDrawn :
    (options : GraphOptions) (commits : List Commit)
    → IsShown options.max_rows (snapshot (add_all (make options) commits))
      × IsShown options.max_rows (snapshot (finish (add_all (make options) commits)))
unfolding make
walk-IsDrawn options commits =
    let b = add_all (make options) commits in
    let d = add_all-IsDrawn (make options) commits (make-IsDrawn options) in
    let same : b.options.max_rows ≡ options.max_rows =
      ap (λ o. o.max_rows) (add_all-options (make options) commits) in
    (
      snapshot-IsShown b options.max_rows same d,
      snapshot-IsShown (finish b) options.max_rows (ap (λ o. o.max_rows) (finish-options b) ∙ same)
          (finish-IsDrawn b d),
    )
