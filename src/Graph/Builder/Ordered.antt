-- ===== src/Graph/Builder/Ordered.antt =====
-- src/core/graph/GraphBuilder.cpp: the edges of a graph stand in the order of their children.
use git_branch_manager.Base.{
  ℕ, ◌+◌, ◌≤◌, ◌<◌, not, ◌&&◌, List, [], ◌∷◌, ◌++◌, ◌≡◌, refl, arith, ◌==◌, leb, Bool-cases,
  Option-cases, inl, inr, ◌∙◌, length, All, All-append, All-map, length-append, get_elem?, set,
  some, ap, sym, zero, suc,
}
use git_branch_manager.Graph.Builder.Finish.{stub_edges, stub_all, finish, snapshot}
use git_branch_manager.Graph.Builder.Walk.{Commit, add_all}
use git_branch_manager.Graph.Builder.{
  GraphOptions, GraphBuilder, make, settle, patch_incoming, patch_edges, set_parent_row, open_edge,
  open_merge_edge, open_merge_edges, end_column, open_edges, push_row, add,
}
use git_branch_manager.Graph.LaneAllocator.{is_overflow}
use git_branch_manager.Graph.ObjectId.{ObjectId}
use git_branch_manager.Graph.Pending.{PendingEdge, Pending, waiting_for}
use git_branch_manager.Graph.Types.{k_row_boundary, EdgeKind, Edge}

abbrev pub children : List Edge → List ℕ
children [] = []
children (edge ∷ edges) = edge.child_row ∷ children edges

abbrev pub IsAscending : List ℕ → Type 0
IsAscending [] = Unit
IsAscending (x ∷ xs) = All (λ y. x ≤ y) xs × IsAscending xs

IsAscending-append :
    (xs : List ℕ) (y : ℕ) → IsAscending xs → All (λ x. x ≤ y) xs → IsAscending (xs ++ y ∷ [])
IsAscending-append [] y h k = (tt, tt)
IsAscending-append (x ∷ xs) y h k =
    (All-append (λ z. x ≤ z) xs (y ∷ []) h.0 (k.0, tt), IsAscending-append xs y h.1 k.1)

children-append :
    (edges : List Edge) (e : Edge) → children (edges ++ e ∷ []) ≡ children edges ++ e.child_row ∷ []
children-append [] e = refl
children-append (edge ∷ edges) e = ap (λ cs. edge.child_row ∷ cs) (children-append edges e)

-- A new end of an edge leaves its child.
children-set :
    (edges : List Edge) (i row : ℕ) (e : Edge)
    → get_elem? edges i ≡ some e
    → children (set edges i (record e { parent_row = row })) ≡ children edges
children-set [] i row e h = refl
children-set (edge ∷ edges) zero row e h =
    let same : edge ≡ e = cc in ap (λ x. x.child_row ∷ children edges) (sym same)
children-set (edge ∷ edges) (suc i) row e h =
    ap (λ cs. edge.child_row ∷ cs) (children-set edges i row e h)

children-set_parent_row :
    (i row : ℕ) (edges : List Edge) → children (set_parent_row i row edges) ≡ children edges
unfolding set_parent_row
children-set_parent_row i row edges = elim (Option-cases (get_elem? edges i)) [
  | inl absent ↦ rw (absent, set_parent_row) refl
  | inr (edge, found) ↦ rw (found, set_parent_row) (children-set edges i row edge found)
]

children-patch_edges :
    (edges : List Edge) (incoming : List PendingEdge) (row : ℕ)
    → children (patch_edges edges incoming row) ≡ children edges
unfolding patch_edges
children-patch_edges edges [] row = refl
children-patch_edges edges (x ∷ incoming) row =
    children-patch_edges (set_parent_row x.edge_id row edges) incoming row
    ∙ children-set_parent_row x.edge_id row edges

children-stub_edges :
    (edges : List Edge) (waiting : List PendingEdge)
    → children (stub_edges edges waiting) ≡ children edges
unfolding stub_edges
children-stub_edges edges [] = refl
children-stub_edges edges (x ∷ waiting) =
    children-stub_edges (set_parent_row x.edge_id k_row_boundary edges) waiting
    ∙ children-set_parent_row x.edge_id k_row_boundary edges

children-stub_all :
    (edges : List Edge) (pending : Pending) → children (stub_all edges pending) ≡ children edges
unfolding stub_all
children-stub_all edges [] = refl
children-stub_all edges ((oid, waiting) ∷ pending) =
    children-stub_all (stub_edges edges waiting) pending ∙ children-stub_edges edges waiting

-- The edges hang from the first `n` rows, in their order.
abbrev Ordered : ℕ → List Edge → Type 0
Ordered n edges = IsAscending (children edges) × All (λ c. c < n) (children edges)

abbrev IsOrdered : GraphBuilder → Type 0
IsOrdered b = Ordered (length b.snapshot.rows) b.snapshot.edges

push-Ordered :
    (n : ℕ) (edges : List Edge) (e : Edge)
    → e.child_row + 1 ≡ n
    → Ordered n edges
    → Ordered n (edges ++ e ∷ [])
push-Ordered n edges e h o = rw (children-append edges e) (
  IsAscending-append (children edges) e.child_row o.0
      (All-map (λ c. c < n) (λ c. c ≤ e.child_row) (children edges) (λ c k. omega arith) o.1),
  All-append (λ c. c < n) (children edges) (e.child_row ∷ []) o.1 (omega arith, tt),
)

open_merge_edges-IsOrdered :
    (b : GraphBuilder) (row lane : ℕ) (kind : EdgeKind) (parents : List ObjectId) (slot : ℕ)
    → row + 1 ≡ length b.snapshot.rows
    → IsOrdered b
    → IsOrdered (open_merge_edges b row lane kind parents slot)
unfolding open_merge_edges open_merge_edge open_edge
open_merge_edges-IsOrdered b row lane kind [] slot h o = o
open_merge_edges-IsOrdered b row lane kind (parent ∷ parents) slot h o =
    open_merge_edges-IsOrdered (open_merge_edge b row lane kind parent slot) row lane kind parents
      (slot + 1) h (push-Ordered (length b.snapshot.rows) b.snapshot.edges _ h o)

open_edges-IsOrdered :
    (b : GraphBuilder) (row lane color offset : ℕ) (parents : List ObjectId)
    → row + 1 ≡ length b.snapshot.rows
    → IsOrdered b
    → IsOrdered (open_edges b row lane color offset parents)
unfolding open_edges end_column open_edge
open_edges-IsOrdered b row lane color offset [] h o =
    elim (Bool-cases (not (is_overflow lane) && b.lane_ref_count lane == 0)) [
      | inl ends ↦ rw ends o
      | inr goes_on ↦ rw goes_on o
    ]
open_edges-IsOrdered b row lane color offset (parent ∷ parents) h o =
    open_merge_edges-IsOrdered _ row lane _ parents (offset + 1) h
      (push-Ordered (length b.snapshot.rows) b.snapshot.edges _ h o)

pushed-IsOrdered :
    (b : GraphBuilder) (oid : ObjectId) (lane color time parent_count : ℕ)
    → IsOrdered b
    → IsOrdered (push_row (settle b oid).0 oid lane color time parent_count)
unfolding push_row settle patch_incoming
pushed-IsOrdered b oid lane color time parent_count o =
    rw
      (
        children-patch_edges b.snapshot.edges (waiting_for oid b.pending) (length b.snapshot.rows),
        length-append b.snapshot.rows,
      )
      (
        o.0,
        All-map (λ c. c < length b.snapshot.rows) (λ c. c < length b.snapshot.rows + 1)
            (children b.snapshot.edges) (λ c k. omega arith) o.1,
      )

next_row :
    (b : GraphBuilder) (oid : ObjectId) (lane color time parent_count : ℕ)
    → length b.snapshot.rows + 1
      ≡ length (push_row (settle b oid).0 oid lane color time parent_count).snapshot.rows
unfolding push_row settle patch_incoming
next_row b oid lane color time parent_count = omega (arith, length-append b.snapshot.rows _)

add-IsOrdered :
    (b : GraphBuilder) (oid : ObjectId) (parents : List ObjectId) (time : ℕ)
    → IsOrdered b
    → IsOrdered (add b oid parents time)
unfolding add
add-IsOrdered b oid parents time o =
    elim (Bool-cases (leb b.options.max_rows (length b.snapshot.rows))) [
      | inl full ↦ rw full o
      | inr fits ↦ rw fits (
          open_edges-IsOrdered _ (length b.snapshot.rows) _ _ _ parents
            (next_row b oid _ _ time (length parents))
            (pushed-IsOrdered b oid _ _ time (length parents) o))
    ]

add_all-IsOrdered :
    (b : GraphBuilder) (commits : List Commit) → IsOrdered b → IsOrdered (add_all b commits)
unfolding add_all
add_all-IsOrdered b [] o = o
add_all-IsOrdered b (c ∷ commits) o =
    add_all-IsOrdered (add b c.oid c.parents c.commit_time) commits
      (add-IsOrdered b c.oid c.parents c.commit_time o)

-- What is shown of a walk that goes on has its edges in the order of their children.
pub snapshot-IsAscending :
    (options : GraphOptions) (commits : List Commit)
    → IsAscending (children (snapshot (add_all (make options) commits)).edges)
unfolding snapshot
snapshot-IsAscending options commits =
    let b = add_all (make options) commits in
    let o = add_all-IsOrdered (make options) commits (unfold make in (tt, tt)) in
    elim (Bool-cases b.finished) [
      | inl closed ↦ rw closed o.0
      | inr goes_on ↦ rw (goes_on, children-stub_all b.snapshot.edges b.pending) o.0
    ]

-- So has the graph of a walk that has ended.
pub finish-IsAscending :
    (options : GraphOptions) (commits : List Commit)
    → IsAscending (children (snapshot (finish (add_all (make options) commits))).edges)
unfolding snapshot finish
finish-IsAscending options commits =
    let b = add_all (make options) commits in
    let o = add_all-IsOrdered (make options) commits (unfold make in (tt, tt)) in
    rw (children-stub_all b.snapshot.edges b.pending) o.0
