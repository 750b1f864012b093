-- ===== src/Graph/Builder/Edges.antt =====
-- src/core/graph/GraphBuilder.cpp: the rows that the edges of a graph join.
use git_branch_manager.Base.{
  ℕ, ◌+◌, ◌<◌, List, [], ◌∷◌, ◌≡◌, ◌⊎◌, refl, arith, Option-cases, inl, inr, All, All-map, All-set,
  All-get, get_elem?,
}
use git_branch_manager.Graph.Builder.Finish.{stub_edges, stub_all}
use git_branch_manager.Graph.Builder.{patch_edges, set_parent_row}
use git_branch_manager.Graph.Pending.{PendingEdge, Pending}
use git_branch_manager.Graph.Types.{k_row_boundary, Edge}

-- The edge hangs from one of the first `n` rows, and ends below it in one of them or nowhere yet.
abbrev pub IsDownward : ℕ → Edge → Type 0
IsDownward n edge =
    (edge.child_row < n)
    × ((edge.parent_row ≡ k_row_boundary)
        ⊎ ((edge.child_row < edge.parent_row) × (edge.parent_row < n)))

abbrev pub AreDownward : ℕ → List Edge → Type 0
AreDownward n = All (IsDownward n)

-- The same while edges are given the next row, `row`, as their end.
abbrev IsPatched : ℕ → Edge → Type 0
IsPatched row edge =
    (edge.child_row < row)
    × ((edge.parent_row ≡ k_row_boundary)
        ⊎ ((edge.child_row < edge.parent_row) × (edge.parent_row < row + 1)))

-- A property that one edge keeps is kept by all.
set_parent_row-All {κ} :
    (P : Edge → Type κ) (i row : ℕ) (edges : List Edge)
    → ((edge : Edge) → P edge → P (record edge { parent_row = row }))
    → All P edges
    → All P (set_parent_row i row edges)
unfolding set_parent_row
set_parent_row-All P i row edges keeps h = elim (Option-cases (get_elem? edges i)) [
  | inl absent ↦ rw (absent, set_parent_row) h
  | inr (edge, found) ↦
      rw (found, set_parent_row)
        (All-set P edges i _ h (keeps edge (All-get P edges i edge h found)))
]

patch_edges-IsPatched :
    (edges : List Edge) (incoming : List PendingEdge) (row : ℕ)
    → All (IsPatched row) edges
    → All (IsPatched row) (patch_edges edges incoming row)
unfolding patch_edges
patch_edges-IsPatched edges [] row h = h
patch_edges-IsPatched edges (x ∷ incoming) row h =
    patch_edges-IsPatched (set_parent_row x.edge_id row edges) incoming row (
      set_parent_row-All (IsPatched row) x.edge_id row edges
        (λ edge p. (p.0, inr (p.0, omega arith))) h)

pub patch_edges-AreDownward :
    (edges : List Edge) (incoming : List PendingEdge) (row : ℕ)
    → AreDownward row edges
    → AreDownward (row + 1) (patch_edges edges incoming row)
patch_edges-AreDownward edges incoming row h =
    All-map (IsPatched row) (IsDownward (row + 1)) _ (λ edge p. (omega (arith, p.0), p.1))
      (patch_edges-IsPatched edges incoming row
        (All-map (IsDownward row) (IsPatched row) edges (λ edge p. (p.0, grind (arith, p.1))) h))

stub_edges-AreDownward :
    (n : ℕ) (edges : List Edge) (waiting : List PendingEdge)
    → AreDownward n edges
    → AreDownward n (stub_edges edges waiting)
unfolding stub_edges
stub_edges-AreDownward n edges [] h = h
stub_edges-AreDownward n edges (x ∷ waiting) h =
    stub_edges-AreDownward n (set_parent_row x.edge_id k_row_boundary edges) waiting (
      set_parent_row-All (IsDownward n) x.edge_id k_row_boundary edges (λ edge p. (p.0, inl refl))
        h)

pub stub_all-AreDownward :
    (n : ℕ) (edges : List Edge) (pending : Pending)
    → AreDownward n edges
    → AreDownward n (stub_all edges pending)
unfolding stub_all
stub_all-AreDownward n edges [] h = h
stub_all-AreDownward n edges ((oid, waiting) ∷ pending) h =
    stub_all-AreDownward n (stub_edges edges waiting) pending
      (stub_edges-AreDownward n edges waiting h)
