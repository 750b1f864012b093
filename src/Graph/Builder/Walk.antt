-- ===== src/Graph/Builder/Walk.antt =====
-- src/core/graph/GraphBuilder.h: the lanes of a builder that a whole walk was added to, as
-- src/core/git/HistoryProvider.cpp adds it, one commit after the other.
use git_branch_manager.Base.{
  ℕ, ◌+◌, ◌≤◌, ◌<◌, Bool, true, false, not, ◌&&◌, List, [], ◌∷◌, ◌≡◌, ◌⊎◌, refl, arith, ltb, leb,
  if◌then◌else◌, Bool-cases, inl, inr, ◌∙◌, length,
}
use git_branch_manager.Graph.Builder.Live.{total}
use git_branch_manager.Graph.Builder.Adds.{IsLiveBuilder, still_awaited, add-IsLive}
use git_branch_manager.Graph.Builder.{
  GraphOptions, GraphBuilder, make, settle, patch_incoming, open_edge, open_merge_edge,
  open_merge_edges, end_column, open_edges, push_row, add,
}
use git_branch_manager.Graph.LaneAllocator.{reserve, mark_used}
use git_branch_manager.Graph.ObjectId.{ObjectId, is_null, id_eq}
use git_branch_manager.Graph.Types.{k_max_lanes, EdgeKind}

-- The arguments of one call of `add`.
pub record Commit : Type 0 where
  pub oid : ObjectId
  pub parents : List ObjectId
  pub commit_time : ℕ

unfoldable pub add_all : GraphBuilder → List Commit → GraphBuilder
add_all b [] = b
add_all b (c ∷ commits) = add_all (add b c.oid c.parents c.commit_time) commits

-- How often HEAD's tip is in the walk.
abbrev pub tips : GraphOptions → List Commit → ℕ
tips options [] = 0
tips options (c ∷ commits) =
    (if not (is_null options.trunk_tip) && id_eq c.oid options.trunk_tip then 1 else 0)
    + tips options commits

-- The options stay.
open_merge_edges-options :
    (b : GraphBuilder) (row lane : ℕ) (kind : EdgeKind) (parents : List ObjectId) (slot : ℕ)
    → (open_merge_edges b row lane kind parents slot).options ≡ b.options
unfolding open_merge_edges open_merge_edge open_edge
open_merge_edges-options b row lane kind [] slot = refl
open_merge_edges-options b row lane kind (parent ∷ parents) slot =
    open_merge_edges-options (open_merge_edge b row lane kind parent slot) row lane kind parents
      (slot + 1)

open_edges-options :
    (b : GraphBuilder) (row lane color offset : ℕ) (parents : List ObjectId)
    → (open_edges b row lane color offset parents).options ≡ b.options
unfolding open_edges end_column open_edge
open_edges-options b row lane color offset [] = ground arith
open_edges-options b row lane color offset (parent ∷ parents) =
    open_merge_edges-options _ row lane _ parents (offset + 1)

add-options :
    (b : GraphBuilder) (oid : ObjectId) (parents : List ObjectId) (time : ℕ)
    → (add b oid parents time).options ≡ b.options
unfolding add push_row settle patch_incoming
add-options b oid parents time =
    elim (Bool-cases (leb b.options.max_rows (length b.snapshot.rows))) [
      | inl full ↦ rw full refl
      | inr fits ↦ rw fits (open_edges-options _ (length b.snapshot.rows) _ _ _ parents)
    ]

pub add_all-options :
    (b : GraphBuilder) (commits : List Commit) → (add_all b commits).options ≡ b.options
unfolding add_all
add_all-options b [] = refl
add_all-options b (c ∷ commits) =
    add_all-options (add b c.oid c.parents c.commit_time) commits
    ∙ add-options b c.oid c.parents c.commit_time

abbrev budget : Bool → ℕ
budget awaited = if awaited then 1 else 0

-- After the walk HEAD's tip is awaited if it was and the walk does not have it.
add_all-IsLive :
    (awaited : Bool) (b : GraphBuilder) (commits : List Commit)
    → IsLiveBuilder awaited b
    → tips b.options commits ≤ budget awaited
    → (after : Bool) × IsLiveBuilder after (add_all b commits)
      × (tips b.options commits ≡ 0 → after ≡ awaited)
unfolding add_all
add_all-IsLive awaited b [] v h = (awaited, v, λ e. refl)
add_all-IsLive awaited b (c ∷ commits) v h =
    let later = add b c.oid c.parents c.commit_time in
    let same : later.options ≡ b.options = add-options b c.oid c.parents c.commit_time in
    let next = still_awaited awaited b c.oid in
    let (after, live, kept) =
      add_all-IsLive next later commits
        (add-IsLive awaited b c.oid c.parents c.commit_time v (ground (arith, h)))
        (rw same (ground (arith, h))) in
    (after, live, λ e. kept (rw same (omega arith)) ∙ ground (arith, e))

make-IsLive :
    (options : GraphOptions) → IsLiveBuilder (not (is_null options.trunk_tip)) (make options)
unfolding make reserve mark_used
make-IsLive options = record {
  counted = λ l h. refl;
  held = λ l h busy. absurd (omega arith);
  vacant = λ w. ground (arith, w);
}

-- Without a tip none is counted.
null-tips :
    (options : GraphOptions) (commits : List Commit)
    → is_null options.trunk_tip ≡ true
    → tips options commits ≡ 0
null-tips options [] e = refl
null-tips options (c ∷ commits) e = ground (arith, e, null-tips options commits e)

-- What the walk of a fresh builder leaves.
walk-IsLive :
    (options : GraphOptions) (commits : List Commit)
    → tips options commits ≤ 1
    → (after : Bool) × IsLiveBuilder after (add_all (make options) commits)
      × (tips options commits ≡ 0 → after ≡ not (is_null options.trunk_tip))
unfolding make
walk-IsLive options commits h =
    let start = not (is_null options.trunk_tip) in
    add_all-IsLive start (make options) commits (make-IsLive options)
      (ground (arith, h, null-tips options commits))

-- A walk that has HEAD's tip at most once leaves lanes that fit the edges waiting for a parent:
-- below the overflow lane, each lane's reference count is the number of waiting edges in it, and
-- the lane is in use unless there is none, so it is not given to another branch meanwhile.
pub add_all-lanes :
    (options : GraphOptions) (commits : List Commit) (lane : ℕ)
    → tips options commits ≤ 1
    → lane < k_max_lanes
    → ((add_all (make options) commits).lane_ref_count lane
        ≡ total lane (add_all (make options) commits).pending)
      × ((total lane (add_all (make options) commits).pending ≡ 0)
          ⊎ ((add_all (make options) commits).lanes.used lane ≡ true))
add_all-lanes options commits lane h below =
    let (after, live, kept) = walk-IsLive options commits h in
    let b = add_all (make options) commits in
    (
      live.counted lane below,
      elim (Bool-cases (ltb 0 (total lane b.pending))) [
        | inl busy ↦ inr (live.held lane below (ground arith))
        | inr idle ↦ inl (ground arith)
      ],
    )

-- Until the walk reaches HEAD's known tip, lane 0 is held for it and no waiting edge is in it.
pub add_all-lane_zero :
    (options : GraphOptions) (commits : List Commit)
    → is_null options.trunk_tip ≡ false
    → tips options commits ≡ 0
    → ((add_all (make options) commits).lanes.used 0 ≡ true)
      × (total 0 (add_all (make options) commits).pending ≡ 0)
add_all-lane_zero options commits known absent =
    let (after, live, kept) = walk-IsLive options commits (omega arith) in
    live.vacant (kept absent ∙ ground (arith, known))
