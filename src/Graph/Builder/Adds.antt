-- ===== src/Graph/Builder/Adds.antt =====
-- src/core/graph/GraphBuilder.cpp: `add` keeps the lanes live.
use git_branch_manager.Base.{
  ℕ, ◌+◌, ◌<◌, Bool, true, false, not, ◌&&◌, List, [], ◌∷◌, ◌≡◌, refl, arith, ◌==◌, ltb, leb,
  if◌then◌else◌, Bool-cases, List-cases, inl, inr, ◌∙◌, length,
}
use git_branch_manager.Graph.Builder.Live.{
  in_lane, total, total-erase, lowest_lane-front, IsLive, IsOpen, push-IsLive, grow-IsLive,
}
use git_branch_manager.Graph.Builder.Steps.{
  patch_references-lem, release_incoming-keeps, Allocates-IsOpen, seeded, busy-IsOpen, Keeps,
  place-Keeps,
}
use git_branch_manager.Graph.Builder.{
  GraphBuilder, patch_references, release_incoming, merge_lane, settle, patch_incoming,
  is_trunk_tip, open_edge, open_merge_edge, open_merge_edges, end_column, open_edges, push_row, add,
}
use git_branch_manager.Graph.LaneAllocator.Lowest.{
  allocate_after-Allocates, allocate_after-overflow,
}
use git_branch_manager.Graph.LaneAllocator.{LaneAllocator, is_overflow, allocate_after, release}
use git_branch_manager.Graph.ObjectId.{ObjectId}
use git_branch_manager.Graph.Pending.{PendingEdge, Pending, waiting_for, erase, lowest_lane}
use git_branch_manager.Graph.Types.{k_max_lanes, EdgeKind, Edge}

-- A release spares a lane that none of the edges is in.
release_incoming-spares :
    (es : List PendingEdge) (lanes : LaneAllocator) (refs : ℕ → ℕ) (lane l : ℕ)
    → in_lane l es ≡ 0
    → (release_incoming lanes refs lane es).used l ≡ lanes.used l
unfolding release_incoming release
release_incoming-spares [] lanes refs lane l h = refl
release_incoming-spares (x ∷ es) lanes refs lane l h =
    let rest =
      release_incoming-spares es
        (if not (x.lane == lane) && not (is_overflow x.lane) && refs x.lane == 0
          then release lanes x.lane
          else lanes)
        refs lane l (ground (arith, h)) in
    ground (arith, rest, h)

-- The lanes of a builder, with HEAD's tip awaited or not.
abbrev pub IsLiveBuilder : Bool → GraphBuilder → Type 0
IsLiveBuilder awaited b = IsLive awaited b.pending b.lane_ref_count b.lanes

-- The edges of a commit close, and its lane is open for what follows.
settle-lem :
    (awaited is_tip : Bool) (m : Pending) (refs : ℕ → ℕ) (lanes : LaneAllocator) (oid : ObjectId)
    (placed : LaneAllocator × ℕ)
    → IsLive awaited m refs lanes
    → Keeps (awaited && not is_tip) lanes placed
    → IsLive (awaited && not is_tip) (erase oid m) (patch_references refs (waiting_for oid m)) (
        release_incoming placed.0
          (patch_references refs (waiting_for oid m))
          placed.1
          (waiting_for oid m))
      × IsOpen
          (awaited && not is_tip)
          (release_incoming placed.0
            (patch_references refs (waiting_for oid m))
            placed.1
            (waiting_for oid m))
          placed.1
settle-lem awaited is_tip m refs lanes oid placed v (grows, o) =
    let incoming = waiting_for oid m in
    let refs' = patch_references refs incoming in
    let counted : (l : ℕ) → l < k_max_lanes → refs' l ≡ total l (erase oid m) = λ l h.
      patch_references-lem incoming refs l _ h
        (omega (arith, v.counted l h, total-erase l oid m)) in
    (
      record {
        counted = counted;
        held = λ l h busy.
            release_incoming-keeps incoming placed.0 refs' placed.1 l
              (grows l (v.held l h (omega (arith, total-erase l oid m))))
              (inr (omega (arith, counted l h)));
        vacant = λ w.
            let still : awaited ≡ true = ground (arith, w) in
            let none_there = (v.vacant still).1 in
            let parts = total-erase 0 oid m in
            (
              release_incoming-spares incoming placed.0 refs' placed.1 0 (omega arith)
                  ∙ grows 0 (v.vacant still).0,
              omega arith,
            );
      },
      record {
        in_use = λ h.
            release_incoming-keeps incoming placed.0 refs' placed.1 placed.1 (o.in_use h)
              (inl refl);
        not_held = o.not_held;
      },
    )

-- A fresh lane right of another, the overflow lane if there is none.
after-Keeps :
    (awaited : Bool) (lanes : LaneAllocator) (lane : ℕ)
    → (awaited ≡ true → lanes.used 0 ≡ true)
    → Keeps awaited lanes (allocate_after lanes lane)
after-Keeps awaited lanes lane w = elim (Bool-cases (ltb lane k_max_lanes)) [
  | inl inside ↦
      Allocates-IsOpen awaited lanes (lane + 1) _
        (allocate_after-Allocates lanes lane (ground arith)) w
  | inr past ↦
      let over : allocate_after lanes lane ≡ (lanes, k_max_lanes) =
        allocate_after-overflow lanes lane (ground arith) in
      rw over (
        λ l h. h,
        record { in_use = λ h. absurd (omega arith); not_held = λ h z. absurd (omega arith) },
      )
]

-- The column of a later parent is open.
merge_lane-Keeps :
    (awaited : Bool) (m : Pending) (refs : ℕ → ℕ) (lanes : LaneAllocator) (lane : ℕ)
    (parent : ObjectId)
    → IsLive awaited m refs lanes
    → Keeps awaited lanes (merge_lane lanes lane parent (waiting_for parent m))
unfolding merge_lane
merge_lane-Keeps awaited m refs lanes lane parent v = elim (List-cases (waiting_for parent m)) [
  | inl none_wait ↦
      rw none_wait
        (seeded awaited lanes _ parent (after-Keeps awaited lanes lane (λ w. (v.vacant w).0)))
  | inr (x, xs, some_wait) ↦
      let busy : 0 < total (lowest_lane x.lane xs) m = omega (
        arith,
        rw some_wait at (total-erase (lowest_lane x.lane xs) parent m),
        lowest_lane-front x xs,
      ) in
      rw some_wait (λ l h. h, busy-IsOpen awaited m refs lanes (lowest_lane x.lane xs) v busy)
]

live-open_edge :
    (awaited : Bool) (b : GraphBuilder) (parent : ObjectId) (edge : Edge) (slot : ℕ) (first : Bool)
    → IsLiveBuilder awaited b
    → IsOpen awaited b.lanes edge.lane
    → IsLiveBuilder awaited (open_edge b parent edge slot first)
unfolding open_edge
live-open_edge awaited b parent edge slot first v o =
    push-IsLive awaited b.pending b.lane_ref_count b.lanes parent _ v o

open_merge_edge-IsLive :
    (awaited : Bool) (b : GraphBuilder) (row lane : ℕ) (kind : EdgeKind) (parent : ObjectId)
    (slot : ℕ)
    → IsLiveBuilder awaited b
    → IsLiveBuilder awaited (open_merge_edge b row lane kind parent slot)
unfolding open_merge_edge
open_merge_edge-IsLive awaited b row lane kind parent slot v =
    let chosen = merge_lane b.lanes lane parent (waiting_for parent b.pending) in
    let (grows, o) = merge_lane-Keeps awaited b.pending b.lane_ref_count b.lanes lane parent v in
    live-open_edge awaited (record b { lanes = chosen.0 }) parent _ slot false
      (grow-IsLive awaited b.pending b.lane_ref_count b.lanes chosen.0 grows v) o

open_merge_edges-IsLive :
    (awaited : Bool) (b : GraphBuilder) (row lane : ℕ) (kind : EdgeKind) (parents : List ObjectId)
    (slot : ℕ)
    → IsLiveBuilder awaited b
    → IsLiveBuilder awaited (open_merge_edges b row lane kind parents slot)
unfolding open_merge_edges
open_merge_edges-IsLive awaited b row lane kind [] slot v = v
open_merge_edges-IsLive awaited b row lane kind (parent ∷ parents) slot v =
    open_merge_edges-IsLive awaited (open_merge_edge b row lane kind parent slot) row lane kind
      parents (slot + 1) (open_merge_edge-IsLive awaited b row lane kind parent slot v)

end_column-IsLive :
    (awaited : Bool) (b : GraphBuilder) (lane : ℕ)
    → IsLiveBuilder awaited b
    → IsOpen awaited b.lanes lane
    → IsLiveBuilder awaited (end_column b lane)
unfolding end_column release
end_column-IsLive awaited b lane v o = record {
  counted = λ l h. ground (arith, v.counted l h);
  held = λ l h busy. ground (arith, v.counted l h, v.held l h, busy);
  vacant = λ w. ground (arith, v.vacant w, o.not_held w);
}

open_edges-IsLive :
    (awaited : Bool) (b : GraphBuilder) (row lane color offset : ℕ) (parents : List ObjectId)
    → IsLiveBuilder awaited b
    → IsOpen awaited b.lanes lane
    → IsLiveBuilder awaited (open_edges b row lane color offset parents)
unfolding open_edges
open_edges-IsLive awaited b row lane color offset [] v o = end_column-IsLive awaited b lane v o
open_edges-IsLive awaited b row lane color offset (parent ∷ parents) v o =
    open_merge_edges-IsLive awaited _ row lane _ parents (offset + 1)
      (live-open_edge awaited b parent _ offset true v o)

-- Whether HEAD's tip is awaited still, after the commit `oid` was added.
abbrev pub still_awaited : Bool → GraphBuilder → ObjectId → Bool
still_awaited awaited b oid =
    if leb b.options.max_rows (length b.snapshot.rows)
    then awaited
    else awaited && not (is_trunk_tip b oid)

settle-IsLive :
    (awaited : Bool) (b : GraphBuilder) (oid : ObjectId)
    → IsLiveBuilder awaited b
    → (is_trunk_tip b oid ≡ true → awaited ≡ true)
    → IsLiveBuilder (awaited && not (is_trunk_tip b oid)) (settle b oid).0
      × IsOpen (awaited && not (is_trunk_tip b oid)) (settle b oid).0.lanes (settle b oid).1
unfolding settle patch_incoming
settle-IsLive awaited b oid v h =
    settle-lem awaited (is_trunk_tip b oid) b.pending b.lane_ref_count b.lanes oid _ v
      (place-Keeps awaited (is_trunk_tip b oid) b.pending b.lane_ref_count b.lanes oid v h)

-- `add` keeps the lanes live, for HEAD's tip when it is still awaited.
pub add-IsLive :
    (awaited : Bool) (b : GraphBuilder) (oid : ObjectId) (parents : List ObjectId) (time : ℕ)
    → IsLiveBuilder awaited b
    → (is_trunk_tip b oid ≡ true → awaited ≡ true)
    → IsLiveBuilder (still_awaited awaited b oid) (add b oid parents time)
unfolding add push_row
add-IsLive awaited b oid parents time v h =
    elim (Bool-cases (leb b.options.max_rows (length b.snapshot.rows))) [
      | inl full ↦ rw full v
      | inr fits ↦
          let (live, o) = settle-IsLive awaited b oid v h in
          rw fits (open_edges-IsLive _ _ (length b.snapshot.rows) _ _ _ parents live o)
    ]
