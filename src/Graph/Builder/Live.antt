-- ===== src/Graph/Builder/Live.antt =====
-- src/core/graph/GraphBuilder.cpp: how many edges descend in a lane, over the map of waiting edges.
use git_branch_manager.Base.{
  ℕ, ◌+◌, ◌<◌, Bool, true, List, [], ◌∷◌, ◌++◌, ◌≡◌, ◌≢◌, refl, arith, ◌==◌, min, if◌then◌else◌,
  Bool-cases, inl, inr,
}
use git_branch_manager.Graph.Builder.{add_reference}
use git_branch_manager.Graph.LaneAllocator.{LaneAllocator}
use git_branch_manager.Graph.Types.{k_max_lanes}
use git_branch_manager.Graph.ObjectId.{ObjectId}
use git_branch_manager.Graph.Pending.{
  PendingEdge, Pending, waiting_for, erase, push_pending, best_edge, choose_lane, lowest_lane,
}

-- The edges of a list, and those of the map, that descend in lane `l`.
abbrev pub in_lane : ℕ → List PendingEdge → ℕ
in_lane l [] = 0
in_lane l (e ∷ es) = (if e.lane == l then 1 else 0) + in_lane l es

abbrev pub total : ℕ → Pending → ℕ
total l [] = 0
total l ((key, es) ∷ m) = in_lane l es + total l m

pub in_lane-append :
    (l : ℕ) (a b : List PendingEdge) → in_lane l (a ++ b) ≡ in_lane l a + in_lane l b
in_lane-append l [] b = omega arith
in_lane-append l (e ∷ a) b = omega (arith, in_lane-append l a b)

pub total-erase :
    (l : ℕ) (oid : ObjectId) (m : Pending)
    → in_lane l (waiting_for oid m) + total l (erase oid m) ≡ total l m
unfolding waiting_for erase
total-erase l oid [] = omega arith
total-erase l oid ((key, es) ∷ m) = ground (arith, total-erase l oid m)

pub total-push :
    (l : ℕ) (oid : ObjectId) (e : PendingEdge) (m : Pending)
    → total l (push_pending oid e m) ≡ total l m + (if e.lane == l then 1 else 0)
unfolding push_pending
total-push l oid e [] = omega arith
total-push l oid e ((key, es) ∷ m) =
    ground (arith, total-push l oid e m, in_lane-append l es (e ∷ []))

-- The lanes that are picked from a list of edges are lanes of edges of the list.
best_edge-in_lane :
    (es : List PendingEdge) (best : PendingEdge) → 0 < in_lane (best_edge best es).lane (best ∷ es)
unfolding best_edge
best_edge-in_lane [] best = ground arith
best_edge-in_lane (e ∷ es) best = ground (arith, best_edge-in_lane es e, best_edge-in_lane es best)

pub choose_lane-in_lane : (es : List PendingEdge) → es ≢ [] → 0 < in_lane (choose_lane es) es
unfolding choose_lane
choose_lane-in_lane [] h = absurd (h refl)
choose_lane-in_lane (e ∷ es) h = best_edge-in_lane es e

lowest_lane-in_lane :
    (es : List PendingEdge) (lane : ℕ)
    → lowest_lane lane es ≢ lane
    → 0 < in_lane (lowest_lane lane es) es
unfolding lowest_lane
lowest_lane-in_lane [] lane h = absurd (h refl)
lowest_lane-in_lane (e ∷ es) lane h =
    elim (Bool-cases (lowest_lane (min lane e.lane) es == min lane e.lane)) [
      | inl same ↦ ground arith
      | inr other ↦ ground (arith, lowest_lane-in_lane es (min lane e.lane))
    ]

pub lowest_lane-front :
    (front : PendingEdge) (es : List PendingEdge)
    → 0 < in_lane (lowest_lane front.lane es) (front ∷ es)
lowest_lane-front front es = ground (arith, lowest_lane-in_lane es front.lane)

-- What holds of the map, the reference counts and the allocator between two rows: the counts are
-- right, and a lane in which an edge descends is in use. While HEAD's tip is awaited, lane 0 is
-- held and no edge descends in it.
pub record IsLive (awaited : Bool) (m : Pending) (refs : ℕ → ℕ) (lanes : LaneAllocator)
    : Type 0 where
  pub counted : (l : ℕ) → l < k_max_lanes → refs l ≡ total l m
  pub held : (l : ℕ) → l < k_max_lanes → 0 < total l m → lanes.used l ≡ true
  pub vacant : awaited ≡ true → (lanes.used 0 ≡ true) × (total 0 m ≡ 0)

-- A lane that an edge may descend in.
pub record IsOpen (awaited : Bool) (lanes : LaneAllocator) (lane : ℕ) : Type 0 where
  pub in_use : lane < k_max_lanes → lanes.used lane ≡ true
  pub not_held : awaited ≡ true → lane ≢ 0

-- One more edge in an open lane.
pub push-IsLive :
    (awaited : Bool) (m : Pending) (refs : ℕ → ℕ) (lanes : LaneAllocator) (oid : ObjectId)
    (e : PendingEdge)
    → IsLive awaited m refs lanes
    → IsOpen awaited lanes e.lane
    → IsLive awaited (push_pending oid e m) (add_reference refs e.lane) lanes
unfolding add_reference
push-IsLive awaited m refs lanes oid e v o = record {
  counted = λ l h. ground (arith, v.counted l h, total-push l oid e m);
  held = λ l h k. ground (arith, v.held l h, total-push l oid e m, o.in_use);
  vacant = λ w. ground (arith, v.vacant w, total-push 0 oid e m, o.not_held w);
}

-- Marking more lanes used keeps it.
pub grow-IsLive :
    (awaited : Bool) (m : Pending) (refs : ℕ → ℕ) (lanes more : LaneAllocator)
    → ((l : ℕ) → lanes.used l ≡ true → more.used l ≡ true)
    → IsLive awaited m refs lanes
    → IsLive awaited m refs more
grow-IsLive awaited m refs lanes more grows v = record {
  counted = v.counted;
  held = λ l h k. grows l (v.held l h k);
  vacant = λ w. (grows 0 (v.vacant w).0, (v.vacant w).1);
}
