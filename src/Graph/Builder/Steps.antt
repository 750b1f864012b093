-- ===== src/Graph/Builder/Steps.antt =====
-- src/core/graph/GraphBuilder.cpp: each part of `add` keeps the lanes live.
use git_branch_manager.Base.{
  ℕ, ◌+◌, ◌<◌, Bool, true, false, not, ◌&&◌, List, [], ◌∷◌, ◌≡◌, ◌≢◌, ◌⊎◌, refl, arith, ◌==◌,
  if◌then◌else◌, List-cases, inl, inr, ap,
}
use git_branch_manager.Graph.Builder.Live.{
  in_lane, total, total-erase, choose_lane-in_lane, IsLive, IsOpen,
}
use git_branch_manager.Graph.Builder.{drop_reference, patch_references, release_incoming, place}
use git_branch_manager.Graph.LaneAllocator.Lowest.{Allocates, allocate_leftmost-Allocates}
use git_branch_manager.Graph.LaneAllocator.{LaneAllocator, is_overflow, release, seed}
use git_branch_manager.Graph.ObjectId.{ObjectId}
use git_branch_manager.Graph.Pending.{PendingEdge, Pending, waiting_for, choose_lane}
use git_branch_manager.Graph.Types.{k_max_lanes}

-- The counts fall by the edges that are closed.
pub patch_references-lem :
    (es : List PendingEdge) (refs : ℕ → ℕ) (l rest : ℕ)
    → l < k_max_lanes
    → refs l ≡ in_lane l es + rest
    → patch_references refs es l ≡ rest
unfolding patch_references drop_reference
patch_references-lem [] refs l rest h e = omega arith
patch_references-lem (x ∷ es) refs l rest h e =
    patch_references-lem es (drop_reference refs x.lane) l rest h (ground arith)

-- A release spares the chosen lane and every lane in which an edge descends.
pub release_incoming-keeps :
    (es : List PendingEdge) (lanes : LaneAllocator) (refs : ℕ → ℕ) (lane l : ℕ)
    → lanes.used l ≡ true
    → (l ≡ lane) ⊎ (0 < refs l)
    → (release_incoming lanes refs lane es).used l ≡ true
unfolding release_incoming release
release_incoming-keeps [] lanes refs lane l u k = u
release_incoming-keeps (x ∷ es) lanes refs lane l u k =
    release_incoming-keeps es
      (if not (x.lane == lane) && not (is_overflow x.lane) && refs x.lane == 0
        then release lanes x.lane
        else lanes)
      refs lane l (ground arith) k

pub seed-used :
    (lanes : LaneAllocator) (lane : ℕ) (oid : ObjectId) → (seed lanes lane oid).used ≡ lanes.used
unfolding seed
seed-used lanes lane oid = ground arith

-- An allocation keeps what is used, and gives an open lane.
pub Allocates-IsOpen :
    (awaited : Bool) (lanes : LaneAllocator) (start : ℕ) (r : LaneAllocator × ℕ)
    → Allocates lanes start r
    → (awaited ≡ true → lanes.used 0 ≡ true)
    → ((l : ℕ) → lanes.used l ≡ true → r.0.used l ≡ true) × IsOpen awaited r.0 r.1
Allocates-IsOpen awaited lanes start r (inl (e, full)) w =
    let same : r.0.used ≡ lanes.used = ap (λ t. t.0.used) e in
    let over : r.1 ≡ k_max_lanes = ap (λ t. t.1) e in
    (
      λ l h. rw same h,
      record { in_use = λ h. absurd (omega arith); not_held = λ h z. absurd (omega arith) },
    )
Allocates-IsOpen awaited lanes start r (inr (low, marks)) w = (
  λ l h. rw marks (ground (arith, h)),
  record { in_use = λ h. rw marks (ground arith); not_held = λ h z. cc (rw z at low.free, w h) },
)

-- The same, with the lane seeded.
pub seeded :
    (awaited : Bool) (lanes : LaneAllocator) (r : LaneAllocator × ℕ) (oid : ObjectId)
    → ((l : ℕ) → lanes.used l ≡ true → r.0.used l ≡ true) × IsOpen awaited r.0 r.1
    → ((l : ℕ) → lanes.used l ≡ true → (seed r.0 r.1 oid).used l ≡ true)
      × IsOpen awaited (seed r.0 r.1 oid) r.1
seeded awaited lanes r oid (grows, o) = (
  λ l h. rw (seed-used r.0 r.1 oid) (grows l h),
  record { in_use = λ h. rw (seed-used r.0 r.1 oid) (o.in_use h); not_held = o.not_held },
)

-- The result of a choice of a lane: nothing that is used is freed, and the lane is open.
abbrev pub Keeps : Bool → LaneAllocator → LaneAllocator × ℕ → Type 0
Keeps awaited lanes r = ((l : ℕ) → lanes.used l ≡ true → r.0.used l ≡ true) × IsOpen awaited r.0 r.1

-- A lane in which an edge descends is open.
pub busy-IsOpen :
    (awaited : Bool) (m : Pending) (refs : ℕ → ℕ) (lanes : LaneAllocator) (lane : ℕ)
    → IsLive awaited m refs lanes
    → 0 < total lane m
    → IsOpen awaited lanes lane
busy-IsOpen awaited m refs lanes lane v busy = record {
  in_use = λ h. v.held lane h busy;
  not_held = λ w z. absurd (omega (arith, rw z at busy, (v.vacant w).1));
}

-- The lane chosen from the edges that wait for a commit has an edge.
waiting-busy :
    (oid : ObjectId) (m : Pending)
    → waiting_for oid m ≢ []
    → 0 < total (choose_lane (waiting_for oid m)) m
waiting-busy oid m h =
    let lane = choose_lane (waiting_for oid m) in
    omega (arith, total-erase lane oid m, choose_lane-in_lane (waiting_for oid m) h)

-- The lane of a commit other than HEAD's tip.
place-other :
    (awaited : Bool) (m : Pending) (refs : ℕ → ℕ) (lanes : LaneAllocator) (oid : ObjectId)
    → IsLive awaited m refs lanes
    → Keeps awaited lanes (place lanes false oid (waiting_for oid m))
unfolding place
place-other awaited m refs lanes oid v = elim (List-cases (waiting_for oid m)) [
  | inl none_wait ↦ rw none_wait (
      seeded awaited lanes _ oid (
        Allocates-IsOpen awaited lanes 0 _ (allocate_leftmost-Allocates lanes)
          (λ w. (v.vacant w).0)))
  | inr (x, xs, some_wait) ↦
      let busy = waiting-busy oid m (λ none_wait. absurd (ground (arith, none_wait, some_wait))) in
      rw some_wait
        (λ l h. h, busy-IsOpen awaited m refs lanes (choose_lane (x ∷ xs)) v (rw some_wait at busy))
]

-- The lane of HEAD's tip, which is awaited no longer.
place-tip :
    (m : Pending) (refs : ℕ → ℕ) (lanes : LaneAllocator) (oid : ObjectId)
    (incoming : List PendingEdge)
    → IsLive true m refs lanes
    → Keeps false lanes (place lanes true oid incoming)
unfolding place
place-tip m refs lanes oid incoming v = (
  λ l h. rw (seed-used lanes 0 oid) h,
  record {
    in_use = λ h. rw (seed-used lanes 0 oid) (v.vacant refl).0;
    not_held = λ w. absurd (ground arith);
  },
)

pub place-Keeps :
    (awaited is_tip : Bool) (m : Pending) (refs : ℕ → ℕ) (lanes : LaneAllocator) (oid : ObjectId)
    → IsLive awaited m refs lanes
    → (is_tip ≡ true → awaited ≡ true)
    → Keeps (awaited && not is_tip) lanes (place lanes is_tip oid (waiting_for oid m))
place-Keeps true true m refs lanes oid v h = place-tip m refs lanes oid _ v
place-Keeps false true m refs lanes oid v h = absurd (ground (arith, h refl))
place-Keeps true false m refs lanes oid v h = place-other true m refs lanes oid v
place-Keeps false false m refs lanes oid v h = place-other false m refs lanes oid v
