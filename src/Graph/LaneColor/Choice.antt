-- ===== src/Graph/LaneColor/Choice.antt =====
-- src/core/graph/LaneAllocator.h: the colour of a new lane is a least crowded one.
use git_branch_manager.Base.{
  ℕ, zero, suc, ◌+◌, ◌-◌, ◌*◌, ◌%◌, ◌≤◌, ◌<◌, true, false, List, ◌≡◌, ◌≢◌, ◌⊎◌, refl, arith, Option,
  none, some, ltb, ◌==◌, if◌then◌else◌, Bool-cases, inl, inr,
}
use git_branch_manager.Graph.LaneColor.{
  crowding_of, k_choices, candidate_at, improves, probe, base_color, color_for_seed,
}
use git_branch_manager.Graph.ObjectId.{ObjectId}

abbrev pub IsColor : ℕ → Type 0
IsColor c = (1 ≤ c) × (c ≤ k_choices)

candidate_at-IsColor : (base step : ℕ) → IsColor (candidate_at base step)
unfolding candidate_at
candidate_at-IsColor base step = ground arith

-- The step at which a colour is tried.
abbrev step_of : ℕ → ℕ → ℕ
step_of base c =
    let d = (c + k_choices - base) % k_choices in if ltb d 6 then d * 2 else (k_choices - d) * 2 - 1

-- The eleven steps try every colour.
candidate_at-step_of :
    (base c : ℕ)
    → IsColor base
    → IsColor c
    → (step_of base c < k_choices) × (candidate_at base (step_of base c) ≡ c)
unfolding candidate_at
candidate_at-step_of base c hb hc = ground arith

module _ (crowding : ℕ → ℕ) (base : ℕ) where
  -- What is known of the best candidate so far.
  abbrev IsBest : ℕ → Option ℕ → Type 0
  IsBest best none = Unit
  IsBest best (some penalty) = penalty ≡ crowding best

  abbrev NoWorse : ℕ → Option ℕ → Type 0
  NoWorse r none = Unit
  NoWorse r (some penalty) = crowding r ≤ penalty

  record IsLeast (r from to : ℕ) (best_penalty : Option ℕ) : Type 0 where
    colored : IsColor r
    least : (k : ℕ) → from ≤ k → k < to → crowding r ≤ crowding (candidate_at base k)
    no_worse : NoWorse r best_penalty

  IsLeast-cons :
      (r from to p : ℕ) (best_penalty : Option ℕ)
      → IsLeast r (from + 1) to (some p)
      → p ≤ crowding (candidate_at base from)
      → NoWorse r best_penalty
      → IsLeast r from to best_penalty
  IsLeast-cons r from to p best_penalty l here nw = record {
    colored = l.colored;
    least = λ k a b. elim (Bool-cases (k == from)) [
      | inl same ↦ let e : k ≡ from = ground arith in rw e (omega (arith, l.no_worse, here))
      | inr other ↦ l.least k (ground arith) b
    ];
    no_worse = nw;
  }

  clear-IsLeast :
      (step to : ℕ) (bp : Option ℕ)
      → crowding (candidate_at base step) ≡ 0
      → IsLeast (candidate_at base step) step to bp
  clear-IsLeast step to none clear = record {
    colored = candidate_at-IsColor base step;
    least = λ k a b. omega arith;
    no_worse = tt;
  }
  clear-IsLeast step to (some p) clear = record {
    colored = candidate_at-IsColor base step;
    least = λ k a b. omega arith;
    no_worse = omega arith;
  }

  better-IsLeast :
      (r step to : ℕ) (bp : Option ℕ)
      → improves (crowding (candidate_at base step)) bp ≡ true
      → IsLeast r (step + 1) to (some (crowding (candidate_at base step)))
      → IsLeast r step to bp
  better-IsLeast r step to none better l = IsLeast-cons r step to _ none l (omega arith) tt
  better-IsLeast r step to (some p) better l =
      IsLeast-cons r step to _ (some p) l (omega arith) (ground (arith, l.no_worse))

  same-IsLeast :
      (r step to : ℕ) (bp : Option ℕ)
      → improves (crowding (candidate_at base step)) bp ≡ false
      → IsLeast r (step + 1) to bp
      → IsLeast r step to bp
  same-IsLeast r step to none same l = cc
  same-IsLeast r step to (some p) same l =
      IsLeast-cons r step to p (some p) l (ground arith) l.no_worse

  probe-IsLeast :
      (rounds step to best : ℕ) (best_penalty : Option ℕ)
      → step + rounds ≡ to
      → IsColor best
      → IsBest best best_penalty
      → IsLeast (probe crowding base rounds step best best_penalty) step to best_penalty
  unfolding probe
  probe-IsLeast zero step to best none e c b = record {
    colored = c;
    least = λ k x y. absurd (omega arith);
    no_worse = tt;
  }
  probe-IsLeast zero step to best (some p) e c b = record {
    colored = c;
    least = λ k x y. absurd (omega arith);
    no_worse = omega arith;
  }
  probe-IsLeast (suc rounds) step to best bp e c b =
      let candidate = candidate_at base step in
      let penalty = crowding candidate in
      let colored = candidate_at-IsColor base step in
      elim (Bool-cases (penalty == 0)) [
        | inl clear ↦ rw clear (clear-IsLeast step to bp (ground arith))
        | inr crowded ↦ elim (Bool-cases (improves penalty bp)) [
          | inl better ↦
              rw (crowded, better)
                (better-IsLeast _ step to bp better (
                  probe-IsLeast rounds (step + 1) to candidate (some penalty) (omega arith) colored
                    refl))
          | inr same ↦
              rw (crowded, same)
                (same-IsLeast _ step to bp same
                  (probe-IsLeast rounds (step + 1) to best bp (omega arith) c b))
        ]
      ]

probe-clear :
    (crowding : ℕ → ℕ) (base rounds best : ℕ) (bp : Option ℕ)
    → IsColor base
    → crowding base ≡ 0
    → probe crowding base (suc rounds) 0 best bp ≡ base
unfolding probe
probe-clear crowding base rounds best bp c clear =
    let first : candidate_at base 0 ≡ base = unfold candidate_at in omega arith in rw (first, clear)

base_color-IsColor : (oid : ObjectId) → IsColor (base_color oid)
base_color-IsColor oid = (omega arith, omega arith)

-- Outside the trunk's lane 0 the colour chosen is one of 1 to 11, no colour of 1 to 11 is less
-- crowded by the lanes in the window, and it is the one that the seed's hash asks for unless that
-- one is crowded.
pub color_for_seed_least :
    (lane : ℕ) (oid : ObjectId) (left right : List (Option ℕ))
    → lane ≢ 0
    → let r = color_for_seed lane oid left right in
      IsColor r
      × ((c : ℕ) → IsColor c → crowding_of r left right ≤ crowding_of c left right)
      × ((r ≡ base_color oid) ⊎ (0 < crowding_of (base_color oid) left right))
unfolding color_for_seed
color_for_seed_least lane oid left right ne =
    let base = base_color oid in
    let colored = base_color-IsColor oid in
    let crowding = λ (c : ℕ). crowding_of c left right in
    let chosen = probe-IsLeast crowding base 11 0 11 base none (omega arith) colored tt in
    let other : (lane == 0) ≡ false = ground arith in
    rw other (
      chosen.colored,
      λ c known.
          let at = candidate_at-step_of base c colored known in
          omega (arith, rw at.1 at (chosen.least (step_of base c) (omega arith) at.0)),
      elim (Bool-cases (crowding_of base left right == 0)) [
        | inl clear ↦ inl (probe-clear crowding base 10 base none colored (ground (arith, clear)))
        | inr crowded ↦ inr (ground (arith, crowded))
      ],
    )
