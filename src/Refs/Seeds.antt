-- ===== src/Refs/Seeds.antt =====
-- src/core/git/RefStore.cpp: the names that a history walk starts from, as they are pushed.
pub mod Start
use git_branch_manager.Base.Text.{Bytes, codes, bytes_eq, bytes_eq_iff}
use git_branch_manager.Base.{
  ◌≢◌, All-map, if◌then◌else◌, Bool, true, false, ◌||◌, List, [], ◌∷◌, ◌++◌, ◌≡◌, refl, arith, All,
  All-append, Bool-cases, inl, inr, ◌⊎◌, is_empty, ap, ◌∙◌, sym, append_assoc, append-nil,
}
use git_branch_manager.Refs.Names.{
  has_seed, push_seed, push_if, seed_of, wants_upstream, head_seed, upstream_seeds, trunk_seeds,
  trunks, history_seed_refs, ref_exists,
}
use git_branch_manager.Refs.{RefInfo, HeadInfo, HeadKind, branch, detached, unborn, RefSnapshot}

-- The same, as the code tests it.
abbrev pub IsFound : RefSnapshot → Bytes → Type 0
IsFound s seed = (has_seed (head_seed s.head) seed ≡ true) ⊎ (ref_exists s.refs seed ≡ true)

abbrev pub AreDistinct : List Bytes → Type 0
AreDistinct [] = Unit
AreDistinct (seed ∷ seeds) =
    (has_seed seeds seed ≡ false) × (is_empty seed ≡ false) × AreDistinct seeds

pub record IsSeeding (s : RefSnapshot) (seeds : List Bytes) : Type 0 where
  pub known : All (IsFound s) seeds
  pub distinct : AreDistinct seeds

bytes_eq_sym : (a b : Bytes) → bytes_eq a b ≡ bytes_eq b a
unfolding bytes_eq
bytes_eq_sym [] [] = refl
bytes_eq_sym [] (y ∷ b) = refl
bytes_eq_sym (x ∷ a) [] = refl
bytes_eq_sym (x ∷ a) (y ∷ b) = ground (arith, bytes_eq_sym a b)

has_seed-snoc :
    (seeds : List Bytes) (v w : Bytes)
    → has_seed (seeds ++ v ∷ []) w ≡ (has_seed seeds w || bytes_eq v w)
has_seed-snoc [] v w = ground arith
has_seed-snoc (x ∷ seeds) v w = ground (arith, has_seed-snoc seeds v w)

AreDistinct-snoc :
    (seeds : List Bytes) (v : Bytes)
    → AreDistinct seeds
    → has_seed seeds v ≡ false
    → is_empty v ≡ false
    → AreDistinct (seeds ++ v ∷ [])
AreDistinct-snoc [] v h k e = (refl, e, tt)
AreDistinct-snoc (x ∷ seeds) v h k e =
    let (fresh, full, rest) = h in
    (
      ground (arith, fresh, k, has_seed-snoc seeds v x, bytes_eq_sym x v),
      full,
      AreDistinct-snoc seeds v rest (ground (arith, k)) e,
    )

push_seed-IsSeeding :
    (s : RefSnapshot) (seeds : List Bytes) (v : Bytes)
    → IsSeeding s seeds
    → IsFound s v
    → IsSeeding s (push_seed seeds v)
unfolding push_seed
push_seed-IsSeeding s seeds v h k = elim (Bool-cases (is_empty v || has_seed seeds v)) [
  | inl spare ↦ rw spare h
  | inr new ↦ rw new (record {
    known = All-append (IsFound s) seeds (v ∷ []) h.known (k, tt);
    distinct = AreDistinct-snoc seeds v h.distinct (ground (arith, new)) (ground (arith, new));
  })
]

push_if-IsSeeding :
    (s : RefSnapshot) (seeds : List Bytes) (v : Bytes) (b : Bool)
    → IsSeeding s seeds
    → (b ≡ true → IsFound s v)
    → IsSeeding s (push_if b seeds v)
push_if-IsSeeding s seeds v true h k = push_seed-IsSeeding s seeds v h (k refl)
push_if-IsSeeding s seeds v false h k = h

pub upstream_seeds-IsSeeding :
    (s : RefSnapshot) (seeds : List Bytes) (refs : List RefInfo)
    → IsSeeding s seeds
    → IsSeeding s (upstream_seeds s.refs seeds refs)
unfolding upstream_seeds
upstream_seeds-IsSeeding s seeds [] h = h
upstream_seeds-IsSeeding s seeds (ref ∷ refs) h =
    upstream_seeds-IsSeeding s (push_if (wants_upstream s.refs ref) seeds ref.upstream) refs (
      push_if-IsSeeding s seeds ref.upstream (wants_upstream s.refs ref) h
        (λ wanted. inr (ground (arith, wanted))))

pub trunk_seeds-IsSeeding :
    (s : RefSnapshot) (seeds rest : List Bytes)
    → IsSeeding s seeds
    → IsSeeding s (trunk_seeds s.refs seeds rest)
unfolding trunk_seeds
trunk_seeds-IsSeeding s seeds [] h = h
trunk_seeds-IsSeeding s seeds (trunk ∷ rest) h =
    trunk_seeds-IsSeeding s (push_if (ref_exists s.refs trunk) seeds trunk) rest
      (push_if-IsSeeding s seeds trunk (ref_exists s.refs trunk) h (λ there. inr there))

bytes_eq_refl : (a : Bytes) → bytes_eq a a ≡ true
unfolding bytes_eq
bytes_eq_refl [] = refl
bytes_eq_refl (x ∷ a) = ground (arith, bytes_eq_refl a)

single-IsSeeding :
    (s : RefSnapshot) (v : Bytes) → head_seed s.head ≡ push_seed [] v → IsSeeding s (push_seed [] v)
unfolding push_seed
single-IsSeeding s v h = elim (Bool-cases (is_empty v)) [
  | inl empty ↦ rw empty (record { known = tt; distinct = tt })
  | inr full ↦
      let one : head_seed s.head ≡ v ∷ [] = ground (arith, h, full) in
      rw full (record {
        known = (inl (rw one (ground (arith, bytes_eq_refl v))), tt);
        distinct = (refl, full, tt);
      })
]

nothing-IsSeeding : (s : RefSnapshot) → IsSeeding s []
nothing-IsSeeding s = record { known = tt; distinct = tt }

kind-IsSeeding :
    (s : RefSnapshot) (k : HeadKind)
    → head_seed s.head ≡ seed_of k s.head
    → IsSeeding s (seed_of k s.head)
kind-IsSeeding s branch h = single-IsSeeding s s.head.full_ref h
kind-IsSeeding s detached h = single-IsSeeding s (codes "HEAD") h
kind-IsSeeding s unborn h = nothing-IsSeeding s

pub head-IsSeeding : (s : RefSnapshot) → IsSeeding s (head_seed s.head)
unfolding head_seed
head-IsSeeding s = kind-IsSeeding s s.head.kind refl
