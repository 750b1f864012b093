-- ===== src/Refs/Seeds/Start.antt =====
-- src/core/git/RefStore.cpp: the names that a history walk starts from are there, each once.
use git_branch_manager.Refs.Seeds.{
  IsFound, AreDistinct, upstream_seeds-IsSeeding, trunk_seeds-IsSeeding, head-IsSeeding,
}
use git_branch_manager.Base.Text.{Bytes, codes, bytes_eq, bytes_eq_iff}
use git_branch_manager.Base.{
  ◌≢◌, All-map, if◌then◌else◌, Bool, true, false, ◌||◌, List, [], ◌∷◌, ◌++◌, ◌≡◌, refl, arith, All,
  Bool-cases, inl, inr, ◌⊎◌, is_empty, ap, ◌∙◌, sym, append_assoc, append-nil,
}
use git_branch_manager.Refs.Names.{
  has_seed, push_seed, push_if, seed_of, wants_upstream, head_seed, upstream_seeds, trunk_seeds,
  trunks, history_seed_refs, ref_exists,
}
use git_branch_manager.Refs.{RefInfo, HeadInfo, HeadKind, branch, detached, unborn, RefSnapshot}

-- The list has the name.
abbrev pub Has : List Bytes → Bytes → Type 0
Has [] name = ⊥
Has (x ∷ xs) name = (x ≡ name) ⊎ Has xs name

-- What HEAD is called in a command: the full name of its branch, "HEAD" if it is detached, and
-- nothing while it has no commit.
abbrev pub own_names : HeadKind → Bytes → List Bytes
own_names branch full_ref = if is_empty full_ref then [] else full_ref ∷ []
own_names detached full_ref = codes "HEAD" ∷ []
own_names unborn full_ref = []

abbrev pub full_names : List RefInfo → List Bytes
full_names [] = []
full_names (ref ∷ refs) = ref.full_name ∷ full_names refs

-- What git can be asked to walk from: HEAD or its ref, or a ref of the snapshot.
abbrev pub IsKnown : RefSnapshot → Bytes → Type 0
IsKnown s seed = Has (own_names s.head.kind s.head.full_ref) seed ⊎ Has (full_names s.refs) seed

-- No name is in the list twice, and none is empty.
abbrev pub AreDifferent : List Bytes → Type 0
AreDifferent [] = Unit
AreDifferent (seed ∷ seeds) = All (λ x. x ≢ seed) seeds × (seed ≢ []) × AreDifferent seeds

-- A list that begins with another.
abbrev Begins : List Bytes → List Bytes → Type 0
Begins start seeds = (rest : List Bytes) × (seeds ≡ start ++ rest)

Begins-push :
    (start seeds : List Bytes) (v : Bytes) (b : Bool)
    → Begins start seeds
    → Begins start (push_if b seeds v)
unfolding push_seed
Begins-push start seeds v false h = h
Begins-push start seeds v true (rest, h) = elim (Bool-cases (is_empty v || has_seed seeds v)) [
  | inl spare ↦ rw spare (rest, h)
  | inr new ↦ rw new (rest ++ v ∷ [], ap (λ l. l ++ v ∷ []) h ∙ append_assoc start rest (v ∷ []))
]

Begins-upstream :
    (all : List RefInfo) (start seeds : List Bytes) (refs : List RefInfo)
    → Begins start seeds
    → Begins start (upstream_seeds all seeds refs)
unfolding upstream_seeds
Begins-upstream all start seeds [] h = h
Begins-upstream all start seeds (ref ∷ refs) h =
    Begins-upstream all start (push_if (wants_upstream all ref) seeds ref.upstream) refs
      (Begins-push start seeds ref.upstream (wants_upstream all ref) h)

Begins-trunk :
    (all : List RefInfo) (start seeds rest : List Bytes)
    → Begins start seeds
    → Begins start (trunk_seeds all seeds rest)
unfolding trunk_seeds
Begins-trunk all start seeds [] h = h
Begins-trunk all start seeds (trunk ∷ rest) h =
    Begins-trunk all start (push_if (ref_exists all trunk) seeds trunk) rest
      (Begins-push start seeds trunk (ref_exists all trunk) h)

has_seed-Has : (seeds : List Bytes) (v : Bytes) → has_seed seeds v ≡ true → Has seeds v
has_seed-Has [] v h = absurd cc
has_seed-Has (x ∷ seeds) v h = elim (Bool-cases (bytes_eq x v)) [
  | inl same ↦ inl ((bytes_eq_iff x v).0 same)
  | inr other ↦ inr (has_seed-Has seeds v (ground (arith, h, other)))
]

ref_exists-Has :
    (refs : List RefInfo) (v : Bytes) → ref_exists refs v ≡ true → Has (full_names refs) v
unfolding ref_exists
ref_exists-Has [] v h = absurd cc
ref_exists-Has (r ∷ refs) v h = elim (Bool-cases (bytes_eq r.full_name v)) [
  | inl same ↦ inl ((bytes_eq_iff r.full_name v).0 same)
  | inr other ↦ inr (ref_exists-Has refs v (ground (arith, h, other)))
]

seed_of-own_names : (k : HeadKind) (head : HeadInfo) → seed_of k head ≡ own_names k head.full_ref
unfolding push_seed
seed_of-own_names branch head = ground arith
seed_of-own_names detached head = refl
seed_of-own_names unborn head = refl

head_seed-own_names : (head : HeadInfo) → head_seed head ≡ own_names head.kind head.full_ref
unfolding head_seed
head_seed-own_names head = seed_of-own_names head.kind head

IsFound-IsKnown : (s : RefSnapshot) (seed : Bytes) → IsFound s seed → IsKnown s seed
IsFound-IsKnown s seed (inl own) = inl (
    has_seed-Has (own_names s.head.kind s.head.full_ref) seed
      (ap (λ l. has_seed l seed) (sym (head_seed-own_names s.head)) ∙ own))
IsFound-IsKnown s seed (inr there) = inr (ref_exists-Has s.refs seed there)

absent-differ : (seeds : List Bytes) (v : Bytes) → has_seed seeds v ≡ false → All (λ x. x ≢ v) seeds
absent-differ [] v h = tt
absent-differ (x ∷ seeds) v h = (
  λ same. absurd (ground (arith, h, (bytes_eq_iff x v).1 same)),
  absent-differ seeds v (ground (arith, h)),
)

AreDistinct-AreDifferent : (seeds : List Bytes) → AreDistinct seeds → AreDifferent seeds
AreDistinct-AreDifferent [] h = tt
AreDistinct-AreDifferent (v ∷ seeds) h = (
  absent-differ seeds v h.0,
  λ empty. absurd (let no = ap is_empty empty in let full = h.1 in cc),
  AreDistinct-AreDifferent seeds h.2,
)

Has-ref_exists :
    (refs : List RefInfo) (v : Bytes) → Has (full_names refs) v → ref_exists refs v ≡ true
unfolding ref_exists
Has-ref_exists [] v h = absurd h
Has-ref_exists (r ∷ refs) v (inl same) = ground (arith, (bytes_eq_iff r.full_name v).1 same)
Has-ref_exists (r ∷ refs) v (inr later) = ground (arith, Has-ref_exists refs v later)

Has-append : (seeds rest : List Bytes) (v : Bytes) → Has seeds v → Has (seeds ++ rest) v
Has-append [] rest v h = absurd h
Has-append (x ∷ seeds) rest v (inl same) = inl same
Has-append (x ∷ seeds) rest v (inr later) = inr (Has-append seeds rest v later)

Has-last : (seeds : List Bytes) (v : Bytes) → Has (seeds ++ v ∷ []) v
Has-last [] v = inl refl
Has-last (x ∷ seeds) v = inr (Has-last seeds v)

Begins-Has : (start seeds : List Bytes) (v : Bytes) → Begins start seeds → Has start v → Has seeds v
Begins-Has start seeds v (rest, e) h = rw e (Has-append start rest v h)

push_seed-Has : (seeds : List Bytes) (v : Bytes) → is_empty v ≡ false → Has (push_seed seeds v) v
unfolding push_seed
push_seed-Has seeds v full = elim (Bool-cases (has_seed seeds v)) [
  | inl there ↦ rw (full, there) (has_seed-Has seeds v there)
  | inr new ↦ rw (full, new) (Has-last seeds v)
]

push_if-Has :
    (b : Bool) (seeds : List Bytes) (v : Bytes)
    → b ≡ true
    → is_empty v ≡ false
    → Has (push_if b seeds v) v
push_if-Has true seeds v wanted full = push_seed-Has seeds v full
push_if-Has false seeds v wanted full = absurd cc

-- A ref of HEAD whose upstream is not gone, has a name and is a ref of the snapshot.
abbrev pub Follows : List RefInfo → RefInfo → Type 0
Follows refs ref =
    (ref.is_head ≡ true)
    × (ref.is_gone ≡ false)
    × (is_empty ref.upstream ≡ false)
    × Has (full_names refs) ref.upstream

upstream_seeds-Has :
    (all : List RefInfo) (seeds : List Bytes) (refs : List RefInfo)
    → All (λ ref. Follows all ref → Has (upstream_seeds all seeds refs) ref.upstream) refs
unfolding upstream_seeds
upstream_seeds-Has all seeds [] = tt
upstream_seeds-Has all seeds (ref ∷ refs) =
    let next = push_if (wants_upstream all ref) seeds ref.upstream in
    (
      λ follows.
          let (head, kept, full, there) = follows in
          let known = Has-ref_exists all ref.upstream there in
          Begins-Has next _ ref.upstream
            (Begins-upstream all next next refs ([], sym (append-nil next)))
            (push_if-Has (wants_upstream all ref) seeds ref.upstream
              (ground (arith, head, kept, full, known)) full),
      upstream_seeds-Has all next refs,
    )

trunk_seeds-Has :
    (all : List RefInfo) (seeds rest : List Bytes)
    → All (λ trunk. is_empty trunk ≡ false) rest
    → All (λ trunk. Has (full_names all) trunk → Has (trunk_seeds all seeds rest) trunk) rest
unfolding trunk_seeds
trunk_seeds-Has all seeds [] h = tt
trunk_seeds-Has all seeds (trunk ∷ rest) h =
    let next = push_if (ref_exists all trunk) seeds trunk in
    (
      λ there.
          Begins-Has next _ trunk (Begins-trunk all next next rest ([], sym (append-nil next)))
            (push_if-Has (ref_exists all trunk) seeds trunk (Has-ref_exists all trunk there) h.0),
      trunk_seeds-Has all next rest h.1,
    )

abbrev pub trunk_names : List Bytes
trunk_names =
    codes "refs/heads/main"
    ∷ codes "refs/heads/master"
    ∷ codes "refs/heads/develop"
    ∷ codes "refs/heads/trunk"
    ∷ []

-- What the start of a walk promises.
pub record IsStart (s : RefSnapshot) (seeds : List Bytes) : Type 0 where
  pub different : AreDifferent seeds
  pub known : All (IsKnown s) seeds
  pub own_first : (rest : List Bytes) × (seeds ≡ own_names s.head.kind s.head.full_ref ++ rest)
  pub upstream : All (λ ref. Follows s.refs ref → Has seeds ref.upstream) s.refs
  pub trunk : All (λ name. Has (full_names s.refs) name → Has seeds name) trunk_names

-- The names that a walk starts from are not empty and all different, HEAD's own is the first of
-- them, and each is HEAD's own or the full name of a ref of the snapshot: an upstream that is gone
-- or a trunk that is not there is never among them. The upstream of HEAD, unless it is gone, and
-- main, master, develop and trunk are among them if the snapshot has them. HEAD's own is the full
-- name of its branch, "HEAD" if it is detached, and none while it has no commit.
pub history_seed_refs-IsStart : (s : RefSnapshot) → IsStart s (history_seed_refs s)
unfolding history_seed_refs
history_seed_refs-IsStart s =
    let start = head_seed s.head in
    let upstream = upstream_seeds s.refs start s.refs in
    let seeding =
      trunk_seeds-IsSeeding s upstream trunks
        (upstream_seeds-IsSeeding s start s.refs (head-IsSeeding s)) in
    let behind = Begins-trunk s.refs upstream upstream trunks ([], sym (append-nil upstream)) in
    let (rest, begins) =
      Begins-trunk s.refs start upstream trunks
        (Begins-upstream s.refs start start s.refs ([], sym (append-nil start))) in
    record {
      different = AreDistinct-AreDifferent _ seeding.distinct;
      known = All-map (IsFound s) (IsKnown s) _ (IsFound-IsKnown s) seeding.known;
      own_first = (rest, begins ∙ ap (λ l. l ++ rest) (head_seed-own_names s.head));
      upstream =
          All-map (λ ref. Follows s.refs ref → Has upstream ref.upstream)
            (λ ref. Follows s.refs ref → Has (trunk_seeds s.refs upstream trunks) ref.upstream)
            s.refs (λ ref h follows. Begins-Has upstream _ ref.upstream behind (h follows))
            (upstream_seeds-Has s.refs start s.refs);
      trunk = trunk_seeds-Has s.refs upstream trunks (refl, (refl, (refl, (refl, tt))));
    }
