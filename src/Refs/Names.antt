-- ===== src/Refs/Names.antt =====
-- src/core/git/RefStore.cpp: the checks of names, the comparison of two snapshots and the names that
-- a history walk starts from.
use git_branch_manager.Base.Text.{Bytes, codes, bytes_eq}
use git_branch_manager.Base.{
  ℕ, ◌-◌, Bool, true, false, not, ◌&&◌, ◌||◌, List, [], ◌∷◌, ◌++◌, ltb, ◌==◌, if◌then◌else◌, length,
  is_empty, get_or, drop,
}
use git_branch_manager.Diff.Scan.{split_first}
use git_branch_manager.Graph.ObjectId.{id_eq}
use git_branch_manager.Refs.{
  RefInfo, HeadKind, branch, detached, unborn, HeadInfo, RefSnapshot, is_some, string_less,
  sort_refs,
}

abbrev pub has_text : Bytes → Bytes → Bool
has_text needle text = is_some (split_first needle text)

abbrev pub last_byte : Bytes → ℕ
last_byte [] = 0
last_byte (c ∷ []) = c
last_byte (c ∷ d ∷ cs) = last_byte (d ∷ cs)

-- The bytes that the last loop refuses.
abbrev pub is_refused : ℕ → Bool
is_refused c =
    ltb c 32
    || c == 127
    || c == b' '
    || c == b'~'
    || c == b'^'
    || c == b':'
    || c == b'?'
    || c == b'*'
    || c == b'['
    || c == b'\\'

abbrev pub any_refused : Bytes → Bool
any_refused [] = false
any_refused (c ∷ cs) = is_refused c || any_refused cs

unfoldable pub is_valid_branch_name : Bytes → Bool
unfolding bytes_eq split_first
is_valid_branch_name name =
    let first = get_or name 0 0 in
    let last = last_byte name in
    not (
      is_empty name
      || bytes_eq name (codes "@")
      || first == b'.'
      || first == b'/'
      || first == b'-'
      || last == b'.'
      || last == b'/'
      || not (ltb (length name) 5) && bytes_eq (drop (length name - 5) name) (codes ".lock")
      || has_text (codes "..") name
      || has_text (codes "//") name
      || has_text (codes "@{") name
      || any_refused name)

unfoldable pub ref_exists : List RefInfo → Bytes → Bool
ref_exists [] full_name = false
ref_exists (ref ∷ refs) full_name = bytes_eq ref.full_name full_name || ref_exists refs full_name

abbrev pub by_full_name : RefInfo → RefInfo → Bool
by_full_name a b = string_less a.full_name b.full_name

abbrev pub same_tips : List RefInfo → List RefInfo → Bool
same_tips (a ∷ left) (b ∷ right) =
    bytes_eq a.full_name b.full_name && id_eq a.target b.target && same_tips left right
same_tips _ _ = true

unfoldable pub same_ref_tips : RefSnapshot → RefSnapshot → Bool
unfolding sort_refs string_less bytes_eq id_eq
same_ref_tips a b =
    length a.refs == length b.refs
    && same_tips (sort_refs by_full_name a.refs) (sort_refs by_full_name b.refs)

abbrev pub has_seed : List Bytes → Bytes → Bool
has_seed [] value = false
has_seed (seed ∷ seeds) value = bytes_eq seed value || has_seed seeds value

unfoldable pub push_seed : List Bytes → Bytes → List Bytes
unfolding bytes_eq
push_seed seeds value =
    if is_empty value || has_seed seeds value then seeds else seeds ++ value ∷ []

abbrev pub seed_of : HeadKind → HeadInfo → List Bytes
seed_of branch head = push_seed [] head.full_ref
seed_of detached head = push_seed [] (codes "HEAD")
seed_of unborn head = []

unfoldable pub head_seed : HeadInfo → List Bytes
unfolding push_seed
head_seed head = seed_of head.kind head

abbrev pub push_if : Bool → List Bytes → Bytes → List Bytes
push_if true seeds value = push_seed seeds value
push_if false seeds value = seeds

abbrev pub wants_upstream : List RefInfo → RefInfo → Bool
wants_upstream all ref =
    ref.is_head && not (is_empty ref.upstream) && not ref.is_gone && ref_exists all ref.upstream

-- The upstream of HEAD, if it is still there.
unfoldable pub upstream_seeds : List RefInfo → List Bytes → List RefInfo → List Bytes
unfolding push_seed ref_exists
upstream_seeds all seeds [] = seeds
upstream_seeds all seeds (ref ∷ refs) =
    upstream_seeds all (push_if (wants_upstream all ref) seeds ref.upstream) refs

abbrev pub trunks : List Bytes
trunks =
    codes "refs/heads/main"
    ∷ codes "refs/heads/master"
    ∷ codes "refs/heads/develop"
    ∷ codes "refs/heads/trunk"
    ∷ []

unfoldable pub trunk_seeds : List RefInfo → List Bytes → List Bytes → List Bytes
unfolding push_seed ref_exists
trunk_seeds all seeds [] = seeds
trunk_seeds all seeds (trunk ∷ rest) =
    trunk_seeds all (push_if (ref_exists all trunk) seeds trunk) rest

unfoldable pub history_seed_refs : RefSnapshot → List Bytes
unfolding head_seed upstream_seeds trunk_seeds
history_seed_refs s = trunk_seeds s.refs (upstream_seeds s.refs (head_seed s.head) s.refs) trunks
