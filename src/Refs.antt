-- ===== src/Refs.antt =====
-- src/core/git/RefStore.h and RefStore.cpp: the refs of a repository, HEAD, and the names that a
-- history walk starts from. The answers of git are the record `RefAnswers`; the `int` of a count is
-- its bit pattern, and `std::sort` an insertion sort.
pub mod Names
pub mod Printed
pub mod Seeds
use git_branch_manager.Base.Text.{Bytes, codes, bytes_eq, starts_with}
use git_branch_manager.Base.{
  ℕ, ◌^◌, ◌+◌, ◌-◌, Bool, true, false, not, ◌&&◌, ◌||◌, List, [], ◌∷◌, ◌++◌, Option, none, some,
  ltb, leb, ◌==◌, if◌then◌else◌, length, is_empty, get_or, drop,
}
use git_branch_manager.Diff.Scan.{split_first, drop_spaces}
use git_branch_manager.Errors.{ErrorCode, GitError, GitResult, failed, done, git_error}
use git_branch_manager.Graph.ObjectId.{ObjectId, null_id, is_null, id_eq, from_hex}
use git_branch_manager.RepoState.{parse_int}

pub data RefKind : Type 0 where
  local_branch remote_branch tag note stash other : RefKind

pub record RefInfo : Type 0 where
  pub full_name : Bytes
  pub short_name : Bytes
  pub kind : RefKind
  pub target : ObjectId
  pub tag_object : ObjectId
  pub upstream : Bytes
  pub ahead : ℕ
  pub behind : ℕ
  pub has_tracking_info : Bool
  pub is_gone : Bool
  pub is_head : Bool
  pub is_symbolic : Bool
  pub worktree_path : Bytes

pub data HeadKind : Type 0 where
  branch detached unborn : HeadKind

pub record HeadInfo : Type 0 where
  pub kind : HeadKind
  pub branch_name : Bytes
  pub full_ref : Bytes
  pub target : ObjectId

pub record RefSnapshot : Type 0 where
  pub refs : List RefInfo
  pub head : HeadInfo
  pub ref_count_guard_tripped : Bool
  pub total_ref_count : ℕ

abbrev pub heads_prefix : Bytes
heads_prefix = codes "refs/heads/"

abbrev pub remotes_prefix : Bytes
remotes_prefix = codes "refs/remotes/"

abbrev pub tags_prefix : Bytes
tags_prefix = codes "refs/tags/"

unfoldable pub kind_for_ref : Bytes → RefKind
unfolding starts_with bytes_eq
kind_for_ref full_name =
    if starts_with heads_prefix full_name
    then local_branch
    else if starts_with remotes_prefix full_name
    then remote_branch
    else if starts_with tags_prefix full_name
    then tag
    else if starts_with (codes "refs/notes/") full_name
    then note
    else if bytes_eq full_name (codes "refs/stash")
    then stash
    else other

unfoldable pub short_name_for : Bytes → RefKind → Bytes
short_name_for full_name local_branch = drop 11 full_name
short_name_for full_name remote_branch = drop 13 full_name
short_name_for full_name tag = drop 10 full_name
short_name_for full_name _ = full_name

unfoldable pub ref_display_name : Bytes → Bytes
unfolding kind_for_ref short_name_for
ref_display_name ref = short_name_for ref (kind_for_ref ref)

abbrev pub is_some : Option (Bytes × Bytes) → Bool
is_some none = false
is_some (some p) = true

-- `readNumberAfter`
unfoldable pub number_after : Bytes → Bytes → ℕ
unfolding split_first drop_spaces parse_int
number_after track keyword = elim (split_first keyword track) [
  | none ↦ 0
  | some p ↦ parse_int (drop_spaces p.1)
]

unfoldable pub parse_track : Bytes → RefInfo → RefInfo
unfolding number_after
parse_track track info =
    let told = record info { has_tracking_info = true } in
    if is_empty track
    then info
    else if is_some (split_first (codes "[gone]") track)
    then record told { is_gone = true }
    else record told {
      ahead = number_after track (codes "ahead ");
      behind = number_after track (codes "behind ");
    }

abbrev pub k_field_separator : ℕ
k_field_separator = 31

-- `splitFields`, for a line whose first field begins with `field`.
unfoldable pub split_from : ℕ → Bytes → Bytes → List Bytes
split_from separator field [] = field ∷ []
split_from separator field (c ∷ cs) =
    let next = split_from separator [] cs in
    let longer = split_from separator (field ++ c ∷ []) cs in
    if c == separator then field ∷ next else longer

unfoldable pub split_fields : Bytes → ℕ → List Bytes
unfolding split_from
split_fields line separator = split_from separator [] line

abbrev field : List Bytes → ℕ → Bytes
field fields i = get_or fields i []

-- The fields that no function is called for.
abbrev pub plain_ref : List Bytes → RefInfo
plain_ref fields = record {
  full_name = field fields 0;
  short_name = ref_display_name (field fields 0);
  kind = kind_for_ref (field fields 0);
  target = from_hex (field fields 2);
  tag_object = null_id;
  upstream = field fields 4;
  ahead = 0;
  behind = 0;
  has_tracking_info = false;
  is_gone = false;
  is_head = bytes_eq (field fields 6) (codes "*");
  is_symbolic = not (is_empty (field fields 8));
  worktree_path = field fields 7;
}

-- An annotated tag stands for what it points at.
abbrev pub peel : List Bytes → RefInfo → RefInfo
peel fields info =
    if bytes_eq (field fields 1) (codes "tag") && not (is_empty (field fields 3))
    then record info { tag_object = from_hex (field fields 2); target = from_hex (field fields 3) }
    else info

abbrev pub ref_of : List Bytes → RefInfo
ref_of fields = parse_track (field fields 5) (peel fields (plain_ref fields))

-- One call of the sink.
unfoldable pub parse_line : Bytes → Option RefInfo
unfolding split_fields
parse_line line =
    let fields = split_fields line k_field_separator in
    if is_empty line then none else if ltb (length fields) 7 then none else some (ref_of fields)

abbrev pub consed : Option RefInfo → List RefInfo → List RefInfo
consed none refs = refs
consed (some info) refs = info ∷ refs

unfoldable pub parse_lines : List Bytes → List RefInfo
unfolding parse_line parse_track from_hex ref_display_name kind_for_ref bytes_eq
parse_lines [] = []
parse_lines (line ∷ lines) = consed (parse_line line) (parse_lines lines)

abbrev pub rank : RefKind → ℕ
rank local_branch = 0
rank remote_branch = 1
rank tag = 2
rank note = 3
rank stash = 4
rank other = 5

-- `operator<` of two strings.
unfoldable pub string_less : Bytes → Bytes → Bool
string_less [] [] = false
string_less [] (y ∷ ys) = true
string_less (x ∷ xs) [] = false
string_less (x ∷ xs) (y ∷ ys) = ltb x y || (x == y && string_less xs ys)

unfoldable pub comes_before : RefInfo → RefInfo → Bool
unfolding string_less
comes_before a b =
    if rank a.kind == rank b.kind
    then string_less a.short_name b.short_name
    else ltb (rank a.kind) (rank b.kind)

unfoldable pub insert_ref : (RefInfo → RefInfo → Bool) → RefInfo → List RefInfo → List RefInfo
insert_ref less info [] = info ∷ []
insert_ref less info (x ∷ refs) =
    let later = insert_ref less info refs in if less info x then info ∷ x ∷ refs else x ∷ later

unfoldable pub sort_refs : (RefInfo → RefInfo → Bool) → List RefInfo → List RefInfo
unfolding insert_ref
sort_refs less [] = []
sort_refs less (x ∷ refs) = insert_ref less x (sort_refs less refs)

-- What git prints for `rev-parse`, `symbolic-ref` and, line by line, `for-each-ref`.
pub record RefAnswers : Type 0 where
  pub resolved : GitResult Bytes
  pub symbolic_ref : GitResult Bytes
  pub ref_lines : GitResult (List Bytes)

abbrev pub unborn_head : HeadInfo
unborn_head = record { kind = unborn; branch_name = []; full_ref = []; target = null_id }

abbrev pub named_head : HeadInfo → Bytes → HeadInfo
named_head head ref = record head { full_ref = ref; branch_name = short_name_for ref local_branch }

-- A head that resolves to a commit, from the two lines printed.
unfoldable pub born_head : Bytes → HeadInfo
unfolding split_first from_hex short_name_for bytes_eq
born_head out =
    let two : Bytes × Bytes = elim (split_first (codes "\n") out) [
      | none ↦ (out, [])
      | some p ↦ p
    ] in
    let head = record unborn_head { target = from_hex two.0 } in
    if is_empty two.1 || bytes_eq two.1 (codes "HEAD")
    then record head { kind = detached }
    else record (named_head head two.1) { kind = branch }

unfoldable pub parked_head : GitResult Bytes → HeadInfo
unfolding short_name_for
parked_head (failed e) = unborn_head
parked_head (done out) = if is_empty out then unborn_head else named_head unborn_head out

unfoldable pub read_head : RefAnswers → GitResult HeadInfo
unfolding born_head parked_head
read_head answers = elim answers.resolved [
  | failed e ↦ failed e
  | done out ↦ done (if is_empty out then parked_head answers.symbolic_ref else born_head out)
]

abbrev pub k_ref_count_guard : ℕ
k_ref_count_guard = 2000

abbrev pub snapshot_of : HeadInfo → List RefInfo → RefSnapshot
snapshot_of head refs = record {
  refs = sort_refs comes_before refs;
  head = head;
  ref_count_guard_tripped = ltb k_ref_count_guard (length refs);
  total_ref_count = length refs;
}

unfoldable pub load : RefAnswers → GitResult RefSnapshot
unfolding read_head parse_lines sort_refs comes_before
load answers = elim (read_head answers) [
  | failed e ↦ failed e
  | done head ↦ elim answers.ref_lines [
    | failed e ↦ failed e
    | done lines ↦ done (snapshot_of head (parse_lines lines))
  ]
]

-- `refsAt`, through the index that `buildIndex` makes.
unfoldable pub refs_at : List RefInfo → ObjectId → List RefInfo
unfolding id_eq
refs_at [] oid = []
refs_at (ref ∷ refs) oid =
    if not (is_null ref.target) && id_eq ref.target oid
    then ref ∷ refs_at refs oid
    else refs_at refs oid

unfoldable pub of_kind : List RefInfo → RefKind → List RefInfo
of_kind [] kind = []
of_kind (ref ∷ refs) kind =
    if rank ref.kind == rank kind then ref ∷ of_kind refs kind else of_kind refs kind
