-- ===== src/RepoState.antt =====
-- src/core/git/RepoState.h and RepoState.cpp: the operation that git is part-way through, read off
-- the files of a repository, and its banner. The file system is the record `Disk`; an `int` is its
-- bit pattern.
pub mod Banner
pub mod Flags
use Prim.Native.Nat.{bit_and, bit_or}
use git_branch_manager.Base.Decimal.{to_string, int_to_string}
use git_branch_manager.Base.Text.{Bytes, codes}
use git_branch_manager.Base.{
  ℕ, zero, suc, ◌+◌, ◌-◌, ◌*◌, ◌/◌, ◌%◌, ◌^◌, Bool, true, false, not, ◌&&◌, ◌||◌, List, [], ◌∷◌,
  ◌++◌, Option, none, some, ltb, leb, ◌==◌, if◌then◌else◌, is_empty,
}
use git_branch_manager.Diff.Scan.{leading_number}

-- The paths of `RepoPaths` that are looked at.
pub data RepoFile : Type 0 where
  merge_head squash_msg cherry_pick_head revert_head bisect_log sequencer_todo rebase_merge
        rebase_merge_msgnum rebase_merge_end rebase_merge_onto_name rebase_merge_onto rebase_apply
        rebase_apply_next rebase_apply_last index_lock head index sequencer refs packed_refs :
      RepoFile

-- `std::int64_t`
pub data ℤ : Type 0 where
  pos negsuc : ℕ → ℤ

-- What the file system answers: `exists`, `fsutil::readSmallFile` with its limit,
-- `fsutil::modifiedTimeNs` and the clock.
pub record Disk : Type 0 where
  pub is_valid : Bool
  pub exists : RepoFile → Bool
  pub read_small_file : RepoFile → ℕ → Option Bytes
  pub modified_time_ns : RepoFile → Option ℕ
  pub now_ns : ℕ

pub record RepoState : Type 0 where
  pub flags : ℕ
  pub rebase_step : ℕ
  pub rebase_total : ℕ
  pub rebase_onto_label : Bytes
  pub index_locked : Bool
  pub index_lock_age_seconds : Option ℤ
  pub prepared_message_pending : Bool

abbrev pub flag_merge : ℕ
flag_merge = 1

abbrev pub flag_cherry_pick : ℕ
flag_cherry_pick = 2

abbrev pub flag_revert : ℕ
flag_revert = 4

abbrev pub flag_rebase_merge : ℕ
flag_rebase_merge = 8

abbrev pub flag_rebase_apply : ℕ
flag_rebase_apply = 16

abbrev pub flag_bisect : ℕ
flag_bisect = 32

abbrev pub flag_sequencer : ℕ
flag_sequencer = 64

abbrev pub default_state : RepoState
default_state = record {
  flags = 0;
  rebase_step = 0;
  rebase_total = 0;
  rebase_onto_label = [];
  index_locked = false;
  index_lock_age_seconds = none;
  prepared_message_pending = false;
}

-- `(flags & flag) != 0`
abbrev pub has_flag : ℕ → ℕ → Bool
has_flag flags flag = not (bit_and flags flag == 0)

abbrev pub is_clean : RepoState → Bool
is_clean s = s.flags == 0

unfoldable pub is_sequencer_operation : RepoState → Bool
is_sequencer_operation s = has_flag s.flags (
    bit_or flag_cherry_pick
      (bit_or flag_revert (bit_or flag_rebase_merge (bit_or flag_rebase_apply flag_sequencer))))

-- `text` without the bytes at its end that `drops` holds of.
unfoldable pub trim_end : (ℕ → Bool) → Bytes → Bytes
trim_end drops [] = []
trim_end drops (c ∷ cs) =
    let rest = trim_end drops cs in if is_empty rest && drops c then [] else c ∷ rest

-- `std::from_chars` into an `int` that was 0.
unfoldable pub parse_int : Bytes → ℕ
unfolding leading_number
parse_int [] = 0
parse_int (c ∷ cs) =
    let n = leading_number 0 cs in
    let m = leading_number 0 (c ∷ cs) in
    if c == b'-'
    then (if leb n (2 ^ 31) then (2 ^ 32 - n) % 2 ^ 32 else 0)
    else if ltb m (2 ^ 31)
    then m
    else 0

unfoldable pub read_int_file : Disk → RepoFile → ℕ
unfolding trim_end parse_int
read_int_file d file = elim (d.read_small_file file 64) [
  | none ↦ 0
  | some text ↦ parse_int (trim_end (λ c. c == b'\n' || c == b'\r' || c == b' ') text)
]

unfoldable pub read_trimmed_file : Disk → RepoFile → Bytes
unfolding trim_end
read_trimmed_file d file = elim (d.read_small_file file 4096) [
  | none ↦ []
  | some text ↦ trim_end (λ c. c == b'\n' || c == b'\r') text
]

-- `state.flags |= flag`, if the file is there.
abbrev pub flag_if : Bool → ℕ → ℕ → ℕ
flag_if present flag flags = if present then bit_or flags flag else flags

-- The flags, as the files are asked for in turn.
unfoldable pub read_flags : Disk → ℕ
read_flags d =
    let merging = flag_if (d.exists merge_head) flag_merge 0 in
    let picking = flag_if (d.exists cherry_pick_head) flag_cherry_pick merging in
    let reverting = flag_if (d.exists revert_head) flag_revert picking in
    let bisecting = flag_if (d.exists bisect_log) flag_bisect reverting in
    let queued = flag_if (d.exists sequencer_todo) flag_sequencer bisecting in
    let rebasing = flag_if (d.exists rebase_merge) flag_rebase_merge queued in
    flag_if (d.exists rebase_apply) flag_rebase_apply rebasing

unfoldable pub read_onto_label : Disk → Bytes
unfolding read_trimmed_file
read_onto_label d =
    let name = read_trimmed_file d rebase_merge_onto_name in
    let onto = read_trimmed_file d rebase_merge_onto in if is_empty name then onto else name

-- The block of the rebase-merge directory.
unfoldable pub read_rebase_merge : Disk → RepoState → RepoState
unfolding read_int_file read_onto_label
read_rebase_merge d s = record s {
  rebase_step = read_int_file d rebase_merge_msgnum;
  rebase_total = read_int_file d rebase_merge_end;
  rebase_onto_label = read_onto_label d;
}

-- The block of the rebase-apply directory.
unfoldable pub read_rebase_apply : Disk → RepoState → RepoState
unfolding read_int_file
read_rebase_apply d s = record s {
  rebase_step = read_int_file d rebase_apply_next;
  rebase_total = read_int_file d rebase_apply_last;
}

-- `-n`
abbrev minus : ℕ → ℤ
minus zero = pos 0
minus (suc n) = negsuc n

-- `(nowNs - mtime) / 1'000'000'000`, rounded towards zero.
unfoldable pub age_seconds : ℕ → ℕ → ℤ
age_seconds now mtime =
    if leb mtime now then pos ((now - mtime) / 10 ^ 9) else minus ((mtime - now) / 10 ^ 9)

unfoldable pub read_lock : Disk → RepoState → RepoState
unfolding age_seconds
read_lock d s = record s {
  index_locked = true;
  index_lock_age_seconds = elim (d.modified_time_ns index_lock) [
    | none ↦ none
    | some mtime ↦ some (age_seconds d.now_ns mtime)
  ];
}

-- `RepoState::read`
unfoldable pub read_state : Disk → RepoState
unfolding read_flags read_rebase_merge read_rebase_apply read_lock
read_state d =
    let flagged = record default_state {
      flags = read_flags d;
      prepared_message_pending = d.exists merge_head || d.exists squash_msg;
    } in
    let rebasing = if d.exists rebase_merge then read_rebase_merge d flagged else flagged in
    let applying = if d.exists rebase_apply then read_rebase_apply d rebasing else rebasing in
    let locked = if d.exists index_lock then read_lock d applying else applying in
    if d.is_valid then locked else default_state

unfoldable pub describe_rebase : RepoState → Bytes
unfolding int_to_string
describe_rebase s =
    let stopped =
      codes " - stopped at "
      ++ int_to_string s.rebase_step
      ++ b'/' ∷ int_to_string s.rebase_total in
    codes "Rebase in progress"
    ++ (if not (s.rebase_total == 0) && ltb s.rebase_total (2 ^ 31) then stopped else [])
    ++ (if is_empty s.rebase_onto_label then [] else codes " onto " ++ s.rebase_onto_label)

unfoldable pub state_label : RepoState → Bytes
unfolding describe_rebase
state_label s =
    if has_flag s.flags flag_rebase_merge || has_flag s.flags flag_rebase_apply
    then describe_rebase s
    else if has_flag s.flags flag_cherry_pick
    then codes "Cherry-pick in progress"
    else if has_flag s.flags flag_revert
    then codes "Revert in progress"
    else if has_flag s.flags flag_merge
    then codes "Merge in progress"
    else if has_flag s.flags flag_bisect
    then codes "Bisect in progress"
    else if has_flag s.flags flag_sequencer
    then codes "A queued sequence of commits is in progress"
    else []

unfoldable pub describe : RepoState → Bytes
unfolding state_label
describe s =
    let label = state_label s in
    let locked =
      (if is_empty label then [] else label ++ codes "; ")
      ++ codes "another Git process appears to be running" in
    if s.index_locked then locked else label

pub record StateBannerText : Type 0 where
  pub headline : Bytes
  pub instruction : Bytes
  pub is_conflict : Bool

abbrev pub has_known_conflicts : Option ℕ → Bool
has_known_conflicts none = false
has_known_conflicts (some count) = ltb 0 count

-- The tail of the headline that counts the files.
unfoldable pub count_text : Option ℕ → Bytes
unfolding to_string
count_text none = []
count_text (some count) =
    codes " - "
    ++ to_string count
    ++ codes " file"
    ++ (if count == 1 then [] else codes "s")
    ++ codes " with conflicts"

unfoldable pub build_state_banner_text : RepoState → Option ℕ → StateBannerText
unfolding describe count_text
build_state_banner_text s count =
    let known = has_known_conflicts count in
    let label = describe s in
    let headline =
      if is_empty label && known then codes "Conflicts in the working copy" else label in
    let plain : StateBannerText = record {
      headline = headline;
      instruction = [];
      is_conflict = false;
    } in
    if is_empty headline
    then plain
    else if known
    then record {
      headline = headline ++ count_text count;
      instruction = codes "Click Resolve Conflicts to fix the remaining files.";
      is_conflict = true;
    }
    else plain

unfoldable pub watch_targets : Disk → List RepoFile
watch_targets d =
    if d.is_valid
    then head ∷ index ∷ merge_head ∷ cherry_pick_head ∷ revert_head ∷ bisect_log ∷ rebase_merge
      ∷ rebase_apply ∷ sequencer ∷ refs ∷ packed_refs ∷ []
    else []
