-- ===== src/Conflict/Markers.antt =====
-- src/core/git/ConflictMarkerParser.h and ConflictMarkerParser.cpp. The two nested loops of `parse`
-- are one pass over the lines: the state holds the region that is being scanned, if any.
pub mod Lines
pub mod Untouched
pub mod WellMarked
use git_branch_manager.Base.{
  ℕ, suc, ◌+◌, Bool, true, false, not, ◌&&◌, ◌||◌, List, [], ◌∷◌, ◌++◌, Option, none, some, ◌==◌,
  if◌then◌else◌, length, is_empty,
}
use git_branch_manager.Base.Text.{Bytes, codes, bytes_eq, starts_with, concat}

-- A segment of kind `Text`, or one of kind `Region` with `ours`, `theirs`, `base` and `hasBase`.
pub data ConflictSegment : Type 0 where
  text : List Bytes → ConflictSegment
  region : List Bytes → List Bytes → List Bytes → Bool → ConflictSegment

pub record ParsedConflictFile : Type 0 where
  pub segments : List ConflictSegment
  pub region_count : ℕ
  pub well_formed : Bool

pub data ConflictRegionChoice : Type 0 where
  unresolved ours theirs custom : ConflictRegionChoice

pub record ConflictRegionResolution : Type 0 where
  pub choice : ConflictRegionChoice
  pub custom_lines : List Bytes

-- The lines of a text whose first line begins with `line`, each with its own '\n'.
unfoldable pub split_keeping_from : Bytes → Bytes → List Bytes
split_keeping_from [] [] = []
split_keeping_from (c ∷ line) [] = (c ∷ line) ∷ []
split_keeping_from line (c ∷ cs) =
    let next = (line ++ c ∷ []) ∷ split_keeping_from [] cs in
    let longer = split_keeping_from (line ++ c ∷ []) cs in if c == b'\n' then next else longer

unfoldable pub split_keeping_line_endings : Bytes → List Bytes
unfolding split_keeping_from
split_keeping_line_endings = split_keeping_from []

-- `if (view.back() == b) view.remove_suffix(1)`
unfoldable pub strip_back : ℕ → Bytes → Bytes
strip_back b [] = []
strip_back b (c ∷ []) = if c == b then [] else c ∷ []
strip_back b (c ∷ d ∷ cs) = c ∷ strip_back b (d ∷ cs)

unfoldable pub strip_line_ending : Bytes → Bytes
unfolding strip_back
strip_line_ending line = strip_back b'\r' (strip_back b'\n' line)

-- What `current` points to.
pub data Side : Type 0 where
  to_ours to_base to_theirs : Side

-- A region being scanned, from behind its `<<<<<<<` line.
pub record Scan : Type 0 where
  pub ours : List Bytes
  pub base : List Bytes
  pub theirs : List Bytes
  pub saw_base : Bool
  pub saw_separator : Bool
  pub current : Side

pub record Parser : Type 0 where
  pub segments : List ConflictSegment
  pub pending_text : List Bytes
  pub region_count : ℕ
  pub scan : Option Scan

abbrev pub new_scan : Scan
new_scan = record {
  ours = [];
  base = [];
  theirs = [];
  saw_base = false;
  saw_separator = false;
  current = to_ours;
}

unfoldable pub push_current : Side → Scan → Bytes → Scan
push_current to_ours s line = record s { ours = s.ours ++ line ∷ [] }
push_current to_base s line = record s { base = s.base ++ line ∷ [] }
push_current to_theirs s line = record s { theirs = s.theirs ++ line ∷ [] }

unfoldable pub flush_text : Parser → Parser
flush_text p =
    if is_empty p.pending_text
    then p
    else record p { segments = p.segments ++ text p.pending_text ∷ []; pending_text = [] }

unfoldable pub close_region : Parser → Scan → Parser
close_region p s =
    let flushed = flush_text p in
    record flushed {
      segments =
          flushed.segments
          ++ region s.ours s.theirs (if s.saw_base then s.base else []) s.saw_base ∷ [];
      region_count = flushed.region_count + 1;
      scan = none;
    }

-- One line inside a region; `none` is an end marker with no separator before it, which makes the
-- file malformed.
unfoldable pub scan_line : Parser → Scan → Bytes → Option Parser
scan_line p s line =
    let stripped = strip_line_ending line in
    if starts_with (codes ">>>>>>>") stripped
    then (if s.saw_separator then some (close_region p s) else none)
    else if not s.saw_separator && starts_with (codes "|||||||") stripped
    then some (record p { scan = some (record s { saw_base = true; current = to_base }) })
    else if bytes_eq stripped (codes "=======")
    then some (record p { scan = some (record s { saw_separator = true; current = to_theirs }) })
    else some (record p { scan = some (push_current s.current s line) })

unfoldable pub outside_line : Parser → Bytes → Parser
outside_line p line =
    if starts_with (codes "<<<<<<<") (strip_line_ending line)
    then record p { scan = some new_scan }
    else record p { pending_text = p.pending_text ++ line ∷ [] }

unfoldable pub parse_line : Option Scan → Parser → Bytes → Option Parser
parse_line none p line = some (outside_line p line)
parse_line (some s) p line = scan_line p s line

unfoldable pub parse_lines : Parser → List Bytes → Option Parser
parse_lines p [] = some p
parse_lines p (line ∷ lines) = elim (parse_line p.scan p line) [
  | none ↦ none
  | some q ↦ parse_lines q lines
]

-- Malformed: the whole file is one text segment.
unfoldable pub fallback : List Bytes → ParsedConflictFile
fallback lines = record { segments = text lines ∷ []; region_count = 0; well_formed = false }

-- At the end of the lines; a region that is still being scanned has no end marker.
unfoldable pub finish : List Bytes → Option Scan → Parser → ParsedConflictFile
finish lines (some s) p = fallback lines
finish lines none p = record {
  segments = (flush_text p).segments;
  region_count = (flush_text p).region_count;
  well_formed = true;
}

abbrev pub initial : Parser
initial = record { segments = []; pending_text = []; region_count = 0; scan = none }

unfoldable pub parse_all : List Bytes → ParsedConflictFile
parse_all lines = elim (parse_lines initial lines) [
  | none ↦ fallback lines
  | some p ↦ finish lines p.scan p
]

unfoldable pub parse : Bytes → ParsedConflictFile
parse content = parse_all (split_keeping_line_endings content)

abbrev pub is_unresolved : ConflictRegionChoice → Bool
is_unresolved unresolved = true
is_unresolved _ = false

abbrev pub any_unresolved : List ConflictRegionResolution → Bool
any_unresolved [] = false
any_unresolved (r ∷ rs) = is_unresolved r.choice || any_unresolved rs

-- The lines that a resolution picks; `none` for the null pointer of an unresolved one.
unfoldable pub chosen_lines :
    ConflictRegionChoice → List Bytes → List Bytes → List Bytes → Option (List Bytes)
chosen_lines unresolved ours_lines theirs_lines custom_lines = none
chosen_lines ours ours_lines theirs_lines custom_lines = some ours_lines
chosen_lines theirs ours_lines theirs_lines custom_lines = some theirs_lines
chosen_lines custom ours_lines theirs_lines custom_lines = some custom_lines

abbrev pub append_text : List Bytes → Option Bytes → Option Bytes
append_text lines none = none
append_text lines (some rest) = some (concat lines ++ rest)

-- The loop over the segments, each region taking the next resolution. `none` is a read past the
-- resolutions or through the null pointer.
unfoldable pub assemble_segments :
    List ConflictSegment → List ConflictRegionResolution → Option Bytes
assemble_segments [] rs = some []
assemble_segments (text lines ∷ segments) rs = append_text lines (assemble_segments segments rs)
assemble_segments (region o t b h ∷ segments) [] = none
assemble_segments (region o t b h ∷ segments) (r ∷ rs) =
    elim (chosen_lines r.choice o t r.custom_lines) [
      | none ↦ none
      | some lines ↦ append_text lines (assemble_segments segments rs)
    ]

unfoldable pub assemble : ParsedConflictFile → List ConflictRegionResolution → Option Bytes
assemble parsed rs =
    if not (length rs == parsed.region_count)
    then none
    else if any_unresolved rs
    then none
    else assemble_segments parsed.segments rs
