-- ===== src/Diff/Parser.antt =====
-- src/core/git/UnifiedDiffParser.cpp: `UnifiedDiffParser::parse`. `file` is null or points to the
-- last of `parsed.files`, `hunk` is null or points to the last hunk of that file: each is a flag,
-- and a write through it changes the last element.
pub mod Numbering
pub mod Writes
pub mod Valid
pub mod Dashes
use git_branch_manager.Base.{
  drop, take, ℕ, zero, suc, ◌+◌, ◌%◌, ◌^◌, Bool, true, false, ◌||◌, List, [], ◌∷◌, ◌++◌, Option,
  none, some, ltb, ◌==◌, if◌then◌else◌, length, is_empty,
}
use git_branch_manager.Base.Text.{Bytes, codes, starts_with}
use git_branch_manager.Diff.Paths.{unquote_path, strip_path_prefix}
use git_branch_manager.Diff.Range.{old_range, new_range}
use git_branch_manager.Diff.Scan.{split_first, split_last, drop_spaces, parse_uint, split_lines}
use git_branch_manager.Diff.Types.{DiffLineKind, DiffLine, DiffHunk, FileChangeKind, DiffFile}

pub record Options : Type 0 where
  pub max_bytes : ℕ
  pub max_line_length : ℕ

pub record ParsedDiff : Type 0 where
  pub files : List DiffFile
  pub truncated : Bool
  pub input_bytes : ℕ

-- The variables of the loop.
pub record Parser : Type 0 where
  pub files : List DiffFile
  pub has_file : Bool
  pub has_hunk : Bool
  pub old_line : ℕ
  pub new_line : ℕ

abbrev pub update_last {ℓ} : {A : Type ℓ} → (A → A) → List A → List A
update_last f [] = []
update_last f (x ∷ []) = f x ∷ []
update_last f (x ∷ y ∷ xs) = x ∷ update_last f (y ∷ xs)

abbrev pub on_file : Parser → (DiffFile → DiffFile) → Parser
on_file p f = record p { files = update_last f p.files }

abbrev pub on_hunk : Parser → (DiffHunk → DiffHunk) → Parser
on_hunk p f = on_file p λ file. record file { hunks = update_last f file.hunks }

abbrev pub empty_file : DiffFile
empty_file = record {
  old_path = [];
  new_path = [];
  kind = FileChangeKind.modified;
  old_mode = [];
  new_mode = [];
  old_blob = [];
  new_blob = [];
  binary = false;
  similarity = 0;
  hunks = [];
  added_lines = 0;
  removed_lines = 0;
}

-- The paths of "diff --git a/old b/new", from the text behind "diff --git ".
unfoldable pub set_paths : Bytes → DiffFile → DiffFile
set_paths rest file = elim (split_last (codes " b/") rest) [
  | none ↦ file
  | some (before, behind) ↦ record file {
    old_path = strip_path_prefix (unquote_path before);
    new_path = strip_path_prefix (unquote_path (codes "b/" ++ behind));
  }
]

unfoldable pub open_file : Parser → Bytes → Parser
open_file p line = record p {
  files = p.files ++ set_paths (drop 11 line) empty_file ∷ [];
  has_file = true;
  has_hunk = false;
}

-- "index <old>..<new> <mode>", from the text behind "index ".
unfoldable pub set_blobs : Bytes → DiffFile → DiffFile
set_blobs rest file = elim (split_first (codes "..") rest) [
  | none ↦ file
  | some (old_blob, after) ↦ elim (split_first (codes " ") after) [
    | none ↦ record file { old_blob = old_blob; new_blob = after }
    | some (new_blob, mode) ↦ record file {
      old_blob = old_blob;
      new_blob = new_blob;
      new_mode = if is_empty file.new_mode then mode else file.new_mode;
    }
  ]
]

abbrev header_path : Bytes → Bytes
header_path line = strip_path_prefix (unquote_path (drop 4 line))

abbrev set_old_path : Bytes → DiffFile → DiffFile
set_old_path path file = if is_empty path then file else record file { old_path = path }

abbrev set_new_path : Bytes → DiffFile → DiffFile
set_new_path path file = if is_empty path then file else record file { new_path = path }

-- What an extended header changes in the file, or `none` if the line is none of them.
unfoldable pub extended_header : Bytes → Option (DiffFile → DiffFile)
extended_header line =
    if starts_with (codes "old mode ") line
    then some (λ f. record f { old_mode = drop 9 line; kind = FileChangeKind.mode_changed })
    else if starts_with (codes "new mode ") line
    then some (λ f. record f { new_mode = drop 9 line })
    else if starts_with (codes "new file mode ") line
    then some (λ f. record f { new_mode = drop 14 line; kind = FileChangeKind.added })
    else if starts_with (codes "deleted file mode ") line
    then some (λ f. record f { old_mode = drop 18 line; kind = FileChangeKind.deleted })
    else if starts_with (codes "rename from ") line
    then some
        (λ f. record f { old_path = unquote_path (drop 12 line); kind = FileChangeKind.renamed })
    else if starts_with (codes "rename to ") line
    then some
        (λ f. record f { new_path = unquote_path (drop 10 line); kind = FileChangeKind.renamed })
    else if starts_with (codes "copy from ") line
    then some
        (λ f. record f { old_path = unquote_path (drop 10 line); kind = FileChangeKind.copied })
    else if starts_with (codes "copy to ") line
    then some
        (λ f. record f { new_path = unquote_path (drop 8 line); kind = FileChangeKind.copied })
    else if starts_with (codes "similarity index ") line
    then some (λ f. record f { similarity = parse_uint (drop 17 line) })
    else if starts_with (codes "index ") line
    then some (set_blobs (drop 6 line))
    else if starts_with (codes "Binary files ") line || starts_with (codes "GIT binary patch") line
    then some (λ f. record f { binary = true })
    else if starts_with (codes "--- ") line
    then some (set_old_path (header_path line))
    else if starts_with (codes "+++ ") line
    then some (set_new_path (header_path line))
    else none

-- "@@ ranges @@ heading"; a line that does not close its ranges is skipped.
unfoldable pub open_hunk : Parser → Bytes → Parser
open_hunk p line = elim (split_first (codes "@@") (drop 2 line)) [
  | none ↦ p
  | some (ranges, heading) ↦
      let (old_start, old_count) = old_range ranges in
      let (new_start, new_count) = new_range ranges in
      let hunk : DiffHunk = record {
        old_start = old_start;
        old_count = old_count;
        new_start = new_start;
        new_count = new_count;
        heading = drop_spaces heading;
        lines = [];
      } in
      record (on_file p λ f. record f { hunks = f.hunks ++ hunk ∷ [] }) {
        has_hunk = true;
        old_line = old_start;
        new_line = new_start;
      }
]

abbrev pub push_line : Parser → DiffLine → Parser
push_line p line = on_hunk p λ h. record h { lines = h.lines ++ line ∷ [] }

-- `++` on a `uint32_t`.
abbrev pub increment : ℕ → ℕ
increment n = (n + 1) % 2 ^ 32

-- A body line with its marker and the clipped text behind it. The default case leaves the hunk and
-- reads the line again: it is no header, or it would not be here, so outside a hunk it is skipped.
unfoldable pub body_line : Parser → ℕ → Bytes → Parser
body_line p marker text =
    if marker == b'+'
    then record (push_line (on_file p λ f. record f { added_lines = increment f.added_lines })
        (record { kind = DiffLineKind.added; old_line = 0; new_line = p.new_line; text = text })) {
          new_line = increment p.new_line;
        }
    else if marker == b'-'
    then record (push_line (on_file p λ f. record f { removed_lines = increment f.removed_lines })
        (record {
          kind = DiffLineKind.removed;
          old_line = p.old_line;
          new_line = 0;
          text = text;
        })) { old_line = increment p.old_line }
    else if marker == b' '
    then record (push_line p (record {
      kind = DiffLineKind.context;
      old_line = p.old_line;
      new_line = p.new_line;
      text = text;
    })) { old_line = increment p.old_line; new_line = increment p.new_line }
    else record p { has_hunk = false }

-- An empty line counts as an empty context line.
unfoldable pub hunk_line : Options → Parser → Bytes → Parser
hunk_line options p [] = body_line p b' ' []
hunk_line options p (marker ∷ content) =
    if starts_with (codes "\\ No newline") (marker ∷ content)
    then push_line p (record {
      kind = DiffLineKind.no_newline_marker;
      old_line = 0;
      new_line = 0;
      text = marker ∷ content;
    })
    else body_line p marker (take options.max_line_length content)

unfoldable pub parse_line : Options → Parser → Bytes → Parser
parse_line options p line =
    if starts_with (codes "diff --git ") line
    then open_file p line
    else if p.has_file
    then elim (extended_header line) [
      | some change ↦ on_file p change
      | none ↦
          if starts_with (codes "@@") line
          then open_hunk p line
          else if p.has_hunk
          then hunk_line options p line
          else p
    ]
    else p

unfoldable pub parse_lines : Options → Parser → List Bytes → Parser
parse_lines options p [] = p
parse_lines options p (line ∷ lines) = parse_lines options (parse_line options p line) lines

abbrev pub initial : Parser
initial = record { files = []; has_file = false; has_hunk = false; old_line = 0; new_line = 0 }

unfoldable pub parse : Options → Bytes → ParsedDiff
parse options text =
    if ltb options.max_bytes (length text)
    then record { files = []; truncated = true; input_bytes = length text }
    else record {
      files = (parse_lines options initial (split_lines text)).files;
      truncated = false;
      input_bytes = length text;
    }
