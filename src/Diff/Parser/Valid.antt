-- ===== src/Diff/Parser/Valid.antt =====
-- src/core/git/UnifiedDiffParser.cpp: the lines of every parsed hunk are numbered one by one.
use git_branch_manager.Base.{
  take, ℕ, true, List, [], ◌∷◌, none, some, ◌≡◌, refl, length, All, Option-cases, Bool-cases, inl,
  inr, ◌==◌, ltb, if◌then◌else◌,
}
use git_branch_manager.Base.Text.{Bytes, codes, starts_with}
use git_branch_manager.Diff.Scan.{split_lines}
use git_branch_manager.Diff.Types.{DiffLineKind, DiffFile}
use git_branch_manager.Diff.Parser.{
  Options, Parser, extended_header, open_hunk, on_file, increment, body_line, hunk_line, parse_line,
  parse_lines, initial, parse,
}
use git_branch_manager.Diff.Parser.Writes.{
  FileIsNumbered, IsValid, push_line-IsValid, on_file-IsValid, extended_header-hunks,
  open_file-IsValid, open_hunk-IsValid,
}

body_line-IsValid :
    (p : Parser) (marker : ℕ) (text : Bytes)
    → IsValid p
    → p.has_hunk ≡ true
    → IsValid (body_line p marker text)
unfolding body_line
body_line-IsValid p marker text v inside = elim (Bool-cases (marker == b'+')) [
  | inl plus ↦ rw plus (
      push_line-IsValid (on_file p more_added)
        (record { kind = DiffLineKind.added; old_line = 0; new_line = p.new_line; text = text })
        (on_file-IsValid more_added (λ f. refl) p v) inside (refl, refl))
  | inr not_plus ↦ elim (Bool-cases (marker == b'-')) [
    | inl minus ↦
        rw (not_plus, minus)
          (push_line-IsValid (on_file p more_removed)
            (record {
              kind = DiffLineKind.removed;
              old_line = p.old_line;
              new_line = 0;
              text = text;
            })
            (on_file-IsValid more_removed (λ f. refl) p v) inside (refl, refl))
    | inr not_minus ↦ elim (Bool-cases (marker == b' ')) [
      | inl space ↦
          rw (not_plus, not_minus, space)
            (push_line-IsValid p
              (record {
                kind = DiffLineKind.context;
                old_line = p.old_line;
                new_line = p.new_line;
                text = text;
              })
              v inside (refl, refl))
      | inr other ↦
          rw (not_plus, not_minus, other)
            (record { filled = v.filled; numbered = v.numbered; goes_on = λ e. cc })
    ]
  ]
]
  where
    more_added : DiffFile → DiffFile
    more_added f = record f { added_lines = increment f.added_lines }

    more_removed : DiffFile → DiffFile
    more_removed f = record f { removed_lines = increment f.removed_lines }

hunk_line-IsValid :
    (options : Options) (p : Parser) (line : Bytes)
    → IsValid p
    → p.has_hunk ≡ true
    → IsValid (hunk_line options p line)
unfolding hunk_line
hunk_line-IsValid options p [] v inside = body_line-IsValid p b' ' [] v inside
hunk_line-IsValid options p (c ∷ cs) v inside =
    elim (Bool-cases (starts_with (codes "\\ No newline") (c ∷ cs))) [
      | inl marker ↦ rw marker (
          push_line-IsValid p
            (record {
              kind = DiffLineKind.no_newline_marker;
              old_line = 0;
              new_line = 0;
              text = c ∷ cs;
            })
            v inside (refl, refl))
      | inr line ↦ rw line (body_line-IsValid p c (take options.max_line_length cs) v inside)
    ]

-- A line inside a file that is no extended header.
inner_line-IsValid :
    (options : Options) (p : Parser) (line : Bytes)
    → IsValid p
    → p.has_file ≡ true
    → IsValid (
        if starts_with (codes "@@") line
        then open_hunk p line
        else if p.has_hunk
        then hunk_line options p line
        else p)
inner_line-IsValid options p line v has = elim (Bool-cases (starts_with (codes "@@") line)) [
  | inl at ↦ rw at (open_hunk-IsValid p line v has)
  | inr other ↦ elim (Bool-cases p.has_hunk) [
    | inl inside ↦ simp (other, inside) (hunk_line-IsValid options p line v inside)
    | inr outside ↦ simp (other, outside) v
  ]
]

header_or_inner-IsValid :
    (options : Options) (p : Parser) (line : Bytes)
    → IsValid p
    → p.has_file ≡ true
    → IsValid (elim (extended_header line) [
      | some change ↦ on_file p change
      | none ↦
          if starts_with (codes "@@") line
          then open_hunk p line
          else if p.has_hunk
          then hunk_line options p line
          else p
    ])
header_or_inner-IsValid options p line v has = elim (Option-cases (extended_header line)) [
  | inl e ↦ rw e (inner_line-IsValid options p line v has)
  | inr (change, e) ↦ rw e (on_file-IsValid change (extended_header-hunks line change e) p v)
]

parse_line-IsValid :
    (options : Options) (p : Parser) (line : Bytes)
    → IsValid p
    → IsValid (parse_line options p line)
unfolding parse_line
parse_line-IsValid options p line v = elim (Bool-cases (starts_with (codes "diff --git ") line)) [
  | inl header ↦ rw header (open_file-IsValid p line v)
  | inr other ↦ elim (Bool-cases p.has_file) [
    | inl has ↦ simp (other, has) (header_or_inner-IsValid options p line v has)
    | inr no_file ↦ simp (other, no_file) v
  ]
]

parse_lines-IsValid :
    (options : Options) (lines : List Bytes) (p : Parser)
    → IsValid p
    → IsValid (parse_lines options p lines)
unfolding parse_lines
parse_lines-IsValid options [] p v = v
parse_lines-IsValid options (line ∷ lines) p v =
    parse_lines-IsValid options lines (parse_line options p line)
      (parse_line-IsValid options p line v)

-- In every hunk of every file that a diff text is parsed to, the lines are numbered one by one
-- from the hunk's starts: a context line by both sides, a removed line by the old side, an added
-- line by the new one, a marker by neither; the numbers wrap as `uint32_t`.
pub parse-IsNumbered :
    (options : Options) (text : Bytes) → All FileIsNumbered (parse options text).files
unfolding parse
parse-IsNumbered options text =
    let v =
      parse_lines-IsValid options (split_lines text) initial
        (record { filled = λ e. cc; numbered = tt; goes_on = λ e. cc }) in
    elim (Bool-cases (ltb options.max_bytes (length text))) [
      | inl large ↦ rw large tt
      | inr fits ↦ rw fits v.numbered
    ]
