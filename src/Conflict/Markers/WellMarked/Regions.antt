-- ===== src/Conflict/Markers/WellMarked/Regions.antt =====
-- src/core/git/ConflictMarkerParser.cpp: the scan of one well-marked region.
use git_branch_manager.Base.{
  Bool, true, false, List, [], ◌∷◌, ◌++◌, none, some, ◌≡◌, refl, arith, ◌∙◌, ap, if◌then◌else◌, All,
  Bool-cases, inl, inr, append-nil, append_assoc, sym,
}
use git_branch_manager.Base.Text.{Bytes}
use git_branch_manager.Conflict.Markers.{
  Side, to_ours, to_base, to_theirs, Scan, Parser, new_scan, push_current, close_region, scan_line,
  outside_line, parse_line, parse_lines,
}
use git_branch_manager.Conflict.Markers.WellMarked.{
  is_start, is_base, is_separator, is_end, IsPlain, Marked, IsWellMarked, base_part, region_lines,
}

pub parse_lines-step :
    (p q : Parser) (line : Bytes) (lines : List Bytes)
    → parse_line p.scan p line ≡ some q
    → parse_lines p (line ∷ lines) ≡ parse_lines q lines
unfolding parse_lines
parse_lines-step p q line lines e = rw (e, parse_lines) refl

-- The lines that are no marker go to the side that is being filled.
push_all : Scan → List Bytes → Scan
push_all s [] = s
push_all s (line ∷ lines) = push_all (push_current s.current s line) lines

scan_line-plain :
    (p : Parser) (s : Scan) (line : Bytes)
    → IsPlain line
    → scan_line p s line ≡ some (record p { scan = some (push_current s.current s line) })
unfolding scan_line
scan_line-plain p s line h = ground (arith, h.no_end, h.no_base, h.no_separator)

plain_lines :
    (p : Parser) (s : Scan) (lines rest : List Bytes)
    → All IsPlain lines
    → parse_lines (record p { scan = some s }) (lines ++ rest)
      ≡ parse_lines (record p { scan = some (push_all s lines) }) rest
unfolding parse_line push_all
plain_lines p s [] rest h = refl
plain_lines p s (line ∷ lines) rest h =
    parse_lines-step (record p { scan = some s }) _ line (lines ++ rest)
      (scan_line-plain (record p { scan = some s }) s line h.0)
    ∙ plain_lines p (push_current s.current s line) lines rest h.1

abbrev pub scanning : List Bytes → List Bytes → List Bytes → Bool → Bool → Side → Scan
scanning ours base theirs saw_base saw_separator current = record {
  ours = ours;
  base = base;
  theirs = theirs;
  saw_base = saw_base;
  saw_separator = saw_separator;
  current = current;
}

module _ (sb ss : Bool) where
  push_all-ours :
      (o b t lines : List Bytes)
      → push_all (scanning o b t sb ss to_ours) lines ≡ scanning (o ++ lines) b t sb ss to_ours
  unfolding push_all push_current
  push_all-ours o b t [] = ap (λ x. scanning x b t sb ss to_ours) (sym (append-nil o))
  push_all-ours o b t (line ∷ lines) =
      push_all-ours (o ++ line ∷ []) b t lines
      ∙ ap (λ x. scanning x b t sb ss to_ours) (append_assoc o (line ∷ []) lines)

  push_all-base :
      (o b t lines : List Bytes)
      → push_all (scanning o b t sb ss to_base) lines ≡ scanning o (b ++ lines) t sb ss to_base
  unfolding push_all push_current
  push_all-base o b t [] = ap (λ x. scanning o x t sb ss to_base) (sym (append-nil b))
  push_all-base o b t (line ∷ lines) =
      push_all-base o (b ++ line ∷ []) t lines
      ∙ ap (λ x. scanning o x t sb ss to_base) (append_assoc b (line ∷ []) lines)

  push_all-theirs :
      (o b t lines : List Bytes)
      → push_all (scanning o b t sb ss to_theirs) lines ≡ scanning o b (t ++ lines) sb ss to_theirs
  unfolding push_all push_current
  push_all-theirs o b t [] = ap (λ x. scanning o b x sb ss to_theirs) (sym (append-nil t))
  push_all-theirs o b t (line ∷ lines) =
      push_all-theirs o b (t ++ line ∷ []) lines
      ∙ ap (λ x. scanning o b x sb ss to_theirs) (append_assoc t (line ∷ []) lines)

-- A marker line inside a region.
scan_line-base :
    (p : Parser) (s : Scan) (line : Bytes)
    → s.saw_separator ≡ false
    → is_end line ≡ false
    → is_base line ≡ true
    → scan_line p s line
      ≡ some (record p { scan = some (record s { saw_base = true; current = to_base }) })
unfolding scan_line
scan_line-base p s line early no_end base = ground (arith, early, no_end, base)

scan_line-separator :
    (p : Parser) (s : Scan) (line : Bytes)
    → is_end line ≡ false
    → is_base line ≡ false
    → is_separator line ≡ true
    → scan_line p s line
      ≡ some (record p { scan = some (record s { saw_separator = true; current = to_theirs }) })
unfolding scan_line
scan_line-separator p s line no_end no_base separator = ground (arith, no_end, no_base, separator)

scan_line-end :
    (p : Parser) (s : Scan) (line : Bytes)
    → s.saw_separator ≡ true
    → is_end line ≡ true
    → scan_line p s line ≡ some (close_region p s)
unfolding scan_line
scan_line-end p s line late ends = ground (arith, late, ends)

outside_line-start :
    (p : Parser) (line : Bytes)
    → is_start line ≡ true
    → outside_line p line ≡ record p { scan = some new_scan }
unfolding outside_line
outside_line-start p line starts = ground (arith, starts)

pub outside_line-text :
    (p : Parser) (line : Bytes)
    → is_start line ≡ false
    → outside_line p line ≡ record p { pending_text = p.pending_text ++ line ∷ [] }
unfolding outside_line
outside_line-text p line plain = ground (arith, plain)

-- From behind the base part on to the end of the region.
module _ (p : Parser) (o b : List Bytes) (sb : Bool) (current : Side) (m : Marked)
    (w : IsWellMarked m) where
  abbrev closing : Scan
  closing = scanning o b m.theirs sb true to_theirs

  theirs_lem :
      (rest : List Bytes)
      → parse_lines
          (record p { scan = some (scanning o b [] sb false current) })
          (m.separator_line ∷ (m.theirs ++ m.end_line ∷ rest))
        ≡ parse_lines (close_region (record p { scan = some closing }) closing) rest
  unfolding parse_line
  theirs_lem rest =
      parse_lines-step (record p { scan = some (scanning o b [] sb false current) }) _
        m.separator_line (m.theirs ++ m.end_line ∷ rest)
        (scan_line-separator (record p { scan = some (scanning o b [] sb false current) })
          (scanning o b [] sb false current) m.separator_line w.separator_no_end w.separator_no_base
          w.separates)
      ∙ plain_lines p (scanning o b [] sb true to_theirs) m.theirs (m.end_line ∷ rest)
          w.theirs_lines
      ∙ ap (λ s. parse_lines (record p { scan = some s }) (m.end_line ∷ rest))
          (push_all-theirs sb true o b [] m.theirs)
      ∙ parse_lines-step (record p { scan = some closing }) _ m.end_line rest
          (scan_line-end (record p { scan = some closing }) closing m.end_line refl w.ends)

-- A whole region, read outside any other.
abbrev pub closed_scan : Marked → Scan
closed_scan m =
    scanning m.ours (if m.has_base then m.base else []) m.theirs m.has_base true to_theirs

base_lem :
    (p : Parser) (m : Marked) (rest : List Bytes)
    → IsWellMarked m
    → parse_lines
        (record p { scan = some (scanning m.ours [] [] false false to_ours) })
        (base_part m (m.separator_line ∷ (m.theirs ++ m.end_line ∷ rest)))
      ≡ parse_lines (close_region (record p { scan = some (closed_scan m) }) (closed_scan m)) rest
unfolding parse_line
base_lem p m rest w = elim (Bool-cases m.has_base) [
  | inr none_shown ↦ rw none_shown (theirs_lem p m.ours [] false to_ours m w rest)
  | inl shown ↦
      let tail = m.separator_line ∷ (m.theirs ++ m.end_line ∷ rest) in
      rw shown (
        parse_lines-step (record p { scan = some (scanning m.ours [] [] false false to_ours) }) _
          m.base_line (m.base ++ tail)
          (scan_line-base (record p { scan = some (scanning m.ours [] [] false false to_ours) })
            (scanning m.ours [] [] false false to_ours) m.base_line refl w.base_no_end w.bases)
        ∙ plain_lines p (scanning m.ours [] [] true false to_base) m.base tail w.base_lines
        ∙ ap (λ s. parse_lines (record p { scan = some s }) tail)
            (push_all-base true false m.ours [] [] m.base)
        ∙ theirs_lem p m.ours m.base true to_base m w rest)
]

pub region_lem :
    (p : Parser) (m : Marked) (rest : List Bytes)
    → IsWellMarked m
    → parse_lines (record p { scan = none }) (region_lines m rest)
      ≡ parse_lines (close_region (record p { scan = some (closed_scan m) }) (closed_scan m)) rest
unfolding parse_line
region_lem p m rest w =
    let tail = base_part m (m.separator_line ∷ (m.theirs ++ m.end_line ∷ rest)) in
    parse_lines-step (record p { scan = none }) _ m.start_line (m.ours ++ tail)
      (ap some (outside_line-start (record p { scan = none }) m.start_line w.starts))
    ∙ plain_lines p new_scan m.ours tail w.ours_lines
    ∙ ap (λ s. parse_lines (record p { scan = some s }) tail)
        (push_all-ours false false [] [] [] m.ours)
    ∙ base_lem p m rest w
