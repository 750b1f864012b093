-- ===== src/Conflict/Markers/Lines.antt =====
-- src/core/git/ConflictMarkerParser.cpp: the lines of a text are the text, and the regions that the
-- parser counts are those that it makes.
use git_branch_manager.Base.{
  ℕ, suc, ◌+◌, false, List, [], ◌∷◌, ◌++◌, append_assoc, Option, none, some, ◌≡◌, ◌↔◌, refl, sym,
  ◌∙◌, arith, if◌then◌else◌, length, Option-cases, inl, inr,
}
use git_branch_manager.Base.Text.{Bytes, concat}
use git_branch_manager.Conflict.Markers.{
  ConflictSegment, text, region, ConflictRegionChoice, unresolved, ours, theirs, custom,
  ConflictRegionResolution, split_keeping_from, split_keeping_line_endings, Scan, Parser, scan_line,
  outside_line, parse_line, parse_lines, flush_text, close_region, fallback, finish, initial,
  parse_all, parse, any_unresolved, is_unresolved, chosen_lines, assemble_segments, assemble,
}

concat-split_from : (cs line : Bytes) → concat (split_keeping_from line cs) ≡ line ++ cs
unfolding split_keeping_from
concat-split_from [] [] = refl
concat-split_from [] (c ∷ line) = refl
concat-split_from (c ∷ cs) [] =
    ground (arith, concat-split_from cs [], concat-split_from cs (c ∷ []))
concat-split_from (c ∷ cs) (b ∷ line) = ground (
  arith,
  concat-split_from cs [],
  concat-split_from cs (b ∷ (line ++ c ∷ [])),
  append_assoc line (c ∷ []) cs,
)

-- The lines, each with its ending, make up the text again.
pub concat-split : (content : Bytes) → concat (split_keeping_line_endings content) ≡ content
unfolding split_keeping_line_endings
concat-split content = concat-split_from content []

abbrev pub regions : List ConflictSegment → ℕ
regions [] = 0
regions (text lines ∷ segments) = regions segments
regions (region o t b h ∷ segments) = suc (regions segments)

regions-append : (a b : List ConflictSegment) → regions (a ++ b) ≡ regions a + regions b
regions-append [] b = omega arith
regions-append (text lines ∷ a) b = regions-append a b
regions-append (region o t base h ∷ a) b = omega (arith, regions-append a b)

abbrev Counted : Parser → Type 0
Counted p = regions p.segments ≡ p.region_count

flush_text-Counted : (p : Parser) → Counted p → Counted (flush_text p)
unfolding flush_text
flush_text-Counted p c = ground (arith, regions-append p.segments (text p.pending_text ∷ []))

close_region-Counted : (p : Parser) (s : Scan) → Counted p → Counted (close_region p s)
unfolding close_region
close_region-Counted p s c = omega (
  arith,
  regions-append (flush_text p).segments
      (region s.ours s.theirs (if s.saw_base then s.base else []) s.saw_base ∷ []),
  flush_text-Counted p c,
)

scan_line-Counted :
    (p q : Parser) (s : Scan) (line : Bytes) → scan_line p s line ≡ some q → Counted p → Counted q
unfolding scan_line
scan_line-Counted p q s line e c = ground (arith, close_region-Counted p s c)

parse_line-Counted :
    (o : Option Scan) (p q : Parser) (line : Bytes)
    → parse_line o p line ≡ some q
    → Counted p
    → Counted q
unfolding parse_line outside_line
parse_line-Counted none p q line e c = ground arith
parse_line-Counted (some s) p q line e c = scan_line-Counted p q s line e c

-- The state behind one line and behind the lines that follow it.
pub parse_lines-cons :
    (p q : Parser) (line : Bytes) (lines : List Bytes)
    → parse_lines p (line ∷ lines) ≡ some q
    → (m : Parser) × (parse_line p.scan p line ≡ some m) × (parse_lines m lines ≡ some q)
unfolding parse_lines
parse_lines-cons p q line lines e = elim (Option-cases (parse_line p.scan p line)) [
  | inl stop ↦ cc (rw (stop, parse_lines) at e)
  | inr (m, go) ↦ (m, go, rw (go, parse_lines) at e)
]

parse_lines-Counted :
    (lines : List Bytes) (p q : Parser) → parse_lines p lines ≡ some q → Counted p → Counted q
parse_lines-Counted [] p q e c = unfold parse_lines in ground arith
parse_lines-Counted (line ∷ lines) p q e c =
    let (m, here, rest) = parse_lines-cons p q line lines e in
    parse_lines-Counted lines m q rest (parse_line-Counted p.scan p m line here c)

finish-Counted :
    (lines : List Bytes) (o : Option Scan) (p : Parser)
    → Counted p
    → regions (finish lines o p).segments ≡ (finish lines o p).region_count
unfolding finish fallback
finish-Counted lines none p c = flush_text-Counted p c
finish-Counted lines (some s) p c = refl

pub regions-parse_all :
    (lines : List Bytes) → regions (parse_all lines).segments ≡ (parse_all lines).region_count
unfolding parse_all
regions-parse_all lines = elim (Option-cases (parse_lines initial lines)) [
  | inl e ↦ rw (e, parse_all) (unfold fallback in refl)
  | inr (q, e) ↦
      rw (e, parse_all) (finish-Counted lines q.scan q (parse_lines-Counted lines initial q e refl))
]

chosen_lines-some :
    (c : ConflictRegionChoice) (o t u : List Bytes)
    → is_unresolved c ≡ false
    → (lines : List Bytes) × (chosen_lines c o t u ≡ some lines)
unfolding chosen_lines
chosen_lines-some unresolved o t u h = cc
chosen_lines-some ours o t u h = (o, refl)
chosen_lines-some theirs o t u h = (t, refl)
chosen_lines-some custom o t u h = (u, refl)

assemble_segments-some :
    (segments : List ConflictSegment) (rs : List ConflictRegionResolution)
    → length rs ≡ regions segments
    → any_unresolved rs ≡ false
    → (out : Bytes) × (assemble_segments segments rs ≡ some out)
unfolding assemble_segments
assemble_segments-some [] rs n u = ([], refl)
assemble_segments-some (text lines ∷ segments) rs n u =
    let (out, e) = assemble_segments-some segments rs n u in (concat lines ++ out, rw e)
assemble_segments-some (region o t b h ∷ segments) [] n u = absurd (omega arith)
assemble_segments-some (region o t b h ∷ segments) (r ∷ rs) n u =
    let (lines, e) = chosen_lines-some r.choice o t r.custom_lines (ground arith) in
    let (out, e') = assemble_segments-some segments rs (omega arith) (ground arith) in
    (concat lines ++ out, rw (e, assemble_segments) (rw e'))

-- Assembling what `parse` made succeeds exactly for one resolution for each region, none of them
-- unresolved; no read past the resolutions and no null pointer stands in the way.
pub assemble-parse :
    (content : Bytes) (rs : List ConflictRegionResolution)
    → ((length rs ≡ (parse content).region_count) × (any_unresolved rs ≡ false))
      ↔ ((out : Bytes) × (assemble (parse content) rs ≡ some out))
unfolding assemble parse
assemble-parse content rs =
    let lines = split_keeping_line_endings content in
    (
      λ (n, u).
          let (out, e) =
            assemble_segments-some (parse_all lines).segments rs (n ∙ sym (regions-parse_all lines))
              u in
          (out, ground arith),
      λ (out, e). ground arith,
    )
