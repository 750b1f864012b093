-- ===== src/Conflict/Markers/Untouched.antt =====
-- src/core/git/ConflictMarkerParser.cpp: a file with no complete region comes back as it is.
use git_branch_manager.Base.{
  ◌+◌, ◌≤◌, ◌<◌, List, [], ◌∷◌, ◌++◌, append_assoc, append-nil, Option, none, some, ◌≡◌, ◌≢◌, refl,
  sym, ◌∙◌, arith, Option-cases, inl, inr,
}
use git_branch_manager.Base.Text.{Bytes, concat}
use git_branch_manager.Conflict.Markers.Lines.{concat-split, parse_lines-cons}
use git_branch_manager.Conflict.Markers.{
  Scan, Parser, scan_line, outside_line, parse_line, parse_lines, flush_text, close_region,
  fallback, finish, initial, parse_all, parse, assemble_segments, assemble,
  split_keeping_line_endings,
}

-- Between two states the count of regions does not fall, and it rises if a region is left; if it
-- stays 0 outside a region, the lines between went to the pending text.
record Passes (p q : Parser) (lines : List Bytes) : Type 0 where
  grows : p.region_count ≤ q.region_count
  leaves : p.scan ≢ none → q.scan ≡ none → p.region_count < q.region_count
  keeps :
      p.scan ≡ none
      → q.scan ≡ none
      → q.region_count ≡ p.region_count
      → (q.pending_text ≡ p.pending_text ++ lines) × (q.segments ≡ p.segments)

close_region-count : (p : Parser) (s : Scan) → (close_region p s).region_count ≡ p.region_count + 1
unfolding close_region flush_text
close_region-count p s = ground arith

scan_line-grows :
    (p q : Parser) (s : Scan) (line : Bytes)
    → scan_line p s line ≡ some q
    → (p.region_count ≤ q.region_count) × (q.scan ≡ none → p.region_count < q.region_count)
unfolding scan_line
scan_line-grows p q s line e = ground (arith, close_region-count p s)

parse_line-Passes :
    (o : Option Scan) (p q : Parser) (line : Bytes)
    → p.scan ≡ o
    → parse_line o p line ≡ some q
    → Passes p q (line ∷ [])
unfolding parse_line outside_line
parse_line-Passes none p q line is e = record {
  grows = ground arith;
  leaves = λ inside. absurd (inside is);
  keeps = λ h k c. ground arith;
}
parse_line-Passes (some s) p q line is e =
    let g = scan_line-grows p q s line e in
    record { grows = g.0; leaves = λ h k. g.1 k; keeps = λ h. cc }

Passes-trans :
    (p m q : Parser) (line : Bytes) (lines : List Bytes)
    → Passes p m (line ∷ [])
    → Passes m q lines
    → Passes p q (line ∷ lines)
Passes-trans p m q line lines a b = elim (Option-cases m.scan) [
  | inl out ↦ record {
    grows = omega arith;
    leaves = λ h k. omega (arith, a.leaves h out);
    keeps = λ h k c.
        let first = a.keeps h out (omega (arith, b.grows, a.grows)) in
        let then_ = b.keeps out k (omega (arith, b.grows, a.grows)) in
        (then_.0 ∙ rw first.0 (append_assoc p.pending_text (line ∷ []) lines), then_.1 ∙ first.1);
  }
  | inr (s, inside) ↦
      let stays : m.scan ≢ none = λ e. cc in
      record {
        grows = omega arith;
        leaves = λ h k. omega (arith, b.leaves stays k);
        keeps = λ h k c. absurd (omega (arith, b.leaves stays k));
      }
]

parse_lines-Passes :
    (lines : List Bytes) (p q : Parser) → parse_lines p lines ≡ some q → Passes p q lines
parse_lines-Passes [] p q e =
    let same : p ≡ q = unfold parse_lines in ground arith in
    record {
      grows = ground arith;
      leaves = λ h k. absurd (h (ground arith));
      keeps = λ h k c. (sym (append-nil _) ∙ ground arith, ground arith);
    }
parse_lines-Passes (line ∷ lines) p q e =
    let (m, here, rest) = parse_lines-cons p q line lines e in
    Passes-trans p m q line lines (parse_line-Passes p.scan p m line refl here)
      (parse_lines-Passes lines m q rest)

flush_text-untouched :
    (lines : List Bytes) (q : Parser)
    → q.segments ≡ []
    → q.pending_text ≡ lines
    → assemble_segments (flush_text q).segments [] ≡ some (concat lines)
unfolding flush_text assemble_segments
flush_text-untouched [] q none_yet pending = ground arith
flush_text-untouched (line ∷ lines) q none_yet pending =
    ground (arith, append-nil (concat (line ∷ lines)))

flush_text-count : (q : Parser) → (flush_text q).region_count ≡ q.region_count
unfolding flush_text
flush_text-count q = ground arith

fallback-untouched :
    (lines : List Bytes) → assemble_segments (fallback lines).segments [] ≡ some (concat lines)
unfolding fallback assemble_segments
fallback-untouched lines = rw append-nil

finish-untouched :
    (lines : List Bytes) (o : Option Scan) (q : Parser)
    → q.scan ≡ o
    → parse_lines initial lines ≡ some q
    → (finish lines o q).region_count ≡ 0
    → assemble_segments (finish lines o q).segments [] ≡ some (concat lines)
unfolding finish
finish-untouched lines none q is e zero =
    let kept =
      (parse_lines-Passes lines initial q e).keeps refl is (sym (flush_text-count q) ∙ zero) in
    flush_text-untouched lines q kept.1 kept.0
finish-untouched lines (some s) q is e zero = fallback-untouched lines

parse_all-untouched :
    (lines : List Bytes)
    → (parse_all lines).region_count ≡ 0
    → assemble_segments (parse_all lines).segments [] ≡ some (concat lines)
unfolding parse_all
parse_all-untouched lines = elim (Option-cases (parse_lines initial lines)) [
  | inl e ↦ rw (e, parse_all) (λ _. fallback-untouched lines)
  | inr (q, e) ↦ rw (e, parse_all) (finish-untouched lines q.scan q refl e)
]

-- A file in which the parser finds no region, because there is no start marker or because it takes
-- the file for malformed, is assembled to the same bytes.
pub assemble-parse_untouched :
    (content : Bytes)
    → (parse content).region_count ≡ 0
    → assemble (parse content) [] ≡ some content
unfolding assemble parse
assemble-parse_untouched content zero =
    let lines = split_keeping_line_endings content in
    let same = parse_all-untouched lines zero in rw zero (same ∙ rw concat-split)
