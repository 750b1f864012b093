-- ===== src/Conflict/Markers/WellMarked/Segments.antt =====
-- src/core/git/ConflictMarkerParser.cpp: what the parser makes of a file that git has marked.
use git_branch_manager.Base.{
  ℕ, suc, ◌+◌, true, false, List, [], ◌∷◌, ◌++◌, none, some, ◌≡◌, refl, arith, ◌∙◌, ap, length, All,
  Bool-cases, inl, inr, append-nil, append_assoc, sym,
}
use git_branch_manager.Base.Text.{Bytes}
use git_branch_manager.Conflict.Markers.{
  ConflictSegment, region, split_keeping_line_endings, Parser, flush_text, close_region, parse_line,
  parse_lines, finish, initial, parse_all, parse,
}
use git_branch_manager.Conflict.Markers.WellMarked.{
  is_start, Marked, IsWellMarked, region_lines, file_lines, text_segment, region_segment,
  marked_segments,
}
use git_branch_manager.Conflict.Markers.WellMarked.Regions.{
  parse_lines-step, outside_line-text, closed_scan, region_lem,
}

-- Outside any region.
abbrev outside : List ConflictSegment → ℕ → List Bytes → Parser
outside segments count pending = record {
  segments = segments;
  pending_text = pending;
  region_count = count;
  scan = none;
}

text_lem :
    (segments : List ConflictSegment) (count : ℕ) (pending lines rest : List Bytes)
    → All (λ line. is_start line ≡ false) lines
    → parse_lines (outside segments count pending) (lines ++ rest)
      ≡ parse_lines (outside segments count (pending ++ lines)) rest
unfolding parse_line
text_lem segments count pending [] rest h =
    ap (λ x. parse_lines (outside segments count x) rest) (sym (append-nil pending))
text_lem segments count pending (line ∷ lines) rest h =
    parse_lines-step (outside segments count pending) _ line (lines ++ rest)
      (ap some (outside_line-text (outside segments count pending) line h.0))
    ∙ text_lem segments count (pending ++ line ∷ []) lines rest h.1
    ∙ ap (λ x. parse_lines (outside segments count x) rest) (append_assoc pending (line ∷ []) lines)

close_region-lem :
    (segments : List ConflictSegment) (count : ℕ) (pending : List Bytes) (m : Marked)
    → close_region
        (record (outside segments count pending) { scan = some (closed_scan m) })
        (closed_scan m)
      ≡ outside ((segments ++ text_segment pending) ++ region_segment m ∷ []) (count + 1) []
unfolding close_region flush_text
close_region-lem segments count [] m = elim (Bool-cases m.has_base) [
  | inl shown ↦ rw shown (
      ap (λ x. outside (x ++ region m.ours m.theirs m.base true ∷ []) (count + 1) [])
        (sym (append-nil segments)))
  | inr none_shown ↦ rw none_shown (
      ap (λ x. outside (x ++ region m.ours m.theirs [] false ∷ []) (count + 1) [])
        (sym (append-nil segments)))
]
close_region-lem segments count (line ∷ lines) m = elim (Bool-cases m.has_base) [
  | inl shown ↦ rw shown refl
  | inr none_shown ↦ rw none_shown refl
]

file_lem :
    (segments : List ConflictSegment) (count : ℕ) (ms : List Marked) (rest : List Bytes)
    → All IsWellMarked ms
    → All (λ line. is_start line ≡ false) rest
    → parse_lines (outside segments count []) (file_lines ms rest)
      ≡ some (outside (segments ++ marked_segments ms) (count + length ms) rest)
unfolding parse_lines
file_lem segments count [] rest ws h =
    ap (λ x. parse_lines (outside segments count []) x) (sym (append-nil rest))
    ∙ text_lem segments count [] rest [] h
    ∙ ap (λ x. some (outside x count rest)) (sym (append-nil segments))
    ∙ ap (λ n. some (outside (segments ++ []) n rest)) (omega arith)
file_lem segments count (m ∷ ms) rest ws h =
    let behind = file_lines ms rest in
    let before = (segments ++ text_segment m.before) ++ region_segment m ∷ [] in
    text_lem segments count [] m.before (region_lines m behind) ws.0.text_lines
    ∙ region_lem (outside segments count m.before) m behind ws.0
    ∙ ap (λ q. parse_lines q behind) (close_region-lem segments count m.before m)
    ∙ file_lem before (count + 1) ms rest ws.1 h
    ∙ ap (λ n. some (outside (before ++ marked_segments ms) n rest)) (omega arith)
    ∙ ap (λ x. some (outside x (count + suc (length ms)) rest))
        (append_assoc (segments ++ text_segment m.before) (region_segment m ∷ [])
            (marked_segments ms)
          ∙ append_assoc segments (text_segment m.before) (region_segment m ∷ marked_segments ms))

parse_all-lem :
    (lines : List Bytes) (segments : List ConflictSegment) (count : ℕ) (pending : List Bytes)
    → parse_lines initial lines ≡ some (outside segments count pending)
    → parse_all lines ≡ record {
      segments = segments ++ text_segment pending;
      region_count = count;
      well_formed = true;
    }
unfolding parse_all finish flush_text
parse_all-lem lines segments count [] e =
    rw (e, parse_all)
      (ap (λ x. record { segments = x; region_count = count; well_formed = true })
        (sym (append-nil segments)))
parse_all-lem lines segments count (line ∷ pending) e = rw (e, parse_all) refl

-- A file that is text and marked regions in turn, with text behind the last region, is well formed,
-- and its segments are just these texts, the empty ones left out, and these regions, in order. The
-- conditions: each marker line is one of its kind and of no other that matters there, no line of
-- the text begins a region, and no line inside a region is an end, base or separator marker.
pub parse-well_marked :
    (content : Bytes) (ms : List Marked) (rest : List Bytes)
    → split_keeping_line_endings content ≡ file_lines ms rest
    → All IsWellMarked ms
    → All (λ line. is_start line ≡ false) rest
    → parse content ≡ record {
      segments = marked_segments ms ++ text_segment rest;
      region_count = length ms;
      well_formed = true;
    }
unfolding parse
parse-well_marked content ms rest e ws h =
    ap parse_all e
    ∙ parse_all-lem (file_lines ms rest) (marked_segments ms) (length ms) rest (
        file_lem [] 0 ms rest ws h
        ∙ ap (λ n. some (outside (marked_segments ms) n rest)) (omega arith))
