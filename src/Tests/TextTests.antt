-- ===== src/Tests/TextTests.antt =====
-- src/core/git/TextTraits.cpp: progress lines and encodings.
use git_branch_manager.Base.{true, [], ◌∷◌, ◌≡◌, refl}
use git_branch_manager.Base.Text.{Bytes, codes, starts_with}
use git_branch_manager.Text.Traits.{
  LineEndingKind, EncodingKind, detect_line_ending, saw_lf, saw_crlf, detect_encoding, has_nul,
  is_valid_utf8, is_valid_from, extra_bytes, collapse_line, collapse_carriage_returns,
}

progress-collapsed :
    collapse_carriage_returns (codes "at 10%\rat 90%\rdone\r\nok\r") ≡ codes "done\r\nok"
unfolding collapse_carriage_returns collapse_line
progress-collapsed = refl

mixed-endings : detect_line_ending (codes "a\r\nb\n") ≡ LineEndingKind.mixed
unfolding detect_line_ending saw_lf saw_crlf
mixed-endings = refl

utf8-encoding : detect_encoding (0xc3 ∷ 0xa9 ∷ []) ≡ EncodingKind.utf8
unfolding detect_encoding starts_with has_nul is_valid_utf8 is_valid_from extra_bytes
utf8-encoding = refl

abbrev progress : Bytes
progress = codes "at 10%\rdone\n"

e_acute-valid : is_valid_utf8 (0xc3 ∷ 0xa9 ∷ []) ≡ true
unfolding is_valid_utf8 is_valid_from extra_bytes
e_acute-valid = refl
