-- ===== src/Text/Traits.antt =====
-- src/core/git/TextTraits.h and TextTraits.cpp
pub mod Redraws
pub mod Utf8
use Prim.Native.Nat.{bit_and}
use git_branch_manager.Base.{
  ℕ, zero, suc, Bool, true, false, not, ◌&&◌, ◌||◌, List, [], ◌∷◌, ◌++◌, Option, none, some, leb,
  ◌==◌, if◌then◌else◌, is_empty,
}
use git_branch_manager.Base.Text.{Bytes, starts_with}

pub data LineEndingKind : Type 0 where
  no_ending lf crlf mixed : LineEndingKind

pub data EncodingKind : Type 0 where
  utf8 utf8_bom utf16_le utf16_be non_utf8 binary : EncodingKind

pub record TextTraits : Type 0 where
  pub line_ending : LineEndingKind
  pub encoding : EncodingKind
  pub has_final_newline : Bool

-- The flags of the loop over the bytes, behind a byte that is a carriage return or not.
unfoldable pub saw_lf : Bool → Bytes → Bool
saw_lf after_cr [] = false
saw_lf after_cr (c ∷ cs) = (c == b'\n' && not after_cr) || saw_lf (c == b'\r') cs

unfoldable pub saw_crlf : Bool → Bytes → Bool
saw_crlf after_cr [] = false
saw_crlf after_cr (c ∷ cs) = (c == b'\n' && after_cr) || saw_crlf (c == b'\r') cs

unfoldable pub detect_line_ending : Bytes → LineEndingKind
detect_line_ending raw =
    if saw_lf false raw && saw_crlf false raw
    then mixed
    else if saw_crlf false raw
    then crlf
    else if saw_lf false raw
    then lf
    else no_ending

-- `extra` for a byte that begins a sequence, `none` for one that begins none.
unfoldable pub extra_bytes : ℕ → Option ℕ
extra_bytes byte =
    if leb byte 0x7f
    then some 0
    else if bit_and byte 0xe0 == 0xc0
    then some 1
    else if bit_and byte 0xf0 == 0xe0
    then some 2
    else if bit_and byte 0xf8 == 0xf0
    then some 3
    else none

-- The loop, with `extra` bytes of a sequence left.
unfoldable pub is_valid_from : ℕ → Bytes → Bool
is_valid_from zero [] = true
is_valid_from zero (byte ∷ bytes) = elim (extra_bytes byte) [
  | none ↦ false
  | some extra ↦ is_valid_from extra bytes
]
is_valid_from (suc extra) [] = false
is_valid_from (suc extra) (byte ∷ bytes) = bit_and byte 0xc0 == 0x80 && is_valid_from extra bytes

unfoldable pub is_valid_utf8 : Bytes → Bool
is_valid_utf8 = is_valid_from 0

unfoldable pub has_nul : Bytes → Bool
has_nul [] = false
has_nul (c ∷ cs) = c == 0 || has_nul cs

unfoldable pub detect_encoding : Bytes → EncodingKind
detect_encoding raw =
    if starts_with (0xef ∷ 0xbb ∷ 0xbf ∷ []) raw
    then utf8_bom
    else if starts_with (0xff ∷ 0xfe ∷ []) raw
    then utf16_le
    else if starts_with (0xfe ∷ 0xff ∷ []) raw
    then utf16_be
    else if has_nul raw
    then binary
    else if is_valid_utf8 raw
    then utf8
    else non_utf8

unfoldable pub ends_in_newline : Bytes → Bool
ends_in_newline [] = false
ends_in_newline (c ∷ []) = c == b'\n'
ends_in_newline (c ∷ d ∷ cs) = ends_in_newline (d ∷ cs)

unfoldable pub detect_text_traits : Bytes → TextTraits
detect_text_traits raw = record {
  line_ending = detect_line_ending raw;
  encoding = detect_encoding raw;
  has_final_newline = is_empty raw || ends_in_newline raw;
}

abbrev pub next_is_newline : Bytes → Bool
next_is_newline [] = false
next_is_newline (c ∷ cs) = c == b'\n'

-- A carriage return that no line feed follows.
abbrev pub is_redraw : ℕ → Bytes → Bool
is_redraw c cs = c == b'\r' && not (next_is_newline cs)

-- What the loop adds to `out` up to `lineStart`, given the line behind it and `redrawPending`.
unfoldable pub collapse_line : Bytes → Bool → Bytes → Bytes
collapse_line line redraw [] = line
collapse_line line redraw (c ∷ cs) =
    let kept = if redraw then [] else line in
    let pending = collapse_line line true cs in
    let ended = kept ++ c ∷ collapse_line [] false cs in
    let longer = collapse_line (kept ++ c ∷ []) false cs in
    if is_redraw c cs then pending else if c == b'\n' then ended else longer

unfoldable pub collapse_carriage_returns : Bytes → Bytes
collapse_carriage_returns = collapse_line [] false
