-- ===== src/Diff/Paths.antt =====
-- src/core/git/UnifiedDiffParser.cpp: `unquotePath` and `stripPathPrefix`. The loop over the
-- quoted text is a machine over its bytes; it is inside an octal escape while it may take digits.
use git_branch_manager.Base.{
  ℕ, zero, suc, ◌+◌, ◌-◌, ◌*◌, ◌%◌, Bool, false, ◌&&◌, ◌||◌, [], ◌∷◌, ◌++◌, leb, ◌==◌,
  if◌then◌else◌,
}
use git_branch_manager.Base.Text.{Bytes, codes, bytes_eq}

pub data Mode : Type 0 where
  plain escaped : Mode
  octal : ℕ → ℕ → Mode

abbrev pub is_octal : ℕ → Bool
is_octal c = leb b'0' c && leb c b'7'

abbrev plain_byte : ℕ → Bytes × Mode
plain_byte c = if c == b'\\' then ([], escaped) else (c ∷ [], plain)

-- A quote, a backslash and any other byte that is no octal digit stand for themselves.
abbrev escaped_byte : ℕ → Bytes × Mode
escaped_byte c =
    if c == b'n'
    then (b'\n' ∷ [], plain)
    else if c == b't'
    then (b'\t' ∷ [], plain)
    else if c == b'r'
    then (b'\r' ∷ [], plain)
    else if is_octal c
    then ([], octal 2 (c - b'0'))
    else (c ∷ [], plain)

-- `static_cast<char>(value)`
abbrev to_char : ℕ → ℕ
to_char value = value % 256

-- The bytes put out at a byte of the quoted text; `octal k v` may take k more digits.
unfoldable pub unquote_byte : Mode → ℕ → Bytes × Mode
unquote_byte plain c = plain_byte c
unquote_byte escaped c = escaped_byte c
unquote_byte (octal zero v) c = (to_char v ∷ (plain_byte c).0, (plain_byte c).1)
unquote_byte (octal (suc k) v) c =
    if is_octal c
    then ([], octal k (v * 8 + (c - b'0')))
    else (to_char v ∷ (plain_byte c).0, (plain_byte c).1)

-- A backslash at the very end stands for itself.
unfoldable pub unquote_end : Mode → Bytes
unquote_end plain = []
unquote_end escaped = b'\\' ∷ []
unquote_end (octal k v) = to_char v ∷ []

unfoldable pub unquote : Mode → Bytes → Bytes
unfolding unquote_byte unquote_end
unquote m [] = unquote_end m
unquote m (c ∷ cs) = (unquote_byte m c).0 ++ unquote (unquote_byte m c).1 cs

abbrev last_is : ℕ → Bytes → Bool
last_is b [] = false
last_is b (c ∷ []) = c == b
last_is b (c ∷ d ∷ cs) = last_is b (d ∷ cs)

abbrev drop_last : Bytes → Bytes
drop_last [] = []
drop_last (c ∷ []) = []
drop_last (c ∷ d ∷ cs) = c ∷ drop_last (d ∷ cs)

unfoldable pub unquote_path : Bytes → Bytes
unfolding unquote
unquote_path [] = []
unquote_path (c ∷ cs) =
    if c == b'"' && last_is b'"' cs then unquote plain (drop_last cs) else c ∷ cs

unfoldable pub strip_prefix : Bytes → Bytes
strip_prefix (p ∷ s ∷ c ∷ cs) =
    if (p == b'a' || p == b'b') && s == b'/' then c ∷ cs else p ∷ s ∷ c ∷ cs
strip_prefix other = other

unfoldable pub strip_path_prefix : Bytes → Bytes
unfolding bytes_eq strip_prefix
strip_path_prefix path = if bytes_eq path (codes "/dev/null") then [] else strip_prefix path
