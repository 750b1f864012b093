-- ===== src/Graph/ObjectId.antt =====
-- src/core/base/ObjectId.h. An object id is the list of its significant bytes, `length_` many; the
-- bytes of the array behind them are never read.
pub mod Hex
use Prim.Native.Nat.{bit_xor}
use git_branch_manager.Base.{
  ℕ, ◌+◌, ◌-◌, ◌*◌, ◌/◌, ◌%◌, ◌^◌, Bool, false, ◌&&◌, ◌||◌, [], ◌∷◌, Option, none, some, ltb, leb,
  ◌==◌, if◌then◌else◌, length, is_empty,
}
use git_branch_manager.Base.Text.{Bytes, bytes_eq}

pub record ObjectId : Type 0 where
  pub bytes : Bytes

abbrev pub null_id : ObjectId
null_id = record { bytes = [] }

abbrev pub is_null : ObjectId → Bool
is_null id = is_empty id.bytes

-- `operator==`: the lengths and the bytes.
unfoldable pub id_eq : ObjectId → ObjectId → Bool
unfolding bytes_eq
id_eq a b = bytes_eq a.bytes b.bytes

-- `std::memcmp(a, b, n) < 0`, for n bytes each.
unfoldable pub bytes_less : Bytes → Bytes → Bool
bytes_less (x ∷ xs) (y ∷ ys) = let later = bytes_less xs ys in if x == y then later else ltb x y
bytes_less _ _ = false

-- `operator<`
unfoldable pub id_less : ObjectId → ObjectId → Bool
unfolding bytes_less
id_less a b =
    if length a.bytes == length b.bytes
    then bytes_less a.bytes b.bytes
    else ltb (length a.bytes) (length b.bytes)

-- `none` is the -1 of a byte that is no hex digit.
unfoldable pub hex_value : ℕ → Option ℕ
hex_value c =
    if leb b'0' c && leb c b'9'
    then some (c - b'0')
    else if leb b'a' c && leb c b'f'
    then some (c - b'a' + 10)
    else if leb b'A' c && leb c b'F'
    then some (c - b'A' + 10)
    else none

-- The byte of two digits before the bytes that follow.
unfoldable pub join_pair : Option ℕ → Option ℕ → Option Bytes → Option Bytes
join_pair (some hi) (some lo) (some bytes) = some ((hi * 16 + lo) ∷ bytes)
join_pair _ _ _ = none

unfoldable pub parse_pairs : Bytes → Option Bytes
parse_pairs [] = some []
parse_pairs (c ∷ []) = none
parse_pairs (c ∷ d ∷ rest) = join_pair (hex_value c) (hex_value d) (parse_pairs rest)

-- `fromHex`: the null id for anything but 40 or 64 hex digits.
unfoldable pub from_hex : Bytes → ObjectId
unfolding parse_pairs
from_hex hex =
    if length hex == 40 || length hex == 64
    then elim (parse_pairs hex) [ none ↦ null_id | some bytes ↦ record { bytes = bytes } ]
    else null_id

-- `kDigits[v]`
abbrev hex_digit : ℕ → ℕ
hex_digit v = if ltb v 10 then b'0' + v else b'a' + (v - 10)

unfoldable pub hex_bytes : Bytes → Bytes
hex_bytes [] = []
hex_bytes (b ∷ bytes) = hex_digit (b / 16) ∷ hex_digit (b % 16) ∷ hex_bytes bytes

unfoldable pub hex : ObjectId → Bytes
unfolding hex_bytes
hex id = hex_bytes id.bytes

-- FNV-1a on `uint64_t`.
unfoldable pub hash_from : ℕ → Bytes → ℕ
hash_from h [] = h
hash_from h (b ∷ bytes) = hash_from (bit_xor h b * 0x100000001b3 % 2 ^ 64) bytes

unfoldable pub hash : ObjectId → ℕ
unfolding hash_from
hash id = hash_from 0xcbf29ce484222325 id.bytes
