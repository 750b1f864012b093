-- ===== src/Graph/ObjectId/Hex.antt =====
-- src/core/base/ObjectId.h: an id printed in hex is parsed to itself.
use git_branch_manager.Base.{
  ℕ, ◌+◌, ◌*◌, ◌/◌, ◌%◌, ◌<◌, [], ◌∷◌, ◌≡◌, ◌⊎◌, inl, inr, refl, arith, Option, some, length, All,
  ap, ◌∙◌,
}
use git_branch_manager.Base.Text.{Bytes}
use git_branch_manager.Graph.ObjectId.{
  ObjectId, hex_value, hex_digit, hex_bytes, hex, join_pair, parse_pairs, from_hex,
}

hex_value-hex_digit : (v : ℕ) → v < 16 → hex_value (hex_digit v) ≡ some v
unfolding hex_value
hex_value-hex_digit v h = ground arith

abbrev pub AreBytes : Bytes → Type 0
AreBytes = All (λ b. b < 256)

-- Two digits and the bytes behind them that can be read.
join_pair-some :
    (first second : Option ℕ) (behind : Option Bytes) (hi lo : ℕ) (bytes : Bytes)
    → first ≡ some hi
    → second ≡ some lo
    → behind ≡ some bytes
    → join_pair first second behind ≡ some ((hi * 16 + lo) ∷ bytes)
unfolding join_pair
join_pair-some first second behind hi lo bytes f s r = rw (f, s, r) refl

parse_pairs-hex_bytes : (bs : Bytes) → AreBytes bs → parse_pairs (hex_bytes bs) ≡ some bs
unfolding parse_pairs hex_bytes
parse_pairs-hex_bytes [] h = refl
parse_pairs-hex_bytes (b ∷ bs) h =
    let same : b / 16 * 16 + b % 16 ≡ b = omega arith in
    join_pair-some _ _ _ (b / 16) (b % 16) bs (hex_value-hex_digit (b / 16) (omega (arith, h.0)))
      (hex_value-hex_digit (b % 16) (omega arith)) (parse_pairs-hex_bytes bs h.1)
    ∙ ap (λ c. some (c ∷ bs)) same

length-hex_bytes : (bs : Bytes) → length (hex_bytes bs) ≡ 2 * length bs
unfolding hex_bytes
length-hex_bytes [] = refl
length-hex_bytes (b ∷ bs) = omega (arith, length-hex_bytes bs)

-- Every id of a SHA-1 or SHA-256 object is read back from its hex digits.
pub from_hex-hex :
    (id : ObjectId)
    → AreBytes id.bytes
    → (length id.bytes ≡ 20) ⊎ (length id.bytes ≡ 32)
    → from_hex (hex id) ≡ id
unfolding from_hex hex
from_hex-hex id h size =
    let read = parse_pairs-hex_bytes id.bytes h in
    let long = length-hex_bytes id.bytes in
    elim size [
      | inl short ↦
          let digits : length (hex_bytes id.bytes) ≡ 40 = omega (arith, long, short) in
          rw (digits, read) refl
      | inr big ↦
          let digits : length (hex_bytes id.bytes) ≡ 64 = omega (arith, long, big) in
          rw (digits, read) refl
    ]
