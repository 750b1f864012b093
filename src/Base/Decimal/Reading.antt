-- ===== src/Base/Decimal/Reading.antt =====
-- A number that was printed is read back.
use git_branch_manager.Base.Decimal.{digits_within, to_string}
use git_branch_manager.Base.Tests.{ltb, if◌then◌else◌, Bool-cases}
use git_branch_manager.Base.Text.{Bytes}
use Prim.Native.Nat.{ℕ, zero, suc, ◌+◌, ◌*◌, ◌/◌, ◌%◌, ◌<◌, ◌≤◌}
use mathlib.Core.List.{[], ◌∷◌, ◌++◌, append_assoc}
use mathlib.Core.Logic.{inl, inr}
use mathlib.Core.Path.{◌≡◌, refl, ap, ◌∙◌}
use native.Mathlib.Omega.{arith}

-- The value of the digits of `n` behind those of `acc`.
shifted : ℕ → ℕ → ℕ → ℕ
shifted acc zero n = acc
shifted acc (suc fuel) n =
    let more = shifted acc fuel (n / 10) * 10 + n % 10 in if ltb n 10 then acc * 10 + n else more

shifted-same : (fuel n : ℕ) → n < fuel → shifted 0 fuel n ≡ n
unfolding shifted
shifted-same zero n h = absurd (omega arith)
shifted-same (suc fuel) n h = elim (Bool-cases (ltb n 10)) [
  | inl small ↦ ground (arith, small)
  | inr big ↦
      let above : 10 ≤ n = ground (arith, big) in
      ground (arith, big, above, shifted-same fuel (n / 10) (omega (arith, h, above)))
]

module _ (read : ℕ → Bytes → ℕ)
    (read-digit : (acc d : ℕ) (rest : Bytes)
      → d < 10
      → read acc ((b'0' + d) ∷ rest) ≡ read (acc * 10 + d) rest) where
  read-digits :
      (fuel n acc : ℕ) (rest : Bytes)
      → read acc (digits_within fuel n ++ rest) ≡ read (shifted acc fuel n) rest
  unfolding digits_within shifted
  read-digits zero n acc rest = refl
  read-digits (suc fuel) n acc rest = elim (Bool-cases (ltb n 10)) [
    | inl small ↦ rw small (read-digit acc n rest (ground (arith, small)))
    | inr big ↦ rw big (
        ap (read acc) (append_assoc (digits_within fuel (n / 10)) ((b'0' + n % 10) ∷ []) rest)
        ∙ read-digits fuel (n / 10) acc ((b'0' + n % 10) ∷ rest)
        ∙ read-digit (shifted acc fuel (n / 10)) (n % 10) rest (omega arith))
  ]

  -- A reader that takes one digit at a time takes the whole number.
  pub read-to_string : (n : ℕ) (rest : Bytes) → read 0 (to_string n ++ rest) ≡ read n rest
  unfolding to_string
  read-to_string n rest =
      read-digits (suc n) n 0 rest ∙ ap (λ m. read m rest) (shifted-same (suc n) n (omega arith))
