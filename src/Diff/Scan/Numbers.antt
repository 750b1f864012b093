-- ===== src/Diff/Scan/Numbers.antt =====
-- src/core/git/UnifiedDiffParser.cpp: `parseUint` reads what was printed.
use git_branch_manager.Base.Decimal.Reading.{read-to_string}
use git_branch_manager.Base.Decimal.{digits_within, to_string}
use git_branch_manager.Base.Text.{Bytes}
use git_branch_manager.Base.{
  ℕ, zero, suc, ◌+◌, ◌*◌, ◌-◌, ◌/◌, ◌%◌, ◌^◌, ◌<◌, true, [], ◌∷◌, append-nil, ◌≡◌, sym, ap, ◌∙◌,
  arith, All, All-append, ltb, Bool-cases, inl, inr,
}
use git_branch_manager.Diff.Scan.{leading_number, is_digit, parse_uint}

pub digits_within-AreDigits : (fuel n : ℕ) → All (λ c. is_digit c ≡ true) (digits_within fuel n)
unfolding digits_within
digits_within-AreDigits zero n = tt
digits_within-AreDigits (suc fuel) n = elim (Bool-cases (ltb n 10)) [
  | inl small ↦ rw small (ground (arith, small), tt)
  | inr big ↦ rw big (
      All-append (λ c. is_digit c ≡ true) (digits_within fuel (n / 10)) ((b'0' + n % 10) ∷ [])
        (digits_within-AreDigits fuel (n / 10)) (ground arith, tt))
]

pub to_string-AreDigits : (n : ℕ) → All (λ c. is_digit c ≡ true) (to_string n)
unfolding to_string
to_string-AreDigits n = digits_within-AreDigits (suc n) n

pub leading_number-digit :
    (acc d : ℕ) (rest : Bytes)
    → d < 10
    → leading_number acc ((b'0' + d) ∷ rest) ≡ leading_number (acc * 10 + d) rest
unfolding leading_number
leading_number-digit acc d rest h =
    let digit : is_digit (b'0' + d) ≡ true = ground (arith, h) in
    let value : acc * 10 + (b'0' + d - b'0') ≡ acc * 10 + d = omega arith in
    rw digit (ap (λ m. leading_number m rest) value)

leading_number-to_string : (n : ℕ) → leading_number 0 (to_string n) ≡ n
unfolding leading_number
leading_number-to_string n =
    ap (leading_number 0) (sym (append-nil (to_string n)))
    ∙ read-to_string leading_number leading_number-digit n []

pub parse_uint-to_string : (n : ℕ) → n < 2 ^ 32 → parse_uint (to_string n) ≡ n
unfolding parse_uint
parse_uint-to_string n h = ground (arith, leading_number-to_string n, h)
