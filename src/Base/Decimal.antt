-- ===== src/Base/Decimal.antt =====
-- `std::to_string` of an unsigned number: its decimal digits, most significant first.
pub mod Reading
use git_branch_manager.Base.Tests.{ltb, if◌then◌else◌}
use git_branch_manager.Base.Text.{Bytes}
use mathlib.Core.List.{[], ◌∷◌, ◌++◌}
use Prim.Native.Nat.{ℕ, zero, suc, ◌+◌, ◌-◌, ◌/◌, ◌%◌, ◌^◌}

-- On fuel; `n + 1` rounds are more than `n` has digits.
unfoldable pub digits_within : ℕ → ℕ → Bytes
digits_within zero n = []
digits_within (suc fuel) n =
    let more = digits_within fuel (n / 10) ++ (b'0' + n % 10) ∷ [] in
    if ltb n 10 then (b'0' + n) ∷ [] else more

unfoldable pub to_string : ℕ → Bytes
unfolding digits_within
to_string n = digits_within (suc n) n

-- `std::to_string` of an `int`, given as its bit pattern.
unfoldable pub int_to_string : ℕ → Bytes
unfolding to_string
int_to_string w = if ltb w (2 ^ 31) then to_string w else b'-' ∷ to_string (2 ^ 32 - w)
