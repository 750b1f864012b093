-- ===== src/Text/Traits/Utf8.antt =====
-- src/core/git/TextTraits.cpp: the UTF-8 check and the concatenation of texts.
use git_branch_manager.Base.{
  ℕ, zero, suc, true, [], ◌∷◌, ◌++◌, ◌≡◌, refl, arith, Option-cases, inl, inr,
}
use git_branch_manager.Base.Text.{Bytes}
use git_branch_manager.Text.Traits.{extra_bytes, is_valid_from, is_valid_utf8}

is_valid_from-append :
    (extra : ℕ) (a b : Bytes)
    → is_valid_from extra a ≡ true
    → is_valid_from extra (a ++ b) ≡ is_valid_from 0 b
unfolding is_valid_from
is_valid_from-append zero [] b h = refl
is_valid_from-append zero (x ∷ a) b h = elim (Option-cases (extra_bytes x)) [
  | inl bad ↦ absurd (ground (arith, bad, h))
  | inr (extra, e) ↦ ground (arith, e, h, is_valid_from-append extra a b)
]
is_valid_from-append (suc extra) [] b h = absurd (ground (arith, h))
is_valid_from-append (suc extra) (x ∷ a) b h = ground (arith, h, is_valid_from-append extra a b)

-- Behind a valid text the check goes on as if the rest stood alone: the whole is valid exactly if
-- the rest is, so no sequence is taken across the border.
pub is_valid_utf8-append :
    (a b : Bytes) → is_valid_utf8 a ≡ true → is_valid_utf8 (a ++ b) ≡ is_valid_utf8 b
unfolding is_valid_utf8
is_valid_utf8-append a b h = is_valid_from-append 0 a b h
