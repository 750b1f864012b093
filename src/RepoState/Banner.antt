-- ===== src/RepoState/Banner.antt =====
-- src/core/git/RepoState.cpp: when the banner is shown and what it says of conflicts.
use git_branch_manager.Base.Text.{Bytes}
use git_branch_manager.Base.{
  ℕ, not, ◌&&◌, [], ◌∷◌, ◌++◌, ◌≡◌, refl, Option, is_empty, Bool-cases, inl, inr, arith, List-cases,
}
use git_branch_manager.RepoState.{RepoState, build_state_banner_text, describe, has_known_conflicts}

is_empty-append : (a b : Bytes) → is_empty (a ++ b) ≡ (is_empty a && is_empty b)
is_empty-append [] b = refl
is_empty-append (x ∷ a) b = refl

-- The banner reports a conflict exactly if a count of conflicted files is known and not 0, and it
-- has no headline exactly if the state has no label and no such count is known.
pub build_state_banner_text-shown :
    (s : RepoState) (count : Option ℕ)
    → ((build_state_banner_text s count).is_conflict ≡ has_known_conflicts count)
      × (is_empty (build_state_banner_text s count).headline
          ≡ (is_empty (describe s) && not (has_known_conflicts count)))
      × (is_empty (build_state_banner_text s count).instruction ≡ not (has_known_conflicts count))
unfolding build_state_banner_text
build_state_banner_text-shown s count = elim (Bool-cases (has_known_conflicts count)) [
  | inl known ↦ elim (List-cases (describe s)) [
    | inl none_told ↦ ground (arith, known, none_told)
    | inr (c, cs, told) ↦ ground (arith, known, told)
  ]
  | inr unknown ↦ elim (List-cases (describe s)) [
    | inl none_told ↦ ground (arith, unknown, none_told)
    | inr (c, cs, told) ↦ ground (arith, unknown, told)
  ]
]
