-- ===== src/Errors/Classify.antt =====
-- src/core/base/Error.cpp: which pattern decides the classification of what git printed.
use git_branch_manager.Base.{
  ℕ, ◌+◌, ◌&&◌, leb, if◌then◌else◌, true, false, List, [], ◌∷◌, ◌++◌, ◌≡◌, ◌⊎◌, inl, inr, refl, ap,
  arith, All, Bool-cases,
}
use git_branch_manager.Base.Text.{Bytes, codes}
use git_branch_manager.Errors.{
  ErrorCode, GitError, git_error, Pattern, to_lower, contains_insensitive, starts_with_insensitive,
  k_patterns, classify_from, classify_git_stderr,
}

-- The letters 'A' to 'Z' made small.
abbrev pub small_letter : ℕ → ℕ
small_letter c = if leb b'A' c && leb c b'Z' then c + 32 else c

abbrev pub lower : Bytes → Bytes
lower [] = []
lower (c ∷ cs) = small_letter c ∷ lower cs

-- The word stands somewhere in the text, in whatever case of its letters.
abbrev pub Occurs : Bytes → Bytes → Type 0
Occurs word text =
    (before found behind : Bytes) × (text ≡ before ++ (found ++ behind))
    × (lower found ≡ lower word)

starts-found :
    (word text : Bytes)
    → starts_with_insensitive word text ≡ true
    → (found behind : Bytes) × (text ≡ found ++ behind) × (lower found ≡ lower word)
unfolding starts_with_insensitive
starts-found [] text h = ([], text, refl, refl)
starts-found (p ∷ ps) [] h = absurd cc
starts-found (p ∷ ps) (c ∷ cs) h =
    let letter : small_letter c ≡ small_letter p = ground (arith, h) in
    let (found, behind, e, l) = starts-found ps cs (ground (arith, h)) in
    (c ∷ found, behind, ap (λ t. c ∷ t) e, cc)

found-starts :
    (word found behind : Bytes)
    → lower found ≡ lower word
    → starts_with_insensitive word (found ++ behind) ≡ true
unfolding starts_with_insensitive
found-starts [] found behind h = refl
found-starts (p ∷ ps) [] behind h = absurd cc
found-starts (p ∷ ps) (c ∷ found) behind h =
    let letter : small_letter c ≡ small_letter p = cc in
    let rest : lower found ≡ lower ps = cc in
    ground (arith, letter, found-starts ps found behind rest)

starts-contains :
    (text word : Bytes)
    → starts_with_insensitive word text ≡ true
    → contains_insensitive text word ≡ true
unfolding contains_insensitive
starts-contains [] word h = h
starts-contains (c ∷ cs) word h = rw h refl

contains-Occurs : (text word : Bytes) → contains_insensitive text word ≡ true → Occurs word text
unfolding contains_insensitive
contains-Occurs [] word h =
    let (found, behind, e, l) = starts-found word [] h in ([], found, behind, e, l)
contains-Occurs (c ∷ cs) word h = elim (Bool-cases (starts_with_insensitive word (c ∷ cs))) [
  | inl here ↦
      let (found, behind, e, l) = starts-found word (c ∷ cs) here in ([], found, behind, e, l)
  | inr later ↦
      let (before, found, behind, e, l) = contains-Occurs cs word (ground (arith, h, later)) in
      (c ∷ before, found, behind, ap (λ t. c ∷ t) e, l)
]

Occurs-contains :
    (before found behind word : Bytes)
    → lower found ≡ lower word
    → contains_insensitive (before ++ (found ++ behind)) word ≡ true
unfolding contains_insensitive
Occurs-contains [] found behind word h =
    starts-contains (found ++ behind) word (found-starts word found behind h)
Occurs-contains (c ∷ before) found behind word h =
    ground (arith, Occurs-contains before found behind word h)

abbrev pub IsAbsent : Bytes → Pattern → Type 0
IsAbsent text p = ¬ Occurs p.needle text

absent-Occurs : (text word : Bytes) → contains_insensitive text word ≡ false → ¬ Occurs word text
absent-Occurs text word h (before, found, behind, e, l) =
    let there = Occurs-contains before found behind word l in
    let same = ap (λ t. contains_insensitive t word) e in absurd cc

-- Either the first pattern that occurs decides, or none occurs.
abbrev pub IsClassified : List Pattern → Bytes → ℕ → GitError → Type 0
IsClassified ps text exit_code e =
    ((before : List Pattern) × (p : Pattern) × (behind : List Pattern) × (ps ≡ before ++ p ∷ behind)
      × All (IsAbsent text) before
      × Occurs p.needle text
      × (e ≡ record (git_error p.code p.summary text) { exit_code = exit_code }))
    ⊎ (All (IsAbsent text) ps
        × (e ≡ record (git_error ErrorCode.process_failed (codes "Git reported an error") text) {
          exit_code = exit_code;
        }))

classify_from-IsClassified :
    (ps : List Pattern) (text : Bytes) (exit_code : ℕ)
    → IsClassified ps text exit_code (classify_from ps text exit_code)
unfolding classify_from
classify_from-IsClassified [] text n = inr (tt, refl)
classify_from-IsClassified (p ∷ ps) text n =
    elim (Bool-cases (contains_insensitive text p.needle)) [
      | inl found ↦ inl ([], p, ps, refl, tt, contains-Occurs text p.needle found, rw found refl)
      | inr absent ↦
          let missing = absent-Occurs text p.needle absent in
          elim (classify_from-IsClassified ps text n) [
            | inl (before, q, behind, e, all, found, same) ↦
                inl
                  (p ∷ before, q, behind, ap (λ l. p ∷ l) e, (missing, all), found, rw absent same)
            | inr (all, same) ↦ inr ((missing, all), rw absent same)
          ]
    ]

-- The error carries the whole text and the exit code, with the code and the summary of the first
-- pattern of the table that occurs in the text, in whatever case of its letters, and those of a
-- failed process if none occurs.
pub classify_git_stderr-IsClassified :
    (text : Bytes) (exit_code : ℕ)
    → IsClassified k_patterns text exit_code (classify_git_stderr text exit_code)
unfolding classify_git_stderr
classify_git_stderr-IsClassified text n = classify_from-IsClassified k_patterns text n

to_lower-twice : (c : ℕ) → to_lower (to_lower c) ≡ to_lower c
to_lower-twice c = ground arith

starts_with_insensitive-lower :
    (needle text : Bytes)
    → starts_with_insensitive needle (lower text) ≡ starts_with_insensitive needle text
unfolding starts_with_insensitive
starts_with_insensitive-lower [] text = refl
starts_with_insensitive-lower (p ∷ ps) [] = refl
starts_with_insensitive-lower (p ∷ ps) (c ∷ cs) =
    let same = to_lower-twice c in let rest = starts_with_insensitive-lower ps cs in cc

contains_insensitive-lower :
    (text needle : Bytes)
    → contains_insensitive (lower text) needle ≡ contains_insensitive text needle
unfolding contains_insensitive
contains_insensitive-lower [] needle = refl
contains_insensitive-lower (c ∷ cs) needle =
    let later = contains_insensitive-lower cs needle in
    let here = starts_with_insensitive-lower needle (c ∷ cs) in cc

classify_from-lower :
    (ps : List Pattern) (text : Bytes) (exit_code : ℕ)
    → (classify_from ps (lower text) exit_code).code ≡ (classify_from ps text exit_code).code
unfolding classify_from
classify_from-lower [] text n = refl
classify_from-lower (p ∷ ps) text n =
    ground (arith, contains_insensitive-lower text p.needle, classify_from-lower ps text n)

-- The case of the letters that git prints does not change the code of the error.
pub classify-lower :
    (text : Bytes) (exit_code : ℕ)
    → (classify_git_stderr (lower text) exit_code).code ≡ (classify_git_stderr text exit_code).code
unfolding classify_git_stderr
classify-lower text n = classify_from-lower k_patterns text n
