-- ===== src/WorkingCopy/Read/Outcome.antt =====
-- src/core/git/WorkingCopyStatus.cpp: what a read gives, and when it fails.
use git_branch_manager.Base.Text.{Bytes}
use git_branch_manager.Base.{
  Bool, true, false, List, [], ◌∷◌, ◌≡◌, ◌≢◌, refl, ap, ◌∙◌, inl, inr, ◌⊎◌, All,
}
use git_branch_manager.Errors.{ErrorCode, GitError, GitResult, failed, done, code_eq}
use git_branch_manager.WorkingCopy.Expansion.{expand_untracked_directories}
use git_branch_manager.WorkingCopy.LineCounts.{UntrackedLineCountCache, count_untracked_lines}
use git_branch_manager.WorkingCopy.Numstat.{attach_numstat, join_counts}
use git_branch_manager.WorkingCopy.Read.Listing.{
  listing, zero-listing, attach-listing, count_untracked-listing,
}
use git_branch_manager.WorkingCopy.Read.{
  World, zero_counts, failed_if, failed_pass, behind_staged, behind_unstaged, count_untracked,
  staged_pass, unstaged_pass, read,
}
use git_branch_manager.WorkingCopy.{WorkingCopyEntry, WorkingCopyStatus, parse_records}

abbrev HasFailed : World → GitError → Type 0
HasFailed w e = (w.numstat false ≡ failed e) ⊎ (w.numstat true ≡ failed e)

-- All four counts of an entry are 0.
abbrev pub IsUncounted : WorkingCopyEntry → Type 0
IsUncounted e =
    (e.unstaged_added ≡ 0)
    × (e.unstaged_removed ≡ 0)
    × (e.staged_added ≡ 0)
    × (e.staged_removed ≡ 0)

-- The counts of the entries that are listed, with the mark that they are unavailable and without:
-- with it a pass has failed, without it both gave their records, if there is an entry at all.
abbrev pub IsCounted :
    World → UntrackedLineCountCache → List WorkingCopyEntry → List WorkingCopyEntry → Bool → Type 0
IsCounted w c entries listed true =
    All IsUncounted listed
    × ((e : GitError) × (e.code ≢ ErrorCode.cancelled)
        × ((w.numstat false ≡ failed e) ⊎ (w.numstat true ≡ failed e)))
IsCounted w c entries listed false =
    (entries ≡ [])
    ⊎ ((unstaged : List Bytes) × (staged : List Bytes) × (w.numstat false ≡ done unstaged)
        × (w.numstat true ≡ done staged)
        × (listed
            ≡ (count_untracked_lines w.is_bare w.files w.now c
                (join_counts true staged (join_counts false unstaged entries))).1))

-- What a read gives for the entries of a status: an error only where a pass was cancelled, else the
-- entries as they are but for their counts.
abbrev pub IsReadOf :
    World → UntrackedLineCountCache → List WorkingCopyEntry → GitResult WorkingCopyStatus → Type 0
IsReadOf w c entries (failed e) =
    (e.code ≡ ErrorCode.cancelled) × ((w.numstat false ≡ failed e) ⊎ (w.numstat true ≡ failed e))
IsReadOf w c entries (done s) =
    (listing s.entries ≡ listing entries)
    × IsCounted w c entries s.entries s.line_counts_unavailable

attach-failed :
    (answer : GitResult (List Bytes)) (staged : Bool) (es : List WorkingCopyEntry) (e : GitError)
    → attach_numstat answer staged es ≡ failed e
    → answer ≡ failed e
unfolding attach_numstat
attach-failed answer staged [] e h = absurd cc
attach-failed (failed x) staged (y ∷ es) e h = let same : x ≡ e = cc in ap failed same
attach-failed (done records) staged (y ∷ es) e h = absurd cc

-- A pass that gives entries had its records, or none to ask for.
attach-done :
    (answer : GitResult (List Bytes)) (staged : Bool) (es counted : List WorkingCopyEntry)
    → attach_numstat answer staged es ≡ done counted
    → (es ≡ [])
      ⊎ ((records : List Bytes) × (answer ≡ done records)
          × (counted ≡ join_counts staged records es))
unfolding attach_numstat
attach-done answer staged [] counted h = inl refl
attach-done (failed x) staged (y ∷ es) counted h = absurd cc
attach-done (done records) staged (y ∷ es) counted h = inr (records, refl, cc)

listing-nil :
    (es entries : List WorkingCopyEntry) → listing es ≡ listing entries → es ≡ [] → entries ≡ []
listing-nil [] [] h k = refl
listing-nil [] (e ∷ entries) h k = absurd cc
listing-nil (e ∷ es) entries h k = absurd cc

code_eq-cancelled : (c : ErrorCode) → code_eq c ErrorCode.cancelled ≡ true → c ≡ ErrorCode.cancelled
unfolding code_eq
code_eq-cancelled ErrorCode.cancelled h = refl
code_eq-cancelled _ h = absurd cc

code_eq-other : (c : ErrorCode) → code_eq c ErrorCode.cancelled ≡ false → c ≢ ErrorCode.cancelled
unfolding code_eq
code_eq-other c h same = absurd (let k = ap (λ x. code_eq x ErrorCode.cancelled) same in cc)

zero-IsUncounted : (es : List WorkingCopyEntry) → All IsUncounted (zero_counts es)
zero-IsUncounted [] = tt
zero-IsUncounted (e ∷ es) = ((refl, refl, refl, refl), zero-IsUncounted es)

failed_if-read :
    (w : World) (c : UntrackedLineCountCache) (es entries : List WorkingCopyEntry) (e : GitError)
    (b : Bool)
    → code_eq e.code ErrorCode.cancelled ≡ b
    → HasFailed w e
    → listing es ≡ listing entries
    → IsReadOf w c entries (failed_if b c es e).1
failed_if-read w c es entries e true was h k = (code_eq-cancelled e.code was, h)
failed_if-read w c es entries e false other h k =
    (zero-listing es ∙ k, (zero-IsUncounted es, (e, code_eq-other e.code other, h)))

failed_pass-read :
    (w : World) (c : UntrackedLineCountCache) (es entries : List WorkingCopyEntry) (e : GitError)
    → HasFailed w e
    → listing es ≡ listing entries
    → IsReadOf w c entries (failed_pass c es e).1
unfolding failed_pass
failed_pass-read w c es entries e h k =
    failed_if-read w c es entries e (code_eq e.code ErrorCode.cancelled) refl h k

-- What is known behind the first pass.
abbrev IsJoined : World → List WorkingCopyEntry → List WorkingCopyEntry → Type 0
IsJoined w entries es =
    (entries ≡ [])
    ⊎ ((unstaged : List Bytes) × (w.numstat false ≡ done unstaged)
        × (es ≡ join_counts false unstaged entries))

count_untracked-IsCounted :
    (w : World) (c : UntrackedLineCountCache) (es entries counted : List WorkingCopyEntry)
    → attach_numstat (w.numstat true) true es ≡ done counted
    → listing es ≡ listing entries
    → IsJoined w entries es
    → IsCounted w c entries (count_untracked_lines w.is_bare w.files w.now c counted).1 false
count_untracked-IsCounted w c es entries counted h k (inl nothing) = inl nothing
count_untracked-IsCounted w c es entries counted h k (inr (unstaged, first, joined)) =
    elim (attach-done (w.numstat true) true es counted h) [
      | inl empty ↦ inl (listing-nil es entries k empty)
      | inr (staged, second, same) ↦ inr (
        unstaged,
        staged,
        first,
        second,
        ap (λ x. (count_untracked_lines w.is_bare w.files w.now c x).1)
            (same ∙ ap (join_counts true staged) joined),
      )
    ]

staged_pass-read :
    (w : World) (c : UntrackedLineCountCache) (es entries : List WorkingCopyEntry)
    (r : GitResult (List WorkingCopyEntry))
    → attach_numstat (w.numstat true) true es ≡ r
    → listing es ≡ listing entries
    → IsJoined w entries es
    → IsReadOf w c entries (behind_staged w c es r).1
unfolding count_untracked
staged_pass-read w c es entries (failed e) broken h j =
    failed_pass-read w c es entries e (inr (attach-failed (w.numstat true) true es e broken)) h
staged_pass-read w c es entries (done counted) joined h j =
    let kept = attach-listing (w.numstat true) true es counted joined in
    (
      count_untracked-listing w.is_bare w.files w.now c counted ∙ kept ∙ h,
      count_untracked-IsCounted w c es entries counted joined h j,
    )

unstaged_pass-read :
    (w : World) (c : UntrackedLineCountCache) (es : List WorkingCopyEntry)
    (r : GitResult (List WorkingCopyEntry))
    → attach_numstat (w.numstat false) false es ≡ r
    → IsReadOf w c es (behind_unstaged w c es r).1
unfolding staged_pass
unstaged_pass-read w c es (failed e) broken =
    failed_pass-read w c es es e (inl (attach-failed (w.numstat false) false es e broken)) refl
unstaged_pass-read w c es (done counted) joined =
    staged_pass-read w c counted es _ refl
      (attach-listing (w.numstat false) false es counted joined)
      (attach-done (w.numstat false) false es counted joined)

-- Where the status and the expansion of its directories succeed, a read lists their entries, paths,
-- states and conflicts unchanged, even if counting lines fails. If they are marked as unavailable
-- all counts are 0 and a numstat pass has failed without being cancelled; if not, and there is an
-- entry, both passes gave records, and the counts are the staged joined to the unstaged ones, with
-- those of the untracked files. The read itself fails only with the error of a pass that was
-- cancelled.
pub read-IsReadOf :
    (w : World) (c : UntrackedLineCountCache) (records expanded : List Bytes)
    → w.status ≡ done records
    → expand_untracked_directories w.list_others records ≡ done expanded
    → IsReadOf w c (parse_records expanded) (read w c).1
unfolding read unstaged_pass
read-IsReadOf w c records expanded h k =
    rw h (rw k (unstaged_pass-read w c (parse_records expanded) _ refl))
