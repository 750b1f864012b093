-- ===== src/Diff/Parser/Dashes.antt =====
-- src/core/git/UnifiedDiffParser.cpp: the tests for "--- " and "+++ " come before the hunk body.
use git_branch_manager.Base.{true, List, [], ◌∷◌, ◌++◌, ◌≡◌, refl, arith}
use git_branch_manager.Base.Text.{Bytes, codes, starts_with}
use git_branch_manager.Diff.Parser.{Options, Parser, update_last, extended_header, parse_line}
use git_branch_manager.Diff.Types.{DiffHunk, DiffFile}

-- The hunks of every file.
abbrev pub hunks_of : List DiffFile → List (List DiffHunk)
hunks_of [] = []
hunks_of (f ∷ fs) = f.hunks ∷ hunks_of fs

hunks_of-update_last :
    (f : DiffFile → DiffFile)
    → ((file : DiffFile) → (f file).hunks ≡ file.hunks)
    → (files : List DiffFile) → hunks_of (update_last f files) ≡ hunks_of files
hunks_of-update_last f same [] = refl
hunks_of-update_last f same (x ∷ []) = rw (same x)
hunks_of-update_last f same (x ∷ y ∷ files) = rw (hunks_of-update_last f same (y ∷ files))

-- Inside a file, also inside a hunk, a removed line whose text begins with "-- ", and an added
-- line whose text begins with "++ ", is taken for a file header: it enters no hunk.
pub dashes_lost :
    (options : Options) (p : Parser) (rest : Bytes)
    → p.has_file ≡ true
    → (hunks_of (parse_line options p (b'-' ∷ (codes "-- " ++ rest))).files ≡ hunks_of p.files)
      × (hunks_of (parse_line options p (b'+' ∷ (codes "++ " ++ rest))).files ≡ hunks_of p.files)
unfolding parse_line extended_header starts_with
dashes_lost options p rest has = (
  simp has (hunks_of-update_last _ (λ f. ground arith) p.files),
  simp has (hunks_of-update_last _ (λ f. ground arith) p.files),
)
