-- ===== src/Diff/Patch.antt =====
-- src/core/git/UnifiedDiffParser.cpp: `appendPatchHeader` and `buildHunkPatch`. The header is
-- returned, and the caller puts it in front of the rest of the patch.
use git_branch_manager.Base.{
  ℕ, ◌+◌, ◌%◌, ◌^◌, Bool, true, false, not, ◌&&◌, ◌||◌, List, [], ◌∷◌, ◌++◌, if◌then◌else◌,
  is_empty,
}
use git_branch_manager.Base.Decimal.{to_string, int_to_string}
use git_branch_manager.Base.Text.{Bytes, codes, bytes_eq}
use git_branch_manager.Diff.Types.{DiffLineKind, DiffLine, DiffHunk, FileChangeKind, DiffFile}

abbrev pub newline : Bytes
newline = b'\n' ∷ []

abbrev is_renamed : FileChangeKind → Bool
is_renamed FileChangeKind.renamed = true
is_renamed _ = false

abbrev is_copied : FileChangeKind → Bool
is_copied FileChangeKind.copied = true
is_copied _ = false

abbrev is_added : FileChangeKind → Bool
is_added FileChangeKind.added = true
is_added _ = false

-- `old_path` and `new_path` are the parameters of `appendPatchHeader`, not the file's fields.
unfoldable pub patch_header : DiffFile → Bytes → Bytes → Bool → Bytes
unfolding bytes_eq int_to_string
patch_header file old_path new_path unstaging =
    let is_rename_or_copy =
      (is_renamed file.kind || is_copied file.kind) && not (bytes_eq old_path new_path) in
    let content_only_at_new_path = unstaging && is_rename_or_copy in
    let header_old_path = if content_only_at_new_path then new_path else old_path in
    let mode = if is_empty file.new_mode then codes "100644" else file.new_mode in
    let word = if is_renamed file.kind then codes "rename" else codes "copy" in
    let moved =
      if is_rename_or_copy && not content_only_at_new_path
      then codes "similarity index "
        ++ (int_to_string file.similarity
            ++ (codes "%\n"
                ++ (word
                    ++ (codes " from "
                        ++ (old_path
                            ++ (newline ++ (word ++ (codes " to " ++ (new_path ++ newline)))))))))
      else [] in
    if not unstaging && is_added file.kind
    then codes "diff --git a/"
      ++ (new_path
          ++ (codes " b/"
              ++ (new_path
                  ++ (newline
                      ++ (codes "new file mode "
                          ++ (mode
                              ++ (newline
                                  ++ (codes "--- /dev/null\n"
                                      ++ (codes "+++ b/" ++ (new_path ++ newline))))))))))
    else codes "diff --git a/"
      ++ (header_old_path
          ++ (codes " b/"
              ++ (new_path
                  ++ (newline
                      ++ (moved
                          ++ (codes "--- a/"
                              ++ (header_old_path
                                  ++ (newline ++ (codes "+++ b/" ++ (new_path ++ newline))))))))))

-- `file.oldPath.empty() ? file.newPath : file.oldPath`, and the other way round.
unfoldable pub patch_old_path : DiffFile → Bytes
patch_old_path file = if is_empty file.old_path then file.new_path else file.old_path

unfoldable pub patch_new_path : DiffFile → Bytes
patch_new_path file = if is_empty file.new_path then file.old_path else file.new_path

-- `++count` on a `uint32_t`.
abbrev pub increment : ℕ → ℕ
increment n = (n + 1) % 2 ^ 32

-- The pair is `oldCount` and `newCount`.
unfoldable pub count_kind : DiffLineKind → ℕ × ℕ → ℕ × ℕ
count_kind DiffLineKind.context (o, n) = (increment o, increment n)
count_kind DiffLineKind.added (o, n) = (o, increment n)
count_kind DiffLineKind.removed (o, n) = (increment o, n)
count_kind DiffLineKind.no_newline_marker (o, n) = (o, n)

unfoldable pub count_lines : ℕ × ℕ → List DiffLine → ℕ × ℕ
unfolding count_kind
count_lines counts [] = counts
count_lines counts (line ∷ lines) = count_lines (count_kind line.kind counts) lines

-- "@@ -start,count +start,count @@"
unfoldable pub hunk_header : ℕ → ℕ → ℕ → ℕ → Bytes
unfolding to_string
hunk_header old_start old_count new_start new_count =
    codes "@@ -"
    ++ (to_string old_start
        ++ (codes ","
            ++ (to_string old_count
                ++ (codes " +"
                    ++ (to_string new_start
                        ++ (codes "," ++ (to_string new_count ++ codes " @@\n")))))))

abbrev pub no_newline_text : Bytes
no_newline_text = codes "\\ No newline at end of file\n"

unfoldable pub patch_line : Bool → DiffLineKind → Bytes → Bytes
patch_line reverse DiffLineKind.context text = b' ' ∷ (text ++ newline)
patch_line reverse DiffLineKind.added text = (if reverse then b'-' else b'+') ∷ (text ++ newline)
patch_line reverse DiffLineKind.removed text = (if reverse then b'+' else b'-') ∷ (text ++ newline)
patch_line reverse DiffLineKind.no_newline_marker text = no_newline_text

unfoldable pub patch_lines : Bool → List DiffLine → Bytes
unfolding patch_line
patch_lines reverse [] = []
patch_lines reverse (line ∷ lines) =
    patch_line reverse line.kind line.text ++ patch_lines reverse lines

unfoldable pub build_hunk_patch : DiffFile → DiffHunk → Bool → Bool → Bytes
unfolding patch_header patch_old_path patch_new_path count_lines hunk_header patch_lines
build_hunk_patch file hunk reverse unstaging =
    let (old_count, new_count) = count_lines (0, 0) hunk.lines in
    patch_header file (patch_old_path file) (patch_new_path file) unstaging
    ++ ((if reverse
          then hunk_header hunk.new_start new_count hunk.old_start old_count
          else hunk_header hunk.old_start old_count hunk.new_start new_count)
        ++ patch_lines reverse hunk.lines)
