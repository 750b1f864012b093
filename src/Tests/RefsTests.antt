-- ===== src/Tests/RefsTests.antt =====
-- src/core/git/RefStore.cpp: a repository with an annotated tag and a branch that lost its upstream.
use git_branch_manager.Base.Text.{codes, bytes_eq}
use git_branch_manager.Base.{ℕ, true, false, [], ◌∷◌, ◌≡◌, refl, arith, inl, replicate}
use git_branch_manager.Graph.ObjectId.{ObjectId}
use git_branch_manager.Refs.Names.{history_seed_refs, is_valid_branch_name}
use git_branch_manager.Refs.Printed.{Ref, IsRef, print_refs, infos_of, parse_lines-print}
use git_branch_manager.Refs.Seeds.Start.{IsStart, history_seed_refs-IsStart}
use git_branch_manager.Refs.{
  RefSnapshot, HeadInfo, branch, parse_lines, snapshot_of, ref_display_name,
}

abbrev id : ℕ → ObjectId
id n = record { bytes = replicate 20 n }

abbrev main_branch : Ref
main_branch = record {
  full_name = codes "refs/heads/main";
  is_annotated = false;
  object_type = codes "commit";
  tag_object = id 0;
  target = id 171;
  upstream = codes "refs/remotes/origin/main";
  track = codes "[gone]";
  is_head = true;
  worktree_path = [];
  symref = [];
}

abbrev release : Ref
release = record main_branch {
  full_name = codes "refs/tags/v1";
  is_annotated = true;
  tag_object = id 18;
  upstream = [];
  track = [];
  is_head = false;
}

main-IsRef : IsRef main_branch
unfolding bytes_eq
main-IsRef = record {
  named = refl;
  type = refl;
  tag_object = (grind arith, inl refl);
  target = (grind arith, inl refl);
  name_field = ground arith;
  type_field = ground arith;
  upstream_field = ground arith;
  track_field = ground arith;
  worktree_field = tt;
  symref_field = tt;
}

release-IsRef : IsRef release
unfolding bytes_eq
release-IsRef = record {
  named = refl;
  type = refl;
  tag_object = (grind arith, inl refl);
  target = (grind arith, inl refl);
  name_field = ground arith;
  type_field = ground arith;
  upstream_field = tt;
  track_field = tt;
  worktree_field = tt;
  symref_field = tt;
}

parse_lines-print_example :
    parse_lines (print_refs (main_branch ∷ release ∷ [])) ≡ infos_of (main_branch ∷ release ∷ [])
parse_lines-print_example =
    parse_lines-print (main_branch ∷ release ∷ []) (main-IsRef, (release-IsRef, tt))

abbrev head : HeadInfo
head = record {
  kind = branch;
  branch_name = codes "main";
  full_ref = codes "refs/heads/main";
  target = id 171;
}

abbrev snapshot : RefSnapshot
snapshot = snapshot_of head (infos_of (main_branch ∷ release ∷ []))

history_seed_refs-IsStart_example : IsStart snapshot (history_seed_refs snapshot)
history_seed_refs-IsStart_example = history_seed_refs-IsStart snapshot

tag-name : ref_display_name (codes "refs/tags/v1") ≡ codes "v1"
unfolding ref_display_name
tag-name = refl

refused-name : is_valid_branch_name (codes "a..b") ≡ false
unfolding is_valid_branch_name
refused-name = refl
