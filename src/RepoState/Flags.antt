-- ===== src/RepoState/Flags.antt =====
-- src/core/git/RepoState.cpp: the state against the files that it is read off.
use git_branch_manager.Base.{Bool, true, not, ◌||◌, ◌≡◌, arith}
use git_branch_manager.RepoState.{
  merge_head, cherry_pick_head, revert_head, bisect_log, sequencer_todo, rebase_merge, rebase_apply,
  Disk, read_flags, read_state, read_rebase_merge, read_rebase_apply, read_lock, is_clean,
  is_sequencer_operation,
}

-- One of the files whose controls are continue, skip and abort.
abbrev pub any_sequencer_file : Disk → Bool
any_sequencer_file d =
    d.exists cherry_pick_head
    || d.exists revert_head
    || d.exists sequencer_todo
    || d.exists rebase_merge
    || d.exists rebase_apply

abbrev pub any_state_file : Disk → Bool
any_state_file d = any_sequencer_file d || d.exists merge_head || d.exists bisect_log

read_state-flags : (d : Disk) → d.is_valid ≡ true → (read_state d).flags ≡ read_flags d
unfolding read_state read_rebase_merge read_rebase_apply read_lock
read_state-flags d h = ground (arith, h)

-- A repository is in a sequencer operation exactly if one of the files for it is there, and clean
-- exactly if none of the seven files that are asked for is.
pub read_state-operation :
    (d : Disk)
    → d.is_valid ≡ true
    → (is_sequencer_operation (read_state d) ≡ any_sequencer_file d)
      × (is_clean (read_state d) ≡ not (any_state_file d))
unfolding read_flags is_sequencer_operation
read_state-operation d h = rw (read_state-flags d h) (ground arith)
