-- ===== src/Tests/TransferTests.antt =====
-- src/core/git/TransferProgress.cpp: two redraws in a chunk.
use git_branch_manager.Base.Text.{codes}
use git_branch_manager.Base.{[], ◌∷◌, ◌≡◌, refl, arith, none}
use git_branch_manager.Transfer.Latest.{
  Redraw, IsRedraw, print_chunk, last_progress, parse_transfer_progress-print,
}
use git_branch_manager.Transfer.{receiving_objects, resolving_deltas, parse_transfer_progress}

abbrev receiving : Redraw
receiving = record {
  progress = record { phase = receiving_objects; current = 120; total = 240 };
  percentage = codes "  50% ";
  tail = codes ", 1.2 MiB | 3 MiB/s";
}

abbrev resolving : Redraw
resolving = record {
  progress = record { phase = resolving_deltas; current = 7; total = 10 };
  percentage = codes "  70% ";
  tail = [];
}

receiving-IsRedraw : IsRedraw receiving
receiving-IsRedraw = record {
  current = omega arith;
  total = omega arith;
  bracket = ground arith;
  percentage = ground arith;
  tail = ground arith;
}

resolving-IsRedraw : IsRedraw resolving
resolving-IsRedraw = record {
  current = omega arith;
  total = omega arith;
  bracket = ground arith;
  percentage = ground arith;
  tail = tt;
}

parse_transfer_progress-print_example :
    parse_transfer_progress (print_chunk (receiving ∷ resolving ∷ []))
    ≡ last_progress (receiving ∷ resolving ∷ [])
parse_transfer_progress-print_example =
    parse_transfer_progress-print (receiving ∷ resolving ∷ [])
      (receiving-IsRedraw, (resolving-IsRedraw, tt))

no-progress : parse_transfer_progress (codes "remote: Counting objects: 5, done.\n") ≡ none
unfolding parse_transfer_progress
no-progress = refl
