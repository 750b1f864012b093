-- ===== src/Graph/Types.antt =====
-- src/core/graph/GraphSnapshot.h: the rows and edges of a graph. Row and edge numbers are
-- `uint32_t`, lanes `uint16_t`; the builder's row cap keeps them below their limits.
use git_branch_manager.Base.{ℕ, Bool, List}
use git_branch_manager.Graph.ObjectId.{ObjectId}

abbrev pub k_row_boundary : ℕ
k_row_boundary = 0xffff_ffff

abbrev pub k_max_lanes : ℕ
k_max_lanes = 48

abbrev pub k_palette_size : ℕ
k_palette_size = 12

pub data EdgeKind : Type 0 where
  first_parent merge_parent octopus : EdgeKind

pub record RowMeta : Type 0 where
  pub parent_offset : ℕ
  pub edge_offset : ℕ
  pub commit_time : ℕ
  pub lane : ℕ
  pub color : ℕ
  pub flags : ℕ

abbrev pub flag_is_merge : ℕ
flag_is_merge = 0x08

abbrev pub flag_boundary : ℕ
flag_boundary = 0x40

abbrev pub flag_lane_overflow : ℕ
flag_lane_overflow = 0x80

pub record Edge : Type 0 where
  pub child_row : ℕ
  pub parent_row : ℕ
  pub lane : ℕ
  pub child_lane : ℕ
  pub color : ℕ
  pub kind : EdgeKind

-- The public fields of `GraphSnapshot`; its indices are rebuilt from them.
pub record GraphSnapshot : Type 0 where
  pub oids : List ObjectId
  pub rows : List RowMeta
  pub parent_pool : List ℕ
  pub edges : List Edge
  pub lane_count : ℕ
  pub complete : Bool
  pub truncated : Bool
  pub overflowed_edges : ℕ
