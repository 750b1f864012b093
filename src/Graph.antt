-- ===== src/Graph.antt =====
-- src/core/graph and the object ids of src/core/base: the commit graph layout.
pub mod ObjectId
pub mod Types
pub mod LaneColor
pub mod LaneAllocator
pub mod Pending
pub mod Builder
pub mod Snapshot
