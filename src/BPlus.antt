-- ===== src/BPlus.antt =====
-- The B+ tree engine, pkg/storage/bplustree.
pub mod Search
pub mod Key
pub mod FreeList
pub mod Offsets
pub mod Degree
pub mod Store
pub mod Node
pub mod Removal
pub mod Tree
pub mod Config
pub mod Sound
pub mod Refine
pub mod Client
