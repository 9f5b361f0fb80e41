-- ===== src/Btree.antt =====
-- The B-tree engine, pkg/storage/btree: values stand beside the keys of every node.
pub mod File
pub mod Loops
pub mod Node
pub mod Removal
pub mod Tree
