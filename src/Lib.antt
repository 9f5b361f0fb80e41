-- ===== src/Lib.antt =====
-- godbee: the key-value store of zalopay-oss/godbee, its B+ tree engine pkg/storage/bplustree, and the
-- older B-tree engine pkg/storage/btree. A line of text is turned into calls by the command interpreter,
-- and each access to a file takes a handle from a pool that the threads share.
--
-- A B+ tree is a root object in memory and a database file of pages behind a header. A page is a node
-- of the tree or an array of values, and an offset names a page and an index in it. Two lists of
-- free positions, each with a file of its own, say which pages and values may be used again. A
-- leaf's children are the offsets of its values, an inner node's are the offsets of its nodes.
--
-- Files, by the code that they model:
--   BPlus/Search     the searches in a node, pkg/storage/bplustree/utils.cpp: `index_node_larger`
--                    is `indexNodeLarger`, and so on; Position says where they stop
--   BPlus/FreeList   `DelNodeList`, pkg/storage/bplustree/DelNodeList.cpp; Stack and Reload
--   BPlus/Offsets    offsets, pkg/storage/bplustree/fileUtils.cpp; Fields says what they are made of
--   BPlus/Degree     the width of an index, pkg/storage/bplustree/fileUtils.cpp
--   BPlus/Store      pages, values and the header in the file, pkg/storage/bplustree/fileUtils.cpp,
--                    and the reads and writes of a node, pkg/storage/bplustree/BPlusTreeNode.cpp
--   BPlus/Node       insertion into one node, and the split of a full one; Loops is about its loops
--   BPlus/Removal    removal from one node, rotations and merges; Loops is about its loops
--   BPlus/Tree       the walks down the tree, the growth and the loss of a root, and the operations
--                    of pkg/storage/bplustree/BPlusTree.cpp
--   BPlus/Config     the choice of a configuration, and a tree on a file that is there,
--                    pkg/storage/bplustree/fileUtils.cpp, fileUtils.h and BPlusTree.cpp
--   BPlus/Sound      what a sound store is; Sound/Insert is about insertion, Sound/Remove about removal:
--                    Repair, Rotate, Merge and Father say what a move between siblings has to do,
--                    LeafFromLeft and its like are about the moves, Walk about the way down and
--                    up, Root, Shrink and Ends about the root
--   BPlus/Refine     the tree as a map from keys to values; Removal is about `remove`, History
--                    about runs of calls
--   BPlus/Key        keys as bytes, and as the numbers that the searches compare
--   BPlus/Client     the store that commands run on, pkg/storage/bplustree/BPlusTreeStore.cpp
--   Command          commands, pkg/storage/bplustree/utils.cpp: `read_arg` is `readArg`,
--                    `excute_comand` is `excuteComand`; Words, Quotes and Run
--   Pool             the pool of file handles, pkg/storage/bplustree/fileUtils.cpp and
--                    pkg/storage/btree/FileManager.cpp, a step relation; Count, Invariant and Safety
--   Btree/File       pages, values and positions of the B-tree engine,
--                    pkg/storage/btree/DataFileIO.cpp and BTree.cpp; Values is about its values
--   Btree/Node       search and insertion, pkg/storage/btree/BTreeNode.cpp; SearchTree says what a
--                    search tree is, Split, Bounds, Frame, Kept and Invariant are about a split, Leaf
--                    about a leaf, Search about searches
--   Btree/Removal    removal, pkg/storage/btree/BTreeNode.cpp; Merge is about merged nodes, Rotate about borrowed
--                    entries
--   Btree/Tree       the operations of pkg/storage/btree/BTree.cpp, and the header; Restart
--   Btree/Loops      the loops on arrays that splits and merges share
--   Base             names of the library, Boolean tests, arrays
--   Tests            the theorems at concrete inputs
--
-- State is passed explicitly: an operation takes a `Store` and returns `some` result and the new
-- store, or `none` where the code reads through an index or a page that is not there, or writes behind
-- the end of a buffer or an array. A method that changes the object `this` returns it beside its result.
--
-- A key is the number that its bytes spell, padded with zeros to the size of a key, so that `strcmp`
-- compares numbers. `BPlusTree::set` copies its key and value with `strcpy` into buffers of `keySize` and
-- `valueSize` bytes: `tree_set` stops unless both fit with their NULs, and a value of the model is the text
-- in such a buffer. A B-tree node has `2 * T - 1` entries at most: the operations that add entries stop where
-- it would get more. An array of keys or children is a function of the index; what the code leaves
-- behind the size of a node is never read. Numbers do not wrap: an offset would have to reach 2^64.
--
-- Fuel: a binary search gets the size of the node plus one, since each round makes the range
-- shorter. A walk down the tree gets the number of pages plus one, since each level has a page of
-- its own. `countBits` gets its argument, which is halved each round. The theorems show that these
-- are enough. `calculateMaxDegree` gets as many rounds as its counter has values.
--
-- A configuration has a degree of at least two, its nodes fit into a page and into the one buffer that they
-- are written through, and whole values fill a page exactly (`IsConfig`). A page of the B-tree engine is to
-- have room for four values, as the two bits of an index want: `update_value_at` stops where a value would
-- run into the next page.
-- BPlus/Config and the way down of a removal in Btree/Removal are definitions without theorems. Not
-- modelled: the bytes of a page, what `traverse` prints, the configuration files, the files of the
-- B-tree engine's two queues, the buffers of the file handles, and with them calls of several threads
-- on one tree, and the wrappers for Go and the programs around them.
--
-- A parameter `stray` of the command interpreter is the byte that stands in front of an empty text:
-- `readArg` reads it for an argument that is a single quote, and where no word is left.

pub mod Base
pub mod Pool
pub mod Command
pub mod BPlus
pub mod Btree
mod Tests
