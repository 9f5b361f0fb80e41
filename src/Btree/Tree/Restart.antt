-- ===== src/Btree/Tree/Restart.antt =====
-- A root that is given up, and the header, pkg/storage/btree/BTree.cpp and
-- pkg/storage/btree/DataFileIO.cpp.
use godbee.Base.{◌≡◌, refl, false, some, [], ◌∷◌, ◌++◌, arith}
use godbee.Btree.File.{
  Node, node_page, node_at, deleted, Config, Tree, write_node, write_page, read_node, is_leaf,
}
use godbee.Btree.Tree.{set_root, lower_root, write_header, open_file}

-- Where the root, at the position that the header knows, is an inner node without entries, giving it up
-- makes its child the root, but the header that is written then still has the old position: the file that
-- is opened with it has the given up node as its root, marked as deleted.
pub lower_root-stale :
    (c : Config) (n child : Node) (s : Tree)
    → is_leaf n.flag ≡ false
    → n.pos ≡ s.root_pos
    → s.file (n.arr_child 0) ≡ node_page child
    → (s' : Tree) × (lower_root c n s ≡ some (tt, s'))
      × (s'.root ≡ some child)
      × (open_file (write_header s') s'.deleted_nodes_pos s'.deleted_vals_pos s'.file s'.pages
          ≡ some (record s' { root = some (record n { flag = deleted }) }))
unfolding lower_root write_header open_file read_node node_at set_root write_node write_page
lower_root-stale c n child s inner at stands =
    let s' =
      write_page n.pos (node_page (record n { flag = deleted }))
        (record s { root = some child; deleted_nodes_pos = s.deleted_nodes_pos ++ (n.pos ∷ []) }) in
    let found : s'.file s.root_pos ≡ node_page (record n { flag = deleted }) = ground (arith, at) in
    (s', rw (inner, stands) refl, refl, rw (open_file, found) refl)
