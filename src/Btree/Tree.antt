-- ===== src/Btree/Tree.antt =====
-- The operations of a `BTree`, pkg/storage/btree/BTree.cpp, and its header,
-- pkg/storage/btree/DataFileIO.cpp. The walks get the number of pages plus one as fuel.
pub mod Restart
use godbee.Base.{
  ℕ, zero, suc, ◌+◌, ◌-◌, ◌*◌, Bool, true, false, ◌&&◌, Option, none, some, List, [], ◌∷◌, ◌++◌,
  ltb, leb, ◌==◌, if◌then◌else◌, Array, update, is_some,
}
use godbee.Base.State.{pure, fault, get_state, modify, ◌>>=◌, ◌>>◌}
use godbee.Btree.File.{
  Key, Value, Flag, leaf, internal, deleted, Node, Page, blank, Config, Tree, M, update_value_at,
  write_node, read_node, update_next_pos_node, new_node, is_leaf,
}
use godbee.Btree.Node
use godbee.Btree.Node.{split_child, insert_non_full}
use godbee.Btree.Removal

unfoldable pub set_root : Option Node → M (Unit {0})
set_root root = modify (λ s. record s { root = root })

module _ (c : Config) where
  first_root : Key → Value → M (Unit {0})
  first_root key value = do
    s ← get_state
    let n = record (new_node c true) {
      arr_entry = update (new_node c true).arr_entry 0 key;
      n_entry = 1;
      pos = s.next_pos_node;
      value_pos = update (new_node c true).value_pos 0 s.next_pos_node_value;
    }
    set_root (some n)
    write_node n n.pos
    update_value_at c s.next_pos_node_value value false

  -- The page of a new root.
  page_for_root : List ℕ → M ℕ
  page_for_root [] = do modify update_next_pos_node; s ← get_state; pure s.next_pos_node
  page_for_root (pos ∷ rest) = do modify (λ s. record s { deleted_nodes_pos = rest }); pure pos

  unfoldable pub split_root : ℕ → Node → Key → Value → M (Unit {0})
  unfolding set_root page_for_root
  split_root fuel root key value = do
    s ← get_state
    pos ← page_for_root s.deleted_nodes_pos
    let new = record (new_node c false) {
      arr_child = update (new_node c false).arr_child 0 root.pos;
      pos = pos;
    }
    n ← split_child c new 0 root
    child ← read_node (n.arr_child (if ltb (n.arr_entry 0) key then 1 else 0))
    insert_non_full c fuel child key value
    set_root (some n)
    modify (λ s. record s { root_pos = n.pos })

  insert_at_root : ℕ → Node → Key → Value → M (Unit {0})
  insert_at_root fuel root key value = do
    n ← insert_non_full c fuel root key value
    set_root (some n)

  insert_under : ℕ → Option Node → Key → Value → M (Unit {0})
  unfolding first_root split_root insert_at_root
  insert_under fuel none key value = first_root key value
  insert_under fuel (some root) key value =
      if root.n_entry == 2 * c.t - 1
      then split_root fuel root key value
      else insert_at_root fuel root key value

  -- The fuel covers a root that is split first.
  unfoldable pub insert : Key → Value → M (Unit {0})
  unfolding insert_under
  insert key value s = insert_under (s.pages + 1) s.root key value s

  search_root : ℕ → Option Node → Key → M (Option Value)
  search_root fuel none key = pure none
  search_root fuel (some root) key =
      if root.n_entry == 0 then pure none else Node.search fuel root key

  unfoldable pub search : Key → M (Option Value)
  unfolding search_root
  search key s = search_root (s.pages + 1) s.root key s

  -- `clearDataDBFile` empties the file, its header too, and the queues are emptied with it.
  unfoldable pub clear : Tree → Tree
  clear s = record s {
    root = none;
    file = λ _. blank;
    pages = 0;
    deleted_nodes_pos = [];
    deleted_vals_pos = [];
  }

  -- A root without entries: the tree is empty, or the one child is the root. The position of the root in
  -- the header is not changed.
  unfoldable pub lower_root : Node → M (Unit {0})
  unfolding clear set_root
  lower_root n = if is_leaf n.flag then (modify clear >> write_node n n.pos) else (do
    child ← read_node (n.arr_child 0)
    set_root (some child)
    modify (λ s. record s { deleted_nodes_pos = s.deleted_nodes_pos ++ (n.pos ∷ []) })
    write_node (record n { flag = deleted }) n.pos)

  remove_root : ℕ → Option Node → Key → M Bool
  remove_root fuel none key = pure false
  remove_root fuel (some root) key = do
    (result, n) ← Removal.remove c fuel root key true
    set_root (some n)
    if n.n_entry == 0 then lower_root n else pure tt
    pure result

  unfoldable pub remove : Key → M Bool
  unfolding remove_root
  remove key s = remove_root (s.pages + 1) s.root key s

-- The fields of the header that change.
pub record BTreeStore : Type 0 where
  pub root_pos : ℕ
  pub next_pos_node : ℕ
  pub next_pos_node_value : ℕ

-- `WRITE_HEADER`, from the destructor.
unfoldable pub write_header : Tree → BTreeStore
write_header s = record {
  root_pos = s.root_pos;
  next_pos_node = s.next_pos_node;
  next_pos_node_value = s.next_pos_node_value;
}

-- `WRITE_HEADER_INIT`.
unfoldable pub write_header_init : BTreeStore
write_header_init = record { root_pos = 0; next_pos_node = 0; next_pos_node_value = 4 }

-- The constructor on a file, with the queues that were saved, and the root that `INIT_STORE` reads.
unfoldable pub open_file : BTreeStore → List ℕ → List ℕ → Array Page → ℕ → Option Tree
open_file h nodes vals file pages =
    let s : Tree = record {
      root = none;
      root_pos = h.root_pos;
      next_pos_node = h.next_pos_node;
      next_pos_node_value = h.next_pos_node_value;
      deleted_nodes_pos = nodes;
      deleted_vals_pos = vals;
      file = file;
      pages = pages;
    } in
    elim (read_node s.root_pos s) [
      | none ↦ none
      | some (n, s') ↦ some (record s' { root = some n })
    ]

-- `INIT_STORE` without a file.
unfoldable pub init_store : Tree
unfolding write_header_init
init_store = record {
  root = none;
  root_pos = write_header_init.root_pos;
  next_pos_node = write_header_init.next_pos_node;
  next_pos_node_value = write_header_init.next_pos_node_value;
  deleted_nodes_pos = [];
  deleted_vals_pos = [];
  file = λ _. blank;
  pages = 0;
}

-- `KeyValueStoreDisk::exist`.
pub exist : Config → Key → M Bool
unfolding search
exist c key = do v ← search c key; pure (is_some v)
