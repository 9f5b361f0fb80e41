-- ===== src/BPlus/Tree.antt =====
-- The walks down the tree, pkg/storage/bplustree/BPlusTreeNode.cpp, and the tree's operations,
-- pkg/storage/bplustree/BPlusTree.cpp. The recursion over the levels runs on fuel, and the file's
-- number of pages plus one is given, since no two levels share a page.
use godbee.Base.{
  ℕ, zero, suc, ◌+◌, ◌-◌, ◌*◌, Bool, true, false, Option, none, some, ltb, ◌==◌, if◌then◌else◌,
  update, length, ◌&&◌, ◌%◌, ◌^◌,
}
use godbee.BPlus.Search.{Key, index_node_equal, index_node_larger, is_existing}
use godbee.BPlus.FreeList
use godbee.BPlus.Offsets.{MetaData}
use godbee.BPlus.Store.{
  Value, leaf_node, internal_node, blank, Node, Store, M, pure, fault, ◌>>=◌, ◌>>◌, get_store,
  get_node, get_value, flush_to_file, new_node, update_root,
}
use godbee.BPlus.Node.{Entry, insert_right, insert_and_split_internal, leaf_insert}
use godbee.BPlus.Removal.{
  is_leaf, clear_childs, mark_delete, redistribute_from_internal, leaf_remove,
}

module _ (md : MetaData) where
  -- `getNode(childs[indexNodeLarger(keys, size, key)])`; the index -1 is out of bounds.
  unfoldable pub child_at : Node → Option ℕ → M Node
  child_at n none = fault
  child_at n (some i) = get_node md (n.childs i)

  unfoldable pub child_for : Node → Key → M Node
  unfolding child_at
  child_for n key = child_at n (index_node_larger n.keys n.size key)

  -- What `internalInsert` does with the entry that comes back from the child.
  unfoldable pub add_entry : Node → Option Entry → M (Option Entry × Node)
  add_entry n none = pure (none, n)
  add_entry n (some e) =
      if n.size == 2 * md.max_degree - 1
      then (do (e', n') ← insert_and_split_internal md n e.key e.value; pure (some e', n'))
      else (do n' ← insert_right md n e.key e.value; pure (none, n'))

  unfoldable pub internal_insert : ℕ → Node → Key → Value → M (Option Entry × Node)
  unfolding is_leaf add_entry
  internal_insert zero n key value = fault
  internal_insert (suc fuel) n key value =
      let down : M (Option Entry × Node) = (do
        child ← child_for n key
        (e, child') ← internal_insert fuel child key value
        add_entry n e) in
      if is_leaf n.flag then leaf_insert md n key value else down

  -- The constructor of a root over two nodes.
  unfoldable pub new_root : Key → Node → Node → M Node
  new_root key left right = do
    n ← new_node md internal_node
    pure (record n {
      keys = update n.keys 0 key;
      childs = update (update n.childs 0 left.off_set) 1 right.off_set;
      size = 1;
    })

  unfoldable pub grow_root : Node → Option Entry → M Node
  grow_root n none = pure n
  grow_root n (some e) = do
    right_child ← get_node md e.value
    root ← new_root e.key n right_child
    flush_to_file md root
    pure root

  unfoldable pub insert : Node → Key → Value → M Node
  unfolding grow_root
  insert n key value = do
    s ← get_store
    (e, n') ← internal_insert (s.pages + 1) n key value
    grow_root n' e

  unfoldable pub get_at : Node → Option ℕ → M (Option Value)
  get_at n none = pure none
  get_at n (some i) = do v ← get_value md (n.childs i); pure (some v)

  unfoldable pub get_from : ℕ → Node → Key → M (Option Value)
  unfolding is_leaf get_at
  get_from zero n key = fault
  get_from (suc fuel) n key =
      let down : M (Option Value) = (do child ← child_for n key; get_from fuel child key) in
      if is_leaf n.flag then get_at n (index_node_equal n.keys n.size key) else down

  unfoldable pub exist_from : ℕ → Node → Key → M Bool
  unfolding is_leaf
  exist_from zero n key = fault
  exist_from (suc fuel) n key =
      let down : M Bool = (do child ← child_for n key; exist_from fuel child key) in
      if is_leaf n.flag then pure (is_existing n.keys n.size key) else down

  -- What `internalRemove` does when the child is done and `this` may have lost an entry.
  unfoldable pub after_remove : Node → Option Node → ℕ → Node → Bool → M (Bool × Node × Option Node)
  after_remove n none node_index child result = do
    let n' = if n.size == 0 then record n { childs = update n.childs 0 child.off_set } else n
    flush_to_file md n'
    pure (result, n', none)
  after_remove n (some father) node_index child result =
      if ltb n.size (md.max_degree - 1)
      then (do
        (n', father') ← redistribute_from_internal md n father node_index
        flush_to_file md n'
        pure (result, n', some father'))
      else (do flush_to_file md n; pure (result, n, some father))

  -- The child's father is `this`.
  unfoldable pub or_this : Node → Option Node → Node
  or_this n none = n
  or_this n (some n') = n'

  unfoldable pub internal_remove : ℕ → Node → Option Node → ℕ → Key → M (Bool × Node × Option Node)
  unfolding is_leaf child_at after_remove or_this
  internal_remove zero n father node_index key = fault
  internal_remove (suc fuel) n father node_index key =
      let down : M (Bool × Node × Option Node) = (do
        let child_index = index_node_larger n.keys n.size key
        child ← child_at n child_index
        (result, child', this) ←
            internal_remove fuel child (some n) (elim child_index [ none ↦ 0 | some i ↦ i ]) key
        after_remove (or_this n this) father node_index child' result) in
      if is_leaf n.flag then leaf_remove md n father node_index key else down

  -- `remove` of the root: `this`, and the new root, which is `none` where the key is missing.
  unfoldable pub shrink_root : Bool → Node → M (Node × Option Node)
  shrink_root false n = pure (n, none)
  shrink_root true n =
      if n.size == 0
      then (if is_leaf n.flag
          then pure (clear_childs md n, some (clear_childs md n))
          else (do res ← get_node md (n.childs 0); n' ← mark_delete md n; pure (n', some res)))
      else pure (n, some n)

  unfoldable pub remove_root : Node → Key → M (Node × Option Node)
  unfolding shrink_root
  remove_root n key = do
    s ← get_store
    (result, n', father) ← internal_remove (s.pages + 1) n none 0 key
    shrink_root result n'

-- The tree of a store: the root object that stays in memory.
pub record BPlusTree : Type 0 where
  pub root : Node
  pub store : Store

abbrev pub empty_store : Store
empty_store = record {
  header = record { root = 0; current_value_node = 0 };
  file = λ _. blank;
  pages = 0;
  empty_value_node = 0;
  del_node_pages = FreeList.create;
  del_values = FreeList.create;
}

module _ (md : MetaData) where
  -- The pointer `newRoot != root` is told by the page.
  unfoldable pub note_root : Node → Node → M Node
  note_root old new =
      if old.off_set == new.off_set then pure new else (update_root md new.off_set >> pure new)

  unfoldable pub as_tree : {A : Type 0} → A → Option (Node × Store) → Option (A × BPlusTree)
  as_tree a none = none
  as_tree a (some (root, store)) = some (a, record { root = root; store = store })

  -- A new tree on a file without pages.
  unfoldable pub new_tree : Option (Unit {0} × BPlusTree)
  unfolding as_tree
  new_tree = as_tree tt (new_node md leaf_node empty_store)

  -- What `strcpy` needs: the text and its NUL end inside the buffer of `keySize` or `valueSize` bytes.
  -- The number of a key has the bytes of the buffer as its digits, so the NUL is a last digit 0.
  unfoldable pub is_copied : Key → Value → Bool
  is_copied key value =
      ltb key (256 ^ md.key_size) && (key % 256 == 0) && ltb (length value) md.value_size

  -- A longer key or value overruns its buffer.
  unfoldable pub tree_set : BPlusTree → Key → Value → Option (Unit {0} × BPlusTree)
  unfolding is_copied as_tree note_root
  tree_set t key value =
      if is_copied key value
      then as_tree tt ((insert md t.root key value >>= note_root t.root) t.store)
      else none

  unfoldable pub as_reader : {A : Type 0} → BPlusTree → Option (A × Store) → Option (A × BPlusTree)
  as_reader t none = none
  as_reader t (some (a, store)) = some (a, record t { store = store })

  unfoldable pub tree_get : BPlusTree → Key → Option (Option Value × BPlusTree)
  unfolding as_reader
  tree_get t key = as_reader t (get_from md (t.store.pages + 1) t.root key t.store)

  unfoldable pub tree_exist : BPlusTree → Key → Option (Bool × BPlusTree)
  unfolding as_reader
  tree_exist t key = as_reader t (exist_from md (t.store.pages + 1) t.root key t.store)

  -- Without a result the root object stays; it may have been written to.
  unfoldable pub keep_or_note : Node → Option Node → M (Bool × Node)
  keep_or_note old none = pure (false, old)
  keep_or_note old (some new) = do n ← note_root old new; pure (true, n)

  unfoldable pub as_removed : Option ((Bool × Node) × Store) → Option (Bool × BPlusTree)
  as_removed none = none
  as_removed (some ((done, root), store)) = some (done, record { root = root; store = store })

  unfoldable pub tree_remove : BPlusTree → Key → Option (Bool × BPlusTree)
  unfolding note_root keep_or_note as_removed
  tree_remove t key =
      as_removed ((do (old, new) ← remove_root md t.root key; keep_or_note old new) t.store)
