-- ===== src/BPlus/Removal.antt =====
-- Removal from one node, and the moves between siblings that go before or after it,
-- pkg/storage/bplustree/BPlusTreeNode.cpp. A move returns `this` and the father; what it does to the
-- sibling it writes to the file, since the caller deletes the object.
pub mod Loops
use godbee.Base.{
  ℕ, zero, suc, ◌+◌, ◌-◌, Bool, true, false, Option, none, some, ltb, leb, ◌==◌, if◌then◌else◌,
  Array, update,
}
use godbee.BPlus.Search.{Key, index_node_equal, is_existing}
use godbee.BPlus.Offsets.{MetaData}
use godbee.BPlus.Store.{
  Flag, leaf_node, internal_node, removed_node, Node, M, pure, fault, ◌>>=◌, ◌>>◌, get_node,
  flush_to_file, push_del_node_page, push_del_value,
}

unfoldable pub is_leaf : Flag → Bool
is_leaf leaf_node = true
is_leaf internal_node = false
is_leaf removed_node = false

-- `for (i = from; ...; i++) a[i] = a[i + 1]`, `rounds` times.
unfoldable pub close_up : ℕ → ℕ → Array ℕ → Array ℕ
close_up zero i a = a
close_up (suc rounds) i a = close_up rounds (i + 1) (update a i (a (i + 1)))

-- `for (i = n - 1; i >= 0; i--) a[i + 1] = a[i]`.
unfoldable pub open_up : ℕ → Array ℕ → Array ℕ
open_up zero a = a
open_up (suc i) a = open_up i (update a (i + 1) (a i))

-- `for (i = 0; i < n; i++) to[at + i] = from[i]`, from round `i` on.
unfoldable pub copy_to : ℕ → ℕ → ℕ → Array ℕ → Array ℕ → Array ℕ
copy_to zero i at from to = to
copy_to (suc rounds) i at from to = copy_to rounds (i + 1) at from (update to (at + i) (from i))

-- The same within one array: what has been written may be read again.
unfoldable pub move_to : ℕ → ℕ → ℕ → Array ℕ → Array ℕ
move_to zero i at a = a
move_to (suc rounds) i at a = move_to rounds (i + 1) at (update a (at + i) (a i))

module _ (md : MetaData) where
  unfoldable pub close_at : Node → ℕ → Node
  unfolding close_up
  close_at n index =
      let rounds = n.size - 1 - index in
      let childs = close_up rounds index n.childs in
      record n {
        keys = close_up rounds index n.keys;
        childs = update (update childs (n.size - 1) (childs n.size)) n.size 0;
        size = n.size - 1;
      }

  -- `removeLeft(int index)`
  unfoldable pub remove_left_at : Node → ℕ → M Node
  unfolding is_leaf close_at
  remove_left_at n index =
      if is_leaf n.flag
      then (push_del_value md (n.childs index) >> pure (close_at n index))
      else pure (close_at n index)

  unfoldable pub at_found : Node → Option ℕ → M Node
  at_found n none = fault
  at_found n (some index) = remove_left_at n index

  -- `removeLeft(char *key)`
  unfoldable pub remove_left : Node → Key → M Node
  unfolding at_found
  remove_left n key = at_found n (index_node_equal n.keys n.size key)

  unfoldable pub clear_childs : Node → Node
  clear_childs n = record n { childs = λ _. 0; size = 0 }

  unfoldable pub mark_delete : Node → M Node
  unfolding clear_childs
  mark_delete n = do
    let n' = record (clear_childs n) { flag = removed_node }
    flush_to_file md n'
    push_del_node_page md n'.off_set
    pure n'

  -- The last entry of the left sibling comes to the front, through the father's key.
  unfoldable pub swap_clock_wise_itn : Node → Node → ℕ → Node → M (Node × Node)
  unfolding open_up
  swap_clock_wise_itn n father node_index left = do
    let moved_childs = open_up n.size (update n.childs (n.size + 1) (n.childs n.size))
    let this = record n {
      keys = update (open_up n.size n.keys) 0 (father.keys (node_index - 1));
      childs = update moved_childs 0 (left.childs left.size);
      size = n.size + 1;
    }
    let father' = record father {
      keys = update father.keys (node_index - 1) (left.keys (left.size - 1));
    }
    flush_to_file md (record left { childs = update left.childs left.size 0; size = left.size - 1 })
    pure (this, father')

  -- The first entry of the right sibling comes to the end, through the father's key.
  unfoldable pub swap_counter_clock_wise_itn : Node → Node → ℕ → Node → M (Node × Node)
  unfolding close_up
  swap_counter_clock_wise_itn n father node_index right = do
    let this = record n {
      keys = update n.keys n.size (father.keys node_index);
      childs = update n.childs (n.size + 1) (right.childs 0);
      size = n.size + 1;
    }
    let father' = record father { keys = update father.keys node_index (right.keys 0) }
    let childs = close_up (right.size - 1) 0 right.childs
    flush_to_file md (record right {
      keys = close_up (right.size - 1) 0 right.keys;
      childs = update (update childs (right.size - 1) (childs right.size)) right.size 0;
      size = right.size - 1;
    })
    pure (this, father')

  unfoldable pub swap_clock_wise_leaf : Node → Node → ℕ → Node → M (Node × Node)
  unfolding open_up
  swap_clock_wise_leaf n father node_index left = do
    let moved_childs = open_up n.size (update n.childs (n.size + 1) (n.childs n.size))
    let this = record n {
      keys = update (open_up n.size n.keys) 0 (left.keys (left.size - 1));
      childs = update moved_childs 0 (left.childs (left.size - 1));
      size = n.size + 1;
    }
    let father' = record father { keys = update father.keys (node_index - 1) (this.keys 0) }
    let childs = update left.childs (left.size - 1) (left.childs left.size)
    flush_to_file md (record left { childs = update childs left.size 0; size = left.size - 1 })
    pure (this, father')

  unfoldable pub swap_counter_clock_wise_leaf : Node → Node → ℕ → Node → M (Node × Node)
  unfolding close_up
  swap_counter_clock_wise_leaf n father node_index right = do
    let this = record n {
      keys = update n.keys n.size (right.keys 0);
      childs = update (update n.childs (n.size + 1) right.off_set) n.size (right.childs 0);
      size = n.size + 1;
    }
    let keys = close_up (right.size - 1) 0 right.keys
    let childs = close_up (right.size - 1) 0 right.childs
    let father' = record father { keys = update father.keys node_index (keys 0) }
    flush_to_file md (record right {
      keys = keys;
      childs = update (update childs (right.size - 1) (childs right.size)) right.size 0;
      size = right.size - 1;
    })
    pure (this, father')

  -- The end of a merge: entry `index` of the father goes, and its child there is `this`.
  unfoldable pub drop_from_father : Node → Node → ℕ → Node → M (Node × Node)
  drop_from_father n father index sibling = do
    father' ← remove_left_at father index
    mark_delete sibling
    pure (n, record father' { childs = update father'.childs index n.off_set })

  unfoldable pub left_merge_itn : Node → Node → ℕ → Node → M (Node × Node)
  unfolding move_to copy_to drop_from_father
  left_merge_itn n father node_index left =
      let moved_keys = move_to n.size 0 (left.size + 1) n.keys in
      let moved_childs = move_to n.size 0 (left.size + 1) n.childs in
      let ended = update moved_childs (left.size + 1 + n.size) (moved_childs n.size) in
      let keyed = update moved_keys left.size (father.keys (node_index - 1)) in
      let filled = copy_to left.size 0 0 left.childs ended in
      drop_from_father
        (record n {
          keys = copy_to left.size 0 0 left.keys keyed;
          childs = update filled left.size (left.childs left.size);
          size = n.size + (left.size + 1);
        })
        father (node_index - 1) left

  unfoldable pub right_merge_itn : Node → Node → ℕ → Node → M (Node × Node)
  unfolding copy_to drop_from_father
  right_merge_itn n father node_index right =
      let filled = copy_to right.size 0 (n.size + 1) right.childs n.childs in
      drop_from_father
        (record n {
          keys =
              update (copy_to right.size 0 (n.size + 1) right.keys n.keys) n.size
                (father.keys node_index);
          childs = update filled (right.size + 1 + n.size) (right.childs right.size);
          size = n.size + (right.size + 1);
        })
        father node_index right

  -- The sibling two places to the left is read, and what is written to it is not flushed.
  unfoldable pub read_second_left : Node → ℕ → M (Unit {0})
  read_second_left father node_index =
      if leb 2 node_index
      then (get_node md (father.childs (node_index - 2)) >> pure tt)
      else pure tt

  unfoldable pub left_merge_leaf : Node → Node → ℕ → Node → M (Node × Node)
  unfolding move_to copy_to read_second_left drop_from_father
  left_merge_leaf n father node_index left = do
    read_second_left father node_index
    let linked = update n.childs (n.size + left.size) (n.childs n.size)
    let keys = move_to n.size 0 left.size n.keys
    let childs = move_to n.size 0 left.size linked
    drop_from_father
        (record n {
          keys = copy_to left.size 0 0 left.keys keys;
          childs = copy_to left.size 0 0 left.childs childs;
          size = n.size + left.size;
        })
        father (node_index - 1) left

  unfoldable pub right_merge_leaf : Node → Node → ℕ → Node → M (Node × Node)
  unfolding copy_to drop_from_father
  right_merge_leaf n father node_index right =
      let filled = copy_to right.size 0 n.size right.childs n.childs in
      drop_from_father
        (record n {
          keys = copy_to right.size 0 n.size right.keys n.keys;
          childs = update filled (right.size + n.size) (right.childs right.size);
          size = n.size + right.size;
        })
        father node_index right

  -- A sibling, or NULL at the father's end.
  unfoldable pub right_sibling : Node → ℕ → M (Option Node)
  right_sibling father node_index =
      if node_index == father.size
      then pure none
      else (do r ← get_node md (father.childs (node_index + 1)); pure (some r))

  unfoldable pub left_sibling : Node → ℕ → M (Option Node)
  left_sibling father node_index =
      if node_index == 0
      then pure none
      else (do l ← get_node md (father.childs (node_index - 1)); pure (some l))

  -- `sibling && sibling->size > maxDegree - 1`
  unfoldable pub can_lend : Option Node → Option Node
  can_lend none = none
  can_lend (some sibling) = if ltb (md.max_degree - 1) sibling.size then some sibling else none

  unfoldable pub choose_leaf :
      Node → Node → ℕ → Option Node → Option Node → Option Node → Option Node → M (Node × Node)
  choose_leaf n father i (some r) lend_left left right = swap_counter_clock_wise_leaf n father i r
  choose_leaf n father i none (some l) left right = swap_clock_wise_leaf n father i l
  choose_leaf n father i none none (some l) right = left_merge_leaf n father i l
  choose_leaf n father i none none none (some r) = right_merge_leaf n father i r
  choose_leaf n father i none none none none = fault

  unfoldable pub redistribute_from_leaf : Node → Node → ℕ → M (Node × Node)
  unfolding right_sibling left_sibling can_lend choose_leaf
  redistribute_from_leaf n father node_index = do
    right ← right_sibling father node_index
    left ← left_sibling father node_index
    choose_leaf n father node_index (can_lend right) (can_lend left) left right

  unfoldable pub choose_itn :
      Node → Node → ℕ → Option Node → Option Node → Option Node → Option Node → M (Node × Node)
  choose_itn n father i (some r) lend_left left right = swap_counter_clock_wise_itn n father i r
  choose_itn n father i none (some l) left right = swap_clock_wise_itn n father i l
  choose_itn n father i none none (some l) right = left_merge_itn n father i l
  choose_itn n father i none none none (some r) = right_merge_itn n father i r
  choose_itn n father i none none none none = fault

  unfoldable pub redistribute_from_internal : Node → Node → ℕ → M (Node × Node)
  unfolding right_sibling left_sibling can_lend choose_itn
  redistribute_from_internal n father node_index = do
    right ← right_sibling father node_index
    left ← left_sibling father node_index
    choose_itn n father node_index (can_lend right) (can_lend left) left right

  -- `father` is `none` at the root. The result: whether a key went, `this`, and the father.
  unfoldable pub remove_under : Node → Option Node → ℕ → Key → M (Bool × Node × Option Node)
  remove_under n none node_index key = do
    n' ← remove_left n key
    flush_to_file md n'
    pure (true, n', none)
  remove_under n (some father) node_index key =
      if ltb (md.max_degree - 1) n.size
      then (do n' ← remove_left n key; flush_to_file md n'; pure (true, n', some father))
      else (do
        (n₁, father') ← redistribute_from_leaf n father node_index
        n' ← remove_left n₁ key
        flush_to_file md n'
        pure (true, n', some father'))

  unfoldable pub leaf_remove : Node → Option Node → ℕ → Key → M (Bool × Node × Option Node)
  unfolding remove_under
  leaf_remove n father node_index key =
      if is_existing n.keys n.size key
      then remove_under n father node_index key
      else pure (false, n, father)
