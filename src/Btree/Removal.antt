-- ===== src/Btree/Removal.antt =====
-- Removal, pkg/storage/btree/BTreeNode.cpp. A method returns `this` beside its result. Children that a
-- method reads are its own objects; what it does to them it writes to the file.
pub mod Merge
pub mod Rotate
use godbee.Base.{
  ℕ, zero, suc, ◌+◌, ◌-◌, ◌*◌, Bool, true, false, ◌&&◌, Option, none, some, List, [], ◌∷◌, ◌++◌,
  ltb, leb, ◌==◌, if◌then◌else◌, Array, update,
}
use godbee.Base.State.{pure, fault, get_state, modify, ◌>>=◌, ◌>>◌}
use godbee.Btree.File.{
  Key, Value, Flag, leaf, internal, deleted, Node, Config, Tree, M, write_node, read_node, is_leaf,
}
use godbee.Btree.Node.{first_not_below, move_up, take_from}

-- `a[j - 1] = a[j]` for `rounds` entries from `j` on.
unfoldable pub move_down : ℕ → ℕ → Array ℕ → Array ℕ
move_down zero j a = a
move_down (suc rounds) j a = move_down rounds (j + 1) (update a (j - 1) (a j))

-- `to[j + at] = from[j]` for `rounds` entries from `j` on.
unfoldable pub put_at : ℕ → ℕ → ℕ → Array ℕ → Array ℕ → Array ℕ
put_at zero j at from to = to
put_at (suc rounds) j at from to = put_at rounds (j + 1) at from (update to (j + at) (from j))

push_val : ℕ → M (Unit {0})
push_val pos = modify (λ s. record s { deleted_vals_pos = s.deleted_vals_pos ++ (pos ∷ []) })

unfoldable pub push_node : ℕ → M (Unit {0})
push_node pos = modify (λ s. record s { deleted_nodes_pos = s.deleted_nodes_pos ++ (pos ∷ []) })

-- Entry `idx` is closed up.
unfoldable pub drop_entry : Node → ℕ → Node
unfolding move_down
drop_entry n idx = record n {
  arr_entry = move_down (n.n_entry - (idx + 1)) (idx + 1) n.arr_entry;
  value_pos = move_down (n.n_entry - (idx + 1)) (idx + 1) n.value_pos;
  n_entry = n.n_entry - 1;
}

-- `isDeleteReal` is not looked at: the position of the value is always given up.
unfoldable pub remove_from_leaf : Node → ℕ → Bool → M (Bool × Node)
unfolding push_val drop_entry
remove_from_leaf n idx is_delete_real = do
  push_val (n.value_pos idx)
  write_node (drop_entry n idx) n.pos
  pure (true, drop_entry n idx)

-- `getPredNode` and `getSuccNode`: the last leaf, or the first one, under a page.
unfoldable pub last_leaf : ℕ → ℕ → M Node
last_leaf zero p = fault
last_leaf (suc fuel) p = do
  n ← read_node p
  let down : M Node = last_leaf fuel (n.arr_child n.n_entry)
  if is_leaf n.flag then pure n else down

unfoldable pub first_leaf : ℕ → ℕ → M Node
first_leaf zero p = fault
first_leaf (suc fuel) p = do
  n ← read_node p
  let down : M Node = first_leaf fuel (n.arr_child 0)
  if is_leaf n.flag then pure n else down

-- Nodes with more than `2 * T - 1` entries overrun their arrays, here and in `mergeNodes`.
unfoldable pub borrow_from_next_node : Config → Node → ℕ → M Node
unfolding move_down
borrow_from_next_node c n idx = do
  child ← read_node (n.arr_child idx)
  next ← read_node (n.arr_child (idx + 1))
  if ltb child.n_entry (2 * c.t - 1)
      then (do
        let n' = record n {
          arr_entry = update n.arr_entry idx (next.arr_entry 0);
          value_pos = update n.value_pos idx (next.value_pos 0);
        }
        write_node n' n.pos
        write_node
            (record child {
              arr_entry = update child.arr_entry child.n_entry (n.arr_entry idx);
              value_pos = update child.value_pos child.n_entry (n.value_pos idx);
              arr_child =
                  if is_leaf child.flag
                  then child.arr_child
                  else update child.arr_child (child.n_entry + 1) (next.arr_child 0);
              n_entry = child.n_entry + 1;
            })
            child.pos
        write_node
            (record next {
              arr_entry = move_down (next.n_entry - 1) 1 next.arr_entry;
              value_pos = move_down (next.n_entry - 1) 1 next.value_pos;
              arr_child =
                  if is_leaf next.flag
                  then next.arr_child
                  else move_down next.n_entry 1 next.arr_child;
              n_entry = next.n_entry - 1;
            })
            next.pos
        pure n')
      else fault

unfoldable pub borrow_from_prev_node : Config → Node → ℕ → M Node
borrow_from_prev_node c n idx = do
  child ← read_node (n.arr_child idx)
  prev ← read_node (n.arr_child (idx - 1))
  if ltb child.n_entry (2 * c.t - 1)
      then (do
        let n' = record n {
          arr_entry = update n.arr_entry (idx - 1) (prev.arr_entry (prev.n_entry - 1));
          value_pos = update n.value_pos (idx - 1) (prev.value_pos (prev.n_entry - 1));
        }
        write_node n' n.pos
        write_node
            (record child {
              arr_entry =
                  update (move_up child.n_entry 0 child.arr_entry) 0 (n.arr_entry (idx - 1));
              value_pos =
                  update (move_up child.n_entry 0 child.value_pos) 0 (n.value_pos (idx - 1));
              arr_child =
                  if is_leaf child.flag
                  then child.arr_child
                  else update (move_up (child.n_entry + 1) 0 child.arr_child) 0
                      (prev.arr_child prev.n_entry);
              n_entry = child.n_entry + 1;
            })
            child.pos
        write_node (record prev { n_entry = prev.n_entry - 1 }) prev.pos
        pure n')
      else fault

module _ (c : Config) where
  unfoldable pub merge_nodes : Node → ℕ → M Node
  unfolding move_down put_at push_node drop_entry
  merge_nodes n idx = do
    child ← read_node (n.arr_child idx)
    next ← read_node (n.arr_child (idx + 1))
    if ltb (next.n_entry + c.t) (2 * c.t)
        then (do
          let n' = record (drop_entry n idx) {
            arr_child = move_down (n.n_entry - (idx + 1)) (idx + 2) n.arr_child;
          }
          push_node next.pos
          write_node
              (record child {
                arr_entry =
                    put_at next.n_entry 0 c.t next.arr_entry
                      (update child.arr_entry (c.t - 1) (n.arr_entry idx));
                value_pos =
                    put_at next.n_entry 0 c.t next.value_pos
                      (update child.value_pos (c.t - 1) (n.value_pos idx));
                arr_child =
                    if is_leaf child.flag
                    then child.arr_child
                    else put_at (next.n_entry + 1) 0 c.t next.arr_child child.arr_child;
                n_entry = child.n_entry + next.n_entry + 1;
              })
              child.pos
          write_node (record next { flag = deleted }) next.pos
          write_node n' n.pos
          pure n')
        else fault

  -- A sibling that is there and can spare an entry. The source reads both siblings first, also the one
  -- that is not there, and drops what it has read.
  can_spare : Bool → ℕ → M Bool
  can_spare false p = pure false
  can_spare true p = do n ← read_node p; pure (leb c.t n.n_entry)

  unfoldable pub fill_node : Node → ℕ → M Node
  unfolding can_spare
  fill_node n idx = do
    from_prev ← can_spare (ltb 0 idx) (n.arr_child (idx - 1))
    from_next ← can_spare (ltb idx n.n_entry) (n.arr_child (idx + 1))
    if from_prev
        then borrow_from_prev_node c n idx
        else if from_next
        then borrow_from_next_node c n idx
        else if idx == n.n_entry
        then merge_nodes n (idx - 1)
        else merge_nodes n idx

  -- The recursive calls take the method itself, on the fuel that is left.
  abbrev Remove : Type 0
  Remove = Node → Key → Bool → M (Bool × Node)

  -- The entry of a leaf takes the place of entry `idx`, and is removed under `child`. `getEntry` also
  -- reads the entry's value, which is dropped.
  abbrev replace_entry : Remove → Node → ℕ → Node → Key → ℕ → M (Bool × Node)
  replace_entry remove n idx child key pos = do
    push_val (n.value_pos idx)
    (result, child') ← remove child key false
    let n' = record n {
      arr_entry = update n.arr_entry idx key;
      value_pos = update n.value_pos idx pos;
    }
    if result then (write_node child' child'.pos >> write_node n' n.pos) else pure tt
    pure (result, n')

  unfoldable pub remove_from_non_leaf : ℕ → Remove → Node → ℕ → M (Bool × Node)
  unfolding push_val last_leaf first_leaf
  remove_from_non_leaf fuel remove n idx = do
    pred ← read_node (n.arr_child idx)
    succ ← read_node (n.arr_child (idx + 1))
    if leb c.t pred.n_entry
        then (do
          l ← last_leaf fuel (n.arr_child idx)
          replace_entry remove n idx pred (l.arr_entry (l.n_entry - 1))
              (l.value_pos (l.n_entry - 1)))
        else if leb c.t succ.n_entry
        then (do
          l ← first_leaf fuel (n.arr_child (idx + 1))
          replace_entry remove n idx succ (l.arr_entry 0) (l.value_pos 0))
        else (do
          n' ← merge_nodes n idx
          merged ← read_node (n'.arr_child idx)
          (result, merged') ← remove merged (merged.arr_entry (c.t - 1)) true
          if result then (write_node merged' merged'.pos >> write_node n' n'.pos) else pure tt
          pure (result, n'))

  -- Below entry `idx`: a child with few entries is filled first, and may then be merged into the one
  -- before it.
  abbrev remove_below : Remove → Node → ℕ → Key → Bool → M (Bool × Node)
  remove_below remove n idx key is_delete_real = do
    child ← read_node (n.arr_child idx)
    n' ← (if ltb child.n_entry c.t then fill_node n idx else pure n)
    child' ←
        read_node (n'.arr_child (if (idx == n.n_entry) && ltb n'.n_entry idx then idx - 1 else idx))
    (result, child'') ← remove child' key is_delete_real
    pure (result, n')

  unfoldable pub remove : ℕ → Node → Key → Bool → M (Bool × Node)
  remove zero n key is_delete_real = fault
  remove (suc fuel) n key is_delete_real =
      let rest : Remove = remove fuel in
      let idx = first_not_below n.n_entry 0 n.arr_entry key in
      if ltb idx n.n_entry && (n.arr_entry idx == key)
      then (if is_leaf n.flag
          then remove_from_leaf n idx is_delete_real
          else remove_from_non_leaf fuel rest n idx)
      else if is_leaf n.flag
      then pure (false, n)
      else remove_below rest n idx key is_delete_real
