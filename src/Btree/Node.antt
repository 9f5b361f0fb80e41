-- ===== src/Btree/Node.antt =====
-- Search and insertion, pkg/storage/btree/BTreeNode.cpp. A method returns the object that it works on
-- beside its result. A loop variable that may fall to -1 is `i - 1` for a count `i`; the walks down the
-- tree run on fuel.
pub mod Split
pub mod Frame
pub mod Bounds
pub mod Invariant
pub mod Kept
pub mod Search
pub mod SearchTree
pub mod Leaf
use godbee.Base.{
  ℕ, zero, suc, ◌+◌, ◌-◌, ◌*◌, Bool, true, false, ◌&&◌, Option, none, some, List, [], ◌∷◌, ltb, leb,
  ◌==◌, if◌then◌else◌, Array, update,
}
use godbee.Base.State.{pure, fault, get_state, modify, ◌>>=◌, ◌>>◌}
use godbee.Btree.File.{
  Key, Value, Flag, leaf, internal, Node, Config, Tree, M, read_value_in_file, update_value_at,
  write_node, read_node, write_empty_bytes, update_next_pos_node, take_value_pos, new_node, is_leaf,
}

-- `while (i < n && a[i] < key) i++`, `rounds` entries from `i` on.
unfoldable pub first_not_below : ℕ → ℕ → Array Key → Key → ℕ
first_not_below zero i a key = i
first_not_below (suc rounds) i a key =
    let rest = first_not_below rounds (i + 1) a key in if ltb (a i) key then rest else i

-- `while (i >= 0 && key < a[i]) i--`, for the count `i` of entries that are left.
unfoldable pub count_not_above : ℕ → Array Key → Key → ℕ
count_not_above zero a key = zero
count_not_above (suc i) a key =
    let rest = count_not_above i a key in if ltb key (a i) then rest else suc i

-- The last entry with the key.
unfoldable pub last_equal : ℕ → Array Key → Key → Option ℕ
last_equal zero a key = none
last_equal (suc i) a key = let rest = last_equal i a key in if key == a i then some i else rest

-- The first one, `rounds` entries from `i` on.
unfoldable pub first_equal : ℕ → ℕ → Array Key → Key → Option ℕ
first_equal zero i a key = none
first_equal (suc rounds) i a key =
    let rest = first_equal rounds (i + 1) a key in if a i == key then some i else rest

value_of : Node → Option ℕ → M (Option Value)
value_of n none = pure none
value_of n (some i) = do v ← read_value_in_file (n.value_pos i); pure (some v)

unfoldable pub get_value_in_node : Node → Key → M (Option Value)
unfolding first_equal value_of
get_value_in_node n key = value_of n (first_equal n.n_entry 0 n.arr_entry key)

unfoldable pub search : ℕ → Node → Key → M (Option Value)
search zero n k = fault
search (suc fuel) n k =
    let i = first_not_below n.n_entry 0 n.arr_entry k in
    let down : M (Option Value) = (do child ← read_node (n.arr_child i); search fuel child k) in
    if ltb i n.n_entry && (n.arr_entry i == k)
    then get_value_in_node n k
    else if is_leaf n.flag
    then pure none
    else down

-- `a[j + 1] = a[j]` for `j = n - 1` down to `from`, that is `rounds` times.
unfoldable pub move_up : ℕ → ℕ → Array ℕ → Array ℕ
move_up zero from a = a
move_up (suc rounds) from a = move_up rounds from (update a (from + rounds + 1) (a (from + rounds)))

-- `to[j] = from[j + by]` for `j < rounds`, from `j` on.
unfoldable pub take_from : ℕ → ℕ → ℕ → Array ℕ → Array ℕ → Array ℕ
take_from zero j by from to = to
take_from (suc rounds) j by from to = take_from rounds (j + 1) by from (update to j (from (j + by)))

-- `a[j] = x` for `rounds` entries from `j` on.
unfoldable pub fill : ℕ → ℕ → ℕ → Array ℕ → Array ℕ
fill zero j x a = a
fill (suc rounds) j x a = fill rounds (j + 1) x (update a j x)

module _ (c : Config) where
  -- The page of the new node of a split: a deleted one, or the end of the file, behind the page of
  -- the parent.
  unfoldable pub page_for_split : List ℕ → ℕ → M ℕ
  page_for_split [] parent_pos = do
    write_empty_bytes parent_pos
    modify update_next_pos_node
    s ← get_state
    pure s.next_pos_node
  page_for_split (pos ∷ rest) parent_pos = do
    modify (λ s. record s { deleted_nodes_pos = rest })
    pure pos

  -- The halves of a full child, before they are written.
  unfoldable pub upper_half : Node → Node
  unfolding take_from
  upper_half child =
      let new = new_node c (is_leaf child.flag) in
      record new {
        n_entry = c.t - 1;
        arr_entry = take_from (c.t - 1) 0 c.t child.arr_entry new.arr_entry;
        value_pos = take_from (c.t - 1) 0 c.t child.value_pos new.value_pos;
        arr_child =
            if is_leaf child.flag
            then new.arr_child
            else take_from c.t 0 c.t child.arr_child new.arr_child;
      }

  unfoldable pub lower_half : Node → Node
  unfolding fill
  lower_half child = record child {
    n_entry = c.t - 1;
    arr_entry = fill c.t (c.t - 1) c.empty_key child.arr_entry;
    value_pos = fill c.t (c.t - 1) 0 child.value_pos;
    arr_child = if is_leaf child.flag then child.arr_child else fill c.t c.t 0 child.arr_child;
  }

  -- The parent with the middle entry and room for a child behind it. The source sets `valuePos[j]` to 0
  -- when it has moved it; the last of these zeros is overwritten.
  unfoldable pub parent_of_split : Node → ℕ → Node → Node
  unfolding move_up
  parent_of_split n idx child = record n {
    arr_child = move_up (n.n_entry - idx) (idx + 1) n.arr_child;
    arr_entry = update (move_up (n.n_entry - idx) idx n.arr_entry) idx (child.arr_entry (c.t - 1));
    value_pos = update (move_up (n.n_entry - idx) idx n.value_pos) idx (child.value_pos (c.t - 1));
    n_entry = n.n_entry + 1;
  }

  -- The arrays of a node have `2 * T - 1` entries and one child more: a full parent overruns them.
  unfoldable pub split_child : Node → ℕ → Node → M Node
  unfolding upper_half lower_half parent_of_split page_for_split
  split_child n idx child =
      let split : M Node = (do
        s ← get_state
        new_pos ← page_for_split s.deleted_nodes_pos n.pos
        let parent = parent_of_split n idx child
        let n' = record parent { arr_child = update parent.arr_child (idx + 1) new_pos }
        write_node (lower_half child) child.pos
        write_node n' n.pos
        write_node (record (upper_half child) { pos = new_pos }) new_pos
        pure n') in
      if ltb n.n_entry (2 * c.t - 1) then split else fault

  -- A new key in a full leaf overruns the arrays of the leaf.
  unfoldable pub insert_in_leaf : Node → Key → Value → Option ℕ → M Node
  unfolding count_not_above move_up
  insert_in_leaf n key value (some idx) = do update_value_at c (n.value_pos idx) value true; pure n
  insert_in_leaf n key value none =
      let insert_new : M Node = (do
        let i = count_not_above n.n_entry n.arr_entry key
        pos ← take_value_pos c
        let n' = record n {
          arr_entry = update (move_up (n.n_entry - i) i n.arr_entry) i key;
          value_pos = update (move_up (n.n_entry - i) i n.value_pos) i pos;
          n_entry = n.n_entry + 1;
        }
        write_node n' n.pos
        update_value_at c pos value false
        pure n') in
      if ltb n.n_entry (2 * c.t - 1) then insert_new else fault

  -- The child for the key is read again behind a split; the result is its place.
  unfoldable pub make_room : Node → ℕ → Key → M (Node × ℕ)
  make_room n i key = do
    child ← read_node (n.arr_child i)
    if child.n_entry == 2 * c.t - 1
        then (do
          n' ← split_child n i child
          pure (n', (if ltb (n'.arr_entry i) key then i + 1 else i)))
        else pure (n, i)

  unfoldable pub insert_non_full : ℕ → Node → Key → Value → M Node
  unfolding insert_in_leaf make_room
  insert_non_full zero n key value = fault
  insert_non_full (suc fuel) n key value =
      let i = count_not_above n.n_entry n.arr_entry key in
      let down : M Node = (do
        (n', j) ← make_room n i key
        child ← read_node (n'.arr_child j)
        insert_non_full fuel child key value
        pure n') in
      if is_leaf n.flag
      then insert_in_leaf n key value (last_equal n.n_entry n.arr_entry key)
      else if ltb 0 i && (key == n.arr_entry (i - 1))
      then (update_value_at c (n.value_pos (i - 1)) value true >> pure n)
      else down
