-- ===== src/BPlus/Node.antt =====
-- Insertion into one node, pkg/storage/bplustree/BPlusTreeNode.cpp. A method returns the object that
-- it works on, `this`, beside its result; the loops run over array entries as in the source, and a
-- loop variable `i` that may fall to -1 is `n - 1` for a count `n`.
pub mod Loops
use godbee.Base.{
  ℕ, zero, suc, ◌+◌, ◌-◌, ◌*◌, ◌||◌, Option, none, some, ltb, leb, ◌==◌, if◌then◌else◌, Array,
  update,
}
use godbee.BPlus.Search.{Key, index_node_equal}
use godbee.BPlus.Offsets.{MetaData}
use godbee.BPlus.Store.{
  Value, Flag, leaf_node, internal_node, Node, M, pure, fault, ◌>>=◌, ◌>>◌, flush_to_file, new_node,
  insert_new_value_to_file, update_value_to_file,
}

pub record Entry : Type 0 where
  pub key : Key
  pub value : ℕ

-- What the shifting loops work on: the count of entries not yet passed, and the arrays.
pub record Shift : Type 0 where
  pub index : ℕ
  pub keys : Array Key
  pub childs : Array ℕ

-- `while (i >= 0 && strcmp(keys[i], key) > 0)` of `insertLeft`: a child moves with its key.
shift_left : Key → ℕ → Array Key → Array ℕ → Shift
shift_left key zero keys childs = record { index = 0; keys = keys; childs = childs }
shift_left key (suc i) keys childs =
    let rest = shift_left key i (update keys (i + 1) (keys i)) (update childs (i + 1) (childs i)) in
    if ltb key (keys i) then rest else record { index = i + 1; keys = keys; childs = childs }

-- The same loop of `insertRight`: the child to the right of a key moves with it.
shift_right : Key → ℕ → Array Key → Array ℕ → Shift
shift_right key zero keys childs = record { index = 0; keys = keys; childs = childs }
shift_right key (suc i) keys childs =
    let rest =
      shift_right key i (update keys (i + 1) (keys i)) (update childs (i + 2) (childs (i + 1))) in
    if ltb key (keys i) then rest else record { index = i + 1; keys = keys; childs = childs }

-- Where `insertLeft` puts the key, and the arrays with the entries behind it moved.
unfoldable pub open_left : Node → Key → Shift
unfolding shift_left
open_left n key =
    let childs = update n.childs (n.size + 1) (n.childs n.size) in
    if (n.size == 0) || ltb (n.keys (n.size - 1)) key
    then record { index = n.size; keys = n.keys; childs = childs }
    else shift_left key n.size n.keys childs

unfoldable pub open_right : Node → Key → Shift
unfolding shift_right
open_right n key =
    if ltb (n.keys (n.size - 1)) key
    then record { index = n.size; keys = n.keys; childs = n.childs }
    else shift_right key n.size n.keys n.childs

unfoldable pub put_left : Node → Key → ℕ → Shift → Node
put_left n key value s = record n {
  keys = update s.keys s.index key;
  childs = update s.childs s.index value;
  size = n.size + 1;
}

unfoldable pub put_right : Node → Key → ℕ → Shift → Node
put_right n key value s = record n {
  keys = update s.keys s.index key;
  childs = update s.childs (s.index + 1) value;
  size = n.size + 1;
}

-- `for (i = l; i <= r; i++)` of `copyPartOfNode`: entries `l + i` go to `i`, and 0 is left behind.
unfoldable pub copy_part : ℕ → ℕ → ℕ → Array ℕ → Array ℕ → Array ℕ × Array ℕ
copy_part zero i l from to = (from, to)
copy_part (suc rounds) i l from to =
    copy_part rounds (i + 1) l (update from (l + i) 0) (update to i (from (l + i)))

module _ (md : MetaData) where
  unfoldable pub insert_left : Node → Key → Value → M Node
  unfolding open_left put_left
  insert_left n key value = do
    id ← insert_new_value_to_file md value
    let n' = put_left n key id (open_left n key)
    flush_to_file md n'
    pure n'

  -- A node without keys is not split, so `keys[size - 1]` is there.
  unfoldable pub insert_right : Node → Key → ℕ → M Node
  unfolding open_right put_right
  insert_right n key value =
      if n.size == 0
      then fault
      else do let n' = put_right n key value (open_right n key); flush_to_file md n'; pure n'

  -- The entries from `l` to `r` move to a new node; the result is `this` and the new node.
  unfoldable pub copy_part_of_node : Node → Flag → ℕ → ℕ → M (Node × Node)
  unfolding copy_part
  copy_part_of_node n flag l r = do
    new ← new_node md flag
    let count = r + 1 - l
    let keys = copy_part count 0 l n.keys new.keys
    let childs = copy_part count 0 l n.childs new.childs
    let last = l + count
    pure (
      record n { keys = keys.0; childs = update childs.0 last 0 },
      record new {
        keys = keys.1;
        childs = update childs.1 count (childs.0 last);
        size = new.size + count;
      },
    )

  unfoldable pub insert_in_half : Node → Node → Key → Value → M (Node × Node)
  insert_in_half n right key value =
      if ltb key (n.keys (n.size - 1))
      then (do n' ← insert_left n key value; pure (n', right))
      else (do right' ← insert_left right key value; pure (n, right'))

  unfoldable pub insert_and_split_leaf : Node → Key → Value → M (Entry × Node)
  insert_and_split_leaf n key value = do
    (this, right) ← copy_part_of_node n leaf_node md.max_degree (n.size - 1)
    let cut = record this { childs = update this.childs n.size 0; size = md.max_degree }
    (this', right') ← insert_in_half cut right key value
    flush_to_file md right'
    flush_to_file md this'
    pure (
      record { key = right'.keys 0; value = right'.off_set },
      record this' { childs = update this'.childs this'.size right'.off_set },
    )

  unfoldable pub insert_in_half_internal : Node → Node → Key → Key → ℕ → M (Node × Node)
  insert_in_half_internal n right new_key key key_right_child =
      if ltb key new_key
      then (do n' ← insert_right n key key_right_child; pure (n', right))
      else (do right' ← insert_right right key key_right_child; pure (n, right'))

  unfoldable pub insert_and_split_internal : Node → Key → ℕ → M (Entry × Node)
  insert_and_split_internal n key key_right_child = do
    (this, right) ← copy_part_of_node n internal_node md.max_degree (n.size - 1)
    let new_key = this.keys (md.max_degree - 1)
    let cut = record this { size = md.max_degree - 1 }
    (this', right') ← insert_in_half_internal cut right new_key key key_right_child
    flush_to_file md right'
    flush_to_file md this'
    pure (record { key = new_key; value = right'.off_set }, this')

  unfoldable pub update_value_duplicated_key : Node → ℕ → Value → M (Unit {0})
  update_value_duplicated_key n index value = update_value_to_file md value (n.childs index)

  unfoldable pub insert_in_leaf : Node → Key → Value → Option ℕ → M (Option Entry × Node)
  insert_in_leaf n key value (some idx_equal) = do
    update_value_duplicated_key n idx_equal value
    pure (none, n)
  insert_in_leaf n key value none =
      if ltb n.size (2 * md.max_degree - 1)
      then (do n' ← insert_left n key value; pure (none, n'))
      else (do (e, n') ← insert_and_split_leaf n key value; pure (some e, n'))

  unfoldable pub leaf_insert : Node → Key → Value → M (Option Entry × Node)
  unfolding insert_in_leaf
  leaf_insert n key value = insert_in_leaf n key value (index_node_equal n.keys n.size key)
