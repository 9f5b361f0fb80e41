-- ===== src/Btree/File.antt =====
-- The state of a `BTree` object and its file, pkg/storage/btree/BTree.h, and the operations on pages and
-- values of pkg/storage/btree/DataFileIO.cpp and pkg/storage/btree/BTree.cpp. The file is a header and
-- pages; the chunks of 512 bytes that a node is written in fill one page. To read a node or a value from
-- a page that holds something else is a fault.
pub mod Values
use godbee.Base.{
  ℕ, zero, suc, ◌+◌, ◌-◌, ◌*◌, ◌/◌, ◌%◌, Bool, true, false, ◌&&◌, Option, none, some, List, [], ◌∷◌,
  ◌++◌, ltb, leb, ◌==◌, if◌then◌else◌, Array, update,
}
use Prim.Native.Nat.{bit_or}
use godbee.Base.State.{pure, fault, get_state, modify, ◌>>=◌, ◌>>◌}

-- A key is the number that its bytes spell, as in BPlus/Search.
abbrev pub Key : Type 0
Key = ℕ

abbrev pub Value : Type 0
Value = List ℕ

pub data Flag : Type 0 where
  root_flag leaf internal deleted : Flag

-- An object of class `BTreeNode`, which is also what a page of the file holds.
pub record Node : Type 0 where
  pub n_entry : ℕ
  pub arr_entry : Array Key
  pub value_pos : Array ℕ
  pub arr_child : Array ℕ
  pub flag : Flag
  pub pos : ℕ

pub data Page : Type 0 where
  blank : Page
  node_page : Node → Page
  value_page : Array Value → Page

-- The configuration. `empty_key` is what the bytes of "-1" spell; it stands behind the entries.
pub record Config : Type 0 where
  pub t : ℕ
  pub page_size : ℕ
  pub value_size : ℕ
  pub empty_key : Key

pub record Tree : Type 0 where
  pub root : Option Node
  pub root_pos : ℕ
  pub next_pos_node : ℕ
  pub next_pos_node_value : ℕ
  -- front first
  pub deleted_nodes_pos : List ℕ
  pub deleted_vals_pos : List ℕ
  pub file : Array Page
  pub pages : ℕ

abbrev pub M : Type 0 → Type 0
M A = Tree → Option (A × Tree)

abbrev pub max : ℕ → ℕ → ℕ
max a b = if ltb a b then b else a

-- A write behind the end makes the file longer.
unfoldable pub write_page : ℕ → Page → Tree → Tree
write_page p page s = record s { file = update s.file p page; pages = max s.pages (p + 1) }

abbrev pub values_of : Page → Array Value
values_of blank = λ _. []
values_of (node_page n) = λ _. []
values_of (value_page vs) = vs

unfoldable pub value_at : Page → ℕ → Tree → Option (Value × Tree)
value_at blank i s = none
value_at (node_page n) i s = none
value_at (value_page vs) i s = some (vs i, s)

unfoldable pub read_value_in_file : ℕ → M Value
unfolding value_at
read_value_in_file value_pos s = value_at (s.file (value_pos / 4)) (value_pos % 4) s

-- `pagePos * pageSize + valueIdx * valueSize` is inside page `pagePos` where the page has room for
-- `valueIdx + 1` values; a write that runs on into the next page is a fault here. A value with index 0 that
-- is not overwritten goes to a new page at the end of the file, wherever its position says.
unfoldable pub update_value_at : Config → ℕ → Value → Bool → M (Unit {0})
unfolding write_page
update_value_at c value_pos new_value is_over_write s =
    if (value_pos % 4 == 0) && (if is_over_write then false else true)
    then some (tt, write_page s.pages (value_page (update (λ _. []) 0 new_value)) s)
    else if leb ((value_pos % 4 + 1) * c.value_size) c.page_size
    then some (
      tt,
      write_page (value_pos / 4)
          (value_page (update (values_of (s.file (value_pos / 4))) (value_pos % 4) new_value)) s,
    )
    else none

-- The page has room for `2 * T` children and `2 * T - 1` entries. The operations that add entries to a
-- node stop before it has more, and what stands behind the size of a node is never read.
unfoldable pub write_node : Node → ℕ → M (Unit {0})
unfolding write_page
write_node node p = modify (write_page p (node_page (record node { pos = p })))

unfoldable pub node_at : Page → Tree → Option (Node × Tree)
node_at blank s = none
node_at (node_page n) s = some (n, s)
node_at (value_page vs) s = none

unfoldable pub read_node : ℕ → M Node
unfolding node_at
read_node p s = node_at (s.file p) s

unfoldable pub write_empty_bytes : ℕ → M (Unit {0})
unfolding write_page
write_empty_bytes pos = modify (write_page pos blank)

unfoldable pub update_next_pos_node : Tree → Tree
update_next_pos_node s = record s { next_pos_node = s.pages }

module _ (c : Config) where
  unfoldable pub update_next_pos_node_value : Tree → Tree
  update_next_pos_node_value s = record s {
    next_pos_node_value =
        if s.next_pos_node_value % 4 + 1 == c.page_size / c.value_size
        then s.pages * 4
        else bit_or (s.next_pos_node_value / 4 * 4) (s.next_pos_node_value % 4 + 1);
  }

  -- The position of a new value: the front of the queue of deleted ones, or the next one.
  unfoldable pub from_vals : List ℕ → M ℕ
  unfolding update_next_pos_node_value
  from_vals [] s = let s' = update_next_pos_node_value s in some (s'.next_pos_node_value, s')
  from_vals (pos ∷ rest) s = some (pos, record s { deleted_vals_pos = rest })

  unfoldable pub take_value_pos : M ℕ
  unfolding from_vals
  take_value_pos s = from_vals s.deleted_vals_pos s

  -- The constructor with a flag. `pos` is set by the caller.
  unfoldable pub new_node : Bool → Node
  new_node is_leaf = record {
    n_entry = 0;
    arr_entry = λ _. c.empty_key;
    value_pos = λ _. 0;
    arr_child = λ _. 0;
    flag = if is_leaf then leaf else internal;
    pos = 0;
  }

unfoldable pub is_leaf : Flag → Bool
is_leaf root_flag = false
is_leaf leaf = true
is_leaf internal = false
is_leaf deleted = false
