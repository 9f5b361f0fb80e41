-- ===== src/BPlus/Store.antt =====
-- The state that a tree works on: the pages of the data file, the lists of free positions and the
-- last value position, pkg/storage/bplustree/fileUtils.cpp. Reads and writes are of whole node
-- pages and whole values. A read of what is no node, or of a value where no page of values is, is a
-- fault, as is a walk that uses up its fuel.
use godbee.Base.{
  ℕ, ◌+◌, ◌||◌, Option, none, some, List, [], ltb, ◌==◌, if◌then◌else◌, Array, update,
}
use godbee.BPlus.Search.{Key}
use godbee.BPlus.FreeList
use godbee.BPlus.FreeList.{DelNodeList}
use godbee.BPlus.Offsets.{
  MetaData, ceil_div, node_id, value_idx, free_offset, next_pos, next_in_page,
}

-- The bytes of a value.
abbrev pub Value : Type 0
Value = List ℕ

pub data Flag : Type 0 where
  leaf_node internal_node removed_node : Flag

pub record NodePage : Type 0 where
  pub childs : Array ℕ
  pub keys : Array Key
  pub flag : Flag
  pub size : ℕ

-- What was last written to a page.
pub data Page : Type 0 where
  blank : Page
  node_page : NodePage → Page
  value_page : Array Value → Page

-- The fields of the header in the file that change.
pub record Header : Type 0 where
  pub root : ℕ
  pub current_value_node : ℕ

pub record Store : Type 0 where
  pub header : Header
  -- the pages behind the header, and how many of them the file has
  pub file : Array Page
  pub pages : ℕ
  -- `HeaderPage::currentValueNode`, which `MetaData::emptyValueNode` refers to
  pub empty_value_node : ℕ
  pub del_node_pages : DelNodeList
  pub del_values : DelNodeList

abbrev pub M : Type 0 → Type 0
M A = Store → Option (A × Store)

abbrev pub pure : {A : Type 0} → A → M A
pure a s = some (a, s)

abbrev pub fault : {A : Type 0} → M A
fault s = none

module _ {A B : Type 0} where
  abbrev pub and_then : Option (A × Store) → (A → M B) → Option (B × Store)
  and_then none k = none
  and_then (some (a, s)) k = k a s

  infixl 5 ◌>>=◌ ◌>>◌
  abbrev pub ◌>>=◌ : M A → (A → M B) → M B
  ◌>>=◌ m k s = and_then (m s) k

  abbrev pub ◌>>◌ : M A → M B → M B
  m >> n = m >>= λ _. n

abbrev pub get_store : M Store
get_store s = some (s, s)

abbrev pub put_store : Store → M (Unit {0})
put_store t s = some (tt, t)

-- An object of class BPlusTreeNode. Entries of `keys` from `size` on, which may be NULL, are never
-- read, and their NULLs only say what the destructor frees: they are not modelled.
pub record Node : Type 0 where
  pub off_set : ℕ
  pub childs : Array ℕ
  pub keys : Array Key
  pub flag : Flag
  pub size : ℕ

-- `for (i = 0; i < n; i++) to[i] = from[i]`, over an array of zeros.
unfoldable pub copy_below : ℕ → Array ℕ → Array ℕ
copy_below n from i = if ltb i n then from i else 0

unfoldable pub to_node_page : Node → NodePage
unfolding copy_below
to_node_page n = record {
  childs = copy_below (n.size + 1) n.childs;
  keys = copy_below n.size n.keys;
  flag = n.flag;
  size = n.size;
}

-- The constructor that reads a node page.
unfoldable pub node_of_page : NodePage → ℕ → Node
unfolding copy_below
node_of_page p offset = record {
  off_set = offset;
  childs = copy_below (p.size + 1) p.childs;
  keys = copy_below p.size p.keys;
  flag = p.flag;
  size = p.size;
}

-- What a page holds as values, once a value has been written to it.
unfoldable pub values_of : Page → Array Value
values_of (value_page vs) = vs
values_of (node_page p) = λ _. []
values_of blank = λ _. []

module _ (md : MetaData) where
  write_page : ℕ → Page → M (Unit {0})
  write_page i p s = some (tt, record s { file = update s.file i p })

  node_at : ℕ → Page → M Node
  node_at offset (node_page p) s = some (node_of_page p offset, s)
  node_at offset (value_page vs) s = none
  node_at offset blank s = none

  -- A node starts at the start of its page.
  unfoldable pub get_node : ℕ → M Node
  unfolding node_at
  get_node offset s =
      if value_idx md offset == 0 then node_at offset (s.file (node_id md offset)) s else none

  value_at : ℕ → Page → M Value
  value_at i (value_page vs) s = some (vs i, s)
  value_at i (node_page p) s = none
  value_at i blank s = none

  unfoldable pub get_value : ℕ → M Value
  unfolding value_at
  get_value offset s = value_at (value_idx md offset) (s.file (node_id md offset)) s

  unfoldable pub flush_node_page_to_file : NodePage → ℕ → M (Unit {0})
  unfolding write_page
  flush_node_page_to_file p offset =
      if value_idx md offset == 0 then write_page (node_id md offset) (node_page p) else fault

  unfoldable pub flush_to_file : Node → M (Unit {0})
  unfolding flush_node_page_to_file to_node_page
  flush_to_file n = flush_node_page_to_file (to_node_page n) n.off_set

  -- `getNextFreeOffset`: the file grows by one page.
  unfoldable pub get_next_free_offset : M ℕ
  get_next_free_offset s = some (free_offset md s.pages, record s { pages = s.pages + 1 })

  node_offset : Option ℕ × DelNodeList → M ℕ
  node_offset (some id, d) s = some (id, record s { del_node_pages = d })
  node_offset (none, d) s = get_next_free_offset s

  -- the offset of a new node page: a free one, or one at the end of the file
  unfoldable pub take_node_offset : M ℕ
  unfolding node_offset get_next_free_offset
  take_node_offset s = node_offset (FreeList.pop s.del_node_pages) s

  unfoldable pub append_node_page_to_file : NodePage → M ℕ
  append_node_page_to_file p = do id ← take_node_offset; flush_node_page_to_file p id; pure id

  -- the constructor of a new node
  unfoldable pub new_node : Flag → M Node
  new_node flag = do
    id ← append_node_page_to_file (record { childs = λ _. 0; keys = λ _. 0; flag = flag; size = 0 })
    pure (record { off_set = id; childs = λ _. 0; keys = λ _. 0; flag = flag; size = 0 })

  unfoldable pub set_empty_value_node : ℕ → M ℕ
  set_empty_value_node id s = some (id, record s { empty_value_node = id })

  unfoldable pub calculate_next_emty_value_node : M ℕ
  unfolding get_next_free_offset set_empty_value_node
  calculate_next_emty_value_node = do
    s ← get_store
    if (s.empty_value_node == 0)
          || (next_pos md s.empty_value_node == ceil_div md.page_size md.value_size)
        then (get_next_free_offset >>= set_empty_value_node)
        else set_empty_value_node (next_in_page md s.empty_value_node)

  value_offset : Option ℕ × DelNodeList → M ℕ
  value_offset (some id, d) s = some (id, record s { del_values = d })
  value_offset (none, d) s = calculate_next_emty_value_node s

  -- the offset of a new value: a free one, or the one behind the last new value
  unfoldable pub take_value_offset : M ℕ
  unfolding value_offset calculate_next_emty_value_node
  take_value_offset s = value_offset (FreeList.pop s.del_values) s

  -- Exactly `valueSize` bytes are written: a value is what a buffer of that size has up to its NUL, and
  -- `tree_set` lets no longer text in.
  unfoldable pub update_value_to_file : Value → ℕ → M (Unit {0})
  unfolding write_page values_of
  update_value_to_file value offset = do
    s ← get_store
    let i = node_id md offset
    write_page i (value_page (update (values_of (s.file i)) (value_idx md offset) value))

  unfoldable pub insert_new_value_to_file : Value → M ℕ
  insert_new_value_to_file value = do id ← take_value_offset; update_value_to_file value id; pure id

  -- `updateRoot` writes the whole header, with the value position of the moment.
  unfoldable pub update_root : ℕ → M (Unit {0})
  update_root new_root s = some (
    tt,
    record s { header = record { root = new_root; current_value_node = s.empty_value_node } },
  )

  unfoldable pub push_del_node_page : ℕ → M (Unit {0})
  push_del_node_page offset s =
      some (tt, record s { del_node_pages = FreeList.push s.del_node_pages offset })

  unfoldable pub push_del_value : ℕ → M (Unit {0})
  push_del_value offset s = some (tt, record s { del_values = FreeList.push s.del_values offset })
