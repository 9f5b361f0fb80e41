-- ===== src/Tests.antt =====
-- The theorems at concrete inputs: a configuration of four values a page and nodes of three keys at
-- most, and a tree after eight sets and three removals.
mod Threads
mod Commands
mod Engine
mod Rotate
use godbee.Base.{
  ℕ, ◌+◌, ◌*◌, ◌/◌, ◌^◌, ◌≤◌, ◌<◌, ◌≡◌, ◌↔◌, refl, true, false, Option, none, some, List, [], ◌∷◌,
  arith, Array,
}
use godbee.BPlus.Search.{
  Key, IsAscending, UpperBound, LowerBound, index_node_larger, index_node_larger_or_equal,
  index_node_equal, is_existing,
}
use godbee.BPlus.Search.Position.{
  index_node_larger-UpperBound, index_node_larger_or_equal-LowerBound, index_node_equal_iff,
  is_existing_iff,
}
use godbee.BPlus.FreeList.{create, open_file}
use godbee.BPlus.FreeList.Reload.{pushing, popping, changed, open_file-changed}
use godbee.BPlus.Offsets.{
  MetaData, IsConfig, ceil_div, node_id, value_idx, free_offset, next_in_page,
}
use godbee.BPlus.Offsets.Fields.{free_offset_fields, next_in_page_fields}
use godbee.BPlus.Degree.{
  IsWidth, count_bits, count_bits-IsWidth, calculate_bit_size_value_index,
  calculate_bit_size_value_index-fits,
}
use godbee.BPlus.Store.{Value, leaf_node, Node, Store, new_node, insert_new_value_to_file}
use godbee.BPlus.Node.{copy_part_of_node}
use godbee.BPlus.Node.{Entry}
use godbee.BPlus.Tree.{
  BPlusTree, internal_insert, new_tree, tree_set, tree_get, tree_exist, tree_remove,
}
use godbee.BPlus.Sound.Place.{Placed, insert_new_value_to_file-Placed}
use godbee.BPlus.Sound.Flush.{IsNew, new_node-IsNew}
use godbee.BPlus.Sound.Height.{height-lt-pages}
use godbee.BPlus.Sound.Insert.{Inserted}
use godbee.BPlus.Sound.Insert.Halves.{Halves, copy_part_of_node-Halves}
use godbee.BPlus.Sound.Insert.Walk.{internal_insert-Inserted}
use godbee.BPlus.Sound.{Ghost}
use godbee.BPlus.Refine.{Represents, put, tree_get-map, tree_exist-map, tree_set-map, new_tree-map}
use godbee.BPlus.Refine.Removal.{without_key, tree_remove-map}
use godbee.BPlus.Refine.History.{
  Call, set, remove, then_calls, tree_calls, map_calls, CallsBelow, tree_calls-map, tree_calls-get,
}

abbrev small : MetaData
small = record {
  max_degree = 2;
  b_size_of_value_idx = 2;
  value_size = 1024;
  key_size = 35;
  page_size = 4096;
}

small-IsConfig : IsConfig small
small-IsConfig = record {
  degree = omega arith;
  in_page = omega arith;
  in_buffer = omega arith;
  value_bytes = omega arith;
  filled = refl;
  some_value = omega arith;
  bits = omega arith;
}

-- Calls, with the numbers of the keys, whose last digit in base 256 is the NUL, and the bytes of the
-- values.
abbrev calls : List Call
calls =
    set 1280 (50 ∷ [])
    ∷ set 3072 (51 ∷ [])
    ∷ set 768 (52 ∷ [])
    ∷ set 2304 (53 ∷ [])
    ∷ set 5120 (54 ∷ [])
    ∷ remove 3072
    ∷ set 1280 (55 ∷ [])
    ∷ set 256 (56 ∷ [])
    ∷ set 1792 (58 ∷ [])
    ∷ remove 7680
    ∷ remove 768
    ∷ []

abbrev bound : ℕ
bound = 256 * 100

calls-CallsBelow : CallsBelow small bound calls
calls-CallsBelow = (
  omega arith,
  (omega arith, refl, omega arith),
  (
    omega arith,
    (omega arith, refl, omega arith),
    (
      omega arith,
      (omega arith, refl, omega arith),
      (
        omega arith,
        (omega arith, refl, omega arith),
        (
          omega arith,
          (omega arith, refl, omega arith),
          (
            omega arith,
            (
              omega arith,
              (omega arith, refl, omega arith),
              (
                omega arith,
                (omega arith, refl, omega arith),
                (omega arith, (omega arith, refl, omega arith), (omega arith, (omega arith, tt))),
              ),
            ),
          ),
        ),
      ),
    ),
  ),
)

tree_calls-get_example :
    (t : BPlusTree) × (then_calls (new_tree small) (λ _. tree_calls small calls)
      ≡ some (true ∷ false ∷ true ∷ [], t))
    × (tree_get small t 1280 ≡ some (some (55 ∷ []), t))
    × (tree_exist small t 1280 ≡ some (true, t))
tree_calls-get_example =
    tree_calls-get small small-IsConfig bound (omega arith) calls calls-CallsBelow 1280
      (omega arith)

new_tree-map_example :
    (t : BPlusTree) × (new_tree small ≡ some (tt, t)) × Represents small bound t (λ _. none)
new_tree-map_example = new_tree-map small bound small-IsConfig (omega arith)

abbrev loaded :
    (t : BPlusTree) × (tree_calls small calls
        (new_tree-map small bound small-IsConfig (omega arith)).0
      ≡ some (true ∷ false ∷ true ∷ [], t))
    × Represents small bound t (map_calls (λ _. none) calls)
loaded =
    let begun = new_tree-map small bound small-IsConfig (omega arith) in
    tree_calls-map small small-IsConfig bound calls begun.0 (λ _. none) begun.2 calls-CallsBelow

abbrev loaded_map : Key → Option Value
loaded_map = map_calls (λ _. none) calls

tree_set-map_example :
    (t : BPlusTree) × (tree_set small loaded.0 2048 (57 ∷ []) ≡ some (tt, t))
    × Represents small bound t (put loaded_map 2048 (57 ∷ []))
tree_set-map_example =
    tree_set-map small bound small-IsConfig loaded.0 loaded_map loaded.2 2048 (57 ∷ [])
      (omega arith) (omega arith, refl, omega arith)

tree_remove-map_example :
    (t : BPlusTree) × (tree_remove small loaded.0 2304 ≡ some (true, t))
    × Represents small bound t (without_key loaded_map 2304)
tree_remove-map_example =
    tree_remove-map small small-IsConfig bound loaded.0 loaded_map loaded.2 2304 (omega arith)

tree_get-map_example : tree_get small loaded.0 2304 ≡ some (some (53 ∷ []), loaded.0)
tree_get-map_example = tree_get-map small bound loaded.0 loaded_map loaded.2 2304 (omega arith)

tree_exist-map_example : tree_exist small loaded.0 3328 ≡ some (false, loaded.0)
tree_exist-map_example = tree_exist-map small bound loaded.0 loaded_map loaded.2 3328 (omega arith)

internal_insert-Inserted_example :
    (e : Option Entry) × (n : Node) × (g : Ghost) × (s : Store) × (internal_insert small
        (loaded.0.store.pages + 1)
        loaded.0.root
        2048
        (57 ∷ [])
        loaded.0.store
      ≡ some ((e, n), s))
    × Inserted small loaded.2.ghost loaded.0.store loaded.2.height
        (node_id small loaded.0.root.off_set)
        0
        bound
        2048
        (57 ∷ [])
        loaded.0.root
        e
        n
        g
        s
internal_insert-Inserted_example =
    internal_insert-Inserted small small-IsConfig 2048 (57 ∷ []) loaded.2.height
      (loaded.0.store.pages + 1) loaded.2.ghost loaded.0.store loaded.2.sound 0 bound loaded.0.root
      loaded.2.at (omega arith, omega arith)
      (omega (
        arith,
        height-lt-pages small loaded.2.ghost loaded.0.store loaded.2.height
            (node_id small loaded.0.root.off_set) 0 bound loaded.2.sound loaded.2.at.role,
      ))

insert_new_value_to_file-Placed_example :
    (id : ℕ) × (g : Ghost) × (s : Store) × (insert_new_value_to_file small (57 ∷ []) loaded.0.store
      ≡ some (id, s))
    × Placed small loaded.2.ghost loaded.0.store 2048 (57 ∷ []) id g s
insert_new_value_to_file-Placed_example =
    insert_new_value_to_file-Placed small small-IsConfig loaded.2.ghost loaded.0.store
      loaded.2.sound.allocated 2048 (57 ∷ [])

new_node-IsNew_example :
    (s : Store) × (n : Node) × (new_node small leaf_node loaded.0.store ≡ some (n, s))
    × (n.size ≡ 0)
    × (n.flag ≡ leaf_node)
    × IsNew small loaded.2.ghost loaded.0.store n.off_set s
new_node-IsNew_example =
    new_node-IsNew small small-IsConfig loaded.2.ghost loaded.0.store loaded.2.sound.allocated
      leaf_node

abbrev full_leaf : Node
full_leaf = record {
  off_set = 0;
  childs = λ i. i + 8;
  keys = λ i. 10 * i;
  flag = leaf_node;
  size = 3;
}

copy_part_of_node-Halves_example :
    (this : Node) × (right : Node) × (s : Store) × (copy_part_of_node small full_leaf leaf_node 2 2
        loaded.0.store
      ≡ some ((this, right), s))
    × Halves full_leaf leaf_node 2 this right
    × IsNew small loaded.2.ghost loaded.0.store right.off_set s
copy_part_of_node-Halves_example =
    copy_part_of_node-Halves small small-IsConfig loaded.2.ghost loaded.0.store
      loaded.2.sound.allocated full_leaf leaf_node 2 (omega arith)

-- The keys 0, 10, 20, and so on.
abbrev tens : Array Key
tens = λ i. 10 * i

tens-IsAscending : (size : ℕ) → IsAscending tens size
tens-IsAscending size i j x y = omega arith

index_node_larger-UpperBound_example :
    (i : ℕ) × (index_node_larger tens 5 20 ≡ some i) × UpperBound tens 5 20 i
index_node_larger-UpperBound_example =
    index_node_larger-UpperBound tens 5 20 (tens-IsAscending 5) (omega arith)

index_node_larger_or_equal-LowerBound_example :
    (i : ℕ) × (index_node_larger_or_equal tens 5 25 ≡ some i) × LowerBound tens 5 25 i
index_node_larger_or_equal-LowerBound_example =
    index_node_larger_or_equal-LowerBound tens 5 25 (tens-IsAscending 5) (omega arith)

index_node_equal_iff_example : (index_node_equal tens 5 30 ≡ some 3) ↔ ((3 < 5) × (tens 3 ≡ 30))
index_node_equal_iff_example = index_node_equal_iff tens 5 30 (tens-IsAscending 5) 3

is_existing_iff_example : (is_existing tens 5 30 ≡ true) ↔ ((i : ℕ) × (i < 5) × (tens i ≡ 30))
is_existing_iff_example = is_existing_iff tens 5 30 (tens-IsAscending 5)

open_file-changed_example :
    (open_file (changed (pushing 4 ∷ pushing 8 ∷ popping ∷ pushing 12 ∷ []) create).file).list
    ≡ (changed (pushing 4 ∷ pushing 8 ∷ popping ∷ pushing 12 ∷ []) create).list
open_file-changed_example = open_file-changed (pushing 4 ∷ pushing 8 ∷ popping ∷ pushing 12 ∷ [])

free_offset_fields_example :
    (node_id small (free_offset small 6) ≡ 6) × (value_idx small (free_offset small 6) ≡ 0)
free_offset_fields_example = free_offset_fields small small-IsConfig 6

index_of_nine : value_idx small 9 + 1 < ceil_div 4096 1024
unfolding value_idx
index_of_nine = omega arith

next_in_page_fields_example :
    (node_id small (next_in_page small 9) ≡ node_id small 9)
    × (value_idx small (next_in_page small 9) ≡ value_idx small 9 + 1)
next_in_page_fields_example = next_in_page_fields small small-IsConfig 9 index_of_nine

count_bits-IsWidth_example : IsWidth 12 (count_bits 12)
count_bits-IsWidth_example = count_bits-IsWidth 12

calculate_bit_size_value_index-fits_example :
    (3 < 2 ^ calculate_bit_size_value_index 4096 1024)
    × ((c : ℕ) → 4096 / 1024 ≤ 2 ^ c → calculate_bit_size_value_index 4096 1024 ≤ c)
calculate_bit_size_value_index-fits_example =
    calculate_bit_size_value_index-fits 4096 1024 3 (omega arith)
