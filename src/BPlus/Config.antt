-- ===== src/BPlus/Config.antt =====
-- How a tree gets its configuration and its root: `calculateMaxDegree` and `updateHeader` of
-- pkg/storage/bplustree/fileUtils.cpp, the constructor of `MetaData` of
-- pkg/storage/bplustree/fileUtils.h, and that of `BPlusTree` of pkg/storage/bplustree/BPlusTree.cpp.
use godbee.Base.{
  ℕ, zero, suc, ◌+◌, ◌-◌, ◌*◌, ◌/◌, ◌%◌, ◌^◌, ◌||◌, Option, none, some, ltb, leb, ◌==◌,
  if◌then◌else◌,
}
use godbee.BPlus.FreeList.{open_file}
use godbee.BPlus.Offsets.{MetaData}
use godbee.BPlus.Degree.{calculate_bit_size_value_index}
use godbee.BPlus.Store.{Store, M, get_node}
use godbee.BPlus.Tree.{BPlusTree, as_tree}

-- What a `uint16_t` keeps of a sum.
abbrev uint16 : ℕ → ℕ
uint16 n = n % 2 ^ 16

-- The padding behind a child, in segments of 8 bytes.
child_padding : ℕ → ℕ
child_padding p_child_size = if ltb 8 p_child_size then 8 - p_child_size % 8 else 8 % p_child_size

child_bytes : ℕ → ℕ → ℕ
unfolding child_padding
child_bytes max_deg p_child_size =
    let padding = child_padding p_child_size in
    uint16 (
      if ltb 8 p_child_size
      then (2 * max_deg - 1) * (p_child_size + padding) + p_child_size
      else 2 * max_deg * p_child_size + padding * (uint16 (2 * max_deg) / (8 / p_child_size)))

-- The padding behind the keys; the difference is signed, and the remainder has its sign.
key_padding : ℕ → ℕ → ℕ
key_padding keys padding =
    if leb padding keys then 8 - (keys - padding) % 8 else 8 + (padding - keys) % 8

-- The bytes of a node of a degree, with the flag and the size.
node_bytes : ℕ → ℕ → ℕ → ℕ
unfolding child_padding child_bytes key_padding
node_bytes max_deg key_size p_child_size =
    let padding = child_padding p_child_size in
    let keys = uint16 (2 * max_deg - 1) * key_size in
    let behind = key_padding keys padding in
    uint16 (
      child_bytes max_deg p_child_size
      + keys
      + padding
      + (if leb 3 behind then behind else behind + 8))

max_degree_loop : ℕ → ℕ → ℕ → ℕ → ℕ → Option ℕ
unfolding node_bytes
max_degree_loop zero page_size key_size p_child_size max_deg = none
max_degree_loop (suc fuel) page_size key_size p_child_size max_deg =
    let rest = max_degree_loop fuel page_size key_size p_child_size (uint16 (max_deg + 1)) in
    let bytes = node_bytes max_deg key_size p_child_size in
    if ltb page_size bytes
    then some (uint16 (max_deg + 65535))
    else if bytes == page_size
    then some max_deg
    else rest

-- The degree has 2 ^ 16 values, so a search that has not stopped after as many rounds never does; it
-- divides by the size of a child.
calculate_max_degree : ℕ → ℕ → ℕ → Option ℕ
unfolding max_degree_loop
calculate_max_degree page_size key_size p_child_size =
    if p_child_size == 0 then none else max_degree_loop (2 ^ 16) page_size key_size p_child_size 2

-- The fields that the constructor of `MetaData` computes, for a value of at least one byte.
with_degree : ℕ → ℕ → ℕ → Option ℕ → Option MetaData
with_degree page_size key_size value_size none = none
with_degree page_size key_size value_size (some max_degree) = some (record {
  max_degree = max_degree;
  b_size_of_value_idx = calculate_bit_size_value_index page_size value_size;
  value_size = value_size;
  key_size = key_size;
  page_size = page_size;
})

create_meta_data : ℕ → ℕ → ℕ → Option MetaData
unfolding with_degree
create_meta_data page_size key_size value_size =
    if value_size == 0
    then none
    else with_degree page_size key_size value_size (calculate_max_degree page_size key_size 8)

-- A degree from the caller replaces the computed one.
custom_degree : ℕ → MetaData → MetaData
custom_degree custom_max_deg md =
    if ltb 1 custom_max_deg then record md { max_degree = custom_max_deg } else md

-- The default configuration in place of one that cannot work. The source also writes it to the
-- header, of which the model keeps the root and the value position only.
or_default : MetaData → Option MetaData
unfolding with_degree
or_default md =
    if leb md.max_degree 1 || (md.b_size_of_value_idx == 0)
    then create_meta_data 4096 35 1024
    else some md

configure : ℕ → ℕ → ℕ → ℕ → Option MetaData
unfolding custom_degree or_default
configure page_size key_size value_size custom_max_deg =
    elim (create_meta_data page_size key_size value_size) [
      | none ↦ none
      | some md ↦ or_default (custom_degree custom_max_deg md)
    ]

-- `updateHeader` writes the header as it is in memory, the value position with it.
update_header : M (Unit {0})
update_header s =
    some (tt, record s { header = record s.header { current_value_node = s.empty_value_node } })

-- The constructor of a tree on a file that is there: the lists and the value position come from their
-- files, and the root from the page that the header names.
open_tree : MetaData → Store → Option (Unit {0} × BPlusTree)
open_tree md s = as_tree md tt (
    get_node md s.header.root (record s {
      empty_value_node = s.header.current_value_node;
      del_node_pages = open_file s.del_node_pages.file;
      del_values = open_file s.del_values.file;
    }))
