-- ===== src/BPlus/Offsets.antt =====
-- Positions in the data file, pkg/storage/bplustree/fileUtils.h and fileUtils.cpp.
-- An offset holds the number of a page and, in its lowest `b_size_of_value_idx` bits, the index of a
-- value in the page. `x & ((1 << b) - 1)` is `x % 2 ^ b`, and `x >> b` is `x / 2 ^ b`.
pub mod Fields
use Prim.Native.Nat.{bit_or}
use godbee.Base.{ℕ, ◌≤◌, ◌<◌, ◌≡◌, ◌+◌, ◌-◌, ◌*◌, ◌/◌, ◌%◌, ◌^◌, ◌==◌, if◌then◌else◌}

pub record MetaData : Type 0 where
  pub max_degree : ℕ
  pub b_size_of_value_idx : ℕ
  pub value_size : ℕ
  pub key_size : ℕ
  pub page_size : ℕ

-- `sizeof(HeaderPage)`: two 8-byte and three 2-byte fields, three names of 200 bytes, padded to 8.
abbrev pub header_size : ℕ
header_size = 624

-- `IO_BUFFER_SIZE`.
abbrev pub io_buffer_size : ℕ
io_buffer_size = 4096

-- `ceil(1.0 * a / b)`.
abbrev pub ceil_div : ℕ → ℕ → ℕ
ceil_div a b = (a + b - 1) / b

module _ (md : MetaData) where
  -- What `writeNodePageToFile` writes: the children, the keys, the flag and the size.
  abbrev pub page_bytes : ℕ
  page_bytes = 2 * md.max_degree * 8 + (2 * md.max_degree - 1) * md.key_size + 1 + 2

  -- A degree of two or more, nodes that fit into a page and into one buffer of `IO_BUFFER_SIZE` bytes,
  -- and pages that whole values fill.
  pub record IsConfig : Type 0 where
    pub degree : 2 ≤ md.max_degree
    pub in_page : page_bytes ≤ md.page_size
    pub in_buffer : page_bytes ≤ io_buffer_size
    pub value_bytes : 0 < md.value_size
    pub filled : md.page_size ≡ ceil_div md.page_size md.value_size * md.value_size
    pub some_value : 0 < ceil_div md.page_size md.value_size
    pub bits : ceil_div md.page_size md.value_size ≤ 2 ^ md.b_size_of_value_idx

  pub node_id : ℕ → ℕ
  node_id offset = offset / 2 ^ md.b_size_of_value_idx

  unfoldable pub value_idx : ℕ → ℕ
  value_idx offset = offset % 2 ^ md.b_size_of_value_idx

  unfoldable pub calculate_real_offset : ℕ → ℕ
  unfolding node_id value_idx
  calculate_real_offset offset =
      node_id offset * md.page_size + value_idx offset * md.value_size + header_size

  unfoldable pub calculate_page_node_id : ℕ → ℕ
  calculate_page_node_id real_offset =
      (real_offset - header_size) / md.page_size * 2 ^ md.b_size_of_value_idx

  -- The offset of the page that `getNextFreeOffset` appends to a file of `pages` pages.
  unfoldable pub free_offset : ℕ → ℕ
  free_offset pages = calculate_page_node_id (header_size + pages * md.page_size)

  unfoldable pub next_pos : ℕ → ℕ
  next_pos value_id =
      (calculate_real_offset value_id - header_size) % md.page_size / md.value_size + 1

  -- The next value in the page of `value_id`.
  unfoldable pub next_in_page : ℕ → ℕ
  next_in_page value_id =
      bit_or (calculate_page_node_id (calculate_real_offset value_id)) (next_pos value_id)
