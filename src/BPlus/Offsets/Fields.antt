-- ===== src/BPlus/Offsets/Fields.antt =====
-- The two parts of an offset, and the arithmetic that moves between offsets and positions in the
-- file, pkg/storage/bplustree/fileUtils.cpp.
use native.Mathlib.Nat.{one-le-pow}
use godbee.Base.{ℕ, ◌+◌, ◌-◌, ◌*◌, ◌/◌, ◌%◌, ◌^◌, ◌<◌, ◌≡◌, ap, ◌∙◌, arith}
use godbee.Base.Bits.{bit_or_disjoint}
use native.Mathlib.Nat.{
  mul-add-div_right, mul-add-mod_self_right, div-eq_of_lt, mod-eq_of_lt, div-add-mod,
  mul-div_cancel,
}
use godbee.BPlus.Offsets.{
  MetaData, IsConfig, header_size, ceil_div, node_id, value_idx, calculate_real_offset,
  calculate_page_node_id, free_offset, next_pos, next_in_page,
}

-- A number written with a last digit in base `w`.
div_digit : (w p s : ℕ) → s < w → (p * w + s) / w ≡ p
div_digit w p s h = omega (arith, mul-add-div_right {m = w} (omega arith) p s, div-eq_of_lt h)

mod_digit : (w p s : ℕ) → s < w → (p * w + s) % w ≡ s
mod_digit w p s h = omega (arith, mul-add-mod_self_right p w s, mod-eq_of_lt h)

digits_injective : (w a b : ℕ) → a / w ≡ b / w → a % w ≡ b % w → a ≡ b
digits_injective w a b p q =
    omega (arith, div-add-mod a w, div-add-mod b w, ap (λ (t : ℕ). w * t) p)

module _ (md : MetaData) where
  -- An offset is told by its page and its index.
  pub node_id_injective :
      (a b : ℕ) → node_id md a ≡ node_id md b → value_idx md a ≡ value_idx md b → a ≡ b
  unfolding node_id value_idx
  node_id_injective a b = digits_injective (2 ^ md.b_size_of_value_idx) a b

  node_id_fields :
      (p s : ℕ)
      → s < 2 ^ md.b_size_of_value_idx
      → node_id md (p * 2 ^ md.b_size_of_value_idx + s) ≡ p
  unfolding node_id
  node_id_fields p s h = div_digit _ p s h

  value_idx_fields :
      (p s : ℕ)
      → s < 2 ^ md.b_size_of_value_idx
      → value_idx md (p * 2 ^ md.b_size_of_value_idx + s) ≡ s
  unfolding value_idx
  value_idx_fields p s h = mod_digit _ p s h

  module _ (c : IsConfig md) where
    page_pos : 0 < md.page_size
    page_pos = grind (arith, c.filled, c.some_value, c.value_bytes)

    in_page : (i : ℕ) → i < ceil_div md.page_size md.value_size → i * md.value_size < md.page_size
    in_page i h = grind (arith, c.filled, c.value_bytes)

    page_node_id :
        (p r : ℕ)
        → r < md.page_size
        → calculate_page_node_id md (p * md.page_size + r + header_size)
          ≡ p * 2 ^ md.b_size_of_value_idx
    unfolding calculate_page_node_id
    page_node_id p r h =
        ap (λ (t : ℕ). t * 2 ^ md.b_size_of_value_idx)
          (ap (λ (t : ℕ). t / md.page_size) (sub_header (p * md.page_size + r))
            ∙ div_digit md.page_size p r h)
      where
        sub_header : (x : ℕ) → x + header_size - header_size ≡ x
        sub_header x = omega arith

    free_offset-eq : (pages : ℕ) → free_offset md pages ≡ pages * 2 ^ md.b_size_of_value_idx + 0
    unfolding free_offset
    free_offset-eq pages =
        let e : header_size + pages * md.page_size ≡ pages * md.page_size + 0 + header_size =
          omega arith in
        omega (arith, ap (calculate_page_node_id md) e, page_node_id pages 0 page_pos)

    index_room : 0 < 2 ^ md.b_size_of_value_idx
    index_room = one-le-pow md.b_size_of_value_idx 2 (omega arith)

    -- The position that `getNextFreeOffset` returns is that of the page it appends.
    pub free_offset_fields :
        (pages : ℕ)
        → (node_id md (free_offset md pages) ≡ pages) × (value_idx md (free_offset md pages) ≡ 0)
    free_offset_fields pages = (
      rw free_offset-eq (node_id_fields pages 0 index_room),
      rw free_offset-eq (value_idx_fields pages 0 index_room),
    )

    -- The index behind that of a value.
    pub next_pos-eq :
        (id : ℕ)
        → value_idx md id < ceil_div md.page_size md.value_size
        → next_pos md id ≡ value_idx md id + 1
    unfolding next_pos calculate_real_offset
    next_pos-eq id h =
        ap (λ (t : ℕ). t + 1)
          (ap (λ (t : ℕ). t % md.page_size / md.value_size)
              (drop_header (node_id md id * md.page_size) (value_idx md id * md.value_size))
            ∙ ap (λ (t : ℕ). t / md.value_size)
                (mod_digit md.page_size (node_id md id) (value_idx md id * md.value_size)
                  (in_page (value_idx md id) h))
            ∙ times_div (value_idx md id) md.value_size c.value_bytes)
      where
        drop_header : (x y : ℕ) → x + y + header_size - header_size ≡ x + y
        drop_header x y = omega arith

        times_div : (x w : ℕ) → 0 < w → x * w / w ≡ x
        times_div x w h = mul-div_cancel x h

    -- The position behind a value that is not the last of its page.
    pub next_in_page_fields :
        (id : ℕ)
        → value_idx md id + 1 < ceil_div md.page_size md.value_size
        → (node_id md (next_in_page md id) ≡ node_id md id)
          × (value_idx md (next_in_page md id) ≡ value_idx md id + 1)
    unfolding next_in_page calculate_real_offset
    next_in_page_fields id h =
        let e : next_in_page md id
            ≡ node_id md id * 2 ^ md.b_size_of_value_idx + (value_idx md id + 1) =
          (unfold next_in_page calculate_real_offset in
            rw
              (
                page_node_id (node_id md id) (value_idx md id * md.value_size)
                    (in_page (value_idx md id) (omega arith)),
                next_pos-eq id (omega arith),
              )
              (bit_or_disjoint md.b_size_of_value_idx (node_id md id) (value_idx md id + 1)
                (omega (arith, c.bits)))) in
        (
          rw e (node_id_fields _ _ (omega (arith, c.bits))),
          rw e (value_idx_fields _ _ (omega (arith, c.bits))),
        )
