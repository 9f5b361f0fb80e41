-- ===== src/Btree/Node/Leaf.antt =====
-- `insertNonFull` of pkg/storage/btree/BTreeNode.cpp on a leaf.
use godbee.Base.{
  ℕ, zero, suc, ◌+◌, ◌-◌, ◌*◌, ◌/◌, ◌%◌, ◌≤◌, ◌<◌, ◌≡◌, ◌≢◌, refl, ◌∙◌, true, false, leb, none,
  some, List, [], ◌∷◌, ltb, ◌==◌, Array, update, arith, Bool-cases, inl, inr, ◌⊎◌,
}
use native.Mathlib.Nat.{mul-le-mul_right}
use godbee.Btree.File.{
  Key, Value, Node, node_page, value_page, values_of, Config, Tree, update_value_at, take_value_pos,
  from_vals, update_next_pos_node_value, write_node, write_page, is_leaf,
}
use godbee.Btree.Node.{count_not_above, last_equal, move_up, insert_in_leaf, insert_non_full}
use godbee.Btree.Node.SearchTree.{IsOrdered}
use godbee.Btree.Loops.{move_up-at, move_up-before}

-- The key is the number of a place in the order: the entries before it are at most `key`, those from it on above.
record IsPlace (n : ℕ) (a : Array Key) (key : Key) (i : ℕ) : Type 0 where
  pub in_range : i ≤ n
  pub before : 0 < i → a (i - 1) ≤ key
  pub above : (j : ℕ) → i ≤ j → j < n → key < a j

count_not_above-IsPlace :
    (n : ℕ) (a : Array Key) (key : Key) → IsPlace n a key (count_not_above n a key)
unfolding count_not_above
count_not_above-IsPlace zero a key = record {
  in_range = omega arith;
  before = λ h. absurd (omega arith);
  above = λ j p q. absurd (omega arith);
}
count_not_above-IsPlace (suc i) a key = elim (Bool-cases (ltb key (a i))) [
  | inl e ↦
      let r = count_not_above-IsPlace i a key in
      rw e (record {
        in_range = omega (arith, r.in_range);
        before = r.before;
        above = λ j p q. ground (arith, r.above j);
      })
  | inr e ↦ rw e (record {
    in_range = omega arith;
    before = λ h. ground arith;
    above = λ j p q. absurd (omega arith);
  })
]

last_equal-none :
    (n : ℕ) (a : Array Key) (key : Key) → ((j : ℕ) → j < n → a j ≢ key) → last_equal n a key ≡ none
unfolding last_equal
last_equal-none zero a key h = refl
last_equal-none (suc i) a key h =
    let other : (key == a i) ≡ false = elim (Bool-cases (key == a i)) [
      | inl e ↦ absurd (h i (omega arith) (ground arith))
      | inr e ↦ e
    ] in
    rw other (last_equal-none i a key (λ j p. h j (omega arith)))

module _ (c : Config) where
  from_vals-total :
      (free : List ℕ) (s : Tree) → (pos : ℕ) × (s' : Tree) × (from_vals c free s ≡ some (pos, s'))
  unfolding from_vals update_next_pos_node_value
  from_vals-total [] s =
      ((update_next_pos_node_value c s).next_pos_node_value, update_next_pos_node_value c s, refl)
  from_vals-total (pos ∷ rest) s = (pos, record s { deleted_vals_pos = rest }, refl)

leb_of : {a b : ℕ} → a ≤ b → leb a b ≡ true
leb_of h = ground arith

slot_le : (i size page : ℕ) → i ≤ 4 → 4 * size ≤ page → i * size ≤ page
slot_le i size page h fits = omega (arith, mul-le-mul_right size h)

-- A value is written to the page that its position says, or behind the end of the file.
update_value_at-others :
    (c : Config) (pos : ℕ) (v : Value) (s : Tree)
    → 4 * c.value_size ≤ c.page_size
    → (s' : Tree) × (update_value_at c pos v false s ≡ some (tt, s'))
      × ((p : ℕ) → p < s.pages → p ≢ pos / 4 → s'.file p ≡ s.file p)
unfolding update_value_at write_page
update_value_at-others c pos v s fits = elim (Bool-cases (pos % 4 == 0)) [
  | inl e ↦
      (write_page s.pages (value_page (update (λ _. []) 0 v)) s, rw e refl, λ p h d. ground arith)
  | inr e ↦
      let inside : leb ((pos % 4 + 1) * c.value_size) c.page_size ≡ true =
        leb_of (slot_le (pos % 4 + 1) c.value_size c.page_size (omega arith) fits) in
      (
        write_page (pos / 4) (value_page (update (values_of (s.file (pos / 4))) (pos % 4) v)) s,
        rw (e, inside) refl,
        λ p h d. ground (arith, d),
      )
]

-- `n'` has the entries of `n`, and `key` with its value at `pos`, in the order of the keys.
pub record IsInserted (n : Node) (key : Key) (pos : ℕ) (n' : Node) : Type 0 where
  pub place : ℕ
  pub in_range : place ≤ n.n_entry
  pub size : n'.n_entry ≡ n.n_entry + 1
  pub same : (n'.pos ≡ n.pos) × (n'.flag ≡ n.flag)
  pub new_entry : (n'.arr_entry place ≡ key) × (n'.value_pos place ≡ pos)
  pub smaller :
      (j : ℕ) → j < place → (n'.arr_entry j ≡ n.arr_entry j) × (n'.value_pos j ≡ n.value_pos j)
  pub larger :
      (j : ℕ)
      → place ≤ j
      → j < n.n_entry
      → (n'.arr_entry (j + 1) ≡ n.arr_entry j) × (n'.value_pos (j + 1) ≡ n.value_pos j)

module _ (c : Config) (n : Node) (key : Key) (value : Value) (lo hi : ℕ)
    (fresh : (j : ℕ) → j < n.n_entry → n.arr_entry j ≢ key) where
  abbrev grown : ℕ → Node
  grown pos =
      let i = count_not_above n.n_entry n.arr_entry key in
      record n {
        arr_entry = update (move_up (n.n_entry - i) i n.arr_entry) i key;
        value_pos = update (move_up (n.n_entry - i) i n.value_pos) i pos;
        n_entry = n.n_entry + 1;
      }

  grown-IsInserted : (pos : ℕ) → IsInserted n key pos (grown pos)
  grown-IsInserted pos =
      let i = count_not_above n.n_entry n.arr_entry key in
      let p = count_not_above-IsPlace n.n_entry n.arr_entry key in
      record {
        place = i;
        in_range = p.in_range;
        size = refl;
        same = (refl, refl);
        new_entry = (ground arith, ground arith);
        smaller = λ j h. (
          ground (arith, move_up-before (n.n_entry - i) i n.arr_entry j),
          ground (arith, move_up-before (n.n_entry - i) i n.value_pos j),
        );
        larger = λ j h k. (
          ground (arith, move_up-at (n.n_entry - i) i n.arr_entry j),
          ground (arith, move_up-at (n.n_entry - i) i n.value_pos j),
        );
      }

  -- Where an entry of the grown node comes from.
  entry_cases :
      (pos j : ℕ)
      → j < n.n_entry + 1
      → let i = count_not_above n.n_entry n.arr_entry key in
        ((j < i) × ((grown pos).arr_entry j ≡ n.arr_entry j))
        ⊎ (((j ≡ i) × ((grown pos).arr_entry j ≡ key))
            ⊎ ((i < j) × ((grown pos).arr_entry j ≡ n.arr_entry (j - 1))))
  entry_cases pos j h =
      let i = count_not_above n.n_entry n.arr_entry key in
      elim (Bool-cases (ltb j i)) [
        | inl e ↦ inl (ground arith, ground (arith, move_up-before (n.n_entry - i) i n.arr_entry j))
        | inr e ↦ elim (Bool-cases (j == i)) [
          | inl f ↦ inr (inl (ground arith, ground arith))
          | inr f ↦
              inr (
                inr
                  (ground arith, ground (arith, move_up-at (n.n_entry - i) i n.arr_entry (j - 1))))
        ]
      ]

  smaller-key :
      (j : ℕ)
      → IsOrdered lo hi n
      → j < count_not_above n.n_entry n.arr_entry key
      → n.arr_entry j < key
  smaller-key j o h =
      let i = count_not_above n.n_entry n.arr_entry key in
      let p = count_not_above-IsPlace n.n_entry n.arr_entry key in
      let b = p.before (omega arith) in
      let r = p.in_range in ground (arith, fresh (i - 1), o.ascends j (i - 1))

  grown-IsOrdered :
      (pos : ℕ) → IsOrdered lo hi n → lo ≤ key → key < hi → IsOrdered lo hi (grown pos)
  grown-IsOrdered pos o h k =
      let p = count_not_above-IsPlace n.n_entry n.arr_entry key in
      record {
        from_low = λ j q. ground (arith, entry_cases pos j q, o.from_low j, o.from_low (j - 1));
        to_high = λ j q. ground (arith, entry_cases pos j q, o.to_high j, o.to_high (j - 1));
        ascends = λ j m q r. ground (
          arith,
          entry_cases pos j (omega arith),
          entry_cases pos m r,
          smaller-key j o,
          p.above (m - 1),
          o.ascends j m,
          o.ascends j (m - 1),
          o.ascends (j - 1) (m - 1),
          p.in_range,
        );
      }

  -- Inserting an absent key into an ordered leaf that is not full, in a file whose pages have room for four
  -- values, succeeds: the leaf has the
  -- entries it had and the key, with a position for the value, in ascending order. Its page is the leaf's
  -- unless the value's position is in that very page.
  pub insert_non_full-leaf :
      (fuel : ℕ) (s : Tree)
      → is_leaf n.flag ≡ true
      → n.n_entry < 2 * c.t - 1
      → 4 * c.value_size ≤ c.page_size
      → IsOrdered lo hi n
      → lo ≤ key
      → key < hi
      → (n' : Node) × (pos : ℕ) × (s' : Tree) × (insert_non_full c (suc fuel) n key value s
          ≡ some (n', s'))
        × IsInserted n key pos n'
        × IsOrdered lo hi n'
        × ((n.pos ≡ pos / 4) ⊎ (s'.file n.pos ≡ node_page n'))
  unfolding insert_non_full insert_in_leaf write_node write_page take_value_pos
  insert_non_full-leaf fuel s l room fits o h k =
      let below : ltb n.n_entry (2 * c.t - 1) ≡ true = ground arith in
      let (pos, s1, taken) = from_vals-total c s.deleted_vals_pos s in
      let (s', written, others) =
        update_value_at-others c pos value (write_page n.pos (node_page (grown pos)) s1) fits in
      (
        grown pos,
        pos,
        s',
        rw (l, last_equal-none n.n_entry n.arr_entry key fresh, below, taken, written) refl,
        grown-IsInserted pos,
        grown-IsOrdered pos o h k,
        elim (Bool-cases (n.pos == pos / 4)) [
          | inl e ↦ inl (ground arith)
          | inr e ↦
              let kept = others n.pos (ground arith) (λ d. ground arith) in
              inr (kept ∙ ground arith)
        ],
      )
