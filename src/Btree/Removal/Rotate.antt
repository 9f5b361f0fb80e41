-- ===== src/Btree/Removal/Rotate.antt =====
-- `borrowFromNextNode` and `borrowFromPrevNode` of pkg/storage/btree/BTreeNode.cpp: the second one undoes
-- the first one.
use godbee.Base.{
  ℕ, zero, suc, Array, ◌≤◌, ◌+◌, ◌-◌, ◌*◌, ◌<◌, ◌≡◌, ◌≢◌, refl, sym, ap, ◌∙◌, true, some, ltb,
  if◌then◌else◌, update, arith,
}
use godbee.Btree.File.{
  Node, node_page, node_at, Config, Tree, write_page, write_node, read_node, is_leaf,
}
use godbee.Btree.Node.{move_up}
use godbee.Btree.Removal.{move_down, borrow_from_next_node, borrow_from_prev_node}
use godbee.Btree.Removal.Merge.{IsSame}
use godbee.Btree.Loops.{move_down-at, move_up-at}

-- The three nodes after an entry has gone from `next` through entry `idx` of `n` to `child`.
module _ (n : Node) (idx : ℕ) (child next : Node) where
  abbrev next_father : Node
  next_father = record n {
    arr_entry = update n.arr_entry idx (next.arr_entry 0);
    value_pos = update n.value_pos idx (next.value_pos 0);
  }

  abbrev next_child : Node
  next_child = record child {
    arr_entry = update child.arr_entry child.n_entry (n.arr_entry idx);
    value_pos = update child.value_pos child.n_entry (n.value_pos idx);
    arr_child =
        if is_leaf child.flag
        then child.arr_child
        else update child.arr_child (child.n_entry + 1) (next.arr_child 0);
    n_entry = child.n_entry + 1;
  }

  abbrev next_lender : Node
  next_lender = record next {
    arr_entry = move_down (next.n_entry - 1) 1 next.arr_entry;
    value_pos = move_down (next.n_entry - 1) 1 next.value_pos;
    arr_child =
        if is_leaf next.flag then next.arr_child else move_down next.n_entry 1 next.arr_child;
    n_entry = next.n_entry - 1;
  }

  -- And after one has gone from `prev` through entry `idx - 1` to `child`; here `next` is `prev`.
  abbrev prev_father : Node
  prev_father = record n {
    arr_entry = update n.arr_entry (idx - 1) (next.arr_entry (next.n_entry - 1));
    value_pos = update n.value_pos (idx - 1) (next.value_pos (next.n_entry - 1));
  }

  abbrev prev_child : Node
  prev_child = record child {
    arr_entry = update (move_up child.n_entry 0 child.arr_entry) 0 (n.arr_entry (idx - 1));
    value_pos = update (move_up child.n_entry 0 child.value_pos) 0 (n.value_pos (idx - 1));
    arr_child =
        if is_leaf child.flag
        then child.arr_child
        else update (move_up (child.n_entry + 1) 0 child.arr_child) 0 (next.arr_child next.n_entry);
    n_entry = child.n_entry + 1;
  }

  abbrev prev_lender : Node
  prev_lender = record next { n_entry = next.n_entry - 1 }

-- The writes of both: the father, the child, the sibling.
abbrev three_writes : Node → Node → Node → Tree → Tree
three_writes father child lender s =
    write_page lender.pos (node_page lender)
      (write_page child.pos (node_page child) (write_page father.pos (node_page father) s))

module _ (c : Config) (n : Node) (idx : ℕ) (child other : Node) (s : Tree)
    (at : s.file (n.arr_child idx) ≡ node_page child) (room : child.n_entry < 2 * c.t - 1) where
  below : ltb child.n_entry (2 * c.t - 1) ≡ true
  below = ground arith

  run_next :
      s.file (n.arr_child (idx + 1)) ≡ node_page other
      → borrow_from_next_node c n idx s
        ≡ some (
          next_father n idx child other,
          three_writes
              (next_father n idx child other)
              (next_child n idx child other)
              (next_lender n idx child other)
              s,
        )
  unfolding borrow_from_next_node read_node node_at write_node write_page
  run_next e = rw (at, e, below) refl

  run_prev :
      s.file (n.arr_child (idx - 1)) ≡ node_page other
      → borrow_from_prev_node c n idx s
        ≡ some (
          prev_father n idx child other,
          three_writes
              (prev_father n idx child other)
              (prev_child n idx child other)
              (prev_lender n idx child other)
              s,
        )
  unfolding borrow_from_prev_node read_node node_at write_node write_page
  run_prev e = rw (at, e, below) refl

-- What has been moved down and up again, with the first one put back.
restored :
    (rounds rounds' : ℕ) (a : Array ℕ) (x j : ℕ)
    → rounds' ≡ rounds
    → j ≤ rounds
    → x ≡ a 0
    → update (move_up rounds' 0 (move_down rounds 1 a)) 0 x j ≡ a j
restored rounds rounds' a x zero same h e = ground (arith, e)
restored rounds rounds' a x (suc k) same h e =
    ground (arith, move_up-at rounds' 0 (move_down rounds 1 a) k, move_down-at rounds 0 a k)

module _ (n : Node) (idx : ℕ) (child next : Node) (some_entry : 0 < next.n_entry)
    (level : is_leaf next.flag ≡ is_leaf child.flag) where
  abbrev father : Node
  father = next_father n idx child next

  abbrev lower : Node
  lower = next_child n idx child next

  abbrev upper : Node
  upper = next_lender n idx child next

  father-IsSame : IsSame (prev_father father (idx + 1) upper lower) n
  father-IsSame = record {
    at = refl;
    flag_eq = refl;
    size = refl;
    entries = λ j p. (ground arith, ground arith);
    children = λ _ j p. refl;
  }

  lower-IsSame : IsSame (prev_lender father (idx + 1) upper lower) child
  lower-IsSame = record {
    at = refl;
    flag_eq = refl;
    size = omega arith;
    entries = λ j p. (ground arith, ground arith);
    children = λ inner j p. rw inner (ground arith);
  }

  upper-IsSame : IsSame (prev_child father (idx + 1) upper lower) next
  upper-IsSame = record {
    at = refl;
    flag_eq = refl;
    size = omega arith;
    entries = λ j p. (
      restored (next.n_entry - 1) (next.n_entry - 1) next.arr_entry _ j refl (omega arith)
          (ground arith),
      restored (next.n_entry - 1) (next.n_entry - 1) next.value_pos _ j refl (omega arith)
          (ground arith),
    );
    children = λ inner j p.
        rw (sym level, inner)
          (restored next.n_entry (next.n_entry - 1 + 1) next.arr_child _ j (omega arith) p
            (ground arith));
  }

-- Lending an entry from the right sibling to a child and then one from that child to the sibling succeeds, where
-- the nodes stand at three pages of their own, the siblings are both leaves or both inner nodes, the
-- child is not full, and the sibling has an entry and not too many: the father, the child and the
-- sibling stand at their pages as they were, and no other page has changed.
pub borrow_from_prev_node-borrow_from_next_node :
    (c : Config) (n : Node) (idx : ℕ) (child next : Node) (s : Tree)
    → s.file (n.arr_child idx) ≡ node_page child
    → s.file (n.arr_child (idx + 1)) ≡ node_page next
    → n.arr_child idx ≡ child.pos
    → n.arr_child (idx + 1) ≡ next.pos
    → n.pos ≢ child.pos
    → n.pos ≢ next.pos
    → child.pos ≢ next.pos
    → is_leaf next.flag ≡ is_leaf child.flag
    → child.n_entry < 2 * c.t - 1
    → 0 < next.n_entry
    → next.n_entry < 2 * c.t
    → (n' : Node) × (s' : Tree) × (n'' : Node) × (child'' : Node) × (next'' : Node) × (s'' : Tree)
      × (borrow_from_next_node c n idx s ≡ some (n', s'))
      × (borrow_from_prev_node c n' (idx + 1) s' ≡ some (n'', s''))
      × IsSame n'' n
      × IsSame child'' child
      × IsSame next'' next
      × (s''.file n.pos ≡ node_page n'')
      × (s''.file child.pos ≡ node_page child'')
      × (s''.file next.pos ≡ node_page next'')
      × ((p : ℕ) → p ≢ n.pos → p ≢ child.pos → p ≢ next.pos → s''.file p ≡ s.file p)
unfolding write_page
borrow_from_prev_node-borrow_from_next_node c n idx child next s at at' e e' d d' d'' level room
      some_entry bound =
    let father = next_father n idx child next in
    let low = next_child n idx child next in
    let up = next_lender n idx child next in
    let s' = three_writes father low up s in
    let back : idx + 1 - 1 ≡ idx = omega arith in
    let low_at : s'.file (n.arr_child (idx + 1 - 1)) ≡ node_page low =
      ap (λ i. s'.file (n.arr_child i)) back ∙ ground (arith, e, d'') in
    let up_at : s'.file (n.arr_child (idx + 1)) ≡ node_page up = ground (arith, e') in
    (
      father,
      s',
      prev_father father (idx + 1) up low,
      prev_lender father (idx + 1) up low,
      prev_child father (idx + 1) up low,
      three_writes (prev_father father (idx + 1) up low) (prev_child father (idx + 1) up low)
          (prev_lender father (idx + 1) up low) s',
      run_next c n idx child next s at room at',
      run_prev c father (idx + 1) up low s' up_at (omega arith) low_at,
      father-IsSame n idx child next some_entry level,
      lower-IsSame n idx child next some_entry level,
      upper-IsSame n idx child next some_entry level,
      ground (arith, d, d'),
      ground arith,
      ground (arith, d''),
      λ p x y z. ground (arith, x, y, z),
    )
