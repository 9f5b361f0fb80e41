-- ===== src/Btree/Removal/Merge.antt =====
-- `mergeNodes` of pkg/storage/btree/BTreeNode.cpp undoes `splitChild`.
use godbee.Base.{
  ℕ, ◌+◌, ◌-◌, ◌*◌, ◌≤◌, ◌<◌, ◌≡◌, ◌≢◌, refl, sym, ap, ◌∙◌, true, false, some, [], ◌∷◌, ◌++◌,
  if◌then◌else◌, update, arith, ltb,
}
use godbee.Btree.File.{
  Node, node_page, node_at, deleted, Config, Tree, write_page, write_node, read_node, is_leaf,
}
use godbee.Btree.Node.{split_child}
use godbee.Btree.Node.Split.{Apart, IsCut, split_child-IsSplit}
use godbee.Btree.Removal.{move_down, put_at, push_node, drop_entry, merge_nodes}
use godbee.Btree.Loops.{move_down-at, put_at-at}

-- Two objects that stand for the same node: they agree on the entries that are in use.
pub record IsSame (a b : Node) : Type 0 where
  pub at : a.pos ≡ b.pos
  pub flag_eq : a.flag ≡ b.flag
  pub size : a.n_entry ≡ b.n_entry
  pub entries :
      (j : ℕ) → j < b.n_entry → (a.arr_entry j ≡ b.arr_entry j) × (a.value_pos j ≡ b.value_pos j)
  pub children : is_leaf b.flag ≡ false → (j : ℕ) → j ≤ b.n_entry → a.arr_child j ≡ b.arr_child j

module _ (c : Config) (n : Node) (idx : ℕ) (low up : Node) where
  abbrev merged : Node
  merged = record low {
    arr_entry =
        put_at up.n_entry 0 c.t up.arr_entry (update low.arr_entry (c.t - 1) (n.arr_entry idx));
    value_pos =
        put_at up.n_entry 0 c.t up.value_pos (update low.value_pos (c.t - 1) (n.value_pos idx));
    arr_child =
        if is_leaf low.flag
        then low.arr_child
        else put_at (up.n_entry + 1) 0 c.t up.arr_child low.arr_child;
    n_entry = low.n_entry + up.n_entry + 1;
  }

  abbrev closed : Node
  closed = record (drop_entry n idx) {
    arr_child = move_down (n.n_entry - (idx + 1)) (idx + 2) n.arr_child;
  }

  abbrev written : Tree → Tree
  written s = write_page closed.pos (node_page closed) (
      write_page up.pos (node_page (record up { flag = deleted })) (
        write_page low.pos (node_page merged)
          (record s { deleted_nodes_pos = s.deleted_nodes_pos ++ (up.pos ∷ []) })))

  run :
      (s : Tree)
      → s.file (n.arr_child idx) ≡ node_page low
      → s.file (n.arr_child (idx + 1)) ≡ node_page up
      → up.n_entry + c.t < 2 * c.t
      → merge_nodes c n idx s ≡ some (closed, written s)
  unfolding merge_nodes read_node node_at write_node push_node write_page drop_entry
  run s e f room =
      let below : ltb (up.n_entry + c.t) (2 * c.t) ≡ true = ground arith in rw (e, f, below) refl

module _ (c : Config) (n : Node) (idx : ℕ) (child n' low up : Node) (t : 1 ≤ c.t)
    (full : child.n_entry + 1 ≡ 2 * c.t) (h : idx ≤ n.n_entry)
    (cut : IsCut c.t n idx child n' low up) where
  closed-IsSame : n'.pos ≡ n.pos → IsSame (closed c n' idx low up) n
  unfolding drop_entry
  closed-IsSame e = record {
    at = e;
    flag_eq = cut.flags.2;
    size = omega (arith, cut.sizes.2);
    entries = λ j p. (
      ground (
        arith,
        cut.sizes.2,
        cut.before j,
        cut.behind j,
        move_down-at (n'.n_entry - (idx + 1)) idx n'.arr_entry j,
      ),
      ground (
        arith,
        cut.sizes.2,
        cut.before j,
        cut.behind j,
        move_down-at (n'.n_entry - (idx + 1)) idx n'.value_pos j,
      ),
    );
    children = λ _ j p. ground (
      arith,
      cut.sizes.2,
      cut.child_before j,
      cut.child_behind j,
      move_down-at (n'.n_entry - (idx + 1)) (idx + 1) n'.arr_child j,
    );
  }

  merged-IsSame : low.pos ≡ child.pos → IsSame (merged c n' idx low up) child
  merged-IsSame e = record {
    at = e;
    flag_eq = cut.flags.0;
    size = omega (arith, cut.sizes.0, cut.sizes.1);
    entries = λ j p. (
      ground (
        arith,
        cut.sizes.0,
        cut.sizes.1,
        cut.middle,
        cut.lower_entry j,
        cut.upper_entry (j - c.t),
        put_at-at up.n_entry 0 c.t up.arr_entry (update low.arr_entry (c.t - 1) (n'.arr_entry idx))
            j,
      ),
      ground (
        arith,
        cut.sizes.0,
        cut.sizes.1,
        cut.middle,
        cut.lower_entry j,
        cut.upper_entry (j - c.t),
        put_at-at up.n_entry 0 c.t up.value_pos (update low.value_pos (c.t - 1) (n'.value_pos idx))
            j,
      ),
    );
    children = λ inner j p.
        rw (cut.flags.0, inner)
          (ground (
            arith,
            cut.sizes.0,
            cut.sizes.1,
            cut.lower_child inner j,
            cut.upper_child inner (j - c.t),
            put_at-at (up.n_entry + 1) 0 c.t up.arr_child low.arr_child j,
          ));
  }

-- Merging the halves of a full child, right after it was split under a parent that was not full, succeeds; parent and child stand at their
-- pages as they were before the split, and the new page is marked and given to the queue.
pub merge_nodes-split_child :
    (c : Config) (n : Node) (idx : ℕ) (child : Node) (s : Tree)
    → 1 ≤ c.t
    → child.n_entry + 1 ≡ 2 * c.t
    → n.n_entry < 2 * c.t - 1
    → idx ≤ n.n_entry
    → n.arr_child idx ≡ child.pos
    → n.pos ≢ child.pos
    → child.pos < s.pages
    → Apart s.deleted_nodes_pos n child
    → (n' : Node) × (s' : Tree) × (n'' : Node) × (child'' : Node) × (s'' : Tree) × (split_child c n
          idx child s
        ≡ some (n', s'))
      × (merge_nodes c n' idx s' ≡ some (n'', s''))
      × IsSame n'' n
      × IsSame child'' child
      × (s''.file n.pos ≡ node_page n'')
      × (s''.file child.pos ≡ node_page child'')
      × ((p : ℕ) → p ≢ n.pos → p ≢ child.pos → p ≢ n'.arr_child (idx + 1) → s''.file p ≡ s.file p)
      × (s''.deleted_nodes_pos ≡ s'.deleted_nodes_pos ++ (n'.arr_child (idx + 1) ∷ []))
unfolding write_page
merge_nodes-split_child c n idx child s t full room h at d inside apart =
    let (n', low, up, s', split, pages, cut) =
      split_child-IsSplit c n idx child s t room h d inside apart in
    let n'_pos = pages.positions.0 in
    let low_pos = pages.positions.1 in
    let up_at = cut.child_new in
    let same_n = closed-IsSame c n idx child n' low up t full h cut n'_pos in
    let same_child = merged-IsSame c n idx child n' low up t full h cut low_pos in
    (
      n',
      s',
      closed c n' idx low up,
      merged c n' idx low up,
      written c n' idx low up s',
      split,
      run c n' idx low up s'
          (ap s'.file (cut.child_before idx (omega arith) ∙ at) ∙ pages.lower_page)
          (ap s'.file up_at ∙ pages.upper_page) (omega (arith, cut.sizes.1)),
      same_n,
      same_child,
      ground (arith, same_n.at),
      ground (arith, same_n.at, low_pos, d, pages.upper_new.1),
      λ p x y z. ground (arith, same_n.at, low_pos, up_at, x, y, z, pages.others p x y),
      ap (λ x. s'.deleted_nodes_pos ++ (x ∷ [])) (sym up_at),
    )
