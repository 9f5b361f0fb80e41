-- ===== src/BPlus/Sound/Remove/LeafMerge.antt =====
-- `leftMergeLeaf` and `rightMergeLeaf` of pkg/storage/bplustree/BPlusTreeNode.cpp on a leaf with too few
-- entries and a sibling that has none to give.
use godbee.Base.{
  ℕ, ◌+◌, ◌-◌, ◌≤◌, ◌<◌, ◌≡◌, refl, sym, ap, subst, ◌∙◌, inl, inr, arith, some, update, ltb, leb,
  if◌then◌else◌, Bool-cases,
}
use godbee.BPlus.Offsets.{MetaData, IsConfig}
use godbee.BPlus.Store.{Node, Store}
use godbee.BPlus.Removal.{copy_to, move_to, left_merge_leaf, right_merge_leaf, read_second_left}
use godbee.BPlus.Removal.Loops.{copy_to-at, move_to-at}
use godbee.BPlus.Sound.{Ghost, lower, upper, as_page, IsLeaf}
use godbee.BPlus.Sound.Weak.{lower_if, IsLeaf-join}
use godbee.BPlus.Sound.Remove.Repair.{Ready, Moves, low_mid, mid_high}
use godbee.BPlus.Sound.Remove.Siblings.{sibling}
use godbee.BPlus.Sound.Remove.Drop.{drop_right, drop_left}

module _ (md : MetaData) (c : IsConfig md) (g : Ghost) (s : Store) (flo fhi : ℕ) (n f : Node)
    (i : ℕ) (ready : Ready md g s 0 flo fhi n f i) (small : n.size < md.max_degree) (sib : Node)
    (big : md.max_degree ≤ sib.size + 1) (no_more : sib.size < md.max_degree) where
  module _ (inside : i < f.size) (at : sib.off_set ≡ f.childs (i + 1))
      (node : IsLeaf md g (f.keys i) (upper f.keys f.size fhi (i + 1)) (as_page sib)) where
    abbrev with_right : Node
    with_right =
        let filled = copy_to sib.size 0 n.size sib.childs n.childs in
        record n {
          keys = copy_to sib.size 0 n.size sib.keys n.keys;
          childs = update filled (sib.size + n.size) (sib.childs sib.size);
          size = n.size + sib.size;
        }

    with_right-IsLeaf :
        IsLeaf md g (lower f.keys flo i) (upper f.keys f.size fhi (i + 1)) (as_page with_right)
    with_right-IsLeaf =
        let up : upper f.keys f.size fhi i ≡ f.keys i = ground arith in
        let mine = subst (λ z. IsLeaf md g (lower f.keys flo i) z (as_page n)) up ready.node in
        IsLeaf-join md g mine node refl refl (omega (arith, small, no_more))
          (λ j k. ground (arith, copy_to-at sib.size 0 n.size sib.keys n.keys j))
          (λ j k l. ground (arith, copy_to-at sib.size 0 n.size sib.keys n.keys j))
          (λ j k. ground (arith, copy_to-at sib.size 0 n.size sib.childs n.childs j))
          (λ j k l. ground (arith, copy_to-at sib.size 0 n.size sib.childs n.childs j))
          (omega (arith, low_mid md c g s 0 flo fhi n f i ready i inside))
          (omega (arith, mid_high md c g s 0 flo fhi n f i ready i inside))

    pub right_merge_leaf-Moves : Moves md g s 0 flo fhi n f i (right_merge_leaf md n f i sib)
    unfolding right_merge_leaf
    right_merge_leaf-Moves =
        drop_right md c g s 0 flo fhi n f i ready i inside with_right refl
          (omega (arith, big, c.degree)) with_right-IsLeaf sib refl at

  module _ (j : ℕ) (e : i ≡ j + 1) (at : sib.off_set ≡ f.childs j)
      (node : IsLeaf md g (lower f.keys flo j) (f.keys j) (as_page sib)) where
    abbrev linked : ℕ → ℕ
    linked = update n.childs (n.size + sib.size) (n.childs n.size)

    abbrev with_left : Node
    with_left =
        let keys = move_to n.size 0 sib.size n.keys in
        let childs = move_to n.size 0 sib.size linked in
        record n {
          keys = copy_to sib.size 0 0 sib.keys keys;
          childs = copy_to sib.size 0 0 sib.childs childs;
          size = n.size + sib.size;
        }

    inside : j < f.size
    inside = omega (arith, e, ready.index)

    mine : IsLeaf md g (f.keys j) (upper f.keys f.size fhi (j + 1)) (as_page n)
    mine =
        let down : lower f.keys flo i ≡ f.keys j =
          ap (lower f.keys flo) e ∙ rw (lower_if f.keys flo (j + 1)) (ground arith) in
        let up : upper f.keys f.size fhi i ≡ upper f.keys f.size fhi (j + 1) =
          ap (upper f.keys f.size fhi) e in
        subst (λ z. IsLeaf md g z (upper f.keys f.size fhi (j + 1)) (as_page n)) down
          (subst (λ z. IsLeaf md g (lower f.keys flo i) z (as_page n)) up ready.node)

    -- The entries of the left one, and then those of `this`, from two arrays.
    after_left :
        (from to : ℕ → ℕ) (k : ℕ)
        → k < n.size + sib.size
        → copy_to sib.size 0 0 from (move_to n.size 0 sib.size to) k
          ≡ (if ltb k sib.size then from k else to (k - sib.size))
    after_left from to k l = ground (
      arith,
      copy_to-at sib.size 0 0 from (move_to n.size 0 sib.size to) k,
      move_to-at n.size 0 sib.size to k (omega (arith, small, big)),
    )

    with_left-IsLeaf :
        IsLeaf md g (lower f.keys flo j) (upper f.keys f.size fhi (j + 1)) (as_page with_left)
    with_left-IsLeaf =
        IsLeaf-join md g node mine (ready.node.flag ∙ sym node.flag) (omega arith)
          (omega (arith, small, no_more)) (λ k l. ground (arith, after_left sib.keys n.keys k))
          (λ k l r. ground (arith, after_left sib.keys n.keys k r))
          (λ k l. ground (arith, after_left sib.childs linked k))
          (λ k l r. ground (arith, after_left sib.childs linked k r, big, c.degree))
          (omega (arith, low_mid md c g s 0 flo fhi n f i ready j inside))
          (omega (arith, mid_high md c g s 0 flo fhi n f i ready j inside))

    read_second_left-eq : read_second_left md f i s ≡ some (tt, s)
    unfolding read_second_left
    read_second_left-eq = elim (Bool-cases (leb 2 i)) [
      | inl z ↦
          let r =
            sibling md g s 0 flo fhi n f i ready (i - 2) (omega (arith, ready.index))
              (λ q. ground arith) in
          rw (z, r.read) refl
      | inr z ↦ rw z refl
    ]

    pub left_merge_leaf-Moves : Moves md g s 0 flo fhi n f i (left_merge_leaf md n f i sib)
    unfolding left_merge_leaf
    left_merge_leaf-Moves =
        let (n', f', g', s', run, r) =
          drop_left md c g s 0 flo fhi n f i ready j inside with_left refl
            (omega (arith, big, c.degree)) with_left-IsLeaf sib e at in
        let index : i - 1 ≡ j = omega (arith, e) in
        (n', f', g', s', rw (read_second_left-eq, index) run, r)
