-- ===== src/BPlus/Sound/Remove/InnerMerge.antt =====
-- `leftMergeItn` and `rightMergeItn` of pkg/storage/bplustree/BPlusTreeNode.cpp on an inner node with too
-- few entries and a sibling that has none to give.
use godbee.Base.{
  ℕ, suc, ◌+◌, ◌-◌, ◌≤◌, ◌<◌, ◌≡◌, refl, sym, ap, subst, ◌∙◌, arith, some, update, ltb, leb, ◌&&◌,
  if◌then◌else◌,
}
use godbee.BPlus.Offsets.{MetaData, IsConfig}
use godbee.BPlus.Store.{Node, Store}
use godbee.BPlus.Removal.{copy_to, move_to, left_merge_itn, right_merge_itn, drop_from_father}
use godbee.BPlus.Removal.Loops.{copy_to-at, move_to-at}
use godbee.BPlus.Sound.{Ghost, lower, upper, as_page, IsInner}
use godbee.BPlus.Sound.Weak.{IsWeak, IsWeak-of_inner, IsInner-of_weak, lower_if, IsWeak-join}
use godbee.BPlus.Sound.Remove.Repair.{Ready, Moves, low_mid, mid_high}
use godbee.BPlus.Sound.Remove.Drop.{drop_right, drop_left}

module _ (md : MetaData) (c : IsConfig md) (g : Ghost) (s : Store) (h flo fhi : ℕ) (n f : Node)
    (i : ℕ) (ready : Ready md g s (suc h) flo fhi n f i) (small : n.size < md.max_degree)
    (sib : Node) (big : md.max_degree ≤ sib.size + 1) (no_more : sib.size < md.max_degree) where
  module _ (inside : i < f.size) (at : sib.off_set ≡ f.childs (i + 1))
      (node : IsInner md g h (f.keys i) (upper f.keys f.size fhi (i + 1)) (as_page sib)) where
    abbrev with_right : Node
    with_right =
        let filled = copy_to sib.size 0 (n.size + 1) sib.childs n.childs in
        record n {
          keys = update (copy_to sib.size 0 (n.size + 1) sib.keys n.keys) n.size (f.keys i);
          childs = update filled (sib.size + 1 + n.size) (sib.childs sib.size);
          size = n.size + (sib.size + 1);
        }

    with_right-IsInner :
        IsInner md g h (lower f.keys flo i) (upper f.keys f.size fhi (i + 1)) (as_page with_right)
    with_right-IsInner =
        let up : upper f.keys f.size fhi i ≡ f.keys i = ground arith in
        let mine = subst (λ z. IsWeak md g h (lower f.keys flo i) z (as_page n)) up ready.node in
        IsInner-of_weak md g (omega arith) (
          IsWeak-join md g mine (IsWeak-of_inner md g node)
            (low_mid md c g s (suc h) flo fhi n f i ready i inside)
            (mid_high md c g s (suc h) flo fhi n f i ready i inside) refl (omega arith)
            (omega (arith, small, no_more))
            (λ j k. ground (arith, copy_to-at sib.size 0 (n.size + 1) sib.keys n.keys j))
            (ground arith)
            (λ j k l. ground (arith, copy_to-at sib.size 0 (n.size + 1) sib.keys n.keys j))
            (λ j k. ground (arith, copy_to-at sib.size 0 (n.size + 1) sib.childs n.childs j))
            (λ j k l.
              ground (arith, copy_to-at sib.size 0 (n.size + 1) sib.childs n.childs j, last_of j)))
      where
        last_of : (j : ℕ) → j ≡ sib.size + 1 + n.size → j - (n.size + 1) ≡ sib.size
        last_of j k = omega arith

    pub right_merge_itn-Moves : Moves md g s (suc h) flo fhi n f i (right_merge_itn md n f i sib)
    unfolding right_merge_itn
    right_merge_itn-Moves =
        drop_right md c g s (suc h) flo fhi n f i ready i inside with_right refl (omega arith)
          with_right-IsInner sib refl at

  module _ (j : ℕ) (e : i ≡ j + 1) (at : sib.off_set ≡ f.childs j)
      (node : IsInner md g h (lower f.keys flo j) (f.keys j) (as_page sib)) where
    abbrev moved_keys : ℕ → ℕ
    moved_keys = move_to n.size 0 (sib.size + 1) n.keys

    abbrev moved_childs : ℕ → ℕ
    moved_childs = move_to n.size 0 (sib.size + 1) n.childs

    abbrev ended : ℕ → ℕ
    ended = update moved_childs (sib.size + 1 + n.size) (moved_childs n.size)

    abbrev keyed : ℕ → ℕ
    keyed = update moved_keys sib.size (f.keys (i - 1))

    abbrev with_left : Node
    with_left = record n {
      keys = copy_to sib.size 0 0 sib.keys keyed;
      childs = update (copy_to sib.size 0 0 sib.childs ended) sib.size (sib.childs sib.size);
      size = n.size + (sib.size + 1);
    }

    inside : j < f.size
    inside = omega (arith, e, ready.index)

    mine : IsWeak md g h (f.keys j) (upper f.keys f.size fhi (j + 1)) (as_page n)
    mine =
        let down : lower f.keys flo i ≡ f.keys j =
          ap (lower f.keys flo) e ∙ rw (lower_if f.keys flo (j + 1)) (ground arith) in
        let up : upper f.keys f.size fhi i ≡ upper f.keys f.size fhi (j + 1) =
          ap (upper f.keys f.size fhi) e in
        subst (λ z. IsWeak md g h z (upper f.keys f.size fhi (j + 1)) (as_page n)) down
          (subst (λ z. IsWeak md g h (lower f.keys flo i) z (as_page n)) up ready.node)

    moved :
        (to : ℕ → ℕ) (k : ℕ)
        → move_to n.size 0 (sib.size + 1) to k ≡ (
            if leb (sib.size + 1) k && ltb k (sib.size + 1 + n.size)
            then to (k - (sib.size + 1))
            else to k)
    moved to k = ground (arith, move_to-at n.size 0 (sib.size + 1) to k, small, big)

    last_child : moved_childs n.size ≡ n.childs n.size
    last_child = ground (arith, moved n.childs n.size, small, big)

    with_left-IsInner :
        IsInner md g h (lower f.keys flo j) (upper f.keys f.size fhi (j + 1)) (as_page with_left)
    with_left-IsInner = IsInner-of_weak md g (omega arith) (
        IsWeak-join md g (IsWeak-of_inner md g node) mine
          (low_mid md c g s (suc h) flo fhi n f i ready j inside)
          (mid_high md c g s (suc h) flo fhi n f i ready j inside) (ready.node.flag ∙ sym node.flag)
          (omega arith) (omega (arith, small, no_more))
          (λ k l. ground (arith, copy_to-at sib.size 0 0 sib.keys keyed k))
          (ground (arith, copy_to-at sib.size 0 0 sib.keys keyed sib.size, e))
          (λ k l r. ground (arith, copy_to-at sib.size 0 0 sib.keys keyed k, moved n.keys k))
          (λ k l. ground (arith, copy_to-at sib.size 0 0 sib.childs ended k))
          (λ k l r. ground (
            arith,
            copy_to-at sib.size 0 0 sib.childs ended k,
            moved n.childs k,
            last_child,
            last_of k,
          )))
      where
        last_of : (k : ℕ) → k ≡ sib.size + 1 + n.size → k - (sib.size + 1) ≡ n.size
        last_of k l = omega arith

    pub left_merge_itn-Moves : Moves md g s (suc h) flo fhi n f i (left_merge_itn md n f i sib)
    unfolding left_merge_itn
    left_merge_itn-Moves =
        let (n', f', g', s', run, r) =
          drop_left md c g s (suc h) flo fhi n f i ready j inside with_left refl (omega arith)
            with_left-IsInner sib e at in
        let index : i - 1 ≡ j = omega (arith, e) in
        (
          n',
          f',
          g',
          s',
          subst (λ z. drop_from_father md with_left f z sib s ≡ some ((n', f'), s')) (sym index)
              run,
          r,
        )
