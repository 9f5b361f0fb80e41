-- ===== src/BPlus/Sound/Remove/LeafFromLeft.antt =====
-- `swapClockWiseLeaf` of pkg/storage/bplustree/BPlusTreeNode.cpp on a
-- leaf with too few entries.
use godbee.Base.{ℕ, ◌+◌, ◌-◌, ◌≤◌, ◌<◌, ◌≡◌, refl, sym, ap, subst, ◌∙◌, arith, update}
use godbee.BPlus.Offsets.{MetaData, IsConfig, value_idx}
use godbee.BPlus.Store.{Node, NodePage, Store, to_node_page}
use godbee.BPlus.Removal.{open_up, swap_clock_wise_leaf}
use godbee.BPlus.Removal.Loops.{open_up-behind}
use godbee.BPlus.Sound.{Ghost, lower, upper, as_page, IsLeaf}
use godbee.BPlus.Sound.Pages.{IsLeaf-first, IsLeaf-rest}
use godbee.BPlus.Sound.Weak.{lower_if, IsLeaf-join}
use godbee.BPlus.Sound.Flush.{flushed, flush_to_file-eq}
use godbee.BPlus.Sound.Remove.Repair.{Ready, Moves, mid_high}
use godbee.BPlus.Sound.Remove.Rotate.{KeySet, rotate_left}

module _ (md : MetaData) (c : IsConfig md) (g : Ghost) (s : Store) (flo fhi : ℕ) (n f : Node)
    (i : ℕ) (ready : Ready md g s 0 flo fhi n f i) (small : n.size < md.max_degree) (sib : Node)
    (big : md.max_degree ≤ sib.size) where
  module _ (j : ℕ) (e : i ≡ j + 1) (at : sib.off_set ≡ f.childs j)
      (node : IsLeaf md g (lower f.keys flo j) (f.keys j) (as_page sib)) where
    abbrev longer : Node
    longer =
        let moved_childs = open_up n.size (update n.childs (n.size + 1) (n.childs n.size)) in
        record n {
          keys = update (open_up n.size n.keys) 0 (sib.keys (sib.size - 1));
          childs = update moved_childs 0 (sib.childs (sib.size - 1));
          size = n.size + 1;
        }

    abbrev shorter : Node
    shorter =
        let childs = update sib.childs (sib.size - 1) (sib.childs sib.size) in
        record sib { childs = update childs sib.size 0; size = sib.size - 1 }

    abbrev bound : Node
    bound = record f { keys = update f.keys (i - 1) (longer.keys 0) }

    abbrev m : ℕ
    m = sib.keys (sib.size - 1)

    inside : j < f.size
    inside = omega (arith, e, ready.index)

    two : 1 < sib.size
    two = omega (arith, c.degree)

    before : sib.keys (sib.size - 2) < m
    before = node.ascending (sib.size - 2) (sib.size - 1) (omega (arith, two)) (omega (arith, two))

    shorter-IsLeaf : IsLeaf md g (lower f.keys flo j) m (as_page shorter)
    shorter-IsLeaf =
        IsLeaf-first md g node (omega (arith, two)) (omega (arith, two))
          (ground (arith, before, before_last)) (omega arith) refl (λ k h. refl)
          (λ k h. ground (arith, two))
      where
        before_last : sib.size - 1 - 1 ≡ sib.size - 2
        before_last = omega arith

    abbrev last : NodePage
    last = record (as_page sib) { keys = λ _. m; childs = λ _. sib.childs (sib.size - 1); size = 1 }

    last-IsLeaf : IsLeaf md g m (f.keys j) last
    last-IsLeaf =
        IsLeaf-rest md g (sib.size - 1) node (omega (arith, two)) (omega (arith, two))
          (ground (arith, before, before_last)) (omega arith) refl (omega (arith, two))
          (λ k h. ap sib.keys (omega arith)) (λ k h. ap sib.childs (omega arith))
      where
        before_last : sib.size - 1 - 1 ≡ sib.size - 2
        before_last = omega arith

    mine : IsLeaf md g (f.keys j) (upper f.keys f.size fhi (j + 1)) (as_page n)
    mine =
        let down : lower f.keys flo i ≡ f.keys j =
          ap (lower f.keys flo) e ∙ rw (lower_if f.keys flo (j + 1)) (ground arith) in
        let up : upper f.keys f.size fhi i ≡ upper f.keys f.size fhi (j + 1) =
          ap (upper f.keys f.size fhi) e in
        subst (λ z. IsLeaf md g z (upper f.keys f.size fhi (j + 1)) (as_page n)) down
          (subst (λ z. IsLeaf md g (lower f.keys flo i) z (as_page n)) up ready.node)

    longer-IsLeaf : IsLeaf md g m (upper f.keys f.size fhi (j + 1)) (as_page longer)
    longer-IsLeaf =
        IsLeaf-join md g last-IsLeaf mine (ready.node.flag ∙ sym node.flag) (omega arith)
          (omega (arith, small, c.degree)) (λ k h. ground arith)
          (λ k h l. ground (arith, open_up-behind n.size n.keys k)) (λ k h. ground arith)
          (λ k h l.
            ground
              (arith, open_up-behind n.size (update n.childs (n.size + 1) (n.childs n.size)) k))
          (omega (arith, node.within (sib.size - 1), two))
          (omega (arith, mid_high md c g s 0 flo fhi n f i ready j inside))

    set : KeySet f j m bound
    set = record {
      off_set = refl;
      flag = refl;
      size = refl;
      key = ground (arith, e);
      keys = λ k d h. ground (arith, d, e);
      childs = λ k h. refl;
    }

    low_m : lower f.keys flo j < m
    low_m = omega (arith, before, two, node.within (sib.size - 2))

    pub swap_clock_wise_leaf-Moves :
        Moves md g s 0 flo fhi n f i (swap_clock_wise_leaf md n f i sib)
    unfolding swap_clock_wise_leaf
    swap_clock_wise_leaf-Moves =
        let mid : m < f.keys j = (node.within (sib.size - 1) (omega (arith, two))).1 in
        let (g', r) =
          rotate_left md c g s 0 flo fhi n f i ready j inside m low_m
            (omega (arith, mid, mid_high md c g s 0 flo fhi n f i ready j inside)) longer shorter
            bound refl set (omega (arith, big)) (omega arith) e at (omega (arith, mid))
            shorter-IsLeaf longer-IsLeaf in
        (
          longer,
          bound,
          g',
          flushed md s sib.off_set (to_node_page shorter),
          rw
              (flush_to_file-eq md shorter s
                (ap (value_idx md) at ∙ ready.father.aligned j (omega (arith, inside))))
              refl,
          r,
        )
