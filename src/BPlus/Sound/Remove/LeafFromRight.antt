-- ===== src/BPlus/Sound/Remove/LeafFromRight.antt =====
-- `swapCounterClockWiseLeaf` of pkg/storage/bplustree/BPlusTreeNode.cpp on a
-- leaf with too few entries.
use godbee.Base.{ℕ, ◌+◌, ◌-◌, ◌≤◌, ◌<◌, ◌≡◌, refl, ap, subst, ◌∙◌, arith, update}
use godbee.BPlus.Offsets.{MetaData, IsConfig, value_idx}
use godbee.BPlus.Store.{Node, NodePage, Store, to_node_page}
use godbee.BPlus.Removal.{close_up, swap_counter_clock_wise_leaf}
use godbee.BPlus.Removal.Loops.{close_up-at}
use godbee.BPlus.Sound.{Ghost, lower, upper, as_page, IsLeaf}
use godbee.BPlus.Sound.Pages.{IsLeaf-first, IsLeaf-rest}
use godbee.BPlus.Sound.Weak.{IsLeaf-join}
use godbee.BPlus.Sound.Flush.{flushed, flush_to_file-eq}
use godbee.BPlus.Sound.Remove.Repair.{Ready, Moves, low_mid}
use godbee.BPlus.Sound.Remove.Rotate.{KeySet, rotate_right}

module _ (md : MetaData) (c : IsConfig md) (g : Ghost) (s : Store) (flo fhi : ℕ) (n f : Node)
    (i : ℕ) (ready : Ready md g s 0 flo fhi n f i) (small : n.size < md.max_degree) (sib : Node)
    (big : md.max_degree ≤ sib.size) where
  module _ (inside : i < f.size) (at : sib.off_set ≡ f.childs (i + 1))
      (node : IsLeaf md g (f.keys i) (upper f.keys f.size fhi (i + 1)) (as_page sib)) where
    abbrev longer : Node
    longer = record n {
      keys = update n.keys n.size (sib.keys 0);
      childs = update (update n.childs (n.size + 1) sib.off_set) n.size (sib.childs 0);
      size = n.size + 1;
    }

    abbrev shorter : Node
    shorter =
        let childs = close_up (sib.size - 1) 0 sib.childs in
        record sib {
          keys = close_up (sib.size - 1) 0 sib.keys;
          childs = update (update childs (sib.size - 1) (childs sib.size)) sib.size 0;
          size = sib.size - 1;
        }

    abbrev bound : Node
    bound = record f { keys = update f.keys i (close_up (sib.size - 1) 0 sib.keys 0) }

    two : 1 < sib.size
    two = omega (arith, c.degree)

    second : sib.keys 0 < sib.keys 1
    second = node.ascending 0 1 (omega arith) two

    shorter-IsLeaf : IsLeaf md g (sib.keys 1) (upper f.keys f.size fhi (i + 1)) (as_page shorter)
    shorter-IsLeaf =
        IsLeaf-rest md g 1 node (omega arith) two second (omega arith) refl (omega (arith, two))
          (λ j h. ground (arith, close_up-at (sib.size - 1) 0 sib.keys j, two))
          (λ j h. ground (arith, close_up-at (sib.size - 1) 0 sib.childs j, two))

    abbrev first : NodePage
    first = record (as_page sib) { size = 1 }

    first-IsLeaf : IsLeaf md g (f.keys i) (sib.keys 1) first
    first-IsLeaf =
        IsLeaf-first md g node (omega arith) two second (omega arith) refl (λ j h. refl)
          (λ j h. refl)

    up : upper f.keys f.size fhi i ≡ f.keys i
    up = ground arith

    mine : IsLeaf md g (lower f.keys flo i) (f.keys i) (as_page n)
    mine = subst (λ z. IsLeaf md g (lower f.keys flo i) z (as_page n)) up ready.node

    longer-IsLeaf : IsLeaf md g (lower f.keys flo i) (sib.keys 1) (as_page longer)
    longer-IsLeaf =
        IsLeaf-join md g mine first-IsLeaf refl refl (omega (arith, small, c.degree))
          (λ j h. ground arith) (λ j h k. ground (arith, zero_of j h k)) (λ j h. ground arith)
          (λ j h k. ground (arith, zero_of j h k))
          (omega (arith, low_mid md c g s 0 flo fhi n f i ready i inside))
          (omega (arith, second, node.within 0))
      where
        zero_of : (j : ℕ) → n.size ≤ j → j < n.size + 1 → j - n.size ≡ 0
        zero_of j h k = omega arith

    set : KeySet f i (sib.keys 1) bound
    set = record {
      off_set = refl;
      flag = refl;
      size = refl;
      key = ground (arith, close_up-at (sib.size - 1) 0 sib.keys 0, two);
      keys = λ j d h. ground (arith, d);
      childs = λ j h. refl;
    }

    pub swap_counter_clock_wise_leaf-Moves :
        Moves md g s 0 flo fhi n f i (swap_counter_clock_wise_leaf md n f i sib)
    unfolding swap_counter_clock_wise_leaf
    swap_counter_clock_wise_leaf-Moves =
        let inner = node.within 1 two in
        let (g', r) =
          rotate_right md c g s 0 flo fhi n f i ready i inside (sib.keys 1)
            (omega (arith, low_mid md c g s 0 flo fhi n f i ready i inside, node.within 0, second))
            inner.1 longer shorter bound refl set (omega (arith, big)) (omega arith) refl at
            (omega (arith, node.within 0, second)) longer-IsLeaf shorter-IsLeaf in
        (
          longer,
          bound,
          g',
          flushed md s sib.off_set (to_node_page shorter),
          rw
              (flush_to_file-eq md shorter s
                (ap (value_idx md) at ∙ ready.father.aligned (i + 1) (omega arith)))
              refl,
          r,
        )
