-- ===== src/BPlus/Sound/Remove/InnerFromRight.antt =====
-- `swapCounterClockWiseItn` of pkg/storage/bplustree/BPlusTreeNode.cpp on an
-- inner node with too few entries.
use godbee.Base.{ℕ, suc, ◌+◌, ◌-◌, ◌≤◌, ◌<◌, ◌≡◌, refl, ap, subst, ◌∙◌, arith, update}
use godbee.BPlus.Offsets.{MetaData, IsConfig, value_idx}
use godbee.BPlus.Store.{Node, NodePage, Store, to_node_page}
use godbee.BPlus.Removal.{close_up, swap_counter_clock_wise_itn}
use godbee.BPlus.Removal.Loops.{close_up-at}
use godbee.BPlus.Sound.{Ghost, lower, upper, as_page, IsInner}
use godbee.BPlus.Sound.Weak.{
  IsWeak, IsWeak-of_inner, IsInner-of_weak, IsWeak-first, IsWeak-rest, IsWeak-join,
}
use godbee.BPlus.Sound.Flush.{flushed, flush_to_file-eq}
use godbee.BPlus.Sound.Remove.Repair.{Ready, Moves, low_mid}
use godbee.BPlus.Sound.Remove.Rotate.{KeySet, rotate_right}

module _ (md : MetaData) (c : IsConfig md) (g : Ghost) (s : Store) (h flo fhi : ℕ) (n f : Node)
    (i : ℕ) (ready : Ready md g s (suc h) flo fhi n f i) (small : n.size < md.max_degree)
    (sib : Node) (big : md.max_degree ≤ sib.size) where
  module _ (inside : i < f.size) (at : sib.off_set ≡ f.childs (i + 1))
      (node : IsInner md g h (f.keys i) (upper f.keys f.size fhi (i + 1)) (as_page sib)) where
    abbrev longer : Node
    longer = record n {
      keys = update n.keys n.size (f.keys i);
      childs = update n.childs (n.size + 1) (sib.childs 0);
      size = n.size + 1;
    }

    abbrev shorter : Node
    shorter =
        let childs = close_up (sib.size - 1) 0 sib.childs in
        record sib {
          keys = close_up (sib.size - 1) 0 sib.keys;
          childs = update (update childs (sib.size - 1) (childs sib.size)) sib.size 0;
          size = sib.size - 1;
        }

    abbrev bound : Node
    bound = record f { keys = update f.keys i (sib.keys 0) }

    two : 1 < sib.size
    two = omega (arith, c.degree)

    weak : IsWeak md g h (f.keys i) (upper f.keys f.size fhi (i + 1)) (as_page sib)
    weak = IsWeak-of_inner md g node

    shorter-IsInner :
        IsInner md g h (sib.keys 0) (upper f.keys f.size fhi (i + 1)) (as_page shorter)
    shorter-IsInner = IsInner-of_weak md g (omega (arith, two)) (
        IsWeak-rest md g 1 weak (omega arith) refl (omega (arith, two))
          (λ j k. ground (arith, close_up-at (sib.size - 1) 0 sib.keys j, two))
          (λ j k. ground (
            arith,
            close_up-at (sib.size - 1) 0 sib.childs j,
            close_up-at (sib.size - 1) 0 sib.childs sib.size,
            two,
          )))

    abbrev first : NodePage
    first = record (as_page sib) { size = 0 }

    first-IsWeak : IsWeak md g h (f.keys i) (sib.keys 0) first
    first-IsWeak = IsWeak-first md g weak (omega (arith, two)) refl (λ j k. refl) (λ j k. refl)

    mine : IsWeak md g h (lower f.keys flo i) (f.keys i) (as_page n)
    mine =
        let up : upper f.keys f.size fhi i ≡ f.keys i = ground arith in
        subst (λ z. IsWeak md g h (lower f.keys flo i) z (as_page n)) up ready.node

    longer-IsInner : IsInner md g h (lower f.keys flo i) (sib.keys 0) (as_page longer)
    longer-IsInner = IsInner-of_weak md g (omega arith) (
        IsWeak-join md g mine first-IsWeak (low_mid md c g s (suc h) flo fhi n f i ready i inside)
          (node.within 0 (omega (arith, two))).0 refl (omega arith) (omega (arith, small, c.degree))
          (λ j k. ground arith) (ground arith) (λ j k l. absurd (omega arith)) (λ j k. ground arith)
          (λ j k l. ground (arith, zero_of j k l)))
      where
        zero_of : (j : ℕ) → n.size < j → j ≤ n.size + 1 → (j ≡ n.size + 1) × (j - (n.size + 1) ≡ 0)
        zero_of j k l = (omega arith, omega arith)

    set : KeySet f i (sib.keys 0) bound
    set = record {
      off_set = refl;
      flag = refl;
      size = refl;
      key = ground arith;
      keys = λ j d k. ground (arith, d);
      childs = λ j k. refl;
    }

    pub swap_counter_clock_wise_itn-Moves :
        Moves md g s (suc h) flo fhi n f i (swap_counter_clock_wise_itn md n f i sib)
    unfolding swap_counter_clock_wise_itn
    swap_counter_clock_wise_itn-Moves =
        let inner = node.within 0 (omega (arith, two)) in
        let (g', r) =
          rotate_right md c g s (suc h) flo fhi n f i ready i inside (sib.keys 0)
            (omega (arith, low_mid md c g s (suc h) flo fhi n f i ready i inside, inner)) inner.1
            longer shorter bound refl set (omega (arith, big)) (omega arith) refl at
            (omega (arith, inner)) longer-IsInner shorter-IsInner in
        (
          longer,
          bound,
          g',
          flushed md s sib.off_set (to_node_page shorter),
          rw
              (flush_to_file-eq md shorter s
                (ap (value_idx md) at ∙ ready.father.aligned (i + 1) (omega arith)))
              refl,
          r,
        )
