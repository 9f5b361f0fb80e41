-- ===== src/BPlus/Sound/Remove/InnerFromLeft.antt =====
-- `swapClockWiseItn` of pkg/storage/bplustree/BPlusTreeNode.cpp on an
-- inner node with too few entries.
use godbee.Base.{ℕ, suc, ◌+◌, ◌-◌, ◌≤◌, ◌<◌, ◌≡◌, refl, sym, ap, subst, ◌∙◌, arith, update}
use godbee.BPlus.Offsets.{MetaData, IsConfig, value_idx}
use godbee.BPlus.Store.{Node, NodePage, Store, to_node_page}
use godbee.BPlus.Removal.{open_up, swap_clock_wise_itn}
use godbee.BPlus.Removal.Loops.{open_up-behind}
use godbee.BPlus.Sound.{Ghost, lower, upper, as_page, IsInner}
use godbee.BPlus.Sound.Weak.{
  IsWeak, IsWeak-of_inner, IsInner-of_weak, lower_if, IsWeak-first, IsWeak-rest, IsWeak-join,
}
use godbee.BPlus.Sound.Flush.{flushed, flush_to_file-eq}
use godbee.BPlus.Sound.Remove.Repair.{Ready, Moves, mid_high}
use godbee.BPlus.Sound.Remove.Rotate.{KeySet, rotate_left}

module _ (md : MetaData) (c : IsConfig md) (g : Ghost) (s : Store) (h flo fhi : ℕ) (n f : Node)
    (i : ℕ) (ready : Ready md g s (suc h) flo fhi n f i) (small : n.size < md.max_degree)
    (sib : Node) (big : md.max_degree ≤ sib.size) where
  module _ (j : ℕ) (e : i ≡ j + 1) (at : sib.off_set ≡ f.childs j)
      (node : IsInner md g h (lower f.keys flo j) (f.keys j) (as_page sib)) where
    abbrev longer : Node
    longer =
        let moved_childs = open_up n.size (update n.childs (n.size + 1) (n.childs n.size)) in
        record n {
          keys = update (open_up n.size n.keys) 0 (f.keys (i - 1));
          childs = update moved_childs 0 (sib.childs sib.size);
          size = n.size + 1;
        }

    abbrev shorter : Node
    shorter = record sib { childs = update sib.childs sib.size 0; size = sib.size - 1 }

    abbrev bound : Node
    bound = record f { keys = update f.keys (i - 1) (sib.keys (sib.size - 1)) }

    abbrev m : ℕ
    m = sib.keys (sib.size - 1)

    inside : j < f.size
    inside = omega (arith, e, ready.index)

    two : 1 < sib.size
    two = omega (arith, c.degree)

    inner : (lower f.keys flo j < m) × (m < f.keys j)
    inner = node.within (sib.size - 1) (omega (arith, two))

    weak : IsWeak md g h (lower f.keys flo j) (f.keys j) (as_page sib)
    weak = IsWeak-of_inner md g node

    shorter-IsInner : IsInner md g h (lower f.keys flo j) m (as_page shorter)
    shorter-IsInner = IsInner-of_weak md g (omega (arith, two)) (
        IsWeak-first md g weak (omega (arith, two)) refl (λ k l. refl) (λ k l. ground (arith, two)))

    abbrev last : NodePage
    last = record (as_page sib) { childs = λ _. sib.childs sib.size; size = 0 }

    last-IsWeak : IsWeak md g h m (f.keys j) last
    last-IsWeak =
        IsWeak-rest md g sib.size weak (omega (arith, two)) refl (omega arith)
          (λ k l. absurd (omega arith)) (λ k l. ap sib.childs (omega arith))

    mine : IsWeak md g h (f.keys j) (upper f.keys f.size fhi (j + 1)) (as_page n)
    mine =
        let down : lower f.keys flo i ≡ f.keys j =
          ap (lower f.keys flo) e ∙ rw (lower_if f.keys flo (j + 1)) (ground arith) in
        let up : upper f.keys f.size fhi i ≡ upper f.keys f.size fhi (j + 1) =
          ap (upper f.keys f.size fhi) e in
        subst (λ z. IsWeak md g h z (upper f.keys f.size fhi (j + 1)) (as_page n)) down
          (subst (λ z. IsWeak md g h (lower f.keys flo i) z (as_page n)) up ready.node)

    longer-IsInner : IsInner md g h m (upper f.keys f.size fhi (j + 1)) (as_page longer)
    longer-IsInner = IsInner-of_weak md g (omega arith) (
        IsWeak-join md g last-IsWeak mine inner.1
          (mid_high md c g s (suc h) flo fhi n f i ready j inside) (ready.node.flag ∙ sym node.flag)
          (omega arith) (omega (arith, small, c.degree)) (λ k l. absurd (omega arith))
          (ground (arith, e)) (λ k l r. ground (arith, open_up-behind n.size n.keys k))
          (λ k l. ground arith)
          (λ k l r.
            ground
              (arith, open_up-behind n.size (update n.childs (n.size + 1) (n.childs n.size)) k)))

    set : KeySet f j m bound
    set = record {
      off_set = refl;
      flag = refl;
      size = refl;
      key = ground (arith, e);
      keys = λ k d l. ground (arith, d, e);
      childs = λ k l. refl;
    }

    pub swap_clock_wise_itn-Moves :
        Moves md g s (suc h) flo fhi n f i (swap_clock_wise_itn md n f i sib)
    unfolding swap_clock_wise_itn
    swap_clock_wise_itn-Moves =
        let (g', r) =
          rotate_left md c g s (suc h) flo fhi n f i ready j inside m inner.0
            (omega (arith, inner, mid_high md c g s (suc h) flo fhi n f i ready j inside)) longer
            shorter bound refl set (omega (arith, big)) (omega arith) e at (omega (arith, inner))
            shorter-IsInner longer-IsInner in
        (
          longer,
          bound,
          g',
          flushed md s sib.off_set (to_node_page shorter),
          rw
              (flush_to_file-eq md shorter s
                (ap (value_idx md) at ∙ ready.father.aligned j (omega (arith, inside))))
              refl,
          r,
        )
