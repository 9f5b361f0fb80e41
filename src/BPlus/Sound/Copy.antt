-- ===== src/BPlus/Sound/Copy.antt =====
-- A node written to a page or read from one is the same node: only entries behind its size change.
use godbee.Base.{ℕ, zero, suc, ◌≤◌, ◌<◌, ◌≡◌, refl, arith, ◌∙◌}
use godbee.BPlus.Offsets.{MetaData}
use godbee.BPlus.Store.{NodePage, Node, to_node_page, node_of_page}
use godbee.BPlus.Sound.{Ghost, lower, upper, as_page, IsLeaf, IsInner, IsNode}

pub record SameNode (p q : NodePage) : Type 0 where
  pub flag : q.flag ≡ p.flag
  pub size : q.size ≡ p.size
  pub keys : (i : ℕ) → i < p.size → q.keys i ≡ p.keys i
  pub childs : (i : ℕ) → i ≤ p.size → q.childs i ≡ p.childs i

pub SameNode-to_node_page : (n : Node) → SameNode (as_page n) (to_node_page n)
unfolding to_node_page
SameNode-to_node_page n = record {
  flag = refl;
  size = refl;
  keys = λ i h. ground arith;
  childs = λ i h. ground arith;
}

pub SameNode-node_of_page :
    (p : NodePage) (offset : ℕ) → SameNode p (as_page (node_of_page p offset))
unfolding node_of_page
SameNode-node_of_page p offset = record {
  flag = refl;
  size = refl;
  keys = λ i h. ground arith;
  childs = λ i h. ground arith;
}

module _ (md : MetaData) (g : Ghost) {p q : NodePage} (same : SameNode p q) where
  leaf : (lo hi : ℕ) → IsLeaf md g lo hi p → IsLeaf md g lo hi q
  leaf lo hi l = record {
    flag = same.flag ∙ l.flag;
    room = omega (arith, same.size, l.room);
    ascending = λ i j h k. omega (
      arith,
      same.keys i (omega (arith, same.size)),
      same.keys j (omega (arith, same.size)),
      l.ascending i j h (omega (arith, same.size)),
    );
    within =
        λ i h. rw (same.keys i (omega (arith, same.size))) (l.within i (omega (arith, same.size)));
    located = λ i h.
        rw (same.keys i (omega (arith, same.size)), same.childs i (omega (arith, same.size)))
          (l.located i (omega (arith, same.size)));
    complete = λ k a b absent.
        l.complete k a b (λ i h e. absent i (omega (arith, same.size)) (same.keys i h ∙ e));
  }

  lower_same : (lo i : ℕ) → i ≤ p.size → lower q.keys lo i ≡ lower p.keys lo i
  lower_same lo zero h = refl
  lower_same lo (suc i) h = same.keys i h

  upper_same : (hi i : ℕ) → i ≤ p.size → upper q.keys q.size hi i ≡ upper p.keys p.size hi i
  upper_same hi i h = ground (arith, same.keys i, same.size)

  inner : (height lo hi : ℕ) → IsInner md g height lo hi p → IsInner md g height lo hi q
  inner height lo hi l = record {
    flag = same.flag ∙ l.flag;
    nonempty = omega (arith, same.size, l.nonempty);
    room = omega (arith, same.size, l.room);
    ascending = λ i j h k. omega (
      arith,
      same.keys i (omega (arith, same.size)),
      same.keys j (omega (arith, same.size)),
      l.ascending i j h (omega (arith, same.size)),
    );
    within =
        λ i h. rw (same.keys i (omega (arith, same.size))) (l.within i (omega (arith, same.size)));
    aligned = λ i h.
        rw (same.childs i (omega (arith, same.size))) (l.aligned i (omega (arith, same.size)));
    child = λ i h.
        let k : i ≤ p.size = omega (arith, same.size) in
        rw (same.childs i k, lower_same lo i k, upper_same hi i k) (l.child i k);
  }

  -- Two pages that agree up to their size are nodes of the same height and range.
  pub IsNode-same : (height lo hi : ℕ) → IsNode md g height lo hi p → IsNode md g height lo hi q
  IsNode-same zero lo hi l = leaf lo hi l
  IsNode-same (suc height) lo hi l = inner height lo hi l
