-- ===== src/BPlus/Sound/Remove/Redistribute.antt =====
-- `redistributeFromLeaf` and `redistributeFromInternal` of pkg/storage/bplustree/BPlusTreeNode.cpp: which
-- of the moves between siblings they take.
use godbee.Base.{
  ℕ, suc, ◌+◌, ◌-◌, ◌≤◌, ◌<◌, ◌≡◌, refl, subst, ◌⊎◌, inl, inr, arith, Option, none, some, ltb, ◌==◌,
  Bool-cases,
}
use godbee.BPlus.Offsets.{MetaData, IsConfig}
use godbee.BPlus.Store.{Node, Store, M, ◌>>=◌}
use godbee.BPlus.Removal.{
  right_sibling, left_sibling, can_lend, choose_leaf, choose_itn, redistribute_from_leaf,
  redistribute_from_internal,
}
use godbee.BPlus.Sound.{Ghost, lower, upper, as_page, IsNode}
use godbee.BPlus.Sound.Weak.{lower_if}
use godbee.BPlus.Sound.Remove.Repair.{Ready, Moves}
use godbee.BPlus.Sound.Remove.Siblings.{Sibling, sibling}
use godbee.BPlus.Sound.Remove.LeafFromRight.{swap_counter_clock_wise_leaf-Moves}
use godbee.BPlus.Sound.Remove.LeafFromLeft.{swap_clock_wise_leaf-Moves}
use godbee.BPlus.Sound.Remove.LeafMerge.{left_merge_leaf-Moves, right_merge_leaf-Moves}
use godbee.BPlus.Sound.Remove.InnerFromRight.{swap_counter_clock_wise_itn-Moves}
use godbee.BPlus.Sound.Remove.InnerFromLeft.{swap_clock_wise_itn-Moves}
use godbee.BPlus.Sound.Remove.InnerMerge.{left_merge_itn-Moves, right_merge_itn-Moves}

module _ (md : MetaData) (c : IsConfig md) (g : Ghost) (s : Store) (h flo fhi : ℕ) (n f : Node)
    (i : ℕ) (ready : Ready md g s h flo fhi n f i) where
  right_cases :
      ((right_sibling md f i s ≡ some (none, s)) × (i ≡ f.size))
      ⊎ ((r : Sibling md g s h flo fhi f (i + 1)) × (right_sibling md f i s ≡ some (some r.node, s))
          × (i < f.size))
  unfolding right_sibling
  right_cases = elim (Bool-cases (i == f.size)) [
    | inl e ↦ inl (rw e refl, ground arith)
    | inr e ↦
        let lt : i < f.size = ground (arith, ready.index) in
        let r =
          sibling md g s h flo fhi n f i ready (i + 1) (omega (arith, lt)) (λ q. omega arith) in
        inr (r, rw (e, r.read) refl, lt)
  ]

  left_cases :
      ((left_sibling md f i s ≡ some (none, s)) × (i ≡ 0))
      ⊎ ((j : ℕ) × (i ≡ j + 1)
          × (l : Sibling md g s h flo fhi f j) × (left_sibling md f i s ≡ some (some l.node, s)))
  unfolding left_sibling
  left_cases = elim (Bool-cases (i == 0)) [
    | inl e ↦ inl (rw e refl, ground arith)
    | inr e ↦
        let l =
          sibling md g s h flo fhi n f i ready (i - 1) (omega (arith, ready.index))
            (λ q. ground arith) in
        inr (i - 1, ground arith, l, rw (e, l.read) refl)
  ]

  lends :
      (p : Node)
      → ((can_lend md (some p) ≡ some p) × (md.max_degree ≤ p.size))
        ⊎ ((can_lend md (some p) ≡ none) × (p.size < md.max_degree))
  unfolding can_lend
  lends p = elim (Bool-cases (ltb (md.max_degree - 1) p.size)) [
    | inl e ↦ inl (rw e refl, ground (arith, c.degree))
    | inr e ↦ inr (rw e refl, ground (arith, c.degree))
  ]

  -- The right sibling gives if it can, else the left one, else there is a merge with the left one, else
  -- with the right one; a node under a father has a sibling.
  module _ (choose : Option Node → Option Node → Option Node → Option Node → M (Node × Node))
      (from_right : (r : Sibling md g s h flo fhi f (i + 1)) (l l' r' : Option Node)
        → i < f.size
        → md.max_degree ≤ r.node.size
        → Moves md g s h flo fhi n f i (choose (some r.node) l l' r'))
      (from_left : (j : ℕ) (l : Sibling md g s h flo fhi f j) (l' r' : Option Node)
        → i ≡ j + 1
        → md.max_degree ≤ l.node.size
        → Moves md g s h flo fhi n f i (choose none (some l.node) l' r'))
      (with_left : (j : ℕ) (l : Sibling md g s h flo fhi f j) (r' : Option Node)
        → i ≡ j + 1
        → l.node.size < md.max_degree
        → Moves md g s h flo fhi n f i (choose none none (some l.node) r'))
      (with_right : (r : Sibling md g s h flo fhi f (i + 1))
        → i < f.size
        → r.node.size < md.max_degree
        → Moves md g s h flo fhi n f i (choose none none none (some r.node))) where
    abbrev both : M (Node × Node)
    both = do
      right ← right_sibling md f i
      left ← left_sibling md f i
      choose (can_lend md right) (can_lend md left) left right

    along :
        (right left lend_right lend_left : Option Node)
        → right_sibling md f i s ≡ some (right, s)
        → left_sibling md f i s ≡ some (left, s)
        → can_lend md right ≡ lend_right
        → can_lend md left ≡ lend_left
        → Moves md g s h flo fhi n f i (choose lend_right lend_left left right)
        → Moves md g s h flo fhi n f i both
    along right left lend_right lend_left x y z w (n', f', g', s', run, r) =
        (n', f', g', s', rw (x, y, z, w) run, r)

    lend_none : can_lend md none ≡ none
    unfolding can_lend
    lend_none = refl

    pub redistribute-Moves : Moves md g s h flo fhi n f i both
    redistribute-Moves = elim right_cases [
      | inl (x, last) ↦ elim left_cases [
        | inl (y, first) ↦ absurd (omega (arith, ready.father.nonempty))
        | inr (j, e, l, y) ↦ elim (lends l.node) [
          | inl (w, big) ↦
              along none (some l.node) none (some l.node) x y lend_none w (from_left j l _ _ e big)
          | inr (w, less) ↦
              along none (some l.node) none none x y lend_none w (with_left j l none e less)
        ]
      ]
      | inr (r, x, lt) ↦ elim (lends r.node) [
        | inl (z, big) ↦ elim left_cases [
          | inl (y, first) ↦
              along (some r.node) none (some r.node) none x y z lend_none
                (from_right r _ _ _ lt big)
          | inr (j, e, l, y) ↦
              along (some r.node) (some l.node) (some r.node) (can_lend md (some l.node)) x y z refl
                (from_right r _ _ _ lt big)
        ]
        | inr (z, few) ↦ elim left_cases [
          | inl (y, first) ↦
              along (some r.node) none none none x y z lend_none (with_right r lt few)
          | inr (j, e, l, y) ↦ elim (lends l.node) [
            | inl (w, big) ↦
                along (some r.node) (some l.node) none (some l.node) x y z w
                  (from_left j l _ _ e big)
            | inr (w, less) ↦
                along (some r.node) (some l.node) none none x y z w (with_left j l _ e less)
          ]
        ]
      ]
    ]

module _ (md : MetaData) (g : Ghost) (s : Store) (h flo fhi : ℕ) (f : Node) where
  -- The bounds of a sibling, as the moves name them.
  right_node :
      (i : ℕ) (r : Sibling md g s h flo fhi f (i + 1))
      → IsNode md g h (f.keys i) (upper f.keys f.size fhi (i + 1)) (as_page r.node)
  right_node i r =
      let low : lower f.keys flo (i + 1) ≡ f.keys i =
        rw (lower_if f.keys flo (i + 1)) (ground arith) in
      subst (λ z. IsNode md g h z (upper f.keys f.size fhi (i + 1)) (as_page r.node)) low r.is_node

  left_node :
      (j : ℕ) (l : Sibling md g s h flo fhi f j)
      → j < f.size
      → IsNode md g h (lower f.keys flo j) (f.keys j) (as_page l.node)
  left_node j l lt =
      let up : upper f.keys f.size fhi j ≡ f.keys j = ground arith in
      subst (λ z. IsNode md g h (lower f.keys flo j) z (as_page l.node)) up l.is_node

module _ (md : MetaData) (c : IsConfig md) (g : Ghost) (s : Store) (flo fhi : ℕ) (n f : Node)
    (i : ℕ) where
  -- A leaf with less than `maxDegree` entries gets more from a sibling, or takes the sibling's place.
  pub redistribute_from_leaf-Moves :
      Ready md g s 0 flo fhi n f i
      → n.size < md.max_degree
      → Moves md g s 0 flo fhi n f i (redistribute_from_leaf md n f i)
  unfolding redistribute_from_leaf choose_leaf
  redistribute_from_leaf-Moves ready small =
      redistribute-Moves md c g s 0 flo fhi n f i ready (choose_leaf md n f i)
        (λ r l l' r' lt big.
          swap_counter_clock_wise_leaf-Moves md c g s flo fhi n f i ready small r.node big lt
            r.off_set (right_node md g s 0 flo fhi f i r))
        (λ j l l' r' e big.
          swap_clock_wise_leaf-Moves md c g s flo fhi n f i ready small l.node big j e l.off_set
            (left_node md g s 0 flo fhi f j l (omega (arith, ready.index))))
        (λ j l r' e few.
          left_merge_leaf-Moves md c g s flo fhi n f i ready small l.node l.big few j e l.off_set
            (left_node md g s 0 flo fhi f j l (omega (arith, ready.index))))
        (λ r lt few.
          right_merge_leaf-Moves md c g s flo fhi n f i ready small r.node r.big few lt r.off_set
            (right_node md g s 0 flo fhi f i r))

module _ (md : MetaData) (c : IsConfig md) (g : Ghost) (s : Store) (h flo fhi : ℕ) (n f : Node)
    (i : ℕ) where
  -- The same for an inner node.
  pub redistribute_from_internal-Moves :
      Ready md g s (suc h) flo fhi n f i
      → n.size < md.max_degree
      → Moves md g s (suc h) flo fhi n f i (redistribute_from_internal md n f i)
  unfolding redistribute_from_internal choose_itn
  redistribute_from_internal-Moves ready small =
      redistribute-Moves md c g s (suc h) flo fhi n f i ready (choose_itn md n f i)
        (λ r l l' r' lt big.
          swap_counter_clock_wise_itn-Moves md c g s h flo fhi n f i ready small r.node big lt
            r.off_set (right_node md g s (suc h) flo fhi f i r))
        (λ j l l' r' e big.
          swap_clock_wise_itn-Moves md c g s h flo fhi n f i ready small l.node big j e l.off_set
            (left_node md g s (suc h) flo fhi f j l (omega (arith, ready.index))))
        (λ j l r' e few.
          left_merge_itn-Moves md c g s h flo fhi n f i ready small l.node l.big few j e l.off_set
            (left_node md g s (suc h) flo fhi f j l (omega (arith, ready.index))))
        (λ r lt few.
          right_merge_itn-Moves md c g s h flo fhi n f i ready small r.node r.big few lt r.off_set
            (right_node md g s (suc h) flo fhi f i r))
