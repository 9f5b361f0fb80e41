-- ===== src/Btree/Node/Invariant.antt =====
-- `splitChild` of pkg/storage/btree/BTreeNode.cpp keeps a search tree.
use godbee.Base.{
  ℕ, zero, suc, ◌+◌, ◌-◌, ◌*◌, ◌≤◌, ◌<◌, ◌≡◌, ◌≢◌, refl, sym, ap, subst, ◌∙◌, false, inl, inr,
  Bool-cases, ◌==◌, ltb, some, arith,
}
use godbee.Btree.File.{Node, node_page, Config, Tree, is_leaf}
use godbee.Btree.Node.{split_child}
use godbee.Btree.Node.Split.{Apart, IsNotNext, IsSplit, IsCut, split_child-IsSplit}
use godbee.Btree.Node.SearchTree.{low_of, high_of, IsOrdered, IsOrdered-of, IsSearchTree, Has}
use godbee.Btree.Node.Kept.{from_parent}
use godbee.Btree.Node.Frame.{On, at_child, deeper, IsSearchTree-frame}
use godbee.Btree.Node.Bounds.{
  parent-IsOrdered, low_bound, middle_bound, middle_low_bound, high_bound, low-IsOrdered,
  up-IsOrdered, low_same, high_same, low_later, high_later, low_low, low_high, up_low, up_high,
}

-- A subtree at a page.
abbrev Stands : Tree → ℕ → ℕ → ℕ → ℕ → Type 0
Stands s h lo hi p = (child : Node) × (s.file p ≡ node_page child) × IsSearchTree s h lo hi child

-- The pages under `n` are apart: from its own, from the next free one, and from the child's at `idx`,
-- which no other child has under it.
pub record IsApart (s : Tree) (n : Node) (idx : ℕ) (child : Node) : Type 0 where
  pub self : (p : ℕ) → On s n p → p ≢ n.pos
  pub fresh : (p : ℕ) → On s n p → (p < s.pages) × IsNotNext s.deleted_nodes_pos p
  pub under : (p : ℕ) → On s child p → p ≢ child.pos
  pub siblings : (i : ℕ) → i ≤ n.n_entry → i ≢ idx → n.arr_child i ≢ child.pos
  pub under_siblings :
      (i : ℕ) (c : Node) (p : ℕ)
      → i ≤ n.n_entry
      → i ≢ idx
      → s.file (n.arr_child i) ≡ node_page c
      → On s c p
      → p ≢ child.pos

module _ (s s' : Tree) where
  carry :
      (h lo hi lo' hi' a a' : ℕ) (stands : Stands s h lo hi a)
      → a' ≡ a
      → lo' ≡ lo
      → hi' ≡ hi
      → s'.file a ≡ s.file a
      → ((p : ℕ) → On s stands.0 p → s'.file p ≡ s.file p)
      → Stands s' h lo' hi' a'
  carry h lo hi lo' hi' a a' (c, at, tree) ea el eh keep_a keep =
      rw (ea, el, eh) (c, keep_a ∙ at, IsSearchTree-frame s s' h lo hi c keep tree)

module _ (t : ℕ) (pos : 1 ≤ t) (s s' : Tree) (n : Node) (idx : ℕ) (child n' low up : Node)
    (full : child.n_entry + 1 ≡ 2 * t) (h : idx ≤ n.n_entry) (cut : IsCut t n idx child n' low up)
    (pages : IsSplit s n idx child n' low up s') (apart : IsApart s n idx child)
    (at : s.file (n.arr_child idx) ≡ node_page child) (place : n.arr_child idx ≡ child.pos)
    (inner : is_leaf n.flag ≡ false) where
  kept : (p : ℕ) → On s n p → p ≢ child.pos → s'.file p ≡ s.file p
  kept p on d =
      pages.others p (apart.self p on) d
        (pages.upper_fresh p (apart.fresh p on).0 (apart.fresh p on).1)

  On-child : (p : ℕ) → On s child p → On s n p
  On-child p on = deeper n child idx p inner h at on

  kept_under : (p : ℕ) → On s child p → s'.file p ≡ s.file p
  kept_under p on = kept p (On-child p on) (apart.under p on)

  keys_kept : (key p : ℕ) → Has s key n p → Has s' key n' p
  keys_kept key p =
      from_parent t pos s s' n idx child n' low up full h cut at
        (ap s'.file (cut.child_before idx (omega arith) ∙ place) ∙ pages.lower_page)
        (ap s'.file cut.child_new ∙ pages.upper_page) inner kept_under
        (λ i c q d e. kept (n.arr_child i) (at_child n c i inner q e) (apart.siblings i q d) ∙ e)
        (λ i c x q d e on.
          kept x (deeper n c i x inner q e on) (apart.under_siblings i c x q d e on))
        key n p refl

  module _ (lo hi : ℕ) (o : IsOrdered lo hi n)
      (oc : IsOrdered (low_of lo n idx) (high_of hi n idx) child) where
    low_tree :
        (k : ℕ)
        → IsSearchTree s k (low_of lo n idx) (high_of hi n idx) child
        → IsSearchTree s' k (low_of lo n' idx) (high_of hi n' idx) low
    unfolding IsSearchTree
    low_tree zero tree = (
      ap is_leaf cut.flags.0 ∙ tree.0,
      low-IsOrdered t pos n idx child n' low up full h cut lo hi o oc,
    )
    low_tree (suc k) tree = (
      ap is_leaf cut.flags.0 ∙ tree.0,
      low-IsOrdered t pos n idx child n' low up full h cut lo hi o oc,
      λ i q.
          let under = tree.2 i (omega (arith, cut.sizes.0)) in
          let inside : i < t = omega (arith, cut.sizes.0) in
          carry s s' k (low_of (low_of lo n idx) child i) (high_of (high_of hi n idx) child i)
            (low_of (low_of lo n' idx) low i) (high_of (high_of hi n' idx) low i)
            (child.arr_child i) (low.arr_child i) under (cut.lower_child tree.0 i inside)
            (ap (λ x. low_of x low i) (low_bound t pos n idx child n' low up full h cut lo hi o oc)
              ∙ low_low t pos n idx child n' low up full h cut (low_of lo n idx) hi i inside)
            (ap (λ x. high_of x low i)
                (middle_bound t pos n idx child n' low up full h cut lo hi o oc)
              ∙ low_high t pos n idx child n' low up full h cut lo (high_of hi n idx) i inside)
            (kept_under (child.arr_child i)
              (at_child child under.0 i tree.0 (omega (arith, cut.sizes.0)) under.1))
            (λ p on.
              kept_under p
                (deeper child under.0 i p tree.0 (omega (arith, cut.sizes.0)) under.1 on)),
    )

    up_tree :
        (k : ℕ)
        → IsSearchTree s k (low_of lo n idx) (high_of hi n idx) child
        → IsSearchTree s' k (low_of lo n' (idx + 1)) (high_of hi n' (idx + 1)) up
    unfolding IsSearchTree
    up_tree zero tree =
        (cut.flags.1 ∙ tree.0, up-IsOrdered t pos n idx child n' low up full h cut lo hi o oc)
    up_tree (suc k) tree = (
      cut.flags.1 ∙ tree.0,
      up-IsOrdered t pos n idx child n' low up full h cut lo hi o oc,
      λ i q.
          let under = tree.2 (t + i) (omega (arith, cut.sizes.1)) in
          let inside : i < t = omega (arith, cut.sizes.1) in
          carry s s' k (low_of (low_of lo n idx) child (t + i))
            (high_of (high_of hi n idx) child (t + i)) (low_of (low_of lo n' (idx + 1)) up i)
            (high_of (high_of hi n' (idx + 1)) up i) (child.arr_child (t + i)) (up.arr_child i)
            under (cut.upper_child tree.0 i inside)
            (ap (λ x. low_of x up i)
                (middle_low_bound t pos n idx child n' low up full h cut lo hi o oc)
              ∙ up_low t pos n idx child n' low up full h cut (low_of lo n idx) hi i inside)
            (ap (λ x. high_of x up i) (high_bound t pos n idx child n' low up full h cut lo hi o oc)
              ∙ up_high t pos n idx child n' low up full h cut lo (high_of hi n idx) i inside)
            (kept_under (child.arr_child (t + i))
              (at_child child under.0 (t + i) tree.0 (omega (arith, cut.sizes.1)) under.1))
            (λ p on.
              kept_under p
                (deeper child under.0 (t + i) p tree.0 (omega (arith, cut.sizes.1)) under.1 on)),
    )

    module _ (k : ℕ) (tree : IsSearchTree s k (low_of lo n idx) (high_of hi n idx) child)
        (trees : (i : ℕ)
          → i ≤ n.n_entry
          → Stands s k (low_of lo n i) (high_of hi n i) (n.arr_child i)) where
      -- A child at another index than that of the split one.
      sibling :
          (i j : ℕ)
          → i ≤ n.n_entry
          → i ≢ idx
          → n'.arr_child j ≡ n.arr_child i
          → low_of lo n' j ≡ low_of lo n i
          → high_of hi n' j ≡ high_of hi n i
          → Stands s' k (low_of lo n' j) (high_of hi n' j) (n'.arr_child j)
      sibling i j q d ea el eh =
          let under = trees i q in
          carry s s' k (low_of lo n i) (high_of hi n i) (low_of lo n' j) (high_of hi n' j)
            (n.arr_child i) (n'.arr_child j) under ea el eh
            (kept (n.arr_child i) (at_child n under.0 i inner q under.1) (apart.siblings i q d))
            (λ p on.
              kept p (deeper n under.0 i p inner q under.1 on)
                (apart.under_siblings i under.0 p q d under.1 on))

      at_low : (j : ℕ) → j ≡ idx → Stands s' k (low_of lo n' j) (high_of hi n' j) (n'.arr_child j)
      at_low j e = rw e (
        low,
        ap s'.file (cut.child_before idx (omega arith) ∙ place) ∙ pages.lower_page,
        low_tree k tree,
      )

      at_up :
          (j : ℕ) → j ≡ idx + 1 → Stands s' k (low_of lo n' j) (high_of hi n' j) (n'.arr_child j)
      at_up j e = rw e (up, ap s'.file cut.child_new ∙ pages.upper_page, up_tree k tree)

      children :
          (j : ℕ) → j ≤ n'.n_entry → Stands s' k (low_of lo n' j) (high_of hi n' j) (n'.arr_child j)
      children j q = elim (Bool-cases (ltb j idx)) [
        | inl e ↦
            let lt : j < idx = ground arith in
            sibling j j (omega arith) (λ x. omega (arith, x, lt)) (cut.child_before j (omega arith))
              (low_same t pos n idx child n' low up full h cut lo hi o oc j (omega arith))
              (high_same t pos n idx child n' low up full h cut lo hi o oc j lt)
        | inr e ↦ elim (Bool-cases (j == idx)) [
          | inl f ↦ at_low j (ground arith)
          | inr f ↦ elim (Bool-cases (j == idx + 1)) [
            | inl g ↦ at_up j (ground arith)
            | inr g ↦
                let far : idx < j - 1 = ground arith in
                let next : j - 1 + 1 ≡ j = omega arith in
                let last : j - 1 ≤ n.n_entry = omega (arith, cut.sizes.2) in
                subst (λ x. Stands s' k (low_of lo n' x) (high_of hi n' x) (n'.arr_child x)) next
                  (sibling (j - 1) (j - 1 + 1) last (λ x. omega (arith, x, far))
                    (cut.child_behind (j - 1) far last)
                    (low_later t pos n idx child n' low up full h cut lo hi o oc (j - 1) far last)
                    (high_later t pos n idx child n' low up full h cut lo hi o oc (j - 1) far last))
          ]
        ]
      ]

-- Splitting a full child of an inner node that is not full itself keeps a search tree: on pages that are apart, the split succeeds,
-- the parent is a search tree of the same height within the same bounds, and every key that stood in the
-- tree still does, with the position of its value.
pub split_child-IsSearchTree :
    (c : Config) (s : Tree) (k lo hi : ℕ) (n : Node) (idx : ℕ) (child : Node)
    → 1 ≤ c.t
    → child.n_entry + 1 ≡ 2 * c.t
    → n.n_entry < 2 * c.t - 1
    → idx ≤ n.n_entry
    → s.file (n.arr_child idx) ≡ node_page child
    → n.arr_child idx ≡ child.pos
    → Apart s.deleted_nodes_pos n child
    → IsApart s n idx child
    → IsSearchTree s (suc k) lo hi n
    → (n' : Node) × (s' : Tree) × (split_child c n idx child s ≡ some (n', s'))
      × (n'.n_entry ≡ n.n_entry + 1)
      × IsSearchTree s' (suc k) lo hi n'
      × ((key p : ℕ) → Has s key n p → Has s' key n' p)
unfolding IsSearchTree
split_child-IsSearchTree c s k lo hi n idx child pos full room h at place free apart tree =
    let on = at_child n child idx tree.0 h at in
    let self = apart.self (n.arr_child idx) on in
    let inside = subst (λ p. p < s.pages) place (apart.fresh (n.arr_child idx) on).0 in
    let (n', low, up, s', run, pages, cut) =
      split_child-IsSplit c n idx child s pos room h (λ e. self (place ∙ sym e)) inside free in
    let (child', at', under') = tree.2 idx h in
    let same : child' ≡ child = cc (at, at') in
    let under = subst (IsSearchTree s k (low_of lo n idx) (high_of hi n idx)) same under' in
    let oc = IsOrdered-of s 0 k (low_of lo n idx) (high_of hi n idx) child under in
    (
      n',
      s',
      run,
      cut.sizes.2,
      (
        ap is_leaf cut.flags.2 ∙ tree.0,
        parent-IsOrdered c.t pos n idx child n' low up full h cut lo hi tree.1 oc,
        children c.t pos s s' n idx child n' low up full h cut pages apart at place tree.0 lo hi
            tree.1 oc k under tree.2,
      ),
      keys_kept c.t pos s s' n idx child n' low up full h cut pages apart at place tree.0,
    )
