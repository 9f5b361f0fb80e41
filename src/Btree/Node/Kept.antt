-- ===== src/Btree/Node/Kept.antt =====
-- `splitChild` of pkg/storage/btree/BTreeNode.cpp loses no key.
use godbee.Base.{
  ℕ, ◌+◌, ◌-◌, ◌*◌, ◌≤◌, ◌<◌, ◌≡◌, ◌≢◌, sym, ap, subst, ◌∙◌, false, inl, inr, Bool-cases, ◌==◌, ltb,
  arith,
}
use godbee.Btree.File.{Key, Node, node_page, Tree, is_leaf}
use godbee.Btree.Node.Split.{IsCut}
use godbee.Btree.Node.SearchTree.{Has, here, below}
use godbee.Btree.Node.Frame.{On, at_child, deeper, entry_has, Has-frame}

module _ (t : ℕ) (pos : 1 ≤ t) (s s' : Tree) (n : Node) (idx : ℕ) (child n' low up : Node)
    (full : child.n_entry + 1 ≡ 2 * t) (h : idx ≤ n.n_entry) (cut : IsCut t n idx child n' low up)
    (at : s.file (n.arr_child idx) ≡ node_page child)
    (low_at : s'.file (n'.arr_child idx) ≡ node_page low)
    (up_at : s'.file (n'.arr_child (idx + 1)) ≡ node_page up) (inner : is_leaf n.flag ≡ false)
    (keep : (p : ℕ) → On s child p → s'.file p ≡ s.file p)
    (keep_at : (i : ℕ) (c : Node)
      → i ≤ n.n_entry
      → i ≢ idx
      → s.file (n.arr_child i) ≡ node_page c
      → s'.file (n.arr_child i) ≡ node_page c)
    (keep_under : (i : ℕ) (c : Node) (p : ℕ)
      → i ≤ n.n_entry
      → i ≢ idx
      → s.file (n.arr_child i) ≡ node_page c
      → On s c p
      → s'.file p ≡ s.file p)
    (key : Key) where
  inner' : is_leaf n'.flag ≡ false
  inner' = ap is_leaf cut.flags.2 ∙ inner

  under_low : (p : ℕ) → Has s' key low p → Has s' key n' p
  under_low p has = below n' low idx p inner' (omega (arith, cut.sizes.2)) low_at has

  under_up : (p : ℕ) → Has s' key up p → Has s' key n' p
  under_up p has = below n' up (idx + 1) p inner' (omega (arith, cut.sizes.2)) up_at has

  child_entry :
      (j : ℕ) → j < child.n_entry → child.arr_entry j ≡ key → Has s' key n' (child.value_pos j)
  child_entry j q e = elim (Bool-cases (ltb j (t - 1))) [
    | inl x ↦
        let lt : j < t - 1 = ground arith in
        let (same, at_pos) = cut.lower_entry j lt in
        under_low (child.value_pos j) (
          entry_has s' key low j (child.value_pos j) (omega (arith, cut.sizes.0)) (same ∙ e) at_pos)
    | inr x ↦ elim (Bool-cases (j == t - 1)) [
      | inl y ↦
          let mid : t - 1 ≡ j = ground arith in
          entry_has s' key n' idx (child.value_pos j) (omega (arith, cut.sizes.2))
            (cut.middle.0 ∙ ap child.arr_entry mid ∙ e) (cut.middle.1 ∙ ap child.value_pos mid)
      | inr y ↦
          let far : t ≤ j = ground arith in
          let (same, at_pos) = cut.upper_entry (j - t) (omega arith) in
          let back : t + (j - t) ≡ j = omega arith in
          under_up (child.value_pos j) (
            entry_has s' key up (j - t) (child.value_pos j) (omega (arith, cut.sizes.1))
              (same ∙ ap child.arr_entry back ∙ e) (at_pos ∙ ap child.value_pos back))
    ]
  ]

  child_below :
      (c : Node) (j p : ℕ)
      → is_leaf child.flag ≡ false
      → j ≤ child.n_entry
      → s.file (child.arr_child j) ≡ node_page c
      → Has s key c p
      → Has s' key n' p
  child_below c j p deep q stands has =
      let kept = keep (child.arr_child j) (at_child child c j deep q stands) ∙ stands in
      let has' =
        Has-frame s key s' c p (λ x on. keep x (deeper child c j x deep q stands on)) has in
      elim (Bool-cases (ltb j t)) [
        | inl x ↦
            let lt : j < t = ground arith in
            under_low p (
              below low c j p (ap is_leaf cut.flags.0 ∙ deep) (omega (arith, cut.sizes.0))
                (ap s'.file (cut.lower_child deep j lt) ∙ kept) has')
        | inr x ↦
            let far : t ≤ j = ground arith in
            let back : t + (j - t) ≡ j = omega arith in
            under_up p (
              below up c (j - t) p (cut.flags.1 ∙ deep) (omega (arith, cut.sizes.1))
                (ap s'.file (cut.upper_child deep (j - t) (omega arith) ∙ ap child.arr_child back)
                  ∙ kept)
                has')
      ]

  from_child : (m : Node) (p : ℕ) → m ≡ child → Has s key m p → Has s' key n' p
  from_child _ _ same (here m j q e) =
      subst (λ x. Has s' key n' (x.value_pos j)) (sym same)
        (child_entry j (subst (λ x. j < x.n_entry) same q)
          (subst (λ x. x.arr_entry j ≡ key) same e))
  from_child _ _ same (below m c j p deep q stands has) =
      child_below c j p (subst (λ x. is_leaf x.flag ≡ false) same deep)
        (subst (λ x. j ≤ x.n_entry) same q)
        (subst (λ x. s.file (x.arr_child j) ≡ node_page c) same stands) has

  from_sibling :
      (c : Node) (i p : ℕ)
      → i ≤ n.n_entry
      → i ≢ idx
      → s.file (n.arr_child i) ≡ node_page c
      → Has s key c p
      → Has s' key n' p
  from_sibling c i p q d stands has =
      let kept = keep_at i c q d stands in
      let has' = Has-frame s key s' c p (λ x on. keep_under i c x q d stands on) has in
      elim (Bool-cases (ltb i idx)) [
        | inl x ↦
            let lt : i < idx = ground arith in
            below n' c i p inner' (omega (arith, cut.sizes.2))
              (ap s'.file (cut.child_before i (omega arith)) ∙ kept) has'
        | inr x ↦
            let le : idx ≤ i = ground arith in
            let lt : idx < i = elim (Bool-cases (ltb idx i)) [
              | inl y ↦ ground arith
              | inr y ↦ absurd (d (ground arith))
            ] in
            below n' c (i + 1) p inner' (omega (arith, cut.sizes.2))
              (ap s'.file (cut.child_behind i lt q) ∙ kept) has'
      ]

  parent_entry : (i : ℕ) → i < n.n_entry → n.arr_entry i ≡ key → Has s' key n' (n.value_pos i)
  parent_entry i q e = elim (Bool-cases (ltb i idx)) [
    | inl x ↦
        let (same, at_pos) = cut.before i (ground arith) in
        entry_has s' key n' i (n.value_pos i) (omega (arith, cut.sizes.2)) (same ∙ e) at_pos
    | inr x ↦
        let (same, at_pos) = cut.behind i (ground arith) q in
        entry_has s' key n' (i + 1) (n.value_pos i) (omega (arith, cut.sizes.2)) (same ∙ e) at_pos
  ]

  pub from_parent : (m : Node) (p : ℕ) → m ≡ n → Has s key m p → Has s' key n' p
  from_parent _ _ same (here m i q e) =
      subst (λ x. Has s' key n' (x.value_pos i)) (sym same)
        (parent_entry i (subst (λ x. i < x.n_entry) same q)
          (subst (λ x. x.arr_entry i ≡ key) same e))
  from_parent _ _ same (below m c i p deep q stands has) =
      let stands_n = subst (λ x. s.file (x.arr_child i) ≡ node_page c) same stands in
      let q_n = subst (λ x. i ≤ x.n_entry) same q in
      elim (Bool-cases (i == idx)) [
        | inl x ↦
            let e : i ≡ idx = ground arith in
            let same_child : c ≡ child =
              cc (sym (ap (λ y. s.file (n.arr_child y)) e) ∙ stands_n, at) in
            from_child c p same_child has
        | inr x ↦ from_sibling c i p q_n (λ e. ground arith) stands_n has
      ]
