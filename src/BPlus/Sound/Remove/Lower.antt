-- ===== src/BPlus/Sound/Remove/Lower.antt =====
-- The roles when the page of an inner root without entries has been given up,
-- pkg/storage/bplustree/BPlusTreeNode.cpp.
use godbee.Base.{
  ℕ, zero, suc, ◌<◌, ◌≡◌, ◌≢◌, sym, ap, ◌∙◌, inl, inr, arith, length, ◌==◌, if◌then◌else◌,
  Bool-cases,
}
use godbee.BPlus.FreeList
use godbee.BPlus.Offsets.{MetaData, node_id, value_idx}
use godbee.BPlus.Store.{NodePage, Store}
use godbee.BPlus.Sound.{Ghost, Role, unused, values, free_node, tree, IsNode, IsAllocated}
use godbee.BPlus.Sound.Roles.{FreeNodes-of_roles, FreeValues-of_roles}
use godbee.BPlus.Sound.Insert.Inner.{IsInner-elsewhere}

-- The role of a page when no node is as high as `top` any more.
abbrev lowered : ℕ → Role → Role
lowered top unused = unused
lowered top values = values
lowered top (free_node i) = free_node i
lowered top (tree k x y) = if k == top then unused else tree k x y

lowered_tree :
    (top : ℕ) (r : Role) (k x y : ℕ) → lowered top r ≡ tree k x y → (r ≡ tree k x y) × (k ≢ top)
lowered_tree top unused k x y e = absurd (ground (arith, e))
lowered_tree top values k x y e = absurd (ground (arith, e))
lowered_tree top (free_node i) k x y e = absurd (ground (arith, e))
lowered_tree top (tree k' x' y') k x y e = elim (Bool-cases (k' == top)) [
  | inl z ↦ absurd (ground (arith, e))
  | inr z ↦ (ground (arith, e), ground (arith, e))
]

lowered_values : (top : ℕ) (r : Role) → lowered top r ≡ values → r ≡ values
lowered_values top unused e = e
lowered_values top values e = e
lowered_values top (free_node i) e = e
lowered_values top (tree k x y) e = absurd (ground (arith, e))

-- The page of the highest node is free from now on.
abbrev pub lower_ghost : Ghost → ℕ → ℕ → ℕ → Ghost
lower_ghost g top p count = record g {
  role = λ q. if q == p then free_node count else lowered top (g.role q);
}

module _ (md : MetaData) (g : Ghost) (top lo hi offset : ℕ)
    (role : g.role (node_id md offset) ≡ tree top lo hi) (aligned : value_idx md offset ≡ 0)
    (s : Store) (al : IsAllocated md g s) where
  abbrev pub less : Ghost
  less = lower_ghost g top (node_id md offset) (length s.del_node_pages.list)

  pub less-tree : (p k x y : ℕ) → less.role p ≡ tree k x y → (g.role p ≡ tree k x y) × (k ≢ top)
  less-tree p k x y e = elim (Bool-cases (p == node_id md offset)) [
    | inl z ↦ absurd (ground (arith, e))
    | inr z ↦ lowered_tree top (g.role p) k x y (ground (arith, e))
  ]

  pub tree-less : (p k x y : ℕ) → k ≢ top → g.role p ≡ tree k x y → less.role p ≡ tree k x y
  tree-less p k x y d e = elim (Bool-cases (p == node_id md offset)) [
    | inl z ↦ absurd (ground (arith, role, e))
    | inr z ↦ rw (z, e) (ground (arith, d))
  ]

  pub IsNode-less :
      (k lo hi : ℕ) (np : NodePage) → k < top → IsNode md g k lo hi np → IsNode md less k lo hi np
  IsNode-less zero lo hi np lt l = record {
    flag = l.flag;
    room = l.room;
    ascending = l.ascending;
    within = l.within;
    located = l.located;
    complete = l.complete;
  }
  IsNode-less (suc k) lo hi np lt l =
      IsInner-elsewhere md g less l
        (λ i h. tree-less _ _ _ _ (λ z. omega arith) (l.child i h) ∙ sym (l.child i h))

  role_else : (p : ℕ) → p ≢ node_id md offset → less.role p ≡ lowered top (g.role p)
  role_else p d = ground arith

  pub less-IsAllocated :
      IsAllocated md less (record s { del_node_pages = FreeList.push s.del_node_pages offset })
  unfolding FreeList.push
  less-IsAllocated = record {
    beyond = λ p h.
        role_else p (λ z. ground (arith, ap g.role z, al.beyond p h, role))
        ∙ ap (lowered top) (al.beyond p h);
    node_list = (
      aligned,
      ground arith,
      FreeNodes-of_roles md g less s.del_node_pages.list
          (λ p i h e. role_else p (λ z. ground (arith, ap g.role z, role)) ∙ ap (lowered top) e)
          al.node_list,
    );
    value_list = FreeValues-of_roles md g less s.del_values.list (λ j i h e. e) al.value_list;
    used = λ j h. values_stay (node_id md j) (al.used j h);
    located = al.located;
    pages = λ p e. elim (Bool-cases (p == node_id md offset)) [
      | inl z ↦ absurd (ground (arith, e))
      | inr z ↦ al.pages p (lowered_values top (g.role p) (ground (arith, e)))
    ];
    last = λ h. (let w = al.last h in (values_stay (node_id md s.empty_value_node) w.0, w.1));
    behind = al.behind;
  }
    where
      values_stay : (p : ℕ) → g.role p ≡ values → less.role p ≡ values
      values_stay p e = role_else p (λ z. ground (arith, ap g.role z, role)) ∙ ap (lowered top) e
