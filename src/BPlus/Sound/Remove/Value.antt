-- ===== src/BPlus/Sound/Remove/Value.antt =====
-- The key of a value that is given up: its position goes to the list of free positions, as `removeLeft`
-- of pkg/storage/bplustree/BPlusTreeNode.cpp does on a leaf.
use godbee.Base.{
  ℕ, ◌+◌, ◌-◌, ◌<◌, ◌≡◌, refl, ap, ◌∙◌, none, some, inl, inr, arith, length, update, ltb, ◌==◌,
  if◌then◌else◌, Bool-cases,
}
use godbee.BPlus.Search.{Key}
use godbee.BPlus.FreeList
use godbee.BPlus.Offsets.{MetaData, node_id}
use godbee.BPlus.Store.{leaf_node, Node, Store, push_del_value}
use godbee.BPlus.Removal.{is_leaf, close_up, close_at, remove_left_at}
use godbee.BPlus.Removal.Loops.{close_up-at}
use godbee.BPlus.Sound.{Ghost, free_value, held, as_page, IsLeaf, IsAllocated, stored, contents}
use godbee.BPlus.Sound.Roles.{FreeNodes-of_roles, FreeValues-of_roles}

-- The key has no value from now on, and the position is free.
abbrev pub forget : Ghost → Key → ℕ → ℕ → Ghost
forget g key id count = record g {
  value_role = update g.value_role id (free_value count);
  loc = λ j. if j == key then none else g.loc j;
}

-- The store after the position has been pushed.
abbrev pub released : Store → ℕ → Store
released s id = record s { del_values = FreeList.push s.del_values id }

module _ (md : MetaData) (g : Ghost) (s : Store) (al : IsAllocated md g s) (key : Key) (id : ℕ)
    (loc : g.loc key ≡ some id) where
  abbrev pub after : Ghost
  after = forget g key id (length s.del_values.list)

  was : g.value_role id ≡ held key
  was = al.located key id loc

  pub forget-IsAllocated : IsAllocated md after (released s id)
  unfolding FreeList.push
  forget-IsAllocated = record {
    beyond = al.beyond;
    node_list = FreeNodes-of_roles md g after s.del_node_pages.list (λ p n h e. e) al.node_list;
    value_list = (
      ground arith,
      FreeValues-of_roles md g after s.del_values.list (λ j n h e. ground (arith, was))
          al.value_list,
    );
    used = λ j h. elim (Bool-cases (j == id)) [
      | inl e ↦
          let same : j ≡ id = ground arith in
          ap (λ z. g.role (node_id md z)) same ∙ al.used id (λ z. ground (arith, was))
      | inr e ↦ al.used j (λ z. h (ground arith))
    ];
    located = λ q j h. ground (arith, al.located q j, was);
    pages = al.pages;
    last = al.last;
    behind = λ j h p q. ground (arith, al.behind j h p q, was);
  }

  pub forget-contents :
      (j : Key)
      → contents md after (released s id) j ≡ (if j == key then none else contents md g s j)
  unfolding contents stored
  forget-contents j = elim (Bool-cases (j == key)) [ inl e ↦ rw e refl | inr e ↦ rw e refl ]

  -- The leaf without entry `index`, which is the key's.
  module _ (lo hi : ℕ) (n : Node) (leaf : IsLeaf md g lo hi (as_page n)) (index : ℕ)
      (inside : index < n.size) (at : n.keys index ≡ key) where
    pub forget-IsLeaf : IsLeaf md after lo hi (as_page (close_at md n index))
    unfolding close_at
    forget-IsLeaf = record {
      flag = leaf.flag;
      room = omega (arith, leaf.room);
      ascending = λ i j h k. ground (
        arith,
        keys i,
        keys j,
        leaf.ascending i j,
        leaf.ascending i (j + 1),
        leaf.ascending (i + 1) (j + 1),
      );
      within = λ i h. ground (arith, keys i, leaf.within i, leaf.within (i + 1));
      located = λ i h. elim (Bool-cases (ltb i index)) [
        | inl e ↦ ground (arith, keys i, childs i, leaf.located i, leaf.ascending i index)
        | inr e ↦
            ground (arith, keys i, childs i, leaf.located (i + 1), leaf.ascending index (i + 1))
      ];
      complete = λ j a b absent. elim (Bool-cases (j == key)) [
        | inl e ↦ rw e refl
        | inr e ↦ rw e (
            leaf.complete j a b (λ i h q. elim (Bool-cases (ltb i index)) [
              | inl x ↦ absent i (ground arith) (ground (arith, keys i))
              | inr x ↦ elim (Bool-cases (i == index)) [
                | inl y ↦ ground arith
                | inr y ↦ absent (i - 1) (ground arith) (ground (arith, keys (i - 1), behind i))
              ]
            ]))
      ];
    }
      where
        keys :
            (i : ℕ)
            → i < n.size - 1
            → close_up (n.size - 1 - index) index n.keys i
              ≡ (if ltb i index then n.keys i else n.keys (i + 1))
        keys i h = ground (arith, close_up-at (n.size - 1 - index) index n.keys i)

        childs :
            (i : ℕ)
            → i < n.size - 1
            → (close_at md n index).childs i
              ≡ (if ltb i index then n.childs i else n.childs (i + 1))
        childs i h = ground (arith, close_up-at (n.size - 1 - index) index n.childs i)

        behind : (i : ℕ) → index < i → i - 1 + 1 ≡ i
        behind i h = omega arith

    pub remove_left_at-eq :
        n.childs index ≡ id
        → n.flag ≡ leaf_node
        → remove_left_at md n index s ≡ some (close_at md n index, released s id)
    unfolding remove_left_at is_leaf push_del_value
    remove_left_at-eq e flag = rw (flag, e) refl
