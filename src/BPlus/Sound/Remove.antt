-- ===== src/BPlus/Sound/Remove.antt =====
-- What a repair between two siblings does to the roles, for removal of
-- pkg/storage/bplustree/BPlusTreeNode.cpp: the bound between them moves, or one gets the range of both.
pub mod Drop
pub mod Ends
pub mod Father
pub mod Gone
pub mod InnerFromLeft
pub mod InnerFromRight
pub mod InnerMerge
pub mod Leaf
pub mod LeafFromLeft
pub mod LeafFromRight
pub mod LeafMerge
pub mod LeafRoot
pub mod Lower
pub mod Merge
pub mod Redistribute
pub mod Repair
pub mod Root
pub mod Rotate
pub mod Shrink
pub mod Siblings
pub mod Value
pub mod Walk
use godbee.Base.{
  ℕ, ◌+◌, ◌≤◌, ◌<◌, ◌≡◌, ◌≢◌, refl, sym, ap, ◌∙◌, ◌⊎◌, inl, inr, arith, ltb, ◌==◌, Bool-cases,
  length,
}
use godbee.BPlus.Search.{Key}
use godbee.BPlus.FreeList
use godbee.BPlus.Offsets.{MetaData, IsConfig, node_id, value_idx}
use godbee.BPlus.Store.{Store}
use godbee.BPlus.Sound.{
  Ghost, Role, values, tree, free_node, unused, FreeNodes, IsAllocated, IsDisjoint, contents,
}
use godbee.BPlus.Sound.Roles.{FreeNodes-of_roles, FreeValues-of_roles}
use godbee.BPlus.Sound.Flush.{with_role, with_role-IsAllocated, page_in_file}

-- `g'` has other nodes than `g` at the pages `a` and `b` only, of height `h` and within `l` and `u`.
pub record Regrouped (g : Ghost) (h l u a b : ℕ) (g' : Ghost) : Type 0 where
  pub loc : (k : Key) → g'.loc k ≡ g.loc k
  pub piece :
      (p k x y : ℕ)
      → g'.role p ≡ tree k x y
      → ((g.role p ≡ tree k x y) × (p ≢ a) × (p ≢ b))
        ⊎ (((p ≡ a) ⊎ (p ≡ b)) × (k ≡ h) × (l ≤ x) × (y ≤ u) × (x < y))
  pub kept : (p k x y : ℕ) → p ≢ a → p ≢ b → g.role p ≡ tree k x y → g'.role p ≡ tree k x y
  pub single :
      (p q x y x' y' : ℕ)
      → (p ≡ a) ⊎ (p ≡ b)
      → (q ≡ a) ⊎ (q ≡ b)
      → g'.role p ≡ tree h x y
      → g'.role q ≡ tree h x' y'
      → x < y'
      → x' < y
      → p ≡ q

-- Two neighbours, in either order of the pages.
module _ (md : MetaData) (c : IsConfig md) (g : Ghost) (h l m u a b : ℕ)
    (role_a : g.role a ≡ tree h l m) (role_b : g.role b ≡ tree h m u) (low : l < m) (high : m < u)
    (disjoint : IsDisjoint md g) (ordered : (p k x y : ℕ) → g.role p ≡ tree k x y → x < y) where
  pub covers : (p x y : ℕ) → g.role p ≡ tree h x y → x < u → l < y → (p ≡ a) ⊎ (p ≡ b)
  covers p x y r i j = elim (Bool-cases (ltb x m)) [
    | inl e ↦ inl (disjoint p a h x y l m r role_a (ground arith) j)
    | inr e ↦ inr (disjoint p b h x y m u r role_b i (ground (arith, ordered p h x y r)))
  ]

  pub a_b : a ≢ b
  a_b e = ground (arith, role_a, role_b)

  module _ (g' : Ghost) (re : Regrouped g h l u a b g') where
    pub Regrouped-ordered : (p k x y : ℕ) → g'.role p ≡ tree k x y → x < y
    Regrouped-ordered p k x y r = elim (re.piece p k x y r) [
      | inl (old, _, _) ↦ ordered p k x y old
      | inr (_, _, _, _, lt) ↦ lt
    ]

    pub Regrouped-disjoint : IsDisjoint md g'
    Regrouped-disjoint p q k x y x' y' r r' i j = elim (re.piece p k x y r) [
      | inl (old, na, nb) ↦ elim (re.piece q k x' y' r') [
        | inl (old', _, _) ↦ disjoint p q k x y x' y' old old' i j
        | inr (_, same, lo, hi, _) ↦
            absurd
              (elim (covers p x y (old ∙ ap (λ z. Role.tree z x y) same) (omega arith)
                (omega arith)) [ inl e ↦ na e | inr e ↦ nb e ])
      ]
      | inr (at, same, lo, hi, _) ↦ elim (re.piece q k x' y' r') [
        | inl (old', na, nb) ↦
            absurd
              (elim (covers q x' y' (old' ∙ ap (λ z. Role.tree z x' y') same) (omega arith)
                (omega arith)) [ inl e ↦ na e | inr e ↦ nb e ])
        | inr (at', _, _, _, _) ↦
            re.single p q x y x' y' at at' (r ∙ ap (λ z. Role.tree z x y) same)
              (r' ∙ ap (λ z. Role.tree z x' y') same) i j
      ]
    ]

  -- The bound between them is `m'`.
  module _ (m' : ℕ) (low' : l < m') (high' : m' < u) where
    abbrev pub rotated : Ghost
    rotated = with_role (with_role g a (tree h l m')) b (tree h m' u)

    pub rotated_a : rotated.role a ≡ tree h l m'
    unfolding with_role
    rotated_a = ground (arith, a_b)

    pub rotated_b : rotated.role b ≡ tree h m' u
    unfolding with_role
    rotated_b = ground arith

    pub rotated-Regrouped : Regrouped g h l u a b rotated
    unfolding with_role
    rotated-Regrouped = record {
      loc = λ k. refl;
      piece = λ p k x y r. elim (Bool-cases (p == b)) [
        | inl e ↦ inr (
          inr (ground arith),
          ground (arith, rotated_b),
          ground (arith, rotated_b),
          ground (arith, rotated_b),
          ground (arith, rotated_b),
        )
        | inr e ↦ elim (Bool-cases (p == a)) [
          | inl f ↦ inr (
            inl (ground arith),
            ground (arith, rotated_a),
            ground (arith, rotated_a),
            ground (arith, rotated_a),
            ground (arith, rotated_a),
          )
          | inr f ↦ inl (ground arith, (λ z. ground arith), λ z. ground arith)
        ]
      ];
      kept = λ p k x y na nb r. ground (arith, na, nb);
      single = λ p q x y x' y' at at' r r' i j. ground (arith, rotated_a, rotated_b);
    }

    pub rotated-IsAllocated : (s : Store) → IsAllocated md g s → IsAllocated md rotated s
    rotated-IsAllocated s al =
        with_role-IsAllocated md (with_role g a (tree h l m')) s
          (with_role-IsAllocated md g s al a h l m' (λ e. ground (arith, role_a))
            (page_in_file md c g s al a (λ e. ground (arith, role_a)))
            (λ i lt e. ground (arith, role_a)))
          b h m' u (unfold with_role in (λ e. ground (arith, role_b)))
          (page_in_file md c g s al b (λ e. ground (arith, role_b)))
          (unfold with_role in (λ i lt e. ground (arith, role_b)))

  -- `keep` has the range of both, and `gone` is the `n`-th free page.
  module _ (keep gone : ℕ) (sides : ((keep ≡ a) × (gone ≡ b)) ⊎ ((keep ≡ b) × (gone ≡ a)))
      (n : ℕ) where
    abbrev pub merged : Ghost
    merged = with_role (with_role g keep (tree h l u)) gone (free_node n)

    keep_gone : keep ≢ gone
    keep_gone e = ground (arith, sides, a_b)

    pub merged_keep : merged.role keep ≡ tree h l u
    unfolding with_role
    merged_keep = ground (arith, keep_gone)

    pub merged_gone : merged.role gone ≡ free_node n
    unfolding with_role
    merged_gone = ground arith

    -- Both pages were nodes.
    pub keep_role : (x : ℕ) × (y : ℕ) × (g.role keep ≡ tree h x y)
    keep_role = elim sides [
      | inl (e, _) ↦ (l, m, ap g.role e ∙ role_a)
      | inr (e, _) ↦ (m, u, ap g.role e ∙ role_b)
    ]

    pub gone_role : (x : ℕ) × (y : ℕ) × (g.role gone ≡ tree h x y)
    gone_role = elim sides [
      | inl (_, e) ↦ (m, u, ap g.role e ∙ role_b)
      | inr (_, e) ↦ (l, m, ap g.role e ∙ role_a)
    ]

    pub merged-Regrouped : Regrouped g h l u a b merged
    unfolding with_role
    merged-Regrouped = record {
      loc = λ k. refl;
      piece = λ p k x y r. elim (Bool-cases (p == gone)) [
        | inl e ↦ absurd (ground (arith, merged_gone))
        | inr e ↦ elim (Bool-cases (p == keep)) [
          | inl f ↦ inr (
            ground (arith, sides),
            ground (arith, merged_keep),
            ground (arith, merged_keep),
            ground (arith, merged_keep),
            ground (arith, merged_keep, low, high),
          )
          | inr f ↦ inl (ground arith, (λ z. ground (arith, sides)), λ z. ground (arith, sides))
        ]
      ];
      kept = λ p k x y na nb r. ground (arith, na, nb, sides);
      single = λ p q x y x' y' at at' r r' i j. ground (arith, merged_keep, merged_gone, sides);
    }

    pub merged-IsAllocated :
        (s : Store) (offset : ℕ)
        → IsAllocated md g s
        → node_id md offset ≡ gone
        → value_idx md offset ≡ 0
        → n ≡ length s.del_node_pages.list
        → IsAllocated md merged
            (record s { del_node_pages = FreeList.push s.del_node_pages offset })
    unfolding with_role FreeList.push
    merged-IsAllocated s offset al at aligned count = record {
      beyond = λ p e. ground (arith, al.beyond p e, keep_role.2, gone_role.2);
      node_list = (
        aligned,
        rw at (ground (arith, count)),
        FreeNodes-of_roles md g merged s.del_node_pages.list
            (λ q i lt e. ground (arith, keep_role.2, gone_role.2)) al.node_list,
      );
      value_list = FreeValues-of_roles md g merged s.del_values.list (λ q i lt e. e) al.value_list;
      used = λ j e. ground (arith, al.used j e, keep_role.2, gone_role.2);
      located = al.located;
      pages = λ q e. al.pages q (ground arith);
      last = λ e. ground (arith, al.last e, keep_role.2, gone_role.2);
      behind = al.behind;
    }
