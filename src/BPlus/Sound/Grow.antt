-- ===== src/BPlus/Sound/Grow.antt =====
-- The new root that `insert` of pkg/storage/bplustree/BPlusTreeNode.cpp builds when the old one has
-- been split.
use godbee.Base.{
  ℕ, zero, suc, ◌≤◌, ◌<◌, ◌≡◌, ◌≢◌, refl, sym, ap, subst, ◌∙◌, some, inl, inr, arith, true, update,
  ◌==◌, Bool-cases,
}
use godbee.BPlus.Search.{Key}
use godbee.BPlus.Offsets.{MetaData, IsConfig, node_id, value_idx}
use godbee.BPlus.Store.{internal_node, Node, NodePage, node_page, Store, to_node_page, node_of_page}
use godbee.BPlus.Node.{Entry}
use godbee.BPlus.Tree.{new_root, grow_root}
use godbee.BPlus.Sound.{
  Ghost, AreBounded, Role, tree, values, lower, upper, as_page, IsInner, IsNode, IsDisjoint,
  IsSound, contents,
}
use godbee.BPlus.Sound.Copy.{SameNode-to_node_page, IsNode-same}
use godbee.BPlus.Sound.Get.{IsAt, get_node-eq}
use godbee.BPlus.Sound.Flush.{
  IsNew, new_node-IsNew, with_role, with_role-IsAllocated, flushed, flush_to_file-eq, flushed_self,
  flushed-other, flushed-IsAllocated, flushed-contents,
}
use godbee.BPlus.Sound.Insert.Leaf.{IsLeaf-elsewhere}
use godbee.BPlus.Sound.Insert.Inner.{IsInner-elsewhere}

-- No node is higher than the root.
abbrev pub IsTop : Ghost → ℕ → Type 0
IsTop g height = (p h l u : ℕ) → g.role p ≡ tree h l u → h ≤ height

-- The root, one level up.
pub record Grown (md : MetaData) (g : Ghost) (s : Store) (height hi : ℕ) (root : Node) (g' : Ghost)
    (s' : Store) : Type 0 where
  pub sound : IsSound md g' s' (suc height)
  pub at : IsAt md g' s' (suc height) 0 hi root
  pub is_top : IsTop g' (suc height)
  pub bounded : AreBounded g hi → AreBounded g' hi
  pub below :
      (p h l u : ℕ)
      → h ≤ height
      → g'.role p ≡ tree h l u
      → (g.role p ≡ tree h l u) × (s'.file p ≡ s.file p)
  pub contents_lem : (j : Key) → contents md g' s' j ≡ contents md g s j

with_role-contents :
    (md : MetaData) (g : Ghost) (s : Store) (p : ℕ) (r : Role) (j : Key)
    → contents md (with_role g p r) s j ≡ contents md g s j
unfolding with_role contents
with_role-contents md g s p r j = refl

module _ (md : MetaData) (c : IsConfig md) (g : Ghost) (s : Store) (height hi : ℕ)
    (sound : IsSound md g s height) (is_top : IsTop g height) (n : Node) (e : Entry)
    (between : (0 < e.key) × (e.key < hi)) (left_aligned : value_idx md n.off_set ≡ 0)
    (left_role : g.role (node_id md n.off_set) ≡ tree height 0 e.key)
    (right_aligned : value_idx md e.value ≡ 0)
    (right_role : g.role (node_id md e.value) ≡ tree height e.key hi) where
  module _ (page : ℕ) (no_tree : (h l u : ℕ) → g.role page ≢ tree h l u) where
    abbrev grown : Ghost
    grown = with_role g page (tree (suc height) 0 hi)

    grown-kept : (p h l u : ℕ) → g.role p ≡ tree h l u → grown.role p ≡ tree h l u
    unfolding with_role
    grown-kept p h l u r = ground (arith, no_tree h l u)

    grown-back : (p h l u : ℕ) → p ≢ page → grown.role p ≡ tree h l u → g.role p ≡ tree h l u
    unfolding with_role
    grown-back p h l u ne r = ground arith

    grown_self : grown.role page ≡ tree (suc height) 0 hi
    unfolding with_role
    grown_self = ground arith

    grown-IsDisjoint : IsDisjoint md grown
    grown-IsDisjoint p q h l u l' u' r r' x y = elim (Bool-cases (p == page)) [
      | inl i ↦ elim (Bool-cases (q == page)) [
        | inl j ↦ ground arith
        | inr j ↦
            absurd (
              ground (arith, grown_self, is_top q h l' u' (grown-back q h l' u' (ground arith) r')))
      ]
      | inr i ↦ elim (Bool-cases (q == page)) [
        | inl j ↦
            absurd
              (ground (arith, grown_self, is_top p h l u (grown-back p h l u (ground arith) r)))
        | inr j ↦
            sound.disjoint p q h l u l' u' (grown-back p h l u (ground arith) r)
              (grown-back q h l' u' (ground arith) r') x y
      ]
    ]

    grown-ordered : (p h l u : ℕ) → grown.role p ≡ tree h l u → l < u
    grown-ordered p h l u r = elim (Bool-cases (p == page)) [
      | inl i ↦ ground (arith, grown_self, between)
      | inr i ↦ sound.ordered p h l u (grown-back p h l u (ground arith) r)
    ]

    grown-IsTop : IsTop grown (suc height)
    grown-IsTop p h l u r = elim (Bool-cases (p == page)) [
      | inl i ↦ ground (arith, grown_self)
      | inr i ↦ omega (arith, is_top p h l u (grown-back p h l u (ground arith) r))
    ]

    grown-IsNode : (h l u : ℕ) (np : NodePage) → IsNode md g h l u np → IsNode md grown h l u np
    unfolding with_role
    grown-IsNode zero l u np leaf =
        IsLeaf-elsewhere md g grown u (λ j x. refl) (λ w. absurd (omega arith)) leaf
    grown-IsNode (suc h) l u np inner =
        IsInner-elsewhere md g grown inner
          (λ i x. grown-kept _ h _ _ (inner.child i x) ∙ sym (inner.child i x))

    root-IsInner :
        (root : Node)
        → root.flag ≡ internal_node
        → root.size ≡ 1
        → root.keys 0 ≡ e.key
        → root.childs 0 ≡ n.off_set
        → root.childs 1 ≡ e.value
        → IsInner md grown height 0 hi (as_page root)
    root-IsInner root flag size key left right = record {
      flag = flag;
      nonempty = omega arith;
      room = omega (arith, c.degree);
      ascending = λ i j x y. absurd (omega arith);
      within = λ i x. ground (arith, between);
      aligned = λ i x. elim (Bool-cases (i == 0)) [
        | inl z ↦ ground (arith, left_aligned)
        | inr z ↦ ground (arith, right_aligned)
      ];
      child = child_role;
    }
      where
        child_role :
            (i : ℕ)
            → i ≤ root.size
            → grown.role (node_id md (root.childs i))
              ≡ tree height (lower root.keys 0 i) (upper root.keys root.size hi i)
        child_role zero x =
            rw (left, size) (grown-kept _ _ _ _ left_role ∙ ap (tree height 0) (sym key))
        child_role (suc zero) x =
            rw (right, size) (grown-kept _ _ _ _ right_role ∙ ap (λ a. tree height a hi) (sym key))
        child_role (suc (suc i)) x = absurd (omega arith)

  -- The root over the two halves is new, is in the file, and holds what they held.
  pub grow_root-Grown :
      (root : Node) × (g' : Ghost) × (s' : Store) × (grow_root md n (some e) s ≡ some (root, s'))
      × Grown md g s height hi root g' s'
  unfolding grow_root new_root
  grow_root-Grown =
      let (np, f, _) = sound.nodes (node_id md e.value) height e.key hi (omega arith) right_role in
      let right = node_of_page np e.value in
      let (s₁, new, run, size, flag, is_new) =
        new_node-IsNew md c g s sound.allocated internal_node in
      let root : Node = record new {
        keys = update new.keys 0 e.key;
        childs = update (update new.childs 0 n.off_set) 1 right.off_set;
        size = 1;
      } in
      let right_off : right.off_set ≡ e.value = unfold node_of_page in refl in
      (
        root,
        grown (node_id md new.off_set) is_new.no_tree,
        flushed md s₁ root.off_set (to_node_page root),
        rw (
          get_node-eq md g s e.value np right_aligned f,
          run,
          flush_to_file-eq md root s₁ is_new.aligned,
        ),
        written new.off_set s₁ is_new root refl flag refl refl refl right_off,
      )
    where
      written :
          (offset : ℕ) (s₁ : Store) (is_new : IsNew md g s offset s₁) (root : Node)
          → root.off_set ≡ offset
          → root.flag ≡ internal_node
          → root.size ≡ 1
          → root.keys 0 ≡ e.key
          → root.childs 0 ≡ n.off_set
          → root.childs 1 ≡ e.value
          → Grown md g s height hi root
              (grown (node_id md offset) is_new.no_tree)
              (flushed md s₁ root.off_set (to_node_page root))
      written offset s₁ is_new root off flag size key left right =
          let page = node_id md offset in
          let g₂ : Ghost = grown page is_new.no_tree in
          let inner : IsInner md g₂ height 0 hi (as_page root) =
            root-IsInner page is_new.no_tree root flag size key left right in
          let here : node_id md root.off_set ≡ page = ap (node_id md) off in
          let self : g₂.role (node_id md root.off_set) ≡ tree (suc height) 0 hi =
            ap g₂.role here ∙ grown_self page is_new.no_tree in
          let no_values : g₂.role (node_id md root.off_set) ≢ values = λ q. ground (arith, self) in
          let al =
            with_role-IsAllocated md g s₁ is_new.allocated page (suc height) 0 hi is_new.no_values
              is_new.in_file is_new.apart in
          record {
            sound = record {
              allocated =
                  flushed-IsAllocated md g₂ s₁ al root.off_set (to_node_page root) no_values;
              disjoint = grown-IsDisjoint page is_new.no_tree;
              ordered = grown-ordered page is_new.no_tree;
              nodes = λ p h l u le r. nodes p h l u r;
            };
            at = record { aligned = rw off is_new.aligned; role = self; node = inner };
            is_top = grown-IsTop page is_new.no_tree;
            bounded = λ w p h l u r. elim (Bool-cases (p == page)) [
              | inl i ↦ ground (arith, grown_self page is_new.no_tree)
              | inr i ↦ w p h l u (grown-back page is_new.no_tree p h l u (ground arith) r)
            ];
            below = λ p h l u le r.
                let ne : p ≢ page =
                  λ z. ground (arith, ap g₂.role z, grown_self page is_new.no_tree) in
                (
                  grown-back page is_new.no_tree p h l u ne r,
                  flushed-other md s₁ root.off_set (to_node_page root) p (λ z. ne (z ∙ here))
                      ∙ is_new.file p ne,
                );
            contents_lem = λ j.
                flushed-contents md g₂ s₁ al root.off_set (to_node_page root) no_values j
                ∙ with_role-contents md g s₁ page (tree (suc height) 0 hi) j
                ∙ is_new.contents_lem j;
          }
        where
          nodes :
              (p h l u : ℕ)
              → (grown (node_id md offset) is_new.no_tree).role p ≡ tree h l u
              → (np : NodePage) × ((flushed md s₁ root.off_set (to_node_page root)).file p
                  ≡ node_page np)
                × IsNode md (grown (node_id md offset) is_new.no_tree) h l u np
          nodes p h l u r = elim (Bool-cases (p == node_id md offset)) [
            | inl i ↦
                let t =
                  sym (grown_self (node_id md offset) is_new.no_tree)
                  ∙ sym (ap (grown (node_id md offset) is_new.no_tree).role (is_page i))
                  ∙ r in
                (
                  to_node_page root,
                  ap (flushed md s₁ root.off_set (to_node_page root)).file
                        (is_page i ∙ sym (ap (node_id md) off))
                      ∙ flushed_self md s₁ root.off_set (to_node_page root),
                  relabel (ground arith) (ground arith) (ground arith) (
                      IsNode-same md (grown (node_id md offset) is_new.no_tree)
                        (SameNode-to_node_page root) (suc height) 0 hi
                        (root-IsInner (node_id md offset) is_new.no_tree root flag size key left
                          right)),
                )
            | inr i ↦
                let old = grown-back (node_id md offset) is_new.no_tree p h l u (ground arith) r in
                let (np, f, ok) = sound.nodes p h l u (is_top p h l u old) old in
                (
                  np,
                  flushed-other md s₁ root.off_set (to_node_page root) p (rw off (ground arith))
                      ∙ is_new.file p (ground arith)
                      ∙ f,
                  grown-IsNode (node_id md offset) is_new.no_tree h l u np ok,
                )
          ]
            where
              is_page : (p == node_id md offset) ≡ true → p ≡ node_id md offset
              is_page i = ground arith

              relabel :
                  suc height ≡ h
                  → 0 ≡ l
                  → hi ≡ u
                  → IsNode md
                      (grown (node_id md offset) is_new.no_tree)
                      (suc height)
                      0
                      hi
                      (to_node_page root)
                  → IsNode md (grown (node_id md offset) is_new.no_tree) h l u (to_node_page root)
              relabel x y z t =
                  let g₂ : Ghost = grown (node_id md offset) is_new.no_tree in
                  let np : NodePage = to_node_page root in
                  subst (λ h. IsNode md g₂ h l u np) x
                    (subst (λ l. IsNode md g₂ (suc height) l u np) y
                      (subst (λ u. IsNode md g₂ (suc height) 0 u np) z t))
