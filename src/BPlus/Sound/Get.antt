-- ===== src/BPlus/Sound/Get.antt =====
-- Reads of a sound store, `get` and `exist` of pkg/storage/bplustree/BPlusTreeNode.cpp.
use mathlib.Core.Option
use godbee.Base.{
  ℕ, zero, suc, ◌≤◌, ◌<◌, ◌≡◌, refl, ◌==◌, arith, sym, Bool-cases, Option, none, some, inl, inr,
  ◌⊎◌, true, false, is_some,
}
use godbee.BPlus.Search.{Key, UpperBound, index_node_equal, index_node_larger, is_existing}
use godbee.BPlus.Search.Position.{index_node_equal_iff, index_node_larger-UpperBound}
use godbee.BPlus.Offsets.{MetaData, node_id, value_idx}
use godbee.BPlus.Store.{
  Node, NodePage, node_page, Store, get_node, get_value, node_of_page, values_of,
}
use godbee.BPlus.Removal.{is_leaf}
use godbee.BPlus.Tree.{child_for, get_at, get_from, exist_from}
use godbee.BPlus.Sound.{
  Ghost, tree, lower, upper, as_page, IsLeaf, IsInner, IsNode, IsAllocated, AreNodes, stored,
  contents,
}
use godbee.BPlus.Sound.Copy.{SameNode-node_of_page, IsNode-same}

pub Option-cases {ℓ} : {A : Type ℓ} (o : Option A) → (o ≡ none) ⊎ ((a : A) × (o ≡ some a))
Option-cases none = inl refl
Option-cases (some a) = inr (a, refl)

module _ (md : MetaData) (g : Ghost) (s : Store) where
  pub get_node-eq :
      (offset : ℕ) (np : NodePage)
      → value_idx md offset ≡ 0
      → s.file (node_id md offset) ≡ node_page np
      → get_node md offset s ≡ some (node_of_page np offset, s)
  unfolding get_node
  get_node-eq offset np a f = rw (a, f)

  get_value-eq :
      IsAllocated md g s
      → (k : Key) (id : ℕ) → g.loc k ≡ some id
      → get_value md id s ≡ some (stored md s id, s)
  unfolding get_value stored values_of
  get_value-eq al k id e =
      let u = al.used id (λ z. ground (arith, al.located k id)) in
      let p = al.pages (node_id md id) u in rw p.1

  module _ {lo hi : ℕ} (n : Node) (l : IsLeaf md g lo hi (as_page n)) (k : Key)
      (within : (lo ≤ k) × (k < hi)) where
    -- A leaf finds a key exactly where the ghost has it.
    pub index-loc : Option.map n.childs (index_node_equal n.keys n.size k) ≡ g.loc k
    index-loc = elim (Option-cases (index_node_equal n.keys n.size k)) [
      | inl e ↦ rw e (
          sym (
            l.complete k within.0 within.1 (λ i h q.
              ground (arith, (index_node_equal_iff n.keys n.size k l.ascending i).1 (h, q)))))
      | inr (i, e) ↦
          let p = (index_node_equal_iff n.keys n.size k l.ascending i).0 e in
          rw (e, ← p.1) (sym (l.located i p.0))
    ]

  -- A node of the file, in memory, whose range has the key.
  pub record IsAt (height lo hi : ℕ) (n : Node) : Type 0 where
    pub aligned : value_idx md n.off_set ≡ 0
    pub role : g.role (node_id md n.off_set) ≡ tree height lo hi
    pub node : IsNode md g height lo hi (as_page n)

  -- What a walk down meets at child `i`.
  pub record Descent (height lo hi : ℕ) (n : Node) (k : Key) : Type 0 where
    pub index : ℕ
    pub found : index_node_larger n.keys n.size k ≡ some index
    pub in_range : index ≤ n.size
    pub low : lower n.keys lo index ≤ k
    pub high : k < upper n.keys n.size hi index
    pub child : Node
    pub off_set : child.off_set ≡ n.childs index
    pub read : get_node md (n.childs index) s ≡ some (child, s)
    pub at : IsAt height (lower n.keys lo index) (upper n.keys n.size hi index) child

  module _ {height lo hi : ℕ} (n : Node) (l : IsInner md g height lo hi (as_page n)) (k : Key)
      (within : (lo ≤ k) × (k < hi)) where
    lower-le : (i : ℕ) → UpperBound n.keys n.size k i → lower n.keys lo i ≤ k
    lower-le zero u = within.0
    lower-le (suc i) u = u.at_most i (omega arith)

    lt-upper : (i : ℕ) → UpperBound n.keys n.size k i → k < upper n.keys n.size hi i
    lt-upper i u = elim (Bool-cases (i == n.size)) [
      | inl e ↦ rw e within.1
      | inr e ↦ rw e (u.above i (omega arith) (ground (arith, u.in_range)))
    ]

    pub descend : AreNodes md g s height → Descent height lo hi n k
    descend nodes =
        let (i, e, u) = index_node_larger-UpperBound n.keys n.size k l.ascending l.nonempty in
        let role = l.child i u.in_range in
        let (np, f, ok) =
          nodes (node_id md (n.childs i)) height (lower n.keys lo i) (upper n.keys n.size hi i)
            (omega arith) role in
        record {
          index = i;
          found = e;
          in_range = u.in_range;
          low = lower-le i u;
          high = lt-upper i u;
          child = node_of_page np (n.childs i);
          off_set = unfold node_of_page in refl;
          read = get_node-eq (n.childs i) np (l.aligned i u.in_range) f;
          at = record {
            aligned = unfold node_of_page in l.aligned i u.in_range;
            role = unfold node_of_page in role;
            node = IsNode-same md g (SameNode-node_of_page np (n.childs i)) height _ _ ok;
          };
        }

    pub child_for-eq : (d : Descent height lo hi n k) → child_for md n k s ≡ some (d.child, s)
    unfolding child_for
    child_for-eq d = rw d.found d.read

  get_leaf :
      IsAllocated md g s
      → (o : Option ℕ) (n : Node) (k : Key) → Option.map n.childs o ≡ g.loc k
      → get_at md n o s ≡ some (contents md g s k, s)
  unfolding get_at contents
  get_leaf al none n k e = rw (← e)
  get_leaf al (some i) n k e = rw (get_value-eq al k (n.childs i) (sym e)) (rw (← e))

  -- With more fuel than the tree is high, `get` reads what the store holds for the key, and leaves
  -- the store as it is.
  pub get_from-contents :
      (height fuel lo hi : ℕ) (n : Node) (k : Key)
      → IsAllocated md g s
      → AreNodes md g s height
      → IsNode md g height lo hi (as_page n)
      → (lo ≤ k) × (k < hi)
      → height < fuel
      → get_from md fuel n k s ≡ some (contents md g s k, s)
  unfolding get_from child_for contents
  get_from-contents height zero lo hi n k al nodes l w f = absurd (omega arith)
  get_from-contents zero (suc fuel) lo hi n k al nodes l w f =
      rw (l.flag, is_leaf) (get_leaf al (index_node_equal n.keys n.size k) n k (index-loc n l k w))
  get_from-contents (suc height) (suc fuel) lo hi n k al nodes l w f =
      let d = descend n l k w (λ p h a b q. nodes p h a b (omega arith)) in
      rw (l.flag, is_leaf, child_for-eq n l k w d)
        (get_from-contents height fuel _ _ d.child k al (λ p h a b q. nodes p h a b (omega arith))
          d.at.node (d.low, d.high) (omega arith))

  exist_leaf :
      (o : Option ℕ) (n : Node) (k : Key)
      → Option.map n.childs o ≡ g.loc k
      → elim o [ none ↦ false | some _ ↦ true ] ≡ is_some (contents md g s k)
  unfolding contents
  exist_leaf none n k e = rw (← e)
  exist_leaf (some i) n k e = rw (← e)

  -- `exist` says whether the store holds a value for the key, and leaves the store as it is.
  pub exist_from-contents :
      (height fuel lo hi : ℕ) (n : Node) (k : Key)
      → AreNodes md g s height
      → IsNode md g height lo hi (as_page n)
      → (lo ≤ k) × (k < hi)
      → height < fuel
      → exist_from md fuel n k s ≡ some (is_some (contents md g s k), s)
  unfolding exist_from is_existing contents child_for
  exist_from-contents height zero lo hi n k nodes l w f = absurd (omega arith)
  exist_from-contents zero (suc fuel) lo hi n k nodes l w f = rw (
    l.flag,
    is_leaf,
    is_existing,
    exist_leaf (index_node_equal n.keys n.size k) n k (index-loc n l k w),
  )
  exist_from-contents (suc height) (suc fuel) lo hi n k nodes l w f =
      let d = descend n l k w (λ p h a b q. nodes p h a b (omega arith)) in
      rw (l.flag, is_leaf, child_for-eq n l k w d)
        (exist_from-contents height fuel _ _ d.child k (λ p h a b q. nodes p h a b (omega arith))
          d.at.node (d.low, d.high) (omega arith))
