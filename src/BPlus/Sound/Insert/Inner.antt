-- ===== src/BPlus/Sound/Insert/Inner.antt =====
-- What an inner node does with the entry that comes back from its child, `internalInsert` of
-- pkg/storage/bplustree/BPlusTreeNode.cpp: nothing, or an insertion into its own keys.
use godbee.Base.{
  ℕ, zero, suc, ◌≤◌, ◌<◌, ◌≡◌, ◌≢◌, refl, sym, ap, subst, ◌∙◌, Option, none, some, inl, inr, arith,
  ◌==◌, Bool-cases,
}
use godbee.BPlus.Search.{Key}
use godbee.BPlus.Offsets.{MetaData, IsConfig, node_id, value_idx}
use godbee.BPlus.Store.{Value, Node, NodePage, node_page, node_of_page, Store}
use godbee.BPlus.Node.{Entry}
use godbee.BPlus.Sound.{Ghost, tree, lower, upper, IsInner, IsNode, AreNodes, IsSound}
use godbee.BPlus.Sound.Get.{IsAt, Descent, get_node-eq}
use godbee.BPlus.Sound.Insert.{Sized, filled_up, got_more, no_less, whole, Inserted}

-- An inner node takes no notice of a child level whose roles stay.
pub IsInner-elsewhere :
    (md : MetaData) (g g' : Ghost) {height l u : ℕ} {p : NodePage}
    → IsInner md g height l u p
    → ((i : ℕ) → i ≤ p.size → g'.role (node_id md (p.childs i)) ≡ g.role (node_id md (p.childs i)))
    → IsInner md g' height l u p
IsInner-elsewhere md g g' inner same = record {
  flag = inner.flag;
  nonempty = inner.nonempty;
  room = inner.room;
  ascending = inner.ascending;
  within = inner.within;
  aligned = inner.aligned;
  child = λ i h. same i h ∙ inner.child i h;
}

-- The ranges of the children lie in the node's.
module _ (md : MetaData) (g : Ghost) {height lo hi : ℕ} {p : NodePage}
    (inner : IsInner md g height lo hi p) where
  pub lower_bound : (i : ℕ) → i ≤ p.size → lo ≤ lower p.keys lo i
  lower_bound zero h = omega arith
  lower_bound (suc i) h = omega (arith, inner.within i h)

  pub upper_bound : (i : ℕ) → i ≤ p.size → upper p.keys p.size hi i ≤ hi
  upper_bound i h = ground (arith, inner.within i)

  -- A number inside the range of a child is none of the keys.
  pub absent_of_between :
      (i k : ℕ)
      → i ≤ p.size
      → lower p.keys lo i < k
      → k < upper p.keys p.size hi i
      → (j : ℕ) → j < p.size
      → p.keys j ≢ k
  absent_of_between zero k h a b j q e = ground (arith, inner.ascending 0 j)
  absent_of_between (suc i) k h a b j q e =
      ground (arith, inner.ascending (suc i) j, inner.ascending j i)

-- An inner node without the child `a` in its range.
pub IsInner-apart :
    (md : MetaData) (g g' : Ghost) {height l u la ha a key : ℕ} {p : NodePage}
    → IsInner md g height l u p
    → g.role a ≡ tree height la ha
    → (la < key) × (key < ha)
    → ((b x y : ℕ) → b ≢ a → g.role b ≡ tree height x y → g'.role b ≡ tree height x y)
    → ((l ≤ key) × (key < u) → ⊥)
    → IsInner md g' height l u p
IsInner-apart md g g' {height} {l} {u} {la} {ha} {a} {key} {p} inner role between others out =
    IsInner-elsewhere md g g' inner
      (λ i h. others _ _ _ (not_a i h) (inner.child i h) ∙ sym (inner.child i h))
  where
    not_a : (i : ℕ) → i ≤ p.size → node_id md (p.childs i) ≢ a
    not_a i h e =
        let t : tree height (lower p.keys l i) (upper p.keys p.size u i) ≡ tree height la ha =
          sym (inner.child i h) ∙ ap g.role e ∙ role in
        out (ground (arith, lower_bound md g inner i h), ground (arith, upper_bound md g inner i h))

-- The level below has been changed from `g` and `s` to `g'` and `s'`.
module _ (md : MetaData) (c : IsConfig md) (g : Ghost) (s : Store) (height lo hi : ℕ)
    (sound : IsSound md g s (suc height)) (n : Node) (at : IsAt md g s (suc height) lo hi n)
    (k : Key) (v : Value) (d : Descent md g s height lo hi n k) where
  abbrev pub child_page : ℕ
  child_page = node_id md d.child.off_set

  -- An insertion below the child.
  abbrev pub Below : Option Entry → Node → Ghost → Store → Type 0
  Below e child' g' s' =
      Inserted md g s height child_page (lower n.keys lo d.index) (upper n.keys n.size hi d.index) k
        v d.child e child' g' s'

  -- Pages below the node: the child's object was read from its page.
  pub lower_sizes :
      {e : Option Entry} {child' : Node} {g' : Ghost} {s' : Store}
      → Below e child' g' s'
      → (e' : Option Entry) (p h l u : ℕ) (np : NodePage) → h ≤ height
      → g'.role p ≡ tree h l u
      → s'.file p ≡ node_page np
      → Sized md g s (suc height) (node_id md n.off_set) n e' p h np
  unfolding node_of_page
  lower_sizes b e' p h l u np le r f = elim (b.sizes p h l u np le r f) [
    | filled_up x ↦ filled_up x
    | no_less l' u' old r' f' x _ ↦ no_less l' u' old r' f' x (λ q. absurd (omega arith))
    | got_more i j _ x ↦
        let same : d.child.off_set ≡ n.childs d.index = d.off_set in
        let (old, file, _) = sound.nodes child_page height _ _ (omega arith) d.at.role in
        let read =
          get_node-eq md g s (n.childs d.index) old (ap (value_idx md) (sym same) ∙ d.at.aligned)
            (ap (λ z. s.file (node_id md z)) (sym same) ∙ file) in
        let child : some (d.child, s) ≡ some (node_of_page old (n.childs d.index), s) =
          sym d.read ∙ read in
        let size : d.child.size ≡ old.size = ap read_size child in
        no_less (lower n.keys lo d.index) (upper n.keys n.size hi d.index) old
          (ap g.role i
            ∙ d.at.role
            ∙ ap (λ z. tree z (lower n.keys lo d.index) (upper n.keys n.size hi d.index)) (sym j))
          (ap s.file i ∙ file) (omega (arith, size)) (λ q. absurd (omega arith))
  ]
    where
      read_size : Option (Node × Store) → ℕ
      read_size none = 0
      read_size (some (m, s)) = m.size

  module _ {child' : Node} {g' : Ghost} {s' : Store} (b : Below none child' g' s') where
    level_kept :
        g'.role child_page ≡ tree height (lower n.keys lo d.index) (upper n.keys n.size hi d.index)
        → (p l u : ℕ) → g.role p ≡ tree height l u
        → g'.role p ≡ tree height l u
    level_kept r p l u e = elim (Bool-cases (p == child_page)) [
      | inl q ↦
          (let same : p ≡ child_page = ground arith in
            ap g'.role same ∙ r ∙ sym d.at.role ∙ ap g.role (sym same) ∙ e)
      | inr q ↦ b.level p l u (ground arith) e
    ]

    kept-IsInner :
        g'.role child_page ≡ tree height (lower n.keys lo d.index) (upper n.keys n.size hi d.index)
        → {l u : ℕ} {p : NodePage} → IsInner md g height l u p
        → IsInner md g' height l u p
    kept-IsInner r inner =
        IsInner-elsewhere md g g' inner
          (λ i h. level_kept r _ _ _ (inner.child i h) ∙ sym (inner.child i h))

    keep_nodes :
        g'.role child_page ≡ tree height (lower n.keys lo d.index) (upper n.keys n.size hi d.index)
        → AreNodes md g' s' (suc height)
    keep_nodes r p h l u le e = elim (Bool-cases (h == suc height)) [
      | inr q ↦ b.sound.nodes p h l u (ground arith) e
      | inl q ↦ top (ground arith)
    ]
      where
        top : h ≡ suc height → (np : NodePage) × (s'.file p ≡ node_page np) × IsNode md g' h l u np
        top same =
            let old : g.role p ≡ tree (suc height) l u =
              b.above_back p (suc height) l u (omega arith) (ground arith) in
            let (np, f, ok) = sound.nodes p (suc height) l u (omega arith) old in
            (
              np,
              (b.above p (suc height) l u (omega arith) old).1 ∙ f,
              subst (λ x. IsNode md g' x l u np) (sym same) (kept-IsInner r ok),
            )

    -- The child stayed whole: so does the node.
    pub whole-Inserted :
        Inserted md g s (suc height) (node_id md n.off_set) lo hi k v n none n g' s'
    whole-Inserted = elim b.outcome [
      | whole r child_node ↦ record {
        sound = record {
          allocated = b.sound.allocated;
          disjoint = b.sound.disjoint;
          ordered = b.sound.ordered;
          nodes = keep_nodes r;
        };
        above = λ p h l u lt e. b.above p h l u (omega arith) e;
        above_back = λ p h l u lt e. b.above_back p h l u (omega arith) e;
        level = λ p l u ne e. (b.above p (suc height) l u (omega arith) e).0;
        contents_lem = b.contents_lem;
        bounded = b.bounded;
        off_set = refl;
        sizes = λ p h l u np le r f. elim (Bool-cases (h == suc height)) [
          | inr q ↦ lower_sizes b none p h l u np (ground arith) r f
          | inl q ↦
              let old = b.above_back p h l u (ground arith) r in
              no_less l u np old (sym (b.above p h l u (ground arith) old).1 ∙ f) (omega arith)
                (λ _ _. refl)
        ];
        outcome = whole (b.above _ _ _ _ (omega arith) at.role).0 (kept-IsInner r at.node);
      }
    ]
