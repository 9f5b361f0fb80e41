-- ===== src/BPlus/Sound/Remove/LeafRoot.antt =====
-- The key leaves a root that is a leaf, pkg/storage/bplustree/BPlusTreeNode.cpp.
use godbee.Base.{
  ℕ, zero, suc, ◌≤◌, ◌<◌, ◌≡◌, ◌≢◌, refl, sym, ap, subst, ◌∙◌, inl, inr, none, some, arith, true,
  length, ◌==◌, if◌then◌else◌, Bool-cases,
}
use godbee.BPlus.Search.{Key, index_node_equal}
use godbee.BPlus.Offsets.{MetaData, node_id}
use godbee.BPlus.Store.{Node, NodePage, node_page, Store, to_node_page, flush_to_file}
use godbee.BPlus.Removal.{close_at, at_found, remove_left}
use godbee.BPlus.Sound.{Ghost, values, tree, as_page, IsLeaf, IsNode, IsAllocated, contents}
use godbee.BPlus.Sound.Copy.{SameNode-to_node_page, IsNode-same}
use godbee.BPlus.Sound.Flush.{
  flushed, flush_to_file-eq, flushed_self, flushed-other, flushed-IsAllocated, flushed-contents,
}
use godbee.BPlus.Sound.Insert.Leaf.{IsLeaf-elsewhere}
use godbee.BPlus.Sound.Remove.Value.{
  forget, released, forget-IsAllocated, forget-contents, forget-IsLeaf, remove_left_at-eq,
}
use godbee.BPlus.Sound.Remove.Leaf.{entry_of}
use godbee.BPlus.Sound.Remove.Root.{Rooted}

module _ (md : MetaData) (bound : ℕ) {n : Node} {s : Store} {g : Ghost}
    (rooted : Rooted md bound n s g 0) (key : Key) (lt : key < bound) (id : ℕ)
    (loc : g.loc key ≡ some id) where
  pub there :
      (j : ℕ) × (index_node_equal n.keys n.size key ≡ some j)
      × (j < n.size)
      × (n.keys j ≡ key)
      × (n.childs j ≡ id)
  there = entry_of md s n rooted.at.node key (omega arith, lt) id loc

  abbrev pub less : Node
  less = close_at md n there.0

  abbrev pub after : Ghost
  after = forget g key id (length s.del_values.list)

  abbrev pub wrote : Store
  wrote = flushed md (released s id) n.off_set (to_node_page less)

  no_values : after.role (node_id md n.off_set) ≢ values
  no_values e = ground (arith, rooted.at.role)

  allocated : IsAllocated md after (released s id)
  allocated = forget-IsAllocated md g s rooted.sound.allocated key id loc

  less-IsLeaf : IsLeaf md after 0 bound (as_page less)
  less-IsLeaf =
      forget-IsLeaf md g s rooted.sound.allocated key id loc 0 bound n rooted.at.node there.0
        there.2 there.3

  nodes :
      (p k x y : ℕ)
      → k ≤ 0
      → g.role p ≡ tree k x y
      → (np : NodePage) × (wrote.file p ≡ node_page np) × IsNode md after k x y np
  nodes p zero x y le q = elim (Bool-cases (p == node_id md n.off_set)) [
    | inl e ↦
        let same : tree 0 0 bound ≡ tree 0 x y =
          sym rooted.at.role ∙ ap g.role (sym (at_page e)) ∙ q in
        let whole = IsNode-same md after (SameNode-to_node_page less) 0 0 bound less-IsLeaf in
        let b : 0 ≡ x = ground arith in
        let d : bound ≡ y = ground arith in
        (
          to_node_page less,
          ap wrote.file (at_page e) ∙ flushed_self md (released s id) n.off_set (to_node_page less),
          subst (λ z. IsLeaf md after z y (to_node_page less)) b
              (subst (λ z. IsLeaf md after 0 z (to_node_page less)) d whole),
        )
    | inr e ↦
        let d : p ≢ node_id md n.off_set = λ z. ground arith in
        let (np, file, ok) = rooted.sound.nodes p 0 x y le q in
        (
          np,
          flushed-other md (released s id) n.off_set (to_node_page less) p d ∙ file,
          IsLeaf-elsewhere md g after key (λ j w. ground (arith, w))
              (λ w. d (
                rooted.sound.disjoint p (node_id md n.off_set) 0 x y 0 bound q rooted.at.role
                  (omega (arith, w, lt)) (omega (arith, w))))
              ok,
        )
  ]
    where
      at_page : (p == node_id md n.off_set) ≡ true → p ≡ node_id md n.off_set
      at_page e = ground arith
  nodes p (suc k) x y le q = absurd (omega arith)

  pub less-Rooted : Rooted md bound less wrote after 0
  unfolding close_at
  less-Rooted = record {
    sound = record {
      allocated =
          flushed-IsAllocated md after (released s id) allocated n.off_set (to_node_page less)
            no_values;
      disjoint = rooted.sound.disjoint;
      ordered = rooted.sound.ordered;
      nodes = nodes;
    };
    at = record { aligned = rooted.at.aligned; role = rooted.at.role; node = less-IsLeaf };
    is_top = rooted.is_top;
    full = λ p k x y h q. absurd (omega arith);
    bounded = rooted.bounded;
  }

  pub less-contents :
      (j : Key) → contents md after wrote j ≡ (if j == key then none else contents md g s j)
  less-contents j =
      flushed-contents md after (released s id) allocated n.off_set (to_node_page less) no_values j
      ∙ forget-contents md g s rooted.sound.allocated key id loc j

  pub remove_left-eq : remove_left md n key s ≡ some (less, released s id)
  unfolding remove_left at_found close_at
  remove_left-eq =
      rw
        (
          there.1,
          remove_left_at-eq md g s rooted.sound.allocated key id loc 0 bound n rooted.at.node
              there.0 there.2 there.3 there.4 rooted.at.node.flag,
        )
        refl

  pub flush-eq : flush_to_file md less (released s id) ≡ some (tt, wrote)
  unfolding close_at
  flush-eq = flush_to_file-eq md less (released s id) rooted.at.aligned
