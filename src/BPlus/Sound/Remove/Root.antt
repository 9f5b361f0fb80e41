-- ===== src/BPlus/Sound/Remove/Root.antt =====
-- The root of the tree in a removal, pkg/storage/bplustree/BPlusTreeNode.cpp: it has no father and may
-- have few entries; an inner root without any gives its place to its child.
use godbee.Base.{
  ℕ, suc, ◌≤◌, ◌<◌, ◌≡◌, ◌≢◌, sym, ap, subst, ◌∙◌, inl, inr, none, arith, Bool, ltb, ◌==◌,
  if◌then◌else◌, Bool-cases,
}
use godbee.BPlus.Search.{Key}
use godbee.BPlus.Offsets.{MetaData, IsConfig, node_id, value_idx}
use godbee.BPlus.Store.{Node, NodePage, node_page, Store, to_node_page}
use godbee.BPlus.Removal.{clear_childs}
use godbee.BPlus.Sound.{
  Ghost, AreBounded, values, tree, as_page, IsNode, IsAllocated, IsSound, contents,
}
use godbee.BPlus.Sound.Copy.{SameNode-to_node_page, IsNode-same}
use godbee.BPlus.Sound.Weak.{IsInner-of_weak}
use godbee.BPlus.Sound.Flush.{
  flushed, flushed_self, flushed-other, flushed-IsAllocated, flushed-contents,
}
use godbee.BPlus.Sound.Get.{IsAt}
use godbee.BPlus.Sound.Grow.{IsTop}
use godbee.BPlus.Sound.Remove.Gone.{IsFull, Removed}
use godbee.BPlus.Sound.Remove.Walk.{IsInner-beside}

-- A root object over a sound store, with full nodes below it.
pub record Rooted (md : MetaData) (bound : ℕ) (root : Node) (s : Store) (g : Ghost) (height : ℕ)
    : Type 0 where
  pub sound : IsSound md g s height
  pub at : IsAt md g s height 0 bound root
  pub is_top : IsTop g height
  pub full : IsFull md g s height
  pub bounded : AreBounded g bound

module _ (md : MetaData) (bound : ℕ) {root : Node} {s : Store} {g : Ghost} where
  -- A leaf without entries, when its children have been set to NULL.
  pub cleared-Rooted :
      Rooted md bound root s g 0 → root.size ≡ 0 → Rooted md bound (clear_childs md root) s g 0
  unfolding clear_childs
  cleared-Rooted r e = record {
    sound = r.sound;
    at = record {
      aligned = r.at.aligned;
      role = r.at.role;
      node = record {
        flag = r.at.node.flag;
        room = omega (arith, r.at.node.room);
        ascending = λ i j x y. absurd (omega arith);
        within = λ i x. absurd (omega arith);
        located = λ i x. absurd (omega arith);
        complete = λ k x y absent. r.at.node.complete k x y (λ i lt. absurd (omega (arith, e)));
      };
    };
    is_top = r.is_top;
    full = r.full;
    bounded = r.bounded;
  }

-- An inner root when its child is done.
module _ (md : MetaData) (c : IsConfig md) (bound : ℕ) {n : Node} {s : Store} {g : Ghost} {h : ℕ}
    (rooted : Rooted md bound n s g (suc h)) {key : Key} {done : Bool} {child child' n₁ : Node}
    {g₁ : Ghost} {s₁ : Store} (r : Removed md g s h 0 bound child n key done child' n₁ g₁ s₁) where
  abbrev pub page : ℕ
  page = node_id md n₁.off_set

  pub role₁ : g₁.role page ≡ tree (suc h) 0 bound
  role₁ =
      ap (λ z. g₁.role (node_id md z)) r.off_set.1
      ∙ (r.above (node_id md n.off_set) (suc h) 0 bound (omega arith) rooted.at.role).0

  pub no_values : g₁.role page ≢ values
  no_values e = ground (arith, role₁)

  pub aligned₁ : value_idx md n₁.off_set ≡ 0
  aligned₁ = ap (value_idx md) r.off_set.1 ∙ rooted.at.aligned

  pub top₁ : IsTop g₁ (suc h)
  top₁ p k x y q = elim (Bool-cases (ltb (suc h) k)) [
    | inl e ↦ absurd (ground (arith, rooted.is_top p k x y (r.above_back p k x y (ground arith) q)))
    | inr e ↦ ground arith
  ]

  -- Any page written as the root's.
  module _ (np : NodePage) where
    abbrev s₂ : Store
    s₂ = flushed md s₁ n₁.off_set np

    pub allocated₂ : IsAllocated md g₁ s₂
    allocated₂ = flushed-IsAllocated md g₁ s₁ r.allocated n₁.off_set np no_values

    file₂ : (p k x y : ℕ) → k ≤ h → g₁.role p ≡ tree k x y → s₂.file p ≡ s₁.file p
    file₂ p k x y le q =
        flushed-other md s₁ n₁.off_set np p (λ z. ground (arith, ap g₁.role z, role₁))

    pub full₂ : IsFull md g₁ s₂ (suc h)
    full₂ p k x y lt q =
        let (page, file, ok, big) = r.full p k x y lt q in
        (page, file₂ p k x y (omega arith) q ∙ file, ok, big)

    pub contents₂ : (j : Key) → contents md g₁ s₂ j ≡ (if j == key then none else contents md g s j)
    contents₂ j = flushed-contents md g₁ s₁ r.allocated n₁.off_set np no_values j ∙ r.contents_lem j

  -- It still has an entry.
  module _ (some_entry : 0 < n₁.size) where
    abbrev pub kept : Store
    kept = flushed md s₁ n₁.off_set (to_node_page n₁)

    node₁ : IsNode md g₁ (suc h) 0 bound (as_page n₁)
    node₁ = IsInner-of_weak md g₁ some_entry r.father

    at_root :
        (p k x y : ℕ)
        → p ≡ page
        → g₁.role p ≡ tree k x y
        → (np : NodePage) × (kept.file p ≡ node_page np) × IsNode md g₁ k x y np
    at_root p k x y e q =
        let same : tree (suc h) 0 bound ≡ tree k x y = sym role₁ ∙ ap g₁.role (sym e) ∙ q in
        let whole = IsNode-same md g₁ (SameNode-to_node_page n₁) (suc h) 0 bound node₁ in
        let a : suc h ≡ k = ground arith in
        let b : 0 ≡ x = ground arith in
        let d : bound ≡ y = ground arith in
        (
          to_node_page n₁,
          ap kept.file e ∙ flushed_self md s₁ n₁.off_set (to_node_page n₁),
          subst (λ z. IsNode md g₁ z x y (to_node_page n₁)) a
              (subst (λ z. IsNode md g₁ (suc h) z y (to_node_page n₁)) b
                (subst (λ z. IsNode md g₁ (suc h) 0 z (to_node_page n₁)) d whole)),
        )

    beside_root :
        (p x y : ℕ)
        → p ≢ page
        → g₁.role p ≡ tree (suc h) x y
        → (np : NodePage) × (kept.file p ≡ node_page np) × IsNode md g₁ (suc h) x y np
    beside_root p x y d q =
        let old = r.above_back p (suc h) x y (omega arith) q in
        let (np, file, ok) = rooted.sound.nodes p (suc h) x y (omega arith) old in
        (
          np,
          flushed-other md s₁ n₁.off_set (to_node_page n₁) p d
              ∙ (r.above p (suc h) x y (omega arith) old).1
              ∙ file,
          IsInner-beside md rooted.sound.disjoint rooted.at.role r p x y
              (λ z. d (z ∙ ap (node_id md) (sym r.off_set.1))) old ok,
        )

    pub kept-Rooted : Rooted md bound n₁ kept g₁ (suc h)
    kept-Rooted = record {
      sound = record {
        allocated = allocated₂ (to_node_page n₁);
        disjoint = r.disjoint;
        ordered = r.ordered;
        nodes = λ p k x y le q. elim (Bool-cases (p == page)) [
          | inl e ↦ at_root p k x y (ground arith) q
          | inr e ↦ elim (Bool-cases (k == suc h)) [
            | inl e' ↦
                let same : suc h ≡ k = ground arith in
                subst (λ z. (np : NodePage) × (kept.file p ≡ node_page np) × IsNode md g₁ z x y np)
                  same (beside_root p x y (λ z. ground arith) (q ∙ ap (λ z. tree z x y) (sym same)))
            | inr e' ↦ let w = full₂ (to_node_page n₁) p k x y (ground arith) q in (w.0, w.1, w.2)
          ]
        ];
      };
      at = record { aligned = aligned₁; role = role₁; node = node₁ };
      is_top = top₁;
      full = full₂ (to_node_page n₁);
      bounded = r.bounded bound rooted.bounded;
    }

    pub kept-contents :
        (j : Key) → contents md g₁ kept j ≡ (if j == key then none else contents md g s j)
    kept-contents = contents₂ (to_node_page n₁)
