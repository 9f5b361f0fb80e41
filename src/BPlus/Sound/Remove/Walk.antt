-- ===== src/BPlus/Sound/Remove/Walk.antt =====
-- `internalRemove` of pkg/storage/bplustree/BPlusTreeNode.cpp at a node under a father, on every path: a
-- missing key, a node with entries to spare, and one that gets entries from a sibling.
use godbee.Base.{
  ℕ, zero, suc, ◌+◌, ◌-◌, ◌≤◌, ◌<◌, ◌≡◌, ◌≢◌, refl, sym, ap, subst, ◌∙◌, ◌⊎◌, inl, inr, some, arith,
  Bool, true, false, ltb, ◌==◌, Bool-cases,
}
use godbee.BPlus.Search.{Key}
use godbee.BPlus.Offsets.{MetaData, IsConfig, node_id, value_idx}
use godbee.BPlus.Store.{
  leaf_node, internal_node, Node, NodePage, node_page, Store, node_of_page, to_node_page,
}
use godbee.BPlus.Removal.{is_leaf}
use godbee.BPlus.Tree.{child_at, or_this, after_remove, internal_remove}
use godbee.BPlus.Sound.{
  Ghost, tree, lower, upper, as_page, IsInner, IsNode, IsAllocated, IsDisjoint,
}
use godbee.BPlus.Sound.Copy.{SameNode-node_of_page, IsNode-same}
use godbee.BPlus.Sound.Weak.{IsInner-of_weak}
use godbee.BPlus.Sound.Flush.{flushed, flush_to_file-eq}
use godbee.BPlus.Sound.Get.{descend, get_node-eq}
use godbee.BPlus.Sound.Insert.Inner.{IsInner-elsewhere, lower_bound, upper_bound}
use godbee.BPlus.Sound.Remove.Repair.{AreFull, Ready, Repaired}
use godbee.BPlus.Sound.Remove.Siblings.{Sibling}
use godbee.BPlus.Sound.Remove.Redistribute.{redistribute_from_internal-Moves}
use godbee.BPlus.Sound.Remove.Gone.{IsFull, Entry, Removed, Unwritten, itself, write}
use godbee.BPlus.Sound.Remove.Leaf.{leaf_remove-Removed}

module _ (md : MetaData) where
  -- Child `q` of an inner node, read from the file.
  pub child_of :
      (g : Ghost) (s : Store) (h lo hi : ℕ) (n : Node)
      → IsInner md g h lo hi (as_page n)
      → IsFull md g s (suc h)
      → (q : ℕ) → q ≤ n.size
      → Sibling md g s h lo hi n q
  child_of g s h lo hi n inner full q le =
      let (np, file, ok, big) =
        full (node_id md (n.childs q)) h _ _ (omega arith) (inner.child q le) in
      record {
        node = node_of_page np (n.childs q);
        read = get_node-eq md g s (n.childs q) np (inner.aligned q le) file;
        off_set = unfold node_of_page in refl;
        is_node = IsNode-same md g (SameNode-node_of_page np (n.childs q)) h _ _ ok;
        big = unfold node_of_page in big;
      }

  -- The walk goes on at the child.
  pub entry_at :
      {g : Ghost} {s : Store} {h lo hi : ℕ} {n : Node} {q : ℕ} (r : Sibling md g s h lo hi n q)
      → IsAllocated md g s
      → IsDisjoint md g
      → ((p k x y : ℕ) → g.role p ≡ tree k x y → x < y)
      → IsFull md g s (suc h)
      → IsInner md g h lo hi (as_page n)
      → q ≤ n.size
      → Entry md g s h lo hi r.node n q
  entry_at r al disjoint ordered full inner le = record {
    allocated = al;
    disjoint = disjoint;
    ordered = ordered;
    full = full;
    father = inner;
    index = le;
    at = sym r.off_set;
    node = r.is_node;
    big = r.big;
  }

module _ (md : MetaData) {g : Ghost} {s : Store} {h lo hi : ℕ} {n : Node} {key : Key} {done : Bool}
    {child child' n₁ : Node} {g₁ : Ghost} {s₁ : Store} (disjoint : IsDisjoint md g)
    (role : g.role (node_id md n.off_set) ≡ tree (suc h) lo hi)
    (r : Removed md g s h lo hi child n key done child' n₁ g₁ s₁) where
  beside :
      (p x y : ℕ) → p ≢ node_id md n.off_set → g.role p ≡ tree (suc h) x y → (y ≤ lo) ⊎ (hi ≤ x)
  beside p x y d q = elim (Bool-cases (ltb lo y)) [
    | inr e ↦ inl (ground arith)
    | inl e ↦ elim (Bool-cases (ltb x hi)) [
      | inr e' ↦ inr (ground arith)
      | inl e' ↦ absurd (
          d (
            disjoint p (node_id md n.off_set) (suc h) x y lo hi q role (ground arith)
              (ground arith)))
    ]
  ]

  -- When a child of `n` is done, another node of its level is what it was.
  pub IsInner-beside :
      (p x y : ℕ)
      → p ≢ node_id md n.off_set
      → g.role p ≡ tree (suc h) x y
      → {np : NodePage} → IsInner md g h x y np
      → IsInner md g₁ h x y np
  IsInner-beside p x y d q ok =
      let out = beside p x y d q in
      IsInner-elsewhere md g g₁ ok (λ j le.
        r.level _ _ _ (ok.child j le) (elim out [
          | inl a ↦ inl (omega (arith, a, upper_bound md g ok j le))
          | inr a ↦ inr (omega (arith, a, lower_bound md g ok j le))
        ])
        ∙ sym (ok.child j le))

module _ (md : MetaData) (c : IsConfig md) {g : Ghost} {s : Store} {h flo fhi : ℕ} {n f : Node}
    {i : ℕ} (entry : Entry md g s (suc h) flo fhi n f i) (key : Key) where
  abbrev lo : ℕ
  lo = lower f.keys flo i

  abbrev hi : ℕ
  hi = upper f.keys f.size fhi i

  role : g.role (node_id md n.off_set) ≡ tree (suc h) lo hi
  role = ap (λ z. g.role (node_id md z)) (sym entry.at) ∙ entry.father.child i entry.index

  -- The child is done.
  module _ {done : Bool} {child child' n₁ : Node} {g₁ : Ghost} {s₁ : Store}
      (r : Removed md g s h lo hi child n key done child' n₁ g₁ s₁) where
    -- Other nodes of the level keep their children.
    same_level :
        (p x y : ℕ)
        → p ≢ node_id md n.off_set
        → g.role p ≡ tree (suc h) x y
        → (np : NodePage) × (s₁.file p ≡ node_page np)
          × IsNode md g₁ (suc h) x y np
          × (md.max_degree ≤ np.size + 1)
    same_level p x y d q =
        let (np, file, ok, big) = entry.full p (suc h) x y (omega arith) q in
        (
          np,
          (r.above p (suc h) x y (omega arith) q).1 ∙ file,
          IsInner-beside md entry.disjoint role r p x y d q ok,
          big,
        )

    full₁ : AreFull md g₁ s₁ (suc h) (node_id md n₁.off_set)
    full₁ p k x y le d q = elim (Bool-cases (k == suc h)) [
      | inr e ↦ r.full p k x y (ground arith) q
      | inl e ↦
          let same : suc h ≡ k = ground arith in
          subst
            (λ z.
              (np : NodePage) × (s₁.file p ≡ node_page np)
              × IsNode md g₁ z x y np
              × (md.max_degree ≤ np.size + 1))
            same
            (same_level p x y (λ z. d (z ∙ ap (node_id md) (sym r.off_set.1)))
              (r.above_back p (suc h) x y (omega arith) (q ∙ ap (λ z. tree z x y) (sym same))))
    ]

    ready₁ : Ready md g₁ s₁ (suc h) flo fhi n₁ f i
    ready₁ = record {
      allocated = r.allocated;
      disjoint = r.disjoint;
      ordered = r.ordered;
      full = full₁;
      father = IsInner-elsewhere md g g₁ entry.father (λ j le.
          (r.above _ _ _ _ (omega arith) (entry.father.child j le)).0
          ∙ sym (entry.father.child j le));
      index = entry.index;
      at = entry.at ∙ sym r.off_set.1;
      node = r.father;
    }

    -- And `this` has what it needs.
    module _ {gain : ℕ} {n₂ f₂ : Node} {g₂ : Ghost} {s₂ : Store}
        (ok : Repaired md gain g₁ s₁ (suc h) flo fhi n₁ f lo hi n₂ f₂ g₂ s₂)
        (big : md.max_degree ≤ n₂.size + 1) (quiet : done ≡ false → f₂.size ≡ f.size) where
      both : Unwritten md g s (suc h) flo fhi n f key done n₂ f₂ g₂ s₂
      both = record {
        allocated = ok.allocated;
        disjoint = ok.disjoint;
        ordered = ok.ordered;
        full = subst (AreFull md g₂ s₂ (suc h)) (ap (node_id md) (sym ok.off_set.0)) ok.full;
        father = ok.father;
        father_size = ok.father_size;
        off_set = (ok.off_set.0 ∙ r.off_set.1, ok.off_set.1);
        only = ok.only;
        lo = ok.new_lo;
        hi = ok.new_hi;
        role = ap (λ z. g₂.role (node_id md z)) ok.off_set.0 ∙ ok.role;
        node = ok.node;
        big = big;
        above = λ p k x y lt q.
            let a = r.above p k x y (omega arith) q in
            let b = ok.above p k x y lt a.0 in (b.0, b.1 ∙ a.1);
        above_back =
            λ p k x y lt q. r.above_back p k x y (omega arith) (ok.above_back p k x y lt q);
        level = λ p x y q out. ok.level p x y (r.above p (suc h) x y (omega arith) q).0 out;
        bounded = λ z w. ok.bounded z (r.bounded z w);
        contents_lem = λ j. ok.contents_lem j ∙ r.contents_lem j;
        result = r.result;
        quiet = quiet;
      }

      aligned₂ : value_idx md n₂.off_set ≡ 0
      aligned₂ =
          ap (value_idx md) (ok.off_set.0 ∙ r.off_set.1 ∙ sym entry.at)
          ∙ entry.father.aligned i entry.index

    pub after_remove-Removed :
        (n' : Node) × (f' : Node) × (g' : Ghost) × (s' : Store) × (after_remove md n₁
            (some f)
            i
            child'
            done
            s₁
          ≡ some ((done, n', some f'), s'))
        × Removed md g s (suc h) flo fhi n f key done n' f' g' s'
    unfolding after_remove
    after_remove-Removed = elim (Bool-cases (ltb n₁.size (md.max_degree - 1))) [
      | inl e ↦
          let (n₂, f₂, g₂, s₂, move, ok) =
            redistribute_from_internal-Moves md c g₁ s₁ h flo fhi n₁ f i ready₁
              (ground (arith, c.degree)) in
          let big : md.max_degree ≤ n₂.size + 1 =
            omega (arith, ok.size, r.father_size, entry.big) in
          let quiet : done ≡ false → f₂.size ≡ f.size =
            λ z. absurd (ground (arith, r.quiet z, entry.big, c.degree)) in
          (
            n₂,
            f₂,
            g₂,
            flushed md s₂ n₂.off_set (to_node_page n₂),
            rw (e, move, flush_to_file-eq md n₂ s₂ (aligned₂ ok big quiet)) refl,
            write md (both ok big quiet),
          )
      | inr e ↦
          let big : md.max_degree ≤ n₁.size + 1 = ground (arith, c.degree) in
          let ok =
            itself md ready₁ (IsInner-of_weak md g₁ (omega (arith, big, c.degree)) r.father) in
          (
            n₁,
            f,
            g₁,
            flushed md s₁ n₁.off_set (to_node_page n₁),
            rw (e, flush_to_file-eq md n₁ s₁ (aligned₂ ok big (λ z. refl))) refl,
            write md (both ok big (λ z. refl)),
          )
    ]

pub leaf_flag : is_leaf leaf_node ≡ true
unfolding is_leaf
leaf_flag = refl

pub inner_flag : is_leaf internal_node ≡ false
unfolding is_leaf
inner_flag = refl

module _ (md : MetaData) (c : IsConfig md) (key : Key) where
  -- At a node under a father, with more fuel than the node is high, `internalRemove` returns, whether
  -- the key was there; the key is gone, and the nodes are as full as they have to be.
  pub internal_remove-Removed :
      (h fuel : ℕ) {g : Ghost} {s : Store} {flo fhi : ℕ} {n f : Node} {i : ℕ}
      (entry : Entry md g s h flo fhi n f i)
      → (lower f.keys flo i ≤ key) × (key < upper f.keys f.size fhi i)
      → h < fuel
      → (done : Bool) × (n' : Node) × (f' : Node) × (g' : Ghost) × (s' : Store) × (internal_remove
            md fuel n
            (some f)
            i
            key
            s
          ≡ some ((done, n', some f'), s'))
        × Removed md g s h flo fhi n f key done n' f' g' s'
  unfolding internal_remove child_at or_this
  internal_remove-Removed h zero entry within lt = absurd (omega arith)
  internal_remove-Removed zero (suc fuel) {n} entry within lt =
      let (done, n', f', g', s', run, r) = leaf_remove-Removed md c entry key within in
      let leaf : is_leaf n.flag ≡ true = ap is_leaf entry.node.flag ∙ leaf_flag in
      (done, n', f', g', s', rw leaf run, r)
  internal_remove-Removed (suc h) (suc fuel) {g} {s} {n} entry within lt =
      let below : IsFull md g s (suc h) = λ p k x y le q. entry.full p k x y (omega arith) q in
      let d =
        descend md g s n entry.node key within
          (λ p k x y le q. (let w = entry.full p k x y (omega arith) q in (w.0, w.1, w.2))) in
      let q = child_of md g s h _ _ n entry.node below d.index d.in_range in
      let (done, child', n₁, g₁, s₁, run, r) =
        internal_remove-Removed h fuel
          (entry_at md q entry.allocated entry.disjoint entry.ordered below entry.node d.in_range)
          (d.low, d.high) (omega arith) in
      let (n', f', g', s', run', r') = after_remove-Removed md c entry key r in
      let inner : is_leaf n.flag ≡ false = ap is_leaf entry.node.flag ∙ inner_flag in
      (done, n', f', g', s', rw (inner, d.found, q.read, run) run', r')
