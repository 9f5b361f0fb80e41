-- ===== src/BPlus/Sound/Remove/Gone.antt =====
-- What a removal at a node under a father takes and gives.
use godbee.Base.{
  ℕ, zero, suc, ◌+◌, ◌≤◌, ◌<◌, ◌≡◌, ◌≢◌, refl, sym, ap, subst, ◌∙◌, ◌⊎◌, inl, inr, none, arith,
  Bool, false, is_some, ◌==◌, if◌then◌else◌, Bool-cases,
}
use godbee.BPlus.Search.{Key}
use godbee.BPlus.Offsets.{MetaData, node_id}
use godbee.BPlus.Store.{Node, NodePage, node_page, Store, to_node_page}
use godbee.BPlus.Sound.{
  Ghost, AreBounded, values, tree, lower, upper, as_page, IsInner, IsNode, IsAllocated, IsDisjoint,
  contents,
}
use godbee.BPlus.Sound.Copy.{SameNode-to_node_page, IsNode-same}
use godbee.BPlus.Sound.Flush.{
  flushed, flushed_self, flushed-other, flushed-IsAllocated, flushed-contents,
}
use godbee.BPlus.Sound.Weak.{IsWeak, IsWeak-of_inner}
use godbee.BPlus.Sound.Remove.Repair.{IsShape, AreFull, Ready, Repaired}

module _ (md : MetaData) where
  -- Every node below a height is what its role says, and has as many entries as it must.
  abbrev pub IsFull : Ghost → Store → ℕ → Type 0
  IsFull g s h =
      (p k x y : ℕ)
      → k < h
      → g.role p ≡ tree k x y
      → (np : NodePage) × (s.file p ≡ node_page np)
        × IsNode md g k x y np
        × (md.max_degree ≤ np.size + 1)

  -- The node `n`, child `i` of `f`, before the removal.
  pub record Entry (g : Ghost) (s : Store) (h flo fhi : ℕ) (n f : Node) (i : ℕ) : Type 0 where
    pub allocated : IsAllocated md g s
    pub disjoint : IsDisjoint md g
    pub ordered : (p k x y : ℕ) → g.role p ≡ tree k x y → x < y
    pub full : IsFull g s (suc h)
    pub father : IsInner md g h flo fhi (as_page f)
    pub index : i ≤ f.size
    pub at : f.childs i ≡ n.off_set
    pub node : IsNode md g h (lower f.keys flo i) (upper f.keys f.size fhi i) (as_page n)
    pub big : md.max_degree ≤ n.size + 1

  IsShape-of :
      (g : Ghost) (h lo hi : ℕ) (p : NodePage) → IsNode md g h lo hi p → IsShape md g h lo hi p
  IsShape-of g zero lo hi p l = l
  IsShape-of g (suc h) lo hi p l = IsWeak-of_inner md g l

  -- After it, when `n` has been written.
  pub record Removed (g : Ghost) (s : Store) (h flo fhi : ℕ) (n f : Node) (key : Key) (done : Bool)
      (n' f' : Node) (g' : Ghost) (s' : Store) : Type 0 where
    pub allocated : IsAllocated md g' s'
    pub disjoint : IsDisjoint md g'
    pub ordered : (p k x y : ℕ) → g'.role p ≡ tree k x y → x < y
    pub full : IsFull g' s' (suc h)
    pub father : IsWeak md g' h flo fhi (as_page f')
    pub father_size : f.size ≤ f'.size + 1
    pub off_set : (n'.off_set ≡ n.off_set) × (f'.off_set ≡ f.off_set)
    pub only : f'.size ≡ 0 → f'.childs 0 ≡ n'.off_set
    pub above :
        (p k x y : ℕ)
        → h < k
        → g.role p ≡ tree k x y
        → (g'.role p ≡ tree k x y) × (s'.file p ≡ s.file p)
    pub above_back : (p k x y : ℕ) → h < k → g'.role p ≡ tree k x y → g.role p ≡ tree k x y
    pub level : (p x y : ℕ) → g.role p ≡ tree h x y → (y ≤ flo) ⊎ (fhi ≤ x) → g'.role p ≡ tree h x y
    pub bounded : (bound : ℕ) → AreBounded g bound → AreBounded g' bound
    pub contents_lem :
        (j : Key) → contents md g' s' j ≡ (if j == key then none else contents md g s j)
    pub result : done ≡ is_some (contents md g s key)
    -- without the key the father is as it was
    pub quiet : done ≡ false → f'.size ≡ f.size

  -- The same while `n` is in memory only.
  pub record Unwritten (g : Ghost) (s : Store) (h flo fhi : ℕ) (n f : Node) (key : Key)
      (done : Bool) (n' f' : Node) (g' : Ghost) (s' : Store) : Type 0 where
    pub allocated : IsAllocated md g' s'
    pub disjoint : IsDisjoint md g'
    pub ordered : (p k x y : ℕ) → g'.role p ≡ tree k x y → x < y
    pub full : AreFull md g' s' h (node_id md n'.off_set)
    pub father : IsWeak md g' h flo fhi (as_page f')
    pub father_size : f.size ≤ f'.size + 1
    pub off_set : (n'.off_set ≡ n.off_set) × (f'.off_set ≡ f.off_set)
    pub only : f'.size ≡ 0 → f'.childs 0 ≡ n'.off_set
    pub lo : ℕ
    pub hi : ℕ
    pub role : g'.role (node_id md n'.off_set) ≡ tree h lo hi
    pub node : IsNode md g' h lo hi (as_page n')
    pub big : md.max_degree ≤ n'.size + 1
    pub above :
        (p k x y : ℕ)
        → h < k
        → g.role p ≡ tree k x y
        → (g'.role p ≡ tree k x y) × (s'.file p ≡ s.file p)
    pub above_back : (p k x y : ℕ) → h < k → g'.role p ≡ tree k x y → g.role p ≡ tree k x y
    pub level : (p x y : ℕ) → g.role p ≡ tree h x y → (y ≤ flo) ⊎ (fhi ≤ x) → g'.role p ≡ tree h x y
    pub bounded : (bound : ℕ) → AreBounded g bound → AreBounded g' bound
    pub contents_lem :
        (j : Key) → contents md g' s' j ≡ (if j == key then none else contents md g s j)
    pub result : done ≡ is_some (contents md g s key)
    -- without the key the father is as it was
    pub quiet : done ≡ false → f'.size ≡ f.size

  module _ {g : Ghost} {s : Store} {h flo fhi : ℕ} {n f : Node} {i : ℕ}
      (e : Entry g s h flo fhi n f i) where
    pub Ready-of : Ready md g s h flo fhi n f i
    Ready-of = record {
      allocated = e.allocated;
      disjoint = e.disjoint;
      ordered = e.ordered;
      full = λ p k x y le d r. e.full p k x y (omega arith) r;
      father = e.father;
      index = e.index;
      at = e.at;
      node = IsShape-of g h _ _ (as_page n) e.node;
    }

    -- The key is not there, and nothing happens.
    pub nothing_gone :
        (key : Key) → contents md g s key ≡ none → Removed g s h flo fhi n f key false n f g s
    nothing_gone key absent = record {
      allocated = e.allocated;
      disjoint = e.disjoint;
      ordered = e.ordered;
      full = e.full;
      father = IsWeak-of_inner md g e.father;
      father_size = omega arith;
      off_set = (refl, refl);
      only = λ z. absurd (omega (arith, e.father.nonempty));
      above = λ p k x y lt r. (r, refl);
      above_back = λ p k x y lt r. r;
      level = λ p x y r out. r;
      bounded = λ z w. w;
      contents_lem = λ j. ground (arith, absent, ap (contents md g s));
      result = rw absent refl;
      quiet = λ z. refl;
    }

  -- A node with entries to spare is as it has to be.
  pub itself :
      {g : Ghost} {s : Store} {h flo fhi : ℕ} {n f : Node} {i : ℕ}
      → Ready md g s h flo fhi n f i
      → IsNode md g h (lower f.keys flo i) (upper f.keys f.size fhi i) (as_page n)
      → Repaired md 0 g s h flo fhi n f (lower f.keys flo i) (upper f.keys f.size fhi i) n f g s
  itself {g} {s} {h} {flo} {fhi} {n} {f} {i} ready node = record {
    allocated = ready.allocated;
    disjoint = ready.disjoint;
    ordered = ready.ordered;
    full = ready.full;
    father = IsWeak-of_inner md g ready.father;
    father_size = omega arith;
    off_set = (refl, refl);
    new_lo = lower f.keys flo i;
    new_hi = upper f.keys f.size fhi i;
    wider = (omega arith, omega arith);
    role = ap (λ z. g.role (node_id md z)) (sym ready.at) ∙ ready.father.child i ready.index;
    node = node;
    size = omega arith;
    only = λ z. absurd (omega (arith, ready.father.nonempty));
    above = λ p k x y lt q. (q, refl);
    above_back = λ p k x y lt q. q;
    level = λ p x y q out. q;
    bounded = λ z w. w;
    loc = λ k. refl;
    contents_lem = λ k. refl;
  }

  module _ {g : Ghost} {s : Store} {h flo fhi : ℕ} {n f : Node} {key : Key} {done : Bool}
      {n' f' : Node} {g' : Ghost} {s' : Store}
      (u : Unwritten g s h flo fhi n f key done n' f' g' s') where
    abbrev pub wrote : Store
    wrote = flushed md s' n'.off_set (to_node_page n')

    no_values : g'.role (node_id md n'.off_set) ≢ values
    no_values e = ground (arith, u.role)

    here :
        (p k x y : ℕ)
        → p ≡ node_id md n'.off_set
        → g'.role p ≡ tree k x y
        → (np : NodePage) × (wrote.file p ≡ node_page np)
          × IsNode md g' k x y np
          × (md.max_degree ≤ np.size + 1)
    unfolding to_node_page
    here p k x y e r =
        let same : tree h u.lo u.hi ≡ tree k x y = sym u.role ∙ ap g'.role (sym e) ∙ r in
        let page = IsNode-same md g' (SameNode-to_node_page n') h u.lo u.hi u.node in
        let a : h ≡ k = ground arith in
        let b : u.lo ≡ x = ground arith in
        let c : u.hi ≡ y = ground arith in
        (
          to_node_page n',
          ap wrote.file e ∙ flushed_self md s' n'.off_set (to_node_page n'),
          subst (λ z. IsNode md g' z x y (to_node_page n')) a
              (subst (λ z. IsNode md g' h z y (to_node_page n')) b
                (subst (λ z. IsNode md g' h u.lo z (to_node_page n')) c page)),
          u.big,
        )

    -- `flushToFile` ends the removal at the node.
    pub write : Removed g s h flo fhi n f key done n' f' g' wrote
    write = record {
      allocated = flushed-IsAllocated md g' s' u.allocated n'.off_set (to_node_page n') no_values;
      disjoint = u.disjoint;
      ordered = u.ordered;
      full = λ p k x y lt r. elim (Bool-cases (p == node_id md n'.off_set)) [
        | inl e ↦ here p k x y (ground arith) r
        | inr e ↦
            let d : p ≢ node_id md n'.off_set = λ z. ground arith in
            let (np, file, ok, big) = u.full p k x y (omega arith) d r in
            (np, flushed-other md s' n'.off_set (to_node_page n') p d ∙ file, ok, big)
      ];
      father = u.father;
      father_size = u.father_size;
      off_set = u.off_set;
      only = u.only;
      above = λ p k x y lt r.
          let w = u.above p k x y lt r in
          (
            w.0,
            flushed-other md s' n'.off_set (to_node_page n') p
                  (λ z. ground (arith, ap g'.role z, w.0, u.role))
                ∙ w.1,
          );
      above_back = u.above_back;
      level = u.level;
      bounded = u.bounded;
      contents_lem = λ j.
          flushed-contents md g' s' u.allocated n'.off_set (to_node_page n') no_values j
          ∙ u.contents_lem j;
      result = u.result;
      quiet = u.quiet;
    }
