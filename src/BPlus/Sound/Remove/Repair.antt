-- ===== src/BPlus/Sound/Remove/Repair.antt =====
-- A node with too few entries, its father and one of its siblings: what a rotation and a merge have to
-- do to the objects.
use godbee.Base.{
  ℕ, zero, suc, ◌+◌, ◌≤◌, ◌<◌, ◌≡◌, ◌≢◌, sym, ap, subst, ◌∙◌, ◌⊎◌, inl, inr, arith, some,
}
use godbee.BPlus.Search.{Key}
use godbee.BPlus.Offsets.{MetaData, IsConfig, node_id}
use godbee.BPlus.Store.{Node, NodePage, node_page, Store, M}
use godbee.BPlus.Sound.{
  Ghost, AreBounded, Role, tree, lower, upper, as_page, IsLeaf, IsInner, IsNode, IsAllocated,
  IsDisjoint, contents,
}
use godbee.BPlus.Sound.Weak.{IsWeak, lower_if}
use godbee.BPlus.Sound.Insert.Inner.{IsInner-elsewhere, lower_bound, upper_bound}
use godbee.BPlus.Sound.Remove.{Regrouped, Regrouped-ordered, Regrouped-disjoint}

module _ (md : MetaData) where
  -- A node that may have lost its last entry.
  abbrev pub IsShape : Ghost → ℕ → ℕ → ℕ → NodePage → Type 0
  IsShape g zero lo hi p = IsLeaf md g lo hi p
  IsShape g (suc h) lo hi p = IsWeak md g h lo hi p

  -- Every node up to a height, but the one at page `out`, is what its role says, and has as many
  -- entries as a node under the root must have.
  abbrev pub AreFull : Ghost → Store → ℕ → ℕ → Type 0
  AreFull g s h out =
      (p k x y : ℕ)
      → k ≤ h
      → p ≢ out
      → g.role p ≡ tree k x y
      → (np : NodePage) × (s.file p ≡ node_page np)
        × IsNode md g k x y np
        × (md.max_degree ≤ np.size + 1)

  -- The object `n`, child `i` of `f`, before it is repaired.
  pub record Ready (g : Ghost) (s : Store) (h flo fhi : ℕ) (n f : Node) (i : ℕ) : Type 0 where
    pub allocated : IsAllocated md g s
    pub disjoint : IsDisjoint md g
    pub ordered : (p k x y : ℕ) → g.role p ≡ tree k x y → x < y
    pub full : AreFull g s h (node_id md n.off_set)
    pub father : IsInner md g h flo fhi (as_page f)
    pub index : i ≤ f.size
    pub at : f.childs i ≡ n.off_set
    pub node : IsShape g h (lower f.keys flo i) (upper f.keys f.size fhi i) (as_page n)

  -- The object `n'` has `gain` entries more, and nothing else is lost.
  pub record Repaired (gain : ℕ) (g : Ghost) (s : Store) (h flo fhi : ℕ) (n f : Node) (lo hi : ℕ)
      (n' f' : Node) (g' : Ghost) (s' : Store) : Type 0 where
    pub allocated : IsAllocated md g' s'
    pub disjoint : IsDisjoint md g'
    pub ordered : (p k x y : ℕ) → g'.role p ≡ tree k x y → x < y
    pub full : AreFull g' s' h (node_id md n.off_set)
    pub father : IsWeak md g' h flo fhi (as_page f')
    pub father_size : f.size ≤ f'.size + 1
    pub off_set : (n'.off_set ≡ n.off_set) × (f'.off_set ≡ f.off_set)
    pub new_lo : ℕ
    pub new_hi : ℕ
    pub wider : (new_lo ≤ lo) × (hi ≤ new_hi)
    pub role : g'.role (node_id md n.off_set) ≡ tree h new_lo new_hi
    pub node : IsNode md g' h new_lo new_hi (as_page n')
    pub size : n.size + gain ≤ n'.size
    pub only : f'.size ≡ 0 → f'.childs 0 ≡ n'.off_set
    pub above :
        (p k x y : ℕ)
        → h < k
        → g.role p ≡ tree k x y
        → (g'.role p ≡ tree k x y) × (s'.file p ≡ s.file p)
    pub above_back : (p k x y : ℕ) → h < k → g'.role p ≡ tree k x y → g.role p ≡ tree k x y
    pub level : (p x y : ℕ) → g.role p ≡ tree h x y → (y ≤ flo) ⊎ (fhi ≤ x) → g'.role p ≡ tree h x y
    pub bounded : (bound : ℕ) → AreBounded g bound → AreBounded g' bound
    pub loc : (k : Key) → g'.loc k ≡ g.loc k
    pub contents_lem : (k : Key) → contents md g' s' k ≡ contents md g s k

  -- A move between siblings returns, and its node, the father and the store are repaired.
  abbrev pub Moves :
      (g : Ghost) (s : Store) (h flo fhi : ℕ) (n f : Node) (i : ℕ) → M (Node × Node) → Type 0
  Moves g s h flo fhi n f i op =
      (n' : Node) × (f' : Node) × (g' : Ghost) × (s' : Store) × (op s ≡ some ((n', f'), s'))
      × Repaired 1 g s h flo fhi n f (lower f.keys flo i) (upper f.keys f.size fhi i) n' f' g' s'

  -- Nodes below the siblings are the same in the new ghost, and so are the siblings' pages.
  pub IsNode-Regrouped :
      (g g' : Ghost) {h l u a b : ℕ}
      → Regrouped g h l u a b g'
      → (x y x' y' : ℕ) → g.role a ≡ tree h x y
      → g.role b ≡ tree h x' y'
      → (k lo hi : ℕ) (p : NodePage) → k ≤ h
      → IsNode md g k lo hi p
      → IsNode md g' k lo hi p
  IsNode-Regrouped g g' re x y x' y' ra rb zero lo hi p le l = record {
    flag = l.flag;
    room = l.room;
    ascending = l.ascending;
    within = l.within;
    located = λ i q. re.loc (p.keys i) ∙ l.located i q;
    complete = λ k v w absent. re.loc k ∙ l.complete k v w absent;
  }
  IsNode-Regrouped g g' re x y x' y' ra rb (suc k) lo hi p le l =
      IsInner-elsewhere md g g' l (λ i q.
        re.kept _ _ _ _ (λ e. ground (arith, l.child i q, ra))
          (λ e. ground (arith, l.child i q, rb)) (l.child i q)
        ∙ sym (l.child i q))

module _ (md : MetaData) (c : IsConfig md) (g : Ghost) (s : Store) (h flo fhi : ℕ) (n f : Node)
    (i : ℕ) (ready : Ready md g s h flo fhi n f i) (j : ℕ) (inside : j < f.size) where
  abbrev pub page_a : ℕ
  page_a = node_id md (f.childs j)

  abbrev pub page_b : ℕ
  page_b = node_id md (f.childs (j + 1))

  abbrev pub low : ℕ
  low = lower f.keys flo j

  abbrev pub high : ℕ
  high = upper f.keys f.size fhi (j + 1)

  pub role_a : g.role page_a ≡ tree h low (f.keys j)
  role_a =
      let up : upper f.keys f.size fhi j ≡ f.keys j = ground arith in
      ready.father.child j (omega arith) ∙ ap (tree h low) up

  pub role_b : g.role page_b ≡ tree h (f.keys j) high
  role_b =
      let lo : lower f.keys flo (j + 1) ≡ f.keys j =
        rw (lower_if f.keys flo (j + 1)) (ground arith) in
      ready.father.child (j + 1) (omega arith) ∙ ap (λ z. Role.tree h z high) lo

  pub low_mid : low < f.keys j
  low_mid = ready.ordered _ _ _ _ role_a

  pub mid_high : f.keys j < high
  mid_high = ready.ordered _ _ _ _ role_b

  -- Nodes of the level that are not the father's.
  outside :
      (p x y : ℕ) → g.role p ≡ tree h x y → (y ≤ flo) ⊎ (fhi ≤ x) → (p ≢ page_a) × (p ≢ page_b)
  outside p x y r out =
      let lt = ready.ordered p h x y r in
      let lo = lower_bound md g ready.father j (omega arith) in
      let hi = upper_bound md g ready.father (j + 1) (omega arith) in
      let mid = ready.father.within j inside in
      (
        (λ e. ground (arith, role_a, ap g.role e ∙ role_a, low_mid)),
        λ e. ground (arith, ap g.role e ∙ role_b, mid_high),
      )

  -- The sibling's page, and the sides.
  module _ (sib : ℕ)
      (sides : ((node_id md n.off_set ≡ page_a) × (sib ≡ page_b))
        ⊎ ((node_id md n.off_set ≡ page_b) × (sib ≡ page_a)))
      (g' : Ghost) (re : Regrouped g h low high page_a page_b g') where
    pub below :
        (k lo hi : ℕ) (p : NodePage) → k ≤ h → IsNode md g k lo hi p → IsNode md g' k lo hi p
    below = IsNode-Regrouped md g g' re low (f.keys j) (f.keys j) high role_a role_b

    -- A full node of the new ghost is the sibling or was there before.
    full_cases :
        (p k x y : ℕ)
        → k ≤ h
        → p ≢ node_id md n.off_set
        → g'.role p ≡ tree k x y
        → ((p ≡ sib) × (k ≡ h))
          ⊎ ((p ≢ sib)
              × ((np : NodePage) × (s.file p ≡ node_page np)
                  × IsNode md g' k x y np
                  × (md.max_degree ≤ np.size + 1)))
    full_cases p k x y le d r = elim (re.piece p k x y r) [
      | inl (old, na, nb) ↦
          let (np, file, ok, size) = ready.full p k x y le d old in
          inr ((λ e. ground (arith, sides, na, nb)), (np, file, below k x y np le ok, size))
      | inr (at, same, _, _, _) ↦ inl (ground (arith, sides, at, d), same)
    ]

    above-role : (p k x y : ℕ) → h < k → g.role p ≡ tree k x y → g'.role p ≡ tree k x y
    above-role p k x y lt r =
        re.kept p k x y (λ e. ground (arith, ap g.role e ∙ role_a))
          (λ e. ground (arith, ap g.role e ∙ role_b)) r

    not_sib : (p k x y : ℕ) → h < k → g.role p ≡ tree k x y → p ≢ sib
    not_sib p k x y lt r e = elim sides [
      | inl (_, z) ↦ ground (arith, ap g.role (e ∙ z) ∙ role_b)
      | inr (_, z) ↦ ground (arith, ap g.role (e ∙ z) ∙ role_a)
    ]

    above_back-role : (p k x y : ℕ) → h < k → g'.role p ≡ tree k x y → g.role p ≡ tree k x y
    above_back-role p k x y lt r = elim (re.piece p k x y r) [
      | inl (old, _, _) ↦ old
      | inr (_, same, _, _, _) ↦ absurd (omega arith)
    ]

    level-role :
        (p x y : ℕ) → g.role p ≡ tree h x y → (y ≤ flo) ⊎ (fhi ≤ x) → g'.role p ≡ tree h x y
    level-role p x y r out = let d = outside p x y r out in re.kept p h x y d.0 d.1 r

    -- What is left to show of a repair, for the objects and the store that it makes.
    module _ (n' f' : Node) (s' : Store) (al' : IsAllocated md g' s')
        (file : (p : ℕ) → p ≢ sib → s'.file p ≡ s.file p)
        (sib_full : (x y : ℕ)
          → g'.role sib ≡ tree h x y
          → (np : NodePage) × (s'.file sib ≡ node_page np)
            × IsNode md g' h x y np
            × (md.max_degree ≤ np.size + 1))
        (same : (k : Key) → contents md g' s' k ≡ contents md g s k)
        (father' : IsWeak md g' h flo fhi (as_page f')) (father_size : f.size ≤ f'.size + 1)
        (off_set : (n'.off_set ≡ n.off_set) × (f'.off_set ≡ f.off_set)) (lo hi : ℕ)
        (wider : (lo ≤ lower f.keys flo i) × (upper f.keys f.size fhi i ≤ hi))
        (role : g'.role (node_id md n.off_set) ≡ tree h lo hi)
        (node : IsNode md g' h lo hi (as_page n')) (size : n.size + 1 ≤ n'.size)
        (only : f'.size ≡ 0 → f'.childs 0 ≡ n'.off_set) where
      full' : AreFull md g' s' h (node_id md n.off_set)
      full' p k x y le d r = elim (full_cases p k x y le d r) [
        | inl (e, z) ↦ at_sib (ap g'.role (sym e) ∙ r ∙ ap (λ w. Role.tree w x y) z) e z
        | inr (e, (np, f, ok, big)) ↦ (np, file p e ∙ f, ok, big)
      ]
        where
          at_sib :
              g'.role sib ≡ tree h x y
              → p ≡ sib
              → k ≡ h
              → (np : NodePage) × (s'.file p ≡ node_page np)
                × IsNode md g' k x y np
                × (md.max_degree ≤ np.size + 1)
          at_sib r e z =
              let (np, f, ok, big) = sib_full x y r in
              (np, ap s'.file e ∙ f, subst (λ w. IsNode md g' w x y np) (sym z) ok, big)

      pub finish :
          Repaired md 1 g s h flo fhi n f
            (lower f.keys flo i)
            (upper f.keys f.size fhi i)
            n'
            f'
            g'
            s'
      finish = record {
        allocated = al';
        disjoint =
            Regrouped-disjoint md c g h low (f.keys j) high page_a page_b role_a role_b low_mid
              mid_high ready.disjoint ready.ordered g' re;
        ordered =
            Regrouped-ordered md c g h low (f.keys j) high page_a page_b role_a role_b low_mid
              mid_high ready.disjoint ready.ordered g' re;
        full = full';
        father = father';
        father_size = father_size;
        off_set = off_set;
        new_lo = lo;
        new_hi = hi;
        wider = wider;
        role = role;
        node = node;
        size = size;
        only = only;
        above = λ p k x y lt r. (above-role p k x y lt r, file p (not_sib p k x y lt r));
        above_back = above_back-role;
        level = level-role;
        bounded = λ z w p k x y r. elim (re.piece p k x y r) [
          | inl (old, _, _) ↦ w p k x y old
          | inr (_, _, _, le, _) ↦ omega (arith, le, w page_b h (f.keys j) high role_b)
        ];
        loc = re.loc;
        contents_lem = same;
      }
