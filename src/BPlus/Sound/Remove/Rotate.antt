-- ===== src/BPlus/Sound/Remove/Rotate.antt =====
-- An entry moves between two siblings.
use godbee.Base.{ℕ, ◌+◌, ◌≤◌, ◌<◌, ◌≡◌, ◌≢◌, refl, sym, ap, subst, ◌∙◌, ◌⊎◌, inl, inr, arith}
use godbee.BPlus.Search.{Key}
use godbee.BPlus.Offsets.{MetaData, IsConfig, node_id}
use godbee.BPlus.Store.{Node, NodePage, node_page, Store, to_node_page}
use godbee.BPlus.Sound.{
  Ghost, Role, values, tree, lower, upper, as_page, IsNode, IsAllocated, contents,
}
use godbee.BPlus.Sound.Copy.{SameNode-to_node_page, IsNode-same}
use godbee.BPlus.Sound.Weak.{IsWeak, lower_if}
use godbee.BPlus.Sound.Flush.{
  with_role, flushed, flushed_self, flushed-other, flushed-IsAllocated, flushed-contents,
}
use godbee.BPlus.Sound.Remove.{
  Regrouped, rotated, rotated_a, rotated_b, rotated-Regrouped, rotated-IsAllocated,
}
use godbee.BPlus.Sound.Remove.Father.{father_rotated}
use godbee.BPlus.Sound.Remove.Repair.{
  Ready, Repaired, role_a, role_b, low_mid, mid_high, below, finish,
}

-- `f'` is `f` with key `m` at `j`.
pub record KeySet (f : Node) (j m : ℕ) (f' : Node) : Type 0 where
  pub off_set : f'.off_set ≡ f.off_set
  pub flag : f'.flag ≡ f.flag
  pub size : f'.size ≡ f.size
  pub key : f'.keys j ≡ m
  pub keys : (i : ℕ) → i ≢ j → i < f.size → f'.keys i ≡ f.keys i
  pub childs : (i : ℕ) → i ≤ f.size → f'.childs i ≡ f.childs i

module _ (md : MetaData) (c : IsConfig md) (g : Ghost) (s : Store) (h flo fhi : ℕ) (n f : Node)
    (i : ℕ) (ready : Ready md g s h flo fhi n f i) (j : ℕ) (inside : j < f.size) (m : ℕ)
    (low_m : lower f.keys flo j < m) (m_high : m < upper f.keys f.size fhi (j + 1))
    (n' sib f' : Node) (off_set : n'.off_set ≡ n.off_set) (set : KeySet f j m f')
    (big : md.max_degree ≤ sib.size + 1) (size : n.size + 1 ≤ n'.size) where
  abbrev a : ℕ
  a = node_id md (f.childs j)

  abbrev b : ℕ
  b = node_id md (f.childs (j + 1))

  abbrev lo : ℕ
  lo = lower f.keys flo j

  abbrev hi : ℕ
  hi = upper f.keys f.size fhi (j + 1)

  ra : g.role a ≡ tree h lo (f.keys j)
  ra = role_a md c g s h flo fhi n f i ready j inside

  rb : g.role b ≡ tree h (f.keys j) hi
  rb = role_b md c g s h flo fhi n f i ready j inside

  lm : lo < f.keys j
  lm = low_mid md c g s h flo fhi n f i ready j inside

  mh : f.keys j < hi
  mh = mid_high md c g s h flo fhi n f i ready j inside

  abbrev turned : Ghost
  turned =
      rotated md c g h lo (f.keys j) hi a b ra rb lm mh ready.disjoint ready.ordered m low_m m_high

  abbrev after : Store
  after = flushed md s sib.off_set (to_node_page sib)

  re : Regrouped g h lo hi a b turned
  re =
      rotated-Regrouped md c g h lo (f.keys j) hi a b ra rb lm mh ready.disjoint ready.ordered m
        low_m m_high

  left_role : turned.role a ≡ tree h lo m
  left_role =
      rotated_a md c g h lo (f.keys j) hi a b ra rb lm mh ready.disjoint ready.ordered m low_m
        m_high

  right_role : turned.role b ≡ tree h m hi
  right_role =
      rotated_b md c g h lo (f.keys j) hi a b ra rb lm mh ready.disjoint ready.ordered m low_m
        m_high

  father' : IsWeak md turned h flo fhi (as_page f')
  father' =
      father_rotated md g ready.father turned j inside (λ q x y na nb r. re.kept q h x y na nb r) m
        low_m m_high set.flag set.size set.key set.keys set.childs left_role right_role

  -- The sibling's page is `p`, with the range from `x` to `y`.
  module _ (p x y : ℕ)
      (sides : ((node_id md n.off_set ≡ a) × (p ≡ b)) ⊎ ((node_id md n.off_set ≡ b) × (p ≡ a)))
      (at : node_id md sib.off_set ≡ p) (role_p : turned.role p ≡ tree h x y)
      (sib_node : IsNode md g h x y (as_page sib)) (u v : ℕ)
      (wider : (u ≤ lower f.keys flo i) × (upper f.keys f.size fhi i ≤ v))
      (role_n : turned.role (node_id md n.off_set) ≡ tree h u v)
      (node : IsNode md g h u v (as_page n')) where
    al : IsAllocated md turned s
    al =
        rotated-IsAllocated md c g h lo (f.keys j) hi a b ra rb lm mh ready.disjoint ready.ordered m
          low_m m_high s ready.allocated

    no_values : turned.role (node_id md sib.off_set) ≢ values
    no_values e = ground (arith, ap turned.role (sym at) ∙ e, role_p)

    sib_full :
        (x' y' : ℕ)
        → turned.role p ≡ tree h x' y'
        → (np : NodePage) × (after.file p ≡ node_page np)
          × IsNode md turned h x' y' np
          × (md.max_degree ≤ np.size + 1)
    unfolding to_node_page
    sib_full x' y' r =
        let same : Role.tree h x y ≡ tree h x' y' = sym role_p ∙ r in
        let sx : x ≡ x' = ground arith in
        let sy : y ≡ y' = ground arith in
        let moved =
          below md c g s h flo fhi n f i ready j inside p sides turned re h x y (as_page sib)
            (omega arith) sib_node in
        let page = IsNode-same md turned (SameNode-to_node_page sib) h x y moved in
        (
          to_node_page sib,
          ap after.file (sym at) ∙ flushed_self md s sib.off_set (to_node_page sib),
          subst (λ w. IsNode md turned h w y' (to_node_page sib)) sx
              (subst (λ w. IsNode md turned h x w (to_node_page sib)) sy page),
          big,
        )

    same : (k : Key) → contents md turned after k ≡ contents md g s k
    unfolding contents with_role
    same k = flushed-contents md turned s al sib.off_set (to_node_page sib) no_values k

    rotate :
        Repaired md 1 g s h flo fhi n f
          (lower f.keys flo i)
          (upper f.keys f.size fhi i)
          n'
          f'
          turned
          after
    rotate =
        finish md c g s h flo fhi n f i ready j inside p sides turned re n' f' after
          (flushed-IsAllocated md turned s al sib.off_set (to_node_page sib) no_values)
          (λ q d. flushed-other md s sib.off_set (to_node_page sib) q (λ e. d (e ∙ at))) sib_full
          same father' (omega (arith, set.size)) (off_set, set.off_set) u v wider role_n
          (below md c g s h flo fhi n f i ready j inside p sides turned re h u v (as_page n')
            (omega arith) node)
          size (λ e. absurd (omega (arith, set.size)))

  -- The sibling is on the right.
  pub rotate_right :
      i ≡ j
      → sib.off_set ≡ f.childs (j + 1)
      → f.keys j ≤ m
      → IsNode md g h lo m (as_page n')
      → IsNode md g h m hi (as_page sib)
      → (g' : Ghost) × Repaired md 1 g s h flo fhi n f
          (lower f.keys flo i)
          (upper f.keys f.size fhi i)
          n'
          f'
          g'
          (flushed md s sib.off_set (to_node_page sib))
  rotate_right e at mid node sib_node =
      let here : node_id md n.off_set ≡ a = ap (node_id md) (sym ready.at ∙ ap f.childs e) in
      let up : upper f.keys f.size fhi i ≡ f.keys j = ground arith in
      let down : lower f.keys flo i ≡ lo = ap (lower f.keys flo) e in
      (
        turned,
        rotate b m hi (inl (here, refl)) (ap (node_id md) at) right_role sib_node lo m
            (omega (arith, down), omega (arith, up, mid)) (ap turned.role here ∙ left_role) node,
      )

  -- The sibling is on the left.
  pub rotate_left :
      i ≡ j + 1
      → sib.off_set ≡ f.childs j
      → m ≤ f.keys j
      → IsNode md g h lo m (as_page sib)
      → IsNode md g h m hi (as_page n')
      → (g' : Ghost) × Repaired md 1 g s h flo fhi n f
          (lower f.keys flo i)
          (upper f.keys f.size fhi i)
          n'
          f'
          g'
          (flushed md s sib.off_set (to_node_page sib))
  rotate_left e at mid sib_node node =
      let here : node_id md n.off_set ≡ b = ap (node_id md) (sym ready.at ∙ ap f.childs e) in
      let up : upper f.keys f.size fhi i ≡ hi = ap (upper f.keys f.size fhi) e in
      let down : lower f.keys flo i ≡ f.keys j =
        ap (lower f.keys flo) e ∙ rw (lower_if f.keys flo (j + 1)) (ground arith) in
      (
        turned,
        rotate a lo m (inr (here, refl)) (ap (node_id md) at) left_role sib_node m hi
            (omega (arith, down, mid), omega (arith, up)) (ap turned.role here ∙ right_role) node,
      )
