-- ===== src/BPlus/Sound/Insert/Cut.antt =====
-- A node that has been cut, in the order of the source: the halves with the new key in one of them,
-- then both pages written. This is the same for leaves and inner nodes.
use godbee.Base.{ℕ, ◌+◌, ◌⊎◌, inl, inr, ◌≤◌, ◌<◌, ◌≡◌, ◌≢◌, sym, ap, subst, ◌∙◌, Option, arith}
use godbee.BPlus.Search.{Key}
use godbee.BPlus.Offsets.{MetaData, IsConfig, node_id}
use godbee.BPlus.Store.{Value, Node, NodePage, node_page, Store, to_node_page}
use godbee.BPlus.Sound.{
  Ghost, AreBounded, values, tree, as_page, IsNode, IsAllocated, AreNodes, IsDisjoint, IsSound,
  contents,
}
use godbee.BPlus.Sound.Copy.{SameNode-to_node_page, IsNode-same}
use godbee.BPlus.Sound.Flush.{
  IsNew, page_in_file, flushed, flushed_self, flushed-other, flushed-IsAllocated, flushed-contents,
}
use godbee.BPlus.Sound.Insert.{
  size_of_page, split_roles, split_roles-a, split_roles-r, split_roles-other, Piece, left, right,
  kept, split_roles-Piece, split_roles-ordered, split_roles-disjoint, split_roles-IsAllocated,
  split_roles-contents,
}

module _ (md : MetaData) (c : IsConfig md) (g : Ghost) (s : Store) (top lo hi a : ℕ)
    (role : g.role a ≡ tree top lo hi) (r m : ℕ) (s₁ : Store) (new : IsNew md g s r s₁)
    (low : lo < m) (high : m < hi) where
  abbrev pub cut_ghost : Ghost
  cut_ghost = split_roles g a (node_id md r) top lo m hi

  pub cut_this : cut_ghost.role a ≡ tree top lo m
  cut_this = split_roles-a md g s _ _ top lo m hi role new.no_tree low high

  pub cut_right : cut_ghost.role (node_id md r) ≡ tree top m hi
  cut_right = split_roles-r md g s _ _ top lo m hi role new.no_tree low high

  pub cut_kept : (p h l u : ℕ) → p ≢ a → g.role p ≡ tree h l u → cut_ghost.role p ≡ tree h l u
  cut_kept = split_roles-other md g s _ _ top lo m hi role new.no_tree low high

  pub cut-IsAllocated : IsAllocated md cut_ghost s₁
  cut-IsAllocated =
      split_roles-IsAllocated md g s₁ _ _ top lo m hi role new.no_tree low high new.allocated
        new.no_values (page_in_file md c g s₁ new.allocated _ (λ e. ground arith)) new.in_file
        new.apart

  pub cut_contents : (j : Key) → contents md cut_ghost s₁ j ≡ contents md g s j
  cut_contents j =
      split_roles-contents md g s₁ _ _ top lo m hi role new.no_tree low high j ∙ new.contents_lem j

  -- The halves when the key has been put into one of them, before they are written; `map` is what
  -- the store holds by then.
  pub record IsCut (map : Key → Option Value) (this next : Node) (g' : Ghost) (s' : Store)
      : Type 0 where
    pub this_node : IsNode md g' top lo m (as_page this)
    pub next_node : IsNode md g' top m hi (as_page next)
    pub this_off : node_id md this.off_set ≡ a
    pub next_off : next.off_set ≡ r
    pub this_full : md.max_degree ≤ this.size + 1
    pub next_full : md.max_degree ≤ next.size + 1
    pub allocated : IsAllocated md g' s'
    pub role_kept : (p h l u : ℕ) → cut_ghost.role p ≡ tree h l u → g'.role p ≡ tree h l u
    pub role_back : (p h l u : ℕ) → g'.role p ≡ tree h l u → cut_ghost.role p ≡ tree h l u
    pub file :
        (p h l u : ℕ) → p ≢ a → p ≢ node_id md r → g.role p ≡ tree h l u → s'.file p ≡ s.file p
    pub rest :
        (p h l u : ℕ)
        → h ≤ top
        → p ≢ a
        → g.role p ≡ tree h l u
        → (np : NodePage) × (s.file p ≡ node_page np) × IsNode md g' h l u np
    pub contents_lem : (j : Key) → contents md g' s' j ≡ map j

  unfoldable pub done : Node → Node → Store → Store
  done this next s' =
      flushed md (flushed md s' next.off_set (to_node_page next)) this.off_set (to_node_page this)

  -- The store after both writes.
  pub record IsDone (map : Key → Option Value) (g' : Ghost) (s' : Store) : Type 0 where
    pub sound : IsSound md g' s' top
    pub this_role : g'.role a ≡ tree top lo m
    pub next_role : g'.role (node_id md r) ≡ tree top m hi
    pub kept_lem :
        (p h l u : ℕ)
        → p ≢ a
        → g.role p ≡ tree h l u
        → (g'.role p ≡ tree h l u) × (s'.file p ≡ s.file p)
    pub above_back : (p h l u : ℕ) → top < h → g'.role p ≡ tree h l u → g.role p ≡ tree h l u
    pub bounded : (bound : ℕ) → AreBounded g bound → AreBounded g' bound
    pub sizes :
        (p h l u : ℕ) (np : NodePage)
        → g'.role p ≡ tree h l u
        → s'.file p ≡ node_page np
        → (md.max_degree ≤ np.size + 1)
          ⊎ ((p ≢ a) × (g.role p ≡ tree h l u) × (s.file p ≡ node_page np))
    pub contents_lem : (j : Key) → contents md g' s' j ≡ map j

  module _ (disjoint : IsDisjoint md g) (ordered : (p h l u : ℕ) → g.role p ≡ tree h l u → l < u)
      (map : Key → Option Value) (this next : Node) (g' : Ghost) (s' : Store)
      (cut : IsCut map this next g' s') where
    this_role : g'.role a ≡ tree top lo m
    this_role = cut.role_kept _ _ _ _ cut_this

    next_role : g'.role (node_id md r) ≡ tree top m hi
    next_role = cut.role_kept _ _ _ _ cut_right

    apart : node_id md r ≢ a
    apart e = new.no_tree top lo hi (ap g.role e ∙ role)

    next_values : g'.role (node_id md next.off_set) ≢ values
    next_values e =
        let x : g'.role (node_id md r) ≡ values =
          ap (λ o. g'.role (node_id md o)) (sym cut.next_off) ∙ e in
        ground (arith, next_role)

    this_values : g'.role (node_id md this.off_set) ≢ values
    this_values e =
        let x : g'.role a ≡ values = ap g'.role (sym cut.this_off) ∙ e in ground (arith, this_role)

    next_flushed : Store
    next_flushed = flushed md s' next.off_set (to_node_page next)

    done-next : (done this next s').file (node_id md r) ≡ node_page (to_node_page next)
    unfolding done next_flushed
    done-next =
        flushed-other md next_flushed this.off_set (to_node_page this) (node_id md r)
          (rw cut.this_off apart)
        ∙ subst (λ o. next_flushed.file (node_id md o) ≡ node_page (to_node_page next)) cut.next_off
            (flushed_self md s' next.off_set (to_node_page next))

    done-this : (done this next s').file a ≡ node_page (to_node_page this)
    unfolding done next_flushed
    done-this =
        subst
          (λ p.
            (flushed md next_flushed this.off_set (to_node_page this)).file p
            ≡ node_page (to_node_page this))
          cut.this_off (flushed_self md next_flushed this.off_set (to_node_page this))

    done-other :
        (p h l u : ℕ) → p ≢ a → g.role p ≡ tree h l u → (done this next s').file p ≡ s.file p
    unfolding done next_flushed
    done-other p h l u x e =
        let y : p ≢ node_id md r = λ q. new.no_tree h l u (ap g.role (sym q) ∙ e) in
        flushed-other md next_flushed this.off_set (to_node_page this) p (rw cut.this_off x)
        ∙ flushed-other md s' next.off_set (to_node_page next) p (rw cut.next_off y)
        ∙ cut.file p h l u x y e

    next-IsAllocated : IsAllocated md g' next_flushed
    unfolding next_flushed
    next-IsAllocated =
        flushed-IsAllocated md g' s' cut.allocated next.off_set (to_node_page next) next_values

    done-IsAllocated : IsAllocated md g' (done this next s')
    unfolding done next_flushed
    done-IsAllocated =
        flushed-IsAllocated md g' next_flushed next-IsAllocated this.off_set (to_node_page this)
          this_values

    done-contents : (j : Key) → contents md g' (done this next s') j ≡ map j
    unfolding done next_flushed
    done-contents j =
        flushed-contents md g' next_flushed next-IsAllocated this.off_set (to_node_page this)
          this_values j
        ∙ flushed-contents md g' s' cut.allocated next.off_set (to_node_page next) next_values j
        ∙ cut.contents_lem j

    piece :
        (p h l u : ℕ)
        → g'.role p ≡ tree h l u
        → Piece md g s a (node_id md r) top lo m hi role new.no_tree low high p h l u
    piece p h l u e =
        split_roles-Piece md g s _ _ top lo m hi role new.no_tree low high p h l u
          (cut.role_back p h l u e)

    done-nodes : AreNodes md g' (done this next s') top
    done-nodes p h l u le e = elim (piece p h l u e) [
      | left i z x y ↦ (
        to_node_page this,
        ap (done this next s').file i ∙ done-this,
        rw (z, x, y) (IsNode-same md g' (SameNode-to_node_page this) top lo m cut.this_node),
      )
      | right i z x y ↦ (
        to_node_page next,
        ap (done this next s').file i ∙ done-next,
        rw (z, x, y) (IsNode-same md g' (SameNode-to_node_page next) top m hi cut.next_node),
      )
      | kept x y old ↦
          let (np, f, ok) = cut.rest p h l u le x old in (np, done-other p h l u x old ∙ f, ok)
    ]

    pub done-IsDone : IsDone map g' (done this next s')
    done-IsDone = record {
      sound = record {
        allocated = done-IsAllocated;
        disjoint = λ p q h l u l' u' e e'.
            split_roles-disjoint md g s _ _ top lo m hi role new.no_tree low high disjoint p q h l u
              l' u' (cut.role_back p h l u e) (cut.role_back q h l' u' e');
        ordered = λ p h l u e.
            split_roles-ordered md g s _ _ top lo m hi role new.no_tree low high ordered p h l u
              (cut.role_back p h l u e);
        nodes = done-nodes;
      };
      this_role = this_role;
      next_role = next_role;
      kept_lem =
          λ p h l u x e. (cut.role_kept p h l u (cut_kept p h l u x e), done-other p h l u x e);
      above_back = λ p h l u lt e. elim (piece p h l u e) [
        | left i z x y ↦ absurd (omega arith)
        | right i z x y ↦ absurd (omega arith)
        | kept x y old ↦ old
      ];
      bounded = λ z w p h l u e. elim (piece p h l u e) [
        | left i _ x y ↦ omega (arith, y, high, w _ _ _ _ role)
        | right i _ x y ↦ omega (arith, y, w _ _ _ _ role)
        | kept x y old ↦ w p h l u old
      ];
      sizes = λ p h l u np e f. elim (piece p h l u e) [
        | left i z x y ↦
            let size : this.size ≡ np.size =
              size_of_page this np (sym done-this ∙ ap (done this next s').file (sym i) ∙ f) in
            inl (omega (arith, size, cut.this_full))
        | right i z x y ↦
            let size : next.size ≡ np.size =
              size_of_page next np (sym done-next ∙ ap (done this next s').file (sym i) ∙ f) in
            inl (omega (arith, size, cut.next_full))
        | kept x y old ↦ inr (x, old, sym (done-other p h l u x old) ∙ f)
      ];
      contents_lem = done-contents;
    }
