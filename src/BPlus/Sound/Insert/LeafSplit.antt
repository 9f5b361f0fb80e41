-- ===== src/BPlus/Sound/Insert/LeafSplit.antt =====
-- `insertAndSplitLeaf` of pkg/storage/bplustree/BPlusTreeNode.cpp on a sound store.
use godbee.Base.{
  ℕ, zero, suc, ◌+◌, ◌-◌, ◌*◌, ◌≤◌, ◌<◌, ◌≡◌, ◌≢◌, refl, sym, ap, subst, ◌∙◌, some, inl, inr, arith,
  true, false, update, ltb, ◌==◌, if◌then◌else◌, Bool-cases,
}
use godbee.BPlus.Search.{Key}
use godbee.BPlus.Offsets.{MetaData, IsConfig, node_id}
use godbee.BPlus.Store.{Value, leaf_node, Node, NodePage, node_page, Store, to_node_page}
use godbee.BPlus.Node.{Entry, insert_left, copy_part_of_node, insert_in_half, insert_and_split_leaf}
use godbee.BPlus.Sound.{
  Ghost, values, tree, as_page, IsLeaf, IsAllocated, AreNodes, IsSound, contents,
}
use godbee.BPlus.Sound.Copy.{SameNode-to_node_page, IsNode-same}
use godbee.BPlus.Sound.Get.{IsAt}
use godbee.BPlus.Sound.Pages.{Entered, IsLeaf-Entered, IsLeaf-first, IsLeaf-rest}
use godbee.BPlus.Sound.Flush.{
  IsNew, with_role, page_in_file, flushed, flush_to_file-eq, flushed_self, flushed-other,
  flushed-IsAllocated, flushed-contents,
}
use godbee.BPlus.Sound.Insert.{
  Sized, filled_up, no_less, size_of_page, split, Inserted, split_roles, split_roles-a,
  split_roles-r, split_roles-other, Piece, left, right, kept, split_roles-Piece,
  split_roles-ordered, split_roles-disjoint, split_roles-IsAllocated, split_roles-contents,
}
use godbee.BPlus.Sound.Insert.Halves.{Halves, copy_part_of_node-Halves}
use godbee.BPlus.Sound.Insert.Leaf.{IsLeaf-elsewhere, insert_left-InsertedLeft, other_leaf}

-- A leaf is a leaf of every ghost that puts the values at the same positions.
same_loc :
    (md : MetaData) (g g' : Ghost) {l u : ℕ} {p : NodePage}
    → ((j : Key) → g'.loc j ≡ g.loc j)
    → IsLeaf md g l u p
    → IsLeaf md g' l u p
same_loc md g g' {u} same leaf =
    IsLeaf-elsewhere md g g' u (λ j h. same j) (λ w. absurd (omega arith)) leaf

module _ (md : MetaData) (c : IsConfig md) (g : Ghost) (s : Store) (sound : IsSound md g s 0)
    (lo hi : ℕ) (n : Node) (at : IsAt md g s 0 lo hi n) (k : Key) (v : Value)
    (within : (lo ≤ k) × (k < hi)) (r m : ℕ) (s₁ : Store) (new : IsNew md g s r s₁) (low : lo < m)
    (high : m < hi) where
  cut_ghost : Ghost
  cut_ghost = split_roles g (node_id md n.off_set) (node_id md r) 0 lo m hi

  -- The two leaves when the key has been put into one of them, before they are written.
  record IsCut (this right_leaf : Node) (g' : Ghost) (s' : Store) : Type 0 where
    this_leaf : IsLeaf md g' lo m (as_page this)
    right_leaf_lem : IsLeaf md g' m hi (as_page right_leaf)
    this_off : this.off_set ≡ n.off_set
    right_off : right_leaf.off_set ≡ r
    this_full : md.max_degree ≤ this.size + 1
    right_full : md.max_degree ≤ right_leaf.size + 1
    allocated : IsAllocated md g' s'
    role_kept : (p h l u : ℕ) → cut_ghost.role p ≡ tree h l u → g'.role p ≡ tree h l u
    role_back : (p h l u : ℕ) → g'.role p ≡ tree h l u → cut_ghost.role p ≡ tree h l u
    loc_other : (j : Key) → j ≢ k → g'.loc j ≡ g.loc j
    file :
        (p h l u : ℕ)
        → p ≢ node_id md n.off_set
        → p ≢ node_id md r
        → g.role p ≡ tree h l u
        → s'.file p ≡ s.file p
    contents_lem : (j : Key) → contents md g' s' j ≡ (if j == k then some v else contents md g s j)

  module _ (this right_leaf : Node) (g' : Ghost) (s' : Store)
      (cut : IsCut this right_leaf g' s') where
    done : Store
    done =
        flushed md (flushed md s' right_leaf.off_set (to_node_page right_leaf)) this.off_set
          (to_node_page this)

    this_role : g'.role (node_id md n.off_set) ≡ tree 0 lo m
    unfolding cut_ghost
    this_role =
        cut.role_kept _ _ _ _ (split_roles-a md g s _ _ 0 lo m hi at.role new.no_tree low high)

    right_role : g'.role (node_id md r) ≡ tree 0 m hi
    unfolding cut_ghost
    right_role =
        cut.role_kept _ _ _ _ (split_roles-r md g s _ _ 0 lo m hi at.role new.no_tree low high)

    apart : node_id md r ≢ node_id md n.off_set
    apart e = new.no_tree 0 lo hi (ap g.role e ∙ at.role)

    right_values : g'.role (node_id md right_leaf.off_set) ≢ values
    right_values e =
        let x : g'.role (node_id md r) ≡ values =
          ap (λ o. g'.role (node_id md o)) (sym cut.right_off) ∙ e in
        ground (arith, right_role)

    this_values : g'.role (node_id md this.off_set) ≢ values
    this_values e =
        let x : g'.role (node_id md n.off_set) ≡ values =
          ap (λ o. g'.role (node_id md o)) (sym cut.this_off) ∙ e in
        ground (arith, this_role)

    done-right : done.file (node_id md r) ≡ node_page (to_node_page right_leaf)
    unfolding done
    done-right =
        flushed-other md (flushed md s' right_leaf.off_set (to_node_page right_leaf)) this.off_set
          (to_node_page this) (node_id md r) (rw cut.this_off apart)
        ∙ subst
            (λ o.
              (flushed md s' right_leaf.off_set (to_node_page right_leaf)).file (node_id md o)
              ≡ node_page (to_node_page right_leaf))
            cut.right_off (flushed_self md s' right_leaf.off_set (to_node_page right_leaf))

    done-this : done.file (node_id md n.off_set) ≡ node_page (to_node_page this)
    unfolding done
    done-this =
        subst
          (λ o.
            (flushed md (flushed md s' right_leaf.off_set (to_node_page right_leaf)) this.off_set
                (to_node_page this)).file
              (node_id md o)
            ≡ node_page (to_node_page this))
          cut.this_off
          (flushed_self md (flushed md s' right_leaf.off_set (to_node_page right_leaf)) this.off_set
            (to_node_page this))

    done-other :
        (p h l u : ℕ)
        → p ≢ node_id md n.off_set
        → p ≢ node_id md r
        → g.role p ≡ tree h l u
        → done.file p ≡ s.file p
    unfolding done
    done-other p h l u x y e =
        flushed-other md (flushed md s' right_leaf.off_set (to_node_page right_leaf)) this.off_set
          (to_node_page this) p (rw cut.this_off x)
        ∙ flushed-other md s' right_leaf.off_set (to_node_page right_leaf) p (rw cut.right_off y)
        ∙ cut.file p h l u x y e

    done-IsAllocated : IsAllocated md g' done
    unfolding done
    done-IsAllocated =
        flushed-IsAllocated md g' _
          (flushed-IsAllocated md g' s' cut.allocated right_leaf.off_set (to_node_page right_leaf)
            right_values)
          this.off_set (to_node_page this) this_values

    done-contents :
        (j : Key) → contents md g' done j ≡ (if j == k then some v else contents md g s j)
    unfolding done
    done-contents j =
        flushed-contents md g' _
          (flushed-IsAllocated md g' s' cut.allocated right_leaf.off_set (to_node_page right_leaf)
            right_values)
          this.off_set (to_node_page this) this_values j
        ∙ flushed-contents md g' s' cut.allocated right_leaf.off_set (to_node_page right_leaf)
            right_values j
        ∙ cut.contents_lem j

    piece :
        (p h l u : ℕ)
        → g'.role p ≡ tree h l u
        → Piece md g s
            (node_id md n.off_set)
            (node_id md r)
            0
            lo
            m
            hi
            at.role
            new.no_tree
            low
            high
            p
            h
            l
            u
    unfolding cut_ghost
    piece p h l u e =
        split_roles-Piece md g s _ _ 0 lo m hi at.role new.no_tree low high p h l u
          (cut.role_back p h l u e)

    done-nodes : AreNodes md g' done 0
    done-nodes p (suc h) l u le e = absurd (omega arith)
    done-nodes p zero l u le e = elim (piece p 0 l u e) [
      | left i _ x y ↦ (
        to_node_page this,
        ap done.file i ∙ done-this,
        rw (x, y) (IsNode-same md g' (SameNode-to_node_page this) 0 lo m cut.this_leaf),
      )
      | right i _ x y ↦ (
        to_node_page right_leaf,
        ap done.file i ∙ done-right,
        rw (x, y) (IsNode-same md g' (SameNode-to_node_page right_leaf) 0 m hi cut.right_leaf_lem),
      )
      | kept x y old ↦
          let (np, f, ok) = sound.nodes p 0 l u le old in
          (
            np,
            done-other p 0 l u x y old ∙ f,
            IsLeaf-elsewhere md g g' k cut.loc_other
                (other_leaf md c g s sound lo hi n at k v within p l u x old) ok,
          )
    ]

    done_sizes :
        (p h l u : ℕ) (np : NodePage)
        → h ≤ 0
        → g'.role p ≡ tree h l u
        → done.file p ≡ node_page np
        → Sized md g s 0 (node_id md n.off_set) n (some (record { key = m; value = r })) p h np
    done_sizes p h l u np le e f = elim (piece p h l u e) [
      | left i _ x y ↦
          let size : this.size ≡ np.size =
            size_of_page this np (sym done-this ∙ ap done.file (sym i) ∙ f) in
          filled_up (omega (arith, size, cut.this_full))
      | right i _ x y ↦
          let size : right_leaf.size ≡ np.size =
            size_of_page right_leaf np (sym done-right ∙ ap done.file (sym i) ∙ f) in
          filled_up (omega (arith, size, cut.right_full))
      | kept x y old ↦
          no_less l u np old (sym (done-other p h l u x y old) ∙ f) (omega arith)
            (λ _ q. absurd (x q))
    ]

    done-Inserted :
        (n' : Node)
        → n'.off_set ≡ n.off_set
        → Inserted md g s 0
            (node_id md n.off_set)
            lo
            hi
            k
            v
            n
            (some (record { key = m; value = r }))
            n'
            g'
            done
    unfolding cut_ghost
    done-Inserted n' same = record {
      sound = record {
        allocated = done-IsAllocated;
        disjoint = λ p q h l u l' u' e e'.
            split_roles-disjoint md g s _ _ 0 lo m hi at.role new.no_tree low high sound.disjoint p
              q h l u l' u' (cut.role_back p h l u e) (cut.role_back q h l' u' e');
        ordered = λ p h l u e.
            split_roles-ordered md g s _ _ 0 lo m hi at.role new.no_tree low high sound.ordered p h
              l u (cut.role_back p h l u e);
        nodes = done-nodes;
      };
      above = λ p h l u lt e.
          let x : p ≢ node_id md n.off_set = λ q. ground (arith, at.role) in
          let y : p ≢ node_id md r = λ q. new.no_tree h l u (ap g.role (sym q) ∙ e) in
          (
            cut.role_kept p h l u
                (split_roles-other md g s _ _ 0 lo m hi at.role new.no_tree low high p h l u x e),
            done-other p h l u x y e,
          );
      above_back = λ p h l u lt e. elim (piece p h l u e) [
        | left i z x y ↦ absurd (omega arith)
        | right i z x y ↦ absurd (omega arith)
        | kept x y old ↦ old
      ];
      level = λ p l u ne e.
          cut.role_kept p 0 l u
            (split_roles-other md g s _ _ 0 lo m hi at.role new.no_tree low high p 0 l u ne e);
      contents_lem = done-contents;
      bounded = λ z w p h l u e. elim (piece p h l u e) [
        | left i _ x y ↦ omega (arith, y, high, w _ _ _ _ at.role)
        | right i _ x y ↦ omega (arith, y, w _ _ _ _ at.role)
        | kept x y old ↦ w p h l u old
      ];
      off_set = same;
      sizes = done_sizes;
      outcome = split (record { key = m; value = r }) (low, high) this_role new.aligned right_role;
    }

  -- The two halves before the key is put into one of them.
  record IsPair (this right_leaf : Node) : Type 0 where
    this_leaf : IsLeaf md g lo m (as_page this)
    right_leaf_lem : IsLeaf md g m hi (as_page right_leaf)
    this_off : this.off_set ≡ n.off_set
    right_off : right_leaf.off_set ≡ r
    this_room : this.size + 1 < 2 * md.max_degree
    right_room : right_leaf.size + 1 < 2 * md.max_degree
    this_full : md.max_degree ≤ this.size + 1
    right_full : md.max_degree ≤ right_leaf.size + 1

  module _ (this right_leaf : Node) (pair : IsPair this right_leaf) where
    cut-IsAllocated : IsAllocated md cut_ghost s₁
    unfolding cut_ghost
    cut-IsAllocated =
        split_roles-IsAllocated md g s₁ _ _ 0 lo m hi at.role new.no_tree low high new.allocated
          new.no_values (page_in_file md c g s₁ new.allocated _ (λ e. ground (arith, at.role)))
          new.in_file new.apart

    cut_contents : (j : Key) → contents md cut_ghost s₁ j ≡ contents md g s j
    unfolding cut_ghost
    cut_contents j =
        split_roles-contents md g s₁ _ _ 0 lo m hi at.role new.no_tree low high j
        ∙ new.contents_lem j

    cut_kept :
        (p h l u : ℕ)
        → p ≢ node_id md n.off_set
        → g.role p ≡ tree h l u
        → cut_ghost.role p ≡ tree h l u
    unfolding cut_ghost
    cut_kept = split_roles-other md g s _ _ 0 lo m hi at.role new.no_tree low high

    cut_this : cut_ghost.role (node_id md n.off_set) ≡ tree 0 lo m
    unfolding cut_ghost
    cut_this = split_roles-a md g s _ _ 0 lo m hi at.role new.no_tree low high

    cut_right : cut_ghost.role (node_id md r) ≡ tree 0 m hi
    unfolding cut_ghost
    cut_right = split_roles-r md g s _ _ 0 lo m hi at.role new.no_tree low high

    in_cut : {l u : ℕ} {p : NodePage} → IsLeaf md g l u p → IsLeaf md cut_ghost l u p
    unfolding cut_ghost split_roles
    in_cut leaf = same_loc md g cut_ghost (λ j. unfold with_role in refl) leaf

    -- The key goes to the left half.
    insert_in_this :
        k < m
        → ((j : ℕ) → j < this.size → this.keys j ≢ k)
        → (this' : Node) × (g' : Ghost) × (s' : Store) × (insert_left md this k v s₁
            ≡ some (this', s'))
          × IsCut this' right_leaf g' s'
    insert_in_this lt absent =
        let (this', g', s', run, i) =
          insert_left-InsertedLeft md c cut_ghost s₁ cut-IsAllocated this k v 0 lo m
            (rw pair.this_off cut_this) (rw pair.this_off at.aligned) pair.this_leaf.ascending
            absent in
        (
          this',
          g',
          s',
          run,
          record {
            this_leaf =
                IsLeaf-Entered md cut_ghost g' (in_cut pair.this_leaf) i.entered i.childs
                  pair.this_room (within.0, lt) i.loc_self i.loc_other;
            right_leaf_lem =
                IsLeaf-elsewhere md cut_ghost g' k i.loc_other (λ w. absurd (omega arith))
                  (in_cut pair.right_leaf_lem);
            this_off = i.off_set ∙ pair.this_off;
            right_off = pair.right_off;
            this_full = omega (arith, i.entered.size, pair.this_full);
            right_full = pair.right_full;
            allocated = i.allocated;
            role_kept = i.role_kept;
            role_back = i.role_back;
            loc_other = λ j h. i.loc_other j h ∙ loc_cut j;
            file = λ p h l u x y e.
                i.file p h l u (cut_kept p h l u x e) (rw pair.this_off x) ∙ new.file p y;
            contents_lem =
                λ j. i.contents_lem j ∙ ap (λ o. if j == k then some v else o) (cut_contents j);
          },
        )
      where
        loc_cut : (j : Key) → cut_ghost.loc j ≡ g.loc j
        loc_cut j = unfold cut_ghost split_roles with_role in refl

    -- The key goes to the right half.
    insert_in_right :
        m ≤ k
        → ((j : ℕ) → j < right_leaf.size → right_leaf.keys j ≢ k)
        → (right' : Node) × (g' : Ghost) × (s' : Store) × (insert_left md right_leaf k v s₁
            ≡ some (right', s'))
          × IsCut this right' g' s'
          × (i : ℕ) × Entered (as_page right_leaf) k i (as_page right')
    insert_in_right le absent =
        let (right', g', s', run, i) =
          insert_left-InsertedLeft md c cut_ghost s₁ cut-IsAllocated right_leaf k v 0 m hi
            (rw pair.right_off cut_right) (rw pair.right_off new.aligned)
            pair.right_leaf_lem.ascending absent in
        (
          right',
          g',
          s',
          run,
          record {
            this_leaf =
                IsLeaf-elsewhere md cut_ghost g' k i.loc_other (λ w. absurd (omega arith))
                  (in_cut pair.this_leaf);
            right_leaf_lem =
                IsLeaf-Entered md cut_ghost g' (in_cut pair.right_leaf_lem) i.entered i.childs
                  pair.right_room (le, within.1) i.loc_self i.loc_other;
            this_off = pair.this_off;
            right_off = i.off_set ∙ pair.right_off;
            this_full = pair.this_full;
            right_full = omega (arith, i.entered.size, pair.right_full);
            allocated = i.allocated;
            role_kept = i.role_kept;
            role_back = i.role_back;
            loc_other = λ j h. i.loc_other j h ∙ loc_cut j;
            file = λ p h l u x y e.
                i.file p h l u (cut_kept p h l u x e) (rw pair.right_off y) ∙ new.file p y;
            contents_lem =
                λ j. i.contents_lem j ∙ ap (λ o. if j == k then some v else o) (cut_contents j);
          },
          i.index,
          i.entered,
        )
      where
        loc_cut : (j : Key) → cut_ghost.loc j ≡ g.loc j
        loc_cut j = unfold cut_ghost split_roles with_role in refl

module _ (md : MetaData) (c : IsConfig md) (g : Ghost) (s : Store) (sound : IsSound md g s 0)
    (lo hi : ℕ) (n : Node) (at : IsAt md g s 0 lo hi n) (k : Key) (v : Value)
    (within : (lo ≤ k) × (k < hi)) (full : n.size + 1 ≡ 2 * md.max_degree)
    (absent : (j : ℕ) → j < n.size → n.keys j ≢ k) where
  module _ (this right_leaf : Node) (halves : Halves n leaf_node md.max_degree this right_leaf)
      (s₁ : Store) (new : IsNew md g s right_leaf.off_set s₁) where
    cut_node : Node
    cut_node = record this { childs = update this.childs n.size 0; size = md.max_degree }

    -- A key that may stand between the halves.
    record IsBetween (m : Key) : Type 0 where
      above : n.keys (md.max_degree - 1) < m
      below : m ≤ n.keys md.max_degree
      low : lo < m
      high : m < hi

    between : (m : Key) → n.keys (md.max_degree - 1) < m → m ≤ n.keys md.max_degree → IsBetween m
    between m x y = record {
      above = x;
      below = y;
      low = omega (arith, at.node.within (md.max_degree - 1) (omega (arith, c.degree)));
      high = omega (arith, at.node.within md.max_degree (omega (arith, c.degree)));
    }

    IsPair-of :
        (m : Key)
        → (b : IsBetween m)
        → IsPair md c g s sound lo hi n at k v within right_leaf.off_set m s₁ new b.low b.high
            cut_node right_leaf
    unfolding cut_node
    IsPair-of m b = record {
      this_leaf =
          IsLeaf-first md g at.node (omega (arith, c.degree)) (omega (arith, c.degree)) b.above
            b.below halves.this_flag halves.this_keys
            (λ j h. ground (arith, halves.this_childs j, c.degree));
      right_leaf_lem =
          IsLeaf-rest md g md.max_degree at.node (omega (arith, c.degree)) (omega (arith, c.degree))
            b.above b.below (halves.right_flag ∙ sym at.node.flag) halves.right_size
            halves.right_keys (λ j h. halves.right_childs j (omega arith));
      this_off = halves.off_set;
      right_off = refl;
      this_room = omega (arith, c.degree);
      right_room = omega (arith, halves.right_size, c.degree);
      this_full = omega arith;
      right_full = omega (arith, halves.right_size, full);
    }

    ascends : n.keys (md.max_degree - 1) < n.keys md.max_degree
    ascends =
        at.node.ascending (md.max_degree - 1) md.max_degree (omega (arith, c.degree))
          (omega (arith, c.degree))

    right_first : right_leaf.keys 0 ≡ n.keys md.max_degree
    right_first =
        halves.right_keys 0 (omega (arith, halves.right_size, c.degree)) ∙ ap n.keys (omega arith)

    result : Node → Node → Entry × Node
    result this' right' = (
      record { key = right'.keys 0; value = right'.off_set },
      record this' { childs = update this'.childs this'.size right'.off_set },
    )

    module _ (lt : k < n.keys (md.max_degree - 1)) where
      split_in_this :
          (this' : Node) × (g' : Ghost) × (s' : Store) × (insert_in_half md cut_node right_leaf k v
              s₁
            ≡ some ((this', right_leaf), s'))
          × (b : IsBetween (right_leaf.keys 0)) × IsCut md c g s sound lo hi n at k v within
              right_leaf.off_set
              (right_leaf.keys 0)
              s₁
              new
              b.low
              b.high
              this'
              right_leaf
              g'
              s'
      unfolding insert_in_half cut_node
      split_in_this =
          let b =
            between (right_leaf.keys 0) (omega (arith, right_first, ascends))
              (omega (arith, right_first)) in
          let same : this.keys (md.max_degree - 1) ≡ n.keys (md.max_degree - 1) =
            halves.this_keys (md.max_degree - 1) (omega (arith, c.degree)) in
          let (this', g', s', run, cut) =
            insert_in_this md c g s sound lo hi n at k v within right_leaf.off_set
              (right_leaf.keys 0) s₁ new b.low b.high cut_node right_leaf
              (IsPair-of (right_leaf.keys 0) b) (omega (arith, b.above))
              (λ j h e. absent j (omega (arith, c.degree)) (sym (halves.this_keys j h) ∙ e)) in
          (this', g', s', rw (lt_test same) (rw run), b, cut)
        where
          lt_test :
              this.keys (md.max_degree - 1) ≡ n.keys (md.max_degree - 1)
              → ltb k (this.keys (md.max_degree - 1)) ≡ true
          lt_test e = ground arith

    module _ (lt : n.keys (md.max_degree - 1) < k) where
      split_in_right :
          (right' : Node) × (g' : Ghost) × (s' : Store) × (insert_in_half md cut_node right_leaf k v
              s₁
            ≡ some ((cut_node, right'), s'))
          × (b : IsBetween (right'.keys 0)) × IsCut md c g s sound lo hi n at k v within
              right_leaf.off_set
              (right'.keys 0)
              s₁
              new
              b.low
              b.high
              cut_node
              right'
              g'
              s'
      unfolding insert_in_half cut_node
      split_in_right =
          let m = if ltb k (n.keys md.max_degree) then k else n.keys md.max_degree in
          let b = between m (ground (arith, ascends)) (ground arith) in
          let missing : (j : ℕ) → j < right_leaf.size → right_leaf.keys j ≢ k = (λ j h e.
            absent (md.max_degree + j) (omega (arith, halves.right_size))
              (sym (halves.right_keys j h) ∙ e)) in
          let same : this.keys (md.max_degree - 1) ≡ n.keys (md.max_degree - 1) =
            halves.this_keys (md.max_degree - 1) (omega (arith, c.degree)) in
          let (right', g', s', run, cut, i, e) =
            insert_in_right md c g s sound lo hi n at k v within right_leaf.off_set m s₁ new b.low
              b.high cut_node right_leaf (IsPair-of m b) (ground arith) missing in
          let first : m ≡ right'.keys 0 = ground (
            arith,
            e.keys 0,
            right_first,
            e.place.below 0,
            e.place.above 0,
            halves.right_size,
            c.degree,
          ) in
          let (b', cut') =
            subst
              (λ m.
                (b : IsBetween m) × IsCut md c g s sound lo hi n at k v within right_leaf.off_set m
                  s₁ new b.low b.high cut_node right' g' s')
              first (b, cut) in
          (right', g', s', rw (not_lt_test same) (rw run), b', cut')
        where
          not_lt_test :
              this.keys (md.max_degree - 1) ≡ n.keys (md.max_degree - 1)
              → ltb k (this.keys (md.max_degree - 1)) ≡ false
          not_lt_test e = ground arith

    -- The new leaf and `this` are written, and the new leaf's first key goes up.
    finish :
        (this' right' : Node) (g' : Ghost) (s' : Store)
        → copy_part_of_node md n leaf_node md.max_degree (n.size - 1) s
          ≡ some ((this, right_leaf), s₁)
        → insert_in_half md cut_node right_leaf k v s₁ ≡ some ((this', right'), s')
        → (b : IsBetween (right'.keys 0))
        → IsCut md c g s sound lo hi n at k v within right_leaf.off_set
            (right'.keys 0)
            s₁
            new
            b.low
            b.high
            this'
            right'
            g'
            s'
        → (e : Entry) × (n' : Node) × (g' : Ghost) × (s' : Store) × (insert_and_split_leaf md n k v
              s
            ≡ some ((e, n'), s'))
          × Inserted md g s 0 (node_id md n.off_set) lo hi k v n (some e) n' g' s'
    unfolding insert_and_split_leaf cut_node done
    finish this' right' g' s' copy_run run b cut =
        let n' : Node = record this' { childs = update this'.childs this'.size right'.off_set } in
        let e : Entry = record { key = right'.keys 0; value = right'.off_set } in
        let moved =
          done-Inserted md c g s sound lo hi n at k v within right_leaf.off_set (right'.keys 0) s₁
            new b.low b.high this' right' g' s' cut n' cut.this_off in
        let s₂ = flushed md s' right'.off_set (to_node_page right') in
        (
          e,
          n',
          g',
          flushed md s₂ this'.off_set (to_node_page this'),
          rw (
            copy_run,
            run,
            flush_to_file-eq md right' s' (rw cut.right_off new.aligned),
            flush_to_file-eq md this' s₂ (rw cut.this_off at.aligned),
          ),
          subst
              (λ o.
                Inserted md g s 0 (node_id md n.off_set) lo hi k v n
                  (some (record { key = right'.keys 0; value = o })) n' g'
                  (flushed md s₂ this'.off_set (to_node_page this')))
              (sym cut.right_off) moved,
        )

  -- A full leaf without the key is split, and the key is in one of the halves.
  pub insert_and_split_leaf-Inserted :
      (e : Entry) × (n' : Node) × (g' : Ghost) × (s' : Store) × (insert_and_split_leaf md n k v s
        ≡ some ((e, n'), s'))
      × Inserted md g s 0 (node_id md n.off_set) lo hi k v n (some e) n' g' s'
  insert_and_split_leaf-Inserted =
      let (this, new_leaf, s₁, run, halves, new) =
        copy_part_of_node-Halves md c g s sound.allocated n leaf_node md.max_degree
          (omega (arith, c.degree)) in
      elim (Bool-cases (ltb k (n.keys (md.max_degree - 1)))) [
        | inl q ↦
            let (this', g', s', run', b, cut) =
              split_in_this this new_leaf halves s₁ new (ground arith) in
            finish this new_leaf halves s₁ new this' new_leaf g' s' run run' b cut
        | inr q ↦
            let (right', g', s', run', b, cut) =
              split_in_right this new_leaf halves s₁ new
                (ground (arith, absent (md.max_degree - 1), c.degree)) in
            finish this new_leaf halves s₁ new (cut_node this new_leaf halves s₁ new) right' g' s'
              run run' b cut
      ]
