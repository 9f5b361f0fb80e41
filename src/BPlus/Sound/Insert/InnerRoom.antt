-- ===== src/BPlus/Sound/Insert/InnerRoom.antt =====
-- `insertRight` of pkg/storage/bplustree/BPlusTreeNode.cpp: an inner node with room takes the entry
-- of a child that has been split.
use godbee.Base.{
  ℕ, suc, ◌+◌, ◌*◌, ◌≤◌, ◌<◌, ◌≡◌, ◌≢◌, refl, sym, ap, subst, ◌∙◌, none, some, inl, inr, arith,
  false, ◌==◌, Bool-cases,
}
use godbee.BPlus.Search.{Key, IsAscending}
use godbee.BPlus.Offsets.{MetaData, IsConfig, node_id, value_idx}
use godbee.BPlus.Store.{Value, Node, NodePage, node_page, Store, to_node_page}
use godbee.BPlus.Node.{Entry, open_right, put_right, insert_right}
use godbee.BPlus.Node.Loops.{insert_at, open_right-place, open_right-keys, open_right-childs}
use godbee.BPlus.Sound.{
  Ghost, values, tree, lower, upper, as_page, IsInner, IsNode, AreNodes, IsSound,
}
use godbee.BPlus.Sound.Copy.{SameNode-to_node_page, IsNode-same}
use godbee.BPlus.Sound.Get.{IsAt, Descent}
use godbee.BPlus.Sound.Pages.{Entered, IsInner-Entered}
use godbee.BPlus.Sound.Flush.{
  flushed, flush_to_file-eq, flushed_self, flushed-other, flushed-IsAllocated, flushed-contents,
}
use godbee.BPlus.Sound.Insert.{Sized, got_more, no_less, size_of_page, whole, split, Inserted}
use godbee.BPlus.Sound.Insert.Inner.{
  lower_sizes, lower_bound, upper_bound, absent_of_between, IsInner-apart, Below, child_page,
}

-- `insertRight`: the node, and the page that it writes.
pub record InsertedRight (md : MetaData) (n : Node) (key : Key) (value : ℕ) (n' : Node)
    : Type 0 where
  pub index : ℕ
  pub entered : Entered (as_page n) key index (as_page n')
  pub childs :
      (j : ℕ) → j ≤ n.size + 1 → n'.childs j ≡ insert_at (index + 1) (n.size + 1) value n.childs j
  pub off_set : n'.off_set ≡ n.off_set

pub insert_right-InsertedRight :
    (md : MetaData) (n : Node) (key : Key) (value : ℕ) (s : Store)
    → value_idx md n.off_set ≡ 0
    → IsAscending n.keys n.size
    → ((j : ℕ) → j < n.size → n.keys j ≢ key)
    → 0 < n.size
    → (n' : Node) × (insert_right md n key value s
        ≡ some (n', flushed md s n'.off_set (to_node_page n')))
      × InsertedRight md n key value n'
unfolding insert_right put_right
insert_right-InsertedRight md n key value s aligned asc absent pos =
    let n' : Node = put_right n key value (open_right n key) in
    let some_key : (n.size == 0) ≡ false = ground arith in
    (
      n',
      rw some_key (rw (flush_to_file-eq md n' s aligned)),
      record {
        index = (open_right n key).index;
        entered = record {
          place = open_right-place n key asc absent pos;
          flag = refl;
          size = refl;
          keys = λ j h. open_right-keys n key key j h;
        };
        childs = λ j h. open_right-childs n key value j h;
        off_set = refl;
      },
    )

module _ (md : MetaData) (c : IsConfig md) (g : Ghost) (s : Store) (height lo hi : ℕ)
    (sound : IsSound md g s (suc height)) (n : Node) (at : IsAt md g s (suc height) lo hi n)
    (k : Key) (v : Value) (d : Descent md g s height lo hi n k) where
  -- The child has been split: the facts that the level above uses.
  pub record IsSplit (e : Entry) (g' : Ghost) : Type 0 where
    pub between : (lower n.keys lo d.index < e.key) × (e.key < upper n.keys n.size hi d.index)
    pub child_role :
        g'.role (child_page md c g s height lo hi sound n at k v d)
        ≡ tree height (lower n.keys lo d.index) e.key
    pub aligned : value_idx md e.value ≡ 0
    pub next_role :
        g'.role (node_id md e.value) ≡ tree height e.key (upper n.keys n.size hi d.index)

  module _ {e : Entry} {child' : Node} {g' : Ghost} {s' : Store}
      (b : Below md c g s height lo hi sound n at k v d (some e) child' g' s') where
    pub below-IsSplit : IsSplit e g'
    below-IsSplit = elim b.outcome [
      | split e w r a q ↦ record { between = w; child_role = r; aligned = a; next_role = q }
    ]

    pub in_range : (lo < e.key) × (e.key < hi)
    in_range = (
      omega (arith, below-IsSplit.between, lower_bound md g at.node d.index d.in_range),
      omega (arith, below-IsSplit.between, upper_bound md g at.node d.index d.in_range),
    )

    pub absent : (j : ℕ) → j < n.size → n.keys j ≢ e.key
    absent =
        absent_of_between md g at.node d.index e.key d.in_range below-IsSplit.between.0
          below-IsSplit.between.1

    pub here : g'.role (node_id md n.off_set) ≡ tree (suc height) lo hi
    here = (b.above _ _ _ _ (omega arith) at.role).0

    -- Another inner node of this level has not got the child.
    pub other-IsInner :
        (p l u : ℕ)
        → p ≢ node_id md n.off_set
        → g'.role p ≡ tree (suc height) l u
        → (np : NodePage) × (s'.file p ≡ node_page np) × IsInner md g' height l u np
    other-IsInner p l u ne e' =
        let old : g.role p ≡ tree (suc height) l u =
          b.above_back p (suc height) l u (omega arith) e' in
        let (np, f, ok) = sound.nodes p (suc height) l u (omega arith) old in
        (
          np,
          (b.above p (suc height) l u (omega arith) old).1 ∙ f,
          IsInner-apart md g g' ok d.at.role below-IsSplit.between b.level (λ w. ne (
              sound.disjoint p (node_id md n.off_set) (suc height) l u lo hi old at.role
                (omega (arith, in_range)) (omega (arith, in_range)))),
        )

    module _ (room : n.size + 1 < 2 * md.max_degree) where
      pub insert_right-Inserted :
          (n' : Node) × (s'' : Store) × (insert_right md n e.key e.value s' ≡ some (n', s''))
          × Inserted md g s (suc height) (node_id md n.off_set) lo hi k v n none n' g' s''
      insert_right-Inserted =
          let (n', run, r) =
            insert_right-InsertedRight md n e.key e.value s' at.aligned at.node.ascending absent
              at.node.nonempty in
          let inner : IsInner md g' height lo hi (as_page n') =
            IsInner-Entered md g g' e.value sound.disjoint at.node r.entered r.childs room in_range
              d.at.role below-IsSplit.between b.level below-IsSplit.child_role below-IsSplit.aligned
              below-IsSplit.next_role in
          (
            n',
            flushed md s' n'.off_set (to_node_page n'),
            run,
            written n' r.off_set inner (omega (arith, r.entered.size)),
          )
        where
          no_values : g'.role (node_id md n.off_set) ≢ values
          no_values q = ground (arith, here)

          nodes_written :
              (n' : Node)
              → n'.off_set ≡ n.off_set
              → IsInner md g' height lo hi (as_page n')
              → AreNodes md g' (flushed md s' n'.off_set (to_node_page n')) (suc height)
          nodes_written n' off inner p h l u le e' =
              elim (Bool-cases (p == node_id md n'.off_set)) [
                | inl q ↦
                    let same : p ≡ node_id md n'.off_set = ground arith in
                    let old : g'.role p ≡ tree (suc height) lo hi =
                      ap g'.role (same ∙ ap (node_id md) off) ∙ here in
                    (
                      to_node_page n',
                      ap (flushed md s' n'.off_set (to_node_page n')).file same
                          ∙ flushed_self md s' n'.off_set (to_node_page n'),
                      relabel (ground arith) (ground arith) (ground arith)
                          (IsNode-same md g' (SameNode-to_node_page n') (suc height) lo hi inner),
                    )
                | inr q ↦
                    let (np, f, ok) = elsewhere (ground (arith, off)) in
                    (np, flushed-other md s' n'.off_set (to_node_page n') p (ground arith) ∙ f, ok)
              ]
            where
              relabel :
                  suc height ≡ h
                  → lo ≡ l
                  → hi ≡ u
                  → IsNode md g' (suc height) lo hi (to_node_page n')
                  → IsNode md g' h l u (to_node_page n')
              relabel x y z t =
                  subst (λ h. IsNode md g' h l u (to_node_page n')) x
                    (subst (λ l. IsNode md g' (suc height) l u (to_node_page n')) y
                      (subst (λ u. IsNode md g' (suc height) lo u (to_node_page n')) z t))

              elsewhere :
                  p ≢ node_id md n.off_set
                  → (np : NodePage) × (s'.file p ≡ node_page np) × IsNode md g' h l u np
              elsewhere ne = elim (Bool-cases (h == suc height)) [
                | inr q ↦ b.sound.nodes p h l u (ground arith) e'
                | inl q ↦
                    let same : h ≡ suc height = ground arith in
                    let (np, f, ok) = other-IsInner p l u ne (e' ∙ ap (λ x. tree x l u) same) in
                    (np, f, subst (λ x. IsNode md g' x l u np) (sym same) ok)
              ]

          sizes_written :
              (n' : Node)
              → n'.off_set ≡ n.off_set
              → n.size ≤ n'.size
              → (p h l u : ℕ) (np : NodePage) → h ≤ suc height
              → g'.role p ≡ tree h l u
              → (flushed md s' n'.off_set (to_node_page n')).file p ≡ node_page np
              → Sized md g s (suc height) (node_id md n.off_set) n none p h np
          sizes_written n' off big p h l u np le r f =
              elim (Bool-cases (p == node_id md n'.off_set)) [
                | inl q ↦
                    let same : p ≡ node_id md n'.off_set = ground arith in
                    let page = flushed_self md s' n'.off_set (to_node_page n') in
                    let size : n'.size ≡ np.size = size_of_page n' np (
                      sym page
                      ∙ ap (flushed md s' n'.off_set (to_node_page n')).file (sym same)
                      ∙ f) in
                    let at_n : p ≡ node_id md n.off_set = same ∙ ap (node_id md) off in
                    got_more at_n (ground (arith, ap g'.role at_n, r, here)) refl
                      (omega (arith, size))
                | inr q ↦
                    let f' =
                      sym (flushed-other md s' n'.off_set (to_node_page n') p (λ z. ground arith))
                      ∙ f in
                    elim (Bool-cases (h == suc height)) [
                      | inr z ↦
                          lower_sizes md c g s height lo hi sound n at k v d b none p h l u np
                            (ground arith) r f'
                      | inl z ↦
                          let old = b.above_back p h l u (ground arith) r in
                          no_less l u np old (sym (b.above p h l u (ground arith) old).1 ∙ f')
                            (omega arith) (λ _ _. refl)
                    ]
              ]

          written :
              (n' : Node)
              → n'.off_set ≡ n.off_set
              → IsInner md g' height lo hi (as_page n')
              → n.size ≤ n'.size
              → Inserted md g s
                  (suc height)
                  (node_id md n.off_set)
                  lo
                  hi
                  k
                  v
                  n
                  none
                  n'
                  g'
                  (flushed md s' n'.off_set (to_node_page n'))
          written n' off inner big =
              let out : g'.role (node_id md n'.off_set) ≢ values = rw off no_values in
              record {
                sound = record {
                  allocated =
                      flushed-IsAllocated md g' s' b.sound.allocated n'.off_set (to_node_page n')
                        out;
                  disjoint = b.sound.disjoint;
                  ordered = b.sound.ordered;
                  nodes = nodes_written n' off inner;
                };
                above = λ p h l u lt e'.
                    let x = b.above p h l u (omega arith) e' in
                    (
                      x.0,
                      flushed-other md s' n'.off_set (to_node_page n') p
                            (rw off (λ q. ground (arith, at.role)))
                          ∙ x.1,
                    );
                above_back = λ p h l u lt e'. b.above_back p h l u (omega arith) e';
                level = λ p l u ne e'. (b.above p (suc height) l u (omega arith) e').0;
                contents_lem = λ j.
                    flushed-contents md g' s' b.sound.allocated n'.off_set (to_node_page n') out j
                    ∙ b.contents_lem j;
                bounded = b.bounded;
                off_set = off;
                sizes = sizes_written n' off big;
                outcome = whole here inner;
              }
