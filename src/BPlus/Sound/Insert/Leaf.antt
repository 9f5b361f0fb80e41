-- ===== src/BPlus/Sound/Insert/Leaf.antt =====
-- `leafInsert` of pkg/storage/bplustree/BPlusTreeNode.cpp on a sound store.
use godbee.Base.{
  ℕ, ◌-◌, ◌*◌, ◌≤◌, ◌<◌, ◌≡◌, ◌≢◌, refl, sym, ap, subst, ◌∙◌, none, some, inl, inr, arith, true,
  zero, suc, ltb, ◌==◌, if◌then◌else◌, Bool-cases,
}
use godbee.BPlus.Search.{Key, IsAscending, index_node_equal}
use godbee.BPlus.Search.Position.{index_node_equal_iff}
use godbee.BPlus.Offsets.{MetaData, IsConfig, node_id, value_idx}
use godbee.BPlus.Store.{Value, Node, NodePage, node_page, Store, to_node_page}
use godbee.BPlus.Node.{
  open_left, put_left, insert_left, update_value_duplicated_key, insert_in_leaf,
}
use godbee.BPlus.Node.Loops.{insert_at, open_left-place, open_left-keys, open_left-childs}
use godbee.BPlus.Sound.{
  Ghost, values, tree, as_page, IsLeaf, IsAllocated, AreNodes, IsSound, contents,
}
use godbee.BPlus.Sound.Copy.{SameNode-to_node_page, IsNode-same}
use godbee.BPlus.Sound.Get.{IsAt}
use godbee.BPlus.Sound.Pages.{Entered, IsLeaf-Entered}
use godbee.BPlus.Sound.Place.{insert_new_value_to_file-Placed, update_value_to_file-eq}
use godbee.BPlus.Sound.Flush.{
  flushed, flush_to_file-eq, flushed_self, flushed-other, flushed-IsAllocated, flushed-contents,
}
use godbee.BPlus.Sound.Insert.{Sized, got_more, no_less, whole, size_of_page, Inserted}

-- A leaf without the key that is written takes no notice.
pub IsLeaf-elsewhere :
    (md : MetaData) (g g' : Ghost) {l u : ℕ} {p : NodePage} (k : Key)
    → ((j : Key) → j ≢ k → g'.loc j ≡ g.loc j)
    → ((l ≤ k) × (k < u) → ⊥)
    → IsLeaf md g l u p
    → IsLeaf md g' l u p
IsLeaf-elsewhere md g g' {p} k others out leaf = record {
  flag = leaf.flag;
  room = leaf.room;
  ascending = leaf.ascending;
  within = leaf.within;
  located = λ i h. others (p.keys i) (λ e. out (omega (arith, leaf.within i h))) ∙ leaf.located i h;
  complete = λ j a b absent. others j (λ e. out (omega arith)) ∙ leaf.complete j a b absent;
}

-- `insertLeft`, up to the page that it writes.
pub record InsertedLeft (md : MetaData) (g : Ghost) (s : Store) (n : Node) (k : Key) (v : Value)
    (n' : Node) (g' : Ghost) (s' : Store) : Type 0 where
  pub id : ℕ
  pub index : ℕ
  pub entered : Entered (as_page n) k index (as_page n')
  pub childs : (j : ℕ) → j ≤ n.size → n'.childs j ≡ insert_at index n.size id n.childs j
  pub off_set : n'.off_set ≡ n.off_set
  pub allocated : IsAllocated md g' s'
  pub loc_self : g'.loc k ≡ some id
  pub loc_other : (j : Key) → j ≢ k → g'.loc j ≡ g.loc j
  pub role_kept :
      (p height lo hi : ℕ) → g.role p ≡ tree height lo hi → g'.role p ≡ tree height lo hi
  pub role_back :
      (p height lo hi : ℕ) → g'.role p ≡ tree height lo hi → g.role p ≡ tree height lo hi
  pub file :
      (p height lo hi : ℕ)
      → g.role p ≡ tree height lo hi
      → p ≢ node_id md n.off_set
      → s'.file p ≡ s.file p
  pub file_self : s'.file (node_id md n.off_set) ≡ node_page (to_node_page n')
  pub contents_lem :
      (j : Key) → contents md g' s' j ≡ (if j == k then some v else contents md g s j)

module _ (md : MetaData) (c : IsConfig md) (g : Ghost) (s : Store) (al : IsAllocated md g s)
    (n : Node) (k : Key) (v : Value) where
  pub insert_left-InsertedLeft :
      (height lo hi : ℕ)
      → g.role (node_id md n.off_set) ≡ tree height lo hi
      → value_idx md n.off_set ≡ 0
      → IsAscending n.keys n.size
      → ((j : ℕ) → j < n.size → n.keys j ≢ k)
      → (n' : Node) × (g' : Ghost) × (s' : Store) × (insert_left md n k v s ≡ some (n', s'))
        × InsertedLeft md g s n k v n' g' s'
  unfolding insert_left put_left
  insert_left-InsertedLeft height lo hi role aligned asc absent =
      let (id, g₁, s₁, e, p) = insert_new_value_to_file-Placed md c g s al k v in
      let n' : Node = put_left n k id (open_left n k) in
      let no_values : g₁.role (node_id md n.off_set) ≢ values =
        λ q. ground (arith, p.role_kept _ _ _ _ role) in
      (
        n',
        g₁,
        flushed md s₁ n.off_set (to_node_page n'),
        rw (e, flush_to_file-eq md n' s₁ aligned),
        record {
          id = id;
          index = (open_left n k).index;
          entered = record {
            place = open_left-place n k asc absent;
            flag = refl;
            size = refl;
            keys = λ j h. open_left-keys n k k j h;
          };
          childs = λ j h. open_left-childs n k id j h;
          off_set = refl;
          allocated =
              flushed-IsAllocated md g₁ s₁ p.allocated n.off_set (to_node_page n') no_values;
          loc_self = p.loc_self;
          loc_other = p.loc_other;
          role_kept = p.role_kept;
          role_back = p.role_back;
          file = λ q h l u r ne.
              flushed-other md s₁ n.off_set (to_node_page n') q ne ∙ p.file q h l u r;
          file_self = flushed_self md s₁ n.off_set (to_node_page n');
          contents_lem = λ j.
              flushed-contents md g₁ s₁ p.allocated n.off_set (to_node_page n') no_values j
              ∙ p.contents_lem j;
        },
      )

module _ (md : MetaData) (c : IsConfig md) (g : Ghost) (s : Store) (sound : IsSound md g s 0)
    (lo hi : ℕ) (n : Node) (at : IsAt md g s 0 lo hi n) (k : Key) (v : Value)
    (within : (lo ≤ k) × (k < hi)) where
  -- Another leaf has not got the key in its range.
  pub other_leaf :
      (p l u : ℕ) → p ≢ node_id md n.off_set → g.role p ≡ tree 0 l u → (l ≤ k) × (k < u) → ⊥
  other_leaf p l u ne r w =
      ne (sound.disjoint p (node_id md n.off_set) 0 l u lo hi r at.role (omega arith) (omega arith))

  -- The key is there: its value is overwritten.
  pub insert_duplicate :
      (i : ℕ)
      → i < n.size
      → n.keys i ≡ k
      → (s' : Store) × (insert_in_leaf md n k v (some i) s ≡ some ((none, n), s'))
        × Inserted md g s 0 (node_id md n.off_set) lo hi k v n none n g s'
  unfolding insert_in_leaf update_value_duplicated_key
  insert_duplicate i h e =
      let (s', run, al, map, file) =
        update_value_to_file-eq md g s sound.allocated k v (n.childs i)
          (rw e at (at.node.located i h)) in
      (
        s',
        rw run,
        record {
          sound = record {
            allocated = al;
            disjoint = sound.disjoint;
            ordered = sound.ordered;
            nodes = λ p h l u le r.
                let (np, f, ok) = sound.nodes p h l u le r in (np, file p h l u r ∙ f, ok);
          };
          above = λ p h l u lt r. (r, file p h l u r);
          above_back = λ p h l u lt r. r;
          level = λ p l u ne r. r;
          contents_lem = map;
          bounded = λ z w. w;
          off_set = refl;
          sizes = λ p h l u np le r f.
              no_less l u np r (sym (file p h l u r) ∙ f) (omega arith) (λ _ _. refl);
          outcome = whole at.role at.node;
        },
      )

  pub absent_of_none : index_node_equal n.keys n.size k ≡ none → (j : ℕ) → j < n.size → n.keys j ≢ k
  absent_of_none e j h q =
      ground (arith, (index_node_equal_iff n.keys n.size k at.node.ascending j).1 (h, q))

  nodes_after :
      (n' : Node) (g' : Ghost) (s' : Store)
      → InsertedLeft md g s n k v n' g' s'
      → IsLeaf md g' lo hi (as_page n')
      → AreNodes md g' s' 0
  nodes_after n' g' s' r leaf p (suc h) l u le e = absurd (omega arith)
  nodes_after n' g' s' r leaf p zero l u le e = elim (Bool-cases (p == node_id md n.off_set)) [
    | inl q ↦ (
      to_node_page n',
      ground (arith, r.file_self),
      at_leaf (ground (arith, r.role_kept _ _ _ _ at.role))
          (ground (arith, r.role_kept _ _ _ _ at.role))
          (IsNode-same md g' (SameNode-to_node_page n') 0 lo hi leaf),
    )
    | inr q ↦
        let (np, f, ok) = sound.nodes p 0 l u le (r.role_back p 0 l u e) in
        (
          np,
          r.file p 0 l u (r.role_back p 0 l u e) (ground arith) ∙ f,
          IsLeaf-elsewhere md g g' k r.loc_other
              (other_leaf p l u (ground arith) (r.role_back p 0 l u e)) ok,
        )
  ]
    where
      at_leaf :
          lo ≡ l
          → hi ≡ u
          → IsLeaf md g' lo hi (to_node_page n')
          → IsLeaf md g' l u (to_node_page n')
      at_leaf x y t =
          subst (λ a. IsLeaf md g' a u (to_node_page n')) x
            (subst (λ b. IsLeaf md g' lo b (to_node_page n')) y t)

  sizes_after :
      (n' : Node) (g' : Ghost) (s' : Store)
      → InsertedLeft md g s n k v n' g' s'
      → (p h l u : ℕ) (np : NodePage) → h ≤ 0
      → g'.role p ≡ tree h l u
      → s'.file p ≡ node_page np
      → Sized md g s 0 (node_id md n.off_set) n none p h np
  sizes_after n' g' s' r p h l u np le e f = elim (Bool-cases (p == node_id md n.off_set)) [
    | inl q ↦
        let same : p ≡ node_id md n.off_set = ground arith in
        let page : node_page (to_node_page n') ≡ node_page np =
          sym r.file_self ∙ ap s'.file (sym same) ∙ f in
        let size : n'.size ≡ np.size = size_of_page n' np page in
        got_more same (omega arith) refl (omega (arith, size, r.entered.size))
    | inr q ↦
        let old = r.role_back p h l u e in
        no_less l u np old (sym (r.file p h l u old (λ z. ground arith)) ∙ f) (omega arith)
          (λ _ _. refl)
  ]

  -- The key is new and there is room.
  pub insert_new :
      index_node_equal n.keys n.size k ≡ none
      → ltb n.size (2 * md.max_degree - 1) ≡ true
      → (n' : Node) × (g' : Ghost) × (s' : Store) × (insert_in_leaf md n k v none s
          ≡ some ((none, n'), s'))
        × Inserted md g s 0 (node_id md n.off_set) lo hi k v n none n' g' s'
  unfolding insert_in_leaf
  insert_new missing room =
      let (n', g', s', run, r) =
        insert_left-InsertedLeft md c g s sound.allocated n k v 0 lo hi at.role at.aligned
          at.node.ascending (absent_of_none missing) in
      let leaf : IsLeaf md g' lo hi (as_page n') =
        IsLeaf-Entered md g g' at.node r.entered r.childs (ground (arith, c.degree)) within
          r.loc_self r.loc_other in
      (
        n',
        g',
        s',
        rw (room, run),
        record {
          sound = record {
            allocated = r.allocated;
            disjoint = λ p q h l u l' u' e e'.
                sound.disjoint p q h l u l' u' (r.role_back p h l u e) (r.role_back q h l' u' e');
            ordered = λ p h l u e. sound.ordered p h l u (r.role_back p h l u e);
            nodes = nodes_after n' g' s' r leaf;
          };
          above = λ p h l u lt e.
              (r.role_kept p h l u e, r.file p h l u e (λ q. ground (arith, at.role)));
          above_back = λ p h l u lt e. r.role_back p h l u e;
          level = λ p l u ne e. r.role_kept p 0 l u e;
          contents_lem = r.contents_lem;
          bounded = λ z w p h l u e. w p h l u (r.role_back p h l u e);
          off_set = r.off_set;
          sizes = sizes_after n' g' s' r;
          outcome = whole (r.role_kept _ _ _ _ at.role) leaf;
        },
      )
