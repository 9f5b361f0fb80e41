-- ===== src/BPlus/Sound/Remove/Leaf.antt =====
-- `leafRemove` of pkg/storage/bplustree/BPlusTreeNode.cpp on a leaf under a father.
use godbee.Base.{
  ℕ, zero, suc, ◌-◌, ◌≤◌, ◌<◌, ◌≡◌, ◌≢◌, refl, sym, ap, subst, ◌∙◌, inl, inr, Option, none, some,
  arith, Bool, true, false, length, ltb, ◌==◌, if◌then◌else◌, Bool-cases,
}
use mathlib.Core.Option
use godbee.BPlus.Search.{Key, index_node_equal, is_existing}
use godbee.BPlus.Search.Position.{index_node_equal_iff}
use godbee.BPlus.Offsets.{MetaData, IsConfig, node_id, value_idx}
use godbee.BPlus.Store.{Node, NodePage, Store, to_node_page, M, ◌>>=◌, ◌>>◌, pure, flush_to_file}
use godbee.BPlus.Removal.{close_at, at_found, remove_left, remove_under, leaf_remove}
use godbee.BPlus.Sound.{Ghost, tree, lower, upper, as_page, IsLeaf, contents}
use godbee.BPlus.Sound.Weak.{IsWeak}
use godbee.BPlus.Sound.Flush.{flushed, flush_to_file-eq}
use godbee.BPlus.Sound.Get.{Option-cases, index-loc}
use godbee.BPlus.Sound.Insert.Leaf.{IsLeaf-elsewhere}
use godbee.BPlus.Sound.Remove.Repair.{AreFull, Repaired}
use godbee.BPlus.Sound.Remove.Redistribute.{redistribute_from_leaf-Moves}
use godbee.BPlus.Sound.Remove.Value.{
  forget, released, forget-IsAllocated, forget-contents, forget-IsLeaf, remove_left_at-eq,
}
use godbee.BPlus.Sound.Remove.Gone.{
  Entry, Removed, Unwritten, Ready-of, nothing_gone, itself, write,
}

module _ (md : MetaData) {g : Ghost} (s : Store) {lo hi : ℕ} (n : Node)
    (leaf : IsLeaf md g lo hi (as_page n)) (key : Key) (within : (lo ≤ key) × (key < hi)) where
  -- Where a leaf has a key that has a value.
  pub entry_of :
      (id : ℕ)
      → g.loc key ≡ some id
      → (i : ℕ) × (index_node_equal n.keys n.size key ≡ some i)
        × (i < n.size)
        × (n.keys i ≡ key)
        × (n.childs i ≡ id)
  entry_of id loc = elim (Option-cases (index_node_equal n.keys n.size key)) [
    | inl e ↦ ground (arith, e, loc, index-loc md g s n leaf key within)
    | inr (i, e) ↦
        let p = (index_node_equal_iff n.keys n.size key leaf.ascending i).0 e in
        let at : some (n.childs i) ≡ g.loc key =
          ap (Option.map n.childs) (sym e) ∙ index-loc md g s n leaf key within in
        (i, e, p.0, p.1, ground (arith, at, loc))
  ]

  pub no_entry : g.loc key ≡ none → index_node_equal n.keys n.size key ≡ none
  no_entry loc = elim (Option-cases (index_node_equal n.keys n.size key)) [
    | inl e ↦ e
    | inr (i, e) ↦
        let at : some (n.childs i) ≡ g.loc key =
          ap (Option.map n.childs) (sym e) ∙ index-loc md g s n leaf key within in
        ground (arith, at, loc)
  ]

pub existing :
    (n : Node) (key : Key) (i : ℕ)
    → index_node_equal n.keys n.size key ≡ some i
    → is_existing n.keys n.size key ≡ true
unfolding is_existing
existing n key i e = rw (e, is_existing) refl

pub missing :
    (n : Node) (key : Key)
    → index_node_equal n.keys n.size key ≡ none
    → is_existing n.keys n.size key ≡ false
unfolding is_existing
missing n key e = rw (e, is_existing) refl

-- The record is about the roles only.
pub IsWeak-roles :
    (md : MetaData) (g g' : Ghost) {h lo hi : ℕ} {p : NodePage}
    → ((q x y : ℕ) → g.role q ≡ tree h x y → g'.role q ≡ tree h x y)
    → IsWeak md g h lo hi p
    → IsWeak md g' h lo hi p
IsWeak-roles md g g' same w = record {
  flag = w.flag;
  room = w.room;
  ascending = w.ascending;
  within = w.within;
  aligned = w.aligned;
  child = λ i h. same _ _ _ (w.child i h);
}

module _ (md : MetaData) (c : IsConfig md) {g : Ghost} {s : Store} {flo fhi : ℕ} {n f : Node}
    {i : ℕ} (entry : Entry md g s 0 flo fhi n f i) (key : Key)
    (within : (lower f.keys flo i ≤ key) × (key < upper f.keys f.size fhi i)) where
  aligned : value_idx md n.off_set ≡ 0
  aligned = ap (value_idx md) (sym entry.at) ∙ entry.father.aligned i entry.index

  -- With an entry to spare, `removeLeft` takes the key out of the leaf.
  module _ (id : ℕ) (loc : g.loc key ≡ some id) {gain : ℕ} {n' f' : Node} {g' : Ghost} {s' : Store}
      (r : Repaired md gain g s 0 flo fhi n f
        (lower f.keys flo i)
        (upper f.keys f.size fhi i)
        n'
        f'
        g'
        s')
      (spare : md.max_degree ≤ n'.size) where
    loc' : g'.loc key ≡ some id
    loc' = r.loc key ∙ loc

    in_range : (r.new_lo ≤ key) × (key < r.new_hi)
    in_range = (omega (arith, r.wider, within), omega (arith, r.wider, within))

    there :
        (j : ℕ) × (index_node_equal n'.keys n'.size key ≡ some j)
        × (j < n'.size)
        × (n'.keys j ≡ key)
        × (n'.childs j ≡ id)
    there = entry_of md s n' r.node key in_range id loc'

    abbrev after : Ghost
    after = forget g' key id (length s'.del_values.list)

    abbrev less : Node
    less = close_at md n' there.0

    -- Other leaves have not got the key.
    other_leaf :
        (p x y : ℕ) → p ≢ node_id md n.off_set → g'.role p ≡ tree 0 x y → (x ≤ key) × (key < y) → ⊥
    other_leaf p x y d q w = d (
        r.disjoint p (node_id md n.off_set) 0 x y r.new_lo r.new_hi q r.role
          (omega (arith, w, in_range)) (omega (arith, w, in_range)))

    full' : AreFull md after (released s' id) 0 (node_id md n.off_set)
    full' p zero x y le d q =
        let (np, file, ok, big) = r.full p 0 x y le d q in
        (
          np,
          file,
          IsLeaf-elsewhere md g' after key (λ j e. ground (arith, e)) (other_leaf p x y d q) ok,
          big,
        )
    full' p (suc k) x y le d q = absurd (omega arith)

    less-Unwritten : Unwritten md g s 0 flo fhi n f key true less f' after (released s' id)
    unfolding close_at contents
    less-Unwritten = record {
      allocated = forget-IsAllocated md g' s' r.allocated key id loc';
      disjoint = r.disjoint;
      ordered = r.ordered;
      full = subst (AreFull md after (released s' id) 0) (ap (node_id md) (sym r.off_set.0)) full';
      father = IsWeak-roles md g' after (λ q x y e. e) r.father;
      father_size = r.father_size;
      off_set = r.off_set;
      only = r.only;
      lo = r.new_lo;
      hi = r.new_hi;
      role = ap (λ z. g'.role (node_id md z)) r.off_set.0 ∙ r.role;
      node =
          forget-IsLeaf md g' s' r.allocated key id loc' r.new_lo r.new_hi n' r.node there.0 there.2
            there.3;
      big = omega (arith, spare, there.2);
      above = r.above;
      above_back = r.above_back;
      level = r.level;
      bounded = r.bounded;
      contents_lem = λ j.
          forget-contents md g' s' r.allocated key id loc' j
          ∙ ap (λ z. if j == key then none else z) (r.contents_lem j);
      result = rw loc refl;
      quiet = λ z. absurd (ground (arith, z));
    }

    abbrev take : M (Bool × Node × Option Node)
    take = do n'' ← remove_left md n' key; flush_to_file md n''; pure (true, n'', some f')

    pub taken :
        (n'' : Node) × (g'' : Ghost) × (s'' : Store) × (take s' ≡ some ((true, n'', some f'), s''))
        × Removed md g s 0 flo fhi n f key true n'' f' g'' s''
    unfolding remove_left at_found close_at
    taken =
        let at = aligned in
        let al : value_idx md less.off_set ≡ 0 = ap (value_idx md) r.off_set.0 ∙ at in
        (
          less,
          after,
          flushed md (released s' id) less.off_set (to_node_page less),
          rw
              (
                there.1,
                remove_left_at-eq md g' s' r.allocated key id loc' r.new_lo r.new_hi n' r.node
                    there.0 there.2 there.3 there.4 r.node.flag,
                flush_to_file-eq md less (released s' id) al,
              )
              refl,
          write md less-Unwritten,
        )

  -- On every path of `leafRemove`, the key is gone.
  pub leaf_remove-Removed :
      (done : Bool) × (n' : Node) × (f' : Node) × (g' : Ghost) × (s' : Store) × (leaf_remove md n
          (some f)
          i
          key
          s
        ≡ some ((done, n', some f'), s'))
      × Removed md g s 0 flo fhi n f key done n' f' g' s'
  unfolding leaf_remove remove_under contents
  leaf_remove-Removed = elim (Option-cases (g.loc key)) [
    | inl absent ↦ (
      false,
      n,
      f,
      g,
      s,
      rw (missing n key (no_entry md s n entry.node key within absent)) refl,
      nothing_gone md entry key (rw absent refl),
    )
    | inr (id, loc) ↦
        let (j, found, _, _, _) = entry_of md s n entry.node key within id loc in
        elim (Bool-cases (ltb (md.max_degree - 1) n.size)) [
          | inl e ↦
              let (n', g', s', run, r) =
                taken id loc (itself md (Ready-of md entry) entry.node)
                  (ground (arith, c.degree)) in
              (true, n', f, g', s', rw (existing n key j found, e) run, r)
          | inr e ↦
              let (n₁, f₁, g₁, s₁, move, ok) =
                redistribute_from_leaf-Moves md c g s flo fhi n f i (Ready-of md entry)
                  (ground (arith, c.degree)) in
              let (n', g', s', run, r) = taken id loc ok (omega (arith, ok.size, entry.big)) in
              (true, n', f₁, g', s', rw (existing n key j found, e, move) run, r)
        ]
  ]
