-- ===== src/BPlus/Sound/Insert/Walk.antt =====
-- `leafInsert` and `internalInsert` of pkg/storage/bplustree/BPlusTreeNode.cpp on a sound store, on
-- every path: a key that is there, a node with room, and a full node that is split.
use godbee.Base.{
  ℕ, zero, suc, ◌-◌, ◌*◌, ◌≤◌, ◌<◌, ◌≡◌, refl, ap, ◌∙◌, Option, none, some, inl, inr, arith, true,
  false, ltb, ◌==◌, Bool-cases,
}
use godbee.BPlus.Search.{Key, index_node_equal}
use godbee.BPlus.Search.Position.{index_node_equal_iff}
use godbee.BPlus.Offsets.{MetaData, IsConfig, node_id}
use godbee.BPlus.Store.{Value, leaf_node, internal_node, Node, Store}
use godbee.BPlus.Node.{Entry, leaf_insert, insert_in_leaf}
use godbee.BPlus.Removal.{is_leaf}
use godbee.BPlus.Tree.{add_entry, internal_insert}
use godbee.BPlus.Sound.{Ghost, IsSound}
use godbee.BPlus.Sound.Get.{IsAt, Descent, descend, child_for-eq, Option-cases}
use godbee.BPlus.Sound.Insert.{Inserted}
use godbee.BPlus.Sound.Insert.Leaf.{insert_duplicate, absent_of_none, insert_new}
use godbee.BPlus.Sound.Insert.LeafSplit.{insert_and_split_leaf-Inserted}
use godbee.BPlus.Sound.Insert.Inner.{Below, whole-Inserted}
use godbee.BPlus.Sound.Insert.InnerRoom.{insert_right-Inserted}
use godbee.BPlus.Sound.Insert.InnerSplit.{insert_and_split_internal-Inserted}

-- What an insertion at a node gives.
abbrev Gives :
    (md : MetaData) (g : Ghost) (s : Store) (height lo hi : ℕ) (n : Node) (k : Key) (v : Value)
    → Option ((Option Entry × Node) × Store)
    → Type 0
Gives md g s height lo hi n k v run =
    (e : Option Entry) × (n' : Node) × (g' : Ghost) × (s' : Store) × (run ≡ some ((e, n'), s'))
    × Inserted md g s height (node_id md n.off_set) lo hi k v n e n' g' s'

module _ (md : MetaData) (c : IsConfig md) (k : Key) (v : Value) where
  -- Every path of `leafInsert`: the leaf is sound, has the key in its range, and so is what comes out.
  pub leaf_insert-Inserted :
      (g : Ghost) (s : Store) (sound : IsSound md g s 0) (lo hi : ℕ) (n : Node)
      (at : IsAt md g s 0 lo hi n)
      → (lo ≤ k) × (k < hi)
      → Gives md g s 0 lo hi n k v (leaf_insert md n k v s)
  unfolding leaf_insert
  leaf_insert-Inserted g s sound lo hi n at within =
      elim (Option-cases (index_node_equal n.keys n.size k)) [
        | inr (i, e) ↦
            let p = (index_node_equal_iff n.keys n.size k at.node.ascending i).0 e in
            let (s', run, r) = insert_duplicate md c g s sound lo hi n at k v within i p.0 p.1 in
            (none, n, g, s', rw e run, r)
        | inl e ↦ elim (Bool-cases (ltb n.size (2 * md.max_degree - 1))) [
          | inl room ↦
              let (n', g', s', run, r) = insert_new md c g s sound lo hi n at k v within e room in
              (none, n', g', s', rw e run, r)
          | inr full ↦
              let (up, n', g', s', run, r) =
                insert_and_split_leaf-Inserted md c g s sound lo hi n at k v within
                  (ground (arith, at.node.room, c.degree))
                  (absent_of_none md c g s sound lo hi n at k v within e) in
              (some up, n', g', s', rw e (unfold insert_in_leaf in rw (full, run)), r)
        ]
      ]

  -- Every path behind the recursive call.
  add_entry-Inserted :
      (g : Ghost) (s : Store) (height lo hi : ℕ) (sound : IsSound md g s (suc height)) (n : Node)
      (at : IsAt md g s (suc height) lo hi n) (d : Descent md g s height lo hi n k)
      (e : Option Entry) (child' : Node) (g' : Ghost) (s' : Store)
      → Below md c g s height lo hi sound n at k v d e child' g' s'
      → Gives md g s (suc height) lo hi n k v (add_entry md n e s')
  unfolding add_entry
  add_entry-Inserted g s height lo hi sound n at d none child' g' s' b =
      (none, n, g', s', refl, whole-Inserted md c g s height lo hi sound n at k v d b)
  add_entry-Inserted g s height lo hi sound n at d (some e) child' g' s' b =
      elim (Bool-cases (n.size == 2 * md.max_degree - 1)) [
        | inl full ↦
            let (up, n', g'', s'', run, r) =
              insert_and_split_internal-Inserted md c g s height lo hi sound n at k v d e child' g'
                s' b (ground (arith, c.degree)) in
            (some up, n', g'', s'', rw (full, run), r)
        | inr room ↦
            let (n', s'', run, r) =
              insert_right-Inserted md c g s height lo hi sound n at k v d b
                (ground (arith, at.node.room, c.degree)) in
            (none, n', g', s'', rw (room, run), r)
      ]

  leaf_flag : is_leaf leaf_node ≡ true
  unfolding is_leaf
  leaf_flag = refl

  inner_flag : is_leaf internal_node ≡ false
  unfolding is_leaf
  inner_flag = refl

  -- At a node of a sound store whose range has the key, with more fuel than the node is high,
  -- `internalInsert` returns; the store is sound again and has changed at the key only, and the node
  -- is whole or has been cut at the entry that it returns. A node below it has `maxDegree - 1` entries
  -- or more, or no less than before, and a split leaves both halves with as many.
  pub internal_insert-Inserted :
      (height fuel : ℕ) (g : Ghost) (s : Store) (sound : IsSound md g s height) (lo hi : ℕ)
      (n : Node) (at : IsAt md g s height lo hi n)
      → (lo ≤ k) × (k < hi)
      → height < fuel
      → Gives md g s height lo hi n k v (internal_insert md fuel n k v s)
  unfolding internal_insert
  internal_insert-Inserted height zero g s sound lo hi n at within lt = absurd (omega arith)
  internal_insert-Inserted zero (suc fuel) g s sound lo hi n at within lt =
      let (e, n', g', s', run, r) = leaf_insert-Inserted g s sound lo hi n at within in
      let leaf : is_leaf n.flag ≡ true = ap is_leaf at.node.flag ∙ leaf_flag in
      (e, n', g', s', rw leaf run, r)
  internal_insert-Inserted (suc height) (suc fuel) g s sound lo hi n at within lt =
      let sound' : IsSound md g s height = record {
        allocated = sound.allocated;
        disjoint = sound.disjoint;
        ordered = sound.ordered;
        nodes = λ p h a b q. sound.nodes p h a b (omega arith);
      } in
      let d = descend md g s n at.node k within sound'.nodes in
      let (e, child', g', s', run, b) =
        internal_insert-Inserted height fuel g s sound' _ _ d.child d.at (d.low, d.high)
          (omega arith) in
      let (e', n', g'', s'', run', r) =
        add_entry-Inserted g s height lo hi sound n at d e child' g' s' b in
      let inner : is_leaf n.flag ≡ false = ap is_leaf at.node.flag ∙ inner_flag in
      (e', n', g'', s'', rw (inner, child_for-eq md g s n at.node k within d, run) run', r)
