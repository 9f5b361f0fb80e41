-- ===== src/BPlus/Sound/Remove/Shrink.antt =====
-- An inner root without entries, pkg/storage/bplustree/BPlusTreeNode.cpp: its child is the root, one level
-- down, and its page is given up.
use godbee.Base.{
  ℕ, suc, ◌+◌, ◌≤◌, ◌≡◌, ◌≢◌, sym, ap, ◌∙◌, none, some, arith, Bool, update, ◌==◌, if◌then◌else◌,
}
use godbee.BPlus.Search.{Key}
use godbee.BPlus.Offsets.{MetaData, IsConfig, node_id, value_idx}
use godbee.BPlus.Store.{Node, NodePage, node_page, Store, node_of_page, to_node_page, get_node}
use godbee.BPlus.Removal.{clear_childs}
use godbee.BPlus.Sound.{Ghost, tree, upper, IsNode, IsAllocated, contents}
use godbee.BPlus.Sound.Copy.{SameNode-node_of_page, IsNode-same}
use godbee.BPlus.Sound.Flush.{flushed, flushed-other, flushed-IsAllocated, flushed-contents}
use godbee.BPlus.Sound.Get.{get_node-eq}
use godbee.BPlus.Sound.Remove.Merge.{marked, given_up}
use godbee.BPlus.Sound.Remove.Gone.{Removed}
use godbee.BPlus.Sound.Remove.Root.{
  Rooted, role₁, aligned₁, no_values, top₁, allocated₂, full₂, contents₂,
}
use godbee.BPlus.Sound.Remove.Lower.{less, less-tree, tree-less, IsNode-less, less-IsAllocated}

module _ (md : MetaData) (c : IsConfig md) (bound : ℕ) {n : Node} {s : Store} {g : Ghost} {h : ℕ}
    (rooted : Rooted md bound n s g (suc h)) {key : Key} {done : Bool} {child child' n₁ : Node}
    {g₁ : Ghost} {s₁ : Store} (r : Removed md g s h 0 bound child n key done child' n₁ g₁ s₁)
    (empty : n₁.size ≡ 0) where
  -- `childs[0] = child->offSet`
  abbrev pub last_child : Node
  last_child = record n₁ { childs = update n₁.childs 0 child'.off_set }

  abbrev pub wrote : Store
  wrote = flushed md s₁ n₁.off_set (to_node_page last_child)

  only : n₁.childs 0 ≡ child'.off_set
  only = r.only empty

  pub role : g₁.role (node_id md n₁.off_set) ≡ tree (suc h) 0 bound
  role = role₁ md c bound rooted r

  child_role : g₁.role (node_id md child'.off_set) ≡ tree h 0 bound
  child_role =
      let up : upper n₁.keys n₁.size bound 0 ≡ bound = ground (arith, empty) in
      ap (λ z. g₁.role (node_id md z)) (sym only)
      ∙ r.father.child 0 (omega arith)
      ∙ ap (tree h 0) up

  child_aligned : value_idx md child'.off_set ≡ 0
  child_aligned = ap (value_idx md) (sym only) ∙ r.father.aligned 0 (omega arith)

  abbrev pub gone : Store
  gone = given_up md wrote last_child

  abbrev pub flush : Store
  flush = flushed md wrote n₁.off_set (to_node_page (marked md last_child))

  pub allocated₃ : IsAllocated md g₁ flush
  allocated₃ =
      flushed-IsAllocated md g₁ wrote (allocated₂ md c bound rooted r (to_node_page last_child))
        n₁.off_set (to_node_page (marked md last_child)) (no_values md c bound rooted r)

  abbrev pub lowered_ghost : Ghost
  lowered_ghost =
      less md g₁ (suc h) 0 bound n₁.off_set role (aligned₁ md c bound rooted r) flush allocated₃

  -- The nodes below the root.
  nodes₃ :
      (p k x y : ℕ)
      → k ≤ h
      → lowered_ghost.role p ≡ tree k x y
      → (np : NodePage) × (gone.file p ≡ node_page np)
        × IsNode md lowered_ghost k x y np
        × (md.max_degree ≤ np.size + 1)
  nodes₃ p k x y le q =
      let al = aligned₁ md c bound rooted r in
      let old = (less-tree md g₁ (suc h) 0 bound n₁.off_set role al flush allocated₃ p k x y q).0 in
      let d : p ≢ node_id md n₁.off_set = λ z. ground (arith, ap g₁.role z, old, role) in
      let (np, file, ok, big) =
        full₂ md c bound rooted r (to_node_page last_child) p k x y (omega arith) old in
      (
        np,
        flushed-other md wrote n₁.off_set (to_node_page (marked md last_child)) p d ∙ file,
        IsNode-less md g₁ (suc h) 0 bound n₁.off_set role al flush allocated₃ k x y np (omega arith)
            ok,
        big,
      )

  old_tree :
      (p k x y : ℕ) → lowered_ghost.role p ≡ tree k x y → (g₁.role p ≡ tree k x y) × (k ≢ suc h)
  old_tree =
      less-tree md g₁ (suc h) 0 bound n₁.off_set role (aligned₁ md c bound rooted r) flush
        allocated₃

  -- The new root as it is read, and as it is afterwards.
  pub record NewRoot : Type 0 where
    pub root : Node
    pub read : get_node md child'.off_set wrote ≡ some (root, wrote)
    pub stands : Rooted md bound root gone lowered_ghost h

  pub new_root : NewRoot
  unfolding flushed clear_childs
  new_root =
      let (np, file, ok, big) =
        full₂ md c bound rooted r (to_node_page last_child) (node_id md child'.off_set) h 0 bound
          (omega arith) child_role in
      let al = aligned₁ md c bound rooted r in
      record {
        root = node_of_page np child'.off_set;
        read = get_node-eq md g₁ wrote child'.off_set np child_aligned file;
        stands = record {
          sound = record {
            allocated = less-IsAllocated md g₁ (suc h) 0 bound n₁.off_set role al flush allocated₃;
            disjoint = λ p q k x y x' y' a b.
                r.disjoint p q k x y x' y' (old_tree p k x y a).0 (old_tree q k x' y' b).0;
            ordered = λ p k x y a. r.ordered p k x y (old_tree p k x y a).0;
            nodes = λ p k x y le q. (let w = nodes₃ p k x y le q in (w.0, w.1, w.2));
          };
          at = record {
            aligned = unfold node_of_page in child_aligned;
            role =
                unfold node_of_page in
                tree-less md g₁ (suc h) 0 bound n₁.off_set role al flush allocated₃
                  (node_id md child'.off_set) h 0 bound (λ z. omega arith) child_role;
            node =
                IsNode-same md lowered_ghost (SameNode-node_of_page np child'.off_set) h 0 bound (
                  IsNode-less md g₁ (suc h) 0 bound n₁.off_set role al flush allocated₃ h 0 bound np
                    (omega arith) ok);
          };
          is_top = λ p k x y q.
              let w = old_tree p k x y q in
              ground (arith, top₁ md c bound rooted r p k x y w.0, w.1);
          bounded = λ p k x y q. r.bounded bound rooted.bounded p k x y (old_tree p k x y q).0;
          full = λ p k x y lt q. nodes₃ p k x y (omega arith) q;
        };
      }

  pub new_root-contents :
      (j : Key) → contents md lowered_ghost gone j ≡ (if j == key then none else contents md g s j)
  unfolding contents
  new_root-contents j =
      flushed-contents md g₁ wrote (allocated₂ md c bound rooted r (to_node_page last_child))
        n₁.off_set (to_node_page (marked md last_child)) (no_values md c bound rooted r) j
      ∙ contents₂ md c bound rooted r (to_node_page last_child) j
