-- ===== src/BPlus/Sound/Remove/Drop.antt =====
-- The end of a merge in pkg/storage/bplustree/BPlusTreeNode.cpp: the father's entry between the siblings
-- goes, `markDelete` gives up the sibling's page, and the father's child there is the node.
use godbee.Base.{
  ℕ, ◌+◌, ◌-◌, ◌≤◌, ◌<◌, ◌≡◌, refl, sym, ap, subst, ◌∙◌, ◌⊎◌, inl, inr, arith, some, update,
}
use godbee.BPlus.Offsets.{MetaData, IsConfig, node_id, value_idx}
use godbee.BPlus.Store.{internal_node, Node, Store}
use godbee.BPlus.Removal.{is_leaf, close_at, remove_left_at, drop_from_father}
use godbee.BPlus.Removal.Loops.{close_up-at}
use godbee.BPlus.Sound.{Ghost, lower, upper, as_page, IsNode}
use godbee.BPlus.Sound.Remove.Repair.{Ready, Moves}
use godbee.BPlus.Sound.Remove.Merge.{EntryDropped, given_up, mark_delete-eq, merge}

module _ (md : MetaData) where
  abbrev pub shrunk : Node → ℕ → ℕ → Node
  shrunk f j offset = let f' = close_at md f j in record f' { childs = update f'.childs j offset }

  shrunk-EntryDropped :
      (f : Node) (j offset : ℕ) → j < f.size → EntryDropped f j offset (shrunk f j offset)
  unfolding close_at
  shrunk-EntryDropped f j offset inside = record {
    off_set = refl;
    flag = refl;
    size = omega (arith, inside);
    before = λ i h. ground (arith, close_up-at (f.size - 1 - j) j f.keys i);
    behind = λ i h k. ground (arith, close_up-at (f.size - 1 - j) j f.keys i);
    childs_before = λ i h. ground (arith, close_up-at (f.size - 1 - j) j f.childs i);
    child = ground arith;
    childs_behind = λ i h k. ground (
      arith,
      close_up-at (f.size - 1 - j) j f.childs i,
      close_up-at (f.size - 1 - j) j f.childs f.size,
    );
  }

  drop_from_father-eq :
      (n f : Node) (j : ℕ) (sib : Node) (s : Store)
      → f.flag ≡ internal_node
      → value_idx md sib.off_set ≡ 0
      → drop_from_father md n f j sib s ≡ some ((n, shrunk f j n.off_set), given_up md s sib)
  unfolding drop_from_father remove_left_at is_leaf
  drop_from_father-eq n f j sib s inner aligned = rw (inner, mark_delete-eq md sib s aligned) refl

module _ (md : MetaData) (c : IsConfig md) (g : Ghost) (s : Store) (h flo fhi : ℕ) (n f : Node)
    (i : ℕ) (ready : Ready md g s h flo fhi n f i) (j : ℕ) (inside : j < f.size) (n' : Node)
    (off_set : n'.off_set ≡ n.off_set) (size : n.size + 1 ≤ n'.size)
    (node : IsNode md g h (lower f.keys flo j) (upper f.keys f.size fhi (j + 1)) (as_page n'))
    (sib : Node) where
  drop :
      (at : (i ≡ j) ⊎ (i ≡ j + 1)) (k : ℕ)
      → k ≤ f.size
      → sib.off_set ≡ f.childs k
      → ((node_id md n.off_set ≡ node_id md (f.childs j))
          × (node_id md sib.off_set ≡ node_id md (f.childs (j + 1))))
        ⊎ ((node_id md n.off_set ≡ node_id md (f.childs (j + 1)))
            × (node_id md sib.off_set ≡ node_id md (f.childs j)))
      → Moves md g s h flo fhi n f i (drop_from_father md n' f j sib)
  drop at k le sib_at sides =
      let aligned : value_idx md n.off_set ≡ 0 =
        ap (value_idx md) (sym ready.at) ∙ ready.father.aligned i ready.index in
      let sib_aligned : value_idx md sib.off_set ≡ 0 =
        ap (value_idx md) sib_at ∙ ready.father.aligned k le in
      let dropped = shrunk-EntryDropped md f j n'.off_set inside in
      let (g', r) =
        merge md c g s h flo fhi n f i ready j inside n' sib (shrunk md f j n'.off_set) off_set
          aligned (subst (λ z. EntryDropped f j z (shrunk md f j n'.off_set)) off_set dropped) size
          node sides sib_aligned at in
      (
        n',
        shrunk md f j n'.off_set,
        g',
        given_up md s sib,
        drop_from_father-eq md n' f j sib s ready.father.flag sib_aligned,
        r,
      )

  pub drop_right :
      i ≡ j
      → sib.off_set ≡ f.childs (j + 1)
      → Moves md g s h flo fhi n f i (drop_from_father md n' f j sib)
  drop_right e at =
      drop (inl e) (j + 1) (omega (arith, inside)) at
        (inl (ap (node_id md) (sym ready.at ∙ ap f.childs e), ap (node_id md) at))

  pub drop_left :
      i ≡ j + 1
      → sib.off_set ≡ f.childs j
      → Moves md g s h flo fhi n f i (drop_from_father md n' f j sib)
  drop_left e at =
      drop (inr e) j (omega (arith, inside)) at
        (inr (ap (node_id md) (sym ready.at ∙ ap f.childs e), ap (node_id md) at))
