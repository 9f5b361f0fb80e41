-- ===== src/BPlus/Sound/Insert/Halves.antt =====
-- `copyPartOfNode` of pkg/storage/bplustree/BPlusTreeNode.cpp on a sound store: a full node is cut,
-- and the entries behind the cut are in a new node.
use godbee.Base.{ℕ, ◌+◌, ◌-◌, ◌≤◌, ◌<◌, ◌≡◌, refl, some, arith, update}
use godbee.BPlus.Offsets.{MetaData, IsConfig}
use godbee.BPlus.Store.{Flag, Node, Store}
use godbee.BPlus.Node.{copy_part, copy_part_of_node}
use godbee.BPlus.Node.Loops.{copy_part-to, copy_part-from}
use godbee.BPlus.Sound.{Ghost, IsAllocated}
use godbee.BPlus.Sound.Flush.{IsNew, new_node-IsNew}

-- `this` keeps what stands before `l`, and `right` has the rest.
pub record Halves (n : Node) (flag : Flag) (l : ℕ) (this right : Node) : Type 0 where
  pub off_set : this.off_set ≡ n.off_set
  pub this_flag : this.flag ≡ n.flag
  pub right_flag : right.flag ≡ flag
  pub right_size : right.size + l ≡ n.size
  pub this_keys : (j : ℕ) → j < l → this.keys j ≡ n.keys j
  pub this_childs : (j : ℕ) → j < l → this.childs j ≡ n.childs j
  pub right_keys : (j : ℕ) → j < right.size → right.keys j ≡ n.keys (l + j)
  pub right_childs : (j : ℕ) → j ≤ right.size → right.childs j ≡ n.childs (l + j)

module _ (md : MetaData) (c : IsConfig md) (g : Ghost) (s : Store) (al : IsAllocated md g s)
    (n : Node) (flag : Flag) (l : ℕ) (cut : l < n.size) where
  -- For a cut inside the node, `copyPartOfNode` leaves the entries before the cut where they are, and
  -- the entries from the cut on stand, in order, in a new node on a new page.
  pub copy_part_of_node-Halves :
      (this : Node) × (right : Node) × (s' : Store) × (copy_part_of_node md n flag l (n.size - 1) s
        ≡ some ((this, right), s'))
      × Halves n flag l this right
      × IsNew md g s right.off_set s'
  unfolding copy_part_of_node
  copy_part_of_node-Halves =
      let (s', new, run, size, fl, is_new) = new_node-IsNew md c g s al flag in
      let count = n.size - 1 + 1 - l in
      let keys_to = copy_part-to count 0 l n.keys new.keys in
      let childs_to = copy_part-to count 0 l n.childs new.childs in
      let keys_from = copy_part-from count 0 l n.keys new.keys in
      let childs_from = copy_part-from count 0 l n.childs new.childs in
      let keys = copy_part count 0 l n.keys new.keys in
      let childs = copy_part count 0 l n.childs new.childs in
      let this : Node = record n { keys = keys.0; childs = update childs.0 (l + count) 0 } in
      let right : Node = record new {
        keys = keys.1;
        childs = update childs.1 count (childs.0 (l + count));
        size = new.size + count;
      } in
      (
        this,
        right,
        s',
        rw run,
        record {
          off_set = refl;
          this_flag = refl;
          right_flag = fl;
          right_size = omega arith;
          this_keys = λ j h. ground (arith, keys_from j);
          this_childs = λ j h. ground (arith, childs_from j);
          right_keys = λ j h. ground (arith, keys_to j);
          right_childs = λ j h. ground (arith, childs_to j, childs_from (l + count));
        },
        is_new,
      )
