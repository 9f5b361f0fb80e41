-- ===== src/BPlus/Sound/Remove/Siblings.antt =====
-- The nodes beside a node with too few entries, as `redistributeFromLeaf` and
-- `redistributeFromInternal` of pkg/storage/bplustree/BPlusTreeNode.cpp read them.
use godbee.Base.{ℕ, ◌+◌, ◌≤◌, ◌≡◌, ◌≢◌, refl, sym, ap, ◌∙◌, arith, some}
use godbee.BPlus.Offsets.{MetaData, node_id}
use godbee.BPlus.Store.{Node, Store, node_of_page, get_node}
use godbee.BPlus.Sound.{Ghost, lower, upper, as_page, IsNode}
use godbee.BPlus.Sound.Copy.{SameNode-node_of_page, IsNode-same}
use godbee.BPlus.Sound.Get.{get_node-eq}
use godbee.BPlus.Sound.Remove.Father.{children_apart}
use godbee.BPlus.Sound.Remove.Repair.{Ready}

module _ (md : MetaData) where
  -- Child `q` of `f`, read from the file.
  pub record Sibling (g : Ghost) (s : Store) (h flo fhi : ℕ) (f : Node) (q : ℕ) : Type 0 where
    pub node : Node
    pub read : get_node md (f.childs q) s ≡ some (node, s)
    pub off_set : node.off_set ≡ f.childs q
    pub is_node : IsNode md g h (lower f.keys flo q) (upper f.keys f.size fhi q) (as_page node)
    pub big : md.max_degree ≤ node.size + 1

  pub sibling :
      (g : Ghost) (s : Store) (h flo fhi : ℕ) (n f : Node) (i : ℕ)
      → Ready md g s h flo fhi n f i
      → (q : ℕ) → q ≤ f.size
      → q ≢ i
      → Sibling g s h flo fhi f q
  sibling g s h flo fhi n f i ready q le d =
      let apart : node_id md (f.childs q) ≢ node_id md n.off_set = λ e. d (
        children_apart md g ready.father q i le ready.index (e ∙ ap (node_id md) (sym ready.at))) in
      let (np, file, ok, big) =
        ready.full (node_id md (f.childs q)) h _ _ (omega arith) apart (ready.father.child q le) in
      record {
        node = node_of_page np (f.childs q);
        read = get_node-eq md g s (f.childs q) np (ready.father.aligned q le) file;
        off_set = unfold node_of_page in refl;
        is_node = IsNode-same md g (SameNode-node_of_page np (f.childs q)) h _ _ ok;
        big = unfold node_of_page in big;
      }
