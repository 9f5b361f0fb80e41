-- ===== src/Btree/Node/Frame.antt =====
-- The pages of a search tree of the B-tree engine, and what changes when others are written.
use godbee.Base.{ℕ, zero, suc, ◌≤◌, ◌<◌, subst, ◌≡◌, ◌∙◌, false}
use godbee.Btree.File.{Key, Node, node_page, Tree, is_leaf}
use godbee.Btree.Node.SearchTree.{low_of, high_of, IsSearchTree, Has, here, below}

-- A node under `n` stands at the page.
pub data On (s : Tree) : Node → ℕ → Type 0 where
  at_child :
      (n child : Node) (i : ℕ)
      → is_leaf n.flag ≡ false
      → i ≤ n.n_entry
      → s.file (n.arr_child i) ≡ node_page child
      → On s n (n.arr_child i)
  deeper :
      (n child : Node) (i p : ℕ)
      → is_leaf n.flag ≡ false
      → i ≤ n.n_entry
      → s.file (n.arr_child i) ≡ node_page child
      → On s child p
      → On s n p

-- A tree none of whose pages has changed is still one.
pub IsSearchTree-frame :
    (s s' : Tree) (h lo hi : ℕ) (n : Node)
    → ((p : ℕ) → On s n p → s'.file p ≡ s.file p)
    → IsSearchTree s h lo hi n
    → IsSearchTree s' h lo hi n
unfolding IsSearchTree
IsSearchTree-frame s s' zero lo hi n same t = t
IsSearchTree-frame s s' (suc h) lo hi n same t = (
  t.0,
  t.1,
  λ i q.
      let (child, stands, under) = t.2 i q in
      (
        child,
        same (n.arr_child i) (at_child n child i t.0 q stands) ∙ stands,
        IsSearchTree-frame s s' h (low_of lo n i) (high_of hi n i) child
            (λ p on. same p (deeper n child i p t.0 q stands on)) under,
      ),
)

module _ (s : Tree) (key : Key) where
  -- An entry with a key and a position.
  pub entry_has :
      (n : Node) (i p : ℕ) → i < n.n_entry → n.arr_entry i ≡ key → n.value_pos i ≡ p → Has s key n p
  entry_has n i p q e at = subst (Has s key n) at (here n i q e)

  -- A key under a node whose pages have not changed is still there.
  pub Has-frame :
      (s' : Tree) (n : Node) (p : ℕ)
      → ((x : ℕ) → On s n x → s'.file x ≡ s.file x)
      → Has s key n p
      → Has s' key n p
  Has-frame s' _ _ same (here n i q e) = here n i q e
  Has-frame s' _ _ same (below n child i p inner q stands has) =
      below n child i p inner q (same (n.arr_child i) (at_child n child i inner q stands) ∙ stands)
        (Has-frame s' child p (λ x on. same x (deeper n child i x inner q stands on)) has)
