-- ===== src/Btree/Node/SearchTree.antt =====
-- Search trees of the B-tree engine, pkg/storage/btree: the order of the entries, and the keys in a tree.
use godbee.Base.{
  ℕ, zero, suc, ◌+◌, ◌-◌, ◌≤◌, ◌<◌, ◌≡◌, subst, true, false, ltb, if◌then◌else◌, arith,
}
use godbee.Btree.File.{Key, Node, node_page, Tree, is_leaf}

-- The bounds of the keys under a child, the upper one not included.
unfoldable pub low_of : ℕ → Node → ℕ → ℕ
low_of lo n i = if ltb 0 i then n.arr_entry (i - 1) + 1 else lo

unfoldable pub high_of : ℕ → Node → ℕ → ℕ
high_of hi n i = if ltb i n.n_entry then n.arr_entry i else hi

-- The entries ascend strictly, from `lo` on and below `hi`.
pub record IsOrdered (lo hi : ℕ) (n : Node) : Type 0 where
  pub from_low : (i : ℕ) → i < n.n_entry → lo ≤ n.arr_entry i
  pub to_high : (i : ℕ) → i < n.n_entry → n.arr_entry i < hi
  pub ascends : (i j : ℕ) → i < j → j < n.n_entry → n.arr_entry i < n.arr_entry j

-- A search tree of a height, under a node: its children stand in the file.
unfoldable pub IsSearchTree : Tree → ℕ → ℕ → ℕ → Node → Type 0
IsSearchTree s zero lo hi n = (is_leaf n.flag ≡ true) × IsOrdered lo hi n
IsSearchTree s (suc h) lo hi n =
    (is_leaf n.flag ≡ false)
    × IsOrdered lo hi n
    × ((i : ℕ)
        → i ≤ n.n_entry
        → (child : Node) × (s.file (n.arr_child i) ≡ node_page child)
          × IsSearchTree s h (low_of lo n i) (high_of hi n i) child)

-- Under `n`, or in it, stands the key with its value at a position.
pub data Has (s : Tree) (key : Key) : Node → ℕ → Type 0 where
  here : (n : Node) (i : ℕ) → i < n.n_entry → n.arr_entry i ≡ key → Has s key n (n.value_pos i)
  below :
      (n child : Node) (i p : ℕ)
      → is_leaf n.flag ≡ false
      → i ≤ n.n_entry
      → s.file (n.arr_child i) ≡ node_page child
      → Has s key child p
      → Has s key n p

module _ (s : Tree) (key : Key) where
  pub IsOrdered-of : (h lo hi : ℕ) (n : Node) → IsSearchTree s h lo hi n → IsOrdered lo hi n
  unfolding IsSearchTree
  IsOrdered-of zero lo hi n t = t.1
  IsOrdered-of (suc h) lo hi n t = t.1

  -- The bounds of a child are within those of its parent, and behind the entries before it.
  pub low_of-above :
      (lo hi : ℕ) (n : Node) (i j : ℕ)
      → IsOrdered lo hi n
      → i < j
      → j ≤ n.n_entry
      → n.arr_entry i < low_of lo n j
  unfolding low_of
  low_of-above lo hi n i j o h k = ground (arith, o.ascends i (j - 1))

  low_of-inside :
      (lo hi : ℕ) (n : Node) (j : ℕ) → IsOrdered lo hi n → j ≤ n.n_entry → lo ≤ low_of lo n j
  unfolding low_of
  low_of-inside lo hi n j o k = ground (arith, o.from_low (j - 1))

  pub child_tree :
      (h lo hi : ℕ) (n child : Node) (i : ℕ)
      → IsSearchTree s (suc h) lo hi n
      → i ≤ n.n_entry
      → s.file (n.arr_child i) ≡ node_page child
      → IsSearchTree s h (low_of lo n i) (high_of hi n i) child
  unfolding IsSearchTree
  child_tree h lo hi n child i t q e =
      let (child', e', under) = t.2 i q in
      let same : child' ≡ child = cc (e, e') in
      subst (IsSearchTree s h (low_of lo n i) (high_of hi n i)) same under

  pub Has-bounds :
      (h lo hi : ℕ) (n : Node) (p : ℕ)
      → IsSearchTree s h lo hi n
      → Has s key n p
      → (lo ≤ key) × (key < hi)
  unfolding IsSearchTree low_of high_of
  Has-bounds h lo hi _ _ t (here n i q e) =
      let o = IsOrdered-of h lo hi n t in
      (subst (λ k. lo ≤ k) e (o.from_low i q), subst (λ k. k < hi) e (o.to_high i q))
  Has-bounds zero lo hi _ _ t (below n child i p inner q e has) = absurd (cc (t.0, inner))
  Has-bounds (suc h) lo hi _ _ t (below n child i p inner q e has) =
      let o = IsOrdered-of (suc h) lo hi n t in
      let b =
        Has-bounds h (low_of lo n i) (high_of hi n i) child p (child_tree h lo hi n child i t q e)
          has in
      (omega (arith, b.0, low_of-inside lo hi n i o q), ground (arith, b.1, o.to_high i))

  pub record Under (h : ℕ) (child : Node) : Type 0 where
    pub height : ℕ
    pub from_ : ℕ
    pub to_ : ℕ
    pub less : height < h
    pub tree : IsSearchTree s height from_ to_ child

  pub Under-of :
      (h lo hi : ℕ) (n child : Node) (i : ℕ)
      → IsSearchTree s h lo hi n
      → is_leaf n.flag ≡ false
      → i ≤ n.n_entry
      → s.file (n.arr_child i) ≡ node_page child
      → Under h child
  unfolding IsSearchTree
  Under-of zero lo hi n child i t inner q e = absurd (cc (t.0, inner))
  Under-of (suc h) lo hi n child i t inner q e = record {
    height = h;
    from_ = low_of lo n i;
    to_ = high_of hi n i;
    less = omega arith;
    tree = child_tree h lo hi n child i t q e;
  }

  pub child_of :
      (h lo hi : ℕ) (n : Node) (i : ℕ)
      → IsSearchTree s h lo hi n
      → is_leaf n.flag ≡ false
      → i ≤ n.n_entry
      → (child : Node) × (s.file (n.arr_child i) ≡ node_page child)
  unfolding IsSearchTree
  child_of zero lo hi n i t inner q = absurd (cc (t.0, inner))
  child_of (suc h) lo hi n i t inner q = let (child, stands, under) = t.2 i q in (child, stands)
