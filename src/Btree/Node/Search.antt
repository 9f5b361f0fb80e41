-- ===== src/Btree/Node/Search.antt =====
-- `search` of pkg/storage/btree/BTreeNode.cpp against the keys that stand in the tree.
use godbee.Base.{
  ℕ, zero, suc, ◌+◌, ◌≤◌, ◌<◌, ◌≡◌, refl, sym, ap, ◌∙◌, true, false, ◌&&◌, none, some, ltb, ◌==◌,
  Array, arith, Bool-cases, inl, inr, ◌⊎◌,
}
use godbee.Btree.File.{
  Key, Value, Node, node_page, node_at, Tree, read_value_in_file, read_node, is_leaf,
}
use godbee.Btree.Node.{first_not_below, first_equal, value_of, get_value_in_node, search}
use godbee.Btree.Node.SearchTree.{
  low_of, high_of, IsSearchTree, Has, here, below, IsOrdered-of, Has-bounds, child_tree,
  low_of-above, Under-of, child_of,
}

-- `i` entries are below the key, and the next one is not.
record Stops (n : ℕ) (a : Array Key) (key : Key) (i : ℕ) : Type 0 where
  pub in_range : i ≤ n
  pub smaller : (j : ℕ) → j < i → a j < key
  pub not_smaller : i < n → key ≤ a i

first_not_below-Stops :
    (rounds i : ℕ) (a : Array Key) (key : Key)
    → ((j : ℕ) → j < i → a j < key)
    → Stops (i + rounds) a key (first_not_below rounds i a key)
unfolding first_not_below
first_not_below-Stops zero i a key before = record {
  in_range = omega arith;
  smaller = before;
  not_smaller = λ h. absurd (omega arith);
}
first_not_below-Stops (suc rounds) i a key before = elim (Bool-cases (ltb (a i) key)) [
  | inl e ↦
      let r = first_not_below-Stops rounds (i + 1) a key (λ j p. ground (arith, before j)) in
      rw e (record {
        in_range = omega (arith, r.in_range);
        smaller = r.smaller;
        not_smaller = λ p. r.not_smaller (omega arith);
      })
  | inr e ↦
      rw e (record { in_range = omega arith; smaller = before; not_smaller = λ h. ground arith })
]

first_equal-at :
    (rounds i : ℕ) (a : Array Key) (key : Key) (m : ℕ)
    → i ≤ m
    → m < i + rounds
    → a m ≡ key
    → ((j : ℕ) → j < m → a j < key)
    → first_equal rounds i a key ≡ some m
unfolding first_equal
first_equal-at zero i a key m h k e before = absurd (omega arith)
first_equal-at (suc rounds) i a key m h k e before = elim (Bool-cases (a i == key)) [
  | inl same ↦ rw same (ap some (ground (arith, before i)))
  | inr other ↦
      rw other (first_equal-at rounds (i + 1) a key m (ground arith) (omega arith) e before)
]

module _ (s : Tree) (key : Key) where
  record Below (n : Node) (i p : ℕ) : Type 0 where
    pub inner : is_leaf n.flag ≡ false
    pub child : Node
    pub stands : s.file (n.arr_child i) ≡ node_page child
    pub has : Has s key child p

  locate :
      (h lo hi i : ℕ) (n : Node) (p : ℕ)
      → IsSearchTree s h lo hi n
      → Stops n.n_entry n.arr_entry key i
      → Has s key n p
      → ((i < n.n_entry) × (n.arr_entry i ≡ key) × (n.value_pos i ≡ p))
        ⊎ (((ltb i n.n_entry && (n.arr_entry i == key)) ≡ false) × Below n i p)
  unfolding IsSearchTree low_of high_of
  locate h lo hi i _ _ t stops (here n j q e) =
      let o = IsOrdered-of s key h lo hi n t in
      let at : i ≡ j = ground (arith, stops.smaller j, stops.not_smaller, o.ascends i j) in
      inl (omega (arith, at), ap n.arr_entry at ∙ e, ap n.value_pos at)
  locate zero lo hi i _ _ t stops (below n child j p inner q e has) = absurd (cc (t.0, inner))
  locate (suc h) lo hi i _ _ t stops (below n child j p inner q e has) =
      let o = IsOrdered-of s key (suc h) lo hi n t in
      let b =
        Has-bounds s key h (low_of lo n j) (high_of hi n j) child p
          (child_tree s key h lo hi n child j t q e) has in
      let at : j ≡ i = ground (
        arith,
        b,
        stops.smaller j,
        stops.not_smaller,
        stops.in_range,
        low_of-above s key lo hi n i j o,
      ) in
      inr (
        ground (arith, b.1, at),
        record {
          inner = inner;
          child = child;
          stands = ap (λ x. s.file (n.arr_child x)) (sym at) ∙ e;
          has = has;
        },
      )

  Stops-of :
      (n : Node) → Stops n.n_entry n.arr_entry key (first_not_below n.n_entry 0 n.arr_entry key)
  Stops-of n =
      let r = first_not_below-Stops n.n_entry 0 n.arr_entry key (λ j q. absurd (omega arith)) in
      record {
        in_range = omega (arith, r.in_range);
        smaller = r.smaller;
        not_smaller = λ h. r.not_smaller (omega arith);
      }

  get_value_in_node-at :
      (n : Node) (i : ℕ) (v : Value)
      → Stops n.n_entry n.arr_entry key i
      → i < n.n_entry
      → n.arr_entry i ≡ key
      → read_value_in_file (n.value_pos i) s ≡ some (v, s)
      → get_value_in_node n key s ≡ some (some v, s)
  unfolding get_value_in_node value_of
  get_value_in_node-at n i v stops q e read =
      rw
        (
          first_equal-at n.n_entry 0 n.arr_entry key i (omega arith) (omega arith) e stops.smaller,
          read,
        )
        refl

  -- With fuel above the height, `search` of a key that stands in the tree, with a value that can be read at
  -- its position, returns that value.
  pub search-finds :
      (fuel h lo hi : ℕ) (n : Node) (p : ℕ) (v : Value)
      → h < fuel
      → IsSearchTree s h lo hi n
      → Has s key n p
      → read_value_in_file p s ≡ some (v, s)
      → search fuel n key s ≡ some (some v, s)
  unfolding search get_value_in_node value_of read_node node_at IsSearchTree
  search-finds zero h lo hi n p v f t has read = absurd (omega arith)
  search-finds (suc fuel) h lo hi n p v f t has read =
      let i = first_not_below n.n_entry 0 n.arr_entry key in
      let stops = Stops-of n in
      elim (locate h lo hi i n p t stops has) [
        | inl (q, e, at) ↦
            let test : (ltb i n.n_entry && (n.arr_entry i == key)) ≡ true = ground arith in
            rw test (get_value_in_node-at n i v stops q e (rw at read))
        | inr (e, b) ↦
            let u = Under-of s key h lo hi n b.child i t b.inner stops.in_range b.stands in
            rw (e, b.inner, b.stands)
              (search-finds fuel u.height u.from_ u.to_ b.child p v (omega (arith, u.less)) u.tree
                b.has read)
      ]

  -- With fuel above the height, `search` of a key that stands nowhere in the tree returns no value.
  pub search-misses :
      (fuel h lo hi : ℕ) (n : Node)
      → h < fuel
      → IsSearchTree s h lo hi n
      → ((p : ℕ) → ¬ Has s key n p)
      → search fuel n key s ≡ some (none, s)
  unfolding search read_node node_at
  search-misses zero h lo hi n f t has = absurd (omega arith)
  search-misses (suc fuel) h lo hi n f t has =
      let i = first_not_below n.n_entry 0 n.arr_entry key in
      let test : (ltb i n.n_entry && (n.arr_entry i == key)) ≡ false =
        elim (Bool-cases (ltb i n.n_entry && (n.arr_entry i == key))) [
          | inl e ↦ absurd (has (n.value_pos i) (here n i (ground arith) (ground arith)))
          | inr e ↦ e
        ] in
      let stops = Stops-of n in
      rw test (elim (Bool-cases (is_leaf n.flag)) [
        | inl e ↦ rw e refl
        | inr e ↦
            let (child, stands) = child_of s key h lo hi n i t e stops.in_range in
            let u = Under-of s key h lo hi n child i t e stops.in_range stands in
            rw (e, stands)
              (search-misses fuel u.height u.from_ u.to_ child (omega (arith, u.less)) u.tree
                (λ p b. has p (below n child i p e stops.in_range stands b)))
      ])
