-- ===== src/Tests/Engine.antt =====
-- The theorems on the B-tree engine at concrete inputs, and runs of it.
use godbee.Base.{
  ℕ, zero, suc, ◌/◌, ◌⊎◌, ◌≤◌, ◌≡◌, ◌≢◌, refl, sym, ap, ◌∙◌, true, false, Option, none, some, [],
  ◌∷◌, ◌++◌, Array, update, if◌then◌else◌, ◌==◌, arith,
}
use godbee.Btree.File.{
  Key, Value, leaf, internal, deleted, Node, blank, node_page, value_page, Config, Tree, M,
  value_at, read_value_in_file, update_value_at, is_leaf,
}
use godbee.Btree.File.Values.{update_value_at-lost}
use godbee.Btree.Node
use godbee.Btree.Node.{split_child}
use godbee.Btree.Node.Split.{Apart, IsNotNext}
use godbee.Btree.Node.Frame.{On, at_child, deeper}
use godbee.Btree.Node.Invariant.{IsApart, split_child-IsSearchTree}
use godbee.Btree.Node.Search.{search-finds, search-misses}
use godbee.Btree.Node.SearchTree.{
  IsOrdered, IsSearchTree, Has, Has-bounds, low_of, high_of, here, below,
}
use godbee.Btree.Node.Leaf.{IsInserted, insert_non_full-leaf}
use godbee.Btree.Removal.{merge_nodes}
use godbee.Btree.Removal.Merge.{IsSame, merge_nodes-split_child}
use godbee.Btree.Tree.{lower_root, write_header, open_file, insert, search, init_store}
use godbee.Btree.Tree.Restart.{lower_root-stale}
use godbee.Base.State.{◌>>◌}

abbrev config : Config
config = record { t = 2; page_size = 2048; value_size = 512; empty_key = 100 }

abbrev three : ℕ → ℕ → ℕ → Array ℕ
three a b c j = if j == 0 then a else if j == 1 then b else if j == 2 then c else 100

abbrev full_leaf : Node
full_leaf = record {
  n_entry = 3;
  arr_entry = three 10 20 30;
  value_pos = three 8 9 10;
  arr_child = λ _. 0;
  flag = leaf;
  pos = 1;
}

abbrev empty_root : Node
empty_root = record {
  n_entry = 0;
  arr_entry = λ _. 100;
  value_pos = λ _. 0;
  arr_child = λ _. 1;
  flag = internal;
  pos = 0;
}

abbrev small_tree : Tree
small_tree = record {
  root = some empty_root;
  root_pos = 0;
  next_pos_node = 1;
  next_pos_node_value = 10;
  deleted_nodes_pos = [];
  deleted_vals_pos = [];
  file =
      update (update (update (λ _. blank) 0 (node_page empty_root)) 1 (node_page full_leaf)) 2
        (value_page (λ i. i ∷ []));
  pages = 3;
}

update_value_at-lost_example :
    (s' : Tree) × (update_value_at config 8 (7 ∷ []) false small_tree ≡ some (tt, s'))
    × (read_value_in_file 8 s' ≡ some (0 ∷ [], s'))
unfolding read_value_in_file value_at
update_value_at-lost_example =
    update_value_at-lost config small_tree 8 (7 ∷ []) (0 ∷ []) refl (omega arith) refl

merge_nodes-split_child_example :
    (n' : Node) × (s' : Tree) × (n'' : Node) × (child'' : Node) × (s'' : Tree) × (split_child config
        empty_root 0 full_leaf small_tree
      ≡ some (n', s'))
    × (merge_nodes config n' 0 s' ≡ some (n'', s''))
    × IsSame n'' empty_root
    × IsSame child'' full_leaf
    × (s''.file 0 ≡ node_page n'')
    × (s''.file 1 ≡ node_page child'')
    × ((p : ℕ) → p ≢ 0 → p ≢ 1 → p ≢ n'.arr_child 1 → s''.file p ≡ small_tree.file p)
    × (s''.deleted_nodes_pos ≡ s'.deleted_nodes_pos ++ (n'.arr_child 1 ∷ []))
unfolding Apart
merge_nodes-split_child_example =
    merge_nodes-split_child config empty_root 0 full_leaf small_tree (omega arith) refl
      (omega arith) (omega arith) refl (λ e. omega (arith, e)) (omega arith) tt

full_leaf-IsOrdered : IsOrdered 0 100 full_leaf
full_leaf-IsOrdered = record {
  from_low = λ i h. omega arith;
  to_high = λ i h. ground arith;
  ascends = λ i j p h. ground arith;
}

under :
    (i : ℕ)
    → i ≤ 0
    → (child : Node) × (small_tree.file (empty_root.arr_child i) ≡ node_page child)
      × IsSearchTree small_tree 0 (low_of 0 empty_root i) (high_of 100 empty_root i) child
unfolding is_leaf IsSearchTree low_of high_of
under zero h = (full_leaf, refl, (refl, full_leaf-IsOrdered))
under (suc i) h = absurd (omega arith)

-- A leaf of height 0 under a root of one child.
small_tree-IsSearchTree : IsSearchTree small_tree 1 0 100 empty_root
unfolding is_leaf IsSearchTree low_of high_of
small_tree-IsSearchTree = (
  refl,
  record {
    from_low = λ i h. absurd (omega arith);
    to_high = λ i h. absurd (omega arith);
    ascends = λ i j p h. absurd (omega arith);
  },
  under,
)

search-finds_example : Node.search 2 empty_root 20 small_tree ≡ some (some (1 ∷ []), small_tree)
unfolding is_leaf read_value_in_file value_at
search-finds_example =
    search-finds small_tree 20 2 1 0 100 empty_root 9 (1 ∷ []) (omega arith) small_tree-IsSearchTree
      (below empty_root full_leaf 0 9 refl (omega arith) refl (here full_leaf 1 (omega arith) refl))
      refl

search-misses_example : Node.search 2 empty_root 200 small_tree ≡ some (none, small_tree)
search-misses_example =
    search-misses small_tree 200 2 1 0 100 empty_root (omega arith) small_tree-IsSearchTree
      (λ p has. absurd (
        omega
          (arith, (Has-bounds small_tree 200 1 0 100 empty_root p small_tree-IsSearchTree has).1)))

abbrev two_leaf : Node
two_leaf = record full_leaf { n_entry = 2; arr_entry = three 10 30 100 }

insert_non_full-leaf_example :
    (n' : Node) × (pos : ℕ) × (s' : Tree) × (Node.insert_non_full config 1 two_leaf 20
        (7 ∷ [])
        small_tree
      ≡ some (n', s'))
    × IsInserted two_leaf 20 pos n'
    × IsOrdered 0 100 n'
    × ((1 ≡ pos / 4) ⊎ (s'.file 1 ≡ node_page n'))
unfolding is_leaf
insert_non_full-leaf_example =
    insert_non_full-leaf config two_leaf 20 (7 ∷ []) 0 100 (λ j h e. ground arith) 0 small_tree refl
      (omega arith) (omega arith)
      (record {
        from_low = λ i h. ground arith;
        to_high = λ i h. ground arith;
        ascends = λ i j p h. ground arith;
      })
      (omega arith) (omega arith)

no_leaf : {s : Tree} {p : ℕ} (n : Node) → is_leaf n.flag ≡ true → On s n p → ⊥
no_leaf _ e (at_child n child i inner q stands) = absurd (cc (e, inner))
no_leaf _ e (deeper n child i p inner q stands on) = absurd (cc (e, inner))

On-small : {p : ℕ} (n : Node) → n ≡ empty_root → On small_tree n p → p ≡ 1
unfolding is_leaf
On-small _ e (at_child n child i inner q stands) = ap (λ m. m.arr_child i) e
On-small _ e (deeper n child i p inner q stands on) =
    let child_1 : small_tree.file 1 ≡ node_page child =
      ap small_tree.file (sym (ap (λ m. m.arr_child i) e)) ∙ stands in
    let same : full_leaf ≡ child = cc child_1 in
    absurd (no_leaf child (ap (λ m. is_leaf m.flag) (sym same)) on)

small_tree-IsApart : IsApart small_tree empty_root 0 full_leaf
unfolding is_leaf IsNotNext
small_tree-IsApart = record {
  self = λ p on e. omega (arith, e, On-small empty_root refl on);
  fresh = λ p on. (omega (arith, On-small empty_root refl on), tt);
  under = λ p on e. no_leaf full_leaf refl on;
  siblings = λ i q d e. d (omega arith);
  under_siblings = λ i c p q d stands on e. d (omega arith);
}

split_child-IsSearchTree_example :
    (n' : Node) × (s' : Tree) × (split_child config empty_root 0 full_leaf small_tree
      ≡ some (n', s'))
    × (n'.n_entry ≡ 1)
    × IsSearchTree s' 1 0 100 n'
    × ((key p : ℕ) → Has small_tree key empty_root p → Has s' key n' p)
unfolding Apart
split_child-IsSearchTree_example =
    split_child-IsSearchTree config small_tree 0 0 100 empty_root 0 full_leaf (omega arith) refl
      (omega arith) (omega arith) refl refl tt small_tree-IsApart small_tree-IsSearchTree

lower_root-stale_example :
    (s' : Tree) × (lower_root config empty_root small_tree ≡ some (tt, s'))
    × (s'.root ≡ some full_leaf)
    × (open_file (write_header s') s'.deleted_nodes_pos s'.deleted_vals_pos s'.file s'.pages
        ≡ some (record s' { root = some (record empty_root { flag = deleted }) }))
unfolding is_leaf
lower_root-stale_example = lower_root-stale config empty_root full_leaf small_tree refl refl refl

abbrev result : {A : Type 0} → Option (A × Tree) → Option A
result none = none
result (some (a, s)) = some a

-- `set` of a key that is the middle entry of a full root is lost: the key still has its old value.
set_lost :
    result (
      (insert config 20 (7 ∷ []) >> search config 20)
        (record small_tree { root = some full_leaf; root_pos = 1 }))
    ≡ some (some (1 ∷ []))
unfolding insert split_child godbee.Btree.File.update_next_pos_node
    godbee.Btree.File.write_empty_bytes godbee.Btree.File.write_node godbee.Btree.File.read_node
    godbee.Btree.File.new_node Node.insert_non_full is_leaf Node.last_equal
    godbee.Btree.File.take_value_pos update_value_at search Node.search Node.first_not_below
    Node.get_value_in_node godbee.Btree.File.node_at read_value_in_file
    godbee.Btree.File.update_next_pos_node_value value_at godbee.Btree.File.write_page
    Node.count_not_above Node.fill Node.first_equal Node.insert_in_leaf Node.lower_half
    Node.make_room Node.move_up Node.page_for_split Node.parent_of_split Node.take_from
    Node.upper_half godbee.Btree.Tree.set_root godbee.Btree.Tree.split_root
set_lost = refl
