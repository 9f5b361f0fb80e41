-- ===== src/Tests/Rotate.antt =====
-- Borrowing between two siblings of the B-tree engine at concrete nodes.
use godbee.Base.{ℕ, ◌≡◌, ◌≢◌, refl, some, [], Array, update, if◌then◌else◌, ◌==◌, arith}
use godbee.Btree.File.{leaf, internal, Node, blank, node_page, Config, Tree, is_leaf}
use godbee.Btree.Removal.{borrow_from_next_node, borrow_from_prev_node}
use godbee.Btree.Removal.Merge.{IsSame}
use godbee.Btree.Removal.Rotate.{borrow_from_prev_node-borrow_from_next_node}

abbrev config : Config
config = record { t = 2; page_size = 2048; value_size = 512; empty_key = 100 }

abbrev two : ℕ → ℕ → Array ℕ
two a b j = if j == 0 then a else if j == 1 then b else 100

abbrev left : Node
left = record {
  n_entry = 1;
  arr_entry = two 10 100;
  value_pos = two 16 0;
  arr_child = λ _. 0;
  flag = leaf;
  pos = 1;
}

abbrev right : Node
right = record {
  n_entry = 2;
  arr_entry = two 30 40;
  value_pos = two 18 19;
  arr_child = λ _. 0;
  flag = leaf;
  pos = 2;
}

abbrev father : Node
father = record {
  n_entry = 1;
  arr_entry = two 20 100;
  value_pos = two 17 0;
  arr_child = two 1 2;
  flag = internal;
  pos = 0;
}

abbrev siblings : Tree
siblings = record {
  root = some father;
  root_pos = 0;
  next_pos_node = 2;
  next_pos_node_value = 19;
  deleted_nodes_pos = [];
  deleted_vals_pos = [];
  file =
      update (update (update (λ _. blank) 0 (node_page father)) 1 (node_page left)) 2
        (node_page right);
  pages = 5;
}

borrow_from_prev_node-borrow_from_next_node_example :
    (n' : Node) × (s' : Tree) × (n'' : Node) × (child'' : Node) × (next'' : Node) × (s'' : Tree)
    × (borrow_from_next_node config father 0 siblings ≡ some (n', s'))
    × (borrow_from_prev_node config n' 1 s' ≡ some (n'', s''))
    × IsSame n'' father
    × IsSame child'' left
    × IsSame next'' right
    × (s''.file 0 ≡ node_page n'')
    × (s''.file 1 ≡ node_page child'')
    × (s''.file 2 ≡ node_page next'')
    × ((p : ℕ) → p ≢ 0 → p ≢ 1 → p ≢ 2 → s''.file p ≡ siblings.file p)
unfolding is_leaf
borrow_from_prev_node-borrow_from_next_node_example =
    borrow_from_prev_node-borrow_from_next_node config father 0 left right siblings refl refl refl
      refl (λ e. omega (arith, e)) (λ e. omega (arith, e)) (λ e. omega (arith, e)) refl
      (omega arith) (omega arith) (omega arith)
