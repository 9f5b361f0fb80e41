-- ===== src/Tests/Commands.antt =====
-- Commands at concrete inputs.
use godbee.Base.{ℕ, ◌^◌, ◌≡◌, ◌≢◌, refl, arith, true, false, none, some, [], ◌∷◌}
use godbee.BPlus.Tree.{BPlusTree, new_tree, tree_set}
use godbee.BPlus.Client.{tree_ops, excute_comand-set_get, excute_comand-delete_get}
use godbee.BPlus.Key.{key_of}
use godbee.BPlus.Refine.{Represents, put, new_tree-map, tree_set-map}
use godbee.Command.{
  Str, codes, read_arg, ok, nil_, false_, value, invalid_arguments, reply_with, excute_comand,
  is_exit_command,
}
use godbee.Command.Quotes.{read_arg-quoted}
use godbee.Command.Run.{excute_comand-set, excute_comand-open}
use godbee.Tests.{small, small-IsConfig}

abbrev empty :
    (t : BPlusTree) × (new_tree small ≡ some (tt, t)) × Represents small (256 ^ 35) t (λ _. none)
empty = new_tree-map small (256 ^ 35) small-IsConfig (omega arith)

not_empty : {c : ℕ} {s : Str} → (c ∷ s) ≢ []
not_empty e = cc

-- `"b c"`, and a word behind it.
read_arg-quoted_example :
    read_arg 0 (codes "'b" ∷ codes "c'" ∷ codes "d" ∷ [])
    ≡ some (record { valid = true; text = codes "b c"; rest = codes "d" ∷ [] })
read_arg-quoted_example =
    read_arg-quoted 0 39 (codes "b") (codes "c" ∷ []) (codes "d" ∷ []) refl
      (not_empty, refl, (not_empty, refl, tt))

excute_comand-set_example :
    excute_comand (tree_ops small) 0 (codes "set k 'b c'") empty.0
    ≡ reply_with
        (tree_ops small)
        (λ _. ok ∷ [])
        ((tree_ops small).set (codes "k") (codes "b c") empty.0)
excute_comand-set_example =
    excute_comand-set (tree_ops small) 0 39 107 98 [] [] (codes "c" ∷ []) empty.0 refl refl
      (refl, tt) ((refl, tt), ((refl, tt), tt)) (not_empty, refl, (not_empty, refl, tt))

excute_comand-set_get_example :
    (t : BPlusTree) × (excute_comand (tree_ops small) 0 (codes "set k 'b c'") empty.0
      ≡ some (true, ok ∷ [], t))
    × (excute_comand (tree_ops small) 0 (codes "get k") t
        ≡ some (true, value (codes "b c") ∷ [], t))
excute_comand-set_get_example =
    excute_comand-set_get small small-IsConfig 0 empty.0 (λ _. none) 39 107 98 [] []
      (codes "c" ∷ []) empty.2 refl refl (refl, tt) (omega arith, omega arith, tt) (omega arith)
      ((refl, tt), ((refl, tt), tt)) (not_empty, refl, (not_empty, refl, tt)) (omega arith)

get_goes_on : is_exit_command (codes "get 'b c") ≡ false
unfolding is_exit_command
get_goes_on = refl

set_goes_on : is_exit_command (codes "set k b c") ≡ false
unfolding is_exit_command
set_goes_on = refl

excute_comand-open_example :
    excute_comand (tree_ops small) 0 (codes "get 'b c") empty.0
    ≡ some (true, invalid_arguments ∷ [], empty.0)
excute_comand-open_example =
    excute_comand-open (tree_ops small) 0 39 (codes "get") (codes "b") (codes "c" ∷ []) empty.0
      get_goes_on ((refl, (refl, (refl, tt))), ((refl, (refl, tt)), ((refl, tt), tt))) refl
      (λ e. omega arith) refl (not_empty, refl, tt)

-- The tree that has the key `k` and no other.
abbrev with_k :
    (t : BPlusTree) × (tree_set small empty.0 (key_of 35 (codes "k")) (57 ∷ []) ≡ some (tt, t))
    × Represents small (256 ^ 35) t (put (λ _. none) (key_of 35 (codes "k")) (57 ∷ []))
unfolding key_of
with_k =
    tree_set-map small (256 ^ 35) small-IsConfig empty.0 (λ _. none) empty.2 (key_of 35 (codes "k"))
      (57 ∷ []) (omega arith) (omega arith, refl, omega arith)

excute_comand-delete_get_example :
    (t : BPlusTree) × (excute_comand (tree_ops small) 0 (codes "delete k") with_k.0
      ≡ some (true, ok ∷ [], t))
    × (excute_comand (tree_ops small) 0 (codes "exist k") t ≡ some (true, false_ ∷ [], t))
    × (excute_comand (tree_ops small) 0 (codes "get k") t ≡ some (true, nil_ ∷ [], t))
unfolding key_of
excute_comand-delete_get_example =
    excute_comand-delete_get small small-IsConfig 0 with_k.0
      (put (λ _. none) (key_of 35 (codes "k")) (57 ∷ [])) 107 [] with_k.2 refl (refl, tt)
      (omega arith, omega arith, tt)
