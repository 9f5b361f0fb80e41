-- ===== src/BPlus/Client.antt =====
-- The interpreter on the B+ tree: `BPlusTreeStore` of pkg/storage/bplustree/BPlusTreeStore.cpp as the
-- store behind `excuteComand` of pkg/storage/bplustree/utils.cpp, one command at a time.
use godbee.Base.{
  ℕ, ◌<◌, length, ◌^◌, ◌≡◌, ap, ◌∙◌, true, false, Option, some, is_some, if◌then◌else◌, List, [],
  ◌∷◌, arith,
}
use godbee.BPlus.Offsets.{MetaData, IsConfig}
use godbee.BPlus.Search.{Key}
use godbee.BPlus.Key.{key_of, Fits, key_of-lt, key_of-multiple}
use godbee.BPlus.Store.{Value}
use godbee.BPlus.Tree.{BPlusTree, tree_set, tree_get, tree_exist, tree_remove}
use godbee.BPlus.Refine.{Represents, put, tree_get-map, tree_set-map, tree_exist-map}
use godbee.BPlus.Refine.Removal.{without_key, tree_remove-map}
use godbee.Command.{
  Str, codes, is_quote, Ops, ok, nil_, true_, false_, can_not_delete, value, excute_comand,
  reply_with, of_value,
}
use godbee.Command.Words.{IsWord, AreWords, join}
use godbee.Command.Quotes.{AreUnquoted, quoted}
use godbee.Command.Run.{
  excute_comand-set, excute_comand-get, excute_comand-exist, excute_comand-delete,
}

-- The number of a key has its first `keySize` bytes as digits; a longer one has no NUL among them, so
-- `set` overruns its buffer, and no key of the tree is equal to it. The text of
-- `traverse` is dropped by the interpreter.
unfoldable pub tree_ops : MetaData → Ops BPlusTree
tree_ops md = record {
  get = λ key t. tree_get md t (key_of md.key_size key);
  set = λ key value t. tree_set md t (key_of md.key_size key) value;
  exist = λ key t. tree_exist md t (key_of md.key_size key);
  remove = λ key t. tree_remove md t (key_of md.key_size key);
  traverse = λ t. some (tt, t);
}

module _ (md : MetaData) (c : IsConfig md) (stray : ℕ) where
  -- After `set` with a key that is a plain word, and a value between quotes, both shorter than their
  -- buffers, on a tree that stands for a map of such keys, `get` with the key replies with the text between the
  -- quotes, its words with one space between them.
  pub excute_comand-set_get :
      (t : BPlusTree) (map : Key → Option Value) (q a d : ℕ) (k v : Str) (vs : List Str)
      → Represents md (256 ^ md.key_size) t map
      → is_quote q ≡ true
      → is_quote a ≡ false
      → IsWord (a ∷ k)
      → Fits md.key_size (a ∷ k)
      → length (a ∷ k) < md.key_size
      → AreWords ((d ∷ v) ∷ vs)
      → AreUnquoted q ((d ∷ v) ∷ vs)
      → length (join ((d ∷ v) ∷ vs)) < md.value_size
      → (t' : BPlusTree) × (excute_comand
            (tree_ops md)
            stray
            (join (codes "set" ∷ (a ∷ k) ∷ quoted q ((d ∷ v) ∷ vs)))
            t
          ≡ some (true, ok ∷ [], t'))
        × (excute_comand (tree_ops md) stray (join (codes "get" ∷ (a ∷ k) ∷ [])) t'
            ≡ some (true, value (join ((d ∷ v) ∷ vs)) ∷ [], t'))
  unfolding tree_ops
  excute_comand-set_get t map q a d k v vs r e f h fits room i j short =
      let key = key_of md.key_size (a ∷ k) in
      let lt = key_of-lt md.key_size (a ∷ k) fits in
      let (multiple, spelled) = key_of-multiple md.key_size (a ∷ k) room in
      let (t', run, r') =
        tree_set-map md (256 ^ md.key_size) c t map r key (join ((d ∷ v) ∷ vs)) lt
          (lt, omega (arith, spelled), short) in
      (
        t',
        excute_comand-set (tree_ops md) stray q a d k v vs t e f h i j
            ∙ ap (reply_with (tree_ops md) (λ _. ok ∷ [])) run,
        excute_comand-get (tree_ops md) stray a k t' f h
            ∙ ap (reply_with (tree_ops md) (of_value (tree_ops md))) (
                tree_get-map md (256 ^ md.key_size) t' (put map key (join ((d ∷ v) ∷ vs))) r' key
                  lt)
            ∙ there key (join ((d ∷ v) ∷ vs)) t',
      )
    where
      there :
          (key : Key) (v : Value) (t' : BPlusTree)
          → reply_with (tree_ops md) (of_value (tree_ops md)) (some (put map key v key, t'))
            ≡ some (true, value v ∷ [], t')
      there key v t' = ground arith

  -- After `delete` with a key that is a plain word and fits into its field, on a tree that stands for a map
  -- of such keys, the reply is OK where the map has the key, and `Can not delete.` where it does not; then `exist`
  -- with the key replies that it is not there, and `get` that there is no value.
  pub excute_comand-delete_get :
      (t : BPlusTree) (map : Key → Option Value) (a : ℕ) (k : Str)
      → Represents md (256 ^ md.key_size) t map
      → is_quote a ≡ false
      → IsWord (a ∷ k)
      → Fits md.key_size (a ∷ k)
      → (t' : BPlusTree) × (excute_comand
            (tree_ops md)
            stray
            (join (codes "delete" ∷ (a ∷ k) ∷ []))
            t
          ≡ some (
            true,
            (if is_some (map (key_of md.key_size (a ∷ k))) then ok else can_not_delete) ∷ [],
            t',
          ))
        × (excute_comand (tree_ops md) stray (join (codes "exist" ∷ (a ∷ k) ∷ [])) t'
            ≡ some (true, false_ ∷ [], t'))
        × (excute_comand (tree_ops md) stray (join (codes "get" ∷ (a ∷ k) ∷ [])) t'
            ≡ some (true, nil_ ∷ [], t'))
  unfolding tree_ops
  excute_comand-delete_get t map a k r f h fits =
      let key = key_of md.key_size (a ∷ k) in
      let lt = key_of-lt md.key_size (a ∷ k) fits in
      let bound = 256 ^ md.key_size in
      let (t', run, r') = tree_remove-map md c bound t map r key lt in
      (
        t',
        excute_comand-delete (tree_ops md) stray a k t f h
            ∙ ap (reply_with (tree_ops md) (λ b. (if b then ok else can_not_delete) ∷ [])) run,
        excute_comand-exist (tree_ops md) stray a k t' f h
            ∙ ap (reply_with (tree_ops md) (λ b. (if b then true_ else false_) ∷ []))
                (tree_exist-map md bound t' (without_key map key) r' key lt)
            ∙ absent key t',
        excute_comand-get (tree_ops md) stray a k t' f h
            ∙ ap (reply_with (tree_ops md) (of_value (tree_ops md)))
                (tree_get-map md bound t' (without_key map key) r' key lt)
            ∙ no_value key t',
      )
    where
      absent :
          (key : Key) (t' : BPlusTree)
          → reply_with
              (tree_ops md)
              (λ b. (if b then true_ else false_) ∷ [])
              (some (is_some (without_key map key key), t'))
            ≡ some (true, false_ ∷ [], t')
      absent key t' = ground arith

      no_value :
          (key : Key) (t' : BPlusTree)
          → reply_with (tree_ops md) (of_value (tree_ops md)) (some (without_key map key key, t'))
            ≡ some (true, nil_ ∷ [], t')
      no_value key t' = ground arith
