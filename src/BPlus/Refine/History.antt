-- ===== src/BPlus/Refine/History.antt =====
-- Any run of calls on the tree of pkg/storage/bplustree/BPlusTree.cpp, from an empty file on.
use godbee.Base.{ℕ, ◌<◌, ◌≡◌, refl, Option, none, some, List, [], ◌∷◌, is_some, Bool}
use godbee.BPlus.Search.{Key}
use godbee.BPlus.Offsets.{MetaData, IsConfig}
use godbee.BPlus.Store.{Value}
use godbee.BPlus.Tree.{BPlusTree, new_tree, tree_set, tree_get, tree_exist, tree_remove}
use godbee.BPlus.Refine.Removal.{without_key, tree_remove-map}
use godbee.BPlus.Refine.{
  Represents, AreCopied, put, tree_get-map, tree_exist-map, tree_set-map, new_tree-map,
}

-- The calls that change a tree.
pub data Call : Type 0 where
  set : Key → Value → Call
  remove : Key → Call

abbrev pub then_calls :
    {A : Type 0}
    → Option (A × BPlusTree)
    → (A → BPlusTree → Option (List Bool × BPlusTree))
    → Option (List Bool × BPlusTree)
then_calls none f = none
then_calls (some (a, t)) f = f a t

abbrev pub with_answer : Bool → Option (List Bool × BPlusTree) → Option (List Bool × BPlusTree)
with_answer b none = none
with_answer b (some (bs, t)) = some (b ∷ bs, t)

-- The calls of a client, and what `remove` answers to each.
pub tree_calls : MetaData → List Call → BPlusTree → Option (List Bool × BPlusTree)
tree_calls md [] t = some ([], t)
tree_calls md (set k v ∷ calls) t = then_calls (tree_set md t k v) (λ _. tree_calls md calls)
tree_calls md (remove k ∷ calls) t =
    then_calls (tree_remove md t k) (λ b t'. with_answer b (tree_calls md calls t'))

-- The same on a map.
abbrev pub map_calls : (Key → Option Value) → List Call → Key → Option Value
map_calls map [] = map
map_calls map (set k v ∷ calls) = map_calls (put map k v) calls
map_calls map (remove k ∷ calls) = map_calls (without_key map k) calls

abbrev pub answers : (Key → Option Value) → List Call → List Bool
answers map [] = []
answers map (set k v ∷ calls) = answers (put map k v) calls
answers map (remove k ∷ calls) = is_some (map k) ∷ answers (without_key map k) calls

-- The keys are below the bound, and what is set fits into the buffers of `set`.
abbrev pub CallsBelow : MetaData → ℕ → List Call → Type 0
CallsBelow md bound [] = Unit
CallsBelow md bound (set k v ∷ calls) = (k < bound) × AreCopied md k v × CallsBelow md bound calls
CallsBelow md bound (remove k ∷ calls) = (k < bound) × CallsBelow md bound calls

module _ (md : MetaData) (c : IsConfig md) (bound : ℕ) where
  -- A run of `set` and `remove` calls does on the tree what it does on the map.
  pub tree_calls-map :
      (calls : List Call) (t : BPlusTree) (map : Key → Option Value)
      → Represents md bound t map
      → CallsBelow md bound calls
      → (t' : BPlusTree) × (tree_calls md calls t ≡ some (answers map calls, t'))
        × Represents md bound t' (map_calls map calls)
  unfolding tree_calls
  tree_calls-map [] t map r below = (t, refl, r)
  tree_calls-map (set k v ∷ calls) t map r below =
      let (t', run, r') = tree_set-map md bound c t map r k v below.0 below.1 in
      let (t'', run', r'') = tree_calls-map calls t' (put map k v) r' below.2 in
      (t'', rw run run', r'')
  tree_calls-map (remove k ∷ calls) t map r below =
      let (t', run, r') = tree_remove-map md c bound t map r k below.0 in
      let (t'', run', r'') = tree_calls-map calls t' (without_key map k) r' below.1 in
      (t'', rw (run, run') refl, r'')

  -- From an empty file on, with keys below the bound and with what is set fitting into the buffers of
  -- `set`, every run of `set` and `remove` calls succeeds; each `remove` tells whether its key was there at that time, and afterwards `get` returns the value
  -- that was set last for a key, or none for a key that was never set or has been removed since, and
  -- `exist` tells which of the two it is.
  pub tree_calls-get :
      0 < bound
      → (calls : List Call) → CallsBelow md bound calls
      → (k : Key) → k < bound
      → (t : BPlusTree) × (then_calls (new_tree md) (λ _. tree_calls md calls)
          ≡ some (answers (λ _. none) calls, t))
        × (tree_get md t k ≡ some (map_calls (λ _. none) calls k, t))
        × (tree_exist md t k ≡ some (is_some (map_calls (λ _. none) calls k), t))
  tree_calls-get pos calls below k lt =
      let (t, run, r) = new_tree-map md bound c pos in
      let (t', run', r') = tree_calls-map calls t (λ _. none) r below in
      (t', rw run run', tree_get-map md bound t' _ r' k lt, tree_exist-map md bound t' _ r' k lt)
