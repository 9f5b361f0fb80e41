-- ===== src/BPlus/FreeList/Stack.antt =====
-- The list of free positions as a stack, pkg/storage/bplustree/DelNodeList.cpp.
use godbee.Base.{ℕ, ◌≡◌, refl, ap, none, some, List, [], ◌∷◌}
use godbee.BPlus.FreeList.{DelNodeList, pop, pop_list}

-- What `pop` does, by the list.
pub data Popped (d : DelNodeList) : Type 0 where
  empty : (d' : DelNodeList) → d.list ≡ [] → d'.list ≡ [] → pop d ≡ (none, d') → Popped d
  popped :
      (x : ℕ) (rest : List ℕ) (d' : DelNodeList)
      → d.list ≡ x ∷ rest
      → d'.list ≡ rest
      → pop d ≡ (some x, d')
      → Popped d

pub pop-Popped : (d : DelNodeList) → Popped d
unfolding pop
pop-Popped d = go d.list refl
  where
    go : (l : List ℕ) → d.list ≡ l → Popped d
    go [] e = empty (pop_list [] d.file).1 e refl (ap (λ l. pop_list l d.file) e)
    go (x ∷ rest) e =
        popped x rest (pop_list (x ∷ rest) d.file).1 e refl (ap (λ l. pop_list l d.file) e)
