-- ===== src/BPlus/Search.antt =====
-- The searches in a node's keys, pkg/storage/bplustree/utils.cpp.
-- A key is the number that its bytes spell, so `strcmp` is the comparison of numbers.
-- An index of -1 is `none`. The `right` of the source, which may be -1, is `end - 1` here.
pub mod Position
use Prim.Native.Nat.{compare, Ordering}
use godbee.Base.{
  ℕ, zero, suc, ◌+◌, ◌-◌, ◌/◌, ◌≤◌, ◌<◌, Bool, true, false, Option, none, some, ltb, leb, ◌==◌,
  if◌then◌else◌, Array,
}

abbrev pub Key : Type 0
Key = ℕ

abbrev pub strcmp : Key → Key → Ordering
strcmp = compare

-- Where a search stopped: at an equal key, or past the last `mid`.
pub record Stop : Type 0 where
  pub found : Bool
  pub mid : ℕ

index_loop : ℕ → Array Key → Key → ℕ → ℕ → ℕ → Stop
index_loop zero array key left end mid = record { found = false; mid = mid }
index_loop (suc fuel) array key left end mid =
    let m = (left + end - 1) / 2 in
    let rest : Stop = elim (strcmp (array m) key) [
      | Ordering.eq ↦ record { found = true; mid = m }
      | Ordering.lt ↦ index_loop fuel array key (m + 1) end m
      | Ordering.gt ↦ index_loop fuel array key left m m
    ] in
    if ltb left end then rest else record { found = false; mid = mid }

finish_larger_or_equal : Array Key → Key → Stop → ℕ
finish_larger_or_equal array key s =
    if s.found then s.mid else if ltb (array s.mid) key then s.mid + 1 else s.mid

finish_larger : Array Key → Key → Stop → ℕ
finish_larger array key s =
    if s.found then s.mid + 1 else if ltb (array s.mid) key then s.mid + 1 else s.mid

pub index_node_larger_or_equal : Array Key → ℕ → Key → Option ℕ
unfolding index_loop finish_larger_or_equal
index_node_larger_or_equal array size key =
    if size == 0
    then none
    else some (finish_larger_or_equal array key (index_loop (size + 1) array key 0 size 0))

pub index_node_larger : Array Key → ℕ → Key → Option ℕ
unfolding index_loop finish_larger
index_node_larger array size key =
    if size == 0
    then none
    else some (finish_larger array key (index_loop (size + 1) array key 0 size 0))

equal_at : Array Key → ℕ → Key → Option ℕ → Option ℕ
equal_at array size key none = none
equal_at array size key (some res) =
    if leb size res then none else if array res == key then some res else none

pub index_node_equal : Array Key → ℕ → Key → Option ℕ
unfolding index_node_larger_or_equal equal_at
index_node_equal array size key =
    equal_at array size key (index_node_larger_or_equal array size key)

unfoldable pub is_existing : Array Key → ℕ → Key → Bool
is_existing array size key = elim (index_node_equal array size key) [ none ↦ false | some _ ↦ true ]

-- The keys of a node stand in ascending order.
abbrev pub IsAscending : Array Key → ℕ → Type 0
IsAscending array size = (i j : ℕ) → i < j → j < size → array i < array j

-- Every key before `i` is below `key`, every key from `i` on is above it.
pub record Splits (array : Array Key) (size : ℕ) (key : Key) (i : ℕ) : Type 0 where
  pub in_range : i ≤ size
  pub below : (j : ℕ) → j < i → array j < key
  pub above : (j : ℕ) → i ≤ j → j < size → key < array j

-- `i` is the first index whose key is above `key`.
pub record UpperBound (array : Array Key) (size : ℕ) (key : Key) (i : ℕ) : Type 0 where
  pub in_range : i ≤ size
  pub at_most : (j : ℕ) → j < i → array j ≤ key
  pub above : (j : ℕ) → i ≤ j → j < size → key < array j

-- `i` is the first index whose key is not below `key`.
pub record LowerBound (array : Array Key) (size : ℕ) (key : Key) (i : ℕ) : Type 0 where
  pub in_range : i ≤ size
  pub below : (j : ℕ) → j < i → array j < key
  pub at_least : (j : ℕ) → i ≤ j → j < size → key ≤ array j
