-- ===== src/BPlus/Sound.antt =====
-- What makes a store a search tree. A ghost gives each page of the file a role: a node of the tree
-- has a height and the half-open range of its keys, and a free page its place in the list of free
-- positions. So two nodes of one height with ranges that meet are one node, and no step has to speak
-- of reachability. In the same way each position of a value is unused, free, or held by a key.

pub mod Copy
pub mod Flush
pub mod Get
pub mod Grow
pub mod Height
pub mod Insert
pub mod Pages
pub mod Place
pub mod Remove
pub mod Roles
pub mod Weak
use godbee.Base.{
  ℕ, zero, suc, ◌+◌, ◌*◌, ◌^◌, ◌≤◌, ◌<◌, ◌≡◌, ◌≢◌, ◌==◌, Option, none, some, List, [], ◌∷◌,
  if◌then◌else◌, Array, length,
}
use mathlib.Core.Option
use godbee.BPlus.Search.{Key, IsAscending}
use godbee.BPlus.FreeList.{DelNodeList}
use godbee.BPlus.Offsets.{MetaData, IsConfig, ceil_div, node_id, value_idx}
use godbee.BPlus.Store.{
  Value, Flag, leaf_node, internal_node, NodePage, Page, node_page, value_page, Store, Node,
  values_of,
}

pub data Role : Type 0 where
  unused values : Role
  free_node : ℕ → Role
  tree : (height lo hi : ℕ) → Role

pub data ValueRole : Type 0 where
  no_value : ValueRole
  free_value : ℕ → ValueRole
  held : Key → ValueRole

pub record Ghost : Type 0 where
  pub role : Array Role
  pub value_role : Array ValueRole
  -- where the value of a key is
  pub loc : Key → Option ℕ

-- The range of child `i`.
abbrev pub lower : Array Key → ℕ → ℕ → ℕ
lower keys lo zero = lo
lower keys lo (suc i) = keys i

abbrev pub upper : Array Key → ℕ → ℕ → ℕ → ℕ
upper keys size hi i = if i == size then hi else keys i

-- The object as a page, entries behind its size included.
abbrev pub as_page : Node → NodePage
as_page n = record { childs = n.childs; keys = n.keys; flag = n.flag; size = n.size }

-- No node's range goes beyond a bound.
abbrev pub AreBounded : Ghost → ℕ → Type 0
AreBounded g bound = (p h l u : ℕ) → g.role p ≡ tree h l u → u ≤ bound

module _ (md : MetaData) where
  module _ (g : Ghost) where
    pub record IsLeaf (lo hi : ℕ) (p : NodePage) : Type 0 where
      pub flag : p.flag ≡ leaf_node
      pub room : p.size < 2 * md.max_degree
      pub ascending : IsAscending p.keys p.size
      pub within : (i : ℕ) → i < p.size → (lo ≤ p.keys i) × (p.keys i < hi)
      pub located : (i : ℕ) → i < p.size → g.loc (p.keys i) ≡ some (p.childs i)
      pub complete :
          (k : Key) → lo ≤ k → k < hi → ((i : ℕ) → i < p.size → p.keys i ≢ k) → g.loc k ≡ none

    pub record IsInner (height lo hi : ℕ) (p : NodePage) : Type 0 where
      pub flag : p.flag ≡ internal_node
      pub nonempty : 0 < p.size
      pub room : p.size < 2 * md.max_degree
      pub ascending : IsAscending p.keys p.size
      pub within : (i : ℕ) → i < p.size → (lo < p.keys i) × (p.keys i < hi)
      pub aligned : (i : ℕ) → i ≤ p.size → value_idx md (p.childs i) ≡ 0
      pub child :
          (i : ℕ)
          → i ≤ p.size
          → g.role (node_id md (p.childs i))
            ≡ tree height (lower p.keys lo i) (upper p.keys p.size hi i)

    abbrev pub IsNode : ℕ → ℕ → ℕ → NodePage → Type 0
    IsNode zero lo hi p = IsLeaf lo hi p
    IsNode (suc height) lo hi p = IsInner height lo hi p

    abbrev pub FreeNodes : List ℕ → Type 0
    FreeNodes [] = Unit
    FreeNodes (id ∷ ids) =
        (value_idx md id ≡ 0) × (g.role (node_id md id) ≡ free_node (length ids)) × FreeNodes ids

    abbrev pub FreeValues : List ℕ → Type 0
    FreeValues [] = Unit
    FreeValues (id ∷ ids) = (g.value_role id ≡ free_value (length ids)) × FreeValues ids

    pub record IsAllocated (s : Store) : Type 0 where
      pub beyond : (p : ℕ) → s.pages ≤ p → g.role p ≡ unused
      pub node_list : FreeNodes s.del_node_pages.list
      pub value_list : FreeValues s.del_values.list
      pub used : (id : ℕ) → g.value_role id ≢ no_value → g.role (node_id md id) ≡ values
      pub located : (k : Key) (id : ℕ) → g.loc k ≡ some id → g.value_role id ≡ held k
      pub pages : (p : ℕ) → g.role p ≡ values → (vs : Array Value) × (s.file p ≡ value_page vs)
      -- behind the last new value its page has no value yet
      pub last :
          s.empty_value_node ≢ 0
          → (g.role (node_id md s.empty_value_node) ≡ values)
            × (value_idx md s.empty_value_node < ceil_div md.page_size md.value_size)
      pub behind :
          (id : ℕ)
          → s.empty_value_node ≢ 0
          → node_id md id ≡ node_id md s.empty_value_node
          → value_idx md s.empty_value_node < value_idx md id
          → g.value_role id ≡ no_value

    -- Every node up to a height is what its role says.
    abbrev pub AreNodes : Store → ℕ → Type 0
    AreNodes s top =
        (p height lo hi : ℕ)
        → height ≤ top
        → g.role p ≡ tree height lo hi
        → (np : NodePage) × (s.file p ≡ node_page np) × IsNode height lo hi np

    abbrev pub IsDisjoint : Type 0
    IsDisjoint =
        (p q height lo hi lo' hi' : ℕ)
        → g.role p ≡ tree height lo hi
        → g.role q ≡ tree height lo' hi'
        → lo < hi'
        → lo' < hi
        → p ≡ q

    pub record IsSound (s : Store) (top : ℕ) : Type 0 where
      pub allocated : IsAllocated s
      pub disjoint : IsDisjoint
      pub ordered : (p height lo hi : ℕ) → g.role p ≡ tree height lo hi → lo < hi
      pub nodes : AreNodes s top

  -- The value at a position, and the map from keys to values that a store stands for.
  unfoldable pub stored : Store → ℕ → Value
  stored s id = values_of (s.file (node_id md id)) (value_idx md id)

  unfoldable pub contents : Ghost → Store → Key → Option Value
  unfolding stored
  contents g s k = Option.map (stored s) (g.loc k)
