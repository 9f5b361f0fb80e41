-- ===== src/BPlus/Sound/Insert.antt =====
-- What an insertion below a node promises to the level above, and what a split does to the roles.
pub mod Halves
pub mod Cut
pub mod Inner
pub mod InnerRoom
pub mod InnerSplit
pub mod Leaf
pub mod LeafSplit
pub mod Walk
use godbee.Base.{
  ℕ, ◌+◌, ◌≤◌, ◌<◌, ◌≡◌, ◌≢◌, refl, sym, ap, ◌∙◌, Option, none, some, inl, inr, arith, update, ◌==◌,
  if◌then◌else◌, Bool-cases, length,
}
use godbee.BPlus.Search.{Key}
use godbee.BPlus.Offsets.{MetaData, node_id, value_idx}
use godbee.BPlus.Store.{
  Value, Node, NodePage, Page, blank, node_page, value_page, Store, to_node_page,
}
use godbee.BPlus.Node.{Entry}
use godbee.BPlus.Sound.{
  Ghost, AreBounded, Role, values, tree, free_node, as_page, IsNode, IsAllocated, IsDisjoint,
  IsSound, contents,
}
use godbee.BPlus.Sound.Flush.{with_role, with_role-IsAllocated}

-- The node stays whole, or an entry goes up: a key, and the node for the range behind it.
pub data Outcome (md : MetaData) (g : Ghost) (top a lo hi : ℕ) (n : Node)
    : Option Entry → Type 0 where
  whole :
      g.role a ≡ tree top lo hi
      → IsNode md g top lo hi (as_page n)
      → Outcome md g top a lo hi n none
  split :
      (e : Entry)
      → (lo < e.key) × (e.key < hi)
      → g.role a ≡ tree top lo e.key
      → value_idx md e.value ≡ 0
      → g.role (node_id md e.value) ≡ tree top e.key hi
      → Outcome md g top a lo hi n (some e)

size_of : Page → ℕ
size_of blank = 0
size_of (node_page np) = np.size
size_of (value_page vs) = 0

pub size_of_pages : (a b : NodePage) → node_page a ≡ node_page b → a.size ≡ b.size
unfolding size_of
size_of_pages a b e = ap size_of e

pub size_of_page :
    (n : Node) (np : NodePage) → node_page (to_node_page n) ≡ node_page np → n.size ≡ np.size
unfolding size_of to_node_page
size_of_page n np e = ap size_of e

-- The page of a node after an insertion at `n`, of page `a`: it has as many entries as a node under
-- the root must have, or it is that of `n`, which got an entry, or it has no less than before.
pub data Sized (md : MetaData) (g : Ghost) (s : Store) (top a : ℕ) (n : Node) (e : Option Entry)
    (p h : ℕ) (np : NodePage) : Type 0 where
  filled_up : md.max_degree ≤ np.size + 1 → Sized md g s top a n e p h np
  got_more : p ≡ a → h ≡ top → e ≡ none → n.size ≤ np.size → Sized md g s top a n e p h np
  no_less :
      (l u : ℕ) (old : NodePage)
      → g.role p ≡ tree h l u
      → s.file p ≡ node_page old
      → old.size ≤ np.size
      → (h ≡ top → p ≡ a → e ≡ none)
      → Sized md g s top a n e p h np

-- From `g` and `s` to `g'` and `s'`, at the node of page `a`, for `k` and `v`.
pub record Inserted (md : MetaData) (g : Ghost) (s : Store) (top a lo hi : ℕ) (k : Key) (v : Value)
    (n : Node) (e : Option Entry) (n' : Node) (g' : Ghost) (s' : Store) : Type 0 where
  pub sound : IsSound md g' s' top
  pub above :
      (p height l u : ℕ)
      → top < height
      → g.role p ≡ tree height l u
      → (g'.role p ≡ tree height l u) × (s'.file p ≡ s.file p)
  pub above_back :
      (p height l u : ℕ) → top < height → g'.role p ≡ tree height l u → g.role p ≡ tree height l u
  pub level : (p l u : ℕ) → p ≢ a → g.role p ≡ tree top l u → g'.role p ≡ tree top l u
  pub contents_lem :
      (j : Key) → contents md g' s' j ≡ (if j == k then some v else contents md g s j)
  pub bounded : (bound : ℕ) → AreBounded g bound → AreBounded g' bound
  pub off_set : n'.off_set ≡ n.off_set
  pub sizes :
      (p h l u : ℕ) (np : NodePage)
      → h ≤ top
      → g'.role p ≡ tree h l u
      → s'.file p ≡ node_page np
      → Sized md g s top a n e p h np
  pub outcome : Outcome md g' top a lo hi n' e

-- The node of page `a` is cut at `m`, and page `r` gets the rest of its range.
pub split_roles : Ghost → (a r top lo m hi : ℕ) → Ghost
split_roles g a r top lo m hi = with_role (with_role g a (tree top lo m)) r (tree top m hi)

module _ (md : MetaData) (g : Ghost) (s : Store) (a r top lo m hi : ℕ)
    (role : g.role a ≡ tree top lo hi) (new : (h l u : ℕ) → g.role r ≢ tree h l u) (low : lo < m)
    (high : m < hi) where
  pub split_roles-a : (split_roles g a r top lo m hi).role a ≡ tree top lo m
  unfolding split_roles with_role
  split_roles-a = ground (arith, new top lo hi)

  pub split_roles-r : (split_roles g a r top lo m hi).role r ≡ tree top m hi
  unfolding split_roles with_role
  split_roles-r = ground arith

  pub split_roles-other :
      (p h l u : ℕ)
      → p ≢ a
      → g.role p ≡ tree h l u
      → (split_roles g a r top lo m hi).role p ≡ tree h l u
  unfolding split_roles with_role
  split_roles-other p h l u ne e = ground (arith, new h l u)

  -- A node after the split is one of the halves, or was there before.
  pub data Piece (p h l u : ℕ) : Type 0 where
    left : p ≡ a → h ≡ top → l ≡ lo → u ≡ m → Piece p h l u
    right : p ≡ r → h ≡ top → l ≡ m → u ≡ hi → Piece p h l u
    kept : p ≢ a → p ≢ r → g.role p ≡ tree h l u → Piece p h l u

  pub split_roles-Piece :
      (p h l u : ℕ) → (split_roles g a r top lo m hi).role p ≡ tree h l u → Piece p h l u
  unfolding split_roles with_role
  split_roles-Piece p h l u e = elim (Bool-cases (p == r)) [
    | inl q ↦ right (ground arith) (ground arith) (ground arith) (ground arith)
    | inr q ↦ elim (Bool-cases (p == a)) [
      | inl f ↦ left (ground arith) (ground arith) (ground arith) (ground arith)
      | inr f ↦ kept (ground arith) (ground arith) (ground arith)
    ]
  ]

  pub split_roles-ordered :
      ((p h l u : ℕ) → g.role p ≡ tree h l u → l < u)
      → (p h l u : ℕ) → (split_roles g a r top lo m hi).role p ≡ tree h l u
      → l < u
  split_roles-ordered ord p h l u e = elim (split_roles-Piece p h l u e) [
    | left i j f z ↦ omega arith
    | right i j f z ↦ omega arith
    | kept _ _ old ↦ ord p h l u old
  ]

  pub split_roles-disjoint : IsDisjoint md g → IsDisjoint md (split_roles g a r top lo m hi)
  split_roles-disjoint d p q h l u l' u' e e' x y =
      pair (split_roles-Piece p h l u e) (split_roles-Piece q h l' u' e')
    where
      pair : Piece p h l u → Piece q h l' u' → p ≡ q
      pair (left i j _ _) (left i' j' _ _) = omega arith
      pair (left i j f z) (right i' j' f' z') = absurd (omega arith)
      pair (left i j f f') (kept ne _ old) =
          absurd (ne (d q a h l' u' lo hi old (ground arith) (omega arith) (omega arith)))
      pair (right i j f z) (left i' j' f' z') = absurd (omega arith)
      pair (right i j _ _) (right i' j' _ _) = omega arith
      pair (right i j f f') (kept ne _ old) =
          absurd (ne (d q a h l' u' lo hi old (ground arith) (omega arith) (omega arith)))
      pair (kept ne _ old) (left i j f f') =
          absurd (ne (d p a h l u lo hi old (ground arith) (omega arith) (omega arith)))
      pair (kept ne _ old) (right i j f f') =
          absurd (ne (d p a h l u lo hi old (ground arith) (omega arith) (omega arith)))
      pair (kept _ _ old) (kept _ _ old') = d p q h l u l' u' old old' x y

  pub split_roles-IsAllocated :
      IsAllocated md g s
      → g.role r ≢ values
      → a < s.pages
      → r < s.pages
      → ((i : ℕ) → i < length s.del_node_pages.list → g.role r ≢ free_node i)
      → IsAllocated md (split_roles g a r top lo m hi) s
  unfolding split_roles
  split_roles-IsAllocated al no_values fa fr apart =
      with_role-IsAllocated md (with_role g a (tree top lo m)) s
        (with_role-IsAllocated md g s al a top lo m (λ e. ground arith) fa (λ i h e. ground arith))
        r top m hi (unfold with_role in ground arith) fr
        (λ i h. unfold with_role in ground (arith, apart i))

  pub split_roles-contents :
      (j : Key) → contents md (split_roles g a r top lo m hi) s j ≡ contents md g s j
  unfolding split_roles with_role contents
  split_roles-contents j = refl
