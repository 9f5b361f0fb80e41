-- ===== src/Btree/Node/Split.antt =====
-- `splitChild` of pkg/storage/btree/BTreeNode.cpp: where its pages and entries are afterwards.
use godbee.Base.{
  ℕ, ◌+◌, ◌-◌, ◌≤◌, ◌<◌, ◌≡◌, ◌≢◌, refl, Bool, true, false, some, List, [], ◌∷◌, if◌then◌else◌,
  update, arith, ltb, ◌*◌,
}
use godbee.Btree.File.{
  Node, blank, max, leaf, internal, node_page, Config, Tree, write_page, write_node,
  write_empty_bytes, update_next_pos_node, is_leaf, new_node,
}
use godbee.Btree.Node.{page_for_split, upper_half, lower_half, parent_of_split, split_child}
use godbee.Btree.Loops.{take_from-at, fill-at, move_up-at, move_up-before}

-- No position in the queue is the page of one of the two nodes.
unfoldable pub Apart : List ℕ → Node → Node → Type 0
Apart [] n child = Unit
Apart (pos ∷ rest) n child = (pos ≢ n.pos) × (pos ≢ child.pos)

-- The page is not the one that is taken next.
unfoldable pub IsNotNext : List ℕ → ℕ → Type 0
IsNotNext [] p = Unit
IsNotNext (pos ∷ rest) p = p ≢ pos

-- The store after a split: `lower` stands at the child's page, `upper` at its own, `n'` at the parent's.
pub record IsSplit (s : Tree) (n : Node) (idx : ℕ) (child n' lower upper : Node) (s' : Tree)
    : Type 0 where
  pub lower_page : s'.file child.pos ≡ node_page lower
  pub upper_page : s'.file upper.pos ≡ node_page upper
  pub parent_page : s'.file n.pos ≡ node_page n'
  pub upper_new : (upper.pos ≢ n.pos) × (upper.pos ≢ child.pos)
  pub upper_fresh : (p : ℕ) → p < s.pages → IsNotNext s.deleted_nodes_pos p → p ≢ upper.pos
  pub others : (p : ℕ) → p ≢ n.pos → p ≢ child.pos → p ≢ upper.pos → s'.file p ≡ s.file p
  pub positions : (n'.pos ≡ n.pos) × (lower.pos ≡ child.pos)
  pub vals : s'.deleted_vals_pos ≡ s.deleted_vals_pos

-- The entries and children of `child` in order: those of `lower`, the middle one at `idx` of `n'`,
-- those of `upper`; and those of `n` around the middle one.
pub record IsCut (t : ℕ) (n : Node) (idx : ℕ) (child n' lower upper : Node) : Type 0 where
  pub sizes : (lower.n_entry ≡ t - 1) × (upper.n_entry ≡ t - 1) × (n'.n_entry ≡ n.n_entry + 1)
  pub flags :
      (lower.flag ≡ child.flag) × (is_leaf upper.flag ≡ is_leaf child.flag) × (n'.flag ≡ n.flag)
  pub lower_entry :
      (j : ℕ)
      → j < t - 1
      → (lower.arr_entry j ≡ child.arr_entry j) × (lower.value_pos j ≡ child.value_pos j)
  pub upper_entry :
      (j : ℕ)
      → j < t - 1
      → (upper.arr_entry j ≡ child.arr_entry (t + j))
        × (upper.value_pos j ≡ child.value_pos (t + j))
  pub middle :
      (n'.arr_entry idx ≡ child.arr_entry (t - 1)) × (n'.value_pos idx ≡ child.value_pos (t - 1))
  pub lower_child :
      is_leaf child.flag ≡ false → (j : ℕ) → j < t → lower.arr_child j ≡ child.arr_child j
  pub upper_child :
      is_leaf child.flag ≡ false → (j : ℕ) → j < t → upper.arr_child j ≡ child.arr_child (t + j)
  pub before :
      (j : ℕ) → j < idx → (n'.arr_entry j ≡ n.arr_entry j) × (n'.value_pos j ≡ n.value_pos j)
  pub behind :
      (j : ℕ)
      → idx ≤ j
      → j < n.n_entry
      → (n'.arr_entry (j + 1) ≡ n.arr_entry j) × (n'.value_pos (j + 1) ≡ n.value_pos j)
  pub child_before : (j : ℕ) → j ≤ idx → n'.arr_child j ≡ n.arr_child j
  pub child_new : n'.arr_child (idx + 1) ≡ upper.pos
  pub child_behind : (j : ℕ) → idx < j → j ≤ n.n_entry → n'.arr_child (j + 1) ≡ n.arr_child j

flag_of : (b : Bool) → is_leaf (if b then leaf else internal) ≡ b
unfolding is_leaf
flag_of true = refl
flag_of false = refl

module _ (c : Config) (n : Node) (idx : ℕ) (child : Node) (new_pos : ℕ) where
  abbrev parent : Node
  parent =
      let p = parent_of_split c n idx child in
      record p { arr_child = update p.arr_child (idx + 1) new_pos }

  abbrev lower : Node
  lower = record (lower_half c child) { pos = child.pos }

  abbrev upper : Node
  upper = record (upper_half c child) { pos = new_pos }

  halves-IsCut : idx ≤ n.n_entry → 1 ≤ c.t → IsCut c.t n idx child parent lower upper
  unfolding parent_of_split lower_half upper_half new_node
  halves-IsCut h t = record {
    sizes = (refl, refl, refl);
    flags = (refl, flag_of (is_leaf child.flag), refl);
    lower_entry = λ j p. (
      ground (arith, fill-at c.t (c.t - 1) c.empty_key child.arr_entry j),
      ground (arith, fill-at c.t (c.t - 1) 0 child.value_pos j),
    );
    upper_entry = λ j p. (
      ground (arith, take_from-at (c.t - 1) 0 c.t child.arr_entry (λ _. c.empty_key) j),
      ground (arith, take_from-at (c.t - 1) 0 c.t child.value_pos (λ _. 0) j),
    );
    middle = (ground arith, ground arith);
    lower_child = λ e j p. rw e (ground (arith, fill-at c.t c.t 0 child.arr_child j));
    upper_child = λ e j p. rw e (ground (arith, take_from-at c.t 0 c.t child.arr_child (λ _. 0) j));
    before = λ j p. (
      ground (arith, move_up-before (n.n_entry - idx) idx n.arr_entry j),
      ground (arith, move_up-before (n.n_entry - idx) idx n.value_pos j),
    );
    behind = λ j p q. (
      ground (arith, move_up-at (n.n_entry - idx) idx n.arr_entry j),
      ground (arith, move_up-at (n.n_entry - idx) idx n.value_pos j),
    );
    child_before = λ j p. ground (arith, move_up-before (n.n_entry - idx) (idx + 1) n.arr_child j);
    child_new = ground arith;
    child_behind = λ j p q. ground (arith, move_up-at (n.n_entry - idx) (idx + 1) n.arr_child j);
  }

module _ (c : Config) (n : Node) (idx : ℕ) (child : Node) where
  -- The three writes.
  abbrev written : ℕ → Tree → Tree
  written new_pos s = write_page new_pos (node_page (upper c n idx child new_pos)) (
      write_page n.pos (node_page (parent c n idx child new_pos))
        (write_page child.pos (node_page (lower c n idx child new_pos)) s))

  run :
      (s : Tree) (new_pos : ℕ) (s' : Tree)
      → page_for_split c s.deleted_nodes_pos n.pos s ≡ some (new_pos, s')
      → n.n_entry < 2 * c.t - 1
      → split_child c n idx child s ≡ some (parent c n idx child new_pos, written new_pos s')
  unfolding split_child page_for_split write_node write_page parent_of_split
  run s new_pos s' e room =
      let below : ltb n.n_entry (2 * c.t - 1) ≡ true = ground arith in rw (below, e) refl

  record IsNewPage (free : List ℕ) (s : Tree) (new_pos : ℕ) (s' : Tree) : Type 0 where
    pub fresh : (p : ℕ) → p < s.pages → IsNotNext free p → p ≢ new_pos
    pub apart : (new_pos ≢ n.pos) × (new_pos ≢ child.pos)
    pub same : (p : ℕ) → p ≢ n.pos → s'.file p ≡ s.file p
    pub vals_same : s'.deleted_vals_pos ≡ s.deleted_vals_pos

  page_for_split-IsNewPage :
      (free : List ℕ) (s : Tree)
      → Apart free n child
      → child.pos < s.pages
      → (new_pos : ℕ) × (s' : Tree) × (page_for_split c free n.pos s ≡ some (new_pos, s'))
        × IsNewPage free s new_pos s'
  unfolding page_for_split write_empty_bytes update_next_pos_node write_page Apart IsNotNext
  page_for_split-IsNewPage [] s apart h = (
    max s.pages (n.pos + 1),
    update_next_pos_node (write_page n.pos blank s),
    refl,
    record {
      fresh = λ p h' k e. ground arith;
      apart = (λ e. ground arith, λ e. ground arith);
      same = λ p d. ground (arith, d);
      vals_same = refl;
    },
  )
  page_for_split-IsNewPage (pos ∷ rest) s apart h = (
    pos,
    record s { deleted_nodes_pos = rest },
    refl,
    record { fresh = λ p h' k. k; apart = apart; same = λ p d. refl; vals_same = refl },
  )

  parent-pos : (parent_of_split c n idx child).pos ≡ n.pos
  unfolding parent_of_split
  parent-pos = refl

  -- A split of a child of a parent that is not full writes three pages: the child's, which keeps the entries below the middle one, the
  -- parent's, which has the middle one between the entries before and behind it, and a page that is neither,
  -- which has the entries above it.
  pub split_child-IsSplit :
      (s : Tree)
      → 1 ≤ c.t
      → n.n_entry < 2 * c.t - 1
      → idx ≤ n.n_entry
      → n.pos ≢ child.pos
      → child.pos < s.pages
      → Apart s.deleted_nodes_pos n child
      → (n' : Node) × (low : Node) × (up : Node) × (s' : Tree) × (split_child c n idx child s
          ≡ some (n', s'))
        × IsSplit s n idx child n' low up s'
        × IsCut c.t n idx child n' low up
  unfolding write_page
  split_child-IsSplit s t room h d inside apart =
      let (new_pos, s', e, new) = page_for_split-IsNewPage s.deleted_nodes_pos s apart inside in
      (
        parent c n idx child new_pos,
        lower c n idx child new_pos,
        upper c n idx child new_pos,
        written new_pos s',
        run s new_pos s' e room,
        record {
          lower_page = ground (arith, new.apart.0, new.apart.1, d);
          upper_page = ground arith;
          parent_page = ground (arith, new.apart.0);
          upper_new = new.apart;
          upper_fresh = new.fresh;
          others = λ p x y z. ground (arith, x, y, z, new.same p x);
          positions = (parent-pos, refl);
          vals = new.vals_same;
        },
        halves-IsCut c n idx child new_pos h t,
      )
