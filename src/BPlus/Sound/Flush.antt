-- ===== src/BPlus/Sound/Flush.antt =====
-- Node pages of a sound store: `flushToFile`, and the page that the constructor of a new node takes
-- from the list of free pages or appends, pkg/storage/bplustree/fileUtils.cpp.
use godbee.Base.{
  ℕ, ◌+◌, ◌<◌, ◌≡◌, ◌≢◌, refl, sym, ap, subst, ◌∙◌, Option, none, some, List, ◌∷◌, inl, inr, arith,
  length, update, ◌==◌, Bool-cases, ltb,
}
use mathlib.Core.Option
use godbee.BPlus.Search.{Key}
use godbee.BPlus.FreeList.{DelNodeList}
use godbee.BPlus.FreeList.Stack.{empty, popped, pop-Popped}
use godbee.BPlus.Offsets.{MetaData, IsConfig, node_id, value_idx, free_offset}
use godbee.BPlus.Offsets.Fields.{free_offset_fields}
use godbee.BPlus.Store.{
  Flag, Node, NodePage, node_page, Store, values_of, to_node_page, flush_to_file,
  flush_node_page_to_file, get_next_free_offset, take_node_offset, append_node_page_to_file,
  new_node,
}
use godbee.BPlus.Sound.{
  Ghost, Role, unused, values, tree, free_node, IsAllocated, FreeNodes, stored, contents,
}
use godbee.BPlus.Sound.Roles.{FreeNodes-of_roles, FreeValues-of_roles}

-- The store after a node page has been written.
unfoldable pub flushed : MetaData → Store → ℕ → NodePage → Store
flushed md s offset p = record s { file = update s.file (node_id md offset) (node_page p) }

unfoldable pub with_role : Ghost → ℕ → Role → Ghost
with_role g p r = record g { role = update g.role p r }

module _ (md : MetaData) where
  pub flush_to_file-eq :
      (n : Node) (s : Store)
      → value_idx md n.off_set ≡ 0
      → flush_to_file md n s ≡ some (tt, flushed md s n.off_set (to_node_page n))
  unfolding flush_to_file flushed
  flush_to_file-eq n s h = rw h

  pub flushed_self :
      (s : Store) (offset : ℕ) (p : NodePage)
      → (flushed md s offset p).file (node_id md offset) ≡ node_page p
  unfolding flushed
  flushed_self s offset p = ground arith

  pub flushed-other :
      (s : Store) (offset : ℕ) (p : NodePage) (q : ℕ)
      → q ≢ node_id md offset
      → (flushed md s offset p).file q ≡ s.file q
  unfolding flushed
  flushed-other s offset p q h = ground arith

  module _ (g : Ghost) (s : Store) (al : IsAllocated md g s) where
    pub flushed-IsAllocated :
        (offset : ℕ) (p : NodePage)
        → g.role (node_id md offset) ≢ values
        → IsAllocated md g (flushed md s offset p)
    unfolding flushed
    flushed-IsAllocated offset p h = record {
      beyond = al.beyond;
      node_list = al.node_list;
      value_list = al.value_list;
      used = al.used;
      located = al.located;
      pages = λ q r. elim (Bool-cases (q == node_id md offset)) [
        | inl e ↦ absurd (h (ground arith))
        | inr e ↦ (let w = al.pages q r in (w.0, rw e w.1))
      ];
      last = al.last;
      behind = al.behind;
    }

    pub flushed-contents :
        (offset : ℕ) (p : NodePage)
        → g.role (node_id md offset) ≢ values
        → (j : Key) → contents md g (flushed md s offset p) j ≡ contents md g s j
    unfolding contents stored flushed
    flushed-contents offset p h j = go (g.loc j) refl
      where
        go :
            (o : Option ℕ)
            → g.loc j ≡ o
            → Option.map (stored md (flushed md s offset p)) o ≡ Option.map (stored md s) o
        go none e = refl
        go (some id) e = ground (arith, al.used id (λ z. ground (arith, al.located j id e)))

    -- A page that is no list's and holds no values may become a node of the tree.
    pub with_role-IsAllocated :
        (p height lo hi : ℕ)
        → g.role p ≢ values
        → p < s.pages
        → ((n : ℕ) → n < length s.del_node_pages.list → g.role p ≢ free_node n)
        → IsAllocated md (with_role g p (tree height lo hi)) s
    unfolding with_role
    with_role-IsAllocated p height lo hi h lt apart = record {
      beyond = λ q e. ground (arith, al.beyond q e);
      node_list =
          FreeNodes-of_roles md g (with_role g p (tree height lo hi)) s.del_node_pages.list
            (λ q n e f. ground (arith, apart n)) al.node_list;
      value_list =
          FreeValues-of_roles md g (with_role g p (tree height lo hi)) s.del_values.list
            (λ q n e f. f) al.value_list;
      used = λ j e. ground (arith, al.used j e);
      located = al.located;
      pages = λ q e. al.pages q (ground arith);
      last = λ e. ground (arith, al.last e);
      behind = al.behind;
    }

-- What the constructor of a new node does.
pub record IsNew (md : MetaData) (g : Ghost) (s : Store) (offset : ℕ) (s' : Store) : Type 0 where
  pub aligned : value_idx md offset ≡ 0
  pub allocated : IsAllocated md g s'
  pub no_values : g.role (node_id md offset) ≢ values
  pub no_tree : (height lo hi : ℕ) → g.role (node_id md offset) ≢ tree height lo hi
  pub in_file : node_id md offset < s'.pages
  pub apart : (i : ℕ) → i < length s'.del_node_pages.list → g.role (node_id md offset) ≢ free_node i
  pub file : (p : ℕ) → p ≢ node_id md offset → s'.file p ≡ s.file p
  pub contents_lem : (j : Key) → contents md g s' j ≡ contents md g s j

module _ (md : MetaData) (c : IsConfig md) (g : Ghost) (s : Store) (al : IsAllocated md g s) where
  -- The position of a new page, before the page is written.
  record IsOpen (id : ℕ) (s' : Store) : Type 0 where
    aligned : value_idx md id ≡ 0
    allocated : IsAllocated md g s'
    no_values : g.role (node_id md id) ≢ values
    no_tree : (height lo hi : ℕ) → g.role (node_id md id) ≢ tree height lo hi
    in_file : node_id md id < s'.pages
    apart : (i : ℕ) → i < length s'.del_node_pages.list → g.role (node_id md id) ≢ free_node i
    file : s'.file ≡ s.file

  pub page_in_file : (p : ℕ) → g.role p ≢ unused → p < s.pages
  page_in_file p h = elim (Bool-cases (ltb p s.pages)) [
    | inl e ↦ ground arith
    | inr e ↦ absurd (h (al.beyond p (ground arith)))
  ]

  take_freed :
      (id : ℕ) (rest : List ℕ) (d : DelNodeList)
      → s.del_node_pages.list ≡ id ∷ rest
      → d.list ≡ rest
      → IsOpen id (record s { del_node_pages = d })
  take_freed id rest d e e' =
      let free : FreeNodes md g (id ∷ rest) = subst (FreeNodes md g) e al.node_list in
      record {
        aligned = free.0;
        allocated = record {
          beyond = al.beyond;
          node_list = subst (FreeNodes md g) (sym e') free.2;
          value_list = al.value_list;
          used = al.used;
          located = al.located;
          pages = al.pages;
          last = al.last;
          behind = al.behind;
        };
        no_values = λ q. ground (arith, free.1);
        no_tree = λ h l u q. ground (arith, free.1);
        in_file = page_in_file (node_id md id) (λ q. ground (arith, free.1));
        apart = λ i h q. ground (arith, free.1, ap length e');
        file = refl;
      }

  take_appended : IsOpen (free_offset md s.pages) (record s { pages = s.pages + 1 })
  take_appended =
      let (at, pos) = free_offset_fields md c s.pages in
      let un : g.role s.pages ≡ unused = al.beyond s.pages (omega arith) in
      record {
        aligned = pos;
        allocated = record {
          beyond = λ p h. al.beyond p (omega arith);
          node_list = al.node_list;
          value_list = al.value_list;
          used = al.used;
          located = al.located;
          pages = al.pages;
          last = al.last;
          behind = al.behind;
        };
        no_values = rw at (λ q. ground arith);
        no_tree = λ h l u. rw at (λ q. ground arith);
        in_file = rw at (omega arith);
        apart = λ i h. rw at (λ q. ground arith);
        file = refl;
      }

  take_node_offset-IsOpen :
      (id : ℕ) × (s' : Store) × (take_node_offset md s ≡ some (id, s')) × IsOpen id s'
  unfolding take_node_offset get_next_free_offset
  take_node_offset-IsOpen = elim (pop-Popped s.del_node_pages) [
    | popped id rest d e e' p ↦
        (id, record s { del_node_pages = d }, rw p, take_freed id rest d e e')
    | empty d e e' p ↦
        (free_offset md s.pages, record s { pages = s.pages + 1 }, rw p, take_appended)
  ]

  -- On a store whose positions are accounted for, the constructor of a node takes a page of the file that
  -- is no node of the tree, has no values and is no longer free; it changes no other page, and for no
  -- key what the store holds.
  pub new_node-IsNew :
      (flag : Flag)
      → (s' : Store) × (n : Node) × (new_node md flag s ≡ some (n, s'))
        × (n.size ≡ 0)
        × (n.flag ≡ flag)
        × IsNew md g s n.off_set s'
  unfolding new_node append_node_page_to_file flush_node_page_to_file
  new_node-IsNew flag =
      let (id, s₁, e, t) = take_node_offset-IsOpen in
      let page : NodePage = record { childs = λ _. 0; keys = λ _. 0; flag = flag; size = 0 } in
      (
        flushed md s₁ id page,
        record { off_set = id; childs = λ _. 0; keys = λ _. 0; flag = flag; size = 0 },
        rw (e, t.aligned) (unfold flushed in refl),
        refl,
        refl,
        record {
          aligned = t.aligned;
          allocated = flushed-IsAllocated md g s₁ t.allocated id page t.no_values;
          no_values = t.no_values;
          no_tree = t.no_tree;
          in_file = unfold flushed in t.in_file;
          apart = unfold flushed in t.apart;
          file = λ p h. flushed-other md s₁ id page p h ∙ ap (λ f. f p) t.file;
          contents_lem = λ j.
              flushed-contents md g s₁ t.allocated id page t.no_values j ∙ same_file s₁ t.file j;
        },
      )
    where
      same_file :
          (s₁ : Store) → s₁.file ≡ s.file → (j : Key) → contents md g s₁ j ≡ contents md g s j
      same_file s₁ f j =
          unfold contents stored in
          λ i. Option.map (λ x. values_of (f i (node_id md x)) (value_idx md x)) (g.loc j)
