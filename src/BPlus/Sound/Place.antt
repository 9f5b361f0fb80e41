-- ===== src/BPlus/Sound/Place.antt =====
-- `insertNewValueToFile` of pkg/storage/bplustree/fileUtils.cpp takes a position that holds nothing
-- that the tree can reach, from the list of free positions, in the page of the last new value or in
-- a new page, and `updateValueToFile` overwrites one value.
use godbee.Base.{
  ℕ, [], true, ◌+◌, ◌≤◌, ◌<◌, ◌≡◌, ◌≢◌, refl, sym, ap, subst, ◌∙◌, Option, none, some, List, ◌∷◌,
  inl, inr, arith, length, Array, update, ◌==◌, ◌||◌, if◌then◌else◌, Bool-cases,
}
use mathlib.Core.Option
use godbee.BPlus.Search.{Key}
use godbee.BPlus.FreeList.{DelNodeList}
use godbee.BPlus.FreeList.Stack.{empty, popped, pop-Popped}
use godbee.BPlus.Offsets.{
  MetaData, IsConfig, ceil_div, node_id, value_idx, next_pos, free_offset, next_in_page,
}
use godbee.BPlus.Offsets.Fields.{
  node_id_injective, free_offset_fields, next_pos-eq, next_in_page_fields,
}
use godbee.BPlus.Store.{
  Value, value_page, Store, values_of, get_next_free_offset, set_empty_value_node,
  calculate_next_emty_value_node, take_value_offset, update_value_to_file, insert_new_value_to_file,
}
use godbee.BPlus.Sound.{
  Ghost, unused, values, tree, no_value, free_value, held, IsAllocated, FreeNodes, FreeValues,
  stored, contents,
}
use godbee.BPlus.Sound.Roles.{value_role_cases, FreeNodes-of_roles, FreeValues-of_roles}

-- The key's value is at the position from now on.
pub assign : Ghost → Key → ℕ → Ghost
assign g k id = record g {
  value_role = update g.value_role id (held k);
  loc = update g.loc k (some id);
}

-- The store after a value has been written.
written : MetaData → Store → ℕ → Value → Store
written md s id v = record s {
  file =
      update s.file (node_id md id)
        (value_page (update (values_of (s.file (node_id md id))) (value_idx md id) v));
}

module _ (md : MetaData) where
  stored-written :
      (s : Store) (id : ℕ) (v : Value) (j : ℕ)
      → stored md (written md s id v) j ≡ (if j == id then v else stored md s j)
  unfolding stored written values_of
  stored-written s id v j = elim (Bool-cases (node_id md j == node_id md id)) [
    | inl e ↦ ground (arith, node_id_injective md j id)
    | inr e ↦ ground arith
  ]

  -- A position that is about to be written.
  record IsReserved (g : Ghost) (s : Store) (id : ℕ) : Type 0 where
    beyond : (p : ℕ) → s.pages ≤ p → g.role p ≡ unused
    node_list : FreeNodes md g s.del_node_pages.list
    value_list : FreeValues md g s.del_values.list
    used : (j : ℕ) → g.value_role j ≢ no_value → g.role (node_id md j) ≡ values
    located : (k : Key) (j : ℕ) → g.loc k ≡ some j → g.value_role j ≡ held k
    pages :
        (p : ℕ)
        → p ≢ node_id md id
        → g.role p ≡ values
        → (vs : Array Value) × (s.file p ≡ value_page vs)
    last :
        s.empty_value_node ≢ 0
        → (g.role (node_id md s.empty_value_node) ≡ values)
          × (value_idx md s.empty_value_node < ceil_div md.page_size md.value_size)
    behind :
        (j : ℕ)
        → s.empty_value_node ≢ 0
        → node_id md j ≡ node_id md s.empty_value_node
        → value_idx md s.empty_value_node < value_idx md j
        → (g.value_role j ≡ no_value) × (j ≢ id)
    in_values : g.role (node_id md id) ≡ values
    apart : (n : ℕ) → n < length s.del_values.list → g.value_role id ≢ free_value n
    unlocated : (k : Key) → g.loc k ≢ some id

  module _ (g : Ghost) (s : Store) (k : Key) (v : Value) (id : ℕ) (r : IsReserved g s id) where
    assign-IsAllocated : IsAllocated md (assign g k id) (written md s id v)
    unfolding assign written
    assign-IsAllocated = record {
      beyond = r.beyond;
      node_list =
          FreeNodes-of_roles md g (assign g k id) s.del_node_pages.list (λ p n h e. e) r.node_list;
      value_list =
          FreeValues-of_roles md g (assign g k id) s.del_values.list
            (λ j n h e. ground (arith, r.apart n)) r.value_list;
      used = λ j h. elim (Bool-cases (j == id)) [
        | inl e ↦ ground (arith, r.in_values)
        | inr e ↦ r.used j (λ z. h (ground arith))
      ];
      located = λ q j h. ground (arith, r.located q j, r.unlocated q);
      pages = λ p h. elim (Bool-cases (p == node_id md id)) [
        | inl e ↦ (update (values_of (s.file (node_id md id))) (value_idx md id) v, rw e)
        | inr e ↦ (let w = r.pages p (ground arith) h in (w.0, rw e w.1))
      ];
      last = r.last;
      behind = λ j h p q. ground (arith, r.behind j h p q);
    }

    contents-written :
        (j : Key)
        → contents md (assign g k id) (written md s id v) j
          ≡ (if j == k then some v else contents md g s j)
    unfolding contents assign
    contents-written j = elim (Bool-cases (j == k)) [
      | inl e ↦ rw (e, stored-written s id v) (ground arith)
      | inr e ↦ rw e (elsewhere (g.loc j) refl)
    ]
      where
        elsewhere :
            (o : Option ℕ)
            → g.loc j ≡ o
            → Option.map (stored md (written md s id v)) o ≡ Option.map (stored md s) o
        elsewhere none h = refl
        elsewhere (some x) h = ap some (stored-written s id v x ∙ ground (arith, r.unlocated j))

  -- Where a position may come from, in the order in which the code looks: the first free one, the next one
  -- in the page of the last new value, or the first one of a new page at the end of the file.
  pub data Source (s : Store) (id : ℕ) (s' : Store) : Type 0 where
    from_list :
        (rest : List ℕ)
        → s.del_values.list ≡ id ∷ rest
        → s'.del_values.list ≡ rest
        → s'.pages ≡ s.pages
        → s'.empty_value_node ≡ s.empty_value_node
        → Source s id s'
    from_page :
        s.del_values.list ≡ []
        → s.empty_value_node ≢ 0
        → node_id md id ≡ node_id md s.empty_value_node
        → value_idx md id ≡ value_idx md s.empty_value_node + 1
        → value_idx md id < ceil_div md.page_size md.value_size
        → s'.pages ≡ s.pages
        → s'.empty_value_node ≡ id
        → Source s id s'
    from_new_page :
        s.del_values.list ≡ []
        → (s.empty_value_node ≢ 0
            → value_idx md s.empty_value_node + 1 ≡ ceil_div md.page_size md.value_size)
        → node_id md id ≡ s.pages
        → value_idx md id ≡ 0
        → s'.pages ≡ s.pages + 1
        → s'.empty_value_node ≡ id
        → Source s id s'

  -- The new position, and the ghost in which it is reserved.
  record IsTaken (g : Ghost) (s : Store) (id : ℕ) (g' : Ghost) (s' : Store) : Type 0 where
    reserved : IsReserved g' s' id
    source : Source s id s'
    loc : g'.loc ≡ g.loc
    file : s'.file ≡ s.file
    role_kept : (p height lo hi : ℕ) → g.role p ≡ tree height lo hi → g'.role p ≡ tree height lo hi
    role_back : (p height lo hi : ℕ) → g'.role p ≡ tree height lo hi → g.role p ≡ tree height lo hi

  module _ (c : IsConfig md) (g : Ghost) (s : Store) (al : IsAllocated md g s) where
    take_free :
        (id : ℕ) (rest : List ℕ) (d : DelNodeList)
        → s.del_values.list ≡ id ∷ rest
        → d.list ≡ rest
        → IsTaken g s id g (record s { del_values = d })
    take_free id rest d e e' =
        let free : FreeValues md g (id ∷ rest) = subst (FreeValues md g) e al.value_list in
        let in_values : g.role (node_id md id) ≡ values = al.used id (λ z. ground arith) in
        record {
          reserved = record {
            beyond = al.beyond;
            node_list = al.node_list;
            value_list = subst (FreeValues md g) (sym e') free.1;
            used = al.used;
            located = al.located;
            pages = λ p h. al.pages p;
            last = al.last;
            behind = λ j h p q. (al.behind j h p q, λ i. ground (arith, al.behind j h p q));
            in_values = in_values;
            apart = λ n h z. ground (arith, ap length e');
            unlocated = λ k z. ground (arith, al.located k id z);
          };
          source = from_list rest e e' refl refl;
          loc = refl;
          file = refl;
          role_kept = λ p h l u z. z;
          role_back = λ p h l u z. z;
        }

    fresh_id : ℕ
    fresh_id = free_offset md s.pages

    fresh_ghost : Ghost
    fresh_ghost = record g { role = update g.role s.pages values }

    fresh_store : Store
    unfolding fresh_id
    fresh_store = record s { pages = s.pages + 1; empty_value_node = fresh_id }

    unheld : (j : ℕ) → g.role (node_id md j) ≢ values → g.value_role j ≡ no_value
    unheld j h = elim (value_role_cases (g.value_role j)) [
      | inl e ↦ e
      | inr e ↦ absurd (h (al.used j e))
    ]

    take_fresh :
        s.del_values.list ≡ []
        → ((s.empty_value_node == 0)
            || (next_pos md s.empty_value_node == ceil_div md.page_size md.value_size))
          ≡ true
        → IsTaken g s fresh_id fresh_ghost fresh_store
    unfolding fresh_id fresh_ghost fresh_store
    take_fresh none_free full =
        let at : node_id md (free_offset md s.pages) ≡ s.pages =
          (free_offset_fields md c s.pages).0 in
        let un : g.role s.pages ≡ unused = al.beyond s.pages (omega arith) in
        let nothing : g.value_role fresh_id ≡ no_value =
          unheld fresh_id (rw at (λ e. ground arith)) in
        record {
          reserved = record {
            beyond = λ p h. ground (arith, al.beyond p);
            node_list =
                FreeNodes-of_roles md g fresh_ghost s.del_node_pages.list (λ p n h e. ground arith)
                  al.node_list;
            value_list =
                FreeValues-of_roles md g fresh_ghost s.del_values.list (λ j n h e. e) al.value_list;
            used = λ j h. ground (arith, al.used j h);
            located = al.located;
            pages = λ p h e. al.pages p (ground arith);
            last = λ h.
                (ground arith, ground (arith, (free_offset_fields md c s.pages).1, c.some_value));
            behind = λ j h p q. (unheld j (rw (p, at) (λ e. ground arith)), λ e. ground arith);
            in_values = ground arith;
            apart = λ n h e. ground arith;
            unlocated = λ k e. ground (arith, al.located k fresh_id e);
          };
          source =
              from_new_page none_free
                (λ ne. ground (arith, full, ne, next_pos-eq md c s.empty_value_node (al.last ne).1))
                at (free_offset_fields md c s.pages).1 refl refl;
          loc = refl;
          file = refl;
          role_kept = λ p h l u e. ground arith;
          role_back = λ p h l u e. ground arith;
        }

    next_id : ℕ
    next_id = next_in_page md s.empty_value_node

    next_store : Store
    unfolding next_id
    next_store = record s { empty_value_node = next_id }

    take_next :
        s.del_values.list ≡ []
        → s.empty_value_node ≢ 0
        → next_pos md s.empty_value_node ≢ ceil_div md.page_size md.value_size
        → IsTaken g s next_id g next_store
    unfolding next_id next_store
    take_next none_free ne room =
        let (in_values, idx) = al.last ne in
        let r : value_idx md s.empty_value_node + 1 < ceil_div md.page_size md.value_size =
          omega (arith, next_pos-eq md c s.empty_value_node idx) in
        let (at, pos) = next_in_page_fields md c s.empty_value_node r in
        let nothing : g.value_role next_id ≡ no_value = al.behind next_id ne at (omega arith) in
        record {
          reserved = record {
            beyond = al.beyond;
            node_list = al.node_list;
            value_list = al.value_list;
            used = al.used;
            located = al.located;
            pages = λ p h. al.pages p;
            last = λ h. (at_values at in_values, omega arith);
            behind = λ j h p q. (al.behind j ne (p ∙ at) (omega arith), λ e. ground arith);
            in_values = at_values at in_values;
            apart = λ n h e. ground arith;
            unlocated = λ k e. ground (arith, al.located k next_id e);
          };
          source = from_page none_free ne at pos (omega arith) refl refl;
          loc = refl;
          file = refl;
          role_kept = λ p h l u e. e;
          role_back = λ p h l u e. e;
        }
      where
        at_values : {x y : ℕ} → x ≡ y → g.role y ≡ values → g.role x ≡ values
        at_values p h = ap g.role p ∙ h

    -- Every way to a new position reserves it.
    take_value_offset-IsTaken :
        (id : ℕ) × (g' : Ghost) × (s' : Store) × (take_value_offset md s ≡ some (id, s'))
        × IsTaken g s id g' s'
    unfolding take_value_offset calculate_next_emty_value_node fresh_id fresh_store next_id
        next_store get_next_free_offset set_empty_value_node
    take_value_offset-IsTaken = elim (pop-Popped s.del_values) [
      | popped id rest d e e' p ↦
          (id, g, record s { del_values = d }, rw p, take_free id rest d e e')
      | empty d e e' p ↦
          elim (Bool-cases (
            (s.empty_value_node == 0)
            || (next_pos md s.empty_value_node == ceil_div md.page_size md.value_size))) [
              | inl q ↦ (fresh_id, fresh_ghost, fresh_store, rw (p, q), take_fresh e q)
              | inr q ↦
                  (next_id, g, next_store, rw (p, q), take_next e (ground arith) (ground arith))
            ]
    ]

-- What writing a new value does to a sound store.
pub record Placed (md : MetaData) (g : Ghost) (s : Store) (k : Key) (v : Value) (id : ℕ)
    (g' : Ghost) (s' : Store) : Type 0 where
  pub source : Source md s id s'
  pub allocated : IsAllocated md g' s'
  pub loc_self : g'.loc k ≡ some id
  pub loc_other : (j : Key) → j ≢ k → g'.loc j ≡ g.loc j
  pub role_kept :
      (p height lo hi : ℕ) → g.role p ≡ tree height lo hi → g'.role p ≡ tree height lo hi
  pub role_back :
      (p height lo hi : ℕ) → g'.role p ≡ tree height lo hi → g.role p ≡ tree height lo hi
  pub file : (p height lo hi : ℕ) → g.role p ≡ tree height lo hi → s'.file p ≡ s.file p
  pub contents_lem :
      (j : Key) → contents md g' s' j ≡ (if j == k then some v else contents md g s j)

module _ (md : MetaData) (g : Ghost) (s : Store) (k : Key) (v : Value) where
  contents_taken :
      (id : ℕ) (g₁ : Ghost) (s₁ : Store)
      → IsTaken md g s id g₁ s₁
      → (j : Key) → contents md g₁ s₁ j ≡ contents md g s j
  unfolding contents stored
  contents_taken id g₁ s₁ t j =
      λ i. Option.map (λ x. values_of (t.file i (node_id md x)) (value_idx md x)) (t.loc i j)

  -- The write of the value changes none of what the source says.
  Source-written : {id : ℕ} {s₁ : Store} → Source md s id s₁ → Source md s id (written md s₁ id v)
  unfolding written
  Source-written (from_list rest e e' p n) = from_list rest e e' p n
  Source-written (from_page e ne at idx room p n) = from_page e ne at idx room p n
  Source-written (from_new_page e full at idx p n) = from_new_page e full at idx p n

  Placed-of_taken :
      (id : ℕ) (g₁ : Ghost) (s₁ : Store)
      → IsTaken md g s id g₁ s₁
      → Placed md g s k v id (assign g₁ k id) (written md s₁ id v)
  unfolding assign written
  Placed-of_taken id g₁ s₁ t = record {
    source = Source-written t.source;
    allocated = assign-IsAllocated md g₁ s₁ k v id t.reserved;
    loc_self = ground arith;
    loc_other = λ j h. ground (arith, ap (λ f. f j) t.loc);
    role_kept = t.role_kept;
    role_back = t.role_back;
    file = λ p h lo hi r. elim (Bool-cases (p == node_id md id)) [
      | inl e ↦ ground (arith, t.reserved.in_values, t.role_kept p h lo hi r)
      | inr e ↦ rw e (ap (λ f. f p) t.file)
    ];
    contents_lem = λ j.
        contents-written md g₁ s₁ k v id t.reserved j
        ∙ ap (λ o. if j == k then some v else o) (contents_taken id g₁ s₁ t j);
  }

module _ (md : MetaData) (c : IsConfig md) (g : Ghost) (s : Store) (al : IsAllocated md g s)
    (k : Key) (v : Value) where
  -- On a store whose positions are accounted for, `insertNewValueToFile` returns the first position of the
  -- free list; where that is empty, the one behind the last new value in its page; and where there is no
  -- such value or the page is full, the first one of a new page. No key holds it and the key gets it, every node of the tree stays as it is in its page, and the store holds the
  -- value for the key, and for any other key what it held.
  pub insert_new_value_to_file-Placed :
      (id : ℕ) × (g' : Ghost) × (s' : Store) × (insert_new_value_to_file md v s ≡ some (id, s'))
      × Placed md g s k v id g' s'
  unfolding insert_new_value_to_file update_value_to_file written
  insert_new_value_to_file-Placed =
      let (id, g₁, s₁, e, t) = take_value_offset-IsTaken md c g s al in
      (id, assign g₁ k id, written md s₁ id v, rw e, Placed-of_taken md g s k v id g₁ s₁ t)

-- The value of a key that the tree has, overwritten in its place.
module _ (md : MetaData) (g : Ghost) (s : Store) (al : IsAllocated md g s) (k : Key) (v : Value)
    (id : ℕ) (e : g.loc k ≡ some id) where
  held_page : g.role (node_id md id) ≡ values
  held_page = al.used id (λ z. ground (arith, al.located k id e))

  rewritten-IsAllocated : IsAllocated md g (written md s id v)
  unfolding written
  rewritten-IsAllocated = record {
    beyond = al.beyond;
    node_list = al.node_list;
    value_list = al.value_list;
    used = al.used;
    located = al.located;
    pages = λ p h. elim (Bool-cases (p == node_id md id)) [
      | inl q ↦ (update (values_of (s.file (node_id md id))) (value_idx md id) v, rw q)
      | inr q ↦ (let w = al.pages p h in (w.0, rw q w.1))
    ];
    last = al.last;
    behind = al.behind;
  }

  rewritten-contents :
      (j : Key)
      → contents md g (written md s id v) j ≡ (if j == k then some v else contents md g s j)
  unfolding contents
  rewritten-contents j = elim (Bool-cases (j == k)) [
    | inl q ↦
        rw (q, same_key j (ground arith)) (ap some (stored-written md s id v id ∙ ground arith))
    | inr q ↦ rw q (elsewhere (g.loc j) refl (ground arith))
  ]
    where
      same_key : (j : Key) → j ≡ k → g.loc j ≡ some id
      same_key j h = ap g.loc h ∙ e

      elsewhere :
          (o : Option ℕ)
          → g.loc j ≡ o
          → j ≢ k
          → Option.map (stored md (written md s id v)) o ≡ Option.map (stored md s) o
      elsewhere none h ne = refl
      elsewhere (some x) h ne =
          ap some (stored-written md s id v x ∙ ground (arith, al.located j x h, al.located k id e))

  pub update_value_to_file-eq :
      (s' : Store) × (update_value_to_file md v id s ≡ some (tt, s'))
      × IsAllocated md g s'
      × ((j : Key) → contents md g s' j ≡ (if j == k then some v else contents md g s j))
      × ((p height lo hi : ℕ) → g.role p ≡ tree height lo hi → s'.file p ≡ s.file p)
  unfolding update_value_to_file written
  update_value_to_file-eq = (
    written md s id v,
    refl,
    rewritten-IsAllocated,
    rewritten-contents,
    λ p h lo hi r. ground (arith, held_page),
  )
