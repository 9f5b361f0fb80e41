-- ===== src/BPlus/Refine.antt =====
-- The tree of pkg/storage/bplustree/BPlusTree.cpp as a map from keys to values: `set`, `get` and
-- `exist` of the tree against the operations of a map.
pub mod History
pub mod Removal
use godbee.Base.{
  ℕ, zero, suc, ◌+◌, ◌≤◌, ◌<◌, ◌≡◌, ◌≢◌, refl, sym, ap, subst, ◌∙◌, Option, none, some, List, [],
  ◌∷◌, inl, inr, arith, is_some, update, Bool, true, false, ltb, ◌==◌, if◌then◌else◌, Bool-cases,
  length, ◌%◌, ◌^◌,
}
use godbee.BPlus.Search.{Key}
use godbee.BPlus.FreeList.{pop, create}
use godbee.BPlus.Offsets.{MetaData, IsConfig, node_id, value_idx, free_offset}
use godbee.BPlus.Offsets.Fields.{free_offset_fields}
use godbee.BPlus.Store.{
  Value, leaf_node, Node, NodePage, node_page, Store, new_node, append_node_page_to_file,
  take_node_offset, get_next_free_offset, flush_node_page_to_file, update_root, to_node_page,
}
use godbee.BPlus.Node.{Entry}
use godbee.BPlus.Tree.{
  BPlusTree, empty_store, insert, internal_insert, grow_root, note_root, as_tree, as_reader,
  is_copied, new_tree, tree_set, tree_get, tree_exist,
}
use godbee.BPlus.Sound.{
  Ghost, AreBounded, unused, tree, no_value, as_page, IsLeaf, IsNode, IsSound, IsAllocated,
  contents,
}
use godbee.BPlus.Sound.Get.{IsAt, get_from-contents, exist_from-contents}
use godbee.BPlus.Sound.Height.{height-lt-pages}
use godbee.BPlus.Sound.Grow.{IsTop, Grown, grow_root-Grown}
use godbee.BPlus.Sound.Flush.{flushed}
use godbee.BPlus.Sound.Insert.{
  filled_up, got_more, no_less, size_of_pages, Inserted, Outcome, whole, split,
}
use godbee.BPlus.Sound.Remove.Gone.{IsFull}
use godbee.BPlus.Sound.Insert.Walk.{internal_insert-Inserted}

-- What a tree stands for: the root object and the store are a sound tree for the keys below `bound`,
-- and its leaves hold the map. No node below the root has less
-- than `maxDegree - 1` entries.
pub record Represents (md : MetaData) (bound : ℕ) (t : BPlusTree) (map : Key → Option Value)
    : Type 0 where
  pub ghost : Ghost
  pub height : ℕ
  pub sound : IsSound md ghost t.store height
  pub at : IsAt md ghost t.store height 0 bound t.root
  pub is_top : IsTop ghost height
  pub contents_lem : (k : Key) → contents md ghost t.store k ≡ map k
  -- the nodes below the root have as many entries as they must
  pub full : IsFull md ghost t.store height
  pub bounded : AreBounded ghost bound

-- A key and a value whose texts fit into the buffers of `set`, with their NULs.
abbrev pub AreCopied : MetaData → Key → Value → Type 0
AreCopied md k v = (k < 256 ^ md.key_size) × (k % 256 ≡ 0) × (length v < md.value_size)

-- The map that `set` makes.
abbrev pub put : (Key → Option Value) → Key → Value → Key → Option Value
put map k v j = if j == k then some v else map j

module _ (md : MetaData) (bound : ℕ) where
  module _ (t : BPlusTree) (map : Key → Option Value) (r : Represents md bound t map) (k : Key)
      (lt : k < bound) where
    fuel : r.height < t.store.pages + 1
    fuel = omega (arith, height-lt-pages md r.ghost t.store r.height _ 0 bound r.sound r.at.role)

    -- `get` returns what the map has, and leaves the tree as it is.
    pub tree_get-map : tree_get md t k ≡ some (map k, t)
    unfolding tree_get as_reader
    tree_get-map =
        rw
          (get_from-contents md r.ghost t.store r.height (t.store.pages + 1) 0 bound t.root k
            r.sound.allocated r.sound.nodes r.at.node (omega arith, lt) fuel)
          (ap (λ o. some (o, t)) (r.contents_lem k))

    -- `exist` says whether the map has the key, and leaves the tree as it is.
    pub tree_exist-map : tree_exist md t k ≡ some (is_some (map k), t)
    unfolding tree_exist as_reader
    tree_exist-map =
        rw
          (exist_from-contents md r.ghost t.store r.height (t.store.pages + 1) 0 bound t.root k
            r.sound.nodes r.at.node (omega arith, lt) fuel)
          (ap (λ o. some (is_some o, t)) (r.contents_lem k))

  all_copied : (k : Key) (v : Value) → AreCopied md k v → is_copied md k v ≡ true
  unfolding is_copied
  all_copied k v (x, y, z) = ground (arith, x, y, z)

  module _ (c : IsConfig md) where
    -- A sound root of some store that holds the map.
    IsRoot : Node → Store → (Key → Option Value) → Type 0
    IsRoot root s map =
        (g : Ghost) × (height : ℕ) × IsSound md g s height
        × IsAt md g s height 0 bound root
        × IsTop g height
        × ((j : Key) → contents md g s j ≡ map j)
        × IsFull md g s height
        × AreBounded g bound

    module _ (t : BPlusTree) (map : Key → Option Value) (r : Represents md bound t map) (k : Key)
        (v : Value) where
      module _ (e : Option Entry) (n' : Node) (g' : Ghost) (s' : Store)
          (i : Inserted md r.ghost t.store r.height
            (node_id md t.root.off_set)
            0
            bound
            k
            v
            t.root
            e
            n'
            g'
            s') where
        top : IsTop g' r.height
        top p h l u q = elim (Bool-cases (ltb r.height h)) [
          | inl x ↦
              absurd (ground (arith, r.is_top p h l u (i.above_back p h l u (ground arith) q)))
          | inr x ↦ ground arith
        ]

        map_of : (j : Key) → contents md g' s' j ≡ put map k v j
        map_of j = i.contents_lem j ∙ ap (λ o. if j == k then some v else o) (r.contents_lem j)

        -- The nodes below the root are as full as they were.
        lower-IsFull : IsFull md g' s' r.height
        lower-IsFull p h l u lt q =
            let (np, f, ok) = i.sound.nodes p h l u (omega arith) q in
            (
              np,
              f,
              ok,
              elim (i.sizes p h l u np (omega arith) q f) [
                | filled_up x ↦ x
                | got_more _ j _ _ ↦ absurd (omega arith)
                | no_less l' u' old q' f' x _ ↦
                    let (np', f'', _, big) = r.full p h l' u' lt q' in
                    let size : np'.size ≡ old.size = size_of_pages np' old (sym f'' ∙ f') in
                    omega (arith, size, big)
              ],
            )

        -- When the root is split, so are its halves.
        split_full :
            (up : Entry)
            → e ≡ some up
            → (p h l u : ℕ) → h ≤ r.height
            → g'.role p ≡ tree h l u
            → (np : NodePage) × (s'.file p ≡ node_page np) × (md.max_degree ≤ np.size + 1)
        split_full up same p h l u le q = elim (Bool-cases (h == r.height)) [
          | inr z ↦ (let w = lower-IsFull p h l u (ground arith) q in (w.0, w.1, w.3))
          | inl z ↦
              let (np, f, ok) = i.sound.nodes p h l u le q in
              (
                np,
                f,
                elim (i.sizes p h l u np le q f) [
                  | filled_up x ↦ x
                  | got_more _ _ n _ ↦ absurd (ground (arith, n, same))
                  | no_less l' u' old q' _ _ only ↦
                      let at_top : h ≡ r.height = ground arith in
                      let q'' : r.ghost.role p ≡ tree r.height l' u' =
                        q' ∙ ap (λ z. tree z l' u') at_top in
                      let root : p ≡ node_id md t.root.off_set =
                        r.sound.disjoint p (node_id md t.root.off_set) r.height l' u' 0 bound q''
                          r.at.role
                          (omega (arith, r.sound.ordered _ _ _ _ q'', r.bounded _ _ _ _ q''))
                          (omega (arith, r.sound.ordered _ _ _ _ q'')) in
                      absurd (ground (arith, only at_top root, same))
                ],
              )
        ]

        -- The root that the outcome makes.
        IsRoot-of :
            (e' : Option Entry)
            → e ≡ e'
            → Outcome md g' r.height (node_id md t.root.off_set) 0 bound n' e'
            → (root : Node) × (s'' : Store) × (grow_root md n' e' s' ≡ some (root, s''))
              × IsRoot root s'' (put map k v)
        unfolding grow_root IsRoot
        IsRoot-of none _ (whole role node) = (
          n',
          s',
          refl,
          (
            g',
            r.height,
            i.sound,
            record { aligned = rw i.off_set r.at.aligned; role = rw i.off_set role; node = node },
            top,
            map_of,
            lower-IsFull,
            i.bounded bound r.bounded,
          ),
        )
        IsRoot-of (some _) same (split up between left al right) =
            let (root, g'', s'', run, x) =
              grow_root-Grown md c g' s' r.height bound i.sound top n' up between
                (rw i.off_set r.at.aligned) (rw i.off_set left) al right in
            (
              root,
              s'',
              run,
              (
                g'',
                suc r.height,
                x.sound,
                x.at,
                x.is_top,
                λ j. x.contents_lem j ∙ map_of j,
                λ p h l u lt q.
                    let (old, file) = x.below p h l u (omega arith) q in
                    let (np, f, big) = split_full up same p h l u (omega arith) old in
                    let (np', f', ok) = x.sound.nodes p h l u (omega arith) q in
                    let size : np'.size ≡ np.size = size_of_pages np' np (sym f' ∙ file ∙ f) in
                    (np', f', ok, omega (arith, size, big)),
                x.bounded (i.bounded bound r.bounded),
              ),
            )

      -- `set` notes a new root in the header, and the rest of the store stays.
      noted :
          (root : Node) (s : Store)
          → IsRoot root s (put map k v)
          → (t' : BPlusTree) × (as_tree md tt (note_root md t.root root s) ≡ some (tt, t'))
            × Represents md bound t' (put map k v)
      unfolding note_root as_tree IsRoot update_root
      noted root s (g, height, sound, at, is_top, map_of, full, bounded) =
          elim (Bool-cases (t.root.off_set == root.off_set)) [
            | inl q ↦ (
              record { root = root; store = s },
              rw q refl,
              record {
                ghost = g;
                height = height;
                sound = sound;
                at = at;
                is_top = is_top;
                contents_lem = map_of;
                full = full;
                bounded = bounded;
              },
            )
            | inr q ↦ (
              record {
                root = root;
                store = record s {
                  header = record { root = root.off_set; current_value_node = s.empty_value_node };
                };
              },
              rw q refl,
              record {
                ghost = g;
                height = height;
                sound = record {
                  allocated = record {
                    beyond = sound.allocated.beyond;
                    node_list = sound.allocated.node_list;
                    value_list = sound.allocated.value_list;
                    used = sound.allocated.used;
                    located = sound.allocated.located;
                    pages = sound.allocated.pages;
                    last = sound.allocated.last;
                    behind = sound.allocated.behind;
                  };
                  disjoint = sound.disjoint;
                  ordered = sound.ordered;
                  nodes = sound.nodes;
                };
                at = record { aligned = at.aligned; role = at.role; node = at.node };
                is_top = is_top;
                contents_lem = λ j. unfold contents in map_of j;
                full = full;
                bounded = bounded;
              },
            )
          ]

      -- `set` of a key and a value that fit into its buffers with their NULs always succeeds on a tree that
      -- stands for a map, and afterwards the tree stands for the map with the new value at the key.
      pub tree_set-map :
          k < bound
          → AreCopied md k v
          → (t' : BPlusTree) × (tree_set md t k v ≡ some (tt, t'))
            × Represents md bound t' (put map k v)
      unfolding tree_set is_copied insert
      tree_set-map lt copied =
          let (e, n', g', s', run, i) =
            internal_insert-Inserted md c k v r.height (t.store.pages + 1) r.ghost t.store r.sound 0
              bound t.root r.at (omega arith, lt) (fuel t map r k lt) in
          let (root, s'', grow, is_root) = IsRoot-of e n' g' s' i e refl i.outcome in
          let (t', note, rep) = noted root s'' is_root in
          let room : is_copied md k v ≡ true = all_copied k v copied in
          (t', rw (room, run, grow) note, rep)

    start_page : NodePage
    start_page = record { childs = λ _. 0; keys = λ _. 0; flag = leaf_node; size = 0 }

    start_ghost : Ghost
    start_ghost = record {
      role = update (λ _. unused) 0 (tree 0 0 bound);
      value_role = λ _. no_value;
      loc = λ _. none;
    }

    start-IsNode :
        (p h l u : ℕ)
        → start_ghost.role p ≡ tree h l u
        → IsLeaf md start_ghost 0 bound start_page
        → IsNode md start_ghost h l u start_page
    unfolding start_ghost
    start-IsNode p h l u r leaf = relabel (ground arith) (ground arith) (ground arith)
      where
        relabel : 0 ≡ h → 0 ≡ l → bound ≡ u → IsNode md start_ghost h l u start_page
        relabel x y z =
            subst (λ h. IsNode md start_ghost h l u start_page) x
              (subst (λ l. IsLeaf md start_ghost l u start_page) y
                (subst (λ u. IsLeaf md start_ghost 0 u start_page) z leaf))

    -- The tree of an empty file stands for the empty map.
    pub new_tree-map :
        0 < bound
        → (t : BPlusTree) × (new_tree md ≡ some (tt, t)) × Represents md bound t (λ _. none)
    unfolding new_tree as_tree new_node append_node_page_to_file take_node_offset
        get_next_free_offset flush_node_page_to_file pop create start_page start_ghost contents
        flushed
    new_tree-map pos =
        let (page, index) = free_offset_fields md c 0 in
        let id = free_offset md 0 in
        let leaf : IsLeaf md start_ghost 0 bound start_page = record {
          flag = refl;
          room = omega (arith, c.degree);
          ascending = λ i j x y. absurd (omega arith);
          within = λ i x. absurd (omega arith);
          located = λ i x. absurd (omega arith);
          complete = λ k x y z. refl;
        } in
        (
          record {
            root = record {
              off_set = id;
              childs = λ _. 0;
              keys = λ _. 0;
              flag = leaf_node;
              size = 0;
            };
            store = flushed md (record empty_store { pages = 1 }) id start_page;
          },
          rw index refl,
          record {
            ghost = start_ghost;
            height = 0;
            sound = record {
              allocated = record {
                beyond = λ p h. ground arith;
                node_list = tt;
                value_list = tt;
                used = λ j h. absurd (h refl);
                located = λ k j h. ground arith;
                pages = λ p h. ground arith;
                last = λ h. absurd (h refl);
                behind = λ j h. absurd (h refl);
              };
              disjoint = λ p q h l u l' u' r r' x y. ground arith;
              ordered = λ p h l u r. ground (arith, pos);
              nodes =
                  λ p h l u le r. (start_page, ground (arith, page), start-IsNode p h l u r leaf);
            };
            at = record { aligned = index; role = rw page refl; node = leaf };
            is_top = λ p h l u r. ground arith;
            contents_lem = λ k. refl;
            full = λ p h l u lt r. absurd (omega arith);
            bounded = λ p h l u r. ground arith;
          },
        )
