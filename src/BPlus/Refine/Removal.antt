-- ===== src/BPlus/Refine/Removal.antt =====
-- `remove` of pkg/storage/bplustree/BPlusTree.cpp against the removal of a key from a map.
use godbee.Base.{
  ℕ, ◌+◌, ◌<◌, ◌≡◌, refl, ap, ◌∙◌, Option, none, some, inl, inr, arith, is_some, ◌==◌,
  if◌then◌else◌, Bool-cases,
}
use godbee.BPlus.Search.{Key}
use godbee.BPlus.Offsets.{MetaData, IsConfig}
use godbee.BPlus.Store.{Value, Node, Store, update_root}
use godbee.BPlus.Tree.{BPlusTree, remove_root, note_root, keep_or_note, as_removed, tree_remove}
use godbee.BPlus.Sound.{Ghost, contents}
use godbee.BPlus.Sound.Height.{height-lt-pages}
use godbee.BPlus.Sound.Remove.Root.{Rooted}
use godbee.BPlus.Sound.Remove.Ends.{root_after, at_root, at_root-RootGone}
use godbee.BPlus.Refine.{Represents}

-- The map that `remove` makes.
abbrev pub without_key : (Key → Option Value) → Key → Key → Option Value
without_key map k j = if j == k then none else map j

module _ (md : MetaData) (bound : ℕ) where
  Represents-of :
      {root : Node} {s : Store} {g : Ghost} {h : ℕ} {map : Key → Option Value}
      → Rooted md bound root s g h
      → ((j : Key) → contents md g s j ≡ map j)
      → Represents md bound (record { root = root; store = s }) map
  Represents-of {g} {h} r map_of = record {
    ghost = g;
    height = h;
    sound = r.sound;
    at = r.at;
    is_top = r.is_top;
    contents_lem = map_of;
    full = r.full;
    bounded = r.bounded;
  }

  -- Noting the root in the header changes nothing of this.
  note_root-Filled :
      (old root : Node) (s : Store) (g : Ghost) (h : ℕ) (map : Key → Option Value)
      → Rooted md bound root s g h
      → ((j : Key) → contents md g s j ≡ map j)
      → (s' : Store) × (note_root md old root s ≡ some (root, s'))
        × Represents md bound (record { root = root; store = s' }) map
  unfolding note_root update_root
  note_root-Filled old root s g h map r map_of = elim (Bool-cases (old.off_set == root.off_set)) [
    | inl q ↦ (s, rw q refl, Represents-of r map_of)
    | inr q ↦ (
      record s { header = record { root = root.off_set; current_value_node = s.empty_value_node } },
      rw q refl,
      Represents-of
          (record {
            sound = record {
              allocated = record {
                beyond = r.sound.allocated.beyond;
                node_list = r.sound.allocated.node_list;
                value_list = r.sound.allocated.value_list;
                used = r.sound.allocated.used;
                located = r.sound.allocated.located;
                pages = r.sound.allocated.pages;
                last = r.sound.allocated.last;
                behind = r.sound.allocated.behind;
              };
              disjoint = r.sound.disjoint;
              ordered = r.sound.ordered;
              nodes = r.sound.nodes;
            };
            at = record { aligned = r.at.aligned; role = r.at.role; node = r.at.node };
            is_top = r.is_top;
            full = r.full;
            bounded = r.bounded;
          })
          (λ j. unfold contents in map_of j),
    )
  ]

module _ (md : MetaData) (c : IsConfig md) (bound : ℕ) (t : BPlusTree) (map : Key → Option Value)
    (rep : Represents md bound t map) (k : Key) where
  -- `remove` of the tree, when its root is done.
  noted :
      (lt : k < bound) (old : Node) (new : Option Node) (s : Store)
      → at_root md c bound k lt (t.store.pages + 1) t.root t.store ≡ some ((old, new), s)
      → (g : Ghost) (h : ℕ) → Rooted md bound (root_after old new) s g h
      → ((j : Key) → contents md g s j ≡ without_key map k j)
      → is_some new ≡ is_some (map k)
      → (t' : BPlusTree) × (tree_remove md t k ≡ some (is_some (map k), t'))
        × Represents md bound t' (without_key map k)
  unfolding tree_remove as_removed keep_or_note remove_root
  noted lt old none s run g h r map_of result = (
    record { root = old; store = s },
    rw run (ap (λ b. some (b, record { root = old; store = s })) result),
    Represents-of md bound r map_of,
  )
  noted lt old (some root) s run g h r map_of result =
      let (s', note, filled') =
        note_root-Filled md bound old root s g h (without_key map k) r map_of in
      (
        record { root = root; store = s' },
        rw (run, note) (ap (λ b. some (b, record { root = root; store = s' })) result),
        filled',
      )

  -- `remove` always succeeds on a tree that stands for a map and tells whether the map has the key; the
  -- tree then stands for the map without the key.
  pub tree_remove-map :
      k < bound
      → (t' : BPlusTree) × (tree_remove md t k ≡ some (is_some (map k), t'))
        × Represents md bound t' (without_key map k)
  tree_remove-map lt =
      let rooted : Rooted md bound t.root t.store rep.ghost rep.height = record {
        sound = rep.sound;
        at = rep.at;
        is_top = rep.is_top;
        full = rep.full;
        bounded = rep.bounded;
      } in
      let gone = at_root-RootGone md c bound k lt (t.store.pages + 1) rep.height rooted (
        omega (
          arith,
          height-lt-pages md rep.ghost t.store rep.height _ 0 bound rep.sound rep.at.role,
        )) in
      noted lt gone.old gone.new gone.store gone.runs gone.ghost gone.height gone.rooted
        (λ j. gone.contents_lem j ∙ ap (λ o. if j == k then none else o) (rep.contents_lem j))
        (gone.result ∙ ap is_some (rep.contents_lem k))
