-- ===== src/BPlus/Sound/Remove/Ends.antt =====
-- `remove` of a root, pkg/storage/bplustree/BPlusTreeNode.cpp, on every path: a leaf, an inner node that
-- keeps an entry, and one that gives its place to its child.
use godbee.Base.{
  ℕ, zero, suc, ◌<◌, ◌≡◌, refl, sym, ap, subst, ◌∙◌, Option, none, some, inl, inr, arith, is_some,
  Bool, true, false, ◌==◌, if◌then◌else◌, Bool-cases,
}
use godbee.BPlus.Search.{Key}
use godbee.BPlus.Offsets.{MetaData, IsConfig}
use godbee.BPlus.Store.{Node, Store, M, ◌>>=◌}
use godbee.BPlus.Removal.{is_leaf, clear_childs, leaf_remove, remove_under}
use godbee.BPlus.Tree.{child_at, or_this, after_remove, internal_remove, shrink_root}
use godbee.BPlus.Sound.{Ghost, contents}
use godbee.BPlus.Sound.Flush.{flush_to_file-eq}
use godbee.BPlus.Sound.Get.{Option-cases, descend}
use godbee.BPlus.Sound.Remove.Merge.{marked, mark_delete-eq}
use godbee.BPlus.Sound.Remove.Gone.{Removed}
use godbee.BPlus.Sound.Remove.Leaf.{existing, missing, no_entry}
use godbee.BPlus.Sound.Remove.LeafRoot
use godbee.BPlus.Sound.Remove.Walk.{
  leaf_flag, inner_flag, child_of, entry_at, internal_remove-Removed,
}
use godbee.BPlus.Sound.Remove.Root.{
  Rooted, cleared-Rooted, aligned₁, kept, kept-Rooted, kept-contents,
}
use godbee.BPlus.Sound.Remove.Shrink.{
  last_child, wrote, gone, lowered_ghost, new_root, new_root-contents,
}

-- The root after `remove`.
abbrev pub root_after : Node → Option Node → Node
root_after old none = old
root_after old (some new) = new

-- The root is done, and so is the choice of the new one.
pub record RootGone (md : MetaData) (bound : ℕ) (g : Ghost) (s : Store) (key : Key)
    (run : Option ((Node × Option Node) × Store)) : Type 0 where
  pub old : Node
  pub new : Option Node
  pub store : Store
  pub runs : run ≡ some ((old, new), store)
  pub ghost : Ghost
  pub height : ℕ
  pub rooted : Rooted md bound (root_after old new) store ghost height
  pub contents_lem :
      (j : Key) → contents md ghost store j ≡ (if j == key then none else contents md g s j)
  pub result : is_some new ≡ is_some (contents md g s key)

module _ (md : MetaData) (c : IsConfig md) (bound : ℕ) (key : Key) (lt : key < bound) where
  abbrev pub at_root : ℕ → Node → M (Node × Option Node)
  at_root fuel n = do
    (result, n', father) ← internal_remove md fuel n none 0 key
    shrink_root md result n'

  -- The root is a leaf.
  leaf_root :
      (fuel : ℕ) {n : Node} {s : Store} {g : Ghost}
      → Rooted md bound n s g 0
      → RootGone md bound g s key (at_root (suc fuel) n s)
  unfolding internal_remove leaf_remove remove_under shrink_root contents
  leaf_root fuel {n} {s} {g} rooted = elim (Option-cases (g.loc key)) [
    | inl absent ↦ record {
      old = n;
      new = none;
      store = s;
      runs =
          rw (flag, missing n key (no_entry md s n rooted.at.node key (omega arith, lt) absent))
            refl;
      ghost = g;
      height = 0;
      rooted = rooted;
      contents_lem = λ j. ground (arith, absent, ap (contents md g s));
      result = rw absent refl;
    }
    | inr (id, loc) ↦ there id loc
  ]
    where
      flag : is_leaf n.flag ≡ true
      flag = ap is_leaf rooted.at.node.flag ∙ leaf_flag

      there : (id : ℕ) → g.loc key ≡ some id → RootGone md bound g s key (at_root (suc fuel) n s)
      there id loc =
          let rest = LeafRoot.less-Rooted md bound rooted key lt id loc in
          let here = existing n key _ (LeafRoot.there md bound rooted key lt id loc).1 in
          elim (Bool-cases ((LeafRoot.less md bound rooted key lt id loc).size == 0)) [
            | inl e ↦ record {
              old = clear_childs md (LeafRoot.less md bound rooted key lt id loc);
              new = some (clear_childs md (LeafRoot.less md bound rooted key lt id loc));
              store = LeafRoot.wrote md bound rooted key lt id loc;
              runs =
                  rw
                    (
                      flag,
                      here,
                      LeafRoot.remove_left-eq md bound rooted key lt id loc,
                      LeafRoot.flush-eq md bound rooted key lt id loc,
                      e,
                      ap is_leaf rest.at.node.flag ∙ leaf_flag,
                    )
                    refl;
              ghost = LeafRoot.after md bound rooted key lt id loc;
              height = 0;
              rooted = cleared-Rooted md bound rest (ground (arith, e));
              contents_lem = LeafRoot.less-contents md bound rooted key lt id loc;
              result = rw loc refl;
            }
            | inr e ↦ record {
              old = LeafRoot.less md bound rooted key lt id loc;
              new = some (LeafRoot.less md bound rooted key lt id loc);
              store = LeafRoot.wrote md bound rooted key lt id loc;
              runs =
                  rw
                    (
                      flag,
                      here,
                      LeafRoot.remove_left-eq md bound rooted key lt id loc,
                      LeafRoot.flush-eq md bound rooted key lt id loc,
                      e,
                    )
                    refl;
              ghost = LeafRoot.after md bound rooted key lt id loc;
              height = 0;
              rooted = rest;
              contents_lem = LeafRoot.less-contents md bound rooted key lt id loc;
              result = rw loc refl;
            }
          ]

  -- What `internalRemove` and `remove` do at the root when its child is done.
  abbrev ended : Node → Node → Bool → M (Node × Option Node)
  ended n child done = do
    (result, n', father) ← after_remove md n none 0 child done
    shrink_root md result n'

  module _ {g : Ghost} {s : Store} {n : Node} (h : ℕ) (rooted : Rooted md bound n s g (suc h))
      (done : Bool) (child child' n₁ : Node) (g₁ : Ghost) (s₁ : Store)
      (r : Removed md g s h 0 bound child n key done child' n₁ g₁ s₁) where
    with_entries :
        (done' : Bool)
        → done ≡ done'
        → 0 < n₁.size
        → RootGone md bound g s key (ended n₁ child' done' s₁)
    unfolding after_remove shrink_root
    with_entries done' same pos =
        let e : (n₁.size == 0) ≡ false = ground arith in
        let write = flush_to_file-eq md n₁ s₁ (aligned₁ md c bound rooted r) in
        record {
          old = n₁;
          new = if done' then some n₁ else none;
          store = kept md c bound rooted r pos;
          runs = elim (Bool-cases done') [
            | inl z ↦ rw (z, e, write, e) refl
            | inr z ↦ rw (z, e, write) refl
          ];
          ghost = g₁;
          height = suc h;
          rooted = elim (Bool-cases done') [
            | inl z ↦ rw z (kept-Rooted md c bound rooted r pos)
            | inr z ↦ rw z (kept-Rooted md c bound rooted r pos)
          ];
          contents_lem = kept-contents md c bound rooted r pos;
          result = elim (Bool-cases done') [
            | inl z ↦ rw z (sym z ∙ sym same ∙ r.result)
            | inr z ↦ rw z (sym z ∙ sym same ∙ r.result)
          ];
        }

    without : n₁.size ≡ 0 → done ≡ true → RootGone md bound g s key (ended n₁ child' true s₁)
    unfolding after_remove shrink_root
    without empty same =
        let e : (n₁.size == 0) ≡ true = ground arith in
        let inner : is_leaf n₁.flag ≡ false = ap is_leaf r.father.flag ∙ inner_flag in
        let fresh = new_root md c bound rooted r empty in
        let aligned = aligned₁ md c bound rooted r in
        record {
          old = marked md (last_child md c bound rooted r empty);
          new = some fresh.root;
          store = gone md c bound rooted r empty;
          runs =
              rw
                (
                  e,
                  flush_to_file-eq md (last_child md c bound rooted r empty) s₁ aligned,
                  e,
                  inner,
                  fresh.read,
                  mark_delete-eq md (last_child md c bound rooted r empty)
                      (wrote md c bound rooted r empty) aligned,
                )
                refl;
          ghost = lowered_ghost md c bound rooted r empty;
          height = h;
          rooted = fresh.stands;
          contents_lem = new_root-contents md c bound rooted r empty;
          result = sym same ∙ r.result;
        }

    ended-RootGone : RootGone md bound g s key (ended n₁ child' done s₁)
    ended-RootGone = elim (Bool-cases (n₁.size == 0)) [
      | inr e ↦ with_entries done refl (ground arith)
      | inl e ↦ elim (Bool-cases done) [
        | inl z ↦
            subst (λ b. RootGone md bound g s key (ended n₁ child' b s₁)) (sym z)
              (without (ground arith) z)
        | inr z ↦ absurd (ground (arith, r.quiet z, rooted.at.node.nonempty))
      ]
    ]

  inner_root :
      (fuel h : ℕ) {n : Node} {s : Store} {g : Ghost}
      → Rooted md bound n s g (suc h)
      → h < fuel
      → RootGone md bound g s key (at_root (suc fuel) n s)
  unfolding internal_remove child_at or_this
  inner_root fuel h {n} {s} {g} rooted lt' =
      let d =
        descend md g s n rooted.at.node key (omega arith, lt)
          (λ p k x y le q. rooted.sound.nodes p k x y (omega arith) q) in
      let q = child_of md g s h 0 bound n rooted.at.node rooted.full d.index d.in_range in
      let entry =
        entry_at md q rooted.sound.allocated rooted.sound.disjoint rooted.sound.ordered rooted.full
          rooted.at.node d.in_range in
      let (done, child', n₁, g₁, s₁, run, r) =
        internal_remove-Removed md c key h fuel entry (d.low, d.high) lt' in
      let inner : is_leaf n.flag ≡ false = ap is_leaf rooted.at.node.flag ∙ inner_flag in
      let eq : at_root (suc fuel) n s ≡ ended n₁ child' done s₁ =
        rw (inner, d.found, q.read, run) refl in
      subst (RootGone md bound g s key) (sym eq)
        (ended-RootGone h rooted done q.node child' n₁ g₁ s₁ r)

  pub at_root-RootGone :
      (fuel h : ℕ) {n : Node} {s : Store} {g : Ghost}
      → Rooted md bound n s g h
      → h < fuel
      → RootGone md bound g s key (at_root fuel n s)
  at_root-RootGone zero h rooted lt' = absurd (omega arith)
  at_root-RootGone (suc fuel) zero rooted lt' = leaf_root fuel rooted
  at_root-RootGone (suc fuel) (suc h) rooted lt' = inner_root fuel h rooted (omega arith)
