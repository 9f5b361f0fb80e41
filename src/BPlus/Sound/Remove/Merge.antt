-- ===== src/BPlus/Sound/Remove/Merge.antt =====
-- One of two siblings gets the entries of both, and the other's page is given up.
use godbee.Base.{ℕ, ◌+◌, ◌≤◌, ◌<◌, ◌≡◌, ◌≢◌, refl, sym, ap, ◌∙◌, ◌⊎◌, inl, inr, arith, length, some}
use godbee.BPlus.Search.{Key}
use godbee.BPlus.FreeList
use godbee.BPlus.Offsets.{MetaData, IsConfig, node_id, value_idx}
use godbee.BPlus.Store.{Node, removed_node, Store, to_node_page, push_del_node_page}
use godbee.BPlus.Removal.{clear_childs, mark_delete}
use godbee.BPlus.Sound.{
  Ghost, values, tree, free_node, lower, upper, as_page, IsNode, IsAllocated, contents,
}
use godbee.BPlus.Sound.Weak.{IsWeak, lower_if}
use godbee.BPlus.Sound.Flush.{
  with_role, flushed, flush_to_file-eq, flushed-other, flushed-IsAllocated, flushed-contents,
}
use godbee.BPlus.Sound.Remove.{
  Regrouped, merged, merged_keep, merged_gone, merged-Regrouped, merged-IsAllocated,
}
use godbee.BPlus.Sound.Remove.Father.{father_merged}
use godbee.BPlus.Sound.Remove.Repair.{
  Ready, Repaired, role_a, role_b, low_mid, mid_high, below, finish,
}

-- `f'` is `f` without entry `j`, and its child there is at `offset`.
pub record EntryDropped (f : Node) (j offset : ℕ) (f' : Node) : Type 0 where
  pub off_set : f'.off_set ≡ f.off_set
  pub flag : f'.flag ≡ f.flag
  pub size : f'.size + 1 ≡ f.size
  pub before : (i : ℕ) → i < j → f'.keys i ≡ f.keys i
  pub behind : (i : ℕ) → j ≤ i → i < f'.size → f'.keys i ≡ f.keys (i + 1)
  pub childs_before : (i : ℕ) → i < j → f'.childs i ≡ f.childs i
  pub child : f'.childs j ≡ offset
  pub childs_behind : (i : ℕ) → j < i → i ≤ f'.size → f'.childs i ≡ f.childs (i + 1)

-- The object that `markDelete` writes.
abbrev pub marked : MetaData → Node → Node
marked md n = record (clear_childs md n) { flag = removed_node }

-- The store after `markDelete`.
abbrev pub given_up : MetaData → Store → Node → Store
given_up md s n =
    let s' = flushed md s n.off_set (to_node_page (marked md n)) in
    record s' { del_node_pages = FreeList.push s.del_node_pages n.off_set }

pub mark_delete-eq :
    (md : MetaData) (n : Node) (s : Store)
    → value_idx md n.off_set ≡ 0
    → mark_delete md n s ≡ some (marked md n, given_up md s n)
unfolding mark_delete push_del_node_page clear_childs flushed
mark_delete-eq md n s e = rw (flush_to_file-eq md (marked md n) s e) refl

module _ (md : MetaData) (c : IsConfig md) (g : Ghost) (s : Store) (h flo fhi : ℕ) (n f : Node)
    (i : ℕ) (ready : Ready md g s h flo fhi n f i) (j : ℕ) (inside : j < f.size) (n' sib f' : Node)
    (off_set : n'.off_set ≡ n.off_set) (aligned : value_idx md n.off_set ≡ 0)
    (dropped : EntryDropped f j n.off_set f') (size : n.size + 1 ≤ n'.size)
    (node : IsNode md g h (lower f.keys flo j) (upper f.keys f.size fhi (j + 1)) (as_page n')) where
  abbrev a : ℕ
  a = node_id md (f.childs j)

  abbrev b : ℕ
  b = node_id md (f.childs (j + 1))

  abbrev lo : ℕ
  lo = lower f.keys flo j

  abbrev hi : ℕ
  hi = upper f.keys f.size fhi (j + 1)

  ra : g.role a ≡ tree h lo (f.keys j)
  ra = role_a md c g s h flo fhi n f i ready j inside

  rb : g.role b ≡ tree h (f.keys j) hi
  rb = role_b md c g s h flo fhi n f i ready j inside

  lm : lo < f.keys j
  lm = low_mid md c g s h flo fhi n f i ready j inside

  mh : f.keys j < hi
  mh = mid_high md c g s h flo fhi n f i ready j inside

  abbrev here : ℕ
  here = node_id md n.off_set

  abbrev gone : ℕ
  gone = node_id md sib.off_set

  module _ (sides : ((here ≡ a) × (gone ≡ b)) ⊎ ((here ≡ b) × (gone ≡ a)))
      (sib_aligned : value_idx md sib.off_set ≡ 0) (at_i : (i ≡ j) ⊎ (i ≡ j + 1)) where
    abbrev count : ℕ
    count = length s.del_node_pages.list

    abbrev joined : Ghost
    joined =
        merged md c g h lo (f.keys j) hi a b ra rb lm mh ready.disjoint ready.ordered here gone
          sides count

    re : Regrouped g h lo hi a b joined
    re =
        merged-Regrouped md c g h lo (f.keys j) hi a b ra rb lm mh ready.disjoint ready.ordered here
          gone sides count

    role_here : joined.role here ≡ tree h lo hi
    role_here =
        merged_keep md c g h lo (f.keys j) hi a b ra rb lm mh ready.disjoint ready.ordered here gone
          sides count

    role_gone : joined.role gone ≡ free_node count
    role_gone =
        merged_gone md c g h lo (f.keys j) hi a b ra rb lm mh ready.disjoint ready.ordered here gone
          sides count

    no_values : g.role gone ≢ values
    no_values e = elim sides [
      | inl (_, z) ↦ ground (arith, ap g.role (sym z) ∙ e, rb)
      | inr (_, z) ↦ ground (arith, ap g.role (sym z) ∙ e, ra)
    ]

    abbrev flush : Store
    flush = flushed md s sib.off_set (to_node_page (marked md sib))

    al : IsAllocated md joined (given_up md s sib)
    unfolding flushed
    al =
        merged-IsAllocated md c g h lo (f.keys j) hi a b ra rb lm mh ready.disjoint ready.ordered
          here gone sides count flush sib.off_set
          (flushed-IsAllocated md g s ready.allocated sib.off_set (to_node_page (marked md sib))
            no_values)
          refl sib_aligned refl

    same : (k : Key) → contents md joined (given_up md s sib) k ≡ contents md g s k
    unfolding contents with_role
    same k =
        flushed-contents md g s ready.allocated sib.off_set (to_node_page (marked md sib)) no_values
          k

    father' : IsWeak md joined h flo fhi (as_page f')
    father' =
        father_merged md g ready.father joined j inside (λ q x y na nb r. re.kept q h x y na nb r)
          dropped.flag dropped.size dropped.before dropped.behind dropped.childs_before
          (ap (value_idx md) dropped.child ∙ aligned)
          (ap (λ z. joined.role (node_id md z)) dropped.child ∙ role_here) dropped.childs_behind

    wider : (lo ≤ lower f.keys flo i) × (upper f.keys f.size fhi i ≤ hi)
    wider = elim at_i [
      | inl e ↦
          let down : lower f.keys flo i ≡ lo = ap (lower f.keys flo) e in
          let up : upper f.keys f.size fhi i ≡ f.keys j = ground arith in
          (omega (arith, down), omega (arith, up, mh))
      | inr e ↦
          let up : upper f.keys f.size fhi i ≡ hi = ap (upper f.keys f.size fhi) e in
          let down : lower f.keys flo i ≡ f.keys j =
            ap (lower f.keys flo) e ∙ rw (lower_if f.keys flo (j + 1)) (ground arith) in
          (omega (arith, down, lm), omega (arith, up))
    ]

    pub merge :
        (g' : Ghost) × Repaired md 1 g s h flo fhi n f
          (lower f.keys flo i)
          (upper f.keys f.size fhi i)
          n'
          f'
          g'
          (given_up md s sib)
    merge = (
      joined,
      finish md c g s h flo fhi n f i ready j inside gone sides joined re n' f' (given_up md s sib)
          al (λ q d. flushed-other md s sib.off_set (to_node_page (marked md sib)) q d)
          (λ x y r. absurd (ground (arith, r, role_gone))) same father'
          (omega (arith, dropped.size)) (off_set, dropped.off_set) lo hi wider role_here
          (below md c g s h flo fhi n f i ready j inside gone sides joined re h lo hi (as_page n')
            (omega arith) node)
          size (λ e. only e),
    )
      where
        only : f'.size ≡ 0 → f'.childs 0 ≡ n'.off_set
        only e =
            let z : 0 ≡ j = omega (arith, dropped.size) in
            ap f'.childs z ∙ dropped.child ∙ sym off_set
