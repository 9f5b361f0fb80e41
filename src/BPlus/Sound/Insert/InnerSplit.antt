-- ===== src/BPlus/Sound/Insert/InnerSplit.antt =====
-- `insertAndSplitInternal` of pkg/storage/bplustree/BPlusTreeNode.cpp on a sound store: a full inner
-- node is split, and the entry of the split child goes into one of the halves.
use godbee.Base.{
  ℕ, zero, suc, ◌+◌, ◌-◌, ◌*◌, ◌≤◌, ◌<◌, ◌≡◌, ◌≢◌, refl, sym, ap, subst, ◌∙◌, Option, some, inl,
  inr, arith, true, false, ltb, ◌==◌, if◌then◌else◌, Bool-cases,
}
use godbee.BPlus.Search.{Key}
use godbee.BPlus.Offsets.{MetaData, IsConfig, node_id}
use godbee.BPlus.Store.{Value, internal_node, Node, NodePage, node_page, Store, to_node_page}
use godbee.BPlus.Node.{Entry, copy_part_of_node, insert_in_half_internal, insert_and_split_internal}
use godbee.BPlus.Sound.{Ghost, values, tree, as_page, IsInner, IsNode, IsSound, contents}
use godbee.BPlus.Sound.Get.{IsAt, Descent}
use godbee.BPlus.Sound.Pages.{IsInner-Entered, IsInner-first, IsInner-rest}
use godbee.BPlus.Sound.Flush.{
  IsNew, with_role, flushed, flush_to_file-eq, flushed-other, flushed-IsAllocated, flushed-contents,
}
use godbee.BPlus.Sound.Insert.{filled_up, no_less, split, Inserted, split_roles}
use godbee.BPlus.Sound.Insert.Halves.{Halves, copy_part_of_node-Halves}
use godbee.BPlus.Sound.Insert.Cut.{
  cut_ghost, cut_this, cut_right, cut_kept, cut-IsAllocated, cut_contents, IsCut, IsDone, done,
  done-IsDone,
}
use godbee.BPlus.Sound.Insert.Leaf.{IsLeaf-elsewhere}
use godbee.BPlus.Sound.Insert.Inner.{
  IsInner-elsewhere, IsInner-apart, Below, child_page, lower_sizes,
}
use godbee.BPlus.Sound.Insert.InnerRoom.{
  InsertedRight, insert_right-InsertedRight, IsSplit, below-IsSplit, in_range, absent, here,
  other-IsInner,
}

module _ (md : MetaData) (c : IsConfig md) (g : Ghost) (s : Store) (height lo hi : ℕ)
    (sound : IsSound md g s (suc height)) (n : Node) (at : IsAt md g s (suc height) lo hi n)
    (k : Key) (v : Value) (d : Descent md g s height lo hi n k) (e : Entry) (child' : Node)
    (g' : Ghost) (s' : Store)
    (b : Below md c g s height lo hi sound n at k v d (some e) child' g' s')
    (full : n.size + 1 ≡ 2 * md.max_degree) where
  middle : Key
  middle = n.keys (md.max_degree - 1)

  page : ℕ
  page = node_id md n.off_set

  low : lo < middle
  unfolding middle
  low = (at.node.within (md.max_degree - 1) (omega (arith, c.degree))).0

  high : middle < hi
  unfolding middle
  high = (at.node.within (md.max_degree - 1) (omega (arith, c.degree))).1

  home : g'.role page ≡ tree (suc height) lo hi
  unfolding page
  home = here md c g s height lo hi sound n at k v d b

  IsSplit-facts : IsSplit md c g s height lo hi sound n at k v d e g'
  IsSplit-facts = below-IsSplit md c g s height lo hi sound n at k v d b

  map : Key → Option Value
  map j = if j == k then some v else contents md g s j

  module _ (this next : Node) (halves : Halves n internal_node md.max_degree this next) (s₁ : Store)
      (new : IsNew md g' s' next.off_set s₁) where
    cut_node : Node
    cut_node = record this { size = md.max_degree - 1 }

    abbrev g₃ : Ghost
    g₃ = cut_ghost md c g' s' (suc height) lo hi page home next.off_set middle s₁ new low high

    kept_below : (p h l u : ℕ) → h ≤ height → g'.role p ≡ tree h l u → g₃.role p ≡ tree h l u
    kept_below p h l u le q =
        cut_kept md c g' s' (suc height) lo hi page home next.off_set middle s₁ new low high p h l u
          (λ i. ground (arith, home)) q

    level :
        (p l u : ℕ)
        → p ≢ child_page md c g s height lo hi sound n at k v d
        → g.role p ≡ tree height l u
        → g₃.role p ≡ tree height l u
    level p l u ne q = kept_below p height l u (omega arith) (b.level p l u ne q)

    -- A node of a lower level, or another of this level, is what it was.
    kept-IsNode :
        (h l u : ℕ) (np : NodePage) → h ≤ suc height → IsNode md g' h l u np → IsNode md g₃ h l u np
    kept-IsNode zero l u np le leaf =
        IsLeaf-elsewhere md g' g₃ u (λ j x. unfold split_roles with_role in refl)
          (λ w. absurd (omega arith)) leaf
    kept-IsNode (suc h) l u np le inner =
        IsInner-elsewhere md g' g₃ inner
          (λ i x. kept_below _ h _ _ (omega arith) (inner.child i x) ∙ sym (inner.child i x))

    left_half : IsInner md g height lo middle (as_page cut_node)
    unfolding cut_node middle
    left_half =
        IsInner-first md g at.node (omega (arith, c.degree)) (omega (arith, c.degree))
          halves.this_flag (λ j x. halves.this_keys j (omega (arith, c.degree)))
          (λ j x. halves.this_childs j (omega (arith, c.degree)))

    right_half : IsInner md g height middle hi (as_page next)
    unfolding middle
    right_half =
        IsInner-rest md g md.max_degree at.node (omega (arith, c.degree)) (omega (arith, c.degree))
          (omega (arith, halves.right_size, c.degree)) (halves.right_flag ∙ sym at.node.flag)
          halves.right_size halves.right_keys halves.right_childs

    -- The half that the key is not in.
    without :
        {l u : ℕ} {p : NodePage}
        → IsInner md g height l u p
        → ((l ≤ e.key) × (e.key < u) → ⊥)
        → IsInner md g₃ height l u p
    without inner out = IsInner-apart md g g₃ inner d.at.role IsSplit-facts.between level out

    -- The half that it is in, with the entry.
    with_entry :
        {l u : ℕ} {m m' : Node}
        → IsInner md g height l u (as_page m)
        → m.size + 1 < 2 * md.max_degree
        → (l < e.key) × (e.key < u)
        → InsertedRight md m e.key e.value m'
        → IsInner md g₃ height l u (as_page m')
    with_entry inner room w r =
        IsInner-Entered md g g₃ e.value sound.disjoint inner r.entered r.childs room w d.at.role
          IsSplit-facts.between level
          (kept_below _ height _ _ (omega arith) IsSplit-facts.child_role) IsSplit-facts.aligned
          (kept_below _ height _ _ (omega arith) IsSplit-facts.next_role)

    abbrev CutOf : Node → Node → Store → Type 0
    CutOf this' next' s₂ =
        IsCut md c g' s' (suc height) lo hi page home next.off_set middle s₁ new low high map this'
          next' g₃ s₂

    -- One of the halves has been written already.
    cut_of :
        (m this' next' : Node)
        → (g₃.role (node_id md m.off_set) ≢ values)
        → ((p : ℕ) → p ≢ page → p ≢ node_id md next.off_set → p ≢ node_id md m.off_set)
        → IsInner md g₃ height lo middle (as_page this')
        → IsInner md g₃ height middle hi (as_page next')
        → this'.off_set ≡ n.off_set
        → next'.off_set ≡ next.off_set
        → md.max_degree ≤ this'.size + 1
        → md.max_degree ≤ next'.size + 1
        → CutOf this' next' (flushed md s₁ m.off_set (to_node_page m))
    unfolding page map
    cut_of m this' next' no_values other l r x y fx fy =
        let al =
          cut-IsAllocated md c g' s' (suc height) lo hi page home next.off_set middle s₁ new low
            high in
        record {
          this_node = l;
          next_node = r;
          this_off = ap (node_id md) x;
          next_off = y;
          this_full = fx;
          next_full = fy;
          allocated = flushed-IsAllocated md g₃ s₁ al m.off_set (to_node_page m) no_values;
          role_kept = λ p h l u q. q;
          role_back = λ p h l u q. q;
          file = λ p h l u i j q.
              flushed-other md s₁ m.off_set (to_node_page m) p (other p i j) ∙ new.file p j;
          rest = λ p h l u le ne q. rest p h l u le ne q;
          contents_lem = λ j.
              flushed-contents md g₃ s₁ al m.off_set (to_node_page m) no_values j
              ∙ cut_contents md c g' s' (suc height) lo hi page home next.off_set middle s₁ new low
                  high j
              ∙ b.contents_lem j;
        }
      where
        rest :
            (p h l u : ℕ)
            → h ≤ suc height
            → p ≢ page
            → g'.role p ≡ tree h l u
            → (np : NodePage) × (s'.file p ≡ node_page np) × IsNode md g₃ h l u np
        rest p h l u le ne q = elim (Bool-cases (h == suc height)) [
          | inr z ↦
              let (np, f, ok) = b.sound.nodes p h l u (ground arith) q in
              (np, f, kept-IsNode h l u np le ok)
          | inl z ↦
              let same : h ≡ suc height = ground arith in
              let (np, f, ok) =
                other-IsInner md c g s height lo hi sound n at k v d b p l u ne
                  (q ∙ ap (λ x. tree x l u) same) in
              (np, f, kept-IsNode h l u np le (subst (λ x. IsNode md g' x l u np) (sym same) ok))
        ]

    new_key : this.keys (md.max_degree - 1) ≡ middle
    unfolding middle
    new_key = halves.this_keys (md.max_degree - 1) (omega (arith, c.degree))

    -- The half with the entry is in the file.
    abbrev Halved : Node → Node → Type 0
    Halved this' next' =
        (s₂ : Store) × (insert_in_half_internal md cut_node next (this.keys (md.max_degree - 1))
            e.key e.value s₁
          ≡ some ((this', next'), s₂))
        × (this'.off_set ≡ n.off_set)
        × CutOf this' next' s₂

    this_page : node_id md this.off_set ≡ page
    unfolding page
    this_page = ap (node_id md) halves.off_set

    insert_in_this : e.key < middle → (this' : Node) × Halved this' next
    unfolding insert_in_half_internal cut_node middle
    insert_in_this lt =
        let (this', run, r) =
          insert_right-InsertedRight md cut_node e.key e.value s₁ (rw halves.off_set at.aligned)
            left_half.ascending missing left_half.nonempty in
        let off : node_id md this'.off_set ≡ page = ap (node_id md) r.off_set ∙ this_page in
        let w = in_range md c g s height lo hi sound n at k v d b in
        (
          this',
          (
            flushed md s₁ this'.off_set (to_node_page this'),
            rw (test lt) (rw run),
            r.off_set ∙ halves.off_set,
            cut_of this' this' next
                (λ q. ground (
                  arith,
                  ap g₃.role off,
                  cut_this md c g' s' (suc height) lo hi page home next.off_set middle s₁ new low
                      high,
                ))
                (λ p x y. rw off x) (with_entry left_half (omega (arith, c.degree)) (w.0, lt) r)
                (without right_half (λ u. omega arith)) (r.off_set ∙ halves.off_set) refl
                (omega (arith, r.entered.size)) (omega (arith, halves.right_size, full)),
          ),
        )
      where
        missing : (j : ℕ) → j < md.max_degree - 1 → this.keys j ≢ e.key
        missing j h q =
            absent md c g s height lo hi sound n at k v d b j (omega (arith, c.degree))
              (sym (halves.this_keys j (omega arith)) ∙ q)

        test : e.key < middle → ltb e.key (this.keys (md.max_degree - 1)) ≡ true
        test lt = ground (arith, new_key)

    insert_in_next :
        middle < e.key → (next' : Node) × (next'.off_set ≡ next.off_set) × Halved cut_node next'
    unfolding insert_in_half_internal cut_node middle
    insert_in_next lt =
        let (next', run, r) =
          insert_right-InsertedRight md next e.key e.value s₁ new.aligned right_half.ascending
            missing right_half.nonempty in
        let off : node_id md next'.off_set ≡ node_id md next.off_set = ap (node_id md) r.off_set in
        let w = in_range md c g s height lo hi sound n at k v d b in
        (
          next',
          r.off_set,
          (
            flushed md s₁ next'.off_set (to_node_page next'),
            rw (test lt) (rw run),
            halves.off_set,
            cut_of next' cut_node next'
                (λ q. ground (
                  arith,
                  ap g₃.role off,
                  cut_right md c g' s' (suc height) lo hi page home next.off_set middle s₁ new low
                      high,
                ))
                (λ p x y. rw off y) (without left_half (λ u. omega arith))
                (with_entry right_half (omega (arith, c.degree, halves.right_size)) (lt, w.1) r)
                halves.off_set r.off_set (omega arith)
                (omega (arith, r.entered.size, halves.right_size, full)),
          ),
        )
      where
        missing : (j : ℕ) → j < next.size → next.keys j ≢ e.key
        missing j h q =
            absent md c g s height lo hi sound n at k v d b (md.max_degree + j)
              (omega (arith, halves.right_size)) (sym (halves.right_keys j h) ∙ q)

        test : middle < e.key → ltb e.key (this.keys (md.max_degree - 1)) ≡ false
        test lt = ground (arith, new_key)

    up : Entry
    up = record { key = middle; value = next.off_set }

    finish :
        (this' next' : Node)
        → copy_part_of_node md n internal_node md.max_degree (n.size - 1) s'
          ≡ some ((this, next), s₁)
        → Halved this' next'
        → (s'' : Store) × (insert_and_split_internal md n e.key e.value s'
            ≡ some ((up, this'), s''))
          × Inserted md g s (suc height) page lo hi k v n (some up) this' g₃ s''
    unfolding insert_and_split_internal cut_node done up page map
    finish this' next' copy_run (s₂, run, off, cut) =
        let s₃ = flushed md s₂ next'.off_set (to_node_page next') in
        (
          flushed md s₃ this'.off_set (to_node_page this'),
          rw
              (
                copy_run,
                run,
                flush_to_file-eq md next' s₂ (rw cut.next_off new.aligned),
                flush_to_file-eq md this' s₃ (rw off at.aligned),
              )
              (λ i. some (
                (record { key = new_key i; value = cut.next_off i }, this'),
                flushed md s₃ this'.off_set (to_node_page this'),
              )),
          inserted (
              done-IsDone md c g' s' (suc height) lo hi page home next.off_set middle s₁ new low
                high b.sound.disjoint b.sound.ordered map this' next' g₃ s₂ cut),
        )
      where
        inserted :
            IsDone md c g' s'
              (suc height)
              lo
              hi
              page
              home
              next.off_set
              middle
              s₁
              new
              low
              high
              map
              g₃
              (done md c g' s'
                (suc height)
                lo
                hi
                page
                home
                next.off_set
                middle
                s₁
                new
                low
                high
                this'
                next'
                s₂)
            → Inserted md g s (suc height) page lo hi k v n (some up) this' g₃ (
                done md c g' s'
                  (suc height)
                  lo
                  hi
                  page
                  home
                  next.off_set
                  middle
                  s₁
                  new
                  low
                  high
                  this'
                  next'
                  s₂)
        inserted dn = record {
          sound = dn.sound;
          above = λ p h l u lt r.
              let x = b.above p h l u (omega arith) r in
              let y = dn.kept_lem p h l u (λ q. ground (arith, at.role)) x.0 in (y.0, y.1 ∙ x.1);
          above_back =
              λ p h l u lt r. b.above_back p h l u (omega arith) (dn.above_back p h l u lt r);
          level = λ p l u ne r.
              (dn.kept_lem p (suc height) l u ne (b.above p (suc height) l u (omega arith) r).0).0;
          contents_lem = dn.contents_lem;
          bounded = λ z w. dn.bounded z (b.bounded z w);
          off_set = off;
          sizes = λ p h l u np le r f. elim (dn.sizes p h l u np r f) [
            | inl x ↦ filled_up x
            | inr (ne, r', f') ↦ elim (Bool-cases (h == suc height)) [
              | inr z ↦
                  lower_sizes md c g s height lo hi sound n at k v d b (some up) p h l u np
                    (ground arith) r' f'
              | inl z ↦
                  let old = b.above_back p h l u (ground arith) r' in
                  no_less l u np old (sym (b.above p h l u (ground arith) old).1 ∙ f') (omega arith)
                    (λ _ q. absurd (ne q))
            ]
          ];
          outcome = split up (low, high) dn.this_role new.aligned dn.next_role;
        }

  -- A full inner node whose child has been split is split itself.
  pub insert_and_split_internal-Inserted :
      (up : Entry) × (n' : Node) × (g'' : Ghost) × (s'' : Store) × (insert_and_split_internal md n
          e.key e.value s'
        ≡ some ((up, n'), s''))
      × Inserted md g s (suc height) (node_id md n.off_set) lo hi k v n (some up) n' g'' s''
  unfolding page middle
  insert_and_split_internal-Inserted =
      let (this, next, s₁, copy_run, halves, new) =
        copy_part_of_node-Halves md c g' s' b.sound.allocated n internal_node md.max_degree
          (omega (arith, c.degree)) in
      elim (Bool-cases (ltb e.key middle)) [
        | inl q ↦
            let (this', h) = insert_in_this this next halves s₁ new (ground arith) in
            let (s'', run, i) = finish this next halves s₁ new this' next copy_run h in
            (up this next halves s₁ new, this', g₃ this next halves s₁ new, s'', run, i)
        | inr q ↦
            let (next', off, h) = insert_in_next this next halves s₁ new (apart q) in
            let (s'', run, i) =
              finish this next halves s₁ new (cut_node this next halves s₁ new) next' copy_run h in
            (
              up this next halves s₁ new,
              cut_node this next halves s₁ new,
              g₃ this next halves s₁ new,
              s'',
              run,
              i,
            )
      ]
    where
      apart : ltb e.key middle ≡ false → middle < e.key
      apart q = ground (
        arith,
        absent md c g s height lo hi sound n at k v d b (md.max_degree - 1)
            (omega (arith, c.degree)),
      )
