-- ===== src/BPlus/Sound/Height.antt =====
-- Why the number of pages is fuel enough for the walks of pkg/storage/bplustree/BPlusTreeNode.cpp: a
-- tree has a page on each level, and no page is on two.
use godbee.Base.{
  ℕ, zero, suc, ◌+◌, ◌≤◌, ◌<◌, ◌≡◌, ◌≢◌, inl, inr, arith, update, ltb, ◌==◌, if◌then◌else◌,
  Bool-cases,
}
use godbee.BPlus.Offsets.{MetaData, node_id}
use godbee.BPlus.Store.{Store}
use godbee.BPlus.Sound.{Ghost, unused, tree, upper, IsSound}

-- Different numbers below `m` are `m` at most.
pigeonhole :
    (m n : ℕ) (f : ℕ → ℕ)
    → ((i : ℕ) → i < n → f i < m)
    → ((i j : ℕ) → i < n → j < n → f i ≡ f j → i ≡ j)
    → n ≤ m
pigeonhole zero zero f below apart = omega arith
pigeonhole zero (suc n) f below apart = absurd (omega (arith, below n (omega arith)))
pigeonhole (suc m) zero f below apart = omega arith
pigeonhole (suc m) (suc n) f below apart =
    let le : n ≤ m = pigeonhole m n g g-below g-apart in omega arith
  where
    g : ℕ → ℕ
    g i = if f i == m then f n else f i

    g-below : (i : ℕ) → i < n → g i < m
    g-below i h = ground (arith, below i, below n, apart i n)

    g-apart : (i j : ℕ) → i < n → j < n → g i ≡ g j → i ≡ j
    g-apart i j h h' e = ground (arith, apart i n, apart j n, apart i j)

module _ (md : MetaData) (g : Ghost) (s : Store) where
  -- A page of each level, on the way to the first leaf.
  first_pages :
      (height p lo hi : ℕ)
      → IsSound md g s height
      → g.role p ≡ tree height lo hi
      → (f : ℕ → ℕ) × ((h : ℕ) → h ≤ height → (l : ℕ) × (u : ℕ) × (g.role (f h) ≡ tree h l u))
  first_pages zero p lo hi sound role = (λ h. p, λ h le. (lo, hi, ground arith))
  first_pages (suc height) p lo hi sound role =
      let (np, f, node) = sound.nodes p (suc height) lo hi (omega arith) role in
      let (pages, is_level) =
        first_pages height (node_id md (np.childs 0)) lo (upper np.keys np.size hi 0)
          (record {
            allocated = sound.allocated;
            disjoint = sound.disjoint;
            ordered = sound.ordered;
            nodes = λ p h a b q. sound.nodes p h a b (omega arith);
          })
          (node.child 0 (omega arith)) in
      (
        update pages (suc height) p,
        λ h le. elim (Bool-cases (h == suc height)) [
          | inl e ↦ (lo, hi, ground arith)
          | inr e ↦ (let (l, u, r) = is_level h (ground arith) in (l, u, ground arith))
        ],
      )

  -- A sound tree is less high than its file has pages, so the number of pages plus one is fuel enough
  -- for a walk from the root.
  pub height-lt-pages :
      (height p lo hi : ℕ) → IsSound md g s height → g.role p ≡ tree height lo hi → height < s.pages
  height-lt-pages height p lo hi sound role =
      let (f, is_level) = first_pages height p lo hi sound role in
      let le : height + 1 ≤ s.pages =
        pigeonhole s.pages (height + 1) f
          (λ i h. in_file (f i) (λ e. ground (arith, (is_level i (omega arith)).2)))
          (λ i j h h' e.
            ground (arith, (is_level i (omega arith)).2, (is_level j (omega arith)).2)) in
      omega arith
    where
      in_file : (q : ℕ) → g.role q ≢ unused → q < s.pages
      in_file q ne = elim (Bool-cases (ltb q s.pages)) [
        | inl e ↦ ground arith
        | inr e ↦ absurd (ne (sound.allocated.beyond q (ground arith)))
      ]
