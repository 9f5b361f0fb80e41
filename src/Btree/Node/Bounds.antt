-- ===== src/Btree/Node/Bounds.antt =====
-- The order of the entries after `splitChild` of pkg/storage/btree/BTreeNode.cpp, and the bounds of
-- the children.
use godbee.Base.{ℕ, ◌+◌, ◌-◌, ◌*◌, ◌≤◌, ◌<◌, ◌≡◌, ◌⊎◌, inl, inr, Bool-cases, ◌==◌, ltb, arith}
use godbee.Btree.File.{Node}
use godbee.Btree.Node.Split.{IsCut}
use godbee.Btree.Node.SearchTree.{low_of, high_of, IsOrdered}

module _ (t : ℕ) (pos : 1 ≤ t) (n : Node) (idx : ℕ) (child n' low up : Node)
    (full : child.n_entry + 1 ≡ 2 * t) (h : idx ≤ n.n_entry)
    (cut : IsCut t n idx child n' low up) where
  -- Where an entry of the parent comes from.
  entry_cases :
      (j : ℕ)
      → j < n'.n_entry
      → ((j < idx) × (n'.arr_entry j ≡ n.arr_entry j))
        ⊎ (((j ≡ idx) × (n'.arr_entry j ≡ child.arr_entry (t - 1)))
            ⊎ ((idx < j) × (n'.arr_entry j ≡ n.arr_entry (j - 1))))
  entry_cases j q = elim (Bool-cases (ltb j idx)) [
    | inl e ↦ inl (ground arith, (cut.before j (ground arith)).0)
    | inr e ↦ elim (Bool-cases (j == idx)) [
      | inl f ↦ inr (inl (ground arith, ground (arith, cut.middle)))
      | inr f ↦ inr (inr (ground arith, ground (arith, cut.sizes.2, cut.behind (j - 1))))
    ]
  ]

  module _ (lo hi : ℕ) (o : IsOrdered lo hi n)
      (oc : IsOrdered (low_of lo n idx) (high_of hi n idx) child) where
    pub parent-IsOrdered : IsOrdered lo hi n'
    unfolding low_of high_of
    parent-IsOrdered =
        let middle_low = oc.from_low (t - 1) (omega arith) in
        let middle_high = oc.to_high (t - 1) (omega arith) in
        record {
          from_low = λ j q. ground (
            arith,
            entry_cases j q,
            cut.sizes.2,
            o.from_low j,
            o.from_low (j - 1),
            o.from_low (idx - 1),
            middle_low,
          );
          to_high = λ j q. ground (
            arith,
            entry_cases j q,
            cut.sizes.2,
            o.to_high j,
            o.to_high (j - 1),
            o.to_high idx,
            middle_high,
          );
          ascends = λ j m q r. ground (
            arith,
            entry_cases j (omega arith),
            entry_cases m r,
            cut.sizes.2,
            middle_low,
            middle_high,
            o.ascends j m,
            o.ascends j (m - 1),
            o.ascends (j - 1) (m - 1),
            o.ascends j (idx - 1),
            o.ascends idx (m - 1),
          );
        }

    pub low_bound : low_of lo n' idx ≡ low_of lo n idx
    unfolding low_of
    low_bound = ground (arith, cut.before (idx - 1))

    pub middle_bound : high_of hi n' idx ≡ child.arr_entry (t - 1)
    unfolding high_of
    middle_bound = ground (arith, cut.sizes.2, cut.middle)

    pub middle_low_bound : low_of lo n' (idx + 1) ≡ child.arr_entry (t - 1) + 1
    unfolding low_of
    middle_low_bound = ground (arith, cut.middle)

    pub high_bound : high_of hi n' (idx + 1) ≡ high_of hi n idx
    unfolding high_of
    high_bound = ground (arith, cut.sizes.2, cut.behind idx)

    pub low-IsOrdered : IsOrdered (low_of lo n' idx) (high_of hi n' idx) low
    low-IsOrdered =
        rw (low_bound, middle_bound)
          (record {
            from_low = λ j q. ground (arith, cut.sizes.0, cut.lower_entry j, oc.from_low j);
            to_high = λ j q. ground (arith, cut.sizes.0, cut.lower_entry j, oc.ascends j (t - 1));
            ascends = λ j m q r.
                ground (arith, cut.sizes.0, cut.lower_entry j, cut.lower_entry m, oc.ascends j m);
          })

    pub up-IsOrdered : IsOrdered (low_of lo n' (idx + 1)) (high_of hi n' (idx + 1)) up
    up-IsOrdered =
        rw (middle_low_bound, high_bound)
          (record {
            from_low =
                λ j q. ground (arith, cut.sizes.1, cut.upper_entry j, oc.ascends (t - 1) (t + j));
            to_high = λ j q. ground (arith, cut.sizes.1, cut.upper_entry j, oc.to_high (t + j));
            ascends = λ j m q r. ground (
              arith,
              cut.sizes.1,
              cut.upper_entry j,
              cut.upper_entry m,
              oc.ascends (t + j) (t + m),
            );
          })

    -- The bounds of the other children.
    pub low_same : (j : ℕ) → j ≤ idx → low_of lo n' j ≡ low_of lo n j
    unfolding low_of
    low_same j q = ground (arith, cut.before (j - 1))

    pub high_same : (j : ℕ) → j < idx → high_of hi n' j ≡ high_of hi n j
    unfolding high_of
    high_same j q = ground (arith, cut.sizes.2, cut.before j)

    pub low_later : (j : ℕ) → idx < j → j ≤ n.n_entry → low_of lo n' (j + 1) ≡ low_of lo n j
    unfolding low_of
    low_later j q r = ground (arith, cut.behind (j - 1))

    pub high_later : (j : ℕ) → idx < j → j ≤ n.n_entry → high_of hi n' (j + 1) ≡ high_of hi n j
    unfolding high_of
    high_later j q r = ground (arith, cut.sizes.2, cut.behind j)

  -- The bounds below the halves.
  module _ (lo hi : ℕ) where
    pub low_low : (j : ℕ) → j < t → low_of lo low j ≡ low_of lo child j
    unfolding low_of
    low_low j q = ground (arith, cut.lower_entry (j - 1))

    pub low_high : (j : ℕ) → j < t → high_of (child.arr_entry (t - 1)) low j ≡ high_of hi child j
    unfolding high_of
    low_high j q = ground (arith, cut.sizes.0, cut.lower_entry j)

    pub up_low :
        (j : ℕ) → j < t → low_of (child.arr_entry (t - 1) + 1) up j ≡ low_of lo child (t + j)
    unfolding low_of
    up_low j q = ground (arith, cut.upper_entry (j - 1))

    pub up_high : (j : ℕ) → j < t → high_of hi up j ≡ high_of hi child (t + j)
    unfolding high_of
    up_high j q = ground (arith, cut.sizes.1, cut.upper_entry j)
