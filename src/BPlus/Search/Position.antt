-- ===== src/BPlus/Search/Position.antt =====
-- The positions that the searches find, pkg/storage/bplustree/utils.cpp.
use Prim.Native.Nat.{compare, Ordering}
use godbee.Base.{
  ℕ, zero, suc, ◌+◌, ◌-◌, ◌/◌, ◌≤◌, ◌<◌, ◌≡◌, refl, true, false, Option, none, some, arith, ltb,
  ◌==◌, Array, ◌⊎◌, inl, inr, Bool-cases, ◌↔◌,
}
use godbee.BPlus.Search.{
  Key, Stop, index_loop, finish_larger, finish_larger_or_equal, index_node_larger,
  index_node_larger_or_equal, equal_at, index_node_equal, is_existing, IsAscending, Splits,
  UpperBound, LowerBound,
}

compare_cases :
    (a b : ℕ)
    → ((compare a b ≡ Ordering.eq) × (a ≡ b))
      ⊎ ((compare a b ≡ Ordering.lt) × (a < b))
      ⊎ ((compare a b ≡ Ordering.gt) × (b < a))
compare_cases a b = ground arith

lt→ltb : {a b : ℕ} → a < b → ltb a b ≡ true
lt→ltb h = ground arith

lt→not_ltb : {a b : ℕ} → b < a → ltb a b ≡ false
lt→not_ltb h = ground arith

pos→not_zero : {n : ℕ} → 0 < n → (n == 0) ≡ false
pos→not_zero h = ground arith

data Stopped (array : Array Key) (size : ℕ) (key : Key) : Stop → Type 0 where
  hit :
      (m : ℕ) → m < size → array m ≡ key → Stopped array size key (record { found = true; mid = m })
  past :
      (m : ℕ)
      → array m < key
      → Splits array size key (m + 1)
      → Stopped array size key (record { found = false; mid = m })
  before :
      (m : ℕ)
      → key < array m
      → Splits array size key m
      → Stopped array size key (record { found = false; mid = m })

-- The last `mid` stands next to the empty range that is left.
abbrev Beside : Array Key → Key → ℕ → ℕ → ℕ → Type 0
Beside array key left end mid =
    ((mid + 1 ≡ left) × (array mid < key)) ⊎ ((mid ≡ end) × (key < array mid))

module _ (array : Array Key) (size : ℕ) (key : Key) (asc : IsAscending array size) where
  stop_at_end :
      (left end mid : ℕ)
      → end ≤ left
      → left ≤ end
      → end ≤ size
      → ((j : ℕ) → j < left → array j < key)
      → ((j : ℕ) → end ≤ j → j < size → key < array j)
      → Beside array key left end mid
      → Stopped array size key (record { found = false; mid = mid })
  stop_at_end left end mid p q r lo hi (inl b) = past mid b.1 (record {
    in_range = omega arith;
    below = λ j h. lo j (omega arith);
    above = λ j h k. hi j (omega arith) k;
  })
  stop_at_end left end mid p q r lo hi (inr b) = before mid b.1 (record {
    in_range = omega arith;
    below = λ j h. lo j (omega arith);
    above = λ j h k. hi j (omega arith) k;
  })

  -- The state of the loop: what lies left of `left` is below the key, what lies from `end` on is above.
  record Narrowed (left end mid : ℕ) : Type 0 where
    ordered : left ≤ end
    in_range : end ≤ size
    below : (j : ℕ) → j < left → array j < key
    above : (j : ℕ) → end ≤ j → j < size → key < array j
    last : (left < end) ⊎ Beside array key left end mid

  narrow_right :
      (left end mid m : ℕ)
      → Narrowed left end mid
      → left ≤ m
      → m < end
      → array m < key
      → Narrowed (m + 1) end m
  narrow_right left end mid m n g h c = record {
    ordered = omega arith;
    in_range = n.in_range;
    below = λ j p. elim (Bool-cases (j == m)) [
      | inl e ↦ ground arith
      | inr e ↦ omega (arith, asc j m (ground arith) (ground (arith, n.in_range)))
    ];
    above = n.above;
    last = inr (inl (refl, c));
  }

  narrow_left :
      (left end mid m : ℕ)
      → Narrowed left end mid
      → left ≤ m
      → m < end
      → key < array m
      → Narrowed left m m
  narrow_left left end mid m n g h c = record {
    ordered = g;
    in_range = omega (arith, n.in_range);
    below = n.below;
    above = λ j p q. elim (Bool-cases (j == m)) [
      | inl e ↦ ground arith
      | inr e ↦ omega (arith, asc m j (ground arith) q)
    ];
    last = inr (inr (refl, c));
  }

  loop_stops :
      (fuel left end mid : ℕ)
      → end < left + fuel
      → Narrowed left end mid
      → Stopped array size key (index_loop fuel array key left end mid)
  unfolding index_loop
  loop_stops zero left end mid f n = absurd (omega (arith, n.ordered))
  loop_stops (suc fuel) left end mid f n = elim (Bool-cases (ltb left end)) [
    | inr e ↦ rw e (
        stop_at_end left end mid (ground arith) n.ordered n.in_range n.below n.above
          (ground (arith, n.last)))
    | inl e ↦ elim (compare_cases (array ((left + end - 1) / 2)) key) [
      | inl c ↦ rw (e, c.0) (hit _ (ground (arith, n.in_range)) c.1)
      | inr (inl c) ↦
          rw (e, c.0)
            (loop_stops fuel ((left + end - 1) / 2 + 1) end _ (ground arith)
              (narrow_right left end mid _ n (ground arith) (ground arith) c.1))
      | inr (inr c) ↦
          rw (e, c.0)
            (loop_stops fuel left ((left + end - 1) / 2) _ (ground arith)
              (narrow_left left end mid _ n (ground arith) (ground arith) c.1))
    ]
  ]

  search_stops : 0 < size → Stopped array size key (index_loop (size + 1) array key 0 size 0)
  search_stops h = loop_stops (size + 1) 0 size 0 (omega arith) (record {
    ordered = omega arith;
    in_range = omega arith;
    below = λ j p. absurd (omega arith);
    above = λ j p q. absurd (omega arith);
    last = inl h;
  })

  larger_of_stop :
      (s : Stop) → Stopped array size key s → UpperBound array size key (finish_larger array key s)
  unfolding finish_larger
  larger_of_stop _ (hit m h e) = record {
    in_range = omega arith;
    at_most = λ j p. elim (Bool-cases (j == m)) [
      | inl q ↦ ground arith
      | inr q ↦ omega (arith, asc j m (ground arith) h)
    ];
    above = λ j p q. omega (arith, asc m j (omega arith) q);
  }
  larger_of_stop _ (past m c s) = rw (lt→ltb c) (record {
    in_range = s.in_range;
    at_most = λ j p. omega (arith, s.below j p);
    above = s.above;
  })
  larger_of_stop _ (before m c s) = rw (lt→not_ltb c) (record {
    in_range = s.in_range;
    at_most = λ j p. omega (arith, s.below j p);
    above = s.above;
  })

  larger_or_equal_of_stop :
      (s : Stop)
      → Stopped array size key s
      → LowerBound array size key (finish_larger_or_equal array key s)
  unfolding finish_larger_or_equal
  larger_or_equal_of_stop _ (hit m h e) = record {
    in_range = omega arith;
    below = λ j p. omega (arith, asc j m (omega arith) h);
    at_least = λ j p q. elim (Bool-cases (j == m)) [
      | inl r ↦ ground arith
      | inr r ↦ omega (arith, asc m j (ground arith) q)
    ];
  }
  larger_or_equal_of_stop _ (past m c s) = rw (lt→ltb c) (record {
    in_range = s.in_range;
    below = s.below;
    at_least = λ j p q. omega (arith, s.above j p q);
  })
  larger_or_equal_of_stop _ (before m c s) = rw (lt→not_ltb c) (record {
    in_range = s.in_range;
    below = s.below;
    at_least = λ j p q. omega (arith, s.above j p q);
  })

  -- In a non-empty ascending node `indexNodeLarger` returns the index behind the last key that is at
  -- most the searched one.
  pub index_node_larger-UpperBound :
      0 < size → (i : ℕ) × (index_node_larger array size key ≡ some i) × UpperBound array size key i
  unfolding index_node_larger
  index_node_larger-UpperBound h = (
    finish_larger array key (index_loop (size + 1) array key 0 size 0),
    rw (pos→not_zero h),
    larger_of_stop _ (search_stops h),
  )

  -- In a non-empty ascending node `indexNodeLargerOrEqual` returns the first index whose key is not
  -- below the searched one, or the size.
  pub index_node_larger_or_equal-LowerBound :
      0 < size
      → (i : ℕ) × (index_node_larger_or_equal array size key ≡ some i) × LowerBound array size key i
  unfolding index_node_larger_or_equal
  index_node_larger_or_equal-LowerBound h = (
    finish_larger_or_equal array key (index_loop (size + 1) array key 0 size 0),
    rw (pos→not_zero h),
    larger_or_equal_of_stop _ (search_stops h),
  )

  equal_of_lower :
      (r : ℕ)
      → LowerBound array size key r
      → (i : ℕ) → (equal_at array size key (some r) ≡ some i) ↔ ((i < size) × (array i ≡ key))
  unfolding equal_at
  equal_of_lower r b i = (
    λ h. (ground arith, ground arith),
    λ h. elim (Bool-cases (i == r)) [
      | inl e ↦ ground arith
      | inr e ↦ absurd (ground (arith, b.below i, b.at_least r (omega arith), asc r i))
    ],
  )

  -- In an ascending node, the empty one included, `indexNodeEqual` returns `i` exactly when the
  -- searched key stands at index `i`.
  pub index_node_equal_iff :
      (i : ℕ) → (index_node_equal array size key ≡ some i) ↔ ((i < size) × (array i ≡ key))
  unfolding index_node_equal
  index_node_equal_iff i = elim (Bool-cases (size == 0)) [
    | inl z ↦ (
      unfold index_node_larger_or_equal equal_at in λ h. (ground arith, ground arith),
      λ h. absurd (ground arith),
    )
    | inr p ↦
        let b = index_node_larger_or_equal-LowerBound (ground arith) in
        rw b.1 (equal_of_lower b.0 b.2 i)
  ]

  -- `isExisting` is true exactly when some index of the node holds the key.
  pub is_existing_iff :
      (is_existing array size key ≡ true) ↔ ((i : ℕ) × (i < size) × (array i ≡ key))
  unfolding is_existing
  is_existing_iff = (
    λ h. found (index_node_equal array size key) refl h,
    λ h. rw ((index_node_equal_iff h.0).1 (h.1, h.2), is_existing),
  )
    where
      found :
          (o : Option ℕ)
          → index_node_equal array size key ≡ o
          → elim o [ none ↦ false | some _ ↦ true ] ≡ true
          → (i : ℕ) × (i < size) × (array i ≡ key)
      found none e h = cc
      found (some i) e h = let p = (index_node_equal_iff i).0 e in (i, p.0, p.1)
