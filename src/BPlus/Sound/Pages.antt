-- ===== src/BPlus/Sound/Pages.antt =====
-- What insertion and splitting do to the pages of a sound store, without the store.
use godbee.Base.{
  ℕ, zero, suc, ◌+◌, ◌-◌, ◌*◌, ◌≤◌, ◌<◌, ◌≡◌, ◌≢◌, refl, sym, ◌∙◌, ◌==◌, ltb, arith, Bool-cases,
  inl, inr, some, ap,
}
use godbee.BPlus.Search.{Key, IsAscending, Splits}
use godbee.BPlus.Offsets.{MetaData, node_id, value_idx}
use godbee.BPlus.Store.{NodePage}
use godbee.BPlus.Node.Loops.{insert_at}
use godbee.BPlus.Sound.Weak.{IsWeak-of_inner, IsInner-of_weak, IsWeak-first, IsWeak-rest}
use godbee.BPlus.Sound.{Ghost, Role, tree, lower, upper, IsLeaf, IsInner, IsDisjoint}

-- `q` is `p` with `key` at index `i`.
pub record Entered (p : NodePage) (key : Key) (i : ℕ) (q : NodePage) : Type 0 where
  pub place : Splits p.keys p.size key i
  pub flag : q.flag ≡ p.flag
  pub size : q.size ≡ p.size + 1
  pub keys : (j : ℕ) → j ≤ p.size → q.keys j ≡ insert_at i p.size key p.keys j

module _ {p q : NodePage} {key : Key} {i : ℕ} (e : Entered p key i q) where
  entered-IsAscending : IsAscending p.keys p.size → IsAscending q.keys q.size
  entered-IsAscending asc j l h h' =
      let lt : l ≤ p.size = omega (arith, e.size) in
      ground (
        arith,
        e.keys j (omega arith),
        e.keys l lt,
        e.place.below j,
        e.place.above (l - 1),
        asc j l,
        asc j (l - 1),
        asc (j - 1) (l - 1),
        e.place.in_range,
      )

module _ (md : MetaData) (g g' : Ghost) where
  pub IsLeaf-Entered :
      {lo hi : ℕ} {p q : NodePage} {key : Key} {i id : ℕ}
      → IsLeaf md g lo hi p
      → Entered p key i q
      → ((j : ℕ) → j ≤ p.size → q.childs j ≡ insert_at i p.size id p.childs j)
      → p.size + 1 < 2 * md.max_degree
      → (lo ≤ key) × (key < hi)
      → g'.loc key ≡ some id
      → ((j : Key) → j ≢ key → g'.loc j ≡ g.loc j)
      → IsLeaf md g' lo hi q
  IsLeaf-Entered {p} {q} {key} {i} l e childs room w new others = record {
    flag = e.flag ∙ l.flag;
    room = omega (arith, e.size);
    ascending = entered-IsAscending e l.ascending;
    within = λ j h. ground (
      arith,
      e.keys j (omega (arith, e.size)),
      l.within j,
      l.within (j - 1),
      e.place.in_range,
      e.size,
    );
    located = λ j h. ground (
      arith,
      e.keys j (omega (arith, e.size)),
      childs j (omega (arith, e.size)),
      l.located j,
      l.located (j - 1),
      others (p.keys j),
      others (p.keys (j - 1)),
      e.place.below j,
      e.place.above (j - 1),
      e.place.in_range,
      e.size,
    );
    complete = λ k a b absent.
        others k (λ q.
          absent i (omega (arith, e.size, e.place.in_range))
            (ground (arith, e.keys i e.place.in_range)))
        ∙ l.complete k a b (λ j h r. elim (Bool-cases (ltb j i)) [
          | inl c ↦ absent j (omega (arith, e.size)) (ground (arith, e.keys j (omega arith)))
          | inr c ↦
              absent (j + 1) (omega (arith, e.size)) (ground (arith, e.keys (j + 1) (omega arith)))
        ]);
  }

-- The first `c` entries of a leaf, for a bound `m` behind them.
module _ (md : MetaData) (g : Ghost) where
  pub IsLeaf-first :
      {lo hi m : ℕ} {p q : NodePage}
      → IsLeaf md g lo hi p
      → 0 < q.size
      → q.size < p.size
      → p.keys (q.size - 1) < m
      → m ≤ p.keys q.size
      → q.flag ≡ p.flag
      → ((j : ℕ) → j < q.size → q.keys j ≡ p.keys j)
      → ((j : ℕ) → j < q.size → q.childs j ≡ p.childs j)
      → IsLeaf md g lo m q
  IsLeaf-first {m} {p} {q} l pos cut above below flag keys childs = record {
    flag = flag ∙ l.flag;
    room = omega (arith, l.room);
    ascending = λ i j h k. ground (arith, keys i, keys j, l.ascending i j);
    within = λ j h. ground (arith, keys j, l.within j, l.ascending j (q.size - 1));
    located = λ j h. rw (keys j h, childs j h) (l.located j (omega arith));
    complete = λ k a b absent. l.complete k a (ground (arith, l.within q.size)) (λ j h r.
        elim (Bool-cases (ltb j q.size)) [
          | inl c ↦ absent j (ground arith) (ground (arith, keys j))
          | inr c ↦ absurd (ground (arith, l.ascending q.size j))
        ]);
  }

  -- The entries from `c` on, for a bound `m` before them.
  pub IsLeaf-rest :
      {lo hi m : ℕ} {p q : NodePage} (c : ℕ)
      → IsLeaf md g lo hi p
      → 0 < c
      → c < p.size
      → p.keys (c - 1) < m
      → m ≤ p.keys c
      → q.flag ≡ p.flag
      → q.size + c ≡ p.size
      → ((j : ℕ) → j < q.size → q.keys j ≡ p.keys (c + j))
      → ((j : ℕ) → j < q.size → q.childs j ≡ p.childs (c + j))
      → IsLeaf md g m hi q
  IsLeaf-rest {m} {p} {q} c l pos cut above below flag size keys childs = record {
    flag = flag ∙ l.flag;
    room = omega (arith, l.room);
    ascending = λ i j h k. ground (arith, keys i, keys j, l.ascending (c + i) (c + j));
    within = λ j h. ground (arith, keys j, l.within (c + j), l.ascending c (c + j));
    located = λ j h. rw (keys j h, childs j h) (l.located (c + j) (omega arith));
    complete = λ k a b absent. l.complete k (ground (arith, l.within (c - 1))) b (λ j h r.
        elim (Bool-cases (ltb j c)) [
          | inl d ↦ absurd (ground (arith, l.ascending j (c - 1)))
          | inr d ↦ absent (j - c) (ground arith) (ground (arith, keys (j - c)))
        ]);
  }

  pub IsInner-first :
      {height lo hi : ℕ} {p q : NodePage}
      → IsInner md g height lo hi p
      → 0 < q.size
      → q.size < p.size
      → q.flag ≡ p.flag
      → ((j : ℕ) → j < q.size → q.keys j ≡ p.keys j)
      → ((j : ℕ) → j ≤ q.size → q.childs j ≡ p.childs j)
      → IsInner md g height lo (p.keys q.size) q
  IsInner-first l pos cut flag keys childs =
      IsInner-of_weak md g pos (IsWeak-first md g (IsWeak-of_inner md g l) cut flag keys childs)

  pub IsInner-rest :
      {height lo hi : ℕ} {p q : NodePage} (c : ℕ)
      → IsInner md g height lo hi p
      → 0 < c
      → c < p.size
      → 0 < q.size
      → q.flag ≡ p.flag
      → q.size + c ≡ p.size
      → ((j : ℕ) → j < q.size → q.keys j ≡ p.keys (c + j))
      → ((j : ℕ) → j ≤ q.size → q.childs j ≡ p.childs (c + j))
      → IsInner md g height (p.keys (c - 1)) hi q
  IsInner-rest c l pos cut some_key flag size keys childs =
      IsInner-of_weak md g some_key
        (IsWeak-rest md g c (IsWeak-of_inner md g l) pos flag size keys childs)

-- An inner node gets the entry for a child that has been split: `a`, whose range ends at `key` now,
-- and `r` behind it.
module _ (md : MetaData) (g g' : Ghost) where
  pub IsInner-Entered :
      {height lo hi la ha a : ℕ} {p q : NodePage} {key : Key} {i : ℕ} (r : ℕ)
      → IsDisjoint md g
      → IsInner md g height lo hi p
      → Entered p key i q
      → ((j : ℕ) → j ≤ p.size + 1 → q.childs j ≡ insert_at (i + 1) (p.size + 1) r p.childs j)
      → p.size + 1 < 2 * md.max_degree
      → (lo < key) × (key < hi)
      → g.role a ≡ tree height la ha
      → (la < key) × (key < ha)
      → ((b l h : ℕ) → b ≢ a → g.role b ≡ tree height l h → g'.role b ≡ tree height l h)
      → g'.role a ≡ tree height la key
      → value_idx md r ≡ 0
      → g'.role (node_id md r) ≡ tree height key ha
      → IsInner md g' height lo hi q
  IsInner-Entered {height} {lo} {hi} {la} {ha} {a} {p} {q} {key} {i} r disjoint l e childs room w
        role wa others role_a aligned_r role_r =
      record {
        flag = e.flag ∙ l.flag;
        nonempty = omega (arith, e.size);
        room = omega (arith, e.size);
        ascending = entered-IsAscending e l.ascending;
        within = λ j h. ground (
          arith,
          e.keys j (omega (arith, e.size)),
          l.within j,
          l.within (j - 1),
          e.place.in_range,
          e.size,
        );
        aligned = λ j h. ground (
          arith,
          childs j (omega (arith, e.size)),
          l.aligned j,
          l.aligned (j - 1),
          e.place.in_range,
          e.size,
        );
        child = λ j h. elim (Bool-cases (ltb j i)) [
          | inl c ↦ before j (ground arith)
          | inr c ↦ elim (Bool-cases (j == i)) [
            | inl d ↦ at_split j (ground arith)
            | inr d ↦ elim (Bool-cases (j == i + 1)) [
              | inl f ↦ at_new j (ground arith)
              | inr f ↦ behind j (ground arith) (omega (arith, e.size))
            ]
          ]
        ];
      }
    where
      low : (j : ℕ) → j ≤ p.size → j ≤ i → lower p.keys lo j < key
      low zero h k = w.0
      low (suc j) h k = e.place.below j k

      high : (j : ℕ) → j ≤ p.size → i ≤ j → key < upper p.keys p.size hi j
      high j h k = ground (arith, e.place.above j)

      -- the child that was split stands at `i`
      split_child : node_id md (p.childs i) ≡ a
      split_child =
          disjoint (node_id md (p.childs i)) a height _ _ la ha (l.child i e.place.in_range) role
            (omega (arith, low i e.place.in_range (omega arith)))
            (omega (arith, high i e.place.in_range (omega arith)))

      same_role :
          Role.tree height la ha ≡ tree height (lower p.keys lo i) (upper p.keys p.size hi i)
      same_role = sym role ∙ ap g.role (sym split_child) ∙ l.child i e.place.in_range

      not_before : (j : ℕ) → j < i → node_id md (p.childs j) ≢ a
      not_before j h c =
          let t : tree height (lower p.keys lo j) (upper p.keys p.size hi j) ≡ tree height la ha =
            sym (l.child j (omega (arith, e.place.in_range))) ∙ ap g.role c ∙ role in
          ground (arith, e.place.below j, e.place.in_range)

      not_behind : (j : ℕ) → i < j → j ≤ p.size → node_id md (p.childs j) ≢ a
      not_behind zero h k c = absurd (omega arith)
      not_behind (suc j) h k c =
          let t : tree height (lower p.keys lo (suc j)) (upper p.keys p.size hi (suc j))
              ≡ tree height la ha =
            sym (l.child (suc j) k) ∙ ap g.role c ∙ role in
          ground (arith, e.place.above j)

      lower_before : (j : ℕ) → j ≤ i → lower q.keys lo j ≡ lower p.keys lo j
      lower_before zero h = refl
      lower_before (suc j) h = ground (arith, e.keys j, e.place.in_range)

      before :
          (j : ℕ)
          → j < i
          → g'.role (node_id md (q.childs j))
            ≡ tree height (lower q.keys lo j) (upper q.keys q.size hi j)
      before j h =
          let same : q.childs j ≡ p.childs j = ground (arith, childs j, e.place.in_range) in
          let up : upper q.keys q.size hi j ≡ upper p.keys p.size hi j =
            ground (arith, e.keys j, e.size, e.place.in_range) in
          rw (same, lower_before j (omega arith), up)
            (others _ _ _ (not_before j h) (l.child j (omega (arith, e.place.in_range))))

      at_split :
          (j : ℕ)
          → j ≡ i
          → g'.role (node_id md (q.childs j))
            ≡ tree height (lower q.keys lo j) (upper q.keys q.size hi j)
      at_split j h =
          let same : q.childs j ≡ p.childs i = ground (arith, childs j, e.place.in_range) in
          let up : upper q.keys q.size hi j ≡ key =
            ground (arith, e.keys j, e.size, e.place.in_range) in
          let lo_eq : lower q.keys lo j ≡ lower p.keys lo i =
            lower_before j (omega arith) ∙ ap (lower p.keys lo) h in
          rw (same, lo_eq, up, split_child) (ground (arith, same_role))

      at_new :
          (j : ℕ)
          → j ≡ i + 1
          → g'.role (node_id md (q.childs j))
            ≡ tree height (lower q.keys lo j) (upper q.keys q.size hi j)
      at_new zero h = absurd (omega arith)
      at_new (suc j) h =
          let new : q.childs (suc j) ≡ r = ground (arith, childs (suc j), e.place.in_range) in
          let up : upper q.keys q.size hi (suc j) ≡ upper p.keys p.size hi i =
            ground (arith, e.keys (suc j), e.size, e.place.in_range) in
          let low_eq : q.keys j ≡ key = ground (arith, e.keys j, e.place.in_range) in
          rw (new, up, low_eq) (ground (arith, same_role))

      behind :
          (j : ℕ)
          → i + 1 < j
          → j ≤ p.size + 1
          → g'.role (node_id md (q.childs j))
            ≡ tree height (lower q.keys lo j) (upper q.keys q.size hi j)
      behind zero h k = absurd (omega arith)
      behind (suc zero) h k = absurd (omega arith)
      behind (suc (suc j)) h k =
          let same : q.childs (suc (suc j)) ≡ p.childs (suc j) =
            ground (arith, childs (suc (suc j)), e.place.in_range) in
          let low_eq : q.keys (suc j) ≡ p.keys j =
            ground (arith, e.keys (suc j), e.place.in_range) in
          let up : upper q.keys q.size hi (suc (suc j)) ≡ upper p.keys p.size hi (suc j) =
            ground (arith, e.keys (suc (suc j)), e.size, e.place.in_range) in
          rw (same, up, low_eq)
            (others _ _ _ (not_behind (suc j) (omega arith) (omega arith))
              (l.child (suc j) (omega arith)))
