-- ===== src/BPlus/Sound/Weak.antt =====
-- Inner nodes that may have no entry, as they are between a merge of two children and its repair,
-- and how nodes are put together and cut.
use godbee.Base.{
  ℕ, zero, suc, ◌+◌, ◌-◌, ◌*◌, ◌≤◌, ◌<◌, ◌≡◌, ◌≢◌, refl, ◌∙◌, ◌==◌, ltb, if◌then◌else◌, arith,
  Bool-cases, inl, inr, ap,
}
use godbee.BPlus.Search.{Key, IsAscending}
use godbee.BPlus.Offsets.{MetaData, node_id, value_idx}
use godbee.BPlus.Store.{internal_node, NodePage}
use godbee.BPlus.Sound.{Ghost, tree, lower, upper, IsLeaf, IsInner}

pub lower_if : (a : ℕ → ℕ) (lo i : ℕ) → lower a lo i ≡ (if i == 0 then lo else a (i - 1))
lower_if a lo zero = refl
lower_if a lo (suc i) = ground arith

module _ (md : MetaData) (g : Ghost) where
  pub record IsWeak (height lo hi : ℕ) (p : NodePage) : Type 0 where
    pub flag : p.flag ≡ internal_node
    pub room : p.size < 2 * md.max_degree
    pub ascending : IsAscending p.keys p.size
    pub within : (i : ℕ) → i < p.size → (lo < p.keys i) × (p.keys i < hi)
    pub aligned : (i : ℕ) → i ≤ p.size → value_idx md (p.childs i) ≡ 0
    pub child :
        (i : ℕ)
        → i ≤ p.size
        → g.role (node_id md (p.childs i))
          ≡ tree height (lower p.keys lo i) (upper p.keys p.size hi i)

  pub IsWeak-of_inner :
      {height lo hi : ℕ} {p : NodePage} → IsInner md g height lo hi p → IsWeak height lo hi p
  IsWeak-of_inner l = record {
    flag = l.flag;
    room = l.room;
    ascending = l.ascending;
    within = l.within;
    aligned = l.aligned;
    child = l.child;
  }

  pub IsInner-of_weak :
      {height lo hi : ℕ} {p : NodePage}
      → 0 < p.size
      → IsWeak height lo hi p
      → IsInner md g height lo hi p
  IsInner-of_weak pos l = record {
    flag = l.flag;
    nonempty = pos;
    room = l.room;
    ascending = l.ascending;
    within = l.within;
    aligned = l.aligned;
    child = l.child;
  }

  -- The entries before one; its key is the bound.
  pub IsWeak-first :
      {height lo hi : ℕ} {p q : NodePage}
      → IsWeak height lo hi p
      → q.size < p.size
      → q.flag ≡ p.flag
      → ((j : ℕ) → j < q.size → q.keys j ≡ p.keys j)
      → ((j : ℕ) → j ≤ q.size → q.childs j ≡ p.childs j)
      → IsWeak height lo (p.keys q.size) q
  IsWeak-first {height} {lo} {hi} {p} {q} l cut flag keys childs = record {
    flag = flag ∙ l.flag;
    room = omega (arith, l.room);
    ascending = λ i j h k. ground (arith, keys i, keys j, l.ascending i j);
    within = λ j h. ground (arith, keys j, l.within j, l.ascending j q.size);
    aligned = λ j h. rw (childs j h) (l.aligned j (omega arith));
    child = λ j h. rw (childs j h, first_lower j h, first_upper j h) (l.child j (omega arith));
  }
    where
      first_lower : (j : ℕ) → j ≤ q.size → lower q.keys lo j ≡ lower p.keys lo j
      first_lower zero h = refl
      first_lower (suc j) h = keys j h

      first_upper :
          (j : ℕ) → j ≤ q.size → upper q.keys q.size (p.keys q.size) j ≡ upper p.keys p.size hi j
      first_upper j h = ground (arith, keys j)

  pub lower_pos : (a : ℕ → ℕ) (lo i : ℕ) → 0 < i → lower a lo i ≡ a (i - 1)
  lower_pos a lo zero h = absurd (omega arith)
  lower_pos a lo (suc i) h = ground arith

  -- The entries behind entry `c - 1`, whose key is the bound.
  pub IsWeak-rest :
      {height lo hi : ℕ} {p q : NodePage} (c : ℕ)
      → IsWeak height lo hi p
      → 0 < c
      → q.flag ≡ p.flag
      → q.size + c ≡ p.size
      → ((j : ℕ) → j < q.size → q.keys j ≡ p.keys (c + j))
      → ((j : ℕ) → j ≤ q.size → q.childs j ≡ p.childs (c + j))
      → IsWeak height (p.keys (c - 1)) hi q
  IsWeak-rest {height} {lo} {hi} {p} {q} c l pos flag size keys childs = record {
    flag = flag ∙ l.flag;
    room = omega (arith, l.room);
    ascending = λ i j h k. ground (arith, keys i, keys j, l.ascending (c + i) (c + j));
    within = λ j h. ground (arith, keys j, l.within (c + j), l.ascending (c - 1) (c + j));
    aligned = λ j h. rw (childs j h) (l.aligned (c + j) (omega arith));
    child = λ j h. rw (childs j h, rest_lower j h, rest_upper j h) (l.child (c + j) (omega arith));
  }
    where
      rest_lower : (j : ℕ) → j ≤ q.size → lower q.keys (p.keys (c - 1)) j ≡ lower p.keys lo (c + j)
      rest_lower zero h = ground (arith, lower_pos p.keys lo (c + 0))
      rest_lower (suc j) h = ground (arith, lower_pos p.keys lo (c + suc j), keys j)

      rest_upper : (j : ℕ) → j ≤ q.size → upper q.keys q.size hi j ≡ upper p.keys p.size hi (c + j)
      rest_upper j h = ground (arith, keys j)

  -- Two neighbours and the key between them.
  pub IsWeak-join :
      {height lo m hi : ℕ} {p q r : NodePage}
      → IsWeak height lo m p
      → IsWeak height m hi q
      → lo < m
      → m < hi
      → r.flag ≡ p.flag
      → r.size ≡ p.size + 1 + q.size
      → r.size < 2 * md.max_degree
      → ((j : ℕ) → j < p.size → r.keys j ≡ p.keys j)
      → r.keys p.size ≡ m
      → ((j : ℕ) → p.size < j → j < r.size → r.keys j ≡ q.keys (j - (p.size + 1)))
      → ((j : ℕ) → j ≤ p.size → r.childs j ≡ p.childs j)
      → ((j : ℕ) → p.size < j → j ≤ r.size → r.childs j ≡ q.childs (j - (p.size + 1)))
      → IsWeak height lo hi r
  IsWeak-join {height} {lo} {m} {hi} {p} {q} {r} a b x y flag size room left mid right left_childs
        right_childs =
      record {
        flag = flag ∙ a.flag;
        room = room;
        ascending = λ i j h k. ground (
          arith,
          mid,
          left i,
          left j,
          right i,
          right j,
          a.ascending i j,
          b.ascending (i - (p.size + 1)) (j - (p.size + 1)),
          a.within i,
          b.within (j - (p.size + 1)),
        );
        within =
            λ j h. ground (arith, mid, left j, right j, a.within j, b.within (j - (p.size + 1)));
        aligned = λ j h. elim (Bool-cases (ltb p.size j)) [
          | inr e ↦ rw (left_childs j (ground arith)) (a.aligned j (ground arith))
          | inl e ↦
              rw (right_childs j (ground arith) h) (b.aligned (j - (p.size + 1)) (ground arith))
        ];
        child = λ j h. elim (Bool-cases (ltb p.size j)) [
          | inr e ↦
              let le : j ≤ p.size = ground arith in
              rw (left_childs j le, left_lower j le, left_upper j le) (a.child j le)
          | inl e ↦
              let lt : p.size < j = ground arith in
              rw (right_childs j lt h, right_lower j lt h, right_upper j lt h)
                (b.child (j - (p.size + 1)) (omega arith))
        ];
      }
    where
      left_lower : (j : ℕ) → j ≤ p.size → lower r.keys lo j ≡ lower p.keys lo j
      left_lower zero h = refl
      left_lower (suc j) h = left j h

      left_upper : (j : ℕ) → j ≤ p.size → upper r.keys r.size hi j ≡ upper p.keys p.size m j
      left_upper j h = ground (arith, left j, mid)

      right_lower :
          (j : ℕ) → p.size < j → j ≤ r.size → lower r.keys lo j ≡ lower q.keys m (j - (p.size + 1))
      right_lower j h k = elim (Bool-cases (j == p.size + 1)) [
        | inl e ↦
            let first : j - (p.size + 1) ≡ 0 = ground arith in
            let at : j - 1 ≡ p.size = ground arith in
            rw (lower_pos r.keys lo j (omega arith), first, at) mid
        | inr e ↦
            rw
              (
                lower_pos r.keys lo j (omega arith),
                lower_pos q.keys m (j - (p.size + 1)) (ground arith),
              )
              (ground (arith, right (j - 1)))
      ]

      right_upper :
          (j : ℕ)
          → p.size < j
          → j ≤ r.size
          → upper r.keys r.size hi j ≡ upper q.keys q.size hi (j - (p.size + 1))
      right_upper j h k = ground (arith, right j)

  -- Two neighbouring leaves.
  pub IsLeaf-join :
      {lo m hi : ℕ} {p q r : NodePage}
      → IsLeaf md g lo m p
      → IsLeaf md g m hi q
      → r.flag ≡ p.flag
      → r.size ≡ p.size + q.size
      → r.size < 2 * md.max_degree
      → ((j : ℕ) → j < p.size → r.keys j ≡ p.keys j)
      → ((j : ℕ) → p.size ≤ j → j < r.size → r.keys j ≡ q.keys (j - p.size))
      → ((j : ℕ) → j < p.size → r.childs j ≡ p.childs j)
      → ((j : ℕ) → p.size ≤ j → j < r.size → r.childs j ≡ q.childs (j - p.size))
      → lo ≤ m
      → m ≤ hi
      → IsLeaf md g lo hi r
  IsLeaf-join {lo} {m} {hi} {p} {q} {r} a b flag size room left right left_childs right_childs x y =
      record {
        flag = flag ∙ a.flag;
        room = room;
        ascending = λ i j h k. ground (
          arith,
          left i,
          left j,
          right i,
          right j,
          a.ascending i j,
          b.ascending (i - p.size) (j - p.size),
          a.within i,
          b.within (j - p.size),
        );
        within = λ j h. ground (arith, left j, right j, a.within j, b.within (j - p.size));
        located = λ j h. elim (Bool-cases (ltb j p.size)) [
          | inl e ↦
              (let lt : j < p.size = ground arith in
                rw (left j lt, left_childs j lt) (a.located j lt))
          | inr e ↦
              let le : p.size ≤ j = ground arith in
              rw (right j le h, right_childs j le h) (b.located (j - p.size) (omega arith))
        ];
        complete = λ k u v absent. elim (Bool-cases (ltb k m)) [
          | inl e ↦ a.complete k u (ground arith) (λ j h. absent_left k absent j h)
          | inr e ↦ b.complete k (ground arith) v (λ j h. absent_right k absent j h)
        ];
      }
    where
      absent_left :
          (k : Key) → ((j : ℕ) → j < r.size → r.keys j ≢ k) → (j : ℕ) → j < p.size → p.keys j ≢ k
      absent_left k absent j h e = absent j (omega arith) (left j h ∙ e)

      absent_right :
          (k : Key) → ((j : ℕ) → j < r.size → r.keys j ≢ k) → (j : ℕ) → j < q.size → q.keys j ≢ k
      absent_right k absent j h e =
          absent (p.size + j) (omega arith)
            (right (p.size + j) (omega arith) (omega arith) ∙ ap q.keys (omega arith) ∙ e)
