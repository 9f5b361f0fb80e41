-- ===== src/BPlus/Sound/Remove/Father.antt =====
-- The father of two siblings when the bound between them moves, or when one takes the place of both.
use godbee.Base.{
  ℕ, zero, suc, ◌+◌, ◌-◌, ◌≤◌, ◌<◌, ◌≡◌, ◌≢◌, sym, ap, ◌∙◌, inl, inr, arith, ltb, ◌==◌, Bool-cases,
}
use godbee.BPlus.Offsets.{MetaData, node_id, value_idx}
use godbee.BPlus.Store.{NodePage}
use godbee.BPlus.Sound.{Ghost, Role, tree, lower, upper, IsInner}
use godbee.BPlus.Sound.Weak.{IsWeak, lower_if}
use godbee.BPlus.Sound.Insert.Inner.{lower_bound, upper_bound}

module _ (md : MetaData) (g : Ghost) {h flo fhi : ℕ} {p : NodePage}
    (f : IsInner md g h flo fhi p) where
  lower_lt : (i j : ℕ) → i < j → j ≤ p.size → lower p.keys flo i < lower p.keys flo j
  lower_lt i zero x y = absurd (omega arith)
  lower_lt zero (suc j) x y = (f.within j y).0
  lower_lt (suc i) (suc j) x y = f.ascending i j (omega arith) y

  -- No two children share a page.
  pub children_apart :
      (i j : ℕ)
      → i ≤ p.size
      → j ≤ p.size
      → node_id md (p.childs i) ≡ node_id md (p.childs j)
      → i ≡ j
  children_apart i j x y e =
      let same : Role.tree h (lower p.keys flo i) (upper p.keys p.size fhi i)
          ≡ tree h (lower p.keys flo j) (upper p.keys p.size fhi j) =
        sym (f.child i x) ∙ ap g.role e ∙ f.child j y in
      elim (Bool-cases (ltb i j)) [
        | inl z ↦ absurd (ground (arith, lower_lt i j))
        | inr z ↦ elim (Bool-cases (ltb j i)) [
          | inl w ↦ absurd (ground (arith, lower_lt j i))
          | inr w ↦ ground arith
        ]
      ]

  module _ (g' : Ghost) (j : ℕ) (inside : j < p.size)
      (kept : (q x y : ℕ)
        → q ≢ node_id md (p.childs j)
        → q ≢ node_id md (p.childs (j + 1))
        → g.role q ≡ tree h x y
        → g'.role q ≡ tree h x y) where
    other :
        (i : ℕ)
        → i ≤ p.size
        → i ≢ j
        → i ≢ j + 1
        → g'.role (node_id md (p.childs i))
          ≡ tree h (lower p.keys flo i) (upper p.keys p.size fhi i)
    other i x d d' =
        kept _ _ _ (λ e. d (children_apart i j x (omega arith) e))
          (λ e. d' (children_apart i (j + 1) x (omega arith) e)) (f.child i x)

    pub father_rotated :
        {q : NodePage} (m : ℕ)
        → lower p.keys flo j < m
        → m < upper p.keys p.size fhi (j + 1)
        → q.flag ≡ p.flag
        → q.size ≡ p.size
        → q.keys j ≡ m
        → ((i : ℕ) → i ≢ j → i < p.size → q.keys i ≡ p.keys i)
        → ((i : ℕ) → i ≤ p.size → q.childs i ≡ p.childs i)
        → g'.role (node_id md (p.childs j)) ≡ tree h (lower p.keys flo j) m
        → g'.role (node_id md (p.childs (j + 1))) ≡ tree h m (upper p.keys p.size fhi (j + 1))
        → IsWeak md g' h flo fhi q
    father_rotated {q} m low high flag size mid keys childs left right = record {
      flag = flag ∙ f.flag;
      room = omega (arith, f.room);
      ascending = λ i l x y.
          ground (arith, mid, keys i, keys l, f.ascending i l, above_low i, below_high l);
      within = λ i x. ground (arith, mid, keys i, f.within i, m_within);
      aligned = λ i x. rw (childs i (omega arith)) (f.aligned i (omega arith));
      child = λ i x. rw (childs i (omega arith)) (role i (omega arith));
    }
      where
        above_low : (i : ℕ) → i < j → p.keys i < m
        above_low i x = ground (arith, low, lower_if p.keys flo j, f.ascending i (j - 1))

        below_high : (l : ℕ) → j < l → l < p.size → m < p.keys l
        below_high l x y = ground (arith, high, f.ascending (j + 1) l)

        m_within : (flo < m) × (m < fhi)
        m_within = (
          omega (arith, low, lower_bound md g f j (omega arith)),
          omega (arith, high, upper_bound md g f (j + 1) (omega arith)),
        )

        role :
            (i : ℕ)
            → i ≤ p.size
            → g'.role (node_id md (p.childs i))
              ≡ tree h (lower q.keys flo i) (upper q.keys q.size fhi i)
        role i x = elim (Bool-cases (i == j)) [
          | inl e ↦
              let at : i ≡ j = ground arith in
              let lo : lower q.keys flo j ≡ lower p.keys flo j =
                rw (lower_if q.keys flo j, lower_if p.keys flo j) (ground (arith, keys (j - 1))) in
              let hi : upper q.keys q.size fhi j ≡ m = ground (arith, mid) in rw (at, lo, hi) left
          | inr e ↦ elim (Bool-cases (i == j + 1)) [
            | inl e' ↦
                let at : i ≡ j + 1 = ground arith in
                let lo : lower q.keys flo (j + 1) ≡ m =
                  rw (lower_if q.keys flo (j + 1)) (ground (arith, mid)) in
                let hi : upper q.keys q.size fhi (j + 1) ≡ upper p.keys p.size fhi (j + 1) =
                  ground (arith, keys (j + 1)) in
                rw (at, lo, hi) right
            | inr e' ↦
                let lo : lower q.keys flo i ≡ lower p.keys flo i =
                  rw (lower_if q.keys flo i, lower_if p.keys flo i)
                    (ground (arith, keys (i - 1))) in
                let hi : upper q.keys q.size fhi i ≡ upper p.keys p.size fhi i =
                  ground (arith, keys i) in
                rw (lo, hi) (other i x (λ z. ground arith) (λ z. ground arith))
          ]
        ]

    pub father_merged :
        {q : NodePage}
        → q.flag ≡ p.flag
        → q.size + 1 ≡ p.size
        → ((i : ℕ) → i < j → q.keys i ≡ p.keys i)
        → ((i : ℕ) → j ≤ i → i < q.size → q.keys i ≡ p.keys (i + 1))
        → ((i : ℕ) → i < j → q.childs i ≡ p.childs i)
        → value_idx md (q.childs j) ≡ 0
        → g'.role (node_id md (q.childs j))
          ≡ tree h (lower p.keys flo j) (upper p.keys p.size fhi (j + 1))
        → ((i : ℕ) → j < i → i ≤ q.size → q.childs i ≡ p.childs (i + 1))
        → IsWeak md g' h flo fhi q
    father_merged {q} flag size before behind childs_before aligned both childs_behind = record {
      flag = flag ∙ f.flag;
      room = omega (arith, f.room);
      ascending = λ i l x y. ground (
        arith,
        before i,
        before l,
        behind i,
        behind l,
        f.ascending i l,
        f.ascending i (l + 1),
        f.ascending (i + 1) (l + 1),
      );
      within = λ i x. ground (arith, before i, behind i, f.within i, f.within (i + 1));
      aligned = λ i x. elim (Bool-cases (ltb i j)) [
        | inl e ↦ rw (childs_before i (ground arith)) (f.aligned i (omega arith))
        | inr e ↦ elim (Bool-cases (i == j)) [
          | inl e' ↦ (let at : i ≡ j = ground arith in rw at aligned)
          | inr e' ↦ rw (childs_behind i (ground arith) x) (f.aligned (i + 1) (omega arith))
        ]
      ];
      child = λ i x. elim (Bool-cases (ltb i j)) [
        | inl e ↦
            let lt : i < j = ground arith in
            let lo : lower q.keys flo i ≡ lower p.keys flo i =
              rw (lower_if q.keys flo i, lower_if p.keys flo i) (ground (arith, before (i - 1))) in
            let hi : upper q.keys q.size fhi i ≡ upper p.keys p.size fhi i =
              ground (arith, before i) in
            rw (childs_before i lt, lo, hi)
              (other i (omega arith) (λ z. omega (arith, z)) (λ z. omega (arith, z)))
        | inr e ↦ elim (Bool-cases (i == j)) [
          | inl e' ↦
              let at : i ≡ j = ground arith in
              let lo : lower q.keys flo j ≡ lower p.keys flo j =
                rw (lower_if q.keys flo j, lower_if p.keys flo j)
                  (ground (arith, before (j - 1))) in
              let hi : upper q.keys q.size fhi j ≡ upper p.keys p.size fhi (j + 1) =
                ground (arith, behind j) in
              rw (at, lo, hi) both
          | inr e' ↦
              let lt : j < i = ground arith in
              let lo : lower q.keys flo i ≡ lower p.keys flo (i + 1) =
                rw (lower_if q.keys flo i, lower_if p.keys flo (i + 1))
                  (ground (arith, behind (i - 1))) in
              let hi : upper q.keys q.size fhi i ≡ upper p.keys p.size fhi (i + 1) =
                ground (arith, behind i) in
              rw (childs_behind i lt x, lo, hi)
                (other (i + 1) (omega arith) (λ z. omega (arith, z, lt))
                  (λ z. omega (arith, z, lt)))
        ]
      ];
    }
