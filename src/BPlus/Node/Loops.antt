-- ===== src/BPlus/Node/Loops.antt =====
-- The shifting loops of `insertLeft`, `insertRight` and `copyPartOfNode` of
-- pkg/storage/bplustree/BPlusTreeNode.cpp against the arrays that they are for.
use godbee.Base.{
  ℕ, zero, suc, ◌+◌, ◌-◌, ◌≤◌, ◌<◌, ◌≡◌, ◌≢◌, ◌==◌, ltb, leb, if◌then◌else◌, arith, Array, update,
  Bool-cases, inl, inr, ◌||◌,
}
use godbee.BPlus.Search.{Key, IsAscending, Splits}
use godbee.BPlus.Store.{Node}
use godbee.BPlus.Node.{shift_left, shift_right, open_left, open_right, copy_part}

-- `a` with `x` at `i`, and the entries from `i` up to `n - 1` one place further on.
abbrev pub insert_at : {A : Type 0} → ℕ → ℕ → A → Array A → Array A
insert_at i n x a j =
    if ltb j i then a j else if j == i then x else if leb j n then a (j - 1) else a j

-- Where the loops stop: no key at or behind the index is at most `key`, the one before it is.
pub record StopsAt (keys : Array Key) (n : ℕ) (key : Key) (i : ℕ) : Type 0 where
  pub in_range : i ≤ n
  pub above : (j : ℕ) → i ≤ j → j < n → key < keys j
  pub before : 0 < i → keys (i - 1) ≤ key

module _ (key : Key) where
  shift_left-stops :
      (n : ℕ) (keys : Array Key) (childs : Array ℕ)
      → StopsAt keys n key (shift_left key n keys childs).index
  unfolding shift_left
  shift_left-stops zero keys childs = record {
    in_range = omega arith;
    above = λ j p q. absurd (omega arith);
    before = λ h. absurd (omega arith);
  }
  shift_left-stops (suc i) keys childs = elim (Bool-cases (ltb key (keys i))) [
    | inr e ↦ rw e (record {
      in_range = omega arith;
      above = λ j p q. absurd (omega arith);
      before = λ h. ground arith;
    })
    | inl e ↦
        let r =
          shift_left-stops i (update keys (i + 1) (keys i)) (update childs (i + 1) (childs i)) in
        rw e (record {
          in_range = omega (arith, r.in_range);
          above = λ j p q. ground (arith, r.above j p);
          before = λ h. ground (arith, r.before h, r.in_range);
        })
  ]

  shift_left-keys :
      (n : ℕ) (keys : Array Key) (childs : Array ℕ) (x j : ℕ)
      → update (shift_left key n keys childs).keys (shift_left key n keys childs).index x j
        ≡ insert_at (shift_left key n keys childs).index n x keys j
  unfolding shift_left
  shift_left-keys zero keys childs x j = ground arith
  shift_left-keys (suc i) keys childs x j = ground (
    arith,
    shift_left-keys i (update keys (i + 1) (keys i)) (update childs (i + 1) (childs i)) x j,
    (shift_left-stops i (update keys (i + 1) (keys i)) (update childs (i + 1) (childs i))).in_range,
  )

  shift_left-childs :
      (n : ℕ) (keys : Array Key) (childs : Array ℕ) (x j : ℕ)
      → update (shift_left key n keys childs).childs (shift_left key n keys childs).index x j
        ≡ insert_at (shift_left key n keys childs).index n x childs j
  unfolding shift_left
  shift_left-childs zero keys childs x j = ground arith
  shift_left-childs (suc i) keys childs x j = ground (
    arith,
    shift_left-childs i (update keys (i + 1) (keys i)) (update childs (i + 1) (childs i)) x j,
    (shift_left-stops i (update keys (i + 1) (keys i)) (update childs (i + 1) (childs i))).in_range,
  )

  shift_right-stops :
      (n : ℕ) (keys : Array Key) (childs : Array ℕ)
      → StopsAt keys n key (shift_right key n keys childs).index
  unfolding shift_right
  shift_right-stops zero keys childs = record {
    in_range = omega arith;
    above = λ j p q. absurd (omega arith);
    before = λ h. absurd (omega arith);
  }
  shift_right-stops (suc i) keys childs = elim (Bool-cases (ltb key (keys i))) [
    | inr e ↦ rw e (record {
      in_range = omega arith;
      above = λ j p q. absurd (omega arith);
      before = λ h. ground arith;
    })
    | inl e ↦
        let r =
          shift_right-stops i (update keys (i + 1) (keys i))
            (update childs (i + 2) (childs (i + 1))) in
        rw e (record {
          in_range = omega (arith, r.in_range);
          above = λ j p q. ground (arith, r.above j p);
          before = λ h. ground (arith, r.before h, r.in_range);
        })
  ]

  shift_right-keys :
      (n : ℕ) (keys : Array Key) (childs : Array ℕ) (x j : ℕ)
      → update (shift_right key n keys childs).keys (shift_right key n keys childs).index x j
        ≡ insert_at (shift_right key n keys childs).index n x keys j
  unfolding shift_right
  shift_right-keys zero keys childs x j = ground arith
  shift_right-keys (suc i) keys childs x j = ground (
    arith,
    shift_right-keys i (update keys (i + 1) (keys i)) (update childs (i + 2) (childs (i + 1))) x j,
    (shift_right-stops i (update keys (i + 1) (keys i))
        (update childs (i + 2) (childs (i + 1)))).in_range,
  )

  shift_right-childs :
      (n : ℕ) (keys : Array Key) (childs : Array ℕ) (x j : ℕ)
      → update
          (shift_right key n keys childs).childs
          ((shift_right key n keys childs).index + 1)
          x
          j
        ≡ insert_at ((shift_right key n keys childs).index + 1) (n + 1) x childs j
  unfolding shift_right
  shift_right-childs zero keys childs x j = ground arith
  shift_right-childs (suc i) keys childs x j = ground (
    arith,
    shift_right-childs i (update keys (i + 1) (keys i)) (update childs (i + 2) (childs (i + 1))) x
        j,
    (shift_right-stops i (update keys (i + 1) (keys i))
        (update childs (i + 2) (childs (i + 1)))).in_range,
  )

-- In an ascending node without the key the loops stop at the key's place.
Splits-of_stop :
    (keys : Array Key) (n : ℕ) (key : Key) (i : ℕ)
    → IsAscending keys n
    → ((j : ℕ) → j < n → keys j ≢ key)
    → StopsAt keys n key i
    → Splits keys n key i
Splits-of_stop keys n key i asc absent stop = record {
  in_range = stop.in_range;
  below = λ j h. elim (Bool-cases (j == i - 1)) [
    | inl e ↦ ground (arith, stop.before, absent j, stop.in_range)
    | inr e ↦ ground (arith, stop.before, asc j (i - 1), absent (i - 1), stop.in_range)
  ];
  above = stop.above;
}

module _ (n : Node) (key : Key) (asc : IsAscending n.keys n.size)
    (absent : (j : ℕ) → j < n.size → n.keys j ≢ key) where
  Splits-at_end : (0 < n.size → n.keys (n.size - 1) < key) → Splits n.keys n.size key n.size
  Splits-at_end h = record {
    in_range = omega arith;
    below = λ j p. elim (Bool-cases (j == n.size - 1)) [
      | inl e ↦ ground arith
      | inr e ↦ ground (arith, asc j (n.size - 1))
    ];
    above = λ j p q. absurd (omega arith);
  }

  pub open_left-place : Splits n.keys n.size key (open_left n key).index
  unfolding open_left
  open_left-place = elim (Bool-cases ((n.size == 0) || ltb (n.keys (n.size - 1)) key)) [
    | inl e ↦ rw e (Splits-at_end (λ h. ground arith))
    | inr e ↦
        rw e (Splits-of_stop n.keys n.size key _ asc absent (shift_left-stops key n.size n.keys _))
  ]

  pub open_right-place : 0 < n.size → Splits n.keys n.size key (open_right n key).index
  unfolding open_right
  open_right-place h = elim (Bool-cases (ltb (n.keys (n.size - 1)) key)) [
    | inl e ↦ rw e (Splits-at_end (λ h. ground arith))
    | inr e ↦
        rw e (Splits-of_stop n.keys n.size key _ asc absent (shift_right-stops key n.size n.keys _))
  ]

module _ (n : Node) (key : Key) (x j : ℕ) where
  pub open_left-keys :
      j ≤ n.size
      → update (open_left n key).keys (open_left n key).index x j
        ≡ insert_at (open_left n key).index n.size x n.keys j
  unfolding open_left
  open_left-keys h = elim (Bool-cases ((n.size == 0) || ltb (n.keys (n.size - 1)) key)) [
    | inl e ↦ rw e (ground arith)
    | inr e ↦ rw e (shift_left-keys key n.size n.keys _ x j)
  ]

  pub open_left-childs :
      j ≤ n.size
      → update (open_left n key).childs (open_left n key).index x j
        ≡ insert_at (open_left n key).index n.size x n.childs j
  unfolding open_left
  open_left-childs h = elim (Bool-cases ((n.size == 0) || ltb (n.keys (n.size - 1)) key)) [
    | inl e ↦ rw e (ground arith)
    | inr e ↦ rw e (
        ground (
          arith,
          shift_left-childs key n.size n.keys (update n.childs (n.size + 1) (n.childs n.size)) x j,
        ))
  ]

  pub open_right-keys :
      j ≤ n.size
      → update (open_right n key).keys (open_right n key).index x j
        ≡ insert_at (open_right n key).index n.size x n.keys j
  unfolding open_right
  open_right-keys h = elim (Bool-cases (ltb (n.keys (n.size - 1)) key)) [
    | inl e ↦ rw e (ground arith)
    | inr e ↦ rw e (shift_right-keys key n.size n.keys _ x j)
  ]

  pub open_right-childs :
      j ≤ n.size + 1
      → update (open_right n key).childs ((open_right n key).index + 1) x j
        ≡ insert_at ((open_right n key).index + 1) (n.size + 1) x n.childs j
  unfolding open_right
  open_right-childs h = elim (Bool-cases (ltb (n.keys (n.size - 1)) key)) [
    | inl e ↦ rw e (ground arith)
    | inr e ↦ rw e (shift_right-childs key n.size n.keys _ x j)
  ]

-- `copyPartOfNode`: entry `i` of the new array is entry `l + i` of the old one.
pub copy_part-to :
    (rounds i l : ℕ) (from to : Array ℕ) (j : ℕ)
    → (copy_part rounds i l from to).1 j
      ≡ (if ltb j i then to j else if ltb j (i + rounds) then from (l + j) else to j)
unfolding copy_part
copy_part-to zero i l from to j = ground arith
copy_part-to (suc rounds) i l from to j =
    ground
      (arith, copy_part-to rounds (i + 1) l (update from (l + i) 0) (update to i (from (l + i))) j)

-- What it leaves behind: zeros where it took entries.
pub copy_part-from :
    (rounds i l : ℕ) (from to : Array ℕ) (j : ℕ)
    → (copy_part rounds i l from to).0 j
      ≡ (if ltb j (l + i) then from j else if ltb j (l + i + rounds) then 0 else from j)
unfolding copy_part
copy_part-from zero i l from to j = ground arith
copy_part-from (suc rounds) i l from to j =
    ground (
      arith,
      copy_part-from rounds (i + 1) l (update from (l + i) 0) (update to i (from (l + i))) j,
    )
