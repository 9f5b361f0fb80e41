-- ===== src/Pool/Count.antt =====
-- How many of the threads, and how often a handle stands in a list.
use godbee.Base.{
  ℕ, zero, suc, ◌+◌, ◌≤◌, ◌<◌, ◌≡◌, refl, List, [], ◌∷◌, ◌++◌, arith, inl, inr, Array, update,
  Bool-cases, ltb, ◌==◌, if◌then◌else◌,
}
use godbee.Pool.{Pc}

-- The sum of a weight over the first `n` threads.
pub sum : (Pc → ℕ) → ℕ → Array Pc → ℕ
sum w zero pc = 0
sum w (suc n) pc = sum w n pc + w (pc n)

sum-update_of_le :
    (w : Pc → ℕ) (n : ℕ) (pc : Array Pc) (i : ℕ) (p : Pc)
    → n ≤ i
    → sum w n (update pc i p) ≡ sum w n pc
unfolding sum
sum-update_of_le w zero pc i p h = refl
sum-update_of_le w (suc n) pc i p h = ground (arith, sum-update_of_le w n pc i p)

-- A change at one thread, without subtraction.
pub sum-update :
    (w : Pc → ℕ) (n : ℕ) (pc : Array Pc) (i : ℕ) (p : Pc)
    → i < n
    → sum w n (update pc i p) + w (pc i) ≡ sum w n pc + w p
unfolding sum
sum-update w zero pc i p h = absurd (omega arith)
sum-update w (suc n) pc i p h = elim (Bool-cases (ltb i n)) [
  | inl e ↦ ground (arith, sum-update w n pc i p)
  | inr e ↦ ground (arith, sum-update_of_le w n pc i p)
]

pub weight-le-sum : (w : Pc → ℕ) (n : ℕ) (pc : Array Pc) (i : ℕ) → i < n → w (pc i) ≤ sum w n pc
unfolding sum
weight-le-sum w zero pc i h = absurd (omega arith)
weight-le-sum w (suc n) pc i h = elim (Bool-cases (i == n)) [
  | inl e ↦ ground arith
  | inr e ↦ ground (arith, weight-le-sum w n pc i)
]

-- Two threads count twice.
pub weights-le-sum :
    (w : Pc → ℕ) (n : ℕ) (pc : Array Pc) (i j : ℕ)
    → i < j
    → j < n
    → w (pc i) + w (pc j) ≤ sum w n pc
unfolding sum
weights-le-sum w zero pc i j h k = absurd (omega arith)
weights-le-sum w (suc n) pc i j h k = elim (Bool-cases (j == n)) [
  | inl e ↦ ground (arith, weight-le-sum w n pc i)
  | inr e ↦ ground (arith, weights-le-sum w n pc i j)
]

-- A positive sum comes from some thread.
pub positive_sum :
    (w : Pc → ℕ) (n : ℕ) (pc : Array Pc) → 0 < sum w n pc → (i : ℕ) × (i < n) × (0 < w (pc i))
unfolding sum
positive_sum w zero pc h = absurd (omega arith)
positive_sum w (suc n) pc h = elim (Bool-cases (ltb 0 (w (pc n)))) [
  | inl e ↦ (n, omega arith, ground arith)
  | inr e ↦ (let (i, x, y) = positive_sum w n pc (ground arith) in (i, omega arith, y))
]

pub sum_zero : (w : Pc → ℕ) (n : ℕ) (pc : Array Pc) → ((i : ℕ) → w (pc i) ≡ 0) → sum w n pc ≡ 0
unfolding sum
sum_zero w zero pc h = refl
sum_zero w (suc n) pc h = omega (arith, sum_zero w n pc h, h n)

unfoldable pub count : ℕ → List ℕ → ℕ
count x [] = 0
count x (y ∷ ys) = (if x == y then 1 else 0) + count x ys

pub count-append : (x : ℕ) (xs ys : List ℕ) → count x (xs ++ ys) ≡ count x xs + count x ys
unfolding count
count-append x [] ys = omega arith
count-append x (y ∷ xs) ys = omega (arith, count-append x xs ys)
