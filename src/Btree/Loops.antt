-- ===== src/Btree/Loops.antt =====
-- The copying loops of pkg/storage/btree/BTreeNode.cpp against the arrays that they are for.
use godbee.Base.{
  ℕ, zero, suc, ◌+◌, ◌-◌, ◌≤◌, ◌≡◌, ◌&&◌, ltb, leb, if◌then◌else◌, Array, update, arith,
}
use godbee.Btree.Node.{take_from, fill, move_up}
use godbee.Btree.Removal.{move_down, put_at}

pub take_from-at :
    (rounds j by : ℕ) (from to : Array ℕ) (k : ℕ)
    → take_from rounds j by from to k
      ≡ (if leb j k && ltb k (j + rounds) then from (k + by) else to k)
unfolding take_from
take_from-at zero j by from to k = ground arith
take_from-at (suc rounds) j by from to k =
    ground (arith, take_from-at rounds (j + 1) by from (update to j (from (j + by))) k)

pub fill-at :
    (rounds j x : ℕ) (a : Array ℕ) (k : ℕ)
    → fill rounds j x a k ≡ (if leb j k && ltb k (j + rounds) then x else a k)
unfolding fill
fill-at zero j x a k = ground arith
fill-at (suc rounds) j x a k = ground (arith, fill-at rounds (j + 1) x (update a j x) k)

pub move_up-at :
    (rounds from : ℕ) (a : Array ℕ) (k : ℕ)
    → move_up rounds from a (k + 1)
      ≡ (if leb from k && ltb k (from + rounds) then a k else a (k + 1))
unfolding move_up
move_up-at zero from a k = ground arith
move_up-at (suc rounds) from a k =
    ground (arith, move_up-at rounds from (update a (from + rounds + 1) (a (from + rounds))) k)

pub move_up-before :
    (rounds from : ℕ) (a : Array ℕ) (k : ℕ) → k ≤ from → move_up rounds from a k ≡ a k
unfolding move_up
move_up-before zero from a k h = λ i. a k
move_up-before (suc rounds) from a k h =
    ground
      (arith, move_up-before rounds from (update a (from + rounds + 1) (a (from + rounds))) k h)

-- For a loop that does not start at index 0.
pub move_down-at :
    (rounds j : ℕ) (a : Array ℕ) (k : ℕ)
    → move_down rounds (j + 1) a k ≡ (if leb j k && ltb k (j + rounds) then a (k + 1) else a k)
unfolding move_down
move_down-at zero j a k = ground arith
move_down-at (suc rounds) j a k =
    ground (arith, move_down-at rounds (j + 1) (update a j (a (j + 1))) k)

pub put_at-at :
    (rounds j at : ℕ) (from to : Array ℕ) (k : ℕ)
    → put_at rounds j at from to k
      ≡ (if leb (j + at) k && ltb k (j + at + rounds) then from (k - at) else to k)
unfolding put_at
put_at-at zero j at from to k = ground arith
put_at-at (suc rounds) j at from to k =
    ground (arith, put_at-at rounds (j + 1) at from (update to (j + at) (from j)) k)
