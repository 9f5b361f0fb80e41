-- ===== src/BPlus/Removal/Loops.antt =====
-- The copying loops of removal, pkg/storage/bplustree/BPlusTreeNode.cpp, against the arrays that they
-- are for.
use godbee.Base.{
  ℕ, zero, suc, ◌+◌, ◌-◌, ◌≤◌, ◌<◌, ◌≡◌, ◌&&◌, ltb, leb, if◌then◌else◌, Array, update, arith,
}
use godbee.BPlus.Removal.{close_up, open_up, copy_to, move_to}

pub close_up-at :
    (rounds i : ℕ) (a : Array ℕ) (k : ℕ)
    → close_up rounds i a k ≡ (if leb i k && ltb k (i + rounds) then a (k + 1) else a k)
unfolding close_up
close_up-at zero i a k = ground arith
close_up-at (suc rounds) i a k =
    ground (arith, close_up-at rounds (i + 1) (update a i (a (i + 1))) k)

pub open_up-at :
    (n : ℕ) (a : Array ℕ) (k : ℕ) → open_up n a (k + 1) ≡ (if ltb k n then a k else a (k + 1))
unfolding open_up
open_up-at zero a k = ground arith
open_up-at (suc i) a k = ground (arith, open_up-at i (update a (i + 1) (a i)) k)

pub open_up-behind :
    (n : ℕ) (a : Array ℕ) (k : ℕ)
    → 0 < k
    → open_up n a k ≡ (if ltb (k - 1) n then a (k - 1) else a k)
open_up-behind n a zero h = absurd (omega arith)
open_up-behind n a (suc k) h = ground (arith, open_up-at n a k)

pub copy_to-at :
    (rounds i at : ℕ) (from to : Array ℕ) (k : ℕ)
    → copy_to rounds i at from to k
      ≡ (if leb (at + i) k && ltb k (at + i + rounds) then from (k - at) else to k)
unfolding copy_to
copy_to-at zero i at from to k = ground arith
copy_to-at (suc rounds) i at from to k =
    ground (arith, copy_to-at rounds (i + 1) at from (update to (at + i) (from i)) k)

-- Where no entry that is written is read again.
pub move_to-at :
    (rounds i at : ℕ) (a : Array ℕ) (k : ℕ)
    → i + rounds ≤ at
    → move_to rounds i at a k
      ≡ (if leb (at + i) k && ltb k (at + i + rounds) then a (k - at) else a k)
unfolding move_to
move_to-at zero i at a k h = ground arith
move_to-at (suc rounds) i at a k h =
    ground (arith, move_to-at rounds (i + 1) at (update a (at + i) (a i)) k (omega arith))
