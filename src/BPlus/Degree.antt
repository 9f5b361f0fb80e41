-- ===== src/BPlus/Degree.antt =====
-- The width of a value's index in an offset, pkg/storage/bplustree/fileUtils.cpp.
use godbee.Base.{
  ℕ, zero, suc, ◌+◌, ◌-◌, ◌/◌, ◌^◌, ◌≤◌, ◌<◌, ◌≡◌, ◌≢◌, sym, subst, false, inl, inr, arith, ◌==◌,
  if◌then◌else◌, Bool-cases,
}
use native.Mathlib.Nat.{pow-suc}

-- The loop of `countBits`, on fuel: `count` bits have been shifted out.
count_bits_loop : ℕ → ℕ → ℕ → ℕ
count_bits_loop zero n count = count
count_bits_loop (suc fuel) n count =
    let rest = count_bits_loop fuel (n / 2) (count + 1) in if n == 0 then count else rest

-- `n` rounds are enough, since each one makes `n` smaller.
pub count_bits : ℕ → ℕ
unfolding count_bits_loop
count_bits n = count_bits_loop n n 0

-- `n = pageSize / valueSize - 1` is a signed number: a page smaller than a value has no index.
pub calculate_bit_size_value_index : ℕ → ℕ → ℕ
unfolding count_bits
calculate_bit_size_value_index page_size value_size =
    let n = page_size / value_size in if n == 0 then 0 else count_bits (n - 1)

-- The bits of `n`: the power of two of their number is the first above `n`.
abbrev pub IsWidth : ℕ → ℕ → Type 0
IsWidth n b = (n < 2 ^ b) × ((c : ℕ) → n < 2 ^ c → b ≤ c)

loop-IsWidth :
    (fuel n count : ℕ)
    → n ≤ fuel
    → (b : ℕ) × (count_bits_loop fuel n count ≡ count + b) × IsWidth n b
unfolding count_bits_loop
loop-IsWidth zero n count h = (0, omega arith, (omega arith, λ c x. omega arith))
loop-IsWidth (suc fuel) n count h = elim (Bool-cases (n == 0)) [
  | inl e ↦ (0, rw e (omega arith), (ground arith, λ c x. omega arith))
  | inr e ↦
      let (b, run, width) = loop-IsWidth fuel (n / 2) (count + 1) (ground arith) in
      (
        suc b,
        rw e (omega (arith, run)),
        (doubled b width.0, λ c x. shorter b width.1 c x (ground arith)),
      )
]
  where
    doubled : (b : ℕ) → n / 2 < 2 ^ b → n < 2 ^ suc b
    doubled b x = omega (arith, pow-suc 2 b)

    shorter : (b : ℕ) → ((c : ℕ) → n / 2 < 2 ^ c → b ≤ c) → (c : ℕ) → n < 2 ^ c → n ≢ 0 → suc b ≤ c
    shorter b least zero x ne = absurd (omega arith)
    shorter b least (suc c) x ne =
        let below : n / 2 < 2 ^ c = omega (arith, pow-suc 2 c) in omega (arith, least c below)

-- `countBits` returns the width of its argument: the least number of bits whose power of two is above it.
pub count_bits-IsWidth : (n : ℕ) → IsWidth n (count_bits n)
unfolding count_bits
count_bits-IsWidth n =
    let (b, run, width) = loop-IsWidth n n 0 (omega arith) in
    let same : count_bits_loop n n 0 ≡ b = omega (arith, run) in subst (IsWidth n) (sym same) width

-- `calculateBitSizeValueIndex` gives every whole value of a page an index, and no fewer bits do.
pub calculate_bit_size_value_index-fits :
    (page_size value_size i : ℕ)
    → i < page_size / value_size
    → (i < 2 ^ calculate_bit_size_value_index page_size value_size)
      × ((c : ℕ)
          → page_size / value_size ≤ 2 ^ c
          → calculate_bit_size_value_index page_size value_size ≤ c)
unfolding calculate_bit_size_value_index
calculate_bit_size_value_index-fits page_size value_size i h =
    let some_value : (page_size / value_size == 0) ≡ false = ground arith in
    let width = count_bits-IsWidth (page_size / value_size - 1) in
    rw some_value (omega (arith, width.0), λ c x. width.1 c (omega arith))
