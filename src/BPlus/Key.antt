-- ===== src/BPlus/Key.antt =====
-- Keys as the bytes that a client gives, and as the numbers of the model: where the bytes are not
-- zero, `strcmp` orders two texts, one of which leaves room for its NUL, as their numbers are.
use godbee.Base.{ℕ, zero, suc, ◌+◌, ◌*◌, ◌^◌, ◌<◌, ◌≡◌, refl, [], ◌∷◌, arith, length}
use native.Mathlib.Nat.{pow-suc, one-le-pow}
use godbee.Command.{Str}

-- The number that the bytes of a key spell in a field of `key_size` bytes, zeros behind them.
unfoldable pub key_of : ℕ → Str → ℕ
key_of zero s = 0
key_of (suc key_size) [] = 0
key_of (suc key_size) (c ∷ s) = c * 256 ^ key_size + key_of key_size s

-- A text that fits into a field: its bytes are not zero.
abbrev pub Fits : ℕ → Str → Type 0
Fits key_size [] = Unit
Fits zero (c ∷ s) = ⊥
Fits (suc key_size) (c ∷ s) = (0 < c) × (c < 256) × Fits key_size s

power_pos : (n : ℕ) → 0 < 256 ^ n
power_pos n = one-le-pow n 256 (omega arith)

digits_lt : (c d p a b : ℕ) → c < d → a < p → c * p + a < d * p + b
digits_lt c d p a b h k = grind arith

-- The keys of a store are below one bound.
pub key_of-lt : (key_size : ℕ) (s : Str) → Fits key_size s → key_of key_size s < 256 ^ key_size
unfolding key_of
key_of-lt zero [] h = omega arith
key_of-lt zero (c ∷ s) h = absurd h
key_of-lt (suc n) [] h = power_pos (suc n)
key_of-lt (suc n) (c ∷ s) (pos, lt, h) =
    omega (arith, digits_lt c 256 (256 ^ n) (key_of n s) 0 lt (key_of-lt n s h), pow-suc 256 n)

spread : (c p p' k q : ℕ) → p' ≡ 256 * p → k ≡ 256 * q → c * p' + k ≡ 256 * (c * p + q)
spread c p p' k q h e = rw (h, e) (grind arith)

-- A text that leaves room for its NUL spells a number with a last digit 0.
pub key_of-multiple :
    (key_size : ℕ) (s : Str) → length s < key_size → (q : ℕ) × (key_of key_size s ≡ 256 * q)
unfolding key_of
key_of-multiple zero s h = absurd (omega arith)
key_of-multiple (suc n) [] h = (0, refl)
key_of-multiple (suc zero) (c ∷ s) h = absurd (omega arith)
key_of-multiple (suc (suc n)) (c ∷ s) h =
    let (q, e) = key_of-multiple (suc n) s (omega arith) in
    (
      c * 256 ^ n + q,
      spread c (256 ^ n) (256 ^ suc n) (key_of (suc n) s) q (omega (arith, pow-suc 256 n)) e,
    )
