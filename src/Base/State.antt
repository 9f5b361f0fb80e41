-- ===== src/Base/State.antt =====
-- Computations that read and write a state, and may fail.
use godbee.Base.{Option, none, some}

module _ {S : Type 0} where
  abbrev pub and_then : {A B : Type 0} → Option (A × S) → (A → S → Option (B × S)) → Option (B × S)
  and_then none k = none
  and_then (some (a, s)) k = k a s

  abbrev pub pure : {A : Type 0} → A → S → Option (A × S)
  pure a s = some (a, s)

  abbrev pub fault : {A : Type 0} → S → Option (A × S)
  fault s = none

  abbrev pub get_state : S → Option (S × S)
  get_state s = some (s, s)

  abbrev pub modify : (S → S) → S → Option (Unit {0} × S)
  modify f s = some (tt, f s)

infixl 5 ◌>>=◌ ◌>>◌
abbrev pub ◌>>=◌ :
    {S A B : Type 0} → (S → Option (A × S)) → (A → S → Option (B × S)) → S → Option (B × S)
◌>>=◌ m k s = and_then (m s) k

abbrev pub ◌>>◌ :
    {S A B : Type 0} → (S → Option (A × S)) → (S → Option (B × S)) → S → Option (B × S)
m >> n = m >>= λ _. n
