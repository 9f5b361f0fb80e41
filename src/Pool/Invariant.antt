-- ===== src/Pool/Invariant.antt =====
-- What every step of the threads keeps: a handle is in one place, and a thread that waits for a
-- handle which is there will be woken.
use godbee.Base.{
  ℕ, suc, ◌+◌, ◌≤◌, ◌<◌, ◌≡◌, refl, ap, Bool, List, [], ◌∷◌, arith, Array, update, length, ◌==◌,
  if◌then◌else◌,
}
use godbee.Pool.{
  Pc, idle, waiting, woken, holding, giving, Pool, Kind, stack, queue, give_back, Asks, first,
  again, Step, get, wait, wake, give, notify, notify_nobody, leak, init, Reach, start, later,
}
use godbee.Pool.Count.{sum, sum-update, positive_sum, sum_zero, count, count-append}

abbrev pub holds : ℕ → Pc → ℕ
holds file idle = 0
holds file waiting = 0
holds file woken = 0
holds file (holding other) = if file == other then 1 else 0
holds file giving = 0

abbrev pub waits : Pc → ℕ
waits idle = 0
waits waiting = 1
waits woken = 0
waits (holding file) = 0
waits giving = 0

-- On the way to a handle, or to a call of `notify_one`.
abbrev pub is_ready : Pc → ℕ
is_ready idle = 0
is_ready waiting = 0
is_ready woken = 1
is_ready (holding file) = 0
is_ready giving = 1

pub record Inv (n : ℕ) (s : Pool) : Type 0 where
  pub exclusive : (file : ℕ) → count file s.files + sum (holds file) n s.pc ≤ 1
  pub awake : 0 < sum waits n s.pc → length s.files ≤ sum is_ready n s.pc

pub count-give_back :
    (kind : Kind) (x file : ℕ) (files : List ℕ)
    → count x (give_back kind file files) ≡ count x files + (if x == file then 1 else 0)
unfolding count
count-give_back stack x file files = omega arith
count-give_back queue x file files = omega (arith, count-append x files (file ∷ []))

length-give_back :
    (kind : Kind) (file : ℕ) (files : List ℕ)
    → length (give_back kind file files) ≡ suc (length files)
length-give_back stack file files = refl
length-give_back queue file [] = refl
length-give_back queue file (x ∷ files) = ap suc (length-give_back queue file files)

-- One change of a thread, for the three sums.
record Moved (n : ℕ) (pc : Array Pc) (i : ℕ) (p : Pc) : Type 0 where
  holds_lem :
      (file : ℕ)
      → sum (holds file) n (update pc i p) + holds file (pc i)
        ≡ sum (holds file) n pc + holds file p
  waits_lem : sum waits n (update pc i p) + waits (pc i) ≡ sum waits n pc + waits p
  ready_lem : sum is_ready n (update pc i p) + is_ready (pc i) ≡ sum is_ready n pc + is_ready p

moved : (n : ℕ) (pc : Array Pc) (i : ℕ) (p : Pc) → i < n → Moved n pc i p
moved n pc i p h = record {
  holds_lem = λ file. sum-update (holds file) n pc i p h;
  waits_lem = sum-update waits n pc i p h;
  ready_lem = sum-update is_ready n pc i p h;
}

pub Asks-holds : {p : Pc} → Asks p → (file : ℕ) → holds file p ≡ 0
Asks-holds first file = refl
Asks-holds again file = refl

Asks-waits : {p : Pc} → Asks p → waits p ≡ 0
Asks-waits first = refl
Asks-waits again = refl

Asks-ready : {p : Pc} → Asks p → is_ready p ≤ 1
Asks-ready first = omega arith
Asks-ready again = omega arith

pub waits_of : (p : Pc) → 0 < waits p → p ≡ waiting
waits_of idle h = absurd (omega arith)
waits_of waiting h = refl
waits_of woken h = absurd (omega arith)
waits_of (holding file) h = absurd (omega arith)
waits_of giving h = absurd (omega arith)

module _ {leaks : Bool} {n : ℕ} {kind : Kind} {s t : Pool} where
  Step-exclusive :
      Step kind leaks n s t
      → Inv n s
      → (file : ℕ) → count file t.files + sum (holds file) n t.pc ≤ 1
  unfolding count
  Step-exclusive (get i f rest h a e q) inv file =
      let m = moved n s.pc i (holding f) h in
      let before : count file s.files ≡ (if file == f then 1 else 0) + count file rest =
        ap (count file) e in
      rw q (omega (arith, inv.exclusive file, m.holds_lem file, Asks-holds a file, before))
  Step-exclusive (wait i h a e q) inv file = rw q (
      omega
        (arith, inv.exclusive file, (moved n s.pc i waiting h).holds_lem file, Asks-holds a file))
  Step-exclusive (wake i h e q) inv file = rw q (
      omega (arith, inv.exclusive file, (moved n s.pc i woken h).holds_lem file, ap (holds file) e))
  Step-exclusive (give i f h e q) inv file = rw q (
      omega (
        arith,
        inv.exclusive file,
        (moved n s.pc i giving h).holds_lem file,
        ap (holds file) e,
        count-give_back kind file f s.files,
      ))
  Step-exclusive (notify i j h k e f q) inv file =
      let pc' = update s.pc i idle in
      let other : pc' j ≡ waiting = ground arith in
      rw q (
        omega (
          arith,
          inv.exclusive file,
          (moved n s.pc i idle h).holds_lem file,
          (moved n pc' j woken k).holds_lem file,
          ap (holds file) e,
          ap (holds file) other,
        ))
  Step-exclusive (notify_nobody i h e none q) inv file =
      rw q (
        omega
          (arith, inv.exclusive file, (moved n s.pc i idle h).holds_lem file, ap (holds file) e))
  Step-exclusive (leak i f l h e q) inv file =
      rw q (
        omega
          (arith, inv.exclusive file, (moved n s.pc i idle h).holds_lem file, ap (holds file) e))

  Step-awake :
      Step kind leaks n s t → Inv n s → 0 < sum waits n t.pc → length t.files ≤ sum is_ready n t.pc
  Step-awake (get i f rest h a e q) inv = rw q (λ pos.
      let m = moved n s.pc i (holding f) h in
      omega (
        arith,
        inv.awake (omega (arith, m.waits_lem, Asks-waits a)),
        m.ready_lem,
        Asks-ready a,
        ap length e,
      ))
  Step-awake (wait i h a e q) inv = rw q (λ pos. omega (arith, ap length e))
  Step-awake (wake i h e q) inv = rw q (λ pos.
      let m = moved n s.pc i woken h in
      omega (arith, inv.awake (omega (arith, m.waits_lem, ap waits e)), m.ready_lem, ap is_ready e))
  Step-awake (give i f h e q) inv = rw q (λ pos.
      let m = moved n s.pc i giving h in
      omega (
        arith,
        inv.awake (omega (arith, m.waits_lem, ap waits e)),
        m.ready_lem,
        ap is_ready e,
        length-give_back kind f s.files,
      ))
  Step-awake (notify i j h k e f q) inv = rw q (λ pos.
      let pc' = update s.pc i idle in
      let other : pc' j ≡ waiting = ground arith in
      let m = moved n s.pc i idle h in
      let m' = moved n pc' j woken k in
      omega (
        arith,
        inv.awake (omega (arith, m.waits_lem, m'.waits_lem, ap waits e, ap waits other)),
        m.ready_lem,
        m'.ready_lem,
        ap is_ready e,
        ap is_ready other,
      ))
  Step-awake (notify_nobody i h e nobody q) inv = rw q (λ pos.
      let (j, k, w) = positive_sum waits n (update s.pc i idle) pos in
      absurd (nobody j k (waits_of (s.pc j) (ground (arith, w)))))
  Step-awake (leak i f l h e q) inv = rw q (λ pos.
      let m = moved n s.pc i idle h in
      omega (arith, inv.awake (omega (arith, m.waits_lem, ap waits e)), m.ready_lem, ap is_ready e))

  Step-Inv : Step kind leaks n s t → Inv n s → Inv n t
  Step-Inv st inv = record { exclusive = Step-exclusive st inv; awake = Step-awake st inv }

init-Inv : (n : ℕ) → Inv n init
unfolding count
init-Inv n = record {
  exclusive = λ file. ground (arith, sum_zero (holds file) n (λ _. idle) (λ i. refl));
  awake = λ pos. absurd (omega (arith, sum_zero waits n (λ _. idle) (λ i. refl)));
}

pub Reach-Inv : {kind : Kind} {leaks : Bool} {n : ℕ} {s : Pool} → Reach kind leaks n s → Inv n s
Reach-Inv {n} start = init-Inv n
Reach-Inv (later r st) = Step-Inv st (Reach-Inv r)
