-- ===== src/Tests/Threads.antt =====
-- Interleavings of threads at the pool of handles, at concrete steps.
use godbee.Base.{ℕ, ◌+◌, ◌<◌, ◌≤◌, ◌≡◌, refl, ◌⊎◌, arith, false, [], length}
use godbee.Pool
use godbee.Pool.{Pc, Pool, Kind, Asks, Reach, start, later, handles}
use godbee.Pool.Count.{count, sum}
use godbee.Pool.Safety.{handle_exclusive, no_lost_wakeup, handles_kept}
use godbee.Pool.Invariant.{holds, is_ready}

-- Nine threads: eight take the handles, the ninth waits, and the first gives its handle back.
abbrev crowd : (s : Pool) × Reach Kind.stack false 9 s
crowd = (
  _,
  later
      (later
        (later
          (later
            (later
              (later
                (later
                  (later
                    (later
                      (later start
                        (Pool.Step.get 0 7 (handles 7) (omega arith) Asks.first refl refl))
                      (Pool.Step.get 1 6 (handles 6) (omega arith) Asks.first refl refl))
                    (Pool.Step.get 2 5 (handles 5) (omega arith) Asks.first refl refl))
                  (Pool.Step.get 3 4 (handles 4) (omega arith) Asks.first refl refl))
                (Pool.Step.get 4 3 (handles 3) (omega arith) Asks.first refl refl))
              (Pool.Step.get 5 2 (handles 2) (omega arith) Asks.first refl refl))
            (Pool.Step.get 6 1 (handles 1) (omega arith) Asks.first refl refl))
          (Pool.Step.get 7 0 (handles 0) (omega arith) Asks.first refl refl))
        (Pool.Step.wait 8 (omega arith) Asks.first refl refl))
      (Pool.Step.give 0 7 (omega arith) refl refl),
)

handle_exclusive_example : (◌≡◌ {A = ℕ} 1 1) × (count 6 crowd.0.files ≡ 0)
handle_exclusive_example = handle_exclusive crowd.1 1 1 6 (omega arith) (omega arith) refl refl

no_lost_wakeup_example :
    (length crowd.0.files ≤ sum is_ready 9 crowd.0.pc)
    × (j : ℕ) × (j < 9)
    × (((crowd.0.pc j ≡ Pc.woken)
          × (t : Pool) × Pool.Step Kind.stack false 9 crowd.0 t
          × (t.pc j ≡ Pc.holding 7))
        ⊎ ((crowd.0.pc j ≡ Pc.giving)
            × (t : Pool) × Pool.Step Kind.stack false 9 crowd.0 t
            × (t.pc j ≡ Pc.idle)
            × (t.pc 8 ≡ Pc.woken)))
no_lost_wakeup_example = no_lost_wakeup crowd.1 8 7 [] (omega arith) refl refl

handles_kept_example : count 6 crowd.0.files + sum (holds 6) 9 crowd.0.pc ≡ 1
handles_kept_example = handles_kept 6 crowd.1
