-- ===== src/Pool/Safety.antt =====
-- What the pool promises its threads.
use godbee.Base.{
  ℕ, ◌+◌, ◌≤◌, ◌<◌, ◌≡◌, refl, sym, ap, ◌∙◌, Bool, true, false, List, ◌∷◌, ◌⊎◌, subst, arith,
  update, length, inl, inr, Bool-cases, ltb, ◌==◌, if◌then◌else◌,
}
use godbee.Pool.{
  Pc, idle, waiting, woken, holding, giving, Pool, Kind, Asks, again, Step, get, wait, wake, give,
  notify, notify_nobody, leak, pool_size, Reach, start, later,
}
use godbee.Pool.Count.{
  sum, sum-update, weight-le-sum, weights-le-sum, positive_sum, sum_zero, count,
}
use godbee.Pool.Invariant.{holds, waits, is_ready, Reach-Inv, count-give_back, Asks-holds}

module _ {kind : Kind} {leaks : Bool} {n : ℕ} {s : Pool} (r : Reach kind leaks n s) where
  holds_self : (i file : ℕ) → s.pc i ≡ holding file → holds file (s.pc i) ≡ 1
  holds_self i file e = ap (holds file) e ∙ ground arith

  -- In any interleaving of calls, leaking ones included, no handle is lent to two threads at once, and
  -- a handle that is lent is not in the pool.
  pub handle_exclusive :
      (i j file : ℕ)
      → i < n
      → j < n
      → s.pc i ≡ holding file
      → s.pc j ≡ holding file
      → (i ≡ j) × (count file s.files ≡ 0)
  handle_exclusive i j file h k e f = (
    same,
    omega (
      arith,
      (Reach-Inv r).exclusive file,
      weight-le-sum (holds file) n s.pc i h,
      holds_self i file e,
    ),
  )
    where
      same : i ≡ j
      same = elim (Bool-cases (ltb i j)) [
        | inl x ↦ absurd (
            omega (
              arith,
              (Reach-Inv r).exclusive file,
              weights-le-sum (holds file) n s.pc i j (ground arith) k,
              holds_self i file e,
              holds_self j file f,
            ))
        | inr x ↦ elim (Bool-cases (ltb j i)) [
          | inl y ↦ absurd (
              omega (
                arith,
                (Reach-Inv r).exclusive file,
                weights-le-sum (holds file) n s.pc j i (ground arith) h,
                holds_self i file e,
                holds_self j file f,
              ))
          | inr y ↦ ground arith
        ]
      ]

  ready_cases : (p : Pc) → 0 < is_ready p → (p ≡ woken) ⊎ (p ≡ giving)
  ready_cases idle h = absurd (omega arith)
  ready_cases waiting h = absurd (omega arith)
  ready_cases woken h = inl refl
  ready_cases (holding file) h = absurd (omega arith)
  ready_cases giving h = inr refl

  asks : {p : Pc} → p ≡ woken → Asks p
  asks x = subst Asks (sym x) again

  -- No wakeup is lost: while a thread waits, at least as many threads as there are handles in the pool have
  -- been woken or are between giving a handle back and `notify_one`; and where there is a handle, one
  -- of them is woken and can take it at once, or is about to notify and can wake the waiting thread at once.
  pub no_lost_wakeup :
      (i file : ℕ) (rest : List ℕ)
      → i < n
      → s.pc i ≡ waiting
      → s.files ≡ file ∷ rest
      → (length s.files ≤ sum is_ready n s.pc)
        × (j : ℕ) × (j < n)
        × (((s.pc j ≡ woken) × (t : Pool) × Step kind leaks n s t × (t.pc j ≡ holding file))
            ⊎ ((s.pc j ≡ giving)
                × (t : Pool) × Step kind leaks n s t
                × (t.pc j ≡ idle)
                × (t.pc i ≡ woken)))
  no_lost_wakeup i file rest h e f =
      let waiting_one : 0 < sum waits n s.pc =
        omega (arith, weight-le-sum waits n s.pc i h, ap waits e) in
      let enough = (Reach-Inv r).awake waiting_one in
      let (j, k, w) = positive_sum is_ready n s.pc (omega (arith, enough, ap length f)) in
      (
        enough,
        j,
        k,
        elim (ready_cases (s.pc j) w) [
          | inl x ↦ inl (
            x,
            record { files = rest; pc = update s.pc j (holding file) },
            get j file rest k (asks x) f refl,
            ground arith,
          )
          | inr x ↦ inr (
            x,
            record s { pc = update (update s.pc j idle) i woken },
            notify j i k h x e refl,
            apart j x (Bool-cases (j == i)),
            ground arith,
          )
        ],
      )
    where
      apart :
          (j : ℕ)
          → s.pc j ≡ giving
          → ((j == i) ≡ true) ⊎ ((j == i) ≡ false)
          → update (update s.pc j idle) i woken j ≡ idle
      apart j x (inl q) =
          let same : j ≡ i = ground arith in
          let other : waiting ≡ giving = sym e ∙ ap s.pc (sym same) ∙ x in absurd (cc other)
      apart j x (inr q) = ground arith

module _ {n : ℕ} {kind : Kind} (file : ℕ) where
  Step-kept :
      {s t : Pool}
      → Step kind false n s t
      → count file t.files + sum (holds file) n t.pc ≡ count file s.files + sum (holds file) n s.pc
  unfolding count
  Step-kept {s} (get i f rest h a e q) =
      let before : count file s.files ≡ (if file == f then 1 else 0) + count file rest =
        ap (count file) e in
      rw q
        (omega (arith, sum-update (holds file) n s.pc i (holding f) h, Asks-holds a file, before))
  Step-kept {s} (wait i h a e q) =
      rw q (omega (arith, sum-update (holds file) n s.pc i waiting h, Asks-holds a file))
  Step-kept {s} (wake i h e q) =
      rw q (omega (arith, sum-update (holds file) n s.pc i woken h, ap (holds file) e))
  Step-kept {s} (give i f h e q) = rw q (
      omega (
        arith,
        sum-update (holds file) n s.pc i giving h,
        ap (holds file) e,
        count-give_back kind file f s.files,
      ))
  Step-kept {s} (notify i j h k e f q) =
      let pc' = update s.pc i idle in
      let other : pc' j ≡ waiting = ground arith in
      rw q (
        omega (
          arith,
          sum-update (holds file) n s.pc i idle h,
          sum-update (holds file) n pc' j woken k,
          ap (holds file) e,
          ap (holds file) other,
        ))
  Step-kept {s} (notify_nobody i h e nobody q) =
      rw q (omega (arith, sum-update (holds file) n s.pc i idle h, ap (holds file) e))
  Step-kept (leak i f l h e q) = cc

  -- Where every call gives its handle back, each of the eight handles of the start is, after any steps, once
  -- in the pool or with a thread, and nothing else is.
  pub handles_kept :
      {s : Pool}
      → Reach kind false n s
      → count file s.files + sum (holds file) n s.pc ≡ (if ltb file pool_size then 1 else 0)
  unfolding count
  handles_kept start = ground (arith, sum_zero (holds file) n (λ _. idle) (λ i. refl))
  handles_kept (later r st) = Step-kept st ∙ handles_kept r
