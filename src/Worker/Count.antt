-- ===== src/Worker/Count.antt =====
-- `pending_` of src/QueryQueue.cpp against the queue, and the wake-ups of `enqueue`.
use omp_my_sql.Prelude.{
  ℕ, ◌+◌, [], ◌∷◌, ◌≡◌, refl, arith, length, length-append, ◌⊎◌, inl, inr, ◌≢◌,
}
use omp_my_sql.Worker.{
  Route, teardown, sync, async, WorkerPc, about_to_block, blocked, executing, delivered, MainPc,
  idle, pushed, counted, stopped, System, init, deliver, Step, push, count, notify_one,
  clear_running, notify_all, join, check, block, leave, take, finish, discount, Reach, here, next,
}

-- The job that the worker has taken and not yet counted off.
abbrev pub held : {J : Type 0} → WorkerPc J → ℕ
held (executing j) = 1
held delivered = 1
held _ = 0

-- The job that is in the queue and not yet counted.
abbrev uncounted : MainPc → ℕ
uncounted MainPc.pushed = 1
uncounted _ = 0

module _ {J : Type 0} (route : J → Route) (run : J → J) where
  record Counted (s : System J) : Type 0 where
    pub balance :
        s.main ≢ stopped
        → s.added + uncounted s.main ≡ s.finished + (length s.input + held s.worker)
    pub asleep : s.worker ≡ about_to_block → s.input ≡ []
    pub woken : s.worker ≡ blocked → (s.main ≡ pushed) ⊎ ((s.main ≡ counted) ⊎ (s.input ≡ []))

  Step-Counted : {s t : System J} → Step route run s t → Counted s → Counted t
  Step-Counted {s} (push j m l) c = ground (arith, length-append s.input (j ∷ []))
  Step-Counted {s} (finish j w) c = elim (route j) as (λ r. Counted (deliver route run r j s)) [
    | teardown ↦ ground arith
    | sync ↦ ground arith
    | async ↦ ground arith
  ]
  Step-Counted {s} (count m) c = ground arith
  Step-Counted {s} (notify_one m) c = ground arith
  Step-Counted {s} (clear_running m r) c = ground arith
  Step-Counted {s} (notify_all m) c = ground arith
  Step-Counted {s} (join m w) c = ground arith
  Step-Counted {s} (check w r i) c = ground arith
  Step-Counted {s} (block w) c = ground arith
  Step-Counted {s} (leave w r i) c = ground arith
  Step-Counted {s} (take j rest w i) c = ground arith
  Step-Counted {s} (discount w) c = ground arith

  Reach-Counted : {s : System J} → Reach route run init s → Counted s
  Reach-Counted here = record {
    balance = λ _. refl;
    asleep = λ _. refl;
    woken = λ _. inr (inr refl);
  }
  Reach-Counted (next r st) = Step-Counted st (Reach-Counted r)

  -- Whenever the main thread is outside `enqueue` and `stop`, `pending_` is the number of jobs in
  -- the queue and in the worker's hands.
  pub pending_exact :
      {s : System J}
      → Reach route run init s
      → s.main ≡ idle
      → s.added ≡ s.finished + (length s.input + held s.worker)
  pending_exact {s} r m = let c = Reach-Counted r in ground (arith, c.balance)

  -- No wake-up of `enqueue` is lost: whenever the main thread is outside `enqueue` and `stop` and
  -- the worker sleeps, or is about to, the queue is empty.
  pub no_stranded_job :
      {s : System J}
      → Reach route run init s
      → s.main ≡ idle
      → (s.worker ≡ blocked) ⊎ (s.worker ≡ about_to_block)
      → s.input ≡ []
  no_stranded_job {s} r m (inl b) = let c = Reach-Counted r in ground (arith, c.woken b)
  no_stranded_job {s} r m (inr b) = (Reach-Counted r).asleep b
