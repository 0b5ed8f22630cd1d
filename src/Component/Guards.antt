-- ===== src/Component/Guards.antt =====
-- `checkGuards`, `enqueueJob` and `runJobSync` of src/MySQLComponent.cpp: which jobs reach a worker.
use omp_my_sql.Prelude.{
  ℕ, ◌≤◌, ◌<◌, true, false, [], ◌∷◌, ◌++◌, length, ◌≡◌, ◌↔◌, ◌⊎◌, inl, inr, refl, arith, ◌==◌,
  if◌then◌else◌, none, some, Option-cases,
}
use omp_my_sql.Prelude.Map.{lookup, lookup-put}
use omp_my_sql.Sql.{is_multi_statement}
use omp_my_sql.Query.{QueryJob}
use omp_my_sql.Component.{
  Component, ConnectionWorker, pending, none_rejected, prune, log_of, guards_at,
  multi_statements_allowed, is_plain_query, check_guards, enqueue_job,
}

-- The four guards, as conditions on the job, the policy, the queue and the log.
pub record Admits (c : Component) (job : QueryJob) (w : ConnectionWorker) (now : ℕ) : Type 0 where
  pub short_enough :
      is_plain_query job ≡ true
      → ((guards_at c job.connection_handle).max_query_length ≡ 0)
        ⊎ (length job.sql ≤ (guards_at c job.connection_handle).max_query_length)
  pub single :
      is_plain_query job ≡ true
      → (multi_statements_allowed c job.connection_handle ≡ true)
        ⊎ (is_multi_statement job.sql ≡ false)
  pub not_too_many :
      ((guards_at c job.connection_handle).max_pending_queries ≡ 0)
      ⊎ (pending w < (guards_at c job.connection_handle).max_pending_queries)
  pub not_too_fast :
      ((guards_at c job.connection_handle).max_queries_per_window ≡ 0)
      ⊎ (length (
            prune
              (guards_at c job.connection_handle).rate_window
              now
              (log_of c job.connection_handle))
          < (guards_at c job.connection_handle).max_queries_per_window)

module _ (c : Component) (job : QueryJob) (w : ConnectionWorker) (now : ℕ) where
  pub check_guards-Admits : ((check_guards c job w now).1 ≡ none_rejected) → Admits c job w now
  unfolding check_guards log_of
  check_guards-Admits e = record {
    short_enough = ground arith;
    single = ground arith;
    not_too_many = ground arith;
    not_too_fast = ground arith;
  }

  pub Admits-check_guards : Admits c job w now → (check_guards c job w now).1 ≡ none_rejected
  unfolding check_guards log_of
  Admits-check_guards a = ground arith

  -- The guards leave the workers and the policy of every connection alone.
  pub check_guards_frame :
      let c' = (check_guards c job w now).0 in
      (c'.workers ≡ c.workers)
      × (c'.multi_statement_allowed ≡ c.multi_statement_allowed)
      × (c'.next_handle ≡ c.next_handle)
      × (c'.connections ≡ c.connections)
  unfolding check_guards
  check_guards_frame = ground arith

enqueue_job_accepted :
    (c : Component) (job : QueryJob) (now : ℕ)
    → (enqueue_job c job now).1 ≡ none_rejected
    → (w : ConnectionWorker) × (lookup job.connection_handle c.workers ≡ some w)
      × ((check_guards c job w now).1 ≡ none_rejected)
unfolding enqueue_job
enqueue_job_accepted c job now h = ground arith

enqueue_job_admitted :
    (c : Component) (job : QueryJob) (now : ℕ) (w : ConnectionWorker)
    → lookup job.connection_handle c.workers ≡ some w
    → (check_guards c job w now).1 ≡ none_rejected
    → (enqueue_job c job now).1 ≡ none_rejected
unfolding enqueue_job
enqueue_job_admitted c job now w e a = ground arith

-- `enqueueJob` accepts a job if and only if its connection has a worker and all four guards admit
-- the job.
pub enqueue_job-Admits :
    (c : Component) (job : QueryJob) (now : ℕ)
    → ((enqueue_job c job now).1 ≡ none_rejected) ↔ (
        (w : ConnectionWorker) × (lookup job.connection_handle c.workers ≡ some w)
        × Admits c job w now)
enqueue_job-Admits c job now = (
  λ h.
      let (w, e, a) = enqueue_job_accepted c job now h in (w, e, check_guards-Admits c job w now a),
  λ k. enqueue_job_admitted c job now k.0 k.1 (Admits-check_guards c job k.0 now k.2),
)

-- An accepted job goes to the end of the queue of its connection. Every other queue is as it was,
-- and so are all of them when the job is refused.
pub enqueue_job-workers :
    (c : Component) (job : QueryJob) (now handle : ℕ)
    → let (c', reason) = enqueue_job c job now in
      lookup handle c'.workers ≡ elim reason [
        | none_rejected ↦ elim (lookup handle c.workers) [
          | none ↦ none
          | some w ↦ some (
              if job.connection_handle == handle
              then record w { queue = w.queue ++ job ∷ [] }
              else w)
        ]
        | _ ↦ lookup handle c.workers
      ]
unfolding enqueue_job
enqueue_job-workers c job now handle =
    elim (Option-cases (lookup job.connection_handle c.workers)) [
      | inl e ↦ rw (e, enqueue_job) refl
      | inr (w, e) ↦ ground (
        arith,
        check_guards_frame c job w now,
        lookup-put job.connection_handle handle (record w { queue = w.queue ++ job ∷ [] })
            (check_guards c job w now).0.workers,
      )
    ]
