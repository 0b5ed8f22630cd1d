-- ===== src/Natives/Execute/Delivery.antt =====
-- From `mysql_execute` of src/natives.cpp to the callback, through the guards, the queue of the
-- worker and the tick.
use omp_my_sql.Prelude.{
  ℕ, zero, suc, true, List, [], ◌∷◌, Bytes, ◌++◌, append_assoc, append-nil, length, ==_refl, none,
  some, ◌≡◌, refl, sym, ◌∙◌, subst, ap, ap₂, arith,
}
use omp_my_sql.Prelude.Int.{ℤ}
use omp_my_sql.Prelude.Map.{lookup, lookup-put}
use omp_my_sql.Amx.{Amx}
use omp_my_sql.Query.{QueryJob, route}
use omp_my_sql.Worker.{async}
use omp_my_sql.Worker.Order.{async_only, async_only-append}
use omp_my_sql.Component.{
  Component, ConnectionWorker, none_rejected, check_guards, check_rate, enqueue_job,
}
use omp_my_sql.Component.Guards.{Admits, Admits-check_guards, enqueue_job-workers}
use omp_my_sql.Component.Policy.{finish_job}
use omp_my_sql.Dispatch.{Host, World, on_tick}
use omp_my_sql.Dispatch.Tick.{all_calls, all_hashes, on_tick-calls}
use omp_my_sql.Natives.Format.{amx_string_param}
use omp_my_sql.Natives.Models.{with_callback}
use omp_my_sql.Natives.Execute.{submit, query_job, mysql_execute}

check_guards-completed :
    (c : Component) (job : QueryJob) (worker : ConnectionWorker) (now : ℕ)
    → (check_guards c job worker now).0.completed ≡ c.completed
unfolding check_guards check_rate
check_guards-completed c job worker now = ground arith

enqueue_job_is :
    (c : Component) (job : QueryJob) (worker : ConnectionWorker) (now : ℕ)
    → lookup job.connection_handle c.workers ≡ some worker
    → Admits c job worker now
    → let (c', reason) = enqueue_job c job now in
      (reason ≡ none_rejected)
      × (c'.completed ≡ c.completed)
      × (lookup job.connection_handle c'.workers
          ≡ some (record worker { queue = worker.queue ++ job ∷ [] }))
unfolding enqueue_job
enqueue_job_is c job worker now e admits =
    let free = Admits-check_guards c job worker now admits in
    let kept = check_guards-completed c job worker now in
    let reason : (enqueue_job c job now).1 ≡ none_rejected = rw (enqueue_job, e, free) refl in
    (
      reason,
      rw (enqueue_job, e, free) kept,
      enqueue_job-workers c job now job.connection_handle
          ∙ rw (reason, e, ==_refl job.connection_handle) refl,
    )

length-snoc : (js : List QueryJob) (j : QueryJob) → suc (length js) ≡ length (js ++ j ∷ [])
length-snoc [] j = refl
length-snoc (k ∷ js) j = ap suc (length-snoc js j)

module _ (run : QueryJob → QueryJob) where
  -- The worker of a handle finishes its oldest jobs.
  unfoldable pub finish_jobs : ℕ → ℕ → Component → Component
  unfolding finish_job
  finish_jobs zero handle c = c
  finish_jobs (suc n) handle c = finish_jobs n handle (finish_job run c handle)

  finish_job_is :
      (handle : ℕ) (c : Component) (worker : ConnectionWorker) (job : QueryJob)
      (rest : List QueryJob)
      → lookup handle c.workers ≡ some worker
      → worker.queue ≡ job ∷ rest
      → let c' = finish_job run c handle in
        (lookup handle c'.workers ≡ some (record worker { queue = rest }))
        × (c'.completed ≡ c.completed ++ async_only route run (job ∷ []))
  unfolding finish_job
  finish_job_is handle c worker job rest e q = (
    rw
        (
          finish_job,
          e,
          q,
          lookup-put handle handle (record worker { queue = rest }) c.workers,
          ==_refl handle,
        )
        refl,
    rw (finish_job, e, q) refl,
  )

  async_only_cons :
      (job : QueryJob) (rest : List QueryJob)
      → async_only route run (job ∷ rest)
        ≡ async_only route run (job ∷ []) ++ async_only route run rest
  async_only_cons job rest = ground arith

  finish_jobs-completed :
      (queue : List QueryJob) (handle : ℕ) (c : Component) (worker : ConnectionWorker)
      → lookup handle c.workers ≡ some worker
      → worker.queue ≡ queue
      → (finish_jobs (length queue) handle c).completed ≡ c.completed ++ async_only route run queue
  unfolding finish_jobs
  finish_jobs-completed [] handle c worker e q = sym (append-nil c.completed)
  finish_jobs-completed (job ∷ rest) handle c worker e q =
      let (left, done) = finish_job_is handle c worker job rest e q in
      finish_jobs-completed rest handle (finish_job run c handle) (record worker { queue = rest })
        left refl
      ∙ ap (λ js. js ++ async_only route run rest) done
      ∙ append_assoc c.completed (async_only route run (job ∷ [])) (async_only route run rest)
      ∙ ap (λ js. c.completed ++ js) (sym (async_only_cons job rest))

  async_only-snoc :
      (js : List QueryJob) (job : QueryJob)
      → route job ≡ async
      → async_only route run (js ++ job ∷ []) ≡ async_only route run js ++ run job ∷ []
  async_only-snoc js job e =
      async_only-append route run js job
      ∙ ap (λ last. async_only route run js ++ last) (rw (async_only, e) refl)

  module _ (a : Amx) (host : Host a) where
    route-with_callback :
        (mem : a.Memory) (job : QueryJob) (params : List ℤ)
        → route job ≡ async
        → route (with_callback a mem job params) ≡ async
    unfolding with_callback route
    route-with_callback mem job [] e = e
    route-with_callback mem job (p ∷ []) e = e
    route-with_callback mem job (p ∷ q ∷ ps) e = e

    handle-with_callback :
        (mem : a.Memory) (job : QueryJob) (params : List ℤ)
        → (with_callback a mem job params).connection_handle ≡ job.connection_handle
    unfolding with_callback
    handle-with_callback mem job [] = refl
    handle-with_callback mem job (p ∷ []) = refl
    handle-with_callback mem job (p ∷ q ∷ ps) = refl

    submit_admitted :
        (script : ℕ) (shown : Bytes) (job : QueryJob) (now : ℕ) (w : World a)
        → (enqueue_job w.component job now).1 ≡ none_rejected
        → submit a host script shown job now w
          ≡ (record w { component = (enqueue_job w.component job now).0 }, true)
    unfolding submit
    submit_admitted script shown job now w e = rw (submit, e) refl

    -- A query that the guards admit is delivered: once its worker has run the jobs that were queued
    -- before it, and then this one, the next tick makes the calls of the results that were waiting,
    -- those of the jobs that were queued before it, those of its own result, and those of the
    -- finished hash jobs, each once and in this order.
    pub mysql_execute-on_tick :
        (script handle : ℕ) (query : ℤ) (params : List ℤ) (now : ℕ) (w : World a)
        (worker : ConnectionWorker)
        → let sql = amx_string_param a none w.memory query in
          let job = with_callback a w.memory (query_job a host handle sql) params in
          lookup handle w.component.workers ≡ some worker
          → Admits w.component job worker now
          → let after = (mysql_execute a host script handle (query ∷ params) now w).0 in
            let worked = finish_jobs (suc (length worker.queue)) handle after.component in
            let earlier = w.component.completed ++ async_only route run worker.queue in
            (on_tick a host (record after { component = worked })).calls
            ≡ (w.calls ++ all_calls a host (earlier ++ run job ∷ [])) ++ all_hashes a host w.hashes
    unfolding mysql_execute route
    mysql_execute-on_tick script handle query params now w worker e admits =
        let sql = amx_string_param a none w.memory query in
        let job = with_callback a w.memory (query_job a host handle sql) params in
        let same : job.connection_handle ≡ handle = handle-with_callback w.memory _ params in
        let (reason, kept, last) = enqueue_job_is w.component job worker now (rw same e) admits in
        let c' = (enqueue_job w.component job now).0 in
        let size : suc (length worker.queue) ≡ length (worker.queue ++ job ∷ []) =
          length-snoc worker.queue job in
        let done : (finish_jobs (suc (length worker.queue)) handle c').completed
            ≡ (w.component.completed ++ async_only route run worker.queue) ++ run job ∷ [] =
          ap (λ n. (finish_jobs n handle c').completed) size
          ∙ finish_jobs-completed (worker.queue ++ job ∷ []) handle c'
              (record worker { queue = worker.queue ++ job ∷ [] })
              (subst
                (λ h.
                  lookup h c'.workers ≡ some (record worker { queue = worker.queue ++ job ∷ [] }))
                same last)
              refl
          ∙ ap₂ ◌++◌ kept (
              async_only-snoc worker.queue job
                (route-with_callback w.memory (query_job a host handle sql) params refl))
          ∙ sym (
              append_assoc w.component.completed (async_only route run worker.queue)
                (run job ∷ [])) in
        rw (mysql_execute, submit_admitted script sql job now w reason)
          (on_tick-calls a host _
            ∙ ap (λ js. (w.calls ++ all_calls a host js) ++ all_hashes a host w.hashes) done)
