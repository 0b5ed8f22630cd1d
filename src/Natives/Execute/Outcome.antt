-- ===== src/Natives/Execute/Outcome.antt =====
-- What `mysql_execute`, `mysql_execute_for` and the natives that share their end lead to
-- (src/natives.cpp): a queued query, the report of a refusal, or nothing.
use omp_my_sql.Prelude.{
  ℕ, Bool, true, false, List, [], ◌∷◌, ◌++◌, Bytes, codes, none, some, if◌then◌else◌, ◌≡◌, ◌≢◌,
  refl, sym, ◌∙◌, ap, arith, Option-cases, inl, inr, append-nil, ==_refl,
}
use omp_my_sql.Prelude.Map.{lookup}
use omp_my_sql.Amx.{Amx}
use omp_my_sql.Query.{QueryJob}
use omp_my_sql.Component.{
  Component, ConnectionWorker, GuardReject, none_rejected, unknown_handle, too_long, rate_limited,
  too_many_pending, multi_statement, check_guards, enqueue_job,
}
use omp_my_sql.Component.Guards.{
  Admits, check_guards-Admits, Admits-check_guards, enqueue_job-workers,
}
use omp_my_sql.Dispatch.{Host, World, Invocation, invoke}
use omp_my_sql.Dispatch.Expected.{on_query_error}
use omp_my_sql.Natives.Execute.Refusal.{
  Refusal, check_guards-Refusal, check_guards-ne-unknown_handle,
}
use omp_my_sql.Natives.Execute.{guard_reject_text, report_guard_reject, submit}

module _ (a : Amx) (host : Host a) where
  -- The call of `OnQueryError`, if the calling script has it: error 0, the text of the refusal, the
  -- callback and the query, and the connection.
  abbrev pub error_calls : ℕ → Bytes → QueryJob → Bytes → List Invocation
  error_calls script shown job text =
      if host.has_public script (codes "OnQueryError")
      then on_query_error a host script 0 text job.callback shown job.connection_handle ∷ []
      else []

  -- From a world to the next, with the answer of the native.
  pub data Outcome (script : ℕ) (shown : Bytes) (job : QueryJob) (now : ℕ) (w : World a)
      (after : World a) (ok : Bool) : Type 0 where
    queued :
        (worker : ConnectionWorker)
        → lookup job.connection_handle w.component.workers ≡ some worker
        → Admits w.component job worker now
        → ok ≡ true
        → lookup job.connection_handle after.component.workers
          ≡ some (record worker { queue = worker.queue ++ job ∷ [] })
        → after.calls ≡ w.calls
        → Outcome script shown job now w after ok
    refused :
        (worker : ConnectionWorker) (text : Bytes)
        → lookup job.connection_handle w.component.workers ≡ some worker
        → ¬ Admits w.component job worker now
        → Refusal w.component job worker now text
        → ok ≡ false
        → after.calls ≡ w.calls ++ error_calls script shown job text
        → Outcome script shown job now w after ok
    no_connection :
        lookup job.connection_handle w.component.workers ≡ none
        → ok ≡ false
        → after ≡ w
        → Outcome script shown job now w after ok

  invoked_calls :
      (b : Bool) (call : Invocation) (w : World a)
      → (if b then invoke a host call w else w).calls ≡ w.calls ++ (if b then call ∷ [] else [])
  unfolding invoke
  invoked_calls true call w = refl
  invoked_calls false call w = sym (append-nil w.calls)

  module _ (script : ℕ) (shown : Bytes) (job : QueryJob) (now : ℕ) (w : World a) where
    abbrev after_submit : World a × Bool
    after_submit = submit a host script shown job now w

    abbrev w' : World a
    w' = record w { component = (enqueue_job w.component job now).0 }

    enqueue_reason :
        (worker : ConnectionWorker)
        → lookup job.connection_handle w.component.workers ≡ some worker
        → (enqueue_job w.component job now).1 ≡ (check_guards w.component job worker now).1
    unfolding enqueue_job
    enqueue_reason worker e = ground arith

    enqueue_stored :
        (worker : ConnectionWorker)
        → lookup job.connection_handle w.component.workers ≡ some worker
        → (enqueue_job w.component job now).1 ≡ none_rejected
        → lookup job.connection_handle (enqueue_job w.component job now).0.workers
          ≡ some (record worker { queue = worker.queue ++ job ∷ [] })
    enqueue_stored worker e q =
        enqueue_job-workers w.component job now job.connection_handle
        ∙ rw (q, e, ==_refl job.connection_handle) refl

    reported : GuardReject → World a
    reported reason =
        report_guard_reject a host script job.connection_handle shown job.callback reason w'

    -- The report of a refusal, in the component that it left.
    abbrev silent : Component × GuardReject → World a
    silent p =
        report_guard_reject a host script job.connection_handle shown job.callback p.1
          (record w { component = p.0 })

    refused_by :
        (worker : ConnectionWorker) (reason : GuardReject)
        → lookup job.connection_handle w.component.workers ≡ some worker
        → (check_guards w.component job worker now).1 ≡ reason
        → reason ≢ none_rejected
        → after_submit ≡ (reported reason, false)
        → (reported reason).calls
          ≡ w.calls ++ error_calls script shown job (guard_reject_text reason)
        → Outcome script shown job now w after_submit.0 after_submit.1
    refused_by worker reason e q h is calls =
        refused worker (guard_reject_text reason) e
          (λ admits. h (sym q ∙ Admits-check_guards w.component job worker now admits))
          (check_guards-Refusal w.component job worker now reason q h) (ap (λ r. r.1) is)
          (ap (λ r. r.0.calls) is ∙ calls)

    submit_by_reason :
        (worker : ConnectionWorker) (reason : GuardReject)
        → lookup job.connection_handle w.component.workers ≡ some worker
        → (enqueue_job w.component job now).1 ≡ reason
        → (check_guards w.component job worker now).1 ≡ reason
        → Outcome script shown job now w after_submit.0 after_submit.1
    unfolding submit report_guard_reject reported
    submit_by_reason worker unknown_handle e r q =
        absurd (check_guards-ne-unknown_handle w.component job worker now q)
    submit_by_reason worker none_rejected e r q =
        queued worker e (check_guards-Admits w.component job worker now q) (rw (submit, r) refl)
          (rw (submit, r) (enqueue_stored worker e r)) (rw (submit, r) refl)
    submit_by_reason worker too_long e r q =
        refused_by worker too_long e q (λ x. cc) (rw (submit, r) (ap (λ x. (reported x, false)) r))
          (invoked_calls _ _ w')
    submit_by_reason worker rate_limited e r q =
        refused_by worker rate_limited e q (λ x. cc)
          (rw (submit, r) (ap (λ x. (reported x, false)) r)) (invoked_calls _ _ w')
    submit_by_reason worker too_many_pending e r q =
        refused_by worker too_many_pending e q (λ x. cc)
          (rw (submit, r) (ap (λ x. (reported x, false)) r)) (invoked_calls _ _ w')
    submit_by_reason worker multi_statement e r q =
        refused_by worker multi_statement e q (λ x. cc)
          (rw (submit, r) (ap (λ x. (reported x, false)) r)) (invoked_calls _ _ w')

    enqueue_unknown :
        lookup job.connection_handle w.component.workers ≡ none
        → enqueue_job w.component job now ≡ (w.component, unknown_handle)
    unfolding enqueue_job
    enqueue_unknown e = rw (enqueue_job, e) refl

    pub submit-Outcome : Outcome script shown job now w after_submit.0 after_submit.1
    unfolding submit report_guard_reject
    submit-Outcome = elim (Option-cases (lookup job.connection_handle w.component.workers)) [
      | inl e ↦ no_connection e (rw (submit, enqueue_unknown e) refl) (
          rw (submit, enqueue_unknown e)
            (ap (λ (p : Component × GuardReject). silent p) (enqueue_unknown e)))
      | inr (worker, e) ↦
          let r = enqueue_reason worker e in
          submit_by_reason worker (check_guards w.component job worker now).1 e r refl
    ]
