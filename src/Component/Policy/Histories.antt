-- ===== src/Component/Policy/Histories.antt =====
-- The policy on stacked statements and the registries of src/MySQLComponent.cpp, over histories of
-- calls.
use omp_my_sql.Prelude.{
  ℕ, false, List, [], ◌∷◌, All, ◌≡◌, refl, sym, ◌∙◌, some, none, Option-cases, arith, inl, inr,
}
use omp_my_sql.Prelude.Map.{Map, lookup, erase, lookup_fresh}
use omp_my_sql.Query.{QueryJob}
use omp_my_sql.Sql.Code.{code, has_second, is_multi_statement-has_second}
use omp_my_sql.Component.{
  Component, ConnectionWorker, new_component, multi_statements_allowed, set_limit,
}
use omp_my_sql.Component.Registry.{add_statement, remove_statement, reset}
use omp_my_sql.Component.Policy.{
  Call, connects, closes, enqueues, syncs, limits, prepares, frees, works, resets, perform,
  perform_all, IsSingle, has,
}
use omp_my_sql.Component.{clear_connections, enqueue_job, unknown_handle}
use omp_my_sql.Component.Policy.Steps.{
  IsKept, IsKept-same, finish_job-IsKept, remove_connection-IsKept, enqueue_job-IsKept,
  run_job_sync-IsKept, add_connection-IsKept, set_limit-IsSame, hand_over-IsKept,
}
use omp_my_sql.Component.Policy.Moves.{IsConsistent-empty}

module _ (run : QueryJob → QueryJob) where
  remove_statement-IsKept : (c : Component) (h : ℕ) → IsKept c → IsKept (remove_statement c h).0
  unfolding remove_statement
  remove_statement-IsKept c h p = elim (Option-cases (lookup h c.statements)) [
    | inl e ↦ rw (remove_statement, e) p
    | inr (s, e) ↦
        rw (remove_statement, e)
          (hand_over-IsKept run (record c { statements = erase h c.statements }) s p)
  ]

  reset-IsKept : (c : Component) → IsKept (reset run c)
  unfolding reset clear_connections
  reset-IsKept c = IsConsistent-empty 1 []

  perform-IsKept : (c : Component) (call : Call) → IsKept c → IsKept (perform run c call)
  unfolding perform add_statement
  perform-IsKept c (connects conn multi) p = add_connection-IsKept run c conn multi p
  perform-IsKept c (closes h) p = remove_connection-IsKept run c h p
  perform-IsKept c (enqueues job now) p = enqueue_job-IsKept run c job now p
  perform-IsKept c (syncs job now) p = run_job_sync-IsKept run c job now p
  perform-IsKept c (limits h type value) p =
      IsKept-same c (set_limit c h type value).0 (set_limit-IsSame run c h type value) p
  perform-IsKept c (prepares s) p =
      IsKept-same c (add_statement c (some s)).0 (refl, refl, refl, refl) p
  perform-IsKept c (frees h) p = remove_statement-IsKept c h p
  perform-IsKept c (works h) p = finish_job-IsKept run c h p
  perform-IsKept c resets p = reset-IsKept c

  perform_all-IsKept :
      (c : Component) (calls : List Call) → IsKept c → IsKept (perform_all run c calls)
  unfolding perform_all
  perform_all-IsKept c [] p = p
  perform_all-IsKept c (call ∷ calls) p =
      perform_all-IsKept (perform run c call) calls (perform-IsKept c call p)

-- The query of a job that executes no prepared statement has no separator, outside quotes and
-- comments, with code behind it that stands outside quotes and comments.
abbrev pub IsUnstacked : QueryJob → Type 0
IsUnstacked job = job.statement ≡ none → has_second (code job.sql) ≡ false

IsSingle-IsUnstacked : (job : QueryJob) → IsSingle job → IsUnstacked job
IsSingle-IsUnstacked job single plain =
    sym (is_multi_statement-has_second job.sql) ∙ single (rw plain refl)

All-IsUnstacked : (jobs : List QueryJob) → All IsSingle jobs → All IsUnstacked jobs
All-IsUnstacked [] all = tt
All-IsUnstacked (job ∷ jobs) all = (IsSingle-IsUnstacked job all.0, All-IsUnstacked jobs all.1)

-- After any history of calls and of worker steps that starts with an empty component, no query that
-- is queued on a connection that did not negotiate multi-statements, other than the text of a
-- prepared statement, has code behind a separator, by a reading of the query that is independent of
-- the guard: code is what stands outside quotes and comments, so a second statement that consists
-- of a literal or of an executable comment alone is not excluded.
pub queued-IsUnstacked :
    (run : QueryJob → QueryJob) (calls : List Call) (handle : ℕ) (w : ConnectionWorker)
    → let c = perform_all run new_component calls in
      lookup handle c.workers ≡ some w
      → multi_statements_allowed c handle ≡ false
      → All IsUnstacked w.queue
unfolding multi_statements_allowed
queued-IsUnstacked run calls handle w e off =
    All-IsUnstacked w.queue
      ((perform_all-IsKept run new_component calls (IsConsistent-empty 1 [])).single handle w e off)

absent_lookup : (h : ℕ) (m : Map ℕ) → lookup h m ≡ none → has h m ≡ false
absent_lookup h m e = ground (arith, e)

-- After any history of calls and of worker steps that starts with an empty component, a handle has
-- a connection if and only if it has a worker. A handle without a connection is refused as unknown,
-- and the next connection gets a handle that has neither.
pub handles-IsConsistent :
    (run : QueryJob → QueryJob) (calls : List Call) (handle now : ℕ) (job : QueryJob)
    → let c = perform_all run new_component calls in
      (has handle c.workers ≡ has handle c.connections)
      × (has job.connection_handle c.connections ≡ false
          → enqueue_job c job now ≡ (c, unknown_handle))
      × (has c.next_handle c.connections ≡ false)
unfolding enqueue_job
handles-IsConsistent run calls handle now job =
    let c = perform_all run new_component calls in
    let p = perform_all-IsKept run new_component calls (IsConsistent-empty 1 []) in
    (
      p.paired handle,
      λ absent. ground (arith, p.paired job.connection_handle, absent),
      absent_lookup c.next_handle c.connections (
          lookup_fresh c.next_handle c.next_handle c.connections p.connections_below (omega arith)),
    )
