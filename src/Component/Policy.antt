-- ===== src/Component/Policy.antt =====
-- Histories of the component of src/MySQLComponent.cpp, and the policy on stacked statements.
pub mod Moves
pub mod Steps
pub mod Histories
use omp_my_sql.Prelude.{
  ℕ, suc, ◌+◌, ◌≤◌, ◌<◌, Bool, true, false, List, [], ◌∷◌, ◌++◌, All, All-append, ◌≡◌, ◌≢◌, refl,
  sym, ◌∙◌, arith, ap, ◌==◌, if◌then◌else◌, Option, none, some, Option-cases, inl, inr, Bool-cases,
  ==_iff, subst,
}
use omp_my_sql.Prelude.Int.{ℤ}
use omp_my_sql.Prelude.Map.{
  Map, lookup, put, emplace, erase, lookup-put, lookup-emplace, lookup-erase, KeysBelow,
  lookup_below, KeysBelow-mono, lookup_fresh, emplace-KeysBelow, put-KeysBelow, erase-KeysBelow,
}
use omp_my_sql.Sql.{is_multi_statement}
use omp_my_sql.Statement.{PreparedStatement}
use omp_my_sql.Query.{QueryJob, route}
use omp_my_sql.Worker.Order.{async_only}
use omp_my_sql.Component.{
  Component, ConnectionWorker, new_component, GuardReject, none_rejected, add_connection,
  remove_connection, multi_statements_allowed, is_plain_query, check_guards, enqueue_job,
  run_job_sync, set_limit,
}
use omp_my_sql.Component.Registry.{
  add_statement, remove_statement, clear_statements, remove_statements, hand_over, reset,
  teardown_job,
}

pub data Call : Type 0 where
  connects : ℕ → Bool → Call
  closes : ℕ → Call
  enqueues : QueryJob → ℕ → Call
  syncs : QueryJob → ℕ → Call
  limits : ℕ → ℕ → ℤ → Call
  prepares : PreparedStatement → Call
  frees : ℕ → Call
  works : ℕ → Call  -- the worker of a handle finishes its oldest job
  resets : Call

module _ (run : QueryJob → QueryJob) where
  -- A worker finishes its oldest job.
  unfoldable pub finish_job : Component → ℕ → Component
  finish_job c handle = elim (lookup handle c.workers) [
    | none ↦ c
    | some w ↦ elim w.queue [
      | [] ↦ c
      | job ∷ rest ↦ record c {
        workers = put handle (record w { queue = rest }) c.workers;
        completed = c.completed ++ async_only route run (job ∷ []);
      }
    ]
  ]

  unfoldable pub perform : Component → Call → Component
  perform c (connects conn multi) = (add_connection c (some conn) multi).0
  perform c (closes handle) = (remove_connection run c handle).0
  perform c (enqueues job now) = (enqueue_job c job now).0
  perform c (syncs job now) = (run_job_sync run c job now).0
  perform c (limits handle type value) = (set_limit c handle type value).0
  perform c (prepares s) = (add_statement c (some s)).0
  perform c (frees handle) = (remove_statement c handle).0
  perform c (works handle) = finish_job c handle
  perform c resets = reset run c

  unfoldable pub perform_all : Component → List Call → Component
  perform_all c [] = c
  perform_all c (call ∷ calls) = perform_all (perform c call) calls

-- A plain query that passes the test for stacked statements, or a job that executes or closes a
-- prepared statement.
abbrev pub IsSingle : QueryJob → Type 0
IsSingle job = is_plain_query job ≡ true → is_multi_statement job.sql ≡ false

abbrev pub is_allowed : Map Bool → ℕ → Bool
is_allowed allowed handle = elim (lookup handle allowed) [ none ↦ false | some multi ↦ multi ]

abbrev pub has : {V : Type 0} → ℕ → Map V → Bool
has handle m = elim (lookup handle m) [ none ↦ false | some v ↦ true ]

-- Only a connection that negotiated multi-statements has stacked statements in its queue.
-- Connections and workers go together.
pub record IsConsistent (n : ℕ) (connections : Map ℕ) (workers : Map ConnectionWorker)
    (allowed : Map Bool) : Type 0 where
  pub below : KeysBelow n workers
  pub connections_below : KeysBelow n connections
  pub paired : (handle : ℕ) → has handle workers ≡ has handle connections
  pub single :
      (handle : ℕ) (w : ConnectionWorker)
      → lookup handle workers ≡ some w
      → is_allowed allowed handle ≡ false
      → All IsSingle w.queue
