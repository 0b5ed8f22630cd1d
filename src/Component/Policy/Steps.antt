-- ===== src/Component/Policy/Steps.antt =====
-- Each operation of the component of src/MySQLComponent.cpp and the policy on stacked statements.
use omp_my_sql.Prelude.{
  List-cases, ℕ, Bool, true, false, List, [], ◌∷◌, All, All-append, ◌≡◌, refl, sym, arith, ◌==◌,
  Option, none, some, Option-cases, inl, inr, Bool-cases, subst,
}
use omp_my_sql.Prelude.Int.{ℤ}
use omp_my_sql.Prelude.Map.{lookup, put}
use omp_my_sql.Sql.{is_multi_statement}
use omp_my_sql.Statement.{PreparedStatement}
use omp_my_sql.Query.{QueryJob}
use omp_my_sql.Component.{
  Component, ConnectionWorker, GuardReject, none_rejected, add_connection, remove_connection,
  multi_statements_allowed, check_guards, enqueue_job, run_job_sync, set_limit,
}
use omp_my_sql.Component.Registry.{hand_over, teardown_job}
use omp_my_sql.Component.Policy.{finish_job, IsSingle, is_allowed, IsConsistent}
use omp_my_sql.Component.{
  connection_handle_of, unknown_handle, too_long, rate_limited, too_many_pending, multi_statement,
  stop_worker, ConnectionWorker, enqueue, none_rejected,
}
use omp_my_sql.Component.Guards.{check_guards-Admits, check_guards_frame}
use omp_my_sql.Component.Policy.Moves.{
  IsConsistent-put, IsConsistent-erase, IsConsistent-erase_absent, IsConsistent-add,
}

abbrev pub IsKept : Component → Type 0
IsKept c = IsConsistent c.next_handle c.connections c.workers c.multi_statement_allowed

enqueue-IsKept :
    (c : Component) (h : ℕ) (w : ConnectionWorker) (job : QueryJob)
    → IsKept c
    → lookup h c.workers ≡ some w
    → (is_allowed c.multi_statement_allowed h ≡ false → IsSingle job)
    → IsKept (enqueue c h w job)
unfolding enqueue
enqueue-IsKept c h w job p e q =
    IsConsistent-put c.next_handle c.connections c.workers c.multi_statement_allowed h w _ p e
      (λ off. All-append IsSingle w.queue (job ∷ []) (p.single h w e off) (q off, tt))

-- Two components with the same workers, the same flags and the same counter of handles.
abbrev pub IsSame : Component → Component → Type 0
IsSame c c' =
    (c'.workers ≡ c.workers)
    × (c'.multi_statement_allowed ≡ c.multi_statement_allowed)
    × (c'.next_handle ≡ c.next_handle)
    × (c'.connections ≡ c.connections)

pub IsKept-same : (c c' : Component) → IsSame c c' → IsKept c → IsKept c'
IsKept-same c c' (e, f, g, k) p = rw (e, f, g, k) p

module _ (run : QueryJob → QueryJob) (c : Component) where
  finish-IsKept :
      (h : ℕ) (w : ConnectionWorker) (job : QueryJob) (rest : List QueryJob)
      → IsKept c
      → lookup h c.workers ≡ some w
      → w.queue ≡ job ∷ rest
      → IsKept (record c { workers = put h (record w { queue = rest }) c.workers })
  finish-IsKept h w job rest p e q =
      IsConsistent-put c.next_handle c.connections c.workers c.multi_statement_allowed h w _ p e
        (λ off. (subst (All IsSingle) q (p.single h w e off)).1)

  pub finish_job-IsKept : (h : ℕ) → IsKept c → IsKept (finish_job run c h)
  unfolding finish_job
  finish_job-IsKept h p = elim (Option-cases (lookup h c.workers)) [
    | inl e ↦ rw (finish_job, e) p
    | inr (w, e) ↦ elim (List-cases w.queue) [
      | inl q ↦ rw (finish_job, e, q) p
      | inr (job, rest, q) ↦ rw (finish_job, e, q) (finish-IsKept h w job rest p e q)
    ]
  ]

  pub remove_connection-IsKept : (h : ℕ) → IsKept c → IsKept (remove_connection run c h).0
  unfolding remove_connection stop_worker
  remove_connection-IsKept h p = elim (Option-cases (lookup h c.workers)) [
    | inl e ↦
        rw (remove_connection, e)
          (IsConsistent-erase_absent c.next_handle c.connections c.workers c.multi_statement_allowed
            h p e)
    | inr (w, e) ↦
        rw (remove_connection, e)
          (IsConsistent-erase c.next_handle c.connections c.workers c.multi_statement_allowed h p)
  ]

  admitted-IsSingle :
      (job : QueryJob) (w : ConnectionWorker) (now : ℕ)
      → (check_guards c job w now).1 ≡ none_rejected
      → is_allowed c.multi_statement_allowed job.connection_handle ≡ false
      → IsSingle job
  unfolding multi_statements_allowed
  admitted-IsSingle job w now a off plain =
      let s = (check_guards-Admits c job w now a).single plain in ground arith

  guards-IsKept :
      (job : QueryJob) (w : ConnectionWorker) (now : ℕ)
      → IsKept c
      → IsKept (check_guards c job w now).0
  guards-IsKept job w now p =
      IsKept-same c (check_guards c job w now).0 (check_guards_frame c job w now) p

  -- What the two callers of `checkGuards` do with its answer.
  enqueue-Admitted :
      (c' : Component) (r : GuardReject) (job : QueryJob) (w : ConnectionWorker)
      → IsKept c'
      → lookup job.connection_handle c'.workers ≡ some w
      → (r ≡ none_rejected
          → is_allowed c'.multi_statement_allowed job.connection_handle ≡ false
          → IsSingle job)
      → IsKept
          (elim r as (λ x. Component × GuardReject) [
            | none_rejected ↦ (enqueue c' job.connection_handle w job, none_rejected)
            | other ↦ (c', other)
          ]).0
  enqueue-Admitted c' none_rejected job w p e q =
      enqueue-IsKept c' job.connection_handle w job p e (q refl)
  enqueue-Admitted c' unknown_handle job w p e q = p
  enqueue-Admitted c' too_long job w p e q = p
  enqueue-Admitted c' rate_limited job w p e q = p
  enqueue-Admitted c' too_many_pending job w p e q = p
  enqueue-Admitted c' multi_statement job w p e q = p

  pub enqueue_job-IsKept : (job : QueryJob) (now : ℕ) → IsKept c → IsKept (enqueue_job c job now).0
  unfolding enqueue_job
  enqueue_job-IsKept job now p = elim (Option-cases (lookup job.connection_handle c.workers)) [
    | inl e ↦ rw (enqueue_job, e) p
    | inr (w, e) ↦
        let (c', r) = check_guards c job w now in
        let f = check_guards_frame c job w now in
        rw (enqueue_job, e)
          (enqueue-Admitted c' r job w (guards-IsKept job w now p) (rw f.0 e)
            (λ a off. admitted-IsSingle job w now a (rw (sym f.1) off)))
  ]

  sync-Admitted :
      (c' : Component) (r : GuardReject) (job : QueryJob) (w : ConnectionWorker)
      → IsKept c'
      → lookup job.connection_handle c'.workers ≡ some w
      → IsKept
          (elim r as (λ x. Component × GuardReject × Option QueryJob) [
            | none_rejected ↦ (
              record (stop_worker run w c') {
                workers = put job.connection_handle (record w { queue = [] }) c'.workers;
              },
              none_rejected,
              some (run (record job { sync_signal = true })),
            )
            | other ↦ (c', other, none)
          ]).0
  unfolding stop_worker
  sync-Admitted c' none_rejected job w p e =
      IsConsistent-put c'.next_handle c'.connections c'.workers c'.multi_statement_allowed
        job.connection_handle w _ p e (λ off. tt)
  sync-Admitted c' unknown_handle job w p e = p
  sync-Admitted c' too_long job w p e = p
  sync-Admitted c' rate_limited job w p e = p
  sync-Admitted c' too_many_pending job w p e = p
  sync-Admitted c' multi_statement job w p e = p

  pub run_job_sync-IsKept :
      (job : QueryJob) (now : ℕ) → IsKept c → IsKept (run_job_sync run c job now).0
  unfolding run_job_sync
  run_job_sync-IsKept job now p = elim (Option-cases (lookup job.connection_handle c.workers)) [
    | inl e ↦ rw (run_job_sync, e) p
    | inr (w, e) ↦
        let (c', r) = check_guards c job w now in
        rw (run_job_sync, e)
          (sync-Admitted c' r job w (guards-IsKept job w now p)
            (rw (check_guards_frame c job w now).0 e))
  ]

  pub add_connection-IsKept :
      (conn : ℕ) (multi : Bool) → IsKept c → IsKept (add_connection c (some conn) multi).0
  unfolding add_connection
  add_connection-IsKept conn multi p =
      IsConsistent-add c.next_handle c.connections c.workers c.multi_statement_allowed conn multi p

  pub set_limit-IsSame : (h type : ℕ) (value : ℤ) → IsSame c (set_limit c h type value).0
  unfolding set_limit
  set_limit-IsSame h type value = ground arith

  pub hand_over-IsKept : (s : PreparedStatement) → IsKept c → IsKept (hand_over c s)
  unfolding hand_over is_multi_statement
  hand_over-IsKept s p = elim (Bool-cases (connection_handle_of c s.conn == 0)) [
    | inl z ↦ rw (hand_over, z) p
    | inr z ↦ elim (Option-cases (lookup (connection_handle_of c s.conn) c.workers)) [
      | inl e ↦ rw (hand_over, z, e) p
      | inr (w, e) ↦
          rw (hand_over, z, e)
            (enqueue-IsKept c (connection_handle_of c s.conn) w
              (teardown_job (connection_handle_of c s.conn) s) p e (λ off plain. refl))
    ]
  ]
