-- ===== src/Dispatch/Tick.antt =====
-- The calls that `onTick` of src/MySQLComponent.cpp makes, and the active result behind a delivery.
use omp_my_sql.Prelude.{
  ℕ, Bool, true, false, List, [], ◌∷◌, ◌++◌, append_assoc, append-nil, is_empty, Option, none, some,
  if◌then◌else◌, ◌≡◌, refl, sym, ◌∙◌, ap, ap₂, arith,
}
use omp_my_sql.Amx.{Amx}
use omp_my_sql.Prelude.Int.{pos}
use omp_my_sql.Query.{QueryJob}
use omp_my_sql.Component.Cache.{clear_active_cache}
use omp_my_sql.Dispatch.{
  HashJob, pushed_cell, pushed_string, Invocation, Host, World, invoke, fire_query_execute_hook,
  report_error, run_callback, target, is_gone, audit, write_back, dispatch_job, dispatch_hash,
  dispatch_jobs, dispatch_hashes, on_tick,
}
use omp_my_sql.Dispatch.Expected.{expected_calls, expected_hash, find_script-owner}
use omp_my_sql.Dispatch.Calls.{push_all-reverse, dispatch_job-calls, settle}

module _ (a : Amx) (host : Host a) where
  abbrev pub all_calls : List QueryJob → List Invocation
  all_calls [] = []
  all_calls (job ∷ jobs) = expected_calls a host job ++ all_calls jobs

  abbrev pub all_hashes : List HashJob → List Invocation
  all_hashes [] = []
  all_hashes (job ∷ jobs) = expected_hash a host job ++ all_hashes jobs

  dispatch_jobs-calls :
      (w : World a) (jobs : List QueryJob)
      → (dispatch_jobs a host w jobs).calls ≡ w.calls ++ all_calls jobs
  unfolding dispatch_jobs
  dispatch_jobs-calls w [] = sym (append-nil w.calls)
  dispatch_jobs-calls w (job ∷ jobs) =
      dispatch_jobs-calls (dispatch_job a host w job) jobs
      ∙ ap (λ t. t ++ all_calls jobs) (dispatch_job-calls a host w job)
      ∙ append_assoc w.calls (expected_calls a host job) (all_calls jobs)

  dispatch_hash-calls :
      (w : World a) (job : HashJob)
      → (dispatch_hash a host w job).calls ≡ w.calls ++ expected_hash a host job
  unfolding dispatch_hash invoke
  dispatch_hash-calls w job = ground (
    arith,
    append-nil w.calls,
    find_script-owner a host job.callback,
    push_all-reverse job.args (pushed_string job.result ∷ []),
    push_all-reverse job.args (pushed_cell (if job.verified then pos 1 else pos 0) ∷ []),
  )

  dispatch_hashes-calls :
      (w : World a) (jobs : List HashJob)
      → (dispatch_hashes a host w jobs).calls ≡ w.calls ++ all_hashes jobs
  unfolding dispatch_hashes
  dispatch_hashes-calls w [] = sym (append-nil w.calls)
  dispatch_hashes-calls w (job ∷ jobs) =
      dispatch_hashes-calls (dispatch_hash a host w job) jobs
      ∙ ap (λ t. t ++ all_hashes jobs) (dispatch_hash-calls w job)
      ∙ append_assoc w.calls (expected_hash a host job) (all_hashes jobs)

  dispatch_job-hashes :
      (w : World a) (job : QueryJob) → (dispatch_job a host w job).hashes ≡ w.hashes
  unfolding dispatch_job write_back audit fire_query_execute_hook invoke report_error run_callback
  dispatch_job-hashes w job = ground arith

  dispatch_jobs-hashes :
      (w : World a) (jobs : List QueryJob) → (dispatch_jobs a host w jobs).hashes ≡ w.hashes
  unfolding dispatch_jobs
  dispatch_jobs-hashes w [] = refl
  dispatch_jobs-hashes w (job ∷ jobs) =
      dispatch_jobs-hashes (dispatch_job a host w job) jobs ∙ dispatch_job-hashes w job

  pub on_tick-calls :
      (w : World a)
      → (on_tick a host w).calls
        ≡ (w.calls ++ all_calls w.component.completed) ++ all_hashes w.hashes
  unfolding on_tick
  on_tick-calls w =
      let w₁ =
        dispatch_jobs a host (record w { component = record w.component { completed = [] } })
          w.component.completed in
      dispatch_hashes-calls (record w₁ { hashes = [] }) w₁.hashes
      ∙ ap₂ (λ s t. s ++ all_hashes t) (dispatch_jobs-calls _ w.component.completed)
          (dispatch_jobs-hashes _ w.component.completed)

  abbrev dispatched : Bool → Option ℕ → World a → QueryJob → World a
  dispatched pawn o w job =
      if pawn
      then elim o [
        | none ↦ w
        | some script ↦ settle a host script job (write_back a host job (audit a host job w))
      ]
      else w

  dispatch_job-dispatched :
      (w : World a) (job : QueryJob)
      → dispatch_job a host w job ≡ dispatched host.has_pawn (target a host job) w job
  unfolding dispatch_job
  dispatch_job-dispatched w job = refl

  settle-run_callback :
      (script : ℕ) (job : QueryJob) (w : World a)
      → is_gone a host job ≡ false
      → job.succeeded ≡ true
      → settle a host script job w ≡ run_callback a host script job w
  settle-run_callback script job w here good = rw (here, good) refl

  run_callback_clears :
      (script : ℕ) (job : QueryJob) (w : World a)
      → is_empty job.callback ≡ false
      → host.has_public script job.callback ≡ true
      → let c = (run_callback a host script job w).component in
        (c.active_cache ≡ none) × (c.active_result_index ≡ pos 0)
  unfolding run_callback clear_active_cache
  run_callback_clears script job w named found = ground arith

  -- When a callback has been called, no result is active.
  pub dispatch_job-active_cache :
      (w : World a) (job : QueryJob) (script : ℕ)
      → host.has_pawn ≡ true
      → target a host job ≡ some script
      → is_gone a host job ≡ false
      → job.succeeded ≡ true
      → is_empty job.callback ≡ false
      → host.has_public script job.callback ≡ true
      → let c = (dispatch_job a host w job).component in
        (c.active_cache ≡ none) × (c.active_result_index ≡ pos 0)
  dispatch_job-active_cache w job script pawn at here good named found =
      let w₁ = write_back a host job (audit a host job w) in
      let ran : dispatch_job a host w job ≡ run_callback a host script job w₁ =
        dispatch_job-dispatched w job
        ∙ ap₂ (λ p o. dispatched p o w job) pawn at
        ∙ settle-run_callback script job w₁ here good in
      let (cache, index) = run_callback_clears script job w₁ named found in
      (
        ap (λ (v : World a). v.component.active_cache) ran ∙ cache,
        ap (λ (v : World a). v.component.active_result_index) ran ∙ index,
      )
