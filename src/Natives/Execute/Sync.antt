-- ===== src/Natives/Execute/Sync.antt =====
-- The active and the retained result behind `RunSyncQuery` of src/natives.cpp.
use omp_my_sql.Prelude.{
  ℕ, Bool, true, false, not, Bytes, codes, is_empty, Option, none, some, if◌then◌else◌, ◌≡◌, refl,
  ◌∙◌, arith, Option-cases, inl, inr, ◌⊎◌, ltb, ==_refl,
}
use omp_my_sql.Prelude.Int.{pos}
use omp_my_sql.Prelude.Map.{lookup, lookup-emplace, lookup_fresh, KeysBelow}
use omp_my_sql.Amx.{Amx}
use omp_my_sql.Result.{QueryResult}
use omp_my_sql.Query.{QueryJob}
use omp_my_sql.Component.{Component, ConnectionWorker, check_guards, run_job_sync, stop_worker}
use omp_my_sql.Component.Registry.{get_model}
use omp_my_sql.Component.Guards.{Admits, Admits-check_guards}
use omp_my_sql.Component.Cache.{set_active_cache, save_active_cache, clear_active_cache}
use omp_my_sql.Dispatch.{
  Host, World, Invocation, invoke, audit, write_back, report_error, run_callback, target, is_gone,
  dispatch_job, fire_query_execute_hook, find_script, callback_call,
}
use omp_my_sql.Dispatch.Write.{apply_model_result}
use omp_my_sql.Natives.Execute.{run_sync_query, keep_result, query_job}

module _ (run : QueryJob → QueryJob) (c : Component) (job : QueryJob) (now : ℕ)
    (worker : ConnectionWorker) where
  -- The guards leave the result cache alone.
  check_guards_caches :
      ((check_guards c job worker now).0.next_cache ≡ c.next_cache)
      × ((check_guards c job worker now).0.saved_caches ≡ c.saved_caches)
  unfolding check_guards
  check_guards_caches = ground arith

  run_job_sync_admitted :
      lookup job.connection_handle c.workers ≡ some worker
      → Admits c job worker now
      → ((run_job_sync run c job now).2 ≡ some (run (record job { sync_signal = true })))
        × ((run_job_sync run c job now).0.next_cache ≡ c.next_cache)
        × ((run_job_sync run c job now).0.saved_caches ≡ c.saved_caches)
  unfolding run_job_sync stop_worker
  run_job_sync_admitted e admits =
      let q = Admits-check_guards c job worker now admits in
      let (next, saved) = check_guards_caches in
      (rw (run_job_sync, e, q) refl, rw (run_job_sync, e, q) next, rw (run_job_sync, e, q) saved)

-- The next handle of a saved result is free.
abbrev pub NextIsFree : Component → Type 0
NextIsFree c = KeysBelow c.next_cache c.saved_caches

module _ (a : Amx) (host : Host a)
    (keeps : (call : Invocation) (c : Component) (mem : a.Memory)
      → NextIsFree c
      → NextIsFree (host.exec call (c, mem)).0) where
  abbrev Free : World a → Type 0
  Free w = NextIsFree w.component

  if-Free : (b : Bool) (x y : World a) → Free x → Free y → Free (if b then x else y)
  if-Free true x y h g = h
  if-Free false x y h g = g

  option-Free :
      {A : Type 0} (o : Option A) (n : World a) (f : A → World a)
      → Free n
      → ((x : A) → Free (f x))
      → Free (elim o as (λ x. World a) [ none ↦ n | some x ↦ f x ])
  option-Free none n f h g = h
  option-Free (some x) n f h g = g x

  invoke-Free : (call : Invocation) (w : World a) → Free w → Free (invoke a host call w)
  unfolding invoke
  invoke-Free call w h = keeps call w.component w.memory h

  audit-Free : (job : QueryJob) (w : World a) → Free w → Free (audit a host job w)
  unfolding audit fire_query_execute_hook
  audit-Free job w h = option-Free job.result w _ h (λ r.
      if-Free job.succeeded _ w
        (option-Free (find_script a host (codes "OnQueryExecute")) w _ h (λ s. invoke-Free _ w h))
        h)

  write_back-Free : (job : QueryJob) (w : World a) → Free w → Free (write_back a host job w)
  unfolding write_back apply_model_result
  write_back-Free job w h =
      if-Free (ltb 0 job.model_handle) _ w
        (elim (Option-cases (get_model w.component job.model_handle)) [
          | inl e ↦ rw (apply_model_result, e) h
          | inr (m, e) ↦ rw (apply_model_result, e) h
        ])
        h

  report_error-Free : (job : QueryJob) (w : World a) → Free w → Free (report_error a host job w)
  unfolding report_error
  report_error-Free job w h =
      option-Free (find_script a host (codes "OnQueryError")) w _ h (λ s. invoke-Free _ w h)

  ready : QueryJob → Component → Component
  ready job c = elim job.result [ none ↦ c | some r ↦ set_active_cache c (some r) (pos 0) ]

  ready-Free : (job : QueryJob) (c : Component) → NextIsFree c → NextIsFree (ready job c)
  unfolding ready set_active_cache
  ready-Free job c h = elim (Option-cases job.result) [
    | inl e ↦ rw (ready, e) h
    | inr (r, e) ↦ rw (ready, e) h
  ]

  run_callback-Free :
      (script : ℕ) (job : QueryJob) (w : World a) → Free w → Free (run_callback a host script job w)
  unfolding run_callback clear_active_cache ready
  run_callback-Free script job w h =
      let prepared : World a = record w { component = ready job w.component } in
      if-Free (is_empty job.callback) w _ h (
        if-Free (host.has_public script job.callback) _ w
          (invoke-Free (callback_call a host script job) prepared (ready-Free job w.component h)) h)

  dispatch_job-Free : (job : QueryJob) (w : World a) → Free w → Free (dispatch_job a host w job)
  unfolding dispatch_job
  dispatch_job-Free job w h =
      if-Free host.has_pawn _ w
        (option-Free (target a host job) w _ h (λ script.
          let g = write_back-Free job _ (audit-Free job w h) in
          if-Free (is_gone a host job) _ _ g (
            if-Free (not job.succeeded) _ _ (report_error-Free job _ g)
              (run_callback-Free script job _ g))))
        h

  keep_result-active :
      (done : QueryJob) (r : QueryResult) (use_cache : Bool) (v : World a)
      → NextIsFree v.component
      → done.succeeded ≡ true
      → done.result ≡ some r
      → let (after, id) = keep_result a host done use_cache v in
        (after.component.active_cache ≡ some r)
        × (after.component.active_result_index ≡ pos 0)
        × ((use_cache ≡ true) × (lookup id after.component.saved_caches ≡ some r)
            ⊎ ((use_cache ≡ false) × (id ≡ 0)))
  unfolding keep_result save_active_cache set_active_cache
  keep_result-active done r true v free ok result =
      let n = v.component.next_cache in
      let m = v.component.saved_caches in
      let unused : lookup n m ≡ none = lookup_fresh n n m free (omega arith) in
      let saved = lookup-emplace n n r m unused ∙ rw (==_refl n) refl in
      rw (keep_result, result, ok) (refl, refl, inl (refl, saved))
  keep_result-active done r false v free ok result =
      rw (keep_result, result, ok) (refl, refl, inr (refl, refl))

  module _ (run : QueryJob → QueryJob) (handle : ℕ) (sql : Bytes) (use_cache : Bool) (now : ℕ)
      (w : World a) where
    abbrev pub sync_job : QueryJob
    sync_job = record (query_job a host handle sql) { use_cache = use_cache }

    abbrev finished : QueryJob
    finished = run (record sync_job { sync_signal = true })

    -- A query that the guards admit and that the worker runs to a result leaves that result active,
    -- at its first set; if the script asked to keep it, the handle that it gets stands for it,
    -- and if not, it gets 0; whatever the scripts called in between do, if they leave the next handle
    -- of a result free.
    pub run_sync_query-active :
        (worker : ConnectionWorker) (r : QueryResult)
        → NextIsFree w.component
        → lookup handle w.component.workers ≡ some worker
        → Admits w.component sync_job worker now
        → (run (record sync_job { sync_signal = true })).succeeded ≡ true
        → (run (record sync_job { sync_signal = true })).result ≡ some r
        → let (after, id) = run_sync_query a host run handle sql use_cache now w in
          (after.component.active_cache ≡ some r)
          × (after.component.active_result_index ≡ pos 0)
          × ((use_cache ≡ true) × (lookup id after.component.saved_caches ≡ some r)
              ⊎ ((use_cache ≡ false) × (id ≡ 0)))
    unfolding run_sync_query keep_result
    run_sync_query-active worker r free e admits ok result =
        let (came, next, saved) =
          run_job_sync_admitted run w.component sync_job now worker e admits in
        let prepared : World a = record w {
          component = (run_job_sync run w.component sync_job now).0;
        } in
        let free' = dispatch_job-Free finished prepared (rw (next, saved) free) in
        let kept =
          keep_result-active finished r use_cache (dispatch_job a host prepared finished) free' ok
            result in
        rw (run_sync_query, came) kept
