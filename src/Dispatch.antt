-- ===== src/Dispatch.antt =====
-- The delivery of results on the main thread: `findScriptWithPublic`, `fireQueryExecuteHook`,
-- `applyModelResult`, `dispatchJob`, `dispatchHash` and `onTick` of src/MySQLComponent.cpp. Scripts
-- are named by their AMX pointers; what a script does when it is called is a parameter, and so are
-- the scripts that are loaded and the players that are connected.
mod Scripts
pub mod Write
pub mod Expected
pub mod Calls
pub mod Tick
mod Tests
unfoldable pub use Scripts.*
use omp_my_sql.Prelude.{
  ℕ, Bool, true, false, not, ◌&&◌, List, [], ◌∷◌, ◌++◌, reverse, Bytes, codes, is_empty, ltb, ◌==◌,
  Option, none, some, if◌then◌else◌,
}
use omp_my_sql.Prelude.Int.{ℤ, pos, negsuc}
use omp_my_sql.Amx.{Amx}
use omp_my_sql.Result.{QueryResult}
use omp_my_sql.Query.{CallbackArg, int_arg, float_arg, string_arg, QueryJob}
use omp_my_sql.Component.{Component}
use omp_my_sql.Component.Cache.{set_active_cache, clear_active_cache}
use omp_my_sql.Dispatch.Write.{apply_model_result}

module _ (a : Amx) (host : Host a) where
  -- The loop over the filterscripts.
  unfoldable pub find_side : Bytes → List (Option ℕ) → Option ℕ
  find_side name [] = none
  find_side name (none ∷ rest) = find_side name rest
  find_side name (some s ∷ rest) =
      let later = find_side name rest in if host.has_public s name then some s else later

  -- `findScriptWithPublic`
  unfoldable pub find_script : Bytes → Option ℕ
  unfolding find_side
  find_script name =
      let side = find_side name host.side_scripts in
      let found : Option ℕ = elim host.main_script [
        | none ↦ side
        | some s ↦ if host.has_public s name then some s else side
      ] in
      if host.has_pawn then found else none

  -- `amx_Exec`, recorded.
  unfoldable pub invoke : Invocation → World a → World a
  invoke call w =
      let (c, mem) = host.exec call (w.component, w.memory) in
      record w { component = c; memory = mem; calls = w.calls ++ call ∷ [] }

  abbrev pub hook_call : ℕ → QueryJob → QueryResult → Invocation
  hook_call script job result = record {
    script = script;
    name = codes "OnQueryExecute";
    stack =
        cell_of job.connection_handle
        ∷ cell_of result.exec_time_micros
        ∷ pushed_string job.sql
        ∷ [];
  }

  -- `fireQueryExecuteHook`
  unfoldable pub fire_query_execute_hook : QueryJob → QueryResult → World a → World a
  unfolding invoke
  fire_query_execute_hook job result w = elim (find_script (codes "OnQueryExecute")) [
    | none ↦ w
    | some s ↦ invoke (hook_call s job result) w
  ]

  -- Each of the three texts is pushed by `amx_PushString`, and again with the other arguments.
  abbrev pub error_call : ℕ → QueryJob → Invocation
  error_call script job = record {
    script = script;
    name = codes "OnQueryError";
    stack =
        cell_of job.error_code
        ∷ pushed_string job.error
        ∷ pushed_string job.callback
        ∷ pushed_string job.sql
        ∷ cell_of job.connection_handle
        ∷ pushed_string job.callback
        ∷ pushed_string job.error
        ∷ pushed_string job.sql
        ∷ [];
  }

  abbrev pub callback_call : ℕ → QueryJob → Invocation
  callback_call script job = record {
    script = script;
    name = job.callback;
    stack = push_all (reverse job.args) [];
  }

  -- The error branch of `dispatchJob`.
  unfoldable pub report_error : QueryJob → World a → World a
  unfolding invoke
  report_error job w = elim (find_script (codes "OnQueryError")) [
    | none ↦ w
    | some s ↦ invoke (error_call s job) w
  ]

  -- The end of `dispatchJob`: the result is the active cache while the callback runs.
  unfoldable pub run_callback : ℕ → QueryJob → World a → World a
  unfolding invoke set_active_cache clear_active_cache
  run_callback script job w =
      let ready : Component = elim job.result [
        | none ↦ w.component
        | some r ↦ set_active_cache w.component (some r) (pos 0)
      ] in
      let called = invoke (callback_call script job) (record w { component = ready }) in
      let finished = record called { component = clear_active_cache called.component } in
      if is_empty job.callback
      then w
      else if host.has_public script job.callback
      then finished
      else w

  -- The script that `dispatchJob` works with: the one that has the callback, or the gamemode.
  unfoldable pub target : QueryJob → Option ℕ
  unfolding find_script
  target job =
      let named = if is_empty job.callback then none else find_script job.callback in
      elim named [ none ↦ host.main_script | some s ↦ some s ]

  -- The player of a `pquery` has left.
  unfoldable pub is_gone : QueryJob → Bool
  is_gone job = elim job.bound_player [
    | pos p ↦ host.has_core && not (host.is_connected p)
    | negsuc n ↦ false
  ]

  unfoldable pub audit : QueryJob → World a → World a
  unfolding fire_query_execute_hook
  audit job w = elim job.result [
    | none ↦ w
    | some r ↦ if job.succeeded then fire_query_execute_hook job r w else w
  ]

  unfoldable pub write_back : QueryJob → World a → World a
  unfolding apply_model_result
  write_back job w =
      let (c, mem) = apply_model_result a job (w.component, w.memory) in
      if ltb 0 job.model_handle then record w { component = c; memory = mem } else w

  -- `dispatchJob`
  unfoldable pub dispatch_job : World a → QueryJob → World a
  unfolding target audit write_back is_gone report_error run_callback
  dispatch_job w job =
      let dispatched : World a = elim (target job) [
        | none ↦ w
        | some script ↦
            let w₁ = write_back job (audit job w) in
            if is_gone job
            then w₁
            else if not job.succeeded
            then report_error job w₁
            else run_callback script job w₁
      ] in
      if host.has_pawn then dispatched else w

  abbrev pub hash_call : ℕ → HashJob → Invocation
  hash_call script job = record {
    script = script;
    name = job.callback;
    stack = push_all (reverse job.args) (elim job.op [
      | hash ↦ pushed_string job.result ∷ []
      | verify ↦ pushed_cell (if job.verified then pos 1 else pos 0) ∷ []
    ]);
  }

  -- `dispatchHash`
  unfoldable pub dispatch_hash : World a → HashJob → World a
  unfolding find_script invoke
  dispatch_hash w job =
      let dispatched : World a = elim (find_script job.callback) [
        | none ↦ w
        | some s ↦ invoke (hash_call s job) w
      ] in
      if not host.has_pawn then w else if is_empty job.callback then w else dispatched

  unfoldable pub dispatch_jobs : World a → List QueryJob → World a
  unfolding dispatch_job
  dispatch_jobs w [] = w
  dispatch_jobs w (job ∷ jobs) = dispatch_jobs (dispatch_job w job) jobs

  unfoldable pub dispatch_hashes : World a → List HashJob → World a
  unfolding dispatch_hash
  dispatch_hashes w [] = w
  dispatch_hashes w (job ∷ jobs) = dispatch_hashes (dispatch_hash w job) jobs

  -- `onTick`, with `drainCompleted` and `drainHashes` of src/QueryQueue.cpp.
  unfoldable pub on_tick : World a → World a
  unfolding dispatch_jobs dispatch_hashes
  on_tick w =
      let drained = record w { component = record w.component { completed = [] } } in
      let w₁ = dispatch_jobs drained w.component.completed in
      dispatch_hashes (record w₁ { hashes = [] }) w₁.hashes
