-- ===== src/Natives/Execute.antt =====
-- The natives of src/natives.cpp that run a query: `mysql_execute`, `mysql_execute_for`,
-- `mysql_execute_file` and the two synchronous ones, with `ReadSqlFile`, `RunSyncQuery` and the
-- reports of a refused query. The contents of files, and what the worker does with a job, are
-- parameters; `now` is the steady clock.
pub mod Refusal
pub mod Outcome
pub mod Delivery
pub mod Sync
mod Tests
use omp_my_sql.Prelude.{
  ℕ, Bool, true, false, not, ◌&&◌, ◌||◌, List, [], ◌∷◌, Bytes, codes, ◌==◌, Option, none, some,
  if◌then◌else◌,
}
use omp_my_sql.Prelude.Int.{ℤ, pos}
use omp_my_sql.Amx.{Amx}
use omp_my_sql.Query.{CallbackArg, int_arg, float_arg, string_arg, QueryJob, new_job}
use omp_my_sql.Component.{
  Component, GuardReject, none_rejected, unknown_handle, too_long, rate_limited, too_many_pending,
  multi_statement, enqueue_job, run_job_sync,
}
use omp_my_sql.Component.Cache.{set_active_cache, save_active_cache}
use omp_my_sql.Dispatch.{Host, World, invoke, error_call, dispatch_job}
use omp_my_sql.Natives.Format.{amx_string_param}
use omp_my_sql.Natives.Models.{with_callback}

-- `GuardRejectText`
unfoldable pub guard_reject_text : GuardReject → Bytes
guard_reject_text unknown_handle = codes "invalid connection handle"
guard_reject_text too_long = codes "query exceeds the configured length limit"
guard_reject_text rate_limited = codes "query rate limit exceeded"
guard_reject_text too_many_pending = codes "too many pending queries"
guard_reject_text multi_statement =
    codes "multiple statements rejected (CLIENT_MULTI_STATEMENTS not enabled)"
guard_reject_text none_rejected = codes "query rejected"

-- The failed job that a refusal is reported as.
abbrev pub rejected_job : ℕ → Bytes → Bytes → GuardReject → QueryJob
rejected_job handle sql callback reason = record new_job {
  connection_handle = handle;
  sql = sql;
  callback = callback;
  error = guard_reject_text reason;
}

-- A byte order mark at the start is erased.
unfoldable pub strip_bom : Bytes → Bytes
strip_bom (a ∷ b ∷ c ∷ rest) =
    if a == 0xEF && b == 0xBB && c == 0xBF then rest else a ∷ b ∷ c ∷ rest
strip_bom short = short

-- Nothing but spaces, tabs and line ends.
unfoldable pub is_blank_text : Bytes → Bool
is_blank_text [] = true
is_blank_text (c ∷ rest) =
    (c == b' ' || c == b'\t' || c == b'\r' || c == b'\n') && is_blank_text rest

-- `ReadSqlFile`, from the content of a file that can be opened.
unfoldable pub read_sql_file : Option Bytes → Option Bytes
unfolding strip_bom is_blank_text
read_sql_file none = none
read_sql_file (some content) =
    let sql = strip_bom content in if is_blank_text sql then none else some sql

-- The loop of `mysql_execute_for`: the first integer is the player.
unfoldable pub bind_player : List CallbackArg → QueryJob → QueryJob
bind_player [] job = job
bind_player (int_arg v ∷ rest) job = record job { bound_player = v }
bind_player (float_arg v ∷ rest) job = bind_player rest job
bind_player (string_arg s ∷ rest) job = bind_player rest job

module _ (a : Amx) (host : Host a) where
  -- `ReportGuardReject`, to the script that called.
  unfoldable pub report_guard_reject : ℕ → ℕ → Bytes → Bytes → GuardReject → World a → World a
  unfolding invoke
  report_guard_reject script handle sql callback reason w =
      let reported : World a =
        if host.has_public script (codes "OnQueryError")
        then invoke a host (error_call a host script (rejected_job handle sql callback reason)) w
        else w in
      elim reason [ unknown_handle ↦ w | _ ↦ reported ]

  -- The end of the asynchronous natives; `shown` is the text that a refusal reports.
  unfoldable pub submit : ℕ → Bytes → QueryJob → ℕ → World a → World a × Bool
  unfolding report_guard_reject
  submit script shown job now w =
      let (c, reason) = enqueue_job w.component job now in
      let w' = record w { component = c } in
      let refused : World a =
        report_guard_reject script job.connection_handle shown job.callback reason w' in
      elim reason [ none_rejected ↦ (w', true) | _ ↦ (refused, false) ]

  abbrev pub query_job : ℕ → Bytes → QueryJob
  query_job handle sql = record new_job { connection_handle = handle; sql = sql }

  -- `mysql_execute`, with the cells behind the handle: query, callback, format and values.
  unfoldable pub mysql_execute : ℕ → ℕ → List ℤ → ℕ → World a → World a × Bool
  unfolding submit with_callback
  mysql_execute script handle [] now w = (w, false)
  mysql_execute script handle (query ∷ params) now w =
      let sql = amx_string_param a none w.memory query in
      submit script sql (with_callback a w.memory (query_job handle sql) params) now w

  -- `mysql_execute_for`
  unfoldable pub mysql_execute_for : ℕ → ℕ → List ℤ → ℕ → World a → World a × Bool
  unfolding submit with_callback bind_player
  mysql_execute_for script handle [] now w = (w, false)
  mysql_execute_for script handle (query ∷ params) now w =
      let sql = amx_string_param a none w.memory query in
      let job = with_callback a w.memory (query_job handle sql) params in
      submit script sql (bind_player job.args job) now w

  -- `mysql_execute_file`; `files` gives the content of a file that can be opened.
  unfoldable pub mysql_execute_file :
      (Bytes → Option Bytes) → ℕ → ℕ → List ℤ → ℕ → World a → World a × Bool
  unfolding submit with_callback read_sql_file
  mysql_execute_file files script handle [] now w = (w, false)
  mysql_execute_file files script handle (path ∷ params) now w =
      elim (read_sql_file (files (amx_string_param a none w.memory path))) [
        | none ↦ (w, false)
        | some sql ↦
            submit script sql (with_callback a w.memory (query_job handle sql) params) now w
      ]

  -- `ReportSyncReject`
  unfoldable pub report_sync_reject : ℕ → Bytes → GuardReject → World a → World a
  unfolding dispatch_job
  report_sync_reject handle sql reason w =
      let reported = dispatch_job a host w (rejected_job handle sql [] reason) in
      elim reason [ unknown_handle ↦ w | _ ↦ reported ]

  -- The end of `RunSyncQuery`, when the job has come back and has been dispatched.
  unfoldable pub keep_result : QueryJob → Bool → World a → World a × ℕ
  unfolding set_active_cache save_active_cache
  keep_result done use_cache w = elim done.result [
    | none ↦ (w, 0)
    | some r ↦
        let active = set_active_cache w.component (some r) (pos 0) in
        let (saved, handle) = save_active_cache active in
        if not done.succeeded
        then (w, 0)
        else if use_cache
        then (record w { component = saved }, handle)
        else (record w { component = active }, 0)
  ]

  module _ (run : QueryJob → QueryJob) where
    -- `RunSyncQuery`
    unfoldable pub run_sync_query : ℕ → Bytes → Bool → ℕ → World a → World a × ℕ
    unfolding report_sync_reject keep_result
    run_sync_query handle sql use_cache now w =
        let job = record (query_job handle sql) { use_cache = use_cache } in
        let (c, reason, answer) = run_job_sync run w.component job now in
        let w' = record w { component = c } in
        elim answer [
          | none ↦ (report_sync_reject handle sql reason w', 0)
          | some done ↦ keep_result done use_cache (dispatch_job a host w' done)
        ]

    -- `mysql_execute_sync`
    unfoldable pub mysql_execute_sync : ℕ → Bytes → Bool → ℕ → World a → World a × ℕ
    mysql_execute_sync handle query use_cache now w = run_sync_query handle query use_cache now w

    -- `mysql_execute_file_sync`
    unfoldable pub mysql_execute_file_sync :
        (Bytes → Option Bytes) → ℕ → Bytes → Bool → ℕ → World a → World a × ℕ
    unfolding run_sync_query read_sql_file
    mysql_execute_file_sync files handle path use_cache now w = elim (read_sql_file (files path)) [
      | none ↦ (w, 0)
      | some sql ↦ run_sync_query handle sql use_cache now w
    ]
