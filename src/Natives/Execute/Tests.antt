-- ===== src/Natives/Execute/Tests.antt =====
-- A query with a callback, and a synchronous one (src/natives.cpp).
use omp_my_sql.Prelude.{
  ◌==◌, if◌then◌else◌, ◌++◌, Bool, true, false, [], ◌∷◌, Bytes, codes, none, some, ◌≡◌, ◌⊎◌, refl,
}
use omp_my_sql.Prelude.Int.{pos, negsuc}
use omp_my_sql.Prelude.Map.{lookup, emplace, put}
use omp_my_sql.Amx.{Amx}
use omp_my_sql.Result.{QueryResult}
use omp_my_sql.Query.{QueryJob, new_job}
use omp_my_sql.Component.{
  Component, ConnectionWorker, new_component, add_connection, check_guards, guards_at,
  multi_statements_allowed,
}
use omp_my_sql.Sql.{is_multi_statement}
use omp_my_sql.Component.Guards.{check_guards-Admits}
use omp_my_sql.Dispatch.{Host, World}
use omp_my_sql.Natives.Format.{amx_string_param}
use omp_my_sql.Natives.Models.{with_callback}
use omp_my_sql.Natives.Execute.{read_sql_file, mysql_execute, run_sync_query}
use omp_my_sql.Natives.Execute.Outcome.{Outcome}
use omp_my_sql.Dispatch.{on_tick}
use omp_my_sql.Dispatch.Tick.{all_calls}
use omp_my_sql.Natives.Execute.Delivery.{finish_jobs, mysql_execute-on_tick}
use omp_my_sql.Natives.Execute.Sync.{run_sync_query-active}

abbrev amx : Amx
amx = record {
  Memory = Bytes;
  address = λ mem p. elim p [ pos n ↦ some n | negsuc k ↦ none ];
  cell_at = λ mem p. pos p;
  set_cell = λ mem p v. mem;
  string_at = λ mem p. if p == 4 then codes "OnRows" else mem;
  set_string = λ mem p s n. s;
  float_text = λ c. codes "0.000000";
  float_cell = λ s. pos 0;
}

abbrev host : Host amx
host = record {
  has_pawn = true;
  has_core = true;
  main_script = some 1;
  side_scripts = [];
  has_public = λ script name. script == 1;
  is_connected = λ p. true;
  exec = λ call state. state;
}

abbrev connected : Component
connected = (add_connection new_component (some 40) false).0

abbrev world : World amx
world = record {
  component = connected;
  memory = codes "SELECT 1; SELECT 2";
  hashes = [];
  calls = [];
}

abbrev rows : QueryResult
rows = record { sets = []; exec_time_micros = 12; query_string = codes "SELECT 1" }

abbrev run : QueryJob → QueryJob
run job = record job { succeeded = true; result = some rows }

abbrev worker : ConnectionWorker
worker = record { conn = 40; queue = [] }

-- The byte order mark goes, and a file of blanks has no query.
read_sql_file_test :
    (read_sql_file (some (0xEF ∷ 0xBB ∷ 0xBF ∷ codes "SELECT 1")) ≡ some (codes "SELECT 1"))
    × (read_sql_file (some (codes " \r\n\t")) ≡ none)
unfolding read_sql_file
read_sql_file_test = (refl, refl)

run_sync_query-active_example :
    let (after, id) = run_sync_query amx host run 1 (codes "SELECT 1") true 5 world in
    (after.component.active_cache ≡ some rows)
    × (after.component.active_result_index ≡ pos 0)
    × ((◌≡◌ {A = Bool} true true) × (lookup id after.component.saved_caches ≡ some rows)
        ⊎ ((◌≡◌ {A = Bool} true false) × (id ≡ 0)))
unfolding add_connection lookup check_guards emplace guards_at put multi_statements_allowed
    is_multi_statement
run_sync_query-active_example =
    run_sync_query-active amx host (λ call c mem h. h) run 1 (codes "SELECT 1") true 5 world worker
      rows tt refl
      (check_guards-Admits connected
        (record new_job { connection_handle = 1; sql = codes "SELECT 1" }) worker 5 refl)
      refl refl

abbrev asked : World amx
asked = record world { memory = codes "SELECT 1" }

abbrev row_job : QueryJob
row_job = record new_job {
  connection_handle = 1;
  sql = codes "SELECT 1";
  callback = codes "OnRows";
}

mysql_execute-on_tick_example :
    let after = (mysql_execute amx host 1 1 (pos 3 ∷ pos 4 ∷ []) 5 asked).0 in
    let worked = finish_jobs run 1 1 after.component in
    (on_tick amx host (record after { component = worked })).calls
    ≡ ([] ++ all_calls amx host (run row_job ∷ [])) ++ []
unfolding add_connection lookup check_guards emplace guards_at put multi_statements_allowed
    is_multi_statement with_callback amx_string_param
mysql_execute-on_tick_example =
    mysql_execute-on_tick run amx host 1 1 (pos 3) (pos 4 ∷ []) 5 asked worker refl
      (check_guards-Admits connected row_job worker 5 refl)
