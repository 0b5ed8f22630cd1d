-- ===== src/Component/Tests.antt =====
-- A component of src/MySQLComponent.cpp with one connection, and the theorems at it.
use omp_my_sql.Prelude.{false, List, [], ◌∷◌, codes, none, some, All, ◌≡◌, ◌↔◌, refl, arith}
use omp_my_sql.Prelude.Map.{lookup, put, emplace}
use omp_my_sql.Sql.{is_multi_statement}
use omp_my_sql.Query.{QueryJob, new_job}
use omp_my_sql.Component.{
  Component, ConnectionWorker, QueryGuards, new_component, default_guards, none_rejected,
  add_connection, enqueue_job, multi_statements_allowed, check_guards, guards_at,
}
use omp_my_sql.Component.Rate.{rate_run, spec_run, NonDecreasing, rate_run-spec_run}
use omp_my_sql.Component.Guards.{Admits, enqueue_job-Admits}
use omp_my_sql.Component.{unknown_handle}
use omp_my_sql.Component.Policy.{has, connects, enqueues, perform_all, perform, Call}
use omp_my_sql.Component.Policy.Histories.{IsUnstacked, queued-IsUnstacked, handles-IsConsistent}
use omp_my_sql.Prelude.Int.{pos}
use omp_my_sql.Result.{QueryResult}
use omp_my_sql.Component.Cache.Cells.{cell_at, cell_by_name}
use omp_my_sql.Component.Cache.Sound.{
  CacheCall, sets, saves, clears, activates, selects, deletes, cache_run, cell_at-IsInside_always,
}
use omp_my_sql.Component.Cache.Inside.{IsInside}

abbrev connected : Component
connected = (add_connection new_component (some 5) false).0

abbrev select_one : QueryJob
select_one = record new_job { connection_handle = 1; sql = codes "SELECT 1" }

abbrev stacked : QueryJob
stacked = record new_job { connection_handle = 1; sql = codes "SELECT 1; DROP TABLE t" }

enqueue_job-Admits_example : ((enqueue_job connected select_one 10).1 ≡ none_rejected) ↔ (
    (w : ConnectionWorker) × (lookup 1 connected.workers ≡ some w)
    × Admits connected select_one w 10)
enqueue_job-Admits_example = enqueue_job-Admits connected select_one 10

abbrev two_a_window : QueryGuards
two_a_window = record default_guards { max_queries_per_window = 2; rate_window = 10 }

rate_run-spec_run_example :
    rate_run new_component two_a_window 1 (1 ∷ 2 ∷ 3 ∷ 12 ∷ [])
    ≡ spec_run two_a_window [] (1 ∷ 2 ∷ 3 ∷ 12 ∷ [])
rate_run-spec_run_example =
    rate_run-spec_run new_component two_a_window 1 (1 ∷ 2 ∷ 3 ∷ 12 ∷ []) (λ e. ground arith)
      nothing_logged in_order
  where
    nothing_logged : lookup 1 new_component.rate_log ≡ none
    nothing_logged = unfold lookup in refl

    in_order : NonDecreasing 0 (1 ∷ 2 ∷ 3 ∷ 12 ∷ [])
    in_order = ground arith

abbrev history : List Call
history = connects 5 false ∷ enqueues select_one 10 ∷ enqueues stacked 11 ∷ []

queued-IsUnstacked_example : All IsUnstacked (select_one ∷ [])
unfolding lookup enqueue_job add_connection emplace check_guards guards_at put
    multi_statements_allowed is_multi_statement perform_all perform
queued-IsUnstacked_example =
    queued-IsUnstacked (λ job. job) history 1 (record { conn = 5; queue = select_one ∷ [] }) refl
      refl

abbrev one_cell : QueryResult
one_cell = record {
  sets =
      record {
        fields = record { name = codes "id"; type = pos 3 } ∷ [];
        rows = (record { value = codes "-42"; is_null = false } ∷ []) ∷ [];
        affected_rows = 1;
        insert_id = 0;
        warning_count = 0;
      }
      ∷ [];
  exec_time_micros = 5;
  query_string = codes "SELECT id FROM t";
}

abbrev cache_history : List CacheCall
cache_history = sets one_cell ∷ saves ∷ clears ∷ activates 1 ∷ selects (pos 0) ∷ deletes 1 ∷ []

cell_at-IsInside_always_example :
    let c = cache_run new_component cache_history in
    IsInside (cell_at c (pos 0) (pos 0)) × IsInside (cell_by_name c (pos 0) (codes "id"))
cell_at-IsInside_always_example =
    cell_at-IsInside_always cache_history (pos 0) (pos 0) (codes "id")
      (((refl, tt), tt), (tt, (tt, (tt, (tt, (tt, tt))))))

handles-IsConsistent_example :
    let c = perform_all (λ job. job) new_component history in
    (has 1 c.workers ≡ has 1 c.connections)
    × (has 1 c.connections ≡ false → enqueue_job c select_one 12 ≡ (c, unknown_handle))
    × (has c.next_handle c.connections ≡ false)
handles-IsConsistent_example = handles-IsConsistent (λ job. job) history 1 12 select_one
