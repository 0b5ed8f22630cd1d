-- ===== src/Component/State.antt =====
-- The state of the main thread in src/MySQLComponent.hpp, and the guards of queries.
use omp_my_sql.Prelude.{ℕ, ◌*◌, Bool, List, [], length, Option, none}
use omp_my_sql.Prelude.Int.{ℤ, pos}
use omp_my_sql.Prelude.Map.{Map}
use omp_my_sql.Result.{QueryResult}
use omp_my_sql.Connection.Options.{ConnectionOptions}
use omp_my_sql.Model.{Model}
use omp_my_sql.Statement.{PreparedStatement}
use omp_my_sql.Query.{QueryJob}

-- `QueryGuards`; `rate_window` is in the unit of the clock.
pub record QueryGuards : Type 0 where
  pub max_query_length : ℕ
  pub max_queries_per_window : ℕ
  pub rate_window : ℕ
  pub max_pending_queries : ℕ

abbrev pub default_guards : QueryGuards
default_guards = record {
  max_query_length = 1024 * 1024;
  max_queries_per_window = 0;
  rate_window = 1000;
  max_pending_queries = 0;
}

-- A worker between two steps of the main thread: the address of its connection and the jobs in its
-- queue and in its hands, which `pending_` counts.
pub record ConnectionWorker : Type 0 where
  pub conn : ℕ
  pub queue : List QueryJob

abbrev pub pending : ConnectionWorker → ℕ
pending w = length w.queue

pub record Component : Type 0 where
  pub connections : Map ℕ
  pub workers : Map ConnectionWorker
  pub next_handle : ℕ
  pub options : Map ConnectionOptions
  pub next_options : ℕ
  pub multi_statement_allowed : Map Bool
  pub guards : Map QueryGuards
  pub rate_log : Map (List ℕ)
  -- the completed sink of the engine
  pub completed : List QueryJob
  pub active_cache : Option QueryResult
  pub active_result_index : ℤ
  pub saved_caches : Map QueryResult
  pub next_cache : ℕ
  pub statements : Map PreparedStatement
  pub next_statement : ℕ
  pub models : Map Model
  pub next_model : ℕ

abbrev pub new_component : Component
new_component = record {
  connections = [];
  workers = [];
  next_handle = 1;
  options = [];
  next_options = 1;
  multi_statement_allowed = [];
  guards = [];
  rate_log = [];
  completed = [];
  active_cache = none;
  active_result_index = pos 0;
  saved_caches = [];
  next_cache = 1;
  statements = [];
  next_statement = 1;
  models = [];
  next_model = 1;
}

-- `GuardReject`
pub data GuardReject : Type 0 where
  none_rejected unknown_handle too_long rate_limited too_many_pending multi_statement : GuardReject
