-- ===== src/Query.antt =====
-- src/Query.hpp: the job that goes from the main thread to a worker and back.
pub mod Run
mod Tests
use omp_my_sql.Prelude.{ℕ, Bool, true, false, List, [], Bytes, Option, none, some, if◌then◌else◌}
use omp_my_sql.Prelude.Int.{ℤ, negsuc}
use omp_my_sql.Result.{QueryResult}
use omp_my_sql.Statement.{PreparedStatement}
use omp_my_sql.Model.{ModelOp}
use omp_my_sql.Worker.{Route, teardown, sync, async}

-- `CallbackArg`; a float is its bit pattern.
pub data CallbackArg : Type 0 where
  int_arg : ℤ → CallbackArg
  float_arg : ℤ → CallbackArg
  string_arg : Bytes → CallbackArg

-- `QueryJob`. `statement` names a borrowed statement by its handle, `statement_to_close` is an owned
-- one; `sync_signal` says whether a caller is blocked on the job; `model_op` is `none` for 0.
pub record QueryJob : Type 0 where
  pub connection_handle : ℕ
  pub sql : Bytes
  pub statement : Option ℕ
  pub statement_to_close : Option PreparedStatement
  pub callback : Bytes
  pub args : List CallbackArg
  pub bound_player : ℤ
  pub use_cache : Bool
  pub model_handle : ℕ
  pub model_op : Option ModelOp
  pub sync_signal : Bool
  pub succeeded : Bool
  pub error_code : ℕ
  pub error : Bytes
  pub result : Option QueryResult

abbrev pub new_job : QueryJob
new_job = record {
  connection_handle = 0;
  sql = [];
  statement = none;
  statement_to_close = none;
  callback = [];
  args = [];
  bound_player = negsuc 0;
  use_cache = true;
  model_handle = 0;
  model_op = none;
  sync_signal = false;
  succeeded = false;
  error_code = 0;
  error = [];
  result = none;
}

-- The tests of `ConnectionWorker::loop` on a job.
unfoldable pub route : QueryJob → Route
route job = elim job.statement_to_close [
  | some s ↦ teardown
  | none ↦ if job.sync_signal then sync else async
]
