-- ===== src/Natives/Statements.antt =====
-- The natives of prepared statements in src/natives.cpp: `mysql_prepare`, `mysql_stmt_set_int` and
-- its siblings, `mysql_stmt_close` and `mysql_stmt_execute`.
pub mod OwnWorker
mod Tests
use omp_my_sql.Prelude.{
  ℕ, Bool, true, false, not, ◌&&◌, List, [], ◌∷◌, Bytes, ◌==◌, Option, none, some, if◌then◌else◌,
}
use omp_my_sql.Prelude.Int.{ℤ, pos, negsuc, pred_ℤ}
use omp_my_sql.Prelude.Map.{put}
use omp_my_sql.Amx.{Amx}
use omp_my_sql.Statement.{
  PreparedStatement, new_statement, is_valid, bind_int, bind_float, bind_string, bind_null,
}
use omp_my_sql.Query.{QueryJob, new_job}
use omp_my_sql.Component.{Component, get_connection, connection_handle_of}
use omp_my_sql.Component.Registry.{add_statement, get_statement, remove_statement}
use omp_my_sql.Dispatch.{Host, World}
use omp_my_sql.Natives.Models.{with_callback}
use omp_my_sql.Natives.Execute.{submit}

-- `mysql_prepare`
unfoldable pub mysql_prepare : Component → ℕ → Bytes → Component × ℕ
unfolding get_connection new_statement is_valid add_statement
mysql_prepare c handle query = elim (get_connection c handle) [
  | none ↦ (c, 0)
  | some conn ↦
      let s = new_statement (some conn) query in
      if not (is_valid s) then (c, 0) else add_statement c (some s)
]

-- What the four setters share: the statement is changed in place.
unfoldable pub set_param :
    (PreparedStatement → PreparedStatement) → Component → ℕ → Component × Bool
unfolding get_statement
set_param bind c stmt = elim (get_statement c stmt) [
  | none ↦ (c, false)
  | some s ↦ (record c { statements = put stmt (bind s) c.statements }, true)
]

-- `mysql_stmt_set_int`; the scripts count the parameters from 1.
unfoldable pub mysql_stmt_set_int : Component → ℕ → ℤ → ℤ → Component × Bool
unfolding set_param
mysql_stmt_set_int c stmt index value = set_param (λ s. bind_int s (pred_ℤ index) value) c stmt

-- `mysql_stmt_set_float`
unfoldable pub mysql_stmt_set_float : Component → ℕ → ℤ → ℤ → Component × Bool
unfolding set_param
mysql_stmt_set_float c stmt index value = set_param (λ s. bind_float s (pred_ℤ index) value) c stmt

-- `mysql_stmt_set_string`
unfoldable pub mysql_stmt_set_string : Component → ℕ → ℤ → Bytes → Component × Bool
unfolding set_param
mysql_stmt_set_string c stmt index value =
    set_param (λ s. bind_string s (pred_ℤ index) value) c stmt

-- `mysql_stmt_set_null`
unfoldable pub mysql_stmt_set_null : Component → ℕ → ℤ → Component × Bool
unfolding set_param
mysql_stmt_set_null c stmt index = set_param (λ s. bind_null s (pred_ℤ index)) c stmt

-- `mysql_stmt_close`
unfoldable pub mysql_stmt_close : Component → ℕ → Component × Bool
mysql_stmt_close c stmt = remove_statement c stmt

module _ (a : Amx) (host : Host a) where
  -- The job of `mysql_stmt_execute`, on the worker of a connection.
  abbrev pub statement_job : ℕ → PreparedStatement → ℕ → QueryJob
  statement_job stmt s handle = record new_job {
    connection_handle = handle;
    sql = s.query;
    statement = some stmt;
  }

  -- `mysql_stmt_execute`, with the cells behind the statement: callback, format and values. A refusal
  -- is reported without the query.
  unfoldable pub mysql_stmt_execute : ℕ → ℕ → List ℤ → ℕ → World a → World a × Bool
  unfolding get_statement is_valid connection_handle_of submit with_callback
  mysql_stmt_execute script stmt params now w = elim (get_statement w.component stmt) [
    | none ↦ (w, false)
    | some s ↦
        let handle = connection_handle_of w.component s.conn in
        let job = with_callback a w.memory (statement_job stmt s handle) params in
        if not (is_valid s)
        then (w, false)
        else if handle == 0
        then (w, false)
        else submit a host script [] job now w
  ]
