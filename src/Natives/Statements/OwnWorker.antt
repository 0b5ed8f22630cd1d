-- ===== src/Natives/Statements/OwnWorker.antt =====
-- Which worker `mysql_stmt_execute` of src/natives.cpp sends a statement to.
use omp_my_sql.Prelude.{ℕ, Bool, false, List, [], ◌∷◌, none, some, ◌≡◌}
use omp_my_sql.Prelude.Int.{ℤ}
use omp_my_sql.Prelude.Map.{Map, lookup}
use omp_my_sql.Amx.{Amx}
use omp_my_sql.Statement.{PreparedStatement, is_valid}
use omp_my_sql.Query.{QueryJob}
use omp_my_sql.Component.{Component, get_connection, connection_handle_of}
use omp_my_sql.Component.Registry.{get_statement}
use omp_my_sql.Dispatch.{Host, World}
use omp_my_sql.Natives.Execute.Outcome.{Outcome}

-- No key stands twice, as in every `std::unordered_map`.
abbrev pub DistinctKeys : Map ℕ → Type 0
DistinctKeys [] = Unit
DistinctKeys ((k, v) ∷ m) = (lookup k m ≡ none) × DistinctKeys m

module _ (a : Amx) (host : Host a) where
  module _ (script stmt : ℕ) (params : List ℤ) (now : ℕ) (w : World a) where
    abbrev c : Component
    c = w.component

    -- What `mysql_stmt_execute` can come to: nothing at all, for a statement that is not there, not
    -- valid, or without a connection; or the outcome of a job that executes the statement on the
    -- connection that it was prepared on.
    pub data Executed (after : World a) (ok : Bool) : Type 0 where
      no_statement : get_statement c stmt ≡ none → after ≡ w → ok ≡ false → Executed after ok
      invalid_statement :
          (s : PreparedStatement)
          → get_statement c stmt ≡ some s
          → is_valid s ≡ false
          → after ≡ w
          → ok ≡ false
          → Executed after ok
      closed_connection :
          (s : PreparedStatement)
          → get_statement c stmt ≡ some s
          → connection_handle_of c s.conn ≡ 0
          → after ≡ w
          → ok ≡ false
          → Executed after ok
      submitted :
          (s : PreparedStatement) (conn : ℕ) (job : QueryJob)
          → get_statement c stmt ≡ some s
          → s.conn ≡ some conn
          → get_connection c job.connection_handle ≡ some conn
          → job.statement ≡ some stmt
          → Outcome a host script [] job now w after ok
          → Executed after ok
