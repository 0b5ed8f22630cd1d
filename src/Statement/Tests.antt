-- ===== src/Statement/Tests.antt =====
-- A prepared statement of src/Statement.cpp with two parameters.
use omp_my_sql.Prelude.{
  true, none, List, [], ◌∷◌, ℕ, ◌<◌, codes, length, ◌==◌, if◌then◌else◌, some, ◌≡◌, refl,
}
use omp_my_sql.Prelude.Int.{pos, negsuc}
use omp_my_sql.Sql.{count_placeholders}
use omp_my_sql.Statement.{
  Param, null, PreparedStatement, new_statement, bind_param, bind_int, resize,
}
use omp_my_sql.Statement.Binds.{IsSized, param_at, new_statement-IsSized, bind_param-param_at}
use omp_my_sql.Result.{QueryResult}
use omp_my_sql.Statement.Execute.{StatementClient, execute}
use omp_my_sql.Statement.Execute.Safe.{Use, binds, executes, use_all, execute-IsDefined}
use omp_my_sql.Statement.Execute.Rows.{IsDefined}

abbrev two_params : PreparedStatement
two_params = new_statement (some 1) (codes "UPDATE t SET a = ? WHERE b = ?")

abbrev set_null : Param → Param
set_null p = record p { kind = null }

two_params_counted : two_params.param_count ≡ 2
unfolding new_statement count_placeholders
two_params_counted = refl

bind_past_the_end : (bind_int two_params (pos 4) (pos 9)).param_count ≡ 5
unfolding bind_int resize new_statement count_placeholders
bind_past_the_end = refl

bind_param-param_at_example :
    let s' = bind_param set_null two_params (pos 4) in
    IsSized s'
    × (4 < length s'.params)
    × ((j : ℕ)
        → param_at s'.params j ≡ (
            if 4 == j
            then set_null (param_at two_params.params j)
            else param_at two_params.params j))
    × ((n : ℕ) → bind_param set_null two_params (negsuc n) ≡ two_params)
bind_param-param_at_example =
    bind_param-param_at set_null two_params 4
      (new_statement-IsSized (some 1) (codes "UPDATE t SET a = ? WHERE b = ?"))

-- A client library with one statement of two parameters and no rows.
abbrev client : StatementClient ℕ
client = record {
  init = λ h. (h, some 9);
  prepare = λ t sql h. (h, true);
  param_count = λ t h. 2;
  bind_param = λ t bounds h. (h, true);
  stmt_execute = λ t h. (h, some (record { affected_rows = 1; insert_id = 0; metadata = none }));
  errno = λ t h. 0;
  error = λ t h. none;
}

abbrev no_result : QueryResult
no_result = record { sets = []; exec_time_micros = 0; query_string = [] }

abbrev uses : List (Use ℕ)
uses = binds set_null (pos 1) ∷ executes 0 no_result ∷ binds set_null (pos 4) ∷ []

execute-IsDefined_example :
    IsDefined
      (execute client
        (some 0)
        (use_all client uses (new_statement (some 1) (codes "UPDATE t SET a = ? WHERE b = ?")))
        no_result).2
execute-IsDefined_example =
    execute-IsDefined client (some 1) (codes "UPDATE t SET a = ? WHERE b = ?") uses 0 no_result
