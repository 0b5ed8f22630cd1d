-- ===== src/Query/Tests.antt =====
-- A job run by the worker of src/QueryQueue.cpp on a client library that answers every query alike.
use omp_my_sql.Prelude.{ℕ, true, [], codes, none, some, refl, arith}
use omp_my_sql.Prelude.Int.{negsuc}
use omp_my_sql.Prelude.Map.{lookup}
use omp_my_sql.Statement.Execute.{StatementClient}
use omp_my_sql.Query.{QueryJob, new_job}
use omp_my_sql.Query.Run.{run_job, run_job-IsRun, IsRun, AllReady}
use omp_my_sql.Connection.Client.{Driver, ends}

abbrev client : Driver
client = record {
  Handle = ℕ;
  init = some 0;
  set_option = λ option h. h;
  connect = λ o database flags h. (h, true);
  query = λ sql h. (
    h,
    some (
        ends (record { stored = none; affected_rows = 1; insert_id = 3; warning_count = 0 })
          (negsuc 0)),
  );
  escape_string = λ h s. s;
  errno = λ h. 0;
  error = λ h. none;
  get_ssl_cipher = λ h. some (codes "TLS_AES_256_GCM_SHA384");
  set_charset = λ name h. (h, true);
  charset_name = λ h. some (codes "utf8mb4");
  stat = λ h. some (codes "Uptime: 1");
}

abbrev statements : StatementClient ℕ
statements = record {
  init = λ h. (h, none);
  prepare = λ t sql h. (h, true);
  param_count = λ t h. 0;
  bind_param = λ t bounds h. (h, true);
  stmt_execute = λ t h. (h, none);
  errno = λ t h. 0;
  error = λ t h. none;
}

abbrev insert_job : QueryJob
insert_job = record new_job { connection_handle = 1; sql = codes "INSERT INTO t VALUES (1)" }

no_statements : AllReady []
unfolding lookup
no_statements s st found = absurd (ground (arith, found))

run_job-IsRun_example :
    IsRun client statements (
      run_job client statements 5
        (some (record { mysql = some 0; connected = true }))
        []
        insert_job)
run_job-IsRun_example =
    run_job-IsRun client statements 5 (record { mysql = some 0; connected = true }) 0 [] insert_job
      refl no_statements (λ s e. absurd (ground (arith, e))) refl
