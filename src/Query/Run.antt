-- ===== src/Query/Run.antt =====
-- What `ConnectionWorker::loop` of src/QueryQueue.cpp does with a job between taking it from the
-- queue and handing it on. The statements of the component are reached through the borrowed pointer
-- of the job.
use omp_my_sql.Prelude.{
  ℕ, Bool, true, false, [], Bytes, codes, ◌==◌, Option, none, some, if◌then◌else◌, ◌≡◌, refl, sym,
  ◌∙◌, arith, Option-cases, Bool-cases, inl, inr, subst,
}
use omp_my_sql.Prelude.Map.{Map, lookup, put, lookup-put}
use omp_my_sql.Result.{QueryResult, IsWellFormed}
use omp_my_sql.Statement.{PreparedStatement}
use omp_my_sql.Statement.Execute.{StatementClient, execute}
use omp_my_sql.Statement.Execute.Safe.{IsReady, execute-IsReady}
use omp_my_sql.Statement.Execute.Rows.{IsDefined}
use omp_my_sql.Query.{QueryJob}
use omp_my_sql.Connection.Client.{Driver, Connection, query_buffered, last_errno, last_error}
use omp_my_sql.Connection.Client.Buffered.{query_buffered-IsWellFormed}

abbrev pub new_result : QueryResult
new_result = record { sets = []; exec_time_micros = 0; query_string = [] }

-- The outcome that the worker writes into the job; the result is kept only on success.
abbrev pub with_outcome : QueryJob → Bool → QueryResult → ℕ → ℕ → Bytes → QueryJob
with_outcome job ok result micros code message = record job {
  succeeded = ok;
  error_code = code;
  error = if ok then [] else message;
  result = if ok then some (record result { exec_time_micros = micros }) else job.result;
}

-- What the main thread relies on in a job that was run.
pub data IsOutcome : QueryJob → Type 0 where
  failed : {job : QueryJob} → job.succeeded ≡ false → job.result ≡ none → IsOutcome job
  done :
      {job : QueryJob} (result : QueryResult)
      → job.succeeded ≡ true
      → job.result ≡ some result
      → IsWellFormed result
      → job.error ≡ []
      → IsOutcome job

with_outcome-IsOutcome :
    (job : QueryJob) (ok : Bool) (result : QueryResult) (micros code : ℕ) (message : Bytes)
    → job.result ≡ none
    → IsWellFormed result
    → IsOutcome (with_outcome job ok result micros code message)
with_outcome-IsOutcome job true result micros code message e w =
    done (record result { exec_time_micros = micros }) refl refl w refl
with_outcome-IsOutcome job false result micros code message e w = failed refl e

abbrev pub AllReady : Map PreparedStatement → Type 0
AllReady statements = (s : ℕ) (st : PreparedStatement) → lookup s statements ≡ some st → IsReady st

AllReady-put :
    (s : ℕ) (st : PreparedStatement) (statements : Map PreparedStatement)
    → AllReady statements
    → IsReady st
    → AllReady (put s st statements)
AllReady-put s st statements all p j v found = elim (Bool-cases (s == j)) [
  | inl same ↦
      let found' : some st ≡ some v = sym (lookup-put s j st statements ∙ rw same) ∙ found in
      let eq : st ≡ v = ground (arith, found') in subst (λ (x : PreparedStatement). IsReady x) eq p
  | inr other ↦ all j v (sym (lookup-put s j st statements ∙ rw other) ∙ found)
]

module _ (d : Driver) (k : StatementClient d.Handle) where
  -- `PreparedStatement::lastErrno`
  unfoldable pub statement_errno : Option d.Handle → PreparedStatement → ℕ
  statement_errno raw s = elim raw [
    | none ↦ 0
    | some h ↦ elim s.stmt [ none ↦ 0 | some t ↦ k.errno t h ]
  ]

  abbrev error_at : d.Handle → ℕ → Bytes
  error_at h t = elim (k.error t h) [ none ↦ [] | some e ↦ e ]

  -- `PreparedStatement::lastError`
  unfoldable pub statement_error : Option d.Handle → PreparedStatement → Bytes
  statement_error raw s = elim s.stmt [
    | none ↦ codes "invalid statement"
    | some t ↦ elim raw [ none ↦ [] | some h ↦ error_at h t ]
  ]

  abbrev pub Ran : Type 0
  Ran = Option (Option (Connection d) × Map PreparedStatement × QueryJob)

  -- The path of a prepared statement; `micros` is the measured time. `none` if the statement is
  -- gone or its execution leaves its parameters.
  unfoldable pub run_statement : ℕ → Connection d → Map PreparedStatement → QueryJob → ℕ → Ran
  unfolding statement_errno statement_error
  run_statement micros c statements job s = elim (lookup s statements) [
    | none ↦ none
    | some st ↦
        let (raw, st', r) = execute k c.mysql st (record new_result { query_string = job.sql }) in
        elim r [
          | none ↦ none
          | some done' ↦ some (
            some (record c { mysql = raw }),
            put s st' statements,
            with_outcome job done'.1 done'.0 micros (statement_errno raw st')
                (statement_error raw st'),
          )
        ]
  ]

  -- The path of a plain query.
  unfoldable pub run_query : ℕ → Connection d → QueryJob → Connection d × QueryJob
  run_query micros c job =
      let (c', result, ok) = query_buffered d job.sql c new_result in
      (c', with_outcome job ok result micros (last_errno d c') (last_error d c'))

  -- A job on `conn_`, which may be a null pointer.
  unfoldable pub run_job : ℕ → Option (Connection d) → Map PreparedStatement → QueryJob → Ran
  unfolding run_statement run_query
  run_job micros none statements job =
      some (none, statements, record job { succeeded = false; error = codes "invalid connection" })
  run_job micros (some c) statements job = elim job.statement [
    | some s ↦ run_statement micros c statements job s
    | none ↦ let (c', job') = run_query micros c job in some (some c', statements, job')
  ]

  -- The job ran to an outcome, and the statements stay ready.
  abbrev pub IsRun : Ran → Type 0
  IsRun none = ⊥
  IsRun (some (c, statements, job)) = IsOutcome job × AllReady statements

  statement-IsRun :
      (micros s : ℕ) (c : Connection d) (statements : Map PreparedStatement) (job : QueryJob)
      (st : PreparedStatement) (raw : Option d.Handle) (r : Option (QueryResult × Bool))
      → job.result ≡ none
      → AllReady statements
      → IsReady st
      → IsDefined r
      → IsRun (elim r as (λ x. Ran) [
        | none ↦ none
        | some done' ↦ some (
          some (record c { mysql = raw }),
          put s st statements,
          with_outcome job done'.1 done'.0 micros (statement_errno raw st) (statement_error raw st),
        )
      ])
  statement-IsRun micros s c statements job st raw none e all p w = w
  statement-IsRun micros s c statements job st raw (some (out, ok)) e all p w =
      (with_outcome-IsOutcome job ok out micros _ _ e w, AllReady-put s st statements all p)

  run_statement-IsRun :
      (micros s : ℕ) (c : Connection d) (h : d.Handle) (statements : Map PreparedStatement)
      (job : QueryJob) (st : PreparedStatement)
      → c.mysql ≡ some h
      → AllReady statements
      → lookup s statements ≡ some st
      → job.result ≡ none
      → IsRun (run_statement micros c statements job s)
  unfolding run_statement
  run_statement-IsRun micros s c h statements job st live all found e =
      let out = record new_result { query_string = job.sql } in
      let (raw, st', r) = execute k c.mysql st out in
      let p : IsReady st' × IsDefined r = rw live (execute-IsReady k h st out (all s st found)) in
      rw (run_statement, found) (statement-IsRun micros s c statements job st' raw r e all p.0 p.1)

  -- On a live connection a fresh job, whose statement exists if it has one, is run to an outcome: it
  -- failed and has no result, or it succeeded and has no error text and a result whose rows have
  -- one cell for each field. The statements, if ready before, are ready after it.
  pub run_job-IsRun :
      (micros : ℕ) (c : Connection d) (h : d.Handle) (statements : Map PreparedStatement)
      (job : QueryJob)
      → c.mysql ≡ some h
      → AllReady statements
      → ((s : ℕ)
          → job.statement ≡ some s
          → (st : PreparedStatement) × (lookup s statements ≡ some st))
      → job.result ≡ none
      → IsRun (run_job micros (some c) statements job)
  unfolding run_job run_query
  run_job-IsRun micros c h statements job live all known e = elim (Option-cases job.statement) [
    | inl q ↦
        rw (run_job, q)
          (
            with_outcome-IsOutcome job _ (query_buffered d job.sql c new_result).1 micros _ _ e
                (query_buffered-IsWellFormed d job.sql c new_result),
            all,
          )
    | inr (s, q) ↦
        let (st, found) = known s q in
        rw (run_job, q) (run_statement-IsRun micros s c h statements job st live all found e)
  ]
