-- ===== src/Natives/Models/Injection.antt =====
-- Values in the statements that the natives of src/natives.cpp build on a connected `Connection`
-- (src/Connection.cpp): those of model operations, and of the formats that `Piece` describes. A format
-- with %s, or with %e outside quotes, is not among them.
use omp_my_sql.Prelude.{
  ℕ, ◌≤◌, true, false, List, [], ◌∷◌, Bytes, length, some, All, ◌≡◌, ◌≢◌, arith, refl, ◌∙◌, ap,
}
use omp_my_sql.Prelude.Int.{ℤ}
use omp_my_sql.Amx.{Amx}
use omp_my_sql.Sql.{is_multi_statement, count_placeholders}
use omp_my_sql.Sql.Fragment.{IsEscaped}
use omp_my_sql.Model.{Model, ModelOp}
use omp_my_sql.Model.Inert.{model_sql-single}
use omp_my_sql.Model.Inert.Numbers.{is_float_text}
use omp_my_sql.Query.{QueryJob}
use omp_my_sql.Connection.Client.{Driver, Connection, escape}
use omp_my_sql.Component.{Component, ConnectionWorker, multi_statement, check_guards, check_rate}
use omp_my_sql.Natives.Format.{format_loop}
use omp_my_sql.Natives.Format.Safe.{Piece, IsPlain, values_taken, format_of, format_loop-single}
use omp_my_sql.Natives.Models.{model_job, with_callback, sql_for}

check_guards-single :
    (c : Component) (job : QueryJob) (w : ConnectionWorker) (now : ℕ)
    → is_multi_statement job.sql ≡ false
    → (check_guards c job w now).1 ≢ multi_statement
unfolding check_guards check_rate
check_guards-single c job w now e bad = ground arith

with_callback-sql :
    (a : Amx) (mem : a.Memory) (job : QueryJob) (params : List ℤ)
    → (with_callback a mem job params).sql ≡ job.sql
unfolding with_callback
with_callback-sql a mem job [] = refl
with_callback-sql a mem job (p ∷ []) = refl
with_callback-sql a mem job (p ∷ q ∷ ps) = refl

module _ (d : Driver) (conn_at : ℕ → Connection d) (a : Amx) (mem : a.Memory)
    (escapes : (h : d.Handle) (v : Bytes) → IsEscaped (d.escape_string h v)) where
  escape-IsEscaped :
      (c : Connection d) (h : d.Handle) → c.mysql ≡ some h → (v : Bytes) → IsEscaped (escape d c v)
  unfolding escape
  escape-IsEscaped c h live v = rw (escape, live) (escapes h v)

  -- On a connection with a handle of the client library, a format of plain SQL in which values stand
  -- as '%e', %q and %d only, with a value for each, gives a single statement without placeholders,
  -- whatever the values are, if the client library escapes every quote and backslash.
  pub format-single :
      (c : Connection d) (h : d.Handle) (ps : List Piece) (vs : List ℤ)
      → c.mysql ≡ some h
      → All IsPlain ps
      → values_taken ps ≤ length vs
      → let out = format_loop a (some (escape d c)) mem false (format_of ps) vs in
        (is_multi_statement out ≡ false) × (count_placeholders out ≡ 0)
  format-single c h ps vs live plain enough =
      format_loop-single a (escape d c) mem (escape-IsEscaped c h live) ps vs plain enough

  -- The job of a model operation on a connection with a handle of the client library is a single
  -- statement without placeholders, and no guard refuses it as a multi-statement, whatever the
  -- names and the bound values hold, if the client library escapes every quote and backslash and
  -- a float prints as an optional sign and a non-empty run of digits, points and letters.
  pub model_job-single :
      (floats : (x : ℤ) → is_float_text (a.float_text x) ≡ true) (conn : ℕ) (h : d.Handle)
      (handle : ℕ) (op : ModelOp) (m : Model) (params : List ℤ)
      → (conn_at conn).mysql ≡ some h
      → let job = model_job d conn_at a mem handle op m conn params in
        (is_multi_statement job.sql ≡ false)
        × (count_placeholders job.sql ≡ 0)
        × ((c : Component) (w : ConnectionWorker) (now : ℕ)
            → (check_guards c job w now).1 ≢ multi_statement)
  unfolding model_job
  model_job-single floats conn h handle op m params live =
      let (s, p) =
        model_sql-single a (escape d (conn_at conn)) mem (escape-IsEscaped (conn_at conn) h live)
          floats op m in
      let job = model_job d conn_at a mem handle op m conn params in
      let e : job.sql ≡ sql_for d conn_at a mem conn op m = with_callback-sql a mem _ params in
      let single : is_multi_statement job.sql ≡ false = ap is_multi_statement e ∙ s in
      (single, ap count_placeholders e ∙ p, λ c w now. check_guards-single c job w now single)
