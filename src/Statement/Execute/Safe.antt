-- ===== src/Statement/Execute/Safe.antt =====
-- The indices and the handles that `PreparedStatement::execute` (src/Statement.cpp) uses, and the
-- shape of the rows that it buffers.
use omp_my_sql.Prelude.{
  ℕ, Bool, true, List, [], ◌∷◌, Bytes, Option, none, some, if◌then◌else◌, ◌≡◌, ◌≢◌, sym, ◌∙◌, arith,
  Option-cases, Bool-cases, inl, inr, ◌==◌, not, ◌&&◌,
}
use omp_my_sql.Prelude.Int.{ℤ, pos, negsuc}
use omp_my_sql.Result.{QueryResult, IsWellFormed}
use omp_my_sql.Statement.{
  Param, PreparedStatement, is_valid, bind_param, ensure_param, new_statement,
}
use omp_my_sql.Statement.Binds.{IsSized, new_statement-IsSized, bind_param-param_at}
use omp_my_sql.Statement.Execute.{StatementClient, prepare, bind_and_execute, execute}
use omp_my_sql.Statement.Execute.Rows.{
  bind_values-defined, result_of-IsWellFormed, IsDefined, IsDone, length-reconciled,
}

-- One staged value for each parameter, and a handle once the statement is prepared.
pub record IsReady (s : PreparedStatement) : Type 0 where
  pub sized : IsSized s
  pub has_stmt : s.prepared ≡ true → s.stmt ≢ none

module _ {H : Type 0} (k : StatementClient H) where
  prepare-IsReady : (h : H) (s : PreparedStatement) → IsReady s → IsReady (prepare k h s).1
  unfolding prepare
  prepare-IsReady h s p = elim (Bool-cases s.prepared) [
    | inl b ↦ rw (prepare, b) (record { sized = p.sized; has_stmt = λ x. p.has_stmt b })
    | inr b ↦ elim (Option-cases (k.init h).1) [
      | inl e ↦
          rw (prepare, b, e)
            (record { sized = p.sized; has_stmt = λ t. absurd (ground (arith, b, t)) })
      | inr (t, e) ↦ elim (Bool-cases (k.prepare t s.query (k.init h).0).1) [
        | inl ok ↦
            rw (prepare, b, e, ok)
              (record {
                sized = length-reconciled _ s.param_count s.params p.sized;
                has_stmt = λ x y. ground (arith, y);
              })
        | inr ok ↦
            rw (prepare, b, e, ok) (record { sized = p.sized; has_stmt = λ x y. ground (arith, y) })
      ]
    ]
  ]

  prepare-prepared :
      (h : H) (s : PreparedStatement) → (prepare k h s).2 ≡ true → (prepare k h s).1.prepared ≡ true
  unfolding prepare
  prepare-prepared h s ok = ground arith

  bind_and_execute-IsDone :
      (t : ℕ) (h : H) (s : PreparedStatement) (out : QueryResult)
      → IsSized s
      → IsWellFormed out
      → IsDone (bind_and_execute k t h s out)
  unfolding bind_and_execute
  bind_and_execute-IsDone t h s out z w =
      let (bs, e) = bind_values-defined s.param_count 0 s.params (ground (arith, z)) in
      let h₂ = if s.param_count == 0 then h else (k.bind_param t bs h).0 in
      elim (Bool-cases (not (s.param_count == 0) && not (k.bind_param t bs h).1)) [
        | inl bad ↦ rw (bind_and_execute, e, bad) w
        | inr fine ↦ elim (Option-cases (k.stmt_execute t h₂).1) [
          | inl q ↦ rw (bind_and_execute, e, fine, q) w
          | inr (x, q) ↦ rw (bind_and_execute, e, fine, q) (result_of-IsWellFormed x out w)
        ]
      ]

  done-IsDefined :
      (h : H) (o : Option (H × QueryResult × Bool))
      → IsDone o
      → IsDefined
          (elim o as (λ x. Option H × Option (QueryResult × Bool)) [
            | none ↦ (some h, none)
            | some r ↦ (some r.0, some (r.1, r.2))
          ]).1
  done-IsDefined h none q = q
  done-IsDefined h (some r) q = q

  -- On a live connection, executing a statement that has one staged value for each parameter and,
  -- once prepared, a handle, stays within its parameters and never uses a missing handle. The
  -- statement is then as before in both respects, and every buffered row has one cell for each field.
  pub execute-IsReady :
      (h : H) (s : PreparedStatement) (out : QueryResult)
      → IsReady s
      → let (raw, s', r) = execute k (some h) s out in IsReady s' × IsDefined r
  unfolding execute
  execute-IsReady h s out p = elim (Bool-cases (is_valid s)) [
    | inr v ↦ rw (execute, v) (p, tt)
    | inl v ↦ elim (Bool-cases (prepare k h s).2) [
      | inr ok ↦ rw (execute, v, ok) (prepare-IsReady h s p, tt)
      | inl ok ↦
          let p' = prepare-IsReady h s p in
          elim (Option-cases (prepare k h s).1.stmt) [
            | inl none_made ↦ absurd (p'.has_stmt (prepare-prepared h s ok) none_made)
            | inr (t, e) ↦ (
              rw (execute, v, ok) p',
              rw (execute, v, ok, e)
                  (done-IsDefined (prepare k h s).0
                    (bind_and_execute k t (prepare k h s).0
                      (record (prepare k h s).1 { stmt = some t }) (record out { sets = [] }))
                    (bind_and_execute-IsDone t (prepare k h s).0
                      (record (prepare k h s).1 { stmt = some t }) (record out { sets = [] })
                      p'.sized tt)),
            )
          ]
    ]
  ]

bind_param_frame :
    (f : Param → Param) (s : PreparedStatement) (i : ℕ)
    → let s' = bind_param f s (pos i) in (s'.stmt ≡ s.stmt) × (s'.prepared ≡ s.prepared)
unfolding bind_param ensure_param
bind_param_frame f s i = ground arith

pub new_statement-IsReady : (conn : Option ℕ) (query : Bytes) → IsReady (new_statement conn query)
unfolding new_statement
new_statement-IsReady conn query = record {
  sized = new_statement-IsSized conn query;
  has_stmt = λ x y. ground (arith, x);
}

pub bind_param-IsReady :
    (f : Param → Param) (s : PreparedStatement) (i : ℤ) → IsReady s → IsReady (bind_param f s i)
unfolding bind_param ensure_param
bind_param-IsReady f s (negsuc n) p = p
bind_param-IsReady f s (pos i) p =
    let (a, b) = bind_param_frame f s i in
    record {
      sized = (bind_param-param_at f s i p.sized).0;
      has_stmt = λ x y. p.has_stmt (sym b ∙ x) (sym a ∙ y);
    }

-- Any number of binds and executions of a new statement, one after the other.
pub data Use (H : Type 0) : Type 0 where
  binds : (Param → Param) → ℤ → Use H
  executes : H → QueryResult → Use H

module _ {H : Type 0} (k : StatementClient H) where
  unfoldable pub use_all : List (Use H) → PreparedStatement → PreparedStatement
  use_all [] s = s
  use_all (binds f i ∷ uses) s = use_all uses (bind_param f s i)
  use_all (executes h out ∷ uses) s = use_all uses (execute k (some h) s out).1

  use_all-IsReady :
      (uses : List (Use H)) (s : PreparedStatement) → IsReady s → IsReady (use_all uses s)
  unfolding use_all
  use_all-IsReady [] s p = p
  use_all-IsReady (binds f i ∷ uses) s p = use_all-IsReady uses _ (bind_param-IsReady f s i p)
  use_all-IsReady (executes h out ∷ uses) s p =
      use_all-IsReady uses (execute k (some h) s out).1 (execute-IsReady k h s out p).0

  -- However a new statement is bound and executed on live connections, its next execution stays
  -- within its parameters and uses no missing handle, and every row that it buffers has one cell
  -- for each field.
  pub execute-IsDefined :
      (conn : Option ℕ) (query : Bytes) (uses : List (Use H)) (h : H) (out : QueryResult)
      → IsDefined (execute k (some h) (use_all uses (new_statement conn query)) out).2
  execute-IsDefined conn query uses h out =
      let s = new_statement conn query in
      (execute-IsReady k h (use_all uses s) out
        (use_all-IsReady uses s (new_statement-IsReady conn query))).1
