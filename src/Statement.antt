-- ===== src/Statement.antt =====
-- src/Statement.hpp and src/Statement.cpp: the parameters of a prepared statement, staged on the
-- main thread. A float is its bit pattern, which is passed on and never looked into.
pub mod Binds
pub mod Execute
mod Tests
use omp_my_sql.Prelude.{
  ℕ, zero, suc, ◌+◌, Bool, true, false, not, ◌&&◌, ◌||◌, List, [], ◌∷◌, ◌++◌, Bytes, length,
  replicate, is_empty, Option, none, some, leb, ltb, if◌then◌else◌,
}
use omp_my_sql.Prelude.Int.{ℤ, pos, negsuc}
use omp_my_sql.Sql.{count_placeholders}

-- `StmtParam::Kind`
pub data ParamKind : Type 0 where
  null int float string : ParamKind

-- `StmtParam`; a bind sets the kind and one of the values.
pub record Param : Type 0 where
  pub kind : ParamKind
  pub int_value : ℤ
  pub float_value : ℤ
  pub string_value : Bytes

abbrev pub new_param : Param
new_param = record { kind = null; int_value = pos 0; float_value = pos 0; string_value = [] }

-- `conn` is the address of the connection, `stmt` the handle of the client library.
pub record PreparedStatement : Type 0 where
  pub conn : Option ℕ
  pub stmt : Option ℕ
  pub prepared : Bool
  pub param_count : ℕ
  pub params : List Param
  pub query : Bytes

-- `std::vector::resize`
unfoldable pub resize : ℕ → List Param → List Param
resize zero ps = []
resize (suc n) [] = new_param ∷ resize n []
resize (suc n) (p ∷ ps) = p ∷ resize n ps

-- `params_[index]` changed in place; the index is in range.
unfoldable pub modify : (Param → Param) → ℕ → List Param → List Param
modify f i [] = []
modify f zero (p ∷ ps) = f p ∷ ps
modify f (suc i) (p ∷ ps) = p ∷ modify f i ps

-- `PreparedStatement::PreparedStatement`
unfoldable pub new_statement : Option ℕ → Bytes → PreparedStatement
new_statement conn query =
    let n : ℕ = elim conn [
      | none ↦ 0
      | some c ↦ if is_empty query then 0 else count_placeholders query
    ] in
    record {
      conn = conn;
      stmt = none;
      prepared = false;
      param_count = n;
      params = resize n [];
      query = query;
    }

-- `PreparedStatement::valid`
unfoldable pub is_valid : PreparedStatement → Bool
is_valid s = elim s.conn [ none ↦ false | some c ↦ not (is_empty s.query) ]

-- `PreparedStatement::ensureParam`
unfoldable pub ensure_param : PreparedStatement → ℤ → PreparedStatement × Bool
ensure_param s (negsuc n) = (s, false)
ensure_param s (pos i) =
    if leb (length s.params) i
    then (
      record s {
        params = resize (suc i) s.params;
        param_count = if ltb s.param_count (suc i) then suc i else s.param_count;
      },
      true,
    )
    else (s, true)

-- What the four binds share.
unfoldable pub bind_param : (Param → Param) → PreparedStatement → ℤ → PreparedStatement
unfolding ensure_param
bind_param f s (negsuc n) = (ensure_param s (negsuc n)).0
bind_param f s (pos i) =
    let (s', fits) = ensure_param s (pos i) in
    if not fits then s' else record s' { params = modify f i s'.params }

unfoldable pub bind_int : PreparedStatement → ℤ → ℤ → PreparedStatement
unfolding bind_param
bind_int s index value = bind_param (λ p. record p { kind = int; int_value = value }) s index

unfoldable pub bind_float : PreparedStatement → ℤ → ℤ → PreparedStatement
unfolding bind_param
bind_float s index value = bind_param (λ p. record p { kind = float; float_value = value }) s index

unfoldable pub bind_string : PreparedStatement → ℤ → Bytes → PreparedStatement
unfolding bind_param
bind_string s index value =
    bind_param (λ p. record p { kind = string; string_value = value }) s index

unfoldable pub bind_null : PreparedStatement → ℤ → PreparedStatement
unfolding bind_param
bind_null s index = bind_param (λ p. record p { kind = null }) s index
