-- ===== src/Statement/Execute.antt =====
-- `PreparedStatement::execute` of src/Statement.cpp, which runs on the worker thread, over the
-- statement functions of the client library, which are a parameter.
pub mod Rows
pub mod Safe
use omp_my_sql.Prelude.{
  ◌&&◌, ℕ, zero, suc, ◌+◌, Bool, true, false, not, List, [], ◌∷◌, Bytes, codes, ◌==◌, leb, length,
  get_elem?, Option, none, some, if◌then◌else◌,
}
use omp_my_sql.Prelude.Int.{ℤ}
use omp_my_sql.Result.{ResultValue, ResultSet, QueryResult}
use omp_my_sql.Connection.Client.{read_fields}
use omp_my_sql.Statement.{
  ParamKind, null, int, float, string, Param, PreparedStatement, resize, is_valid,
}

-- The `MYSQL_BIND` of a parameter.
pub data Bound : Type 0 where
  longlong : ℤ → Bound
  double : ℤ → Bound
  text : Bytes → Bound
  null_bind : Bound

-- A fetched cell that is not NULL: its value, and whether `mysql_stmt_fetch_column` can fetch it
-- again when it was truncated.
pub record Fetched : Type 0 where
  pub value : Bytes
  pub refetches : Bool

pub record StoredRows : Type 0 where
  pub fields : List (Option Bytes × ℤ)
  -- `mysql_stmt_bind_result` and `mysql_stmt_store_result`
  pub binds : Bool
  pub stores : Bool
  -- the rows up to the first status of `mysql_stmt_fetch` that is neither 0 nor truncation
  pub rows : List (ℕ → Option Fetched)

pub record Executed : Type 0 where
  pub affected_rows : ℕ
  pub insert_id : ℕ
  pub metadata : Option StoredRows

pub record StatementClient (H : Type 0) : Type 0 where
  pub init : H → H × Option ℕ
  pub prepare : ℕ → Bytes → H → H × Bool
  pub param_count : ℕ → H → ℕ
  pub bind_param : ℕ → List Bound → H → H × Bool
  pub stmt_execute : ℕ → H → H × Option Executed
  pub errno : ℕ → H → ℕ
  pub error : ℕ → H → Option Bytes

-- The switch on the kind of a parameter.
unfoldable pub bound_of : Param → Bound
bound_of p = elim p.kind [
  | int ↦ longlong p.int_value
  | float ↦ double p.float_value
  | string ↦ text p.string_value
  | null ↦ null_bind
]

-- The loop over the parameters, `n` of them from index `i` on; `none` is an access out of range.
unfoldable pub bind_values : ℕ → ℕ → List Param → Option (List Bound)
unfolding bound_of
bind_values zero i ps = some []
bind_values (suc n) i ps =
    let rest = bind_values n (suc i) ps in
    elim (get_elem? ps i) [
      | none ↦ none
      | some p ↦ elim rest [ none ↦ none | some bounds ↦ some (bound_of p ∷ bounds) ]
    ]

-- `kCellBuf`
abbrev pub cell_buffer : ℕ
cell_buffer = 1024

unfoldable pub fetched_cell : Option Fetched → ResultValue
fetched_cell none = record { value = []; is_null = true }
fetched_cell (some f) =
    if leb (length f.value) cell_buffer
    then record { value = f.value; is_null = false }
    else record { value = if f.refetches then f.value else []; is_null = false }

unfoldable pub fetched_cells : ℕ → ℕ → (ℕ → Option Fetched) → List ResultValue
unfolding fetched_cell
fetched_cells zero c row = []
fetched_cells (suc n) c row = fetched_cell (row c) ∷ fetched_cells n (suc c) row

unfoldable pub fetched_rows : ℕ → List (ℕ → Option Fetched) → List (List ResultValue)
unfolding fetched_cells
fetched_rows n [] = []
fetched_rows n (row ∷ rows) = fetched_cells n 0 row ∷ fetched_rows n rows

abbrev counts : Executed → ResultSet
counts e = record {
  fields = [];
  rows = [];
  affected_rows = e.affected_rows;
  insert_id = e.insert_id;
  warning_count = 0;
}

-- The part of `execute` behind `mysql_stmt_execute`.
unfoldable pub result_of : Executed → QueryResult → QueryResult × Bool
unfolding fetched_rows read_fields
result_of e out = elim e.metadata [
  | none ↦ (record out { sets = counts e ∷ [] }, true)
  | some m ↦
      let set = record (counts e) {
        fields = read_fields m.fields;
        rows = fetched_rows (length m.fields) m.rows;
      } in
      let kept : QueryResult × Bool =
        if m.stores then (record out { sets = set ∷ [] }, true) else (out, false) in
      if m.binds then kept else (out, false)
]

module _ {H : Type 0} (k : StatementClient H) where
  -- The lazy prepare on the connection `h`, with the parameter count of the server.
  unfoldable pub prepare : H → PreparedStatement → H × PreparedStatement × Bool
  prepare h s =
      let (h₁, stmt) = k.init h in
      let prepared : H × PreparedStatement × Bool = elim stmt [
        | none ↦ (h₁, record s { stmt = none }, false)
        | some t ↦
            let (h₂, ok) = k.prepare t s.query h₁ in
            let n = k.param_count t h₂ in
            let params = if n == s.param_count then s.params else resize n s.params in
            if ok
            then (
              h₂,
              record s { stmt = some t; prepared = true; param_count = n; params = params },
              true,
            )
            else (h₂, record s { stmt = some t }, false)
      ] in
      if s.prepared then (h, s, true) else prepared

  -- Binding the parameters and executing; `none` if a parameter is out of range.
  unfoldable pub bind_and_execute :
      ℕ → H → PreparedStatement → QueryResult → Option (H × QueryResult × Bool)
  unfolding bind_values result_of
  bind_and_execute t h s out = elim (bind_values s.param_count 0 s.params) [
    | none ↦ none
    | some bounds ↦
        let (h₁, bound) = k.bind_param t bounds h in
        let h₂ = if s.param_count == 0 then h else h₁ in
        let (h₃, answer) = k.stmt_execute t h₂ in
        let executed : H × QueryResult × Bool = elim answer [
          | none ↦ (h₃, out, false)
          | some e ↦ let (out', ok) = result_of e out in (h₃, out', ok)
        ] in
        some (if not (s.param_count == 0) && not bound then (h₁, out, false) else executed)
  ]

  -- `PreparedStatement::execute`; `raw` is the handle of the connection. The last component is
  -- `none` if the code accessed a parameter out of range, or a statement that was never made.
  unfoldable pub execute :
      Option H
      → PreparedStatement
      → QueryResult
      → Option H × PreparedStatement × Option (QueryResult × Bool)
  unfolding prepare bind_and_execute
  execute raw s out =
      let out' = record out { sets = [] } in
      let ran : Option H × PreparedStatement × Option (QueryResult × Bool) = elim raw [
        | none ↦ (none, s, if s.prepared then none else some (out', false))
        | some h ↦
            let (h₁, s₁, ok) = prepare h s in
            let done : Option H × Option (QueryResult × Bool) = elim s₁.stmt [
              | none ↦ (some h₁, none)
              | some t ↦ elim (bind_and_execute t h₁ s₁ out') [
                | none ↦ (some h₁, none)
                | some r ↦ (some r.0, some (r.1, r.2))
              ]
            ] in
            if ok then (done.0, s₁, done.1) else (some h₁, s₁, some (out', false))
      ] in
      if is_valid s then ran else (raw, s, some (out', false))
