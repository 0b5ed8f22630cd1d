-- ===== src/Natives/Models.antt =====
-- The model operations of src/natives.cpp: `DecodeFormat`, `ModelExecute` and `mysql_model_save`.
-- `conn_at` gives the connection object at an address.
pub mod Injection
use omp_my_sql.Prelude.{
  ℕ, Bool, true, false, not, ◌||◌, List, [], ◌∷◌, Bytes, ltb, ◌==◌, is_empty, length, Option, none,
  some, if◌then◌else◌,
}
use omp_my_sql.Prelude.Int.{ℤ, pos, negsuc}
use omp_my_sql.Prelude.Map.{put}
use omp_my_sql.Amx.{Amx}
use omp_my_sql.Model.{
  Model, ModelOp, find, insert, update, delete, Field, FieldType, int, float, string, invalid,
  set_error, key_field,
}
use omp_my_sql.Model.Literals.{model_sql}
use omp_my_sql.Query.{CallbackArg, int_arg, float_arg, string_arg, QueryJob, new_job}
use omp_my_sql.Connection.Client.{Driver, Connection, escape}
use omp_my_sql.Component.{Component, get_connection, GuardReject, none_rejected, enqueue_job}
use omp_my_sql.Component.Registry.{get_model}
use omp_my_sql.Natives.Format.{amx_string_param, cell_param}

module _ (a : Amx) (mem : a.Memory) where
  abbrev string_param : ℤ → Bytes
  string_param = amx_string_param a none mem

  -- `DecodeFormat`: a specifier that is not known takes no value.
  unfoldable pub decode_format : Bytes → List ℤ → List CallbackArg
  decode_format [] vs = []
  decode_format (spec ∷ fmt) [] = []
  decode_format (spec ∷ fmt) (v ∷ vs) =
      let known = spec == b'd' || spec == b'i' || spec == b'f' || spec == b's' in
      let rest = decode_format fmt (if known then vs else v ∷ vs) in
      if spec == b'd' || spec == b'i'
      then int_arg (cell_param a none mem v) ∷ rest
      else if spec == b'f'
      then float_arg (cell_param a none mem v) ∷ rest
      else if spec == b's'
      then string_arg (string_param v) ∷ rest
      else rest

  -- The callback and its arguments, from the cells behind the model handle.
  unfoldable pub with_callback : QueryJob → List ℤ → QueryJob
  unfolding decode_format
  with_callback job [] = job
  with_callback job (callback ∷ []) = record job { callback = string_param callback }
  with_callback job (callback ∷ format ∷ values) = record job {
    callback = string_param callback;
    args = decode_format (string_param format) values;
  }

module _ (d : Driver) (conn_at : ℕ → Connection d) (a : Amx) (mem : a.Memory) where
  abbrev pub sql_for : ℕ → ModelOp → Model → Bytes
  sql_for conn op m = model_sql a (some (escape d (conn_at conn))) mem op m

  -- The job of a model operation.
  unfoldable pub model_job : ℕ → ModelOp → Model → ℕ → List ℤ → QueryJob
  unfolding with_callback
  model_job handle op m conn params =
      with_callback a mem
        (record new_job {
          connection_handle = m.connection_handle;
          sql = sql_for conn op m;
          model_handle = handle;
          model_op = some op;
        })
        params

  abbrev refuse : Component → ℕ → Model → Component × Bool
  refuse c handle m = (record c { models = put handle (set_error m invalid) c.models }, false)

  abbrev is_accepted : GuardReject → Bool
  is_accepted none_rejected = true
  is_accepted _ = false

  -- `ModelExecute`
  unfoldable pub model_execute : Component → ℕ → ModelOp → List ℤ → ℕ → Component × Bool
  unfolding model_job get_model get_connection
  model_execute c handle op params now = elim (get_model c handle) [
    | none ↦ (c, false)
    | some m ↦ elim (get_connection c m.connection_handle) [
      | none ↦ refuse c handle m
      | some conn ↦
          let (c', reason) = enqueue_job c (model_job handle op m conn params) now in
          if is_empty (sql_for conn op m) then refuse c handle m else (c', is_accepted reason)
    ]
  ]

  abbrev is_set : ℤ → Bool
  is_set (pos n) = not (n == 0)
  is_set (negsuc n) = true

  -- Is the bound key variable set?
  unfoldable pub key_is_set : Model → Bool
  key_is_set m = elim (key_field m) [
    | none ↦ false
    | some f ↦ elim f.addr [
      | none ↦ false
      | some p ↦ elim f.type [
        | string ↦ ltb 0 (length (a.string_at mem p))
        | _ ↦ is_set (a.cell_at mem p)
      ]
    ]
  ]

  -- `mysql_model_save`
  unfoldable pub model_save : Component → ℕ → List ℤ → ℕ → Component × Bool
  unfolding model_execute key_is_set
  model_save c handle params now = elim (get_model c handle) [
    | none ↦ (c, false)
    | some m ↦ model_execute c handle (if key_is_set m then update else insert) params now
  ]

  -- `mysql_model_find`, `mysql_model_insert`, `mysql_model_update` and `mysql_model_delete`
  unfoldable pub mysql_model_find : Component → ℕ → List ℤ → ℕ → Component × Bool
  unfolding model_execute
  mysql_model_find c handle params now = model_execute c handle find params now

  unfoldable pub mysql_model_insert : Component → ℕ → List ℤ → ℕ → Component × Bool
  unfolding model_execute
  mysql_model_insert c handle params now = model_execute c handle insert params now

  unfoldable pub mysql_model_update : Component → ℕ → List ℤ → ℕ → Component × Bool
  unfolding model_execute
  mysql_model_update c handle params now = model_execute c handle update params now

  unfoldable pub mysql_model_delete : Component → ℕ → List ℤ → ℕ → Component × Bool
  unfolding model_execute
  mysql_model_delete c handle params now = model_execute c handle delete params now
