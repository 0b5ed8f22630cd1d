-- ===== src/Dispatch/Write.antt =====
-- `applyModelResult` of src/MySQLComponent.cpp: the result of a model operation is written to the
-- bound variables.
use omp_my_sql.Prelude.{
  ℕ, ◌-◌, ◌%◌, ◌^◌, List, [], ◌∷◌, ltb, get_elem?, Option, none, some, if◌then◌else◌,
}
use omp_my_sql.Prelude.Int.{ℤ, pos, negsuc}
use omp_my_sql.Prelude.Map.{put}
use omp_my_sql.Amx.{Amx}
use omp_my_sql.Result.{ResultValue, ResultSet, field_index}
use omp_my_sql.Model.{
  int, float, string, Field, Model, ModelError, ok, no_data, invalid, find, insert, key_field,
  set_error,
}
use omp_my_sql.Query.{QueryJob}
use omp_my_sql.Component.{Component}
use omp_my_sql.Component.Registry.{get_model}
use omp_my_sql.Component.Cache.{at_index}
use omp_my_sql.Component.Cache.Cells.{parse_int}

-- A number cast to a cell of 32 bits.
abbrev pub signed32 : ℕ → ℤ
signed32 m = if ltb m (2 ^ 31) then pos m else negsuc ((2 ^ 32 - 1) - m)

abbrev pub to_cell : ℤ → ℤ
to_cell (pos n) = signed32 (n % 2 ^ 32)
to_cell (negsuc n) = signed32 ((2 ^ 32 - 1) - n % 2 ^ 32)

module _ (a : Amx) where
  -- The switch on the type of a bound field.
  unfoldable pub write_value : Field → ℕ → ResultValue → a.Memory → a.Memory
  unfolding parse_int
  write_value f p v mem = elim f.type [
    | int ↦ a.set_cell mem p (if v.is_null then pos 0 else to_cell (parse_int v.value))
    | float ↦ a.set_cell mem p (if v.is_null then pos 0 else a.float_cell v.value)
    | string ↦ elim f.maxlen [
      | pos n ↦
          if ltb 0 n then a.set_string mem p (if v.is_null then [] else v.value) f.maxlen else mem
      | negsuc n ↦ mem
    ]
  ]

  -- One round of the loop over the bound fields.
  unfoldable pub write_field : ResultSet → List ResultValue → Field → a.Memory → a.Memory
  unfolding write_value field_index
  write_field s row f mem = elim f.addr [
    | none ↦ mem
    | some p ↦ elim (at_index row (field_index s f.column)) [
      | none ↦ mem
      | some v ↦ write_value f p v mem
    ]
  ]

  unfoldable pub write_fields : ResultSet → List ResultValue → List Field → a.Memory → a.Memory
  unfolding write_field
  write_fields s row [] mem = mem
  write_fields s row (f ∷ fs) mem = write_fields s row fs (write_field s row f mem)

  abbrev pub first_set : QueryJob → Option ResultSet
  first_set job = elim job.result [ none ↦ none | some r ↦ get_elem? r.sets 0 ]

  -- `succeeded ? Ok : Invalid`
  abbrev pub status : QueryJob → ModelError
  status job = if job.succeeded then ok else invalid

  -- The key variable takes the new id.
  unfoldable pub write_key : QueryJob → Model → a.Memory → a.Memory
  write_key job m mem = elim (key_field m) [
    | none ↦ mem
    | some f ↦ elim f.addr [
      | none ↦ mem
      | some p ↦ elim (first_set job) [
        | none ↦ mem
        | some s ↦ if job.succeeded then a.set_cell mem p (to_cell (pos s.insert_id)) else mem
      ]
    ]
  ]

  -- FIND: the first row of the first set.
  unfoldable pub write_row : QueryJob → Model → a.Memory → ModelError × a.Memory
  unfolding write_fields
  write_row job m mem = elim (first_set job) [
    | none ↦ (no_data, mem)
    | some s ↦ elim (get_elem? s.rows 0) [
      | none ↦ (no_data, mem)
      | some row ↦ if job.succeeded then (ok, write_fields s row m.fields mem) else (no_data, mem)
    ]
  ]

  unfoldable pub model_result : QueryJob → Model → a.Memory → ModelError × a.Memory
  unfolding write_key write_row
  model_result job m mem = elim job.model_op [
    | none ↦ (status job, mem)
    | some op ↦ elim op [
      | insert ↦ (status job, write_key job m mem)
      | find ↦ write_row job m mem
      | _ ↦ (status job, mem)
    ]
  ]

  -- `applyModelResult`
  unfoldable pub apply_model_result : QueryJob → Component × a.Memory → Component × a.Memory
  unfolding get_model model_result
  apply_model_result job (c, mem) = elim (get_model c job.model_handle) [
    | none ↦ (c, mem)
    | some m ↦
        let (error, mem') = model_result job m mem in
        (record c { models = put job.model_handle (set_error m error) c.models }, mem')
  ]
