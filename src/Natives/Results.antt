-- ===== src/Natives/Results.antt =====
-- The other natives of src/natives.cpp that read the active result: counts, fields, the getters of
-- floats, and the metadata of the query. `read` is `std::atof` with the cast to a cell.
pub mod Retained
mod Tests
use omp_my_sql.Prelude.{
  ℕ, ◌/◌, Bool, true, false, [], Bytes, ◌==◌, Option, none, some, if◌then◌else◌,
}
use omp_my_sql.Prelude.Int.{ℤ, pos, negsuc}
use omp_my_sql.Result.{ResultField, ResultSet, row_count, field_count, result_count}
use omp_my_sql.Component.{Component}
use omp_my_sql.Component.Cache.{
  active_set, is_outside, at_index, set_active_result_index, save_active_cache, delete_saved_cache,
  activate_saved_cache, clear_active_cache, is_valid_cache,
}
use omp_my_sql.Component.Cache.Cells.{
  no_cell, cell, out_of_range, cell_at, cell_by_name, get_with, parse_int, is_nonzero,
}
use omp_my_sql.Dispatch.Write.{to_cell}

-- `mysql_rs_row_count` and `mysql_rs_field_count`
unfoldable pub rs_count : (ResultSet → ℕ) → Component → ℕ × Bool
unfolding active_set
rs_count count c = elim (active_set c) [ none ↦ (0, false) | some s ↦ (count s, true) ]

-- `mysql_rs_set_count`
unfoldable pub rs_set_count : Component → ℕ × Bool
rs_set_count c = elim c.active_cache [ none ↦ (0, false) | some r ↦ (result_count r, true) ]

-- `mysql_rs_field_name` and `mysql_rs_field_type`: the field, if the index is in range.
unfoldable pub rs_field : Component → ℤ → Option ResultField
unfolding active_set
rs_field c index = elim (active_set c) [
  | none ↦ none
  | some s ↦ if is_outside index (field_count s) then none else at_index s.fields index
]

unfoldable pub rs_field_name : Component → ℤ → Bytes × Bool
unfolding rs_field
rs_field_name c index = elim (rs_field c index) [ none ↦ ([], false) | some f ↦ (f.name, true) ]

unfoldable pub rs_field_type : Component → ℤ → ℤ
unfolding rs_field
rs_field_type c index = elim (rs_field c index) [ none ↦ negsuc 0 | some f ↦ f.type ]

-- `mysql_rs_get_float` and `mysql_rs_get_float_by`
unfoldable pub get_float : (Bytes → ℤ) → Component → ℤ → ℤ → Option (ℤ × Bool)
unfolding cell_at get_with
get_float read c row column = get_with (λ v. read v.value) (pos 0) (cell_at c row column)

unfoldable pub get_float_by : (Bytes → ℤ) → Component → ℤ → Bytes → Option (ℤ × Bool)
unfolding cell_by_name get_with
get_float_by read c row column = get_with (λ v. read v.value) (pos 0) (cell_by_name c row column)

-- `mysql_rs_get_bool_by`
unfoldable pub get_bool_by : Component → ℤ → Bytes → Option (Bool × Bool)
unfolding cell_by_name get_with parse_int
get_bool_by c row column =
    get_with (λ v. is_nonzero (parse_int v.value)) false (cell_by_name c row column)

-- `mysql_rs_is_null_by`
unfoldable pub get_is_null_by : Component → ℤ → Bytes → Option (Bool × Bool)
unfolding cell_by_name
get_is_null_by c row column = elim (cell_by_name c row column) [
  | no_cell ↦ some (true, false)
  | cell v ↦ some (v.is_null, true)
  | out_of_range ↦ none
]

-- `mysql_rs_affected_rows`, `mysql_rs_insert_id` and `mysql_rs_warning_count`, cast to `int`.
unfoldable pub rs_number : (ResultSet → ℕ) → Component → ℤ
unfolding active_set
rs_number number c = elim (active_set c) [ none ↦ pos 0 | some s ↦ to_cell (pos (number s)) ]

-- `mysql_rs_exec_time`
unfoldable pub rs_exec_time : Component → ℕ → ℤ
rs_exec_time c unit = elim c.active_cache [
  | none ↦ pos 0
  | some r ↦ to_cell (pos (if unit == 1 then r.exec_time_micros / 1000 else r.exec_time_micros))
]

-- `mysql_rs_query`
unfoldable pub rs_query : Component → Bytes × Bool
rs_query c = elim c.active_cache [ none ↦ ([], false) | some r ↦ (r.query_string, true) ]

-- `MySQL_Count`
unfoldable pub mysql_count : Component → ℕ → ℕ
unfolding active_set
mysql_count c what =
    let results : ℕ = elim c.active_cache [ none ↦ 0 | some r ↦ result_count r ] in
    let counted : ℕ = elim (active_set c) [
      | none ↦ 0
      | some s ↦ if what == 1 then field_count s else row_count s
    ] in
    if what == 2 then results else counted

-- `mysql_rs_select_set`
unfoldable pub mysql_rs_select_set : Component → ℤ → Component × Bool
unfolding set_active_result_index
mysql_rs_select_set c index = set_active_result_index c index

-- `mysql_rs_retain`
unfoldable pub mysql_rs_retain : Component → Component × ℕ
unfolding save_active_cache
mysql_rs_retain c = save_active_cache c

-- `mysql_rs_release`
unfoldable pub mysql_rs_release : Component → ℕ → Component × Bool
unfolding delete_saved_cache
mysql_rs_release c id = delete_saved_cache c id

-- `mysql_rs_activate`
unfoldable pub mysql_rs_activate : Component → ℕ → Component × Bool
unfolding activate_saved_cache
mysql_rs_activate c id = activate_saved_cache c id

-- `mysql_rs_deactivate`
unfoldable pub mysql_rs_deactivate : Component → Component × Bool
unfolding clear_active_cache
mysql_rs_deactivate c = (clear_active_cache c, true)

-- `mysql_rs_is_active`
unfoldable pub mysql_rs_is_active : Component → Bool
mysql_rs_is_active c = elim c.active_cache [ none ↦ false | some r ↦ true ]

-- `mysql_rs_is_valid`
unfoldable pub mysql_rs_is_valid : Component → ℕ → Bool
unfolding is_valid_cache
mysql_rs_is_valid c id = is_valid_cache c id
