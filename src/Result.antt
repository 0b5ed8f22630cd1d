-- ===== src/Result.antt =====
-- src/Result.hpp: the buffered results of a query.
use omp_my_sql.Prelude.{
  ℕ, suc, Bool, List, [], ◌∷◌, Bytes, eq_bytes, length, if◌then◌else◌, ◌≡◌, All,
}
use omp_my_sql.Prelude.Int.{ℤ, pos, negsuc}

pub record ResultField : Type 0 where
  pub name : Bytes
  pub type : ℤ

pub record ResultValue : Type 0 where
  pub value : Bytes
  pub is_null : Bool

pub record ResultSet : Type 0 where
  pub fields : List ResultField
  pub rows : List (List ResultValue)
  pub affected_rows : ℕ
  pub insert_id : ℕ
  pub warning_count : ℕ

pub record QueryResult : Type 0 where
  pub sets : List ResultSet
  pub exec_time_micros : ℕ
  pub query_string : Bytes

abbrev pub row_count : ResultSet → ℕ
row_count s = length s.rows

abbrev pub field_count : ResultSet → ℕ
field_count s = length s.fields

abbrev pub result_count : QueryResult → ℕ
result_count r = length r.sets

-- The loop of `fieldIndex`, from index `i` on.
unfoldable pub index_from : ℕ → Bytes → List ResultField → ℤ
index_from i name [] = negsuc 0
index_from i name (f ∷ fs) = if eq_bytes f.name name then pos i else index_from (suc i) name fs

-- `ResultSet::fieldIndex`
unfoldable pub field_index : ResultSet → Bytes → ℤ
unfolding index_from
field_index s name = index_from 0 name s.fields

-- Every row has one cell for each field: what the readers of a result set rely on.
abbrev pub IsRectangular : ResultSet → Type 0
IsRectangular s = All (λ row. length row ≡ length s.fields) s.rows

abbrev pub IsWellFormed : QueryResult → Type 0
IsWellFormed r = All IsRectangular r.sets
