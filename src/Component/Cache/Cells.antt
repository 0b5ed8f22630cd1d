-- ===== src/Component/Cache/Cells.antt =====
-- The natives of src/natives.cpp that read the active result set: `cellAt`, `cellByName` and the
-- value getters. A getter gives the value that it writes and whether there was a cell.
use omp_my_sql.Prelude.{
  ℕ, zero, suc, ◌+◌, ◌*◌, ◌-◌, Bool, true, false, not, ◌||◌, ◌&&◌, [], ◌∷◌, Bytes, ◌==◌, leb,
  Option, none, some, if◌then◌else◌,
}
use omp_my_sql.Prelude.Int.{ℤ, pos, negsuc, is_neg}
use omp_my_sql.Sql.{is_space}
use omp_my_sql.Result.{ResultValue, ResultSet, field_index, row_count, field_count}
use omp_my_sql.Component.{Component}
use omp_my_sql.Component.Cache.{active_set, is_outside, at_index}

-- A null pointer, a cell, or an access out of range.
pub data CellRead : Type 0 where
  no_cell : CellRead
  cell : ResultValue → CellRead
  out_of_range : CellRead

-- `s->rows[row][column]`
unfoldable pub read_at : ResultSet → ℤ → ℤ → CellRead
read_at s row column = elim (at_index s.rows row) [
  | none ↦ out_of_range
  | some cells ↦ elim (at_index cells column) [ none ↦ out_of_range | some v ↦ cell v ]
]

-- The guard of `cellAt`.
unfoldable pub cell_in : ResultSet → ℤ → ℤ → CellRead
unfolding read_at
cell_in s row column =
    if is_outside row (row_count s) || is_outside column (field_count s)
    then no_cell
    else read_at s row column

-- `cellAt`
unfoldable pub cell_at : Component → ℤ → ℤ → CellRead
unfolding cell_in active_set
cell_at c row column = elim (active_set c) [ none ↦ no_cell | some s ↦ cell_in s row column ]

-- `cellByName`
unfoldable pub cell_by_name : Component → ℤ → Bytes → CellRead
unfolding cell_in active_set field_index
cell_by_name c row column = elim (active_set c) [
  | none ↦ no_cell
  | some s ↦ let col = field_index s column in if is_neg col then no_cell else cell_in s row col
]

-- The digits of `std::strtol` and `std::atoi` in base 10, behind the value so far.
unfoldable pub read_digits : ℕ → Bytes → ℕ
read_digits acc [] = acc
read_digits acc (c ∷ rest) =
    let more = read_digits (acc * 10 + (c - b'0')) rest in
    if leb b'0' c && leb c b'9' then more else acc

abbrev pub negate : ℕ → ℤ
negate zero = pos 0
negate (suc n) = negsuc n

-- The sign.
unfoldable pub read_signed : Bytes → ℤ
unfolding read_digits
read_signed [] = pos 0
read_signed (c ∷ rest) =
    if c == b'-'
    then negate (read_digits 0 rest)
    else if c == b'+'
    then pos (read_digits 0 rest)
    else pos (read_digits 0 (c ∷ rest))

-- `std::strtol(s, nullptr, 10)`, short of its clamp to `long`.
unfoldable pub parse_int : Bytes → ℤ
unfolding read_signed
parse_int [] = pos 0
parse_int (c ∷ rest) =
    let later = parse_int rest in if is_space c then later else read_signed (c ∷ rest)

-- What a getter reads from a cell; an access out of range has no value.
unfoldable pub get_with : {A : Type 0} → (ResultValue → A) → A → CellRead → Option (A × Bool)
get_with value missing no_cell = some (missing, false)
get_with value missing (cell v) = some (if v.is_null then missing else value v, true)
get_with value missing out_of_range = none

abbrev pub is_nonzero : ℤ → Bool
is_nonzero (pos n) = not (n == 0)
is_nonzero (negsuc n) = true

-- `mysql_rs_get_string`, `mysql_rs_get_int` and `mysql_rs_get_bool`
unfoldable pub get_string : Component → ℤ → ℤ → Option (Bytes × Bool)
unfolding cell_at get_with
get_string c row column = get_with (λ v. v.value) [] (cell_at c row column)

unfoldable pub get_int : Component → ℤ → ℤ → Option (ℤ × Bool)
unfolding cell_at get_with parse_int
get_int c row column = get_with (λ v. parse_int v.value) (pos 0) (cell_at c row column)

unfoldable pub get_bool : Component → ℤ → ℤ → Option (Bool × Bool)
unfolding cell_at get_with parse_int
get_bool c row column = get_with (λ v. is_nonzero (parse_int v.value)) false (cell_at c row column)

-- The same by column name.
unfoldable pub get_string_by : Component → ℤ → Bytes → Option (Bytes × Bool)
unfolding cell_by_name get_with
get_string_by c row column = get_with (λ v. v.value) [] (cell_by_name c row column)

unfoldable pub get_int_by : Component → ℤ → Bytes → Option (ℤ × Bool)
unfolding cell_by_name get_with parse_int
get_int_by c row column = get_with (λ v. parse_int v.value) (pos 0) (cell_by_name c row column)

-- `mysql_rs_is_null`
unfoldable pub get_is_null : Component → ℤ → ℤ → Option (Bool × Bool)
unfolding cell_at
get_is_null c row column = elim (cell_at c row column) [
  | no_cell ↦ some (true, false)
  | cell v ↦ some (v.is_null, true)
  | out_of_range ↦ none
]
