-- ===== src/Amx.antt =====
-- The AMX (the Pawn virtual machine of open.mp) and floating point, which are not part of the
-- sources: what the natives of src/natives.cpp read and write there are the fields of a record.
use omp_my_sql.Prelude.{ℕ, Bytes, Option}
use omp_my_sql.Prelude.Int.{ℤ}

pub record Amx : Type 1 where
  -- the cells of a script
  pub Memory : Type 0
  -- `amx_GetAddr` of an argument cell; `none` if it fails or gives a null pointer
  pub address : Memory → ℤ → Option ℕ
  -- `*addr`, and a write of it
  pub cell_at : Memory → ℕ → ℤ
  pub set_cell : Memory → ℕ → ℤ → Memory
  -- `amx_StrLen` and `amx_GetString`; `amx_SetString` with the size of the array
  pub string_at : Memory → ℕ → Bytes
  pub set_string : Memory → ℕ → Bytes → ℤ → Memory
  -- `std::to_string` of the float that a cell holds, and the cell of `strtof` of a text
  pub float_text : ℤ → Bytes
  pub float_cell : Bytes → ℤ
