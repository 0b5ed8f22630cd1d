-- ===== src/Model/Literals.antt =====
-- The SQL literals of the bound variables of a model, and the statement that a model operation
-- sends: `ModelFieldLiteral` and the first half of `ModelExecute` of src/natives.cpp. `conn` is
-- `Connection::escape` on the connection, `none` for a null pointer.
use omp_my_sql.Prelude.{ℕ, ◌++◌, Bytes, codes, Option, none, some, map}
use omp_my_sql.Prelude.Decimal.{to_string}
use omp_my_sql.Amx.{Amx}
use omp_my_sql.Model.{
  Field, FieldType, int, float, string, Model, ModelOp, find, insert, update, delete, key_field,
  build_find, build_insert, build_update, build_delete,
}

unfoldable pub escaped : Option (Bytes → Bytes) → Bytes → Bytes
escaped none s = s
escaped (some escape) s = escape s

module _ (a : Amx) (conn : Option (Bytes → Bytes)) (mem : a.Memory) where
  unfoldable pub literal_at : FieldType → ℕ → Bytes
  unfolding escaped
  literal_at int p = to_string (a.cell_at mem p)
  literal_at float p = a.float_text (a.cell_at mem p)
  literal_at string p = codes "'" ++ (escaped conn (a.string_at mem p) ++ codes "'")

  -- `ModelFieldLiteral`
  unfoldable pub field_literal : Field → Bytes
  unfolding literal_at
  field_literal f = elim f.addr [ none ↦ codes "NULL" | some p ↦ literal_at f.type p ]

  -- `keyLit`
  unfoldable pub key_literal : Model → Bytes
  key_literal m = elim (key_field m) [ none ↦ codes "NULL" | some f ↦ field_literal f ]

  -- `sql`
  unfoldable pub model_sql : ModelOp → Model → Bytes
  model_sql find m = build_find m (key_literal m)
  model_sql insert m = build_insert m (map field_literal m.fields)
  model_sql update m = build_update m (map field_literal m.fields) (key_literal m)
  model_sql delete m = build_delete m (key_literal m)
