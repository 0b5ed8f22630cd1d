-- ===== src/Model/Inert.antt =====
-- What the scanners read of the statements that src/Model.cpp builds.
pub mod Numbers
use omp_my_sql.Prelude.{
  ℕ, zero, suc, ◌+◌, ◌/◌, ◌%◌, Bool, true, false, not, ◌&&◌, ◌||◌, List, [], ◌∷◌, ◌++◌, Bytes,
  codes, ◌==◌, leb, eq_bytes, is_empty, ◌≡◌, refl, arith, map, if◌then◌else◌, Bool-cases, ◌⊎◌, inl,
  inr, All, Option, none, some,
}
use omp_my_sql.Prelude.Int.{ℤ, pos, negsuc}
use omp_my_sql.Prelude.Decimal.{digits, to_string}
use omp_my_sql.Amx.{Amx}
use omp_my_sql.Sql.{is_multi_statement, count_placeholders}
use omp_my_sql.Sql.Code.{count}
use omp_my_sql.Sql.Fragment.{
  IsInert, IsInert-nil, IsInert-append, all_inert, all_plain, all_inert-IsInert, IsEscaped,
  quoted-IsInert, minus-IsFragment, is_multi_statement-IsInert, count_placeholders-IsInert,
}
use omp_my_sql.Model.{
  Field, FieldType, int, float, string, Model, ModelOp, find, insert, update, delete, key_field,
  build_find, build_insert, build_update, build_delete,
}
use omp_my_sql.Model.Ident.{ident-IsInert}
use omp_my_sql.Model.Builders.{
  joined, quoted_columns, assigned, assignments, build_find-comma_list, build_insert-comma_list,
  build_update-assignments,
}
use omp_my_sql.Model.Literals.{field_literal, key_literal, model_sql, literal_at}
use omp_my_sql.Model.Inert.Numbers.{to_string-IsInert, is_float_text, is_float_text-IsInert}

if-IsInert : (b : Bool) (x : Bytes) → IsInert x → IsInert (if b then [] else x)
if-IsInert true x h = IsInert-nil
if-IsInert false x h = h

plain_sql : (x : Bytes) (b : Bytes) → all_inert x ≡ true → IsInert b → IsInert (x ++ b)
plain_sql x b h f = IsInert-append (all_inert-IsInert x h) f

joined-IsInert : (later : Bool) (xs : List Bytes) → All IsInert xs → IsInert (joined later xs)
unfolding joined
joined-IsInert later [] h = IsInert-nil
joined-IsInert true (x ∷ xs) h =
    plain_sql (codes ", ") _ refl (IsInert-append h.0 (joined-IsInert true xs h.1))
joined-IsInert false (x ∷ xs) h = IsInert-append h.0 (joined-IsInert true xs h.1)

quoted_columns-IsInert : (fs : List Field) → All IsInert (quoted_columns fs)
quoted_columns-IsInert [] = tt
quoted_columns-IsInert (f ∷ fs) = (ident-IsInert f.column, quoted_columns-IsInert fs)

assignments-IsInert :
    (key : Bytes) (fs : List Field) (vs : List Bytes)
    → All IsInert vs
    → All IsInert (assignments (assigned key fs vs))
unfolding assigned
assignments-IsInert key [] vs h = tt
assignments-IsInert key (f ∷ fs) [] h = tt
assignments-IsInert key (f ∷ fs) (v ∷ vs) h = elim (Bool-cases (eq_bytes f.column key)) [
  | inl e ↦ rw e (assignments-IsInert key fs vs h.1)
  | inr e ↦ rw e (
    IsInert-append (ident-IsInert f.column) (plain_sql (codes " = ") v refl h.0),
    assignments-IsInert key fs vs h.1,
  )
]

pub build_find-IsInert : (m : Model) (k : Bytes) → IsInert k → IsInert (build_find m k)
build_find-IsInert m k h = rw build_find-comma_list (
    if-IsInert _ _ (
      IsInert-append
        (plain_sql (codes "SELECT ") _ refl
          (joined-IsInert false _ (quoted_columns-IsInert m.fields)))
        (plain_sql (codes " FROM ") _ refl (
          IsInert-append (ident-IsInert m.table) (
            plain_sql (codes " WHERE ") _ refl (
              IsInert-append (ident-IsInert m.key) (
                plain_sql (codes " = ") _ refl
                  (IsInert-append h (all_inert-IsInert (codes " LIMIT 1") refl)))))))))

pub build_delete-IsInert : (m : Model) (k : Bytes) → IsInert k → IsInert (build_delete m k)
unfolding build_delete
build_delete-IsInert m k h = if-IsInert _ _ (
    plain_sql (codes "DELETE FROM ") _ refl (
      IsInert-append (ident-IsInert m.table) (
        plain_sql (codes " WHERE ") _ refl
          (IsInert-append (ident-IsInert m.key) (plain_sql (codes " = ") _ refl h)))))

pub build_insert-IsInert :
    (m : Model) (vs : List Bytes) → All IsInert vs → IsInert (build_insert m vs)
build_insert-IsInert m vs h = rw build_insert-comma_list (
    if-IsInert _ _ (
      plain_sql (codes "INSERT INTO ") _ refl (
        IsInert-append (ident-IsInert m.table) (
          plain_sql (codes " (") _ refl (
            IsInert-append (joined-IsInert false _ (quoted_columns-IsInert m.fields)) (
              plain_sql (codes ") VALUES (") _ refl (
                IsInert-append (joined-IsInert false vs h)
                  (all_inert-IsInert (codes ")") refl))))))))

pub build_update-IsInert :
    (m : Model) (vs : List Bytes) (k : Bytes)
    → All IsInert vs
    → IsInert k
    → IsInert (build_update m vs k)
build_update-IsInert m vs k h hk = rw build_update-assignments (
    if-IsInert _ _ (
      plain_sql (codes "UPDATE ") _ refl (
        IsInert-append (ident-IsInert m.table) (
          plain_sql (codes " SET ") _ refl (
            IsInert-append (joined-IsInert false _ (assignments-IsInert m.key m.fields vs h)) (
              plain_sql (codes " WHERE ") _ refl
                (IsInert-append (ident-IsInert m.key) (plain_sql (codes " = ") k refl hk))))))))

-- `mysql_real_escape_string` escapes every quote and backslash, and a float prints as `printf` has it.
module _ (a : Amx) (escape : Bytes → Bytes) (mem : a.Memory)
    (escapes : (v : Bytes) → IsEscaped (escape v))
    (floats : (c : ℤ) → is_float_text (a.float_text c) ≡ true) where
  field_literal-IsInert : (f : Field) → IsInert (field_literal a (some escape) mem f)
  unfolding field_literal
  field_literal-IsInert f = go f.type f.addr
    where
      at_addr : (t : FieldType) (p : ℕ) → IsInert (literal_at a (some escape) mem t p)
      at_addr int p = to_string-IsInert (a.cell_at mem p)
      at_addr float p = is_float_text-IsInert _ (floats (a.cell_at mem p))
      at_addr string p = quoted-IsInert (escapes (a.string_at mem p))

      go :
          (t : FieldType) (o : Option ℕ)
          → IsInert (elim o [ none ↦ codes "NULL" | some p ↦ literal_at a (some escape) mem t p ])
      go t none = all_inert-IsInert (codes "NULL") refl
      go t (some p) = at_addr t p

  field_literals-IsInert :
      (fs : List Field) → All IsInert (map (field_literal a (some escape) mem) fs)
  field_literals-IsInert [] = tt
  field_literals-IsInert (f ∷ fs) = (field_literal-IsInert f, field_literals-IsInert fs)

  key_literal-IsInert : (m : Model) → IsInert (key_literal a (some escape) mem m)
  unfolding key_literal
  key_literal-IsInert m = go (key_field m)
    where
      go :
          (o : Option Field)
          → IsInert (elim o [ none ↦ codes "NULL" | some f ↦ field_literal a (some escape) mem f ])
      go none = all_inert-IsInert (codes "NULL") refl
      go (some f) = field_literal-IsInert f

  model_sql-IsInert : (op : ModelOp) (m : Model) → IsInert (model_sql a (some escape) mem op m)
  unfolding model_sql
  model_sql-IsInert find m = build_find-IsInert m _ (key_literal-IsInert m)
  model_sql-IsInert insert m = build_insert-IsInert m _ (field_literals-IsInert m.fields)
  model_sql-IsInert update m =
      build_update-IsInert m _ _ (field_literals-IsInert m.fields) (key_literal-IsInert m)
  model_sql-IsInert delete m = build_delete-IsInert m _ (key_literal-IsInert m)

  -- Whatever table, columns and key a model has and whatever the bound variables hold, the
  -- statement of a model operation is no multi-statement and has no placeholder, provided that
  -- the client library escapes every quote and backslash and that a float prints as an optional
  -- sign and a non-empty run of digits, points and letters.
  pub model_sql-single :
      (op : ModelOp) (m : Model)
      → (is_multi_statement (model_sql a (some escape) mem op m) ≡ false)
        × (count_placeholders (model_sql a (some escape) mem op m) ≡ 0)
  model_sql-single op m =
      let f = model_sql-IsInert op m in (is_multi_statement-IsInert f, count_placeholders-IsInert f)
