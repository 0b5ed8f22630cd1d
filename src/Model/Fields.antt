-- ===== src/Model/Fields.antt =====
-- The bound fields of src/Model.cpp as a map from columns.
use omp_my_sql.Prelude.{
  ℕ, true, false, List, [], ◌∷◌, Bytes, eq_bytes, eq_bytes_iff, Option, none, some, ◌≡◌, refl,
  arith, if◌then◌else◌, ◌⊎◌, inr,
}
use omp_my_sql.Prelude.Int.{ℤ}
use omp_my_sql.Model.{
  Field, FieldType, Model, upsert, remove_field, find_field, upsert_field, unbind,
}

-- No two fields have one column.
abbrev pub Distinct : List Field → Type 0
Distinct [] = Unit
Distinct (f ∷ fs) = (find_field f.column fs ≡ none) × Distinct fs

-- A bound column is found as it was bound last; the others are as before.
pub find_field-upsert :
    (g : Field) (column : Bytes) (fs : List Field)
    → find_field column (upsert g fs)
      ≡ (if eq_bytes g.column column then some g else find_field column fs)
unfolding find_field upsert
find_field-upsert g column [] = refl
find_field-upsert g column (f ∷ fs) = ground (
  arith,
  find_field-upsert g column fs,
  eq_bytes_iff f.column g.column,
  eq_bytes_iff f.column column,
  eq_bytes_iff g.column column,
)

pub upsert-Distinct : (g : Field) (fs : List Field) → Distinct fs → Distinct (upsert g fs)
unfolding find_field upsert
upsert-Distinct g [] d = (refl, tt)
upsert-Distinct g (f ∷ fs) d = ground (
  arith,
  upsert-Distinct g fs d.1,
  find_field-upsert g f.column fs,
  eq_bytes_iff f.column g.column,
  eq_bytes_iff g.column f.column,
)

pub find_field-remove_field :
    (c column : Bytes) (fs : List Field)
    → Distinct fs
    → find_field column (remove_field c fs).0
      ≡ (if eq_bytes c column then none else find_field column fs)
unfolding find_field remove_field
find_field-remove_field c column [] d = ground arith
find_field-remove_field c column (f ∷ fs) d = ground (
  arith,
  find_field-remove_field c column fs d.1,
  eq_bytes_iff f.column c,
  eq_bytes_iff f.column column,
  eq_bytes_iff c column,
)

pub remove_field-Distinct :
    (c : Bytes) (fs : List Field) → Distinct fs → Distinct (remove_field c fs).0
unfolding find_field remove_field
remove_field-Distinct c [] d = tt
remove_field-Distinct c (f ∷ fs) d = ground (
  arith,
  remove_field-Distinct c fs d.1,
  find_field-remove_field c f.column fs d.1,
  eq_bytes_iff c f.column,
  eq_bytes_iff f.column c,
)

-- `unbind` reports whether the column was bound.
remove_field-found :
    (c : Bytes) (fs : List Field)
    → ((remove_field c fs).1 ≡ true) ⊎ ((find_field c fs ≡ none) × ((remove_field c fs).1 ≡ false))
unfolding find_field remove_field
remove_field-found c [] = inr (refl, refl)
remove_field-found c (f ∷ fs) = ground (arith, remove_field-found c fs)

-- Binding a column to a model whose columns are distinct keeps them distinct. The column is then
-- bound as given, and every other column as it was.
pub upsert_field-find_field :
    (m : Model) (column : Bytes) (t : FieldType) (addr : Option ℕ) (maxlen : ℤ)
    → Distinct m.fields
    → let fs = (upsert_field m column t addr maxlen).fields in
      Distinct fs
      × ((c : Bytes)
          → find_field c fs ≡ (
              if eq_bytes column c
              then some (record { column = column; type = t; addr = addr; maxlen = maxlen })
              else find_field c m.fields))
unfolding upsert_field
upsert_field-find_field m column t addr maxlen d =
    (upsert-Distinct _ m.fields d, λ c. find_field-upsert _ c m.fields)

-- Unbinding a column of a model whose columns are distinct keeps them distinct. The column is then
-- unbound and every other column is as it was; the answer is false only if it was not bound.
pub unbind-find_field :
    (m : Model) (column : Bytes)
    → Distinct m.fields
    → let (m', done) = unbind m column in
      Distinct m'.fields
      × ((c : Bytes)
          → find_field c m'.fields ≡ (if eq_bytes column c then none else find_field c m.fields))
      × ((done ≡ true) ⊎ ((find_field column m.fields ≡ none) × (done ≡ false)))
unfolding unbind
unbind-find_field m column d = (
  remove_field-Distinct column m.fields d,
  λ c. find_field-remove_field column c m.fields d,
  remove_field-found column m.fields,
)
