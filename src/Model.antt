-- ===== src/Model.antt =====
-- src/Model.hpp and src/Model.cpp: the binding of columns to Pawn variables, and the SQL that a
-- model builds. An address of the AMX is a number; a null pointer is `none`.
pub mod Fields
pub mod Ident
pub mod Builders
pub mod Literals
pub mod Inert
mod Tests
use omp_my_sql.Prelude.{
  ℕ, suc, Bool, true, false, not, ◌&&◌, ◌||◌, List, [], ◌∷◌, ◌++◌, Bytes, codes, ◌==◌, length,
  eq_bytes, is_empty, Option, none, some, if◌then◌else◌,
}
use omp_my_sql.Prelude.Int.{ℤ, pos}

-- `ModelField::Type`
pub data FieldType : Type 0 where
  int float string : FieldType

-- `ModelField`
pub record Field : Type 0 where
  pub column : Bytes
  pub type : FieldType
  pub addr : Option ℕ
  pub maxlen : ℤ

pub data ModelError : Type 0 where
  ok no_data invalid : ModelError

pub data ModelOp : Type 0 where
  find insert update delete : ModelOp

pub record Model : Type 0 where
  pub connection_handle : ℕ
  pub table : Bytes
  pub key : Bytes
  pub fields : List Field
  pub last_error : ModelError

-- `Model::Model`
abbrev pub new_model : ℕ → Bytes → Model
new_model handle table = record {
  connection_handle = handle;
  table = table;
  key = [];
  fields = [];
  last_error = ok;
}

-- The loop of `Model::upsertField`.
unfoldable pub upsert : Field → List Field → List Field
upsert g [] = g ∷ []
upsert g (f ∷ fs) =
    if eq_bytes f.column g.column
    then record f { type = g.type; addr = g.addr; maxlen = g.maxlen } ∷ fs
    else f ∷ upsert g fs

-- `Model::upsertField`
unfoldable pub upsert_field : Model → Bytes → FieldType → Option ℕ → ℤ → Model
unfolding upsert
upsert_field m column t addr maxlen = record m {
  fields = upsert (record { column = column; type = t; addr = addr; maxlen = maxlen }) m.fields;
}

unfoldable pub bind_int : Model → Bytes → Option ℕ → Model
unfolding upsert_field
bind_int m column addr = upsert_field m column int addr (pos 0)

unfoldable pub bind_float : Model → Bytes → Option ℕ → Model
unfolding upsert_field
bind_float m column addr = upsert_field m column float addr (pos 0)

unfoldable pub bind_string : Model → Bytes → Option ℕ → ℤ → Model
unfolding upsert_field
bind_string m column addr maxlen = upsert_field m column string addr maxlen

-- The loop of `Model::unbind`: the fields left, and whether one was erased.
unfoldable pub remove_field : Bytes → List Field → List Field × Bool
remove_field column [] = ([], false)
remove_field column (f ∷ fs) =
    let (rest, done) = remove_field column fs in
    if eq_bytes f.column column then (fs, true) else (f ∷ rest, done)

-- `Model::unbind`
unfoldable pub unbind : Model → Bytes → Model × Bool
unfolding remove_field
unbind m column = let (fs, done) = remove_field column m.fields in (record m { fields = fs }, done)

abbrev pub clear : Model → Model
clear m = record m { fields = [] }

abbrev pub set_key : Model → Bytes → Model
set_key m column = record m { key = column }

abbrev pub set_error : Model → ModelError → Model
set_error m e = record m { last_error = e }

-- The loop of `Model::keyField`.
unfoldable pub find_field : Bytes → List Field → Option Field
find_field column [] = none
find_field column (f ∷ fs) = if eq_bytes f.column column then some f else find_field column fs

-- `Model::keyField`
unfoldable pub key_field : Model → Option Field
unfolding find_field
key_field m = if is_empty m.key then none else find_field m.key m.fields

-- The loop of `ident`.
unfoldable pub ident_loop : Bytes → Bytes → Bytes
ident_loop out [] = out
ident_loop out (c ∷ s) = ident_loop (if c == b'`' then out ++ codes "``" else out ++ c ∷ []) s

-- `ident`
unfoldable pub ident : Bytes → Bytes
unfolding ident_loop
ident s = ident_loop (codes "`") s ++ codes "`"

-- The loops of the builders append to `sql`; the flag says that the index is not 0.
unfoldable pub find_loop : Bool → Bytes → List Field → Bytes
find_loop later sql [] = sql
find_loop later sql (f ∷ fs) =
    find_loop true ((if later then sql ++ codes ", " else sql) ++ ident f.column) fs

-- `Model::buildFind`
unfoldable pub build_find : Model → Bytes → Bytes
unfolding find_loop
build_find m key_value =
    if is_empty m.key || is_empty m.fields
    then []
    else find_loop false (codes "SELECT ") m.fields
      ++ (codes " FROM "
          ++ (ident m.table
              ++ (codes " WHERE "
                  ++ (ident m.key ++ (codes " = " ++ (key_value ++ codes " LIMIT 1"))))))

-- Columns and values go on side by side; the caller has checked that there are as many.
unfoldable pub insert_loop : Bool → Bytes → Bytes → List Field → List Bytes → Bytes × Bytes
insert_loop later cols vals (f ∷ fs) (v ∷ vs) =
    insert_loop true ((if later then cols ++ codes ", " else cols) ++ ident f.column)
      ((if later then vals ++ codes ", " else vals) ++ v) fs vs
insert_loop later cols vals _ _ = (cols, vals)

-- `Model::buildInsert`
unfoldable pub build_insert : Model → List Bytes → Bytes
unfolding insert_loop
build_insert m values =
    if is_empty m.fields || not (length values == length m.fields)
    then []
    else let (cols, vals) = insert_loop false [] [] m.fields values in
      codes "INSERT INTO "
      ++ (ident m.table ++ (codes " (" ++ (cols ++ (codes ") VALUES (" ++ (vals ++ codes ")")))))

unfoldable pub update_loop : Bytes → Bool → Bytes → List Field → List Bytes → Bytes
update_loop key first sets (f ∷ fs) (v ∷ vs) =
    let is_key = eq_bytes f.column key in
    update_loop key (if is_key then first else false)
      (if is_key
        then sets
        else (if first then sets else sets ++ codes ", ") ++ (ident f.column ++ (codes " = " ++ v)))
      fs vs
update_loop key first sets _ _ = sets

-- `Model::buildUpdate`
unfoldable pub build_update : Model → List Bytes → Bytes → Bytes
unfolding update_loop
build_update m values key_value =
    if is_empty m.key || is_empty m.fields || not (length values == length m.fields)
    then []
    else let sets = update_loop m.key true [] m.fields values in
      if is_empty sets
      then []
      else codes "UPDATE "
        ++ (ident m.table
            ++ (codes " SET "
                ++ (sets ++ (codes " WHERE " ++ (ident m.key ++ (codes " = " ++ key_value))))))

-- `Model::buildDelete`
unfoldable pub build_delete : Model → Bytes → Bytes
build_delete m key_value =
    if is_empty m.key
    then []
    else codes "DELETE FROM "
      ++ (ident m.table ++ (codes " WHERE " ++ (ident m.key ++ (codes " = " ++ key_value))))
