-- ===== src/Model/Builders.antt =====
-- The loops of the builders of src/Model.cpp against joined lists.
use omp_my_sql.Prelude.{
  Bool, true, false, not, ◌||◌, List, [], ◌∷◌, ◌++◌, Bytes, codes, ◌==◌, length, eq_bytes, is_empty,
  ◌≡◌, refl, arith, sym, ◌∙◌, append_assoc, append-nil, map, if◌then◌else◌, Bool-cases, inl, inr,
}
use omp_my_sql.Model.{
  Field, Model, ident, find_loop, build_find, insert_loop, build_insert, update_loop, build_update,
}
use omp_my_sql.Model.Ident.{ident-doubled}

-- Each item behind a comma; the first only if `later`.
unfoldable pub joined : Bool → List Bytes → Bytes
joined later [] = []
joined later (x ∷ xs) = (if later then codes ", " else []) ++ (x ++ joined true xs)

-- The items with ", " between them.
abbrev pub comma_list : List Bytes → Bytes
comma_list = joined false

abbrev pub quoted_columns : List Field → List Bytes
quoted_columns = map (λ f. ident f.column)

-- The columns but the key, each with its value.
unfoldable pub assigned : Bytes → List Field → List Bytes → List (Bytes × Bytes)
assigned key (f ∷ fs) (v ∷ vs) =
    let rest = assigned key fs vs in if eq_bytes f.column key then rest else (f.column, v) ∷ rest
assigned key _ _ = []

abbrev pub assignments : List (Bytes × Bytes) → List Bytes
assignments = map (λ a. ident a.0 ++ (codes " = " ++ a.1))

append_item :
    (later : Bool) (sql x : Bytes) (xs : List Bytes)
    → ((if later then sql ++ codes ", " else sql) ++ x) ++ joined true xs
      ≡ sql ++ joined later (x ∷ xs)
unfolding joined
append_item true sql x xs = simp append_assoc
append_item false sql x xs = append_assoc sql x (joined true xs)

find_loop-joined :
    (later : Bool) (sql : Bytes) (fs : List Field)
    → find_loop later sql fs ≡ sql ++ joined later (quoted_columns fs)
unfolding find_loop
find_loop-joined later sql [] = unfold joined in sym (append-nil sql)
find_loop-joined later sql (f ∷ fs) =
    find_loop-joined true ((if later then sql ++ codes ", " else sql) ++ ident f.column) fs
    ∙ append_item later sql (ident f.column) (quoted_columns fs)

insert_loop-joined :
    (later : Bool) (cols vals : Bytes) (fs : List Field) (vs : List Bytes)
    → length vs ≡ length fs
    → insert_loop later cols vals fs vs
      ≡ (cols ++ joined later (quoted_columns fs), vals ++ joined later vs)
unfolding insert_loop joined
insert_loop-joined later cols vals [] [] h = rw (append-nil cols, append-nil vals)
insert_loop-joined later cols vals (f ∷ fs) [] h = absurd (omega arith)
insert_loop-joined later cols vals [] (v ∷ vs) h = absurd (omega arith)
insert_loop-joined later cols vals (f ∷ fs) (v ∷ vs) h = ground (
  arith,
  insert_loop-joined true ((if later then cols ++ codes ", " else cols) ++ ident f.column)
      ((if later then vals ++ codes ", " else vals) ++ v) fs vs,
  append_item later cols (ident f.column) (quoted_columns fs),
  append_item later vals v vs,
)

update_loop-joined :
    (key : Bytes) (later : Bool) (sets : Bytes) (fs : List Field) (vs : List Bytes)
    → update_loop key (not later) sets fs vs
      ≡ sets ++ joined later (assignments (assigned key fs vs))
unfolding update_loop assigned
update_loop-joined key later sets [] vs = unfold joined in sym (append-nil sets)
update_loop-joined key later sets (f ∷ fs) [] = unfold joined in sym (append-nil sets)
update_loop-joined key true sets (f ∷ fs) (v ∷ vs) =
    let x = ident f.column ++ (codes " = " ++ v) in
    elim (Bool-cases (eq_bytes f.column key)) [
      | inl e ↦ rw e (update_loop-joined key true sets fs vs)
      | inr e ↦ rw e (
          update_loop-joined key true ((sets ++ codes ", ") ++ x) fs vs
          ∙ append_item true sets x (assignments (assigned key fs vs)))
    ]
update_loop-joined key false sets (f ∷ fs) (v ∷ vs) =
    let x = ident f.column ++ (codes " = " ++ v) in
    elim (Bool-cases (eq_bytes f.column key)) [
      | inl e ↦ rw e (update_loop-joined key false sets fs vs)
      | inr e ↦ rw e (
          update_loop-joined key true (sets ++ x) fs vs
          ∙ append_item false sets x (assignments (assigned key fs vs)))
    ]

is_empty-assignments :
    (pairs : List (Bytes × Bytes)) → is_empty (comma_list (assignments pairs)) ≡ is_empty pairs
unfolding joined
is_empty-assignments [] = refl
is_empty-assignments (a ∷ pairs) = rw ident-doubled refl

assigned-is_empty :
    (key : Bytes) (fs : List Field) (vs : List Bytes)
    → is_empty fs ≡ true
    → is_empty (assigned key fs vs) ≡ true
unfolding assigned
assigned-is_empty key [] vs h = refl
assigned-is_empty key (f ∷ fs) vs h = cc

-- The SELECT of a model that has a key and fields lists every bound column, quoted; without a key
-- or without fields no statement is built.
pub build_find-comma_list :
    (m : Model) (key_value : Bytes)
    → build_find m key_value ≡ (
        if is_empty m.key || is_empty m.fields
        then []
        else (codes "SELECT " ++ comma_list (quoted_columns m.fields))
          ++ (codes " FROM "
              ++ (ident m.table
                  ++ (codes " WHERE "
                      ++ (ident m.key ++ (codes " = " ++ (key_value ++ codes " LIMIT 1")))))))
unfolding build_find
build_find-comma_list m key_value = rw find_loop-joined

-- The INSERT of a model pairs every bound column with its value, in one order; without fields, or
-- with another number of values, no statement is built.
pub build_insert-comma_list :
    (m : Model) (values : List Bytes)
    → build_insert m values ≡ (
        if is_empty m.fields || not (length values == length m.fields)
        then []
        else codes "INSERT INTO "
          ++ (ident m.table
              ++ (codes " ("
                  ++ (comma_list (quoted_columns m.fields)
                      ++ (codes ") VALUES (" ++ (comma_list values ++ codes ")"))))))
unfolding build_insert
build_insert-comma_list m values = ground (arith, insert_loop-joined false [] [] m.fields values)

-- The UPDATE of a model assigns every bound column but the key. No statement is built without a
-- key, with another number of values than fields, or when no column but the key is bound.
pub build_update-assignments :
    (m : Model) (values : List Bytes) (key_value : Bytes)
    → build_update m values key_value ≡ (
        if is_empty m.key
          || not (length values == length m.fields)
          || is_empty (assigned m.key m.fields values)
        then []
        else codes "UPDATE "
          ++ (ident m.table
              ++ (codes " SET "
                  ++ (comma_list (assignments (assigned m.key m.fields values))
                      ++ (codes " WHERE " ++ (ident m.key ++ (codes " = " ++ key_value)))))))
unfolding build_update
build_update-assignments m values key_value = ground (
  arith,
  update_loop-joined m.key false [] m.fields values,
  is_empty-assignments (assigned m.key m.fields values),
  assigned-is_empty m.key m.fields values,
)
