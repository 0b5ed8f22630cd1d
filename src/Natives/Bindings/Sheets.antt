-- ===== src/Natives/Bindings/Sheets.antt =====
-- The models of src/natives.cpp and src/Model.cpp as sheets: for each handle, a function from the
-- columns to their bindings, and the key.
use std.Path.{fun_ext}
use omp_my_sql.Prelude.{
  ℕ, Bool, List, [], ◌∷◌, Bytes, ◌==◌, Option, none, some, ◌≡◌, refl, subst, ap, ◌∙◌, inl, inr,
  Bool-cases, Option-cases,
}
use mathlib.Core.Option.{some-injective}
use omp_my_sql.Prelude.Int.{ℤ}
use omp_my_sql.Prelude.Map.{
  Map, lookup, put, emplace, erase, lookup-put, lookup-emplace, lookup-erase, lookup_below,
  KeysBelow, put-KeysBelow,
}
use omp_my_sql.Model.{Model, FieldType, find_field, upsert_field, unbind}
use omp_my_sql.Model.Fields.{Distinct, find_field-upsert, find_field-remove_field}
use omp_my_sql.Component.{Component, get_connection}
use omp_my_sql.Component.Registry.{get_model}
use omp_my_sql.Natives.Bindings.Spec
use omp_my_sql.Natives.Bindings.Spec.{is_some, Sheet, Sheets}
use omp_my_sql.Natives.Bindings.{Call, call, answer, on_model}

abbrev pub sheet : Model → Sheet
sheet m = (λ column. find_field column m.fields, m.key)

abbrev pub shown : Option Model → Option Sheet
shown none = none
shown (some m) = some (sheet m)

abbrev pub view : Component → Sheets
view c = record {
  next = c.next_model;
  is_live = λ handle. is_some (get_connection c handle);
  sheets = λ model. shown (get_model c model);
}

-- The natives, called one after the other: what they answer.
unfoldable pub run : Component → List Call → Component × List ℕ
unfolding call
run c [] = (c, [])
run c (x ∷ xs) = let (c', y) = call c x in let (c'', ys) = run c' xs in (c'', y ∷ ys)

-- What holds of the models: their columns are distinct, and their handles are below the next one.
abbrev pub IsValid : Component → Type 0
IsValid c =
    ((model : ℕ) (m : Model) → lookup model c.models ≡ some m → Distinct m.fields)
    × KeysBelow c.next_model c.models

abbrev pub sheets_of : Map Model → ℕ → Option Sheet
sheets_of ms model = shown (lookup model ms)

pub sheets_of-put :
    (k : ℕ) (m : Model) (ms : Map Model)
    → sheets_of (put k m ms) ≡ Spec.set k (some (sheet m)) (sheets_of ms)
sheets_of-put k m ms = fun_ext (λ j. elim (Bool-cases (k == j)) [
  | inl e ↦ rw (lookup-put k j m ms, e) refl
  | inr e ↦ rw (lookup-put k j m ms, e) refl
])

pub sheets_of-emplace :
    (k : ℕ) (m : Model) (ms : Map Model)
    → lookup k ms ≡ none
    → sheets_of (emplace k m ms) ≡ Spec.set k (some (sheet m)) (sheets_of ms)
sheets_of-emplace k m ms fresh = fun_ext (λ j. elim (Bool-cases (k == j)) [
  | inl e ↦ rw (lookup-emplace k j m ms fresh, e) refl
  | inr e ↦ rw (lookup-emplace k j m ms fresh, e) refl
])

pub sheets_of-erase :
    (k : ℕ) (ms : Map Model) → sheets_of (erase k ms) ≡ Spec.set k none (sheets_of ms)
sheets_of-erase k ms = fun_ext (λ j. elim (Bool-cases (k == j)) [
  | inl e ↦ rw (lookup-erase k j ms, e) refl
  | inr e ↦ rw (lookup-erase k j ms, e) refl
])

pub sheet-upsert_field :
    (m : Model) (column : Bytes) (t : FieldType) (addr : ℕ) (maxlen : ℤ)
    → sheet (upsert_field m column t (some addr) maxlen) ≡ Spec.bind column t addr maxlen (sheet m)
unfolding upsert_field
sheet-upsert_field m column t addr maxlen =
    ap (λ f. (f, m.key)) (fun_ext (λ c. find_field-upsert _ c m.fields))

pub sheet-unbind :
    (m : Model) (column : Bytes)
    → Distinct m.fields
    → sheet (unbind m column).0 ≡ Spec.unbind column (sheet m)
unfolding unbind
sheet-unbind m column d =
    ap (λ f. (f, m.key)) (fun_ext (λ c. find_field-remove_field column c m.fields d))

pub put-IsValid :
    (k : ℕ) (m m' : Model) (c : Component)
    → lookup k c.models ≡ some m
    → Distinct m'.fields
    → IsValid c
    → IsValid (record c { models = put k m' c.models })
put-IsValid k m m' c found d v = (
  λ j n e. elim (Bool-cases (k == j)) [
    | inl eq ↦
        subst (λ (x : Model). Distinct x.fields)
          (some-injective m' n (rw (← e, lookup-put k j m' c.models, eq) refl)) d
    | inr ne ↦ v.0 j n (rw (← e, lookup-put k j m' c.models, ne) refl)
  ],
  put-KeysBelow c.next_model k m' c.models (lookup_below c.next_model k m c.models v.1 found) v.1,
)

pub on_model_refines :
    (f : Model → Model) (g : Sheet → Sheet) (refused : Bool) (c : Component) (k : ℕ)
    → ((m : Model) → sheet (f m) ≡ g (sheet m))
    → let (c', y) = answer (on_model f refused c k) in
      (view c', y) ≡ Spec.change g refused k (view c)
unfolding on_model get_model Spec.change get_connection
on_model_refines f g refused c k same = elim (Option-cases (lookup k c.models)) [
  | inl e ↦ rw (on_model, Spec.change, e) refl
  | inr (m, e) ↦ elim (Bool-cases refused) [
    | inl r ↦ rw (on_model, Spec.change, e, r) refl
    | inr r ↦
        rw (on_model, Spec.change, e, r)
          (ap (λ (h : ℕ → Option Sheet). (record (view c) { sheets = h }, 1))
            (sheets_of-put k (f m) c.models
              ∙ ap (λ x. Spec.set k (some x) (sheets_of c.models)) (same m)))
  ]
]

pub on_model-IsValid :
    (f : Model → Model) (refused : Bool) (c : Component) (k : ℕ)
    → ((m : Model) → Distinct m.fields → Distinct (f m).fields)
    → IsValid c
    → IsValid (on_model f refused c k).0
unfolding on_model get_model
on_model-IsValid f refused c k keeps v = elim (Option-cases (lookup k c.models)) [
  | inl e ↦ rw (on_model, e) v
  | inr (m, e) ↦ elim (Bool-cases refused) [
    | inl r ↦ rw (on_model, e, r) v
    | inr r ↦ rw (on_model, e, r) (put-IsValid k m (f m) c e (keeps m (v.0 k m e)) v)
  ]
]
