-- ===== src/Natives/Bindings/Refine.antt =====
-- The natives of models in src/natives.cpp against their sheets.
use omp_my_sql.Prelude.{
  ℕ, suc, Bool, false, List, [], ◌∷◌, Bytes, ◌==◌, is_empty, Option, some, if◌then◌else◌, ◌≡◌, refl,
  subst, ap, ap₂, ◌∙◌, inl, inr, arith, Bool-cases, Option-cases,
}
use mathlib.Core.Option.{none-ne-some}
use omp_my_sql.Prelude.Int.{pos}
use omp_my_sql.Prelude.Map.{
  lookup, emplace, erase, lookup-emplace_cases, lookup-erase, lookup_fresh, emplace-KeysBelow,
  erase-KeysBelow, KeysBelow-mono,
}
use omp_my_sql.Model.{
  Model, Field, new_model, find_field, remove_field, upsert_field, bind_int, bind_float,
  bind_string, unbind, clear, set_key, int, float, string,
}
use omp_my_sql.Model.Fields.{Distinct, upsert-Distinct, remove_field-Distinct}
use omp_my_sql.Component.{Component, get_connection}
use omp_my_sql.Component.Registry.{get_model, add_model, remove_model}
use omp_my_sql.Natives.Bindings.Spec
use omp_my_sql.Natives.Bindings.Spec.{is_some, Sheet, Sheets}
use omp_my_sql.Natives.Bindings.Sheets.{
  view, run, IsValid, sheets_of, sheets_of-put, sheets_of-emplace, sheets_of-erase,
  sheet-upsert_field, sheet-unbind, put-IsValid, on_model_refines, on_model-IsValid,
}
use omp_my_sql.Natives.Bindings.{
  Call, create, destroy, clear_all, bind_int_to, bind_float_to, bind_string_to, unbind_from, key_of,
  call, mysql_model_create, mysql_model_destroy, mysql_model_bind_int, mysql_model_bind_float,
  mysql_model_bind_string, mysql_model_unbind, mysql_model_clear, mysql_model_set_key,
}

remove_field-is_some :
    (column : Bytes) (fs : List Field) → (remove_field column fs).1 ≡ is_some (find_field column fs)
unfolding remove_field find_field
remove_field-is_some column [] = refl
remove_field-is_some column (f ∷ fs) = ground (arith, remove_field-is_some column fs)

unbind_refines :
    (c : Component) (k : ℕ) (column : Bytes)
    → IsValid c
    → let (c', y) = call c (unbind_from k column) in
      (view c', y) ≡ Spec.call (view c) (unbind_from k column)
unfolding call mysql_model_unbind get_model Spec.call get_connection unbind
unbind_refines c k column v = elim (Option-cases (lookup k c.models)) [
  | inl e ↦ rw (call, mysql_model_unbind, Spec.call, e) refl
  | inr (m, e) ↦
      rw (call, mysql_model_unbind, Spec.call, e)
        (ap₂
          (λ (h : ℕ → Option Sheet) (b : Bool).
            (record (view c) { sheets = h }, if b then 1 else 0))
          (sheets_of-put k (unbind m column).0 c.models
            ∙ ap (λ x. Spec.set k (some x) (sheets_of c.models))
                (sheet-unbind m column (v.0 k m e)))
          (remove_field-is_some column m.fields))
]

destroy_refines :
    (c : Component) (k : ℕ)
    → let (c', y) = call c (destroy k) in (view c', y) ≡ Spec.call (view c) (destroy k)
unfolding call mysql_model_destroy remove_model get_model Spec.call get_connection
destroy_refines c k = elim (Option-cases (lookup k c.models)) [
  | inl e ↦
      rw (call, mysql_model_destroy, remove_model, Spec.call, e)
        (ap (λ (h : ℕ → Option Sheet). (record (view c) { sheets = h }, 0))
          (sheets_of-erase k c.models))
  | inr (m, e) ↦
      rw (call, mysql_model_destroy, remove_model, Spec.call, e)
        (ap (λ (h : ℕ → Option Sheet). (record (view c) { sheets = h }, 1))
          (sheets_of-erase k c.models))
]

create_refines :
    (c : Component) (table : Bytes) (handle : ℕ)
    → IsValid c
    → let (c', y) = call c (create table handle) in
      (view c', y) ≡ Spec.call (view c) (create table handle)
unfolding call mysql_model_create add_model get_model Spec.call get_connection find_field
create_refines c table handle v = elim (Option-cases (lookup handle c.connections)) [
  | inl e ↦ rw (call, mysql_model_create, Spec.call, e) refl
  | inr (conn, e) ↦ elim (Bool-cases (is_empty table)) [
    | inl t ↦ rw (call, mysql_model_create, Spec.call, e, t) refl
    | inr t ↦
        rw (call, mysql_model_create, Spec.call, e, t)
          (ap
            (λ (h : ℕ → Option Sheet).
              (record (view c) { next = suc c.next_model; sheets = h }, c.next_model))
            (sheets_of-emplace c.next_model (new_model handle table) c.models
              (lookup_fresh c.next_model c.next_model c.models v.1 (omega arith))))
  ]
]

call_refines :
    (c : Component) (x : Call)
    → IsValid c
    → let (c', y) = call c x in (view c', y) ≡ Spec.call (view c) x
unfolding call Spec.call mysql_model_bind_int mysql_model_bind_float mysql_model_bind_string
    mysql_model_clear mysql_model_set_key bind_int bind_float bind_string find_field
call_refines c (create table handle) v = create_refines c table handle v
call_refines c (destroy k) v = destroy_refines c k
call_refines c (clear_all k) v = on_model_refines clear _ false c k (λ m. refl)
call_refines c (bind_int_to k addr column) v =
    on_model_refines _ _ (is_empty column) c k (λ m. sheet-upsert_field m column int addr (pos 0))
call_refines c (bind_float_to k addr column) v =
    on_model_refines _ _ (is_empty column) c k (λ m. sheet-upsert_field m column float addr (pos 0))
call_refines c (bind_string_to k addr maxlen column) v =
    on_model_refines _ _ _ c k (λ m. sheet-upsert_field m column string addr maxlen)
call_refines c (unbind_from k column) v = unbind_refines c k column v
call_refines c (key_of k column) v =
    on_model_refines (λ m. set_key m column) _ (is_empty column) c k (λ m. refl)

emplace-IsValid :
    (c : Component) (m : Model)
    → Distinct m.fields
    → IsValid c
    → IsValid (record c { next_model = suc c.next_model; models = emplace c.next_model m c.models })
emplace-IsValid c m d v = (
  λ j n e. elim (lookup-emplace_cases c.next_model j m n c.models e) [
    | inl same ↦ subst (λ (x : Model). Distinct x.fields) same d
    | inr old ↦ v.0 j n old
  ],
  emplace-KeysBelow (suc c.next_model) c.next_model m c.models (omega arith)
      (KeysBelow-mono c.next_model (suc c.next_model) c.models (omega arith) v.1),
)

erase-IsValid :
    (c : Component) (k : ℕ) → IsValid c → IsValid (record c { models = erase k c.models })
erase-IsValid c k v = (
  λ j n e. v.0 j n (elim (Bool-cases (k == j)) [
    | inl gone ↦ absurd (none-ne-some n (rw (← e, lookup-erase k j c.models, gone) refl))
    | inr other ↦ rw (← e, lookup-erase k j c.models, other) refl
  ]),
  erase-KeysBelow c.next_model k c.models v.1,
)

create-IsValid :
    (c : Component) (table : Bytes) (handle : ℕ)
    → IsValid c
    → IsValid (mysql_model_create c table handle).0
unfolding mysql_model_create add_model get_connection find_field
create-IsValid c table handle v = elim (Option-cases (lookup handle c.connections)) [
  | inl e ↦ rw (mysql_model_create, e) v
  | inr (conn, e) ↦ elim (Bool-cases (is_empty table)) [
    | inl t ↦ rw (mysql_model_create, e, t) v
    | inr t ↦ rw (mysql_model_create, e, t) (emplace-IsValid c (new_model handle table) tt v)
  ]
]

unbind-IsValid :
    (c : Component) (k : ℕ) (column : Bytes) → IsValid c → IsValid (mysql_model_unbind c k column).0
unfolding mysql_model_unbind get_model unbind
unbind-IsValid c k column v = elim (Option-cases (lookup k c.models)) [
  | inl e ↦ rw (mysql_model_unbind, e) v
  | inr (m, e) ↦
      rw (mysql_model_unbind, e)
        (put-IsValid k m (unbind m column).0 c e (remove_field-Distinct column m.fields (v.0 k m e))
          v)
]

call-IsValid : (c : Component) (x : Call) → IsValid c → IsValid (call c x).0
unfolding call mysql_model_destroy remove_model mysql_model_bind_int mysql_model_bind_float
    mysql_model_bind_string mysql_model_clear mysql_model_set_key bind_int bind_float bind_string
    upsert_field find_field
call-IsValid c (create table handle) v = create-IsValid c table handle v
call-IsValid c (destroy k) v = erase-IsValid c k v
call-IsValid c (clear_all k) v = on_model-IsValid clear false c k (λ m d. tt) v
call-IsValid c (bind_int_to k addr column) v =
    on_model-IsValid _ (is_empty column) c k (λ m d. upsert-Distinct _ m.fields d) v
call-IsValid c (bind_float_to k addr column) v =
    on_model-IsValid _ (is_empty column) c k (λ m d. upsert-Distinct _ m.fields d) v
call-IsValid c (bind_string_to k addr maxlen column) v =
    on_model-IsValid _ _ c k (λ m d. upsert-Distinct _ m.fields d) v
call-IsValid c (unbind_from k column) v = unbind-IsValid c k column v
call-IsValid c (key_of k column) v =
    on_model-IsValid (λ m. set_key m column) (is_empty column) c k (λ m d. d) v

-- Whatever natives of models are called, they answer what the sheets answer that the component
-- shows, and leave the component showing the sheets that these calls make, if at first the columns
-- of each model are distinct and the handles of models are below the next one.
pub run_refines :
    (xs : List Call) (c : Component)
    → IsValid c
    → let (c', ys) = run c xs in (view c', ys) ≡ Spec.run (view c) xs
unfolding run Spec.run
run_refines [] c v = refl
run_refines (x ∷ xs) c v =
    let later = run_refines xs (call c x).0 (call-IsValid c x v) in
    ap (λ (r : Sheets × List ℕ). (r.0, (call c x).1 ∷ r.1)) later
    ∙ ap (λ (r : Sheets × ℕ). (let (s, ys) = Spec.run r.0 xs in (s, r.1 ∷ ys))) (call_refines c x v)
