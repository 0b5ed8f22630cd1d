-- ===== src/Natives/Bindings/Spec.antt =====
-- What the natives of models in src/natives.cpp promise: for each handle, a function from the columns
-- to their bindings, and the key.
use omp_my_sql.Prelude.{
  ℕ, suc, Bool, true, false, ◌||◌, List, [], ◌∷◌, Bytes, ◌==◌, is_empty, eq_bytes, Option, none,
  some, if◌then◌else◌,
}
use omp_my_sql.Prelude.Int.{ℤ, pos}
use omp_my_sql.Model.{Field, FieldType, int, float, string}
use omp_my_sql.Natives.Bindings.{
  Call, create, destroy, clear_all, bind_int_to, bind_float_to, bind_string_to, unbind_from, key_of,
  is_positive,
}

abbrev pub is_some : {A : Type 0} → Option A → Bool
is_some none = false
is_some (some x) = true

abbrev pub Sheet : Type 0
Sheet = (Bytes → Option Field) × Bytes

-- The abstract state: the next handle, the handles that have a connection, the models.
pub record Sheets : Type 0 where
  pub next : ℕ
  pub is_live : ℕ → Bool
  pub sheets : ℕ → Option Sheet

-- A function changed at one argument.
abbrev pub set {ℓ} : {A : Type ℓ} → ℕ → A → (ℕ → A) → ℕ → A
set k x f j = if k == j then x else f j

abbrev pub blank : Sheet
blank = (λ column. none, [])

abbrev pub bind : Bytes → FieldType → ℕ → ℤ → Sheet → Sheet
bind column t addr maxlen (f, key) = (
  λ c.
      if eq_bytes column c
      then some (record { column = column; type = t; addr = some addr; maxlen = maxlen })
      else f c,
  key,
)

abbrev pub unbind : Bytes → Sheet → Sheet
unbind column (f, key) = (λ c. if eq_bytes column c then none else f c, key)

-- The model of a handle, if it has one and the arguments are not refused, is changed.
unfoldable pub change : (Sheet → Sheet) → Bool → ℕ → Sheets → Sheets × ℕ
change f refused model s = elim (s.sheets model) [
  | none ↦ (s, 0)
  | some x ↦ if refused then (s, 0) else (record s { sheets = set model (some (f x)) s.sheets }, 1)
]

unfoldable pub call : Sheets → Call → Sheets × ℕ
unfolding change
call s (create table handle) =
    let made = record s { next = suc s.next; sheets = set s.next (some blank) s.sheets } in
    if s.is_live handle then if is_empty table then (s, 0) else (made, s.next) else (s, 0)
call s (destroy model) =
    (record s { sheets = set model none s.sheets }, if is_some (s.sheets model) then 1 else 0)
call s (clear_all model) = change (λ x. (blank.0, x.1)) false model s
call s (bind_int_to model addr column) =
    change (bind column int addr (pos 0)) (is_empty column) model s
call s (bind_float_to model addr column) =
    change (bind column float addr (pos 0)) (is_empty column) model s
call s (bind_string_to model addr maxlen column) =
    change (bind column string addr maxlen)
      (is_empty column || (if is_positive maxlen then false else true)) model s
call s (unbind_from model column) = elim (s.sheets model) [
  | none ↦ (s, 0)
  | some x ↦ (
    record s { sheets = set model (some (unbind column x)) s.sheets },
    if is_some (x.0 column) then 1 else 0,
  )
]
call s (key_of model column) = change (λ x. (x.0, column)) (is_empty column) model s

unfoldable pub run : Sheets → List Call → Sheets × List ℕ
unfolding call
run s [] = (s, [])
run s (x ∷ xs) = let (s', y) = call s x in let (s'', ys) = run s' xs in (s'', y ∷ ys)
