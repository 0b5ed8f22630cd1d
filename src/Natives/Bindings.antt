-- ===== src/Natives/Bindings.antt =====
-- The natives of src/natives.cpp that make, bind and destroy models: `mysql_model_create` to
-- `mysql_model_set_key`. The address of a bound variable is a number.
pub mod Spec
pub mod Sheets
pub mod Refine
mod Tests
use omp_my_sql.Prelude.{
  ℕ, suc, Bool, true, false, ◌||◌, Bytes, is_empty, Option, none, some, if◌then◌else◌,
}
use omp_my_sql.Prelude.Int.{ℤ, pos, negsuc}
use omp_my_sql.Prelude.Map.{put}
use omp_my_sql.Model.{
  Model, ModelError, invalid, new_model, bind_int, bind_float, bind_string, unbind, clear, set_key,
}
use omp_my_sql.Component.{Component, get_connection}
use omp_my_sql.Component.Registry.{add_model, get_model, remove_model}

-- `mysql_model_create`
unfoldable pub mysql_model_create : Component → Bytes → ℕ → Component × ℕ
unfolding get_connection add_model
mysql_model_create c table handle = elim (get_connection c handle) [
  | none ↦ (c, 0)
  | some conn ↦ if is_empty table then (c, 0) else add_model c (some (new_model handle table))
]

-- `mysql_model_destroy`
unfoldable pub mysql_model_destroy : Component → ℕ → Component × Bool
unfolding remove_model
mysql_model_destroy c model = remove_model c model

-- `mysql_model_errno`
unfoldable pub mysql_model_errno : Component → ℕ → ModelError
unfolding get_model
mysql_model_errno c model = elim (get_model c model) [ none ↦ invalid | some m ↦ m.last_error ]

-- What the natives share that change a model in place: `refused` is the test of the arguments.
unfoldable pub on_model : (Model → Model) → Bool → Component → ℕ → Component × Bool
unfolding get_model
on_model change refused c model = elim (get_model c model) [
  | none ↦ (c, false)
  | some m ↦
      if refused then (c, false) else (record c { models = put model (change m) c.models }, true)
]

-- `mysql_model_bind_int`
unfoldable pub mysql_model_bind_int : Component → ℕ → ℕ → Bytes → Component × Bool
unfolding on_model
mysql_model_bind_int c model addr column =
    on_model (λ m. bind_int m column (some addr)) (is_empty column) c model

-- `mysql_model_bind_float`
unfoldable pub mysql_model_bind_float : Component → ℕ → ℕ → Bytes → Component × Bool
unfolding on_model
mysql_model_bind_float c model addr column =
    on_model (λ m. bind_float m column (some addr)) (is_empty column) c model

abbrev pub is_positive : ℤ → Bool
is_positive (pos (suc n)) = true
is_positive _ = false

-- `mysql_model_bind_string`
unfoldable pub mysql_model_bind_string : Component → ℕ → ℕ → ℤ → Bytes → Component × Bool
unfolding on_model
mysql_model_bind_string c model addr maxlen column =
    on_model (λ m. bind_string m column (some addr) maxlen)
      (is_empty column || (if is_positive maxlen then false else true)) c model

-- `mysql_model_unbind`
unfoldable pub mysql_model_unbind : Component → ℕ → Bytes → Component × Bool
unfolding get_model unbind
mysql_model_unbind c model column = elim (get_model c model) [
  | none ↦ (c, false)
  | some m ↦ let (m', done) = unbind m column in (record c { models = put model m' c.models }, done)
]

-- `mysql_model_clear`
unfoldable pub mysql_model_clear : Component → ℕ → Component × Bool
unfolding on_model
mysql_model_clear c model = on_model clear false c model

-- `mysql_model_set_key`
unfoldable pub mysql_model_set_key : Component → ℕ → Bytes → Component × Bool
unfolding on_model
mysql_model_set_key c model column = on_model (λ m. set_key m column) (is_empty column) c model

-- A call of one of these natives, and what it answers: a handle, or 1 for true.
pub data Call : Type 0 where
  create : Bytes → ℕ → Call
  destroy clear_all : ℕ → Call
  bind_int_to bind_float_to : ℕ → ℕ → Bytes → Call
  bind_string_to : ℕ → ℕ → ℤ → Bytes → Call
  unbind_from key_of : ℕ → Bytes → Call

abbrev pub answer : {A : Type 0} → A × Bool → A × ℕ
answer (c, b) = (c, if b then 1 else 0)

unfoldable pub call : Component → Call → Component × ℕ
unfolding mysql_model_create mysql_model_destroy mysql_model_bind_int mysql_model_bind_float
    mysql_model_bind_string mysql_model_unbind mysql_model_clear mysql_model_set_key
call c (create table handle) = mysql_model_create c table handle
call c (destroy model) = answer (mysql_model_destroy c model)
call c (clear_all model) = answer (mysql_model_clear c model)
call c (bind_int_to model addr column) = answer (mysql_model_bind_int c model addr column)
call c (bind_float_to model addr column) = answer (mysql_model_bind_float c model addr column)
call c (bind_string_to model addr maxlen column) =
    answer (mysql_model_bind_string c model addr maxlen column)
call c (unbind_from model column) = answer (mysql_model_unbind c model column)
call c (key_of model column) = answer (mysql_model_set_key c model column)
