-- ===== src/Component/Registry.antt =====
-- The registries of options, prepared statements and models of src/MySQLComponent.cpp, and the end
-- of a component's life.
use omp_my_sql.Prelude.{
  ℕ, suc, Bool, true, false, List, [], ◌∷◌, ◌==◌, Option, none, some, if◌then◌else◌,
}
use omp_my_sql.Prelude.Int.{pos}
use omp_my_sql.Prelude.Map.{lookup, emplace, erase, keys}
use omp_my_sql.Connection.Options.{ConnectionOptions, default_options}
use omp_my_sql.Model.{Model}
use omp_my_sql.Statement.{PreparedStatement}
use omp_my_sql.Query.{QueryJob, new_job}
use omp_my_sql.Component.{Component, connection_handle_of, enqueue, clear_connections}

-- `addOptions`
unfoldable pub add_options : Component → Component × ℕ
add_options c = (
  record c {
    next_options = suc c.next_options;
    options = emplace c.next_options default_options c.options;
  },
  c.next_options,
)

-- `getOptions`
unfoldable pub get_options : Component → ℕ → Option ConnectionOptions
get_options c handle = lookup handle c.options

-- `addStatement`
unfoldable pub add_statement : Component → Option PreparedStatement → Component × ℕ
add_statement c none = (c, 0)
add_statement c (some s) = (
  record c {
    next_statement = suc c.next_statement;
    statements = emplace c.next_statement s c.statements;
  },
  c.next_statement,
)

-- `getStatement`
unfoldable pub get_statement : Component → ℕ → Option PreparedStatement
get_statement c handle = lookup handle c.statements

abbrev pub teardown_job : ℕ → PreparedStatement → QueryJob
teardown_job handle s = record new_job { connection_handle = handle; statement_to_close = some s }

-- The second half of `removeStatement`: the statement is handed to its worker, if there is one.
unfoldable pub hand_over : Component → PreparedStatement → Component
unfolding enqueue
hand_over c s =
    let handle = connection_handle_of c s.conn in
    let closed : Component = elim (lookup handle c.workers) [
      | none ↦ c
      | some w ↦ enqueue c handle w (teardown_job handle s)
    ] in
    if handle == 0 then c else closed

-- `removeStatement`
unfoldable pub remove_statement : Component → ℕ → Component × Bool
remove_statement c handle = elim (lookup handle c.statements) [
  | none ↦ (c, false)
  | some s ↦ (hand_over (record c { statements = erase handle c.statements }) s, true)
]

unfoldable pub remove_statements : List ℕ → Component → Component
remove_statements [] c = c
remove_statements (handle ∷ rest) c = remove_statements rest (remove_statement c handle).0

-- `clearStatements`
unfoldable pub clear_statements : Component → Component
clear_statements c = record (remove_statements (keys c.statements) c) { statements = [] }

-- `addModel`
unfoldable pub add_model : Component → Option Model → Component × ℕ
add_model c none = (c, 0)
add_model c (some m) = (
  record c { next_model = suc c.next_model; models = emplace c.next_model m c.models },
  c.next_model,
)

-- `getModel`
unfoldable pub get_model : Component → ℕ → Option Model
get_model c handle = lookup handle c.models

-- `removeModel`
unfoldable pub remove_model : Component → ℕ → Component × Bool
remove_model c handle = (
  record c { models = erase handle c.models },
  elim (lookup handle c.models) [ none ↦ false | some m ↦ true ],
)

-- The steps that `free` and `reset` share, up to the connections.
abbrev pub forget_results : Component → Component
forget_results c = record c { active_cache = none; active_result_index = pos 0; saved_caches = [] }

-- `reset`. The completed sink of the engine is not touched.
unfoldable pub reset : (QueryJob → QueryJob) → Component → Component
reset run c =
    let c₁ = record (clear_statements (record (forget_results c) { next_cache = 1 })) {
      next_statement = 1;
      models = [];
      next_model = 1;
    } in
    record (clear_connections run c₁) { options = []; next_handle = 1; next_options = 1 }

-- `free`, up to `delete this`.
unfoldable pub free : (QueryJob → QueryJob) → Component → Component
free run c =
    record (clear_connections run (record (clear_statements (forget_results c)) { models = [] })) {
      options = [];
    }
