-- ===== src/Natives/Bindings/Tests.antt =====
-- The natives of models of src/natives.cpp, called on a component with one connection.
use mathlib.Core.Option.{none-ne-some}
use omp_my_sql.Prelude.{List, [], ◌∷◌, codes, eq_bytes, ◌≡◌, refl}
use omp_my_sql.Prelude.Int.{pos}
use omp_my_sql.Prelude.Map.{lookup, emplace, put, erase}
use omp_my_sql.Model.{bind_int, bind_string}
use omp_my_sql.Component.{Component, new_component}
use omp_my_sql.Natives.Bindings.{
  Call, create, destroy, bind_int_to, bind_string_to, unbind_from, key_of,
}
use omp_my_sql.Natives.Bindings.Spec
use omp_my_sql.Natives.Bindings.Sheets.{run, view, IsValid}
use omp_my_sql.Natives.Bindings.Refine.{run_refines}

abbrev server : Component
server = record new_component { connections = (1, 7) ∷ [] }

abbrev calls : List Call
calls =
    create (codes "players") 1
    ∷ create (codes "players") 2
    ∷ bind_int_to 1 100 (codes "id")
    ∷ bind_int_to 1 104 (codes "score")
    ∷ bind_string_to 1 200 (pos 0) (codes "name")
    ∷ bind_string_to 1 200 (pos 24) (codes "name")
    ∷ key_of 1 (codes "id")
    ∷ unbind_from 1 (codes "score")
    ∷ unbind_from 1 (codes "score")
    ∷ destroy 1
    ∷ destroy 1
    ∷ []

calls_answers : (run server calls).1 ≡ 1 ∷ 0 ∷ 1 ∷ 1 ∷ 0 ∷ 1 ∷ 1 ∷ 1 ∷ 0 ∷ 1 ∷ 0 ∷ []
unfolding run lookup emplace put bind_string erase bind_int eq_bytes
calls_answers = refl

server-IsValid : IsValid server
unfolding lookup
server-IsValid = (λ model m e. absurd (none-ne-some m e), tt)

run_refines_example :
    let (c', ys) = run server calls in (view c', ys) ≡ Spec.run (view server) calls
run_refines_example = run_refines calls server server-IsValid
