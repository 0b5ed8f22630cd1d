-- ===== src/Model/Tests.antt =====
-- A model of src/Model.cpp with two columns, and the theorems at it.
use omp_my_sql.Prelude.{
  ◌||◌, List, [], ◌∷◌, ◌++◌, Bytes, codes, eq_bytes, is_empty, some, if◌then◌else◌, ◌≡◌, refl,
  arith,
}
use omp_my_sql.Prelude.Int.{pos}
use omp_my_sql.Sql.Fragment.{IsInert}
use omp_my_sql.Model.{
  int, string, Model, new_model, find_field, ident, build_find, build_insert, build_update,
}
use omp_my_sql.Model.Fields.{Distinct}
use omp_my_sql.Model.Ident.{read_ident, read_ident-ident, ident-IsInert}
use omp_my_sql.Model.Builders.{comma_list, quoted_columns, build_find-comma_list}

abbrev players : Model
players = record (new_model 1 (codes "players")) {
  key = codes "id";
  fields =
      record { column = codes "id"; type = int; addr = some 0; maxlen = pos 0 }
      ∷ record { column = codes "na`me"; type = string; addr = some 1; maxlen = pos 24 }
      ∷ [];
}

abbrev values : List Bytes
values = codes "7" ∷ codes "'Bob'" ∷ []

players_update :
    build_update players values (codes "7")
    ≡ codes "UPDATE `players` SET `na``me` = 'Bob' WHERE `id` = 7"
unfolding build_update ident eq_bytes
players_update = refl

players_insert :
    build_insert players values ≡ codes "INSERT INTO `players` (`id`, `na``me`) VALUES (7, 'Bob')"
unfolding build_insert ident
players_insert = refl

players-Distinct : Distinct players.fields
unfolding find_field eq_bytes
players-Distinct = (refl, (refl, tt))

read_ident-ident_example :
    read_ident (ident (codes "a`b") ++ codes " = 1") ≡ some (codes "a`b", codes " = 1")
read_ident-ident_example = read_ident-ident (codes "a`b") (codes " = 1") (λ e. ground arith)

ident-IsInert_example : IsInert (ident (codes "a`; DROP TABLE t"))
ident-IsInert_example = ident-IsInert (codes "a`; DROP TABLE t")

build_find-comma_list_example : build_find players (codes "7") ≡ (
    if is_empty players.key || is_empty players.fields
    then []
    else (codes "SELECT " ++ comma_list (quoted_columns players.fields))
      ++ (codes " FROM "
          ++ (ident players.table
              ++ (codes " WHERE "
                  ++ (ident players.key ++ (codes " = " ++ (codes "7" ++ codes " LIMIT 1")))))))
build_find-comma_list_example = build_find-comma_list players (codes "7")
