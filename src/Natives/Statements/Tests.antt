-- ===== src/Natives/Statements/Tests.antt =====
-- A statement that is prepared, bound and executed (src/natives.cpp).
use omp_my_sql.Prelude.{true, [], ◌∷◌, Bytes, codes, some}
use omp_my_sql.Prelude.Int.{pos}
use omp_my_sql.Amx.{Amx}
use omp_my_sql.Component.{Component, new_component}
use omp_my_sql.Dispatch.{Host, World}
use omp_my_sql.Natives.Statements.{mysql_prepare, mysql_stmt_set_int}

abbrev amx : Amx
amx = record {
  Memory = Bytes;
  address = λ mem p. some 0;
  cell_at = λ mem p. pos p;
  set_cell = λ mem p v. mem;
  string_at = λ mem p. mem;
  set_string = λ mem p s n. s;
  float_text = λ c. codes "0.000000";
  float_cell = λ s. pos 0;
}

abbrev host : Host amx
host = record {
  has_pawn = true;
  has_core = true;
  main_script = some 1;
  side_scripts = [];
  has_public = λ script name. true;
  is_connected = λ p. true;
  exec = λ call state. state;
}

abbrev connected : Component
connected = record new_component { connections = (1, 40) ∷ (2, 41) ∷ [] }

abbrev prepared : Component
prepared = (mysql_prepare connected 2 (codes "UPDATE t SET a = ?")).0

abbrev world : World amx
world = record {
  component = (mysql_stmt_set_int prepared 1 (pos 1) (pos 7)).0;
  memory = codes "OnUpdated";
  hashes = [];
  calls = [];
}
