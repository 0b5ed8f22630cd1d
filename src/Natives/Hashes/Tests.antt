-- ===== src/Natives/Hashes/Tests.antt =====
-- A password that is hashed and verified by the natives of src/natives.cpp.
use omp_my_sql.Prelude.{
  true, false, [], ◌∷◌, ◌++◌, map, Bytes, codes, none, some, ◌==◌, if◌then◌else◌, ◌≡◌, refl,
}
use omp_my_sql.Prelude.Int.{pos, negsuc}
use omp_my_sql.Amx.{Amx}
use omp_my_sql.Query.{int_arg}
use omp_my_sql.Component.{new_component}
use omp_my_sql.Dispatch.{Host, World, find_script, on_tick}
use omp_my_sql.Hashing.{Argon2, c_str, run_hash}
use omp_my_sql.Natives.Format.{amx_string_param}
use omp_my_sql.Natives.Models.{decode_format}
use omp_my_sql.Natives.Hashes.{mysql_hash, mysql_verify, mysql_hash_sync}
use omp_my_sql.Natives.Hashes.Delivery.{confirmation, mysql_verify-on_tick}

-- The texts of a script, by their addresses.
abbrev amx : Amx
amx = record {
  Memory = Bytes;
  address = λ mem p. elim p [ pos n ↦ some n | negsuc k ↦ none ];
  cell_at = λ mem p. pos p;
  set_cell = λ mem p v. mem;
  string_at = λ mem p.
      if p == 1
      then codes "secret"
      else if p == 2
      then codes "$argon2id$secret"
      else if p == 3
      then codes "OnChecked"
      else mem;
  set_string = λ mem p s n. s;
  float_text = λ c. codes "0.000000";
  float_cell = λ s. pos 0;
}

abbrev host : Host amx
host = record {
  has_pawn = true;
  has_core = true;
  main_script = some 1;
  side_scripts = [];
  has_public = λ script name. true;
  is_connected = λ p. true;
  exec = λ call state. state;
}

abbrev world : World amx
world = record { component = new_component; memory = codes "d"; hashes = []; calls = [] }

abbrev library : Argon2
library = record {
  hash_encoded = λ params password salt. some (codes "$argon2id$" ++ c_str password);
  accepts = λ variant encoded password. true;
}

-- Without a callback nothing is hashed or verified.
too_few_arguments :
    (mysql_hash amx world.memory (pos 1 ∷ []) [] ≡ ([], false))
    × (mysql_verify amx world.memory (pos 1 ∷ pos 2 ∷ []) [] ≡ ([], false))
unfolding mysql_hash mysql_verify
too_few_arguments = (refl, refl)

mysql_verify-on_tick_example :
    let (work, taken) =
      mysql_verify amx world.memory (pos 1 ∷ pos 2 ∷ pos 3 ∷ pos 4 ∷ pos 77 ∷ []) [] in
    (taken ≡ true)
    × ((on_tick amx host (record world { hashes = map (run_hash library (λ i. i)) work })).calls
        ≡ confirmation amx host library 1 (codes "OnChecked") (int_arg (pos 77) ∷ []) ∷ [])
unfolding mysql_hash_sync find_script amx_string_param decode_format
mysql_verify-on_tick_example =
    mysql_verify-on_tick amx host library (λ i. i) (λ i. i) 1 (pos 1) (pos 2) (pos 3) (pos 4)
      (pos 77) [] world (λ params password salt encoded e. refl) refl (λ e. cc e) refl refl
