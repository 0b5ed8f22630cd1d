-- ===== src/Dispatch/Tests.antt =====
-- One gamemode with every public function, a finished job and a failed one, and the theorems of the
-- dispatch of src/MySQLComponent.cpp at them.
use omp_my_sql.Prelude.{◌==◌, true, [], ◌∷◌, ◌++◌, Bytes, codes, none, some, ◌≡◌}
use omp_my_sql.Prelude.Int.{pos}
use omp_my_sql.Amx.{Amx}
use omp_my_sql.Query.{int_arg, string_arg, QueryJob, new_job}
use omp_my_sql.Component.{new_component}
use omp_my_sql.Dispatch.{HashJob, verify, Host, World, dispatch_job}
use omp_my_sql.Dispatch.Expected.{expected_calls}
use omp_my_sql.Dispatch.Calls.{dispatch_job-calls}

abbrev amx : Amx
amx = record {
  Memory = Bytes;
  address = λ mem p. some 0;
  cell_at = λ mem p. pos p;
  set_cell = λ mem p v. mem;
  string_at = λ mem p. mem;
  set_string = λ mem p s n. s;
  float_text = λ c. codes "0.000000";
  float_cell = λ s. pos 0;
}

-- Player 7 is the only one connected; the script activates a result and leaves it active.
abbrev host : Host amx
host = record {
  has_pawn = true;
  has_core = true;
  main_script = some 1;
  side_scripts = none ∷ some 2 ∷ [];
  has_public = λ script name. script == 1;
  is_connected = λ p. p == 7;
  exec = λ call w. (
    record w.0 {
      active_cache = some (record { sets = []; exec_time_micros = 0; query_string = [] });
    },
    w.1,
  );
}

abbrev finished : QueryJob
finished = record new_job {
  connection_handle = 1;
  sql = codes "SELECT 1";
  callback = codes "OnLoaded";
  args = int_arg (pos 3) ∷ string_arg (codes "x") ∷ [];
  bound_player = pos 7;
  succeeded = true;
  result = some (record { sets = []; exec_time_micros = 12; query_string = codes "SELECT 1" });
}

abbrev failed : QueryJob
failed = record new_job { connection_handle = 1; bound_player = pos 8; error_code = 1064 }

abbrev checked : HashJob
checked = record {
  op = verify;
  password = [];
  encoded = [];
  callback = codes "OnVerified";
  args = int_arg (pos 4) ∷ [];
  result = [];
  verified = true;
}

abbrev world : World amx
world = record {
  component = record new_component { completed = finished ∷ failed ∷ [] };
  memory = [];
  hashes = checked ∷ [];
  calls = [];
}

dispatch_job-calls_example :
    (dispatch_job amx host world finished).calls ≡ world.calls ++ expected_calls amx host finished
dispatch_job-calls_example = dispatch_job-calls amx host world finished
