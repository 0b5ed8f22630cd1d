-- ===== src/Natives/Results/Tests.antt =====
-- A result that is retained while others come and go (src/natives.cpp).
use omp_my_sql.Prelude.{true, List, [], ◌∷◌, codes, some, ◌≡◌, refl, arith}
use omp_my_sql.Prelude.Int.{pos}
use omp_my_sql.Result.{QueryResult}
use omp_my_sql.Component.{new_component}
use omp_my_sql.Component.Cache.{set_active_cache, save_active_cache}
use omp_my_sql.Component.Cache.Sound.{CacheCall, sets, clears, saves, deletes, activates, cache_run}
use omp_my_sql.Natives.Results.{mysql_rs_retain, mysql_rs_activate}
use omp_my_sql.Natives.Results.Retained.{mysql_rs_retain-activate}

abbrev first : QueryResult
first = record { sets = []; exec_time_micros = 12; query_string = codes "SELECT 1" }

abbrev second : QueryResult
second = record { sets = []; exec_time_micros = 7; query_string = codes "SELECT 2" }

abbrev before : List CacheCall
before = sets second ∷ saves ∷ sets first ∷ []

abbrev after : List CacheCall
after = clears ∷ sets second ∷ saves ∷ deletes 1 ∷ activates 3 ∷ []

mysql_rs_retain-activate_example :
    let (c', ok) =
      mysql_rs_activate (cache_run (mysql_rs_retain (cache_run new_component before)).0 after) 2 in
    (ok ≡ true) × (c'.active_cache ≡ some first) × (c'.active_result_index ≡ pos 0)
unfolding cache_run mysql_rs_retain set_active_cache save_active_cache
mysql_rs_retain-activate_example =
    mysql_rs_retain-activate before after first refl
      (tt, (tt, (tt, ((λ e. omega (arith, e)), (tt, tt)))))
