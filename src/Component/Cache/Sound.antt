-- ===== src/Component/Cache/Sound.antt =====
-- The reads of the result cache of src/MySQLComponent.cpp, over histories of the cache.
use omp_my_sql.Prelude.{
  ℕ, List, [], ◌∷◌, Bytes, some, All, ◌≡◌, sym, ◌∙◌, arith, ap, Option-cases, inl, inr, subst,
}
use omp_my_sql.Prelude.Int.{ℤ, pos}
use omp_my_sql.Prelude.Map.{Map, lookup, emplace, lookup-emplace_cases, lookup-erase}
use omp_my_sql.Result.{QueryResult, IsWellFormed}
use omp_my_sql.Component.{Component, new_component}
use omp_my_sql.Component.Cache.{
  set_active_cache, clear_active_cache, set_active_result_index, save_active_cache,
  activate_saved_cache, delete_saved_cache,
}
use omp_my_sql.Component.Cache.Cells.{cell_at, cell_by_name}
use omp_my_sql.Component.Cache.Inside.{IsInside, CachesOk, cell_at-IsInside, cell_by_name-IsInside}

-- What scripts and the dispatch do with the cache; `sets` is the dispatch of a result.
pub data CacheCall : Type 0 where
  sets : QueryResult → CacheCall
  clears : CacheCall
  selects : ℤ → CacheCall
  saves : CacheCall
  activates : ℕ → CacheCall
  deletes : ℕ → CacheCall

unfoldable pub cache_step : Component → CacheCall → Component
cache_step c (sets r) = set_active_cache c (some r) (pos 0)
cache_step c clears = clear_active_cache c
cache_step c (selects i) = (set_active_result_index c i).0
cache_step c saves = (save_active_cache c).0
cache_step c (activates id) = (activate_saved_cache c id).0
cache_step c (deletes id) = (delete_saved_cache c id).0

unfoldable pub cache_run : Component → List CacheCall → Component
unfolding cache_step
cache_run c [] = c
cache_run c (call ∷ calls) = cache_run (cache_step c call) calls

abbrev pub Dispatched : CacheCall → Type 0
Dispatched (sets r) = IsWellFormed r
Dispatched _ = Unit

some-inj-IsWellFormed : (r r' : QueryResult) → IsWellFormed r → some r ≡ some r' → IsWellFormed r'
some-inj-IsWellFormed r r' w e = let eq : r ≡ r' = ground (arith, e) in subst IsWellFormed eq w

saved_emplace :
    (id : ℕ) (r : QueryResult) (m : Map QueryResult) (j : ℕ) (v : QueryResult)
    → IsWellFormed r
    → ((k : ℕ) (x : QueryResult) → lookup k m ≡ some x → IsWellFormed x)
    → lookup j (emplace id r m) ≡ some v
    → IsWellFormed v
saved_emplace id r m j v w all e = elim (lookup-emplace_cases id j r v m e) [
  | inl eq ↦ subst IsWellFormed eq w
  | inr found ↦ all j v found
]

set_active_result_index_frame :
    (c : Component) (i : ℤ)
    → ((set_active_result_index c i).0.active_cache ≡ c.active_cache)
      × ((set_active_result_index c i).0.saved_caches ≡ c.saved_caches)
unfolding set_active_result_index
set_active_result_index_frame c i = ground arith

save_active_cache-CachesOk : (c : Component) → CachesOk c → CachesOk (save_active_cache c).0
unfolding save_active_cache
save_active_cache-CachesOk c ok = record {
  active = λ r e. ok.active r (ground (arith, e));
  saved = λ j v e. elim (Option-cases c.active_cache) [
    | inl q ↦ ok.saved j v (ground (arith, e, q))
    | inr (r, q) ↦
        let same : (save_active_cache c).0.saved_caches ≡ emplace c.next_cache r c.saved_caches =
          ground (arith, q) in
        saved_emplace c.next_cache r c.saved_caches j v (ok.active r q) ok.saved
          (sym (ap (lookup j) same) ∙ e)
  ];
}

cache_step-CachesOk :
    (c : Component) (call : CacheCall) → Dispatched call → CachesOk c → CachesOk (cache_step c call)
unfolding cache_step set_active_cache clear_active_cache set_active_result_index save_active_cache
    activate_saved_cache delete_saved_cache
cache_step-CachesOk c (sets r) w ok = record {
  active = λ r' e. some-inj-IsWellFormed r r' w e;
  saved = ok.saved;
}
cache_step-CachesOk c clears w ok = record {
  active = λ r' e. absurd (ground (arith, e));
  saved = ok.saved;
}
cache_step-CachesOk c (selects i) w ok =
    let (a, b) = set_active_result_index_frame c i in
    record {
      active = λ r e. ok.active r (sym a ∙ e);
      saved = λ j r e. ok.saved j r (sym (ap (lookup j) b) ∙ e);
    }
cache_step-CachesOk c saves w ok = save_active_cache-CachesOk c ok
cache_step-CachesOk c (activates id) w ok = elim (Option-cases (lookup id c.saved_caches)) [
  | inl q ↦ rw (cache_step, q) ok
  | inr (r, q) ↦
      rw (cache_step, q)
        (record {
          active = λ r' e. some-inj-IsWellFormed r r' (ok.saved id r q) e;
          saved = ok.saved;
        })
]
cache_step-CachesOk c (deletes id) w ok = record {
  active = ok.active;
  saved = λ j r e. ok.saved j r (ground (arith, e, lookup-erase id j c.saved_caches));
}

cache_run-CachesOk :
    (c : Component) (calls : List CacheCall)
    → All Dispatched calls
    → CachesOk c
    → CachesOk (cache_run c calls)
unfolding cache_run
cache_run-CachesOk c [] w ok = ok
cache_run-CachesOk c (call ∷ calls) w ok =
    cache_run-CachesOk (cache_step c call) calls w.1 (cache_step-CachesOk c call w.0 ok)

new_component-CachesOk : CachesOk new_component
unfolding lookup
new_component-CachesOk = record {
  active = λ r e. absurd (ground (arith, e));
  saved = λ id r e. absurd (ground (arith, e));
}

-- After any history of the result cache in which every dispatched result has one cell for each
-- field in each row, a read of the active result, by index or by name, stays within its rows.
pub cell_at-IsInside_always :
    (calls : List CacheCall) (row column : ℤ) (name : Bytes)
    → All Dispatched calls
    → let c = cache_run new_component calls in
      IsInside (cell_at c row column) × IsInside (cell_by_name c row name)
cell_at-IsInside_always calls row column name w =
    let ok = cache_run-CachesOk new_component calls w new_component-CachesOk in
    let c = cache_run new_component calls in
    (cell_at-IsInside c row column ok, cell_by_name-IsInside c row name ok)
