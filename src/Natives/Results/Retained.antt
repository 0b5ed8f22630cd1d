-- ===== src/Natives/Results/Retained.antt =====
-- The retained results of src/natives.cpp and src/MySQLComponent.cpp over histories of the cache.
use omp_my_sql.Prelude.{
  ℕ, suc, true, List, [], ◌∷◌, All, some, none, ◌≡◌, ◌≢◌, refl, ◌∙◌, arith, Option-cases, inl, inr,
  ==_refl,
}
use omp_my_sql.Prelude.Int.{pos}
use omp_my_sql.Prelude.Map.{
  Map, lookup, emplace, lookup-emplace, lookup-erase, lookup_fresh, KeysBelow, emplace-KeysBelow,
  erase-KeysBelow, KeysBelow-mono,
}
use omp_my_sql.Result.{QueryResult}
use omp_my_sql.Component.{Component, new_component}
use omp_my_sql.Component.Cache.{
  set_active_cache, clear_active_cache, set_active_result_index, save_active_cache,
  activate_saved_cache, delete_saved_cache,
}
use omp_my_sql.Component.Cache.Sound.{
  CacheCall, sets, clears, selects, saves, activates, deletes, cache_step, cache_run,
}
use omp_my_sql.Natives.Results.{mysql_rs_retain, mysql_rs_activate}

-- The call does not release the result of this handle.
abbrev pub Spares : ℕ → CacheCall → Type 0
Spares id (deletes j) = j ≢ id
Spares id _ = Unit

lookup-emplace_old :
    (k j : ℕ) (v r : QueryResult) (m : Map QueryResult)
    → lookup j m ≡ some r
    → lookup j (emplace k v m) ≡ some r
unfolding lookup emplace
lookup-emplace_old k j v r [] e = ground arith
lookup-emplace_old k j v r ((i, w) ∷ m) e = ground (arith, lookup-emplace_old k j v r m)

cache_step-saved :
    (id : ℕ) (r : QueryResult) (c : Component) (call : CacheCall)
    → lookup id c.saved_caches ≡ some r
    → Spares id call
    → lookup id (cache_step c call).saved_caches ≡ some r
unfolding cache_step set_active_cache clear_active_cache set_active_result_index save_active_cache
    activate_saved_cache delete_saved_cache
cache_step-saved id r c (sets x) e s = e
cache_step-saved id r c clears e s = e
cache_step-saved id r c (selects i) e s = ground arith
cache_step-saved id r c saves e s = elim (Option-cases c.active_cache) [
  | inl none_is ↦ rw (cache_step, save_active_cache, none_is) e
  | inr (x, is) ↦
      rw (cache_step, save_active_cache, is)
        (lookup-emplace_old c.next_cache id x r c.saved_caches e)
]
cache_step-saved id r c (activates j) e s = ground arith
cache_step-saved id r c (deletes j) e s = ground (arith, lookup-erase j id c.saved_caches)

cache_run-saved :
    (id : ℕ) (r : QueryResult) (calls : List CacheCall) (c : Component)
    → lookup id c.saved_caches ≡ some r
    → All (Spares id) calls
    → lookup id (cache_run c calls).saved_caches ≡ some r
unfolding cache_run
cache_run-saved id r [] c e s = e
cache_run-saved id r (call ∷ calls) c e s =
    cache_run-saved id r calls (cache_step c call) (cache_step-saved id r c call e s.0) s.1

abbrev HandlesBelow : Component → Type 0
HandlesBelow c = KeysBelow c.next_cache c.saved_caches

cache_step-HandlesBelow :
    (c : Component) (call : CacheCall) → HandlesBelow c → HandlesBelow (cache_step c call)
unfolding cache_step set_active_cache clear_active_cache set_active_result_index save_active_cache
    activate_saved_cache delete_saved_cache
cache_step-HandlesBelow c (sets x) b = b
cache_step-HandlesBelow c clears b = b
cache_step-HandlesBelow c (selects i) b = ground arith
cache_step-HandlesBelow c saves b = elim (Option-cases c.active_cache) [
  | inl e ↦ rw (cache_step, save_active_cache, e) b
  | inr (x, e) ↦
      rw (cache_step, save_active_cache, e)
        (emplace-KeysBelow (suc c.next_cache) c.next_cache x c.saved_caches (omega arith)
          (KeysBelow-mono c.next_cache (suc c.next_cache) c.saved_caches (omega arith) b))
]
cache_step-HandlesBelow c (activates j) b = ground arith
cache_step-HandlesBelow c (deletes j) b = erase-KeysBelow c.next_cache j c.saved_caches b

cache_run-HandlesBelow :
    (calls : List CacheCall) (c : Component) → HandlesBelow c → HandlesBelow (cache_run c calls)
unfolding cache_run
cache_run-HandlesBelow [] c b = b
cache_run-HandlesBelow (call ∷ calls) c b =
    cache_run-HandlesBelow calls (cache_step c call) (cache_step-HandlesBelow c call b)

mysql_rs_retain-saved :
    (c : Component) (r : QueryResult)
    → lookup c.next_cache c.saved_caches ≡ none
    → c.active_cache ≡ some r
    → let (c', id) = mysql_rs_retain c in lookup id c'.saved_caches ≡ some r
unfolding mysql_rs_retain save_active_cache
mysql_rs_retain-saved c r fresh e =
    rw (mysql_rs_retain, save_active_cache, e)
      (lookup-emplace c.next_cache c.next_cache r c.saved_caches fresh
        ∙ rw (==_refl c.next_cache) refl)

mysql_rs_activate-saved :
    (c : Component) (id : ℕ) (r : QueryResult)
    → lookup id c.saved_caches ≡ some r
    → let (c', ok) = mysql_rs_activate c id in
      (ok ≡ true) × (c'.active_cache ≡ some r) × (c'.active_result_index ≡ pos 0)
unfolding mysql_rs_activate activate_saved_cache
mysql_rs_activate-saved c id r e =
    rw (mysql_rs_activate, activate_saved_cache, e) (refl, refl, refl)

-- After any history of the cache, a result that is active and retained is the one that its handle
-- activates, at its first set, after any further history that does not release it.
pub mysql_rs_retain-activate :
    (before after : List CacheCall) (r : QueryResult)
    → (cache_run new_component before).active_cache ≡ some r
    → let (c, id) = mysql_rs_retain (cache_run new_component before) in
      All (Spares id) after
      → let (c', ok) = mysql_rs_activate (cache_run c after) id in
        (ok ≡ true) × (c'.active_cache ≡ some r) × (c'.active_result_index ≡ pos 0)
mysql_rs_retain-activate before after r e spared =
    let c = cache_run new_component before in
    let fresh =
      lookup_fresh c.next_cache c.next_cache c.saved_caches
        (cache_run-HandlesBelow before new_component tt) (omega arith) in
    let (kept, id) = mysql_rs_retain c in
    mysql_rs_activate-saved (cache_run kept after) id r
      (cache_run-saved id r after kept (mysql_rs_retain-saved c r fresh e) spared)
