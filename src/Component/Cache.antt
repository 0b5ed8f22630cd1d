-- ===== src/Component/Cache.antt =====
-- The result cache of src/MySQLComponent.cpp: the active result and the saved ones. A result index
-- is an `int`.
pub mod Cells
pub mod Inside
pub mod Sound
pub mod Numbers
use omp_my_sql.Prelude.{
  ℕ, suc, Bool, true, false, not, ◌||◌, List, [], ◌∷◌, leb, length, get_elem?, Option, none, some,
  if◌then◌else◌,
}
use omp_my_sql.Prelude.Int.{ℤ, pos, negsuc}
use omp_my_sql.Prelude.Map.{lookup, emplace, erase}
use omp_my_sql.Result.{ResultSet, QueryResult, result_count}
use omp_my_sql.Component.{Component}

-- `index < 0 || index >= count`
abbrev pub is_outside : ℤ → ℕ → Bool
is_outside (pos i) count = leb count i
is_outside (negsuc n) count = true

-- `list[index]`; an access out of range is `none`.
abbrev pub at_index : {A : Type 0} → List A → ℤ → Option A
at_index xs (pos i) = get_elem? xs i
at_index xs (negsuc n) = none

-- `activeSet`: no active result and an index out of range give a null pointer.
unfoldable pub active_set : Component → Option ResultSet
active_set c = elim c.active_cache [
  | none ↦ none
  | some r ↦
      if is_outside c.active_result_index (result_count r)
      then none
      else at_index r.sets c.active_result_index
]

-- `setActiveCache`
unfoldable pub set_active_cache : Component → Option QueryResult → ℤ → Component
set_active_cache c result index = record c { active_cache = result; active_result_index = index }

-- `clearActiveCache`
unfoldable pub clear_active_cache : Component → Component
clear_active_cache c = record c { active_cache = none; active_result_index = pos 0 }

-- `setActiveResultIndex`
unfoldable pub set_active_result_index : Component → ℤ → Component × Bool
set_active_result_index c index = elim c.active_cache [
  | none ↦ (c, false)
  | some r ↦
      if is_outside index (result_count r)
      then (c, false)
      else (record c { active_result_index = index }, true)
]

-- `saveActiveCache`
unfoldable pub save_active_cache : Component → Component × ℕ
save_active_cache c = elim c.active_cache [
  | none ↦ (c, 0)
  | some r ↦ (
    record c {
      next_cache = suc c.next_cache;
      saved_caches = emplace c.next_cache r c.saved_caches;
    },
    c.next_cache,
  )
]

-- `activateSavedCache`
unfoldable pub activate_saved_cache : Component → ℕ → Component × Bool
activate_saved_cache c id = elim (lookup id c.saved_caches) [
  | none ↦ (c, false)
  | some r ↦ (record c { active_cache = some r; active_result_index = pos 0 }, true)
]

-- `isValidCache`
unfoldable pub is_valid_cache : Component → ℕ → Bool
is_valid_cache c id = elim (lookup id c.saved_caches) [ none ↦ false | some r ↦ true ]

-- `deleteSavedCache`
unfoldable pub delete_saved_cache : Component → ℕ → Component × Bool
unfolding is_valid_cache
delete_saved_cache c id = (record c { saved_caches = erase id c.saved_caches }, is_valid_cache c id)
