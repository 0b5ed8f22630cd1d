-- ===== src/Component/Cache/Inside.antt =====
-- What the readers of src/natives.cpp take from a result with one cell for each field in each row.
use omp_my_sql.Prelude.{
  ℕ, zero, suc, ◌<◌, Bool, false, ◌||◌, List, [], ◌∷◌, Bytes, length, get_elem?, some, All, ◌≡◌,
  refl, arith, Option-cases, Bool-cases, inl, inr, subst,
}
use omp_my_sql.Prelude.Int.{ℤ, pos, negsuc, is_neg}
use omp_my_sql.Prelude.Map.{lookup}
use omp_my_sql.Result.{ResultSet, QueryResult, IsRectangular, IsWellFormed, field_index}
use omp_my_sql.Component.{Component}
use omp_my_sql.Component.Cache.{active_set, is_outside, at_index}
use omp_my_sql.Component.Cache.Cells.{
  CellRead, no_cell, cell, out_of_range, read_at, cell_in, cell_at, cell_by_name,
}

get_elem?-All :
    {A : Type 0} (P : A → Type 0) (i : ℕ) (xs : List A) (x : A)
    → All P xs
    → get_elem? xs i ≡ some x
    → P x
get_elem?-All P i [] x h e = absurd (ground (arith, e))
get_elem?-All P zero (y ∷ ys) x h e = let eq : y ≡ x = ground (arith, e) in subst P eq h.0
get_elem?-All P (suc i) (y ∷ ys) x h e = get_elem?-All P i ys x h.1 e

get_elem?-inside :
    {A : Type 0} (i : ℕ) (xs : List A) → i < length xs → (x : A) × (get_elem? xs i ≡ some x)
get_elem?-inside i [] h = elim h [ ]
get_elem?-inside zero (x ∷ xs) h = (x, refl)
get_elem?-inside (suc i) (x ∷ xs) h = get_elem?-inside i xs (omega arith)

-- A guarded access to a list.
at_index-inside :
    {A : Type 0} (xs : List A) (i : ℤ)
    → is_outside i (length xs) ≡ false
    → (x : A) × (at_index xs i ≡ some x)
at_index-inside xs (pos i) h = get_elem?-inside i xs (ground (arith, h))
at_index-inside xs (negsuc n) h = absurd (ground (arith, h))

at_index-All :
    {A : Type 0} (P : A → Type 0) (xs : List A) (i : ℤ) (x : A)
    → All P xs
    → at_index xs i ≡ some x
    → P x
at_index-All P xs (pos i) x h e = get_elem?-All P i xs x h e
at_index-All P xs (negsuc n) x h e = absurd (ground (arith, e))

abbrev pub IsInside : CellRead → Type 0
IsInside no_cell = Unit
IsInside (cell v) = Unit
IsInside out_of_range = ⊥

read_at-IsInside :
    (s : ResultSet) (row column : ℤ)
    → IsRectangular s
    → is_outside row (length s.rows) ≡ false
    → is_outside column (length s.fields) ≡ false
    → IsInside (read_at s row column)
unfolding read_at
read_at-IsInside s row column rect r c =
    let (cells, e) = at_index-inside s.rows row r in
    let width = at_index-All (λ cs. length cs ≡ length s.fields) s.rows row cells rect e in
    let (v, f) = at_index-inside cells column (rw width c) in rw (read_at, e, f) tt

or_false : (a b : Bool) → (a || b) ≡ false → (a ≡ false) × (b ≡ false)
or_false a b h = ground arith

-- The guard of `cellAt` is enough for a rectangular result set.
cell_in-IsInside :
    (s : ResultSet) (row column : ℤ) → IsRectangular s → IsInside (cell_in s row column)
unfolding cell_in
cell_in-IsInside s row column rect =
    elim (Bool-cases (is_outside row (length s.rows) || is_outside column (length s.fields))) [
      | inl out ↦ rw (cell_in, out) tt
      | inr ok ↦
          let (r, c) =
            or_false (is_outside row (length s.rows)) (is_outside column (length s.fields)) ok in
          rw (cell_in, ok) (read_at-IsInside s row column rect r c)
    ]

-- The active result and the saved ones are well-formed.
pub record CachesOk (c : Component) : Type 0 where
  pub active : (r : QueryResult) → c.active_cache ≡ some r → IsWellFormed r
  pub saved : (id : ℕ) (r : QueryResult) → lookup id c.saved_caches ≡ some r → IsWellFormed r

active_set-IsRectangular :
    (c : Component) (s : ResultSet) → CachesOk c → active_set c ≡ some s → IsRectangular s
unfolding active_set
active_set-IsRectangular c s ok e = elim (Option-cases c.active_cache) [
  | inl q ↦ absurd (ground (arith, e, q))
  | inr (r, q) ↦
      let found : at_index r.sets c.active_result_index ≡ some s = ground (arith, e, q) in
      at_index-All IsRectangular r.sets c.active_result_index s (ok.active r q) found
]

pub cell_at-IsInside :
    (c : Component) (row column : ℤ) → CachesOk c → IsInside (cell_at c row column)
unfolding cell_at
cell_at-IsInside c row column ok = elim (Option-cases (active_set c)) [
  | inl q ↦ rw (cell_at, q) tt
  | inr (s, q) ↦ rw (cell_at, q) (cell_in-IsInside s row column (active_set-IsRectangular c s ok q))
]

pub cell_by_name-IsInside :
    (c : Component) (row : ℤ) (name : Bytes) → CachesOk c → IsInside (cell_by_name c row name)
unfolding cell_by_name
cell_by_name-IsInside c row name ok = elim (Option-cases (active_set c)) [
  | inl q ↦ rw (cell_by_name, q) tt
  | inr (s, q) ↦ elim (Bool-cases (is_neg (field_index s name))) [
    | inl n ↦ rw (cell_by_name, q, n) tt
    | inr n ↦
        rw (cell_by_name, q, n)
          (cell_in-IsInside s row (field_index s name) (active_set-IsRectangular c s ok q))
  ]
]
