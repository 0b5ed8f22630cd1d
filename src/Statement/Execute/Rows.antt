-- ===== src/Statement/Execute/Rows.antt =====
-- The buffers and the rows of `execute` in src/Statement.cpp, and the indices at which it reads
-- them.
use omp_my_sql.Prelude.{
  ℕ, zero, suc, ◌+◌, ◌<◌, Bool, List, [], ◌∷◌, length, get_elem?, Option, none, some, if◌then◌else◌,
  All, ◌≡◌, refl, arith, ap, Option-cases, Bool-cases, inl, inr, ◌==◌,
}
use omp_my_sql.Result.{QueryResult, IsWellFormed}
use omp_my_sql.Connection.Client.Buffered.{length-read_fields}
use omp_my_sql.Statement.{Param, resize}
use omp_my_sql.Statement.Binds.{length-resize}
use omp_my_sql.Statement.Execute.{
  Bound, Fetched, Executed, bind_values, bound_of, fetched_cells, fetched_rows, result_of,
}

get_elem?-defined :
    (i : ℕ) (ps : List Param) → i < length ps → (p : Param) × (get_elem? ps i ≡ some p)
get_elem?-defined i [] h = elim h [ ]
get_elem?-defined zero (p ∷ ps) h = (p, refl)
get_elem?-defined (suc i) (p ∷ ps) h = get_elem?-defined i ps (omega arith)

pub bind_values-defined :
    (n i : ℕ) (ps : List Param)
    → i + n ≡ length ps
    → (bs : List Bound) × (bind_values n i ps ≡ some bs)
unfolding bind_values
bind_values-defined zero i ps h = ([], refl)
bind_values-defined (suc n) i ps h =
    let (p, e) = get_elem?-defined i ps (omega arith) in
    let (bs, r) = bind_values-defined n (suc i) ps (omega arith) in
    (bound_of p ∷ bs, rw (bind_values, e, r) refl)

length-fetched_cells : (n c : ℕ) (row : ℕ → Option Fetched) → length (fetched_cells n c row) ≡ n
unfolding fetched_cells
length-fetched_cells zero c row = refl
length-fetched_cells (suc n) c row = ap suc (length-fetched_cells n (suc c) row)

fetched_rows-All :
    (n m : ℕ) (rows : List (ℕ → Option Fetched))
    → m ≡ n
    → All (λ row. length row ≡ m) (fetched_rows n rows)
unfolding fetched_rows
fetched_rows-All n m [] e = tt
fetched_rows-All n m (row ∷ rows) e =
    (ground (arith, length-fetched_cells n 0 row), fetched_rows-All n m rows e)

pub result_of-IsWellFormed :
    (e : Executed) (out : QueryResult) → IsWellFormed out → IsWellFormed (result_of e out).0
unfolding result_of
result_of-IsWellFormed e out w = elim (Option-cases e.metadata) [
  | inl q ↦ rw (result_of, q) (tt, tt)
  | inr (m, q) ↦ elim (Bool-cases m.binds) [
    | inr b ↦ rw (result_of, q, b) w
    | inl b ↦ elim (Bool-cases m.stores) [
      | inr c ↦ rw (result_of, q, b, c) w
      | inl c ↦
          rw (result_of, q, b, c)
            (fetched_rows-All (length m.fields) _ m.rows (length-read_fields m.fields), tt)
    ]
  ]
]

-- The code returned, with rectangular results.
abbrev pub IsDefined : Option (QueryResult × Bool) → Type 0
IsDefined none = ⊥
IsDefined (some (out, ok)) = IsWellFormed out

abbrev pub IsDone : {H : Type 0} → Option (H × QueryResult × Bool) → Type 0
IsDone none = ⊥
IsDone (some (h, out, ok)) = IsWellFormed out

pub length-reconciled :
    (n count : ℕ) (ps : List Param)
    → length ps ≡ count
    → length (if n == count then ps else resize n ps) ≡ n
length-reconciled n count ps e = ground (arith, length-resize n ps)
