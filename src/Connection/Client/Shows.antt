-- ===== src/Connection/Client/Shows.antt =====
-- What `Connection::queryBuffered` (src/Connection.cpp) is to buffer of the answer of the client
-- library, described apart from its loops.
use omp_my_sql.Prelude.{
  ℕ, zero, suc, ◌+◌, ◌<◌, true, false, List, [], ◌∷◌, get_elem?, Bytes, length, Option, none, some,
  ◌≡◌, refl, ◌∙◌, arith, ap,
}
use omp_my_sql.Prelude.Int.{ℤ}
use omp_my_sql.Result.{ResultField, ResultValue, ResultSet}
use omp_my_sql.Connection.Client.{
  Stored, Reply, read_fields, read_cell, read_cells, read_rows, read_set,
}

-- Two lists of one length, related place by place.
abbrev pub Pairwise : {A B : Type 0} → (A → B → Type 0) → List A → List B → Type 0
Pairwise R [] [] = Unit
Pairwise R [] (y ∷ ys) = ⊥
Pairwise R (x ∷ xs) [] = ⊥
Pairwise R (x ∷ xs) (y ∷ ys) = R x y × Pairwise R xs ys

-- A text of the library; a null pointer is read as the empty text.
abbrev pub IsText : Option Bytes → Bytes → Type 0
IsText none t = t ≡ []
IsText (some s) t = t ≡ s

abbrev pub IsField : Option Bytes × ℤ → ResultField → Type 0
IsField p f = IsText p.0 f.name × (f.type ≡ p.1)

-- A cell is null exactly for a null pointer.
abbrev pub IsCell : Option Bytes → ResultValue → Type 0
IsCell none v = (v.is_null ≡ true) × (v.value ≡ [])
IsCell (some s) v = (v.is_null ≡ false) × (v.value ≡ s)

-- Every column of the row, and no more.
abbrev pub IsRow : ℕ → (ℕ → Option Bytes) → List ResultValue → Type 0
IsRow n row cells =
    (length cells ≡ n)
    × ((i : ℕ) → i < n → (v : ResultValue) × (get_elem? cells i ≡ some v) × IsCell (row i) v)

abbrev pub HasTable : Option Stored → ResultSet → Type 0
HasTable none set = (set.fields ≡ []) × (set.rows ≡ [])
HasTable (some s) set =
    Pairwise IsField s.fields set.fields × Pairwise (IsRow (length s.fields)) s.rows set.rows

-- A result set shows the fields, every cell and the counters of the reply of one statement.
pub record Shows (r : Reply) (set : ResultSet) : Type 0 where
  pub table : HasTable r.stored set
  pub affected_rows : set.affected_rows ≡ r.affected_rows
  pub insert_id : set.insert_id ≡ r.insert_id
  pub warning_count : set.warning_count ≡ r.warning_count

read_fields-IsField : (fs : List (Option Bytes × ℤ)) → Pairwise IsField fs (read_fields fs)
unfolding read_fields
read_fields-IsField [] = tt
read_fields-IsField ((none, type) ∷ fs) = ((refl, refl), read_fields-IsField fs)
read_fields-IsField ((some n, type) ∷ fs) = ((refl, refl), read_fields-IsField fs)

read_cell-IsCell : (o : Option Bytes) → IsCell o (read_cell o)
unfolding read_cell
read_cell-IsCell none = (refl, refl)
read_cell-IsCell (some v) = (refl, refl)

pub length-read_cells : (n i : ℕ) (row : ℕ → Option Bytes) → length (read_cells n i row) ≡ n
unfolding read_cells
length-read_cells zero i row = refl
length-read_cells (suc n) i row = ap suc (length-read_cells n (suc i) row)

-- The cell in place `k` of those from index `i` on is the cell of column `k + i`.
get_elem?-read_cells :
    (n i k : ℕ) (row : ℕ → Option Bytes)
    → k < n
    → get_elem? (read_cells n i row) k ≡ some (read_cell (row (k + i)))
unfolding read_cells
get_elem?-read_cells zero i k row h = absurd (omega arith)
get_elem?-read_cells (suc n) i zero row h = ap (λ (j : ℕ). some (read_cell (row j))) (omega arith)
get_elem?-read_cells (suc n) i (suc k) row h =
    get_elem?-read_cells n (suc i) k row (omega arith)
    ∙ ap (λ (j : ℕ). some (read_cell (row j))) (omega arith)

read_cells-IsRow : (n : ℕ) (row : ℕ → Option Bytes) → IsRow n row (read_cells n 0 row)
read_cells-IsRow n row = (
  length-read_cells n 0 row,
  λ i h. (
    read_cell (row i),
    get_elem?-read_cells n 0 i row h ∙ ap (λ (j : ℕ). some (read_cell (row j))) (omega arith),
    read_cell-IsCell (row i),
  ),
)

read_rows-IsRow :
    (n : ℕ) (rows : List (ℕ → Option Bytes)) → Pairwise (IsRow n) rows (read_rows n rows)
unfolding read_rows
read_rows-IsRow n [] = tt
read_rows-IsRow n (row ∷ rows) = (read_cells-IsRow n row, read_rows-IsRow n rows)

pub read_set-Shows : (r : Reply) → Shows r (read_set r)
unfolding read_set
read_set-Shows r = record {
  table = go r.stored;
  affected_rows = refl;
  insert_id = refl;
  warning_count = refl;
}
  where
    go :
        (o : Option Stored)
        → HasTable o (record (read_set r) {
          fields = elim o [ none ↦ [] | some s ↦ read_fields s.fields ];
          rows = elim o [ none ↦ [] | some s ↦ read_rows (length s.fields) s.rows ];
        })
    go none = (refl, refl)
    go (some s) = (read_fields-IsField s.fields, read_rows-IsRow (length s.fields) s.rows)
