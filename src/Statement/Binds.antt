-- ===== src/Statement/Binds.antt =====
-- The binds of src/Statement.cpp: the indices of the parameters, and what a bind changes.
use omp_my_sql.Prelude.{
  ℕ, zero, suc, ◌≤◌, ◌<◌, List, [], ◌∷◌, length, Option, ◌≡◌, refl, arith, ap, ◌==◌, if◌then◌else◌,
  Bytes,
}
use omp_my_sql.Prelude.Int.{pos, negsuc}
use omp_my_sql.Statement.{
  Param, new_param, PreparedStatement, resize, modify, new_statement, bind_param,
}

-- The staging vector has one entry for each parameter.
abbrev pub IsSized : PreparedStatement → Type 0
IsSized s = length s.params ≡ s.param_count

pub length-resize : (n : ℕ) (ps : List Param) → length (resize n ps) ≡ n
unfolding resize
length-resize zero ps = refl
length-resize (suc n) [] = ap suc (length-resize n [])
length-resize (suc n) (p ∷ ps) = ap suc (length-resize n ps)

length-modify : (f : Param → Param) (i : ℕ) (ps : List Param) → length (modify f i ps) ≡ length ps
unfolding modify
length-modify f i [] = refl
length-modify f zero (p ∷ ps) = refl
length-modify f (suc i) (p ∷ ps) = ap suc (length-modify f i ps)

-- A parameter, or the initial one past the end.
abbrev pub param_at : List Param → ℕ → Param
param_at [] i = new_param
param_at (p ∷ ps) zero = p
param_at (p ∷ ps) (suc i) = param_at ps i

param_at-resize :
    (n i : ℕ) (ps : List Param) → length ps ≤ n → param_at (resize n ps) i ≡ param_at ps i
unfolding resize
param_at-resize zero i [] h = refl
param_at-resize zero i (p ∷ ps) h = absurd (omega arith)
param_at-resize (suc n) zero [] h = refl
param_at-resize (suc n) (suc i) [] h = param_at-resize n i [] (omega arith)
param_at-resize (suc n) zero (p ∷ ps) h = refl
param_at-resize (suc n) (suc i) (p ∷ ps) h = param_at-resize n i ps (omega arith)

param_at-modify :
    (f : Param → Param) (i j : ℕ) (ps : List Param)
    → i < length ps
    → param_at (modify f i ps) j ≡ (if i == j then f (param_at ps j) else param_at ps j)
unfolding modify
param_at-modify f i j [] h = elim h [ ]
param_at-modify f zero zero (p ∷ ps) h = ground arith
param_at-modify f zero (suc j) (p ∷ ps) h = ground arith
param_at-modify f (suc i) zero (p ∷ ps) h = ground arith
param_at-modify f (suc i) (suc j) (p ∷ ps) h =
    ground (arith, param_at-modify f i j ps (omega arith))

pub new_statement-IsSized : (conn : Option ℕ) (query : Bytes) → IsSized (new_statement conn query)
unfolding new_statement
new_statement-IsSized conn query = length-resize _ []

-- The index counts from 0, and one past the end is not ignored: the vector and the parameter count
-- grow. A bind at a non-negative index of a statement whose staging vector has one entry for each
-- parameter keeps it so, and leaves room for that index. It changes the parameter at the index and
-- no other, parameters past the end counting as unset; at a negative index it changes nothing.
pub bind_param-param_at :
    (f : Param → Param) (s : PreparedStatement) (i : ℕ)
    → IsSized s
    → let s' = bind_param f s (pos i) in
      IsSized s'
      × (i < length s'.params)
      × ((j : ℕ)
          → param_at s'.params j
            ≡ (if i == j then f (param_at s.params j) else param_at s.params j))
      × ((n : ℕ) → bind_param f s (negsuc n) ≡ s)
unfolding bind_param
bind_param-param_at f s i h = (
  ground (arith, sized, grown, kept),
  ground (arith, sized, grown, kept),
  λ j. ground (
    arith,
    sized,
    param_at-resize (suc i) j s.params,
    param_at-modify f i j (resize (suc i) s.params),
    param_at-modify f i j s.params,
  ),
  λ n. refl,
)
  where
    sized : length (resize (suc i) s.params) ≡ suc i
    sized = length-resize (suc i) s.params

    grown : length (modify f i (resize (suc i) s.params)) ≡ length (resize (suc i) s.params)
    grown = length-modify f i (resize (suc i) s.params)

    kept : length (modify f i s.params) ≡ length s.params
    kept = length-modify f i s.params
