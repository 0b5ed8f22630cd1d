-- ===== src/Connection/Client/Buffered.antt =====
-- The results that `Connection::queryBuffered` (src/Connection.cpp) buffers.
use omp_my_sql.Prelude.{
  ℕ, zero, suc, true, List, [], ◌∷◌, Bytes, length, Option, none, some, All, Bool-cases, ◌≡◌, refl,
  arith, ap, Option-cases, inl, inr, ◌↔◌, false,
}
use omp_my_sql.Prelude.Int.{ℤ, pos, negsuc}
use omp_my_sql.Result.{ResultField, QueryResult, IsRectangular, IsWellFormed}
use omp_my_sql.Connection.Client.{
  Stored, Reply, Replies, ends, goes_on, Driver, Connection, is_open, read_fields, read_rows,
  read_set, read_sets, is_clean, query_buffered,
}
use omp_my_sql.Connection.Client.Shows.{length-read_cells, Pairwise, Shows, read_set-Shows}

pub length-read_fields : (fs : List (Option Bytes × ℤ)) → length (read_fields fs) ≡ length fs
unfolding read_fields
length-read_fields [] = refl
length-read_fields (f ∷ fs) = ap suc (length-read_fields fs)

read_rows-All :
    (n m : ℕ) (rows : List (ℕ → Option Bytes))
    → m ≡ n
    → All (λ row. length row ≡ m) (read_rows n rows)
unfolding read_rows
read_rows-All n m [] e = tt
read_rows-All n m (row ∷ rows) e =
    (ground (arith, length-read_cells n 0 row), read_rows-All n m rows e)

read_set-IsRectangular : (r : Reply) → IsRectangular (read_set r)
unfolding read_set
read_set-IsRectangular r = go r.stored
  where
    go :
        (o : Option Stored)
        → All
            (λ row.
              length row
              ≡ length
                  (elim o as (λ x. List ResultField) [ none ↦ [] | some s ↦ read_fields s.fields ]))
            (elim o [ none ↦ [] | some s ↦ read_rows (length s.fields) s.rows ])
    go none = tt
    go (some s) = read_rows-All _ _ s.rows (length-read_fields s.fields)

read_sets-All : (rs : Replies) → All IsRectangular (read_sets rs).0
unfolding read_sets
read_sets-All (ends r status) = (read_set-IsRectangular r, tt)
read_sets-All (goes_on r rest) = (read_set-IsRectangular r, read_sets-All rest)

-- The statements that the server executed, and the status behind the last of them.
abbrev pub replies : Replies → List Reply
replies (ends r status) = r ∷ []
replies (goes_on r rest) = r ∷ replies rest

abbrev pub last_status : Replies → ℤ
last_status (ends r status) = status
last_status (goes_on r rest) = last_status rest

-- A status of `mysql_next_result` that tells of an error.
abbrev pub IsError : ℤ → Type 0
IsError status = (n : ℕ) × (status ≡ pos (suc n))

is_clean-IsError : (status : ℤ) → (is_clean status ≡ false) ↔ IsError status
is_clean-IsError (pos zero) = (λ h. cc, λ h. cc)
is_clean-IsError (pos (suc n)) = (λ h. (n, refl), λ h. ground arith)
is_clean-IsError (negsuc n) = (λ h. cc, λ h. cc)

read_sets-replies :
    (rs : Replies)
    → Pairwise Shows (replies rs) (read_sets rs).0
      × (((read_sets rs).1 ≡ false) ↔ IsError (last_status rs))
unfolding read_sets
read_sets-replies (ends r status) = ((read_set-Shows r, tt), is_clean-IsError status)
read_sets-replies (goes_on r rest) =
    let (a, b) = read_sets-replies rest in ((read_set-Shows r, a), b)

module _ (d : Driver) (sql : Bytes) (c : Connection d) (out : QueryResult) where
  -- Whatever the server answers, every row of every buffered result set has one cell for each field.
  pub query_buffered-IsWellFormed : IsWellFormed (query_buffered d sql c out).1
  unfolding query_buffered
  query_buffered-IsWellFormed = elim (Option-cases c.mysql) [
    | inl e ↦ rw (query_buffered, e) tt
    | inr (h, e) ↦ elim (Bool-cases (is_open d c)) [
      | inr shut ↦ rw (query_buffered, e, shut) tt
      | inl up ↦ elim (Option-cases (d.query sql h).1) [
        | inl q ↦ rw (query_buffered, e, up, q) tt
        | inr (rs, q) ↦ rw (query_buffered, e, up, q) (read_sets-All rs)
      ]
    ]
  ]

  -- On an open connection whose server accepts the query, the text of the query is kept, and one
  -- result set is buffered for each statement that the server executed, in their order. It shows the
  -- names and the types of the fields, every cell of every row, which is null exactly if the server
  -- sent no value, the numbers of affected rows and of warnings, and the last id; without a table, it
  -- has no fields and no rows. The answer is false exactly if the last status is positive, which is
  -- an error.
  pub query_buffered-executed :
      (h : d.Handle) (rs : Replies)
      → c.mysql ≡ some h
      → is_open d c ≡ true
      → (d.query sql h).1 ≡ some rs
      → let (after, result, ok) = query_buffered d sql c out in
        (result.query_string ≡ sql)
        × Pairwise Shows (replies rs) result.sets
        × ((ok ≡ false) ↔ IsError (last_status rs))
  unfolding query_buffered
  query_buffered-executed h rs e up q =
      let (sets, ok) = read_sets-replies rs in rw (query_buffered, e, up, q) (refl, sets, ok)
