-- ===== src/Natives/Vectors/Bounds.antt =====
-- Which cells `mysql_string_to_vector` of src/natives.cpp writes.
use omp_my_sql.Prelude.{
  ℕ, zero, suc, ◌+◌, ◌-◌, ◌≤◌, ◌<◌, List, [], ◌∷◌, Bytes, ◌==◌, none, some, if◌then◌else◌, ◌≡◌,
  refl, arith, map, length, get_elem?, inl, inr, ltb, leb, ltb→lt, Bool-cases,
}
use omp_my_sql.Prelude.Int.{ℤ, pos}
use omp_my_sql.Amx.{Amx}
use omp_my_sql.Natives.Format.{amx_string_param}
use omp_my_sql.Natives.Vectors.{parse_vector, store_cells, mysql_string_to_vector}

-- The element, or the other value if there is none.
abbrev pub get_or : {A : Type 0} → List A → ℕ → A → A
get_or xs i other = elim (get_elem? xs i) [ none ↦ other | some x ↦ x ]

-- The size of what is written.
abbrev pub fitting : ℕ → ℕ → ℕ
fitting room size = if leb room size then room else size

get_or_beyond : (xs : List ℤ) (i : ℕ) (other : ℤ) → length xs ≤ i → get_or xs i other ≡ other
get_or_beyond [] i other h = refl
get_or_beyond (x ∷ xs) zero other h = absurd (omega arith)
get_or_beyond (x ∷ xs) (suc i) other h = get_or_beyond xs i other (omega arith)

module _ (a : Amx)
    (frame : (mem : a.Memory) (p q : ℕ) (v : ℤ)
      → a.cell_at (a.set_cell mem p v) q ≡ (if p == q then v else a.cell_at mem q)) where
  store_cells-below :
      (mem : a.Memory) (p room : ℕ) (cells : List ℤ) (q : ℕ)
      → q < p
      → a.cell_at (store_cells a mem p room cells).0 q ≡ a.cell_at mem q
  unfolding store_cells
  store_cells-below mem p zero cells q h = refl
  store_cells-below mem p (suc room) [] q h = refl
  store_cells-below mem p (suc room) (c ∷ cells) q h =
      let later = store_cells-below (a.set_cell mem p c) (suc p) room cells q (omega arith) in
      let here = frame mem p q c in ground (arith, later, here)

  store_cells-size :
      (mem : a.Memory) (p room : ℕ) (cells : List ℤ)
      → (store_cells a mem p room cells).1 ≡ fitting room (length cells)
  unfolding store_cells
  store_cells-size mem p zero cells = ground arith
  store_cells-size mem p (suc room) [] = ground arith
  store_cells-size mem p (suc room) (c ∷ cells) =
      ground (arith, store_cells-size (a.set_cell mem p c) (suc p) room cells)

  store_cells-at :
      (mem : a.Memory) (p room : ℕ) (cells : List ℤ) (i q : ℕ)
      → q ≡ p + i
      → a.cell_at (store_cells a mem p room cells).0 q
        ≡ (if ltb i room then get_or cells i (a.cell_at mem q) else a.cell_at mem q)
  unfolding store_cells
  store_cells-at mem p zero cells i q e = ground arith
  store_cells-at mem p (suc room) [] i q e = ground arith
  store_cells-at mem p (suc room) (c ∷ cells) zero q e =
      let later = store_cells-below (a.set_cell mem p c) (suc p) room cells q (omega arith) in
      let here = frame mem p q c in ground (arith, later, here)
  store_cells-at mem p (suc room) (c ∷ cells) (suc i) q e =
      let later = store_cells-at (a.set_cell mem p c) (suc p) room cells i q (omega arith) in
      let here = frame mem p q c in ground (arith, later, here)

  -- What a cell holds after the loop.
  abbrev written : a.Memory → ℕ → ℕ → ℕ → List ℤ → ℤ
  written mem p q room numbers =
      if ltb q p
      then a.cell_at mem q
      else if leb (p + fitting room (length numbers)) q
      then a.cell_at mem q
      else get_or numbers (q - p) (a.cell_at mem q)

  stored :
      (mem : a.Memory) (p q room : ℕ) (numbers : List ℤ)
      → a.cell_at (store_cells a mem p room numbers).0 q ≡ written mem p q room numbers
  stored mem p q room numbers = elim (Bool-cases (ltb q p)) [
    | inl h ↦ let below = store_cells-below mem p room numbers q (ltb→lt q p h) in rw h below
    | inr h ↦
        let at = store_cells-at mem p room numbers (q - p) q (ground arith) in
        let beyond = get_or_beyond numbers (q - p) (a.cell_at mem q) in ground (arith, at, beyond)
  ]

  -- With an array of `room` cells, `mysql_string_to_vector` writes the numbers of the vector in order,
  -- as many as there are and as there is room for, which is the number that it returns. It changes no
  -- cell before the array, none behind it, and none that the vector does not reach.
  pub mysql_string_to_vector-cells :
      (read : Bytes → ℤ) (mem : a.Memory) (source destination : ℤ) (room p q : ℕ)
      → a.address mem destination ≡ some p
      → let numbers = map read (parse_vector (amx_string_param a none mem source)) in
        let (after, n) = mysql_string_to_vector a read mem source destination (pos room) in
        (n ≡ fitting room (length numbers))
        × (a.cell_at after q ≡ (
            if ltb q p
            then a.cell_at mem q
            else if leb (p + n) q
            then a.cell_at mem q
            else get_or numbers (q - p) (a.cell_at mem q)))
  unfolding mysql_string_to_vector
  mysql_string_to_vector-cells read mem source destination room p q e =
      let numbers = map read (parse_vector (amx_string_param a none mem source)) in
      let size = store_cells-size mem p room numbers in
      let value : a.cell_at (store_cells a mem p room numbers).0 q ≡ written mem p q room numbers =
        stored mem p q room numbers in
      rw (mysql_string_to_vector, e) (size, rw size value)
