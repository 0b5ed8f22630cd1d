-- ===== src/Natives/Vectors.antt =====
-- The vector natives of src/natives.cpp: `mysql_vector_to_string`, `ParseVectorString`,
-- `mysql_string_to_vector` and `mysql_vector_dim`. What `%g` prints for the float in a cell, and what
-- `std::atof` reads, are parameters.
pub mod RoundTrip
pub mod Bounds
mod Tests
use omp_my_sql.Prelude.{
  ℕ, zero, suc, ◌+◌, Bool, true, false, ◌||◌, ◌&&◌, List, [], ◌∷◌, ◌++◌, Bytes, codes, ◌==◌,
  is_empty, length, Option, none, some, if◌then◌else◌, map,
}
use omp_my_sql.Prelude.Int.{ℤ, pos, negsuc}
use omp_my_sql.Amx.{Amx}
use omp_my_sql.Natives.Format.{amx_string_param, write_amx_string}

-- The loop of `mysql_vector_to_string`, behind its first round.
unfoldable pub tail_text : (ℤ → Bytes) → List ℤ → Bytes
tail_text show [] = codes "]"
tail_text show (c ∷ cells) = b',' ∷ (show c ++ tail_text show cells)

unfoldable pub vector_text : (ℤ → Bytes) → List ℤ → Bytes
unfolding tail_text
vector_text show [] = codes "[]"
vector_text show (c ∷ cells) = b'[' ∷ (show c ++ tail_text show cells)

abbrev is_blank : ℕ → Bool
is_blank c = c == b' ' || c == b'\t'

unfoldable pub trim_left : Bytes → Bytes
trim_left [] = []
trim_left (c ∷ s) = let rest = trim_left s in if is_blank c then rest else c ∷ s

unfoldable pub trim_right : Bytes → Bytes
trim_right [] = []
trim_right (c ∷ s) = let rest = trim_right s in if is_empty rest && is_blank c then [] else c ∷ rest

-- `flush`: the text of a number, if there is more than blanks.
unfoldable pub flush : Bytes → List Bytes
unfolding trim_left trim_right
flush num = let text = trim_right (trim_left num) in if is_empty text then [] else text ∷ []

-- The loop behind the `[`; `num` is the text since the last comma.
unfoldable pub parse_loop : Bytes → Bytes → List Bytes
unfolding flush
parse_loop num [] = flush num
parse_loop num (c ∷ rest) =
    let next = flush num ++ parse_loop [] rest in
    let more = parse_loop (num ++ c ∷ []) rest in
    if c == b']' then flush num else if c == b',' then next else more

-- `ParseVectorString`, before `std::atof`.
unfoldable pub parse_vector : Bytes → List Bytes
unfolding parse_loop
parse_vector [] = []
parse_vector (c ∷ rest) =
    let later = parse_vector rest in if c == b'[' then parse_loop [] rest else later

module _ (a : Amx) where
  -- The cells of an array.
  unfoldable pub cells_at : a.Memory → ℕ → ℕ → List ℤ
  cells_at mem p zero = []
  cells_at mem p (suc n) = a.cell_at mem p ∷ cells_at mem (suc p) n

  -- `mysql_vector_to_string`
  unfoldable pub mysql_vector_to_string : (ℤ → Bytes) → a.Memory → ℤ → ℤ → ℤ → ℤ → a.Memory × ℕ
  unfolding vector_text cells_at write_amx_string
  mysql_vector_to_string show mem values count destination maxlen = elim (a.address mem values) [
    | none ↦ (mem, 0)
    | some p ↦
        let n : ℕ = elim count [ pos n ↦ n | negsuc k ↦ 0 ] in
        let out = vector_text show (cells_at mem p n) in
        (write_amx_string a none mem destination out maxlen, length out)
  ]

  -- The loop of `mysql_string_to_vector`: the cells, as many as fit.
  unfoldable pub store_cells : a.Memory → ℕ → ℕ → List ℤ → a.Memory × ℕ
  store_cells mem p zero cells = (mem, 0)
  store_cells mem p (suc room) [] = (mem, 0)
  store_cells mem p (suc room) (c ∷ cells) =
      let (mem', n) = store_cells (a.set_cell mem p c) (suc p) room cells in (mem', suc n)

  -- `mysql_string_to_vector`
  unfoldable pub mysql_string_to_vector : (Bytes → ℤ) → a.Memory → ℤ → ℤ → ℤ → a.Memory × ℕ
  unfolding amx_string_param parse_vector store_cells
  mysql_string_to_vector read mem source destination maxlen =
      let texts = parse_vector (amx_string_param a none mem source) in
      elim (a.address mem destination) [
        | none ↦ (mem, 0)
        | some p ↦ elim maxlen [
          | pos room ↦ store_cells mem p room (map read texts)
          | negsuc k ↦ (mem, 0)
        ]
      ]

  -- `mysql_vector_dim`
  unfoldable pub mysql_vector_dim : a.Memory → ℤ → ℕ
  unfolding amx_string_param parse_vector
  mysql_vector_dim mem source = length (parse_vector (amx_string_param a none mem source))
