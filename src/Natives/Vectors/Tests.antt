-- ===== src/Natives/Vectors/Tests.antt =====
-- A vector that is printed, and one that is read into an array (src/natives.cpp).
use omp_my_sql.Prelude.{
  ℕ, ◌+◌, ◌-◌, [], ◌∷◌, Bytes, codes, length, none, some, ◌==◌, ltb, leb, if◌then◌else◌, map, ◌≡◌,
  refl,
}
use omp_my_sql.Prelude.Int.{ℤ, pos, negsuc}
use omp_my_sql.Amx.{Amx}
use omp_my_sql.Natives.Format.{amx_string_param}
use omp_my_sql.Natives.Vectors.{vector_text, parse_vector, mysql_string_to_vector}
use omp_my_sql.Natives.Vectors.RoundTrip.{IsNumberText, parse_vector-vector_text}
use omp_my_sql.Natives.Vectors.Bounds.{fitting, get_or, mysql_string_to_vector-cells}

abbrev amx : Amx
amx = record {
  Memory = ℕ → ℤ;
  address = λ mem p. some 10;
  cell_at = λ mem p. mem p;
  set_cell = λ mem p v q. if p == q then v else mem q;
  string_at = λ mem p. codes "[1, 25 ,300]";
  set_string = λ mem p s n. mem;
  float_text = λ c. codes "0.000000";
  float_cell = λ s. pos 0;
}

abbrev show : ℤ → Bytes
show (pos n) = codes "1.5"
show (negsuc n) = codes "-2e+10"

show-IsNumberText : (c : ℤ) → IsNumberText (show c)
show-IsNumberText (pos n) = (refl, (refl, (refl, (refl, tt))))
show-IsNumberText (negsuc n) = (refl, (refl, (refl, (refl, (refl, (refl, (refl, tt)))))))

abbrev zeros : ℕ → ℤ
zeros q = pos 0

-- How long the text of a number is.
abbrev read : Bytes → ℤ
read s = pos (length s)

parse_vector_test : parse_vector (codes "x [1, 25 ,300") ≡ codes "1" ∷ codes "25" ∷ codes "300" ∷ []
unfolding parse_vector
parse_vector_test = refl

parse_vector-vector_text_example :
    parse_vector (vector_text show (pos 3 ∷ negsuc 4 ∷ [])) ≡ codes "1.5" ∷ codes "-2e+10" ∷ []
parse_vector-vector_text_example =
    parse_vector-vector_text show (pos 3 ∷ negsuc 4 ∷ []) show-IsNumberText

mysql_string_to_vector-cells_example :
    let numbers = map read (parse_vector (amx_string_param amx none zeros (pos 0))) in
    let (after, n) = mysql_string_to_vector amx read zeros (pos 0) (pos 1) (pos 2) in
    (n ≡ fitting 2 (length numbers))
    × (after 11 ≡ (
        if ltb 11 10
        then pos 0
        else if leb (10 + n) 11
        then pos 0
        else get_or numbers (11 - 10) (pos 0)))
mysql_string_to_vector-cells_example =
    mysql_string_to_vector-cells amx (λ mem p q v. refl) read zeros (pos 0) (pos 1) 2 10 11 refl
