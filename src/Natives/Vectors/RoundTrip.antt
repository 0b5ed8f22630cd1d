-- ===== src/Natives/Vectors/RoundTrip.antt =====
-- `ParseVectorString` on what `mysql_vector_to_string` prints (src/natives.cpp).
use omp_my_sql.Prelude.{
  ℕ, Bool, false, ◌||◌, List, [], ◌∷◌, ◌++◌, Bytes, ◌==◌, is_empty, ◌≡◌, refl, ◌∙◌, ap, arith, map,
  All, append_assoc, append-nil,
}
use omp_my_sql.Prelude.Int.{ℤ}
use omp_my_sql.Natives.Vectors.{
  tail_text, vector_text, trim_left, trim_right, flush, parse_loop, parse_vector,
}

-- A blank, a comma, or the bracket that ends the vector.
abbrev is_separator : ℕ → Bool
is_separator c = (c == b' ' || c == b'\t') || (c == b',' || c == b']')

-- The text of a number.
abbrev pub IsNumberText : Bytes → Type 0
IsNumberText s = (is_empty s ≡ false) × All (λ c. is_separator c ≡ false) s

trim_right-plain : (s : Bytes) → All (λ c. is_separator c ≡ false) s → trim_right s ≡ s
unfolding trim_right
trim_right-plain [] h = refl
trim_right-plain (c ∷ s) h = ground (arith, trim_right-plain s h.1)

trim_left-plain : (s : Bytes) → All (λ c. is_separator c ≡ false) s → trim_left s ≡ s
unfolding trim_left
trim_left-plain [] h = refl
trim_left-plain (c ∷ s) h = ground arith

flush-plain : (s : Bytes) → IsNumberText s → flush s ≡ s ∷ []
unfolding flush
flush-plain s h = rw (trim_left-plain s h.1, trim_right-plain s h.1, h.0) refl

not_bracket : (c : ℕ) → is_separator c ≡ false → (c == b']') ≡ false
not_bracket c h = ground arith

not_comma : (c : ℕ) → is_separator c ≡ false → (c == b',') ≡ false
not_comma c h = ground arith

parse_loop-plain :
    (num s rest : Bytes)
    → All (λ c. is_separator c ≡ false) s
    → parse_loop num (s ++ rest) ≡ parse_loop (num ++ s) rest
unfolding parse_loop
parse_loop-plain num [] rest h = rw (append-nil num) refl
parse_loop-plain num (c ∷ s) rest h =
    rw (not_bracket c h.0, not_comma c h.0)
      (parse_loop-plain (num ++ c ∷ []) s rest h.1
        ∙ ap (λ n. parse_loop n rest) (append_assoc num (c ∷ []) s))

parse_loop-tail :
    (show : ℤ → Bytes) (text : Bytes) (cells : List ℤ)
    → IsNumberText text
    → ((c : ℤ) → IsNumberText (show c))
    → parse_loop text (tail_text show cells) ≡ text ∷ map show cells
unfolding parse_loop tail_text
parse_loop-tail show text [] h number = flush-plain text h
parse_loop-tail show text (c ∷ cells) h number = rw (flush-plain text h) (
    ap (λ texts. text ∷ texts)
      (parse_loop-plain [] (show c) (tail_text show cells) (number c).1
        ∙ parse_loop-tail show (show c) cells (number c) number))

-- If the text of a float is not empty and has no blank, comma or closing bracket, the printed vector
-- is parsed into the texts of its floats, in order.
pub parse_vector-vector_text :
    (show : ℤ → Bytes) (cells : List ℤ)
    → ((c : ℤ) → IsNumberText (show c))
    → parse_vector (vector_text show cells) ≡ map show cells
unfolding parse_vector vector_text
parse_vector-vector_text show [] number = refl
parse_vector-vector_text show (c ∷ cells) number =
    parse_loop-plain [] (show c) (tail_text show cells) (number c).1
    ∙ parse_loop-tail show (show c) cells (number c) number
