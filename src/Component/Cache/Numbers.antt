-- ===== src/Component/Cache/Numbers.antt =====
-- `std::strtol` (src/MySQLComponent.cpp) on what `std::to_string` prints for a bound variable
-- (src/natives.cpp).
use omp_my_sql.Prelude.{
  ℕ, zero, suc, ◌+◌, ◌*◌, ◌-◌, ◌/◌, ◌%◌, ◌<◌, Bool, true, false, [], ◌∷◌, Bytes, leb, ◌≡◌, refl,
  ◌∙◌, arith, ap, ltb, ◌&&◌, Bool-cases, inl, inr,
}
use omp_my_sql.Prelude.Int.{ℤ, pos, negsuc}
use omp_my_sql.Prelude.Decimal.{digits, to_string}
use omp_my_sql.Component.Cache.Cells.{negate, read_digits, read_signed, parse_int}

read_digit :
    (acc n : ℕ) (rest : Bytes)
    → n < 10
    → read_digits acc ((b'0' + n) ∷ rest) ≡ read_digits (acc * 10 + n) rest
unfolding read_digits
read_digit acc n rest h =
    let v : (b'0' + n) - b'0' ≡ n = omega arith in
    let digit : (leb b'0' (b'0' + n) && leb (b'0' + n) b'9') ≡ true = ground arith in
    rw (digit, v) refl

read_end : (n : ℕ) → read_digits n [] ≡ n
unfolding read_digits
read_end n = refl

read_digits-digits :
    (fuel n : ℕ) (rest : Bytes) → n < fuel → read_digits 0 (digits fuel n rest) ≡ read_digits n rest
unfolding digits
read_digits-digits zero n rest h = absurd (omega arith)
read_digits-digits (suc fuel) n rest h = elim (Bool-cases (ltb n 10)) [
  | inl small ↦
      let whole : 0 * 10 + n ≡ n = omega arith in
      rw small (read_digit 0 n rest (ground (arith, small)) ∙ ap (λ x. read_digits x rest) whole)
  | inr big ↦
      let whole : n / 10 * 10 + n % 10 ≡ n = omega arith in
      rw big (
        read_digits-digits fuel (n / 10) ((b'0' + n % 10) ∷ rest) (ground (arith, big))
        ∙ read_digit (n / 10) (n % 10) rest (omega arith)
        ∙ ap (λ x. read_digits x rest) whole)
]

-- A text that begins with a digit.
abbrev begins_digit : Bytes → Bool
begins_digit [] = false
begins_digit (c ∷ rest) = leb b'0' c && leb c b'9'

digits-begins_digit :
    (fuel n : ℕ) (rest : Bytes)
    → begins_digit rest ≡ true
    → begins_digit (digits fuel n rest) ≡ true
unfolding digits
digits-begins_digit zero n rest h = h
digits-begins_digit (suc fuel) n rest h =
    ground (arith, digits-begins_digit fuel (n / 10) ((b'0' + n % 10) ∷ rest))

digits-begins_digit-suc : (fuel n : ℕ) → begins_digit (digits (suc fuel) n []) ≡ true
unfolding digits
digits-begins_digit-suc fuel n =
    ground (arith, digits-begins_digit fuel (n / 10) ((b'0' + n % 10) ∷ []))

parse_int_unsigned : (s : Bytes) → begins_digit s ≡ true → parse_int s ≡ pos (read_digits 0 s)
unfolding parse_int read_signed
parse_int_unsigned [] h = absurd (ground (arith, h))
parse_int_unsigned (c ∷ s) h = ground (arith, h)

parse_int_negative : (s : Bytes) → parse_int (b'-' ∷ s) ≡ negate (read_digits 0 s)
unfolding parse_int read_signed
parse_int_negative s = refl

-- Reading back the decimal text of an integer gives the integer.
pub parse_int-to_string : (z : ℤ) → parse_int (to_string z) ≡ z
unfolding to_string
parse_int-to_string (pos n) =
    parse_int_unsigned _ (digits-begins_digit-suc n n)
    ∙ ap pos (read_digits-digits (suc n) n [] (omega arith) ∙ read_end n)
parse_int-to_string (negsuc n) =
    parse_int_negative _
    ∙ ap negate (read_digits-digits (suc (suc n)) (suc n) [] (omega arith) ∙ read_end (suc n))
