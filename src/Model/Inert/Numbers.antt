-- ===== src/Model/Inert/Numbers.antt =====
-- What the scanners read of the numbers in the SQL of src/Model.cpp.
use omp_my_sql.Prelude.{
  ℕ, zero, suc, ◌+◌, ◌/◌, ◌%◌, Bool, true, false, not, ◌&&◌, ◌||◌, [], ◌∷◌, Bytes, ◌==◌, leb,
  is_empty, ◌≡◌, refl, arith, if◌then◌else◌, ◌⊎◌, inl, inr,
}
use omp_my_sql.Prelude.Int.{ℤ, pos, negsuc}
use omp_my_sql.Prelude.Decimal.{digits, to_string}
use omp_my_sql.Sql.Code.{count}
use omp_my_sql.Sql.Fragment.{
  IsInert, IsInert-nil, all_inert, all_plain, all_inert-IsInert, minus-IsFragment,
}

digits-all_inert :
    (fuel n : ℕ) (rest : Bytes) → all_inert rest ≡ true → all_inert (digits fuel n rest) ≡ true
unfolding digits
digits-all_inert zero n rest h = h
digits-all_inert (suc fuel) n rest h =
    ground (arith, digits-all_inert fuel (n / 10) ((b'0' + n % 10) ∷ rest))

digits-is_empty : (fuel n c : ℕ) (rest : Bytes) → is_empty (digits fuel n (c ∷ rest)) ≡ false
unfolding digits
digits-is_empty zero n c rest = refl
digits-is_empty (suc fuel) n c rest =
    ground (arith, digits-is_empty fuel (n / 10) (b'0' + n % 10) (c ∷ rest))

digits-suc-is_empty : (fuel n : ℕ) → is_empty (digits (suc fuel) n []) ≡ false
unfolding digits
digits-suc-is_empty fuel n = ground (arith, digits-is_empty fuel (n / 10) (b'0' + n % 10) [])

all_inert-all_plain : (a : Bytes) → all_inert a ≡ true → all_plain a ≡ true
all_inert-all_plain [] h = refl
all_inert-all_plain (c ∷ a) h = ground (arith, all_inert-all_plain a)

count-all_inert : (b : ℕ) (a : Bytes) → (b ≡ b';') ⊎ (b ≡ b'?') → all_inert a ≡ true → count b a ≡ 0
unfolding count
count-all_inert b [] e h = refl
count-all_inert b (c ∷ a) e h = ground (arith, count-all_inert b a e)

minus-IsInert : (a : Bytes) → all_inert a ≡ true → is_empty a ≡ false → IsInert (b'-' ∷ a)
minus-IsInert [] h e = cc
minus-IsInert (c ∷ a) h e = record {
  bytes = b'-' ∷ c ∷ a;
  fragment = minus-IsFragment c a (all_inert-all_plain (c ∷ a) h);
  no_separator = unfold count in omega (arith, count-all_inert b';' (c ∷ a) (inl refl) h);
  no_placeholder = unfold count in omega (arith, count-all_inert b'?' (c ∷ a) (inr refl) h);
}

pub to_string-IsInert : (z : ℤ) → IsInert (to_string z)
unfolding to_string
to_string-IsInert (pos n) = all_inert-IsInert _ (digits-all_inert (suc n) n [] refl)
to_string-IsInert (negsuc n) =
    minus-IsInert _ (digits-all_inert (suc (suc n)) (suc n) [] refl)
      (digits-suc-is_empty (suc n) (suc n))

-- What `printf` prints for a float: an optional sign, then digits with a point, `inf` or `nan`.
abbrev is_float_byte : ℕ → Bool
is_float_byte c = (leb b'0' c && leb c b'9') || c == b'.' || (leb b'a' c && leb c b'z')

abbrev pub all_float_bytes : Bytes → Bool
all_float_bytes [] = true
all_float_bytes (c ∷ rest) = is_float_byte c && all_float_bytes rest

abbrev pub is_float_text : Bytes → Bool
is_float_text [] = false
is_float_text (c ∷ rest) =
    if c == b'-' then not (is_empty rest) && all_float_bytes rest else all_float_bytes (c ∷ rest)

all_float_bytes-all_inert : (a : Bytes) → all_float_bytes a ≡ true → all_inert a ≡ true
all_float_bytes-all_inert [] h = refl
all_float_bytes-all_inert (c ∷ a) h = ground (arith, all_float_bytes-all_inert a)

is_float_text-cases :
    (c : ℕ) (a : Bytes)
    → is_float_text (c ∷ a) ≡ true
    → ((c ≡ b'-') × (all_float_bytes a ≡ true) × (is_empty a ≡ false))
      ⊎ (all_float_bytes (c ∷ a) ≡ true)
is_float_text-cases c a h = ground arith

pub is_float_text-IsInert : (a : Bytes) → is_float_text a ≡ true → IsInert a
is_float_text-IsInert [] h = IsInert-nil
is_float_text-IsInert (c ∷ a) h = elim (is_float_text-cases c a h) [
  | inl (e, all, ne) ↦ rw e (minus-IsInert a (all_float_bytes-all_inert a all) ne)
  | inr all ↦ all_inert-IsInert (c ∷ a) (all_float_bytes-all_inert (c ∷ a) all)
]
