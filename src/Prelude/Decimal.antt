-- ===== src/Prelude/Decimal.antt =====
-- `std::to_string` of an integer: the sign and the decimal digits.
use Prim.Native.Nat.{ℕ, zero, suc, ◌+◌, ◌/◌, ◌%◌}
use mathlib.Core.List.{[], ◌∷◌}
use omp_my_sql.Prelude.Tests.{ltb, if◌then◌else◌}
use omp_my_sql.Prelude.Lists.{Bytes}
use omp_my_sql.Prelude.Int.{ℤ, pos, negsuc}

-- The digits of `n` in front of `rest`, by fuel; `n + 1` rounds are more than its digits.
unfoldable pub digits : ℕ → ℕ → Bytes → Bytes
digits zero n rest = rest
digits (suc fuel) n rest =
    let more = digits fuel (n / 10) ((b'0' + n % 10) ∷ rest) in
    if ltb n 10 then (b'0' + n) ∷ rest else more

unfoldable pub to_string : ℤ → Bytes
unfolding digits
to_string (pos n) = digits (suc n) n []
to_string (negsuc n) = b'-' ∷ digits (suc (suc n)) (suc n) []
