-- ===== src/Natives/Obfuscation/Xor.antt =====
-- Exclusive or on machine words, for `CfgXor` of src/natives.cpp.
use Prim.Native.Nat.{◌*◌, ◌/◌, ◌<◌, ◌≤◌, bit_xor, digits, differ, bit_xor-bitwise}
use omp_my_sql.Prelude.{ℕ, zero, suc, ◌+◌, ◌%◌, ◌≡◌, refl, ◌∙◌, arith}

-- Any fuel that covers the first number gives the same digits.
xor_enough :
    (n m a b : ℕ) → a ≤ n → a ≤ m → digits (λ y. y) differ n a b ≡ digits (λ y. y) differ m a b
xor_enough zero zero a b p q = refl
xor_enough zero (suc m) zero b p q = refl
xor_enough zero (suc m) (suc a) b p q = absurd (omega arith)
xor_enough (suc n) zero zero b p q = refl
xor_enough (suc n) zero (suc a) b p q = absurd (omega arith)
xor_enough (suc n) (suc m) zero b p q = refl
xor_enough (suc n) (suc m) (suc a) b p q =
    omega (arith, xor_enough n m (suc a / 2) (b / 2) (omega arith) (omega arith))

-- Two bits.
differ_twice : (p q : ℕ) → p < 2 → q < 2 → (differ (differ p q) q ≡ p) × (differ p q < 2)
differ_twice zero zero h g = (refl, omega arith)
differ_twice zero (suc zero) h g = (refl, omega arith)
differ_twice (suc zero) zero h g = (refl, omega arith)
differ_twice (suc zero) (suc zero) h g = (refl, omega arith)
differ_twice (suc (suc p)) q h g = absurd (omega arith)
differ_twice zero (suc (suc q)) h g = absurd (omega arith)
differ_twice (suc zero) (suc (suc q)) h g = absurd (omega arith)

-- The lowest digit, and the others.
pub xor_low : (a b : ℕ) → bit_xor a b ≡ bit_xor (a / 2) (b / 2) * 2 + differ (a % 2) (b % 2)
xor_low zero b = omega (arith, bit_xor-bitwise 0 b, bit_xor-bitwise 0 (b / 2))
xor_low (suc a) b = omega (
  arith,
  bit_xor-bitwise (suc a) b,
  bit_xor-bitwise (suc a / 2) (b / 2),
  xor_enough a (suc a / 2) (suc a / 2) (b / 2) (omega arith) (omega arith),
)

xor_twice_within : (n a b : ℕ) → a ≤ n → b ≤ n → bit_xor (bit_xor a b) b ≡ a
xor_twice_within zero zero zero h g = refl
xor_twice_within zero (suc a) b h g = absurd (omega arith)
xor_twice_within zero zero (suc b) h g = absurd (omega arith)
xor_twice_within (suc n) a b h g =
    let x = bit_xor (a / 2) (b / 2) in
    let y = differ (a % 2) (b % 2) in
    let (back, bit) = differ_twice (a % 2) (b % 2) (omega arith) (omega arith) in
    let high : bit_xor a b / 2 ≡ x = omega (arith, xor_low a b, bit) in
    let low : bit_xor a b % 2 ≡ y = omega (arith, xor_low a b, bit) in
    xor_low (bit_xor a b) b
    ∙ rw (high, low, xor_twice_within n (a / 2) (b / 2) (omega arith) (omega arith), back)
        (omega arith)

pub bit_xor_twice : (a b : ℕ) → bit_xor (bit_xor a b) b ≡ a
bit_xor_twice a b = xor_twice_within (a + b) a b (omega arith) (omega arith)
