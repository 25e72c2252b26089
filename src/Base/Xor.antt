-- ===== src/Base/Xor.antt =====
-- The laws of exclusive or on the native numbers, from the recursion on binary digits.
use Prim.Native.Nat.{
  bit_or, max, bit_or-bitwise, ℕ, zero, suc, ◌+◌, ◌*◌, ◌/◌, ◌%◌, ◌≤◌, ◌<◌, ◌^◌, bit_xor, bitwise,
  digits, differ, bit_xor-bitwise,
}
use mathlib.Core.Path.{◌≡◌, refl, sym, ap, ◌∙◌}
use native.Mathlib.Nat.{le_refl, pow-suc}
use native.Mathlib.Omega.{arith}

abbrev xor_digits : ℕ → ℕ → ℕ → ℕ
xor_digits = digits (λ b. b) differ

xor_digits_fuel : (n m a b : ℕ) → a ≤ n → a ≤ m → xor_digits n a b ≡ xor_digits m a b
xor_digits_fuel zero zero a b p q = refl
xor_digits_fuel zero (suc m) zero b p q = refl
xor_digits_fuel zero (suc m) (suc a) b p q = absurd (omega arith)
xor_digits_fuel (suc n) zero zero b p q = refl
xor_digits_fuel (suc n) zero (suc a) b p q = absurd (omega arith)
xor_digits_fuel (suc n) (suc m) zero b p q = refl
xor_digits_fuel (suc n) (suc m) (suc a) b p q =
    rw (xor_digits_fuel n m (suc a / 2) (b / 2) (omega arith) (omega arith))

pub zero-bit_xor : (b : ℕ) → bit_xor 0 b ≡ b
zero-bit_xor b = bit_xor-bitwise 0 b

bitwise-suc :
    (a b : ℕ)
    → bitwise (λ b. b) differ (suc a) b
      ≡ bitwise (λ b. b) differ (suc a / 2) (b / 2) * 2 + differ (suc a % 2) (b % 2)
bitwise-suc a b =
    omega (arith, xor_digits_fuel a (suc a / 2) (suc a / 2) (b / 2) (omega arith) (le_refl _))

differ_bits : (x y : ℕ) → x < 2 → y < 2 → differ x y ≡ (x + y) % 2
differ_bits zero zero p q = refl
differ_bits zero (suc zero) p q = refl
differ_bits (suc zero) zero p q = refl
differ_bits (suc zero) (suc zero) p q = refl
differ_bits zero (suc (suc y)) p q = absurd (omega arith)
differ_bits (suc zero) (suc (suc y)) p q = absurd (omega arith)
differ_bits (suc (suc x)) y p q = absurd (omega arith)

-- The lowest digit of an exclusive or.
pub bit_xor_step : (a b : ℕ) → bit_xor a b ≡ bit_xor (a / 2) (b / 2) * 2 + (a % 2 + b % 2) % 2
bit_xor_step zero b = omega (arith, zero-bit_xor b, zero-bit_xor (b / 2))
bit_xor_step (suc a) b = omega (
  arith,
  bit_xor-bitwise (suc a) b,
  bit_xor-bitwise (suc a / 2) (b / 2),
  bitwise-suc a b,
  differ_bits (suc a % 2) (b % 2) (omega arith) (omega arith),
)

bit_xor-div : (a b : ℕ) → bit_xor a b / 2 ≡ bit_xor (a / 2) (b / 2)
bit_xor-div a b = omega (arith, bit_xor_step a b)

bit_xor-mod : (a b : ℕ) → bit_xor a b % 2 ≡ (a % 2 + b % 2) % 2
bit_xor-mod a b = omega (arith, bit_xor_step a b)

xor_comm_fuel : (n a b : ℕ) → a ≤ n → b ≤ n → bit_xor a b ≡ bit_xor b a
xor_comm_fuel zero zero zero p q = refl
xor_comm_fuel zero zero (suc b) p q = absurd (omega arith)
xor_comm_fuel zero (suc a) b p q = absurd (omega arith)
xor_comm_fuel (suc n) a b p q = omega (
  arith,
  bit_xor_step a b,
  bit_xor_step b a,
  xor_comm_fuel n (a / 2) (b / 2) (omega arith) (omega arith),
)

pub xor_comm : (a b : ℕ) → bit_xor a b ≡ bit_xor b a
xor_comm a b = xor_comm_fuel (a + b) a b (omega arith) (omega arith)

xor_self_fuel : (n a : ℕ) → a ≤ n → bit_xor a a ≡ 0
xor_self_fuel zero zero p = refl
xor_self_fuel zero (suc a) p = absurd (omega arith)
xor_self_fuel (suc n) a p = omega (arith, bit_xor_step a a, xor_self_fuel n (a / 2) (omega arith))

pub xor_self : (a : ℕ) → bit_xor a a ≡ 0
xor_self a = xor_self_fuel a a (le_refl a)

xor_assoc_fuel :
    (n a b c : ℕ) → a ≤ n → b ≤ n → c ≤ n → bit_xor (bit_xor a b) c ≡ bit_xor a (bit_xor b c)
xor_assoc_fuel zero zero zero zero p q r = refl
xor_assoc_fuel zero zero zero (suc c) p q r = absurd (omega arith)
xor_assoc_fuel zero zero (suc b) c p q r = absurd (omega arith)
xor_assoc_fuel zero (suc a) b c p q r = absurd (omega arith)
xor_assoc_fuel (suc n) a b c p q r =
    let half = xor_assoc_fuel n (a / 2) (b / 2) (c / 2) (omega arith) (omega arith) (omega arith) in
    let left = rw (bit_xor-div a b) at (bit_xor_step (bit_xor a b) c) in
    let right = rw (bit_xor-div b c) at (bit_xor_step a (bit_xor b c)) in
    omega (arith, half, left, right, bit_xor-mod a b, bit_xor-mod b c)

pub xor_assoc : (a b c : ℕ) → bit_xor (bit_xor a b) c ≡ bit_xor a (bit_xor b c)
xor_assoc a b c = xor_assoc_fuel (a + b + c) a b c (omega arith) (omega arith) (omega arith)

bit_xor-lt_pow : (k a b : ℕ) → a < 2 ^ k → b < 2 ^ k → bit_xor a b < 2 ^ k
bit_xor-lt_pow zero a b p q =
    let a0 : a ≡ 0 = omega arith in let b0 : b ≡ 0 = omega arith in rw (a0, b0) (omega arith)
bit_xor-lt_pow (suc k) a b p q = omega (
  arith,
  pow-suc 2 k,
  bit_xor_step a b,
  bit_xor-lt_pow k (a / 2) (b / 2) (omega (arith, pow-suc 2 k)) (omega (arith, pow-suc 2 k)),
)

-- The exclusive or of two bytes is a byte.
pub bit_xor-lt : (a b : ℕ) → a < 256 → b < 256 → bit_xor a b < 256
bit_xor-lt = bit_xor-lt_pow 8

pub xor_left_comm : (a b c : ℕ) → bit_xor a (bit_xor b c) ≡ bit_xor b (bit_xor a c)
xor_left_comm a b c = sym (xor_assoc a b c) ∙ ap (λ t. bit_xor t c) (xor_comm a b) ∙ xor_assoc b a c

pub ruleset xor_laws = (xor_comm, xor_assoc, xor_left_comm)

-- Two numbers whose exclusive or is zero are the same.
pub xor_eq_zero : (a b : ℕ) → bit_xor a b ≡ 0 → a ≡ b
xor_eq_zero a b h =
    sym (zero-bit_xor a)
    ∙ xor_comm 0 a
    ∙ ap (λ t. bit_xor a t) (sym h)
    ∙ sym (xor_assoc a a b)
    ∙ ap (λ t. bit_xor t b) (xor_self a)
    ∙ zero-bit_xor b

or_digits_zero : (n a b : ℕ) → digits (λ b. b) max n a b ≡ 0 → a ≤ n → (a ≡ 0) × (b ≡ 0)
or_digits_zero zero zero b h p = (refl, h)
or_digits_zero zero (suc a) b h p = absurd (omega arith)
or_digits_zero (suc n) zero b h p = (refl, h)
or_digits_zero (suc n) (suc a) b h p =
    let (e, f) = or_digits_zero n (suc a / 2) (b / 2) (omega arith) (omega arith) in
    absurd (omega arith)

-- A bitwise or is zero only if both numbers are.
pub bit_or_eq_zero : (a b : ℕ) → bit_or a b ≡ 0 → (a ≡ 0) × (b ≡ 0)
bit_or_eq_zero a b h = or_digits_zero a a b (sym (bit_or-bitwise a b) ∙ h) (le_refl a)
