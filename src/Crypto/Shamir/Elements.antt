-- ===== src/Crypto/Shamir/Elements.antt =====
-- The bytes with the operations of crypto/gf256.go are a field.
use mathlib.Core.HLevel.{Σ_prop_path}
use native.Mathlib.Bridge.{le_prop}
use native.Mathlib.Decide.{ℕ_discrete}
use genomedb.Base.{ℕ, ◌<◌, ◌≡◌, ◌≢◌, ap, none, some, bit_xor, arith}
use genomedb.Base.Xor.{xor_comm, xor_assoc, xor_self, zero-bit_xor, bit_xor-lt}
use genomedb.Crypto.Gf256.{gf_mul, gf_div}
use genomedb.Crypto.Gf256.Laws
use genomedb.Crypto.Field.{Field}

abbrev pub Element : Type 0
Element = (n : ℕ) × (n < 256)

abbrev pub val : Element → ℕ
val a = a.0

pub element_path : (a b : Element) → val a ≡ val b → a ≡ b
element_path a b p = Σ_prop_path (λ n. le_prop) p

-- The quotient, and 0 where gfDiv panics.
pub quotient_or_zero : ℕ → ℕ → ℕ
quotient_or_zero a b = elim (gf_div a b) [ none ↦ 0 | some q ↦ q ]

quotient_or_zero_lem : (a b q : ℕ) → gf_div a b ≡ some q → quotient_or_zero a b ≡ q
unfolding quotient_or_zero
quotient_or_zero_lem a b q e = rw (e, quotient_or_zero)

pub gf_div_total :
    (a b : ℕ)
    → a < 256
    → b < 256
    → b ≢ 0
    → (gf_div a b ≡ some (quotient_or_zero a b))
      × (gf_mul (quotient_or_zero a b) b ≡ a)
      × (quotient_or_zero a b < 256)
gf_div_total a b la lb nb =
    let (q, e, m, l) = Laws.gf_div_lem a b la lb nb in rw (quotient_or_zero_lem a b q e) (e, m, l)

quotient_by_zero : (a : ℕ) → quotient_or_zero a 0 ≡ 0
unfolding quotient_or_zero gf_div
quotient_by_zero a = ground arith

pub quotient_or_zero-lt : (a b : ℕ) → a < 256 → b < 256 → quotient_or_zero a b < 256
quotient_or_zero-lt a b la lb = elim (ℕ_discrete b 0) [
  | yes e ↦ rw (e, quotient_by_zero a) (omega arith)
  | no nb ↦ (gf_div_total a b la lb nb).2
]

abbrev pub add : Element → Element → Element
add (a, la) (b, lb) = (bit_xor a b, bit_xor-lt a b la lb)

abbrev pub mul : Element → Element → Element
mul (a, la) (b, lb) = (gf_mul a b, Laws.gf_mul-lt a b la lb)

abbrev pub quotient : Element → Element → Element
quotient (a, la) (b, lb) = (quotient_or_zero a b, quotient_or_zero-lt a b la lb)

-- The field that the secret sharing computes in.
unfoldable pub bytes_field : Field Element
bytes_field = record {
  zero = (0, omega arith);
  one = (1, omega arith);
  ◌⊕◌ = add;
  ◌⊗◌ = mul;
  div = quotient;
  add_assoc = λ a b c. element_path _ _ (xor_assoc (val a) (val b) (val c));
  add_comm = λ a b. element_path _ _ (xor_comm (val a) (val b));
  zero-add = λ a. element_path _ _ (zero-bit_xor (val a));
  add_self = λ a. element_path _ _ (xor_self (val a));
  mul_assoc = λ a b c. element_path _ _ (Laws.mul_assoc (val a) (val b) (val c) a.1 b.1 c.1);
  mul_comm = λ a b. element_path _ _ (Laws.mul_comm (val a) (val b));
  one-mul = λ a. element_path _ _ (Laws.one-gf_mul (val a) a.1);
  zero-mul = λ a. element_path _ _ (Laws.zero-gf_mul (val a));
  add-mul = λ a b c. element_path _ _ (Laws.bit_xor-gf_mul (val a) (val b) (val c) a.1 b.1 c.1);
  div-mul = λ a b nb.
      element_path _ _ (gf_div_total (val a) (val b) a.1 b.1 (λ e. nb (element_path _ _ e))).1;
  zero-ne-one = λ e. omega (arith, ap val e);
}
