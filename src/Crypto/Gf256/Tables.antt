-- ===== src/Crypto/Gf256/Tables.antt =====
-- The tables of crypto/gf256.go, by evaluation at every byte.
use genomedb.Base.{
  ℕ, ◌<◌, ◌≡◌, ◌≢◌, refl, Bool, true, ◌&&◌, ◌||◌, bit_xor, get_or, not, ltb, ◌==◌, arith, ==_iff,
}
use genomedb.Base.Table.{each_below, each_below_at}
use genomedb.Crypto.Gf256.{exp_table, log_table, gf_mul_slow, double_step, gf_mul}

abbrev pub gf_exp : ℕ → ℕ
gf_exp i = get_or exp_table i 0

abbrev pub gf_log : ℕ → ℕ
gf_log a = get_or log_table a 0

is_log : ℕ → Bool
is_log i = (gf_log (gf_exp i) == i) && (not (gf_exp i == 0) && ltb (gf_exp i) 256)

is_log_table : each_below is_log 255 ≡ true
unfolding each_below is_log exp_table log_table
is_log_table = refl

-- Below 255, log undoes exp, and exp gives a byte that is not zero.
pub gf_log-gf_exp : (i : ℕ) → i < 255 → (gf_log (gf_exp i) ≡ i) × (gf_exp i ≢ 0) × (gf_exp i < 256)
unfolding is_log
gf_log-gf_exp i h = ground (arith, each_below_at is_log i 255 h is_log_table)

is_exp : ℕ → Bool
is_exp a = (a == 0) || (ltb (gf_log a) 255 && (gf_exp (gf_log a) == a))

is_exp_table : each_below is_exp 256 ≡ true
unfolding each_below is_exp exp_table log_table
is_exp_table = refl

-- At a byte that is not zero, exp undoes log, and log is an index of the table of exp.
pub gf_exp-gf_log : (a : ℕ) → a ≢ 0 → a < 256 → (gf_log a < 255) × (gf_exp (gf_log a) ≡ a)
unfolding is_exp
gf_exp-gf_log a nz h = ground (arith, each_below_at is_exp a 256 h is_exp_table)

doubles : ℕ → ℕ → Bool
doubles a b = double_step (bit_xor a b) == bit_xor (double_step a) (double_step b)

double_table : each_below (λ a. each_below (doubles a) 256) 256 ≡ true
unfolding each_below doubles double_step
double_table = refl

pub double_step-bit_xor :
    (a b : ℕ)
    → a < 256
    → b < 256
    → double_step (bit_xor a b) ≡ bit_xor (double_step a) (double_step b)
unfolding doubles
double_step-bit_xor a b ha hb = (==_iff _ _).0 (
    each_below_at (doubles a) b 256 hb
      (each_below_at (λ a. each_below (doubles a) 256) a 256 ha double_table))

double_bytes : each_below (λ a. ltb (double_step a) 256) 256 ≡ true
unfolding each_below double_step
double_bytes = refl

pub double_step-lt : (a : ℕ) → a < 256 → double_step a < 256
double_step-lt a h =
    ground (arith, each_below_at (λ a. ltb (double_step a) 256) a 256 h double_bytes)

agrees : ℕ → ℕ → Bool
agrees a b = gf_mul a b == gf_mul_slow a b

agrees_table : each_below (λ a. each_below (agrees a) 256) 256 ≡ true
unfolding each_below agrees gf_mul_slow gf_mul exp_table log_table
agrees_table = refl

-- On bytes, the product by tables is the product by eight rounds of shift and reduce.
pub gf_mul-eq-gf_mul_slow : (a b : ℕ) → a < 256 → b < 256 → gf_mul a b ≡ gf_mul_slow a b
unfolding agrees
gf_mul-eq-gf_mul_slow a b ha hb = (==_iff _ _).0 (
    each_below_at (agrees a) b 256 hb
      (each_below_at (λ a. each_below (agrees a) 256) a 256 ha agrees_table))
