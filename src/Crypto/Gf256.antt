-- ===== src/Crypto/Gf256.antt =====
-- crypto/gf256.go: arithmetic in GF(2^8). A byte is a number below 256. The two arrays are lists,
-- filled by the loop of init; a read past the end of an array would be a panic, and the default 0
-- of `get_or` stands for a value that is never read (Gf256/Tables).
pub mod Tables
pub mod Laws
use genomedb.Base.{
  ℕ, zero, suc, ◌+◌, ◌-◌, ◌*◌, ◌/◌, ◌%◌, Bool, ◌||◌, Option, none, some, List, bit_xor, bit_and,
  get_or, set, replicate, leb, ltb, ◌==◌, if◌then◌else◌,
}

-- `a <<= 1` on a byte, then `a ^= 0x1B` if the high bit was set.
pub double_step : ℕ → ℕ
double_step a =
    let hi_bit_set = bit_and a 0x80 in
    let shifted = a * 2 % 256 in if hi_bit_set == 0 then shifted else bit_xor shifted 0x1B

-- The eight rounds of the loop, on a, b and p.
slow_rounds : ℕ → ℕ → ℕ → ℕ → ℕ
slow_rounds zero a b p = p
slow_rounds (suc n) a b p =
    slow_rounds n (double_step a) (b / 2) (if bit_and b 1 == 0 then p else bit_xor p a)

unfoldable pub gf_mul_slow : ℕ → ℕ → ℕ
unfolding slow_rounds double_step
gf_mul_slow a b = slow_rounds 8 a b 0

-- The loop of init, at index i with n rounds left.
init_tables : ℕ → ℕ → ℕ → List ℕ → List ℕ → List ℕ × List ℕ
init_tables zero i x exps logs = (exps, logs)
init_tables (suc n) i x exps logs =
    init_tables n (i + 1) (gf_mul_slow x 3) (set exps i x) (set logs x (i % 256))

unfoldable pub exp_table : List ℕ
unfolding init_tables gf_mul_slow
exp_table = (init_tables 255 0 1 (replicate 255 0) (replicate 256 0)).0

unfoldable pub log_table : List ℕ
unfolding init_tables gf_mul_slow
log_table = (init_tables 255 0 1 (replicate 255 0) (replicate 256 0)).1

unfoldable pub gf_mul : ℕ → ℕ → ℕ
gf_mul a b =
    if a == 0 || b == 0
    then 0
    else let sum = get_or log_table a 0 + get_or log_table b 0 in
      get_or exp_table (if leb 255 sum then sum - 255 else sum) 0

-- `none` is the panic on a division by zero.
unfoldable pub gf_div : ℕ → ℕ → Option ℕ
gf_div a b =
    if a == 0
    then some 0
    else if b == 0
    then none
    else let la = get_or log_table a 0 in
      let lb = get_or log_table b 0 in
      some (get_or exp_table (if ltb la lb then la + 255 - lb else la - lb) 0)
