-- ===== src/Crypto/Gf256/Laws.antt =====
-- The field laws of the operations of crypto/gf256.go, at every byte.
use native.Mathlib.Nat.{add_comm}
use genomedb.Base.{
  ℕ, zero, suc, ◌+◌, ◌-◌, ◌/◌, ◌<◌, ◌≡◌, ◌≢◌, refl, sym, ap, ◌∙◌, ◌⊎◌, some, bit_xor, bit_and, leb,
  ltb, ◌==◌, if◌then◌else◌, arith, inl, inr, Bool-cases,
}
use genomedb.Base.Xor.{xor_laws, bit_xor-lt}
use genomedb.Crypto.Gf256.{log_table, gf_mul, gf_div, gf_mul_slow, slow_rounds, double_step}
use genomedb.Crypto.Gf256.Tables.{
  gf_exp, gf_log, gf_log-gf_exp, gf_exp-gf_log, double_step-bit_xor, double_step-lt,
  gf_mul-eq-gf_mul_slow,
}

-- Addition of logarithms, as the code wraps it.
abbrev wrap : ℕ → ℕ
wrap s = if leb 255 s then s - 255 else s

-- Subtraction of logarithms, as the code wraps it.
abbrev unwrap : ℕ → ℕ → ℕ
unwrap la lb = if ltb la lb then la + 255 - lb else la - lb

gf_div_by_logs :
    (a b : ℕ) → a ≢ 0 → b ≢ 0 → gf_div a b ≡ some (gf_exp (unwrap (gf_log a) (gf_log b)))
unfolding gf_div
gf_div_by_logs a b ha hb = ground arith

pub zero-gf_mul : (b : ℕ) → gf_mul 0 b ≡ 0
unfolding gf_mul
zero-gf_mul b = refl

gf_mul-zero : (a : ℕ) → gf_mul a 0 ≡ 0
unfolding gf_mul
gf_mul-zero a = ground arith

zero-or : (a : ℕ) → (a ≡ 0) ⊎ (a ≢ 0)
zero-or zero = inl refl
zero-or (suc a) = inr (omega arith)

gf_log-one : gf_log 1 ≡ 0
unfolding log_table
gf_log-one = refl

gf_mul_by_logs : (a b : ℕ) → a ≢ 0 → b ≢ 0 → gf_mul a b ≡ gf_exp (wrap (gf_log a + gf_log b))
unfolding gf_mul
gf_mul_by_logs a b ha hb = ground arith

-- The product of bytes that are not zero, and its logarithm.
nonzero_product :
    (a b : ℕ)
    → a ≢ 0
    → b ≢ 0
    → a < 256
    → b < 256
    → (gf_mul a b ≢ 0) × (gf_mul a b < 256) × (gf_log (gf_mul a b) ≡ wrap (gf_log a + gf_log b))
nonzero_product a b ha hb la lb =
    let (ia, _) = gf_exp-gf_log a ha la in
    let (ib, _) = gf_exp-gf_log b hb lb in
    let (e, nz, lt) = gf_log-gf_exp (wrap (gf_log a + gf_log b)) (ground arith) in
    rw (gf_mul_by_logs a b ha hb) (nz, lt, e)

pub mul_comm : (a b : ℕ) → gf_mul a b ≡ gf_mul b a
mul_comm a b = elim (zero-or a) [
  | inl ea ↦ rw (ea, zero-gf_mul b, gf_mul-zero b)
  | inr na ↦ elim (zero-or b) [
    | inl eb ↦ rw (eb, gf_mul-zero a, zero-gf_mul a)
    | inr nb ↦
        rw (gf_mul_by_logs a b na nb, gf_mul_by_logs b a nb na)
          (ap (λ s. gf_exp (wrap s)) (add_comm (gf_log a) (gf_log b)))
  ]
]

pub gf_mul-lt : (a b : ℕ) → a < 256 → b < 256 → gf_mul a b < 256
gf_mul-lt a b la lb = elim (zero-or a) [
  | inl ea ↦ rw (ea, zero-gf_mul b) (omega arith)
  | inr na ↦ elim (zero-or b) [
    | inl eb ↦ rw (eb, gf_mul-zero a) (omega arith)
    | inr nb ↦ (nonzero_product a b na nb la lb).1
  ]
]

nonzero_assoc :
    (a b c : ℕ)
    → (a ≢ 0) × (a < 256)
    → (b ≢ 0) × (b < 256)
    → (c ≢ 0) × (c < 256)
    → gf_mul (gf_mul a b) c ≡ gf_mul a (gf_mul b c)
nonzero_assoc a b c (na, la) (nb, lb) (nc, lc) =
    let (nab, lab, eab) = nonzero_product a b na nb la lb in
    let (nbc, lbc, ebc) = nonzero_product b c nb nc lb lc in
    let (ia, _) = gf_exp-gf_log a na la in
    let (ib, _) = gf_exp-gf_log b nb lb in
    let (ic, _) = gf_exp-gf_log c nc lc in
    let same : wrap (wrap (gf_log a + gf_log b) + gf_log c)
        ≡ wrap (gf_log a + wrap (gf_log b + gf_log c)) =
      ground arith in
    gf_mul_by_logs (gf_mul a b) c nab nc
    ∙ ap (λ s. gf_exp (wrap (s + gf_log c))) eab
    ∙ ap gf_exp same
    ∙ ap (λ s. gf_exp (wrap (gf_log a + s))) (sym ebc)
    ∙ sym (gf_mul_by_logs a (gf_mul b c) na nbc)

-- The product of bytes is associative.
pub mul_assoc :
    (a b c : ℕ) → a < 256 → b < 256 → c < 256 → gf_mul (gf_mul a b) c ≡ gf_mul a (gf_mul b c)
mul_assoc a b c la lb lc = elim (zero-or a) [
  | inl ea ↦ rw ea (simp (zero-gf_mul))
  | inr na ↦ elim (zero-or b) [
    | inl eb ↦ rw eb (simp (zero-gf_mul, gf_mul-zero))
    | inr nb ↦ elim (zero-or c) [
      | inl ec ↦ rw ec (simp gf_mul-zero)
      | inr nc ↦ nonzero_assoc a b c (na, la) (nb, lb) (nc, lc)
    ]
  ]
]

rounds-bit_xor :
    (n a c b p q : ℕ)
    → a < 256
    → c < 256
    → slow_rounds n (bit_xor a c) b (bit_xor p q)
      ≡ bit_xor (slow_rounds n a b p) (slow_rounds n c b q)
unfolding slow_rounds
rounds-bit_xor zero a c b p q la lc = refl
rounds-bit_xor (suc n) a c b p q la lc =
    let rest = λ (p' q' : ℕ).
      rounds-bit_xor n (double_step a) (double_step c) (b / 2) p' q' (double_step-lt a la)
        (double_step-lt c lc) in
    let regroup : bit_xor (bit_xor p q) (bit_xor a c) ≡ bit_xor (bit_xor p a) (bit_xor q c) =
      simp xor_laws in
    rw (double_step-bit_xor a c la lc) (elim (Bool-cases (bit_and b 1 == 0)) [
      | inl e ↦ rw e (rest p q)
      | inr e ↦ rw (e, regroup) (rest (bit_xor p a) (bit_xor q c))
    ])

-- The product distributes over exclusive or.
pub bit_xor-gf_mul :
    (a c b : ℕ)
    → a < 256
    → c < 256
    → b < 256
    → gf_mul (bit_xor a c) b ≡ bit_xor (gf_mul a b) (gf_mul c b)
unfolding gf_mul_slow
bit_xor-gf_mul a c b la lc lb =
    rw
      (
        gf_mul-eq-gf_mul_slow (bit_xor a c) b (bit_xor-lt a c la lc) lb,
        gf_mul-eq-gf_mul_slow a b la lb,
        gf_mul-eq-gf_mul_slow c b lc lb,
      )
      (rounds-bit_xor 8 a c b 0 0 la lc)

pub one-gf_mul : (a : ℕ) → a < 256 → gf_mul 1 a ≡ a
one-gf_mul a la = elim (zero-or a) [
  | inl ea ↦ rw (ea, gf_mul-zero 1)
  | inr na ↦
      let (ia, ea) = gf_exp-gf_log a na la in
      gf_mul_by_logs 1 a (omega arith) na ∙ ap gf_exp (same ia) ∙ ea
]
  where
    same : gf_log a < 255 → wrap (gf_log 1 + gf_log a) ≡ gf_log a
    same h = ground (arith, gf_log-one)

-- Division undoes multiplication: away from zero it never panics, and it stays within a byte.
pub gf_div_lem :
    (a b : ℕ)
    → a < 256
    → b < 256
    → b ≢ 0
    → (q : ℕ) × (gf_div a b ≡ some q) × (gf_mul q b ≡ a) × (q < 256)
gf_div_lem a b la lb nb = elim (zero-or a) [
  | inl ea ↦ rw ea (0, unfold gf_div in refl, zero-gf_mul b, omega arith)
  | inr na ↦
      let (ia, ea) = gf_exp-gf_log a na la in
      let (ib, _) = gf_exp-gf_log b nb lb in
      let i = unwrap (gf_log a) (gf_log b) in
      let (li, nq, lq) = gf_log-gf_exp i (ground arith) in
      let back : wrap (i + gf_log b) ≡ gf_log a = ground arith in
      (
        gf_exp i,
        gf_div_by_logs a b na nb,
        gf_mul_by_logs (gf_exp i) b nq nb
            ∙ ap (λ s. gf_exp (wrap (s + gf_log b))) li
            ∙ ap gf_exp back
            ∙ ea,
        lq,
      )
]
