-- ===== src/Mesh/Decimal.antt =====
-- The decimal text of a number, as mesh/wireguard.go and the kernel write it, against strconv.Atoi.
use genomedb.Base.{
  ℕ, zero, suc, ◌+◌, ◌-◌, ◌*◌, ◌/◌, ◌%◌, ◌^◌, ◌≤◌, ◌<◌, ◌≡◌, ◌≢◌, refl, ap, true, false, none, some,
  [], ◌∷◌, ◌++◌, length, length-append, ltb, ◌==◌, if◌then◌else◌, Bytes, All, All-append,
  All-weaken, arith, Bool-cases, inl, inr,
}
use native.Mathlib.Nat.{pow-suc}
use genomedb.Base.Text.{
  plain-NoSpace, IsPlain, is_space, NoSpace, IsWord, pos, positive, digits_value, unsigned, atoi,
}
use genomedb.Mesh.{digits, decimal}

abbrev pub IsDigit : ℕ → Type 0
IsDigit c = (48 ≤ c) × (c ≤ 57)

digits_value-append :
    (acc v : ℕ) (text : Bytes) (c : ℕ)
    → IsDigit c
    → digits_value acc text ≡ some v
    → digits_value acc (text ++ c ∷ []) ≡ some (v * 10 + (c - 48))
unfolding digits_value
digits_value-append acc v [] c digit read = ground arith
digits_value-append acc v (d ∷ text) c digit read =
    ground (arith, digits_value-append (acc * 10 + (d - 48)) v text c digit)

digits_value-digits : (fuel n : ℕ) → n ≤ fuel → digits_value 0 (digits fuel n) ≡ some n
unfolding digits digits_value
digits_value-digits zero n le = ground arith
digits_value-digits (suc fuel) n le = elim (Bool-cases (ltb n 10)) [
  | inl single ↦ rw (digits, single) (ground arith)
  | inr more ↦
      rw
        (
          digits,
          more,
          digits_value-append 0 (n / 10) (digits fuel (n / 10)) (48 + n % 10)
              (omega arith, omega arith) (digits_value-digits fuel (n / 10) (omega arith)),
        )
        (ap (λ t. some t) (omega arith))
]

digits-IsDigit : (fuel n : ℕ) → n ≤ fuel → All IsDigit (digits fuel n)
unfolding digits
digits-IsDigit zero n le = ((omega arith, omega arith), tt)
digits-IsDigit (suc fuel) n le = elim (Bool-cases (ltb n 10)) [
  | inl single ↦
      let small : n < 10 = ground arith in rw (digits, single) ((omega arith, omega arith), tt)
  | inr more ↦
      rw (digits, more)
        (All-append IsDigit (digits fuel (n / 10)) _ (digits-IsDigit fuel (n / 10) (omega arith))
          ((omega arith, omega arith), tt))
]

atoi_digits :
    (text : Bytes) (n : ℕ)
    → All IsDigit text
    → text ≢ []
    → digits_value 0 text ≡ some n
    → atoi text ≡ positive (some n)
unfolding atoi unsigned
atoi_digits [] n all ne read = absurd (ne refl)
atoi_digits (c ∷ text) n all ne read =
    let no_minus : (c == 45) ≡ false = let low = all.0.0 in ground arith in
    let no_plus : (c == 43) ≡ false = let low = all.0.0 in ground arith in
    rw (no_minus, no_plus) (ap positive read)

length-digits : (fuel n : ℕ) → 0 < length (digits fuel n)
unfolding digits
length-digits zero n = omega arith
length-digits (suc fuel) n = elim (Bool-cases (ltb n 10)) [
  | inl single ↦ rw (digits, single) (omega arith)
  | inr more ↦
      rw (digits, more, length-append (digits fuel (n / 10)) ((48 + n % 10) ∷ [])) (omega arith)
]

digits-ne-nil : (fuel n : ℕ) → digits fuel n ≢ []
digits-ne-nil fuel n same = omega (arith, length-digits fuel n, ap (λ (t : Bytes). length t) same)

pub decimal-IsDigit : (n : ℕ) → All IsDigit (decimal n)
decimal-IsDigit n = digits-IsDigit n n (omega arith)

digit-IsPlain : (c : ℕ) → IsDigit c → IsPlain c
unfolding is_space
digit-IsPlain c digit = let (low, high) = digit in (omega arith, ground arith)

NoSpace-IsWord : (text : Bytes) → NoSpace text → text ≢ [] → IsWord text
NoSpace-IsWord [] plain ne = absurd (ne refl)
NoSpace-IsWord (c ∷ text) plain ne = plain

pub decimal-IsWord : (n : ℕ) → IsWord (decimal n)
decimal-IsWord n =
    NoSpace-IsWord (decimal n)
      (plain-NoSpace (decimal n) (All-weaken (decimal n) digit-IsPlain (decimal-IsDigit n)))
      (digits-ne-nil n n)

length-digits-le : (fuel n k : ℕ) → n < 10 ^ suc k → length (digits fuel n) ≤ suc k
unfolding digits
length-digits-le zero n k lt = omega arith
length-digits-le (suc fuel) n zero lt =
    let single : ltb n 10 ≡ true = ground arith in rw (digits, single) (omega arith)
length-digits-le (suc fuel) n (suc k) lt = elim (Bool-cases (ltb n 10)) [
  | inl single ↦ rw (digits, single) (omega arith)
  | inr more ↦
      rw (digits, more, length-append (digits fuel (n / 10)) ((48 + n % 10) ∷ []))
        (omega (arith, length-digits-le fuel (n / 10) k (omega (arith, pow-suc 10 (suc k)))))
]

-- Every int is written with at most 19 digits.
pub length-decimal : (n : ℕ) → n < 2 ^ 63 → length (decimal n) ≤ 19
length-decimal n lt = length-digits-le n n 18 (omega arith)

-- A decimal text is read by strconv.Atoi as its number, if that fits an int of 64 bits, and refused
-- if it does not.
pub atoi-decimal : (n : ℕ) → atoi (decimal n) ≡ (if ltb n (2 ^ 63) then some (pos n) else none)
atoi-decimal n =
    atoi_digits (decimal n) n (digits-IsDigit n n (omega arith)) (digits-ne-nil n n)
      (digits_value-digits n n (omega arith))
