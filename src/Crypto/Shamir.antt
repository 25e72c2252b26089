-- ===== src/Crypto/Shamir.antt =====
-- crypto/shamir.go. A share is a list of bytes whose head is its x-coordinate. The numbers of
-- shares and the threshold are Go ints; a negative one takes the branches that 0 takes here.
pub mod Distinct
pub mod Elements
pub mod Terms
pub mod Combine
pub mod Split
pub mod Recovery
use genomedb.Base.{
  ℕ, zero, suc, ◌+◌, ◌-◌, ◌%◌, Bool, true, false, ◌||◌, Option, none, some, List, [], ◌∷◌, ◌++◌,
  bit_xor, get_or, set, replicate, length, ltb, leb, ◌==◌, if◌then◌else◌, Bytes, Result, ok, err,
  Entropy, not,
}
use genomedb.Crypto.Gf256.{gf_mul, gf_div}

pub data ShamirError : Type 0 where
  threshold_too_small shares_below_threshold too_many_shares empty_secret : ShamirError
  no_entropy : ShamirError
  too_few_shares malformed_share mismatched_lengths zero_coordinate : ShamirError
  duplicate_coordinate : ShamirError
  -- the panic of gfDiv
  division_by_zero : ShamirError

abbrev pub Share : Type 0
Share = Bytes

-- Horner's rule from the last coefficient down. The code's slice is never empty: it has
-- `threshold` elements, and the threshold is at least 2.
unfoldable pub eval_poly : List ℕ → ℕ → ℕ
eval_poly [] x = 0
eval_poly (c ∷ []) x = c
eval_poly (c ∷ d ∷ cs) x = bit_xor (gf_mul (eval_poly (d ∷ cs) x) x) c

-- The shares before any byte is written: the coordinate byte(i + 1), then zeros.
pub new_shares : ℕ → ℕ → ℕ → List Share
new_shares zero i len = []
new_shares (suc n) i len = ((i + 1) % 256 ∷ replicate len 0) ∷ new_shares n (i + 1) len

-- The inner loop: one byte of every share.
pub write_column : List ℕ → ℕ → ℕ → List Share → List Share
write_column coeffs byte_idx i [] = []
write_column coeffs byte_idx i (s ∷ out) =
    set s (byte_idx + 1) (eval_poly coeffs ((i + 1) % 256))
    ∷ write_column coeffs byte_idx (i + 1) out

module _ (e : Entropy) where
  open e use {Source, read}

  -- The loop over the bytes of the secret.
  pub write_columns : ℕ → ℕ → Bytes → List Share → Source → Result ShamirError (List Share × Source)
  write_columns threshold byte_idx [] out src = ok (out, src)
  write_columns threshold byte_idx (secret_byte ∷ secret) out src =
      elim (read (threshold - 1) src) [
        | none ↦ err no_entropy
        | some (random, src') ↦
            write_columns threshold (byte_idx + 1) secret
              (write_column (secret_byte ∷ random) byte_idx 0 out) src'
      ]

  unfoldable pub split : Bytes → ℕ → ℕ → Source → Result ShamirError (List Share × Source)
  unfolding write_columns write_column new_shares
  split secret shares threshold src =
      if ltb threshold 2
      then err threshold_too_small
      else if ltb shares threshold
      then err shares_below_threshold
      else if ltb 255 shares
      then err too_many_shares
      else if length secret == 0
      then err empty_secret
      else write_columns threshold 0 secret (new_shares shares 0 (length secret)) src

pub contains : ℕ → List ℕ → Bool
contains x [] = false
contains x (y ∷ ys) = x == y || contains x ys

-- The checks on each share; the result is the list xs.
pub validate : ℕ → List ℕ → List Share → Result ShamirError (List ℕ)
validate secret_len xs [] = ok xs
validate secret_len xs (s ∷ shares) =
    let x = get_or s 0 0 in
    let rest = validate secret_len (xs ++ x ∷ []) shares in
    if not (length s == secret_len + 1)
    then err mismatched_lengths
    else if x == 0
    then err zero_coordinate
    else if contains x xs
    then err duplicate_coordinate
    else rest

-- The innermost loop, over j: the numerator and the denominator of share i.
pub fraction : ℕ → ℕ → ℕ → List ℕ → ℕ → ℕ → ℕ × ℕ
fraction i xi j [] num den = (num, den)
fraction i xi j (xj ∷ xs) num den =
    fraction i xi (j + 1) xs (if i == j then num else gf_mul num xj)
      (if i == j then den else gf_mul den (bit_xor xi xj))

-- The loop over i; `none` is the panic.
pub sum_terms : ℕ → List ℕ → ℕ → List Share → ℕ → Option ℕ
sum_terms byte_idx xs i [] acc = some acc
sum_terms byte_idx xs i (s ∷ shares) acc =
    let (num, den) = fraction i (get_or xs i 0) 0 xs 1 1 in
    elim (gf_div num den) [
      | none ↦ none
      | some q ↦
          sum_terms byte_idx xs (i + 1) shares (bit_xor acc (gf_mul (get_or s (byte_idx + 1) 0) q))
    ]

-- The loop over the bytes, with n bytes left.
pub recover : ℕ → ℕ → List ℕ → List Share → Result ShamirError Bytes
recover zero byte_idx xs shares = ok []
recover (suc n) byte_idx xs shares = elim (sum_terms byte_idx xs 0 shares 0) [
  | none ↦ err division_by_zero
  | some b ↦ elim (recover n (byte_idx + 1) xs shares) [
    | ok secret ↦ ok (b ∷ secret)
    | err e ↦ err e
  ]
]

unfoldable pub combine : List Share → Result ShamirError Bytes
unfolding validate contains fraction sum_terms recover
combine shares =
    let first_length = length (get_or shares 0 []) in
    if ltb (length shares) 2
    then err too_few_shares
    else if leb first_length 1
    then err malformed_share
    else elim (validate (first_length - 1) [] shares) [
      | err e ↦ err e
      | ok xs ↦ recover (first_length - 1) 0 xs shares
    ]
