-- ===== src/Mesh/Keys.antt =====
-- What mesh/wireguard.go makes of a key and of a port.
use genomedb.Base.{
  ℕ, zero, suc, ◌+◌, ◌-◌, ◌*◌, ◌/◌, ◌%◌, ◌≤◌, ◌<◌, ◌≡◌, refl, ap, ◌∙◌, bit_and, bit_or, Bool, true,
  false, ◌&&◌, [], ◌∷◌, ◌++◌, length, get_or, leb, ltb, ◌==◌, if◌then◌else◌, Bytes, IsBytes, arith,
  Bool-cases, inl, inr,
}
use genomedb.Base.Table.{each_below, each_below_at}
use genomedb.Mesh.{update_at, clamp, digits, decimal}

abbrev low : ℕ → ℕ
low b = bit_and b 248

abbrev high : ℕ → ℕ
high b = bit_or (bit_and b 127) 64

is_low : ℕ → Bool
is_low b = (low b % 8 == 0) && ((low (low b) == low b) && ltb (low b) 256)

is_low_table : each_below is_low 256 ≡ true
unfolding each_below is_low
is_low_table = refl

is_high : ℕ → Bool
is_high b = leb 64 (high b) && (ltb (high b) 128 && (high (high b) == high b))

is_high_table : each_below is_high 256 ≡ true
unfolding each_below is_high
is_high_table = refl

length-update_at : (i : ℕ) (f : ℕ → ℕ) (key : Bytes) → length (update_at i f key) ≡ length key
unfolding update_at
length-update_at i f [] = refl
length-update_at zero f (b ∷ key) = refl
length-update_at (suc i) f (b ∷ key) = ap (λ n. suc n) (length-update_at i f key)

get_or-update_at :
    (i j : ℕ) (f : ℕ → ℕ) (key : Bytes)
    → j < length key
    → get_or (update_at i f key) j 0 ≡ (if i == j then f (get_or key j 0) else get_or key j 0)
unfolding update_at
get_or-update_at i j f [] lt = absurd (omega arith)
get_or-update_at zero zero f (b ∷ key) lt = refl
get_or-update_at zero (suc j) f (b ∷ key) lt = ground arith
get_or-update_at (suc i) zero f (b ∷ key) lt = ground arith
get_or-update_at (suc i) (suc j) f (b ∷ key) lt = ground (arith, get_or-update_at i j f key)

get_or-IsBytes : (key : Bytes) (i : ℕ) → IsBytes key → get_or key i 0 < 256
get_or-IsBytes [] i h = omega arith
get_or-IsBytes (b ∷ key) zero h = h.0
get_or-IsBytes (b ∷ key) (suc i) h = get_or-IsBytes key i h.1

-- Clamping a key of 32 bytes gives 32 bytes, of which the first is a multiple of 8, the last is from
-- 64 to 127, and all others are as they were.
pub clamp_lem :
    (key : Bytes)
    → IsBytes key
    → length key ≡ 32
    → (length (clamp key) ≡ 32)
      × (get_or (clamp key) 0 0 % 8 ≡ 0)
      × (64 ≤ get_or (clamp key) 31 0)
      × (get_or (clamp key) 31 0 < 128)
      × ((i : ℕ) → 0 < i → i < 31 → get_or (clamp key) i 0 ≡ get_or key i 0)
unfolding clamp is_low is_high
clamp_lem key bytes len =
    let inner = update_at 0 low key in
    let size : length inner ≡ 32 = length-update_at 0 low key ∙ len in
    let first : get_or (clamp key) 0 0 ≡ low (get_or key 0 0) =
      get_or-update_at 31 0 high inner (omega arith) ∙ get_or-update_at 0 0 low key (omega arith) in
    let last : get_or (clamp key) 31 0 ≡ high (get_or key 31 0) =
      get_or-update_at 31 31 high inner (omega arith)
      ∙ ap high (get_or-update_at 0 31 low key (omega arith)) in
    let lows =
      each_below_at is_low (get_or key 0 0) 256 (get_or-IsBytes key 0 bytes) is_low_table in
    let highs =
      each_below_at is_high (get_or key 31 0) 256 (get_or-IsBytes key 31 bytes) is_high_table in
    let multiple : low (get_or key 0 0) % 8 ≡ 0 = ground arith in
    let (at_least, below) = bounds (get_or key 31 0) highs in
    (
      length-update_at 31 high inner ∙ size,
      ap (λ t. t % 8) first ∙ multiple,
      omega (arith, last),
      omega (arith, last),
      λ i pos small. get_or-update_at 31 i high inner (omega arith) ∙ middle i pos small,
    )
  where
    bounds : (b : ℕ) → is_high b ≡ true → (64 ≤ high b) × (high b < 128)
    bounds b h = ground arith

    middle :
        (i : ℕ)
        → 0 < i
        → i < 31
        → (if 31 == i
            then high (get_or (update_at 0 low key) i 0)
            else get_or (update_at 0 low key) i 0)
          ≡ get_or key i 0
    middle i pos small =
        let differs : (31 == i) ≡ false = ground arith in
        let away : (0 == i) ≡ false = ground arith in
        rw (differs) (
          get_or-update_at 0 i low key (omega arith)
          ∙ ap (λ c. if c then low (get_or key i 0) else get_or key i 0) away)

-- A decimal text, read back.
abbrev pub read_digits : ℕ → Bytes → ℕ
read_digits acc [] = acc
read_digits acc (c ∷ text) = read_digits (acc * 10 + (c - 48)) text

read_digits-append :
    (acc : ℕ) (text : Bytes) (c : ℕ)
    → read_digits acc (text ++ c ∷ []) ≡ read_digits acc text * 10 + (c - 48)
read_digits-append acc [] c = refl
read_digits-append acc (d ∷ text) c = read_digits-append (acc * 10 + (d - 48)) text c

read_digits-digits : (fuel n : ℕ) → n ≤ fuel → read_digits 0 (digits fuel n) ≡ n
unfolding digits
read_digits-digits zero n le = ground arith
read_digits-digits (suc fuel) n le = elim (Bool-cases (ltb n 10)) [
  | inl single ↦ rw (digits, single) (omega arith)
  | inr more ↦
      rw
        (
          digits,
          more,
          read_digits-append 0 (digits fuel (n / 10)) (48 + n % 10),
          read_digits-digits fuel (n / 10) (omega arith),
        )
        (omega arith)
]

-- The decimal text of a number reads back as that number: the fuel is enough for every number.
pub read_digits-decimal : (n : ℕ) → read_digits 0 (decimal n) ≡ n
read_digits-decimal n = read_digits-digits n n (omega arith)
