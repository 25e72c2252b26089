-- ===== src/Crypto/Shamir/Distinct.antt =====
-- The shares that Split of crypto/shamir.go makes differ, and are as many as were asked for.
use genomedb.Base.{
  ℕ, zero, suc, ◌+◌, ◌%◌, ◌<◌, ◌≡◌, ◌≢◌, refl, sym, subst, ap, List, [], ◌∷◌, length, arith, All,
  Distinct, Bytes, Entropy, ok,
}
use genomedb.Crypto.Shamir.{Share, split}
use genomedb.Crypto.Shamir.Split.{partial_share, share_rows, split_lem}

x_of : Share → ℕ
x_of [] = 0
x_of (x ∷ ys) = x

later_differ :
    (polys : List (List ℕ)) (n i j : ℕ)
    → i < j
    → j + n < 256
    → All (λ (z : Share). z ≢ partial_share polys 0 ((i + 1) % 256)) (share_rows polys 0 n j)
unfolding x_of
later_differ polys zero i j before fits = tt
later_differ polys (suc n) i j before fits = (
  λ e. let same : (j + 1) % 256 ≡ (i + 1) % 256 = ap x_of e in omega arith,
  later_differ polys n i (j + 1) (omega arith) (omega arith),
)

share_rows-Distinct :
    (polys : List (List ℕ)) (n i : ℕ) → i + n < 256 → Distinct (share_rows polys 0 n i)
share_rows-Distinct polys zero i fits = tt
share_rows-Distinct polys (suc n) i fits = (
  later_differ polys n i (i + 1) (omega arith) (omega arith),
  share_rows-Distinct polys n (i + 1) (omega arith),
)

length-share_rows : (polys : List (List ℕ)) (n i : ℕ) → length (share_rows polys 0 n i) ≡ n
length-share_rows polys zero i = refl
length-share_rows polys (suc n) i = ap (λ k. suc k) (length-share_rows polys n (i + 1))

pub split-Distinct :
    (e : Entropy) (secret : Bytes) (shares threshold : ℕ) (src src' : e.Source) (out : List Share)
    → split e secret shares threshold src ≡ ok (out, src')
    → Distinct out × (length out ≡ shares)
split-Distinct e secret shares threshold src src' out run =
    let (two, le, fits, some_bytes, (polys, are, rows)) =
      split_lem e secret shares threshold src out src' run in
    subst (λ (t : List Share). Distinct t × (length t ≡ shares)) (sym rows)
      (share_rows-Distinct polys shares 0 (omega arith), length-share_rows polys shares 0)
