-- ===== src/Crypto/Shamir/Split.antt =====
-- Split of crypto/shamir.go: when it succeeds, the shares are the values, at 1, 2, ..., of one
-- polynomial for each byte of the secret, and it succeeds on valid arguments if the source of
-- random bytes does not fail.
use native.Mathlib.Numerals.{add-one}
use mathlib.Core.List.{map-append}
use genomedb.Base.{
  ℕ, zero, suc, ◌+◌, ◌-◌, ◌%◌, ◌<◌, ◌≤◌, ◌≡◌, ◌≢◌, refl, sym, ap, ap₂, ◌∙◌, none, some, List, [],
  ◌∷◌, ◌++◌, map, arith, IsBytes, Bytes, Option-cases, inl, inr, length, length-map, length-append,
  set, replicate, append_assoc, append-nil, ok, err, Entropy,
}
use genomedb.Crypto.Shamir.{
  Share, no_entropy, eval_poly, new_shares, write_column, write_columns, split,
}

-- The share at `x` of the polynomials written so far, with zeros for the bytes still to come.
abbrev pub partial_share : List (List ℕ) → ℕ → ℕ → Share
partial_share polys left x = x ∷ (map (λ cs. eval_poly cs x) polys ++ replicate left 0)

-- The shares i + 1, ..., i + n.
abbrev pub share_rows : List (List ℕ) → ℕ → ℕ → ℕ → List Share
share_rows polys left zero i = []
share_rows polys left (suc n) i =
    partial_share polys left ((i + 1) % 256) ∷ share_rows polys left n (i + 1)

new_shares_lem : (n i len : ℕ) → new_shares n i len ≡ share_rows [] len n i
unfolding new_shares
new_shares_lem zero i len = refl
new_shares_lem (suc n) i len =
    ap (λ t. partial_share [] len ((i + 1) % 256) ∷ t) (new_shares_lem n (i + 1) len)

set-middle :
    (xs : List ℕ) (y : ℕ) (ys : List ℕ) (v : ℕ) → set (xs ++ y ∷ ys) (length xs) v ≡ xs ++ v ∷ ys
set-middle [] y ys v = refl
set-middle (x ∷ xs) y ys v = ap (λ t. x ∷ t) (set-middle xs y ys v)

write_share :
    (polys : List (List ℕ)) (cs : List ℕ) (left x : ℕ)
    → set (partial_share polys (suc left) x) (length polys + 1) (eval_poly cs x)
      ≡ partial_share (polys ++ cs ∷ []) left x
write_share polys cs left x =
    let f = λ (c : List ℕ). eval_poly c x in
    let v = eval_poly cs x in
    ap (λ i. set (partial_share polys (suc left) x) i v) (add-one (length polys))
    ∙ ap (λ i. x ∷ set (map f polys ++ 0 ∷ replicate left 0) i v) (sym (length-map polys f))
    ∙ ap (λ t. x ∷ t) (set-middle (map f polys) 0 (replicate left 0) v)
    ∙ ap (λ t. x ∷ t) (sym (append_assoc (map f polys) (v ∷ []) (replicate left 0)))
    ∙ ap (λ t. x ∷ (t ++ replicate left 0)) (sym (map-append f polys (cs ∷ [])))

write_column_lem :
    (polys : List (List ℕ)) (cs : List ℕ) (left n i : ℕ)
    → write_column cs (length polys) i (share_rows polys (suc left) n i)
      ≡ share_rows (polys ++ cs ∷ []) left n i
unfolding write_column
write_column_lem polys cs left zero i = refl
write_column_lem polys cs left (suc n) i =
    ap₂ (λ (s : Share) t. s ∷ t) (write_share polys cs left ((i + 1) % 256))
      (write_column_lem polys cs left n (i + 1))

-- One polynomial for each byte of the secret: the byte is its lowest coefficient, and it has
-- `threshold` coefficients, all bytes.
abbrev pub IsPolynomial : ℕ → ℕ → List ℕ → Type 0
IsPolynomial threshold byte cs =
    (rest : Bytes) × (cs ≡ byte ∷ rest) × (length rest + 1 ≡ threshold) × IsBytes rest

abbrev pub ArePolynomials : ℕ → Bytes → List (List ℕ) → Type 0
ArePolynomials threshold [] [] = Unit
ArePolynomials threshold [] (cs ∷ polys) = ⊥
ArePolynomials threshold (b ∷ secret) [] = ⊥
ArePolynomials threshold (b ∷ secret) (cs ∷ polys) =
    IsPolynomial threshold b cs × ArePolynomials threshold secret polys

ok-ne-err : {E A : Type 0} (a : A) (x : E) → ok a ≡ err x → ⊥
ok-ne-err a x h = cc

module _ (e : Entropy) where
  open e use {Source, read, read_fills}

  columns_fail :
      (threshold i b : ℕ) (secret : Bytes) (out : List Share) (src : Source)
      → read (threshold - 1) src ≡ none
      → write_columns e threshold i (b ∷ secret) out src ≡ err no_entropy
  unfolding write_columns
  columns_fail threshold i b secret out src h = rw (write_columns, h)

  columns_next :
      (threshold i b : ℕ) (secret : Bytes) (out : List Share) (src : Source) (random : Bytes)
      (next : Source)
      → read (threshold - 1) src ≡ some (random, next)
      → write_columns e threshold i (b ∷ secret) out src
        ≡ write_columns e threshold (i + 1) secret (write_column (b ∷ random) i 0 out) next
  unfolding write_columns
  columns_next threshold i b secret out src random next h = rw (write_columns, h)

  -- One round of the loop writes one more polynomial.
  columns_round :
      (threshold n : ℕ) (done : List (List ℕ)) (b : ℕ) (secret : Bytes) (src : Source)
      (random : Bytes) (next : Source)
      → read (threshold - 1) src ≡ some (random, next)
      → write_columns e threshold
          (length done)
          (b ∷ secret)
          (share_rows done (suc (length secret)) n 0)
          src
        ≡ write_columns e threshold
            (length (done ++ (b ∷ random) ∷ []))
            secret
            (share_rows (done ++ (b ∷ random) ∷ []) (length secret) n 0)
            next
  columns_round threshold n done b secret src random next h =
      columns_next threshold (length done) b secret (share_rows done (suc (length secret)) n 0) src
        random next h
      ∙ ap₂ (λ i out. write_columns e threshold i secret out next)
          (omega (arith, length-append done ((b ∷ random) ∷ [])))
          (write_column_lem done (b ∷ random) (length secret) n 0)

  pub write_columns_lem :
      (threshold n : ℕ) (done : List (List ℕ)) (secret : Bytes) (src : Source) (out : List Share)
      (src' : Source)
      → 2 ≤ threshold
      → write_columns e threshold (length done) secret (share_rows done (length secret) n 0) src
        ≡ ok (out, src')
      → (polys : List (List ℕ)) × ArePolynomials threshold secret polys
        × (out ≡ share_rows (done ++ polys) 0 n 0)
  unfolding write_columns
  write_columns_lem threshold n done [] src out src' two h = ([], tt, rw append-nil (cc h))
  write_columns_lem threshold n done (b ∷ secret) src out src' two h =
      elim (Option-cases (read (threshold - 1) src)) [
        | inl failed ↦ absurd (
            ok-ne-err _ _ (
              sym h
              ∙ columns_fail threshold (length done) b secret
                  (share_rows done (suc (length secret)) n 0) src failed))
        | inr ((random, next), drawn) ↦
            let (polys, are, rows) =
              write_columns_lem threshold n (done ++ (b ∷ random) ∷ []) secret next out src' two
                (sym (columns_round threshold n done b secret src random next drawn) ∙ h) in
            let (len, bytes) = read_fills (threshold - 1) src random next drawn in
            (
              (b ∷ random) ∷ polys,
              ((random, refl, omega arith, bytes), are),
              rows
                  ∙ ap (λ (ps : List (List ℕ)). share_rows ps 0 n 0)
                      (append_assoc done ((b ∷ random) ∷ []) polys),
            )
      ]

  -- The loop ends with shares if no read fails.
  pub write_columns-total :
      ((n : ℕ) (src : Source) → read n src ≢ none)
      → (threshold i : ℕ) (secret : Bytes) (out : List Share) (src : Source)
      → (r : List Share × Source) × (write_columns e threshold i secret out src ≡ ok r)
  unfolding write_columns
  write_columns-total reads threshold i [] out src = ((out, src), refl)
  write_columns-total reads threshold i (b ∷ secret) out src =
      elim (Option-cases (read (threshold - 1) src)) [
        | inl failed ↦ absurd (reads (threshold - 1) src failed)
        | inr ((random, next), drawn) ↦
            let (r, e') =
              write_columns-total reads threshold (i + 1) secret (write_column (b ∷ random) i 0 out)
                next in
            (r, columns_next threshold i b secret out src random next drawn ∙ e')
      ]

  split_accepts :
      (secret : Bytes) (shares threshold : ℕ) (src : Source) (r : List Share × Source)
      → split e secret shares threshold src ≡ ok r
      → (2 ≤ threshold)
        × (threshold ≤ shares)
        × (shares < 256)
        × (0 < length secret)
        × (write_columns e threshold 0 secret (new_shares shares 0 (length secret)) src ≡ ok r)
  unfolding split
  split_accepts secret shares threshold src r h = ground arith

  -- When Split succeeds, its arguments are in range and its shares are those of polynomials.
  pub split_lem :
      (secret : Bytes) (shares threshold : ℕ) (src : Source) (out : List Share) (src' : Source)
      → split e secret shares threshold src ≡ ok (out, src')
      → (2 ≤ threshold)
        × (threshold ≤ shares)
        × (shares < 256)
        × (0 < length secret)
        × ((polys : List (List ℕ)) × ArePolynomials threshold secret polys
            × (out ≡ share_rows polys 0 shares 0))
  split_lem secret shares threshold src out src' h =
      let (two, le, fits, some_bytes, run) =
        split_accepts secret shares threshold src (out, src') h in
      (
        two,
        le,
        fits,
        some_bytes,
        write_columns_lem threshold shares [] secret src out src' two (
            ap (λ rows. write_columns e threshold 0 secret rows src)
              (sym (new_shares_lem shares 0 (length secret)))
            ∙ run),
      )

  -- If no read of random bytes fails, Split succeeds on every secret that is not empty, for a
  -- threshold of at least 2 and a number of shares from the threshold to 255.
  pub split_total :
      ((n : ℕ) (src : Source) → read n src ≢ none)
      → (secret : Bytes) (shares threshold : ℕ) (src : Source) → 2 ≤ threshold
      → threshold ≤ shares
      → shares < 256
      → 0 < length secret
      → (r : List Share × Source) × (split e secret shares threshold src ≡ ok r)
  unfolding split
  split_total reads secret shares threshold src two le fits some_bytes =
      let (r, run) =
        write_columns-total reads threshold 0 secret (new_shares shares 0 (length secret)) src in
      (r, ground (arith, run))
