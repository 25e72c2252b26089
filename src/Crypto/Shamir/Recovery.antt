-- ===== src/Crypto/Shamir/Recovery.antt =====
-- Combine after Split of crypto/shamir.go: any `threshold` distinct shares give the secret back.
use mathlib.Core.List.{Memᴰ}
use genomedb.Base.{
  ℕ, zero, suc, ◌+◌, ◌%◌, ◌<◌, ◌≤◌, ◌≡◌, ◌≢◌, refl, sym, ap, ap₂, subst, ◌∙◌, List, [], ◌∷◌, map,
  arith, IsBytes, Bytes, length, length-map, All, All-mem, All-of_mem, All-weaken, Distinct, ok,
  Entropy,
}
use genomedb.Crypto.Field.Poly.{eval}
use genomedb.Crypto.Field.{add-zero}
use genomedb.Crypto.Shamir.{Share, split, combine}
use genomedb.Crypto.Shamir.Elements.{Element, val, bytes_field}
use genomedb.Crypto.Shamir.Terms.{eval_poly-eval}
use genomedb.Crypto.Shamir.Combine.{share_at, secret_byte, combine_lem}
use genomedb.Crypto.Shamir.Split.{ArePolynomials, partial_share, share_rows, split_lem}

lift : (xs : Bytes) → IsBytes xs → (es : List Element) × (map val es ≡ xs)
lift [] h = ([], refl)
lift (x ∷ xs) h = let (es, e) = lift xs h.1 in ((x, h.0) ∷ es, ap (λ t. x ∷ t) e)

secret_byte_lem : (c : Element) (cs : List Element) → secret_byte (c ∷ cs) ≡ val c
unfolding secret_byte eval
secret_byte_lem c cs = ap val (
    ap (λ t. bytes_field.◌⊕◌ c t) (bytes_field.zero-mul (eval bytes_field cs bytes_field.zero))
    ∙ add-zero bytes_field c)

-- The polynomials of a split, over the field.
lift_polys :
    (threshold : ℕ) (secret : Bytes) (polys : List (List ℕ))
    → IsBytes secret
    → ArePolynomials threshold secret polys
    → (ps : List (List Element)) × (map (map val) ps ≡ polys)
      × All (λ (cs : List Element). length cs ≤ threshold) ps
      × (map secret_byte ps ≡ secret)
lift_polys threshold [] [] b are = ([], refl, tt, refl)
lift_polys threshold [] (cs ∷ polys) b are = absurd are
lift_polys threshold (x ∷ secret) [] b are = absurd are
lift_polys threshold (x ∷ secret) (cs ∷ polys) b ((rest, e, len, bytes), are) =
    let (ps, eps, deg, heads) = lift_polys threshold secret polys b.1 are in
    let (es, ees) = lift rest bytes in
    let poly = (x, b.0) ∷ es in
    (
      poly ∷ ps,
      ap₂ (λ (t : List ℕ) ts. t ∷ ts) (ap (λ t. x ∷ t) ees ∙ sym e) eps,
      (omega (arith, length-map es val, ap (λ (t : Bytes). length t) ees), deg),
      ap₂ (λ (t : ℕ) ts. t ∷ ts) (secret_byte_lem (x, b.0) es) heads,
    )

abbrev tail_of : List ℕ → List ℕ
tail_of [] = []
tail_of (x ∷ xs) = xs

-- A written share is the share at its coordinate.
partial_share-share_at :
    (ps : List (List Element)) (x : Element)
    → partial_share (map (map val) ps) 0 (val x) ≡ share_at ps x
unfolding share_at
partial_share-share_at [] x = refl
partial_share-share_at (cs ∷ ps) x =
    ap₂ (λ (t : ℕ) ts. val x ∷ t ∷ ts) (eval_poly-eval cs x)
      (ap tail_of (partial_share-share_at ps x))

share_rows-mem :
    (polys : List (List ℕ)) (n i : ℕ) (s : Share)
    → i + n < 256
    → Memᴰ s (share_rows polys 0 n i)
    → (x : ℕ) × (0 < x) × (x < 256) × (s ≡ partial_share polys 0 x)
share_rows-mem polys zero i s fits m = elim m [ ]
share_rows-mem polys (suc n) i s fits (Memᴰ.head e) = ((i + 1) % 256, ground arith, omega arith, e)
share_rows-mem polys (suc n) i s fits (Memᴰ.tail m) =
    share_rows-mem polys n (i + 1) s (omega arith) m

Distinct-of_map : {A B : Type 0} (f : A → B) (xs : List A) → Distinct (map f xs) → Distinct xs
Distinct-of_map f [] d = tt
Distinct-of_map {A} f (x ∷ xs) d = (differs xs d.0, Distinct-of_map f xs d.1)
  where
    differs : (zs : List A) → All (λ z. z ≢ f x) (map f zs) → All (λ z. z ≢ x) zs
    differs [] h = tt
    differs (z ∷ zs) h = (λ e. h.0 (ap f e), differs zs h.1)

abbrev IsShareOf : List (List ℕ) → Share → Type 0
IsShareOf polys s = (x : ℕ) × (0 < x) × (x < 256) × (s ≡ partial_share polys 0 x)

-- Shares of a split are the shares at some nodes that are not zero.
nodes_of :
    (ps : List (List Element)) (picked : List Share)
    → All (IsShareOf (map (map val) ps)) picked
    → (ns : List Element) × (map (share_at ps) ns ≡ picked) × All (λ (x : Element). val x ≢ 0) ns
nodes_of ps [] h = ([], refl, tt)
nodes_of ps (s ∷ picked) ((x, pos, lt, e), h) =
    let (ns, ens, nz) = nodes_of ps picked h in
    (
      (x, lt) ∷ ns,
      ap₂ (λ (t : Share) ts. t ∷ ts) (sym (e ∙ partial_share-share_at ps (x, lt))) ens,
      (omega arith, nz),
    )

module _ (e : Entropy) where
  open e use {Source}

  -- Whatever the random bytes are, if Split with threshold `threshold` succeeds on a secret of
  -- bytes, then Combine gives exactly that secret from any list of distinct shares that Split
  -- returned, in any order, provided that the list holds at least `threshold` of them.
  pub combine-split :
      (secret : Bytes) (shares threshold : ℕ) (src src' : Source) (out picked : List Share)
      → IsBytes secret
      → split e secret shares threshold src ≡ ok (out, src')
      → All (λ s. Memᴰ s out) picked
      → Distinct picked
      → threshold ≤ length picked
      → combine picked ≡ ok secret
  combine-split secret shares threshold src src' out picked bytes run from distinct enough =
      let (two, le, fits, some_bytes, (polys, are, rows)) =
        split_lem e secret shares threshold src out src' run in
      let (ps, eps, deg, heads) = lift_polys threshold secret polys bytes are in
      let member = λ (s : Share) (m : Memᴰ s picked).
        share_rows-mem (map (map val) ps) shares 0 s (omega arith) (
          subst (λ (rs : List Share). Memᴰ s rs)
            (rows ∙ ap (λ (t : List (List ℕ)). share_rows t 0 shares 0) (sym eps))
            (All-mem (λ (t : Share). Memᴰ t out) from m)) in
      let (ns, ens, nz) = nodes_of ps picked (All-of_mem picked member) in
      let len : length ns ≡ length picked =
        sym (length-map ns (share_at ps)) ∙ ap (λ (t : List Share). length t) ens in
      ap combine (sym ens)
      ∙ combine_lem ps ns
          (omega (arith, length-map ps secret_byte, ap (λ (t : Bytes). length t) heads))
          (omega arith)
          (Distinct-of_map (share_at ps) ns
            (subst (λ (t : List Share). Distinct t) (sym ens) distinct))
          nz (All-weaken ps (λ cs h. omega arith) deg)
      ∙ ap (λ (t : Bytes). ok t) heads
