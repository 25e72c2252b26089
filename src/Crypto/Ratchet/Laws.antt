-- ===== src/Crypto/Ratchet/Laws.antt =====
-- What the ratchet of crypto/ratchet.go guarantees.
use genomedb.Base.{
  ℕ, zero, suc, ◌*◌, ◌≤◌, ◌≡◌, ◌↔◌, refl, ap, List, [], ◌∷◌, ◌++◌, arith, length, take, Bytes, ok,
  err, Option-cases, inl, inr, ◌⊎◌, ascii,
}
use genomedb.Crypto.Ratchet.{
  Kdf, empty_input, kdf_failed, key_size, hex_encode, hkdf_expand, advance, next_pseudo_id,
}

length-hex_encode : (bs : Bytes) → length (hex_encode bs) ≡ 2 * length bs
unfolding hex_encode
length-hex_encode [] = refl
length-hex_encode (b ∷ bs) = omega (arith, length-hex_encode bs)

length-take : {A : Type 0} (n : ℕ) (xs : List A) → n ≤ length xs → length (take n xs) ≡ n
length-take zero xs h = refl
length-take (suc n) [] h = absurd (omega arith)
length-take (suc n) (x ∷ xs) h = ap suc (length-take n xs (omega arith))

module _ (kdf : Kdf) where
  hkdf_expand_cases :
      (ikm salt info : Bytes)
      → (hkdf_expand kdf ikm salt info ≡ err kdf_failed)
        ⊎ ((key : Bytes) × (hkdf_expand kdf ikm salt info ≡ ok key) × (length key ≡ key_size))
  unfolding hkdf_expand
  hkdf_expand_cases ikm salt info = elim (Option-cases (kdf.hkdf ikm salt info key_size)) [
    | inl failed ↦ inl (rw (hkdf_expand, failed))
    | inr (out, e) ↦ inr (out, rw (hkdf_expand, e), kdf.hkdf_fills ikm salt info key_size out e)
  ]

  advance_empty :
      (k s l : Bytes) → (k ≡ []) ⊎ (s ≡ []) ⊎ (l ≡ []) → advance kdf k s l ≡ err empty_input
  unfolding advance
  advance_empty [] s l h = refl
  advance_empty (x ∷ k) [] l h = ground arith
  advance_empty (x ∷ k) (y ∷ s) [] h = ground arith
  advance_empty (x ∷ k) (y ∷ s) (z ∷ l) h = elim h [
    | inl e ↦ cc
    | inr (inl e) ↦ cc
    | inr (inr e) ↦ cc
  ]

  advance_full :
      (k s l : Bytes)
      → ((k ≡ []) ⊎ (s ≡ []) ⊎ (l ≡ []))
        ⊎ (advance kdf k s l ≡ hkdf_expand kdf (s ++ l) k (ascii "mutant-db/ratchet-step"))
  unfolding advance
  advance_full [] s l = inl (inl refl)
  advance_full (x ∷ k) [] l = inl (inr (inl refl))
  advance_full (x ∷ k) (y ∷ s) [] = inl (inr (inr refl))
  advance_full (x ∷ k) (y ∷ s) (z ∷ l) = inr (ground arith)

  -- Advance refuses its inputs exactly when one of the three is empty, and a key that it returns
  -- is 32 bytes long.
  pub advance_lem :
      (current_key server_seed local_entropy : Bytes)
      → ((advance kdf current_key server_seed local_entropy ≡ err empty_input)
          ↔ ((current_key ≡ []) ⊎ (server_seed ≡ []) ⊎ (local_entropy ≡ [])))
        × ((key : Bytes)
            → advance kdf current_key server_seed local_entropy ≡ ok key
            → length key ≡ 32)
  advance_lem k s l = elim (advance_full k s l) [
    | inl empty ↦
        let refused = advance_empty k s l empty in ((λ _. empty, λ _. refused), λ key h. cc)
    | inr expanded ↦ elim (hkdf_expand_cases (s ++ l) k (ascii "mutant-db/ratchet-step")) [
      | inl failed ↦ ((λ h. cc, advance_empty k s l), λ key h. cc)
      | inr (out, made, len) ↦ ((λ h. cc, advance_empty k s l), λ key h. ground arith)
    ]
  ]

  -- A pseudonym is 32 hexadecimal digits long.
  pub length-next_pseudo_id : (prev seed : Bytes) → length (next_pseudo_id kdf prev seed) ≡ 32
  unfolding next_pseudo_id
  length-next_pseudo_id prev seed =
      length-take 32 (hex_encode (kdf.hmac seed prev))
        (omega (arith, length-hex_encode (kdf.hmac seed prev), kdf.length-hmac seed prev))
