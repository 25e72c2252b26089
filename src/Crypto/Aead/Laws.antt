-- ===== src/Crypto/Aead/Laws.antt =====
-- What Encrypt and Decrypt of crypto/aead.go guarantee.
use genomedb.Base.{
  ℕ, zero, suc, ◌≡◌, refl, ap, ◌∙◌, true, false, Option, none, some, List, [], ◌∷◌, ◌++◌, arith,
  length, take, drop, Bytes, Entropy, ok, err, Bool-cases, Option-cases, inl, inr, ltb,
  length-append,
}
use genomedb.Crypto.Aead.{Gcm, AeadError, nonce_size, encrypt, decrypt}

take_append : {A : Type 0} (n : ℕ) (xs ys : List A) → length xs ≡ n → take n (xs ++ ys) ≡ xs
take_append zero [] ys h = refl
take_append zero (x ∷ xs) ys h = absurd (omega arith)
take_append (suc n) [] ys h = absurd (omega arith)
take_append (suc n) (x ∷ xs) ys h = ap (λ t. x ∷ t) (take_append n xs ys (omega arith))

drop_append : {A : Type 0} (n : ℕ) (xs ys : List A) → length xs ≡ n → drop n (xs ++ ys) ≡ ys
drop_append zero [] ys h = refl
drop_append zero (x ∷ xs) ys h = absurd (omega arith)
drop_append (suc n) [] ys h = absurd (omega arith)
drop_append (suc n) (x ∷ xs) ys h = drop_append n xs ys (omega arith)

module _ (gcm : Gcm) where
  open gcm use {accepts_key, seal, unseal, unseal-seal}

  module _ (e : Entropy) where
    -- A successful Encrypt is a nonce that was read, then what Seal gives under it.
    pub encrypt_lem :
        (key plaintext aad ciphertext : Bytes) (src src' : e.Source)
        → encrypt gcm e key plaintext aad src ≡ ok (ciphertext, src')
        → (accepts_key key ≡ true)
          × ((nonce : Bytes) × (e.read nonce_size src ≡ some (nonce, src'))
              × (ciphertext ≡ nonce ++ seal key nonce plaintext aad))
    unfolding encrypt
    encrypt_lem key plaintext aad ciphertext src src' run = elim (Bool-cases (accepts_key key)) [
      | inr refused ↦ cc (rw (encrypt, refused) at run)
      | inl accepted ↦ elim (Option-cases (e.read nonce_size src)) [
        | inl failed ↦ cc (rw (encrypt, accepted, failed) at run)
        | inr ((nonce, next), drawn) ↦ (accepted, (nonce, ground arith, ground arith))
      ]
    ]

  decrypt_framed :
      (key nonce body aad : Bytes)
      → accepts_key key ≡ true
      → length nonce ≡ nonce_size
      → decrypt gcm key (nonce ++ body) aad ≡ elim (unseal key nonce body aad) [
        | none ↦ err AeadError.not_authentic
        | some plaintext ↦ ok plaintext
      ]
  unfolding decrypt
  decrypt_framed key nonce body aad accepted len =
      let long : ltb (length (nonce ++ body)) nonce_size ≡ false =
        ground (arith, length-append nonce body) in
      rw (
        decrypt,
        accepted,
        long,
        take_append nonce_size nonce body len,
        drop_append nonce_size nonce body len,
      )

  module _ (e : Entropy) where
    -- What Encrypt returns under a key and additional data, Decrypt opens under the same key and
    -- data to the plaintext, whatever nonce was drawn.
    pub decrypt-encrypt :
        (key plaintext aad ciphertext : Bytes) (src src' : e.Source)
        → encrypt gcm e key plaintext aad src ≡ ok (ciphertext, src')
        → decrypt gcm key ciphertext aad ≡ ok plaintext
    decrypt-encrypt key plaintext aad ciphertext src src' run =
        let (accepted, (nonce, drawn, framed)) =
          encrypt_lem e key plaintext aad ciphertext src src' run in
        ap (λ c. decrypt gcm key c aad) framed
        ∙ decrypt_framed key nonce (seal key nonce plaintext aad) aad accepted
            (e.read_fills nonce_size src nonce src' drawn).0
        ∙ ap (λ (o : Option Bytes). elim o [ none ↦ err AeadError.not_authentic | some p ↦ ok p ])
            (unseal-seal key nonce plaintext aad)
