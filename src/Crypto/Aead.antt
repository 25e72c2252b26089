-- ===== src/Crypto/Aead.antt =====
-- crypto/aead.go and crypto/wipe.go. AES-256-GCM is not part of this repository: it is the
-- parameter `Gcm`, with what the packages crypto/aes and crypto/cipher document.
pub mod Laws
use genomedb.Base.{
  ℕ, ◌≡◌, ◌∙◌, sym, ap, refl, ◌++◌, Bool, true, false, Option, none, some, List, [], ◌∷◌, length,
  take, drop, ltb, if◌then◌else◌, map, Bytes, Entropy, Result, ok, err, arith, Option-cases, inl,
  inr,
}

pub record Gcm : Type 0 where
  -- aes.NewCipher fails on a key that is not 16, 24 or 32 bytes long.
  pub accepts_key : Bytes → Bool
  pub accepts_key_size : (key : Bytes) → length key ≡ 32 → accepts_key key ≡ true
  -- key, nonce, plaintext and additional data
  pub seal : Bytes → Bytes → Bytes → Bytes → Bytes
  pub unseal : Bytes → Bytes → Bytes → Bytes → Option Bytes
  pub unseal-seal :
      (key nonce plaintext aad : Bytes)
      → unseal key nonce (seal key nonce plaintext aad) aad ≡ some plaintext

abbrev pub nonce_size : ℕ
nonce_size = 12

pub data AeadError : Type 0 where
  bad_key no_nonce short_ciphertext not_authentic : AeadError

module _ (gcm : Gcm) where
  open gcm use {accepts_key, accepts_key_size, seal, unseal, unseal-seal}

  unfoldable pub encrypt :
      (e : Entropy) → Bytes → Bytes → Bytes → e.Source → Result AeadError (Bytes × e.Source)
  encrypt e key plaintext aad src =
      if accepts_key key
      then (elim (e.read nonce_size src) [
        | none ↦ err no_nonce
        | some (nonce, src') ↦ ok (nonce ++ seal key nonce plaintext aad, src')
      ])
      else err bad_key

  unfoldable pub decrypt : Bytes → Bytes → Bytes → Result AeadError Bytes
  decrypt key ciphertext aad =
      if accepts_key key
      then if ltb (length ciphertext) nonce_size
        then err short_ciphertext
        else (elim (unseal key (take nonce_size ciphertext) (drop nonce_size ciphertext) aad) [
          | none ↦ err not_authentic
          | some plaintext ↦ ok plaintext
        ])
      else err bad_key

-- The loop of Wipe writes a zero over every byte.
unfoldable pub wipe : Bytes → Bytes
wipe = map (λ b. 0)
