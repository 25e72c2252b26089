-- ===== src/Crypto/Ratchet.antt =====
-- crypto/ratchet.go. HKDF and HMAC, both with SHA-256, are not part of this repository: they are
-- the parameter `Kdf`.
pub mod Laws
use genomedb.Base.{
  ℕ, ◌+◌, ◌-◌, ◌/◌, ◌%◌, ◌≡◌, ◌++◌, Bool, ◌||◌, Option, none, some, List, [], ◌∷◌, length, take,
  ltb, ◌==◌, if◌then◌else◌, Bytes, ascii, Result, ok, err,
}

pub record Kdf : Type 0 where
  -- the first n bytes of the stream for the input key, the salt and the info; `none` is a failed
  -- read
  pub hkdf : Bytes → Bytes → Bytes → ℕ → Option Bytes
  pub hkdf_fills :
      (ikm salt info : Bytes) (n : ℕ) (out : Bytes)
      → hkdf ikm salt info n ≡ some out
      → length out ≡ n
  -- the key and the message
  pub hmac : Bytes → Bytes → Bytes
  pub length-hmac : (key message : Bytes) → length (hmac key message) ≡ 32

abbrev pub key_size : ℕ
key_size = 32

pub data RatchetError : Type 0 where
  empty_input kdf_failed : RatchetError

-- encoding/hex: two lower-case digits for each byte.
unfoldable pub hex_digit : ℕ → ℕ
hex_digit n = if ltb n 10 then b'0' + n else b'a' + n - 10

unfoldable pub hex_encode : Bytes → Bytes
unfolding hex_digit
hex_encode [] = []
hex_encode (b ∷ bs) = hex_digit (b / 16) ∷ hex_digit (b % 16) ∷ hex_encode bs

module _ (kdf : Kdf) where
  open kdf use {hkdf, hmac}

  unfoldable pub hkdf_expand : Bytes → Bytes → Bytes → Result RatchetError Bytes
  hkdf_expand ikm salt info = elim (hkdf ikm salt info key_size) [
    | none ↦ err kdf_failed
    | some out ↦ ok out
  ]

  unfoldable pub derive_fragment_root : Bytes → Bytes → Result RatchetError Bytes
  unfolding hkdf_expand
  derive_fragment_root root_secret fragment_salt =
      hkdf_expand root_secret fragment_salt (ascii "mutant-db/fragment-root")

  unfoldable pub advance : Bytes → Bytes → Bytes → Result RatchetError Bytes
  unfolding hkdf_expand
  advance current_key server_seed local_entropy =
      if length current_key == 0 || length server_seed == 0 || length local_entropy == 0
      then err empty_input
      else hkdf_expand (server_seed ++ local_entropy) current_key (ascii "mutant-db/ratchet-step")

  unfoldable pub next_pseudo_id : Bytes → Bytes → Bytes
  unfolding hex_encode
  next_pseudo_id prev_pseudo_id server_seed = take 32 (hex_encode (hmac server_seed prev_pseudo_id))
