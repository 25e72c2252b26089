-- ===== src/Tests/Parameters.antt =====
-- Concrete stand-ins for the packages that the models take as parameters. None of them is secure:
-- they only show that what is asked of a parameter can hold.
use genomedb.Base.{
  All, List, [], none, ℕ, zero, suc, ◌+◌, ◌≡◌, refl, sym, ap, ◌∙◌, Option, some, ◌∷◌, arith, Bytes,
  IsBytes, Entropy, length, length-replicate, replicate, ◌==◌, ==_iff, subst,
}
use genomedb.Crypto.Aead.{Gcm}
use genomedb.Crypto.Ratchet.{Kdf}
use genomedb.Store.Tables.{Member, Codec}
use genomedb.Client.Node.{Packages}

-- A source that counts: the reading number k is filled with the byte 7.
abbrev pub count_read : ℕ → ℕ → Option (Bytes × ℕ)
count_read n s = some (replicate n 7, s + 1)

replicate-IsBytes : (n : ℕ) → IsBytes (replicate n 7)
replicate-IsBytes zero = tt
replicate-IsBytes (suc n) = (omega arith, replicate-IsBytes n)

pub count_fills :
    (n s : ℕ) (b : Bytes) (s' : ℕ) → count_read n s ≡ some (b, s') → (length b ≡ n) × IsBytes b
count_fills n s b s' h =
    let same : replicate n 7 ≡ b = ground arith in
    subst (λ (t : Bytes). (length t ≡ n) × IsBytes t) same
      (length-replicate n 7, replicate-IsBytes n)

abbrev pub counter : Entropy
counter = record { Source = ℕ; read = count_read; read_fills = count_fills }

abbrev pub toy_gcm : Gcm
toy_gcm = record {
  accepts_key = λ key. length key == 32;
  accepts_key_size = λ key h. (==_iff (length key) 32).1 h;
  seal = λ key nonce plaintext aad. plaintext;
  unseal = λ key nonce ciphertext aad. some ciphertext;
  unseal-seal = λ key nonce plaintext aad. refl;
}

abbrev pub toy_hkdf : Bytes → Bytes → Bytes → ℕ → Option Bytes
toy_hkdf ikm salt info n = some (replicate n (length ikm))

pub toy_fills :
    (ikm salt info : Bytes) (n : ℕ) (out : Bytes)
    → toy_hkdf ikm salt info n ≡ some out
    → length out ≡ n
toy_fills ikm salt info n out h =
    let same : replicate n (length ikm) ≡ out = ground arith in
    ap (λ (t : Bytes). length t) (sym same) ∙ length-replicate n (length ikm)

abbrev pub toy_kdf : Kdf
toy_kdf = record {
  hkdf = toy_hkdf;
  hkdf_fills = toy_fills;
  hmac = λ key message. replicate 32 (length message);
  length-hmac = λ key message. length-replicate 32 (length message);
}

-- A hash without collisions: one byte in front.
abbrev pub toy_hash : Bytes → Bytes
toy_hash b = 1 ∷ b

abbrev first_byte : Bytes → ℕ
first_byte [] = 0
first_byte (x ∷ xs) = x

-- A codec for members whose strings are one byte long.
abbrev pub IsLetter : Bytes → Type 0
IsLetter b = (c : ℕ) × (b ≡ c ∷ [])

abbrev pub toy_marshal : List Member → Bytes
toy_marshal [] = []
toy_marshal (m ∷ ms) =
    first_byte m.pid ∷ first_byte m.node_id ∷ first_byte m.endpoint ∷ toy_marshal ms

abbrev pub toy_unmarshal : Bytes → Option (List Member)
toy_unmarshal [] = some []
toy_unmarshal (a ∷ []) = none
toy_unmarshal (a ∷ b ∷ []) = none
toy_unmarshal (a ∷ b ∷ c ∷ bytes) = elim (toy_unmarshal bytes) [
  | none ↦ none
  | some ms ↦ some (record { pid = a ∷ []; node_id = b ∷ []; endpoint = c ∷ [] } ∷ ms)
]

pub toy_unmarshal-toy_marshal :
    (ms : List Member)
    → All (λ (m : Member). IsLetter m.pid × IsLetter m.node_id × IsLetter m.endpoint) ms
    → toy_unmarshal (toy_marshal ms) ≡ some ms
toy_unmarshal-toy_marshal [] h = refl
toy_unmarshal-toy_marshal (m ∷ ms) (((a, ea), (b, eb), (c, ec)), h) =
    rw (toy_unmarshal-toy_marshal ms h, ea, eb, ec)

abbrev pub toy_codec : Codec
toy_codec = record {
  IsText = IsLetter;
  marshal = toy_marshal;
  unmarshal = toy_unmarshal;
  unmarshal-marshal = toy_unmarshal-toy_marshal;
}

abbrev pub toy_packages : Packages
toy_packages = record {
  gcm = toy_gcm;
  kdf = toy_kdf;
  codec = toy_codec;
  entropy = counter;
  sha256 = toy_hash;
}
