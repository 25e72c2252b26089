-- ===== src/Mesh.antt =====
-- mesh/wireguard.go. Curve25519 and base64 are not part of this repository, and are parameters. A
-- port is not negative.
pub mod Keys
pub mod Decimal
use genomedb.Base.{
  ℕ, zero, suc, ◌+◌, ◌/◌, ◌%◌, bit_and, bit_or, Option, none, some, List, [], ◌∷◌, ◌++◌, length,
  ltb, ◌==◌, if◌then◌else◌, Bytes, ascii, Entropy,
}

pub record KeyPair : Type 0 where
  pub private_key : Bytes
  pub public_key : Bytes

-- An assignment to one element; an index out of range would be a panic, and leaves the key here.
unfoldable pub update_at : ℕ → (ℕ → ℕ) → Bytes → Bytes
update_at i f [] = []
update_at zero f (b ∷ key) = f b ∷ key
update_at (suc i) f (b ∷ key) = b ∷ update_at i f key

unfoldable pub clamp : Bytes → Bytes
unfolding update_at
clamp key = update_at 31 (λ b. bit_or (bit_and b 127) 64) (update_at 0 (λ b. bit_and b 248) key)

-- `none` is an error of the source of random bytes or of curve25519.X25519.
unfoldable pub generate_key_pair :
    (e : Entropy)
    → (Bytes → Option Bytes)
    → (Bytes → Bytes)
    → e.Source
    → Option (KeyPair × e.Source)
unfolding clamp
generate_key_pair e base_mult base64 src = elim (e.read 32 src) [
  | none ↦ none
  | some (drawn, src') ↦ elim (base_mult (clamp drawn)) [
    | none ↦ none
    | some pub_key ↦
        some (record { private_key = base64 (clamp drawn); public_key = base64 pub_key }, src')
  ]
]

-- The verb %d at a number; `fuel` bounds the number of its digits.
unfoldable pub digits : ℕ → ℕ → Bytes
digits zero n = (48 + n % 10) ∷ []
digits (suc fuel) n =
    let rest = digits fuel (n / 10) in
    if ltb n 10 then (48 + n) ∷ [] else rest ++ (48 + n % 10) ∷ []

abbrev pub decimal : ℕ → Bytes
decimal n = digits n n

unfoldable pub render_interface_config : Bytes → Bytes → ℕ → Bytes
unfolding digits
render_interface_config private_key tunnel_cidr listen_port =
    ascii "[Interface]"
    ++ (10 ∷ ascii "PrivateKey = "
        ++ (private_key
            ++ (10 ∷ ascii "Address = "
                ++ (tunnel_cidr
                    ++ (10 ∷ ascii "ListenPort = " ++ (decimal listen_port ++ 10 ∷ []))))))

unfoldable pub render_peer_config : Bytes → Bytes → Bytes → Bytes → Bytes
render_peer_config name public_key allowed_ips endpoint =
    let s : Bytes =
      ascii "# "
      ++ (name
          ++ (10 ∷ ascii "[Peer]"
              ++ (10 ∷ ascii "PublicKey = "
                  ++ (public_key ++ (10 ∷ ascii "AllowedIPs = " ++ (allowed_ips ++ 10 ∷ [])))))) in
    if length endpoint == 0 then s else s ++ (ascii "Endpoint = " ++ (endpoint ++ 10 ∷ []))
