-- ===== src/Crypto/HashChain.antt =====
-- crypto/hashchain.go. SHA-256 is the parameter `sha256`; the source of random bytes is `e`.
pub mod Laws
use genomedb.Base.{
  ℕ, zero, suc, ◌+◌, Bool, true, false, ◌&&◌, Option, none, some, List, [], ◌∷◌, ◌==◌, bit_or,
  bit_xor, if◌then◌else◌, length, Bytes, Entropy,
}

module _ (sha256 : Bytes → Bytes) where
  -- chain[0], ..., chain[length] for the tip chain[length]: each link is the hash of the next.
  pub links : ℕ → Bytes → List Bytes → List Bytes
  links zero link later = link ∷ later
  links (suc n) link later = links n (sha256 link) (link ∷ later)

  module _ (e : Entropy) where
    open e use {Source, read}

    -- `none` is a failed read of the tip.
    unfoldable pub build_chain : ℕ → Source → Option (List Bytes × Source)
    unfolding links
    build_chain len src =
        let n = if len == 0 then 1 else len in
        elim (read 32 src) [ none ↦ none | some (tip, src') ↦ some (links n tip [], src') ]

-- The loop of VerifyStep over two byte strings of the same length.
pub difference : Bytes → Bytes → ℕ → ℕ
difference [] revealed diff = diff
difference (h ∷ hs) [] diff = diff
difference (h ∷ hs) (r ∷ rs) diff = difference hs rs (bit_or diff (bit_xor h r))

module _ (sha256 : Bytes → Bytes) where
  unfoldable pub verify_step : Bytes → Bytes → Bool
  unfolding difference
  verify_step revealed previously_trusted =
      let h = sha256 previously_trusted in
      if length h == length revealed then difference h revealed 0 == 0 else false
