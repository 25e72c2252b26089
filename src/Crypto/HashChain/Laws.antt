-- ===== src/Crypto/HashChain/Laws.antt =====
-- What the hash chain of crypto/hashchain.go guarantees.
use native.Mathlib.Decide.{dec_le}
use genomedb.Base.{
  ℕ, zero, suc, ◌+◌, ◌-◌, ◌≤◌, ◌<◌, ◌≡◌, ◌↔◌, refl, sym, ap, ap₂, ◌∙◌, true, some, List, [], ◌∷◌,
  bit_or, bit_xor, arith, length, get_elem?, Bytes, Entropy, inl, inr, Option-cases,
}
use genomedb.Base.Xor.{xor_self, xor_eq_zero, bit_or_eq_zero}
use genomedb.Crypto.HashChain.{links, build_chain, difference, verify_step}

difference_zero :
    (hs rs : Bytes) (d : ℕ) → length hs ≡ length rs → difference hs rs d ≡ 0 → (d ≡ 0) × (rs ≡ hs)
unfolding difference
difference_zero [] [] d len h = (h, refl)
difference_zero [] (r ∷ rs) d len h = absurd (omega arith)
difference_zero (x ∷ hs) [] d len h = absurd (omega arith)
difference_zero (x ∷ hs) (r ∷ rs) d len h =
    let (or_zero, e) = difference_zero hs rs (bit_or d (bit_xor x r)) (omega arith) h in
    let (dz, xz) = bit_or_eq_zero d (bit_xor x r) or_zero in
    (dz, ap₂ (λ (t : ℕ) ts. t ∷ ts) (sym (xor_eq_zero x r xz)) e)

difference_self : (hs : Bytes) → difference hs hs 0 ≡ 0
unfolding difference
difference_self [] = refl
difference_self (x ∷ hs) = ap (λ t. difference hs hs (bit_or 0 t)) (xor_self x) ∙ difference_self hs

module _ (sha256 : Bytes → Bytes) where
  verify_step_accepts :
      (revealed trusted : Bytes)
      → verify_step sha256 revealed trusted ≡ true
      → revealed ≡ sha256 trusted
  unfolding verify_step
  verify_step_accepts revealed trusted h =
      ground (arith, difference_zero (sha256 trusted) revealed 0)

  verify_step_self : (trusted : Bytes) → verify_step sha256 (sha256 trusted) trusted ≡ true
  unfolding verify_step
  verify_step_self trusted = ground (arith, difference_self (sha256 trusted))

  -- VerifyStep accepts a revealed link exactly when it is the hash of the trusted one: whoever
  -- holds the trusted link can compute the only link that will be accepted.
  pub verify_step_iff :
      (revealed trusted : Bytes)
      → (verify_step sha256 revealed trusted ≡ true) ↔ (revealed ≡ sha256 trusted)
  verify_step_iff revealed trusted = (
    verify_step_accepts revealed trusted,
    λ e. ap (λ t. verify_step sha256 t trusted) e ∙ verify_step_self trusted,
  )

  -- n hashes of a value.
  unfoldable pub iterate : ℕ → Bytes → Bytes
  iterate zero b = b
  iterate (suc n) b = iterate n (sha256 b)

  pub iterate-suc : (n : ℕ) (b : Bytes) → iterate (suc n) b ≡ sha256 (iterate n b)
  unfolding iterate
  iterate-suc zero b = refl
  iterate-suc (suc n) b = iterate-suc n (sha256 b)

  links_later :
      (n j : ℕ) (link : Bytes) (later : List Bytes)
      → get_elem? (links sha256 n link later) (suc (n + j)) ≡ get_elem? later j
  unfolding links
  links_later zero j link later = ap (λ t. get_elem? later t) (omega arith)
  links_later (suc n) j link later =
      ap (λ t. get_elem? (links sha256 n (sha256 link) (link ∷ later)) (suc t)) (omega arith)
      ∙ links_later n (suc j) (sha256 link) (link ∷ later)

  links_lem :
      (n i : ℕ) (link : Bytes) (later : List Bytes)
      → i ≤ n
      → get_elem? (links sha256 n link later) i ≡ some (iterate (n - i) link)
  unfolding links iterate
  links_lem zero zero link later h = refl
  links_lem zero (suc i) link later h = absurd (omega arith)
  links_lem (suc n) i link later h = elim (dec_le i n) [
    | yes le ↦
        links_lem n i (sha256 link) (link ∷ later) le
        ∙ ap (λ t. some (iterate t link)) (let e : suc (n - i) ≡ suc n - i = omega arith in e)
    | no gt ↦
        let last : i ≡ suc (n + 0) = omega arith in
        ap (λ t. get_elem? (links sha256 n (sha256 link) (link ∷ later)) t) last
        ∙ links_later n 0 (sha256 link) (link ∷ later)
        ∙ ap (λ t. some (iterate t link)) (let e : 0 ≡ suc n - i = omega arith in e)
  ]

  module _ (e : Entropy) where
    open e use {Source, read}

    build_chain_drawn :
        (len : ℕ) (src src' : Source) (chain : List Bytes)
        → 1 ≤ len
        → build_chain sha256 e len src ≡ some (chain, src')
        → (tip : Bytes) × (read 32 src ≡ some (tip, src')) × (links sha256 len tip [] ≡ chain)
    unfolding build_chain
    build_chain_drawn zero src src' chain pos h = elim pos [ ]
    build_chain_drawn (suc len) src src' chain pos h = elim (Option-cases (read 32 src)) [
      | inl failed ↦ cc (rw (build_chain, failed) at h)
      | inr ((tip, next), drawn) ↦ (tip, ground arith, ground arith)
    ]

    -- Of a chain that BuildChain returns for a length of at least 1, the last link, at index
    -- `length`, is the one that was drawn at random, every link is made from it alone by hashing,
    -- and VerifyStep accepts each link after the one above it.
    pub build_chain_lem :
        (len : ℕ) (src src' : Source) (chain : List Bytes)
        → 1 ≤ len
        → build_chain sha256 e len src ≡ some (chain, src')
        → (tip : Bytes) × (read 32 src ≡ some (tip, src'))
          × ((i : ℕ) → i ≤ len → get_elem? chain i ≡ some (iterate (len - i) tip))
          × ((i : ℕ) (link above : Bytes)
              → i < len
              → get_elem? chain i ≡ some link
              → get_elem? chain (i + 1) ≡ some above
              → verify_step sha256 link above ≡ true)
    build_chain_lem len src src' chain pos h =
        let (tip, drawn, made) = build_chain_drawn len src src' chain pos h in
        let at = λ (i : ℕ) (le : i ≤ len).
          ap (λ (c : List Bytes). get_elem? c i) (sym made) ∙ links_lem len i tip [] le in
        (
          tip,
          drawn,
          at,
          λ i link above lt el ea.
              let link_is : link ≡ iterate (len - i) tip = cc (at i (omega arith)) in
              let above_is : above ≡ iterate (len - (i + 1)) tip = cc (at (i + 1) (omega arith)) in
              let one_more : len - i ≡ suc (len - (i + 1)) = omega arith in
              (verify_step_iff link above).1 (
                link_is
                ∙ ap (λ t. iterate t tip) one_more
                ∙ iterate-suc (len - (i + 1)) tip
                ∙ ap sha256 (sym above_is)),
        )
