-- ===== src/Tests/Cryptography.antt =====
-- The theorems about crypto/ at concrete inputs.
use mathlib.Core.List.Memᴰ
use genomedb.Base.{
  ℕ, ◌+◌, ◌-◌, ◌<◌, ◌≤◌, ◌≡◌, ◌≢◌, ◌↔◌, ◌⊎◌, ◌++◌, refl, true, none, some, List, [], ◌∷◌, arith,
  Bytes, ok, err, length, get_elem?, bit_xor, replicate,
}
use genomedb.Crypto.Gf256.{gf_mul, gf_mul_slow, gf_div, exp_table, log_table}
use genomedb.Crypto.Gf256.Laws.{mul_assoc, bit_xor-gf_mul, gf_div_lem}
use genomedb.Crypto.Gf256.Tables.{gf_mul-eq-gf_mul_slow}
use genomedb.Crypto.Shamir.{Share, split, combine, eval_poly}
use genomedb.Crypto.Shamir.Split.{split_total}
use genomedb.Crypto.Shamir.Recovery.{combine-split}
use genomedb.Crypto.HashChain.{build_chain, verify_step}
use genomedb.Crypto.HashChain.Laws.{verify_step_iff, build_chain_lem, iterate}
use genomedb.Crypto.Aead.{encrypt, decrypt}
use genomedb.Crypto.Aead.Laws.{decrypt-encrypt}
use genomedb.Crypto.Ratchet.{advance, empty_input, next_pseudo_id}
use genomedb.Crypto.Ratchet.Laws.{advance_lem, length-next_pseudo_id}
use genomedb.Tests.Parameters.{counter, toy_gcm, toy_kdf, toy_hash}

gf_mul-eq-gf_mul_slow_example : gf_mul 0x57 0x83 ≡ gf_mul_slow 0x57 0x83
gf_mul-eq-gf_mul_slow_example = gf_mul-eq-gf_mul_slow 0x57 0x83 (omega arith) (omega arith)

-- The secret "hi" among three nodes, any two of which suffice.
abbrev secret : Bytes
secret = 104 ∷ 105 ∷ []

abbrev share_of : ℕ → Bytes
share_of x = x ∷ bit_xor 104 (gf_mul 7 x) ∷ bit_xor 105 (gf_mul 7 x) ∷ []

dealt : split counter secret 3 2 0 ≡ ok (share_of 1 ∷ share_of 2 ∷ share_of 3 ∷ [], 2)
unfolding split gf_mul exp_table log_table eval_poly
dealt = refl

combine-split_example : combine ((3 ∷ 97 ∷ 96 ∷ []) ∷ (1 ∷ 111 ∷ 110 ∷ []) ∷ []) ≡ ok secret
unfolding gf_mul exp_table log_table
combine-split_example =
    combine-split counter secret 3 2 0 2 (share_of 1 ∷ share_of 2 ∷ share_of 3 ∷ [])
      ((3 ∷ 97 ∷ 96 ∷ []) ∷ (1 ∷ 111 ∷ 110 ∷ []) ∷ []) (omega arith, (omega arith, tt)) dealt
      (Memᴰ.tail (Memᴰ.tail (Memᴰ.head refl)), (Memᴰ.head refl, tt)) ((λ e. cc, tt), (tt, tt))
      (omega arith)

never_fails : (n : ℕ) (src : ℕ) → counter.read n src ≢ none
never_fails n src h = cc

split_total_example : (r : List Share × ℕ) × (split counter secret 3 2 0 ≡ ok r)
split_total_example =
    split_total counter never_fails secret 3 2 0 (omega arith) (omega arith) (omega arith)
      (omega arith)

mul_assoc_example : gf_mul (gf_mul 0x57 0x83) 0xFE ≡ gf_mul 0x57 (gf_mul 0x83 0xFE)
mul_assoc_example = mul_assoc 0x57 0x83 0xFE (omega arith) (omega arith) (omega arith)

bit_xor-gf_mul_example :
    gf_mul (bit_xor 0x57 0x83) 0xFE ≡ bit_xor (gf_mul 0x57 0xFE) (gf_mul 0x83 0xFE)
bit_xor-gf_mul_example = bit_xor-gf_mul 0x57 0x83 0xFE (omega arith) (omega arith) (omega arith)

gf_div_lem_example : (q : ℕ) × (gf_div 0x57 0x83 ≡ some q) × (gf_mul q 0x83 ≡ 0x57) × (q < 256)
gf_div_lem_example = gf_div_lem 0x57 0x83 (omega arith) (omega arith) (λ e. cc)

verify_step_iff_example :
    (verify_step toy_hash (1 ∷ 5 ∷ []) (5 ∷ []) ≡ true) ↔ ((1 ∷ 5 ∷ []) ≡ toy_hash (5 ∷ []))
verify_step_iff_example = verify_step_iff toy_hash (1 ∷ 5 ∷ []) (5 ∷ [])

abbrev tip : Bytes
tip = replicate 32 7

built :
    build_chain toy_hash counter 2 0 ≡ some (toy_hash (toy_hash tip) ∷ toy_hash tip ∷ tip ∷ [], 1)
unfolding build_chain
built = refl

build_chain_lem_example :
    (drawn : Bytes) × (counter.read 32 0 ≡ some (drawn, 1))
    × ((i : ℕ)
        → i ≤ 2
        → get_elem? (toy_hash (toy_hash tip) ∷ toy_hash tip ∷ tip ∷ []) i
          ≡ some (iterate toy_hash (2 - i) drawn))
    × ((i : ℕ) (link above : Bytes)
        → i < 2
        → get_elem? (toy_hash (toy_hash tip) ∷ toy_hash tip ∷ tip ∷ []) i ≡ some link
        → get_elem? (toy_hash (toy_hash tip) ∷ toy_hash tip ∷ tip ∷ []) (i + 1) ≡ some above
        → verify_step toy_hash link above ≡ true)
build_chain_lem_example =
    build_chain_lem toy_hash counter 2 0 1 (toy_hash (toy_hash tip) ∷ toy_hash tip ∷ tip ∷ [])
      (omega arith) built

abbrev key : Bytes
key = replicate 32 9

sealed : encrypt toy_gcm counter key secret [] 0 ≡ ok (replicate 12 7 ++ secret, 1)
unfolding encrypt
sealed = refl

decrypt-encrypt_example : decrypt toy_gcm key (replicate 12 7 ++ secret) [] ≡ ok secret
decrypt-encrypt_example =
    decrypt-encrypt toy_gcm counter key secret [] (replicate 12 7 ++ secret) 0 1 sealed

advance_lem_example :
    ((advance toy_kdf key (1 ∷ []) [] ≡ err empty_input)
      ↔ ((key ≡ []) ⊎ (◌≡◌ {A = Bytes} (1 ∷ []) []) ⊎ (◌≡◌ {A = Bytes} [] [])))
    × ((k : Bytes) → advance toy_kdf key (1 ∷ []) [] ≡ ok k → length k ≡ 32)
advance_lem_example = advance_lem toy_kdf key (1 ∷ []) []

length-next_pseudo_id_example : length (next_pseudo_id toy_kdf key (1 ∷ [])) ≡ 32
length-next_pseudo_id_example = length-next_pseudo_id toy_kdf key (1 ∷ [])
