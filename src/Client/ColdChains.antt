-- ===== src/Client/ColdChains.antt =====
-- Consume of client/node.go over the chain that registerNewFragment builds.
use genomedb.Base.{
  ℕ, suc, sym, if◌then◌else◌, bytes_eq_refl, Option-cases, inl, inr, ◌∷◌, [], ◌+◌, ◌-◌, ◌<◌, ◌≡◌,
  refl, ap, ◌∙◌, some, List, arith, get_elem?, Bytes, Entropy, ok, err,
}
use genomedb.Crypto.HashChain.{build_chain}
use genomedb.Crypto.HashChain.Laws.{build_chain_lem, iterate}
use genomedb.Base.Assoc.{lookup, lookup-insert}
use genomedb.Client.Node.{
  Packages, Node, Call, announce, register_new_fragment, ColdChain, chain_exhausted, consume,
  cold_chain_length,
}

-- The state of a chain after i links were revealed.
abbrev revealed : List Bytes → ℕ → ColdChain
revealed chain i = record { chain = chain; remaining = cold_chain_length - i }

consume_step :
    (chain : List Bytes) (next : ℕ) (seed : Bytes)
    → get_elem? chain next ≡ some seed
    → consume (record { chain = chain; remaining = suc next })
      ≡ ok (seed, record { chain = chain; remaining = next })
unfolding consume
consume_step chain next seed found = rw (consume, found)

module _ (sha256 : Bytes → Bytes) (e : Entropy) where
  consume-build_chain :
      (src src' : e.Source) (chain : List Bytes)
      → build_chain sha256 e cold_chain_length src ≡ some (chain, src')
      → (tip : Bytes) × (get_elem? chain cold_chain_length ≡ some tip)
        × ((i : ℕ)
            → i < cold_chain_length
            → consume (revealed chain i) ≡ ok (iterate sha256 (i + 1) tip, revealed chain (i + 1)))
        × (consume (revealed chain cold_chain_length) ≡ err chain_exhausted)
  unfolding consume iterate
  consume-build_chain src src' chain built =
      let (tip, drawn, at, verified) =
        build_chain_lem sha256 e cold_chain_length src src' chain (omega arith) built in
      (
        tip,
        at 64 (omega arith),
        λ i lt.
            let next = 64 - (i + 1) in
            let left : 64 - i ≡ suc next = omega arith in
            let count : 64 - next ≡ i + 1 = omega arith in
            ap (λ (r : ℕ). consume (record { chain = chain; remaining = r })) left
            ∙ consume_step chain next (iterate sha256 (i + 1) tip)
                (at next (omega arith) ∙ ap (λ (k : ℕ). some (iterate sha256 k tip)) count),
        refl,
      )

module _ (p : Packages) where
  -- Let registerNewFragment register a fragment's chain with success. Then its one call announces a
  -- tip to the orchestrator, and from the chain that the node keeps under that id, Consume gives, as
  -- its reveal after i < 64 others, the announced tip hashed i + 1 times, none of them fails, and
  -- after 64 of them the chain is exhausted.
  pub consume-register_new_fragment :
      (pid chain_id : Bytes) (n n' : Node p.entropy.Source) (calls : List Call)
      → register_new_fragment p pid chain_id n ≡ (ok calls, n')
      → (tip : Bytes) × (after : ℕ → ColdChain) × (calls
          ≡ announce (record {
            node_id = n.node_id;
            pid = pid;
            endpoint = n.endpoint;
            chain_id = chain_id;
            chain_tip = tip;
          })
            ∷ [])
        × (lookup chain_id n'.chains ≡ some (after 0))
        × ((i : ℕ) → i < 64 → consume (after i) ≡ ok (iterate p.sha256 (i + 1) tip, after (i + 1)))
        × (consume (after 64) ≡ err chain_exhausted)
  unfolding register_new_fragment
  consume-register_new_fragment pid chain_id n n' calls run =
      elim (Option-cases (build_chain p.sha256 p.entropy cold_chain_length n.source)) [
        | inl failed ↦ cc (rw (register_new_fragment, failed) at run)
        | inr ((chain, src), built) ↦
            let (tip, drawn, reveals, over) =
              consume-build_chain p.sha256 p.entropy n.source src chain built in
            let ends = (rw (register_new_fragment, built, drawn) at run) in
            (
              tip,
              revealed chain,
              sym (ap (λ r. elim r.0 [ err e ↦ calls | ok sent ↦ sent ]) ends),
              ap (λ r. lookup chain_id r.1.chains) (sym ends)
                  ∙ lookup-insert chain_id chain_id (revealed chain 0) n.chains
                  ∙ ap (λ b. if b then some (revealed chain 0) else lookup chain_id n.chains)
                      (bytes_eq_refl chain_id),
              reveals,
              over,
            )
      ]
