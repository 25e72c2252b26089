-- ===== src/Orchestrator/Anchors.antt =====
-- The anchors by which Ack of orchestrator/orchestrator.go verifies cold mutations, against the
-- chain that BuildChain of crypto/hashchain.go makes.
use genomedb.Base.{
  ℕ, suc, ◌<◌, ◌≡◌, ◌≢◌, sym, ap, ◌∙◌, true, false, some, Bytes, bytes_eq, bytes_eq_iff,
  bytes_eq_refl, if◌then◌else◌, arith, List, [], ◌∷◌, All, ascii, Bool-cases, inl, inr,
}
use genomedb.Base.Assoc.{lookup, lookup-insert}
use genomedb.Protocol.{MutationAck}
use genomedb.Crypto.HashChain.{verify_step}
use genomedb.Crypto.HashChain.Laws.{verify_step_iff, iterate, iterate-suc}
use genomedb.Orchestrator.{Orchestrator, check_anchor}

module _ (sha256 : Bytes → Bytes) where
  -- A cold acknowledgement advances the anchor of its chain exactly when the revealed seed is the
  -- hash of that anchor.
  check_anchor-lookup :
      (ack : MutationAck) (o : Orchestrator) (anchor : Bytes)
      → ack.reason ≡ ascii "cold"
      → lookup ack.chain_id o.chain_anchors ≡ some anchor
      → lookup ack.chain_id (check_anchor sha256 ack o).chain_anchors
        ≡ some (if verify_step sha256 ack.seed_used anchor then ack.seed_used else anchor)
  unfolding check_anchor
  check_anchor-lookup ack o anchor cold known =
      let is_cold : bytes_eq ack.reason (ascii "cold") ≡ true =
        (bytes_eq_iff ack.reason (ascii "cold")).1 cold in
      ground (
        arith,
        lookup-insert ack.chain_id ack.chain_id ack.seed_used o.chain_anchors,
        bytes_eq_refl ack.chain_id,
      )

  -- Cold acknowledgements, one after the other.
  abbrev pub run_acks : List MutationAck → Orchestrator → Orchestrator
  run_acks [] o = o
  run_acks (ack ∷ later) o = run_acks later (check_anchor sha256 ack o)

  -- A cold acknowledgement for the chain, with the i-th hash of the tip as its seed.
  abbrev pub Reveals : Bytes → Bytes → ℕ → MutationAck → Type 0
  Reveals chain tip i ack =
      (ack.reason ≡ ascii "cold") × (ack.chain_id ≡ chain) × (ack.seed_used ≡ iterate sha256 i tip)

  -- The acknowledgements reveal the hashes i + 1, i + 2, ... of the tip, in that order.
  abbrev pub InOrder : Bytes → Bytes → ℕ → List MutationAck → Type 0
  InOrder chain tip i [] = Unit
  InOrder chain tip i (ack ∷ later) =
      Reveals chain tip (suc i) ack × InOrder chain tip (suc i) later

  abbrev pub anchored_at : List MutationAck → ℕ → ℕ
  anchored_at [] i = i
  anchored_at (ack ∷ later) i = anchored_at later (suc i)

  advance_one :
      (chain tip : Bytes) (i : ℕ) (ack : MutationAck) (o : Orchestrator)
      → Reveals chain tip (suc i) ack
      → lookup chain o.chain_anchors ≡ some (iterate sha256 i tip)
      → lookup chain (check_anchor sha256 ack o).chain_anchors ≡ some (iterate sha256 (suc i) tip)
  advance_one chain tip i ack o (cold, this, seed) known =
      let next : iterate sha256 (suc i) tip ≡ sha256 (iterate sha256 i tip) =
        iterate-suc sha256 i tip in
      let accepted : verify_step sha256 ack.seed_used (iterate sha256 i tip) ≡ true =
        (verify_step_iff sha256 ack.seed_used (iterate sha256 i tip)).1 (seed ∙ next) in
      ap (λ k. lookup k (check_anchor sha256 ack o).chain_anchors) (sym this)
      ∙ check_anchor-lookup ack o (iterate sha256 i tip) cold
          (ap (λ k. lookup k o.chain_anchors) this ∙ known)
      ∙ ap (λ c. some (if c then ack.seed_used else iterate sha256 i tip)) accepted
      ∙ ap some seed

  rejected_later :
      (chain tip : Bytes) (i m : ℕ) (ack : MutationAck) (o : Orchestrator)
      → iterate sha256 m tip ≢ iterate sha256 (suc i) tip
      → Reveals chain tip m ack
      → lookup chain o.chain_anchors ≡ some (iterate sha256 i tip)
      → lookup chain (check_anchor sha256 ack o).chain_anchors ≡ some (iterate sha256 i tip)
  rejected_later chain tip i m ack o other (cold, this, seed) known =
      let anchor = iterate sha256 i tip in
      let rejected : verify_step sha256 ack.seed_used anchor ≡ false =
        elim (Bool-cases (verify_step sha256 ack.seed_used anchor)) [
          | inl accepted ↦ absurd (
              other (
                sym seed
                ∙ (verify_step_iff sha256 ack.seed_used anchor).0 accepted
                ∙ sym (iterate-suc sha256 i tip)))
          | inr refused ↦ refused
        ] in
      ap (λ k. lookup k (check_anchor sha256 ack o).chain_anchors) (sym this)
      ∙ check_anchor-lookup ack o anchor cold (ap (λ k. lookup k o.chain_anchors) this ∙ known)
      ∙ ap (λ c. some (if c then ack.seed_used else anchor)) rejected

  -- If the anchor of a chain is the i-th hash of its tip, and cold acknowledgements for that chain
  -- reveal the hashes i + 1, i + 2, ... in that order, then the anchor ends at the last of them.
  pub run_acks-InOrder :
      (chain tip : Bytes) (i : ℕ) (acks : List MutationAck) (o : Orchestrator)
      → InOrder chain tip i acks
      → lookup chain o.chain_anchors ≡ some (iterate sha256 i tip)
      → lookup chain (run_acks acks o).chain_anchors
        ≡ some (iterate sha256 (anchored_at acks i) tip)
  run_acks-InOrder chain tip i [] o order known = known
  run_acks-InOrder chain tip i (ack ∷ later) o (now, order) known =
      run_acks-InOrder chain tip (suc i) later (check_anchor sha256 ack o) order
        (advance_one chain tip i ack o now known)

  -- Once one acknowledgement is lost, no later one is verified: if the anchor is the i-th hash of
  -- the tip, the acknowledgements reveal only hashes after the (i + 1)-th, and none of these equals
  -- the (i + 1)-th, then the anchor stays where it was for good.
  pub run_acks_after_loss :
      (chain tip : Bytes) (i : ℕ) (acks : List MutationAck) (o : Orchestrator)
      → ((m : ℕ) → suc i < m → iterate sha256 m tip ≢ iterate sha256 (suc i) tip)
      → All (λ ack. (m : ℕ) × (suc i < m) × Reveals chain tip m ack) acks
      → lookup chain o.chain_anchors ≡ some (iterate sha256 i tip)
      → lookup chain (run_acks acks o).chain_anchors ≡ some (iterate sha256 i tip)
  run_acks_after_loss chain tip i [] o acyclic late known = known
  run_acks_after_loss chain tip i (ack ∷ acks) o acyclic ((m, after, reveals), late) known =
      run_acks_after_loss chain tip i acks (check_anchor sha256 ack o) acyclic late
        (rejected_later chain tip i m ack o (acyclic m after) reveals known)
