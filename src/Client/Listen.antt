-- ===== src/Client/Listen.antt =====
-- handleEvent of client/node.go: what a node does with an event of its stream. An event that is not
-- a mutation seed is ignored, and so is the error of a mutation: not every seed is for this node.
use genomedb.Base.{
  ℕ, ◌≡◌, refl, ap, Option, none, some, List, [], ◌∷◌, ◌++◌, if◌then◌else◌, Bytes, bytes_eq,
  bytes_eq_iff, ascii, ok, err, All, Bool-cases, Option-cases, inl, inr,
}
use genomedb.Protocol.{MutationSeed}
use genomedb.Protocol.Events.{EventText}
use genomedb.Store.Tables.{StoreError}
use genomedb.Store.{get_fragment}
use genomedb.Client.Node.{Packages, Node, Call, apply_mutation, no_fragment}

module _ (p : Packages) (unmarshal_seed : Bytes → Option MutationSeed) where
  unfoldable pub handle_event :
      EventText → ℕ → Node p.entropy.Source → List Call × Node p.entropy.Source
  unfolding apply_mutation
  handle_event ev now n =
      if bytes_eq ev.kind (ascii "mutation_seed")
      then elim (unmarshal_seed ev.payload) [
        | none ↦ ([], n)
        | some seed ↦
            let (result, n') = apply_mutation p seed.pid seed.seed (ascii "scheduled") now n in
            elim result [ err e ↦ ([], n') | ok calls ↦ (calls, n') ]
      ]
      else ([], n)

  -- The loop of Start over the events that come in, each with its time.
  unfoldable pub handle_events :
      List (EventText × ℕ) → Node p.entropy.Source → List Call × Node p.entropy.Source
  unfolding handle_event
  handle_events [] n = ([], n)
  handle_events ((ev, now) ∷ evs) n =
      let (calls, n') = handle_event ev now n in
      let (more, n'') = handle_events evs n' in (calls ++ more, n'')

  -- A seed that the event carries names no fragment that the node can read.
  abbrev pub NotFor : Node p.entropy.Source → EventText × ℕ → Type 0
  NotFor n (ev, now) =
      (seed : MutationSeed)
      → ev.kind ≡ ascii "mutation_seed"
      → unmarshal_seed ev.payload ≡ some seed
      → (e : StoreError) × (get_fragment p.gcm p.codec seed.pid n.store ≡ err e)

  apply_mutation-unread :
      (pid seed reason : Bytes) (now : ℕ) (n : Node p.entropy.Source) (e : StoreError)
      → get_fragment p.gcm p.codec pid n.store ≡ err e
      → apply_mutation p pid seed reason now n ≡ (err (no_fragment e), n)
  unfolding apply_mutation
  apply_mutation-unread pid seed reason now n e unread = rw (apply_mutation, unread)

  handle_event-other :
      (n : Node p.entropy.Source) (ev : EventText) (now : ℕ)
      → NotFor n (ev, now)
      → handle_event ev now n ≡ ([], n)
  unfolding handle_event
  handle_event-other n ev now other = elim (Bool-cases (bytes_eq ev.kind (ascii "mutation_seed"))) [
    | inr differs ↦ rw (differs)
    | inl same ↦ elim (Option-cases (unmarshal_seed ev.payload)) [
      | inl malformed ↦ rw (same, malformed)
      | inr (seed, parsed) ↦
          let (e, unread) =
            other seed ((bytes_eq_iff ev.kind (ascii "mutation_seed")).0 same) parsed in
          let failed =
            apply_mutation-unread seed.pid seed.seed (ascii "scheduled") now n e unread in
          rw (same, parsed, failed) (ap (λ r. ([], r.1)) failed)
    ]
  ]

  -- Let none of the events carry a seed for a fragment that the node can read. Then, whatever the
  -- other events say and whether or not their data decodes, the node makes no call and stays as it
  -- was.
  pub handle_events-others :
      (n : Node p.entropy.Source) (evs : List (EventText × ℕ))
      → All (NotFor n) evs
      → handle_events evs n ≡ ([], n)
  unfolding handle_events
  handle_events-others n [] all = refl
  handle_events-others n ((ev, now) ∷ evs) (other, others) =
      rw (handle_event-other n ev now other, handle_events-others n evs others)
