-- ===== src/Client/Immune/Promises.antt =====
-- What the reaction of client/watchdog.go leaves of the table of manifests.
use genomedb.Base.{
  ℕ, ◌≡◌, refl, ap, sym, subst, ◌∙◌, Option, none, some, List, [], ◌∷◌, Bytes, ascii, ok, Distinct,
  Result-cases, Option-cases, inl, inr, arith,
}
use genomedb.Transport.{Http, Json}
use genomedb.Store.Tables.{Store, ManifestRow}
use genomedb.Base.Assoc.{Assoc, lookup, insert}
use genomedb.Store.{get_fragment, list_fragment_pids, put_fragment, delete_fragment}
use genomedb.Client.Detection.{Platform}
use genomedb.Client.World.{Action, on_node, ◌>>=◌, pure}
use genomedb.Client.Node.{consume, Packages, Node, replace_fragment, apply_mutation, cold_mutate}
use genomedb.Client.SelfHeal.Manifests.{Here, promise, promised}
use genomedb.Client.SelfHeal.Promises.{force_reshare_owned-promised}
use genomedb.Store.Keys.{keys}
use genomedb.Client.Split.Keeps.{SameManifests, Keeps, place_all-Keeps}
use genomedb.Client.Watchdog.{Watchdog, Severity, confirmed, suspect, mutate_all, react_locally}
use genomedb.Client.Immune.{reshare_after, respond, after_tick, watch}

module _ (p : Packages) where
  abbrev rows_of : Node p.entropy.Source → Assoc ManifestRow
  rows_of n = n.store.manifests

  replace_fragment-manifests :
      (pid : Bytes) (new : _) (now : ℕ) (s : Store) (src : p.entropy.Source)
      → (replace_fragment p pid new now s src).1.manifests ≡ s.manifests
  unfolding replace_fragment put_fragment delete_fragment
  replace_fragment-manifests pid new now s src = ground arith

  apply_mutation-manifests :
      (pid seed reason : Bytes) (now : ℕ) (n : Node p.entropy.Source)
      → rows_of (apply_mutation p pid seed reason now n).1 ≡ rows_of n
  unfolding apply_mutation
  apply_mutation-manifests pid seed reason now n = grind (arith, replace_fragment-manifests)

  cold_mutate-manifests :
      (pid : Bytes) (now : ℕ) (n : Node p.entropy.Source)
      → rows_of (cold_mutate p pid now n).1 ≡ rows_of n
  unfolding cold_mutate
  cold_mutate-manifests pid now n = elim (Result-cases (get_fragment p.gcm p.codec pid n.store)) [
    | inl (e, unread) ↦ rw (cold_mutate, unread)
    | inr (frag, found) ↦ elim (Option-cases (lookup frag.chain_id n.chains)) [
      | inl no_chain ↦ rw (cold_mutate, found, no_chain)
      | inr (chain, held) ↦ elim (Result-cases (consume chain)) [
        | inl (e, exhausted) ↦ rw (cold_mutate, found, held, exhausted)
        | inr ((seed, rest), revealed) ↦
            rw (cold_mutate, found, held, revealed)
              (apply_mutation-manifests pid seed (ascii "cold") now
                (record n { chains = insert frag.chain_id rest n.chains }))
      ]
    ]
  ]

  mutate_all-manifests :
      (severity : Severity) (now : ℕ) (pids : List Bytes) (n : Node p.entropy.Source)
      → rows_of (mutate_all p severity now pids n).1 ≡ rows_of n
  unfolding mutate_all
  mutate_all-manifests severity now [] n = refl
  mutate_all-manifests severity now (pid ∷ pids) n =
      let later =
        mutate_all-manifests severity now pids (cold_mutate p pid now n).1
        ∙ cold_mutate-manifests pid now n in
      elim (Result-cases (cold_mutate p pid now n).0) [
        | inl (e, failed) ↦ rw (mutate_all, failed) later
        | inr (calls, done) ↦ rw (mutate_all, done) later
      ]

  react_locally-manifests :
      (severity : Severity) (now : ℕ) (n : Node p.entropy.Source)
      → rows_of (react_locally p severity now n).1 ≡ rows_of n
  unfolding react_locally
  react_locally-manifests severity now n =
      elim (Result-cases (list_fragment_pids p.gcm p.codec n.store)) [
        | inl (e, unread) ↦ rw (react_locally, unread)
        | inr (pids, listed) ↦ rw (react_locally, listed) (mutate_all-manifests severity now pids n)
      ]

  module _ (h : Http) (json : Json) where
    react_locally-Keeps :
        (severity : Severity) (now : ℕ)
        → Keeps p h json
            (on_node (λ n. let (calls, n') = react_locally p severity now n in (ok calls, n')))
    unfolding on_node SameManifests
    react_locally-Keeps severity now w = react_locally-manifests severity now w.node

    reshare_after-promised :
        (severity : Severity) (w : Here p h json)
        → Distinct (keys w.node.store.manifests)
        → (name : Bytes)
        → promised p h json name (reshare_after p h json severity w).1 ≡ promised p h json name w
    unfolding reshare_after pure
    reshare_after-promised confirmed w unique name =
        force_reshare_owned-promised p h json w unique name
    reshare_after-promised suspect w unique name = refl

    -- The promises of the world before are kept by the end of a run.
    abbrev Kept : {A : Type 0} → Action p h json A → Type 0
    Kept m =
        (w : Here p h json)
        → Distinct (keys w.node.store.manifests)
        → (name : Bytes) → promised p h json name (m w).1 ≡ promised p h json name w

    Kept-bind :
        {A C : Type 0} (m : Action p h json A) (next : A → Action p h json C)
        → Keeps p h json m
        → ((a : A) → Kept (next a))
        → Kept (m >>= next)
    unfolding ◌>>=◌ SameManifests
    Kept-bind m next keeps later w unique name =
        let first : promised p h json name (m w).1 ≡ promised p h json name w =
          ap (λ rows. promise (lookup name rows)) (keeps w) in
        elim (Result-cases (m w).0) [
          | inl (e, failed) ↦ rw (◌>>=◌, failed) first
          | inr (a, done) ↦
              rw (◌>>=◌, done)
                (later a (m w).1 (subst (λ rows. Distinct (keys rows)) (sym (keeps w)) unique) name
                  ∙ first)
        ]

    -- The reaction to an incident neither loses nor adds a manifest and changes no threshold and no
    -- kind, if the table has no name twice.
    respond-promised : (severity : Severity) → Kept (respond p h json severity)
    unfolding respond
    respond-promised severity w unique name =
        Kept-bind _ _ (react_locally-Keeps severity w.now)
          (λ calls.
            Kept-bind _ _ (place_all-Keeps p h json calls)
              λ placed. reshare_after-promised severity)
          w unique name

    after_tick-promised :
        (outcome : Option Severity × Watchdog) (w : Here p h json)
        → Distinct (keys w.node.store.manifests)
        → (name : Bytes)
        → promised p h json name (after_tick p h json outcome w).1 ≡ promised p h json name w
    unfolding after_tick
    after_tick-promised (none, dog) w unique name = refl
    after_tick-promised (some severity, dog) w unique name = respond-promised severity w unique name

    -- Whatever the platform answers, whatever the watchdog has seen before and whatever the network
    -- answers, a tick of the watchdog with its reaction neither loses nor adds a manifest and changes
    -- no threshold and no kind, if the table has no name twice.
    pub watch-promised :
        (os : Platform) (ppid later : ℕ) (dog : Watchdog) (w : Here p h json)
        → Distinct (keys w.node.store.manifests)
        → (name : Bytes)
        → promised p h json name (watch p h json os ppid later (dog, w)).1
          ≡ promised p h json name w
    unfolding watch
    watch-promised os ppid later dog w unique name = after_tick-promised _ w unique name
