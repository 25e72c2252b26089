-- ===== src/Client/SelfHeal.antt =====
-- client/selfheal.go. The margin is not negative. Every error is logged and the loop goes on, so
-- that an action here has an error only to stop early, and its callers drop it.
pub mod Manifests
pub mod Rounds
pub mod Promises
use genomedb.Base.{
  ℕ, ◌+◌, Bool, true, false, not, ◌||◌, List, [], ◌∷◌, ◌++◌, length, leb, ltb, if◌then◌else◌, Bytes,
  bytes_eq, ascii, Result, ok, err,
}
use genomedb.Peer.Client.{check_presence, ping}
use genomedb.Store.{list_manifests_by_kind, list_mesh_peers}
use genomedb.Store.Tables.{Manifest, Member, MeshPeer, Store}
use genomedb.Transport.{Http, Json}
use genomedb.Client.Node.{Packages, NodeError, cannot_list_peers}
use genomedb.Client.World.{
  World, Act, Action, pure, fail, ◌>>=◌, ◌>>◌, attempt, query, exchange, then_run,
}
use genomedb.Client.Reconstruct.{reconstruct}
use genomedb.Client.Split.{split_secret}
use genomedb.Client.Backup.{distribute_backup}

module _ (p : Packages) (h : Http) (json : Json) where
  -- probeMembers
  unfoldable pub probe_members : Manifest → List Member → Action p h json (List Member)
  unfolding exchange
  probe_members m [] = pure []
  probe_members m (member ∷ members) = do
    answer ← exchange p h json (check_presence h json member.endpoint m.group_id m.group_token)
    rest ← probe_members m members
    pure (elim answer [ err e ↦ rest | ok r ↦ if r.present then member ∷ rest else rest ])

  -- The loop that pings the trusted mesh.
  unfoldable pub ping_mesh : List MeshPeer → Action p h json (List MeshPeer)
  unfolding exchange
  ping_mesh [] = pure []
  ping_mesh (peer ∷ peers) = do
    answer ← exchange p h json (ping h peer.endpoint)
    rest ← ping_mesh peers
    pure (elim answer [ err e ↦ rest | ok _ ↦ peer ∷ rest ])

  unfoldable pub reshare_backup : Manifest → Bytes → Action p h json (Unit {0})
  unfolding ping_mesh distribute_backup
  reshare_backup m content = do
    peers ← query cannot_list_peers list_mesh_peers
    reachable ← ping_mesh peers
    if ltb (length reachable) m.threshold
        then pure tt
        else distribute_backup p h json m.secret_name content m.threshold reachable

  unfoldable pub reshare_manifest : Manifest → Action p h json (Unit {0})
  unfolding reconstruct split_secret reshare_backup
  reshare_manifest m = do
    content ← reconstruct p h json m.secret_name
    if bytes_eq m.kind (ascii "backup")
        then reshare_backup m content
        else split_secret p h json m.secret_name content m.threshold m.total

  -- The decision of healOne, from the number of members that answer.
  unfoldable pub must_reshare : Manifest → ℕ → ℕ → Bool
  must_reshare m alive margin =
      not (leb m.total alive || ltb alive m.threshold || ltb (m.threshold + margin) alive)

  unfoldable pub heal_one : Manifest → ℕ → Action p h json (Unit {0})
  unfolding probe_members must_reshare reshare_manifest
  heal_one m margin = do
    alive ← probe_members m m.members
    if must_reshare m (length alive) margin then reshare_manifest m else pure tt

  -- A kind that cannot be listed is left out.
  unfoldable pub manifests_or_none : Bytes → Store → List Manifest
  manifests_or_none kind s = elim (list_manifests_by_kind p.gcm p.codec kind s) [
    | err e ↦ []
    | ok ms ↦ ms
  ]

  -- The manifests of both kinds, backups first.
  unfoldable pub owned_manifests : Store → List Manifest
  unfolding manifests_or_none
  owned_manifests s = manifests_or_none (ascii "backup") s ++ manifests_or_none (ascii "secret") s

  unfoldable pub heal_each : List Manifest → ℕ → Action p h json (Unit {0})
  unfolding heal_one
  heal_each [] margin = pure tt
  heal_each (m ∷ ms) margin = do attempt (heal_one m margin); heal_each ms margin

  unfoldable pub heal_manifests : ℕ → Action p h json (Unit {0})
  unfolding heal_each owned_manifests
  heal_manifests margin w = heal_each (owned_manifests w.node.store) margin w

  -- What the select of SelfHeal receives: a tick of the ticker, with what has happened meanwhile, or
  -- the end of the context.
  pub data Wake : Type 0 where
    ticked : (World p.entropy.Source h.State → World p.entropy.Source h.State) → Wake
    cancelled : Wake

  -- The loop, on what is received in order; without a further wake it still waits.
  unfoldable pub self_heal : ℕ → List Wake → Action p h json (Unit {0})
  unfolding heal_manifests
  self_heal margin [] w = (ok tt, w)
  self_heal margin (cancelled ∷ wakes) w = (ok tt, w)
  self_heal margin (ticked meanwhile ∷ wakes) w =
      self_heal margin wakes (heal_manifests margin (meanwhile w)).1

  abbrev pub heal_now : Action p h json (Unit {0})
  heal_now = heal_manifests 1

  unfoldable pub reshare_each : List Manifest → Action p h json (Unit {0})
  unfolding reshare_manifest
  reshare_each [] = pure tt
  reshare_each (m ∷ ms) = do attempt (reshare_manifest m); reshare_each ms

  unfoldable pub force_reshare_owned : Action p h json (Unit {0})
  unfolding reshare_each owned_manifests
  force_reshare_owned w = reshare_each (owned_manifests w.node.store) w
