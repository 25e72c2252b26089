-- ===== src/Client/Split/Failure.antt =====
-- A split of client/split.go or client/backup.go that fails.
use genomedb.Base.{◌≡◌, Bool, true, false, if◌then◌else◌, arith, ascii, ltb, ℕ, List, Bytes, err}
use genomedb.Crypto.Shamir.{Share}
use genomedb.Transport.{Http, Json}
use genomedb.Store.{put_manifest}
use genomedb.Client.Node.{Packages, NodeError, total_too_small}
use genomedb.Client.World.{World, Action, ◌>>=◌, fail, wrapped, put_store}
use genomedb.Client.World.Rules.{FailsWithin, FailsWithin-bind}
use genomedb.Client.Split.{Group, record_manifest, share_out, split_over_peers, split_secret}
use genomedb.Client.Split.Keeps.{
  Keeps, SameManifests, SameManifests-trans, fail-Keeps, keep_and_hand_over-Keeps,
  name_holders-Keeps, random_name-Keeps, reachable_peers-Keeps, split_shares-Keeps,
}

module _ (p : Packages) (h : Http) (json : Json) where
  abbrev pub KeepsOnError : {A : Type 0} → Action p h json A → Type 0
  KeepsOnError m = FailsWithin (SameManifests p h json) (SameManifests-trans p h json) m

  abbrev AndFails :
      {A C : Type 0} (m : Action p h json A) (next : A → Action p h json C)
      → Keeps p h json m
      → ((a : A) → KeepsOnError (next a))
      → KeepsOnError (m >>= next)
  AndFails m next = FailsWithin-bind (SameManifests p h json) (SameManifests-trans p h json) m next

  Fails : {A : Type 0} (m : Action p h json A) → Keeps p h json m → KeepsOnError m
  Fails m kept w e run = kept w

  if-Fails :
      {A : Type 0} (b : Bool) (m m' : Action p h json A)
      → KeepsOnError m
      → KeepsOnError m'
      → KeepsOnError (if b then m else m')
  if-Fails true m m' one other = one
  if-Fails false m m' one other = other

  record_manifest-FailsWithin :
      (name kind : Bytes) (g : Group) → KeepsOnError (record_manifest p h json name kind g)
  unfolding record_manifest SameManifests put_manifest put_store wrapped ◌>>=◌
  record_manifest-FailsWithin name kind g w e = ground arith

  share_out-FailsWithin :
      (name : Bytes) (g : Group) (shares : List Share)
      → KeepsOnError (share_out p h json name g shares)
  unfolding share_out
  share_out-FailsWithin name g shares =
      AndFails _ _ (keep_and_hand_over-Keeps p h json g g.members shares)
        λ sent. record_manifest-FailsWithin name (ascii "secret") g

  split_over_peers-FailsWithin :
      (name secret : Bytes) (threshold total : ℕ)
      → KeepsOnError (split_over_peers p h json name secret threshold total)
  unfolding split_over_peers
  split_over_peers-FailsWithin name secret threshold total w =
      (AndFails _ _ (reachable_peers-Keeps p h json _) λ peers.
          AndFails _ _ (split_shares-Keeps p h json _ _ _) λ shares.
            AndFails _ _ (random_name-Keeps p h json _) λ group_id.
              AndFails _ _ (random_name-Keeps p h json _) λ group_token.
                AndFails _ _ (random_name-Keeps p h json _) λ own_pid.
                  AndFails _ _ (name_holders-Keeps p h json _)
                    λ others. share_out-FailsWithin _ _ _)
        w

  -- A split that fails, at whatever point and of whatever name, leaves the table of manifests as it
  -- was.
  pub split_secret-manifests :
      (name secret : Bytes) (threshold total : ℕ) (w : World p.entropy.Source h.State)
      (e : NodeError)
      → (split_secret p h json name secret threshold total w).0 ≡ err e
      → (split_secret p h json name secret threshold total w).1.node.store.manifests
        ≡ w.node.store.manifests
  unfolding split_secret SameManifests
  split_secret-manifests name secret threshold total =
      if-Fails (ltb total 2) (fail total_too_small)
        (split_over_peers p h json name secret threshold total)
        (Fails (fail total_too_small) (fail-Keeps p h json _ total_too_small))
        (split_over_peers-FailsWithin name secret threshold total)
