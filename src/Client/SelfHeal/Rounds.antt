-- ===== src/Client/SelfHeal/Rounds.antt =====
-- What a round of client/selfheal.go keeps.
use genomedb.Base.{
  ◌≡◌, refl, sym, subst, ◌⊎◌, inl, inr, ℕ, leb, ltb, false, List, [], ◌∷◌, ◌++◌, length, Bytes,
  bytes_eq, bytes_eq_iff, ascii, Result, Result-cases, Bool-cases, if◌then◌else◌,
}
use genomedb.Crypto.Shamir.{Share, combine}
use genomedb.Peer.Client.{check_presence, ping, fetch_group_share}
use genomedb.Store.Tables.{Manifest, Member, MeshPeer, Store, StoreError}
use genomedb.Transport.{Http, Json}
use genomedb.Client.Node.{
  Packages, NodeError, too_few_peers, cannot_list_peers, no_manifest, too_few_shares,
  cannot_combine,
}
use genomedb.Client.World.{Action, random_name, exchange, ◌>>=◌, pure, fail, wrapped, query}
use genomedb.Client.Split.{Group, split_shares, hand_over_all, record_manifest, split_secret}
use genomedb.Client.Split.Keeps.{
  SameManifests, random_name-Keeps, exchange-Keeps, wrapped-Keeps, pure-Keeps, fail-Keeps,
  hand_over_all-Keeps, split_shares-Keeps,
}
use genomedb.Client.Backup.{send_out, distribute_among, distribute_backup, name_mesh_holders}
use genomedb.Client.Reconstruct.{ask_member, gather_shares, reconstruct}
use genomedb.Client.SelfHeal.{
  probe_members, ping_mesh, reshare_backup, reshare_manifest, must_reshare, heal_one,
}
use genomedb.Client.SelfHeal.Manifests.{
  Here, KeepsPromises, KeepsPromises-trans, Safe, Then, same-Safe, if-Safe, record_manifest-Safe,
  split_secret-Safe,
}

module _ (p : Packages) (h : Http) (json : Json) (name : Bytes) (threshold : ℕ) (kind : Bytes) where
  abbrev pub Careful : {A : Type 0} → Action p h json A → Type 0
  Careful m = Safe p h json name threshold kind m

  abbrev step :
      {A C : Type 0} (m : Action p h json A) (next : A → Action p h json C)
      → Careful m
      → ((a : A) → Careful (next a))
      → Careful (m >>= next)
  step = Then p h json name threshold kind

  keep :
      {A : Type 0} (m : Action p h json A)
      → ((w : Here p h json) → SameManifests p h json w (m w).1)
      → Careful m
  keep m same = same-Safe p h json name threshold kind m same

  name_mesh_holders-Safe : (peers : List MeshPeer) → Careful (name_mesh_holders p h json peers)
  unfolding name_mesh_holders
  name_mesh_holders-Safe [] = keep (pure []) (pure-Keeps p h json [])
  name_mesh_holders-Safe (peer ∷ peers) =
      step _ _ (keep (random_name p h json 16) (random_name-Keeps p h json 16))
        λ pid. step _ _ (name_mesh_holders-Safe peers) λ rest. keep (pure _) (pure-Keeps p h json _)

  query-Safe :
      {A : Type 0} (wrap : StoreError → NodeError) (read : Store → Result StoreError A)
      → Careful (query wrap read)
  unfolding query
  query-Safe wrap read =
      keep (query wrap read) λ w. wrapped-Keeps p h json wrap (read w.node.store) w

  ask_member-Safe : (m : Manifest) (member : Member) → Careful (ask_member p h json m member)
  unfolding ask_member KeepsPromises ◌>>=◌ exchange pure
  ask_member-Safe m member w before = elim (Bool-cases (bytes_eq member.node_id w.node.node_id)) [
    | inl here ↦ rw (ask_member, here) (λ j. refl, λ t. t)
    | inr other ↦
        elim (Result-cases
          (fetch_group_share h json member.endpoint m.group_id m.group_token w.net).0) [
            | inl (e, failed) ↦ rw (ask_member, other, exchange, failed) (λ j. refl, λ t. t)
            | inr (answer, done) ↦ rw (ask_member, other, exchange, done) (λ j. refl, λ t. t)
          ]
  ]

  gather_shares-Safe :
      (m : Manifest) (members : List Member) (shares : List Share)
      → Careful (gather_shares p h json m members shares)
  unfolding gather_shares KeepsPromises
  gather_shares-Safe m [] shares w before = (λ j. refl, λ t. t)
  gather_shares-Safe m (member ∷ members) shares w before =
      elim (Bool-cases (leb m.threshold (length shares))) [
        | inl enough ↦ rw (gather_shares, enough) (λ j. refl, λ t. t)
        | inr short ↦ elim (Result-cases (ask_member p h json m member w).0) [
          | inl (e, failed) ↦ rw (gather_shares, short, failed) (ask_member-Safe m member w before)
          | inr (more, done) ↦
              rw (gather_shares, short, done)
                (KeepsPromises-trans p h json name threshold kind w
                  (ask_member p h json m member w).1
                  (gather_shares p h json m members (shares ++ more)
                    (ask_member p h json m member w).1).1
                  (ask_member-Safe m member w)
                  (gather_shares-Safe m members (shares ++ more) (ask_member p h json m member w).1)
                  before)
        ]
      ]

  reconstruct-Safe : (secret_name : Bytes) → Careful (reconstruct p h json secret_name)
  unfolding reconstruct
  reconstruct-Safe secret_name = step _ _ (query-Safe no_manifest _) λ m.
      step _ _ (gather_shares-Safe m m.members []) λ shares.
        if-Safe p h json name threshold kind _ (fail too_few_shares)
          (wrapped cannot_combine (combine shares))
          (keep (fail too_few_shares) (fail-Keeps p h json _ too_few_shares))
          (keep (wrapped cannot_combine (combine shares))
            (wrapped-Keeps p h json cannot_combine (combine shares)))

  probe_members-Safe :
      (m : Manifest) (members : List Member) → Careful (probe_members p h json m members)
  unfolding probe_members
  probe_members-Safe m [] = keep (pure []) (pure-Keeps p h json [])
  probe_members-Safe m (member ∷ members) =
      step _ _
        (keep (exchange p h json (check_presence h json member.endpoint m.group_id m.group_token)) (
          exchange-Keeps p h json (check_presence h json member.endpoint m.group_id m.group_token)))
        λ answer.
          step _ _ (probe_members-Safe m members) λ rest. keep (pure _) (pure-Keeps p h json _)

  ping_mesh-Safe : (peers : List MeshPeer) → Careful (ping_mesh p h json peers)
  unfolding ping_mesh
  ping_mesh-Safe [] = keep (pure []) (pure-Keeps p h json [])
  ping_mesh-Safe (peer ∷ peers) =
      step _ _
        (keep (exchange p h json (ping h peer.endpoint))
          (exchange-Keeps p h json (ping h peer.endpoint)))
        λ answer. step _ _ (ping_mesh-Safe peers) λ rest. keep (pure _) (pure-Keeps p h json _)

  send_out-Safe :
      (g : Group) (shares : List Share)
      → g.threshold ≡ threshold
      → ascii "backup" ≡ kind
      → Careful (send_out p h json name g shares)
  unfolding send_out
  send_out-Safe g shares same same_kind =
      step _ _
        (keep (hand_over_all p h json g g.members shares)
          (hand_over_all-Keeps p h json g g.members shares))
        λ sent.
          subst
            (λ (k : Bytes).
              Safe p h json name threshold k (record_manifest p h json name (ascii "backup") g))
            same_kind (record_manifest-Safe p h json name threshold (ascii "backup") g same refl)

  distribute_among-Safe :
      (content : Bytes) (peers : List MeshPeer)
      → ascii "backup" ≡ kind
      → Careful (distribute_among p h json name content threshold peers)
  unfolding distribute_among
  distribute_among-Safe content peers same_kind =
      step _ _
        (keep (split_shares p h json content (length peers) threshold)
          (split_shares-Keeps p h json _ _ _))
        λ shares.
          step _ _ (keep (random_name p h json 16) (random_name-Keeps p h json 16)) λ group_id.
            step _ _ (keep (random_name p h json 32) (random_name-Keeps p h json 32)) λ group_token.
              step _ _ (name_mesh_holders-Safe peers)
                λ members. send_out-Safe _ shares refl same_kind

  distribute_backup-Safe :
      (content : Bytes) (peers : List MeshPeer)
      → ascii "backup" ≡ kind
      → Careful (distribute_backup p h json name content threshold peers)
  unfolding distribute_backup
  distribute_backup-Safe content peers same_kind =
      if-Safe p h json name threshold kind (ltb (length peers) threshold) (fail too_few_peers)
        (distribute_among p h json name content threshold peers)
        (keep (fail too_few_peers) (fail-Keeps p h json _ too_few_peers))
        (distribute_among-Safe content peers same_kind)

module _ (p : Packages) (h : Http) (json : Json) (m : Manifest) where
  abbrev pub Guarded : {A : Type 0} → Action p h json A → Type 0
  Guarded a = Careful p h json m.secret_name m.threshold m.kind a

  reshare_backup-Safe :
      (content : Bytes) → ascii "backup" ≡ m.kind → Guarded (reshare_backup p h json m content)
  unfolding reshare_backup
  reshare_backup-Safe content same_kind =
      Then p h json m.secret_name m.threshold m.kind _ _
        (query-Safe p h json _ _ _ cannot_list_peers _)
        λ peers.
          Then p h json m.secret_name m.threshold m.kind _ _ (ping_mesh-Safe p h json _ _ _ peers)
            λ reachable.
              if-Safe p h json m.secret_name m.threshold m.kind (ltb (length reachable) m.threshold)
                (pure tt) (distribute_backup p h json m.secret_name content m.threshold reachable)
                (keep p h json _ _ _ (pure tt) (pure-Keeps p h json tt))
                (distribute_backup-Safe p h json m.secret_name m.threshold m.kind content reachable
                  same_kind)

  abbrev pub OfKind : Type 0
  OfKind = (m.kind ≡ ascii "backup") ⊎ (m.kind ≡ ascii "secret")

  pub reshare_manifest-Safe : OfKind → Guarded (reshare_manifest p h json m)
  unfolding reshare_manifest
  reshare_manifest-Safe of_kind =
      Then p h json m.secret_name m.threshold m.kind _ _
        (reconstruct-Safe p h json _ _ _ m.secret_name) λ content. by_kind content
    where
      is_secret : bytes_eq m.kind (ascii "backup") ≡ false → m.kind ≡ ascii "secret"
      is_secret other = elim of_kind [
        | inl backup ↦ cc (other, (bytes_eq_iff m.kind (ascii "backup")).1 backup)
        | inr secret ↦ secret
      ]

      by_kind :
          (content : Bytes)
          → Guarded (
              if bytes_eq m.kind (ascii "backup")
              then reshare_backup p h json m content
              else split_secret p h json m.secret_name content m.threshold m.total)
      by_kind content = elim (Bool-cases (bytes_eq m.kind (ascii "backup"))) [
        | inl backup ↦
            rw (backup)
              (reshare_backup-Safe content (sym ((bytes_eq_iff m.kind (ascii "backup")).0 backup)))
        | inr other ↦ rw (other) (
            subst
              (λ (k : Bytes).
                Safe p h json m.secret_name m.threshold k
                  (split_secret p h json m.secret_name content m.threshold m.total))
              (sym (is_secret other))
              (split_secret-Safe p h json m.secret_name m.threshold content m.total))
      ]

  pub heal_one-Safe : (margin : ℕ) → OfKind → Guarded (heal_one p h json m margin)
  unfolding heal_one
  heal_one-Safe margin of_kind =
      Then p h json m.secret_name m.threshold m.kind _ _
        (probe_members-Safe p h json _ _ _ m m.members)
        λ alive.
          if-Safe p h json m.secret_name m.threshold m.kind
            (must_reshare p h json m (length alive) margin) (reshare_manifest p h json m) (pure tt)
            (reshare_manifest-Safe of_kind) (keep p h json _ _ _ (pure tt) (pure-Keeps p h json tt))
