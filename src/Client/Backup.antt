-- ===== src/Client/Backup.antt =====
-- client/backup.go: a split among the trusted mesh, of which this node keeps no share.
use genomedb.Base.{ℕ, List, [], ◌∷◌, length, ltb, if◌then◌else◌, Bytes, ascii}
use genomedb.Crypto.Shamir.{Share}
use genomedb.Store.{list_mesh_peers}
use genomedb.Store.Tables.{Member, MeshPeer}
use genomedb.Transport.{Http, Json}
use genomedb.Client.Node.{Packages, too_few_peers, cannot_list_peers}
use genomedb.Client.World.{Action, pure, fail, ◌>>=◌, ◌>>◌, query, random_name}
use genomedb.Client.Split.{Group, split_shares, hand_over_all, record_manifest}

module _ (p : Packages) (h : Http) (json : Json) where
  -- A pseudonym for each peer.
  unfoldable pub name_mesh_holders : List MeshPeer → Action p h json (List Member)
  unfolding random_name
  name_mesh_holders [] = pure []
  name_mesh_holders (peer ∷ peers) = do
    pid ← random_name p h json 16
    rest ← name_mesh_holders peers
    pure (record { pid = pid; node_id = peer.name; endpoint = peer.endpoint } ∷ rest)

  -- What follows the choice of the holders.
  unfoldable pub send_out : Bytes → Group → List Share → Action p h json (Unit {0})
  unfolding hand_over_all record_manifest
  send_out label g shares = do
    hand_over_all p h json g g.members shares
    record_manifest p h json label (ascii "backup") g

  unfoldable pub distribute_among : Bytes → Bytes → ℕ → List MeshPeer → Action p h json (Unit {0})
  unfolding split_shares name_mesh_holders send_out random_name
  distribute_among label content threshold peers = do
    shares ← split_shares p h json content (length peers) threshold
    group_id ← random_name p h json 16
    group_token ← random_name p h json 32
    members ← name_mesh_holders peers
    send_out label
        (record {
          group_id = group_id;
          group_token = group_token;
          threshold = threshold;
          total = length peers;
          members = members;
        })
        shares

  unfoldable pub distribute_backup : Bytes → Bytes → ℕ → List MeshPeer → Action p h json (Unit {0})
  unfolding distribute_among
  distribute_backup label content threshold peers =
      if ltb (length peers) threshold
      then fail too_few_peers
      else distribute_among label content threshold peers

  unfoldable pub backup : Bytes → Bytes → ℕ → Action p h json (Unit {0})
  unfolding distribute_backup
  backup label content threshold = do
    peers ← query cannot_list_peers list_mesh_peers
    distribute_backup label content threshold peers
