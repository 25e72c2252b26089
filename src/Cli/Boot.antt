-- ===== src/Cli/Boot.antt =====
-- cmd/client/main.go: what main does before the prompt. What the file of the local database holds is
-- the parameter `tables`; scrypt and the JSON of the sealed root are those of Crypto/Seal.antt. The
-- services that main starts in goroutines are not run here.
pub mod Restart
use genomedb.Base.{
  ℕ, Bool, true, false, List, [], ◌∷◌, ◌++◌, length, ◌==◌, if◌then◌else◌, Bytes, ascii, Result, ok,
  err,
}
use genomedb.Base.Assoc.{Assoc}
use genomedb.Crypto.Ratchet.{RatchetError}
use genomedb.Crypto.Seal.{Disk, Sealing, SealError, load_or_create_root}
use genomedb.Protocol.Events.{EventText}
use genomedb.Store.{open_store}
use genomedb.Store.Tables.{FragmentRow, ManifestRow, MeshPeerRow, Store}
use genomedb.Transport.{Http, Json}
use genomedb.Client.Node.{Packages, Node, NodeError}
use genomedb.Client.Startup.{new_node, start}
use genomedb.Client.World.{World}

-- The flags that the node's making depends on; empty where they are not given.
pub record Flags : Type 0 where
  pub node_id : Bytes
  pub peer_addr : Bytes
  pub public_endpoint : Bytes
  pub orchestrator_url : Bytes
  pub data_dir : Bytes
  pub mesh_only : Bool

pub record Tables : Type 0 where
  pub fragments : Assoc FragmentRow
  pub manifests : Assoc ManifestRow
  pub mesh_peers : Assoc MeshPeerRow

-- What ends the program.
pub data Fatal : Type 0 where
  no_node_id : Fatal
  no_root : SealError → Fatal
  no_store : RatchetError → Fatal
  not_started : NodeError → Fatal

unfoldable pub endpoint_of : Flags → Bytes
endpoint_of f =
    if length f.public_endpoint == 0
    then ascii "http://localhost" ++ f.peer_addr
    else f.public_endpoint

unfoldable pub binding_of : Flags → Bytes
binding_of f = ascii "stand-in-hw-binding:" ++ f.node_id

module _ (p : Packages) (d : Disk) (sealing : Sealing) where
  unfoldable pub dir_of : Flags → Bytes
  dir_of f = if length f.data_dir == 0 then d.join (ascii "data") f.node_id else f.data_dir

  abbrev pub db_path_of : Flags → Bytes
  db_path_of f = d.join (dir_of f) (ascii "node.db")

  -- The store that is opened with the root, and the node that is made on it.
  unfoldable pub make_node :
      Flags → Tables → Bytes → p.entropy.Source → Result Fatal (Node p.entropy.Source)
  unfolding open_store new_node endpoint_of
  make_node f t root source = elim (open_store p.kdf t.fragments t.manifests t.mesh_peers root) [
    | err e ↦ err (no_store e)
    | ok s ↦
        let n = new_node f.node_id (endpoint_of f) f.orchestrator_url s root source in
        ok (record n { db_path = db_path_of f })
  ]

  -- The random bytes for a new root come from `fresh`, those of the node from `source`.
  unfoldable pub boot :
      Flags
      → Tables
      → p.entropy.Source
      → p.entropy.Source
      → d.State
      → Result Fatal (Node p.entropy.Source) × d.State
  unfolding load_or_create_root make_node dir_of binding_of
  boot f t fresh source s =
      if length f.node_id == 0
      then (err no_node_id, s)
      else (let (root, s') =
            load_or_create_root p.gcm sealing p.entropy d (dir_of f) (binding_of f) fresh s in
          elim root [ err e ↦ (err (no_root e), s') | ok r ↦ (make_node f t r source, s') ])

  module _ (h : Http) (json : Json) where
    -- A node that is not for the mesh alone is started, and main ends if that fails.
    unfoldable pub go_online :
        Flags
        → World p.entropy.Source h.State
        → Result Fatal (List EventText) × World p.entropy.Source h.State
    unfolding start
    go_online f w =
        if f.mesh_only
        then (ok [], w)
        else (let (started, w') = start p h json w in
            (elim started [ err e ↦ err (not_started e) | ok events ↦ ok events ], w'))
