-- ===== src/Tests/Nodes.antt =====
-- A node that is started again, and one that is delivered a share, with concrete parameters.
use genomedb.Base.{
  ℕ, ◌≡◌, refl, true, false, Option, none, some, List, [], ◌∷◌, ◌++◌, replicate, if◌then◌else◌,
  Bytes, bytes_eq, ascii, Result, ok, err,
}
use genomedb.Crypto.Aead.{encrypt, decrypt}
use genomedb.Crypto.HashChain.{build_chain}
use genomedb.Crypto.Ratchet.{derive_fragment_root}
use genomedb.Peer.{DeliverShareRequest}
use genomedb.Store.{put_fragment}
use genomedb.Store.Tables.{first_row}
use genomedb.Client.Node.{Node, Call, register_new_fragment}
use genomedb.Client.PeerServer.{
  Reply, no_content, forbidden, presence, share, deliver_share, fetch_share, group_status,
}
use genomedb.Client.PeerServer.Delivery.{fetch_share-deliver_share}
use genomedb.Cli.Boot.{Flags, Tables, Fatal, boot}
use genomedb.Cli.Boot.Restart.{SameNode, boot-again}
use genomedb.Tests.Channels.{one_file, plain_sealing}
use genomedb.Tests.Parameters.{toy_gcm, toy_packages}

abbrev flags : Flags
flags = record {
  node_id = ascii "a";
  peer_addr = ascii ":9001";
  public_endpoint = [];
  orchestrator_url = ascii "o";
  data_dir = [];
  mesh_only = true;
}

abbrev no_rows : Tables
no_rows = record { fragments = []; manifests = []; mesh_peers = [] }

abbrev first_boot : Result Fatal (Node ℕ) × Option (Bytes × Bytes)
first_boot = boot toy_packages one_file plain_sealing flags no_rows 0 5 none

abbrev node_in : Result Fatal (Node ℕ) → Node ℕ → Node ℕ
node_in (ok n) d = n
node_in (err e) d = d

abbrev blank : Node ℕ
blank = record {
  node_id = ascii "a";
  endpoint = [];
  root = [];
  orchestrator_url = [];
  db_path = [];
  store = record {
    storage_key = replicate 32 5;
    closed = false;
    fragments = [];
    manifests = [];
    mesh_peers = [];
  };
  chains = [];
  source = 0;
}

booted : first_boot ≡ (ok (node_in first_boot.0 blank), first_boot.1)
unfolding boot encrypt derive_fragment_root
booted = refl

boot-again_example :
    SameNode toy_packages one_file plain_sealing no_rows
      (node_in first_boot.0 blank)
      (boot toy_packages one_file plain_sealing flags no_rows 3 8 first_boot.1).0
boot-again_example =
    boot-again toy_packages one_file plain_sealing flags no_rows no_rows 0 3 5 8 none first_boot.1
      (node_in first_boot.0 blank) booted refl

abbrev delivery : DeliverShareRequest
delivery = record {
  group_id = ascii "g";
  group_token = ascii "t";
  pid = ascii "p";
  epoch = 4;
  threshold = 2;
  total = 3;
  key = replicate 32 9;
  ciphertext = replicate 12 7 ++ (1 ∷ 2 ∷ []);
  members = [];
}

abbrev delivered : Reply × List Call × Node ℕ
delivered = deliver_share toy_packages (some delivery) 100 blank

accepted : delivered ≡ (no_content, delivered.1, delivered.2)
unfolding deliver_share register_new_fragment build_chain put_fragment encrypt
accepted = refl

none_of_group :
    first_row (λ row. bytes_eq row.group_id delivery.group_id) blank.store.fragments ≡ none
unfolding first_row
none_of_group = refl

opens :
    decrypt toy_gcm delivery.key delivery.ciphertext (ascii "g" ++ ascii ":" ++ ascii "p")
    ≡ ok (1 ∷ 2 ∷ [])
unfolding decrypt
opens = refl

fetch_share-deliver_share_example :
    (fetch_share toy_packages (ascii "g") (ascii "x") delivered.2.store ≡ (
      if bytes_eq (ascii "x") (ascii "t")
      then share (record { share = 1 ∷ 2 ∷ []; epoch = 4 })
      else forbidden))
    × (group_status toy_packages (ascii "g") (ascii "x") delivered.2.store ≡ (
        if bytes_eq (ascii "x") (ascii "t")
        then presence (record { present = true; epoch = 4 })
        else forbidden))
fetch_share-deliver_share_example =
    fetch_share-deliver_share toy_packages delivery (1 ∷ 2 ∷ []) (ascii "x") 100 delivered.1 blank
      delivered.2 tt none_of_group opens accepted
