-- ===== src/Client/Startup.antt =====
-- client/node.go: how a node is made and started, and what it asks of its own store and disk.
use genomedb.Base.{List, [], length, ◌==◌, if◌then◌else◌, Bytes, Result, ok, err}
use genomedb.Crypto.Seal.{Disk, found, missing, unreadable}
use genomedb.Protocol.Client.{send_register}
use genomedb.Protocol.Events.{EventText}
use genomedb.Protocol.Subscription.{subscribe_events}
use genomedb.Store.{put_mesh_peer}
use genomedb.Store.Tables.{Store}
use genomedb.Transport.{Http, Json}
use genomedb.Client.Node.{
  Packages, Node, NodeError, cannot_register, cannot_subscribe, cannot_add_peer, no_db_path,
  cannot_read_file,
}
use genomedb.Client.World.{Action, ◌>>=◌, wrapped, exchange, put_store}

-- NewNode. Its two clients have no state but the URL, and its watchdog stands on its own.
unfoldable pub new_node :
    {Source : Type 0} → Bytes → Bytes → Bytes → Store → Bytes → Source → Node Source
new_node node_id endpoint orchestrator_url store root source = record {
  node_id = node_id;
  endpoint = endpoint;
  root = root;
  orchestrator_url = orchestrator_url;
  db_path = [];
  store = store;
  chains = [];
  source = source;
}

module _ (d : Disk) where
  unfoldable pub read_own_database_file :
      {Source : Type 0} → Node Source → d.State → Result NodeError Bytes
  read_own_database_file n disk =
      if length n.db_path == 0 then err no_db_path else (elim (d.read_file n.db_path disk) [
        | found contents ↦ ok contents
        | missing ↦ err cannot_read_file
        | unreadable ↦ err cannot_read_file
      ])

module _ (p : Packages) (h : Http) (json : Json) where
  unfoldable pub add_mesh_peer : Bytes → Bytes → Bytes → Action p h json (Unit {0})
  unfolding put_mesh_peer
  add_mesh_peer name endpoint wg_public_key w =
      (wrapped cannot_add_peer (
            put_mesh_peer
              (record {
                name = name;
                endpoint = endpoint;
                wg_public_key = wg_public_key;
                added_at = 0;
              })
              w.now w.node.store)
          >>= put_store)
        w

  -- Start, up to the loop over the events: it registers first, and subscribes if that succeeds.
  unfoldable pub start : Action p h json (List EventText)
  unfolding exchange subscribe_events send_register
  start w =
      (do
        registered ← exchange p h json (
            send_register h w.node.orchestrator_url json
              (record { node_id = w.node.node_id; endpoint = w.node.endpoint }))
        answer ← wrapped cannot_register registered
        subscribed ← exchange p h json (subscribe_events h w.node.orchestrator_url w.node.node_id)
        wrapped cannot_subscribe subscribed)
        w
