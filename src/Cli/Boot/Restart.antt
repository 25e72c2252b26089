-- ===== src/Cli/Boot/Restart.antt =====
-- A restart of cmd/client/main.go.
use genomedb.Base.{
  ◌≡◌, ap, true, false, length, ◌==◌, Bytes, ascii, Result, ok, err, Result-cases, Bool-cases, inl,
  inr,
}
use genomedb.Crypto.Seal.{Disk, Sealing, load_or_create_root}
use genomedb.Crypto.Seal.Laws.{load_or_create_root-again}
use genomedb.Crypto.Ratchet.{derive_fragment_root}
use genomedb.Store.{open_store}
use genomedb.Client.Startup.{new_node}
use genomedb.Client.Node.{Packages, Node}
use genomedb.Cli.Boot.{
  Flags, Tables, Fatal, endpoint_of, db_path_of, dir_of, binding_of, make_node, boot,
}

module _ (p : Packages) (d : Disk) (sealing : Sealing) where
  -- The node of a later start, against the one before: all that is not of the tables.
  abbrev pub SameNode :
      Tables → Node p.entropy.Source → Result Fatal (Node p.entropy.Source) → Type 0
  SameNode t n r =
      (again : Node p.entropy.Source) × (r ≡ ok again)
      × (again.root ≡ n.root)
      × (again.store ≡ record n.store {
        fragments = t.fragments;
        manifests = t.manifests;
        mesh_peers = t.mesh_peers;
      })
      × (again.node_id ≡ n.node_id)
      × (again.endpoint ≡ n.endpoint)
      × (again.db_path ≡ n.db_path)

  abbrev made_of : Flags → Tables → Bytes → Bytes → p.entropy.Source → Node p.entropy.Source
  made_of f t root key source =
      record (new_node f.node_id (endpoint_of f) f.orchestrator_url
        (record {
          storage_key = key;
          closed = false;
          fragments = t.fragments;
          manifests = t.manifests;
          mesh_peers = t.mesh_peers;
        })
        root source) { db_path = db_path_of p d sealing f }

  abbrev node_or :
      Node p.entropy.Source → Result Fatal (Node p.entropy.Source) → Node p.entropy.Source
  node_or n (ok made) = made
  node_or n (err e) = n

  make_node-SameNode :
      (f : Flags) (t t' : Tables) (root : Bytes) (source source' : p.entropy.Source)
      → (n : Node p.entropy.Source) → make_node p d sealing f t root source ≡ ok n
      → SameNode t' n (make_node p d sealing f t' root source')
  unfolding make_node open_store new_node
  make_node-SameNode f t t' root source source' n made =
      elim (Result-cases (derive_fragment_root p.kdf root (ascii "local-storage-wrap-key"))) [
        | inl (e, bad) ↦ cc (rw (make_node, open_store, bad) at made)
        | inr (key, derived) ↦
            let this : made_of f t root key source ≡ n =
              ap (node_or n) (rw (make_node, open_store, derived) at made) in
            (
              made_of f t' root key source',
              rw (make_node, open_store, derived),
              ap (λ (m : Node p.entropy.Source). m.root) this,
              ap
                  (λ (m : Node p.entropy.Source). record m.store {
                    fragments = t'.fragments;
                    manifests = t'.manifests;
                    mesh_peers = t'.mesh_peers;
                  })
                  this,
              ap (λ (m : Node p.entropy.Source). m.node_id) this,
              ap (λ (m : Node p.entropy.Source). m.endpoint) this,
              ap (λ (m : Node p.entropy.Source). m.db_path) this,
            )
      ]

  -- A node that was made is made again at the next start with the same flags, whatever the random
  -- bytes then are and whatever its tables hold by then, if nothing else was written beside the
  -- database and its directory can still be made: it has the same root secret, name, endpoint and path
  -- of the database, and its store has the same key for what it wraps.
  pub boot-again :
      (f : Flags) (t t' : Tables) (fresh fresh' source source' : p.entropy.Source)
      → (s s' : d.State) (n : Node p.entropy.Source)
      → boot p d sealing f t fresh source s ≡ (ok n, s')
      → (d.make_dir (dir_of p d sealing f) s').0 ≡ true
      → SameNode t' n (boot p d sealing f t' fresh' source' s').0
  unfolding boot
  boot-again f t t' fresh fresh' source source' s s' n run made =
      elim (Bool-cases (length f.node_id == 0)) [
        | inl unnamed ↦ cc (rw (boot, unnamed) at run)
        | inr named ↦
            elim (Result-cases
              (load_or_create_root p.gcm sealing p.entropy d (dir_of p d sealing f) (binding_of f)
                fresh s).0) [
                  | inl (e, bad) ↦ cc (rw (boot, named, bad) at run)
                  | inr (root, loaded) ↦
                      let ends : ◌≡◌ {A = Result Fatal (Node p.entropy.Source) × d.State}
                          (
                            make_node p d sealing f t root source,
                            (load_or_create_root p.gcm sealing p.entropy d (dir_of p d sealing f)
                                (binding_of f) fresh s).1,
                          )
                          (ok n, s') =
                        rw (boot, named, loaded) at run in
                      let once_more =
                        load_or_create_root-again p.gcm sealing p.entropy d (dir_of p d sealing f)
                          (binding_of f) root fresh fresh' s s' (λ i. (loaded i, (ends i).1))
                          made in
                      rw (boot, named, once_more)
                        (make_node-SameNode f t t' root source source' n (ap (λ r. r.0) ends))
                ]
      ]
