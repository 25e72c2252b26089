-- ===== src/Client/Split.antt =====
-- client/split.go. The slices `holders`, `members` and `peerMembers` hold the same three strings for
-- each holder, and are one list here, with this node's own entry first.
pub mod Keeps
pub mod Failure
pub mod Steps
pub mod Own
pub mod Success
pub mod Peers
use genomedb.Base.{
  ℕ, ◌-◌, ◌+◌, Bool, true, false, List, [], ◌∷◌, ◌++◌, length, ltb, ◌==◌, if◌then◌else◌, Bytes,
  bytes_eq, ascii, Entropy, Result, ok, err,
}
use genomedb.Crypto.Aead.{encrypt}
use genomedb.Crypto.Ratchet.{derive_fragment_root, key_size}
use genomedb.Crypto.Shamir.{Share, split}
use genomedb.Peer.Client.{ping, deliver_share_to}
use genomedb.Protocol.{NodeInfo}
use genomedb.Protocol.Client.{list_nodes}
use genomedb.Store.{put_fragment, put_manifest}
use genomedb.Store.Tables.{Member, Manifest, Fragment}
use genomedb.Transport.{Http, Json}
use genomedb.Client.Node.{
  Packages, NodeError, total_too_small, too_few_peers, cannot_list_nodes, not_delivered,
  cannot_split, cannot_encrypt, cannot_store, ratchet, out_of_range, content_context,
  register_new_fragment,
}
use genomedb.Client.World.{
  World, Act, Action, pure, fail, ◌>>=◌, ◌>>◌, wrapped, query, put_store, exchange, random,
  random_name, place_all, then_run, on_node,
}

-- What the shares of one split have in common.
pub record Group : Type 0 where
  pub group_id : Bytes
  pub group_token : Bytes
  pub threshold : ℕ
  pub total : ℕ
  pub members : List Member

module _ (p : Packages) (h : Http) (json : Json) where
  -- The loop of reachablePeers.
  unfoldable pub ping_nodes : ℕ → List NodeInfo → List NodeInfo → Action p h json (List NodeInfo)
  unfolding exchange
  ping_nodes need [] reachable w = (ok reachable, w)
  ping_nodes need (nd ∷ nodes) reachable w = elim (bytes_eq nd.node_id w.node.node_id) [
    | true ↦ ping_nodes need nodes reachable w
    | false ↦ elim (ping h nd.endpoint w.net).0 [
      | err e ↦ ping_nodes need nodes reachable (record w { net = (ping h nd.endpoint w.net).1 })
      | ok _ ↦ elim (length reachable + 1 == need) [
        | true ↦ (ok (reachable ++ nd ∷ []), record w { net = (ping h nd.endpoint w.net).1 })
        | false ↦
            ping_nodes need nodes (reachable ++ nd ∷ [])
              (record w { net = (ping h nd.endpoint w.net).1 })
      ]
    ]
  ]

  unfoldable pub reachable_peers : ℕ → Action p h json (List NodeInfo)
  unfolding ping_nodes exchange
  reachable_peers need w =
      (do
        listed ← exchange p h json (list_nodes h w.node.orchestrator_url json)
        nodes ← wrapped cannot_list_nodes listed
        reachable ← ping_nodes need nodes []
        if ltb (length reachable) need then fail too_few_peers else pure reachable)
        w

  -- A pseudonym for each peer.
  unfoldable pub name_holders : List NodeInfo → Action p h json (List Member)
  unfolding random_name
  name_holders [] = pure []
  name_holders (peer ∷ peers) = do
    pid ← random_name p h json 16
    rest ← name_holders peers
    pure (record { pid = pid; node_id = peer.node_id; endpoint = peer.endpoint } ∷ rest)

  -- crypto.Split with the node's source of random bytes.
  unfoldable pub split_shares : Bytes → ℕ → ℕ → Action p h json (List Share)
  split_shares secret total threshold w =
      elim (split p.entropy secret total threshold w.node.source) [
        | err e ↦ (err (cannot_split e), w)
        | ok (shares, src) ↦ (ok shares, record w { node = record w.node { source = src } })
      ]

  unfoldable pub seal_share : Bytes → Bytes → Bytes → Action p h json Bytes
  seal_share key share aad w = elim (encrypt p.gcm p.entropy key share aad w.node.source) [
    | err e ↦ (err (cannot_encrypt e), w)
    | ok (ciphertext, src) ↦ (ok ciphertext, record w { node = record w.node { source = src } })
  ]

  -- PutFragment on this node.
  unfoldable pub hold_fragment : Fragment → Action p h json (Unit {0})
  hold_fragment f w =
      elim (put_fragment p.gcm p.codec p.entropy f w.now w.node.store w.node.source) [
        | err e ↦ (err (cannot_store e), w)
        | ok (s, src) ↦ (ok tt, record w { node = record w.node { store = s; source = src } })
      ]

  -- registerNewFragment, and the announcement it sends.
  unfoldable pub register_fragment : Bytes → Bytes → Action p h json (Unit {0})
  unfolding place_all
  register_fragment pid chain_id =
      on_node (register_new_fragment p pid chain_id) >>= λ calls. place_all p h json calls

  -- The first round of the loop over the holders: the share that stays here.
  unfoldable pub keep_share : Group → Member → Share → Action p h json (Unit {0})
  unfolding random_name seal_share register_fragment hold_fragment
  keep_share g holder share w =
      (do
        salt ← random_name p h json 16
        key ← wrapped ratchet (derive_fragment_root p.kdf w.node.root salt)
        ciphertext ← seal_share key share (content_context g.group_id holder.pid)
        chain_id ← random_name p h json 8
        register_fragment holder.pid chain_id
        hold_fragment (record {
          pid = holder.pid;
          group_id = g.group_id;
          group_token = g.group_token;
          chain_id = chain_id;
          epoch = 0;
          threshold = g.threshold;
          total = g.total;
          key = key;
          ciphertext = ciphertext;
          members = g.members;
          updated_at = 0;
        }))
        w

  -- A later round, and each round of distributeBackup: the share of another node.
  unfoldable pub hand_over : Group → Member → Share → Action p h json (Unit {0})
  unfolding random seal_share exchange
  hand_over g holder share = do
    key ← random p h json key_size
    ciphertext ← seal_share key share (content_context g.group_id holder.pid)
    sent ← exchange p h json (
        deliver_share_to h json holder.endpoint (record {
          group_id = g.group_id;
          group_token = g.group_token;
          pid = holder.pid;
          epoch = 0;
          threshold = g.threshold;
          total = g.total;
          key = key;
          ciphertext = ciphertext;
          members = g.members;
        }))
    wrapped not_delivered sent

  -- A share that is missing would be an index out of range.
  unfoldable pub hand_over_all : Group → List Member → List Share → Action p h json (Unit {0})
  unfolding hand_over
  hand_over_all g [] shares = pure tt
  hand_over_all g (holder ∷ holders) [] = fail out_of_range
  hand_over_all g (holder ∷ holders) (share ∷ shares) = do
    hand_over g holder share
    hand_over_all g holders shares

  unfoldable pub keep_and_hand_over : Group → List Member → List Share → Action p h json (Unit {0})
  unfolding keep_share hand_over_all
  keep_and_hand_over g [] shares = fail out_of_range
  keep_and_hand_over g (own ∷ holders) [] = fail out_of_range
  keep_and_hand_over g (own ∷ holders) (share ∷ shares) = do
    keep_share g own share
    hand_over_all g holders shares

  unfoldable pub record_manifest : Bytes → Bytes → Group → Action p h json (Unit {0})
  record_manifest secret_name kind g w =
      (wrapped cannot_store (
            put_manifest p.gcm p.codec
              (record {
                secret_name = secret_name;
                kind = kind;
                group_id = g.group_id;
                group_token = g.group_token;
                threshold = g.threshold;
                total = g.total;
                members = g.members;
                created_at = 0;
              })
              w.now w.node.store)
          >>= put_store)
        w

  -- What follows the choice of the holders.
  unfoldable pub share_out : Bytes → Group → List Share → Action p h json (Unit {0})
  unfolding keep_and_hand_over record_manifest
  share_out secret_name g shares = do
    keep_and_hand_over g g.members shares
    record_manifest secret_name (ascii "secret") g

  -- The groups that there are peers for.
  unfoldable pub split_over_peers : Bytes → Bytes → ℕ → ℕ → Action p h json (Unit {0})
  unfolding reachable_peers split_shares name_holders share_out random_name
  split_over_peers secret_name content threshold total w =
      (do
        peers ← reachable_peers (total - 1)
        shares ← split_shares content total threshold
        group_id ← random_name p h json 16
        group_token ← random_name p h json 32
        own_pid ← random_name p h json 16
        others ← name_holders peers
        share_out secret_name
            (record {
              group_id = group_id;
              group_token = group_token;
              threshold = threshold;
              total = total;
              members =
                  record { pid = own_pid; node_id = w.node.node_id; endpoint = w.node.endpoint }
                  ∷ others;
            })
            shares)
        w

  unfoldable pub split_secret : Bytes → Bytes → ℕ → ℕ → Action p h json (Unit {0})
  unfolding split_over_peers
  split_secret secret_name content threshold total =
      if ltb total 2
      then fail total_too_small
      else split_over_peers secret_name content threshold total
