-- ===== src/Client/PeerServer.antt =====
-- client/peerserver.go: the handlers that a node serves its siblings, over decoded requests; `none`
-- is a body that does not decode. The message of an error reply is left out.
pub mod Tokens
pub mod Delivery
use genomedb.Base.{
  ℕ, Bool, true, false, Option, none, some, List, [], ◌∷◌, if◌then◌else◌, Bytes, bytes_eq, Result,
  ok, err,
}
use genomedb.Crypto.Aead.{decrypt}
use genomedb.Crypto.Ratchet.{hex_encode}
use genomedb.Peer.{DeliverShareRequest, MutationNoticeRequest, PresenceResponse, ShareResponse}
use genomedb.Store.{put_fragment, get_fragment_by_group, update_sibling, update_manifest_member}
use genomedb.Store.Tables.{Store}
use genomedb.Client.Node.{Packages, Node, Call, register_new_fragment, content_context}

-- The status codes, by Go's names.
pub data Reply : Type 0 where
  no_content bad_request internal_server_error not_found forbidden : Reply
  presence : PresenceResponse → Reply
  share : ShareResponse → Reply

module _ (p : Packages) where
  -- randomID of split.go
  unfoldable pub random_id : ℕ → p.entropy.Source → Option (Bytes × p.entropy.Source)
  random_id n_bytes src = elim (p.entropy.read n_bytes src) [
    | none ↦ none
    | some (b, src') ↦ some (hex_encode b, src')
  ]

  -- The fragment of a delivery, put once its chain is registered.
  unfoldable pub store_delivery :
      DeliverShareRequest
      → Bytes
      → ℕ
      → List Call
      → Node p.entropy.Source
      → Reply × List Call × Node p.entropy.Source
  store_delivery req chain_id now calls n =
      elim (put_fragment p.gcm p.codec p.entropy
        (record {
          pid = req.pid;
          group_id = req.group_id;
          group_token = req.group_token;
          chain_id = chain_id;
          epoch = req.epoch;
          threshold = req.threshold;
          total = req.total;
          key = req.key;
          ciphertext = req.ciphertext;
          members = req.members;
          updated_at = 0;
        })
        now n.store n.source) [
          | err e ↦ (internal_server_error, calls, n)
          | ok (s, src) ↦ (no_content, calls, record n { store = s; source = src })
        ]

  -- POST /peer/deliver
  unfoldable pub deliver_share :
      Option DeliverShareRequest
      → ℕ
      → Node p.entropy.Source
      → Reply × List Call × Node p.entropy.Source
  unfolding random_id store_delivery
  deliver_share none now n = (bad_request, [], n)
  deliver_share (some req) now n = elim (random_id 8 n.source) [
    | none ↦ (internal_server_error, [], n)
    | some (chain_id, src) ↦
        let (result, n') = register_new_fragment p req.pid chain_id (record n { source = src }) in
        elim result [
          | err e ↦ (internal_server_error, [], n')
          | ok calls ↦ store_delivery req chain_id now calls n'
        ]
  ]

  -- GET /peer/ping
  abbrev pub ping : Reply
  ping = no_content

  -- GET /peer/group/{group_id}/status
  unfoldable pub group_status : Bytes → Bytes → Store → Reply
  group_status group_id token s = elim (get_fragment_by_group p.gcm p.codec group_id s) [
    | err e ↦ not_found
    | ok frag ↦
        if bytes_eq token frag.group_token
        then presence (record { present = true; epoch = frag.epoch })
        else forbidden
  ]

  -- GET /peer/group/{group_id}
  unfoldable pub fetch_share : Bytes → Bytes → Store → Reply
  fetch_share group_id token s = elim (get_fragment_by_group p.gcm p.codec group_id s) [
    | err e ↦ not_found
    | ok frag ↦
        if bytes_eq token frag.group_token
        then (elim (decrypt p.gcm frag.key frag.ciphertext
            (content_context frag.group_id frag.pid)) [
              | err e ↦ internal_server_error
              | ok content ↦ share (record { share = content; epoch = frag.epoch })
            ])
        else forbidden
  ]

  -- POST /peer/mutation-notice: an error of UpdateManifestMember is only logged.
  unfoldable pub mutation_notice : Option MutationNoticeRequest → ℕ → Store → Reply × Store
  mutation_notice none now s = (bad_request, s)
  mutation_notice (some req) now s =
      elim (update_sibling p.gcm p.codec req.group_id req.old_pid req.new_pid req.new_endpoint s) [
        | err e ↦ (internal_server_error, s)
        | ok s1 ↦
            elim (update_manifest_member p.gcm p.codec req.group_id req.old_pid req.new_pid
              req.new_endpoint now s1) [ err e ↦ (no_content, s1) | ok s2 ↦ (no_content, s2) ]
      ]
