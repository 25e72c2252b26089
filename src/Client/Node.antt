-- ===== src/Client/Node.antt =====
-- client/node.go and client/heartbeat.go: the state of a node, and the mutation of a fragment. A
-- call of the orchestrator or of a peer only has its error logged: what is called is the list that
-- an operation returns. A failed mutation leaves the source of random bytes where it was.
use genomedb.Base.{
  ℕ, zero, suc, ◌+◌, ◌%◌, ◌^◌, none, some, List, [], ◌∷◌, ◌++◌, map, get_elem?, take, if◌then◌else◌,
  Bytes, bytes_eq, ascii, Entropy, Result, ok, err, ◌>>=◌,
}
use genomedb.Base.Assoc.{Assoc, lookup, insert}
use genomedb.Crypto.Aead.{Gcm, AeadError, encrypt, decrypt}
use genomedb.Crypto.Ratchet.{Kdf, RatchetError, advance, next_pseudo_id, hex_encode}
use genomedb.Crypto.HashChain.{build_chain}
use genomedb.Protocol.{MutationAck, RouteAnnounce, Heartbeat, ImmuneAlert}
use genomedb.Peer.{MutationNoticeRequest}
use genomedb.Transport.{HttpError}
use genomedb.Crypto.Shamir.{ShamirError}
use genomedb.Store.Tables.{Member, Codec, Fragment, Store, StoreError}
use genomedb.Store.{put_fragment, get_fragment, delete_fragment, list_fragment_pids}

-- The packages that the node calls and that are not part of this repository.
pub record Packages : Type 1 where
  pub gcm : Gcm
  pub kdf : Kdf
  pub codec : Codec
  pub entropy : Entropy
  pub sha256 : Bytes → Bytes

-- `remaining` is Next + 1, which counts down to 0.
pub record ColdChain : Type 0 where
  pub chain : List Bytes
  pub remaining : ℕ

abbrev pub cold_chain_length : ℕ
cold_chain_length = 64

pub record Node (Source : Type 0) : Type 0 where
  pub node_id : Bytes
  pub endpoint : Bytes
  pub root : Bytes
  pub orchestrator_url : Bytes
  pub db_path : Bytes
  pub store : Store
  pub chains : Assoc ColdChain
  pub source : Source

pub data NodeError : Type 0 where
  no_fragment cannot_store : StoreError → NodeError
  no_entropy no_chain chain_exhausted : NodeError
  -- the panic of an index out of range
  out_of_range : NodeError
  ratchet : RatchetError → NodeError
  cannot_decrypt cannot_encrypt : AeadError → NodeError
  -- of split.go, backup.go and reconstruct.go
  total_too_small too_few_peers too_few_shares : NodeError
  cannot_list_nodes not_delivered : HttpError → NodeError
  cannot_split cannot_combine : ShamirError → NodeError
  no_manifest cannot_list_peers : StoreError → NodeError
  -- of node.go
  cannot_register cannot_subscribe : HttpError → NodeError
  cannot_add_peer : StoreError → NodeError
  no_db_path cannot_read_file : NodeError

pub data Call : Type 0 where
  announce : RouteAnnounce → Call
  ack : MutationAck → Call
  notify : Bytes → MutationNoticeRequest → Call
  immune_alert : ImmuneAlert → Call

unfoldable pub consume : ColdChain → Result NodeError (Bytes × ColdChain)
consume c = elim c.remaining [
  | zero ↦ err chain_exhausted
  | suc next ↦ elim (get_elem? c.chain next) [
    | none ↦ err out_of_range
    | some seed ↦ ok (seed, record c { remaining = next })
  ]
]

abbrev pub content_context : Bytes → Bytes → Bytes
content_context group_id pid = group_id ++ ascii ":" ++ pid

-- util.go
unfoldable pub commitment_hash : (Bytes → Bytes) → Bytes → Bytes → Bytes
commitment_hash sha256 pid ciphertext = hex_encode (sha256 (pid ++ ciphertext))

unfoldable pub notify_siblings : Bytes → Bytes → Fragment → Bytes → Bytes → List Member → List Call
notify_siblings node_id endpoint frag old_pid new_pid [] = []
notify_siblings node_id endpoint frag old_pid new_pid (m ∷ members) =
    let rest = notify_siblings node_id endpoint frag old_pid new_pid members in
    if bytes_eq m.node_id node_id
    then rest
    else notify m.endpoint (record {
      group_id = frag.group_id;
      group_token = frag.group_token;
      old_pid = old_pid;
      new_pid = new_pid;
      new_endpoint = endpoint;
      epoch = (frag.epoch + 1) % 2 ^ 64;
    })
      ∷ rest

module _ (p : Packages) where
  -- The new fragment of applyMutation: its key, ciphertext, pseudonym and epoch.
  unfoldable pub rotate :
      Fragment → Bytes → Bytes → p.entropy.Source → Result NodeError (Fragment × p.entropy.Source)
  rotate frag pid seed src = elim (p.entropy.read 32 src) [
    | none ↦ err no_entropy
    | some (local_entropy, src1) ↦ elim (advance p.kdf frag.key seed local_entropy) [
      | err e ↦ err (ratchet e)
      | ok new_key ↦
          elim (decrypt p.gcm frag.key frag.ciphertext (content_context frag.group_id pid)) [
            | err e ↦ err (cannot_decrypt e)
            | ok plaintext ↦
                let new_pid = next_pseudo_id p.kdf pid seed in
                elim (encrypt p.gcm p.entropy new_key plaintext
                  (content_context frag.group_id new_pid) src1) [
                    | err e ↦ err (cannot_encrypt e)
                    | ok (new_ciphertext, src2) ↦ ok (
                      record frag {
                        pid = new_pid;
                        epoch = (frag.epoch + 1) % 2 ^ 64;
                        key = new_key;
                        ciphertext = new_ciphertext;
                      },
                      src2,
                    )
                  ]
          ]
    ]
  ]

  -- The put under the new pseudonym, then the deletion of the old one.
  unfoldable pub replace_fragment :
      Bytes → Fragment → ℕ → Store → p.entropy.Source → Result NodeError p.entropy.Source × Store
  replace_fragment pid new now s src = elim (put_fragment p.gcm p.codec p.entropy new now s src) [
    | err e ↦ (err (cannot_store e), s)
    | ok (s1, src') ↦ elim (delete_fragment p.gcm p.codec pid s1) [
      | err e ↦ (err (cannot_store e), s1)
      | ok s2 ↦ (ok src', s2)
    ]
  ]

  abbrev pub mutation_calls :
      Node p.entropy.Source → Fragment → Fragment → Bytes → Bytes → Bytes → List Call
  mutation_calls n frag new pid seed reason =
      ack (record {
        node_id = n.node_id;
        old_pid = pid;
        new_pid = new.pid;
        epoch = new.epoch;
        commitment = commitment_hash p.sha256 new.pid new.ciphertext;
        reason = reason;
        chain_id = frag.chain_id;
        seed_used = if bytes_eq reason (ascii "cold") then seed else [];
      })
      ∷ notify_siblings n.node_id n.endpoint frag pid new.pid frag.members

  -- applyMutation: the calls it makes, and the node after it.
  unfoldable pub apply_mutation :
      Bytes
      → Bytes
      → Bytes
      → ℕ
      → Node p.entropy.Source
      → Result NodeError (List Call) × Node p.entropy.Source
  unfolding rotate replace_fragment
  apply_mutation pid seed reason now n = elim (get_fragment p.gcm p.codec pid n.store) [
    | err e ↦ (err (no_fragment e), n)
    | ok frag ↦ elim (rotate frag pid seed n.source) [
      | err e ↦ (err e, n)
      | ok (new, src) ↦
          let (result, s) = replace_fragment pid new now n.store src in
          elim result [
            | err e ↦ (err e, record n { store = s })
            | ok src' ↦ (
              ok (mutation_calls n frag new pid seed reason),
              record n { store = s; source = src' },
            )
          ]
    ]
  ]

  -- ColdMutate: the link is used up whether or not the mutation succeeds.
  unfoldable pub cold_mutate :
      Bytes → ℕ → Node p.entropy.Source → Result NodeError (List Call) × Node p.entropy.Source
  unfolding apply_mutation consume
  cold_mutate pid now n = elim (get_fragment p.gcm p.codec pid n.store) [
    | err e ↦ (err (no_fragment e), n)
    | ok frag ↦ elim (lookup frag.chain_id n.chains) [
      | none ↦ (err no_chain, n)
      | some cc ↦ elim (consume cc) [
        | err e ↦ (err e, n)
        | ok (seed, cc') ↦
            apply_mutation pid seed (ascii "cold") now
              (record n { chains = insert frag.chain_id cc' n.chains })
      ]
    ]
  ]

  unfoldable pub register_new_fragment :
      Bytes → Bytes → Node p.entropy.Source → Result NodeError (List Call) × Node p.entropy.Source
  register_new_fragment pid chain_id n =
      elim (build_chain p.sha256 p.entropy cold_chain_length n.source) [
        | none ↦ (err no_entropy, n)
        | some (chain, src) ↦
            let n' : Node p.entropy.Source = record n {
              chains =
                  insert chain_id (record { chain = chain; remaining = cold_chain_length })
                    n.chains;
              source = src;
            } in
            elim (get_elem? chain cold_chain_length) [
              | none ↦ (err out_of_range, n')
              | some tip ↦ (
                ok (
                    announce (record {
                      node_id = n.node_id;
                      pid = pid;
                      endpoint = n.endpoint;
                      chain_id = chain_id;
                      chain_tip = tip;
                    })
                    ∷ []),
                n',
              )
            ]
      ]

  -- The loop of ListLocalFragments skips what cannot be read.
  unfoldable pub readable : Store → List Bytes → List Fragment
  readable s [] = []
  readable s (pid ∷ pids) =
      let rest = readable s pids in
      elim (get_fragment p.gcm p.codec pid s) [ err e ↦ rest | ok f ↦ f ∷ rest ]

  unfoldable pub list_local_fragments : Node p.entropy.Source → Result StoreError (List Fragment)
  unfolding readable
  list_local_fragments n =
      list_fragment_pids p.gcm p.codec n.store >>= λ pids. ok (readable n.store pids)

  -- sendHeartbeats, with the score of the watchdog.
  unfoldable pub send_heartbeats : ℕ → Node p.entropy.Source → List Heartbeat
  unfolding readable
  send_heartbeats risk n = elim (list_fragment_pids p.gcm p.codec n.store) [
    | err e ↦ []
    | ok pids ↦
        map
          (λ (f : Fragment). record {
            node_id = n.node_id;
            pid = f.pid;
            epoch = f.epoch;
            risk_score = risk;
            por_proof = hex_encode (take 8 (p.sha256 f.ciphertext));
          })
          (readable n.store pids)
  ]
