-- ===== src/Client/PeerServer/Delivery.antt =====
-- A share that is delivered to client/peerserver.go and then asked for.
use genomedb.Base.{
  ℕ, ◌≡◌, ap, subst, ◌∙◌, true, none, some, List, if◌then◌else◌, Bytes, bytes_eq, ok, Result-cases,
  Option-cases, inl, inr,
}
use genomedb.Crypto.Aead.{decrypt}
use genomedb.Peer.{DeliverShareRequest}
use genomedb.Store.{put_fragment, get_fragment_by_group}
use genomedb.Store.Groups.{of_group, get_fragment_by_group-put_fragment}
use genomedb.Store.Tables.{AreText, Fragment, Store, first_row}
use genomedb.Client.Node.{Packages, Node, Call, register_new_fragment, content_context}
use genomedb.Client.PeerServer.{
  Reply, no_content, forbidden, presence, share, random_id, store_delivery, deliver_share,
  fetch_share, group_status,
}
use genomedb.Client.Registration.{register_new_fragment-same_store}

module _ (p : Packages) where
  abbrev fragment_of_request : DeliverShareRequest → Bytes → Fragment
  fragment_of_request req chain_id = record {
    pid = req.pid;
    group_id = req.group_id;
    group_token = req.group_token;
    chain_id = chain_id;
    epoch = req.epoch;
    threshold = req.threshold;
    total = req.total;
    key = req.key;
    ciphertext = req.ciphertext;
    members = req.members;
    updated_at = 0;
  }

  -- A delivery that is accepted was put in the store.
  abbrev Put : DeliverShareRequest → ℕ → Store → Store → Type 0
  Put req now s s' =
      (chain_id : Bytes) × (src src' : p.entropy.Source) × (put_fragment p.gcm p.codec p.entropy
          (fragment_of_request req chain_id) now s src
        ≡ ok (s', src'))

  store_delivery-Put :
      (req : DeliverShareRequest) (chain_id : Bytes) (now : ℕ) (calls calls' : List Call)
      → (n n' : Node p.entropy.Source)
      → store_delivery p req chain_id now calls n ≡ (no_content, calls', n')
      → Put req now n.store n'.store
  unfolding store_delivery
  store_delivery-Put req chain_id now calls calls' n n' run =
      elim (Result-cases (
        put_fragment p.gcm p.codec p.entropy (fragment_of_request req chain_id) now n.store
          n.source)) [
            | inl (e, failed) ↦ cc (rw (store_delivery, failed) at run)
            | inr ((s, src), done) ↦ (
              chain_id,
              n.source,
              src,
              done
                  ∙ ap (λ (t : Store). ok (t, src))
                      (ap (λ (r : Reply × List Call × Node p.entropy.Source). r.2.store)
                        (rw (store_delivery, done) at run)),
            )
          ]

  deliver_share-Put :
      (req : DeliverShareRequest) (now : ℕ) (calls : List Call) (n n' : Node p.entropy.Source)
      → deliver_share p (some req) now n ≡ (no_content, calls, n')
      → Put req now n.store n'.store
  unfolding deliver_share
  deliver_share-Put req now calls n n' run = elim (Option-cases (random_id p 8 n.source)) [
    | inl failed ↦ cc (rw (deliver_share, failed) at run)
    | inr ((chain_id, src), drawn) ↦
        let before = record n { source = src } in
        elim (Result-cases (register_new_fragment p req.pid chain_id before).0) [
          | inl (e, failed) ↦ cc (rw (deliver_share, drawn, failed) at run)
          | inr (announced, done) ↦
              subst (λ (s : Store). Put req now s n'.store)
                (register_new_fragment-same_store p req.pid chain_id before)
                (store_delivery-Put req chain_id now announced calls
                  (register_new_fragment p req.pid chain_id before).1 n'
                  (rw (deliver_share, drawn, done) at run))
        ]
  ]

  -- Let a node that holds no fragment of the group accept a delivery, whose members hold text and whose
  -- ciphertext opens under its key. Then the node answers the group's token, and no other, with the
  -- share, and says that it is there.
  pub fetch_share-deliver_share :
      (req : DeliverShareRequest) (content token : Bytes) (now : ℕ) (calls : List Call)
      → (n n' : Node p.entropy.Source) → AreText p.codec req.members
      → first_row (of_group req.group_id) n.store.fragments ≡ none
      → decrypt p.gcm req.key req.ciphertext (content_context req.group_id req.pid) ≡ ok content
      → deliver_share p (some req) now n ≡ (no_content, calls, n')
      → (fetch_share p req.group_id token n'.store ≡ (
          if bytes_eq token req.group_token
          then share (record { share = content; epoch = req.epoch })
          else forbidden))
        × (group_status p req.group_id token n'.store ≡ (
            if bytes_eq token req.group_token
            then presence (record { present = true; epoch = req.epoch })
            else forbidden))
  unfolding fetch_share group_status
  fetch_share-deliver_share req content token now calls n n' text new opened run =
      let (chain_id, src, src', put) = deliver_share-Put req now calls n n' run in
      let found : get_fragment_by_group p.gcm p.codec req.group_id n'.store
          ≡ ok (record (fragment_of_request req chain_id) { updated_at = now }) =
        get_fragment_by_group-put_fragment p.gcm p.codec p.entropy
          (fragment_of_request req chain_id) now n.store n'.store src src' text new put in
      (rw (fetch_share, found, opened), rw (group_status, found))
