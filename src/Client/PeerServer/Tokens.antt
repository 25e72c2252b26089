-- ===== src/Client/PeerServer/Tokens.antt =====
-- The group token in the handlers of client/peerserver.go.
use genomedb.Base.{
  ℕ, ◌≡◌, refl, ◌∙◌, some, Bytes, bytes_eq, bytes_eq_iff, ok, Result-cases, Bool-cases, inl, inr,
}
use genomedb.Crypto.Aead.{decrypt}
use genomedb.Peer.{MutationNoticeRequest, ShareResponse}
use genomedb.Store.{get_fragment_by_group}
use genomedb.Store.Tables.{Store, Fragment}
use genomedb.Client.Node.{Packages, content_context}
use genomedb.Client.PeerServer.{share, fetch_share, mutation_notice}

module _ (p : Packages) where
  -- A reply to a fetch that carries a share says that the node holds a fragment of the group, that
  -- the caller's token is the group's, and that the share is what the fragment's ciphertext opens
  -- to; a caller with any other token gets no share.
  pub fetch_share_lem :
      (group_id token : Bytes) (s : Store) (r : ShareResponse)
      → fetch_share p group_id token s ≡ share r
      → (frag : Fragment) × (get_fragment_by_group p.gcm p.codec group_id s ≡ ok frag)
        × (token ≡ frag.group_token)
        × (decrypt p.gcm frag.key frag.ciphertext (content_context frag.group_id frag.pid)
            ≡ ok r.share)
        × (r.epoch ≡ frag.epoch)
  unfolding fetch_share
  fetch_share_lem group_id token s r h =
      elim (Result-cases (get_fragment_by_group p.gcm p.codec group_id s)) [
        | inl (e, unknown) ↦ cc (rw (fetch_share, unknown) at h)
        | inr (frag, found) ↦ elim (Bool-cases (bytes_eq token frag.group_token)) [
          | inr other ↦ cc (rw (fetch_share, found, other) at h)
          | inl same ↦
              elim (Result-cases
                (decrypt p.gcm frag.key frag.ciphertext (content_context frag.group_id frag.pid))) [
                  | inl (e, failed) ↦ cc (rw (fetch_share, found, same, failed) at h)
                  | inr (content, opened) ↦
                      let answered : share (record { share = content; epoch = frag.epoch })
                          ≡ share r =
                        rw (fetch_share, found, same, opened) at h in
                      (
                        frag,
                        found,
                        (bytes_eq_iff token frag.group_token).0 same,
                        opened ∙ cc answered,
                        cc answered,
                      )
                ]
        ]
      ]

  -- The handler of mutation notices does not look at the group's token: with any other token in
  -- the request it gives the same reply and leaves the same store.
  pub mutation_notice-any_token :
      (req : MutationNoticeRequest) (token : Bytes) (now : ℕ) (s : Store)
      → mutation_notice p (some (record req { group_token = token })) now s
        ≡ mutation_notice p (some req) now s
  unfolding mutation_notice
  mutation_notice-any_token req token now s = refl
