-- ===== src/Client/Reconstruct.antt =====
-- client/reconstruct.go. A share that cannot be had, of this node or of another, is passed over.
pub mod Recovery
use genomedb.Base.{
  ℕ, Bool, true, false, List, [], ◌∷◌, ◌++◌, length, leb, ltb, if◌then◌else◌, Bytes, bytes_eq,
  Result, ok, err,
}
use genomedb.Crypto.Aead.{decrypt}
use genomedb.Crypto.Shamir.{Share, combine}
use genomedb.Peer.Client.{fetch_group_share}
use genomedb.Store.{get_manifest, get_fragment_by_group}
use genomedb.Store.Tables.{Manifest, Member, Store}
use genomedb.Transport.{Http, Json}
use genomedb.Client.Node.{
  Packages, NodeError, no_manifest, too_few_shares, cannot_combine, content_context,
}
use genomedb.Client.World.{
  World, Act, Action, pure, fail, ◌>>=◌, ◌>>◌, wrapped, query, exchange, then_run,
}

module _ (p : Packages) (h : Http) (json : Json) where
  -- The share that the node holds itself; `[]` in the list of shares is none.
  unfoldable pub own_share : Manifest → Store → List Share
  own_share m s = elim (get_fragment_by_group p.gcm p.codec m.group_id s) [
    | err e ↦ []
    | ok frag ↦
        elim (decrypt p.gcm frag.key frag.ciphertext (content_context frag.group_id frag.pid)) [
          | err e ↦ []
          | ok plain ↦ plain ∷ []
        ]
  ]

  -- What one member contributes: its share, or nothing.
  unfoldable pub ask_member : Manifest → Member → Action p h json (List Share)
  unfolding own_share exchange
  ask_member m member w = elim (bytes_eq member.node_id w.node.node_id) [
    | true ↦ (ok (own_share m w.node.store), w)
    | false ↦
        (exchange p h json (fetch_group_share h json member.endpoint m.group_id m.group_token)
            >>= λ r. elim r [ err e ↦ pure [] | ok answer ↦ pure (answer.share ∷ []) ])
          w
  ]

  -- The loop over the members, which ends when there are enough shares.
  unfoldable pub gather_shares : Manifest → List Member → List Share → Action p h json (List Share)
  unfolding ask_member
  gather_shares m [] shares w = (ok shares, w)
  gather_shares m (member ∷ members) shares w = elim (leb m.threshold (length shares)) [
    | true ↦ (ok shares, w)
    | false ↦ elim (ask_member m member w).0 [
      | err e ↦ (err e, (ask_member m member w).1)
      | ok more ↦ gather_shares m members (shares ++ more) (ask_member m member w).1
    ]
  ]

  unfoldable pub reconstruct : Bytes → Action p h json Bytes
  unfolding gather_shares
  reconstruct secret_name = do
    m ← query no_manifest (get_manifest p.gcm p.codec secret_name)
    shares ← gather_shares m m.members []
    if ltb (length shares) m.threshold
        then fail too_few_shares
        else wrapped cannot_combine (combine shares)
