-- ===== src/Client/Reconstruct/Recovery.antt =====
-- Reconstruct of client/reconstruct.go gives the secret back, when enough holders answer.
use mathlib.Core.List.{Memᴰ}
use genomedb.Base.{
  ℕ, ◌≤◌, ◌≡◌, ◌≢◌, refl, sym, ap, ◌∙◌, subst, true, false, List, [], ◌∷◌, ◌++◌, append-nil,
  append_assoc, length, leb, ltb, inl, inr, Bool-cases, Result-cases, Bytes, IsBytes, bytes_eq,
  Result, ok, err, All, All-left, Distinct, arith,
}
use genomedb.Crypto.Shamir.{Share, split, combine}
use genomedb.Crypto.Shamir.Recovery.{combine-split}
use genomedb.Peer.{ShareResponse}
use genomedb.Peer.Client.{fetch_group_share}
use genomedb.Store.{get_manifest}
use genomedb.Store.Tables.{Manifest, Member}
use genomedb.Transport.{Http, Json, HttpError}
use genomedb.Client.Node.{Packages}
use genomedb.Client.World.{World, exchange, ◌>>=◌, pure, query, wrapped}
use genomedb.Client.Reconstruct.{own_share, ask_member, gather_shares, reconstruct}

-- The shares that an answer brings.
abbrev pub shares_in : Result HttpError ShareResponse → List Share
shares_in (err e) = []
shares_in (ok answer) = answer.share ∷ []

abbrev pub all_held : (Member → List Share) → List Member → List Share
all_held held [] = []
all_held held (member ∷ members) = held member ++ all_held held members

Distinct-prefix : {A : Type 0} (xs ys : List A) → Distinct (xs ++ ys) → Distinct xs
Distinct-prefix [] ys h = tt
Distinct-prefix (x ∷ xs) ys h = (All-left (λ z. z ≢ x) xs ys h.0, Distinct-prefix xs ys h.1)

module _ (p : Packages) (h : Http) (json : Json) (Up : h.State → Type 0) where
  -- What a holder gives, for as long as the network is as `Up` says: this node from its store, the
  -- others over the network.
  abbrev pub Gives :
      Manifest → (Member → List Share) → World p.entropy.Source h.State → Member → Type 0
  Gives m held w member =
      (bytes_eq member.node_id w.node.node_id ≡ true
        → own_share p h json m w.node.store ≡ held member)
      × (bytes_eq member.node_id w.node.node_id ≡ false
          → (net : h.State) → Up net
          → (shares_in (fetch_group_share h json member.endpoint m.group_id m.group_token net).0
              ≡ held member)
            × Up (fetch_group_share h json member.endpoint m.group_id m.group_token net).1)

  ask_member_lem :
      (m : Manifest) (held : Member → List Share) (member : Member)
      → (w : World p.entropy.Source h.State) → Up w.net
      → Gives m held w member
      → (net : h.State) × (ask_member p h json m member w
          ≡ (ok (held member), record w { net = net }))
        × Up net
  unfolding ask_member exchange ◌>>=◌ pure
  ask_member_lem m held member w up gives =
      elim (Bool-cases (bytes_eq member.node_id w.node.node_id)) [
        | inl same ↦ (w.net, rw (ask_member, same, gives.0 same), up)
        | inr other ↦
            let (given, up') = gives.1 other w.net up in
            (
              (fetch_group_share h json member.endpoint m.group_id m.group_token w.net).1,
              elim (Result-cases
                  (fetch_group_share h json member.endpoint m.group_id m.group_token w.net).0) [
                    | inl (e, failed) ↦ rw (ask_member, other, exchange, sym given, failed)
                    | inr (answer, done) ↦ rw (ask_member, other, exchange, sym given, done)
                  ],
              up',
            )
      ]

  gather_shares_lem :
      (m : Manifest) (held : Member → List Share) (members : List Member) (shares : List Share)
      → (w : World p.entropy.Source h.State) → Up w.net
      → All (Gives m held w) members
      → m.threshold ≤ length (shares ++ all_held held members)
      → (picked rest : List Share) × (net : h.State) × (gather_shares p h json m members shares w
          ≡ (ok picked, record w { net = net }))
        × (picked ++ rest ≡ shares ++ all_held held members)
        × (m.threshold ≤ length picked)
  unfolding gather_shares
  gather_shares_lem m held [] shares w up gives enough = (
    shares,
    [],
    w.net,
    refl,
    refl,
    omega (arith, ap (λ (t : List Share). length t) (append-nil shares)),
  )
  gather_shares_lem m held (member ∷ members) shares w up gives enough =
      elim (Bool-cases (leb m.threshold (length shares))) [
        | inl full ↦ (
          shares,
          all_held held (member ∷ members),
          w.net,
          rw (gather_shares, full),
          refl,
          ground arith,
        )
        | inr short ↦
            let (net, asked, up') = ask_member_lem m held member w up gives.0 in
            let assoc = append_assoc shares (held member) (all_held held members) in
            let (picked, rest, net', run, part, least) =
              gather_shares_lem m held members (shares ++ held member) (record w { net = net }) up'
                gives.1 (subst (λ (t : List Share). m.threshold ≤ length t) (sym assoc) enough) in
            (picked, rest, net', rw (gather_shares, short, asked, asked, run), part ∙ assoc, least)
      ]

  -- Suppose that the manifest of the secret can be read, that a split of bytes with the manifest's
  -- threshold succeeded, that the holders give distinct shares of that split, at least as many as
  -- the threshold, and that asking one holder does not change what the others give. Then Reconstruct
  -- gives the secret, and the node is as before.
  pub reconstruct_lem :
      (secret_name secret : Bytes) (m : Manifest) (total : ℕ) (src src' : p.entropy.Source)
      → (out : List Share) (held : Member → List Share) → (w : World p.entropy.Source h.State)
      → IsBytes secret
      → split p.entropy secret total m.threshold src ≡ ok (out, src')
      → get_manifest p.gcm p.codec secret_name w.node.store ≡ ok m
      → Up w.net
      → All (Gives m held w) m.members
      → All (λ s. Memᴰ s out) (all_held held m.members)
      → Distinct (all_held held m.members)
      → m.threshold ≤ length (all_held held m.members)
      → (net : h.State) × (reconstruct p h json secret_name w ≡ (ok secret, record w { net = net }))
  unfolding reconstruct ◌>>=◌ query wrapped
  reconstruct_lem secret_name secret m total src src' out held w bytes run known up gives from
        distinct enough =
      let (picked, rest, net, gathered, part, least) =
        gather_shares_lem m held m.members [] w up gives enough in
      let combined : combine picked ≡ ok secret =
        combine-split p.entropy secret total m.threshold src src' out picked bytes run
          (All-left (λ s. Memᴰ s out) picked rest
            (subst (λ (t : List Share). All (λ s. Memᴰ s out) t) (sym part) from))
          (Distinct-prefix picked rest (subst (λ (t : List Share). Distinct t) (sym part) distinct))
          least in
      let no_less : ltb (length picked) m.threshold ≡ false = ground arith in
      (net, rw (reconstruct, known, gathered, no_less, combined))
