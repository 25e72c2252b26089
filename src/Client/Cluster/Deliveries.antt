-- ===== src/Client/Cluster/Deliveries.antt =====
-- The deliveries of Split in client/split.go, as the nodes of a cluster take them.
use genomedb.Base.{
  ◌≡◌, ◌≢◌, refl, ap, sym, ◌∙◌, if◌then◌else◌, List, [], ◌∷◌, All, Bytes, bytes_eq_refl, ok,
}
use genomedb.Crypto.Shamir.{Share}
use genomedb.Peer.Client.{deliver_share_to}
use genomedb.Store.Groups.{of_group}
use genomedb.Store.Tables.{AreText, Member, Store, first_row}
use genomedb.Transport.{Http, Json}
use genomedb.Client.Cluster.{Cluster, IsName, store_at, IsNewAt, Holds, HoldAll}
use genomedb.Client.Node.{Packages}
use genomedb.Client.PeerServer.{fetch_share, share, forbidden}
use genomedb.Client.PeerServer.Delivery.{fetch_share-deliver_share}
use genomedb.Client.Split.{Group}
use genomedb.Client.Split.Steps.{Delivered, delivery, next_delivered, all_delivered}

module _ {p : Packages} {h : Http} {json : Json} (c : Cluster p h json) where
  -- The holders listen on addresses, which differ.
  abbrev pub AreApart : List Member → Type 0
  AreApart [] = Unit
  AreApart (m ∷ ms) =
      c.IsAddress m.endpoint × All (λ (k : Member). k.endpoint ≢ m.endpoint) ms × AreApart ms

  pub Holds-same :
      (group_id token address : Bytes) (content : Share) (net net' : h.State)
      → store_at c address net' ≡ store_at c address net
      → Holds c group_id token net address content
      → Holds c group_id token net' address content
  Holds-same group_id token address content net net' same holds =
      ap (fetch_share p group_id token) same ∙ holds

  pub IsNewAt-same :
      (group_id : Bytes) (net net' : h.State) (ms : List Member)
      → All (λ (m : Member). store_at c m.endpoint net' ≡ store_at c m.endpoint net) ms
      → All (λ (m : Member). IsNewAt c group_id net m.endpoint) ms
      → All (λ (m : Member). IsNewAt c group_id net' m.endpoint) ms
  IsNewAt-same group_id net net' [] same new = tt
  IsNewAt-same group_id net net' (m ∷ ms) same new = (
    ap (λ (s : Store). first_row (of_group group_id) s.fragments) same.0 ∙ new.0,
    IsNewAt-same group_id net net' ms same.1 new.1,
  )

  module _ (g : Group) where
    -- A delivery that was accepted changed the store of one node.
    elsewhere :
        (holder : Member) (key ciphertext : Bytes) (net net' : h.State) (other : Bytes)
        → c.IsAddress holder.endpoint
        → other ≢ holder.endpoint
        → deliver_share_to h json holder.endpoint (delivery p h json g holder key ciphertext) net
          ≡ (ok tt, net')
        → store_at c other net' ≡ store_at c other net
    elsewhere holder key ciphertext net net' other address differs done =
        ap (λ r. store_at c other r.1) (sym done)
        ∙ c.delivers_there holder.endpoint other (delivery p h json g holder key ciphertext) net
            address differs

    others_same :
        (holder : Member) (key ciphertext : Bytes) (net net' : h.State) (ms : List Member)
        → c.IsAddress holder.endpoint
        → All (λ (k : Member). k.endpoint ≢ holder.endpoint) ms
        → deliver_share_to h json holder.endpoint (delivery p h json g holder key ciphertext) net
          ≡ (ok tt, net')
        → All (λ (m : Member). store_at c m.endpoint net' ≡ store_at c m.endpoint net) ms
    others_same holder key ciphertext net net' [] address differ done = tt
    others_same holder key ciphertext net net' (m ∷ ms) address differ done = (
      elsewhere holder key ciphertext net net' m.endpoint address differ.0 done,
      others_same holder key ciphertext net net' ms address differ.1 done,
    )

    -- The deliveries to others leave a node's store as it is.
    Delivered-elsewhere :
        (holders : List Member) (shares : List Share) (net net' : h.State) (other : Bytes)
        → AreApart holders
        → All (λ (k : Member). k.endpoint ≢ other) holders
        → Delivered p h json g holders shares net net'
        → store_at c other net' ≡ store_at c other net
    Delivered-elsewhere [] shares net net' other apart differ all_delivered = refl
    Delivered-elsewhere (m ∷ ms) [] net net' other apart differ sent = elim sent [ ]
    Delivered-elsewhere (m ∷ ms) (s ∷ shares) net net' other apart differ
          (next_delivered {net1 = net1} key ciphertext opened accepted later) =
        Delivered-elsewhere ms shares net1 net' other apart.2 differ.1 later
        ∙ elsewhere m key ciphertext net net1 other apart.0 (λ e. differ.0 (sym e)) accepted

    -- When every delivery is accepted by nodes that held no fragment of the group, each holds its
    -- share.
    pub Delivered-HoldAll :
        (holders : List Member) (shares : List Share) (net net' : h.State)
        → IsName g.group_id
        → IsName g.group_token
        → AreText p.codec g.members
        → AreText p.codec holders
        → AreApart holders
        → All (λ (m : Member). IsNewAt c g.group_id net m.endpoint) holders
        → Delivered p h json g holders shares net net'
        → HoldAll c g.group_id g.group_token net' holders shares
    Delivered-HoldAll [] shares net net' id token text texts apart new all_delivered = tt
    Delivered-HoldAll (m ∷ ms) [] net net' id token text texts apart new sent = elim sent [ ]
    Delivered-HoldAll (m ∷ ms) (s ∷ shares) net net' id token text texts apart new
          (next_delivered {net1 = net1} key ciphertext opened accepted later) =
        let (now, calls, taken) =
          c.delivers m.endpoint (delivery p h json g m key ciphertext) net net1 apart.0 id token
            texts.0.0 text accepted in
        let (fetched, present) =
          fetch_share-deliver_share p (delivery p h json g m key ciphertext) s g.group_token now
            calls (c.node_at m.endpoint net) (c.node_at m.endpoint net1) text new.0 opened taken in
        let held : Holds c g.group_id g.group_token net1 m.endpoint s =
          fetched
          ∙ ap (λ b. if b then share (record { share = s; epoch = 0 }) else forbidden)
              (bytes_eq_refl g.group_token) in
        (
          Holds-same g.group_id g.group_token m.endpoint s net1 net'
              (Delivered-elsewhere ms shares net1 net' m.endpoint apart.2 apart.1 later) held,
          Delivered-HoldAll ms shares net1 net' id token text texts.1 apart.2
              (IsNewAt-same g.group_id net net1 ms
                (others_same m key ciphertext net net1 ms apart.0 apart.1 accepted) new.1)
              later,
        )
