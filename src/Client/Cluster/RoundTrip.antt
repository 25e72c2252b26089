-- ===== src/Client/Cluster/RoundTrip.antt =====
-- Split of client/split.go, then Reconstruct of client/reconstruct.go, with client/peerserver.go on
-- the other nodes.
use mathlib.Core.List.{Memᴰ}
use genomedb.Base.{
  Bool, suc, ◌≢◌, ◌≤◌, ◌≡◌, refl, sym, ap, ◌∙◌, subst, true, false, none, List, [], ◌∷◌, length,
  Bytes, IsBytes, ascii, ok, All, All-of_mem, Distinct, arith,
}
use genomedb.Crypto.Shamir.{Share, split}
use genomedb.Crypto.Shamir.Distinct.{split-Distinct}
use genomedb.Client.Split.Steps.{Delivered}
use genomedb.Store.{put_manifest, get_manifest}
use genomedb.Store.Groups.{of_group}
use genomedb.Store.Manifests.{first_put, get_manifest-put_manifest}
use genomedb.Store.Tables.{AreText, Manifest, Member, Store, first_row}
use genomedb.Transport.{Http, Json}
use genomedb.Client.Cluster.{Cluster, IsName, StandAll, IsNewAt}
use genomedb.Client.Cluster.Deliveries.{AreApart, Delivered-HoldAll, IsNewAt-same}
use genomedb.Client.Cluster.Local.{SameStores, keep_share-Leaves, share_out-Leaves}
use genomedb.Client.Node.{Packages}
use genomedb.Client.Reconstruct.{reconstruct}
use genomedb.Client.Reconstruct.Recovery.{Gives, all_held, reconstruct_lem}
use genomedb.Client.Split.{Group, keep_share, share_out}
use genomedb.Client.Split.Own.{Kept}
use genomedb.Client.Split.Success.{HereFirst, manifest_of, share_out-SharedOut}
use genomedb.Client.World.{World}
use genomedb.Client.Cluster.Shares.{gives_lem, all_held-held_by, own_share_lem}
use genomedb.Client.Cluster.Live.{
  HoldLive, HoldAll-HoldLive, count_up, length-live, length-StandAll, live, live-All, live-Distinct,
  held_by,
}

module _ {p : Packages} {h : Http} {json : Json} (c : Cluster p h json) where
  -- The other members listen on addresses of their own, and hold no fragment of the group.
  abbrev pub OthersReady : Group → h.State → List Member → Type 0
  OthersReady g net [] = ⊥
  OthersReady g net (own ∷ others) =
      AreApart c others × All (λ (m : Member). IsNewAt c g.group_id net m.endpoint) others

  -- Later, as many of the others are up as reach the threshold together with this node.
  abbrev pub OthersStand : Group → h.State → h.State → List Member → List Bool → Type 0
  OthersStand g net later [] ups = ⊥
  OthersStand g net later (own ∷ others) ups =
      StandAll c net later others ups × (g.threshold ≤ suc (count_up ups))

  reconstruct-shared_out :
      (secret_name secret : Bytes) (g : Group) (own : Member) (others : List Member)
      → (share : Share) (rest : List Share) (src src' : p.entropy.Source)
      → (w v : World p.entropy.Source h.State) (s : Store) (later : h.State) (ups : List Bool)
      → IsBytes secret
      → split p.entropy secret g.total g.threshold src ≡ ok (share ∷ rest, src')
      → length g.members ≡ g.total
      → IsName g.group_id
      → IsName g.group_token
      → c.IsOrchestrator w.node.orchestrator_url
      → AreText p.codec g.members
      → g.members ≡ own ∷ others
      → HereFirst p h json w.node.node_id (own ∷ others)
      → OthersReady g w.net (own ∷ others)
      → first_row (of_group g.group_id) w.node.store.fragments ≡ none
      → Kept p h json g own share w s
      → Delivered p h json g others rest (keep_share p h json g own share w).1.net v.net
      → put_manifest p.gcm p.codec (manifest_of p h json secret_name (ascii "secret") g) w.now s
        ≡ ok v.node.store
      → v.node.node_id ≡ w.node.node_id
      → OthersStand g v.net later (own ∷ others) ups
      → (net : h.State) × (reconstruct p h json secret_name (record v { net = later })
          ≡ (ok secret, record v { net = net }))
  unfolding SameStores
  reconstruct-shared_out secret_name secret g own others share rest src src' w v s later ups bytes
        run count id token to text members here (apart, new) here_new kept sent stored name
        (stand, enough) =
      let m = manifest_of p h json secret_name (ascii "secret") g in
      let m' : Manifest = record m { created_at = first_put p.gcm p.codec secret_name w.now s } in
      let known : get_manifest p.gcm p.codec secret_name v.node.store ≡ ok m' =
        get_manifest-put_manifest p.gcm p.codec m w.now s v.node.store text stored in
      let quiet = (keep_share-Leaves c false g own share w).2 refl to in
      let there : World p.entropy.Source h.State = (keep_share p h json g own share w).1 in
      let new' =
        IsNewAt-same c g.group_id w.net there.net others
          (All-of_mem others λ k mem. quiet k.endpoint) new in
      let held_all =
        Delivered-HoldAll c g others rest there.net v.net id token text
          (subst (λ (ms : List Member). AreText p.codec ms) members text).1 apart new' sent in
      let hold =
        HoldAll-HoldLive c g.group_id g.group_token v.net later others rest ups stand held_all in
      let mine = own_share_lem c m' m g own share s v.node.store w refl text here_new kept stored in
      let here' = subst (λ (b : Bytes). HereFirst p h json b (own ∷ others)) (sym name) here in
      let gives =
        gives_lem c m' own others share rest ups (record v { net = later }) mine here' apart id
          token in
      let (distinct, len) =
        split-Distinct p.entropy secret g.total g.threshold src src' (share ∷ rest) run in
      let held = held_by v.node.node_id share others rest ups in
      let same_length : length others ≡ length rest =
        omega (arith, count, len, ap (λ (t : List Member). length t) members) in
      let count_live : length (live rest ups) ≡ count_up ups =
        length-live rest ups (sym same_length ∙ length-StandAll c v.net later others ups stand) in
      let all : all_held held g.members ≡ share ∷ live rest ups =
        ap (all_held held) members
        ∙ all_held-held_by c v.node.node_id own share others rest ups here' apart same_length
            (length-StandAll c v.net later others ups stand) in
      reconstruct_lem p h json (λ net. HoldLive c g.group_id g.group_token net others rest ups)
        secret_name secret m' g.total src src' (share ∷ rest) held (record v { net = later }) bytes
        run known hold
        (subst
          (λ (ms : List Member).
            All
              (Gives p h json (λ net. HoldLive c g.group_id g.group_token net others rest ups) m'
                held (record v { net = later }))
              ms)
          (sym members) gives)
        (subst (λ (t : List Share). All (λ z. Memᴰ z (share ∷ rest)) t) (sym all)
          (
            Memᴰ.head refl,
            live-All (λ z. Memᴰ z (share ∷ rest)) rest ups (All-of_mem rest λ z mem. Memᴰ.tail mem),
          ))
        (subst (λ (t : List Share). Distinct t) (sym all)
          (live-All (λ z. z ≢ share) rest ups distinct.0, live-Distinct rest ups distinct.1))
        (subst (λ (t : List Share). g.threshold ≤ length t) (sym all)
          (omega (arith, enough, count_live)))

  -- Let the shares of a split of bytes, one for each member of a group, be shared out with success.
  -- Let the group's first member be this node, and the others be other nodes with addresses of their
  -- own; let the group's id and token be of letters and digits and the strings of the members text,
  -- let announcements go to the orchestrator, and let no node hold a fragment of the group before.
  -- When later some of the others are down, those that are up hold what they held, and they and this
  -- node are at least as many as the threshold, Reconstruct gives the secret, and changes nothing but
  -- the network.
  pub reconstruct-share_out :
      (secret_name secret : Bytes) (g : Group) (out : List Share) (src src' : p.entropy.Source)
      → (w v : World p.entropy.Source h.State) (later : h.State) (ups : List Bool) → IsBytes secret
      → split p.entropy secret g.total g.threshold src ≡ ok (out, src')
      → length g.members ≡ g.total
      → IsName g.group_id
      → IsName g.group_token
      → c.IsOrchestrator w.node.orchestrator_url
      → AreText p.codec g.members
      → HereFirst p h json w.node.node_id g.members
      → OthersReady g w.net g.members
      → first_row (of_group g.group_id) w.node.store.fragments ≡ none
      → share_out p h json secret_name g out w ≡ (ok tt, v)
      → OthersStand g v.net later g.members ups
      → (net : h.State) × (reconstruct p h json secret_name (record v { net = later })
          ≡ (ok secret, record v { net = net }))
  unfolding SameStores
  reconstruct-share_out secret_name secret g out src src' w v later ups bytes run count id token to
        text here ready here_new shared stand =
      let (own, others, share, rest, s, members, shares, kept, sent, stored) =
        share_out-SharedOut p h json secret_name g out w v shared in
      let name : v.node.node_id ≡ w.node.node_id =
        ap (λ r. r.1.node.node_id) (sym shared)
        ∙ (share_out-Leaves c true refl secret_name g out w).0 in
      reconstruct-shared_out secret_name secret g own others share rest src src' w v s later ups
        bytes
        (subst (λ (t : List Share). split p.entropy secret g.total g.threshold src ≡ ok (t, src'))
          shares run)
        count id token to text members
        (subst (λ (ms : List Member). HereFirst p h json w.node.node_id ms) members here)
        (subst (λ (ms : List Member). OthersReady g w.net ms) members ready) here_new kept sent
        stored name (subst (λ (ms : List Member). OthersStand g v.net later ms ups) members stand)
