-- ===== src/Client/Cluster/Shares.antt =====
-- What the members of a group give when Reconstruct of client/reconstruct.go asks them for the shares
-- that Split of client/split.go gave them.
use genomedb.Base.{
  Bool, ◌≡◌, sym, ap, ap₂, ◌∙◌, true, false, none, List, [], ◌∷◌, ◌++◌, length, if◌then◌else◌,
  Bytes, bytes_eq, bytes_eq_refl, ok, All, All-of_mem, All-mem, All-weaken,
}
use genomedb.Crypto.Shamir.{Share}
use genomedb.Store.{get_fragment_by_group, put_manifest}
use genomedb.Store.Groups.{of_group, get_fragment_by_group-put_fragment}
use genomedb.Store.Manifests.{put_manifest_lem}
use genomedb.Store.Tables.{AreText, Manifest, Member, Store, first_row}
use genomedb.Transport.{Http, Json}
use genomedb.Client.Cluster.{Cluster, IsName}
use genomedb.Client.Cluster.Deliveries.{AreApart}
use genomedb.Client.Node.{Packages}
use genomedb.Client.Reconstruct.{own_share}
use genomedb.Client.Reconstruct.Recovery.{Gives, all_held}
use genomedb.Client.Split.{Group}
use genomedb.Client.Split.Own.{Kept, own_fragment}
use genomedb.Client.Split.Success.{HereFirst}
use genomedb.Client.World.{World}
use genomedb.Client.Cluster.Live.{
  address_of_member, HoldLive, HoldLive-asked, HoldLive-given, all_held-given, all_held-same, given,
  held_by, live,
}

true-ne-false : true ≡ false → ⊥
true-ne-false e = cc

module _ {p : Packages} {h : Http} {json : Json} (c : Cluster p h json) where
  pub gives_lem :
      (m : Manifest) (own : Member) (others : List Member) (share : Share) (rest : List Share)
      → (ups : List Bool) (v : World p.entropy.Source h.State)
      → own_share p h json m v.node.store ≡ share ∷ []
      → HereFirst p h json v.node.node_id (own ∷ others)
      → AreApart c others
      → IsName m.group_id
      → IsName m.group_token
      → All
          (Gives p h json
            (λ net. HoldLive c m.group_id m.group_token net others rest ups)
            m
            (held_by v.node.node_id share others rest ups)
            v)
          (own ∷ others)
  gives_lem m own others share rest ups v mine here apart id secret =
      let is_here : bytes_eq own.node_id v.node.node_id ≡ true =
        ap (λ b. bytes_eq b v.node.node_id) here.0 ∙ bytes_eq_refl v.node.node_id in
      (
        (λ same. mine ∙ rw (is_here), λ other. absurd (true-ne-false (sym is_here ∙ other))),
        All-of_mem others λ k mem.
            let elsewhere =
              All-mem (λ (z : Member). bytes_eq z.node_id v.node.node_id ≡ false) here.1 mem in
            (
              λ same. absurd (true-ne-false (sym same ∙ elsewhere)),
              λ other net hold. (
                HoldLive-given c m.group_id m.group_token net others rest ups k id secret apart hold
                      mem
                    ∙ rw (elsewhere),
                HoldLive-asked c k.endpoint m.group_id m.group_token net others rest ups
                    (address_of_member c others k apart mem) hold,
              ),
            ),
      )

  pub all_held-held_by :
      (node_id : Bytes) (own : Member) (share : Share) (others : List Member) (rest : List Share)
      → (ups : List Bool) → HereFirst p h json node_id (own ∷ others)
      → AreApart c others
      → length others ≡ length rest
      → length others ≡ length ups
      → all_held (held_by node_id share others rest ups) (own ∷ others) ≡ share ∷ live rest ups
  all_held-held_by node_id own share others rest ups here apart len len' =
      let is_here : bytes_eq own.node_id node_id ≡ true =
        ap (λ b. bytes_eq b node_id) here.0 ∙ bytes_eq_refl node_id in
      ap₂ (λ (a b : List Share). a ++ b)
        (ap (λ b. if b then share ∷ [] else given others rest ups own) is_here)
        (all_held-same (held_by node_id share others rest ups) (given others rest ups) others (
            All-weaken others
              (λ m elsewhere. ap (λ b. if b then share ∷ [] else given others rest ups m) elsewhere)
              here.1)
          ∙ all_held-given c others rest ups apart len len')

  -- The share that stayed here can be read from the store when the manifest is in it, too.
  pub own_share_lem :
      (m m' : Manifest) (g : Group) (own : Member) (share : Share) (s s' : Store)
      → (w : World p.entropy.Source h.State) → m.group_id ≡ g.group_id
      → AreText p.codec g.members
      → first_row (of_group g.group_id) w.node.store.fragments ≡ none
      → Kept p h json g own share w s
      → put_manifest p.gcm p.codec m' w.now s ≡ ok s'
      → own_share p h json m s' ≡ share ∷ []
  unfolding own_share get_fragment_by_group
  own_share_lem m m' g own share s s' w group text new
        (chain_id, key, ciphertext, src, src', opened, put) stored =
      let (is_open, there) = put_manifest_lem p.gcm p.codec m' w.now s s' stored in
      let found : get_fragment_by_group p.gcm p.codec g.group_id s
          ≡ ok (record (own_fragment p h json g own chain_id key ciphertext) {
            updated_at = w.now;
          }) =
        get_fragment_by_group-put_fragment p.gcm p.codec p.entropy
          (own_fragment p h json g own chain_id key ciphertext) w.now w.node.store s src src' text
          new put in
      let found' : get_fragment_by_group p.gcm p.codec m.group_id s'
          ≡ ok (record (own_fragment p h json g own chain_id key ciphertext) {
            updated_at = w.now;
          }) =
        ap₂ (λ b t. get_fragment_by_group p.gcm p.codec b t) group there ∙ found in
      rw (own_share, found', opened)
