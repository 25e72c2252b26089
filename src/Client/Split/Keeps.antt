-- ===== src/Client/Split/Keeps.antt =====
-- The steps of client/split.go and client/backup.go that leave the table of manifests as it was.
use genomedb.Base.{
  ◌≡◌, refl, ap, Bool, true, false, bytes_eq, ◌==◌, ◌+◌, ◌++◌, length, if◌then◌else◌, Result-cases,
  arith, ◌∙◌, ℕ, List, [], ◌∷◌, Bytes, Result, ok, err, Bool-cases, inl, inr,
}
use genomedb.Base.Assoc.{Assoc}
use genomedb.Store.Tables.{Fragment, Store, Member, ManifestRow}
use genomedb.Crypto.Shamir.{Share}
use genomedb.Protocol.{NodeInfo}
use genomedb.Peer.Client.{deliver_share_to, ping}
use genomedb.Protocol.Client.{list_nodes}
use genomedb.Transport.{Http, Json, Exchange}
use genomedb.Store.{put_fragment}
use genomedb.Client.Node.{Packages, Node, NodeError, Call, announce, ack, notify, immune_alert}
use genomedb.Client.Registration.{register_new_fragment-same_store}
use genomedb.Client.World.{
  World, Action, exchange, random, random_name, place, place_all, ◌>>=◌, pure, fail, wrapped,
  on_node,
}
use genomedb.Client.World.Rules.{Within, Within-bind}
use genomedb.Client.Split.{
  Group, ping_nodes, reachable_peers, name_holders, split_shares, seal_share, hold_fragment,
  register_fragment, keep_share, hand_over, hand_over_all, keep_and_hand_over,
}

module _ (p : Packages) (h : Http) (json : Json) where
  abbrev pub manifests_of : World p.entropy.Source h.State → Assoc ManifestRow
  manifests_of w = w.node.store.manifests

  unfoldable pub SameManifests :
      World p.entropy.Source h.State → World p.entropy.Source h.State → Type 0
  SameManifests w w' = manifests_of w' ≡ manifests_of w

  pub SameManifests-trans :
      (u v w : World p.entropy.Source h.State)
      → SameManifests u v
      → SameManifests v w
      → SameManifests u w
  unfolding SameManifests
  SameManifests-trans u v w one two = two ∙ one

  abbrev pub Keeps : {A : Type 0} → Action p h json A → Type 0
  Keeps m = Within SameManifests SameManifests-trans m

  abbrev pub Then :
      {A C : Type 0} (m : Action p h json A) (next : A → Action p h json C)
      → Keeps m
      → ((a : A) → Keeps (next a))
      → Keeps (m >>= next)
  Then m next = Within-bind SameManifests SameManifests-trans m next

  pub random-Keeps : (n : ℕ) → Keeps (random p h json n)
  unfolding random SameManifests
  random-Keeps n w = ground arith

  pub exchange-Keeps : {A : Type 0} (m : Exchange h A) → Keeps (exchange p h json m)
  unfolding exchange SameManifests
  exchange-Keeps m w = refl

  pub wrapped-Keeps :
      {E A : Type 0} (wrap : E → NodeError) (r : Result E A) → Keeps (wrapped wrap r)
  unfolding wrapped SameManifests
  wrapped-Keeps wrap (ok a) w = refl
  wrapped-Keeps wrap (err e) w = refl

  pub pure-Keeps : {A : Type 0} (a : A) → Keeps (pure a)
  unfolding pure SameManifests
  pure-Keeps a w = refl

  pub fail-Keeps : (A : Type 0) (e : NodeError) → Keeps {A = A} (fail e)
  unfolding fail SameManifests
  fail-Keeps A e w = refl

  pub if-Keeps :
      {A : Type 0} (b : Bool) (m m' : Action p h json A)
      → Keeps m
      → Keeps m'
      → Keeps (if b then m else m')
  if-Keeps true m m' one other = one
  if-Keeps false m m' one other = other

  pub random_name-Keeps : (n : ℕ) → Keeps (random_name p h json n)
  unfolding random_name
  random_name-Keeps n = Then _ _ (random-Keeps n) (λ b. pure-Keeps _)

  pub seal_share-Keeps : (key share aad : Bytes) → Keeps (seal_share p h json key share aad)
  unfolding seal_share SameManifests
  seal_share-Keeps key share aad w = ground arith

  pub hand_over-Keeps :
      (g : Group) (holder : Member) (share : Share) → Keeps (hand_over p h json g holder share)
  unfolding hand_over
  hand_over-Keeps g holder share = Then _ _ (random-Keeps _) λ key.
      Then _ _ (seal_share-Keeps _ _ _) λ ciphertext.
        Then _ _ (exchange-Keeps (deliver_share_to h json holder.endpoint _))
          λ sent. wrapped-Keeps _ _

  pub hand_over_all-Keeps :
      (g : Group) (holders : List Member) (shares : List Share)
      → Keeps (hand_over_all p h json g holders shares)
  unfolding hand_over_all
  hand_over_all-Keeps g [] shares = pure-Keeps tt
  hand_over_all-Keeps g (holder ∷ holders) [] = fail-Keeps _ _
  hand_over_all-Keeps g (holder ∷ holders) (share ∷ shares) =
      Then _ _ (hand_over-Keeps g holder share) λ sent. hand_over_all-Keeps g holders shares

  pub place-Keeps : (c : Call) → Keeps (place p h json c)
  unfolding place SameManifests
  place-Keeps (announce a) w = refl
  place-Keeps (ack a) w = refl
  place-Keeps (notify endpoint req) w = refl
  place-Keeps (immune_alert a) w = refl

  pub place_all-Keeps : (calls : List Call) → Keeps (place_all p h json calls)
  unfolding place_all
  place_all-Keeps [] = pure-Keeps tt
  place_all-Keeps (c ∷ calls) = Then _ _ (place-Keeps c) λ done. place_all-Keeps calls

  pub hold_fragment-Keeps : (f : Fragment) → Keeps (hold_fragment p h json f)
  unfolding hold_fragment SameManifests put_fragment
  hold_fragment-Keeps f w = ground arith

  pub on_node-Keeps :
      {A : Type 0} (operation : Node p.entropy.Source → Result NodeError A × Node p.entropy.Source)
      → ((n : Node p.entropy.Source) → (operation n).1.store ≡ n.store)
      → Keeps (on_node operation)
  unfolding on_node SameManifests
  on_node-Keeps operation same w = ap (λ (s : Store). s.manifests) (same w.node)

  pub register_fragment-Keeps :
      (pid chain_id : Bytes) → Keeps (register_fragment p h json pid chain_id)
  unfolding register_fragment
  register_fragment-Keeps pid chain_id =
      Then _ _ (on_node-Keeps _ (register_new_fragment-same_store p pid chain_id))
        λ calls. place_all-Keeps calls

  pub keep_share-Keeps :
      (g : Group) (holder : Member) (share : Share) → Keeps (keep_share p h json g holder share)
  unfolding keep_share
  keep_share-Keeps g holder share w =
      Then _ _ (random_name-Keeps _)
        (λ salt. Then _ _ (wrapped-Keeps _ _) λ key. Then _ _ (seal_share-Keeps _ _ _) λ ciphertext.
          Then _ _ (random_name-Keeps _)
            λ chain_id. Then _ _ (register_fragment-Keeps _ _) λ registered. hold_fragment-Keeps _)
        w

  pub keep_and_hand_over-Keeps :
      (g : Group) (holders : List Member) (shares : List Share)
      → Keeps (keep_and_hand_over p h json g holders shares)
  unfolding keep_and_hand_over
  keep_and_hand_over-Keeps g [] shares = fail-Keeps _ _
  keep_and_hand_over-Keeps g (own ∷ holders) [] = fail-Keeps _ _
  keep_and_hand_over-Keeps g (own ∷ holders) (share ∷ shares) =
      Then _ _ (keep_share-Keeps g own share) λ kept. hand_over_all-Keeps g holders shares

  pub name_holders-Keeps : (peers : List NodeInfo) → Keeps (name_holders p h json peers)
  unfolding name_holders
  name_holders-Keeps [] = pure-Keeps []
  name_holders-Keeps (peer ∷ peers) =
      Then _ _ (random_name-Keeps _) λ pid. Then _ _ (name_holders-Keeps peers) λ rest. pure-Keeps _

  abbrev pub after : NodeInfo → World p.entropy.Source h.State → World p.entropy.Source h.State
  after nd w = record w { net = (ping h nd.endpoint w.net).1 }

  pub same_world : (w : World p.entropy.Source h.State) → SameManifests w w
  unfolding SameManifests
  same_world w = refl

  pub ping_nodes-Keeps :
      (need : ℕ) (nodes reachable : List NodeInfo)
      → Keeps (ping_nodes p h json need nodes reachable)
  unfolding ping_nodes SameManifests
  ping_nodes-Keeps need [] reachable w = same_world w
  ping_nodes-Keeps need (nd ∷ nodes) reachable w =
      elim (Bool-cases (bytes_eq nd.node_id w.node.node_id)) [
        | inl this ↦ rw (ping_nodes, this) (ping_nodes-Keeps need nodes reachable w)
        | inr other ↦ elim (Result-cases (ping h nd.endpoint w.net).0) [
          | inl (e, failed) ↦
              rw (ping_nodes, other, failed) (ping_nodes-Keeps need nodes reachable (after nd w))
          | inr (u, done) ↦ elim (Bool-cases (length reachable + 1 == need)) [
            | inl enough ↦ rw (ping_nodes, other, done, enough) (same_world w)
            | inr short ↦
                rw (ping_nodes, other, done, short)
                  (ping_nodes-Keeps need nodes (reachable ++ nd ∷ []) (after nd w))
          ]
        ]
      ]

  pub reachable_peers-Keeps : (need : ℕ) → Keeps (reachable_peers p h json need)
  unfolding reachable_peers
  reachable_peers-Keeps need w =
      Then _ _ (exchange-Keeps (list_nodes h w.node.orchestrator_url json))
        (λ listed. Then _ _ (wrapped-Keeps _ _) λ nodes.
          Then _ _ (ping_nodes-Keeps need nodes [])
            λ reachable. if-Keeps _ _ _ (fail-Keeps _ _) (pure-Keeps _))
        w

  pub split_shares-Keeps :
      (secret : Bytes) (total threshold : ℕ) → Keeps (split_shares p h json secret total threshold)
  unfolding split_shares SameManifests
  split_shares-Keeps secret total threshold w = ground arith
