-- ===== src/Client/Cluster/Local.antt =====
-- What the steps of Split in client/split.go leave as it is: the name of this node, and, before the
-- first delivery, the stores of the other nodes.
use genomedb.Base.{
  subst, sym, ◌≡◌, refl, ap, ◌∙◌, arith, inl, inr, Bool, true, false, ℕ, List, [], ◌∷◌, Bytes,
  Result, ok, err, Result-cases,
}
use genomedb.Crypto.Shamir.{Share}
use genomedb.Peer.Client.{deliver_share_to}
use genomedb.Protocol.{RouteAnnounce}
use genomedb.Store.Tables.{Member, Fragment}
use genomedb.Transport.{Http, Json, Exchange}
use genomedb.Client.Cluster.{Cluster, store_at}
use genomedb.Client.Node.{Packages, NodeError, Call, announce, register_new_fragment}
use genomedb.Client.Registration.{
  register_new_fragment-announces, register_new_fragment-same_name, register_new_fragment-same_url,
}
use genomedb.Client.Split.{
  Group, hand_over, hand_over_all, hold_fragment, keep_and_hand_over, keep_share, record_manifest,
  register_fragment, seal_share, share_out,
}
use genomedb.Client.World.{
  World, Action, ◌>>=◌, exchange, fail, on_node, place, place_all, pure, put_store, random,
  random_name, wrapped,
}
use genomedb.Client.World.Rules.{Within, Within-bind}

-- The parameter is whether the other nodes' stores may change.
module _ {p : Packages} {h : Http} {json : Json} (c : Cluster p h json) (may : Bool) where
  abbrev Here : Type 0
  Here = World p.entropy.Source h.State

  unfoldable pub SameStores : Here → Here → Type 0
  SameStores w v =
      (v.node.node_id ≡ w.node.node_id)
      × (v.node.orchestrator_url ≡ w.node.orchestrator_url)
      × (may ≡ false
          → c.IsOrchestrator w.node.orchestrator_url
          → (address : Bytes) → store_at c address v.net ≡ store_at c address w.net)

  pub SameStores-trans : (u v w : Here) → SameStores u v → SameStores v w → SameStores u w
  unfolding SameStores
  SameStores-trans u v w one two = (
    two.0 ∙ one.0,
    two.1 ∙ one.1,
    λ no to address. two.2 no (subst c.IsOrchestrator (sym one.1) to) address ∙ one.2 no to address,
  )

  abbrev pub Leaves : {A : Type 0} → Action p h json A → Type 0
  Leaves m = Within SameStores SameStores-trans m

  abbrev After :
      {A C : Type 0} (m : Action p h json A) (next : A → Action p h json C)
      → Leaves m
      → ((a : A) → Leaves (next a))
      → Leaves (m >>= next)
  After m next = Within-bind SameStores SameStores-trans m next

  -- A step that sends nothing and leaves the node its name.
  unsent :
      (w v : Here)
      → v.node.node_id ≡ w.node.node_id
      → v.node.orchestrator_url ≡ w.node.orchestrator_url
      → v.net ≡ w.net
      → SameStores w v
  unfolding SameStores
  unsent w v name url net =
      (name, url, λ no to address. ap (λ (t : h.State). store_at c address t) net)

  pure-Leaves : {A : Type 0} (a : A) → Leaves (pure a)
  unfolding pure
  pure-Leaves a w = unsent w w refl refl refl

  fail-Leaves : (A : Type 0) (e : NodeError) → Leaves {A = A} (fail e)
  unfolding fail
  fail-Leaves A e w = unsent w w refl refl refl

  wrapped-Leaves : {E A : Type 0} (wrap : E → NodeError) (r : Result E A) → Leaves (wrapped wrap r)
  unfolding wrapped
  wrapped-Leaves wrap (ok a) w = unsent w w refl refl refl
  wrapped-Leaves wrap (err e) w = unsent w w refl refl refl

  random-Leaves : (n : ℕ) → Leaves (random p h json n)
  unfolding random
  random-Leaves n w = unsent w _ (ground arith) (ground arith) (ground arith)

  random_name-Leaves : (n : ℕ) → Leaves (random_name p h json n)
  unfolding random_name
  random_name-Leaves n = After _ _ (random-Leaves n) (λ b. pure-Leaves _)

  seal_share-Leaves : (key content aad : Bytes) → Leaves (seal_share p h json key content aad)
  unfolding seal_share
  seal_share-Leaves key content aad w = unsent w _ (ground arith) (ground arith) (ground arith)

  hold_fragment-Leaves : (f : Fragment) → Leaves (hold_fragment p h json f)
  unfolding hold_fragment
  hold_fragment-Leaves f w = unsent w _ (ground arith) (ground arith) (ground arith)

  place_announce-Leaves : (a : RouteAnnounce) → Leaves (place p h json (announce a))
  unfolding place exchange SameStores
  place_announce-Leaves a w =
      (refl, refl, λ no to address. c.announces w.node.orchestrator_url address a w.net to)

  -- The calls that registerNewFragment asks for are announcements.
  announced :
      (calls : List Call) (w : Here) (a : RouteAnnounce)
      → calls ≡ announce a ∷ []
      → SameStores w (place_all p h json calls w).1
  unfolding place_all
  announced calls w a same =
      rw (same) (After _ _ (place_announce-Leaves a) (λ done. pure-Leaves tt) w)

  register_fragment-Leaves :
      (pid chain_id : Bytes) → Leaves (register_fragment p h json pid chain_id)
  unfolding register_fragment on_node ◌>>=◌
  register_fragment-Leaves pid chain_id w =
      let n' = (register_new_fragment p pid chain_id w.node).1 in
      let w' : Here = record w { node = n' } in
      let kept =
        unsent w w' (register_new_fragment-same_name p pid chain_id w.node)
          (register_new_fragment-same_url p pid chain_id w.node) refl in
      elim (Result-cases (register_new_fragment p pid chain_id w.node).0) [
        | inl (e, failed) ↦ rw (register_fragment, failed) kept
        | inr (calls, done) ↦
            let (a, same) = register_new_fragment-announces p pid chain_id w.node calls done in
            rw (register_fragment, done)
              (SameStores-trans w w' (place_all p h json calls w').1 kept
                (announced calls w' a same))
      ]

  pub keep_share-Leaves :
      (g : Group) (holder : Member) (content : Share)
      → Leaves (keep_share p h json g holder content)
  unfolding keep_share
  keep_share-Leaves g holder content w =
      After _ _ (random_name-Leaves _)
        (λ salt. After _ _ (wrapped-Leaves _ _) λ key.
          After _ _ (seal_share-Leaves _ _ _) λ ciphertext.
            After _ _ (random_name-Leaves _) λ chain_id.
              After _ _ (register_fragment-Leaves _ _) λ registered. hold_fragment-Leaves _)
        w

  module _ (yes : may ≡ true) where
    exchange-Leaves : {A : Type 0} (m : Exchange h A) → Leaves (exchange p h json m)
    unfolding exchange SameStores
    exchange-Leaves m w = (refl, refl, λ no. cc)

    hand_over-Leaves :
        (g : Group) (holder : Member) (content : Share)
        → Leaves (hand_over p h json g holder content)
    unfolding hand_over
    hand_over-Leaves g holder content = After _ _ (random-Leaves _) λ key.
        After _ _ (seal_share-Leaves _ _ _) λ ciphertext.
          After _ _ (exchange-Leaves (deliver_share_to h json holder.endpoint _))
            λ sent. wrapped-Leaves _ _

    hand_over_all-Leaves :
        (g : Group) (holders : List Member) (shares : List Share)
        → Leaves (hand_over_all p h json g holders shares)
    unfolding hand_over_all
    hand_over_all-Leaves g [] shares = pure-Leaves tt
    hand_over_all-Leaves g (holder ∷ holders) [] = fail-Leaves _ _
    hand_over_all-Leaves g (holder ∷ holders) (content ∷ shares) =
        After _ _ (hand_over-Leaves g holder content) λ sent. hand_over_all-Leaves g holders shares

    keep_and_hand_over-Leaves :
        (g : Group) (holders : List Member) (shares : List Share)
        → Leaves (keep_and_hand_over p h json g holders shares)
    unfolding keep_and_hand_over
    keep_and_hand_over-Leaves g [] shares = fail-Leaves _ _
    keep_and_hand_over-Leaves g (own ∷ holders) [] = fail-Leaves _ _
    keep_and_hand_over-Leaves g (own ∷ holders) (content ∷ shares) =
        After _ _ (keep_share-Leaves g own content) λ kept. hand_over_all-Leaves g holders shares

    record_manifest-Leaves :
        (secret_name kind : Bytes) (g : Group)
        → Leaves (record_manifest p h json secret_name kind g)
    unfolding record_manifest put_store wrapped ◌>>=◌
    record_manifest-Leaves secret_name kind g w =
        unsent w _ (ground arith) (ground arith) (ground arith)

    pub share_out-Leaves :
        (secret_name : Bytes) (g : Group) (shares : List Share)
        → Leaves (share_out p h json secret_name g shares)
    unfolding share_out
    share_out-Leaves secret_name g shares =
        After _ _ (keep_and_hand_over-Leaves g g.members shares)
          λ sent. record_manifest-Leaves secret_name _ g
