-- ===== src/Client/Split/Steps.antt =====
-- What the steps of Split in client/split.go do when they succeed.
use genomedb.Base.{
  ◌≡◌, subst, ap, ap₂, sym, ◌∙◌, ℕ, List, [], ◌∷◌, Bytes, Result, ok, arith, Result-cases, inl, inr,
}
use genomedb.Crypto.Aead.{encrypt, decrypt}
use genomedb.Crypto.Aead.Laws.{decrypt-encrypt}
use genomedb.Crypto.Shamir.{Share}
use genomedb.Crypto.Ratchet.{key_size}
use genomedb.Peer.{DeliverShareRequest}
use genomedb.Peer.Client.{deliver_share_to}
use genomedb.Store.Tables.{Member}
use genomedb.Transport.{Http, Json, Exchange, HttpError}
use genomedb.Client.Node.{Packages, NodeError, not_delivered, content_context}
use genomedb.Client.World.{World, exchange, random, pure, fail}
use genomedb.Client.World.Rules.{Ensures, Ensures-bind, wrapped_lem}
use genomedb.Client.Split.{Group, seal_share, hand_over, hand_over_all}

module _ (p : Packages) (h : Http) (json : Json) where
  abbrev pub Here : Type 0
  Here = World p.entropy.Source h.State

  abbrev pub delivery : Group → Member → Bytes → Bytes → DeliverShareRequest
  delivery g holder key ciphertext = record {
    group_id = g.group_id;
    group_token = g.group_token;
    pid = holder.pid;
    epoch = 0;
    threshold = g.threshold;
    total = g.total;
    key = key;
    ciphertext = ciphertext;
    members = g.members;
  }

  -- Each holder, in order, accepted a request that carries its share, encrypted under the key that
  -- the request carries.
  pub data Delivered (g : Group) : List Member → List Share → h.State → h.State → Type 0 where
    all_delivered : {shares : List Share} {net : h.State} → Delivered g [] shares net net
    next_delivered :
        {holder : Member} {holders : List Member} {share : Share} {shares : List Share}
        → {net net1 net2 : h.State} (key ciphertext : Bytes)
        → decrypt p.gcm key ciphertext (content_context g.group_id holder.pid) ≡ ok share
        → deliver_share_to h json holder.endpoint (delivery g holder key ciphertext) net
          ≡ (ok tt, net1)
        → Delivered g holders shares net1 net2
        → Delivered g (holder ∷ holders) (share ∷ shares) net net2

  -- The network, the store and the clock are as they were.
  abbrev pub OnlyDrew : Here → Here → Type 0
  OnlyDrew w v = (v.net ≡ w.net) × (v.node.store ≡ w.node.store) × (v.now ≡ w.now)

  pub random_lem : (n : ℕ) (w : Here) → Ensures (random p h json n) w (λ b v. OnlyDrew w v)
  unfolding random
  random_lem n w b v run = ground arith

  pub seal_share_lem :
      (key share aad : Bytes) (w : Here)
      → Ensures
          (seal_share p h json key share aad)
          w
          (λ c v. OnlyDrew w v × (decrypt p.gcm key c aad ≡ ok share))
  unfolding seal_share
  seal_share_lem key share aad w c v run =
      elim (Result-cases (encrypt p.gcm p.entropy key share aad w.node.source)) [
        | inl (e, failed) ↦ cc (rw (seal_share, failed) at run)
        | inr ((c0, src), done) ↦
            let ends : ◌≡◌ {A = Result NodeError Bytes × Here}
                (ok c0, record w { node = record w.node { source = src } }) (ok c, v) =
              rw (seal_share, done) at run in
            let same : c0 ≡ c = ground arith in
            (
              ground arith,
              ap (λ t. decrypt p.gcm key t aad) (sym same)
                  ∙ decrypt-encrypt p.gcm p.entropy key share aad c0 w.node.source src done,
            )
      ]

  pub exchange_lem :
      {A : Type 0} (m : Exchange h A) (w : Here)
      → Ensures
          (exchange p h json m)
          w
          (λ r v. (m w.net ≡ (r, v.net)) × (v.node.store ≡ w.node.store) × (v.now ≡ w.now))
  unfolding exchange
  exchange_lem m w r v run = ground arith

  pub hand_over_lem :
      (g : Group) (holder : Member) (share : Share) (w : Here)
      → Ensures (hand_over p h json g holder share) w (λ u v.
        (key ciphertext : Bytes) × (decrypt p.gcm key ciphertext
            (content_context g.group_id holder.pid)
          ≡ ok share)
        × (deliver_share_to h json holder.endpoint (delivery g holder key ciphertext) w.net
            ≡ (ok tt, v.net))
        × (v.node.store ≡ w.node.store)
        × (v.now ≡ w.now))
  unfolding hand_over
  hand_over_lem g holder share w = Ensures-bind _ _ w _ _ (random_lem key_size w) λ key w1 drew.
      Ensures-bind _ _ w1 _ _ (seal_share_lem key share _ w1) λ ciphertext w2 sealed.
        Ensures-bind _ _ w2 _ _ (exchange_lem (deliver_share_to h json holder.endpoint _) w2)
          λ sent w3 got u v run.
            let (accepted, there) = wrapped_lem not_delivered sent w3 u v run in
            let ((same_net, same_store, same_now), opened) = sealed in
            (
              key,
              ciphertext,
              opened,
              ap (deliver_share_to h json holder.endpoint (delivery g holder key ciphertext))
                    (sym drew.0)
                  ∙ ap (deliver_share_to h json holder.endpoint (delivery g holder key ciphertext))
                      (sym same_net)
                  ∙ got.0
                  ∙ ap₂ (λ (r : Result HttpError (Unit {0})) (z : Here). (r, z.net)) accepted
                      (sym there),
              ground arith,
              ground arith,
            )

  pub hand_over_all_lem :
      (g : Group) (holders : List Member) (shares : List Share) (w : Here)
      → Ensures (hand_over_all p h json g holders shares) w (λ u v.
        Delivered g holders shares w.net v.net × (v.node.store ≡ w.node.store) × (v.now ≡ w.now))
  unfolding hand_over_all pure fail
  hand_over_all_lem g [] shares w = λ u v run.
      let same : w.net ≡ v.net = ground arith in
      (
        subst (λ (net : h.State). Delivered g [] shares w.net net) same all_delivered,
        ground arith,
        ground arith,
      )
  hand_over_all_lem g (holder ∷ holders) [] w = λ u v run. ground arith
  hand_over_all_lem g (holder ∷ holders) (share ∷ shares) w =
      Ensures-bind _ _ w _ _ (hand_over_lem g holder share w)
        λ sent w1 (key, ciphertext, opened, accepted, store, now) u v run.
          let (later, store', now') = hand_over_all_lem g holders shares w1 u v run in
          (next_delivered key ciphertext opened accepted later, store' ∙ store, now' ∙ now)
