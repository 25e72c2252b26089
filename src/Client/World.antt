-- ===== src/Client/World.antt =====
-- What an operation of client/ that talks to others runs in: the node, the network, and the time.
-- An action gives a result or an error, and the world after it also where it fails.
pub mod Rules
use genomedb.Base.{ℕ, Option, none, some, List, [], ◌∷◌, Bytes, Result, ok, err, ◌≡◌, refl}
use genomedb.Crypto.Ratchet.{hex_encode}
use genomedb.Peer.Client.{notify_mutation}
use genomedb.Protocol.Client.{send_announce, send_ack, send_alert}
use genomedb.Store.Tables.{Store, StoreError}
use genomedb.Transport.{Http, Json, HttpError, Exchange}
use genomedb.Client.Node.{
  Packages, Node, NodeError, no_entropy, Call, announce, ack, notify, immune_alert,
}

-- `now` is the reading of the clock, in nanoseconds, that the store's rows are stamped with.
pub record World (Source Net : Type 0) : Type 0 where
  pub node : Node Source
  pub net : Net
  pub now : ℕ

abbrev pub Act : Type 0 → Type 0 → Type 0 → Type 0
Act Source Net A = World Source Net → Result NodeError A × World Source Net

module _ {Source Net : Type 0} where
  infixl 5 ◌>>=◌ ◌>>◌
  unfoldable pub pure : {A : Type 0} → A → Act Source Net A
  pure a w = (ok a, w)

  unfoldable pub fail : {A : Type 0} → NodeError → Act Source Net A
  fail e w = (err e, w)

  abbrev pub then_run :
      {A B : Type 0}
      → Result NodeError A × World Source Net
      → (A → Act Source Net B)
      → Result NodeError B × World Source Net
  then_run (err e, w) next = (err e, w)
  then_run (ok a, w) next = next a w

  unfoldable pub ◌>>=◌ :
      {A B : Type 0} → Act Source Net A → (A → Act Source Net B) → Act Source Net B
  ◌>>=◌ m next w = then_run (m w) next

  abbrev pub ◌>>◌ : {A B : Type 0} → Act Source Net A → Act Source Net B → Act Source Net B
  m >> next = m >>= λ _. next

  -- Go on after an error, with the error at hand.
  unfoldable pub attempt : {A : Type 0} → Act Source Net A → Act Source Net (Result NodeError A)
  attempt m w = let (r, w') = m w in (ok r, w')

  -- A result that another package returned, its errors wrapped.
  unfoldable pub wrapped : {E A : Type 0} → (E → NodeError) → Result E A → Act Source Net A
  wrapped wrap (ok a) w = (ok a, w)
  wrapped wrap (err e) w = (err (wrap e), w)

  -- A reading of the store.
  unfoldable pub query :
      {A : Type 0} → (StoreError → NodeError) → (Store → Result StoreError A) → Act Source Net A
  unfolding wrapped
  query wrap read w = wrapped wrap (read w.node.store) w

  unfoldable pub put_store : Store → Act Source Net (Unit {0})
  put_store s w = (ok tt, record w { node = record w.node { store = s } })

  -- An operation of the node alone.
  unfoldable pub on_node :
      {A : Type 0} → (Node Source → Result NodeError A × Node Source) → Act Source Net A
  on_node operation w = let (r, n) = operation w.node in (r, record w { node = n })

module _ (p : Packages) (h : Http) (json : Json) where
  abbrev pub Action : Type 0 → Type 0
  Action A = Act p.entropy.Source h.State A

  -- An exchange over the network; its error is a value.
  unfoldable pub exchange : {A : Type 0} → Exchange h A → Action (Result HttpError A)
  exchange m w = let (r, net) = m w.net in (ok r, record w { net = net })

  unfoldable pub random : ℕ → Action Bytes
  random n w = elim (p.entropy.read n w.node.source) [
    | none ↦ (err no_entropy, w)
    | some (b, src) ↦ (ok b, record w { node = record w.node { source = src } })
  ]

  -- randomID of split.go
  unfoldable pub random_name : ℕ → Action Bytes
  unfolding random
  random_name n = random n >>= λ b. pure (hex_encode b)

  -- The calls whose errors are only logged.
  unfoldable pub place : Call → Action (Unit {0})
  unfolding exchange
  place (announce a) w =
      let (r, w') = exchange (send_announce h w.node.orchestrator_url json a) w in (ok tt, w')
  place (ack a) w =
      let (r, w') = exchange (send_ack h w.node.orchestrator_url json a) w in (ok tt, w')
  place (notify endpoint req) w =
      let (r, w') = exchange (notify_mutation h json endpoint req) w in (ok tt, w')
  place (immune_alert a) w =
      let (r, w') = exchange (send_alert h w.node.orchestrator_url json a) w in (ok tt, w')

  unfoldable pub place_all : List Call → Action (Unit {0})
  unfolding place
  place_all [] = pure tt
  place_all (c ∷ calls) = place c >> place_all calls
