-- ===== src/Client/Cluster.antt =====
-- The nodes that client/peerserver.go serves, as the node that splits a secret sees them: net/http
-- and encoding/json carry a request of peer/client.go to the handlers of the node at its address and
-- the reply back. Nothing else happens meanwhile: no node mutates, moves, starts or stops.
pub mod Deliveries
pub mod Local
pub mod Live
pub mod Shares
pub mod RoundTrip
use genomedb.Base.{
  All, leb, ◌&&◌, ◌||◌, ℕ, ◌≡◌, ◌≢◌, Bool, true, false, none, some, List, [], ◌∷◌, Bytes, ok, err,
}
use genomedb.Crypto.Shamir.{Share}
use genomedb.Peer.{DeliverShareRequest, ShareResponse}
use genomedb.Peer.Client.{deliver_share_to, fetch_group_share}
use genomedb.Protocol.{RouteAnnounce}
use genomedb.Protocol.Client.{send_announce}
use genomedb.Store.Groups.{of_group}
use genomedb.Store.Tables.{AreText, Member, Store, first_row}
use genomedb.Transport.{Http, HttpError, Json}
use genomedb.Client.Node.{Packages, Node, Call}
use genomedb.Client.PeerServer.{Reply, no_content, share, deliver_share, fetch_share}

-- ASCII letters and digits, of which all the names are that randomID of client/split.go gives.
abbrev pub is_alphanumeric : ℕ → Bool
is_alphanumeric c = (leb 48 c && leb c 57) || ((leb 65 c && leb c 90) || (leb 97 c && leb c 122))

-- A name that stands for itself in a path, a header and a JSON string: the pattern {group_id} of
-- net/http takes it as one segment, and no part of it is escaped or replaced.
abbrev pub IsName : Bytes → Type 0
IsName [] = ⊥
IsName (c ∷ name) = All (λ b. is_alphanumeric b ≡ true) (c ∷ name)

pub record Cluster (p : Packages) (h : Http) (json : Json) : Type 1 where
  -- The addresses that the nodes listen on, and the node at each.
  pub IsAddress : Bytes → Type 0
  pub node_at : Bytes → h.State → Node p.entropy.Source
  -- The address of the orchestrator, at which no node listens.
  pub IsOrchestrator : Bytes → Type 0
  -- Whether the node at an address answers questions, or lets them fail.
  pub Stands : Bool → Bytes → h.State → Type 0
  -- A delivery that is accepted was handled by the node at the address, if JSON carries its strings.
  pub delivers :
      (address : Bytes) (req : DeliverShareRequest) (net net' : h.State)
      → IsAddress address
      → IsName req.group_id
      → IsName req.group_token
      → p.codec.IsText req.pid
      → AreText p.codec req.members
      → deliver_share_to h json address req net ≡ (ok tt, net')
      → (now : ℕ) × (calls : List Call) × (deliver_share p (some req) now (node_at address net)
          ≡ (no_content, calls, node_at address net'))
  -- A delivery, accepted or not, is handled by no other node.
  pub delivers_there :
      (address other : Bytes) (req : DeliverShareRequest) (net : h.State)
      → IsAddress address
      → other ≢ address
      → (node_at other (deliver_share_to h json address req net).1).store
        ≡ (node_at other net).store
  -- A node that is up and has the share answers with it.
  pub answers :
      (address group_id token : Bytes) (net : h.State) (answer : ShareResponse)
      → IsAddress address
      → IsName group_id
      → IsName token
      → Stands true address net
      → fetch_share p group_id token (node_at address net).store ≡ share answer
      → (fetch_group_share h json address group_id token net).0 ≡ ok answer
  pub silent :
      (address group_id token : Bytes) (net : h.State)
      → IsAddress address
      → Stands false address net
      → (e : HttpError) × ((fetch_group_share h json address group_id token net).0 ≡ err e)
  -- A question changes no node's store, and stops or starts none.
  pub asks_leave :
      (answers : Bool) (address other group_id token : Bytes) (net : h.State)
      → IsAddress address
      → Stands answers other net
      → Stands answers other (fetch_group_share h json address group_id token net).1
  pub asks :
      (address other group_id token : Bytes) (net : h.State)
      → IsAddress address
      → (node_at other (fetch_group_share h json address group_id token net).1).store
        ≡ (node_at other net).store
  -- An announcement goes to the orchestrator, and changes no node's store.
  pub announces :
      (url other : Bytes) (a : RouteAnnounce) (net : h.State)
      → IsOrchestrator url
      → (node_at other (send_announce h url json a net).1).store ≡ (node_at other net).store

module _ {p : Packages} {h : Http} {json : Json} (c : Cluster p h json) where
  abbrev pub store_at : Bytes → h.State → Store
  store_at address net = (c.node_at address net).store

  -- No node at the address holds a fragment of the group.
  abbrev pub IsNewAt : Bytes → h.State → Bytes → Type 0
  IsNewAt group_id net address =
      first_row (of_group group_id) (store_at address net).fragments ≡ none

  -- The node at the address answers the group's token with the share.
  abbrev pub Holds : Bytes → Bytes → h.State → Bytes → Share → Type 0
  Holds group_id token net address content =
      fetch_share p group_id token (store_at address net)
      ≡ share (record { share = content; epoch = 0 })

  -- Each holder holds its share.
  abbrev pub HoldAll : Bytes → Bytes → h.State → List Member → List Share → Type 0
  HoldAll group_id token net [] shares = Unit
  HoldAll group_id token net (m ∷ ms) [] = ⊥
  HoldAll group_id token net (m ∷ ms) (content ∷ shares) =
      Holds group_id token net m.endpoint content × HoldAll group_id token net ms shares

  -- Later, when some of the nodes may be down, those that are up hold what they held.
  abbrev pub StandAll : h.State → h.State → List Member → List Bool → Type 0
  StandAll net later [] [] = Unit
  StandAll net later [] (up ∷ ups) = ⊥
  StandAll net later (m ∷ ms) [] = ⊥
  StandAll net later (m ∷ ms) (up ∷ ups) =
      c.Stands up m.endpoint later
      × (up ≡ true → store_at m.endpoint later ≡ store_at m.endpoint net)
      × StandAll net later ms ups
