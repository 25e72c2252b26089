-- ===== src/Transport.antt =====
-- What the Go packages net/http and encoding/json are asked for by peer/client.go and
-- protocol/client.go. They are not part of this repository, and so they are parameters: a request is
-- answered or fails, and each message has its JSON text.
use genomedb.Base.{ℕ, Option, none, some, List, Bytes, Result, ok, err}
use genomedb.Protocol.{
  Heartbeat, MutationAck, RouteEntry, ImmuneAlert, RouteAnnounce, RegisterRequest, RegisterResponse,
  NodeInfo,
}
use genomedb.Peer.{DeliverShareRequest, MutationNoticeRequest, PresenceResponse, ShareResponse}

pub data Method : Type 0 where
  get post : Method

-- `token` is the header X-Group-Token, empty where the request has none.
pub record HttpRequest : Type 0 where
  pub method : Method
  pub url : Bytes
  pub token : Bytes
  pub body : Bytes

pub record HttpResponse : Type 0 where
  pub status : ℕ
  pub body : Bytes

-- `none` is an error of building, sending or answering the request. The state is everything that
-- the requests may change.
pub record Http : Type 1 where
  pub State : Type 0
  pub send : HttpRequest → State → Option HttpResponse × State

pub record Json : Type 0 where
  pub marshal_deliver : DeliverShareRequest → Bytes
  pub marshal_notice : MutationNoticeRequest → Bytes
  pub unmarshal_presence : Bytes → Option PresenceResponse
  pub unmarshal_share : Bytes → Option ShareResponse
  pub marshal_register : RegisterRequest → Bytes
  pub unmarshal_registered : Bytes → Option RegisterResponse
  pub marshal_announce : RouteAnnounce → Bytes
  pub marshal_heartbeat : Heartbeat → Bytes
  pub marshal_ack : MutationAck → Bytes
  pub marshal_alert : ImmuneAlert → Bytes
  pub unmarshal_nodes : Bytes → Option (List NodeInfo)
  pub unmarshal_routes : Bytes → Option (List RouteEntry)

-- The errors that the two clients return.
pub data HttpError : Type 0 where
  unreachable malformed : HttpError
  refused : ℕ → Bytes → HttpError

-- An exchange: its result, and the state after it.
abbrev pub Exchange : Http → Type 0 → Type 0
Exchange h A = h.State → Result HttpError A × h.State

abbrev pub decoded : {A : Type 0} → Option A → Result HttpError A
decoded none = err malformed
decoded (some a) = ok a

-- A send, and what the answer means, from its status and its body.
unfoldable pub request :
    {A : Type 0} (h : Http) → HttpRequest → (ℕ → Bytes → Result HttpError A) → Exchange h A
request h req read net =
    let (answer, net') = h.send req net in
    elim answer [ none ↦ (err unreachable, net') | some r ↦ (read r.status r.body, net') ]
