-- ===== src/Protocol/Client.antt =====
-- protocol/client.go: what a node asks of the orchestrator. The stream of events is
-- Protocol/Events.antt.
use genomedb.Base.{List, [], ◌++◌, Bytes, ascii, Result, ok, err, leb, if◌then◌else◌}
use genomedb.Protocol.{
  Heartbeat, MutationAck, RouteEntry, ImmuneAlert, RouteAnnounce, RegisterRequest, RegisterResponse,
  NodeInfo,
}
use genomedb.Transport.{Http, Json, HttpError, refused, Exchange, get, post, decoded, request}

module _ (h : Http) (base_url : Bytes) where
  -- postJSON, with what is done with the answer's body: nothing, or its decoding.
  unfoldable pub post_message :
      {A : Type 0} → Bytes → Bytes → (Bytes → Result HttpError A) → Exchange h A
  unfolding request
  post_message path body out =
      request h (record { method = post; url = base_url ++ path; token = []; body = body })
        λ status answer. if leb 300 status then err (refused status answer) else out answer

  abbrev no_answer : Bytes → Result HttpError (Unit {0})
  no_answer answer = ok tt

  -- No status is looked at here.
  unfoldable pub get_message : {A : Type 0} → Bytes → (Bytes → Result HttpError A) → Exchange h A
  unfolding request
  get_message path out =
      request h (record { method = get; url = base_url ++ path; token = []; body = [] })
        λ status answer. out answer

  module _ (json : Json) where
    unfoldable pub send_register : RegisterRequest → Exchange h RegisterResponse
    unfolding post_message
    send_register req =
        post_message (ascii "/register") (json.marshal_register req)
          λ answer. decoded (json.unmarshal_registered answer)

    unfoldable pub send_announce : RouteAnnounce → Exchange h (Unit {0})
    unfolding post_message
    send_announce a = post_message (ascii "/route/announce") (json.marshal_announce a) no_answer

    unfoldable pub send_heartbeat : Heartbeat → Exchange h (Unit {0})
    unfolding post_message
    send_heartbeat hb = post_message (ascii "/heartbeat") (json.marshal_heartbeat hb) no_answer

    unfoldable pub send_ack : MutationAck → Exchange h (Unit {0})
    unfolding post_message
    send_ack a = post_message (ascii "/mutation/ack") (json.marshal_ack a) no_answer

    unfoldable pub send_alert : ImmuneAlert → Exchange h (Unit {0})
    unfolding post_message
    send_alert a = post_message (ascii "/alert") (json.marshal_alert a) no_answer

    unfoldable pub list_nodes : Exchange h (List NodeInfo)
    unfolding get_message
    list_nodes = get_message (ascii "/nodes") λ answer. decoded (json.unmarshal_nodes answer)

    unfoldable pub get_map : Exchange h (List RouteEntry)
    unfolding get_message
    get_map = get_message (ascii "/map") λ answer. decoded (json.unmarshal_routes answer)
