-- ===== src/Peer/Client.antt =====
-- peer/client.go: what a node asks of its siblings.
use genomedb.Base.{false, [], ◌++◌, Bytes, ascii, ok, err, leb, if◌then◌else◌}
use genomedb.Peer.{DeliverShareRequest, MutationNoticeRequest, PresenceResponse, ShareResponse}
use genomedb.Transport.{Http, Json, refused, Exchange, get, post, decoded, request}

module _ (h : Http) where
  unfoldable pub post_json : Bytes → Bytes → Exchange h (Unit {0})
  unfolding request
  post_json url body =
      request h (record { method = post; url = url; token = []; body = body })
        λ status answer. if leb 300 status then err (refused status answer) else ok tt

  unfoldable pub ping : Bytes → Exchange h (Unit {0})
  unfolding request
  ping endpoint =
      request h
        (record { method = get; url = endpoint ++ ascii "/peer/ping"; token = []; body = [] })
        λ status answer. if leb 300 status then err (refused status []) else ok tt

module _ (h : Http) (json : Json) where
  unfoldable pub deliver_share_to : Bytes → DeliverShareRequest → Exchange h (Unit {0})
  unfolding post_json
  deliver_share_to endpoint req =
      post_json h (endpoint ++ ascii "/peer/deliver") (json.marshal_deliver req)

  -- A refusal is not an error: it says that the share is not there.
  unfoldable pub check_presence : Bytes → Bytes → Bytes → Exchange h PresenceResponse
  unfolding request
  check_presence endpoint group_id group_token =
      request h
        (record {
          method = get;
          url = endpoint ++ (ascii "/peer/group/" ++ (group_id ++ ascii "/status"));
          token = group_token;
          body = [];
        })
        λ status answer.
          if leb 300 status
          then ok (record { present = false; epoch = 0 })
          else decoded (json.unmarshal_presence answer)

  unfoldable pub notify_mutation : Bytes → MutationNoticeRequest → Exchange h (Unit {0})
  unfolding post_json
  notify_mutation endpoint req =
      post_json h (endpoint ++ ascii "/peer/mutation-notice") (json.marshal_notice req)

  unfoldable pub fetch_group_share : Bytes → Bytes → Bytes → Exchange h ShareResponse
  unfolding request
  fetch_group_share endpoint group_id group_token =
      request h
        (record {
          method = get;
          url = endpoint ++ (ascii "/peer/group/" ++ group_id);
          token = group_token;
          body = [];
        })
        λ status answer.
          if leb 300 status
          then err (refused status answer)
          else decoded (json.unmarshal_share answer)
