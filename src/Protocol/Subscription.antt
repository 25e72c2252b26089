-- ===== src/Protocol/Subscription.antt =====
-- SubscribeEvents of protocol/client.go: the request that opens the stream of events, and what is
-- read of it. The body of the answer is all that the stream brings.
use genomedb.Base.{List, [], ◌++◌, Bytes, ascii, ok, err, leb, if◌then◌else◌}
use genomedb.Protocol.Events.{EventText, read_events}
use genomedb.Transport.{Http, get, refused, Exchange, request}

module _ (h : Http) (base_url : Bytes) where
  unfoldable pub subscribe_events : Bytes → Exchange h (List EventText)
  unfolding request read_events
  subscribe_events node_id =
      request h
        (record {
          method = get;
          url = base_url ++ (ascii "/events?node_id=" ++ node_id);
          token = [];
          body = [];
        })
        λ status answer. if leb 300 status then err (refused status []) else ok (read_events answer)
