-- ===== src/Orchestrator.antt =====
-- orchestrator/orchestrator.go and orchestrator/event.go. The state under the mutex is the record
-- `Orchestrator`; time is an argument, in nanoseconds; log lines are left out. A Go channel is a
-- buffer in the list `channels`, named by its index, so that two holders of one channel see the
-- same buffer. `none` as a result is a panic: a send on a closed channel, or a second close.
pub mod Buffered
pub mod Routes
pub mod Alerts
pub mod Anchors
pub mod Subscribers
pub mod Race
pub mod Server
pub mod Safety
use genomedb.Base.{
  ℕ, ◌+◌, ◌-◌, ◌*◌, ◌%◌, ◌^◌, Bool, true, false, ◌&&◌, Option, none, some, List, [], ◌∷◌, ◌++◌, map,
  get_elem?, length, ltb, ◌==◌, if◌then◌else◌, Bytes, bytes_eq, ascii,
}
use genomedb.Base.Assoc.{Assoc, lookup, insert, remove}
use genomedb.Protocol.{
  RouteEntry, MapDelta, MutationSeed, MutationAck, RouteAnnounce, Heartbeat, ImmuneAlert, NodeInfo,
  Event, map_delta, mutation_seed,
}
use genomedb.Orchestrator.Buffered.{Channels, make, send, send_all, close}
use genomedb.Crypto.HashChain.{verify_step}

pub record NodeRecord : Type 0 where
  pub endpoint : Bytes
  pub last_seen : ℕ

pub record Orchestrator : Type 0 where
  pub nodes : Assoc NodeRecord
  pub routes : Assoc RouteEntry
  pub epoch : ℕ  -- uint64
  pub subs : Assoc ℕ
  pub channels : Channels
  pub alert_bucket : Assoc ℕ
  pub chain_anchors : Assoc Bytes

abbrev pub second : ℕ
second = 1000000000

abbrev pub new : Orchestrator
new = record {
  nodes = [];
  routes = [];
  epoch = 0;
  subs = [];
  channels = [];
  alert_bucket = [];
  chain_anchors = [];
}

unfoldable pub register : Bytes → Bytes → ℕ → Orchestrator → Orchestrator
register node_id endpoint now o = record o {
  nodes = insert node_id (record { endpoint = endpoint; last_seen = now }) o.nodes;
}

unfoldable pub heartbeat : Heartbeat → ℕ → Orchestrator → Orchestrator
heartbeat hb now o = elim (lookup hb.node_id o.nodes) [
  | none ↦ o
  | some n ↦ record o { nodes = insert hb.node_id (record n { last_seen = now }) o.nodes }
]

-- The first half of broadcastDelta, under the lock: the event and the channels to send it to.
unfoldable pub collect : List RouteEntry → Orchestrator → Event × List ℕ × Orchestrator
collect changes o =
    let epoch = (o.epoch + 1) % 2 ^ 64 in
    (
      map_delta (record { epoch = epoch; changes = changes }),
      map (λ s. s.1) o.subs,
      record o { epoch = epoch },
    )

-- The second half, after the lock is given back.
unfoldable pub deliver : Event → List ℕ → Orchestrator → Option Orchestrator
deliver ev ids o = elim (send_all o.channels ids ev) [
  | none ↦ none
  | some cs ↦ some (record o { channels = cs })
]

unfoldable pub broadcast_delta : List RouteEntry → Orchestrator → Option Orchestrator
unfolding collect deliver
broadcast_delta changes o = let (ev, ids, o') = collect changes o in deliver ev ids o'

unfoldable pub announce_route : RouteAnnounce → Orchestrator → Option Orchestrator
announce_route a o =
    let entry : RouteEntry = record {
      pid = a.pid;
      node_id = a.node_id;
      endpoint = a.endpoint;
      epoch = 0;
      chain_id = a.chain_id;
    } in
    broadcast_delta (entry ∷ []) (record o {
      routes = insert a.pid entry o.routes;
      chain_anchors = insert a.chain_id a.chain_tip o.chain_anchors;
    })

-- The new entry of an acknowledged mutation; an unknown old pseudonym leaves the node's name as the
-- endpoint.
abbrev pub ack_entry : MutationAck → Assoc RouteEntry → RouteEntry
ack_entry ack routes = record {
  pid = ack.new_pid;
  node_id = ack.node_id;
  endpoint = elim (lookup ack.old_pid routes) [ none ↦ ack.node_id | some old ↦ old.endpoint ];
  epoch = ack.epoch;
  chain_id = ack.chain_id;
}

unfoldable pub ack_route : MutationAck → Orchestrator → Option Orchestrator
ack_route ack o =
    let entry = ack_entry ack o.routes in
    broadcast_delta (entry ∷ [])
      (record o { routes = insert ack.new_pid entry (remove ack.old_pid o.routes) })

module _ (sha256 : Bytes → Bytes) where
  -- The check of a cold mutation: only a verified seed becomes the new anchor.
  unfoldable pub check_anchor : MutationAck → Orchestrator → Orchestrator
  check_anchor ack o =
      if bytes_eq ack.reason (ascii "cold")
      then (elim (lookup ack.chain_id o.chain_anchors) [
        | none ↦ o
        | some anchor ↦
            if verify_step sha256 ack.seed_used anchor
            then record o { chain_anchors = insert ack.chain_id ack.seed_used o.chain_anchors }
            else o
      ])
      else o

  -- Ack: whatever the check says, the route is moved.
  unfoldable pub acknowledge : MutationAck → Orchestrator → Option Orchestrator
  unfolding check_anchor ack_route
  acknowledge ack o = ack_route ack (check_anchor ack o)

-- Alert: the answer, and the new state. A clock that went back gives a negative time, which is
-- below three seconds, as the truncated difference is.
unfoldable pub alert : ImmuneAlert → ℕ → Orchestrator → Bool × Orchestrator
alert a now o =
    let accept : Bool × Orchestrator =
      (true, record o { alert_bucket = insert a.node_id now o.alert_bucket }) in
    elim (lookup a.node_id o.alert_bucket) [
      | none ↦ accept
      | some last ↦ if ltb (now - last) (3 * second) then (false, o) else accept
    ]

unfoldable pub node_list : Orchestrator → List NodeInfo
node_list o =
    map (λ (n : Bytes × NodeRecord). record { node_id = n.0; endpoint = n.1.endpoint }) o.nodes

unfoldable pub snapshot : Orchestrator → List RouteEntry
snapshot o = map (λ (r : Bytes × RouteEntry). r.1) o.routes

unfoldable pub subscribe : Bytes → Orchestrator → ℕ × Orchestrator
subscribe node_id o =
    let (ch, cs) = make o.channels in
    (ch, record o { channels = cs; subs = insert node_id ch o.subs })

-- The function that Subscribe returns: it forgets the node's entry, whichever channel that names,
-- and closes its own channel.
unfoldable pub unsubscribe : Bytes → ℕ → Orchestrator → Option Orchestrator
unsubscribe node_id ch o = elim (close o.channels ch) [
  | none ↦ none
  | some cs ↦ some (record o { subs = remove node_id o.subs; channels = cs })
]

unfoldable pub push_seed : Bytes → MutationSeed → Orchestrator → Option Orchestrator
push_seed node_id seed o = elim (lookup node_id o.subs) [
  | none ↦ some o
  | some ch ↦ elim (send o.channels ch (mutation_seed seed)) [
    | none ↦ none
    | some cs ↦ some (record o { channels = cs })
  ]
]

-- `none` as a target is an index out of range, which is a panic.
scheduled_push : Option RouteEntry → Option Bytes → Orchestrator → Option Orchestrator
scheduled_push none seed o = none
scheduled_push (some target) none o = some o
scheduled_push (some target) (some seed) o =
    push_seed target.node_id
      (record {
        pid = target.pid;
        seed = seed;
        reason = ascii "scheduled";
        epoch = (target.epoch + 1) % 2 ^ 64;
      })
      o

-- One round of RunScheduledMutations, after its wait: `pick` is the index that randInt draws below
-- the number of candidates, and `seed` the bytes that are read; `none` is an error of either.
unfoldable pub scheduled_round : (ℕ → Option ℕ) → Option Bytes → Orchestrator → Option Orchestrator
unfolding scheduled_push push_seed
scheduled_round pick seed o =
    let candidates = map (λ (r : Bytes × RouteEntry). r.1) o.routes in
    if length candidates == 0 then some o else (elim (pick (length candidates)) [
      | none ↦ some o
      | some idx ↦ scheduled_push (get_elem? candidates idx) seed o
    ])
