-- ===== src/Orchestrator/Safety/Operations.antt =====
-- The operations of orchestrator.go on subscriptions that are sound.
use mathlib.Core.List.{Memᴰ}
use genomedb.Base.{
  ℕ, ◌<◌, ◌≡◌, refl, subst, ap, sym, ◌∙◌, true, Option, none, some, List, [], ◌∷◌, map, length,
  get_elem?, ◌==◌, zero, suc, All, All-mem, All-weaken, All-map, Distinct, Bytes, bytes_eq, arith,
  Bool-cases, Option-cases, inl, inr,
}
use genomedb.Base.Assoc.{Assoc, lookup, insert, remove}
use genomedb.Protocol.{RouteEntry, RouteAnnounce, MutationAck, MutationSeed, mutation_seed}
use genomedb.Orchestrator.{
  Orchestrator, collect, deliver, broadcast_delta, announce_route, ack_entry, ack_route,
  check_anchor, acknowledge, push_seed, scheduled_push, scheduled_round,
}
use genomedb.Orchestrator.Buffered.{Channels}
use genomedb.Orchestrator.Buffered.Open.{open_at, SameOpen, send_open, send_all_open}
use genomedb.Orchestrator.Safety.{Stream}

-- Every subscription is of an open stream, and the streams have channels of their own, which are open.
abbrev pub Sound : List Stream → Orchestrator → Type 0
Sound streams o =
    All (λ (s : Stream). open_at o.channels s.1 ≡ true) streams
    × Distinct (map (λ (s : Stream). s.1) streams)
    × All (λ (s : Stream). Memᴰ s streams) o.subs

-- An operation that succeeds and keeps the subscriptions and which channels are open.
abbrev pub Harmless : Orchestrator → Option Orchestrator → Type 0
Harmless o result =
    (o' : Orchestrator) × (result ≡ some o') × (o'.subs ≡ o.subs) × SameOpen o.channels o'.channels

pub Sound-Harmless :
    (streams : List Stream) (o o' : Orchestrator)
    → o'.subs ≡ o.subs
    → SameOpen o.channels o'.channels
    → Sound streams o
    → Sound streams o'
Sound-Harmless streams o o' subs same (open_streams, distinct, owned) = (
  All-weaken streams (λ s h. same s.1 ∙ h) open_streams,
  distinct,
  subst (λ (t : Assoc ℕ). All (λ (s : Stream). Memᴰ s streams) t) (sym subs) owned,
)

subs_open :
    (streams : List Stream) (o : Orchestrator)
    → Sound streams o
    → All (λ i. open_at o.channels i ≡ true) (map (λ (s : Stream). s.1) o.subs)
subs_open streams o (open_streams, distinct, owned) =
    All-map (λ i. open_at o.channels i ≡ true) (λ (s : Stream). s.1) o.subs
      (All-weaken o.subs
        (λ s mem. All-mem (λ (t : Stream). open_at o.channels t.1 ≡ true) open_streams mem) owned)

broadcast_delta-Harmless :
    (streams : List Stream) (changes : List RouteEntry) (o : Orchestrator)
    → Sound streams o
    → Harmless o (broadcast_delta changes o)
unfolding broadcast_delta collect deliver
broadcast_delta-Harmless streams changes o sound =
    let (cs, sent, same) =
      send_all_open o.channels (map (λ (s : Stream). s.1) o.subs) (collect changes o).0
        (subs_open streams o sound) in
    (
      record (collect changes o).2 { channels = cs },
      rw (broadcast_delta, deliver, sent),
      refl,
      same,
    )

pub announce_route-Harmless :
    (streams : List Stream) (a : RouteAnnounce) (o : Orchestrator)
    → Sound streams o
    → Harmless o (announce_route a o)
unfolding announce_route
announce_route-Harmless streams a o sound = broadcast_delta-Harmless streams _ _ sound

check_anchor-same :
    (sha256 : Bytes → Bytes) (ack : MutationAck) (o : Orchestrator)
    → ((check_anchor sha256 ack o).subs ≡ o.subs)
      × ((check_anchor sha256 ack o).channels ≡ o.channels)
unfolding check_anchor
check_anchor-same sha256 ack o = ground arith

pub acknowledge-Harmless :
    (sha256 : Bytes → Bytes) (streams : List Stream) (ack : MutationAck) (o : Orchestrator)
    → Sound streams o
    → Harmless o (acknowledge sha256 ack o)
unfolding acknowledge ack_route
acknowledge-Harmless sha256 streams ack o sound =
    let checked = check_anchor sha256 ack o in
    let (subs, channels) = check_anchor-same sha256 ack o in
    let same : SameOpen o.channels checked.channels =
      λ j. ap (λ (cs : Channels). open_at cs j) channels in
    let renamed : Orchestrator = record checked {
      routes =
          insert ack.new_pid (ack_entry ack checked.routes) (remove ack.old_pid checked.routes);
    } in
    let (o', moved, subs', same') =
      broadcast_delta-Harmless streams (ack_entry ack checked.routes ∷ []) renamed
        (Sound-Harmless streams o renamed subs same sound) in
    (o', moved, subs' ∙ subs, λ j. same' j ∙ same j)

lookup-owned :
    (streams : List Stream) (node_id : Bytes) (ch : ℕ) (subs : Assoc ℕ)
    → All (λ (s : Stream). Memᴰ s streams) subs
    → lookup node_id subs ≡ some ch
    → (node : Bytes) × Memᴰ (node, ch) streams
unfolding lookup
lookup-owned streams node_id ch [] owned found = cc
lookup-owned streams node_id ch ((j, c) ∷ subs) owned found =
    elim (Bool-cases (bytes_eq j node_id)) [
      | inl this ↦
          let same : c ≡ ch = ground arith in
          (j, subst (λ (t : ℕ). Memᴰ (j, t) streams) same owned.0)
      | inr other ↦ lookup-owned streams node_id ch subs owned.1 (ground arith)
    ]

push_seed-Harmless :
    (streams : List Stream) (node_id : Bytes) (seed : MutationSeed) (o : Orchestrator)
    → Sound streams o
    → Harmless o (push_seed node_id seed o)
unfolding push_seed
push_seed-Harmless streams node_id seed o sound = elim (Option-cases (lookup node_id o.subs)) [
  | inl nobody ↦ (o, rw (push_seed, nobody), refl, λ j. refl)
  | inr (ch, found) ↦
      let (node, mem) = lookup-owned streams node_id ch o.subs sound.2 found in
      let (cs, sent, same) =
        send_open o.channels ch (mutation_seed seed)
          (All-mem (λ (t : Stream). open_at o.channels t.1 ≡ true) sound.0 mem) in
      (record o { channels = cs }, rw (push_seed, found, sent), refl, same)
]

get_elem?-in_range :
    (xs : List RouteEntry) (i : ℕ) → i < length xs → (x : RouteEntry) × (get_elem? xs i ≡ some x)
get_elem?-in_range [] i lt = absurd (omega arith)
get_elem?-in_range (x ∷ xs) zero lt = (x, refl)
get_elem?-in_range (x ∷ xs) (suc i) lt = get_elem?-in_range xs i (omega arith)

scheduled_push-Harmless :
    (streams : List Stream) (target : RouteEntry) (seed : Option Bytes) (o : Orchestrator)
    → Sound streams o
    → Harmless o (scheduled_push (some target) seed o)
unfolding scheduled_push
scheduled_push-Harmless streams target none o sound = (o, refl, refl, λ j. refl)
scheduled_push-Harmless streams target (some seed) o sound =
    push_seed-Harmless streams target.node_id _ o sound

pub scheduled_round-Harmless :
    (streams : List Stream) (pick : ℕ → Option ℕ) (seed : Option Bytes) (o : Orchestrator)
    → ((n i : ℕ) → pick n ≡ some i → i < n)
    → Sound streams o
    → Harmless o (scheduled_round pick seed o)
unfolding scheduled_round
scheduled_round-Harmless streams pick seed o in_range sound =
    let candidates = map (λ (r : Bytes × RouteEntry). r.1) o.routes in
    elim (Bool-cases (length candidates == 0)) [
      | inl nothing ↦ (o, rw (scheduled_round, nothing), refl, λ j. refl)
      | inr some_routes ↦ elim (Option-cases (pick (length candidates))) [
        | inl failed ↦ (o, rw (scheduled_round, some_routes, failed), refl, λ j. refl)
        | inr (i, picked) ↦
            let (target, there) =
              get_elem?-in_range candidates i (in_range (length candidates) i picked) in
            let (o', pushed, subs, same) = scheduled_push-Harmless streams target seed o sound in
            (o', rw (scheduled_round, some_routes, picked, there, pushed), subs, same)
      ]
    ]
