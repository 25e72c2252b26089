-- ===== src/Orchestrator/Race.antt =====
-- broadcastDelta of orchestrator/orchestrator.go gives the lock back before it sends; an
-- unsubscription may come between.
use mathlib.Core.List.{Memᴰ}
use genomedb.Base.{
  ℕ, zero, suc, ◌≡◌, refl, sym, ap, ◌∙◌, true, none, some, Bytes, bytes_eq, List, [], ◌∷◌,
  get_elem?, arith, map, Option-cases, Bool-cases, inl, inr,
}
use genomedb.Base.Assoc.{Assoc, lookup}
use genomedb.Protocol.{Event, RouteEntry}
use genomedb.Orchestrator.{Orchestrator, unsubscribe, collect, deliver}
use genomedb.Orchestrator.Buffered.{Channel, Channels, close, send, send_all, offer}

ClosedAt : ℕ → Channels → Type 0
ClosedAt ch cs = (c : Channel) × (get_elem? cs ch ≡ some c) × (c.closed ≡ true)

close-ClosedAt : (ch : ℕ) (cs cs' : Channels) → close cs ch ≡ some cs' → ClosedAt ch cs'
unfolding close ClosedAt
close-ClosedAt ch [] cs' h = cc
close-ClosedAt zero (c ∷ cs) cs' h = (record c { closed = true }, ground arith, refl)
close-ClosedAt (suc ch) (c ∷ cs) cs' h = elim (Option-cases (close cs ch)) [
  | inl panic ↦ cc (rw (close, panic) at h)
  | inr (rest, closed) ↦
      let (d, at, shut) = close-ClosedAt ch cs rest closed in
      let same : c ∷ rest ≡ cs' = ground arith in
      (d, ap (λ l. get_elem? l (suc ch)) (sym same) ∙ at, shut)
]

send_closed : (ch : ℕ) (cs : Channels) (ev : Event) → ClosedAt ch cs → send cs ch ev ≡ none
unfolding send ClosedAt offer
send_closed ch [] ev h = refl
send_closed zero (c ∷ cs) ev (d, at, shut) = ground arith
send_closed (suc ch) (c ∷ cs) ev (d, at, shut) = rw (send, send_closed ch cs ev (d, at, shut))

send-ClosedAt :
    (ch i : ℕ) (cs cs' : Channels) (ev : Event)
    → send cs i ev ≡ some cs'
    → ClosedAt ch cs
    → ClosedAt ch cs'
unfolding send ClosedAt offer
send-ClosedAt ch i [] cs' ev h closed = cc
send-ClosedAt zero zero (c ∷ cs) cs' ev h (d, at, shut) = ground arith
send-ClosedAt zero (suc i) (c ∷ cs) cs' ev h (d, at, shut) = (d, ground arith, shut)
send-ClosedAt (suc ch) zero (c ∷ cs) cs' ev h (d, at, shut) = (d, ground arith, shut)
send-ClosedAt (suc ch) (suc i) (c ∷ cs) cs' ev h (d, at, shut) =
    elim (Option-cases (send cs i ev)) [
      | inl panic ↦ cc (rw (send, panic) at h)
      | inr (rest, sent) ↦
          let (d', at', shut') = send-ClosedAt ch i cs rest ev sent (d, at, shut) in
          let same : c ∷ rest ≡ cs' = ground arith in
          (d', ap (λ l. get_elem? l (suc ch)) (sym same) ∙ at', shut')
    ]

send_all_closed :
    (ch : ℕ) (ids : List ℕ) (cs : Channels) (ev : Event)
    → Memᴰ ch ids
    → ClosedAt ch cs
    → send_all cs ids ev ≡ none
unfolding send_all
send_all_closed ch [] cs ev m closed = elim m [ ]
send_all_closed ch (i ∷ is) cs ev (Memᴰ.head this) closed =
    rw (send_all, ap (λ t. send cs t ev) (sym this), send_closed ch cs ev closed)
send_all_closed ch (i ∷ is) cs ev (Memᴰ.tail mem) closed = elim (Option-cases (send cs i ev)) [
  | inl panic ↦ rw (send_all, panic)
  | inr (cs', sent) ↦
      rw (
        send_all,
        sent,
        send_all_closed ch is cs' ev mem (send-ClosedAt ch i cs cs' ev sent closed),
      )
]

lookup-mem :
    (k : Bytes) (m : Assoc ℕ) (v : ℕ)
    → lookup k m ≡ some v
    → Memᴰ v (map (λ (s : Bytes × ℕ). s.1) m)
unfolding lookup
lookup-mem k [] v h = cc
lookup-mem k ((j, w) ∷ m) v h = elim (Bool-cases (bytes_eq j k)) [
  | inl this ↦ Memᴰ.head (ground arith)
  | inr other ↦ Memᴰ.tail (lookup-mem k m v (ground arith))
]

unsubscribe-ClosedAt :
    (node : Bytes) (ch : ℕ) (o o' : Orchestrator)
    → unsubscribe node ch o ≡ some o'
    → ClosedAt ch o'.channels
unfolding unsubscribe
unsubscribe-ClosedAt node ch o o' ended = elim (Option-cases (close o.channels ch)) [
  | inl panic ↦ cc (rw (unsubscribe, panic) at ended)
  | inr (cs, closed) ↦ close-ClosedAt ch o.channels o'.channels (ground arith)
]

-- If a node's unsubscription comes between the two halves of a broadcast, after its channel was
-- collected and before the events are sent, the second half panics: it sends on a closed channel.
pub deliver-collect :
    (node : Bytes) (ch : ℕ) (changes : List RouteEntry) (o o' : Orchestrator)
    → lookup node o.subs ≡ some ch
    → unsubscribe node ch (collect changes o).2 ≡ some o'
    → deliver (collect changes o).0 (collect changes o).1 o' ≡ none
unfolding collect deliver unsubscribe
deliver-collect node ch changes o o' subscribed ended = rw (
  deliver,
  send_all_closed ch (collect changes o).1 o'.channels (collect changes o).0
      (lookup-mem node o.subs ch subscribed)
      (unsubscribe-ClosedAt node ch (collect changes o).2 o' ended),
)
