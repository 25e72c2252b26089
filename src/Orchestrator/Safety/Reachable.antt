-- ===== src/Orchestrator/Safety/Reachable.antt =====
-- What holds in every state that the orchestrator reaches.
use mathlib.Core.List.{Memᴰ}
use genomedb.Base.{
  ℕ, ◌<◌, ◌≡◌, refl, subst, ap, sym, ◌∙◌, Bool, true, false, Option, none, some, List, [], ◌∷◌,
  length, ◌==◌, zero, suc, All-mem, Bytes, arith, Bool-cases, if◌then◌else◌, Option-cases, inl, inr,
}
use genomedb.Protocol.{Event, Heartbeat, ImmuneAlert}
use genomedb.Orchestrator.{
  Orchestrator, register, heartbeat, alert, snapshot, node_list, subscribe, unsubscribe,
  scheduled_round,
}
use genomedb.Orchestrator.Buffered.{Channels}
use genomedb.Orchestrator.Buffered.Open.{open_at, SameOpen}
use genomedb.Orchestrator.Server.{
  Request, Answer, serve, stream, receive, no_content, bad_request, too_many_requests,
  internal_server_error, registered, routes, nodes, post_register, post_announce, post_heartbeat,
  post_ack, post_alert, get_map, get_nodes, get_events,
}
use genomedb.Orchestrator.Safety.{
  Stream, without, opened, Reaches, at_start, served, written, pushed, ended,
}
use genomedb.Orchestrator.Safety.Operations.{
  Sound, Sound-Harmless, announce_route-Harmless, acknowledge-Harmless, scheduled_round-Harmless,
}
use genomedb.Orchestrator.Safety.Ends.{subscribe-Sound, unsubscribe-Sound}

receive-SameOpen :
    (cs cs' : Channels) (i : ℕ) (ev : Event) → receive cs i ≡ some (ev, cs') → SameOpen cs cs'
unfolding receive
receive-SameOpen [] cs' i ev run = cc
receive-SameOpen (c ∷ cs) cs' zero ev run = by_buffer c.buffer refl
  where
    same_first : (buffer : List Event) → SameOpen (c ∷ cs) (record c { buffer = buffer } ∷ cs)
    same_first buffer zero = refl
    same_first buffer (suc j) = refl

    by_buffer : (buffer : List Event) → c.buffer ≡ buffer → SameOpen (c ∷ cs) cs'
    by_buffer [] empty = cc (rw (receive, empty) at run)
    by_buffer (first ∷ buffer) full =
        let left : record c { buffer = buffer } ∷ cs ≡ cs' =
          ground (arith, rw (receive, full) at run) in
        subst (λ (t : Channels). SameOpen (c ∷ cs) t) left (same_first buffer)
receive-SameOpen (c ∷ cs) cs' (suc i) ev run = elim (Option-cases (receive cs i)) [
  | inl nothing ↦ cc (rw (receive, nothing) at run)
  | inr ((ev', cs1), taken) ↦
      let left : c ∷ cs1 ≡ cs' = ground (arith, rw (receive, taken) at run) in
      subst (λ (t : Channels). SameOpen (c ∷ cs) t) left
        (same_rest cs1 (receive-SameOpen cs cs1 i ev' taken))
]
  where
    same_rest : (cs1 : Channels) → SameOpen cs cs1 → SameOpen (c ∷ cs) (c ∷ cs1)
    same_rest cs1 same zero = refl
    same_rest cs1 same (suc j) = same j

abbrev or_else : {A : Type 0} → A → Option A → A
or_else a none = a
or_else a (some b) = b

heartbeat-same :
    (hb : Heartbeat) (now : ℕ) (o : Orchestrator)
    → ((heartbeat hb now o).subs ≡ o.subs) × ((heartbeat hb now o).channels ≡ o.channels)
unfolding heartbeat
heartbeat-same hb now o = ground arith

alert-same :
    (a : ImmuneAlert) (now : ℕ) (o : Orchestrator)
    → ((alert a now o).1.subs ≡ o.subs) × ((alert a now o).1.channels ≡ o.channels)
unfolding alert
alert-same a now o = ground arith

module _ (sha256 : Bytes → Bytes) where
  -- A request that is answered, and what it leaves sound.
  abbrev Answered : Bool → Request → ℕ → List Stream → Orchestrator → Type 0
  Answered flushes req now streams o =
      (answer : Answer) × (o' : Orchestrator) × (serve sha256 flushes req now o ≡ some (answer, o'))
      × Sound (opened req answer streams) o'

  serve-Sound :
      (flushes : Bool) (req : Request) (now : ℕ) (streams : List Stream) (o : Orchestrator)
      → Sound streams o
      → Answered flushes req now streams o
  unfolding serve register
  serve-Sound flushes (post_register none) now streams o sound = (bad_request, o, refl, sound)
  serve-Sound flushes (post_register (some req)) now streams o sound = (
    registered (record { accepted = true }),
    register req.node_id req.endpoint now o,
    refl,
    sound,
  )
  serve-Sound flushes (post_announce none) now streams o sound = (bad_request, o, refl, sound)
  serve-Sound flushes (post_announce (some a)) now streams o sound =
      let (o', done, subs, same) = announce_route-Harmless streams a o sound in
      (no_content, o', rw (serve, done), Sound-Harmless streams o o' subs same sound)
  serve-Sound flushes (post_heartbeat none) now streams o sound = (bad_request, o, refl, sound)
  serve-Sound flushes (post_heartbeat (some hb)) now streams o sound =
      let (subs, channels) = heartbeat-same hb now o in
      (
        no_content,
        heartbeat hb now o,
        refl,
        Sound-Harmless streams o (heartbeat hb now o) subs
            (λ j. ap (λ (cs : Channels). open_at cs j) channels) sound,
      )
  serve-Sound flushes (post_ack none) now streams o sound = (bad_request, o, refl, sound)
  serve-Sound flushes (post_ack (some ack)) now streams o sound =
      let (o', done, subs, same) = acknowledge-Harmless sha256 streams ack o sound in
      (no_content, o', rw (serve, done), Sound-Harmless streams o o' subs same sound)
  serve-Sound flushes (post_alert none) now streams o sound = (bad_request, o, refl, sound)
  serve-Sound flushes (post_alert (some a)) now streams o sound =
      let (subs, channels) = alert-same a now o in
      (
        if (alert a now o).0 then no_content else too_many_requests,
        (alert a now o).1,
        refl,
        Sound-Harmless streams o (alert a now o).1 subs
            (λ j. ap (λ (cs : Channels). open_at cs j) channels) sound,
      )
  serve-Sound flushes get_map now streams o sound = (routes (snapshot o), o, refl, sound)
  serve-Sound flushes get_nodes now streams o sound = (nodes (node_list o), o, refl, sound)
  serve-Sound flushes (get_events node_id) now streams o sound =
      elim (Bool-cases (length node_id == 0)) [
        | inl nameless ↦ (bad_request, o, rw (serve, nameless), sound)
        | inr named ↦ by_flushes flushes named
      ]
    where
      by_flushes :
          (flushes : Bool)
          → (length node_id == 0) ≡ false
          → Answered flushes (get_events node_id) now streams o
      by_flushes false named = (internal_server_error, o, rw (serve, named), sound)
      by_flushes true named =
          let (ch, o') = subscribe node_id o in
          (stream ch, o', rw (serve, named), subscribe-Sound streams node_id o sound)

  Reaches-Sound :
      (streams : List Stream) (o : Orchestrator) → Reaches sha256 streams o → Sound streams o
  Reaches-Sound streams o at_start = (tt, tt, tt)
  Reaches-Sound streams o
        (served {streams = before_streams} {o = o1} flushes req now answer before run) =
      let (answer1, o2, run1, sound) =
        serve-Sound flushes req now before_streams o1 (Reaches-Sound before_streams o1 before) in
      subst (λ (t : Answer × Orchestrator). Sound (opened req t.0 before_streams) t.1)
        (ap (λ r. or_else (answer, o) r) (sym run1 ∙ run)) sound
  Reaches-Sound streams o (written {streams = before_streams} {o = o1} ch ev cs before run) =
      Sound-Harmless streams o1 o refl (receive-SameOpen o1.channels cs ch ev run)
        (Reaches-Sound streams o1 before)
  Reaches-Sound streams o
        (pushed {streams = before_streams} {o = o1} pick seed in_range before run) =
      let sound = Reaches-Sound before_streams o1 before in
      let (o2, run1, subs, same) =
        scheduled_round-Harmless before_streams pick seed o1 in_range sound in
      subst (λ (t : Orchestrator). Sound before_streams t) (ap (λ r. or_else o r) (sym run1 ∙ run))
        (Sound-Harmless before_streams o1 o2 subs same sound)
  Reaches-Sound streams o (ended {streams = before_streams} {o = o1} s mem before run) =
      let (o2, run1, sound) =
        unsubscribe-Sound s before_streams mem o1 (Reaches-Sound before_streams o1 before) in
      subst (λ (t : Orchestrator). Sound (without s before_streams mem) t)
        (ap (λ r. or_else o r) (sym run1 ∙ run)) sound

  -- In every state that the orchestrator reaches, when requests, rounds and ends of streams are each
  -- one step, every request is answered and every round of scheduled mutations ends: no send meets a
  -- closed channel.
  pub Reaches-serve :
      (streams : List Stream) (o : Orchestrator) (flushes : Bool) (req : Request) (now : ℕ)
      → (pick : ℕ → Option ℕ) (seed : Option Bytes) → Reaches sha256 streams o
      → ((n i : ℕ) → pick n ≡ some i → i < n)
      → ((answer : Answer) × (o' : Orchestrator) × (serve sha256 flushes req now o
            ≡ some (answer, o')))
        × ((o' : Orchestrator) × (scheduled_round pick seed o ≡ some o'))
  Reaches-serve streams o flushes req now pick seed reached in_range =
      let sound = Reaches-Sound streams o reached in
      let (answer, o', run, rest) = serve-Sound flushes req now streams o sound in
      let (o1, run1, subs, same) = scheduled_round-Harmless streams pick seed o in_range sound in
      ((answer, o', run), (o1, run1))

  -- In every such state, the channel of an open stream is open, and the end of the stream closes it
  -- without a panic.
  pub Reaches-unsubscribe :
      (streams : List Stream) (o : Orchestrator) (s : Stream)
      → Reaches sha256 streams o
      → Memᴰ s streams
      → (open_at o.channels s.1 ≡ true) × (o' : Orchestrator) × (unsubscribe s.0 s.1 o ≡ some o')
  Reaches-unsubscribe streams o s reached mem =
      let sound = Reaches-Sound streams o reached in
      let (o', run, rest) = unsubscribe-Sound s streams mem o sound in
      (All-mem (λ (t : Stream). open_at o.channels t.1 ≡ true) sound.0 mem, o', run)
