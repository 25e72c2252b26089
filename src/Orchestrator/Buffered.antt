-- ===== src/Orchestrator/Buffered.antt =====
-- Go's buffered channels of events, as orchestrator.go uses them.
pub mod Open
use genomedb.Base.{
  ℕ, zero, suc, Bool, true, false, Option, none, some, List, [], ◌∷◌, ◌++◌, length, ltb,
  if◌then◌else◌,
}
use genomedb.Protocol.{Event}

pub record Channel : Type 0 where
  pub buffer : List Event
  pub closed : Bool

abbrev pub Channels : Type 0
Channels = List Channel

-- make(chan protocol.Event, 16)
abbrev pub capacity : ℕ
capacity = 16

unfoldable pub make : Channels → ℕ × Channels
make cs = (length cs, cs ++ record { buffer = []; closed = false } ∷ [])

-- select { case ch <- ev: default: }: a send on a closed channel panics even here.
unfoldable pub offer : Channel → Event → Option Channel
offer c ev =
    if c.closed
    then none
    else some
        (if ltb (length c.buffer) capacity then record c { buffer = c.buffer ++ ev ∷ [] } else c)

unfoldable pub send : Channels → ℕ → Event → Option Channels
unfolding offer
send [] i ev = none
send (c ∷ cs) zero ev = elim (offer c ev) [ none ↦ none | some c' ↦ some (c' ∷ cs) ]
send (c ∷ cs) (suc i) ev = elim (send cs i ev) [ none ↦ none | some cs' ↦ some (c ∷ cs') ]

-- The loop over the subscribers' channels.
unfoldable pub send_all : Channels → List ℕ → Event → Option Channels
unfolding send
send_all cs [] ev = some cs
send_all cs (i ∷ is) ev = elim (send cs i ev) [ none ↦ none | some cs' ↦ send_all cs' is ev ]

unfoldable pub close : Channels → ℕ → Option Channels
close [] i = none
close (c ∷ cs) zero = if c.closed then none else some (record c { closed = true } ∷ cs)
close (c ∷ cs) (suc i) = elim (close cs i) [ none ↦ none | some cs' ↦ some (c ∷ cs') ]
