-- ===== src/Orchestrator/Subscribers.antt =====
-- Subscribe of orchestrator/orchestrator.go, and the function it returns.
use genomedb.Base.{
  ◌≡◌, refl, ap, ◌∙◌, true, false, none, some, Bytes, bytes_eq_refl, [], ◌∷◌, ◌++◌, get_elem?,
  length, if◌then◌else◌,
}
use genomedb.Base.Assoc.{lookup, remove, lookup-remove}
use genomedb.Protocol.{MutationSeed}
use genomedb.Orchestrator.{Orchestrator, subscribe, unsubscribe, push_seed}
use genomedb.Orchestrator.Buffered.{Channel, Channels, make, close}

abbrev fresh : Channel
fresh = record { buffer = []; closed = false }

abbrev shut : Channel
shut = record { buffer = []; closed = true }

-- Two channels were made, and then the first of them is closed.
close_older :
    (cs : Channels)
    → close ((cs ++ fresh ∷ []) ++ fresh ∷ []) (length cs) ≡ some ((cs ++ shut ∷ []) ++ fresh ∷ [])
unfolding close
close_older [] = refl
close_older (c ∷ cs) = rw (close, close_older cs)

newer_open :
    (cs : Channels)
    → get_elem? ((cs ++ shut ∷ []) ++ fresh ∷ []) (length (cs ++ fresh ∷ [])) ≡ some fresh
newer_open [] = refl
newer_open (c ∷ cs) = newer_open cs

-- A node that subscribes again before its first subscription is given back loses the new one when
-- the old one ends: the node has no channel any more, so that no seed is pushed to it, although
-- the new channel is open and nothing of it was closed.
pub unsubscribe-subscribe :
    (node : Bytes) (seed : MutationSeed) (o : Orchestrator)
    → let (old_ch, o1) = subscribe node o in
      let (new_ch, o2) = subscribe node o1 in
      (o3 : Orchestrator) × (unsubscribe node old_ch o2 ≡ some o3)
      × (lookup node o3.subs ≡ none)
      × (push_seed node seed o3 ≡ some o3)
      × (get_elem? o3.channels new_ch ≡ some (record { buffer = []; closed = false }))
unfolding subscribe unsubscribe push_seed make
unsubscribe-subscribe node seed o =
    let o2 = (subscribe node (subscribe node o).1).1 in
    let gone : lookup node (remove node o2.subs) ≡ none =
      lookup-remove node node o2.subs
      ∙ ap (λ c. if c then none else lookup node o2.subs) (bytes_eq_refl node) in
    (
      record o2 { subs = remove node o2.subs; channels = (o.channels ++ shut ∷ []) ++ fresh ∷ [] },
      rw (unsubscribe, subscribe, make, close_older o.channels),
      gone,
      rw (push_seed, gone),
      newer_open o.channels,
    )
