-- ===== src/Client/Immune.antt =====
-- client/watchdog.go with the node that it guards and the network: a tick, and the reaction to it.
-- ForceReshareOwned, which runs in a goroutine of its own, is run here after the rest.
pub mod Promises
use genomedb.Base.{ℕ, Bool, true, false, Option, none, some, List, ok}
use genomedb.Transport.{Http, Json}
use genomedb.Client.Detection.{Platform, detect_debugger, detect_remote_session}
use genomedb.Client.Node.{Packages, Node, NodeError, Call}
use genomedb.Client.SelfHeal.{force_reshare_owned}
use genomedb.Client.Watchdog.{
  Watchdog, Severity, confirmed, suspect, tick, simulate_attack, react_locally,
}
use genomedb.Client.World.{World, Action, pure, ◌>>=◌, ◌>>◌, on_node, place_all}

module _ (p : Packages) (h : Http) (json : Json) where
  -- The end of react: only a confirmed incident shares the groups again.
  unfoldable pub reshare_after : Severity → Action p h json (Unit {0})
  unfolding force_reshare_owned
  reshare_after confirmed = force_reshare_owned p h json
  reshare_after suspect = pure tt

  -- What react does to the node and to the network.
  unfoldable pub respond : Severity → Action p h json (Unit {0})
  unfolding react_locally place_all reshare_after
  respond severity w =
      (do
        calls ← on_node (λ n. let (calls, n') = react_locally p severity w.now n in (ok calls, n'))
        place_all p h json calls
        reshare_after severity)
        w

  abbrev pub Guarded : Type 0
  Guarded = Watchdog × World p.entropy.Source h.State

  unfoldable pub after_tick : Option Severity × Watchdog → World p.entropy.Source h.State → Guarded
  unfolding respond
  after_tick (none, dog) w = (dog, w)
  after_tick (some severity, dog) w = (dog, (respond severity w).1)

  -- A tick on a platform, with the present parent process and the time from which the cooldown counts.
  unfoldable pub watch : Platform → ℕ → ℕ → Guarded → Guarded
  unfolding tick detect_remote_session detect_debugger after_tick
  watch os ppid later (dog, w) =
      after_tick (tick (detect_remote_session os) (detect_debugger os) ppid w.now later dog) w

  unfoldable pub attack : ℕ → Guarded → Guarded
  unfolding simulate_attack after_tick
  attack later (dog, w) = after_tick (simulate_attack later dog) w
