-- ===== src/Client/Watchdog.antt =====
-- client/watchdog.go. The three signals are arguments, since their detection depends on the
-- operating system; so are the readings of the clock, in nanoseconds: the one that tick compares
-- with the end of the cooldown, and the later one from which react counts the next cooldown.
pub mod Reactions
use genomedb.Base.{
  ℕ, ◌+◌, ◌*◌, Bool, true, false, ◌||◌, not, Option, none, some, List, [], ◌∷◌, ◌++◌, ltb, leb,
  ◌==◌, if◌then◌else◌, Bytes, ascii, Result, ok, err,
}
use genomedb.Store.{list_fragment_pids}
use genomedb.Client.Node.{Packages, Node, Call, immune_alert, cold_mutate}

pub record Watchdog : Type 0 where
  pub last_score : ℕ
  pub confirmed_ticks : ℕ
  pub start_ppid : ℕ
  pub cooldown_until : ℕ

pub record Signals : Type 0 where
  pub remote_session : Bool
  pub debugger_attached : Bool
  pub reparented : Bool

pub data Severity : Type 0 where
  confirmed suspect : Severity

abbrev pub weight_remote_session : ℕ
weight_remote_session = 15

abbrev pub weight_debugger_attached : ℕ
weight_debugger_attached = 60

abbrev pub weight_reparented : ℕ
weight_reparented = 10

abbrev pub score_suspect : ℕ
score_suspect = 20

abbrev pub score_confirm : ℕ
score_confirm = 55

abbrev pub confirm_streak : ℕ
confirm_streak = 2

abbrev pub second : ℕ
second = 1000000000

abbrev pub cooldown : Severity → ℕ
cooldown confirmed = 20 * second
cooldown suspect = 10 * second

unfoldable pub score_of : Signals → ℕ
score_of s =
    (if s.remote_session then weight_remote_session else 0)
    + (if s.debugger_attached then weight_debugger_attached else 0)
    + (if s.reparented then weight_reparented else 0)

unfoldable pub new_watchdog : ℕ → Watchdog
new_watchdog ppid = record {
  last_score = 0;
  confirmed_ticks = 0;
  start_ppid = ppid;
  cooldown_until = 0;
}

-- What react does to the watchdog.
unfoldable pub react : Severity → ℕ → Watchdog → Watchdog
react severity later w = record w {
  cooldown_until = later + cooldown severity;
  confirmed_ticks = 0;
}

-- A tick: the reaction, if there is one, and the watchdog after it.
unfoldable pub tick : Bool → Bool → ℕ → ℕ → ℕ → Watchdog → Option Severity × Watchdog
unfolding react score_of
tick remote_session debugger_attached ppid now later w =
    let score = score_of (record {
      remote_session = remote_session;
      debugger_attached = debugger_attached;
      reparented = not (ppid == w.start_ppid);
    }) in
    let ticks = if leb score_confirm score then w.confirmed_ticks + 1 else 0 in
    let w' = record w { last_score = score; confirmed_ticks = ticks } in
    if ltb now w.cooldown_until
    then (none, w')
    else if leb confirm_streak ticks
    then (some confirmed, react confirmed later w')
    else if leb score_suspect score
    then (some suspect, react suspect later w')
    else (none, w')

unfoldable pub simulate_attack : ℕ → Watchdog → Option Severity × Watchdog
unfolding react
simulate_attack later w = (some confirmed, react confirmed later w)

abbrev pub alerts_for : Severity → Bytes → Bytes → ℕ → List Call
alerts_for confirmed node_id pid now =
    immune_alert
      (record { node_id = node_id; pid = pid; severity = ascii "confirmed"; sent_at = now })
    ∷ []
alerts_for suspect node_id pid now = []

module _ (p : Packages) where
  -- The loop of react over the fragments that the node holds; a failed mutation is passed over.
  unfoldable pub mutate_all :
      Severity → ℕ → List Bytes → Node p.entropy.Source → List Call × Node p.entropy.Source
  mutate_all severity now [] n = ([], n)
  mutate_all severity now (pid ∷ pids) n =
      let (result, n') = cold_mutate p pid now n in
      let (later, last) = mutate_all severity now pids n' in
      elim result [
        | err e ↦ (later, last)
        | ok calls ↦ (calls ++ alerts_for severity n.node_id pid now ++ later, last)
      ]

  -- What react does to the node before it starts to share its groups again.
  unfoldable pub react_locally :
      Severity → ℕ → Node p.entropy.Source → List Call × Node p.entropy.Source
  unfolding mutate_all
  react_locally severity now n = elim (list_fragment_pids p.gcm p.codec n.store) [
    | err e ↦ ([], n)
    | ok pids ↦ mutate_all severity now pids n
  ]
