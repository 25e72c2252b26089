-- ===== src/Tests/Watching.antt =====
-- The theorems about client/watchdog.go at concrete inputs.
use genomedb.Base.{ℕ, ◌+◌, ◌*◌, ◌≡◌, ◌≤◌, ◌↔◌, ◌⊎◌, refl, true, false, none, [], ◌∷◌, arith}
use genomedb.Client.Watchdog.{Watchdog, tick, react, score_of, suspect, second}
use genomedb.Client.Watchdog.Reactions.{Reading, tick_on, tick_silent, reaction_spacing}

abbrev attached : ℕ → Reading
attached t = record {
  remote_session = false;
  debugger_attached = true;
  ppid = 1;
  now = t * second;
  later = t * second;
}

abbrev quiet : ℕ → Reading
quiet t = record (attached t) { debugger_attached = false }

-- A watchdog whose last tick saw a debugger during a cooldown.
abbrev alerted : Watchdog
alerted = record {
  last_score = 0;
  confirmed_ticks = 0;
  start_ppid = 1;
  cooldown_until = 2 * second;
}

tick_silent_example :
    ((tick_on (attached 5) alerted).0 ≡ none)
    ↔ ((true ≡ false) × ((false ≡ false) ⊎ (◌≡◌ {A = ℕ} 1 1)))
tick_silent_example = tick_silent (attached 5) alerted (omega arith)

reaction_spacing_example : 5 * second + 10 * second ≤ 16 * second
unfolding tick react score_of
reaction_spacing_example =
    reaction_spacing suspect suspect (attached 5) (record (attached 16) { ppid = 1 })
      (quiet 6 ∷ quiet 7 ∷ []) alerted (omega arith, (omega arith, tt)) refl refl
