-- ===== src/Client/Watchdog/Reactions.antt =====
-- When the watchdog of client/watchdog.go reacts.
use genomedb.Base.{
  ℕ, ◌+◌, ◌≡◌, ◌↔◌, ◌≤◌, ◌⊎◌, inl, inr, Bool, true, false, Option, none, some, List, [], ◌∷◌, All,
  arith, Bool-cases,
}
use genomedb.Client.Watchdog.{
  Watchdog, Signals, Severity, confirmed, suspect, tick, react, score_of, score_confirm, cooldown,
}

-- The arguments of a tick.
pub record Reading : Type 0 where
  pub remote_session : Bool
  pub debugger_attached : Bool
  pub ppid : ℕ
  pub now : ℕ
  pub later : ℕ

abbrev pub tick_on : Reading → Watchdog → Option Severity × Watchdog
tick_on r w = tick r.remote_session r.debugger_attached r.ppid r.now r.later w

abbrev pub run_ticks : List Reading → Watchdog → Watchdog
run_ticks [] w = w
run_ticks (r ∷ readings) w = run_ticks readings (tick_on r w).1

score_debugger : (s : Signals) → score_confirm ≤ score_of s → s.debugger_attached ≡ true
unfolding score_of
score_debugger s h = ground arith

tick_confirms :
    (r : Reading) (w : Watchdog)
    → (tick_on r w).0 ≡ some confirmed
    → (1 ≤ w.confirmed_ticks) × (r.debugger_attached ≡ true)
unfolding tick score_of
tick_confirms r w h = ground arith

tick_resets :
    (r : Reading) (w : Watchdog) → r.debugger_attached ≡ false → (tick_on r w).1.confirmed_ticks ≡ 0
unfolding tick score_of react
tick_resets r w h = ground arith

-- The watchdog reacts as to a confirmed incident only if the debugger signal was there in this
-- tick and in the one before it.
pub confirmed_twice :
    (before this : Reading) (w : Watchdog)
    → (tick_on this (tick_on before w).1).0 ≡ some confirmed
    → (before.debugger_attached ≡ true) × (this.debugger_attached ≡ true)
confirmed_twice before this w h =
    let (streak, attached) = tick_confirms this (tick_on before w).1 h in
    elim (Bool-cases before.debugger_attached) [
      | inl yes_before ↦ (yes_before, attached)
      | inr no_before ↦ absurd (omega (arith, streak, tick_resets before w no_before))
    ]

-- Outside the cooldown, a tick is without a reaction
-- exactly when no debugger is attached and at most one of the other two signals is there: a
-- debugger alone is enough for a reaction.
pub tick_silent :
    (r : Reading) (w : Watchdog)
    → w.cooldown_until ≤ r.now
    → ((tick_on r w).0 ≡ none)
      ↔ ((r.debugger_attached ≡ false) × ((r.remote_session ≡ false) ⊎ (r.ppid ≡ w.start_ppid)))
unfolding tick score_of
tick_silent r w h = ground arith

later_cooldown :
    (t : ℕ) (r : Reading) (w : Watchdog)
    → r.now ≤ r.later
    → t ≤ w.cooldown_until
    → t ≤ (tick_on r w).1.cooldown_until
unfolding tick react
later_cooldown t r w clock h = ground arith

run_ticks_cooldown :
    (t : ℕ) (readings : List Reading) (w : Watchdog)
    → All (λ (r : Reading). r.now ≤ r.later) readings
    → t ≤ w.cooldown_until
    → t ≤ (run_ticks readings w).cooldown_until
run_ticks_cooldown t [] w clocks h = h
run_ticks_cooldown t (r ∷ readings) w (clock, clocks) h =
    run_ticks_cooldown t readings (tick_on r w).1 clocks (later_cooldown t r w clock h)

reaction_cooldown :
    (severity : Severity) (r : Reading) (w : Watchdog)
    → (tick_on r w).0 ≡ some severity
    → (tick_on r w).1.cooldown_until ≡ r.later + cooldown severity
unfolding tick react
reaction_cooldown severity r w h = ground arith

reaction_now :
    (severity : Severity) (r : Reading) (w : Watchdog)
    → (tick_on r w).0 ≡ some severity
    → w.cooldown_until ≤ r.now
unfolding tick
reaction_now severity r w h = ground arith

cooldown_spacing :
    (first again : Severity) (r s : Reading) (between : List Reading) (w : Watchdog)
    → All (λ (x : Reading). x.now ≤ x.later) between
    → (tick_on r w).0 ≡ some first
    → (tick_on s (run_ticks between (tick_on r w).1)).0 ≡ some again
    → r.later + cooldown first ≤ s.now
cooldown_spacing first again r s between w clocks reacted reacted_again =
    let w' = run_ticks between (tick_on r w).1 in
    omega (
      arith,
      reaction_now again s w' reacted_again,
      run_ticks_cooldown (r.later + cooldown first) between (tick_on r w).1 clocks
          (let same = reaction_cooldown first r w reacted in omega (arith, same)),
    )

-- Two ticks that react are apart by at least 20 seconds if the first reacts to a confirmed incident,
-- and by at least 10 seconds if it reacts to a suspicion, whatever ticks come between them, if the
-- clock does not go back within one of these. The time is in nanoseconds, and the first tick's
-- counts from its reaction.
pub reaction_spacing :
    (first again : Severity) (r s : Reading) (between : List Reading) (w : Watchdog)
    → All (λ (x : Reading). x.now ≤ x.later) between
    → (tick_on r w).0 ≡ some first
    → (tick_on s (run_ticks between (tick_on r w).1)).0 ≡ some again
    → r.later + (elim first [ confirmed ↦ 20000000000 | suspect ↦ 10000000000 ]) ≤ s.now
reaction_spacing confirmed again r s between w clocks reacted reacted_again =
    cooldown_spacing confirmed again r s between w clocks reacted reacted_again
reaction_spacing suspect again r s between w clocks reacted reacted_again =
    cooldown_spacing suspect again r s between w clocks reacted reacted_again
