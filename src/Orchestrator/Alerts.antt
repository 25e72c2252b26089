-- ===== src/Orchestrator/Alerts.antt =====
-- The rate limit of Alert in orchestrator/orchestrator.go.
use native.Mathlib.Nat.{le_refl}
use genomedb.Base.{
  ℕ, ◌+◌, ◌*◌, ◌≤◌, ◌≡◌, sym, ap, ◌∙◌, true, false, some, Bytes, bytes_eq, bytes_eq_iff,
  bytes_eq_refl, if◌then◌else◌, arith, List, [], ◌∷◌, ◌⊎◌, inl, inr, Bool-cases,
}
use genomedb.Base.Assoc.{lookup, insert, lookup-insert}
use genomedb.Protocol.{ImmuneAlert}
use genomedb.Orchestrator.{Orchestrator, alert, second}

-- Timed alerts of any nodes, one after the other.
abbrev pub run_alerts : List (ImmuneAlert × ℕ) → Orchestrator → Orchestrator
run_alerts [] o = o
run_alerts ((a, now) ∷ later) o = run_alerts later (alert a now o).1

-- The last accepted alert of the node was not before `t`.
abbrev SeenSince : Bytes → ℕ → Orchestrator → Type 0
SeenSince node t o = (last : ℕ) × (lookup node o.alert_bucket ≡ some last) × (t ≤ last)

Accepts : ImmuneAlert → ℕ → Orchestrator → Type 0
Accepts a now o =
    ((alert a now o).0 ≡ true)
    × ((alert a now o).1.alert_bucket ≡ insert a.node_id now o.alert_bucket)

alert_cases :
    (a : ImmuneAlert) (now : ℕ) (o : Orchestrator)
    → (((alert a now o).0 ≡ false) × ((alert a now o).1 ≡ o)) ⊎ Accepts a now o
unfolding alert Accepts
alert_cases a now o = ground arith

alert-accepted :
    (a : ImmuneAlert) (t : ℕ) (o : Orchestrator)
    → (alert a t o).0 ≡ true
    → SeenSince a.node_id t (alert a t o).1
unfolding Accepts
alert-accepted a t o h = elim (alert_cases a t o) [
  | inl (refused, _) ↦ cc
  | inr (_, bucket) ↦ (
    t,
    ap (lookup a.node_id) bucket
        ∙ lookup-insert a.node_id a.node_id t o.alert_bucket
        ∙ ap (λ c. if c then some t else lookup a.node_id o.alert_bucket) (bytes_eq_refl a.node_id),
    le_refl t,
  )
]

accepted_later :
    (a : ImmuneAlert) (now last : ℕ) (o : Orchestrator)
    → lookup a.node_id o.alert_bucket ≡ some last
    → (alert a now o).0 ≡ true
    → last + 3 * second ≤ now
unfolding alert
accepted_later a now last o seen h = ground arith

alert-SeenSince :
    (node : Bytes) (t : ℕ) (a : ImmuneAlert) (now : ℕ) (o : Orchestrator)
    → SeenSince node t o
    → SeenSince node t (alert a now o).1
unfolding Accepts
alert-SeenSince node t a now o (last, seen, le) = elim (alert_cases a now o) [
  | inl (_, same) ↦ (last, ap (λ (s : Orchestrator). lookup node s.alert_bucket) same ∙ seen, le)
  | inr (accepted, bucket) ↦ elim (Bool-cases (bytes_eq a.node_id node)) [
    | inl this ↦ (
      now,
      ap (lookup node) bucket
          ∙ lookup-insert a.node_id node now o.alert_bucket
          ∙ ap (λ c. if c then some now else lookup node o.alert_bucket) this,
      later this accepted,
    )
    | inr other ↦ (
      last,
      ap (lookup node) bucket
          ∙ lookup-insert a.node_id node now o.alert_bucket
          ∙ ap (λ c. if c then some now else lookup node o.alert_bucket) other
          ∙ seen,
      le,
    )
  ]
]
  where
    later : bytes_eq a.node_id node ≡ true → (alert a now o).0 ≡ true → t ≤ now
    later this accepted = omega (
      arith,
      accepted_later a now last o
          (ap (λ k. lookup k o.alert_bucket) ((bytes_eq_iff a.node_id node).0 this) ∙ seen)
          accepted,
    )

run_alerts-SeenSince :
    (node : Bytes) (t : ℕ) (later : List (ImmuneAlert × ℕ)) (o : Orchestrator)
    → SeenSince node t o
    → SeenSince node t (run_alerts later o)
run_alerts-SeenSince node t [] o h = h
run_alerts-SeenSince node t ((a, now) ∷ later) o h =
    run_alerts-SeenSince node t later (alert a now o).1 (alert-SeenSince node t a now o h)

-- Two accepted alerts of one node are at least three seconds apart, whatever alerts of whatever
-- nodes come between them.
pub alert_spacing :
    (o : Orchestrator) (a b : ImmuneAlert) (t u : ℕ) (between : List (ImmuneAlert × ℕ))
    → a.node_id ≡ b.node_id
    → (alert a t o).0 ≡ true
    → (alert b u (run_alerts between (alert a t o).1)).0 ≡ true
    → t + 3 * second ≤ u
alert_spacing o a b t u between same first again =
    let o' = run_alerts between (alert a t o).1 in
    let (last, seen, le) =
      run_alerts-SeenSince a.node_id t between (alert a t o).1 (alert-accepted a t o first) in
    omega (
      arith,
      accepted_later b u last o' (ap (λ k. lookup k o'.alert_bucket) (sym same) ∙ seen) again,
    )
