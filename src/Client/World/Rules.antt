-- ===== src/Client/World/Rules.antt =====
-- How to reason about the actions of a node: what they do to the world, whatever their result, and
-- what holds when they succeed.
use genomedb.Base.{◌≡◌, ap, subst, Result, ok, err, Result-cases, inl, inr, arith}
use genomedb.Client.Node.{NodeError}
use genomedb.Client.World.{World, Act, wrapped, pure, fail, ◌>>=◌}

abbrev value_or : {A : Type 0} → A → Result NodeError A → A
value_or a (ok b) = b
value_or a (err e) = a

module _ {Source Net : Type 0} where
  -- A relation between the worlds before and after.
  module _ (R : World Source Net → World Source Net → Type 0)
      (trans : (u v w : World Source Net) → R u v → R v w → R u w) where
    abbrev pub Within : {A : Type 0} → Act Source Net A → Type 0
    Within m = (w : World Source Net) → R w (m w).1

    -- The same, for the runs that fail.
    abbrev pub FailsWithin : {A : Type 0} → Act Source Net A → Type 0
    FailsWithin m = (w : World Source Net) (e : NodeError) → (m w).0 ≡ err e → R w (m w).1

    pub Within-bind :
        {A C : Type 0} (m : Act Source Net A) (next : A → Act Source Net C)
        → Within m
        → ((a : A) → Within (next a))
        → Within (m >>= next)
    unfolding ◌>>=◌
    Within-bind m next first later w = elim (Result-cases (m w).0) [
      | inl (e, failed) ↦ rw (failed) (first w)
      | inr (a, done) ↦ rw (done) (trans w (m w).1 (next a (m w).1).1 (first w) (later a (m w).1))
    ]

    pub FailsWithin-bind :
        {A C : Type 0} (m : Act Source Net A) (next : A → Act Source Net C)
        → Within m
        → ((a : A) → FailsWithin (next a))
        → FailsWithin (m >>= next)
    unfolding ◌>>=◌
    FailsWithin-bind m next first later w e = elim (Result-cases (m w).0) [
      | inl (e', failed) ↦ rw (failed) (λ run. first w)
      | inr (a, done) ↦
          rw (done) (λ run. trans w (m w).1 (next a (m w).1).1 (first w) (later a (m w).1 e run))
    ]

  -- What a run from `w` gives when it succeeds.
  abbrev pub Ensures :
      {A : Type 0} → Act Source Net A → World Source Net → (A → World Source Net → Type 0) → Type 0
  Ensures {A} m w Post = (a : A) (w' : World Source Net) → m w ≡ (ok a, w') → Post a w'

  pub Ensures-bind :
      {A C : Type 0} (m : Act Source Net A) (next : A → Act Source Net C) (w : World Source Net)
      → (Mid : A → World Source Net → Type 0) (Post : C → World Source Net → Type 0)
      → Ensures m w Mid
      → ((a : A) (v : World Source Net) → Mid a v → Ensures (next a) v Post)
      → Ensures (m >>= next) w Post
  unfolding ◌>>=◌
  Ensures-bind m next w Mid Post first later c w' run = elim (Result-cases (m w).0) [
    | inl (e, failed) ↦ cc (rw (failed) at run)
    | inr (a, done) ↦
        later a (m w).1 (first a (m w).1 (ap (λ r. (r, (m w).1)) done)) c w' (rw (done) at run)
  ]

  -- What holds where a run returns holds of its result.
  pub returned :
      {A : Type 0} (Post : A → World Source Net → Type 0) (a b : A) (w v : World Source Net)
      → Post a w
      → ◌≡◌ {A = Result NodeError A × World Source Net} (ok a, w) (ok b, v)
      → Post b v
  returned Post a b w v holds run = subst (λ r. Post (value_or a r.0) r.1) run holds

  pub wrapped_lem :
      {E A : Type 0} (wrap : E → NodeError) (r : Result E A) (w : World Source Net)
      → Ensures (wrapped wrap r) w (λ a v. (r ≡ ok a) × (v ≡ w))
  unfolding wrapped
  wrapped_lem wrap (ok a) w b v run = ground arith
  wrapped_lem wrap (err e) w b v run = ground arith

  pub pure-Ensures :
      {A : Type 0} (a : A) (w : World Source Net) (Post : A → World Source Net → Type 0)
      → Post a w
      → Ensures (pure a) w Post
  unfolding pure
  pure-Ensures a w Post holds b v run = returned Post a b w v holds run

  pub fail-Ensures :
      {A C : Type 0} (e : NodeError) (next : A → Act Source Net C) (w : World Source Net)
      → (Post : C → World Source Net → Type 0) → Ensures (fail e >>= next) w Post
  unfolding fail ◌>>=◌
  fail-Ensures e next w Post c v run = ground arith
