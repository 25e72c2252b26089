-- ===== src/Orchestrator/Buffered/Open.antt =====
-- Which channels are open, and what the operations on channels do to that.
use genomedb.Base.{
  ℕ, zero, suc, ◌≡◌, ◌≢◌, refl, ap, ◌∙◌, Bool, true, false, not, some, List, [], ◌∷◌, ◌++◌, length,
  All, All-weaken, arith, ltb, Bool-cases, inl, inr,
}
use genomedb.Protocol.{Event}
use genomedb.Orchestrator.Buffered.{Channel, Channels, capacity, make, offer, send, send_all, close}

abbrev pub open_at : Channels → ℕ → Bool
open_at [] i = false
open_at (c ∷ cs) zero = not c.closed
open_at (c ∷ cs) (suc i) = open_at cs i

abbrev pub SameOpen : Channels → Channels → Type 0
SameOpen cs cs' = (j : ℕ) → open_at cs' j ≡ open_at cs j

offer_open :
    (c : Channel) (ev : Event)
    → not c.closed ≡ true
    → (c' : Channel) × (offer c ev ≡ some c') × (c'.closed ≡ c.closed)
unfolding offer
offer_open c ev is_open =
    let still : c.closed ≡ false = ground arith in
    elim (Bool-cases (ltb (length c.buffer) capacity)) [
      | inl room ↦ (record c { buffer = c.buffer ++ ev ∷ [] }, rw (offer, still, room), refl)
      | inr full ↦ (c, rw (offer, still, full), refl)
    ]

pub send_open :
    (cs : Channels) (i : ℕ) (ev : Event)
    → open_at cs i ≡ true
    → (cs' : Channels) × (send cs i ev ≡ some cs') × SameOpen cs cs'
unfolding send
send_open [] i ev is_open = cc
send_open (c ∷ cs) zero ev is_open =
    let (c', offered, same) = offer_open c ev is_open in
    (c' ∷ cs, rw (send, offered), first_same c c' cs same)
  where
    first_same :
        (c c' : Channel) (cs : Channels) → c'.closed ≡ c.closed → SameOpen (c ∷ cs) (c' ∷ cs)
    first_same c c' cs same zero = ap not same
    first_same c c' cs same (suc j) = refl
send_open (c ∷ cs) (suc i) ev is_open =
    let (cs', sent, same) = send_open cs i ev is_open in
    (c ∷ cs', rw (send, sent), rest_same c cs cs' same)
  where
    rest_same : (c : Channel) (cs cs' : Channels) → SameOpen cs cs' → SameOpen (c ∷ cs) (c ∷ cs')
    rest_same c cs cs' same zero = refl
    rest_same c cs cs' same (suc j) = same j

pub send_all_open :
    (cs : Channels) (is : List ℕ) (ev : Event)
    → All (λ i. open_at cs i ≡ true) is
    → (cs' : Channels) × (send_all cs is ev ≡ some cs') × SameOpen cs cs'
unfolding send_all
send_all_open cs [] ev all = (cs, refl, λ j. refl)
send_all_open cs (i ∷ is) ev (first, rest) =
    let (cs1, sent, same) = send_open cs i ev first in
    let (cs2, sent2, same2) = send_all_open cs1 is ev (All-weaken is (λ j h. same j ∙ h) rest) in
    (cs2, rw (send_all, sent, sent2), λ j. same2 j ∙ same j)

pub close_open :
    (cs : Channels) (i : ℕ)
    → open_at cs i ≡ true
    → (cs' : Channels) × (close cs i ≡ some cs') × ((j : ℕ) → j ≢ i → open_at cs' j ≡ open_at cs j)
unfolding close
close_open [] i is_open = cc
close_open (c ∷ cs) zero is_open = (record c { closed = true } ∷ cs, ground arith, others c cs)
  where
    others :
        (c : Channel) (cs : Channels) (j : ℕ)
        → j ≢ 0
        → open_at (record c { closed = true } ∷ cs) j ≡ open_at (c ∷ cs) j
    others c cs zero differs = absurd (differs refl)
    others c cs (suc j) differs = refl
close_open (c ∷ cs) (suc i) is_open =
    let (cs', closed, same) = close_open cs i is_open in
    (c ∷ cs', rw (close, closed), others c cs cs' i same)
  where
    others :
        (c : Channel) (cs cs' : Channels) (i : ℕ)
        → ((j : ℕ) → j ≢ i → open_at cs' j ≡ open_at cs j)
        → (j : ℕ) → j ≢ suc i
        → open_at (c ∷ cs') j ≡ open_at (c ∷ cs) j
    others c cs cs' i same zero differs = refl
    others c cs cs' i same (suc j) differs = same j (λ e. differs (ap (λ n. suc n) e))

pub make_open :
    (cs : Channels)
    → (open_at cs (make cs).0 ≡ false)
      × (open_at (make cs).1 (make cs).0 ≡ true)
      × ((j : ℕ) → open_at cs j ≡ true → open_at (make cs).1 j ≡ true)
unfolding make
make_open [] = (refl, refl, λ j h. cc)
make_open (c ∷ cs) = let (before, after, kept) = make_open cs in (before, after, keep c cs kept)
  where
    keep :
        (c : Channel) (cs : Channels)
        → ((j : ℕ) → open_at cs j ≡ true → open_at (make cs).1 j ≡ true)
        → (j : ℕ) → open_at (c ∷ cs) j ≡ true
        → open_at (make (c ∷ cs)).1 j ≡ true
    keep c cs kept zero h = h
    keep c cs kept (suc j) h = kept j h
