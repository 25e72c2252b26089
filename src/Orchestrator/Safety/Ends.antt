-- ===== src/Orchestrator/Safety/Ends.antt =====
-- The beginning and the end of a stream, by Subscribe of orchestrator.go.
use mathlib.Core.List.{Memᴰ}
use genomedb.Base.{
  ℕ, ◌≡◌, ◌≢◌, refl, ap, sym, ◌∙◌, true, some, List, [], ◌∷◌, map, All, All-mem, All-weaken,
  All-map, Distinct, Bytes, bytes_eq, bytes_eq_iff, Bool-cases, inl, inr,
}
use genomedb.Base.Assoc.{Assoc, insert, remove}
use genomedb.Orchestrator.{Orchestrator, subscribe, unsubscribe}
use genomedb.Orchestrator.Buffered.{make}
use genomedb.Orchestrator.Buffered.Open.{open_at, close_open, make_open}
use genomedb.Orchestrator.Safety.{Stream, without}
use genomedb.Orchestrator.Safety.Operations.{Sound}

All-insert :
    (P : Stream → Type 0) (k : Bytes) (v : ℕ) (m : Assoc ℕ)
    → P (k, v)
    → All P m
    → All P (insert k v m)
unfolding insert
All-insert P k v [] new_row rows = (new_row, tt)
All-insert P k v ((j, w) ∷ m) new_row rows = elim (Bool-cases (bytes_eq j k)) [
  | inl this ↦ rw (insert, this) (new_row, rows.1)
  | inr other ↦ rw (insert, other) (rows.0, All-insert P k v m new_row rows.1)
]

All-remove :
    (P : Stream → Type 0) (k : Bytes) (m : Assoc ℕ)
    → All P m
    → All (λ (r : Stream). P r × (r.0 ≢ k)) (remove k m)
unfolding remove
All-remove P k [] rows = tt
All-remove P k ((j, w) ∷ m) rows = elim (Bool-cases (bytes_eq j k)) [
  | inl this ↦ rw (remove, this) (All-remove P k m rows.1)
  | inr other ↦
      let differs : j ≢ k = λ e. cc (other, (bytes_eq_iff j k).1 e) in
      rw (remove, other) ((rows.0, differs), All-remove P k m rows.1)
]

pub subscribe-Sound :
    (streams : List Stream) (node_id : Bytes) (o : Orchestrator)
    → Sound streams o
    → Sound ((node_id, (subscribe node_id o).0) ∷ streams) (subscribe node_id o).1
unfolding subscribe
subscribe-Sound streams node_id o (open_streams, distinct, owned) =
    let (before, after, kept) = make_open o.channels in
    let ch = (make o.channels).0 in
    (
      (after, All-weaken streams (λ s h. kept s.1 h) open_streams),
      (
        All-map (λ z. z ≢ ch) (λ (s : Stream). s.1) streams
            (All-weaken streams (λ s h e. cc (h, before, ap (λ i. open_at o.channels i) e))
              open_streams),
        distinct,
      ),
      All-insert (λ s. Memᴰ s ((node_id, ch) ∷ streams)) node_id ch o.subs (Memᴰ.head refl)
          (All-weaken o.subs (λ s mem. Memᴰ.tail mem) owned),
    )

All-without :
    (P : Stream → Type 0) (s : Stream) (streams : List Stream) (mem : Memᴰ s streams)
    → All P streams
    → All P (without s streams mem)
All-without P s [] mem all = elim mem [ ]
All-without P s (t ∷ streams) (Memᴰ.head e) all = all.1
All-without P s (t ∷ streams) (Memᴰ.tail mem) all = (all.0, All-without P s streams mem all.1)

All-pair :
    (P Q : Stream → Type 0) (streams : List Stream)
    → All P streams
    → All Q streams
    → All (λ t. P t × Q t) streams
All-pair P Q [] ps qs = tt
All-pair P Q (t ∷ streams) ps qs = ((ps.0, qs.0), All-pair P Q streams ps.1 qs.1)

All-of_map :
    (P : ℕ → Type 0) (streams : List Stream)
    → All P (map (λ (t : Stream). t.1) streams)
    → All (λ (t : Stream). P t.1) streams
All-of_map P [] h = tt
All-of_map P (t ∷ streams) h = (h.0, All-of_map P streams h.1)

All-others :
    (s : Stream) (streams : List Stream) (mem : Memᴰ s streams)
    → Distinct (map (λ (t : Stream). t.1) streams)
    → All (λ (t : Stream). t.1 ≢ s.1) (without s streams mem)
All-others s [] mem distinct = elim mem [ ]
All-others s (t ∷ streams) (Memᴰ.head e) distinct =
    All-weaken streams (λ r d q. d (q ∙ ap (λ (z : Stream). z.1) e))
      (All-of_map (λ z. z ≢ t.1) streams distinct.0)
All-others s (t ∷ streams) (Memᴰ.tail mem) distinct = (
  λ q.
      All-mem (λ (r : Stream). r.1 ≢ t.1) (All-of_map (λ z. z ≢ t.1) streams distinct.0) mem
        (sym q),
  All-others s streams mem distinct.1,
)

Distinct-without :
    (s : Stream) (streams : List Stream) (mem : Memᴰ s streams)
    → Distinct (map (λ (t : Stream). t.1) streams)
    → Distinct (map (λ (t : Stream). t.1) (without s streams mem))
Distinct-without s [] mem distinct = elim mem [ ]
Distinct-without s (t ∷ streams) (Memᴰ.head e) distinct = distinct.1
Distinct-without s (t ∷ streams) (Memᴰ.tail mem) distinct = (
  All-map (λ z. z ≢ t.1) (λ (r : Stream). r.1) (without s streams mem)
      (All-without (λ r. r.1 ≢ t.1) s streams mem (All-of_map (λ z. z ≢ t.1) streams distinct.0)),
  Distinct-without s streams mem distinct.1,
)

mem-without :
    (s r : Stream) (streams : List Stream) (mem : Memᴰ s streams)
    → Memᴰ r streams
    → r ≢ s
    → Memᴰ r (without s streams mem)
mem-without s r [] mem there differs = elim mem [ ]
mem-without s r (t ∷ streams) (Memᴰ.head e) (Memᴰ.head e') differs = absurd (differs (e' ∙ sym e))
mem-without s r (t ∷ streams) (Memᴰ.head e) (Memᴰ.tail there) differs = there
mem-without s r (t ∷ streams) (Memᴰ.tail mem) (Memᴰ.head e') differs = Memᴰ.head e'
mem-without s r (t ∷ streams) (Memᴰ.tail mem) (Memᴰ.tail there) differs =
    Memᴰ.tail (mem-without s r streams mem there differs)

pub unsubscribe-Sound :
    (s : Stream) (streams : List Stream) (mem : Memᴰ s streams) (o : Orchestrator)
    → Sound streams o
    → (o' : Orchestrator) × (unsubscribe s.0 s.1 o ≡ some o') × Sound (without s streams mem) o'
unfolding unsubscribe
unsubscribe-Sound s streams mem o (open_streams, distinct, owned) =
    let (cs, closed, others) =
      close_open o.channels s.1
        (All-mem (λ (t : Stream). open_at o.channels t.1 ≡ true) open_streams mem) in
    (
      record o { subs = remove s.0 o.subs; channels = cs },
      rw (unsubscribe, closed),
      (
        All-weaken (without s streams mem) (λ t (h, differs). others t.1 differs ∙ h)
            (All-pair _ _ (without s streams mem)
              (All-without (λ t. open_at o.channels t.1 ≡ true) s streams mem open_streams)
              (All-others s streams mem distinct)),
        Distinct-without s streams mem distinct,
        All-weaken (remove s.0 o.subs)
            (λ r (there, differs).
              mem-without s r streams mem there (λ e. differs (ap (λ t. t.0) e)))
            (All-remove (λ r. Memᴰ r streams) s.0 o.subs owned),
      ),
    )
