-- ===== src/Store/Keys.antt =====
-- The primary keys of the tables of store/store.go.
use genomedb.Base.{
  ◌≢◌, sym, subst, List, [], ◌∷◌, map, Bytes, bytes_eq, bytes_eq_iff, All, Distinct, Bool-cases,
  inl, inr,
}
use genomedb.Base.Assoc.{Assoc, insert}

-- The keys of a table.
abbrev pub keys : {V : Type 0} → Assoc V → List Bytes
keys rows = map (λ r. r.0) rows

abbrev pub IsTable : {V : Type 0} → Assoc V → Type 0
IsTable rows = Distinct (keys rows)

module _ {V : Type 0} where
  All-insert :
      (P : Bytes → Type 0) (k : Bytes) (v : V) (rows : Assoc V)
      → P k
      → All P (keys rows)
      → All P (keys (insert k v rows))
  unfolding insert
  All-insert P k v [] one all = (one, tt)
  All-insert P k v ((j, w) ∷ rows) one (first, rest) = elim (Bool-cases (bytes_eq j k)) [
    | inl same ↦ rw (insert, same) (one, rest)
    | inr other ↦ rw (insert, other) (first, All-insert P k v rows one rest)
  ]

  pub insert-IsTable :
      (k : Bytes) (v : V) (rows : Assoc V) → IsTable rows → IsTable (insert k v rows)
  unfolding insert
  insert-IsTable k v [] table = (tt, tt)
  insert-IsTable k v ((j, w) ∷ rows) (new, table) = elim (Bool-cases (bytes_eq j k)) [
    | inl same ↦
        rw (insert, same)
          (subst (λ t. All (λ z. z ≢ t) (keys rows)) ((bytes_eq_iff j k).0 same) new, table)
    | inr other ↦
        let apart : k ≢ j = λ e. cc (other, (bytes_eq_iff j k).1 (sym e)) in
        rw (insert, other)
          (All-insert (λ z. z ≢ j) k v rows apart new, insert-IsTable k v rows table)
  ]
