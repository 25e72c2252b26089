-- ===== src/Client/SelfHeal/Promises.antt =====
-- Healing as a whole, of client/selfheal.go.
use mathlib.Core.List.{Memᴰ}
use genomedb.Base.{
  ◌≡◌, ◌≢◌, refl, ap, ap₂, sym, subst, ◌∙◌, ◌⊎◌, inl, inr, ℕ, some, List, [], ◌∷◌, Bytes, bytes_eq,
  bytes_eq_iff, ascii, All, All-append, All-weaken, All-mem, Distinct, ok, Result-cases,
  ok-injective, Bool-cases, Option-cases,
}
use genomedb.Base.Assoc.{Assoc, lookup}
use genomedb.Store.{list_manifests_by_kind, manifests_of_kind, read_manifest}
use genomedb.Store.Keys.{IsTable, keys}
use genomedb.Store.Tables.{Manifest, ManifestRow, Store}
use genomedb.Transport.{Http, Json}
use genomedb.Client.Node.{Packages}
use genomedb.Client.World.{Action, ◌>>=◌, pure, attempt}
use genomedb.Client.SelfHeal.{
  self_heal, Wake, ticked, cancelled, heal_one, heal_each, manifests_or_none, owned_manifests,
  heal_manifests, reshare_manifest, reshare_each, force_reshare_owned,
}
use genomedb.Client.SelfHeal.Manifests.{promise, promised, Here, KeepsPromises}
use genomedb.Client.SelfHeal.Rounds.{Guarded, heal_one-Safe, reshare_manifest-Safe}

mem-keys : {V : Type 0} (k : Bytes) (v : V) (rows : Assoc V) → Memᴰ (k, v) rows → Memᴰ k (keys rows)
mem-keys k v [] m = elim m [ ]
mem-keys k v (r ∷ rows) (Memᴰ.head e) = Memᴰ.head (ap (λ t. t.0) e)
mem-keys k v (r ∷ rows) (Memᴰ.tail m) = Memᴰ.tail (mem-keys k v rows m)

lookup-of_mem :
    {V : Type 0} (k : Bytes) (v : V) (rows : Assoc V)
    → Distinct (keys rows)
    → Memᴰ (k, v) rows
    → lookup k rows ≡ some v
unfolding lookup
lookup-of_mem k v [] d m = elim m [ ]
lookup-of_mem k v ((j, u) ∷ rows) d (Memᴰ.head e) =
    rw ((bytes_eq_iff j k).1 (sym (ap (λ t. t.0) e))) (ap (λ t. some t.1) (sym e))
lookup-of_mem k v ((j, u) ∷ rows) d (Memᴰ.tail m) =
    let differs : k ≢ j = All-mem (λ z. z ≢ j) d.0 (mem-keys k v rows m) in
    elim (Bool-cases (bytes_eq j k)) [
      | inl same ↦ absurd (differs (sym ((bytes_eq_iff j k).0 same)))
      | inr other ↦ rw (other) (lookup-of_mem k v rows d.1 m)
    ]

-- The row that a listed manifest was read from.
abbrev FromRow : Bytes → Assoc ManifestRow → Manifest → Type 0
FromRow kind rows m =
    (row : ManifestRow) × Memᴰ (m.secret_name, row) rows
    × (row.threshold ≡ m.threshold)
    × (row.kind ≡ m.kind)
    × (m.kind ≡ kind)

module _ (p : Packages) where
  read_manifest-FromRow :
      (name : Bytes) (row : ManifestRow) (rows : Assoc ManifestRow) (m : Manifest)
      → read_manifest p.gcm p.codec name row ≡ ok m
      → FromRow row.kind ((name, row) ∷ rows) m
  unfolding read_manifest
  read_manifest-FromRow name row rows m run =
      elim (Option-cases (p.codec.unmarshal row.members_json)) [
        | inl bad ↦ cc (rw (read_manifest, bad) at run)
        | inr (members, parsed) ↦
            subst (λ (t : Manifest). FromRow row.kind ((name, row) ∷ rows) t)
              (ok-injective _ m (rw (read_manifest, parsed) at run))
              (row, Memᴰ.head refl, refl, refl, refl)
      ]

  manifests_of_kind-FromRow :
      (kind : Bytes) (rows : Assoc ManifestRow) (ms : List Manifest)
      → manifests_of_kind p.gcm p.codec kind rows ≡ ok ms
      → All (FromRow kind rows) ms
  unfolding manifests_of_kind
  manifests_of_kind-FromRow kind [] ms run =
      subst (λ (t : List Manifest). All (FromRow kind []) t) (ok-injective [] ms run) tt
  manifests_of_kind-FromRow kind ((name, row) ∷ rows) ms run =
      elim (Bool-cases (bytes_eq row.kind kind)) [
        | inl this ↦ elim (Result-cases (read_manifest p.gcm p.codec name row)) [
          | inl (e, bad) ↦ cc (rw (manifests_of_kind, this, bad) at run)
          | inr (m, read) ↦ elim (Result-cases (manifests_of_kind p.gcm p.codec kind rows)) [
            | inl (e, bad) ↦ cc (rw (manifests_of_kind, this, read, bad) at run)
            | inr (rest, listed) ↦
                let same_kind : row.kind ≡ kind = (bytes_eq_iff row.kind kind).0 this in
                subst (λ (t : List Manifest). All (FromRow kind ((name, row) ∷ rows)) t)
                  (ok-injective (m ∷ rest) ms (rw (manifests_of_kind, this, read, listed) at run))
                  (
                    subst (λ (k : Bytes). FromRow k ((name, row) ∷ rows) m) same_kind
                        (read_manifest-FromRow name row rows m read),
                    All-weaken rest (λ m' (r, mem, t, k, e). (r, Memᴰ.tail mem, t, k, e))
                        (manifests_of_kind-FromRow kind rows rest listed),
                  )
          ]
        ]
        | inr other ↦
            All-weaken ms (λ m (r, mem, t, k, e). (r, Memᴰ.tail mem, t, k, e))
              (manifests_of_kind-FromRow kind rows ms (rw (manifests_of_kind, other) at run))
      ]

  -- A manifest of the table, of one of the two kinds.
  abbrev Owned : Assoc ManifestRow → Manifest → Type 0
  Owned rows m =
      (promise (lookup m.secret_name rows) ≡ some (m.threshold, m.kind))
      × ((m.kind ≡ ascii "backup") ⊎ (m.kind ≡ ascii "secret"))

  module _ (h : Http) (json : Json) where
    manifests_or_none-Owned :
        (kind : Bytes) (s : Store)
        → (kind ≡ ascii "backup") ⊎ (kind ≡ ascii "secret")
        → Distinct (keys s.manifests)
        → All (Owned s.manifests) (manifests_or_none p h json kind s)
    unfolding manifests_or_none list_manifests_by_kind
    manifests_or_none-Owned kind s of_kind unique = elim (Bool-cases s.closed) [
      | inl closed ↦ rw (manifests_or_none, list_manifests_by_kind, closed) tt
      | inr is_open ↦ elim (Result-cases (manifests_of_kind p.gcm p.codec kind s.manifests)) [
        | inl (e, bad) ↦ rw (manifests_or_none, list_manifests_by_kind, is_open, bad) tt
        | inr (ms, listed) ↦
            rw (manifests_or_none, list_manifests_by_kind, is_open, listed)
              (All-weaken ms
                (λ m (row, mem, t, k, e). (
                  ap promise (lookup-of_mem m.secret_name row s.manifests unique mem)
                      ∙ ap₂ (λ (a : ℕ) (b : Bytes). some (a, b)) t k,
                  subst (λ (k' : Bytes). (k' ≡ ascii "backup") ⊎ (k' ≡ ascii "secret")) (sym e)
                      of_kind,
                ))
                (manifests_of_kind-FromRow kind s.manifests ms listed))
      ]
    ]

    owned_manifests-Owned :
        (s : Store)
        → Distinct (keys s.manifests)
        → All (Owned s.manifests) (owned_manifests p h json s)
    unfolding owned_manifests
    owned_manifests-Owned s unique =
        All-append (Owned s.manifests) _ _
          (manifests_or_none-Owned (ascii "backup") s (inl refl) unique)
          (manifests_or_none-Owned (ascii "secret") s (inr refl) unique)

    -- The promises of the world are those of the table.
    abbrev Faithful : Assoc ManifestRow → Here p h json → Type 0
    Faithful rows w =
        ((j : Bytes) → promised p h json j w ≡ promise (lookup j rows))
        × IsTable w.node.store.manifests

    one_more :
        {A : Type 0} (rows : Assoc ManifestRow) (m : Manifest) (a : Action p h json A)
        → Owned rows m
        → Guarded p h json m a
        → (w : Here p h json) → Faithful rows w
        → Faithful rows (a w).1
    unfolding KeepsPromises
    one_more rows m a owned guarded w (faithful, table) =
        let (kept, table') = guarded w (faithful m.secret_name ∙ owned.0) in
        (λ j. kept j ∙ faithful j, table' table)

    heal_each-Faithful :
        (rows : Assoc ManifestRow) (ms : List Manifest) (margin : ℕ) (w : Here p h json)
        → All (Owned rows) ms
        → Faithful rows w
        → Faithful rows (heal_each p h json ms margin w).1
    unfolding heal_each attempt pure ◌>>=◌
    heal_each-Faithful rows [] margin w owned faithful = faithful
    heal_each-Faithful rows (m ∷ ms) margin w owned faithful =
        heal_each-Faithful rows ms margin (heal_one p h json m margin w).1 owned.1 (
          one_more rows m (heal_one p h json m margin) owned.0
            (heal_one-Safe p h json m margin owned.0.1) w faithful)

    reshare_each-Faithful :
        (rows : Assoc ManifestRow) (ms : List Manifest) (w : Here p h json)
        → All (Owned rows) ms
        → Faithful rows w
        → Faithful rows (reshare_each p h json ms w).1
    unfolding reshare_each attempt pure ◌>>=◌
    reshare_each-Faithful rows [] w owned faithful = faithful
    reshare_each-Faithful rows (m ∷ ms) w owned faithful =
        reshare_each-Faithful rows ms (reshare_manifest p h json m w).1 owned.1 (
          one_more rows m (reshare_manifest p h json m) owned.0
            (reshare_manifest-Safe p h json m owned.0.1) w faithful)

    heal_manifests-Faithful :
        (margin : ℕ) (w : Here p h json)
        → IsTable w.node.store.manifests
        → Faithful w.node.store.manifests (heal_manifests p h json margin w).1
    unfolding heal_manifests
    heal_manifests-Faithful margin w unique =
        heal_each-Faithful w.node.store.manifests (owned_manifests p h json w.node.store) margin w
          (owned_manifests-Owned w.node.store unique) (λ j. refl, unique)

    -- What happens between two rounds neither loses nor adds a manifest, changes no threshold and no
    -- kind, and puts no name in the table twice.
    abbrev pub IsQuiet : Wake p h json → Type 0
    IsQuiet cancelled = Unit
    IsQuiet (ticked meanwhile) =
        (w : Here p h json)
        → IsTable w.node.store.manifests
        → Faithful w.node.store.manifests (meanwhile w)

    self_heal-Faithful :
        (margin : ℕ) (wakes : List (Wake p h json)) (w : Here p h json)
        → All IsQuiet wakes
        → IsTable w.node.store.manifests
        → Faithful w.node.store.manifests (self_heal p h json margin wakes w).1
    unfolding self_heal
    self_heal-Faithful margin [] w quiet unique = (λ j. refl, unique)
    self_heal-Faithful margin (cancelled ∷ wakes) w quiet unique = (λ j. refl, unique)
    self_heal-Faithful margin (ticked meanwhile ∷ wakes) w quiet unique =
        let (before, table) = quiet.0 w unique in
        let (healed, table') = heal_manifests-Faithful margin (meanwhile w) table in
        let (rest, table'') =
          self_heal-Faithful margin wakes (heal_manifests p h json margin (meanwhile w)).1 quiet.1
            table' in
        (λ j. rest j ∙ healed j ∙ before j, table'')

    -- The whole run of SelfHeal, whatever the network answers and wherever a round fails, neither
    -- loses nor adds a manifest and changes no threshold and no kind, if the table has no name twice
    -- and what happens between the rounds does not do so either.
    pub self_heal-promised :
        (margin : ℕ) (wakes : List (Wake p h json)) (w : Here p h json)
        → All IsQuiet wakes
        → Distinct (keys w.node.store.manifests)
        → (name : Bytes)
        → promised p h json name (self_heal p h json margin wakes w).1 ≡ promised p h json name w
    self_heal-promised margin wakes w quiet unique =
        (self_heal-Faithful margin wakes w quiet unique).0

    -- Nor does a forced resharing.
    pub force_reshare_owned-promised :
        (w : Here p h json)
        → Distinct (keys w.node.store.manifests)
        → (name : Bytes)
        → promised p h json name (force_reshare_owned p h json w).1 ≡ promised p h json name w
    unfolding force_reshare_owned
    force_reshare_owned-promised w unique =
        (reshare_each-Faithful w.node.store.manifests (owned_manifests p h json w.node.store) w
          (owned_manifests-Owned w.node.store unique) (λ j. refl, unique)).0
