-- ===== src/Base/Assoc.antt =====
-- A Go map with string keys, and a table with a text key, as an association list. The order of a
-- map's iteration is left open by Go; no statement depends on the order of these lists.
use mathlib.Core.Path.{◌≡◌, refl}
use mathlib.Core.Option.{Option, none, some}
use mathlib.Core.List.{List, [], ◌∷◌}
use native.Mathlib.Omega.{arith}
use genomedb.Base.Tests.{if◌then◌else◌}
use genomedb.Base.ByteStrings.{Bytes, bytes_eq, bytes_eq_iff}

abbrev pub Assoc {ℓ} : Type ℓ → Type ℓ
Assoc V = List (Bytes × V)

module _ {ℓ} {V : Type ℓ} where
  unfoldable pub lookup : Bytes → Assoc V → Option V
  lookup k [] = none
  lookup k ((j, v) ∷ m) = if bytes_eq j k then some v else lookup k m

  -- delete(m, k)
  unfoldable pub remove : Bytes → Assoc V → Assoc V
  remove k [] = []
  remove k ((j, v) ∷ m) = let rest = remove k m in if bytes_eq j k then rest else (j, v) ∷ rest

  -- m[k] = v
  unfoldable pub insert : Bytes → V → Assoc V → Assoc V
  insert k v [] = (k, v) ∷ []
  insert k v ((j, w) ∷ m) =
      let rest = insert k v m in if bytes_eq j k then (k, v) ∷ m else (j, w) ∷ rest

  pub lookup-remove :
      (k j : Bytes) (m : Assoc V)
      → lookup j (remove k m) ≡ (if bytes_eq k j then none else lookup j m)
  unfolding lookup remove
  lookup-remove k j [] = ground arith
  lookup-remove k j ((i, v) ∷ m) =
      ground (arith, lookup-remove k j m, bytes_eq_iff i k, bytes_eq_iff i j, bytes_eq_iff k j)

  pub lookup-insert :
      (k j : Bytes) (v : V) (m : Assoc V)
      → lookup j (insert k v m) ≡ (if bytes_eq k j then some v else lookup j m)
  unfolding lookup insert
  lookup-insert k j v [] = refl
  lookup-insert k j v ((i, w) ∷ m) =
      ground (arith, lookup-insert k j v m, bytes_eq_iff i k, bytes_eq_iff i j, bytes_eq_iff k j)

pub lookup-nil {ℓ} : {V : Type ℓ} (k : Bytes) → lookup {V = V} k [] ≡ none
unfolding lookup
lookup-nil k = refl

pub ruleset assoc_laws = (lookup-nil, lookup-remove, lookup-insert)
