-- ===== src/Prelude/Dict.antt =====
-- Python's `dict` with text keys: entries in insertion order. A write to a key that is there keeps
-- the key's place.
use Prim.Native.String.{String}
use mathlib.Core.Bool.{Bool, true, false}
use mathlib.Core.List.{List, [], ◌∷◌}
use mathlib.Core.Option.{Option, none, some}
use mathlib.Core.Path.{◌≡◌, refl}
use mathlib.Core.Logic.{inl, inr}
use native.Mathlib.Omega.{arith}
use text.Mathlib.Text.{◌==◌ as str_eq}
use text.Mathlib.TextEquality.{eq_iff}
use sensorctl.Prelude.Tests.{if◌then◌else◌, Option-cases, Bool-cases}
use text.Mathlib.TextPositions.{eq_refl}

abbrev pub Dict {ℓ} : Type ℓ → Type ℓ
Dict V = List (String × V)

-- `k in xs`, for texts.
unfoldable pub mem : String → List String → Bool
mem k [] = false
mem k (j ∷ js) = if str_eq j k then true else mem k js

abbrev pub keys {ℓ} : {V : Type ℓ} → Dict V → List String
keys [] = []
keys ((k, v) ∷ d) = k ∷ keys d

abbrev pub values {ℓ} : {V : Type ℓ} → Dict V → List V
values [] = []
values ((k, v) ∷ d) = v ∷ values d

module _ {ℓ} {V : Type ℓ} where
  -- `d.get(k)`
  unfoldable pub lookup : String → Dict V → Option V
  lookup k [] = none
  lookup k ((j, v) ∷ d) = if str_eq j k then some v else lookup k d

  -- `d[k] = v`
  unfoldable pub insert : String → V → Dict V → Dict V
  insert k v [] = (k, v) ∷ []
  insert k v ((j, w) ∷ d) = if str_eq j k then (j, v) ∷ d else (j, w) ∷ insert k v d

  pub lookup-insert :
      (k j : String) (v : V) (d : Dict V)
      → lookup j (insert k v d) ≡ (if str_eq k j then some v else lookup j d)
  unfolding lookup insert
  lookup-insert k j v [] = refl
  lookup-insert k j v ((i, w) ∷ d) =
      ground (arith, eq_iff k j, eq_iff i k, eq_iff i j, lookup-insert k j v d)

  -- `k in d`
  unfoldable pub has : String → Dict V → Bool
  unfolding lookup
  has k d = elim (lookup k d) [ none ↦ false | some _ ↦ true ]

  pub has-insert :
      (k j : String) (v : V) (d : Dict V)
      → has j (insert k v d) ≡ (if str_eq k j then true else has j d)
  unfolding has
  has-insert k j v d = ground (arith, lookup-insert k j v d)

  pub has_of_lookup : (k : String) (v : V) (d : Dict V) → lookup k d ≡ some v → has k d ≡ true
  unfolding has
  has_of_lookup k v d h = ground arith

  pub has_of_none : (k : String) (d : Dict V) → lookup k d ≡ none → has k d ≡ false
  unfolding has
  has_of_none k d h = ground arith

  pub lookup_of_has : (k : String) (d : Dict V) → has k d ≡ true → (v : V) × (lookup k d ≡ some v)
  unfolding has
  lookup_of_has k d h = elim (Option-cases (lookup k d)) [
    | inl e ↦ absurd (ground arith)
    | inr w ↦ w
  ]

  -- The keys stay as they were under a write to one of them.
  pub has-insert_old :
      (k j : String) (v w : V) (d : Dict V) → lookup k d ≡ some w → has j (insert k v d) ≡ has j d
  unfolding has
  has-insert_old k j v w d h = ground (arith, lookup-insert k j v d, eq_iff k j)

  pub insert_here : (k : String) (v : V) (d : Dict V) → lookup k (insert k v d) ≡ some v
  insert_here k v d = ground (arith, lookup-insert k k v d, eq_refl k)

  -- A key with an entry.
  abbrev pub Listed : String → Dict V → Type ℓ
  Listed k d = (v : V) × (lookup k d ≡ some v)

  pub Listed-insert : (k j : String) (v : V) (d : Dict V) → Listed j d → Listed j (insert k v d)
  Listed-insert k j v d (w, h) = elim (Bool-cases (str_eq k j)) [
    | inl same ↦ (v, ground (arith, lookup-insert k j v d, same))
    | inr other ↦ (w, ground (arith, lookup-insert k j v d, other, h))
  ]
