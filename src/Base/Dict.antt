-- ===== src/Base/Dict.antt =====
-- A Python dict with text keys, in insertion order. It is used qualified.
use Prim.Native.String.{String}
use mathlib.Core.Path.{◌≡◌, refl}
use mathlib.Core.Option.{Option, none, some}
use mathlib.Core.List.{List, [], ◌∷◌}
use native.Mathlib.Omega.{arith}
use text.Mathlib.TextEquality.{eq_iff}
use my_coding_agent.Base.Tests.{str_eq, if◌then◌else◌}

abbrev pub Dict {ℓ} : Type ℓ → Type ℓ
Dict V = List (String × V)

module _ {ℓ} {V : Type ℓ} where
  -- `d.get(k)`
  unfoldable pub lookup : String → Dict V → Option V
  lookup k [] = none
  lookup k ((j, v) ∷ d) = if str_eq j k then some v else lookup k d

  -- `d[k] = v`
  unfoldable pub insert : String → V → Dict V → Dict V
  insert k v [] = (k, v) ∷ []
  insert k v ((j, w) ∷ d) = if str_eq j k then (j, v) ∷ d else (j, w) ∷ insert k v d

  -- `del d[k]` and `d.pop(k, None)`
  unfoldable pub remove : String → Dict V → Dict V
  remove k [] = []
  remove k ((j, w) ∷ d) = if str_eq j k then d else (j, w) ∷ remove k d

  -- Every key occurs once.
  abbrev pub HasDistinctKeys : Dict V → Type ℓ
  HasDistinctKeys [] = Unit
  HasDistinctKeys ((k, v) ∷ d) = (lookup k d ≡ none) × HasDistinctKeys d

  pub lookup-insert :
      (k j : String) (v : V) (d : Dict V)
      → lookup j (insert k v d) ≡ (if str_eq k j then some v else lookup j d)
  unfolding lookup insert
  lookup-insert k j v [] = refl
  lookup-insert k j v ((i, w) ∷ d) =
      ground (arith, eq_iff k j, eq_iff i k, eq_iff i j, lookup-insert k j v d)

  pub lookup-remove :
      (k j : String) (d : Dict V)
      → HasDistinctKeys d
      → lookup j (remove k d) ≡ (if str_eq k j then none else lookup j d)
  unfolding lookup remove
  lookup-remove k j [] h = ground arith
  lookup-remove k j ((i, w) ∷ d) h =
      ground (arith, eq_iff k j, eq_iff i k, eq_iff i j, lookup-remove k j d h.1)

  -- A key that was not there goes as it came.
  pub remove-insert :
      (k : String) (v : V) (d : Dict V) → lookup k d ≡ none → remove k (insert k v d) ≡ d
  unfolding lookup insert remove
  remove-insert k v [] h = ground (arith, eq_iff k k)
  remove-insert k v ((i, w) ∷ d) h = ground (arith, remove-insert k v d)

  pub HasDistinctKeys-insert :
      (k : String) (v : V) (d : Dict V) → HasDistinctKeys d → HasDistinctKeys (insert k v d)
  unfolding insert
  HasDistinctKeys-insert k v [] h = (unfold lookup in refl, tt)
  HasDistinctKeys-insert k v ((i, w) ∷ d) h =
      ground
        (arith, eq_iff k i, eq_iff i k, lookup-insert k i v d, HasDistinctKeys-insert k v d h.1)

  pub HasDistinctKeys-remove :
      (k : String) (d : Dict V) → HasDistinctKeys d → HasDistinctKeys (remove k d)
  unfolding remove
  HasDistinctKeys-remove k [] h = h
  HasDistinctKeys-remove k ((i, w) ∷ d) h =
      ground (arith, lookup-remove k i d h.1, HasDistinctKeys-remove k d h.1)
