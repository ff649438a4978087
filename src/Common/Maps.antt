-- ===== src/Common/Maps.antt =====
-- A Go map with text keys, as an association list that holds the key written last once.
use Prim.Native.String.{String}
use mathlib.Core.Path.{◌≡◌, refl}
use mathlib.Core.List.{List, [], ◌∷◌}
use mathlib.Core.Option.{Option, none, some}
use native.Mathlib.Omega.{arith}
use pigcloud_cli.Common.Tests.{same, same_iff, same_refl, if◌then◌else◌}

module _ {ℓ} {V : Type ℓ} where
  unfoldable pub lookup : String → List (String × V) → Option V
  lookup k [] = none
  lookup k ((j, v) ∷ m) = if same j k then some v else lookup k m

  -- m[k] = v
  unfoldable pub insert : String → V → List (String × V) → List (String × V)
  insert key new [] = (key, new) ∷ []
  insert key new ((other, old) ∷ rest) =
      if same other key then (key, new) ∷ rest else (other, old) ∷ insert key new rest

  pub lookup-insert :
      (key read : String) (new : V) (m : List (String × V))
      → lookup read (insert key new m) ≡ (if same key read then some new else lookup read m)
  unfolding lookup insert
  lookup-insert key read new [] = refl
  lookup-insert key read new ((other, old) ∷ rest) = ground (
    arith,
    same_iff key read,
    same_iff other key,
    same_iff other read,
    lookup-insert key read new rest,
  )

  pub lookup-insert_self :
      (k : String) (v : V) (m : List (String × V)) → lookup k (insert k v m) ≡ some v
  lookup-insert_self k v m = simp (lookup-insert, same_refl)

  -- m[k], with the zero value on a missing key
  abbrev pub get_or : V → Option V → V
  get_or d none = d
  get_or d (some v) = v
