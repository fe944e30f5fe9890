-- ===== src/Base/Keys.antt =====
-- Maps without a second entry of a key, and the entries that pass a test.
use Prim.Native.String.{String}
use mathlib.Core.Path.{◌≡◌, refl}
use mathlib.Core.Bool.{Bool}
use mathlib.Core.Logic.{inl, inr}
use mathlib.Core.Option.{Option, none, some}
use mathlib.Core.List.{[], ◌∷◌}
use native.Mathlib.Omega.{arith}
use text.Mathlib.Text.{◌==◌ as str_eq}
use text.Mathlib.TextEquality.{eq_iff}
use atom_engine.Base.Tests.{if◌then◌else◌, Bool-cases}
use atom_engine.Base.Maps.{Dict, lookup, insert, lookup-insert}

module _ {ℓ} {V : Type ℓ} where
  -- No key stands twice.
  abbrev pub IsDict : Dict V → Type ℓ
  IsDict [] = Unit
  IsDict ((k, v) ∷ d) = (lookup k d ≡ none) × IsDict d

  pub IsDict-insert : (k : String) (v : V) (d : Dict V) → IsDict d → IsDict (insert k v d)
  unfolding insert lookup
  IsDict-insert k v [] h = (refl, tt)
  IsDict-insert k v ((j, w) ∷ d) (n, h) = elim (Bool-cases (str_eq j k)) [
    | inl y ↦ rw y (ground (arith, eq_iff j k, n, y), h)
    | inr x ↦
        rw x (
          ground (arith, lookup-insert k j v d, eq_iff j k, eq_iff k j, n, x),
          IsDict-insert k v d h,
        )
  ]

  -- The entries that pass a test on the value.
  unfoldable pub keep : (V → Bool) → Dict V → Dict V
  keep p [] = []
  keep p ((k, v) ∷ d) = if p v then (k, v) ∷ keep p d else keep p d

  abbrev pub passing_value : (V → Bool) → Option V → Option V
  passing_value p none = none
  passing_value p (some v) = if p v then some v else none

  pub lookup-keep :
      (p : V → Bool) (k : String) (d : Dict V)
      → IsDict d
      → lookup k (keep p d) ≡ passing_value p (lookup k d)
  unfolding lookup keep
  lookup-keep p k [] h = refl
  lookup-keep p k ((j, v) ∷ d) (n, h) = ground (arith, eq_iff j k, n, lookup-keep p k d h)
