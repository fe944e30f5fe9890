-- ===== src/Timewheel/Horizons.antt =====
-- Which level takes a timer (src/timewheel/wheel_core.go, findLevelForDelay).
use atom_engine.Base.{
  ℕ, suc, ◌≡◌, refl, true, false, Option, none, some, List, [], ◌∷◌, get_elem?, take, All,
  Bool-cases, inl, inr,
}
use atom_engine.Timewheel.{TimingWheelLevel, Delay}
use atom_engine.Timewheel.Wheel.{fits, find_level_for_delay}

-- The level at a position fits, and none before it does; or no level fits.
abbrev pub IsFirstFit : Delay → List TimingWheelLevel → Option ℕ → Type 0
IsFirstFit delay ls none = All (λ (l : TimingWheelLevel). fits delay l ≡ false) ls
IsFirstFit delay ls (some i) =
    All (λ (l : TimingWheelLevel). fits delay l ≡ false) (take i ls)
    × ((l : TimingWheelLevel) × (get_elem? ls i ≡ some l) × (fits delay l ≡ true))

-- `findLevelForDelay` finds the first level whose horizon is not below the delay, and finds nothing
-- exactly when every horizon is below it.
pub find_level_for_delay-IsFirstFit :
    (delay : Delay) (ls : List TimingWheelLevel)
    → IsFirstFit delay ls (find_level_for_delay delay ls)
unfolding find_level_for_delay
find_level_for_delay-IsFirstFit delay [] = tt
find_level_for_delay-IsFirstFit delay (l ∷ ls) = elim (Bool-cases (fits delay l)) [
  | inl y ↦ rw y (tt, (l, refl, y))
  | inr n ↦
      rw n (later n (find_level_for_delay delay ls) (find_level_for_delay-IsFirstFit delay ls))
]
  where
    later :
        fits delay l ≡ false
        → (o : Option ℕ) → IsFirstFit delay ls o
        → IsFirstFit delay (l ∷ ls) (elim o [ none ↦ none | some i ↦ some (suc i) ])
    later n none h = (n, h)
    later n (some i) (before, found) = ((n, before), found)
