-- ===== src/Timewheel/Wheel/Setup.antt =====
-- The wheel that a configuration makes (src/timewheel/wheel_core.go, NewHierarchicalTimingWheel).
use atom_engine.Base.{
  ℕ, zero, suc, ◌+◌, ◌<◌, ◌≡◌, false, refl, subst, some, List, [], ◌∷◌, get_elem?, All, arith,
}
use mathlib.Core.Option.{some-injective}
use atom_engine.Timewheel.{TimingWheelLevel, ok, new_timing_wheel_level}
use atom_engine.Timewheel.Slots.{IsLevel, new_timing_wheel_level-IsLevel}
use atom_engine.Timewheel.Wheel.{HierarchicalTimingWheel, LevelConfig, make_levels, new_wheel}
use atom_engine.Timewheel.Wheel.Index.{IsWheel}

-- The tick can be parsed and is positive, and so is the size.
abbrev pub IsSound : LevelConfig → Type 0
IsSound c = (t : ℕ) × (c.tick ≡ some t) × (0 < t) × (0 < c.size)

-- The levels from position `i` on.
abbrev AreLevels : ℕ → List TimingWheelLevel → Type 0
AreLevels i ls =
    (k : ℕ) (l : TimingWheelLevel) → get_elem? ls k ≡ some l → IsLevel l × (l.level_id ≡ i + k)

make_levels-AreLevels :
    (i : ℕ) (cs : List LevelConfig)
    → All IsSound cs
    → (ls : List TimingWheelLevel) × (make_levels i cs ≡ some ls) × AreLevels i ls
unfolding make_levels new_timing_wheel_level
make_levels-AreLevels i [] h = ([], refl, λ k l e. cc)
make_levels-AreLevels i (c ∷ cs) ((t, p, q, r), h) =
    let (ls, e, a) = make_levels-AreLevels (i + 1) cs h in
    (new_timing_wheel_level i t c.size ∷ ls, rw p (rw (e, make_levels)), at ls a)
  where
    at :
        (ls : List TimingWheelLevel)
        → AreLevels (i + 1) ls
        → AreLevels i (new_timing_wheel_level i t c.size ∷ ls)
    at ls a zero l g =
        subst (λ (x : TimingWheelLevel). IsLevel x × (x.level_id ≡ i + 0)) (some-injective _ _ g)
          (new_timing_wheel_level-IsLevel i t c.size q r, omega arith)
    at ls a (suc k) l g = let (v, n) = a k l g in (v, omega (arith, n))

-- A configuration with at least one level, all of whose ticks can be parsed and whose ticks and
-- sizes are positive, makes a wheel, and the wheel is well formed.
pub new_wheel-IsWheel :
    (c : LevelConfig) (cs : List LevelConfig)
    → All IsSound (c ∷ cs)
    → (w : HierarchicalTimingWheel) × (new_wheel (c ∷ cs) ≡ ok w) × IsWheel w
unfolding new_wheel
new_wheel-IsWheel c cs h =
    let (ls, e, a) = make_levels-AreLevels 0 (c ∷ cs) h in
    (
      record {
        levels = ls;
        timer_index = [];
        anchors = [];
        running = false;
        start_time = 0;
        fired = [];
        next_element = 0;
      },
      rw (e, new_wheel),
      record { leveled = λ k l g. let (v, n) = a k l g in (v, omega (arith, n)) },
    )
