-- ===== src/Timewheel/Examples.antt =====
-- The timing wheel at concrete inputs.
use mathlib.Core.Option.{some-injective}
use atom_engine.Base.{
  ℕ, zero, suc, subst, ◌≡◌, refl, true, some, none, [], ◌∷◌, arith, All, false, str_eq, get_elem?,
  lookup, insert,
}
use atom_engine.Timewheel.{
  ok, Timer, TimerEntry, TimingWheelLevel, TimerLocation, start, scheduled, add_timer, advance,
  timer_not_found, drop_timer, slot_of,
}
use atom_engine.Timewheel.Slots.{IsLevel}
use atom_engine.Timewheel.Ticks.{ticks, IsTaken, add_timer-IsTaken}
use atom_engine.Timewheel.Wheel.{
  LevelConfig, HierarchicalTimingWheel, find_level_for_delay, schedule_timer, reschedule_timer,
  remove_timer_by_id, get_timer_location, add_to_level,
}
use atom_engine.Timewheel.Wheel.Index.{IsAbsent, IsWheel, remove_timer_by_id-schedule_timer}
use atom_engine.Timewheel.Wheel.Stale.{remove_timer_by_id-reschedule_timer}

abbrev timer : Timer
timer = record {
  id = "t";
  element_id = "e";
  process_instance_id = "i";
  execution_token_id = "k";
  type = start;
  state = scheduled;
  due_date = 25;
  updated_at = 0;
}

-- Four slots of ten.
abbrev level : TimingWheelLevel
level = record {
  level_id = 0;
  tick = 10;
  size = 4;
  current_slot = 0;
  slots = [] ∷ [] ∷ [] ∷ [] ∷ [];
  horizon = 40;
}

level-IsLevel : IsLevel level
level-IsLevel = record { ticking = omega arith; slotted = refl; inside = omega arith }

abbrev entry : TimerEntry
entry = record { timer = timer; element = 0 }

abbrev full_level : TimingWheelLevel
full_level = record level { slots = [] ∷ [] ∷ (entry ∷ []) ∷ [] ∷ [] }

-- The third tick comes at 31, when the timer is due.
add_timer-IsTaken_example : IsTaken 31 entry (
  (advance 31 (ticks (11 ∷ 21 ∷ []) full_level)).1,
  (advance 31 (ticks (11 ∷ 21 ∷ []) full_level)).2,
)
unfolding add_timer
add_timer-IsTaken_example =
    add_timer-IsTaken timer 25 0 level full_level (record { level = 0; slot = 2; element = 0 })
      level-IsLevel (omega arith) refl (11 ∷ 21 ∷ []) 31 refl

abbrev wheel : HierarchicalTimingWheel
wheel = record {
  levels = level ∷ [];
  timer_index = [];
  anchors = [];
  running = true;
  start_time = 0;
  fired = [];
  next_element = 0;
}

wheel-IsWheel : IsWheel wheel
wheel-IsWheel = record { leveled = at }
  where
    at :
        (i : ℕ) (l : TimingWheelLevel)
        → get_elem? wheel.levels i ≡ some l
        → IsLevel l × (l.level_id ≡ i)
    at zero l e = (subst IsLevel (some-injective _ _ e) level-IsLevel, ground (arith, e))
    at (suc i) l e = cc

abbrev location : TimerLocation
location = record { level = 0; slot = 2 }

abbrev full_wheel : HierarchicalTimingWheel
full_wheel = record wheel {
  levels = full_level ∷ [];
  timer_index = ("t", location) ∷ [];
  anchors = ("t", record { level = 0; slot = 2; element = 0 }) ∷ [];
  next_element = 1;
}

wheel-IsAbsent : IsAbsent "t" wheel
wheel-IsAbsent zero l e k =
    subst (λ x. All (λ y. str_eq y.timer.id "t" ≡ false) (slot_of k x)) (some-injective _ _ e)
      (none_at k)
  where
    none_at : (k : ℕ) → All (λ y. str_eq y.timer.id "t" ≡ false) (slot_of k level)
    none_at zero = tt
    none_at (suc zero) = tt
    none_at (suc (suc zero)) = tt
    none_at (suc (suc (suc zero))) = tt
    none_at (suc (suc (suc (suc k)))) = tt
wheel-IsAbsent (suc i) l e k = cc

remove_timer_by_id-schedule_timer_example :
    let (w, error) = remove_timer_by_id "t" full_wheel in
    (error ≡ none)
    × (get_timer_location "t" w ≡ none)
    × (w.levels ≡ wheel.levels)
    × (w.fired ≡ wheel.fired)
unfolding schedule_timer lookup insert find_level_for_delay add_to_level add_timer
remove_timer_by_id-schedule_timer_example =
    remove_timer_by_id-schedule_timer 0 timer wheel full_wheel wheel-IsWheel wheel-IsAbsent
      (omega arith) refl

-- The third tick comes at 24, before the timer is due at 25, and puts it back into the next slot.
abbrev ticked_wheel : HierarchicalTimingWheel
ticked_wheel = record full_wheel { levels = record level { current_slot = 3 } ∷ [] }

abbrev late_wheel : HierarchicalTimingWheel
late_wheel = record full_wheel {
  levels =
      record level {
        current_slot = 3;
        slots = [] ∷ [] ∷ [] ∷ (record { timer = timer; element = 1 } ∷ []) ∷ [];
      }
      ∷ [];
  next_element = 2;
}

tick_puts_back : (advance 24 (record full_level { current_slot = 2 })).2 ≡ entry ∷ []
unfolding advance
tick_puts_back = refl

remove_timer_by_id-reschedule_timer_example :
    ((remove_timer_by_id "t" late_wheel).1 ≡ some timer_not_found)
    × ((remove_timer_by_id "t" late_wheel).0.levels ≡ late_wheel.levels)
unfolding reschedule_timer lookup find_level_for_delay add_to_level add_timer drop_timer
remove_timer_by_id-reschedule_timer_example =
    remove_timer_by_id-reschedule_timer 24 entry ticked_wheel late_wheel location
      (record level {
        current_slot = 3;
        slots = [] ∷ [] ∷ [] ∷ (record { timer = timer; element = 1 } ∷ []) ∷ [];
      })
      refl refl refl (omega arith) refl

scheduled_now : schedule_timer 0 timer wheel ≡ some (ok full_wheel)
unfolding schedule_timer lookup insert find_level_for_delay add_to_level add_timer
scheduled_now = refl

abbrev seconds : LevelConfig
seconds = record { tick = some 10; size = 4 }

abbrev minutes : LevelConfig
minutes = record { tick = some 40; size = 6 }
