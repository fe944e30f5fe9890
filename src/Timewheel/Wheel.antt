-- ===== src/Timewheel/Wheel.antt =====
-- The hierarchical timing wheel (src/timewheel/wheel_core.go, wheel_operations.go and
-- wheel_execution.go). A timer object is known by its id, so the `_anchor` variable of a timer is an
-- entry of `anchors`. A fired timer is added to `fired` when the call that fires it is started.
pub mod Counts
pub mod Setup
pub mod Index
pub mod Stale
use atom_engine.Base.{
  ℕ, zero, suc, ◌+◌, ◌-◌, ◌*◌, ◌/◌, String, Bool, true, false, Option, none, some, List, [], ◌∷◌,
  ◌++◌, Dict, lookup, insert, remove, length, get_elem?, set, ltb, leb, if◌then◌else◌,
}
use atom_engine.Timewheel.{
  Timer, TimerAnchor, TimerEntry, TimingWheelLevel, TimerLocation, TimerState, Error, Result, ok,
  err, Delay, left, late, until, timer_too_far, timer_already_exists, timer_not_found,
  invalid_anchor, invalid_config, wheel_not_running, wheel_already_running, new_timing_wheel_level,
  add_timer, remove_timer, remove_timer_by_slot_and_id, advance, get_all_timers, slot_of,
  get_total_timers,
}

pub record HierarchicalTimingWheel : Type 0 where
  pub levels : List TimingWheelLevel
  pub timer_index : Dict TimerLocation
  pub anchors : Dict TimerAnchor
  pub running : Bool
  pub start_time : ℕ
  pub fired : List Timer
  pub next_element : ℕ

-- A level of the configuration: its tick, as `time.ParseDuration` reads it, and its size.
pub record LevelConfig : Type 0 where
  pub tick : Option ℕ
  pub size : ℕ

-- `none` is a tick that cannot be parsed.
unfoldable pub make_levels : ℕ → List LevelConfig → Option (List TimingWheelLevel)
make_levels i [] = some []
make_levels i (c ∷ cs) =
    let rest = make_levels (i + 1) cs in
    elim c.tick [
      | none ↦ none
      | some tick ↦ elim rest [
        | none ↦ none
        | some ls ↦ some (new_timing_wheel_level i tick c.size ∷ ls)
      ]
    ]

abbrev wheel_of : Option (List TimingWheelLevel) → Result HierarchicalTimingWheel
wheel_of none = err invalid_config
wheel_of (some ls) = ok (record {
  levels = ls;
  timer_index = [];
  anchors = [];
  running = false;
  start_time = 0;
  fired = [];
  next_element = 0;
})

-- A tick that cannot be parsed has an error of its own in the source; here both are one.
unfoldable pub new_wheel : List LevelConfig → Result HierarchicalTimingWheel
unfolding make_levels
new_wheel [] = err invalid_config
new_wheel (c ∷ cs) = wheel_of (make_levels 0 (c ∷ cs))

unfoldable pub start : ℕ → HierarchicalTimingWheel → Result HierarchicalTimingWheel
start now w =
    if w.running
    then err wheel_already_running
    else ok (record w { running = true; start_time = now })

unfoldable pub stop : HierarchicalTimingWheel → Result HierarchicalTimingWheel
stop w = if w.running then ok (record w { running = false }) else err wheel_not_running

-- `delay <= level.GetHorizon()`
abbrev pub fits : Delay → TimingWheelLevel → Bool
fits (left d) l = leb d l.horizon
fits (late d) l = true

-- `findLevelForDelay`, as the position of the level in the list.
unfoldable pub find_level_for_delay : Delay → List TimingWheelLevel → Option ℕ
find_level_for_delay delay [] = none
find_level_for_delay delay (l ∷ ls) =
    if fits delay l
    then some 0
    else elim (find_level_for_delay delay ls) [ none ↦ none | some i ↦ some (suc i) ]

-- `getLevelIndex` of what was found; no level counts as the last one.
abbrev pub level_index : List TimingWheelLevel → Option ℕ → ℕ
level_index ls none = length ls - 1
level_index ls (some i) = i

-- `fireTimer`: the response carries the timer as it then is.
unfoldable pub fire_timer : ℕ → Timer → HierarchicalTimingWheel → HierarchicalTimingWheel
fire_timer now timer w = record w {
  fired = w.fired ++ record timer { state = TimerState.fired; updated_at = now } ∷ [];
}

-- Put a timer into a level. `none` is a panic.
abbrev pub put_level :
    ℕ
    → HierarchicalTimingWheel
    → Option (TimingWheelLevel × TimerAnchor)
    → Option (HierarchicalTimingWheel × TimerAnchor)
put_level i w none = none
put_level i w (some (l, a)) =
    some (record w { levels = set w.levels i l; next_element = w.next_element + 1 }, a)

unfoldable pub add_to_level :
    ℕ → Timer → Delay → HierarchicalTimingWheel → Option (HierarchicalTimingWheel × TimerAnchor)
add_to_level i timer delay w = elim (get_elem? w.levels i) [
  | none ↦ none
  | some l ↦ put_level i w (add_timer timer delay w.next_element l)
]

-- The index and the `_anchor` variable take the anchor.
abbrev pub record_anchor : Timer → TimerAnchor → HierarchicalTimingWheel → HierarchicalTimingWheel
record_anchor timer a w = record w {
  timer_index = insert timer.id (record { level = a.level; slot = a.slot }) w.timer_index;
  anchors = insert timer.id a w.anchors;
}

abbrev pub recorded :
    Timer → Option (HierarchicalTimingWheel × TimerAnchor) → Option (Result HierarchicalTimingWheel)
recorded timer none = none
recorded timer (some (w, a)) = some (ok (record_anchor timer a w))

-- A timer whose delay is not positive fires at once, and is not indexed.
abbrev pub schedule :
    ℕ → Timer → Delay → HierarchicalTimingWheel → Option (Result HierarchicalTimingWheel)
schedule now timer (late d) w = some (ok (fire_timer now timer w))
schedule now timer (left zero) w = some (ok (fire_timer now timer w))
schedule now timer (left (suc d)) w = elim (find_level_for_delay (left (suc d)) w.levels) [
  | none ↦ some (err timer_too_far)
  | some i ↦ recorded timer (add_to_level i timer (left (suc d)) w)
]

unfoldable pub schedule_timer :
    ℕ → Timer → HierarchicalTimingWheel → Option (Result HierarchicalTimingWheel)
schedule_timer now timer w = elim (lookup timer.id w.timer_index) [
  | some at ↦ some (err timer_already_exists)
  | none ↦ schedule now timer (until timer.due_date now) w
]

abbrev pub level_result :
    ℕ → HierarchicalTimingWheel → Result TimingWheelLevel → HierarchicalTimingWheel × Option Error
level_result i w (err e) = (w, some e)
level_result i w (ok l) = (record w { levels = set w.levels i l }, none)

-- The index entry goes first, and stays gone when the removal fails.
unfoldable pub cancel_timer :
    Timer → HierarchicalTimingWheel → HierarchicalTimingWheel × Option Error
cancel_timer timer w =
    let w' = record w { timer_index = remove timer.id w.timer_index } in
    elim (lookup timer.id w.anchors) [
      | none ↦ (w', some timer_not_found)
      | some a ↦ elim (get_elem? w.levels a.level) [
        | none ↦ (w', some invalid_anchor)
        | some l ↦ level_result a.level w' (remove_timer a l)
      ]
    ]

unfoldable pub remove_timer_by_id :
    String → HierarchicalTimingWheel → HierarchicalTimingWheel × Option Error
remove_timer_by_id id w = elim (lookup id w.timer_index) [
  | none ↦ (w, some timer_not_found)
  | some at ↦
      let w' = record w { timer_index = remove id w.timer_index } in
      elim (get_elem? w.levels at.level) [
        | none ↦ (w', some invalid_anchor)
        | some l ↦ level_result at.level w' (remove_timer_by_slot_and_id at.slot id l)
      ]
]

unfoldable pub get_timer_location : String → HierarchicalTimingWheel → Option TimerLocation
get_timer_location id w = lookup id w.timer_index

-- `rescheduleTimer`: neither the index nor the `_anchor` variable is written. `none` is a panic.
abbrev pub keep_wheel :
    Option (HierarchicalTimingWheel × TimerAnchor) → Option HierarchicalTimingWheel
keep_wheel none = none
keep_wheel (some (w, a)) = some w

unfoldable pub reschedule_timer :
    ℕ → TimerEntry → HierarchicalTimingWheel → Option HierarchicalTimingWheel
reschedule_timer now e w = elim (find_level_for_delay (until e.timer.due_date now) w.levels) [
  | none ↦ some w
  | some i ↦ keep_wheel (add_to_level i e.timer (until e.timer.due_date now) w)
]

unfoldable pub fire_all : ℕ → List TimerEntry → HierarchicalTimingWheel → HierarchicalTimingWheel
fire_all now [] w = w
fire_all now (e ∷ es) w = fire_all now es (
    let w' = fire_timer now e.timer w in
    record w' { timer_index = remove e.timer.id w'.timer_index })

unfoldable pub reschedule_all :
    ℕ → List TimerEntry → HierarchicalTimingWheel → Option HierarchicalTimingWheel
reschedule_all now [] w = some w
reschedule_all now (e ∷ es) w = elim (reschedule_timer now e w) [
  | none ↦ none
  | some w' ↦ reschedule_all now es w'
]
