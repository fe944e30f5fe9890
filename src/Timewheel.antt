-- ===== src/Timewheel.antt =====
-- The timing wheel: its data (src/timewheel/types.go, src/core/models/timer.go) and one level of it
-- (src/timewheel/level.go). Times and durations are in nanoseconds.
pub mod Slots
pub mod Ticks
pub mod Wheel
pub mod Cascade
pub mod Horizons
mod Examples
use atom_engine.Base.{
  ℕ, zero, suc, ◌+◌, ◌-◌, ◌*◌, ◌/◌, ◌%◌, String, Bool, true, false, ◌||◌, Option, none, some, List,
  [], ◌∷◌, ◌++◌, length, get_elem?, set, replicate, ltb, leb, ◌==◌, str_eq, if◌then◌else◌,
}

pub data TimerType : Type 0 where
  start boundary event : TimerType

pub data TimerState : Type 0 where
  scheduled fired canceled : TimerState

pub record Timer : Type 0 where
  pub id : String
  pub element_id : String
  pub process_instance_id : String
  pub execution_token_id : String
  pub type : TimerType
  pub state : TimerState
  pub due_date : ℕ
  pub updated_at : ℕ

-- A `*list.Element` is known by a number that no other element has.
pub record TimerAnchor : Type 0 where
  pub level : ℕ
  pub slot : ℕ
  pub element : ℕ

pub record TimerEntry : Type 0 where
  pub timer : Timer
  pub element : ℕ

pub record TimingWheelLevel : Type 0 where
  pub level_id : ℕ
  pub tick : ℕ
  pub size : ℕ
  pub current_slot : ℕ
  pub slots : List (List TimerEntry)
  pub horizon : ℕ

pub record TimerLocation : Type 0 where
  pub level : ℕ
  pub slot : ℕ

pub data Error : Type 0 where
  timer_too_far invalid_anchor timer_not_found timer_already_exists invalid_config : Error
  wheel_not_running wheel_already_running : Error

pub data Result {ℓ} (A : Type ℓ) : Type ℓ where
  ok : A → Result A
  err : Error → Result A

unfoldable pub new_timing_wheel_level : ℕ → ℕ → ℕ → TimingWheelLevel
new_timing_wheel_level level_id tick size = record {
  level_id = level_id;
  tick = tick;
  size = size;
  current_slot = 0;
  slots = replicate size [];
  horizon = tick * size;
}

-- `time.Until(due)`: the time that is left, or the time by which it is late.
pub data Delay : Type 0 where
  left : ℕ → Delay
  late : ℕ → Delay

abbrev pub until : ℕ → ℕ → Delay
until due now = if leb now due then left (due - now) else late (now - due)

-- `slotIndex`; `/` and `%` of Go round towards 0. `none` is a panic: a division by 0, or an index
-- below 0.
unfoldable pub slot_index : Delay → TimingWheelLevel → Option ℕ
slot_index (left d) l =
    if l.tick == 0 || l.size == 0 then none else some ((l.current_slot + d / l.tick) % l.size)
slot_index (late d) l =
    if l.tick == 0 || l.size == 0
    then none
    else if leb (d / l.tick) l.current_slot
    then some ((l.current_slot - d / l.tick) % l.size)
    else if (d / l.tick - l.current_slot) % l.size == 0
    then some 0
    else none

abbrev pub or_empty : Option (List TimerEntry) → List TimerEntry
or_empty none = []
or_empty (some es) = es

abbrev pub slot_of : ℕ → TimingWheelLevel → List TimerEntry
slot_of i l = or_empty (get_elem? l.slots i)

abbrev pub push_back : ℕ → TimerEntry → TimingWheelLevel → TimingWheelLevel
push_back i e l = record l { slots = set l.slots i (slot_of i l ++ e ∷ []) }

-- `element` is the number of the new list element.
abbrev pub place : Timer → ℕ → TimingWheelLevel → Option ℕ → Option (TimingWheelLevel × TimerAnchor)
place timer element l none = none
place timer element l (some i) = some (
  push_back i (record { timer = timer; element = element }) l,
  record { level = l.level_id; slot = i; element = element },
)

unfoldable pub add_timer :
    Timer → Delay → ℕ → TimingWheelLevel → Option (TimingWheelLevel × TimerAnchor)
unfolding slot_index
add_timer timer delay element l = place timer element l (slot_index delay l)

-- `list.Remove` takes the element out of its list, and does nothing if it is not in it.
unfoldable pub drop_element : ℕ → List TimerEntry → List TimerEntry
drop_element n [] = []
drop_element n (e ∷ es) = if e.element == n then es else e ∷ drop_element n es

unfoldable pub remove_timer : TimerAnchor → TimingWheelLevel → Result TimingWheelLevel
unfolding drop_element
remove_timer a l =
    if a.level == l.level_id
    then if leb l.size a.slot
      then err invalid_anchor
      else ok (record l { slots = set l.slots a.slot (drop_element a.element (slot_of a.slot l)) })
    else err invalid_anchor

-- The loop of `RemoveTimerBySlotAndID`: the first entry of the timer goes.
unfoldable pub drop_timer : String → List TimerEntry → Option (List TimerEntry)
drop_timer id [] = none
drop_timer id (e ∷ es) =
    if str_eq e.timer.id id
    then some es
    else elim (drop_timer id es) [ none ↦ none | some rest ↦ some (e ∷ rest) ]

unfoldable pub remove_timer_by_slot_and_id : ℕ → String → TimingWheelLevel → Result TimingWheelLevel
unfolding drop_timer
remove_timer_by_slot_and_id slot id l =
    if leb l.size slot then err invalid_anchor else elim (drop_timer id (slot_of slot l)) [
      | none ↦ err timer_not_found
      | some es ↦ ok (record l { slots = set l.slots slot es })
    ]

-- `now.After(due) || now.Equal(due)`
abbrev pub is_due : ℕ → TimerEntry → Bool
is_due now e = leb e.timer.due_date now

-- The entries of the slot that fire, and those that are put back, each in the order of the list.
unfoldable pub expired_of : ℕ → List TimerEntry → List TimerEntry
expired_of now [] = []
expired_of now (e ∷ es) = if is_due now e then e ∷ expired_of now es else expired_of now es

unfoldable pub overflow_of : ℕ → List TimerEntry → List TimerEntry
overflow_of now [] = []
overflow_of now (e ∷ es) = if is_due now e then overflow_of now es else e ∷ overflow_of now es

-- `Tick` empties the current slot and goes to the next.
unfoldable pub advance : ℕ → TimingWheelLevel → TimingWheelLevel × List TimerEntry × List TimerEntry
unfolding expired_of overflow_of
advance now l = (
  record l { slots = set l.slots l.current_slot []; current_slot = (l.current_slot + 1) % l.size },
  expired_of now (slot_of l.current_slot l),
  overflow_of now (slot_of l.current_slot l),
)

unfoldable pub count_slots : List (List TimerEntry) → ℕ
count_slots [] = 0
count_slots (es ∷ rest) = length es + count_slots rest

unfoldable pub get_total_timers : TimingWheelLevel → ℕ
unfolding count_slots
get_total_timers l = count_slots l.slots

unfoldable pub join_slots : List (List TimerEntry) → List TimerEntry
join_slots [] = []
join_slots (es ∷ rest) = es ++ join_slots rest

unfoldable pub get_all_timers : TimingWheelLevel → List TimerEntry
unfolding join_slots
get_all_timers l = join_slots l.slots
