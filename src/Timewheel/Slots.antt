-- ===== src/Timewheel/Slots.antt =====
-- The shape of a level, and what its operations do to the slots (src/timewheel/level.go).
use atom_engine.Base.{
  ℕ, zero, suc, ◌+◌, ◌/◌, ◌%◌, ◌<◌, ◌≡◌, some, List, [], ◌∷◌, length, get_elem?, set, length-set,
  length-replicate, arith,
}
use atom_engine.Timewheel.{
  TimerEntry, TimingWheelLevel, left, new_timing_wheel_level, slot_index, advance, slot_of,
  or_empty, count_slots, get_total_timers, expired_of, overflow_of,
}

pub record IsLevel (l : TimingWheelLevel) : Type 0 where
  pub ticking : 0 < l.tick
  pub slotted : length l.slots ≡ l.size
  pub inside : l.current_slot < l.size

pub new_timing_wheel_level-IsLevel :
    (i tick size : ℕ) → 0 < tick → 0 < size → IsLevel (new_timing_wheel_level i tick size)
unfolding new_timing_wheel_level
new_timing_wheel_level-IsLevel i tick size h k = record {
  ticking = h;
  slotted = length-replicate size [];
  inside = k;
}

pub advance-IsLevel : (now : ℕ) (l : TimingWheelLevel) → IsLevel l → IsLevel (advance now l).0
unfolding advance
advance-IsLevel now l h = record {
  ticking = h.ticking;
  slotted = omega (arith, length-set l.slots l.current_slot [], h.slotted);
  inside = omega (arith, h.inside);
}

-- Where a timer with some time left goes.
pub slot_index-left :
    (d : ℕ) (l : TimingWheelLevel)
    → IsLevel l
    → slot_index (left d) l ≡ some ((l.current_slot + d / l.tick) % l.size)
unfolding slot_index
slot_index-left d l h = ground (arith, h.ticking, h.inside)

pub count_slots-set :
    (ss : List (List TimerEntry)) (i : ℕ) (es : List TimerEntry)
    → i < length ss
    → count_slots (set ss i es) + length (or_empty (get_elem? ss i)) ≡ count_slots ss + length es
unfolding count_slots
count_slots-set [] i es h = absurd (omega arith)
count_slots-set (s ∷ ss) zero es h = omega arith
count_slots-set (s ∷ ss) (suc i) es h = omega (arith, count_slots-set ss i es (omega arith))

pub length-expired_of :
    (now : ℕ) (es : List TimerEntry)
    → length (expired_of now es) + length (overflow_of now es) ≡ length es
unfolding expired_of overflow_of
length-expired_of now [] = omega arith
length-expired_of now (e ∷ es) = ground (arith, length-expired_of now es)

-- A tick loses no timer: those in the level before it are those in the level after it, those that
-- fire and those that are put back.
pub get_total_timers-advance :
    (now : ℕ) (l : TimingWheelLevel)
    → IsLevel l
    → let (l', expired, overflow) = advance now l in
      get_total_timers l' + length expired + length overflow ≡ get_total_timers l
unfolding advance get_total_timers
get_total_timers-advance now l h = omega (
  arith,
  h.inside,
  h.slotted,
  count_slots-set l.slots l.current_slot [] (omega (arith, h.inside, h.slotted)),
  length-expired_of now (slot_of l.current_slot l),
)
