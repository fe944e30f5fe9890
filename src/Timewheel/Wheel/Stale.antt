-- ===== src/Timewheel/Wheel/Stale.antt =====
-- Timers that a tick puts back (src/timewheel/wheel_operations.go, rescheduleTimer and
-- RemoveTimerByID).
use atom_engine.Base.{
  ℕ, ◌<◌, ◌≡◌, refl, ap, Option, none, some, lookup, get_elem?, lt→not_leb, arith, Option-cases,
  inl, inr,
}
use atom_engine.Timewheel.{
  TimerEntry, TimerAnchor, TimerLocation, TimingWheelLevel, until, timer_not_found, drop_timer,
  slot_of, remove_timer_by_slot_and_id,
}
use atom_engine.Timewheel.Wheel.{
  HierarchicalTimingWheel, find_level_for_delay, add_to_level, put_level, keep_wheel,
  reschedule_timer, remove_timer_by_id,
}

put_level_index :
    (i : ℕ) (w w' : HierarchicalTimingWheel) (o : Option (TimingWheelLevel × TimerAnchor))
    → keep_wheel (put_level i w o) ≡ some w'
    → w'.timer_index ≡ w.timer_index
put_level_index i w w' none e = cc
put_level_index i w w' (some (l, a)) e = ground (arith, e)

add_to_level_index :
    (i now : ℕ) (e : TimerEntry) (w w' : HierarchicalTimingWheel)
    → keep_wheel (add_to_level i e.timer (until e.timer.due_date now) w) ≡ some w'
    → w'.timer_index ≡ w.timer_index
unfolding add_to_level
add_to_level_index i now e w w' = elim (Option-cases (get_elem? w.levels i)) [
  | inl n ↦ rw (n, add_to_level) λ h. cc
  | inr (l, g) ↦ rw (g, add_to_level) (put_level_index i w w' _)
]

reschedule_timer_index :
    (now : ℕ) (e : TimerEntry) (w w' : HierarchicalTimingWheel)
    → reschedule_timer now e w ≡ some w'
    → w'.timer_index ≡ w.timer_index
unfolding reschedule_timer
reschedule_timer_index now e w w' =
    elim (Option-cases (find_level_for_delay (until e.timer.due_date now) w.levels)) [
      | inl n ↦ rw (n, reschedule_timer) λ h. ground (arith, h)
      | inr (i, f) ↦ rw (f, reschedule_timer) (add_to_level_index i now e w w')
    ]

-- A timer that is put back cannot be cancelled by its id, unless it comes to stand in the slot that
-- the index has for it: where that slot, which the tick has emptied, holds no entry of the timer
-- after it was put back, the removal fails with "timer not found" and leaves every level as it is.
pub remove_timer_by_id-reschedule_timer :
    (now : ℕ) (e : TimerEntry) (w w' : HierarchicalTimingWheel) (at : TimerLocation)
    (l : TimingWheelLevel)
    → reschedule_timer now e w ≡ some w'
    → lookup e.timer.id w.timer_index ≡ some at
    → get_elem? w'.levels at.level ≡ some l
    → at.slot < l.size
    → drop_timer e.timer.id (slot_of at.slot l) ≡ none
    → ((remove_timer_by_id e.timer.id w').1 ≡ some timer_not_found)
      × ((remove_timer_by_id e.timer.id w').0.levels ≡ w'.levels)
unfolding remove_timer_by_id remove_timer_by_slot_and_id
remove_timer_by_id-reschedule_timer now e w w' at l r a g s d =
    rw (ap (lookup e.timer.id) (reschedule_timer_index now e w w' r), remove_timer_by_id)
      (rw a (
        rw g (rw (lt→not_leb l.size at.slot s) (rw (d, remove_timer_by_slot_and_id) (refl, refl)))))
