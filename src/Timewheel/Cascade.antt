-- ===== src/Timewheel/Cascade.antt =====
-- The tick of the wheel and the cascade between its levels (src/timewheel/wheel_execution.go).
use atom_engine.Base.{
  ℕ, zero, suc, ◌-◌, Bool, true, false, Option, none, some, List, [], ◌∷◌, lookup, remove, length,
  get_elem?, set, ltb, select, if◌then◌else◌,
}
use atom_engine.Timewheel.{
  TimerAnchor, TimerEntry, TimingWheelLevel, Result, ok, err, Delay, left, late, until,
  remove_timer, advance, get_all_timers,
}
use atom_engine.Timewheel.Wheel.{
  HierarchicalTimingWheel, find_level_for_delay, level_index, fire_timer, add_to_level,
  record_anchor, fire_all, reschedule_all,
}

-- `delta := DueDate.Sub(now)` decides: an overdue timer, and one that belongs to a lower level, moves.
abbrev pub is_positive : Delay → Bool
is_positive (left d) = ltb 0 d
is_positive (late d) = false

abbrev pub moves_down : ℕ → ℕ → List TimingWheelLevel → TimerEntry → Bool
moves_down now i ls e =
    if is_positive (until e.timer.due_date now)
    then ltb (level_index ls (find_level_for_delay (until e.timer.due_date now) ls)) i
    else true

-- Take the entry out of level `i` by the anchor of its timer; an error is not looked at.
abbrev level_or : TimingWheelLevel → Result TimingWheelLevel → TimingWheelLevel
level_or l (ok l') = l'
level_or l (err e) = l

unfoldable pub unlink : ℕ → TimerEntry → HierarchicalTimingWheel → HierarchicalTimingWheel
unlink i e w = elim (lookup e.timer.id w.anchors) [
  | none ↦ w
  | some a ↦ elim (get_elem? w.levels i) [
    | none ↦ w
    | some l ↦ record w {
      levels = set w.levels i (level_or l (remove_timer a l));
      timer_index = remove e.timer.id w.timer_index;
    }
  ]
]

abbrev anchored :
    TimerEntry → Option (HierarchicalTimingWheel × TimerAnchor) → Option HierarchicalTimingWheel
anchored e none = none
anchored e (some (w, a)) = some (record_anchor e.timer a w)

-- Move one entry from level `i`: it fires, or goes to its level and is indexed there.
unfoldable pub move_entry :
    ℕ → ℕ → TimerEntry → HierarchicalTimingWheel → Option HierarchicalTimingWheel
unfolding unlink
move_entry now i e w =
    let w' = unlink i e w in
    let delta = until e.timer.due_date now in
    if is_positive delta
    then elim (find_level_for_delay delta w'.levels) [
      | none ↦ some w'
      | some j ↦ anchored e (add_to_level j e.timer delta w')
    ]
    else some (fire_timer now e.timer w')

unfoldable pub move_entries :
    ℕ → ℕ → List TimerEntry → HierarchicalTimingWheel → Option HierarchicalTimingWheel
unfolding move_entry
move_entries now i [] w = some w
move_entries now i (e ∷ es) w = elim (move_entry now i e w) [
  | none ↦ none
  | some w' ↦ move_entries now i es w'
]

abbrev timers_at : Option TimingWheelLevel → List TimerEntry
timers_at none = []
timers_at (some l) = get_all_timers l

-- The loop of `proactiveCascade`, from level `i` down to level 1.
unfoldable pub cascade_from : ℕ → ℕ → HierarchicalTimingWheel → Option HierarchicalTimingWheel
unfolding move_entries
cascade_from now zero w = some w
cascade_from now (suc i) w =
    elim (move_entries now (suc i)
      (select (moves_down now (suc i) w.levels) (timers_at (get_elem? w.levels (suc i)))) w) [
        | none ↦ none
        | some w' ↦ cascade_from now i w'
      ]

unfoldable pub proactive_cascade : ℕ → HierarchicalTimingWheel → Option HierarchicalTimingWheel
unfolding cascade_from
proactive_cascade now w = cascade_from now (length w.levels - 1) w

-- `processTick` reads the clock at its start; `later` is what `time.Until` reads afterwards.
-- `processCascade` does nothing.
unfoldable pub process_tick : ℕ → ℕ → HierarchicalTimingWheel → Option HierarchicalTimingWheel
unfolding proactive_cascade
process_tick now later w = elim (get_elem? w.levels 0) [
  | none ↦ some w
  | some l ↦
      let (l', expired, overflow) = advance now l in
      let w' = fire_all later expired (record w { levels = set w.levels 0 l' }) in
      elim (reschedule_all later overflow w') [ none ↦ none | some w'' ↦ proactive_cascade now w'' ]
]
