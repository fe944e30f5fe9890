-- ===== src/Timewheel/Wheel/Index.antt =====
-- The index of the wheel and the timers on its levels (src/timewheel/wheel_operations.go, AddTimer
-- and RemoveTimerByID).
use mathlib.Core.Option.{some-injective}
use atom_engine.Base.{
  ℕ, suc, ◌+◌, ◌-◌, ◌/◌, ◌%◌, ◌<◌, ◌≡◌, refl, sym, subst, String, Option, none, some, List, [], ◌∷◌,
  ◌++◌, lookup, lookup-insert_self, lookup-remove_self, str_eq, str_eq_self, get_elem?, set,
  get_elem?-set_self, get_elem?-some_lt, lt→not_leb, ap, ◌∙◌, zero, length, All, false, remove,
  arith,
}
use atom_engine.Timewheel.{
  Timer, TimerAnchor, TimerEntry, TimerLocation, TimingWheelLevel, ok, left, until, add_timer,
  push_back, slot_of, drop_timer, or_empty, remove_timer_by_slot_and_id,
}
use atom_engine.Timewheel.Slots.{IsLevel, slot_index-left}
use atom_engine.Timewheel.Horizons.{find_level_for_delay-IsFirstFit, IsFirstFit}
use atom_engine.Timewheel.Wheel.{
  HierarchicalTimingWheel, find_level_for_delay, add_to_level, record_anchor, schedule,
  schedule_timer, remove_timer_by_id, get_timer_location,
}

-- Every level is well formed and knows its position.
pub record IsWheel (w : HierarchicalTimingWheel) : Type 0 where
  pub leveled :
      (i : ℕ) (l : TimingWheelLevel) → get_elem? w.levels i ≡ some l → IsLevel l × (l.level_id ≡ i)

-- How `AddTimer` puts a timer on a level.
pub record Scheduled (timer : Timer) (w w' : HierarchicalTimingWheel) : Type 0 where
  pub position : ℕ
  pub level : TimingWheelLevel
  pub slot : ℕ
  pub found : get_elem? w.levels position ≡ some level
  pub inside : slot < level.size
  pub result :
      w'
      ≡ record_anchor timer
          (record { level = level.level_id; slot = slot; element = w.next_element })
          (record w {
            levels =
                set w.levels position
                  (push_back slot (record { timer = timer; element = w.next_element }) level);
            next_element = w.next_element + 1;
          })

module _ (now : ℕ) (timer : Timer) (w w' : HierarchicalTimingWheel) (v : IsWheel w) where
  Scheduled-at :
      (d i : ℕ) (l : TimingWheelLevel)
      → lookup timer.id w.timer_index ≡ none
      → until timer.due_date now ≡ left (suc d)
      → find_level_for_delay (left (suc d)) w.levels ≡ some i
      → get_elem? w.levels i ≡ some l
      → schedule_timer now timer w ≡ some (ok w')
      → Scheduled timer w w'
  unfolding schedule_timer add_to_level add_timer
  Scheduled-at d i l a u f g =
      let (vl, _) = v.leveled i l g in
      rw (a, schedule_timer)
        (rw u (
          rw (f, schedule)
            (rw (g, add_to_level)
              (rw (slot_index-left (suc d) l vl) λ h. record {
                position = i;
                level = l;
                slot = (l.current_slot + suc d / l.tick) % l.size;
                found = g;
                inside = omega (arith, vl.inside);
                result = ground (arith, h);
              }))))

  level_found :
      (d : ℕ) (o : Option ℕ)
      → lookup timer.id w.timer_index ≡ none
      → until timer.due_date now ≡ left (suc d)
      → find_level_for_delay (left (suc d)) w.levels ≡ o
      → IsFirstFit (left (suc d)) w.levels o
      → schedule_timer now timer w ≡ some (ok w')
      → Scheduled timer w w'
  unfolding schedule_timer
  level_found d none a u f fit =
      rw (a, schedule_timer) (rw u (rw (f, schedule) λ h. absurd (ground (arith, h))))
  level_found d (some i) a u f (_, (l, g, _)) = Scheduled-at d i l a u f g

  index_found :
      (o : Option TimerLocation)
      → lookup timer.id w.timer_index ≡ o
      → now < timer.due_date
      → schedule_timer now timer w ≡ some (ok w')
      → Scheduled timer w w'
  unfolding schedule_timer
  index_found (some at) a k = rw (a, schedule_timer) λ h. absurd (ground (arith, h))
  index_found none a k =
      let d = timer.due_date - now - 1 in
      level_found d (find_level_for_delay (left (suc d)) w.levels) a (ground (arith, k)) refl
        (find_level_for_delay-IsFirstFit (left (suc d)) w.levels)

  pub schedule_timer-Scheduled :
      now < timer.due_date → schedule_timer now timer w ≡ some (ok w') → Scheduled timer w w'
  schedule_timer-Scheduled = index_found (lookup timer.id w.timer_index) refl

-- No entry of the timer is on the wheel.
abbrev pub IsAbsent : String → HierarchicalTimingWheel → Type 0
IsAbsent id w =
    (i : ℕ) (l : TimingWheelLevel)
    → get_elem? w.levels i ≡ some l
    → (k : ℕ) → All (λ e. str_eq e.timer.id id ≡ false) (slot_of k l)

drop_timer-snoc :
    (es : List TimerEntry) (e : TimerEntry)
    → All (λ x. str_eq x.timer.id e.timer.id ≡ false) es
    → drop_timer e.timer.id (es ++ e ∷ []) ≡ some es
unfolding drop_timer
drop_timer-snoc [] e absent = rw (str_eq_self e.timer.id) refl
drop_timer-snoc (x ∷ es) e (other, absent) = rw other (rw (drop_timer-snoc es e absent) refl)

-- What is written over and then written back.
set-set : {A : Type 0} (xs : List A) (i : ℕ) (v w : A) → set (set xs i v) i w ≡ set xs i w
set-set [] i v w = refl
set-set (x ∷ xs) zero v w = refl
set-set (x ∷ xs) (suc i) v w = ap (λ l. x ∷ l) (set-set xs i v w)

set-get_elem? :
    {A : Type 0} (xs : List A) (i : ℕ) (v : A) → get_elem? xs i ≡ some v → set xs i v ≡ xs
set-get_elem? [] i v h = refl
set-get_elem? (x ∷ xs) zero v h = ap (λ y. y ∷ xs) (sym (some-injective _ _ h))
set-get_elem? (x ∷ xs) (suc i) v h = ap (λ l. x ∷ l) (set-get_elem? xs i v h)

set-or_empty :
    (slots : List (List TimerEntry)) (s : ℕ) → set slots s (or_empty (get_elem? slots s)) ≡ slots
set-or_empty [] s = refl
set-or_empty (es ∷ slots) zero = refl
set-or_empty (es ∷ slots) (suc s) = ap (λ l. es ∷ l) (set-or_empty slots s)

remove-push_back :
    (l : TimingWheelLevel) (s : ℕ) (e : TimerEntry)
    → IsLevel l
    → s < l.size
    → All (λ x. str_eq x.timer.id e.timer.id ≡ false) (slot_of s l)
    → remove_timer_by_slot_and_id s e.timer.id (push_back s e l) ≡ ok l
unfolding remove_timer_by_slot_and_id
remove-push_back l s e v h absent =
    let inside : s < length l.slots = omega (arith, v.slotted) in
    rw (lt→not_leb l.size s h) (
      rw (get_elem?-set_self l.slots s (slot_of s l ++ e ∷ []) inside) (
        rw (drop_timer-snoc (slot_of s l) e absent, remove_timer_by_slot_and_id)
          (ap (λ x. ok (record l { slots = x }))
            (set-set l.slots s (slot_of s l ++ e ∷ []) (slot_of s l) ∙ set-or_empty l.slots s))))

-- A removal by id that finds its way.
remove_timer_by_id_found :
    (id : String) (w : HierarchicalTimingWheel) (at : TimerLocation) (l l' : TimingWheelLevel)
    → lookup id w.timer_index ≡ some at
    → get_elem? w.levels at.level ≡ some l
    → remove_timer_by_slot_and_id at.slot id l ≡ ok l'
    → remove_timer_by_id id w ≡ (
      record w { timer_index = remove id w.timer_index; levels = set w.levels at.level l' },
      none,
    )
unfolding remove_timer_by_id
remove_timer_by_id_found id w at l l' a g r =
    rw (a, remove_timer_by_id) (rw g (rw (r, remove_timer_by_id) refl))

-- A timer that was put on a wheel with no entry of it, and is then removed by its id, is gone: the
-- removal succeeds, the index has no entry of it, the levels are exactly those from before it was
-- put there, and nothing fires. The timer must not be due yet, and every level of the wheel must be
-- well formed and carry its position as its id.
pub remove_timer_by_id-schedule_timer :
    (now : ℕ) (timer : Timer) (w w' : HierarchicalTimingWheel)
    → IsWheel w
    → IsAbsent timer.id w
    → now < timer.due_date
    → schedule_timer now timer w ≡ some (ok w')
    → let (w'', error) = remove_timer_by_id timer.id w' in
      (error ≡ none)
      × (get_timer_location timer.id w'' ≡ none)
      × (w''.levels ≡ w.levels)
      × (w''.fired ≡ w.fired)
unfolding get_timer_location
remove_timer_by_id-schedule_timer now timer w w' v absent k h =
    let r = schedule_timer-Scheduled now timer w w' v k h in
    let (vl, at) = v.leveled r.position r.level r.found in
    let e : TimerEntry = record { timer = timer; element = w.next_element } in
    let i = r.level.level_id in
    let placed = push_back r.slot e r.level in
    let levels = set w.levels r.position placed in
    let anchor : TimerAnchor = record { level = i; slot = r.slot; element = w.next_element } in
    let w1 =
      record_anchor timer anchor
        (record w { levels = levels; next_element = w.next_element + 1 }) in
    let removed =
      remove_timer_by_id_found timer.id w1 (record { level = i; slot = r.slot }) placed r.level
        (lookup-insert_self timer.id _ w.timer_index)
        (subst (λ n. get_elem? levels n ≡ some placed) (sym at)
          (get_elem?-set_self w.levels r.position placed
            (get_elem?-some_lt w.levels r.position r.found)))
        (remove-push_back r.level r.slot e vl r.inside
          (absent r.position r.level r.found r.slot)) in
    rw r.result (
      rw removed (
        refl,
        lookup-remove_self timer.id w1.timer_index,
        subst (λ n. set levels n r.level ≡ w.levels) (sym at)
            (set-set w.levels r.position placed r.level
              ∙ set-get_elem? w.levels r.position r.level r.found),
        refl,
      ))
