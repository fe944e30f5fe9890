-- ===== src/Timewheel/Wheel/Counts.antt =====
-- How many timers a wheel holds, and its shape, after AddTimer (src/timewheel/wheel_operations.go).
use atom_engine.Base.{
  ℕ, zero, suc, ◌+◌, ◌-◌, ◌<◌, ◌≤◌, ◌≡◌, ◌≢◌, refl, sym, ap, subst, Option, none, some, List, [],
  ◌∷◌, ◌∙◌, ◌++◌, lookup, length, length-append, length-set, get_elem?, set, get_elem?-set_self,
  get_elem?-set_ne, get_elem?-some_lt, ◌==◌, leb, Bool-cases, arith, inl, inr, ◌⊎◌,
}
use mathlib.Core.Option.{some-injective}
use atom_engine.Timewheel.{
  Timer, TimerEntry, TimerLocation, TimingWheelLevel, ok, until, left, late, TimerState, push_back,
  slot_of, get_total_timers,
}
use atom_engine.Timewheel.Slots.{IsLevel, count_slots-set}
use atom_engine.Timewheel.Wheel.{HierarchicalTimingWheel, schedule_timer, fire_timer}
use atom_engine.Timewheel.Wheel.Index.{IsWheel, Scheduled, schedule_timer-Scheduled}

-- The timers on all levels.
abbrev pub total_timers : List TimingWheelLevel → ℕ
total_timers [] = 0
total_timers (l ∷ ls) = get_total_timers l + total_timers ls

total_timers-set :
    (ls : List TimingWheelLevel) (i : ℕ) (l l' : TimingWheelLevel)
    → get_elem? ls i ≡ some l
    → total_timers (set ls i l') + get_total_timers l ≡ total_timers ls + get_total_timers l'
total_timers-set [] i l l' e = cc
total_timers-set (x ∷ ls) zero l l' e =
    let q : x ≡ l = some-injective _ _ e in omega (arith, ap get_total_timers q)
total_timers-set (x ∷ ls) (suc i) l l' e = omega (arith, total_timers-set ls i l l' e)

get_total_timers-push_back :
    (s : ℕ) (e : TimerEntry) (l : TimingWheelLevel)
    → IsLevel l
    → s < l.size
    → get_total_timers (push_back s e l) ≡ get_total_timers l + 1
unfolding get_total_timers
get_total_timers-push_back s e l v h = omega (
  arith,
  count_slots-set l.slots s (slot_of s l ++ e ∷ []) (omega (arith, v.slotted)),
  length-append (slot_of s l) (e ∷ []),
)

push_back-IsLevel :
    (s : ℕ) (e : TimerEntry) (l : TimingWheelLevel) → IsLevel l → IsLevel (push_back s e l)
push_back-IsLevel s e l v = record {
  ticking = v.ticking;
  slotted = omega (arith, length-set l.slots s (slot_of s l ++ e ∷ []), v.slotted);
  inside = v.inside;
}

module _ (timer : Timer) (w w' : HierarchicalTimingWheel) (v : IsWheel w)
    (r : Scheduled timer w w') where
  Scheduled-counts :
      total_timers w'.levels + length w'.fired ≡ total_timers w.levels + length w.fired + 1
  Scheduled-counts =
      let (vl, _) = v.leveled r.position r.level r.found in
      let e : TimerEntry = record { timer = timer; element = w.next_element } in
      rw r.result (
        omega (
          arith,
          total_timers-set w.levels r.position r.level (push_back r.slot e r.level) r.found,
          get_total_timers-push_back r.slot e r.level vl r.inside,
        ))

  Scheduled-IsWheel : IsWheel w'
  Scheduled-IsWheel = record { leveled = λ i l. rw r.result (at i l) }
    where
      e : TimerEntry
      e = record { timer = timer; element = w.next_element }

      at :
          (i : ℕ) (l : TimingWheelLevel)
          → get_elem? (set w.levels r.position (push_back r.slot e r.level)) i ≡ some l
          → IsLevel l × (l.level_id ≡ i)
      at i l = elim (Bool-cases (r.position == i)) [
        | inl y ↦ λ g.
            let p : r.position ≡ i = ground (arith, y) in
            let (vl, k) = v.leveled r.position r.level r.found in
            let q : push_back r.slot e r.level ≡ l = some-injective _ _ (
              sym (
                get_elem?-set_self w.levels r.position (push_back r.slot e r.level)
                  (get_elem?-some_lt w.levels r.position r.found))
              ∙ (ap (get_elem? (set w.levels r.position (push_back r.slot e r.level))) p ∙ g)) in
            subst (λ (x : TimingWheelLevel). IsLevel x × (x.level_id ≡ i)) q
              (push_back-IsLevel r.slot e r.level vl, k ∙ p)
        | inr n ↦ λ g.
            let p : r.position ≢ i = λ q. ground (arith, n, q) in
            v.leveled i l (sym (get_elem?-set_ne w.levels (push_back r.slot e r.level) p) ∙ g)
      ]

until-cases :
    (due now : ℕ) → due ≤ now → (until due now ≡ left 0) ⊎ ((d : ℕ) × (until due now ≡ late d))
until-cases due now k = elim (Bool-cases (leb now due)) [
  | inl y ↦ inl (rw y (ground (arith, y)))
  | inr n ↦ inr (now - due, rw n)
]

-- A timer that is due is sent off at once.
due_fires :
    (now : ℕ) (timer : Timer) (w w' : HierarchicalTimingWheel) (o : Option TimerLocation)
    → lookup timer.id w.timer_index ≡ o
    → timer.due_date ≤ now
    → schedule_timer now timer w ≡ some (ok w')
    → fire_timer now timer w ≡ w'
unfolding schedule_timer
due_fires now timer w w' (some at) a k = rw (a, schedule_timer) λ h. absurd (ground (arith, h))
due_fires now timer w w' none a k =
    rw (a, schedule_timer)
      (elim (until-cases timer.due_date now k) [
        | inl z ↦ rw z λ h. ok-injective (some-injective _ _ h)
        | inr (d, z) ↦ rw z λ h. ok-injective (some-injective _ _ h)
      ])
  where
    ok-injective : {a b : HierarchicalTimingWheel} → ok a ≡ ok b → a ≡ b
    ok-injective e = ground (arith, e)

-- Adding a timer to a well-formed wheel, where it succeeds, raises the number of timers on the
-- levels and of timers fired together by exactly one: the timer is neither lost nor there twice.
pub schedule_timer_counts :
    (now : ℕ) (timer : Timer) (w w' : HierarchicalTimingWheel)
    → IsWheel w
    → schedule_timer now timer w ≡ some (ok w')
    → total_timers w'.levels + length w'.fired ≡ total_timers w.levels + length w.fired + 1
unfolding fire_timer
schedule_timer_counts now timer w w' v h = elim (Bool-cases (leb timer.due_date now)) [
  | inl y ↦
      subst
        (λ (x : HierarchicalTimingWheel).
          total_timers x.levels + length x.fired ≡ total_timers w.levels + length w.fired + 1)
        (due_fires now timer w w' (lookup timer.id w.timer_index) refl (ground (arith, y)) h)
        (omega (arith, length-append w.fired (sent ∷ [])))
  | inr n ↦
      Scheduled-counts timer w w' v
        (schedule_timer-Scheduled now timer w w' v (ground (arith, n)) h)
]
  where
    sent : Timer
    sent = record timer { state = TimerState.fired; updated_at = now }

-- A well-formed wheel stays well formed when a timer is added, also where the timer fires at once.
pub schedule_timer-IsWheel :
    (now : ℕ) (timer : Timer) (w w' : HierarchicalTimingWheel)
    → IsWheel w
    → schedule_timer now timer w ≡ some (ok w')
    → IsWheel w'
unfolding fire_timer
schedule_timer-IsWheel now timer w w' v h = elim (Bool-cases (leb timer.due_date now)) [
  | inl y ↦
      subst IsWheel
        (due_fires now timer w w' (lookup timer.id w.timer_index) refl (ground (arith, y)) h)
        (record { leveled = v.leveled })
  | inr n ↦
      Scheduled-IsWheel timer w w' v
        (schedule_timer-Scheduled now timer w w' v (ground (arith, n)) h)
]
