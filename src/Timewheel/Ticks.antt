-- ===== src/Timewheel/Ticks.antt =====
-- When a timer of a level is taken from its slot (src/timewheel/level.go, AddTimer and Tick).
use mathlib.Core.List.{Memᴰ}
use mathlib.Core.Option.{some-injective}
use native.Mathlib.Decide.{dec_lt}
use native.Mathlib.Nat.{mod-eq_of_lt, mod-eq-sub-mod}
use atom_engine.Base.{
  Bool, ◌⊎◌, ℕ, zero, suc, ◌+◌, ◌-◌, ◌/◌, ◌%◌, ◌≤◌, ◌<◌, ◌≡◌, refl, sym, ◌∙◌, ap, subst, true,
  false, some, List, [], ◌∷◌, ◌++◌, length, length-set, get_elem?-set_self, get_elem?-set_ne, arith,
  ◌≢◌, Bool-cases, inl, inr,
}
use atom_engine.Timewheel.{
  Timer, TimerAnchor, TimerEntry, TimingWheelLevel, left, add_timer, push_back, advance, slot_of,
  or_empty, is_due, expired_of, overflow_of,
}
use atom_engine.Timewheel.Slots.{IsLevel, advance-IsLevel, slot_index-left}

-- The level after ticks at the times of a list.
unfoldable pub ticks : List ℕ → TimingWheelLevel → TimingWheelLevel
ticks [] l = l
ticks (now ∷ ts) l = ticks ts (advance now l).0

-- A sum that has passed the end of the wheel once at most.
mod_wrap : (x n : ℕ) → x < n + n → ((x < n) × (x % n ≡ x)) ⊎ ((n ≤ x) × (x % n + n ≡ x))
mod_wrap x n h = elim (dec_lt x n) [
  | yes p ↦ inl (p, mod-eq_of_lt p)
  | no p ↦ inr (
    omega arith,
    omega (
      arith,
      mod-eq-sub-mod {n = x} {m = n} (omega arith),
      mod-eq_of_lt {n = x - n} {m = n} (omega arith),
    ),
  )
]

-- The slot `i` is the current one in `q` ticks.
pub record IsAhead (q i : ℕ) (l : TimingWheelLevel) : Type 0 where
  pub near : q < l.size
  pub at : (l.current_slot + q) % l.size ≡ i

IsAhead-advance :
    (now q i : ℕ) (l : TimingWheelLevel)
    → IsLevel l
    → IsAhead (suc q) i l
    → IsAhead q i (advance now l).0
unfolding advance
IsAhead-advance now q i l v a = record {
  near = omega (arith, a.near);
  at = omega (
    arith,
    a.near,
    a.at,
    v.inside,
    mod_wrap (l.current_slot + suc q) l.size (omega (arith, a.near, v.inside)),
    mod_wrap (l.current_slot + 1) l.size (omega (arith, a.near, v.inside)),
    mod_wrap ((l.current_slot + 1) % l.size + q) l.size (omega (arith, a.near, v.inside)),
  );
}

ahead_ne : (q i : ℕ) (l : TimingWheelLevel) → IsLevel l → IsAhead (suc q) i l → l.current_slot ≢ i
ahead_ne q i l v a e = absurd (
    omega (
      arith,
      a.near,
      a.at,
      v.inside,
      e,
      mod_wrap (l.current_slot + suc q) l.size (omega (arith, a.near, v.inside)),
    ))

-- A tick leaves the slots that are ahead alone.
slot_of-advance :
    (now q i : ℕ) (l : TimingWheelLevel)
    → IsLevel l
    → IsAhead (suc q) i l
    → slot_of i (advance now l).0 ≡ slot_of i l
unfolding advance
slot_of-advance now q i l v a = ap or_empty (get_elem?-set_ne l.slots [] (ahead_ne q i l v a))

-- After as many ticks as the slot is ahead it is the current one, with what it held.
pub ticks_reach :
    (ts : List ℕ) (i : ℕ) (l : TimingWheelLevel)
    → IsLevel l
    → IsAhead (length ts) i l
    → ((ticks ts l).current_slot ≡ i) × (slot_of i (ticks ts l) ≡ slot_of i l)
unfolding ticks
ticks_reach [] i l v a = (
  omega (arith, a.at, mod_wrap (l.current_slot + 0) l.size (omega (arith, v.inside)), v.inside),
  refl,
)
ticks_reach (now ∷ ts) i l v a =
    let (c, s) =
      ticks_reach ts i (advance now l).0 (advance-IsLevel now l v)
        (IsAhead-advance now (length ts) i l v a) in
    (c, s ∙ slot_of-advance now (length ts) i l v a)

-- An entry fires if it is due, and is put back if it is not.
abbrev pub Goes : Bool → TimerEntry → List TimerEntry × List TimerEntry → Type 0
Goes true e (expired, overflow) = Memᴰ e expired
Goes false e (expired, overflow) = Memᴰ e overflow

abbrev pub IsTaken : ℕ → TimerEntry → List TimerEntry × List TimerEntry → Type 0
IsTaken now e r = Goes (is_due now e) e r

takes :
    (now : ℕ) (e : TimerEntry) (es : List TimerEntry)
    → Memᴰ e es
    → (is_due now e ≡ true → Memᴰ e (expired_of now es))
      × (is_due now e ≡ false → Memᴰ e (overflow_of now es))
unfolding expired_of overflow_of
takes now e [] m = elim m [ ]
takes now e (x ∷ es) (Memᴰ.head q) = elim (Bool-cases (is_due now x)) [
  | inl y ↦ rw y (λ _. Memᴰ.head q, λ n. absurd (ground (arith, ap (is_due now) q)))
  | inr n ↦ rw n (λ y. absurd (ground (arith, ap (is_due now) q)), λ _. Memᴰ.head q)
]
takes now e (x ∷ es) (Memᴰ.tail m) =
    let (d, o) = takes now e es m in
    elim (Bool-cases (is_due now x)) [
      | inl y ↦ rw y (λ h. Memᴰ.tail (d h), o)
      | inr n ↦ rw n (d, λ h. Memᴰ.tail (o h))
    ]

takes-IsTaken :
    (now : ℕ) (e : TimerEntry) (es : List TimerEntry)
    → Memᴰ e es
    → IsTaken now e (expired_of now es, overflow_of now es)
takes-IsTaken now e es m = elim (Bool-cases (is_due now e)) [
  | inl y ↦ rw y ((takes now e es m).0 y)
  | inr n ↦ rw n ((takes now e es m).1 n)
]

-- Fewer ticks than the slot is ahead leave it alone.
ticks_before :
    (ts : List ℕ) (q i : ℕ) (l : TimingWheelLevel)
    → IsLevel l
    → IsAhead q i l
    → length ts ≤ q
    → slot_of i (ticks ts l) ≡ slot_of i l
unfolding ticks
ticks_before [] q i l v a h = refl
ticks_before (now ∷ ts) zero i l v a h = absurd (omega arith)
ticks_before (now ∷ ts) (suc q) i l v a h =
    ticks_before ts q i (advance now l).0 (advance-IsLevel now l v) (IsAhead-advance now q i l v a)
      (omega arith)
    ∙ slot_of-advance now q i l v a

-- What `AddTimer` leaves for a timer with some time left.
record IsAdded (timer : Timer) (d element : ℕ) (l l' : TimingWheelLevel) (a : TimerAnchor)
    : Type 0 where
  added_level : IsLevel l'
  added_tick : l'.tick ≡ l.tick
  added_size : l'.size ≡ l.size
  added_ahead : d / l.tick < l.size → IsAhead (d / l.tick) a.slot l'
  added_entry : Memᴰ (record { timer = timer; element = element }) (slot_of a.slot l')

Memᴰ-last {ℓ} : {A : Type ℓ} (xs : List A) (x : A) → Memᴰ x (xs ++ x ∷ [])
Memᴰ-last [] x = Memᴰ.head refl
Memᴰ-last (y ∷ xs) x = Memᴰ.tail (Memᴰ-last xs x)

place-IsAdded :
    (timer : Timer) (d element : ℕ) (l : TimingWheelLevel)
    → IsLevel l
    → let i = (l.current_slot + d / l.tick) % l.size in
      IsAdded timer d element l
        (push_back i (record { timer = timer; element = element }) l)
        (record { level = l.level_id; slot = i; element = element })
place-IsAdded timer d element l v =
    let i = (l.current_slot + d / l.tick) % l.size in
    let e : TimerEntry = record { timer = timer; element = element } in
    record {
      added_level = record {
        ticking = v.ticking;
        slotted = omega (arith, length-set l.slots i (slot_of i l ++ e ∷ []), v.slotted);
        inside = v.inside;
      };
      added_tick = refl;
      added_size = refl;
      added_ahead = λ h. record { near = h; at = refl };
      added_entry =
          subst (Memᴰ e)
            (sym (
              ap or_empty (
                get_elem?-set_self l.slots i (slot_of i l ++ e ∷ [])
                  (omega (arith, v.slotted, v.inside)))))
            (Memᴰ-last (slot_of i l) e);
    }

add_timer-IsAdded :
    (timer : Timer) (d element : ℕ) (l l' : TimingWheelLevel) (a : TimerAnchor)
    → IsLevel l
    → add_timer timer (left d) element l ≡ some (l', a)
    → IsAdded timer d element l l' a
unfolding add_timer
add_timer-IsAdded timer d element l l' a v = rw (slot_index-left d l v) λ e.
    let p = some-injective _ _ e in
    subst (λ (r : TimingWheelLevel × TimerAnchor). IsAdded timer d element l r.0 r.1) p
      (place-IsAdded timer d element l v)

module _ (timer : Timer) (d element : ℕ) (l l' : TimingWheelLevel) (a : TimerAnchor) (v : IsLevel l)
    (h : d / l.tick < l.size) (added : add_timer timer (left d) element l ≡ some (l', a)) where
  abbrev placed : TimerEntry
  placed = record { timer = timer; element = element }

  -- A timer with `d` left, put on a level whose wheel is longer than `d / tick`, stays in its slot
  -- for `d / tick` ticks.
  pub add_timer_stays :
      (ts : List ℕ)
      → length ts ≤ d / l.tick
      → Memᴰ (record { timer = timer; element = element }) (slot_of a.slot (ticks ts l'))
  add_timer_stays ts k =
      let r = add_timer-IsAdded timer d element l l' a v added in
      subst (Memᴰ placed)
        (sym (ticks_before ts (d / l.tick) a.slot l' r.added_level (r.added_ahead h) k))
        r.added_entry

  -- A timer with `d` left, put on a level whose wheel is longer than `d / tick`, is taken by the
  -- tick that comes after `d / tick` ticks: it fires if it is due at that tick, and is put back if
  -- it is not.
  pub add_timer-IsTaken :
      (ts : List ℕ) (now : ℕ)
      → length ts ≡ d / l.tick
      → IsTaken now
          (record { timer = timer; element = element })
          ((advance now (ticks ts l')).1, (advance now (ticks ts l')).2)
  unfolding advance
  add_timer-IsTaken ts now k =
      let r = add_timer-IsAdded timer d element l l' a v added in
      let (here, same) =
        ticks_reach ts a.slot l' r.added_level
          (subst (λ q. IsAhead q a.slot l') (sym k) (r.added_ahead h)) in
      takes-IsTaken now placed (slot_of (ticks ts l').current_slot (ticks ts l')) (
        subst (λ i. Memᴰ placed (slot_of i (ticks ts l'))) (sym here)
          (subst (Memᴰ placed) (sym same) r.added_entry))
