-- ===== src/Jobs/Transitions/Keys.antt =====
-- The keys of the job store (src/storage/storage_job.go, SaveJob and ListJobsByType).
use atom_engine.Base.{
  ℕ, zero, suc, ◌≡◌, ◌≢◌, refl, sym, subst, inl, inr, String, none, some, List, [], ◌∷◌, Dict,
  lookup, insert, lookup-insert, str_eq, eq_iff, arith, Bool-cases, All, take,
}
use atom_engine.Jobs.{Job, JobStatus, passing, passes}
use atom_engine.Jobs.Activation.Rounds.{same_status→eq}
use atom_engine.Jobs.Transitions.{AreKeyed}

pub AreKeyed-insert : (j : Job) (d : Dict Job) → AreKeyed d → AreKeyed (insert j.id j d)
unfolding insert lookup
AreKeyed-insert j [] h = (refl, refl, tt)
AreKeyed-insert j ((k, w) ∷ d) (e, n, h) = elim (Bool-cases (str_eq k j.id)) [
  | inl y ↦ rw y (refl, ground (arith, eq_iff k j.id, n, y), h)
  | inr x ↦ rw x (
    e,
    ground (arith, lookup-insert j.id k j d, eq_iff k j.id, eq_iff j.id k, n, x),
    AreKeyed-insert j d h,
  )
]

pub AreKeyed-lookup :
    (k : String) (d : Dict Job) (j : Job) → AreKeyed d → lookup k d ≡ some j → j.id ≡ k
unfolding lookup
AreKeyed-lookup k [] j h = λ e. cc
AreKeyed-lookup k ((i, w) ∷ d) j (e, n, h) = elim (Bool-cases (str_eq i k)) [
  | inl y ↦ rw y λ q. ground (arith, eq_iff i k, q, e, y)
  | inr x ↦ rw x (AreKeyed-lookup k d j h)
]

-- The jobs of a list have one status, stand in the store as they are, and differ in their ids.
abbrev pub AreCurrent : JobStatus → Dict Job → List Job → Type 0
AreCurrent s d [] = Unit
AreCurrent s d (j ∷ js) =
    (lookup j.id d ≡ some j)
    × (j.status ≡ s)
    × All (λ (x : Job). j.id ≢ x.id) js
    × AreCurrent s d js

-- An entry under a key that the rest does not have.
AreCurrent-cons :
    (s : JobStatus) (k : String) (w : Job) (d : Dict Job) (js : List Job)
    → lookup k d ≡ none
    → AreCurrent s d js
    → AreCurrent s ((k, w) ∷ d) js × All (λ (x : Job). k ≢ x.id) js
unfolding lookup
AreCurrent-cons s k w d [] n h = (tt, tt)
AreCurrent-cons s k w d (j ∷ js) n (c, t, u, h) =
    let other : k ≢ j.id = λ e. ground (arith, n, c, e) in
    let (a, b) = AreCurrent-cons s k w d js n h in
    ((ground (arith, eq_iff k j.id, c, other), t, u, a), (other, b))

lookup-head : (k : String) (j : Job) (d : Dict Job) → j.id ≡ k → lookup j.id ((k, j) ∷ d) ≡ some j
unfolding lookup
lookup-head k j d e = ground (arith, eq_iff k j.id, e)

pub passing-AreCurrent :
    (t : String) (s : JobStatus) (d : Dict Job) → AreKeyed d → AreCurrent s d (passing t (some s) d)
unfolding passing
passing-AreCurrent t s [] h = tt
passing-AreCurrent t s ((k, j) ∷ d) (e, n, h) =
    let (a, b) = AreCurrent-cons s k j d (passing t (some s) d) n (passing-AreCurrent t s d h) in
    elim (Bool-cases (passes t (some s) j)) [
      | inl y ↦ rw y (
        lookup-head k j d e,
        same_status→eq j.status s (ground arith),
        subst (λ i. All (λ (x : Job). i ≢ x.id) (passing t (some s) d)) (sym e) b,
        a,
      )
      | inr x ↦ rw x a
    ]

take-All {ℓ} : (P : Job → Type ℓ) (n : ℕ) (xs : List Job) → All P xs → All P (take n xs)
take-All P zero xs a = tt
take-All P (suc n) [] a = tt
take-All P (suc n) (x ∷ xs) (p, a) = (p, take-All P n xs a)

pub take-AreCurrent :
    (n : ℕ) (s : JobStatus) (d : Dict Job) (js : List Job)
    → AreCurrent s d js
    → AreCurrent s d (take n js)
take-AreCurrent zero s d js h = tt
take-AreCurrent (suc n) s d [] h = tt
take-AreCurrent (suc n) s d (j ∷ js) (c, t, u, h) =
    (c, t, take-All (λ (x : Job). j.id ≢ x.id) n js u, take-AreCurrent n s d js h)

-- A write to another id leaves a list current.
pub AreCurrent-insert :
    (s : JobStatus) (j : Job) (d : Dict Job) (js : List Job)
    → All (λ (x : Job). j.id ≢ x.id) js
    → AreCurrent s d js
    → AreCurrent s (insert j.id j d) js
AreCurrent-insert s j d [] o h = tt
AreCurrent-insert s j d (x ∷ js) (p, o) (c, t, u, h) = (
  ground (arith, lookup-insert j.id x.id j d, eq_iff j.id x.id, c, p),
  t,
  u,
  AreCurrent-insert s j d js o h,
)
