-- ===== src/Jobs/Activation/Leases.antt =====
-- What activation does to the store, and what the worker holds after it (src/jobs/manager.go,
-- ActivateJobs).
use atom_engine.Base.{
  ℕ, ◌+◌, ◌≡◌, refl, sym, ◌⊎◌, inl, inr, String, some, List, [], ◌∷◌, ◌++◌, lookup, insert,
  lookup-insert, str_eq, eq_iff, length, arith, leb, Bool-cases, All, All-append, All-map, subst,
  lookup-insert_self,
}
use mathlib.Core.Option.{some-injective}
use atom_engine.Jobs.{Job, JobStore, pending, running}
use atom_engine.Jobs.Manager.{Manager}
use atom_engine.Jobs.Activation.{activate_loop, activate_jobs, jobs, leased}
use atom_engine.Jobs.Activation.Rounds.{activate_one-View, activate_jobs-Ran, activate_jobs_store}

-- Every job stands under its own id.
abbrev pub WellKeyed : JobStore → Type 0
WellKeyed st = (id : String) (f : Job) → lookup id st.jobs ≡ some f → f.id ≡ id

module _ (now timeout : ℕ) (w : String) where
  -- The job of an id is untouched, or was pending and is leased to the worker.
  abbrev pub Untouched : String → JobStore → JobStore → Type 0
  Untouched id st st' = lookup id st'.jobs ≡ lookup id st.jobs

  abbrev pub Leased : String → JobStore → JobStore → Type 0
  Leased id st st' =
      (f : Job) × (lookup id st.jobs ≡ some f)
      × (f.status ≡ pending)
      × (lookup id st'.jobs ≡ some (leased now timeout w f))

  after_take : Job → JobStore → JobStore
  after_take f st = record st { jobs = insert f.id (leased now timeout w f) st.jobs }

  after_take-WellKeyed : (f : Job) (st : JobStore) → WellKeyed st → WellKeyed (after_take f st)
  unfolding after_take leased
  after_take-WellKeyed f st wk id g =
      rw (lookup-insert f.id id (leased now timeout w f) st.jobs)
        (elim (Bool-cases (str_eq f.id id)) [
          | inl y ↦ rw y λ e. ground (arith, e, eq_iff f.id id)
          | inr n ↦ rw n (wk id g)
        ])

  -- A step of the frame: the first job, then the rest of the loop.
  take_then :
      (f : Job) (id key : String) (st st' : JobStore)
      → WellKeyed st
      → lookup key st.jobs ≡ some f
      → f.status ≡ pending
      → (Untouched id (after_take f st) st' ⊎ Leased id (after_take f st) st')
      → Untouched id st st' ⊎ Leased id st st'
  unfolding after_take leased
  take_then f id key st st' wk e p =
      rw (lookup-insert f.id id (leased now timeout w f) st.jobs)
        (elim (Bool-cases (str_eq f.id id)) [
          | inl y ↦ rw y (elim [
            | inl s ↦ inr (f, ground (arith, wk key f e, eq_iff f.id id), p, s)
            | inr (x, q, r, _) ↦ absurd (ground (arith, q, r))
          ])
          | inr n ↦ rw n λ h. h
        ])

  activate_loop_frame :
      (k : ℕ) (js : List Job) (st : JobStore) (acc : List Job) (id : String)
      → WellKeyed st
      → let st' = (activate_loop now timeout w k js st acc).0 in
        Untouched id st st' ⊎ Leased id st st'
  unfolding activate_loop after_take
  activate_loop_frame k [] st acc id wk = inl refl
  activate_loop_frame k (j ∷ js) st acc id wk = elim (activate_one-View now timeout w k j st acc) [
    | inl same ↦ rw (same, activate_loop) (activate_loop_frame k js st acc id wk)
    | inr (inl gone) ↦ rw (gone, activate_loop) (inl refl)
    | inr (inr t) ↦
        take_then t.fresh id j.id st (activate_loop now timeout w k (j ∷ js) st acc).0 wk t.found
          t.was_pending
          (rw (t.taken, activate_loop)
            (elim (Bool-cases (leb k (length (acc ++ leased now timeout w t.fresh ∷ [])))) [
              | inl full ↦ rw full (inl refl)
              | inr room ↦ rw room (
                  activate_loop_frame k js (after_take t.fresh st)
                    (acc ++ leased now timeout w t.fresh ∷ []) id
                    (after_take-WellKeyed t.fresh st wk))
            ]))
  ]

  -- The worker holds the job: the store has it as running, under the worker's name and its lease.
  abbrev pub IsHeld : JobStore → Job → Type 0
  IsHeld st a =
      (lookup a.id st.jobs ≡ some a)
      × (a.status ≡ running)
      × (a.worker_id ≡ w)
      × (a.scheduled_at ≡ some (now + timeout))

  keep-IsHeld :
      (f : Job) (key : String) (st : JobStore)
      → WellKeyed st
      → lookup key st.jobs ≡ some f
      → f.status ≡ pending
      → (a : Job) → IsHeld st a
      → IsHeld (after_take f st) a
  unfolding after_take leased
  keep-IsHeld f key st wk e p a h = ground (
    arith,
    lookup-insert f.id a.id (leased now timeout w f) st.jobs,
    eq_iff f.id a.id,
    wk key f e,
  )

  new-IsHeld : (f : Job) (st : JobStore) → IsHeld (after_take f st) (leased now timeout w f)
  unfolding after_take leased
  new-IsHeld f st = (lookup-insert_self f.id _ st.jobs, refl, refl, refl)

  activate_loop-IsHeld :
      (k : ℕ) (js : List Job) (st : JobStore) (acc js' : List Job)
      → WellKeyed st
      → All (IsHeld st) acc
      → (activate_loop now timeout w k js st acc).1 ≡ some js'
      → All (IsHeld (activate_loop now timeout w k js st acc).0) js'
  unfolding activate_loop after_take
  activate_loop-IsHeld k [] st acc js' wk h = λ e. subst (All (IsHeld st)) (some-injective _ _ e) h
  activate_loop-IsHeld k (j ∷ js) st acc js' wk h =
      elim (activate_one-View now timeout w k j st acc) [
        | inl same ↦ rw (same, activate_loop) (activate_loop-IsHeld k js st acc js' wk h)
        | inr (inl gone) ↦ rw (gone, activate_loop) λ e. cc
        | inr (inr t) ↦
            let st1 = after_take t.fresh st in
            let acc1 = acc ++ leased now timeout w t.fresh ∷ [] in
            let h1 : All (IsHeld st1) acc1 =
              All-append (IsHeld st1) acc (leased now timeout w t.fresh ∷ [])
                (All-map (IsHeld st) (IsHeld st1) acc
                  (keep-IsHeld t.fresh j.id st wk t.found t.was_pending) h)
                (new-IsHeld t.fresh st, tt) in
            rw (t.taken, activate_loop)
              (elim (Bool-cases (leb k (length acc1))) [
                | inl full ↦ rw full λ e. subst (All (IsHeld st1)) (some-injective _ _ e) h1
                | inr room ↦
                    rw room (
                      activate_loop-IsHeld k js st1 acc1 js' (after_take-WellKeyed t.fresh st wk)
                        h1)
              ])
      ]

-- The jobs that a call returns are held by the worker: the store has each of them as running,
-- under the worker's name, with a lease that ends after the time-out. The store must have every
-- job under its own id.
pub activate_jobs-IsHeld :
    (now : ℕ) (job_type w : String) (k timeout : ℕ) (m : Manager) (js : List Job)
    → WellKeyed m.store
    → (activate_jobs now job_type w k timeout m).1 ≡ jobs js
    → All (IsHeld now timeout w (activate_jobs now job_type w k timeout m).0.store) js
activate_jobs-IsHeld now job_type w k timeout m js wk h =
    let r = activate_jobs-Ran now job_type w k timeout m js h in
    subst (λ st. All (IsHeld now timeout w st) js) (sym r.stores)
      (activate_loop-IsHeld now timeout w k r.listed m.store [] js wk tt r.returns)

-- Activation takes pending jobs only: whatever the call returns, and whichever calls to the
-- database fail, the job of every id is as it was, or it was pending and is now leased to the
-- worker. The store must have every job under its own id.
pub activate_jobs_frame :
    (now : ℕ) (job_type w : String) (k timeout : ℕ) (m : Manager) (id : String)
    → WellKeyed m.store
    → Untouched now timeout w id m.store (activate_jobs now job_type w k timeout m).0.store
      ⊎ Leased now timeout w id m.store (activate_jobs now job_type w k timeout m).0.store
activate_jobs_frame now job_type w k timeout m id wk =
    elim (activate_jobs_store now job_type w k timeout m) [
      | inl e ↦ inl (rw e refl)
      | inr (ls, e) ↦ rw e (activate_loop_frame now timeout w k ls m.store [] id wk)
    ]
