-- ===== src/Jobs/Activation/Rounds.antt =====
-- What one round of the activation loop can do (src/jobs/manager.go, ActivateJobs).
use atom_engine.Base.{
  ℕ, ◌≡◌, refl, ◌⊎◌, inl, inr, String, true, Option, none, some, List, [], ◌∷◌, ◌++◌, lookup,
  insert, Bool-cases, arith,
}
use atom_engine.Jobs.{
  Job, JobStore, JobStatus, Result, ok, err, pending, same_status, get_job, save_job,
  list_jobs_by_type,
}
use atom_engine.Jobs.Activation.{
  Round, next, crash, collect, take_fresh, leased, activate_one, activate_loop, activate_jobs, jobs,
}
use atom_engine.Jobs.Manager.{Manager}

pub same_status→eq : (a b : JobStatus) → same_status a b ≡ true → a ≡ b
same_status→eq a b h = ground arith

-- The job `f` was read again, was pending, and was saved as a running job.
pub record Takes (now timeout : ℕ) (w : String) (k : ℕ) (id : String) (st : JobStore)
    (acc : List Job) (r : Round) : Type 0 where
  pub fresh : Job
  pub found : lookup id st.jobs ≡ some fresh
  pub was_pending : fresh.status ≡ pending
  pub taken :
      r
      ≡ collect k
          (record st { jobs = insert fresh.id (leased now timeout w fresh) st.jobs })
          (acc ++ leased now timeout w fresh ∷ [])

-- A round skips the job, panics on a missing job, or takes it.
abbrev pub View : ℕ → ℕ → String → ℕ → String → JobStore → List Job → Round → Type 0
View now timeout w k id st acc r =
    (r ≡ next st acc) ⊎ (r ≡ crash st) ⊎ Takes now timeout w k id st acc r

module _ (now timeout : ℕ) (w : String) (k : ℕ) (id : String) (st : JobStore) (acc : List Job) where
  save-View :
      (f : Job)
      → lookup id st.jobs ≡ some f
      → f.status ≡ pending
      → View now timeout w k id st acc (elim (save_job (leased now timeout w f) st) [
        | err x ↦ next st acc
        | ok st' ↦ collect k st' (acc ++ leased now timeout w f ∷ [])
      ])
  unfolding save_job leased
  save-View f e p = elim (Bool-cases (st.save_fails f.id)) [
    | inl bad ↦ inl (rw (bad, save_job))
    | inr good ↦
        inr (inr (record { fresh = f; found = e; was_pending = p; taken = rw (good, save_job) }))
  ]

  fresh-View :
      (o : Result (Option Job))
      → get_job id st ≡ o
      → View now timeout w k id st acc (take_fresh now timeout w k o st acc)
  unfolding get_job
  fresh-View (err x) e = inl refl
  fresh-View (ok none) e = inr (inl refl)
  fresh-View (ok (some f)) e = elim (Bool-cases (same_status f.status pending)) [
    | inl p ↦ rw p (save-View f (ground arith) (same_status→eq f.status pending p))
    | inr q ↦ inl (rw q)
  ]

pub activate_one-View :
    (now timeout : ℕ) (w : String) (k : ℕ) (j : Job) (st : JobStore) (acc : List Job)
    → View now timeout w k j.id st acc (activate_one now timeout w k j st acc)
unfolding activate_one
activate_one-View now timeout w k j st acc = elim (Bool-cases (same_status j.status pending)) [
  | inl p ↦ rw p (fresh-View now timeout w k j.id st acc (get_job j.id st) refl)
  | inr q ↦ inl (rw q)
]

-- A call that returns jobs ran the loop over the jobs that were listed.
pub record Ran (now : ℕ) (job_type w : String) (k timeout : ℕ) (m : Manager) (js : List Job)
    : Type 0 where
  pub listed : List Job
  pub lists : list_jobs_by_type job_type (some pending) k m.store ≡ ok listed
  pub returns : (activate_loop now timeout w k listed m.store []).1 ≡ some js
  pub stores :
      (activate_jobs now job_type w k timeout m).0.store
      ≡ (activate_loop now timeout w k listed m.store []).0

module _ (now : ℕ) (job_type w : String) (k timeout : ℕ) (m : Manager) (js : List Job) where
  Ran-of :
      (o : Result (List Job))
      → list_jobs_by_type job_type (some pending) k m.store ≡ o
      → (activate_jobs now job_type w k timeout m).1 ≡ jobs js
      → Ran now job_type w k timeout m js
  unfolding activate_jobs
  Ran-of (err x) e = rw (e, activate_jobs) λ h. cc
  Ran-of (ok ls) e =
      rw (e, activate_jobs)
        λ h. record {
          listed = ls;
          lists = e;
          returns = ground arith;
          stores = rw (e, activate_jobs) (ground arith);
        }

  pub activate_jobs-Ran :
      (activate_jobs now job_type w k timeout m).1 ≡ jobs js → Ran now job_type w k timeout m js
  activate_jobs-Ran = Ran-of (list_jobs_by_type job_type (some pending) k m.store) refl

module _ (now : ℕ) (job_type w : String) (k timeout : ℕ) (m : Manager) where
  store_of :
      (o : Result (List Job))
      → list_jobs_by_type job_type (some pending) k m.store ≡ o
      → ((activate_jobs now job_type w k timeout m).0.store ≡ m.store)
        ⊎ ((ls : List Job) × ((activate_jobs now job_type w k timeout m).0.store
              ≡ (activate_loop now timeout w k ls m.store []).0))
  unfolding activate_jobs
  store_of (err x) e = inl (rw (e, activate_jobs))
  store_of (ok ls) e = inr (ls, rw (e, activate_jobs) (ground arith))

  -- The store is as it was, or as the loop leaves it.
  pub activate_jobs_store :
      ((activate_jobs now job_type w k timeout m).0.store ≡ m.store)
      ⊎ ((ls : List Job) × ((activate_jobs now job_type w k timeout m).0.store
            ≡ (activate_loop now timeout w k ls m.store []).0))
  activate_jobs_store = store_of (list_jobs_by_type job_type (some pending) k m.store) refl
