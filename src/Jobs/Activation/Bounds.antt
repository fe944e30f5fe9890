-- ===== src/Jobs/Activation/Bounds.antt =====
-- How many jobs one call activates (src/jobs/manager.go, ActivateJobs).
use Prim.Native.Nat.{max}
use atom_engine.Base.{
  ℕ, ◌≤◌, ◌<◌, ◌≡◌, inl, inr, String, some, List, [], ◌∷◌, ◌++◌, length, length-append, arith, leb,
  Bool-cases,
}
use atom_engine.Jobs.{Job, JobStore}
use atom_engine.Jobs.Manager.{Manager}
use atom_engine.Jobs.Activation.{activate_loop, activate_jobs, jobs, leased}
use atom_engine.Jobs.Activation.Rounds.{activate_one-View, activate_jobs-Ran}

length-activate_loop :
    (now timeout : ℕ) (w : String) (k : ℕ) (js : List Job) (st : JobStore) (acc js' : List Job)
    → length acc < max 1 k
    → (activate_loop now timeout w k js st acc).1 ≡ some js'
    → length js' ≤ max 1 k
unfolding activate_loop
length-activate_loop now timeout w k [] st acc js' h = λ e. ground (arith, e)
length-activate_loop now timeout w k (j ∷ js) st acc js' h =
    elim (activate_one-View now timeout w k j st acc) [
      | inl same ↦ rw (same, activate_loop) (length-activate_loop now timeout w k js st acc js' h)
      | inr (inl gone) ↦ rw (gone, activate_loop) λ e. cc
      | inr (inr t) ↦
          rw (t.taken, activate_loop)
            (elim (Bool-cases (leb k (length (acc ++ leased now timeout w t.fresh ∷ [])))) [
              | inl full ↦
                  rw full
                    λ e. ground (arith, e, length-append acc (leased now timeout w t.fresh ∷ []))
              | inr room ↦ rw room (
                  length-activate_loop now timeout w k js _
                    (acc ++ leased now timeout w t.fresh ∷ []) js' (ground arith))
            ])
    ]

-- A call returns at most as many jobs as the worker asks for, and one where it asks for none.
pub length-activate_jobs :
    (now : ℕ) (job_type w : String) (k timeout : ℕ) (m : Manager) (js : List Job)
    → (activate_jobs now job_type w k timeout m).1 ≡ jobs js
    → length js ≤ max 1 k
length-activate_jobs now job_type w k timeout m js h =
    let r = activate_jobs-Ran now job_type w k timeout m js h in
    length-activate_loop now timeout w k r.listed m.store [] js (omega arith) r.returns
