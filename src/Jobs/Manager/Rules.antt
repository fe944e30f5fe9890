-- ===== src/Jobs/Manager/Rules.antt =====
-- Rules for the two steps of a call on one job (src/jobs/manager.go).
use atom_engine.Base.{◌≡◌, refl, Bool, true, false, if◌then◌else◌}
use atom_engine.Jobs.{Job, JobStore, Result, ok, err}
use atom_engine.Jobs.Manager.{Manager, with_job, saved}

-- The rules for the two steps of a call: it finds the job, and it saves a job.
pub with_job-found {ℓ} :
    (P : Manager → Type ℓ) (m : Manager) (r : Result Job) (k : Job → Manager × Result (Unit {0}))
    → P m
    → ((j : Job) → r ≡ ok j → P (k j).0)
    → P (with_job m r k).0
unfolding with_job
with_job-found P m (err e) k h f = h
with_job-found P m (ok j) k h f = f j refl

pub saved-found {ℓ} :
    (P : Manager → Type ℓ) (m : Manager) (r : Result JobStore) (k : Manager → Manager)
    → P m
    → ((st : JobStore) → r ≡ ok st → P (k (record m { store = st })))
    → P (saved m r k).0
unfolding saved
saved-found P m (err e) k h f = h
saved-found P m (ok st) k h f = f st refl

pub if-known {ℓ κ} :
    {A : Type ℓ} (P : A → Type κ) (c : Bool) (x y : A)
    → (c ≡ true → P x)
    → (c ≡ false → P y)
    → P (if c then x else y)
if-known P true x y h k = h refl
if-known P false x y h k = k refl
