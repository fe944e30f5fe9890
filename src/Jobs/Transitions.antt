-- ===== src/Jobs/Transitions.antt =====
-- Which calls change the status of a job, and how (src/jobs/manager.go).
pub mod Keys
pub mod Single
pub mod Batches
pub mod Steps
use atom_engine.Base.{
  ℕ, ◌≡◌, ◌⊎◌, String, Bool, true, false, not, ◌&&◌, ◌||◌, Option, none, some, List, [], ◌∷◌, Dict,
  lookup, insert, str_eq,
}
use atom_engine.Jobs.{
  Job, JobStore, JobStatus, pending, running, completed, failed, canceled, deferred, error_thrown,
  same_status,
}
use atom_engine.Jobs.Calls.{
  Call, creates, activates, completes, completes_with_error, fails, throws, sets_retries, cancels,
  sets_timeout, throws_job_error, cleans_up, checks_workers,
}

-- Every job stands under its own id, and no id stands twice.
abbrev pub AreKeyed : Dict Job → Type 0
AreKeyed [] = Unit
AreKeyed ((k, j) ∷ d) = (j.id ≡ k) × (lookup k d ≡ none) × AreKeyed d

-- A final status as `CancelJob` tests it.
abbrev pub is_over : JobStatus → Bool
is_over s =
    same_status s completed
    || same_status s failed
    || same_status s canceled
    || same_status s error_thrown

-- What a call may do to the status of the job with the id, where it writes the job.
abbrev pub writes : String → Call → JobStatus → JobStatus → Bool
writes id (creates j) s t = false
writes id (activates _ _ _ _) s t = same_status s pending && same_status t running
writes id (completes k _) s t = str_eq k id && (same_status s running && same_status t completed)
writes id (completes_with_error k _ _) s t = str_eq k id && same_status t error_thrown
writes id (fails k _ _ _) s t = str_eq k id && (same_status t failed || same_status t deferred)
writes id (throws k _ _ _) s t = str_eq k id && same_status s t
writes id (sets_retries k _) s t =
    str_eq k id && (same_status s t || (same_status s failed && same_status t pending))
writes id (cancels k) s t = str_eq k id && (not (is_over s) && same_status t canceled)
writes id (sets_timeout k _) s t = str_eq k id && (same_status s running && same_status t running)
writes id (throws_job_error k _ _ _) s t = str_eq k id && same_status t error_thrown
writes id cleans_up s t = same_status s running && same_status t pending
writes id checks_workers s t = false

-- A call leaves the status, or changes it in its way.
abbrev pub moves : String → Call → JobStatus → JobStatus → Bool
moves id c s t = same_status s t || writes id c s t

-- One job of the store was written again.
pub record Written (c : Call) (st st' : JobStore) : Type 0 where
  pub old : Job
  pub new : Job
  pub found : lookup new.id st.jobs ≡ some old
  pub allowed : writes new.id c old.status new.status ≡ true
  pub result : st'.jobs ≡ insert new.id new st.jobs

-- A call on one job leaves the store as it is, or writes that job.
abbrev pub Effect : Call → JobStore → JobStore → Type 0
Effect c st st' = (st' ≡ st) ⊎ Written c st st'

-- The job of the id is still there, and its status moved as the call may move it.
abbrev pub Moved : String → Call → JobStatus → JobStore → Type 0
Moved id c s st' = (j' : Job) × (lookup id st'.jobs ≡ some j') × (moves id c s j'.status ≡ true)

-- What a call leaves of the store: it stays keyed, and every job moves as the call may move it.
pub record Follows (c : Call) (st st' : JobStore) : Type 0 where
  pub keyed : AreKeyed st'.jobs
  pub moved : (id : String) (j : Job) → lookup id st.jobs ≡ some j → Moved id c j.status st'
