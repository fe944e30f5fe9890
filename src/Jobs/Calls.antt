-- ===== src/Jobs/Calls.antt =====
-- The calls that reach the job manager, from the component and from its two tickers, as one step
-- function (src/jobs/manager.go).
use atom_engine.Base.{ℕ, String, Bool, Option, List, [], ◌∷◌, Dict}
use atom_engine.Token.{Value}
use atom_engine.Jobs.{Job, JobStore, Count}
use atom_engine.Jobs.Manager.{
  Manager, create_job, complete_job, complete_job_with_bpmn_error, fail_job, throw_error,
  update_job_retries, cancel_job, update_job_timeout, throw_job_error,
}
use atom_engine.Jobs.Activation.{activate_jobs}
use atom_engine.Jobs.Cleanup.{perform_cleanup, check_worker_health}

pub data Call : Type 0 where
  creates : Job → Call
  activates : (job_type worker_id : String) (max_jobs timeout : ℕ) → Call
  completes : (job_id : String) → Option (Dict Value) → Call
  completes_with_error : (job_id error_code error_message : String) → Call
  fails : (job_id : String) → Count → (error_message : String) → (retry_backoff : ℕ) → Call
  throws : (job_id error_code error_message : String) → Dict Value → Call
  sets_retries : (job_id : String) → Count → Call
  cancels : (job_id : String) → Call
  sets_timeout : (job_id : String) → (timeout : ℕ) → Call
  throws_job_error : (job_id error_code error_message : String) → Option (Dict Value) → Call
  cleans_up : Call
  checks_workers : Call

unfoldable pub step : ℕ → Call → Manager → Manager
step now (creates j) m = (create_job j m).0
step now (activates t w k d) m = (activate_jobs now t w k d m).0
step now (completes id vs) m = (complete_job now id vs m).0
step now (completes_with_error id c e) m = (complete_job_with_bpmn_error now id c e m).0
step now (fails id r e b) m = (fail_job now id r e b m).0
step now (throws id c e vs) m = (throw_error now id c e vs m).0
step now (sets_retries id r) m = (update_job_retries now id r m).0
step now (cancels id) m = (cancel_job now id m).0
step now (sets_timeout id d) m = (update_job_timeout now id d m).0
step now (throws_job_error id c e vs) m = (throw_job_error id c e vs m).0
step now cleans_up m = perform_cleanup now m
step now checks_workers m = check_worker_health now m

unfoldable pub run : List (ℕ × Call) → Manager → Manager
unfolding step
run [] m = m
run ((now, c) ∷ cs) m = run cs (step now c m)

-- `NewJobManager`, over a store that may hold jobs of an earlier run.
unfoldable pub new_job_manager : JobStore → Manager
new_job_manager st = record { store = st; workers = []; has_component = Bool.true; sent = [] }
