-- ===== src/Jobs.antt =====
-- Jobs: the record (src/core/models/job.go), its storage (src/storage/storage_job.go) and the
-- manager (src/jobs/manager.go). The children hold the parts; this file has the record and the
-- store.
pub mod Manager
pub mod Cleanup
pub mod Calls
pub mod Workers
pub mod Errors
pub mod Reports
pub mod Activation
pub mod Transitions
mod Examples
use atom_engine.Base.{
  ℕ, zero, suc, ◌+◌, ◌<◌, ◌≡◌, ◌≢◌, String, Bool, true, false, not, ◌&&◌, ◌||◌, Option, none, some,
  List, [], ◌∷◌, Dict, lookup, insert, ltb, leb, ◌==◌, str_eq, if◌then◌else◌, select, take,
}
use atom_engine.Token.{Value}

pub data JobStatus : Type 0 where
  pending running completed failed canceled deferred transferred error_thrown : JobStatus

-- `retries` is an `int`; the manager stores what the caller sends, so it may be negative.
pub data Count : Type 0 where
  natural : ℕ → Count
  negative : ℕ → Count  -- `negative n` is -(n + 1)

abbrev pub is_positive : Count → Bool
is_positive (natural n) = ltb 0 n
is_positive (negative n) = false

-- `j.Retries++`
abbrev pub increment : Count → Count
increment (natural n) = natural (n + 1)
increment (negative zero) = natural 0
increment (negative (suc n)) = negative n

pub record Job : Type 0 where
  pub id : String
  pub type : String
  pub status : JobStatus
  pub worker_id : String
  pub retries : Count
  pub max_retries : ℕ
  pub process_instance_id : String
  pub element_id : String
  pub element_instance_id : String
  pub token_id : String
  pub custom_headers : Dict String
  pub variables : Dict Value
  pub created_at : ℕ
  pub updated_at : ℕ
  pub started_at : Option ℕ
  pub completed_at : Option ℕ
  pub scheduled_at : Option ℕ
  pub priority : ℕ
  pub error_message : String
  pub metadata : Dict String

unfoldable pub new_job : String → ℕ → String → String → String → Job
new_job fresh now job_type process_instance_id element_id = record {
  id = fresh;
  type = job_type;
  status = pending;
  worker_id = "";
  retries = natural 0;
  max_retries = 3;
  process_instance_id = process_instance_id;
  element_id = element_id;
  element_instance_id = "";
  token_id = "";
  custom_headers = [];
  variables = [];
  created_at = now;
  updated_at = now;
  started_at = none;
  completed_at = none;
  scheduled_at = none;
  priority = 0;
  error_message = "";
  metadata = [];
}

-- Statuses are texts in the source, and `==` compares them.
abbrev pub same_status : JobStatus → JobStatus → Bool
same_status pending pending = true
same_status running running = true
same_status completed completed = true
same_status failed failed = true
same_status canceled canceled = true
same_status deferred deferred = true
same_status transferred transferred = true
same_status error_thrown error_thrown = true
same_status _ _ = false

unfoldable pub is_active : Job → Bool
is_active j = same_status j.status pending || same_status j.status running

unfoldable pub is_completed : Job → Bool
is_completed j =
    same_status j.status completed
    || same_status j.status failed
    || same_status j.status canceled
    || same_status j.status error_thrown

unfoldable pub can_retry : Job → Bool
can_retry j = same_status j.status failed && is_positive j.retries

unfoldable pub mark_as_started : ℕ → String → Job → Job
mark_as_started now worker_id j = record j {
  status = running;
  worker_id = worker_id;
  started_at = some now;
  updated_at = now;
}

unfoldable pub mark_as_completed : ℕ → Job → Job
mark_as_completed now j = record j { status = completed; completed_at = some now; updated_at = now }

unfoldable pub mark_as_failed : ℕ → String → Job → Job
mark_as_failed now error_message j = record j {
  status = failed;
  error_message = error_message;
  retries = increment j.retries;
  completed_at = some now;
  updated_at = now;
}

unfoldable pub mark_as_deferred : ℕ → ℕ → Job → Job
mark_as_deferred now scheduled_at j = record j {
  status = deferred;
  scheduled_at = some scheduled_at;
  updated_at = now;
}

unfoldable pub mark_as_error_thrown : ℕ → String → String → Job → Job
mark_as_error_thrown now error_code error_message j = record j {
  status = error_thrown;
  error_message = error_message;
  completed_at = some now;
  updated_at = now;
  metadata = insert "completionType" "BPMN_ERROR" (insert "errorCode" error_code j.metadata);
}

-- The records under the prefix `job:`, by the id of the job, in the order in which the database
-- lists them. A call to the database may fail; which calls do is chosen from outside.
pub record JobStore : Type 0 where
  pub jobs : Dict Job
  pub get_fails : String → Bool
  pub save_fails : String → Bool
  pub list_fails : Bool

pub data Error : Type 0 where
  get_failed save_failed list_failed job_not_found job_not_running job_already_completed : Error

pub data Result {ℓ} (A : Type ℓ) : Type ℓ where
  ok : A → Result A
  err : Error → Result A

-- A job that is not there is `none` and no error.
unfoldable pub get_job : String → JobStore → Result (Option Job)
get_job id st = if st.get_fails id then err get_failed else ok (lookup id st.jobs)

unfoldable pub save_job : Job → JobStore → Result JobStore
save_job j st =
    if st.save_fails j.id then err save_failed else ok (record st { jobs = insert j.id j st.jobs })

-- An empty type, and no status, let every job pass.
abbrev pub passes : String → Option JobStatus → Job → Bool
passes job_type none j = str_eq job_type "" || str_eq j.type job_type
passes job_type (some s) j =
    (str_eq job_type "" || str_eq j.type job_type) && same_status j.status s

-- The jobs that pass, in the order of the store.
unfoldable pub passing : String → Option JobStatus → Dict Job → List Job
passing job_type status [] = []
passing job_type status ((id, j) ∷ rest) =
    if passes job_type status j
    then j ∷ passing job_type status rest
    else passing job_type status rest

-- The iteration stops when `limit` jobs have passed; a limit of 0 is no limit.
unfoldable pub list_jobs_by_type : String → Option JobStatus → ℕ → JobStore → Result (List Job)
unfolding passing
list_jobs_by_type job_type status limit st =
    if st.list_fails
    then err list_failed
    else ok (
        if limit == 0
        then passing job_type status st.jobs
        else take limit (passing job_type status st.jobs))
