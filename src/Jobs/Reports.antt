-- ===== src/Jobs/Reports.antt =====
-- What the job manager reports to the process component (src/jobs/manager.go, CompleteJob and
-- FailJob).
use atom_engine.Base.{
  ℕ, ◌≡◌, refl, sym, Bool, true, false, not, ◌++◌, String, Option, none, some, List, [], ◌∷◌, Dict,
  lookup, if◌then◌else◌, arith,
}
use atom_engine.Token.{Value}
use atom_engine.Jobs.{Job, JobStore, Result, ok, err, Count, running, same_status, is_positive}
use atom_engine.Jobs.Manager.{
  Manager, Message, callback, CallbackStatus, completed_status, failed_status, send, release_worker,
  with_job, saved, complete_job, fail_job, find_job,
}
use atom_engine.Jobs.Manager.Rules.{if-known}
use atom_engine.Jobs.Activation.Rounds.{same_status→eq}
use atom_engine.Jobs.Transitions.Single.{find_job-lookup}

-- A call that succeeds leaves a manager with the property.
module _ (m : Manager) (G : Manager → Type 0) where
  abbrev Yields : Manager × Result (Unit {0}) → Type 0
  Yields r = r.1 ≡ ok tt → G r.0

  with_job-Yields :
      (r : Result Job) (k : Job → Manager × Result (Unit {0}))
      → ((j : Job) → r ≡ ok j → Yields (k j))
      → Yields (with_job m r k)
  unfolding with_job
  with_job-Yields (err y) k h = λ e. cc
  with_job-Yields (ok j) k h = h j refl

  saved-Yields :
      (r : Result JobStore) (k : Manager → Manager)
      → ((st : JobStore) → G (k (record m { store = st })))
      → Yields (saved m r k)
  unfolding saved
  saved-Yields (err y) k h = λ e. cc
  saved-Yields (ok st) k h = λ e. h st

send_sent :
    (c : Message) (m : Manager) → m.has_component ≡ true → (send c m).sent ≡ m.sent ++ c ∷ []
unfolding send
send_sent c m h = rw h

send-release_sent :
    (c : Message) (w : String) (m : Manager)
    → m.has_component ≡ true
    → (send c (release_worker w m)).sent ≡ m.sent ++ c ∷ []
unfolding release_worker
send-release_sent c w m h = send_sent c (release_worker w m) h

append-nil {ℓ} : {A : Type ℓ} (xs : List A) → xs ++ [] ≡ xs
append-nil [] = refl
append-nil (x ∷ xs) = rw (append-nil xs)

release_sent : (w : String) (m : Manager) → (release_worker w m).sent ≡ m.sent ++ []
unfolding release_worker
release_sent w m = sym (append-nil m.sent)

-- The report on a job.
abbrev pub report : Job → CallbackStatus → Option (Dict Value) → String → ℕ → Message
report j status variables error_message now = callback (record {
  job_id = j.id;
  element_id = j.element_id;
  token_id = j.token_id;
  process_instance_id = j.process_instance_id;
  status = status;
  variables = variables;
  error_message = error_message;
  error_code = "";
  completed_at = now;
})

-- What a completion that succeeds has done: the job was running, and one report of it is sent.
abbrev pub IsReported : ℕ → String → Option (Dict Value) → Manager → Manager → Type 0
IsReported now id vs m m' =
    (j : Job) × (lookup id m.store.jobs ≡ some j)
    × (j.status ≡ running)
    × (m'.sent ≡ m.sent ++ report j completed_status vs "" now ∷ [])

-- Where the process component is there, a completion that succeeds was of a running job, and sends
-- exactly one message: the report of that job with the variables of the call.
pub complete_job-IsReported :
    (now : ℕ) (id : String) (vs : Option (Dict Value)) (m : Manager)
    → m.has_component ≡ true
    → (complete_job now id vs m).1 ≡ ok tt
    → IsReported now id vs m (complete_job now id vs m).0
unfolding complete_job
complete_job-IsReported now id vs m c =
    with_job-Yields m (IsReported now id vs m) (find_job id m.store) _ λ j e.
      if-known (Yields m (IsReported now id vs m)) (not (same_status j.status running)) _ _
        (λ _ h. absurd (ground (arith, h)))
        λ n. saved-Yields m (IsReported now id vs m) _ _ λ st. (
          j,
          find_job-lookup id m.store j e,
          same_status→eq j.status running (ground (arith, n)),
          send-release_sent _ _ (record m { store = st }) c,
        )

-- What a failure that succeeds has done: with retries left nothing is sent, and otherwise one
-- report of the job.
abbrev pub IsFailureReported : ℕ → String → Count → String → Manager → Manager → Type 0
IsFailureReported now id r message m m' =
    (j : Job) × (lookup id m.store.jobs ≡ some j)
    × (m'.sent
        ≡ m.sent ++ (if is_positive r then [] else report j failed_status none message now ∷ []))

-- Where the process component is there, a failure that is recorded sends the report of the job if
-- no retries are given, and sends nothing if some are, whatever the back-off is.
pub fail_job-IsFailureReported :
    (now : ℕ) (id : String) (r : Count) (message : String) (b : ℕ) (m : Manager)
    → m.has_component ≡ true
    → (fail_job now id r message b m).1 ≡ ok tt
    → IsFailureReported now id r message m (fail_job now id r message b m).0
unfolding fail_job
fail_job-IsFailureReported now id r message b m c =
    with_job-Yields m (IsFailureReported now id r message m) (find_job id m.store) _ λ j e.
      saved-Yields m (IsFailureReported now id r message m) _ _
        λ st. (j, find_job-lookup id m.store j e, sent j st (is_positive r))
  where
    sent :
        (j : Job) (st : JobStore) (p : Bool)
        → (if p
            then release_worker j.worker_id (record m { store = st })
            else send
                (report j failed_status none message now)
                (release_worker j.worker_id (record m { store = st }))).sent
          ≡ m.sent ++ (if p then [] else report j failed_status none message now ∷ [])
    sent j st true = release_sent j.worker_id (record m { store = st })
    sent j st false = send-release_sent _ _ (record m { store = st }) c
