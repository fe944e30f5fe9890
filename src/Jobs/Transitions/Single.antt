-- ===== src/Jobs/Transitions/Single.antt =====
-- The calls on one job, and what they do to its status (src/jobs/manager.go).
use atom_engine.Base.{
  ℕ, Bool, ◌≡◌, refl, String, true, false, Option, none, some, Dict, lookup, insert, str_eq,
  str_eq_self, Bool-cases, inl, inr, not, arith, if◌then◌else◌, ◌&&◌, ◌||◌,
}
use atom_engine.Token.{Value}
use atom_engine.Jobs.{
  Job, JobStore, Result, ok, Count, running, same_status, is_completed, is_positive, get_job,
  save_job, mark_as_completed, mark_as_error_thrown, failed, deferred,
}
use atom_engine.Jobs.Manager.{
  Manager, Message, with_job, saved, send, release_worker, complete_job,
  complete_job_with_bpmn_error, fail_job, throw_error, update_job_retries, cancel_job,
  update_job_timeout, throw_job_error, find_job, job_or_missing, failed_job, retried_job, is_some,
}
use atom_engine.Jobs.Manager.Rules.{with_job-found, saved-found, if-known}
use atom_engine.Jobs.Calls.{
  Call, completes, completes_with_error, fails, throws, sets_retries, cancels, sets_timeout,
  throws_job_error,
}
use atom_engine.Jobs.Transitions.{AreKeyed, Effect, writes}
use atom_engine.Jobs.Transitions.Keys.{AreKeyed-lookup}

pub find_job-lookup :
    (k : String) (st : JobStore) (j : Job) → find_job k st ≡ ok j → lookup k st.jobs ≡ some j
unfolding find_job get_job
find_job-lookup k st j = elim (Bool-cases (st.get_fails k)) [
  | inl y ↦ rw y λ e. cc
  | inr n ↦ rw n (found (lookup k st.jobs))
]
  where
    found : (o : Option Job) → job_or_missing (ok o) ≡ ok j → o ≡ some j
    found none e = cc
    found (some i) e = ground (arith, e)

pub save_job-jobs :
    (j : Job) (st st' : JobStore) → save_job j st ≡ ok st' → st'.jobs ≡ insert j.id j st.jobs
unfolding save_job
save_job-jobs j st st' = elim (Bool-cases (st.save_fails j.id)) [
  | inl y ↦ rw y λ e. cc
  | inr n ↦ rw n λ e. ground (arith, e)
]

send_store : (c : Message) (m : Manager) → (send c m).store ≡ m.store
unfolding send
send_store c m =
    if-known (λ (x : Manager). x.store ≡ m.store) m.has_component _ _ (λ _. refl) (λ _. refl)

send-release_store :
    (c : Message) (w : String) (m : Manager) → (send c (release_worker w m)).store ≡ m.store
unfolding release_worker
send-release_store c w m = send_store c (release_worker w m)

release_store : (w : String) (m : Manager) → (release_worker w m).store ≡ m.store
unfolding release_worker
release_store w m = refl

module _ (c : Call) (m : Manager) (keyed : AreKeyed m.store.jobs) where
  abbrev Done : Manager × Result (Unit {0}) → Type 0
  Done r = Effect c m.store r.0.store

  finds :
      (k : String) (f : Job → Manager × Result (Unit {0}))
      → ((j : Job) → find_job k m.store ≡ ok j → Done (f j))
      → Done (with_job m (find_job k m.store) f)
  finds k f h =
      with_job-found (λ m'. Effect c m.store m'.store) m (find_job k m.store) f (inl refl) h

  -- What a call that has found and saved a job leaves.
  saves :
      (k : String) (j j' : Job) (f : Manager → Manager)
      → find_job k m.store ≡ ok j
      → j'.id ≡ j.id
      → writes k c j.status j'.status ≡ true
      → ((m' : Manager) → (f m').store ≡ m'.store)
      → Done (saved m (save_job j' m.store) f)
  saves k j j' f e i a q =
      let found = find_job-lookup k m.store j e in
      let key : j'.id ≡ k = cc (AreKeyed-lookup k m.store.jobs j keyed found, i) in
      saved-found (λ m'. Effect c m.store m'.store) m (save_job j' m.store) f (inl refl)
        λ st' s. inr (record {
          old = j;
          new = j';
          found = rw key found;
          allowed = rw key a;
          result = rw (q (record m { store = st' })) (save_job-jobs j' m.store st' s);
        })

  tests :
      (b : Bool) (x y : Manager × Result (Unit {0}))
      → (b ≡ true → Done x)
      → (b ≡ false → Done y)
      → Done (if b then x else y)
  tests b x y h k = if-known Done b x y h k

pub complete_job-Effect :
    (now : ℕ) (id : String) (vs : Option (Dict Value)) (m : Manager)
    → AreKeyed m.store.jobs
    → Effect (completes id vs) m.store (complete_job now id vs m).0.store
unfolding complete_job mark_as_completed
complete_job-Effect now id vs m keyed = finds (completes id vs) m keyed id _ λ j e.
    tests (completes id vs) m keyed (not (same_status j.status running)) _ _ (λ _. inl refl)
      λ n.
        saves (completes id vs) m keyed id j _ _ e refl (ground (arith, str_eq_self id, n))
          λ m'. send-release_store _ _ m'

pub complete_job_with_bpmn_error-Effect :
    (now : ℕ) (id code message : String) (m : Manager)
    → AreKeyed m.store.jobs
    → Effect
        (completes_with_error id code message)
        m.store
        (complete_job_with_bpmn_error now id code message m).0.store
unfolding complete_job_with_bpmn_error mark_as_error_thrown
complete_job_with_bpmn_error-Effect now id code message m keyed =
    finds (completes_with_error id code message) m keyed id _ λ j e.
      saves (completes_with_error id code message) m keyed id j _ _ e refl
        (ground (arith, str_eq_self id)) λ m'. release_store _ m'

failed_job_id :
    (now : ℕ) (r : Count) (message : String) (b : ℕ) (j : Job)
    → (failed_job now r message b j).id ≡ j.id
unfolding failed_job
failed_job_id now r message b j = ground arith

failed_job_status :
    (now : ℕ) (r : Count) (message : String) (b : ℕ) (j : Job)
    → (same_status (failed_job now r message b j).status failed
        || same_status (failed_job now r message b j).status deferred)
      ≡ true
unfolding failed_job
failed_job_status now r message b j = ground arith

pub fail_job-Effect :
    (now : ℕ) (id : String) (r : Count) (message : String) (b : ℕ) (m : Manager)
    → AreKeyed m.store.jobs
    → Effect (fails id r message b) m.store (fail_job now id r message b m).0.store
unfolding fail_job
fail_job-Effect now id r message b m keyed = finds (fails id r message b) m keyed id _ λ j e.
    saves (fails id r message b) m keyed id j _ _ e (failed_job_id now r message b j)
      (ground (arith, str_eq_self id, failed_job_status now r message b j))
      λ m'.
        if-known (λ (x : Manager). x.store ≡ m'.store) (is_positive r) _ _ (λ _. release_store _ m')
          (λ _. send-release_store _ _ m')

pub throw_error-Effect :
    (now : ℕ) (id code message : String) (vs : Dict Value) (m : Manager)
    → AreKeyed m.store.jobs
    → Effect (throws id code message vs) m.store (throw_error now id code message vs m).0.store
unfolding throw_error
throw_error-Effect now id code message vs m keyed =
    finds (throws id code message vs) m keyed id _ λ j e.
      saves (throws id code message vs) m keyed id j _ _ e refl (ground (arith, str_eq_self id))
        λ m'. send_store _ m'

pub update_job_retries-Effect :
    (now : ℕ) (id : String) (r : Count) (m : Manager)
    → AreKeyed m.store.jobs
    → Effect (sets_retries id r) m.store (update_job_retries now id r m).0.store
unfolding update_job_retries retried_job
update_job_retries-Effect now id r m keyed = finds (sets_retries id r) m keyed id _ λ j e.
    saves (sets_retries id r) m keyed id j _ _ e (ground arith) (ground (arith, str_eq_self id))
      λ m'. refl

pub cancel_job-Effect :
    (now : ℕ) (id : String) (m : Manager)
    → AreKeyed m.store.jobs
    → Effect (cancels id) m.store (cancel_job now id m).0.store
unfolding cancel_job is_completed
cancel_job-Effect now id m keyed = finds (cancels id) m keyed id _ λ j e.
    tests (cancels id) m keyed (is_completed j) _ _ (λ _. inl refl)
      λ n. saves (cancels id) m keyed id j _ _ e refl (ground (arith, str_eq_self id, n)) λ m'.
        if-known (λ (x : Manager). x.store ≡ m'.store) (str_eq j.worker_id "") _ _ (λ _. refl)
          (λ _. release_store _ m')

pub update_job_timeout-Effect :
    (now : ℕ) (id : String) (d : ℕ) (m : Manager)
    → AreKeyed m.store.jobs
    → Effect (sets_timeout id d) m.store (update_job_timeout now id d m).0.store
unfolding update_job_timeout
update_job_timeout-Effect now id d m keyed = finds (sets_timeout id d) m keyed id _ λ j e.
    tests (sets_timeout id d) m keyed (same_status j.status running && is_some j.scheduled_at) _ _
      (λ y.
        saves (sets_timeout id d) m keyed id j _ _ e refl (ground (arith, str_eq_self id, y))
          λ m'. refl)
      λ _. inl refl

pub throw_job_error-Effect :
    (id code message : String) (vs : Option (Dict Value)) (m : Manager)
    → AreKeyed m.store.jobs
    → Effect
        (throws_job_error id code message vs)
        m.store
        (throw_job_error id code message vs m).0.store
unfolding throw_job_error
throw_job_error-Effect id code message vs m keyed =
    finds (throws_job_error id code message vs) m keyed id _ λ j e.
      saves (throws_job_error id code message vs) m keyed id j _ _ e refl
        (ground (arith, str_eq_self id)) λ m'. send_store _ m'
