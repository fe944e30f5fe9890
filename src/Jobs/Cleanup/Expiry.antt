-- ===== src/Jobs/Cleanup/Expiry.antt =====
-- What the periodic cleanup does to each job (src/jobs/manager.go, performCleanup).
use mathlib.Core.List.{Memᴰ}
use mathlib.Core.Option.{some-injective}
use atom_engine.Base.{
  ℕ, ◌≡◌, ◌≢◌, ◌≤◌, refl, sym, subst, ap, ◌∙◌, inl, inr, String, Bool, true, false, Option, none,
  some, List, [], ◌∷◌, Dict, lookup, lookup-insert_self, lookup-insert_ne, str_eq, ltb, arith,
  Bool-cases, All, take_all, length, if◌then◌else◌,
}
use atom_engine.Jobs.{
  Job, JobStore, JobStatus, running, pending, same_status, save_job, passing, list_jobs_by_type,
}
use atom_engine.Jobs.Manager.{Manager}
use atom_engine.Jobs.Cleanup.{
  cleanup_loop, cleanup_limit, perform_cleanup, reset, lease_over, kept_or,
}
use atom_engine.Jobs.Activation.Rounds.{same_status→eq}
use atom_engine.Jobs.Transitions.{AreKeyed}
use atom_engine.Jobs.Transitions.Keys.{
  AreKeyed-lookup, AreCurrent, AreCurrent-insert, passing-AreCurrent,
}

-- A job as the loop leaves it.
abbrev looped : ℕ → Job → Job
looped now j = if lease_over now j.scheduled_at then reset now j else j

-- No call to the database fails.
abbrev pub IsReliable : JobStore → Type 0
IsReliable st = ((id : String) → st.save_fails id ≡ false) × (st.list_fails ≡ false)

module _ (now : ℕ) where
  -- The store after one round of the loop.
  after_round : Job → JobStore → JobStore
  after_round x st =
      if lease_over now x.scheduled_at then kept_or st (save_job (reset now x) st) else st

  -- A round keeps the database reliable, and gives the job its new form.
  record Round (x : Job) (st : JobStore) : Type 0 where
    reliable : IsReliable (after_round x st)
    others : (id : String) → id ≢ x.id → lookup id (after_round x st).jobs ≡ lookup id st.jobs
    itself :
        lookup x.id st.jobs ≡ some x → lookup x.id (after_round x st).jobs ≡ some (looped now x)
    current :
        (js : List Job)
        → All (λ (y : Job). x.id ≢ y.id) js
        → AreCurrent running st.jobs js
        → AreCurrent running (after_round x st).jobs js

  round : (x : Job) (st : JobStore) → IsReliable st → Round x st
  unfolding after_round reset save_job
  round x st (s, l) = elim (Bool-cases (lease_over now x.scheduled_at)) [
    | inr n ↦ record {
      reliable = rw (n, after_round) (s, l);
      others = λ id h. rw (n, after_round) refl;
      itself = λ e. rw (n, after_round) e;
      current = λ js u h. rw (n, after_round) h;
    }
    | inl y ↦ record {
      reliable = rw (y, after_round) (rw (s x.id, save_job) (s, l));
      others = λ id h.
          rw (y, after_round)
            (rw (s x.id, save_job)
              (lookup-insert_ne x.id id (reset now x) st.jobs (λ e. h (sym e))));
      itself = λ e.
          rw (y, after_round)
            (rw (s x.id, save_job) (lookup-insert_self x.id (reset now x) st.jobs));
      current = λ js u h.
          rw (y, after_round)
            (rw (s x.id, save_job) (AreCurrent-insert running (reset now x) st.jobs js u h));
    }
  ]

  loop_others :
      (js : List Job) (st : JobStore) (id : String)
      → IsReliable st
      → All (λ (y : Job). id ≢ y.id) js
      → lookup id (cleanup_loop now js st).jobs ≡ lookup id st.jobs
  unfolding cleanup_loop after_round
  loop_others [] st id r h = refl
  loop_others (x ∷ js) st id r (n, h) =
      let k = round x st r in loop_others js (after_round x st) id k.reliable h ∙ k.others id n

  loop_member :
      (js : List Job) (st : JobStore) (j : Job)
      → IsReliable st
      → AreCurrent running st.jobs js
      → Memᴰ j js
      → lookup j.id (cleanup_loop now js st).jobs ≡ some (looped now j)
  unfolding cleanup_loop after_round
  loop_member [] st j r h m = elim m [ ]
  loop_member (x ∷ js) st j r (c, t, u, h) (Memᴰ.head q) =
      let k = round x st r in
      subst (λ (i : Job). lookup i.id (cleanup_loop now (x ∷ js) st).jobs ≡ some (looped now i))
        (sym q) (loop_others js (after_round x st) x.id k.reliable u ∙ k.itself c)
  loop_member (x ∷ js) st j r (c, t, u, h) (Memᴰ.tail m) =
      let k = round x st r in loop_member js (after_round x st) j k.reliable (k.current js u h) m

-- The listed jobs are the running ones.
Memᴰ-passing :
    (id : String) (d : Dict Job) (j : Job)
    → lookup id d ≡ some j
    → j.status ≡ running
    → Memᴰ j (passing "" (some running) d)
unfolding lookup passing
Memᴰ-passing id [] j e s = cc
Memᴰ-passing id ((k, w) ∷ d) j e s = elim (Bool-cases (str_eq k id)) [
  | inl y ↦
      first (some-injective _ _ (subst (λ b. (if b then some w else lookup id d) ≡ some j) y e))
  | inr n ↦
      later (Memᴰ-passing id d j (subst (λ b. (if b then some w else lookup id d) ≡ some j) n e) s)
        (same_status w.status running)
]
  where
    later :
        Memᴰ j (passing "" (some running) d)
        → (b : Bool)
        → Memᴰ j (if b then w ∷ passing "" (some running) d else passing "" (some running) d)
    later m true = Memᴰ.tail m
    later m false = m

    first :
        w ≡ j
        → Memᴰ j (
            if same_status w.status running
            then w ∷ passing "" (some running) d
            else passing "" (some running) d)
    first q =
        let r : same_status w.status running ≡ true =
          ap (λ (i : Job). same_status i.status running) q ∙ ap (λ t. same_status t running) s in
        rw r (Memᴰ.head (sym q))

not_listed :
    (s : JobStatus) (id : String) (d : Dict Job) (js : List Job)
    → AreCurrent s d js
    → ((j : Job) → lookup id d ≡ some j → j.status ≢ s)
    → All (λ (y : Job). id ≢ y.id) js
not_listed s id d [] h n = tt
not_listed s id d (x ∷ js) (c, t, u, h) n =
    (λ e. n x (subst (λ i. lookup i d ≡ some x) (sym e) c) t, not_listed s id d js h n)

abbrev pub map_option : (Job → Job) → Option Job → Option Job
map_option f none = none
map_option f (some j) = some (f j)

-- What the cleanup means: a running job whose lease has ended before now is pending again, without
-- a worker and a lease.
abbrev pub freed : ℕ → Job → Option ℕ → Job
freed now j none = j
freed now j (some t) =
    if ltb t now
    then record j { status = pending; worker_id = ""; scheduled_at = none; updated_at = now }
    else j

abbrev pub cleaned : ℕ → Job → Job
cleaned now j = if same_status j.status running then freed now j j.scheduled_at else j

looped-freed : (now : ℕ) (j : Job) → looped now j ≡ freed now j j.scheduled_at
unfolding reset
looped-freed now j = go j.scheduled_at
  where
    go : (o : Option ℕ) → (if lease_over now o then reset now j else j) ≡ freed now j o
    go none = refl
    go (some t) = refl

module _ (now : ℕ) (id : String) (st : JobStore) (r : IsReliable st) (h : AreKeyed st.jobs) where
  abbrev listed : List Job
  listed = passing "" (some running) st.jobs

  loop_cleans :
      (o : Option Job)
      → lookup id st.jobs ≡ o
      → lookup id (cleanup_loop now listed st).jobs ≡ map_option (cleaned now) o
  loop_cleans none e =
      loop_others now listed st id r (
        not_listed running id st.jobs listed (passing-AreCurrent "" running st.jobs h)
          λ j f. absurd (ground (arith, e, f)))
      ∙ e
  loop_cleans (some j) e = elim (Bool-cases (same_status j.status running)) [
    | inl y ↦ rw y (
        subst (λ i. lookup i (cleanup_loop now listed st).jobs ≡ some (freed now j j.scheduled_at))
          (AreKeyed-lookup id st.jobs j h e)
          (subst (λ i. lookup j.id (cleanup_loop now listed st).jobs ≡ some i) (looped-freed now j)
            (loop_member now listed st j r (passing-AreCurrent "" running st.jobs h)
              (Memᴰ-passing id st.jobs j e (same_status→eq j.status running y)))))
    | inr n ↦ rw n (
        loop_others now listed st id r (
          not_listed running id st.jobs listed (passing-AreCurrent "" running st.jobs h)
            λ i f t. absurd (ground (arith, some-injective _ _ (sym e ∙ f), n, t)))
        ∙ e)
  ]

-- The cleanup resets exactly the running jobs whose lease is over, each to pending without a
-- worker and a lease, and leaves every other job as it is. No call to the database may fail, the
-- store must be keyed, and at most as many jobs may be running as one cleanup lists.
pub lookup-perform_cleanup :
    (now : ℕ) (id : String) (m : Manager)
    → IsReliable m.store
    → AreKeyed m.store.jobs
    → length (passing "" (some running) m.store.jobs) ≤ cleanup_limit
    → lookup id (perform_cleanup now m).store.jobs
      ≡ map_option (cleaned now) (lookup id m.store.jobs)
unfolding perform_cleanup list_jobs_by_type
lookup-perform_cleanup now id m r h k =
    rw (r.1, perform_cleanup)
      (rw (take_all cleanup_limit (passing "" (some running) m.store.jobs) k)
        (loop_cleans now id m.store r h (lookup id m.store.jobs) refl))
