-- ===== src/Jobs/Transitions/Batches.antt =====
-- The calls on many jobs, and what they do to the status of each (src/jobs/manager.go, ActivateJobs
-- and performCleanup).
use mathlib.Core.Option.{some-injective}
use atom_engine.Base.{
  ℕ, ◌≡◌, refl, sym, subst, ap, ◌∙◌, ◌||◌, ◌⊎◌, inl, inr, String, Bool, true, false, some, List, [],
  ◌∷◌, ◌++◌, lookup, insert, lookup-insert, str_eq, eq_iff, arith, Bool-cases, length, leb, ◌==◌,
  if◌then◌else◌,
}
use atom_engine.Jobs.{
  Job, JobStore, JobStatus, Result, ok, err, running, same_status, save_job, passing,
  list_jobs_by_type,
}
use atom_engine.Jobs.Manager.{Manager}
use atom_engine.Jobs.Cleanup.{
  cleanup_loop, cleanup_limit, perform_cleanup, reset, lease_over, kept_or,
}
use atom_engine.Jobs.Activation.{activate_loop, activate_jobs, leased}
use atom_engine.Jobs.Activation.Rounds.{activate_one-View, activate_jobs_store}
use atom_engine.Jobs.Activation.Leases.{activate_jobs_frame}
use atom_engine.Jobs.Calls.{Call, activates, cleans_up}
use atom_engine.Jobs.Transitions.{AreKeyed, Moved, Follows, Effect, Written, moves, writes}
use atom_engine.Jobs.Transitions.Keys.{
  AreKeyed-insert, AreKeyed-lookup, AreCurrent, AreCurrent-insert, passing-AreCurrent,
  take-AreCurrent,
}

same_status_self : (s : JobStatus) → same_status s s ≡ true
same_status_self s = ground arith

pub Moved-same :
    (id : String) (c : Call) (j : Job) (st' : JobStore)
    → lookup id st'.jobs ≡ some j
    → Moved id c j.status st'
Moved-same id c j st' e = (j, e, ground (arith, same_status_self j.status))

pub Follows-same : (c : Call) (st : JobStore) → AreKeyed st.jobs → Follows c st st
Follows-same c st h = record { keyed = h; moved = λ id j e. Moved-same id c j st e }

or_right : (a b : Bool) → b ≡ true → (a || b) ≡ true
or_right a b h = ground arith

Written-moves :
    (c : Call) (st st' : JobStore) (w : Written c st st') (id : String) (j : Job)
    → w.new.id ≡ id
    → lookup id st.jobs ≡ some j
    → moves id c j.status w.new.status ≡ true
Written-moves c st st' w id j k e =
    let p : w.old ≡ j = some-injective _ _ (sym w.found ∙ ap (λ i. lookup i st.jobs) k ∙ e) in
    or_right _ _ (
      subst (λ x. writes id c x.status w.new.status ≡ true) p
        (subst (λ i. writes i c w.old.status w.new.status ≡ true) k w.allowed))

pub Effect-Follows :
    (c : Call) (st st' : JobStore) → AreKeyed st.jobs → Effect c st st' → Follows c st st'
Effect-Follows c st st' h (inl e) = subst (Follows c st) (sym e) (Follows-same c st h)
Effect-Follows c st st' h (inr w) = record {
  keyed = rw w.result (AreKeyed-insert w.new st.jobs h);
  moved = λ id j e. elim (Bool-cases (str_eq w.new.id id)) [
    | inl y ↦ (
      w.new,
      rw w.result (rw (lookup-insert w.new.id id w.new st.jobs) (rw y refl)),
      Written-moves c st st' w id j (ground (arith, eq_iff w.new.id id, y)) e,
    )
    | inr n ↦
        Moved-same id c j st' (rw w.result (rw (lookup-insert w.new.id id w.new st.jobs) (rw n e)))
  ];
}

module _ (now timeout : ℕ) (w : String) where
  activate_loop-AreKeyed :
      (k : ℕ) (js : List Job) (st : JobStore) (acc : List Job)
      → AreKeyed st.jobs
      → AreKeyed (activate_loop now timeout w k js st acc).0.jobs
  unfolding activate_loop leased
  activate_loop-AreKeyed k [] st acc h = h
  activate_loop-AreKeyed k (j ∷ js) st acc h = elim (activate_one-View now timeout w k j st acc) [
    | inl same ↦ rw (same, activate_loop) (activate_loop-AreKeyed k js st acc h)
    | inr (inl gone) ↦ rw (gone, activate_loop) h
    | inr (inr t) ↦
        let h1 = AreKeyed-insert (leased now timeout w t.fresh) st.jobs h in
        rw (t.taken, activate_loop)
          (elim (Bool-cases (leb k (length (acc ++ leased now timeout w t.fresh ∷ [])))) [
            | inl full ↦ rw full h1
            | inr room ↦
                rw room
                  (activate_loop-AreKeyed k js _ (acc ++ leased now timeout w t.fresh ∷ []) h1)
          ])
  ]

pub activate_jobs-Follows :
    (now : ℕ) (t w : String) (k d : ℕ) (m : Manager)
    → AreKeyed m.store.jobs
    → Follows (activates t w k d) m.store (activate_jobs now t w k d m).0.store
unfolding leased
activate_jobs-Follows now t w k d m h = record {
  keyed = elim (activate_jobs_store now t w k d m) [
    | inl e ↦ rw e h
    | inr (ls, e) ↦ rw e (activate_loop-AreKeyed now d w k ls m.store [] h)
  ];
  moved = λ id j e.
      elim (activate_jobs_frame now t w k d m id λ i f. AreKeyed-lookup i m.store.jobs f h) [
        | inl u ↦
            Moved-same id (activates t w k d) j (activate_jobs now t w k d m).0.store (cc (u, e))
        | inr (f, a, p, b) ↦ (leased now d w f, b, ground (arith, a, p, e))
      ];
}

kept_cases :
    (j : Job) (st : JobStore)
    → (kept_or st (save_job j st) ≡ st)
      ⊎ (kept_or st (save_job j st) ≡ record st { jobs = insert j.id j st.jobs })
unfolding save_job
kept_cases j st = elim (Bool-cases (st.save_fails j.id)) [
  | inl y ↦ inl (rw (y, save_job) refl)
  | inr n ↦ inr (rw (n, save_job) refl)
]

-- The cleanup loop over running jobs that are in the store as they were listed.
module _ (now : ℕ) (id : String) (s : JobStatus) where
  -- The job of the id after one job was reset.
  reset-moves :
      (x j : Job) (st : JobStore)
      → lookup x.id st.jobs ≡ some x
      → x.status ≡ running
      → lookup id st.jobs ≡ some j
      → moves id cleans_up s j.status ≡ true
      → Moved id cleans_up s (record st { jobs = insert x.id (reset now x) st.jobs })
  unfolding reset
  reset-moves x j st c r e a = elim (Bool-cases (str_eq x.id id)) [
    | inl y ↦
        let p : x ≡ j =
          some-injective _ _
            (sym c ∙ ap (λ i. lookup i st.jobs) (ground (arith, eq_iff x.id id, y)) ∙ e) in
        let b : moves id cleans_up s running ≡ true =
          subst (λ t. moves id cleans_up s t ≡ true) (sym (ap (λ (i : Job). i.status) p) ∙ r) a in
        (
          reset now x,
          rw (lookup-insert x.id id (reset now x) st.jobs) (rw y refl),
          ground (arith, b),
        )
    | inr n ↦ (j, rw (lookup-insert x.id id (reset now x) st.jobs) (rw n e), a)
  ]

  cleanup_loop-Moved :
      (js : List Job) (st : JobStore)
      → AreCurrent running st.jobs js
      → Moved id cleans_up s st
      → Moved id cleans_up s (cleanup_loop now js st)
  unfolding cleanup_loop reset
  cleanup_loop-Moved [] st h v = v
  cleanup_loop-Moved (x ∷ js) st (c, r, u, h) (j, e, a) =
      elim (Bool-cases (lease_over now x.scheduled_at)) [
        | inr n ↦ rw (n, cleanup_loop) (cleanup_loop-Moved js st h (j, e, a))
        | inl y ↦
            rw (y, cleanup_loop)
              (elim (kept_cases (reset now x) st) [
                | inl k ↦ rw k (cleanup_loop-Moved js st h (j, e, a))
                | inr k ↦ rw k (
                    cleanup_loop-Moved js (record st { jobs = insert x.id (reset now x) st.jobs })
                      (AreCurrent-insert running (reset now x) st.jobs js u h)
                      (reset-moves x j st c r e a))
              ])
      ]

cleanup_loop-AreKeyed :
    (now : ℕ) (js : List Job) (st : JobStore)
    → AreKeyed st.jobs
    → AreKeyed (cleanup_loop now js st).jobs
unfolding cleanup_loop
cleanup_loop-AreKeyed now [] st h = h
cleanup_loop-AreKeyed now (x ∷ js) st h = elim (Bool-cases (lease_over now x.scheduled_at)) [
  | inr n ↦ rw (n, cleanup_loop) (cleanup_loop-AreKeyed now js st h)
  | inl y ↦
      rw (y, cleanup_loop)
        (elim (kept_cases (reset now x) st) [
          | inl k ↦ rw k (cleanup_loop-AreKeyed now js st h)
          | inr k ↦ rw k (cleanup_loop-AreKeyed now js _ (AreKeyed-insert (reset now x) st.jobs h))
        ])
]

listed-AreCurrent :
    (t : String) (s : JobStatus) (k : ℕ) (st : JobStore) (js : List Job)
    → AreKeyed st.jobs
    → list_jobs_by_type t (some s) k st ≡ ok js
    → AreCurrent s st.jobs js
unfolding list_jobs_by_type
listed-AreCurrent t s k st js h = elim (Bool-cases st.list_fails) [
  | inl y ↦ rw y λ e. cc
  | inr n ↦ rw n λ e. subst (AreCurrent s st.jobs) (ok-injective _ _ e) (
      if_both (AreCurrent s st.jobs) (k == 0) _ _ (passing-AreCurrent t s st.jobs h) (
        take-AreCurrent k s st.jobs (passing t (some s) st.jobs)
          (passing-AreCurrent t s st.jobs h)))
]
  where
    ok-injective : (a b : List Job) → ok a ≡ ok b → a ≡ b
    ok-injective a b e = ground (arith, e)

    if_both :
        (P : List Job → Type 0) (b : Bool) (x y : List Job) → P x → P y → P (if b then x else y)
    if_both P true x y p q = p
    if_both P false x y p q = q

pub perform_cleanup-Follows :
    (now : ℕ) (m : Manager)
    → AreKeyed m.store.jobs
    → Follows cleans_up m.store (perform_cleanup now m).store
unfolding perform_cleanup
perform_cleanup-Follows now m h =
    go (list_jobs_by_type "" (some running) cleanup_limit m.store) refl
  where
    go :
        (o : Result (List Job))
        → list_jobs_by_type "" (some running) cleanup_limit m.store ≡ o
        → Follows cleans_up m.store (perform_cleanup now m).store
    go (err x) e = rw (e, perform_cleanup) (Follows-same cleans_up m.store h)
    go (ok ls) e =
        rw (e, perform_cleanup)
          (record {
            keyed = cleanup_loop-AreKeyed now ls m.store h;
            moved = λ id j f.
                cleanup_loop-Moved now id j.status ls m.store
                  (listed-AreCurrent "" running cleanup_limit m.store ls h e)
                  (Moved-same id cleans_up j m.store f);
          })
