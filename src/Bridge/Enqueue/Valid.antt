-- ===== src/Bridge/Enqueue/Valid.antt =====
-- Queueing and pausing keep the jobs valid.
use link_suffix.Base.{
  ℕ, ◌≡◌, refl, sym, not, is_some, ◌&&◌, subst, ap, List, Option, none, String, arith, Option-cases,
  Bool-cases, inl, inr, find?,
}
use link_suffix.Bridge.{
  Store, Target, Job, superseded, Env, is_retired, released, latest_capture, insert_job, is_job_of,
}
use link_suffix.Bridge.Results.{Result, ok, >>=-eq-ok, or_value}
use link_suffix.Bridge.Invariant.{
  IsValid, IsTame, IsTame-released, update_where-IsValid, insert_job-IsValid,
}
use link_suffix.Bridge.Enqueue.{
  Captured, save_capture, supersede_others, waits_for_other, revived, restarted, enqueue_capture,
  Queued, queue_for, queue_capture, queue_latest_bridge_capture, withdraw, pause_target, is_record,
  queued, waiting_for_capture,
}

IsTame-revived : (env : Env) (now : ℕ) → IsTame env (revived now)
IsTame-revived env now = record {
  id = λ j. refl;
  target = λ j. refl;
  capture = λ j. refl;
  lease = λ j e. ground arith;
  sound = λ j h. record {
    attempts = h.attempts;
    holder = λ e. h.holder (ground arith);
    token = λ e. h.token (ground arith);
    until = λ e. h.until (ground arith);
  };
}

IsTame-restarted : (env : Env) (now : ℕ) → IsTame env (restarted now)
IsTame-restarted env now = record {
  id = λ j. ground arith;
  target = λ j. ground arith;
  capture = λ j. ground arith;
  lease = λ j e. ground arith;
  sound = λ j h. elim (Bool-cases (is_retired j.state)) [
    | inl e ↦ rw e (record {
      attempts = omega arith;
      holder = λ l. ground arith;
      token = λ l. ground arith;
      until = λ l. ground arith;
    })
    | inr e ↦
        rw e (record { attempts = h.attempts; holder = h.holder; token = h.token; until = h.until })
  ];
}

supersede_others-IsValid :
    (env : Env) (t : String) (c now : ℕ) (jobs : List Job)
    → IsValid env jobs
    → IsValid env (supersede_others t c now jobs)
unfolding supersede_others
supersede_others-IsValid env t c now jobs =
    update_where-IsValid env (waits_for_other t c) (released superseded now) jobs
      (IsTame-released env superseded now refl)

save_capture-jobs :
    (env : Env) (c : Captured) (now : ℕ) (s : Store) → (save_capture env c now s).0.jobs ≡ s.jobs
unfolding save_capture
save_capture-jobs env c now s = ground arith

-- A capture that is queued keeps the jobs valid.
pub enqueue-IsValid :
    (env : Env) (c : Captured) (uuid : String) (now : ℕ) (s t : Store) (j : Option Job)
    → IsValid env s.jobs
    → enqueue_capture env c uuid now s ≡ ok (t, j)
    → IsValid env t.jobs
unfolding enqueue_capture
enqueue-IsValid env c uuid now s t j v e =
    let (s', id) = save_capture env c now s in
    let start =
      supersede_others-IsValid env c.target_id id now s'.jobs
        (subst (IsValid env) (sym (save_capture-jobs env c now s)) v) in
    let (jobs, inserted, same) =
      >>=-eq-ok
        (insert_job (revived now) uuid c.target_id id now
          (supersede_others c.target_id id now s'.jobs))
        (λ js. ok (record s' { jobs = js }, find? (is_job_of c.target_id id) js)) e in
    subst (IsValid env)
      (ap (λ (r : Result (Store × Option Job)). (or_value r (s, none)).0.jobs) same)
      (insert_job-IsValid env (revived now) uuid c.target_id id now _ (IsTame-revived env now) start
        inserted)

queue_capture-IsValid :
    (env : Env) (uuid : String) (now : ℕ) (s t : Store) (x : String) (c : ℕ) (q : Queued)
    → IsValid env s.jobs
    → queue_capture uuid now s x c ≡ ok (t, q)
    → IsValid env t.jobs
unfolding queue_capture
queue_capture-IsValid env uuid now s t x c q v e =
    let (jobs, inserted, same) =
      >>=-eq-ok (insert_job (restarted now) uuid x c now (supersede_others x c now s.jobs))
        (λ js. ok (record s { jobs = js }, queued (find? (is_job_of x c) js))) e in
    subst (IsValid env)
      (ap (λ (r : Result (Store × Queued)). (or_value r (s, waiting_for_capture)).0.jobs) same)
      (insert_job-IsValid env (restarted now) uuid x c now _ (IsTame-restarted env now)
        (supersede_others-IsValid env x c now s.jobs v) inserted)

queue_for-IsValid :
    (env : Env) (uuid : String) (now : ℕ) (s t : Store) (x : Target) (q : Queued)
    → IsValid env s.jobs
    → queue_for uuid now s x ≡ ok (t, q)
    → IsValid env t.jobs
unfolding queue_for
queue_for-IsValid env uuid now s t x q v e =
    elim (Option-cases (latest_capture s.captures x.target_id)) [
      | inl nothing ↦ let same : s.jobs ≡ t.jobs = ground arith in subst (IsValid env) same v
      | inr (c, found) ↦
          queue_capture-IsValid env uuid now s t x.target_id c.capture_id q v (ground arith)
    ]

-- So does the newest capture of a campaign that is queued again.
pub queue_latest-IsValid :
    (env : Env) (record_id uuid : String) (now : ℕ) (s t : Store) (q : Queued)
    → IsValid env s.jobs
    → queue_latest_bridge_capture record_id uuid now s ≡ ok (t, q)
    → IsValid env t.jobs
unfolding queue_latest_bridge_capture
queue_latest-IsValid env record_id uuid now s t q v e =
    elim (Option-cases (find? (λ x. is_record record_id x && x.enabled) s.targets)) [
      | inl nothing ↦ ground arith
      | inr (x, found) ↦ queue_for-IsValid env uuid now s t x q v (ground arith)
    ]

-- And so does a campaign that is paused.
pub pause-IsValid :
    (env : Env) (record_id : String) (now : ℕ) (s t : Store) (u : Unit {0})
    → IsValid env s.jobs
    → pause_target record_id now s ≡ ok (t, u)
    → IsValid env t.jobs
unfolding pause_target withdraw
pause-IsValid env record_id now s t u v e =
    elim (Option-cases
      (find? (λ x. is_record record_id x && not (is_some x.archived_at)) s.targets)) [
        | inl nothing ↦ ground arith
        | inr (x, found) ↦
            let same : withdraw x.target_id now s.jobs ≡ t.jobs = ground arith in
            subst (IsValid env) same (
              update_where-IsValid env _ (released superseded now) s.jobs
                (IsTame-released env superseded now refl) v)
      ]
