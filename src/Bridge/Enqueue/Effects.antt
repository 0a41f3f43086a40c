-- ===== src/Bridge/Enqueue/Effects.antt =====
-- What queueing and pausing do to the queue of a campaign.
use link_suffix.Base.{
  str_eq, ℕ, ◌==◌, ◌≤◌, ◌≡◌, ap, subst, not, ◌&&◌, false, List, ◌∷◌, Option, none, some, String,
  arith, eq_iff, All, All-map, All-imp, All-intro, Bool-cases, inl, inr, find?, any, is_some,
}
use link_suffix.Bridge.{
  Store, Target, Job, pending, dead, Env, max_attempts, is_waiting, is_job_of, has_id, insert_job,
  update_where, new_job,
}
use link_suffix.Bridge.Results.{Result, ok, or_value, >>=-eq-ok}
use link_suffix.Bridge.Candidates.{is_candidate}
use link_suffix.Bridge.Enqueue.{
  Captured, save_capture, supersede_others, revived, enqueue_capture, is_open, withdraw,
  pause_target, is_record,
}

-- The job is not one of the target that waits with another capture.
abbrev pub IsNewest : String → ℕ → Job → Type 0
IsNewest t c j = (str_eq j.target_id t && is_waiting j.state && not (j.capture_id == c)) ≡ false

supersede_others-IsNewest :
    (t : String) (c now : ℕ) (jobs : List Job) → All (IsNewest t c) (supersede_others t c now jobs)
unfolding supersede_others
supersede_others-IsNewest t c now jobs =
    All-map (IsNewest t c) _ jobs (All-intro _ (λ j. ground arith) jobs)

insert_job-IsNewest :
    (uuid t : String) (c now : ℕ) (jobs js : List Job)
    → insert_job (revived now) uuid t c now jobs ≡ ok js
    → All (IsNewest t c) jobs
    → All (IsNewest t c) js
unfolding insert_job
insert_job-IsNewest uuid t c now jobs js e h = elim (Bool-cases (any (is_job_of t c) jobs)) [
  | inl old ↦
      let same : update_where (is_job_of t c) (revived now) jobs ≡ js = ground arith in
      subst (All (IsNewest t c)) same (
        All-map (IsNewest t c) _ jobs
          (All-imp (IsNewest t c) _ (λ j k. ground (arith, k, eq_iff j.target_id t)) jobs h))
  | inr new ↦ elim (Bool-cases (any (has_id uuid) jobs)) [
    | inl used ↦ ground arith
    | inr free ↦
        let same : new_job uuid t c now ∷ jobs ≡ js = ground arith in
        subst (All (IsNewest t c)) same (ground arith, h)
  ]
]

-- After a capture is queued, every job of its target that waits is for that capture.
pub enqueue-IsNewest :
    (env : Env) (c : Captured) (uuid : String) (now : ℕ) (s t : Store) (j : Option Job)
    → enqueue_capture env c uuid now s ≡ ok (t, j)
    → All (IsNewest c.target_id (save_capture env c now s).1) t.jobs
unfolding enqueue_capture
enqueue-IsNewest env c uuid now s t j e =
    let (s', id) = save_capture env c now s in
    let others = supersede_others c.target_id id now s'.jobs in
    let (jobs, inserted, same) =
      >>=-eq-ok (insert_job (revived now) uuid c.target_id id now others)
        (λ js. ok (record s' { jobs = js }, find? (is_job_of c.target_id id) js)) e in
    subst (All (IsNewest c.target_id id))
      (ap (λ (r : Result (Store × Option Job)). (or_value r (s, none)).0.jobs) same)
      (insert_job-IsNewest uuid c.target_id id now others jobs inserted
        (supersede_others-IsNewest c.target_id id now s'.jobs))

-- A dead job that has used up its attempts goes back to "pending" when its capture is queued once more, but
-- keeps its count: in that state it is no candidate of a lease call, of any shard and in any store and at
-- any time.
pub revived-not-candidate :
    (env : Env) (now later : ℕ) (s : Store) (shard_id customer : String) (j : Job) (t : Target)
    → j.state ≡ dead
    → max_attempts env ≤ j.attempt_count
    → ((revived now j).state ≡ pending)
      × (is_candidate env s shard_id customer later (revived now j) t ≡ false)
revived-not-candidate env now later s shard_id customer j t d h = (ground arith, ground arith)

-- Pausing a campaign whose target is not archived leaves none of the target's jobs waiting or leased.
pub pause-closes :
    (record_id : String) (now : ℕ) (s t : Store) (u : Unit {0}) (x : Target)
    → find? (λ y. is_record record_id y && not (is_some y.archived_at)) s.targets ≡ some x
    → pause_target record_id now s ≡ ok (t, u)
    → All (λ j. (str_eq j.target_id x.target_id && is_open j.state) ≡ false) t.jobs
unfolding pause_target withdraw
pause-closes record_id now s t u x found e =
    let same : withdraw x.target_id now s.jobs ≡ t.jobs = ground (arith, found) in
    subst (All (λ j. (str_eq j.target_id x.target_id && is_open j.state) ≡ false)) same
      (All-map _ _ s.jobs (All-intro _ (λ j. ground arith) s.jobs))
