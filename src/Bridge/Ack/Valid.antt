-- ===== src/Bridge/Ack/Valid.antt =====
-- A report keeps the invariant of the jobs, and what it does to a job that it does not verify.
use link_suffix.Base.{
  ℕ, ◌≡◌, refl, subst, Bool-cases, inl, inr, holds_text, false, Option, none, some, String, arith,
}
use link_suffix.Bridge.{Store, JobState, applied, leased, Env, is_leased, has_id}
use link_suffix.Bridge.Results.{ok}
use link_suffix.Bridge.Invariant.{IsValid, IsTame, update_where-IsValid}
use link_suffix.Bridge.Ack.{
  Report, Row, Outcome, find_row, applied_job, refused_job, settle, by_state, answer,
  acknowledge_bridge_job, is_exact, holds_lease,
}

IsTame-applied : (env : Env) (hash : String) (now : ℕ) → IsTame env (applied_job hash now)
IsTame-applied env hash now = record {
  id = λ j. refl;
  target = λ j. refl;
  capture = λ j. refl;
  lease = λ j e. ground arith;
  sound = λ j h. record {
    attempts = h.attempts;
    holder = λ e. ground arith;
    token = λ e. ground arith;
    until = λ e. ground arith;
  };
}

IsTame-refused :
    (env : Env) (st : JobState) (e : String) (now : ℕ)
    → is_leased st ≡ false
    → IsTame env (refused_job st e now)
IsTame-refused env st e now h = record {
  id = λ j. refl;
  target = λ j. refl;
  capture = λ j. refl;
  lease = λ j l. ground arith;
  sound = λ j k. record {
    attempts = k.attempts;
    holder = λ l. ground arith;
    token = λ l. ground arith;
    until = λ l. ground arith;
  };
}

settle-IsValid :
    (env : Env) (now : ℕ) (a : Report) (s : Store) (row : Row)
    → IsValid env s.jobs
    → IsValid env (settle env now a s row).0.jobs
unfolding settle
settle-IsValid env now a s row v = elim (Bool-cases (is_exact env a row.capture)) [
  | inl yes_ ↦ rw yes_ (
      update_where-IsValid env (has_id a.job_id) _ s.jobs
        (IsTame-applied env row.capture.suffix_hash now) v)
  | inr no_ ↦ rw no_ (
      update_where-IsValid env (has_id a.job_id) _ s.jobs
        (IsTame-refused env _ _ now (ground arith)) v)
]

by_state-IsValid :
    (env : Env) (now : ℕ) (a : Report) (s : Store) (row : Row) (st : JobState)
    → IsValid env s.jobs
    → IsValid env (by_state env now a s row st).0.jobs
unfolding by_state
by_state-IsValid env now a s row applied v =
    elim (Bool-cases (holds_text row.job.verified_suffix_hash row.capture.suffix_hash)) [
      | inl e ↦ rw e v
      | inr e ↦ rw e v
    ]
by_state-IsValid env now a s row leased v = settle-IsValid env now a s row v
by_state-IsValid env now a s row st v = v

answer-IsValid :
    (env : Env) (now : ℕ) (a : Report) (s : Store) (o : Option Row)
    → IsValid env s.jobs
    → IsValid env (answer env now a s o).0.jobs
unfolding answer
answer-IsValid env now a s none v = v
answer-IsValid env now a s (some row) v = elim (Bool-cases (holds_lease env a row.job)) [
  | inl e ↦ rw e (by_state-IsValid env now a s row row.job.state v)
  | inr e ↦ rw e v
]

-- Whatever a worker reports, the jobs stay valid.
pub acknowledge-IsValid :
    (env : Env) (now : ℕ) (a : Report) (s t : Store) (o : Outcome)
    → IsValid env s.jobs
    → acknowledge_bridge_job env now a s ≡ ok (t, o)
    → IsValid env t.jobs
unfolding acknowledge_bridge_job
acknowledge-IsValid env now a s t o v e =
    let row = find_row s a.shard_id a.job_id in
    let same : answer env now a s row ≡ (t, o) = ground arith in
    subst (λ (p : Store × Outcome). IsValid env p.0.jobs) same (answer-IsValid env now a s row v)
