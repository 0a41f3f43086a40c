-- ===== src/Bridge/Ack/Evidence.antt =====
-- A job counts as applied only on exact evidence from the holder of its lease.
use link_suffix.Base.{
  ℕ, ◌≡◌, ◌≢◌, refl, subst, inl, inr, true, Option, none, some, String, arith, eq_iff, Option-cases,
  holds_text→eq, str_eq,
}
use link_suffix.Capture.Suffix.{delivery_suffix_issue}
use link_suffix.Bridge.{Store, JobState, leased, applied, Env, has_id, update_where}
use link_suffix.Bridge.Results.{ok}
use link_suffix.Bridge.Ack.{
  Report, Row, Outcome, verified, find_row, holds_lease, is_exact, applied_job, settle, by_state,
  answer, acknowledge_bridge_job, delivered, acked,
}

-- What a report must show for an update to be verified.
pub record Evidence (env : Env) (a : Report) (s : Store) : Type 0 where
  pub row : Row
  pub found : find_row s a.shard_id a.job_id ≡ some row
  pub is_lease : row.job.state ≡ leased
  pub worker : row.job.worker_id ≡ some a.worker_id
  pub token : row.job.lease_token_hash ≡ some (env.digest a.lease_token)
  pub is_ok : a.is_ok ≡ true
  pub suffix : String
  pub reports : a.applied_suffix ≡ some suffix
  pub deliverable : delivery_suffix_issue env.search_params (some suffix) ≡ none
  pub exact : env.digest suffix ≡ row.capture.suffix_hash

by_state-verified :
    (env : Env) (now : ℕ) (a : Report) (s : Store) (row : Row) (st : JobState)
    → (by_state env now a s row st).1 ≡ verified
    → (st ≡ leased) × (is_exact env a row.capture ≡ true)
unfolding by_state
by_state-verified env now a s row applied e = ground arith
by_state-verified env now a s row leased e = ground arith
by_state-verified env now a s row st e = ground arith

answer-verified :
    (env : Env) (now : ℕ) (a : Report) (s : Store) (row : Row)
    → (answer env now a s (some row)).1 ≡ verified
    → (row.job.state ≡ leased)
      × (holds_lease env a row.job ≡ true)
      × (is_exact env a row.capture ≡ true)
unfolding answer
answer-verified env now a s row e = ground (arith, by_state-verified env now a s row row.job.state)

evidence_of :
    (env : Env) (a : Report) (s : Store) (row : Row)
    → find_row s a.shard_id a.job_id ≡ some row
    → delivery_suffix_issue env.search_params a.applied_suffix ≡ none
    → row.job.state ≡ leased
    → holds_lease env a row.job ≡ true
    → is_exact env a row.capture ≡ true
    → Evidence env a s
evidence_of env a s row found fine st held exact = elim (Option-cases a.applied_suffix) [
  | inl nothing ↦ ground arith
  | inr (suffix, reports) ↦ record {
    row = row;
    found = found;
    is_lease = st;
    worker = holds_text→eq row.job.worker_id a.worker_id (ground arith);
    token = holds_text→eq row.job.lease_token_hash (env.digest a.lease_token) (ground arith);
    is_ok = ground arith;
    suffix = suffix;
    reports = reports;
    deliverable = ground arith;
    exact = ground (arith, eq_iff (env.digest suffix) row.capture.suffix_hash);
  }
]

-- A report is answered by "verified" only with the evidence: its job stands in the shard, is leased to the
-- sender under the sender's token, the report is positive, and the suffix that it found in Google Ads is
-- deliverable and has the hash of the captured one.
pub acknowledge-Evidence :
    (env : Env) (now : ℕ) (a : Report) (s t : Store)
    → acknowledge_bridge_job env now a s ≡ ok (t, verified)
    → Evidence env a s
unfolding acknowledge_bridge_job
acknowledge-Evidence env now a s t e = elim (Option-cases (find_row s a.shard_id a.job_id)) [
  | inl nothing ↦ ground arith
  | inr (row, found) ↦
      let v = answer-verified env now a s row in
      evidence_of env a s row found (ground (arith, v)) (ground (arith, v)) (ground (arith, v))
        (ground (arith, v))
]

pub Evidence-acknowledge :
    (env : Env) (now : ℕ) (a : Report) (s : Store) (v : Evidence env a s)
    → (t : Store) × (acknowledge_bridge_job env now a s ≡ ok (t, verified))
      × (t.jobs ≡ update_where (has_id a.job_id) (applied_job v.row.capture.suffix_hash now) s.jobs)
      × (t.targets
          ≡ update_where
              (λ x. str_eq x.target_id v.row.job.target_id)
              (delivered v.row.capture.suffix_hash now)
              s.targets)
      × (t.captures ≡ s.captures)
      × (t.activities ≡ s.activities)
      × (t.managers ≡ s.managers)
      × (t.audit_log ≡ s.audit_log)
      × (t.next_capture_id ≡ s.next_capture_id)
      × (t.shards ≡ update_where (λ x. str_eq x.shard_id a.shard_id) (acked none now) s.shards)
unfolding acknowledge_bridge_job settle
Evidence-acknowledge env now a s v = (
  (settle env now a s v.row).0,
  answered,
  ground (arith, exact),
  ground (arith, exact),
  ground (arith, exact),
  ground (arith, exact),
  ground (arith, exact),
  ground (arith, exact),
  ground (arith, exact),
  ground (arith, exact),
)
  where
    exact : is_exact env a v.row.capture ≡ true
    exact =
        rw (v.is_ok, v.reports) ((eq_iff (env.digest v.suffix) v.row.capture.suffix_hash).1 v.exact)

    held : holds_lease env a v.row.job ≡ true
    held =
        rw (v.worker, v.token)
          (ground (
            arith,
            eq_iff a.worker_id a.worker_id,
            eq_iff (env.digest a.lease_token) (env.digest a.lease_token),
          ))

    answered : acknowledge_bridge_job env now a s ≡ ok ((settle env now a s v.row).0, verified)
    answered = ground (arith, exact, held, v.found, v.is_lease, v.is_ok, v.reports, v.deliverable)

by_state-targets :
    (env : Env) (now : ℕ) (a : Report) (s : Store) (row : Row) (st : JobState)
    → (by_state env now a s row st).1 ≢ verified
    → (by_state env now a s row st).0.targets ≡ s.targets
unfolding by_state
by_state-targets env now a s row applied ne = ground arith
by_state-targets env now a s row leased ne = ground arith
by_state-targets env now a s row st ne = refl

answer-targets :
    (env : Env) (now : ℕ) (a : Report) (s : Store) (o : Option Row)
    → (answer env now a s o).1 ≢ verified
    → (answer env now a s o).0.targets ≡ s.targets
unfolding answer
answer-targets env now a s none ne = refl
answer-targets env now a s (some row) ne =
    ground (arith, by_state-targets env now a s row row.job.state)

-- An answer other than "verified" leaves the targets as they were, so that no delivery is recorded.
pub acknowledge-targets :
    (env : Env) (now : ℕ) (a : Report) (s t : Store) (o : Outcome)
    → acknowledge_bridge_job env now a s ≡ ok (t, o)
    → o ≢ verified
    → t.targets ≡ s.targets
unfolding acknowledge_bridge_job
acknowledge-targets env now a s t o e ne =
    let row = find_row s a.shard_id a.job_id in
    let same : answer env now a s row ≡ (t, o) = ground arith in
    subst (λ (p : Store × Outcome). p.1 ≢ verified → p.0.targets ≡ s.targets) same
      (answer-targets env now a s row) ne
