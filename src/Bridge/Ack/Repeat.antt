-- ===== src/Bridge/Ack/Repeat.antt =====
-- A report that is sent again: a verified one is answered as before, a refused one is stale.
use link_suffix.Base.{
  find?-passes, List, ◌==◌, ℕ, ◌≡◌, refl, sym, ap, ◌∙◌, subst, true, none, some, String, arith,
  eq_iff, if◌then◌else◌, str_eq, find?, find?-map-some, Option-cases, inl, inr,
}
use link_suffix.Bridge.{
  update_shard, Store, Target, Capture, Env, has_id, update_where, find_target, find_capture,
}
use link_suffix.Bridge.Results.{or_value, Result, ok}
use link_suffix.Bridge.Ack.{
  acked, Report, Row, Outcome, find_row, in_shard, applied_job, acknowledge_bridge_job, verified,
  repeated, holds_lease, delivered,
}
use link_suffix.Bridge.Ack.Evidence.{acknowledge-Evidence, Evidence-acknowledge}

-- The row that a verified report leaves.
module _ (env : Env) (now : ℕ) (a : Report) (s t : Store) (row : Row) where
  abbrev after_row : Row
  after_row = record row { job = applied_job row.capture.suffix_hash now row.job }

  find_row-parts :
      (u : Store)
      → find_row u a.shard_id a.job_id ≡ some row
      → (find? (has_id a.job_id) u.jobs ≡ some row.job)
        × (find_capture u row.job.capture_id ≡ some row.capture)
        × (in_shard (find_target u row.job.target_id) a.shard_id ≡ true)
  unfolding find_row
  find_row-parts u e = elim (Option-cases (find? (has_id a.job_id) u.jobs)) [
    | inl no_job ↦ ground arith
    | inr (j, job) ↦ elim (Option-cases (find_capture u j.capture_id)) [
      | inl no_capture ↦ ground arith
      | inr (c, capture) ↦ ground arith
    ]
  ]

  delivered-in_shard :
      (id : String)
      → in_shard (find_target s id) a.shard_id ≡ true
      → t.targets
        ≡ update_where
            (λ x. str_eq x.target_id row.job.target_id)
            (delivered row.capture.suffix_hash now)
            s.targets
      → in_shard (find_target t id) a.shard_id ≡ true
  delivered-in_shard id h same = elim (Option-cases (find_target s id)) [
    | inl nothing ↦ ground arith
    | inr (x, found) ↦
        let f = λ (y : Target).
          if str_eq y.target_id row.job.target_id
          then delivered row.capture.suffix_hash now y
          else y in
        let moved =
          find?-map-some (λ y. str_eq y.target_id id) f (λ y. ground arith) s.targets x found in
        ground (
          arith,
          ap (λ (ts : List Target). find? (λ (y : Target). str_eq y.target_id id) ts) same,
          moved,
        )
  ]

  find_row_after :
      find_row s a.shard_id a.job_id ≡ some row
      → t.jobs ≡ update_where (has_id a.job_id) (applied_job row.capture.suffix_hash now) s.jobs
      → t.targets
        ≡ update_where
            (λ x. str_eq x.target_id row.job.target_id)
            (delivered row.capture.suffix_hash now)
            s.targets
      → t.captures ≡ s.captures
      → find_row t a.shard_id a.job_id ≡ some after_row
  unfolding find_row
  find_row_after found jobs targets captures =
      let (job, capture, shard) = find_row-parts s found in
      let moved : find? (has_id a.job_id) t.jobs ≡ some after_row.job = rw jobs (
        find?-map-some (has_id a.job_id) _ (λ j. ground arith) s.jobs row.job job
        ∙ ground (arith, find?-passes (has_id a.job_id) s.jobs row.job job)) in
      ground (
        arith,
        moved,
        ap (λ (cs : List Capture). find? (λ (c : Capture). c.capture_id == row.job.capture_id) cs)
            captures,
        capture,
        delivered-in_shard row.job.target_id shard targets,
      )

-- A report that was verified may be sent again at any later time: it is answered by "applied" once more,
-- and neither jobs nor targets change.
pub acknowledge_twice :
    (env : Env) (now later : ℕ) (a : Report) (s t : Store)
    → acknowledge_bridge_job env now a s ≡ ok (t, verified)
    → (u : Store) × (acknowledge_bridge_job env later a t ≡ ok (u, repeated))
      × (u.jobs ≡ t.jobs)
      × (u.targets ≡ t.targets)
unfolding acknowledge_bridge_job
acknowledge_twice env now later a s t e =
    let v = acknowledge-Evidence env now a s t e in
    let (t', e', jobs, targets, captures, _, _, _, _, _) = Evidence-acknowledge env now a s v in
    let same : t' ≡ t =
      ap (λ (r : Result (Store × Outcome)). (or_value r (s, verified)).0) (sym e' ∙ e) in
    let row = after_row env now a s t v.row in
    let found : find_row t a.shard_id a.job_id ≡ some row =
      subst (λ (x : Store). find_row x a.shard_id a.job_id ≡ some row) same
        (find_row_after env now a s t' v.row v.found jobs targets captures) in
    let held : holds_lease env a v.row.job ≡ true =
      rw (v.worker, v.token)
        (ground (
          arith,
          eq_iff a.worker_id a.worker_id,
          eq_iff (env.digest a.lease_token) (env.digest a.lease_token),
        )) in
    let hash = v.row.capture.suffix_hash in
    (
      update_shard a.shard_id (acked none later) t,
      ground (arith, found, held, v.is_ok, v.reports, v.deliverable, eq_iff hash hash),
      refl,
      refl,
    )
