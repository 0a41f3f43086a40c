-- ===== src/Examples/Delivery.antt =====
-- A delivery from the queue to the verified update, and the theorems at each of its steps.
use link_suffix.Base.{
  ◌↔◌, ℕ, ◌≡◌, ◌≢◌, refl, List, [], ◌∷◌, Option, none, some, String, true, false, All, ◌≤◌, length,
  Each, find?, ◌==◌, ◌&&◌, not, is_some, arith,
}
use link_suffix.Capture.Suffix.Deliverable.{IsHarmless, delivery_suffix_issue-none_iff}
use link_suffix.Capture.Suffix.{delivery_suffix_issue}
use link_suffix.Bridge.{
  Store, Job, Target, find_target, max_lease_jobs, max_attempts, lease_ms, is_waiting, pending,
  dead,
}
use link_suffix.Bridge.Results.{ok, or_value}
use link_suffix.Bridge.Invariant.{IsValid}
use link_suffix.Bridge.Lease.{Lease, lease_bridge_jobs}
use link_suffix.Bridge.Prepare.{prepared}
use link_suffix.Bridge.Lease.Valid.{IsGranted, lease_bridge_jobs-IsGranted}
use link_suffix.Bridge.Ack.{Report, Outcome, verified, stale, acknowledge_bridge_job}
use link_suffix.Bridge.Ack.Evidence.{Evidence, acknowledge-Evidence}
use link_suffix.Bridge.Renew.{renew_bridge_leases}
use link_suffix.Bridge.Renew.Valid.{Renewed, renew-Renewed}
use link_suffix.Bridge.Enqueue.{Captured, save_capture, enqueue_capture, pause_target}
use link_suffix.Bridge.Enqueue.Effects.{IsNewest, enqueue-IsNewest}
use link_suffix.Bridge.History.{Step, History}
use link_suffix.Bridge.History.Always.{History-IsValid}
use link_suffix.Examples.{env, fleet, request, one_field}

fleet-IsValid : IsValid env fleet.jobs
unfolding max_attempts
fleet-IsValid = record {
  apart = (tt, tt);
  sound = (
    record {
      attempts = omega arith;
      holder = λ e. ground arith;
      token = λ e. ground arith;
      until = λ e. ground arith;
    },
    tt,
  );
}

abbrev leased : Store × List Lease
leased =
    or_value (lease_bridge_jobs env request (λ i. "job-2") (λ i. "secret") 200_000 fleet)
      (fleet, [])

-- The lease call hands out the job.
lease_ok :
    lease_bridge_jobs env request (λ i. "job-2") (λ i. "secret") 200_000 fleet
    ≡ ok (leased.0, leased.1)
unfolding lease_bridge_jobs link_suffix.Base.Text.digits_only link_suffix.Bridge.latest_capture
    delivery_suffix_issue link_suffix.Capture.Suffix.is_challenge_key
    link_suffix.Capture.Suffix.empty_identifier link_suffix.Capture.Suffix.identifier_key
    max_attempts lease_ms
lease_ok = refl

lease_bridge_jobs-IsGranted_example :
    (length leased.1 ≤ max_lease_jobs)
    × (p : Store) × (prepared env request (λ i. "job-2") 200_000 fleet ≡ ok p)
    × All (IsGranted env request 200_000 fleet p.jobs leased.0.jobs) leased.1
lease_bridge_jobs-IsGranted_example =
    lease_bridge_jobs-IsGranted env request (λ i. "job-2") (λ i. "secret") 200_000 fleet leased.0
      leased.1 fleet-IsValid lease_ok

abbrev report : Report
report = record {
  shard_id = "mcc-1112223333-001";
  worker_id = "worker-1";
  job_id = "job-1";
  lease_token = "secret";
  is_ok = true;
  applied_suffix = some "gclid=x1";
  error = none;
}

abbrev after_report : Store × Outcome
after_report = or_value (acknowledge_bridge_job env 210_000 report leased.0) (fleet, verified)

ack_ok : acknowledge_bridge_job env 210_000 report leased.0 ≡ ok (after_report.0, verified)
unfolding lease_bridge_jobs acknowledge_bridge_job link_suffix.Base.Text.digits_only
    link_suffix.Bridge.latest_capture delivery_suffix_issue
    link_suffix.Capture.Suffix.is_challenge_key link_suffix.Capture.Suffix.empty_identifier
    link_suffix.Capture.Suffix.identifier_key max_attempts lease_ms
ack_ok = refl

acknowledge-Evidence_example : Evidence env report leased.0
acknowledge-Evidence_example =
    acknowledge-Evidence env 210_000 report leased.0 after_report.0 ack_ok

-- A worker that has lost its lease.
abbrev late_report : Report
late_report = record report { lease_token = "other" }

late_ok :
    acknowledge_bridge_job env 210_000 late_report leased.0
    ≡ ok (leased.0, stale "Delivery lease has been reassigned")
unfolding lease_bridge_jobs acknowledge_bridge_job link_suffix.Base.Text.digits_only
    link_suffix.Bridge.latest_capture delivery_suffix_issue
    link_suffix.Capture.Suffix.is_challenge_key link_suffix.Capture.Suffix.empty_identifier
    link_suffix.Capture.Suffix.identifier_key max_attempts lease_ms
late_ok = refl

renew-Renewed_example :
    Each
      (Renewed env 220_000 leased.0 "mcc-1112223333-001" "worker-1")
      leased.0.jobs
      (renew_bridge_leases env 220_000 "mcc-1112223333-001" "worker-1"
        (("job-1", "secret") ∷ [])
        leased.0).0.jobs
renew-Renewed_example =
    renew-Renewed env 220_000 "mcc-1112223333-001" "worker-1" (("job-1", "secret") ∷ []) leased.0

abbrev newer_capture : Captured
newer_capture = record {
  target_id = "a";
  version = 8;
  exact_suffix = "gclid=x2";
  source_run_id = none;
  egress = none;
}

abbrev enqueued : Store × Option Job
enqueued = or_value (enqueue_capture env newer_capture "job-2" 150_000 fleet) (fleet, none)

enqueue_ok : enqueue_capture env newer_capture "job-2" 150_000 fleet ≡ ok (enqueued.0, enqueued.1)
unfolding enqueue_capture link_suffix.Bridge.insert_job
enqueue_ok = refl

enqueue-IsNewest_example :
    All (IsNewest "a" (save_capture env newer_capture 150_000 fleet).1) enqueued.0.jobs
enqueue-IsNewest_example =
    enqueue-IsNewest env newer_capture "job-2" 150_000 fleet enqueued.0 enqueued.1 enqueue_ok

abbrev spent_job : Job
spent_job = record (link_suffix.Bridge.new_job "job-1" "a" 1 100) {
  state = dead;
  attempt_count = 3;
}

abbrev paused : Store
paused = (or_value (pause_target "record-a" 205_000 leased.0) (fleet, tt)).0

pause_ok : pause_target "record-a" 205_000 leased.0 ≡ ok (paused, tt)
unfolding pause_target lease_bridge_jobs link_suffix.Base.Text.digits_only
    link_suffix.Bridge.latest_capture delivery_suffix_issue
    link_suffix.Capture.Suffix.is_challenge_key link_suffix.Capture.Suffix.empty_identifier
    link_suffix.Capture.Suffix.identifier_key max_attempts lease_ms
pause_ok = refl

-- Leasing, verifying and queueing one after the other.
History-IsValid_example : IsValid env after_report.0.jobs
History-IsValid_example =
    History-IsValid env fleet after_report.0
      (History.then_step
        (History.then_step History.start
          (Step.lease request (λ i. "job-2") (λ i. "secret") 200_000 leased.1 lease_ok))
        (Step.acknowledge 210_000 report verified ack_ok))
      fleet-IsValid

delivery_suffix_issue-none_iff_example :
    (delivery_suffix_issue one_field (some "gclid=x1") ≡ none)
    ↔ All IsHarmless (one_field "gclid=x1")
delivery_suffix_issue-none_iff_example = delivery_suffix_issue-none_iff one_field "gclid=x1"
