-- ===== src/Bridge/Ack.antt =====
-- `acknowledgeBridgeJob` of web/lib/script-bridge-store.ts: a worker reports on a leased job.
pub mod Evidence
pub mod Repeat
pub mod Valid
use Prim.Native.String.{◌++◌ as append}
use link_suffix.Base.{
  ℕ, zero, ◌+◌, ◌-◌, ◌*◌, ◌^◌, Bool, true, false, not, ◌&&◌, Option, none, some, String, min, leb,
  str_eq, if◌then◌else◌, find?, holds_text,
}
use link_suffix.Base.Text.{or_else, slice}
use link_suffix.Capture.Suffix.{delivery_suffix_issue, message}
use link_suffix.Bridge.{
  Store, Target, Capture, Job, Shard, JobState, pending, leased, applied, failed, dead, superseded,
  Env, max_attempts, has_id, update_where, update_shard, find_target, find_capture,
}
use link_suffix.Bridge.Results.{Result, ok, err}

pub record Report : Type 0 where
  pub shard_id : String
  pub worker_id : String
  pub job_id : String
  pub lease_token : String
  pub is_ok : Bool
  pub applied_suffix : Option String
  pub error : Option String

pub data Outcome : Type 0 where
  -- Applied by this report; applied before by a report that is repeated.
  verified repeated : Outcome
  -- The update is to be tried again; it has used up its attempts.
  retried given_up : Outcome
  stale conflict : String → Outcome

-- `input.error || fallback`
abbrev error_or : Option String → String → String
error_or none d = d
error_or (some e) d = or_else e d

abbrev pub state_name : JobState → String
state_name pending = "pending"
state_name leased = "leased"
state_name applied = "applied"
state_name failed = "failed"
state_name dead = "dead"
state_name superseded = "superseded"

-- The row of the query: the job, with its capture, if the job's target is of the shard.
pub record Row : Type 0 where
  pub job : Job
  pub capture : Capture

abbrev in_shard : Option Target → String → Bool
in_shard none shard_id = false
in_shard (some t) shard_id = str_eq t.shard_id shard_id

joined : Store → String → Job → Option Row
joined s shard_id j = elim (find_capture s j.capture_id) [
  | none ↦ none
  | some c ↦
      if in_shard (find_target s j.target_id) shard_id
      then some (record { job = j; capture = c })
      else none
]

unfoldable pub find_row : Store → String → String → Option Row
unfolding joined
find_row s shard_id job_id = elim (find? (has_id job_id) s.jobs) [
  | none ↦ none
  | some j ↦ joined s shard_id j
]

-- The report comes from the holder of the lease.
abbrev pub holds_lease : Env → Report → Job → Bool
holds_lease env a j =
    holds_text j.worker_id a.worker_id && holds_text j.lease_token_hash (env.digest a.lease_token)

abbrev same_hash : Env → Option String → String → Bool
same_hash env none hash = false
same_hash env (some suffix) hash = str_eq (env.digest suffix) hash

-- `exactMatch`
abbrev pub is_exact : Env → Report → Capture → Bool
is_exact env a c = a.is_ok && same_hash env a.applied_suffix c.suffix_hash

abbrev pub applied_job : String → ℕ → Job → Job
applied_job hash now j = record j {
  state = applied;
  applied_at = some now;
  verified_suffix_hash = some hash;
  last_error = none;
  leased_at = none;
  leased_until = none;
  updated_at = now;
}

-- Math.min(3600, 10 * 2 ** Math.max(0, attempts - 1)) seconds.
abbrev pub retry_delay_ms : ℕ → ℕ
retry_delay_ms attempts = min 3600 (10 * 2 ^ (attempts - 1)) * 1000

abbrev pub refused_job : JobState → String → ℕ → Job → Job
refused_job st e now j = record j {
  state = st;
  available_at = now + retry_delay_ms j.attempt_count;
  last_error = some e;
  leased_at = none;
  leased_until = none;
  lease_token_hash = none;
  updated_at = now;
}

abbrev pub acked : Option String → ℕ → Shard → Shard
acked e now sh = record sh { last_ack_at = some now; last_error = e; updated_at = now }

abbrev pub delivered : String → ℕ → Target → Target
delivered hash now t = record t {
  last_applied_at = some now;
  last_applied_suffix_hash = some hash;
  updated_at = now;
}

-- A report on a job that is leased to its sender.
settle : Env → ℕ → Report → Store → Row → Store × Outcome
settle env now a s row =
    let j = row.job in
    let hash = row.capture.suffix_hash in
    let spent = leb (max_attempts env) j.attempt_count in
    let e =
      slice 2000 (error_or a.error "Google Ads verification did not return the exact suffix") in
    let accepted : Store = record s {
      jobs = update_where (has_id a.job_id) (applied_job hash now) s.jobs;
      targets = update_where (λ t. str_eq t.target_id j.target_id) (delivered hash now) s.targets;
    } in
    let refused : Store = record s {
      jobs =
          update_where (has_id a.job_id) (refused_job (if spent then dead else failed) e now)
            s.jobs;
    } in
    if is_exact env a row.capture
    then (update_shard a.shard_id (acked none now) accepted, verified)
    else (
      update_shard a.shard_id (acked (some (error_or a.error "Verification mismatch")) now) refused,
      if spent then given_up else retried,
    )

-- A report whose row is found and whose sender holds the lease.
by_state : Env → ℕ → Report → Store → Row → JobState → Store × Outcome
unfolding settle
by_state env now a s row applied =
    if holds_text row.job.verified_suffix_hash row.capture.suffix_hash
    then (update_shard a.shard_id (acked none now) s, repeated)
    else (s, conflict "Applied job is missing exact verification evidence")
by_state env now a s row leased = settle env now a s row
by_state env now a s row st = (s, stale (append "Delivery job is " (state_name st)))

answer : Env → ℕ → Report → Store → Option Row → Store × Outcome
unfolding by_state
answer env now a s none = (s, stale "Delivery job no longer exists")
answer env now a s (some row) =
    if holds_lease env a row.job
    then by_state env now a s row row.job.state
    else (s, stale "Delivery lease has been reassigned")

unfoldable pub acknowledge_bridge_job : Env → ℕ → Report → Store → Result (Store × Outcome)
unfolding answer find_row
acknowledge_bridge_job env now a s =
    let reply = ok (answer env now a s (find_row s a.shard_id a.job_id)) in
    if a.is_ok
    then elim (delivery_suffix_issue env.search_params a.applied_suffix) [
      | some issue ↦ err (message issue)
      | none ↦ reply
    ]
    else reply
