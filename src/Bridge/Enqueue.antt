-- ===== src/Bridge/Enqueue.antt =====
-- How an update gets into the queue (web/lib/script-bridge-store.ts): the transaction of
-- `enqueueBridgeCapture` behind the enrollment of the target, `queueLatestBridgeCapture`, and
-- `setBridgeTargetEnabled` where it pauses a campaign.
pub mod Valid
pub mod Effects
use link_suffix.Base.{
  ℕ, suc, ◌+◌, Bool, true, false, not, ◌&&◌, ◌||◌, List, [], ◌∷◌, Option, none, some, String, ◌==◌,
  str_eq, if◌then◌else◌, find?, filter, is_some,
}
use link_suffix.Bridge.{
  Store, Target, Capture, Job, JobState, pending, superseded, Env, is_waiting, is_leased,
  is_retired, is_dead, latest_capture, released, update_where, is_job_of, insert_job,
}
use link_suffix.Bridge.Results.{Result, ok, err, ◌>>=◌, or_value}

-- A capture as the caller hands it over; `egress` is the normalised identity in JSON.
pub record Captured : Type 0 where
  pub target_id : String
  pub version : ℕ
  pub exact_suffix : String
  pub source_run_id : Option String
  pub egress : Option String

abbrev coalesce : Option String → Option String → Option String
coalesce (some a) b = some a
coalesce none b = b

abbrev is_version : Captured → Capture → Bool
is_version c x = str_eq x.target_id c.target_id && x.version == c.version

-- `ON CONFLICT (target_id,version) DO UPDATE SET …`
abbrev recaptured : Env → Captured → Capture → Capture
recaptured env c x = record x {
  exact_suffix = c.exact_suffix;
  suffix_hash = env.digest c.exact_suffix;
  egress_identity = coalesce c.egress x.egress_identity;
}

abbrev new_capture : Env → Captured → ℕ → ℕ → Capture
new_capture env c id now = record {
  capture_id = id;
  target_id = c.target_id;
  version = c.version;
  exact_suffix = c.exact_suffix;
  suffix_hash = env.digest c.exact_suffix;
  source_run_id = c.source_run_id;
  egress_identity = c.egress;
  captured_at = now;
}

-- The capture's row, and its identifier. The sequence moves on also where the row is there.
pub save_capture : Env → Captured → ℕ → Store → Store × ℕ
save_capture env c now s = elim (find? (is_version c) s.captures) [
  | some old ↦ (
    record s {
      captures = update_where (is_version c) (recaptured env c) s.captures;
      next_capture_id = suc s.next_capture_id;
    },
    old.capture_id,
  )
  | none ↦ (
    record s {
      captures = new_capture env c s.next_capture_id now ∷ s.captures;
      next_capture_id = suc s.next_capture_id;
    },
    s.next_capture_id,
  )
]

-- `state IN ('pending','failed') AND capture_id <> c`
abbrev waits_for_other : String → ℕ → Job → Bool
waits_for_other t c j = str_eq j.target_id t && is_waiting j.state && not (j.capture_id == c)

pub supersede_others : String → ℕ → ℕ → List Job → List Job
supersede_others t c now = update_where (waits_for_other t c) (released superseded now)

-- `state = CASE WHEN state='dead' THEN 'pending' ELSE state END`
abbrev pub revived : ℕ → Job → Job
revived now j = record j { state = if is_dead j.state then pending else j.state; updated_at = now }

-- The transaction of `enqueueBridgeCapture`.
unfoldable pub enqueue_capture : Env → Captured → String → ℕ → Store → Result (Store × Option Job)
unfolding save_capture supersede_others
enqueue_capture env c uuid now s = do
  let (s', id) = save_capture env c now s
  jobs ←
      insert_job (revived now) uuid c.target_id id now (supersede_others c.target_id id now s'.jobs)
  ok (record s' { jobs = jobs }, find? (is_job_of c.target_id id) jobs)

-- The update of `queueLatestBridgeCapture`: a dead or superseded job starts afresh.
abbrev pub restarted : ℕ → Job → Job
restarted now j =
    let fresh : Job = record j {
      state = pending;
      attempt_count = 0;
      available_at = now;
      leased_at = none;
      leased_until = none;
      lease_token_hash = none;
      worker_id = none;
      last_error = none;
      updated_at = now;
    } in
    if is_retired j.state then fresh else record j { updated_at = now }

abbrev pub is_record : String → Target → Bool
is_record id t = str_eq t.campaign_record_id id

pub data Queued : Type 0 where
  waiting_for_capture : Queued
  queued : Option Job → Queued

-- The job of a target's capture, behind those of the target's other captures.
queue_capture : String → ℕ → Store → String → ℕ → Result (Store × Queued)
queue_capture uuid now s t c = do
  jobs ← insert_job (restarted now) uuid t c now (supersede_others t c now s.jobs)
  ok (record s { jobs = jobs }, queued (find? (is_job_of t c) jobs))

queue_for : String → ℕ → Store → Target → Result (Store × Queued)
queue_for uuid now s t = elim (latest_capture s.captures t.target_id) [
  | none ↦ ok (s, waiting_for_capture)
  | some c ↦ queue_capture uuid now s t.target_id c.capture_id
]

unfoldable pub queue_latest_bridge_capture : String → String → ℕ → Store → Result (Store × Queued)
unfolding queue_for queue_capture supersede_others
queue_latest_bridge_capture record_id uuid now s =
    elim (find? (λ t. is_record record_id t && t.enabled) s.targets) [
      | none ↦ err "Campaign target was not found or is disabled"
      | some t ↦ queue_for uuid now s t
    ]

-- `state IN ('pending','failed','leased')`
abbrev pub is_open : JobState → Bool
is_open st = is_waiting st || is_leased st

pub withdraw : String → ℕ → List Job → List Job
withdraw t now =
    update_where (λ j. str_eq j.target_id t && is_open j.state) (released superseded now)

-- `setBridgeTargetEnabled(record_id, false)`.
unfoldable pub pause_target : String → ℕ → Store → Result (Store × Unit {0})
unfolding withdraw
pause_target record_id now s =
    let test = λ (t : Target). is_record record_id t && not (is_some t.archived_at) in
    elim (find? test s.targets) [
      | none ↦ err "Campaign target was not found"
      | some t ↦ ok (
        record s {
          targets =
              update_where test (λ x. record x { enabled = false; updated_at = now }) s.targets;
          jobs = withdraw t.target_id now s.jobs;
        },
        tt,
      )
    ]
