-- ===== src/Bridge.antt =====
-- The Script Fleet store of web/lib/script-bridge-store.ts: the rows of its tables, its settings, and
-- the clauses that several of its queries share. A table is a list of rows, an UPDATE is a `map`, a
-- transaction is a function of the store and of the instant `now()`, and an aborted one returns an error.
pub mod Results
pub mod Candidates
pub mod Prepare
pub mod Lease
pub mod Enqueue
pub mod Names
pub mod Shards
pub mod Targets
pub mod Window
pub mod Rooms
pub mod Assign
pub mod Manifest
pub mod History
pub mod Ack
pub mod Renew
pub mod Invariant
use link_suffix.Base.{
  ◌≡◌, refl, ℕ, Bool, true, false, not, ◌&&◌, ◌||◌, List, ◌∷◌, map, Option, none, some, String, max,
  ltb, ◌==◌, str_eq, if◌then◌else◌, filter, find?, head?, any,
}
use link_suffix.Bridge.Results.{Result, err, ok, or_value, ◌>>=◌, guard, ◌>>◌, >>=-eq-ok}
use link_suffix.Base.Sorting.{sort}

-- The check of `tah_delivery_jobs.state`.
pub data JobState : Type 0 where
  pending leased applied failed dead superseded : JobState

-- tah_campaign_targets
pub record Target : Type 0 where
  pub target_id : String
  pub campaign_record_id : String
  pub campaign_name : String
  pub manager_customer_id : String
  pub customer_id : String
  pub google_campaign_id : String
  pub shard_id : String
  pub enabled : Bool
  pub min_delivery_interval_ms : ℕ
  pub last_applied_at : Option ℕ
  pub last_applied_suffix_hash : Option String
  pub archived_at : Option ℕ
  pub updated_at : ℕ

-- tah_suffix_captures
pub record Capture : Type 0 where
  pub capture_id : ℕ
  pub target_id : String
  pub version : ℕ
  pub exact_suffix : String
  pub suffix_hash : String
  pub source_run_id : Option String
  pub egress_identity : Option String
  pub captured_at : ℕ

-- tah_delivery_jobs
pub record Job : Type 0 where
  pub job_id : String
  pub target_id : String
  pub capture_id : ℕ
  pub state : JobState
  pub attempt_count : ℕ
  pub available_at : ℕ
  pub leased_at : Option ℕ
  pub leased_until : Option ℕ
  pub lease_token_hash : Option String
  pub lease_shard_id : Option String
  pub worker_id : Option String
  pub applied_at : Option ℕ
  pub verified_suffix_hash : Option String
  pub last_error : Option String
  pub created_at : ℕ
  pub updated_at : ℕ

-- tah_script_shards
pub record Shard : Type 0 where
  pub shard_id : String
  pub token_hash : String
  pub enabled : Bool
  pub deleted_at : Option ℕ
  pub last_poll_at : Option ℕ
  pub last_ack_at : Option ℕ
  pub last_error : Option String
  pub last_invocation_id : Option String
  pub last_execution_status : Option String
  pub last_execution_started_at : Option ℕ
  pub previous_execution_started_at : Option ℕ
  pub last_execution_completed_at : Option ℕ
  pub schedule_anchor_at : Option ℕ
  pub schedule_sample_count : ℕ
  pub expected_next_start_at : Option ℕ
  pub phase_one_stop_at : Option ℕ
  pub hard_stop_at : Option ℕ
  pub handoff_margin_ms : Option ℕ
  pub updated_at : ℕ

-- tah_script_account_activity
pub record Activity : Type 0 where
  pub shard_id : String
  pub customer_id : String
  pub manifest_seen_at : Option ℕ
  pub last_poll_at : Option ℕ
  pub worker_id : Option String
  pub updated_at : ℕ

-- The tables; `managers` is tah_fleet_shard_managers, `audit_log` the actions and resources
-- of tah_audit_log, and `next_capture_id` the sequence of capture_id.
pub record Store : Type 0 where
  pub targets : List Target
  pub captures : List Capture
  pub jobs : List Job
  pub shards : List Shard
  pub managers : List (String × String)
  pub activities : List Activity
  pub audit_log : List (String × String)
  pub next_capture_id : ℕ

-- What the store takes from elsewhere: SHA-256 in hex, the decoded fields of `URLSearchParams`, the order of
-- texts in the database's collation, and the numbers that the environment gives.
pub record Env : Type 0 where
  pub digest : String → String
  pub search_params : String → List (String × String)
  pub text_before : String → String → Bool
  pub max_attempts_setting : Option ℕ
  pub lease_ms_setting : Option ℕ
  pub min_interval_ms_setting : Option ℕ

-- `Number(process.env.NAME) || fallback`
abbrev pub or_default : Option ℕ → ℕ → ℕ
or_default none d = d
or_default (some n) d = if n == 0 then d else n

unfoldable pub max_attempts : Env → ℕ
max_attempts env = max 1 (or_default env.max_attempts_setting 8)

unfoldable pub lease_ms : Env → ℕ
lease_ms env = max 2_100_000 (or_default env.lease_ms_setting 2_100_000)

unfoldable pub min_interval_ms : Env → ℕ
min_interval_ms env = max 58_000 (or_default env.min_interval_ms_setting 58_000)

abbrev pub shard_capacity : ℕ
shard_capacity = 40

abbrev pub max_lease_jobs : ℕ
max_lease_jobs = 200

-- `state IN ('pending','failed')`
abbrev pub is_waiting : JobState → Bool
is_waiting pending = true
is_waiting failed = true
is_waiting _ = false

abbrev pub is_leased : JobState → Bool
is_leased leased = true
is_leased _ = false

-- `state IN ('dead','superseded')`
abbrev pub is_retired : JobState → Bool
is_retired dead = true
is_retired superseded = true
is_retired _ = false

abbrev pub is_dead : JobState → Bool
is_dead dead = true
is_dead _ = false

-- `ORDER BY captured_at DESC, capture_id DESC`
abbrev newer : Capture → Capture → Bool
newer a b =
    ltb b.captured_at a.captured_at
    || (a.captured_at == b.captured_at && ltb b.capture_id a.capture_id)

-- `SELECT … WHERE target_id = t ORDER BY captured_at DESC, capture_id DESC LIMIT 1`
unfoldable pub latest_capture : List Capture → String → Option Capture
unfolding sort
latest_capture captures t = head? (sort newer (filter (λ c. str_eq c.target_id t) captures))

abbrev pub is_capture : Option Capture → ℕ → Bool
is_capture none id = false
is_capture (some c) id = c.capture_id == id

-- `capture_id <> (SELECT …)`, not true where there is no capture.
abbrev pub is_other_capture : Option Capture → ℕ → Bool
is_other_capture none id = false
is_other_capture (some c) id = not (c.capture_id == id)

-- `SET state=…, leased_at=NULL, leased_until=NULL, lease_token_hash=NULL, worker_id=NULL, updated_at=now()`
abbrev pub released : JobState → ℕ → Job → Job
released st now j = record j {
  state = st;
  leased_at = none;
  leased_until = none;
  lease_token_hash = none;
  worker_id = none;
  updated_at = now;
}

-- A row update by a condition.
abbrev pub update_where {ℓ} : {A : Type ℓ} → (A → Bool) → (A → A) → List A → List A
update_where test f = map (λ a. if test a then f a else a)

-- A new row of tah_delivery_jobs, with the table's defaults.
abbrev pub new_job : String → String → ℕ → ℕ → Job
new_job id t c now = record {
  job_id = id;
  target_id = t;
  capture_id = c;
  state = pending;
  attempt_count = 0;
  available_at = now;
  leased_at = none;
  leased_until = none;
  lease_token_hash = none;
  lease_shard_id = none;
  worker_id = none;
  applied_at = none;
  verified_suffix_hash = none;
  last_error = none;
  created_at = now;
  updated_at = now;
}

-- The columns of UNIQUE (target_id, capture_id).
abbrev pub is_job_of : String → ℕ → Job → Bool
is_job_of t c j = str_eq j.target_id t && j.capture_id == c

abbrev pub has_id : String → Job → Bool
has_id id j = str_eq j.job_id id

-- `INSERT INTO tah_delivery_jobs(job_id,target_id,capture_id) … ON CONFLICT (target_id,capture_id)`: a
-- conflicting row is changed by `resolve`; a row of the same primary key is an error.
unfoldable pub insert_job : (Job → Job) → String → String → ℕ → ℕ → List Job → Result (List Job)
insert_job resolve id t c now jobs =
    if any (is_job_of t c) jobs
    then ok (update_where (is_job_of t c) resolve jobs)
    else if any (has_id id) jobs
    then err "duplicate key value violates unique constraint"
    else ok (new_job id t c now ∷ jobs)

abbrev pub find_shard : Store → String → Option Shard
find_shard s id = find? (λ sh. str_eq sh.shard_id id) s.shards

abbrev pub find_target : Store → String → Option Target
find_target s id = find? (λ t. str_eq t.target_id id) s.targets

abbrev pub find_capture : Store → ℕ → Option Capture
find_capture s id = find? (λ c. c.capture_id == id) s.captures

abbrev pub update_shard : String → (Shard → Shard) → Store → Store
update_shard id f s = record s { shards = update_where (λ sh. str_eq sh.shard_id id) f s.shards }
