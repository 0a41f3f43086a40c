-- ===== src/Bridge/Prepare.antt =====
-- The first statements of `leaseBridgeJobs` in web/lib/script-bridge-store.ts: the lock on the shard, the jobs
-- that are missing, the jobs that are superseded, and the leases that have run out. A random value is drawn
-- by its position in the call: `uuid i`.
pub mod Valid
use link_suffix.Base.{
  ℕ, ◌+◌, ◌*◌, ◌^◌, Bool, false, not, ◌&&◌, List, [], ◌∷◌, Option, none, some, String, min, max,
  ltb, leb, if◌then◌else◌, filter, any, is_some,
}
use link_suffix.Base.Text.{digits_only}
use link_suffix.Bridge.Candidates.{is_served}
use link_suffix.Bridge.{
  Store, Target, Capture, Job, failed, dead, superseded, Env, max_attempts, max_lease_jobs,
  is_waiting, is_leased, latest_capture, is_other_capture, released, update_where, is_job_of,
  insert_job, find_shard,
}
use link_suffix.Bridge.Results.{Result, ok, err, ◌>>=◌}

-- `lockActiveShard`
unfoldable pub lock_active_shard : Store → String → Result (Unit {0})
lock_active_shard s shard_id = elim (find_shard s shard_id) [
  | none ↦ err "This shard is disabled, deleted or not registered."
  | some sh ↦
      if sh.enabled && not (is_some sh.deleted_at)
      then ok tt
      else err "This shard is disabled, deleted or not registered."
]

-- The capture that a target has no job for yet.
abbrev missing_of : Store → Target → Option ℕ
missing_of s t = elim (latest_capture s.captures t.target_id) [
  | none ↦ none
  | some c ↦ if any (is_job_of t.target_id c.capture_id) s.jobs then none else some c.capture_id
]

missing_jobs : Store → List Target → List (String × ℕ)
missing_jobs s [] = []
missing_jobs s (t ∷ ts) = elim (missing_of s t) [
  | none ↦ missing_jobs s ts
  | some c ↦ (t.target_id, c) ∷ missing_jobs s ts
]

-- The loop of inserts, `ON CONFLICT (target_id,capture_id) DO NOTHING`.
insert_missing : (ℕ → String) → ℕ → ℕ → List (String × ℕ) → List Job → Result (List Job)
insert_missing uuid now i [] jobs = ok jobs
insert_missing uuid now i ((t, c) ∷ rows) jobs =
    insert_job (λ j. j) (uuid i) t c now jobs >>= insert_missing uuid now (i + 1) rows

-- A waiting job whose capture is no longer the newest is superseded, on every shard.
pub supersede_old : List Capture → ℕ → List Job → List Job
supersede_old captures now =
    update_where
      (λ j.
        is_waiting j.state && is_other_capture (latest_capture captures j.target_id) j.capture_id)
      (released superseded now)

abbrev before_now : Option ℕ → ℕ → Bool
before_now none now = false
before_now (some t) now = ltb t now

abbrev or_error : Option String → String → Option String
or_error none d = some d
or_error (some e) d = some e

-- LEAST(3600, POWER(2, attempts) * 10) seconds.
abbrev pub expiry_delay_ms : ℕ → ℕ
expiry_delay_ms attempts = min 3600 (2 ^ attempts * 10) * 1000

expired : Env → ℕ → Job → Job
expired env now j =
    let spent = leb (max_attempts env) j.attempt_count in
    record j {
      state = if spent then dead else failed;
      available_at = if spent then j.available_at else now + expiry_delay_ms j.attempt_count;
      leased_at = none;
      leased_until = none;
      lease_token_hash = none;
      worker_id = none;
      last_error = or_error j.last_error "Lease expired";
      updated_at = now;
    }

-- The leases that have run out.
pub expire_leases : Env → ℕ → List Job → List Job
unfolding expired
expire_leases env now =
    update_where (λ j. is_leased j.state && before_now j.leased_until now) (expired env now)

pub record Request : Type 0 where
  pub shard_id : String
  pub worker_id : String
  pub requested_limit : ℕ
  pub requested_customer : String
  pub hot_add : Bool

abbrev pub lease_limit : Request → ℕ
lease_limit r = max 1 (min max_lease_jobs r.requested_limit)

-- The store in which the candidates are looked up.
unfoldable pub prepared : Env → Request → (ℕ → String) → ℕ → Store → Result Store
unfolding insert_missing missing_jobs supersede_old expire_leases
prepared env r uuid now s = do
  let customer = digits_only r.requested_customer
  let rows = missing_jobs s (filter (is_served r.shard_id customer) s.targets)
  jobs ← insert_missing uuid now 0 rows s.jobs
  ok (record s { jobs = expire_leases env now (supersede_old s.captures now jobs) })
