-- ===== src/Bridge/Lease.antt =====
-- `leaseBridgeJobs` of web/lib/script-bridge-store.ts: one transaction that hands the newest waiting updates
-- of a shard to a worker. A random value is drawn by its position in the call: `uuid i` and `token i`.
pub mod Fence
pub mod Held
pub mod Valid
use link_suffix.Base.{
  ℕ, ◌+◌, Bool, not, ◌&&◌, ◌||◌, List, [], ◌∷◌, Option, none, some, String, ◌==◌, str_eq,
  if◌then◌else◌, filter, any, take, length, is_some,
}
use link_suffix.Base.Text.{codes, all_codes, is_digit, digits_only, is_empty}
use link_suffix.Capture.Suffix.{delivery_suffix_issue, message}
use link_suffix.Bridge.Candidates.{Candidate, select_candidates}
use link_suffix.Bridge.Prepare.{Request, lease_limit, lock_active_shard, prepared}
use link_suffix.Bridge.{
  Store, Target, Job, Activity, leased, dead, Env, lease_ms, released, update_where, has_id,
  update_shard,
}
use link_suffix.Bridge.Results.{Result, ok, ◌>>=◌, guard, ◌>>◌}

-- `/^\d{10}$/`
abbrev pub is_customer_id : String → Bool
is_customer_id s = all_codes is_digit (codes s) && length (codes s) == 10

-- `UPDATE … SET state='leased' …`
abbrev pub leased_job : Env → String → String → String → ℕ → Job → Job
leased_job env worker shard_id token now j = record j {
  state = leased;
  attempt_count = j.attempt_count + 1;
  leased_at = some now;
  leased_until = some (now + lease_ms env);
  lease_token_hash = some (env.digest token);
  worker_id = some worker;
  lease_shard_id = some shard_id;
  updated_at = now;
}

-- `UPDATE … SET state='dead', last_error=…`
abbrev pub rejected_job : String → ℕ → Job → Job
rejected_job issue now j = let r = released dead now j in record r { last_error = some issue }

-- BridgeLease
pub record Lease : Type 0 where
  pub job_id : String
  pub lease_token : String
  pub campaign_record_id : String
  pub campaign_name : String
  pub manager_customer_id : String
  pub customer_id : String
  pub campaign_id : String
  pub exact_suffix : String
  pub version : ℕ
  pub captured_at : ℕ

abbrev pub lease_of : String → Candidate → Lease
lease_of token c = record {
  job_id = c.job.job_id;
  lease_token = token;
  campaign_record_id = c.target.campaign_record_id;
  campaign_name = c.target.campaign_name;
  manager_customer_id = c.target.manager_customer_id;
  customer_id = c.target.customer_id;
  campaign_id = c.target.google_campaign_id;
  exact_suffix = c.capture.exact_suffix;
  version = c.capture.version;
  captured_at = c.capture.captured_at;
}

-- One round of the loop: an undeliverable suffix kills its job, any other is leased.
pub lease_row : Env → String → String → String → ℕ → Candidate → List Job → List Job × Option Lease
lease_row env worker shard_id token now c jobs =
    elim (delivery_suffix_issue env.search_params (some c.capture.exact_suffix)) [
      | some issue ↦
          (update_where (has_id c.job.job_id) (rejected_job (message issue) now) jobs, none)
      | none ↦ (
        update_where (has_id c.job.job_id) (leased_job env worker shard_id token now) jobs,
        some (lease_of token c),
      )
    ]

abbrev push : Option Lease → List Lease → List Lease
push none ls = ls
push (some l) ls = l ∷ ls

-- The loop over the candidates.
pub lease_rows :
    Env → String → String → (ℕ → String) → ℕ → ℕ → List Candidate → List Job → List Job × List Lease
lease_rows env worker shard_id token now i [] jobs = (jobs, [])
lease_rows env worker shard_id token now i (c ∷ cs) jobs =
    let (jobs', l) = lease_row env worker shard_id (token i) now c jobs in
    let (jobs'', ls) = lease_rows env worker shard_id token now (i + 1) cs jobs' in
    (jobs'', push l ls)

-- `INSERT INTO tah_script_account_activity … ON CONFLICT DO UPDATE SET last_poll_at, worker_id`
poll_account : String → String → ℕ → String → List Activity → List Activity
poll_account shard_id worker now customer rows =
    let same = λ (a : Activity). str_eq a.shard_id shard_id && str_eq a.customer_id customer in
    if any same rows
    then update_where same
        (λ a. record a { last_poll_at = some now; worker_id = some worker; updated_at = now }) rows
    else record {
      shard_id = shard_id;
      customer_id = customer;
      manifest_seen_at = none;
      last_poll_at = some now;
      worker_id = some worker;
      updated_at = now;
    }
      ∷ rows

poll_accounts : String → String → ℕ → List Target → List Activity → List Activity
poll_accounts shard_id worker now [] rows = rows
poll_accounts shard_id worker now (t ∷ ts) rows =
    poll_accounts shard_id worker now ts (poll_account shard_id worker now t.customer_id rows)

-- An enabled target of the shard that is not archived.
abbrev is_live_in : String → Target → Bool
is_live_in shard_id t = t.enabled && not (is_some t.archived_at) && str_eq t.shard_id shard_id

-- The accounts whose poll the call records: one that has a live target, or all of the shard.
polled_targets : String → String → Bool → List Target → List Target
polled_targets shard_id customer hot_add ts =
    let live = filter (is_live_in shard_id) ts in
    if not (is_empty customer)
    then take 1 (filter (λ t. str_eq t.customer_id customer) live)
    else if hot_add
    then live
    else []

-- The statements behind the loop.
pub finished : Request → ℕ → Store → List Job → Store
unfolding poll_accounts poll_account polled_targets
finished r now s jobs =
    let customer = digits_only r.requested_customer in
    update_shard r.shard_id (λ sh. record sh { last_poll_at = some now; updated_at = now })
      (record s {
        jobs = jobs;
        activities =
            poll_accounts r.shard_id r.worker_id now
              (polled_targets r.shard_id customer r.hot_add s.targets) s.activities;
      })

unfoldable pub lease_bridge_jobs :
    Env → Request → (ℕ → String) → (ℕ → String) → ℕ → Store → Result (Store × List Lease)
unfolding lock_active_shard prepared select_candidates lease_rows lease_row finished
lease_bridge_jobs env r uuid token now s = do
  let customer = digits_only r.requested_customer
  guard (is_empty customer || is_customer_id customer)
      "A valid 10-digit customer filter is required"
  lock_active_shard s r.shard_id
  t ← prepared env r uuid now s
  let rows = select_candidates env t r.shard_id customer now (lease_limit r)
  let (jobs, leases) = lease_rows env r.worker_id r.shard_id token now 0 rows t.jobs
  ok (finished r now t jobs, leases)
