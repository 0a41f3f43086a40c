-- ===== src/Bridge/Candidates.antt =====
-- The candidates of `leaseBridgeJobs` in web/lib/script-bridge-store.ts: which waiting jobs may be leased,
-- and in which order.
pub mod Ready
use link_suffix.Base.{
  ℕ, ◌+◌, Bool, true, not, ◌&&◌, ◌||◌, List, [], ◌∷◌, map, Option, none, some, String, ltb, leb,
  ◌==◌, str_eq, if◌then◌else◌, filter, any, take, length, is_some,
}
use link_suffix.Base.Sorting.{sort}
use link_suffix.Base.Text.{is_empty}
use link_suffix.Bridge.{
  Store, Target, Capture, Job, Env, max_attempts, is_waiting, is_leased, latest_capture, is_capture,
  find_target, find_capture,
}

-- An enabled target of the shard, of the customer where one is named.
abbrev pub is_served : String → String → Target → Bool
is_served shard_id customer t =
    t.enabled && str_eq t.shard_id shard_id && (is_empty customer || str_eq t.customer_id customer)

-- A row of the candidates: a job with its target and capture.
pub record Candidate : Type 0 where
  pub job : Job
  pub target : Target
  pub capture : Capture

-- `last_applied_at IS NULL OR last_applied_at + min_delivery_interval_ms <= now()`
abbrev pub interval_elapsed : Target → ℕ → Bool
interval_elapsed t now = elim t.last_applied_at [
  | none ↦ true
  | some at ↦ leb (at + t.min_delivery_interval_ms) now
]

-- `EXISTS (… active.target_id = t AND active.state = 'leased' AND active.job_id <> id)`
abbrev has_active_lease : List Job → String → String → Bool
has_active_lease jobs t id =
    any (λ a. str_eq a.target_id t && is_leased a.state && not (str_eq a.job_id id)) jobs

-- The WHERE clause of the candidates.
abbrev pub is_candidate : Env → Store → String → String → ℕ → Job → Target → Bool
is_candidate env s shard_id customer now j t =
    is_waiting j.state
    && leb j.available_at now
    && ltb j.attempt_count (max_attempts env)
    && is_served shard_id customer t
    && is_capture (latest_capture s.captures j.target_id) j.capture_id
    && not (has_active_lease s.jobs j.target_id j.job_id)
    && interval_elapsed t now

-- The joins.
candidate_of : Env → Store → String → String → ℕ → Job → Option Candidate
candidate_of env s shard_id customer now j = elim (find_target s j.target_id) [
  | none ↦ none
  | some t ↦ elim (find_capture s j.capture_id) [
    | none ↦ none
    | some c ↦
        if is_candidate env s shard_id customer now j t
        then some (record { job = j; target = t; capture = c })
        else none
  ]
]

candidates_of : Env → Store → String → String → ℕ → List Job → List Candidate
candidates_of env s shard_id customer now [] = []
candidates_of env s shard_id customer now (j ∷ js) =
    elim (candidate_of env s shard_id customer now j) [
      | none ↦ candidates_of env s shard_id customer now js
      | some c ↦ c ∷ candidates_of env s shard_id customer now js
    ]

-- `ORDER BY CASE WHEN last_applied_at IS NULL THEN 0 ELSE 1 END, created_at, job_id`
ranks_before : Env → Candidate → Candidate → Bool
ranks_before env a b =
    let first_a = is_some a.target.last_applied_at in
    let first_b = is_some b.target.last_applied_at in
    (not first_a && first_b)
    || ((first_a && first_b || not first_a && not first_b)
        && (ltb a.job.created_at b.job.created_at
            || (a.job.created_at == b.job.created_at && env.text_before a.job.job_id b.job.job_id)))

-- `row_number() OVER (PARTITION BY customer_id ORDER BY …)`
account_position : Env → List Candidate → Candidate → ℕ
unfolding ranks_before
account_position env all c =
    1
    + length
        (filter (λ d. str_eq d.target.customer_id c.target.customer_id && ranks_before env d c) all)

pub record Ranked : Type 0 where
  pub position : ℕ
  pub row : Candidate

-- `ORDER BY account_position, created_at, job_id`
leased_before : Env → Ranked → Ranked → Bool
leased_before env a b =
    ltb a.position b.position
    || (a.position == b.position
        && (ltb a.row.job.created_at b.row.job.created_at
            || (a.row.job.created_at == b.row.job.created_at
                && env.text_before a.row.job.job_id b.row.job.job_id)))

-- The rows that the call works through. No other transaction holds a row, so none is skipped.
unfoldable pub select_candidates : Env → Store → String → String → ℕ → ℕ → List Candidate
unfolding candidates_of candidate_of account_position leased_before sort
select_candidates env s shard_id customer now limit =
    let all = candidates_of env s shard_id customer now s.jobs in
    map (λ r. r.row)
      (take limit (
        sort (leased_before env)
          (map (λ c. record { position = account_position env all c; row = c }) all)))
