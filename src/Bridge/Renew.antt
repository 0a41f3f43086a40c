-- ===== src/Bridge/Renew.antt =====
-- `renewBridgeLeases` of web/lib/script-bridge-store.ts: a worker asks for more time on the leases it holds.
pub mod Valid
use link_suffix.Base.{
  ℕ, ◌+◌, Bool, true, false, ◌&&◌, List, [], ◌∷◌, Option, none, some, String, str_eq, if◌then◌else◌,
  any, take, holds_text,
}
use link_suffix.Bridge.{
  Store, Job, Target, Env, lease_ms, max_lease_jobs, is_leased, has_id, update_where, update_shard,
  find_target,
}

pub record Renewal : Type 0 where
  pub renewed : List String
  pub stale : List String

abbrev in_shard : Option Target → String → Bool
in_shard none shard_id = false
in_shard (some t) shard_id = str_eq t.shard_id shard_id

-- The WHERE clause of the update.
abbrev pub is_renewable : Env → Store → String → String → String → String → Job → Bool
is_renewable env s shard_id worker id token j =
    has_id id j
    && in_shard (find_target s j.target_id) shard_id
    && is_leased j.state
    && holds_text j.worker_id worker
    && holds_text j.lease_token_hash (env.digest token)

abbrev pub renewed_job : Env → ℕ → Job → Job
renewed_job env now j = record j { leased_until = some (now + lease_ms env); updated_at = now }

-- The loop; `s` is read for the targets only.
pub renew_rows :
    Env → ℕ → Store → String → String → List (String × String) → List Job → List Job × Renewal
renew_rows env now s shard_id worker [] jobs = (jobs, record { renewed = []; stale = [] })
renew_rows env now s shard_id worker ((id, token) ∷ ls) jobs =
    let test = is_renewable env s shard_id worker id token in
    let (jobs', r) =
      renew_rows env now s shard_id worker ls (update_where test (renewed_job env now) jobs) in
    if any test jobs
    then (jobs', record r { renewed = id ∷ r.renewed })
    else (jobs', record r { stale = id ∷ r.stale })

unfoldable pub renew_bridge_leases :
    Env → ℕ → String → String → List (String × String) → Store → Store × Renewal
unfolding renew_rows
renew_bridge_leases env now shard_id worker leases s =
    let (jobs, r) = renew_rows env now s shard_id worker (take max_lease_jobs leases) s.jobs in
    (
      update_shard shard_id (λ sh. record sh { last_poll_at = some now; updated_at = now })
          (record s { jobs = jobs }),
      r,
    )
