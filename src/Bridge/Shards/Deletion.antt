-- ===== src/Bridge/Shards/Deletion.antt =====
-- web/lib/script-bridge-store.ts: a shard is deleted, which revokes its token.
use link_suffix.Base.{
  ℕ, ◌+◌, ◌*◌, Bool, true, false, not, ◌&&◌, ◌||◌, ◌∷◌, Option, none, some, String, ltb, leb, ◌==◌,
  str_eq, if◌then◌else◌, any, is_some, get_or, holds_text,
}
use link_suffix.Bridge.Names.{normalize_fleet_shard_id}
use link_suffix.Bridge.{Store, Shard, Job, Env, is_leased, update_shard, find_shard, find_target}
use link_suffix.Bridge.Results.{Result, ok, err, ◌>>=◌, ◌>>◌, guard}
use link_suffix.Bridge.Shards.{is_assigned}

-- `dateMs`
abbrev pub date_ms : Option ℕ → ℕ
date_ms o = get_or o 0

abbrev not_before : Option ℕ → ℕ → Bool
not_before none now = true
not_before (some t) now = leb now t

-- Whose lease a job is: the shard that took it, or else the shard of its target. The join drops a job
-- without a target.
abbrev is_lease_of : Store → String → Job → Bool
is_lease_of s id j = elim (find_target s j.target_id) [
  | none ↦ false
  | some t ↦ elim j.lease_shard_id [ none ↦ str_eq t.shard_id id | some l ↦ str_eq l id ]
]

abbrev pub blocks_delete : Store → ℕ → String → Job → Bool
blocks_delete s now id j = is_leased j.state && not_before j.leased_until now && is_lease_of s id j

abbrev pub is_terminal : Option String → Bool
is_terminal o =
    holds_text o "completed"
    || holds_text o "yielded"
    || holds_text o "empty"
    || holds_text o "failed"

-- The grace of 65 minutes.
abbrev grace_ms : ℕ
grace_ms = 65 * 60_000

-- `a || b` on numbers.
abbrev nonzero_or : ℕ → ℕ → ℕ
nonzero_or a b = if a == 0 then b else a

abbrev active_until : Shard → ℕ
active_until sh =
    let started = date_ms sh.last_execution_started_at in
    let polled = date_ms sh.last_poll_at in
    if started == 0
    then (if polled == 0 then 0 else polled + grace_ms)
    else nonzero_or (date_ms sh.hard_stop_at) (started + grace_ms)

abbrev is_running : Shard → ℕ → Bool
is_running sh now =
    let started = date_ms sh.last_execution_started_at in
    (started == 0
      || (not (is_terminal sh.last_execution_status)
          && ltb (date_ms sh.last_execution_completed_at) started))
    && ltb now (active_until sh)

-- The two writes of a deletion.
abbrev pub retire : Env → ℕ → String → String → Store → Store
retire env now fresh id s =
    record (update_shard id
      (λ sh. record sh {
        enabled = false;
        deleted_at = some now;
        token_hash = env.digest fresh;
        updated_at = now;
      })
      s) { audit_log = ("fleet.shard.deleted", id) ∷ s.audit_log }

-- The checks of a deletion, on the shard's row; the outcome says whether the shard was deleted already.
abbrev pub delete_row : Env → ℕ → String → String → Store → Option Shard → Result (Store × Bool)
delete_row env now fresh id s none = err "Registered shard was not found."
delete_row env now fresh id s (some sh) =
    if is_some sh.deleted_at
    then ok (s, true)
    else if any (is_assigned id) s.targets
    then err
        "Move or remove all campaigns from this shard, including paused campaigns, before deleting it."
    else if any (blocks_delete s now id) s.jobs
    then err
        "This shard still has an active delivery lease. Wait for delivery to settle before deleting it."
    else if is_running sh now
    then err
        "Stop this shard's Google Ads script and wait for its current execution window to finish before deleting it."
    else ok (retire env now fresh id s, false)

unfoldable pub delete_bridge_shard :
    Env → ℕ → String → String → String → Store → Result (Store × Bool)
delete_bridge_shard env now fresh shard_id confirmed s = do
  id ← normalize_fleet_shard_id shard_id
  guard (str_eq confirmed id) "Exact shard-name confirmation is required."
  delete_row env now fresh id s (find_shard s id)
