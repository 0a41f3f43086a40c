-- ===== src/Health.antt =====
-- web/lib/fleet-health.ts: how the dashboard labels shards and campaigns. A shard that is not known is `none`, and
-- so is a text that is missing.
pub mod Honest
use link_suffix.Base.{
  ℕ, ◌-◌, Bool, true, false, not, ◌&&◌, ◌||◌, Option, none, some, String, ltb, if◌then◌else◌,
  is_some, holds_text,
}
use link_suffix.Base.Text.{is_empty}

pub data Tone : Type 0 where
  healthy attention paused waiting active : Tone

pub record FleetHealth : Type 0 where
  pub label : String
  pub tone : Tone

-- FleetShardHealthInput; `last_poll_ms` is none where the date does not parse.
pub record ShardInput : Type 0 where
  pub enabled : Bool
  pub registered : Option Bool
  pub campaign_count : ℕ
  pub last_poll_ms : Option ℕ
  pub last_ack_at : Option String
  pub last_error : Option String

-- FleetCampaignHealthInput
pub record CampaignInput : Type 0 where
  pub enabled : Bool
  pub delivery_health : Option String
  pub newest_update_state : Option String
  pub latest_job_state : Option String
  pub last_error : Option String
  pub last_applied_at : Option String
  pub account_readiness : Option String

pub record Options : Type 0 where
  pub now : ℕ
  pub stale_after_ms : ℕ
  pub has_active_alert : Bool

pub data Connection : Type 0 where
  missing stopped unseen stale connected : Connection

-- `registered === false`
abbrev is_unregistered : Option Bool → Bool
is_unregistered none = false
is_unregistered (some b) = not b

-- A text that JavaScript takes for true.
abbrev is_given : Option String → Bool
is_given none = false
is_given (some s) = not (is_empty s)

abbrev poll_connection : Options → Option ℕ → Connection
poll_connection o none = unseen
poll_connection o (some at) = if ltb o.stale_after_ms (o.now - at) then stale else connected

-- `workerConnection`
unfoldable pub worker_connection : Options → Option ShardInput → Connection
worker_connection o none = missing
worker_connection o (some sh) =
    if is_unregistered sh.registered
    then missing
    else if not sh.enabled
    then stopped
    else poll_connection o sh.last_poll_ms

abbrev labelled : String → Tone → FleetHealth
labelled text t = record { label = text; tone = t }

abbrev connected_shard : Options → Option ShardInput → FleetHealth
connected_shard o none =
    if o.has_active_alert then labelled "Attention" attention else labelled "Healthy" healthy
connected_shard o (some sh) =
    if o.has_active_alert || is_given sh.last_error
    then labelled "Attention" attention
    else if ltb 0 sh.campaign_count && not (is_given sh.last_ack_at)
    then labelled "Polling - no verified delivery" active
    else labelled "Healthy" healthy

-- `getShardHealth`
unfoldable pub shard_health : Options → Option ShardInput → FleetHealth
shard_health o sh = elim (worker_connection o sh) [
  | missing ↦ labelled "No worker" attention
  | stopped ↦ labelled "Paused" paused
  | unseen ↦ labelled "Awaiting first run" waiting
  | stale ↦ labelled "Worker stale" attention
  | connected ↦ connected_shard o sh
]

-- The label of a campaign whose worker is connected.
abbrev pub delivery_label : CampaignInput → FleetHealth
delivery_label c =
    if holds_text c.newest_update_state "delayed"
    then labelled "Delivery delayed" attention
    else if holds_text c.latest_job_state "dead" || holds_text c.latest_job_state "failed"
    then labelled "Delivery failed" attention
    else if holds_text c.newest_update_state "retrying"
    then labelled "Delivery retrying" attention
    else if holds_text c.delivery_health "attention" || is_given c.last_error
    then labelled "Attention" attention
    else if holds_text c.delivery_health "healthy"
    then labelled "Healthy" healthy
    else if not (is_given c.last_applied_at)
        && holds_text c.account_readiness "waiting_for_manifest"
    then labelled "Waiting for worker manifest" waiting
    else if not (is_given c.last_applied_at)
        && holds_text c.account_readiness "waiting_for_account_poll"
    then labelled "Waiting for account worker" waiting
    else if holds_text c.latest_job_state "leased"
    then labelled "Delivering" active
    else if holds_text c.latest_job_state "pending"
    then labelled "Waiting" waiting
    else if holds_text c.latest_job_state "applied"
    then labelled "Verified" healthy
    else labelled "Enrolled" waiting

-- `getCampaignHealth`
unfoldable pub campaign_health : Options → CampaignInput → Option ShardInput → FleetHealth
campaign_health o c sh =
    if not c.enabled then labelled "Paused" paused else elim (worker_connection o sh) [
      | missing ↦ labelled "No shard worker" attention
      | stopped ↦ labelled "Shard paused" paused
      | unseen ↦ labelled "Awaiting first worker run" waiting
      | stale ↦ labelled "Worker unavailable" attention
      | connected ↦ delivery_label c
    ]
