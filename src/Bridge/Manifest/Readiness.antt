-- ===== src/Bridge/Manifest/Readiness.antt =====
-- web/lib/script-bridge-store.ts: `bridgeTargetReadiness`, which the dashboard asks of a campaign.
use link_suffix.Base.{
  ℕ, ◌+◌, Bool, false, not, ◌&&◌, ◌||◌, Option, none, some, String, ltb, leb, length, str_eq,
  if◌then◌else◌, find?, is_some,
}
use link_suffix.Base.Text.{codes, is_empty, trim}
use link_suffix.Bridge.{Store, Target, Activity}
use link_suffix.Bridge.Results.{Result, ok, err}
use link_suffix.Bridge.Manifest.{is_activity}

pub data Readiness : Type 0 where
  not_enrolled established ready waiting_for_account_poll waiting_for_manifest : Readiness

-- `last_poll_at >= now() - freshness`
abbrev polled_since : ℕ → ℕ → Option ℕ → Bool
polled_since freshness now none = false
polled_since freshness now (some at) = leb now (at + freshness)

abbrev readiness_of : ℕ → ℕ → Target → Option Activity → Readiness
readiness_of freshness now t none =
    if is_some t.last_applied_at then established else waiting_for_manifest
readiness_of freshness now t (some a) =
    if is_some t.last_applied_at
    then established
    else if polled_since freshness now a.last_poll_at
    then ready
    else if is_some a.manifest_seen_at
    then waiting_for_account_poll
    else waiting_for_manifest

abbrev is_enrolled : String → Target → Bool
is_enrolled record_id t =
    str_eq t.campaign_record_id record_id && t.enabled && not (is_some t.archived_at)

unfoldable pub target_readiness : ℕ → ℕ → String → Store → Result Readiness
target_readiness freshness now record_id s =
    let id = trim record_id in
    if is_empty id || ltb 120 (length (codes id))
    then err "A valid saved campaign record ID is required"
    else elim (find? (is_enrolled id) s.targets) [
      | none ↦ ok not_enrolled
      | some t ↦
          ok (
            readiness_of freshness now t
              (find? (is_activity t.shard_id t.customer_id) s.activities))
    ]
