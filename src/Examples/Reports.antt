-- ===== src/Examples/Reports.antt =====
-- A healthy campaign, a challenged page, a failed journey, and an enrolment.
use link_suffix.Base.{
  ℕ, ◌≡◌, refl, List, [], ◌∷◌, Option, none, some, String, true, false, any, if◌then◌else◌,
}
use link_suffix.Base.{◌+◌, ◌≤◌, arith}
use link_suffix.Health.{Options, ShardInput, CampaignInput}
use link_suffix.Verdict.{block, challenge, allow, Strategy, aggregate_verdict, casts}
use link_suffix.Verdict.Precedence.{aggregate_verdict-final}
use link_suffix.Bridge.{Store}
use link_suffix.Bridge.Results.{ok, or_value}
use link_suffix.Bridge.Assign.{Enrolment, upsert_bridge_target, target_id_of}
use link_suffix.Examples.{env, fleet}

abbrev options : Options
options = record { now = 100_000; stale_after_ms = 75_000; has_active_alert = false }

abbrev shard : ShardInput
shard = record {
  enabled = true;
  registered = some true;
  campaign_count = 1;
  last_poll_ms = some 90_000;
  last_ack_at = some "2026-01-01";
  last_error = none;
}

abbrev campaign : CampaignInput
campaign = record {
  enabled = true;
  delivery_health = none;
  newest_update_state = some "current";
  latest_job_state = some "applied";
  last_error = none;
  last_applied_at = some "2026-01-01";
  account_readiness = none;
}

-- The input of these strategies is a status.
abbrev strategies : List (Strategy ℕ)
strategies =
    record { name = "http_status"; vote = λ status. some allow }
    ∷ record { name = "challenge_html"; vote = λ status. some challenge }
    ∷ record { name = "timing"; vote = λ status. none }
    ∷ []

aggregate_verdict-final_example :
    (aggregate_verdict 403 ("challenge_html" ∷ "timing" ∷ []) strategies).final ≡ (
      if any (casts 403 ("challenge_html" ∷ "timing" ∷ []) block) strategies
      then block
      else if any (casts 403 ("challenge_html" ∷ "timing" ∷ []) challenge) strategies
      then challenge
      else allow)
aggregate_verdict-final_example =
    aggregate_verdict-final 403 ("challenge_html" ∷ "timing" ∷ []) strategies

abbrev enrolment : Enrolment
enrolment = record {
  campaign_record_id = "record-c";
  campaign_name = "Campaign c";
  manager_customer_id = "111-222-3333";
  customer_id = "4445556666";
  google_campaign_id = "87654321";
  shard_id = none;
}

abbrev enrolled : Store × (String × String)
enrolled = or_value (upsert_bridge_target env enrolment 300_000 fleet) (fleet, ("", ""))

upsert_ok :
    upsert_bridge_target env enrolment 300_000 fleet
    ≡ ok (enrolled.0, (target_id_of env enrolment, "mcc-1112223333-001"))
unfolding upsert_bridge_target link_suffix.Base.Text.trim link_suffix.Base.Text.digits_only
    link_suffix.Bridge.Shards.bind_fleet_shard_manager
    link_suffix.Bridge.Shards.assert_shard_not_deleted
    link_suffix.Bridge.Names.normalize_fleet_manager_id link_suffix.Base.Text.without
    link_suffix.Base.Text.slice
upsert_ok = refl
