-- ===== src/Examples/Pacing.antt =====
-- The pauses, limits and memories at concrete requests, and the plan of a run.
use link_suffix.Base.{
  ℕ, ◌≡◌, ◌≤◌, ◌<◌, refl, ◌+◌, ◌-◌, ◌*◌, ◌/◌, List, [], ◌∷◌, Option, none, some, String, true,
  false, All, min, length, arith,
}
use link_suffix.Base.Text.{is_empty}
use link_suffix.Pacing.Backoff.{Rejection}
use link_suffix.Pacing.RateLimit.{Bucket, Config}
use link_suffix.Pacing.RateLimit.Window.{IsCounting}
use link_suffix.Pacing.RedirectCache.{Cache, new_cache, claim}
use link_suffix.Pacing.RedirectCache.Size.{IsBounded}
use link_suffix.Bridge.{Store}
use link_suffix.Bridge.Results.{or_value, ok}
use link_suffix.Bridge.Shards.{new_shard}
use link_suffix.Bridge.Window.{Schedule, schedule_of, adaptive_execution_window, Window}
use link_suffix.Bridge.Window.Plan.{IsOrdered, adaptive_execution_window-IsOrdered}
use link_suffix.Bridge.Manifest.{Options, Manifest, bridge_shard_manifest}
use link_suffix.Bridge.Manifest.Active.{Recovered, active_execution_window}
use link_suffix.Bridge.Manifest.Recovery.{IsSame, manifest-recovers}
use link_suffix.Examples.{env, fleet}

abbrev challenge : Rejection
challenge = record {
  code = "cloudflare_challenge";
  http_status = some 403;
  retry_after_ms = some 400_000;
}

abbrev two_a_second : Config
two_a_second = record { limit = 2; window_ms = 1_000 }

abbrev buckets : List Bucket
buckets = record { key = "k"; count = 1; reset_at = 1_500 } ∷ []

buckets-IsCounting : IsCounting 1_000 "k" 1 1_500 buckets
buckets-IsCounting = record { found = refl; small = omega arith }

abbrev cache : Cache
cache = (claim (new_cache none none) "shop.example" 5_000).0

empty-IsBounded : IsBounded (new_cache none none)
empty-IsBounded = record { room = omega arith; size = omega arith }

abbrev schedule : Schedule
schedule = schedule_of none none none none none none (λ ms. ms * 35 / 100)

adaptive_execution_window-IsOrdered_example :
    IsOrdered schedule (adaptive_execution_window schedule (new_shard "s" "h" 0) 9_000_000 "run-1")
adaptive_execution_window-IsOrdered_example =
    adaptive_execution_window-IsOrdered schedule (new_shard "s" "h" 0) 9_000_000 "run-1"
      (omega arith)

abbrev options : Options
options = record { invocation_id = some "run-1"; fresh = "uuid"; preview = false; adaptive = true }

abbrev window : Window
window =
    adaptive_execution_window schedule (new_shard "mcc-1112223333-001" "sha:token" 0) 9_000_000
      "run-1"

abbrev started : Store × Manifest
started =
    or_value (bridge_shard_manifest env schedule options 9_000_000 "mcc-1112223333-001" fleet) (
      fleet,
      record {
        shard_id = "";
        manager_customer_id = "";
        account_ids = [];
        campaign_count = 0;
        capacity = 0;
        execution_window = none;
      },
    )

manifest_ok :
    bridge_shard_manifest env schedule options 9_000_000 "mcc-1112223333-001" fleet
    ≡ ok (started.0, started.1)
unfolding bridge_shard_manifest link_suffix.Base.Text.trim
manifest_ok = refl

manifest_window : started.1.execution_window ≡ some window
unfolding bridge_shard_manifest link_suffix.Base.Text.trim link_suffix.Base.Text.slice
manifest_window = refl

manifest-recovers_example :
    (r : Recovered) × (active_execution_window schedule 9_100_000 "mcc-1112223333-001" started.0
      ≡ ok r)
    × IsSame window r
unfolding link_suffix.Base.Text.slice
manifest-recovers_example =
    manifest-recovers env schedule options 9_000_000 9_100_000 "mcc-1112223333-001" fleet started.0
      started.1 window refl manifest_ok manifest_window
