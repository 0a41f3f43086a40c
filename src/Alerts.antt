-- ===== src/Alerts.antt =====
-- web/lib/health-alert-store.ts: the table of health alerts and of heartbeats. An evaluation is one transaction, at
-- the instant `now`; what it finds (the candidates and heartbeats) is its argument.
pub mod Report
pub mod Table
pub mod Found
pub mod Life
pub mod Raised
use link_suffix.Base.{
  ℕ, suc, ◌+◌, Bool, true, false, not, ◌&&◌, ◌||◌, List, [], ◌∷◌, Option, none, some, String, leb,
  ltb, ◌==◌, str_eq, if◌then◌else◌, filter, any,
}
use link_suffix.Base.Maps.{Map, get, put}
use link_suffix.Alerts.Table.{
  Severity, warning, critical, AlertStatus, observing, active, acknowledged, resolved, Facts,
  Candidate, Alert, HealthState, healthy, warned, failing, Heartbeat, AlertStore, is_critical,
  is_resolved, is_active, is_open,
}
use link_suffix.Alerts.Report.{
  Summary, count, is_acknowledged, is_observing, since, is_open_critical, is_open_warning, summary,
  report_state, reported_heartbeat,
}

abbrev replaces : Candidate → Option Candidate → Bool
replaces c none = true
replaces c (some previous) = not (is_critical previous.severity) && is_critical c.severity

-- `addCandidate`
unfoldable pub add_candidate : Candidate → Map Candidate → Map Candidate
add_candidate c target =
    if replaces c (get target c.fingerprint) then put c.fingerprint c target else target

abbrev starting_status : ℕ → AlertStatus
starting_status after = if after == 0 then active else observing

abbrev starting_opened : ℕ → ℕ → Option ℕ
starting_opened now after = if after == 0 then some now else none

-- The row that is inserted.
abbrev new_alert : ℕ → Candidate → Alert
new_alert now c = record {
  severity = c.severity;
  status = starting_status c.activation_after_ms;
  facts = c.facts;
  activation_after_ms = c.activation_after_ms;
  occurrence_count = 1;
  first_seen_at = now;
  last_seen_at = now;
  opened_at = starting_opened now c.activation_after_ms;
  acknowledged_at = none;
  acknowledged_by = none;
  resolved_at = none;
  updated_at = now;
}

-- `NOW() - first_seen_at >= make_interval(…)`
abbrev is_due : ℕ → ℕ → ℕ → Bool
is_due now first_seen after = leb (first_seen + after) now

abbrev next_status : AlertStatus → ℕ → ℕ → ℕ → AlertStatus
next_status acknowledged now first_seen after = acknowledged
next_status resolved now first_seen after = if after == 0 then active else observing
next_status observing now first_seen after =
    if is_due now first_seen after then active else observing
next_status active now first_seen after = active

abbrev next_opened : AlertStatus → ℕ → ℕ → ℕ → Option ℕ → Option ℕ
next_opened resolved now first_seen after opened = if after == 0 then some now else opened
next_opened observing now first_seen after opened =
    if is_due now first_seen after then some now else opened
next_opened _ now first_seen after opened = opened

-- The row after `ON CONFLICT (fingerprint) DO UPDATE`.
abbrev seen_again : ℕ → Candidate → Alert → Alert
seen_again now c a = record {
  severity = c.severity;
  status = next_status a.status now a.first_seen_at c.activation_after_ms;
  facts = c.facts;
  activation_after_ms = c.activation_after_ms;
  occurrence_count = if is_resolved a.status then 1 else suc a.occurrence_count;
  first_seen_at = if is_resolved a.status then now else a.first_seen_at;
  last_seen_at = now;
  opened_at = next_opened a.status now a.first_seen_at c.activation_after_ms a.opened_at;
  acknowledged_at = if is_resolved a.status then none else a.acknowledged_at;
  acknowledged_by = if is_resolved a.status then none else a.acknowledged_by;
  resolved_at = none;
  updated_at = now;
}

abbrev pub observed : ℕ → Candidate → Option Alert → Alert
observed now c none = new_alert now c
observed now c (some a) = seen_again now c a

abbrev pub observe_all : ℕ → List Candidate → Map Alert → Map Alert
observe_all now [] m = m
observe_all now (c ∷ cs) m =
    observe_all now cs (put c.fingerprint (observed now c (get m c.fingerprint)) m)

abbrev pub resolved_alert : ℕ → Alert → Alert
resolved_alert now a = record a { status = resolved; resolved_at = some now; updated_at = now }

abbrev pub is_found : List Candidate → String → Bool
is_found cs fingerprint = any (λ c. str_eq c.fingerprint fingerprint) cs

-- The alerts that nothing was found for are resolved.
abbrev pub resolve_others : ℕ → List Candidate → Map Alert → Map Alert
resolve_others now cs [] = []
resolve_others now cs ((fingerprint, a) ∷ m) =
    if is_resolved a.status || is_found cs fingerprint
    then (fingerprint, a) ∷ resolve_others now cs m
    else (fingerprint, resolved_alert now a) ∷ resolve_others now cs m

abbrev beat_all : List (String × Heartbeat) → Map Heartbeat → Map Heartbeat
beat_all [] m = m
beat_all ((id, h) ∷ hs) m = beat_all hs (put id h m)

abbrev of_campaigns : List String
of_campaigns = "campaign" ∷ "campaign-delivery" ∷ "apps-script-shard" ∷ []

abbrev is_present : List (String × Heartbeat) → String → Bool
is_present hs id = any (λ e. str_eq e.0 id) hs

-- The heartbeats of campaigns and shards that are no more.
abbrev drop_absent : List (String × Heartbeat) → Map Heartbeat → Map Heartbeat
drop_absent hs =
    filter (λ e. not (any (str_eq e.1.component_type) of_campaigns && not (is_present hs e.0)))

-- One INSERT cannot update a row twice.
abbrev has_repeated : List (String × Heartbeat) → Bool
has_repeated [] = false
has_repeated ((id, h) ∷ hs) = is_present hs id || has_repeated hs

-- `persistEvaluation`; none is an error, after which the transaction is rolled back.
unfoldable pub persist_evaluation :
    ℕ → List Candidate → List (String × Heartbeat) → AlertStore → Option AlertStore
persist_evaluation now cs hs s =
    if has_repeated hs
    then none
    else some (record {
      alerts = resolve_others now cs (observe_all now cs s.alerts);
      heartbeats = drop_absent hs (beat_all hs s.heartbeats);
    })

abbrev acknowledged_alert : ℕ → String → Alert → Alert
acknowledged_alert now actor a = record a {
  status = acknowledged;
  acknowledged_at = some now;
  acknowledged_by = some actor;
  updated_at = now;
}

abbrev pub acknowledge_found :
    ℕ → String → String → AlertStore → Option Alert → AlertStore × Option Alert
acknowledge_found now fingerprint actor s none = (s, none)
acknowledge_found now fingerprint actor s (some a) =
    if is_active a.status
    then (
      record s { alerts = put fingerprint (acknowledged_alert now actor a) s.alerts },
      some (acknowledged_alert now actor a),
    )
    else (s, none)

-- `acknowledgeHealthAlert`
unfoldable pub acknowledge_health_alert :
    ℕ → String → String → AlertStore → AlertStore × Option Alert
acknowledge_health_alert now fingerprint actor s =
    acknowledge_found now fingerprint actor s (get s.alerts fingerprint)

abbrev pub resolve_found : ℕ → String → AlertStore → Option Alert → AlertStore × Option Alert
resolve_found now fingerprint s none = (s, none)
resolve_found now fingerprint s (some a) = if is_resolved a.status then (s, none) else (
  record s { alerts = put fingerprint (resolved_alert now a) s.alerts },
  some (resolved_alert now a),
)

-- `resolveHealthAlert`
unfoldable pub resolve_health_alert : ℕ → String → AlertStore → AlertStore × Option Alert
resolve_health_alert now fingerprint s = resolve_found now fingerprint s (get s.alerts fingerprint)
