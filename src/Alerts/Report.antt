-- ===== src/Alerts/Report.antt =====
-- web/lib/health-alert-store.ts: what `listHealthAlerts` reports.
use link_suffix.Base.{
  ℕ, suc, ◌+◌, Bool, true, false, not, ◌&&◌, [], ◌∷◌, Option, none, some, leb, ltb, if◌then◌else◌,
}
use link_suffix.Base.Maps.{Map}
use link_suffix.Alerts.Table.{
  AlertStatus, observing, acknowledged, Alert, HealthState, healthy, warned, failing, Heartbeat,
  AlertStore, is_critical, is_resolved, is_open,
}

-- The summary of a report.
pub record Summary : Type 0 where
  pub open_alerts : ℕ
  pub critical_alerts : ℕ
  pub warning_alerts : ℕ
  pub acknowledged_alerts : ℕ
  pub observing_alerts : ℕ
  pub resolved_24h : ℕ

abbrev pub count : (Alert → Bool) → Map Alert → ℕ
count p [] = 0
count p ((k, a) ∷ m) = if p a then suc (count p m) else count p m

abbrev pub is_acknowledged : AlertStatus → Bool
is_acknowledged acknowledged = true
is_acknowledged _ = false

abbrev pub is_observing : AlertStatus → Bool
is_observing observing = true
is_observing _ = false

abbrev pub since : ℕ → Option ℕ → Bool
since at none = false
since at (some t) = leb at (t + 86_400_000)

abbrev pub is_open_critical : Alert → Bool
is_open_critical a = is_critical a.severity && is_open a.status

abbrev pub is_open_warning : Alert → Bool
is_open_warning a = not (is_critical a.severity) && is_open a.status

-- The first query of `listHealthAlerts`.
unfoldable pub summary : ℕ → AlertStore → Summary
summary now s = record {
  open_alerts = count (λ a. is_open a.status) s.alerts;
  critical_alerts = count is_open_critical s.alerts;
  warning_alerts = count is_open_warning s.alerts;
  acknowledged_alerts = count (λ a. is_acknowledged a.status) s.alerts;
  observing_alerts = count (λ a. is_observing a.status) s.alerts;
  resolved_24h = count (λ a. is_resolved a.status && since now a.resolved_at) s.alerts;
}

-- The state of a report.
unfoldable pub report_state : Summary → HealthState
report_state c =
    if ltb 0 c.critical_alerts then failing else if ltb 0 c.warning_alerts then warned else healthy

-- A heartbeat as it is reported: one that is a minute old is critical.
unfoldable pub reported_heartbeat : ℕ → Heartbeat → Heartbeat × Bool
reported_heartbeat now h =
    if ltb (h.last_seen_at + 60_000) now
    then (
      record h {
        state = failing;
        message = "Heartbeat has not advanced for more than 60 seconds.";
      },
      true,
    )
    else (h, false)
