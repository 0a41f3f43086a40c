-- ===== src/Alerts/Table.antt =====
-- web/lib/health-alert-store.ts: the rows of the tables of alerts and of heartbeats.
use link_suffix.Base.{ℕ, Bool, true, false, Option, String}
use link_suffix.Base.Maps.{Map}

pub data Severity : Type 0 where
  warning critical : Severity

pub data AlertStatus : Type 0 where
  observing active acknowledged resolved : AlertStatus

-- What an alert says.
pub record Facts : Type 0 where
  pub component : String
  pub scope : String
  pub code : String
  pub title : String
  pub message : String
  pub remediation : String
  pub campaign_record_id : Option String
  pub shard_id : Option String
  pub details : String

-- AlertCandidate
pub record Candidate : Type 0 where
  pub fingerprint : String
  pub severity : Severity
  pub facts : Facts
  pub activation_after_ms : ℕ

-- A row of tah_health_alerts, under its fingerprint.
pub record Alert : Type 0 where
  pub severity : Severity
  pub status : AlertStatus
  pub facts : Facts
  pub activation_after_ms : ℕ
  pub occurrence_count : ℕ
  pub first_seen_at : ℕ
  pub last_seen_at : ℕ
  pub opened_at : Option ℕ
  pub acknowledged_at : Option ℕ
  pub acknowledged_by : Option String
  pub resolved_at : Option ℕ
  pub updated_at : ℕ

pub data HealthState : Type 0 where
  healthy warned failing : HealthState

-- A row of tah_component_heartbeats, under its component id.
pub record Heartbeat : Type 0 where
  pub component_type : String
  pub state : HealthState
  pub message : String
  pub latency_ms : Option ℕ
  pub details : String
  pub last_seen_at : ℕ

pub record AlertStore : Type 0 where
  pub alerts : Map Alert
  pub heartbeats : Map Heartbeat

abbrev pub is_critical : Severity → Bool
is_critical critical = true
is_critical warning = false

abbrev pub is_resolved : AlertStatus → Bool
is_resolved resolved = true
is_resolved _ = false

abbrev pub is_active : AlertStatus → Bool
is_active active = true
is_active _ = false

-- In both states an alert counts as open.
abbrev pub is_open : AlertStatus → Bool
is_open active = true
is_open acknowledged = true
is_open _ = false
