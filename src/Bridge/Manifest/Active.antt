-- ===== src/Bridge/Manifest/Active.antt =====
-- web/lib/script-bridge-store.ts: `bridgeActiveExecutionWindow`, for a script that has lost its plan.
use link_suffix.Base.{ℕ, Bool, Option, none, some, String, leb, ◌==◌, if◌then◌else◌}
use link_suffix.Base.Text.{is_empty, trim}
use link_suffix.Bridge.Window.{Schedule}
use link_suffix.Bridge.{Store, Shard, find_shard}
use link_suffix.Bridge.Results.{Result, ok, err}

-- A plan that is read back.
pub record Recovered : Type 0 where
  pub invocation_id : String
  pub started_at : Option ℕ
  pub phase_one_stop_at : ℕ
  pub hard_stop_at : ℕ
  pub next_expected_at : Option ℕ
  pub handoff_margin_ms : ℕ
  pub is_learned : Bool
  pub sample_count : ℕ
  pub anchor_at : Option ℕ
  pub should_yield : Bool

-- `Number(value || fallback)`
abbrev margin_or : Option ℕ → ℕ → ℕ
margin_or none d = d
margin_or (some n) d = if n == 0 then d else n

abbrev pub recovered : Schedule → ℕ → Shard → String → ℕ → ℕ → Recovered
recovered cfg now sh invocation stop hard = record {
  invocation_id = invocation;
  started_at = sh.last_execution_started_at;
  phase_one_stop_at = stop;
  hard_stop_at = hard;
  next_expected_at = sh.expected_next_start_at;
  handoff_margin_ms = margin_or sh.handoff_margin_ms cfg.handoff_margin_ms;
  is_learned = leb 2 sh.schedule_sample_count;
  sample_count = sh.schedule_sample_count;
  anchor_at = sh.schedule_anchor_at;
  should_yield = leb hard now;
}

abbrev window_row : Schedule → ℕ → Shard → Option String → Option ℕ → Option ℕ → Result Recovered
window_row cfg now sh (some invocation) (some stop) (some hard) =
    if is_empty invocation
    then err "Fleet shard has no recoverable execution window"
    else ok (recovered cfg now sh invocation stop hard)
window_row cfg now sh _ _ _ = err "Fleet shard has no recoverable execution window"

abbrev active_row : Schedule → ℕ → Option Shard → Result Recovered
active_row cfg now none = err "Fleet shard was not found or is disabled"
active_row cfg now (some sh) =
    if sh.enabled
    then window_row cfg now sh sh.last_invocation_id sh.phase_one_stop_at sh.hard_stop_at
    else err "Fleet shard was not found or is disabled"

unfoldable pub active_execution_window : Schedule → ℕ → String → Store → Result Recovered
active_execution_window cfg now shard_id s =
    if is_empty (trim shard_id)
    then err "shardId is required"
    else active_row cfg now (find_shard s (trim shard_id))
