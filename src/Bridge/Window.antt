-- ===== src/Bridge/Window.antt =====
-- The execution window of a script's run, from web/lib/script-bridge-store.ts: `adaptiveExecutionWindow` learns
-- the hourly schedule of a shard from the instants at which its runs start, and plans when to stop.
pub mod Plan
use link_suffix.Base.{
  ℕ, ◌+◌, ◌-◌, ◌*◌, ◌/◌, ◌%◌, Bool, true, false, not, ◌&&◌, ◌||◌, Option, none, some, String, min,
  max, ltb, leb, ◌==◌, if◌then◌else◌,
}
use link_suffix.Bridge.{or_default, Shard}
use link_suffix.Bridge.Shards.Deletion.{date_ms}

-- The settings; `share` is `Math.floor(ms * 0.35)` in floating point.
pub record Schedule : Type 0 where
  pub interval_ms : ℕ
  pub tolerance_ms : ℕ
  pub handoff_margin_ms : ℕ
  pub phase_one_max_ms : ℕ
  pub reserve_max_ms : ℕ
  pub min_useful_ms : ℕ
  pub share : ℕ → ℕ

-- The settings from what the environment gives.
abbrev pub schedule_of :
    Option ℕ → Option ℕ → Option ℕ → Option ℕ → Option ℕ → Option ℕ → (ℕ → ℕ) → Schedule
schedule_of interval tolerance margin phase_one reserve useful share = record {
  interval_ms = max 2_700_000 (or_default interval 3_600_000);
  tolerance_ms = max 60_000 (or_default tolerance 480_000);
  handoff_margin_ms = max 60_000 (or_default margin 120_000);
  phase_one_max_ms = min 1_680_000 (max 60_000 (or_default phase_one 1_680_000));
  reserve_max_ms = max 120_000 (or_default reserve 600_000);
  min_useful_ms = max 60_000 (or_default useful 180_000);
  share = share;
}

-- `schedulePhaseDistance`
unfoldable pub phase_distance : Schedule → ℕ → ℕ → ℕ
phase_distance cfg left right =
    let distance = ((left - right) + (right - left)) % cfg.interval_ms in
    min distance (cfg.interval_ms - distance)

-- `nextScheduleSlot`; an anchor in the future counts as no period.
unfoldable pub next_slot : Schedule → ℕ → ℕ → ℕ
next_slot cfg anchor now =
    if anchor == 0
    then now + cfg.interval_ms
    else anchor + max 1 ((now - anchor) / cfg.interval_ms + 1) * cfg.interval_ms

pub data Mode : Type 0 where
  learning scheduled schedule_shift off_cycle : Mode

-- What is known of the schedule.
pub record Learned : Type 0 where
  pub anchor : ℕ
  pub samples : ℕ
  pub mode : Mode

-- The cases of the schedule.
unfoldable pub learn : Schedule → ℕ → ℕ → ℕ → ℕ → Learned
learn cfg previous anchor samples started =
    if anchor == 0
    then record { anchor = started; samples = 1; mode = learning }
    else if leb (phase_distance cfg started anchor) cfg.tolerance_ms
    then record {
      anchor = started;
      samples = min 100 (samples + 1);
      mode = if leb 2 (min 100 (samples + 1)) then scheduled else learning;
    }
    else if ltb 0 previous
        && leb (previous + 2_700_000) started
        && leb (phase_distance cfg started previous) cfg.tolerance_ms
    then record { anchor = started; samples = 2; mode = schedule_shift }
    else if ltb samples 2
    then record { anchor = started; samples = 1; mode = learning }
    else record { anchor = anchor; samples = samples; mode = off_cycle }

-- The instants of the plan.
pub record Window : Type 0 where
  pub invocation_id : String
  pub started_at : ℕ
  pub phase_one_stop_at : ℕ
  pub hard_stop_at : ℕ
  pub next_expected_at : ℕ
  pub handoff_margin_ms : ℕ
  pub phase_two_reserve_ms : ℕ
  pub learned : Learned
  pub should_yield : Bool

abbrev pub next_expected : Schedule → Learned → ℕ → ℕ
next_expected cfg l started = elim l.mode [
  | off_cycle ↦ next_slot cfg l.anchor started
  | _ ↦ started + cfg.interval_ms
]

-- The plan, once the schedule is known.
unfoldable pub plan : Schedule → Learned → ℕ → String → Window
plan cfg l started invocation =
    let next = next_expected cfg l started in
    let hard_stop = max started (next - cfg.handoff_margin_ms) in
    let available = hard_stop - started in
    let reserve = min cfg.reserve_max_ms (max 120_000 (cfg.share available)) in
    let yields = ltb available cfg.min_useful_ms in
    record {
      invocation_id = invocation;
      started_at = started;
      phase_one_stop_at =
          started + (if yields then 0 else min cfg.phase_one_max_ms (available - reserve));
      hard_stop_at = hard_stop;
      next_expected_at = next;
      handoff_margin_ms = cfg.handoff_margin_ms;
      phase_two_reserve_ms = reserve;
      learned = l;
      should_yield = yields;
    }

-- `adaptiveExecutionWindow`
unfoldable pub adaptive_execution_window : Schedule → Shard → ℕ → String → Window
unfolding learn plan
adaptive_execution_window cfg sh started invocation =
    plan cfg
      (learn cfg (date_ms sh.last_execution_started_at) (date_ms sh.schedule_anchor_at)
        sh.schedule_sample_count started)
      started invocation
