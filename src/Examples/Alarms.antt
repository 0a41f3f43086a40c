-- ===== src/Examples/Alarms.antt =====
-- A shard that stops polling: observed at first, raised a minute later, then acknowledged.
use link_suffix.Base.{ℕ, ◌≡◌, refl, true, [], ◌∷◌, none, some}
use link_suffix.Base.Maps.{get, put}
use link_suffix.Alerts.{observe_all, resolve_others, persist_evaluation, acknowledge_health_alert}
use link_suffix.Alerts.Table.{Candidate, Alert, AlertStore, Facts, critical, acknowledged, active}
use link_suffix.Alerts.Found.{is_unresolved, persist-open}
use link_suffix.Alerts.Life.{IsSound, Reach, begin, later, evaluates, acknowledges, Reach-IsSound}
use link_suffix.Alerts.Raised.{MayActivate, persist-raises}

abbrev facts : Facts
facts = record {
  component = "apps-script-shard";
  scope = "shard";
  code = "poll-stale";
  title = "Shard does not poll";
  message = "";
  remediation = "";
  campaign_record_id = none;
  shard_id = some "mcc-1112223333-001";
  details = "{}";
}

abbrev silent_shard : Candidate
silent_shard = record {
  fingerprint = "shard:poll";
  severity = critical;
  facts = facts;
  activation_after_ms = 60_000;
}

abbrev empty_store : AlertStore
empty_store = record { alerts = []; heartbeats = [] }

abbrev evaluated : ℕ → AlertStore → AlertStore
evaluated now s = record {
  alerts = resolve_others now (silent_shard ∷ []) (observe_all now (silent_shard ∷ []) s.alerts);
  heartbeats = [];
}

abbrev observing_store : AlertStore
observing_store = evaluated 0 empty_store

abbrev raised_store : AlertStore
raised_store = evaluated 60_000 observing_store

abbrev answered_store : AlertStore
answered_store = (acknowledge_health_alert 61_000 "shard:poll" "operator" raised_store).0

first_saved : persist_evaluation 0 (silent_shard ∷ []) [] empty_store ≡ some observing_store
unfolding persist_evaluation
first_saved = refl

second_saved : persist_evaluation 60_000 (silent_shard ∷ []) [] observing_store ≡ some raised_store
unfolding persist_evaluation
second_saved = refl

persist-open_example : is_unresolved (get raised_store.alerts "shard:poll") ≡ true
persist-open_example =
    persist-open 60_000 (silent_shard ∷ []) [] observing_store raised_store "shard:poll"
      second_saved

abbrev raised : Alert
raised = record {
  severity = critical;
  status = active;
  facts = facts;
  activation_after_ms = 60_000;
  occurrence_count = 2;
  first_seen_at = 0;
  last_seen_at = 60_000;
  opened_at = some 60_000;
  acknowledged_at = none;
  acknowledged_by = none;
  resolved_at = none;
  updated_at = 60_000;
}

raised-there : get raised_store.alerts "shard:poll" ≡ some raised
unfolding get put
raised-there = refl

persist-raises_example : MayActivate 60_000 silent_shard (get observing_store.alerts "shard:poll")
persist-raises_example =
    persist-raises 60_000 (silent_shard ∷ []) [] observing_store raised_store "shard:poll"
      silent_shard raised (tt, tt) refl second_saved raised-there refl

answered-Reach : Reach answered_store
answered-Reach =
    later
      (later (later begin (evaluates 0 (silent_shard ∷ []) [] first_saved))
        (evaluates 60_000 (silent_shard ∷ []) [] second_saved))
      (acknowledges 61_000 "shard:poll" "operator")

abbrev answered : Alert
answered = record raised {
  status = acknowledged;
  acknowledged_at = some 61_000;
  acknowledged_by = some "operator";
  updated_at = 61_000;
}

answered-there : get answered_store.alerts "shard:poll" ≡ some answered
unfolding get put acknowledge_health_alert
answered-there = refl

Reach-IsSound_example : IsSound answered
Reach-IsSound_example = Reach-IsSound answered-Reach "shard:poll" answered answered-there

third_saved :
    persist_evaluation 70_000 (silent_shard ∷ []) [] answered_store
    ≡ some (evaluated 70_000 answered_store)
unfolding persist_evaluation acknowledge_health_alert get put
third_saved = refl
