-- ===== src/Examples.antt =====
-- A small fleet on which the theorems are applied: one shard, two campaigns of two accounts, one of which has a
-- capture that waits for its delivery.
pub mod Routes
pub mod Selections
pub mod Alarms
pub mod Delivery
pub mod Enrollment
pub mod Pacing
pub mod Opening
pub mod Proxies
pub mod Reports
pub mod Browsers
pub mod Captures
pub mod Chains
pub mod CrossLocks
pub mod Tunnels
pub mod Workers
use Prim.Native.Nat.{Ordering}
use Prim.Native.String.{◌++◌ as append, compare}
use link_suffix.Base.{ℕ, Bool, true, false, List, [], ◌∷◌, Option, none, some, String}
use link_suffix.Bridge.{Env, Store, Target, Capture, Job, Shard, new_job}
use link_suffix.Bridge.Prepare.{Request}
use link_suffix.Bridge.Shards.{new_shard}

-- Fields without escapes, of one parameter.
abbrev pub one_field : String → List (String × String)
one_field s = (("gclid", s)) ∷ []

abbrev pub env : Env
env = record {
  digest = append "sha:";
  search_params = one_field;
  text_before = λ a b. elim (compare a b) [ Ordering.lt ↦ true | _ ↦ false ];
  max_attempts_setting = some 3;
  lease_ms_setting = none;
  min_interval_ms_setting = none;
}

abbrev pub target : String → String → Target
target id customer = record {
  target_id = id;
  campaign_record_id = append "record-" id;
  campaign_name = append "Campaign " id;
  manager_customer_id = "1112223333";
  customer_id = customer;
  google_campaign_id = "12345678";
  shard_id = "mcc-1112223333-001";
  enabled = true;
  min_delivery_interval_ms = 58_000;
  last_applied_at = none;
  last_applied_suffix_hash = none;
  archived_at = none;
  updated_at = 0;
}

abbrev pub capture : Capture
capture = record {
  capture_id = 1;
  target_id = "a";
  version = 7;
  exact_suffix = "gclid=x1";
  suffix_hash = "sha:gclid=x1";
  source_run_id = none;
  egress_identity = none;
  captured_at = 100;
}

abbrev pub fleet : Store
fleet = record {
  targets = target "a" "4445556666" ∷ target "b" "7778889999" ∷ [];
  captures = capture ∷ [];
  jobs = new_job "job-1" "a" 1 100 ∷ [];
  shards = new_shard "mcc-1112223333-001" "sha:token" 0 ∷ [];
  managers = ("mcc-1112223333-001", "1112223333") ∷ [];
  activities = [];
  audit_log = [];
  next_capture_id = 2;
}

abbrev pub request : Request
request = record {
  shard_id = "mcc-1112223333-001";
  worker_id = "worker-1";
  requested_limit = 10;
  requested_customer = "";
  hot_add = true;
}
