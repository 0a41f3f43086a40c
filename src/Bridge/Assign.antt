-- ===== src/Bridge/Assign.antt =====
-- `upsertBridgeTarget` of web/lib/script-bridge-store.ts: a campaign is enrolled and assigned to a shard that has
-- room, of its own manager.
pub mod Enrolled
use Prim.Native.String.{String, ◌++◌ as append}
use link_suffix.Base.{
  ℕ, zero, suc, ◌+◌, ◌-◌, ◌*◌, ◌/◌, ◌%◌, Bool, true, false, not, ◌&&◌, ◌||◌, List, [], ◌∷◌, ◌++◌,
  map, Option, none, some, max, ltb, leb, ◌==◌, length, str_eq, if◌then◌else◌, filter, find?, any,
  head?, is_some, get_or,
}
use link_suffix.Base.Sorting.{sort}
use link_suffix.Base.Text.{
  codes, all_codes, is_digit, is_empty, trim, slice, starts_with, digits_only, or_else,
}
use link_suffix.Bridge.Names.{is_shard_name, is_manager_id}
use link_suffix.Bridge.Shards.{is_deleted, bind_fleet_shard_manager}
use link_suffix.Bridge.{
  Store, Target, Shard, Env, shard_capacity, min_interval_ms, find_shard, update_where,
}
use link_suffix.Bridge.Results.{Result, ok, err, ◌>>=◌, ◌>>◌, guard}
use link_suffix.Bridge.Rooms.{shard_prefix, occupants, check_occupants, other_shard}

-- BridgeTargetInput
pub record Enrolment : Type 0 where
  pub campaign_record_id : String
  pub campaign_name : String
  pub manager_customer_id : String
  pub customer_id : String
  pub google_campaign_id : String
  pub shard_id : Option String

-- `targetId`
pub target_id_of : Env → Enrolment → String
target_id_of env i = slice 40 (
    env.digest (
      append (digits_only i.manager_customer_id) (
        append ":"
          (append (digits_only i.customer_id) (append ":" (digits_only i.google_campaign_id))))))

-- What the input must be, with the requested shard.
abbrev pub is_campaign_id : String → Bool
is_campaign_id s =
    all_codes is_digit (codes s) && leb 8 (length (codes s)) && leb (length (codes s)) 20

abbrev pub requested_shard : Enrolment → String
requested_shard i = trim (or_else (get_or i.shard_id "") "default")

pub check_enrolment : Enrolment → Result (Unit {0})
check_enrolment i = do
  let manager = digits_only i.manager_customer_id
  let customer = digits_only i.customer_id
  let campaign = digits_only i.google_campaign_id
  guard (not (is_empty (trim i.campaign_record_id))) "Saved campaign record ID is required"
  guard (not (is_empty customer) && not (is_empty campaign))
      "Customer ID and Google Ads campaign ID are required"
  guard (is_manager_id manager) "A valid 10-digit Google Ads MCC ID is required for Fleet delivery"
  guard (is_manager_id customer) "A valid 10-digit Google Ads customer ID is required"
  guard (is_campaign_id campaign) "A valid Google Ads campaign ID is required"
  guard (is_shard_name (requested_shard i)) "Invalid Fleet shard ID"

-- The unique columns manager, customer and campaign, of another row.
abbrev is_same_campaign : String → String → String → String → Target → Bool
is_same_campaign id manager customer campaign t =
    not (str_eq t.target_id id)
    && str_eq t.manager_customer_id manager
    && str_eq t.customer_id customer
    && str_eq t.google_campaign_id campaign

abbrev owned_by_other : String → Option Target → Bool
owned_by_other record_id none = false
owned_by_other record_id (some t) =
    not (str_eq t.campaign_record_id record_id) && t.enabled && not (is_some t.archived_at)

abbrev enrolled_elsewhere : String → Option Target → Bool
enrolled_elsewhere id none = false
enrolled_elsewhere id (some t) = not (str_eq t.target_id id)

-- The row as it is saved.
abbrev pub enrolled : Env → Enrolment → String → ℕ → Target → Target
enrolled env i shard_id now t = record t {
  campaign_record_id = i.campaign_record_id;
  campaign_name = i.campaign_name;
  manager_customer_id = digits_only i.manager_customer_id;
  customer_id = digits_only i.customer_id;
  google_campaign_id = digits_only i.google_campaign_id;
  shard_id = shard_id;
  min_delivery_interval_ms = min_interval_ms env;
  enabled = true;
  archived_at = none;
  updated_at = now;
}

abbrev blank_target : String → ℕ → Target
blank_target id now = record {
  target_id = id;
  campaign_record_id = "";
  campaign_name = "";
  manager_customer_id = "";
  customer_id = "";
  google_campaign_id = "";
  shard_id = "";
  enabled = true;
  min_delivery_interval_ms = 0;
  last_applied_at = none;
  last_applied_suffix_hash = none;
  archived_at = none;
  updated_at = now;
}

-- The update of the target's row, or its insertion.
abbrev pub save_row : Env → Enrolment → String → String → ℕ → Store → Option Target → Store
save_row env i id shard_id now s none = record s {
  targets = enrolled env i shard_id now (blank_target id now) ∷ s.targets;
}
save_row env i id shard_id now s (some owner) = record s {
  targets = update_where (λ t. str_eq t.target_id id) (enrolled env i shard_id now) s.targets;
}

-- The last statements: the conflicts, and the row.
pub save_target : Env → Enrolment → String → String → ℕ → Store → Result Store
save_target env i id shard_id now s =
    let owner = find? (λ t. str_eq t.target_id id) s.targets in
    let holder = find? (λ t. str_eq t.campaign_record_id i.campaign_record_id) s.targets in
    let manager = digits_only i.manager_customer_id in
    if owned_by_other i.campaign_record_id owner
    then err "Another saved campaign already owns this Google Ads target"
    else if enrolled_elsewhere id holder
    then err
        "This saved campaign is already assigned to a different Google Ads target; remove it from Fleet first"
    else if any
        (is_same_campaign id manager (digits_only i.customer_id) (digits_only i.google_campaign_id))
        s.targets
    then err "Another saved campaign already owns this Google Ads target"
    else ok (save_row env i id shard_id now s owner)

-- The shard that is asked for, or the manager's first one.
abbrev pub first_choice : Enrolment → String
first_choice i =
    if str_eq (requested_shard i) "default"
    then append (shard_prefix (digits_only i.manager_customer_id)) "001"
    else requested_shard i

-- The first choice is bound unless it is deleted and was not asked for.
abbrev bind_choice : Enrolment → Store → Bool → Result Store
bind_choice i s retired =
    let bound = bind_fleet_shard_manager s (first_choice i) (digits_only i.manager_customer_id) in
    if not (str_eq (requested_shard i) "default") || not retired
    then (bound >>= λ b. ok b.0)
    else ok s

unfoldable pub upsert_bridge_target :
    Env → Enrolment → ℕ → Store → Result (Store × (String × String))
unfolding check_enrolment target_id_of check_occupants other_shard save_target
upsert_bridge_target env i now s = do
  check_enrolment i
  let manager = digits_only i.manager_customer_id
  let choice = first_choice i
  let retired = is_deleted (find_shard s choice)
  s₁ ← bind_choice i s retired
  let others = occupants s₁ choice i.campaign_record_id
  check_occupants others manager
  let assigned =
      if leb shard_capacity (length others) || retired
      then other_shard env s₁ manager i.campaign_record_id
      else choice
  (s₂, m) ← bind_fleet_shard_manager s₁ assigned manager
  s₃ ← save_target env i (target_id_of env i) assigned now s₂
  ok (s₃, (target_id_of env i, assigned))
