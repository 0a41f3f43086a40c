-- ===== src/Bridge/Targets.antt =====
-- The enrolment of campaigns in web/lib/script-bridge-store.ts, as far as it touches jobs: a target that is
-- resumed (`setBridgeTargetEnabled(record_id, true)`) and one that is deleted (`deleteBridgeTarget`) with the
-- captures and the jobs that refer to it.
pub mod Valid
use link_suffix.Base.{
  ℕ, Bool, true, false, not, ◌&&◌, ◌||◌, ◌∷◌, Option, none, some, String, leb, ◌==◌, length, str_eq,
  if◌then◌else◌, filter, find?, is_some,
}
use link_suffix.Base.Text.{codes, all_codes, is_digit, is_empty, trim, lower}
use link_suffix.Bridge.Names.{normalize_fleet_manager_id}
use link_suffix.Bridge.Shards.{bind_fleet_shard_manager}
use link_suffix.Bridge.{Store, Target, Capture, Job, update_where}
use link_suffix.Bridge.Results.{Result, ok, err, ◌>>=◌, ◌>>◌, guard}

abbrev pub is_active_record : String → Target → Bool
is_active_record id t = str_eq t.campaign_record_id id && not (is_some t.archived_at)

-- The row of a campaign that is not archived is enabled, once its shard is bound to its manager.
abbrev pub enable_row : String → ℕ → Store → Option Target → Result Store
enable_row record_id now s none = err "Campaign target was not found"
enable_row record_id now s (some t) = do
  manager ← normalize_fleet_manager_id t.manager_customer_id
  (s', m) ← bind_fleet_shard_manager s t.shard_id manager
  ok (record s' {
    targets =
        update_where (is_active_record record_id)
          (λ x. record x { enabled = true; updated_at = now }) s'.targets;
  })

unfoldable pub enable_target : String → ℕ → Store → Result Store
enable_target record_id now s =
    enable_row record_id now s (find? (is_active_record record_id) s.targets)

-- `[a-f0-9]` under the flag `i`.
abbrev is_hex : ℕ → Bool
is_hex c = is_digit c || (leb b'a' (lower c) && leb (lower c) b'f')

-- `/^[a-f0-9]{40}$/i`
abbrev pub is_target_id : String → Bool
is_target_id s = all_codes is_hex (codes s) && length (codes s) == 40

-- The row by its identifier, or else by its campaign's record.
abbrev pub selected : String → String → Target → Bool
selected id record_id t =
    if is_empty id then str_eq t.campaign_record_id record_id else str_eq t.target_id id

-- A deleted row takes along the rows that refer to it (`ON DELETE CASCADE`).
abbrev pub delete_cascade : String → Store → Store
delete_cascade id s = record s {
  targets = filter (λ t. not (str_eq t.target_id id)) s.targets;
  captures = filter (λ c. not (str_eq c.target_id id)) s.captures;
  jobs = filter (λ j. not (str_eq j.target_id id)) s.jobs;
}

abbrev pub delete_found : Store → Option Target → Store × Option Target
delete_found s none = (s, none)
delete_found s (some t) =
    let audited = record s { audit_log = ("fleet.target.deleted", t.target_id) ∷ s.audit_log } in
    (delete_cascade t.target_id audited, some t)

unfoldable pub delete_bridge_target : String → String → Store → Result (Store × Option Target)
delete_bridge_target target_id campaign_record_id s = do
  let id = trim target_id
  let record_id = trim campaign_record_id
  guard (is_empty id || is_target_id id) "A valid Fleet target ID is required"
  guard (not (is_empty id && is_empty record_id))
      "A Fleet target ID or saved campaign record ID is required"
  guard (leb (length (codes record_id)) 120) "Invalid saved campaign record ID"
  ok (delete_found s (find? (selected id record_id) s.targets))
