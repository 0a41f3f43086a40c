-- ===== src/Examples/Enrollment.antt =====
-- Shards and targets of the small fleet: registered, bound, deleted and resumed.
use link_suffix.Base.{
  option_map, ℕ, ◌≡◌, ◌⊎◌, refl, List, [], ◌∷◌, Option, none, some, String, true, false, All, Bool,
  not, ◌&&◌, str_eq, any,
}
use link_suffix.Base.Text.{is_empty}
use link_suffix.Bridge.{update_shard, find_shard, Store, Target, find_shard, find_target}
use link_suffix.Bridge.Results.{ok, or_value}
use link_suffix.Bridge.Names.{normalize_fleet_shard_id, normalize_fleet_manager_id}
use link_suffix.Bridge.Shards.{
  register_bridge_shard, authenticate_bridge_shard, bind_fleet_shard_manager, named_managers,
  is_deleted,
}
use link_suffix.Bridge.Shards.Deletion.{delete_bridge_shard}
use link_suffix.Bridge.Shards.Tokens.{credentials, register-authenticates}
use link_suffix.Bridge.Shards.Retired.{IsRetired, delete-IsDeletion}
use link_suffix.Bridge.Shards.Managers.{bind-Agrees}
use link_suffix.Bridge.Targets.{enable_target, delete_bridge_target}
use link_suffix.Examples.{env, fleet, target}

abbrev token : String
token = "0123456789abcdefghijklmn"

abbrev registered : Store × (String × String)
registered =
    or_value (register_bridge_shard env 500 "mcc-9" token "999-888-7777" fleet) (fleet, ("", ""))

register_ok :
    register_bridge_shard env 500 "mcc-9" token "999-888-7777" fleet
    ≡ ok (registered.0, ("mcc-9", "9998887777"))
unfolding register_bridge_shard normalize_fleet_shard_id link_suffix.Base.Text.trim
    normalize_fleet_manager_id link_suffix.Base.Text.without
    link_suffix.Bridge.Shards.assert_shard_not_deleted
register_ok = refl

-- The shard has polled since.
abbrev polled : Store
polled =
    update_shard "mcc-9" (λ sh. record sh { last_poll_at = some 700; updated_at = 700 })
      registered.0

same_credentials :
    option_map credentials (find_shard polled "mcc-9")
    ≡ option_map credentials (find_shard registered.0 "mcc-9")
unfolding register_bridge_shard normalize_fleet_shard_id link_suffix.Base.Text.trim
    normalize_fleet_manager_id link_suffix.Base.Text.without
    link_suffix.Bridge.Shards.assert_shard_not_deleted
same_credentials = refl

register-authenticates_example :
    (authenticate_bridge_shard env polled "mcc-9" token ≡ true)
    × (authenticate_bridge_shard env polled "mcc-9" "guess"
        ≡ (not (is_empty "guess") && str_eq (env.digest token) (env.digest "guess")))
register-authenticates_example =
    register-authenticates env 500 fleet registered.0 polled "mcc-9" token "999-888-7777" "mcc-9"
      "9998887777" "guess" register_ok same_credentials

abbrev gone : Store
gone =
    (or_value (delete_bridge_shard env 900 "random" "mcc-9" "mcc-9" registered.0) (fleet, true)).0

delete_ok : delete_bridge_shard env 900 "random" "mcc-9" "mcc-9" registered.0 ≡ ok (gone, false)
unfolding delete_bridge_shard register_bridge_shard normalize_fleet_shard_id
    link_suffix.Base.Text.trim normalize_fleet_manager_id link_suffix.Base.Text.without
    link_suffix.Bridge.Shards.assert_shard_not_deleted
delete_ok = refl

gone-IsRetired : IsRetired gone "mcc-9"
gone-IsRetired =
    (delete-IsDeletion env 900 "random" "mcc-9" "mcc-9" registered.0 gone delete_ok).retired

abbrev bound : Store × String
bound = or_value (bind_fleet_shard_manager fleet "mcc-1112223333-001" "1112223333") (fleet, "")

bind_ok :
    bind_fleet_shard_manager fleet "mcc-1112223333-001" "1112223333" ≡ ok (bound.0, "1112223333")
unfolding bind_fleet_shard_manager link_suffix.Bridge.Shards.assert_shard_not_deleted
    normalize_fleet_manager_id link_suffix.Base.Text.trim link_suffix.Base.Text.without
bind_ok = refl

bind-Agrees_example :
    All
      (λ x. (is_empty x ≡ true) ⊎ (normalize_fleet_manager_id x ≡ ok "1112223333"))
      (named_managers fleet "mcc-1112223333-001")
    × ((is_empty "1112223333" ≡ true) ⊎ ◌≡◌ {A = String} "1112223333" "1112223333")
    × ((any (λ b. str_eq b.0 "mcc-1112223333-001") fleet.managers ≡ false)
        ⊎ (bound.0.managers ≡ fleet.managers))
bind-Agrees_example =
    bind-Agrees fleet bound.0 "mcc-1112223333-001" "1112223333" "1112223333" bind_ok

abbrev resumed : Store
resumed = or_value (enable_target "record-a" 700 fleet) fleet

enable_ok : enable_target "record-a" 700 fleet ≡ ok resumed
unfolding enable_target normalize_fleet_manager_id link_suffix.Base.Text.trim
    link_suffix.Base.Text.without bind_fleet_shard_manager
    link_suffix.Bridge.Shards.assert_shard_not_deleted
enable_ok = refl

abbrev emptied : Store × Option Target
emptied = or_value (delete_bridge_target "" "record-a" fleet) (fleet, none)

erase_ok : delete_bridge_target "" "record-a" fleet ≡ ok (emptied.0, some (target "a" "4445556666"))
unfolding delete_bridge_target link_suffix.Base.Text.trim
erase_ok = refl
