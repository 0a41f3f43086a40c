-- ===== src/Bridge/Shards.antt =====
-- The shards of web/lib/script-bridge-store.ts: a shard is bound to one manager, registered with a token,
-- authenticated by it and retired; and the end of a script's run is recorded. `fresh` is the random token
-- that a deleted shard gets.
pub mod Completion
pub mod Deletion
pub mod Tokens
pub mod Managers
pub mod Retired
use link_suffix.Base.{
  ℕ, ◌+◌, ◌*◌, Bool, true, false, not, ◌&&◌, ◌||◌, List, [], ◌∷◌, ◌++◌, map, Option, none, some,
  String, ltb, leb, ◌==◌, length, head?, str_eq, if◌then◌else◌, filter, any, is_some, get_or,
  holds_text,
}
use link_suffix.Base.Text.{codes, is_empty}
use link_suffix.Bridge.Names.{normalize_fleet_shard_id, normalize_fleet_manager_id}
use link_suffix.Bridge.{
  Store, Target, Shard, Job, Env, is_leased, update_where, update_shard, find_shard, find_target,
}
use link_suffix.Bridge.Results.{Result, ok, err, ◌>>=◌, ◌>>◌, guard}

abbrev pub is_deleted : Option Shard → Bool
is_deleted none = false
is_deleted (some sh) = is_some sh.deleted_at

unfoldable pub assert_shard_not_deleted : Store → String → Result (Unit {0})
assert_shard_not_deleted s id =
    if is_deleted (find_shard s id)
    then err "This shard was deleted and its name is reserved. Choose a new shard name."
    else ok tt

-- `Set.add`
abbrev pub add_new : String → List String → List String
add_new x xs = if any (str_eq x) xs then xs else (xs ++ (x ∷ []))

-- The loop that collects the managers that are not blank.
pub collect : List String → List String → Result (List String)
collect [] seen = ok seen
collect (m ∷ ms) seen =
    if is_empty m
    then collect ms seen
    else normalize_fleet_manager_id m >>= λ id. collect ms (add_new id seen)

-- The rows of tah_fleet_shard_managers for a shard.
abbrev pub bound : String → List (String × String) → List (String × String)
bound id = filter (λ b. str_eq b.0 id)

abbrev pub is_assigned : String → Target → Bool
is_assigned id t = str_eq t.shard_id id && not (is_some t.archived_at)

-- The rows that name a manager: the bindings and the targets that are not archived.
abbrev pub named_managers : Store → String → List String
named_managers s id =
    map (λ b. b.1) (bound id s.managers)
    ++ map (λ t. t.manager_customer_id) (filter (is_assigned id) s.targets)

-- The upsert of a binding: no row is returned where the shard is bound to another manager.
abbrev save_manager : String → String → List (String × String) → Result (List (String × String))
save_manager id m rows =
    if any (λ b. str_eq b.0 id) rows
    then (if any (λ b. str_eq b.0 id && str_eq b.1 m) rows
        then ok rows
        else err "Fleet shard belongs to a different MCC.")
    else ok ((id, m) ∷ rows)

-- The manager to save: an empty name where there is none yet.
abbrev pub bind_first : Store → String → Option String → Result (Store × String)
bind_first s id none = ok (s, "")
bind_first s id (some m) =
    save_manager id m s.managers >>= λ rows. ok (record s { managers = rows }, m)

unfoldable pub bind_fleet_shard_manager : Store → String → String → Result (Store × String)
unfolding collect
bind_fleet_shard_manager s id requested = do
  assert_shard_not_deleted s id
  found ← collect (named_managers s id) []
  let managers = if is_empty requested then found else add_new requested found
  guard (leb (length managers) 1)
      "Fleet shard belongs to a different MCC; create a new shard for the other MCC."
  bind_first s id (head? managers)

abbrev pub new_shard : String → String → ℕ → Shard
new_shard id hash now = record {
  shard_id = id;
  token_hash = hash;
  enabled = true;
  deleted_at = none;
  last_poll_at = none;
  last_ack_at = none;
  last_error = none;
  last_invocation_id = none;
  last_execution_status = none;
  last_execution_started_at = none;
  previous_execution_started_at = none;
  last_execution_completed_at = none;
  schedule_anchor_at = none;
  schedule_sample_count = 0;
  expected_next_start_at = none;
  phase_one_stop_at = none;
  hard_stop_at = none;
  handoff_margin_ms = none;
  updated_at = now;
}

-- `INSERT … ON CONFLICT (shard_id) DO UPDATE`
abbrev pub upsert_shard : String → String → ℕ → Store → Store
upsert_shard id hash now s =
    if is_some (find_shard s id)
    then update_shard id (λ sh. record sh { token_hash = hash; enabled = true; updated_at = now }) s
    else record s { shards = new_shard id hash now ∷ s.shards }

abbrev requested_manager : String → Result String
requested_manager m = if is_empty m then ok "" else normalize_fleet_manager_id m

unfoldable pub register_bridge_shard :
    Env → ℕ → String → String → String → Store → Result (Store × (String × String))
unfolding bind_fleet_shard_manager
register_bridge_shard env now shard_id token requested s = do
  id ← normalize_fleet_shard_id shard_id
  guard (leb 24 (length (codes token))) "A strong shard token is required"
  m ← requested_manager requested
  (t, manager) ← bind_fleet_shard_manager s id m
  ok (upsert_shard id (env.digest token) now t, (id, manager))

unfoldable pub authenticate_bridge_shard : Env → Store → String → String → Bool
authenticate_bridge_shard env s id token = elim (find_shard s id) [
  | none ↦ false
  | some sh ↦
      not (is_empty token)
      && not (is_some sh.deleted_at)
      && sh.enabled
      && str_eq sh.token_hash (env.digest token)
]
