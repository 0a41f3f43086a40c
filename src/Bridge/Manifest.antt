-- ===== src/Bridge/Manifest.antt =====
-- What a script asks of web/lib/script-bridge-store.ts when it starts (`bridgeShardManifest`), when it has lost its
-- plan (`bridgeActiveExecutionWindow`), and what the dashboard asks of a campaign (`bridgeTargetReadiness`).
pub mod Readiness
pub mod Active
pub mod Recovery
use link_suffix.Base.{
  ℕ, ◌+◌, Bool, true, false, not, ◌&&◌, ◌||◌, List, [], ◌∷◌, ◌++◌, map, Option, none, some, String,
  ltb, leb, ◌==◌, length, str_eq, if◌then◌else◌, filter, find?, any, head?, is_some, get_or,
}
use link_suffix.Base.Sorting.{sort}
use link_suffix.Base.Text.{codes, is_empty, trim, slice, or_else}
use link_suffix.Bridge.Shards.{add_new, bound, is_assigned}
use link_suffix.Bridge.Window.{Schedule, Window, adaptive_execution_window}
use link_suffix.Bridge.{
  Store, Target, Shard, Activity, Env, shard_capacity, find_shard, update_shard,
}
use link_suffix.Bridge.Results.{Result, ok, err, ◌>>=◌, ◌>>◌, guard}

-- An enabled target of the shard that is not archived.
abbrev is_live : String → Target → Bool
is_live shard_id t = t.enabled && is_assigned shard_id t

-- `array_agg(DISTINCT …)`
abbrev distinct : List String → List String
distinct [] = []
distinct (x ∷ xs) = let rest = distinct xs in if any (str_eq x) rest then rest else x ∷ rest

-- … in the database's order.
pub ordered_distinct : Env → List String → List String
unfolding sort
ordered_distinct env xs = sort env.text_before (distinct xs)

pub account_ids : Env → Store → String → List String
unfolding ordered_distinct
account_ids env s shard_id =
    ordered_distinct env (map (λ t. t.customer_id) (filter (is_live shard_id) s.targets))

-- The managers of live targets, and behind them those of the bindings.
abbrev add_all : List String → List String → List String
add_all [] seen = seen
add_all (x ∷ xs) seen = add_all xs (add_new x seen)

pub manager_ids : Env → Store → String → List String
unfolding ordered_distinct
manager_ids env s shard_id =
    let named =
      filter (λ m. not (is_empty m))
        (map (λ t. t.manager_customer_id) (filter (is_live shard_id) s.targets)) in
    add_all (ordered_distinct env named ++ map (λ b. b.1) (bound shard_id s.managers)) []

abbrev pub is_activity : String → String → Activity → Bool
is_activity shard_id customer a = str_eq a.shard_id shard_id && str_eq a.customer_id customer

-- An account's row, as seen by the manifest now.
abbrev see_account : String → ℕ → String → List Activity → List Activity
see_account shard_id now customer rows =
    if any (is_activity shard_id customer) rows
    then map
        (λ a.
          if is_activity shard_id customer a
          then record a { manifest_seen_at = some now; updated_at = now }
          else a)
        rows
    else record {
      shard_id = shard_id;
      customer_id = customer;
      manifest_seen_at = some now;
      last_poll_at = none;
      worker_id = none;
      updated_at = now;
    }
      ∷ rows

abbrev see_accounts : String → ℕ → List String → List Activity → List Activity
see_accounts shard_id now [] rows = rows
see_accounts shard_id now (c ∷ cs) rows =
    see_accounts shard_id now cs (see_account shard_id now c rows)

-- The accounts that are no longer the shard's are forgotten.
pub refresh_accounts : String → ℕ → List String → List Activity → List Activity
refresh_accounts shard_id now accounts rows =
    filter (λ a. not (str_eq a.shard_id shard_id) || any (str_eq a.customer_id) accounts)
      (see_accounts shard_id now accounts rows)

-- The columns that a plan is saved in.
abbrev pub save_window : Window → ℕ → Shard → Shard
save_window w now sh = record sh {
  previous_execution_started_at = sh.last_execution_started_at;
  last_execution_started_at = some w.started_at;
  last_execution_completed_at = none;
  last_invocation_id = some w.invocation_id;
  last_execution_status = some "running";
  schedule_anchor_at = some w.learned.anchor;
  schedule_sample_count = w.learned.samples;
  expected_next_start_at = some w.next_expected_at;
  phase_one_stop_at = some w.phase_one_stop_at;
  hard_stop_at = some w.hard_stop_at;
  handoff_margin_ms = some w.handoff_margin_ms;
  updated_at = now;
}

pub record Manifest : Type 0 where
  pub shard_id : String
  pub manager_customer_id : String
  pub account_ids : List String
  pub campaign_count : ℕ
  pub capacity : ℕ
  pub execution_window : Option Window

-- The options of the call; `fresh` is the identifier that an invocation without one gets.
pub record Options : Type 0 where
  pub invocation_id : Option String
  pub fresh : String
  pub preview : Bool
  pub adaptive : Bool

abbrev pub invocation_of : Options → String
invocation_of o = slice 200 (or_else (get_or o.invocation_id "") o.fresh)

-- The writes: none for a preview, the accounts, and the plan where one is asked for.
abbrev pub write_manifest :
    Env → Schedule → Options → ℕ → String → Shard → Store → Store × Option Window
write_manifest env cfg o now id sh s =
    let accounts = account_ids env s id in
    let seen = record s { activities = refresh_accounts id now accounts s.activities } in
    let w = adaptive_execution_window cfg sh now (invocation_of o) in
    if o.preview
    then (s, none)
    else if o.adaptive
    then (update_shard id (save_window w now) seen, some w)
    else (seen, none)

abbrev pub manifest_of : Env → Schedule → Options → ℕ → String → Shard → Store → Store × Manifest
manifest_of env cfg o now id sh s =
    let (t, w) = write_manifest env cfg o now id sh s in
    (
      t,
      record {
        shard_id = id;
        manager_customer_id = get_or (head? (manager_ids env s id)) "";
        account_ids = account_ids env s id;
        campaign_count = length (filter (is_live id) s.targets);
        capacity = shard_capacity;
        execution_window = w;
      },
    )

abbrev pub manifest_row :
    Env → Schedule → Options → ℕ → String → Store → Option Shard → Result (Store × Manifest)
manifest_row env cfg o now id s none = err "Fleet shard was not found or is disabled"
manifest_row env cfg o now id s (some sh) =
    if not sh.enabled
    then err "Fleet shard was not found or is disabled"
    else if ltb 1 (length (manager_ids env s id))
    then err "Fleet shard contains campaigns from multiple MCC accounts"
    else ok (manifest_of env cfg o now id sh s)

unfoldable pub bridge_shard_manifest :
    Env → Schedule → Options → ℕ → String → Store → Result (Store × Manifest)
unfolding account_ids manager_ids refresh_accounts
bridge_shard_manifest env cfg o now shard_id s =
    if is_empty (trim shard_id)
    then err "shardId is required"
    else manifest_row env cfg o now (trim shard_id) s (find_shard s (trim shard_id))
