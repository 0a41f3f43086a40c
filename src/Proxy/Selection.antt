-- ===== src/Proxy/Selection.antt =====
-- web/server/campaign-proxy-selection.mjs: the choice of a saved proxy for a campaign. `prepareCampaignProxySelection`
-- checks it; `settleCampaignProxySelection` saves a draft that cannot run, assigns the proxy and saves the campaign.
-- The store of providers and its secrets are the record Service, whose own errors are left out; the settling is cut
-- where it waits.
pub mod Ends
pub mod Approved
pub mod Settled
use link_suffix.Base.{
  ℕ, Bool, true, false, not, ◌&&◌, ◌||◌, List, [], ◌∷◌, Option, none, some, String, leb, ◌==◌,
  str_eq, if◌then◌else◌, length, is_some, get_or,
}
use link_suffix.Base.Text.{codes, is_digit, all_codes, is_empty, trim}

-- The errors of the module, by their texts.
pub data Refusal : Type 0 where
  invalid_pool runtime_disabled journeys_required country_required storage_unavailable not_enabled
        no_secret still_running :
      Refusal

pub data Choice {ℓ} (A : Type ℓ) : Type ℓ where
  selection_made : A → Choice A
  refused : Refusal → Choice A

pub record ProxyPool : Type 0 where
  pub pool_id : String
  pub provider_id : String
  pub enabled : Bool
  pub default_rotation_mode : String

pub record Provider : Type 0 where
  pub provider_id : String
  pub provider_type : String
  pub auth_mode : String
  pub enabled : Bool

pub record CurrentPolicy : Type 0 where
  pub enabled : Bool
  pub primary_pool_id : String

-- `service.repository` and `service.runtimeSecret`, which tells whether it answers.
pub record Service : Type 0 where
  pub get_policy : String → Option CurrentPolicy
  pub get_pool : String → Option ProxyPool
  pub get_provider : String → Option Provider
  pub runtime_secret : String → Bool

-- What is read of the payload; a pool that is no text is none.
pub record Wish : Type 0 where
  pub proxy_pool_id : Option String
  pub tier : String
  pub mitm : Bool
  pub country : String

-- A campaign, as far as it is read and changed here.
pub record Campaign : Type 0 where
  pub id : String
  pub status : String
  pub desired_running : Bool
  pub active_run_id : Option String
  pub proxy_selection_pending : Bool
  pub last_error : Option String

-- The switches and the service that the server is configured with.
pub record Setting : Type 0 where
  pub runtime_enabled : Bool
  pub has_database : Bool
  pub service : Option Service
  pub configured : Option Service

pub record Assignment : Type 0 where
  pub enabled : Bool
  pub primary_provider_id : Option String
  pub primary_pool_id : Option String
  pub rotation_mode : Option String
  pub sticky_ttl_seconds : ℕ
  pub country : String

-- What is returned; `pool_id`, `provider_mode` and `provider_id` are those of its payload.
pub record Selection : Type 0 where
  pub registry : Bool
  pub changed : Bool
  pub pool_id : String
  pub provider_mode : String
  pub provider_id : String
  pub assignment : Assignment

abbrev is_pool_start : ℕ → Bool
is_pool_start c = (leb b'a' c && leb c b'z') || is_digit c

abbrev is_pool_rest : ℕ → Bool
is_pool_rest c = is_pool_start c || c == b'.' || c == b'_' || c == b'-'

-- `/^[a-z0-9][a-z0-9._-]{1,63}$/`
abbrev pub is_pool_name : List ℕ → Bool
is_pool_name [] = false
is_pool_name (c ∷ cs) =
    is_pool_start c && all_codes is_pool_rest cs && leb 1 (length cs) && leb (length cs) 63

abbrev is_capital : ℕ → Bool
is_capital c = leb b'A' c && leb c b'Z'

-- `/^[A-Z]{2}$/`
abbrev pub is_country : List ℕ → Bool
is_country cs = all_codes is_capital cs && length cs == 2

abbrev pub service_of : Setting → Bool → Option Campaign → Option Service
service_of o registry existing = elim o.service [
  | some s ↦ some s
  | none ↦ if registry || (is_some existing && o.has_database) then o.configured else none
]

abbrev pub policy_of : Option Service → Option Campaign → Option CurrentPolicy
policy_of (some s) (some c) = s.get_policy c.id
policy_of _ _ = none

abbrev pub current_pool_id : Option CurrentPolicy → String
current_pool_id none = ""
current_pool_id (some p) = if p.enabled then p.primary_pool_id else ""

abbrev pub pool_of : Bool → Option Service → String → Option ProxyPool
pool_of true (some s) id = s.get_pool id
pool_of _ _ id = none

abbrev pub provider_of : Option Service → Option ProxyPool → Option Provider
provider_of (some s) (some p) = s.get_provider p.provider_id
provider_of _ _ = none

abbrev pub both_enabled : Option ProxyPool → Option Provider → Bool
both_enabled (some p) (some v) = p.enabled && v.enabled
both_enabled _ _ = false

abbrev pub has_secret : Option Service → Option Provider → Bool
has_secret (some s) (some v) = str_eq v.auth_mode "ip-allowlist" || s.runtime_secret v.provider_id
has_secret _ _ = true

abbrev pub is_pending : Option Campaign → Bool
is_pending none = false
is_pending (some c) = c.proxy_selection_pending

-- An existing campaign that has not stopped yet.
abbrev pub still_runs : Option Campaign → Bool
still_runs none = false
still_runs (some c) =
    not (str_eq c.status "stopped") || c.desired_running || is_some c.active_run_id

abbrev id_in : Option Provider → Option String
id_in none = none
id_in (some v) = some v.provider_id

abbrev pool_in : Option ProxyPool → Option String
pool_in none = none
pool_in (some p) = some p.pool_id

abbrev rotation_in : Option ProxyPool → Option String
rotation_in none = none
rotation_in (some p) = some p.default_rotation_mode

abbrev ttl_for : Option Provider → ℕ
ttl_for none = 1800
ttl_for (some v) = if str_eq v.provider_type "iproyal" then 3600 else 1800

-- `provider?.providerId || "iproyal"`
abbrev provider_or : Option Provider → String
provider_or none = "iproyal"
provider_or (some v) = if is_empty v.provider_id then "iproyal" else v.provider_id

abbrev pub selection_of :
    Wish → String → Bool → Bool → Option ProxyPool → Option Provider → Selection
selection_of w pool_id registry changed pool provider = record {
  registry = registry;
  changed = changed;
  pool_id = pool_id;
  provider_mode = if registry then "registry" else "legacy";
  provider_id = provider_or provider;
  assignment = record {
    enabled = registry;
    primary_provider_id = id_in provider;
    primary_pool_id = pool_in pool;
    rotation_mode = rotation_in pool;
    sticky_ttl_seconds = ttl_for provider;
    country = w.country;
  };
}

-- The part that asks the service.
abbrev pub chosen_for :
    Wish
    → Option Campaign
    → String
    → Bool
    → Option Service
    → Option ProxyPool
    → Option Provider
    → Choice (Option Selection)
chosen_for w existing pool_id registry service pool provider =
    let changed =
      not (str_eq pool_id (current_pool_id (policy_of service existing))) || is_pending existing in
    if registry && not (both_enabled pool provider)
    then refused not_enabled
    else if registry && not (has_secret service provider)
    then refused no_secret
    else if changed && still_runs existing
    then refused still_running
    else selection_made (some (selection_of w pool_id registry changed pool provider))

abbrev pub with_service :
    Wish → Option Campaign → String → Bool → Option Service → Choice (Option Selection)
with_service w existing pool_id registry service =
    if registry && not (is_some service)
    then refused storage_unavailable
    else chosen_for w existing pool_id registry service (pool_of registry service pool_id)
        (provider_of service (pool_of registry service pool_id))

abbrev pub for_pool : Setting → Wish → Option Campaign → String → Choice (Option Selection)
for_pool o w existing pool_id =
    let registry = not (is_empty pool_id) in
    if registry && not (is_pool_name (codes pool_id))
    then refused invalid_pool
    else if registry && not o.runtime_enabled
    then refused runtime_disabled
    else if registry && (not (str_eq w.tier "human") || w.mitm)
    then refused journeys_required
    else if registry && not (is_country (codes w.country))
    then refused country_required
    else with_service w existing pool_id registry (service_of o registry existing)

-- `prepareCampaignProxySelection`
unfoldable pub prepare_selection : Setting → Wish → Option Campaign → Choice (Option Selection)
unfolding trim
prepare_selection o w existing = elim w.proxy_pool_id [
  | none ↦ selection_made none
  | some id ↦ for_pool o w existing (trim id)
]

-- `assertProxySelectionReady`: whether it lets the campaign start.
abbrev pub selection_ready : Campaign → Bool
selection_ready c = not c.proxy_selection_pending

-- Where a settling stands: at one of its waits, or at its end.
pub data Point : Type 0 where
  saving_draft assigning saving_settled saving_failure returned thrown : Point

-- The campaign in memory and as it was saved last (none: never), and the proxy that is assigned to it in the
-- providers' store.
pub record World : Type 0 where
  pub point : Point
  pub campaign : Campaign
  pub saved : Option Campaign
  pub route : Option Assignment

abbrev pub draft : Campaign → Campaign
draft c = record c { proxy_selection_pending = true; status = "stopped"; desired_running = false }

-- `settledStatus` is the status that the campaign had before.
abbrev pub settled : String → Campaign → Campaign
settled status c = record c { proxy_selection_pending = false; status = status; last_error = none }

abbrev pub failed : Campaign → Campaign
failed c = record (draft c) {
  last_error = some "Proxy selection could not be completed. Open Edit and Save changes again.";
}

-- `settleCampaignProxySelection` up to its first wait.
unfoldable pub begin_settling :
    Option Selection → Campaign → Option Campaign → Option Assignment → World
begin_settling none c saved route = record {
  point = returned;
  campaign = c;
  saved = saved;
  route = route;
}
begin_settling (some s) c saved route =
    if s.changed
    then record { point = saving_draft; campaign = draft c; saved = saved; route = route }
    else record { point = returned; campaign = c; saved = saved; route = route }

-- Whether `persist` answers, for the draft; an error is passed on.
abbrev pub draft_done : Bool → World → World
draft_done true w = record w { point = assigning; saved = some w.campaign }
draft_done false w = record w { point = thrown }

-- What `assign` comes to: done, or an error before or after it took effect.
pub data Assigning : Type 0 where
  done lost lost_late : Assigning

abbrev pub assign_done : String → Assignment → Assigning → World → World
assign_done status a done w = record w {
  point = saving_settled;
  campaign = settled status w.campaign;
  route = some a;
}
assign_done status a lost w = record w { point = saving_failure; campaign = failed w.campaign }
assign_done status a lost_late w = record w {
  point = saving_failure;
  campaign = failed w.campaign;
  route = some a;
}

-- `persist` for the settled campaign; its error is caught.
abbrev pub settled_done : Bool → World → World
settled_done true w = record w { point = returned; saved = some w.campaign }
settled_done false w = record w { point = saving_failure; campaign = failed w.campaign }

-- `persist` in the handler, whose error is dropped; then the handler throws.
abbrev pub failure_done : Bool → World → World
failure_done true w = record w { point = thrown; saved = some w.campaign }
failure_done false w = record w { point = thrown }

abbrev pub after_settled : Bool → Bool → World → World
after_settled true unfailing w = settled_done true w
after_settled false unfailing w = failure_done unfailing (settled_done false w)

abbrev pub after_assign : String → Assignment → Assigning → Bool → Bool → World → World
after_assign status a done answers unfailing w =
    after_settled answers unfailing (assign_done status a done w)
after_assign status a lost answers unfailing w =
    failure_done unfailing (assign_done status a lost w)
after_assign status a lost_late answers unfailing w =
    failure_done unfailing (assign_done status a lost_late w)

abbrev pub after_draft : String → Assignment → Bool → Assigning → Bool → Bool → World → World
after_draft status a false o answers unfailing w = draft_done false w
after_draft status a true o answers unfailing w =
    after_assign status a o answers unfailing (draft_done true w)

-- `settleCampaignProxySelection` of a choice that changes something, by what comes of its calls in their order.
unfoldable pub settle :
    Selection
    → Campaign
    → Option Campaign
    → Option Assignment
    → Bool
    → Assigning
    → Bool
    → Bool
    → World
unfolding begin_settling
settle s c saved route drafted o answers unfailing =
    after_draft c.status s.assignment drafted o answers unfailing
      (begin_settling (some s) c saved route)
