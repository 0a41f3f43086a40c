-- ===== src/Examples/Selections.antt =====
-- A stopped campaign that is given a saved proxy.
use link_suffix.Base.{
  ℕ, ◌≡◌, refl, ◌⊎◌, Bool, true, false, Option, none, some, String, str_eq, if◌then◌else◌, arith,
}
use link_suffix.Proxy.Selection.{
  selection_made, ProxyPool, Provider, Service, Wish, Campaign, Setting, Selection, World, returned,
  done, prepare_selection, begin_settling, settle,
}
use link_suffix.Proxy.Selection.Approved.{IsApproved, prepare_selection-IsApproved}
use link_suffix.Proxy.Selection.Settled.{
  Reach, begins, later, drafts, assigns, settles, saved-routed,
}
use link_suffix.Proxy.Selection.Ends.{IsOutcome, settle-IsOutcome}

abbrev pool : ProxyPool
pool = record {
  pool_id = "evomi-us";
  provider_id = "evomi";
  enabled = true;
  default_rotation_mode = "sticky";
}

abbrev provider : Provider
provider = record {
  provider_id = "evomi";
  provider_type = "evomi";
  auth_mode = "ip-allowlist";
  enabled = true;
}

abbrev service : Service
service = record {
  get_policy = λ id. none;
  get_pool = λ id. if str_eq id "evomi-us" then some pool else none;
  get_provider = λ id. if str_eq id "evomi" then some provider else none;
  runtime_secret = λ id. false;
}

abbrev setting : Setting
setting = record {
  runtime_enabled = true;
  has_database = true;
  service = none;
  configured = some service;
}

abbrev wish : Wish
wish = record { proxy_pool_id = some " evomi-us "; tier = "human"; mitm = false; country = "US" }

abbrev campaign : Campaign
campaign = record {
  id = "campaign-000001";
  status = "stopped";
  desired_running = false;
  active_run_id = none;
  proxy_selection_pending = false;
  last_error = some "out of date";
}

abbrev choice : Selection
choice = record {
  registry = true;
  changed = true;
  pool_id = "evomi-us";
  provider_mode = "registry";
  provider_id = "evomi";
  assignment = record {
    enabled = true;
    primary_provider_id = some "evomi";
    primary_pool_id = some "evomi-us";
    rotation_mode = some "sticky";
    sticky_ttl_seconds = 1800;
    country = "US";
  };
}

chosen : prepare_selection setting wish (some campaign) ≡ selection_made (some choice)
unfolding prepare_selection link_suffix.Base.Text.trim link_suffix.Base.Text.trim_start
    link_suffix.Base.Text.trim_end
chosen = refl

prepare_selection-IsApproved_example : IsApproved setting wish (some campaign) choice
prepare_selection-IsApproved_example =
    prepare_selection-IsApproved setting wish (some campaign) choice chosen

abbrev saved_campaign : Campaign
saved_campaign = record campaign { last_error = none }

abbrev last_world : World
last_world = record {
  point = returned;
  campaign = saved_campaign;
  saved = some saved_campaign;
  route = some choice.assignment;
}

settled_well :
    Reach "stopped" choice.assignment (begin_settling (some choice) campaign none none) last_world
unfolding begin_settling
settled_well =
    later (later (later begins (drafts _ true refl)) (assigns _ done refl)) (settles _ true refl)

saved-routed_example :
    ((some saved_campaign ≡ none) × (some choice.assignment ≡ none))
    ⊎ (some choice.assignment ≡ some choice.assignment)
saved-routed_example =
    saved-routed choice campaign none none last_world refl settled_well saved_campaign refl refl

settle-IsOutcome_example :
    IsOutcome true choice campaign (settle choice campaign none none true done true true)
settle-IsOutcome_example = settle-IsOutcome choice campaign none none true done true true refl
