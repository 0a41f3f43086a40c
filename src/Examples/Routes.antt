-- ===== src/Examples/Routes.antt =====
-- A campaign whose first provider's circuit is open, and that is routed by the second one.
use link_suffix.Base.{
  ◌≡◌, refl, ◌&&◌, List, true, false, [], ◌∷◌, none, some, String, str_eq, if◌then◌else◌,
}
use link_suffix.Base.Text.{codes, decimal, same_codes, trim}
use link_suffix.Proxy.Circuit.{Circuit, open_circuit, closed, circuit_blocks, next_circuit}
use link_suffix.Proxy.Leases.{Lease, active, empty_repository, reserve}
use link_suffix.Proxy.Coordinator.{Desk, acquire}
use link_suffix.Proxy.Locks.{acquire_lock}
use link_suffix.Base.Maps.{get, put}
use link_suffix.Proxy.Coordinator.Returned.{IsOpen}
use link_suffix.Proxy.Runtime.Keys.{lease_endpoint_keys, physical_endpoint_key}
use link_suffix.Proxy.Runtime.{
  RouteProvider, RoutePool, CircuitRow, RoutePolicy, Tables, Input, Route, routed, no_route,
  pool_circuit_open, not_built, resolve,
}
use link_suffix.Proxy.Runtime.Routed.{IsHealthy, resolve-IsHealthy}
use link_suffix.Proxy.Runtime.Released.{resolve-IsOpen}
use link_suffix.Proxy.Runtime.Reported.{report, report-shuns}

abbrev provider : String → RouteProvider
provider id = record { provider_id = id; enabled = true; gateway_host = "gw.example" }

abbrev pool : String → String → RoutePool
pool id name = record {
  provider_id = id;
  enabled = true;
  keys = record {
    pool_id = name;
    endpoint_ports = 1000 ∷ 1001 ∷ [];
    session_shared_gateway = false;
    session_capacity = none;
  };
}

abbrev resting : Circuit
resting = record {
  state = open_circuit;
  consecutive_failures = 5;
  consecutive_successes = 0;
  opened_at = some 1_000;
  retry_at = some 61_000;
}

abbrev row : String → String → String → CircuitRow
row id name endpoint = record {
  provider_id = id;
  pool_id = name;
  endpoint_key = codes endpoint;
  circuit = resting;
}

abbrev policy : RoutePolicy
policy = record {
  enabled = true;
  primary_provider_id = "first";
  primary_pool_id = "p-1";
  fallback_provider_ids = "second" ∷ [];
  rotation_mode = "rotating";
}

-- The whole pool of the first provider rests, and one endpoint of the second's.
abbrev tables : Tables
tables = record {
  get_policy = λ id. if str_eq id "c-1" then some policy else none;
  providers = provider "first" ∷ provider "second" ∷ [];
  pools = pool "first" "p-1" ∷ pool "second" "p-2" ∷ [];
  circuits = row "first" "p-1" "*" ∷ row "second" "p-2" "gw.example:1000" ∷ [];
  session_hash = λ session. 7;
}

abbrev input : Input
input = record {
  campaign_record_id = " c-1 ";
  session_id = some "session_1";
  lease_ttl_ms = some 1_000;
}

abbrev desk : Desk
desk = record { repository = empty_repository; locks = []; drawn = 0 }

abbrev route : Route
route = record {
  lease = record {
    terms = record {
      lease_id = "0";
      provider_id = "second";
      pool_id = "p-2";
      campaign_id = "c-1";
      endpoint_key = "gw.example:1001";
      owner_id = "runtime";
      ttl_ms = 30_000;
    };
    fencing_token = 1;
    state = active;
    created_at = 2_000;
    expires_at = 32_000;
    released_at = none;
  };
  provider_id = "second";
  pool_id = "p-2";
  fallback_used = true;
}

routed_by_second : (resolve "runtime" decimal 2_000 (λ l. true) tables input desk).1 ≡ routed route
unfolding resolve circuit_blocks lease_endpoint_keys physical_endpoint_key acquire reserve get
    acquire_lock put
routed_by_second = refl

resolve-IsHealthy_example :
    (p : RoutePolicy) × (tables.get_policy (trim input.campaign_record_id) ≡ some p)
    × (p.enabled ≡ true)
    × IsHealthy 2_000 (λ l. true) tables p route
resolve-IsHealthy_example =
    resolve-IsHealthy "runtime" decimal 2_000 (λ l. true) tables input desk route routed_by_second

-- The proxy of the lease cannot be built.
unrouted :
    (resolve "runtime" decimal 2_000 (λ l. false) tables input desk).1
    ≡ no_route (("first", pool_circuit_open) ∷ ("second", not_built) ∷ [])
unfolding resolve circuit_blocks lease_endpoint_keys physical_endpoint_key acquire reserve get
    acquire_lock put
unrouted = refl

resolve-IsOpen_example :
    IsOpen 2_000 "second" "gw.example:1001"
      (resolve "runtime" decimal 2_000 (λ l. false) tables input desk).0
unfolding get
resolve-IsOpen_example =
    resolve-IsOpen "runtime" decimal 2_000 (λ l. false) tables input desk
      (("first", pool_circuit_open) ∷ ("second", not_built) ∷ []) "second" "gw.example:1001"
      unrouted (refl, refl)

-- The first endpoint of the second pool has failed four times when its lease fails once more.
abbrev failing : Circuit
failing = record {
  state = closed;
  consecutive_failures = 4;
  consecutive_successes = 0;
  opened_at = none;
  retry_at = none;
}

abbrev failed_lease : Lease
failed_lease = record route.lease {
  terms = record route.lease.terms { lease_id = "lease-7"; endpoint_key = "gw.example:1000" };
}

abbrev leased_desk : Desk
leased_desk = record desk {
  repository = record { leases = ("lease-7", failed_lease) ∷ []; active_endpoints = []; fence = 0 };
}

abbrev circuits : Circuit → List CircuitRow
circuits c =
    row "first" "p-1" "*" ∷ record (row "second" "p-2" "gw.example:1000") { circuit = c } ∷ []

abbrev struck_circuit : Circuit
struck_circuit = record failing {
  state = open_circuit;
  consecutive_failures = 5;
  opened_at = some 1_000;
  retry_at = some 61_000;
}

reported :
    report 1_000 false "lease-7" leased_desk (circuits failing) ≡ some (circuits struck_circuit)
unfolding report get next_circuit physical_endpoint_key
reported = refl

routed_elsewhere :
    (resolve "runtime" decimal 2_000
      (λ l. true)
      (record tables { circuits = circuits struck_circuit })
      input
      desk).1
    ≡ routed route
unfolding resolve circuit_blocks lease_endpoint_keys physical_endpoint_key acquire reserve get
    acquire_lock put
routed_elsewhere = refl

report-shuns_example :
    (str_eq route.provider_id "second"
      && str_eq route.pool_id "p-2"
      && same_codes
          (physical_endpoint_key route.lease.endpoint_key)
          (physical_endpoint_key failed_lease.endpoint_key))
    ≡ false
unfolding get physical_endpoint_key
report-shuns_example =
    report-shuns "runtime" decimal 1_000 2_000 (λ l. true) tables "lease-7" failed_lease leased_desk
      desk (circuits failing) (circuits struck_circuit) input route refl refl refl refl reported
      routed_elsewhere
