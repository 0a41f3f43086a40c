-- ===== src/Proxy/Runtime.antt =====
-- `resolve` of web/server/proxy-runtime-service.mjs: the providers of a campaign's policy are tried in their order, each
-- by its pool, its circuits and the coordinator of leases. A call runs to its end at one instant. Whether the
-- proxy of a lease can be built, by its port, the secret and the builder of its URL, is the argument `built`.
pub mod Keys
pub mod Released
pub mod Routed
pub mod Reported
use link_suffix.Base.{
  ℕ, ◌≡◌, refl, ◌⊎◌, inl, inr, Bool, true, false, not, ◌&&◌, ◌||◌, List, [], ◌∷◌, ◌++◌, Option,
  none, some, String, leb, ◌==◌, min, max, str_eq, if◌then◌else◌, length, filter, find?, head?,
  get_or,
}
use link_suffix.Base.Text.{codes, same_codes, is_digit, all_codes, is_empty, trim}
use link_suffix.Proxy.Circuit.{Circuit, circuit_blocks}
use link_suffix.Proxy.Leases.{Lease, released}
use link_suffix.Proxy.Coordinator.{Request, Desk, Outcome, acquired, acquire, release_desk}
use link_suffix.Proxy.Runtime.Keys.{KeyPool, lease_endpoint_keys, physical_endpoint_key}

pub record RouteProvider : Type 0 where
  pub provider_id : String
  pub enabled : Bool
  pub gateway_host : String

pub record RoutePool : Type 0 where
  pub provider_id : String
  pub enabled : Bool
  pub keys : KeyPool

-- A row of a circuit, with the characters of its endpoint's key; a row without an endpoint has an empty one.
pub record CircuitRow : Type 0 where
  pub provider_id : String
  pub pool_id : String
  pub endpoint_key : List ℕ
  pub circuit : Circuit

pub record RoutePolicy : Type 0 where
  pub enabled : Bool
  pub primary_provider_id : String
  pub primary_pool_id : String
  pub fallback_provider_ids : List String
  pub rotation_mode : String

-- What `repository` lists, its policy of a campaign, and the hash of a session.
pub record Tables : Type 0 where
  pub get_policy : String → Option RoutePolicy
  pub providers : List RouteProvider
  pub pools : List RoutePool
  pub circuits : List CircuitRow
  pub session_hash : String → ℕ

-- `input`, as far as it is read; a session that is no text, or a time that is no natural number, is none.
pub record Input : Type 0 where
  pub campaign_record_id : String
  pub session_id : Option String
  pub lease_ttl_ms : Option ℕ

pub record Route : Type 0 where
  pub lease : Lease
  pub provider_id : String
  pub pool_id : String
  pub fallback_used : Bool

pub data Failure : Type 0 where
  disabled_or_missing no_enabled_pool pool_circuit_open every_circuit_open keys_refused not_leased
        not_built :
      Failure

-- What a candidate comes to.
pub data Tried : Type 0 where
  served : Route → Tried
  failed_by : Failure → Tried

pub tried_cases : (t : Tried) → ((r : Route) × (t ≡ served r)) ⊎ ((f : Failure) × (t ≡ failed_by f))
tried_cases (served r) = inl (r, refl)
tried_cases (failed_by f) = inr (f, refl)

pub data Resolved : Type 0 where
  routed : Route → Resolved
  no_route : List (String × Failure) → Resolved
  policy_not_found invalid_session : Resolved

-- `new Map(...)`: of two rows with one id the later counts.
abbrev pub provider_named : String → List RouteProvider → Option RouteProvider
provider_named id [] = none
provider_named id (p ∷ ps) = elim (provider_named id ps) [
  | some later ↦ some later
  | none ↦ if str_eq p.provider_id id then some p else none
]

abbrev pools_of : String → List RoutePool → List RoutePool
pools_of id = filter (λ x. str_eq x.provider_id id && x.enabled)

abbrev pub pool_for : RoutePolicy → String → List RoutePool → Option RoutePool
pool_for policy id pools =
    if str_eq id policy.primary_provider_id
    then find? (λ x. str_eq x.keys.pool_id policy.primary_pool_id) (pools_of id pools)
    else head? (pools_of id pools)

abbrev pub is_row_of : String → String → CircuitRow → Bool
is_row_of provider pool row = str_eq row.provider_id provider && str_eq row.pool_id pool

abbrev pub blocks_row : ℕ → Option CircuitRow → Bool
blocks_row now none = false
blocks_row now (some row) = circuit_blocks now row.circuit

-- The circuit of the whole pool.
abbrev pub pool_blocked : ℕ → List CircuitRow → String → String → Bool
pool_blocked now rows provider pool = blocks_row now (
    find?
      (λ row.
        is_row_of provider pool row
        && (same_codes row.endpoint_key (codes "*") || length row.endpoint_key == 0))
      rows)

-- The circuit of one endpoint.
abbrev pub endpoint_blocked : ℕ → List CircuitRow → String → String → String → Bool
endpoint_blocked now rows provider pool endpoint = blocks_row now (
    find?
      (λ row.
        is_row_of provider pool row && same_codes row.endpoint_key (physical_endpoint_key endpoint))
      rows)

abbrev is_session_code : ℕ → Bool
is_session_code c =
    (leb b'A' c && leb c b'Z') || (leb b'a' c && leb c b'z') || is_digit c || c == b'_' || c == b'-'

-- `requireBrowserSessionId`
abbrev pub browser_session : Option String → Option String
browser_session none = none
browser_session (some id) =
    if leb 1 (length (codes id))
      && leb (length (codes id)) 128
      && all_codes is_session_code (codes id)
    then some id
    else none

-- `Math.max(30_000, Math.min(300_000, Number(ttl) || DEFAULT_LEASE_TTL_MS))`
abbrev route_ttl : Option ℕ → ℕ
route_ttl none = 180_000
route_ttl (some ttl) = max 30_000 (min 300_000 (if ttl == 0 then 180_000 else ttl))

module _ (owner : String) (name_of : ℕ → String) (now : ℕ) (built : Lease → Bool) (x : Tables)
    (campaign session : String) (ttl : ℕ) (policy : RoutePolicy) where
  -- The rest of a candidate, once the coordinator has answered.
  abbrev pub with_lease : String → String → Desk × Outcome → Desk × Tried
  with_lease provider pool (s, acquired l) =
      if built l
      then (
        s,
        served (record {
          lease = l;
          provider_id = provider;
          pool_id = pool;
          fallback_used = not (str_eq provider policy.primary_provider_id);
        }),
      )
      else ((release_desk owner name_of now l released s).0, failed_by not_built)
  with_lease provider pool (s, _) = (s, failed_by not_leased)

  abbrev pub request_for : String → String → List String → Request
  request_for provider pool keys = record {
    provider_id = provider;
    pool_id = pool;
    campaign_id = campaign;
    endpoint_keys = keys;
    ttl_ms = some ttl;
  }

  abbrev pub open_keys : String → String → List String → List String
  open_keys provider pool = filter (λ k. not (endpoint_blocked now x.circuits provider pool k))

  abbrev pub with_keys : String → String → Desk → Option (List String) → Desk × Tried
  with_keys provider pool s none = (s, failed_by keys_refused)
  with_keys provider pool s (some keys) =
      let usable = open_keys provider pool keys in
      if length usable == 0
      then (s, failed_by every_circuit_open)
      else with_lease provider pool (acquire owner name_of now (request_for provider pool usable) s)

  abbrev pub with_pool : String → RouteProvider → Desk → Option RoutePool → Desk × Tried
  with_pool id v s none = (s, failed_by no_enabled_pool)
  with_pool id v s (some p) =
      if pool_blocked now x.circuits id p.keys.pool_id
      then (s, failed_by pool_circuit_open)
      else with_keys id p.keys.pool_id s
          (lease_endpoint_keys (x.session_hash session) p.keys v.gateway_host policy.rotation_mode)

  abbrev pub with_provider : String → Desk → Option RouteProvider → Desk × Tried
  with_provider id s none = (s, failed_by disabled_or_missing)
  with_provider id s (some v) =
      if v.enabled
      then with_pool id v s (pool_for policy id x.pools)
      else (s, failed_by disabled_or_missing)

  -- One round of the loop.
  unfoldable pub try_candidate : String → Desk → Desk × Tried
  try_candidate id s = with_provider id s (provider_named id x.providers)

  pub try_all : List String → List (String × Failure) → Desk → Desk × Resolved
  unfolding try_candidate
  try_all [] failures s = (s, no_route failures)
  try_all (id ∷ ids) failures s = elim (try_candidate id s).1 [
    | served r ↦ ((try_candidate id s).0, routed r)
    | failed_by e ↦ try_all ids (failures ++ ((id, e) ∷ [])) (try_candidate id s).0
  ]

abbrev pub candidates_of : RoutePolicy → List String
candidates_of policy = policy.primary_provider_id ∷ policy.fallback_provider_ids

abbrev pub with_session :
    String
    → (ℕ → String)
    → ℕ
    → (Lease → Bool)
    → Tables
    → Input
    → Desk
    → RoutePolicy
    → Option String
    → Desk × Resolved
with_session owner name_of now built x i s policy none = (s, invalid_session)
with_session owner name_of now built x i s policy (some session) =
    try_all owner name_of now built x (trim i.campaign_record_id) session (route_ttl i.lease_ttl_ms)
      policy (candidates_of policy) [] s

abbrev pub with_policy :
    String
    → (ℕ → String)
    → ℕ
    → (Lease → Bool)
    → Tables
    → Input
    → Desk
    → Option RoutePolicy
    → Desk × Resolved
with_policy owner name_of now built x i s none = (s, policy_not_found)
with_policy owner name_of now built x i s (some policy) =
    if policy.enabled
    then with_session owner name_of now built x i s policy (browser_session i.session_id)
    else (s, policy_not_found)

-- `resolve`
unfoldable pub resolve :
    String → (ℕ → String) → ℕ → (Lease → Bool) → Tables → Input → Desk → Desk × Resolved
unfolding try_all trim
resolve owner name_of now built x i s =
    if is_empty (trim i.campaign_record_id)
    then (s, policy_not_found)
    else with_policy owner name_of now built x i s (x.get_policy (trim i.campaign_record_id))
