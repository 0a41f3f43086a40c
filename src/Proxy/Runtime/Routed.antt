-- ===== src/Proxy/Runtime/Routed.antt =====
-- What a route that is resolved rests on.
use link_suffix.Base.{
  ℕ, ◌≡◌, refl, sym, All-imp, ap, subst, ◌∙◌, inl, inr, true, false, not, ◌&&◌, Bool, List, [], ◌∷◌,
  ◌++◌, filter, find?, head?, Option, none, some, String, str_eq, any, All, All-filter_of,
  All-intro, Bool-cases, arith, length, ◌==◌, eq_iff, if◌then◌else◌,
}
use link_suffix.Base.Text.{is_empty, trim}
use link_suffix.Proxy.Leases.{Lease}
use link_suffix.Proxy.Coordinator.{Desk, Outcome, acquired, unavailable, no_endpoints, acquire}
use link_suffix.Proxy.Coordinator.Taken.{acquire-passes}
use link_suffix.Proxy.Runtime.Keys.{lease_endpoint_keys}
use link_suffix.Proxy.Runtime.{
  RouteProvider, RoutePool, RoutePolicy, Tables, Input, Route, Failure, every_circuit_open,
  pool_circuit_open, disabled_or_missing, served, failed_by, policy_not_found, routed,
  provider_named, pool_for, pool_blocked, endpoint_blocked, with_lease, request_for, open_keys,
  with_keys, tried_cases, with_pool, with_provider, try_candidate, try_all, candidates_of,
  browser_session, with_session, with_policy, resolve, route_ttl,
}

-- A row that a filter keeps passes its test.
filter-find :
    (p q : RoutePool → Bool) (xs : List RoutePool) (a : RoutePool)
    → find? p (filter q xs) ≡ some a
    → q a ≡ true
filter-find p q [] a e = absurd (ground (arith, e))
filter-find p q (x ∷ xs) a e = elim (Bool-cases (q x)) [
  | inr other ↦ filter-find p q xs a (ground (arith, other, e))
  | inl kept ↦ elim (Bool-cases (p x)) [
    | inl hit ↦ let same : x ≡ a = ground (arith, kept, hit, e) in ap q (sym same) ∙ kept
    | inr miss ↦ filter-find p q xs a (ground (arith, kept, miss, e))
  ]
]

filter-head :
    (q : RoutePool → Bool) (xs : List RoutePool) (a : RoutePool)
    → head? (filter q xs) ≡ some a
    → q a ≡ true
filter-head q [] a e = absurd (ground (arith, e))
filter-head q (x ∷ xs) a e = elim (Bool-cases (q x)) [
  | inr other ↦ filter-head q xs a (ground (arith, other, e))
  | inl kept ↦ let same : x ≡ a = ground (arith, kept, e) in ap q (sym same) ∙ kept
]

pool_for-usable :
    (policy : RoutePolicy) (id : String) (pools : List RoutePool) (a : RoutePool)
    → pool_for policy id pools ≡ some a
    → (str_eq a.provider_id id && a.enabled) ≡ true
pool_for-usable policy id pools a e = elim (Bool-cases (str_eq id policy.primary_provider_id)) [
  | inl primary ↦
      filter-find (λ x. str_eq x.keys.pool_id policy.primary_pool_id)
        (λ x. str_eq x.provider_id id && x.enabled) pools a (ground (arith, primary, e))
  | inr fallback ↦
      filter-head (λ x. str_eq x.provider_id id && x.enabled) pools a (ground (arith, fallback, e))
]

All-kept : (p : String → Bool) (ks : List String) → All (λ k. p k ≡ true) (filter p ks)
All-kept p ks =
    let known : All (λ (k : String). k ≡ k) ks = All-intro (λ k. k ≡ k) (λ k. refl) ks in
    All-filter_of (λ k. k ≡ k) (λ k. p k ≡ true) p (λ k h same. h) ks known

not-false : (b : Bool) → not b ≡ true → b ≡ false
not-false b h = ground (arith, h)

-- A route: its provider and pool are those of the policy and enabled, the circuits of its pool and of its endpoint let
-- callers in, and its proxy could be built.
pub record IsHealthy (now : ℕ) (built : Lease → Bool) (x : Tables) (policy : RoutePolicy)
    (r : Route) : Type 0 where
  pub provider : RouteProvider
  pub pool : RoutePool
  pub listed : provider_named r.provider_id x.providers ≡ some provider
  pub provider_enabled : provider.enabled ≡ true
  pub chosen : pool_for policy r.provider_id x.pools ≡ some pool
  pub pool_enabled : (str_eq pool.provider_id r.provider_id && pool.enabled) ≡ true
  pub names_pool : r.pool_id ≡ pool.keys.pool_id
  pub pool_open : pool_blocked now x.circuits r.provider_id r.pool_id ≡ false
  pub endpoint_open :
      endpoint_blocked now x.circuits r.provider_id r.pool_id r.lease.endpoint_key ≡ false
  pub is_built : built r.lease ≡ true
  pub candidate : any (λ id. str_eq id r.provider_id) (candidates_of policy) ≡ true
  pub fallback : r.fallback_used ≡ not (str_eq r.provider_id policy.primary_provider_id)

module _ (owner : String) (name_of : ℕ → String) (now : ℕ) (built : Lease → Bool) (x : Tables)
    (campaign session : String) (ttl : ℕ) (policy : RoutePolicy) where
  abbrev route_of : String → String → Lease → Route
  route_of provider pool l = record {
    lease = l;
    provider_id = provider;
    pool_id = pool;
    fallback_used = not (str_eq provider policy.primary_provider_id);
  }

  leased-route :
      (provider pool : String) (out : Desk × Outcome) (r : Route)
      → (with_lease owner name_of now built x campaign session ttl policy provider pool out).1
        ≡ served r
      → (l : Lease) × (out.1 ≡ acquired l) × (r ≡ route_of provider pool l) × (built l ≡ true)
  leased-route provider pool (s, acquired l) r e = elim (Bool-cases (built l)) [
    | inl fine ↦ (l, refl, ground (arith, fine, e), fine)
    | inr bad ↦ absurd (ground (arith, bad, e))
  ]
  leased-route provider pool (s, unavailable) r e = absurd (ground (arith, e))
  leased-route provider pool (s, no_endpoints) r e = absurd (ground (arith, e))

  -- What a candidate that is served passes.
  record IsServed (id : String) (r : Route) : Type 0 where
    provider : RouteProvider
    pool : RoutePool
    listed : provider_named id x.providers ≡ some provider
    provider_enabled : provider.enabled ≡ true
    chosen : pool_for policy id x.pools ≡ some pool
    pool_open : pool_blocked now x.circuits id pool.keys.pool_id ≡ false
    endpoint_open :
        endpoint_blocked now x.circuits id pool.keys.pool_id r.lease.endpoint_key ≡ false
    is_built : built r.lease ≡ true
    same : r ≡ route_of id pool.keys.pool_id r.lease

  keys-served :
      (provider pool : String) (s : Desk) (o : Option (List String)) (r : Route)
      → (with_keys owner name_of now built x campaign session ttl policy provider pool s o).1
        ≡ served r
      → (endpoint_blocked now x.circuits provider pool r.lease.endpoint_key ≡ false)
        × (built r.lease ≡ true)
        × (r ≡ route_of provider pool r.lease)
  keys-served provider pool s none r e = absurd (ground (arith, e))
  keys-served provider pool s (some keys) r e =
      let usable =
        open_keys owner name_of now built x campaign session ttl policy provider pool keys in
      elim (Bool-cases (length usable == 0)) [
        | inl nothing ↦ absurd (ground (arith, nothing, e))
        | inr more ↦
            let q =
              request_for owner name_of now built x campaign session ttl policy provider pool
                usable in
            let out = acquire owner name_of now q s in
            let (l, got, same, fine) = leased-route provider pool out r (
              subst
                (λ (b : Bool).
                  (if b
                    then (s, failed_by every_circuit_open)
                    else with_lease owner name_of now built x campaign session ttl policy provider
                        pool out).1
                  ≡ served r)
                more e) in
            let lease : l ≡ r.lease = sym (ap (λ (y : Route). y.lease) same) in
            (
              subst (λ m. endpoint_blocked now x.circuits provider pool m.endpoint_key ≡ false)
                  lease
                  (not-false (endpoint_blocked now x.circuits provider pool l.endpoint_key) (
                    acquire-passes owner name_of now q
                      (λ k. not (endpoint_blocked now x.circuits provider pool k)) s l
                      (All-kept (λ k. not (endpoint_blocked now x.circuits provider pool k)) keys)
                      got)),
              subst (λ m. built m ≡ true) lease fine,
              subst (λ m. r ≡ route_of provider pool m) lease same,
            )
      ]

  pool-served :
      (id : String) (v : RouteProvider) (s : Desk) (o : Option RoutePool) (r : Route)
      → provider_named id x.providers ≡ some v
      → v.enabled ≡ true
      → pool_for policy id x.pools ≡ o
      → (with_pool owner name_of now built x campaign session ttl policy id v s o).1 ≡ served r
      → IsServed id r
  pool-served id v s none r listed on chosen e = absurd (ground (arith, e))
  pool-served id v s (some p) r listed on chosen e =
      elim (Bool-cases (pool_blocked now x.circuits id p.keys.pool_id)) [
        | inl blocked ↦ absurd (ground (arith, blocked, e))
        | inr open_pool ↦
            let h =
              keys-served id p.keys.pool_id s
                (lease_endpoint_keys (x.session_hash session) p.keys v.gateway_host
                  policy.rotation_mode)
                r
                (subst
                  (λ (b : Bool).
                    (if b
                      then (s, failed_by pool_circuit_open)
                      else with_keys owner name_of now built x campaign session ttl policy id
                          p.keys.pool_id s
                          (lease_endpoint_keys (x.session_hash session) p.keys v.gateway_host
                            policy.rotation_mode)).1
                    ≡ served r)
                  open_pool e) in
            record {
              provider = v;
              pool = p;
              listed = listed;
              provider_enabled = on;
              chosen = chosen;
              pool_open = open_pool;
              endpoint_open = h.0;
              is_built = h.1;
              same = h.2;
            }
      ]

  provider-served :
      (id : String) (s : Desk) (o : Option RouteProvider) (r : Route)
      → provider_named id x.providers ≡ o
      → (with_provider owner name_of now built x campaign session ttl policy id s o).1 ≡ served r
      → IsServed id r
  provider-served id s none r listed e = absurd (ground (arith, e))
  provider-served id s (some v) r listed e = elim (Bool-cases v.enabled) [
    | inl on ↦ pool-served id v s (pool_for policy id x.pools) r listed on refl (
        subst
          (λ (b : Bool).
            (if b
              then with_pool owner name_of now built x campaign session ttl policy id v s
                  (pool_for policy id x.pools)
              else (s, failed_by disabled_or_missing)).1
            ≡ served r)
          on e)
    | inr off ↦ absurd (ground (arith, off, e))
  ]

  candidate-served :
      (id : String) (s : Desk) (r : Route)
      → (try_candidate owner name_of now built x campaign session ttl policy id s).1 ≡ served r
      → IsServed id r
  unfolding try_candidate
  candidate-served id s r e = provider-served id s (provider_named id x.providers) r refl e

  IsServed-IsHealthy :
      (id : String) (r : Route)
      → any (λ k. str_eq k id) (candidates_of policy) ≡ true
      → IsServed id r
      → IsHealthy now built x policy r
  IsServed-IsHealthy id r listed v =
      let provider = ap (λ (y : Route). y.provider_id) v.same in
      let pool = ap (λ (y : Route). y.pool_id) v.same in
      record {
        provider = v.provider;
        pool = v.pool;
        listed =
            subst (λ k. provider_named k x.providers ≡ some v.provider) (sym provider) v.listed;
        provider_enabled = v.provider_enabled;
        chosen = subst (λ k. pool_for policy k x.pools ≡ some v.pool) (sym provider) v.chosen;
        pool_enabled =
            pool_for-usable policy r.provider_id x.pools v.pool
              (subst (λ k. pool_for policy k x.pools ≡ some v.pool) (sym provider) v.chosen);
        names_pool = pool;
        pool_open =
            ap (pool_blocked now x.circuits r.provider_id) pool
            ∙ ap (λ k. pool_blocked now x.circuits k v.pool.keys.pool_id) provider
            ∙ v.pool_open;
        endpoint_open =
            ap (λ k. endpoint_blocked now x.circuits r.provider_id k r.lease.endpoint_key) pool
            ∙ ap (λ k. endpoint_blocked now x.circuits k v.pool.keys.pool_id r.lease.endpoint_key)
                provider
            ∙ v.endpoint_open;
        is_built = v.is_built;
        candidate = ap (λ k. any (λ j. str_eq j k) (candidates_of policy)) provider ∙ listed;
        fallback =
            ap (λ (y : Route). y.fallback_used) v.same
            ∙ ap (λ k. not (str_eq k policy.primary_provider_id)) (sym provider);
      }

  tried-IsHealthy :
      (ids : List String) (failures : List (String × Failure)) (s : Desk) (r : Route)
      → All (λ id. any (λ k. str_eq k id) (candidates_of policy) ≡ true) ids
      → (try_all owner name_of now built x campaign session ttl policy ids failures s).1 ≡ routed r
      → IsHealthy now built x policy r
  unfolding try_all
  tried-IsHealthy [] failures s r listed e = absurd (ground (arith, e))
  tried-IsHealthy (id ∷ ids) failures s r listed e =
      elim (tried_cases
        (try_candidate owner name_of now built x campaign session ttl policy id s).1) [
          | inl (q, took) ↦
              let same : q ≡ r = ground (arith, took, e) in
              IsServed-IsHealthy id r listed.0 (candidate-served id s r (took ∙ ap served same))
          | inr (f, failed) ↦
              tried-IsHealthy ids (failures ++ ((id, f) ∷ []))
                (try_candidate owner name_of now built x campaign session ttl policy id s).0 r
                listed.1 (ground (arith, failed, e))
        ]

listed_among : (ids : List String) → All (λ id. any (λ k. str_eq k id) ids ≡ true) ids
listed_among [] = tt
listed_among (k ∷ ks) = (
  ground (arith, eq_iff k k),
  All-imp (λ id. any (λ j. str_eq j id) ks ≡ true) (λ id. any (λ j. str_eq j id) (k ∷ ks) ≡ true)
      (λ id h. ground (arith, h)) ks (listed_among ks),
)

module _ (owner : String) (name_of : ℕ → String) (now : ℕ) (built : Lease → Bool) (x : Tables)
    (i : Input) (s : Desk) (r : Route) where
  session-IsHealthy :
      (policy : RoutePolicy) (session : Option String)
      → (with_session owner name_of now built x i s policy session).1 ≡ routed r
      → IsHealthy now built x policy r
  session-IsHealthy policy none e = absurd (ground (arith, e))
  session-IsHealthy policy (some id) e =
      tried-IsHealthy owner name_of now built x (trim i.campaign_record_id) id
        (route_ttl i.lease_ttl_ms) policy (candidates_of policy) [] s r
        (listed_among (candidates_of policy)) e

  policy-IsHealthy :
      (o : Option RoutePolicy)
      → x.get_policy (trim i.campaign_record_id) ≡ o
      → (with_policy owner name_of now built x i s o).1 ≡ routed r
      → (policy : RoutePolicy) × (x.get_policy (trim i.campaign_record_id) ≡ some policy)
        × (policy.enabled ≡ true)
        × IsHealthy now built x policy r
  policy-IsHealthy none known e = absurd (ground (arith, e))
  policy-IsHealthy (some policy) known e = elim (Bool-cases policy.enabled) [
    | inr off ↦ absurd (ground (arith, off, e))
    | inl on ↦ (
      policy,
      known,
      on,
      session-IsHealthy policy (browser_session i.session_id) (
          subst
            (λ (b : Bool).
              (if b
                then with_session owner name_of now built x i s policy
                    (browser_session i.session_id)
                else (s, policy_not_found)).1
              ≡ routed r)
            on e),
    )
  ]

  -- A route that is resolved is one of the campaign's policy, which is enabled: its provider and pool are enabled, the
  -- circuits of the pool and of the endpoint that is leased let callers in, and its proxy could be built.
  pub resolve-IsHealthy :
      (resolve owner name_of now built x i s).1 ≡ routed r
      → (policy : RoutePolicy) × (x.get_policy (trim i.campaign_record_id) ≡ some policy)
        × (policy.enabled ≡ true)
        × IsHealthy now built x policy r
  unfolding resolve
  resolve-IsHealthy e = elim (Bool-cases (is_empty (trim i.campaign_record_id))) [
    | inl nobody ↦ absurd (ground (arith, nobody, e))
    | inr named ↦ policy-IsHealthy (x.get_policy (trim i.campaign_record_id)) refl (
        subst
          (λ (b : Bool).
            (if b
              then (s, policy_not_found)
              else with_policy owner name_of now built x i s
                  (x.get_policy (trim i.campaign_record_id))).1
            ≡ routed r)
          named e)
  ]
