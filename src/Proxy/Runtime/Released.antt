-- ===== src/Proxy/Runtime/Released.antt =====
-- What a call that resolves no route leaves behind.
use link_suffix.Base.{
  ℕ, ◌≡◌, refl, ap, subst, inl, inr, true, false, Bool, List, [], ◌∷◌, ◌++◌, Option, none, some,
  String, Bool-cases, arith, length, ◌==◌, if◌then◌else◌,
}
use link_suffix.Base.Text.{is_empty, trim}
use link_suffix.Proxy.Leases.{Lease, released}
use link_suffix.Proxy.Coordinator.{
  Request, Desk, Outcome, acquired, unavailable, no_endpoints, acquire, release_desk,
}
use link_suffix.Proxy.Coordinator.Returned.{IsOpen, acquire-IsOpen, refused-IsOpen}
use link_suffix.Proxy.Runtime.Keys.{lease_endpoint_keys}
use link_suffix.Proxy.Runtime.{
  RouteProvider, RoutePool, RoutePolicy, Tables, Input, Failure, Tried, failed_by, Resolved,
  no_route, every_circuit_open, pool_circuit_open, disabled_or_missing, policy_not_found,
  provider_named, pool_for, pool_blocked, with_lease, request_for, open_keys, with_keys,
  tried_cases, with_pool, with_provider, try_candidate, try_all, candidates_of, browser_session,
  with_session, with_policy, resolve, route_ttl,
}

-- A guard of a candidate changes nothing.
guarded-IsOpen :
    (now : ℕ) (mine endpoint : String) (b : Bool) (g f : Failure) (s : Desk) (t : Desk × Tried)
    → (if b then (s, failed_by g) else t).1 ≡ failed_by f
    → IsOpen now mine endpoint s
    → (t.1 ≡ failed_by f → IsOpen now mine endpoint t.0)
    → IsOpen now mine endpoint (if b then (s, failed_by g) else t).0
guarded-IsOpen now mine endpoint true g f s t e free rest = free
guarded-IsOpen now mine endpoint false g f s t e free rest = rest e

allowed-IsOpen :
    (now : ℕ) (mine endpoint : String) (b : Bool) (g f : Failure) (s : Desk) (t : Desk × Tried)
    → (if b then t else (s, failed_by g)).1 ≡ failed_by f
    → IsOpen now mine endpoint s
    → (t.1 ≡ failed_by f → IsOpen now mine endpoint t.0)
    → IsOpen now mine endpoint (if b then t else (s, failed_by g)).0
allowed-IsOpen now mine endpoint true g f s t e free rest = rest e
allowed-IsOpen now mine endpoint false g f s t e free rest = free

-- Either way of a test of the call.
branch-IsOpen :
    (now : ℕ) (mine endpoint : String) (b : Bool) (found : List (String × Failure)) (s : Desk)
    (t u : Desk × Resolved)
    → (if b then t else u).1 ≡ no_route found
    → (t.1 ≡ no_route found → IsOpen now mine endpoint s → IsOpen now mine endpoint t.0)
    → (u.1 ≡ no_route found → IsOpen now mine endpoint s → IsOpen now mine endpoint u.0)
    → IsOpen now mine endpoint s
    → IsOpen now mine endpoint (if b then t else u).0
branch-IsOpen now mine endpoint true found s t u e first second free = first e free
branch-IsOpen now mine endpoint false found s t u e first second free = second e free

module _ (owner : String) (name_of : ℕ → String) (now : ℕ) (built : Lease → Bool) (x : Tables)
    (campaign session : String) (ttl : ℕ) (policy : RoutePolicy) (mine endpoint : String) where
  lease-IsOpen :
      (q : Request) (provider pool : String) (s : Desk) (out : Desk × Outcome) (f : Failure)
      → acquire owner name_of now q s ≡ out
      → (with_lease owner name_of now built x campaign session ttl policy provider pool out).1
        ≡ failed_by f
      → IsOpen now mine endpoint s
      → IsOpen now mine endpoint
          (with_lease owner name_of now built x campaign session ttl policy provider pool out).0
  lease-IsOpen q provider pool s (t, acquired l) f same e free = elim (Bool-cases (built l)) [
    | inl fine ↦ absurd (ground (arith, fine, e))
    | inr bad ↦
        let back = acquire-IsOpen owner name_of now q endpoint mine s l (ap (λ o. o.1) same) free in
        let there =
          subst
            (λ (o : Desk × Outcome).
              IsOpen now mine endpoint (release_desk owner name_of now l released o.0).0)
            same back in
        rw bad there
  ]
  lease-IsOpen q provider pool s (t, unavailable) f same e free =
      subst (λ (o : Desk × Outcome). IsOpen now mine endpoint o.0) same
        (refused-IsOpen owner name_of now q endpoint mine s (inl (ap (λ o. o.1) same)) free)
  lease-IsOpen q provider pool s (t, no_endpoints) f same e free =
      subst (λ (o : Desk × Outcome). IsOpen now mine endpoint o.0) same
        (refused-IsOpen owner name_of now q endpoint mine s (inr (ap (λ o. o.1) same)) free)

  keys-IsOpen :
      (provider pool : String) (s : Desk) (o : Option (List String)) (f : Failure)
      → (with_keys owner name_of now built x campaign session ttl policy provider pool s o).1
        ≡ failed_by f
      → IsOpen now mine endpoint s
      → IsOpen now mine endpoint
          (with_keys owner name_of now built x campaign session ttl policy provider pool s o).0
  keys-IsOpen provider pool s none f e free = free
  keys-IsOpen provider pool s (some keys) f e free =
      let usable =
        open_keys owner name_of now built x campaign session ttl policy provider pool keys in
      let q =
        request_for owner name_of now built x campaign session ttl policy provider pool usable in
      let out = acquire owner name_of now q s in
      guarded-IsOpen now mine endpoint (length usable == 0) every_circuit_open f s
        (with_lease owner name_of now built x campaign session ttl policy provider pool out) e free
        (λ h. lease-IsOpen q provider pool s out f refl h free)

  pool-IsOpen :
      (id : String) (v : RouteProvider) (s : Desk) (o : Option RoutePool) (f : Failure)
      → (with_pool owner name_of now built x campaign session ttl policy id v s o).1 ≡ failed_by f
      → IsOpen now mine endpoint s
      → IsOpen now mine endpoint
          (with_pool owner name_of now built x campaign session ttl policy id v s o).0
  pool-IsOpen id v s none f e free = free
  pool-IsOpen id v s (some p) f e free =
      let keys =
        lease_endpoint_keys (x.session_hash session) p.keys v.gateway_host policy.rotation_mode in
      guarded-IsOpen now mine endpoint (pool_blocked now x.circuits id p.keys.pool_id)
        pool_circuit_open f s
        (with_keys owner name_of now built x campaign session ttl policy id p.keys.pool_id s keys) e
        free (λ h. keys-IsOpen id p.keys.pool_id s keys f h free)

  provider-IsOpen :
      (id : String) (s : Desk) (o : Option RouteProvider) (f : Failure)
      → (with_provider owner name_of now built x campaign session ttl policy id s o).1 ≡ failed_by f
      → IsOpen now mine endpoint s
      → IsOpen now mine endpoint
          (with_provider owner name_of now built x campaign session ttl policy id s o).0
  provider-IsOpen id s none f e free = free
  provider-IsOpen id s (some v) f e free =
      allowed-IsOpen now mine endpoint v.enabled disabled_or_missing f s
        (with_pool owner name_of now built x campaign session ttl policy id v s
          (pool_for policy id x.pools))
        e free (λ h. pool-IsOpen id v s (pool_for policy id x.pools) f h free)

  candidate-IsOpen :
      (id : String) (s : Desk) (f : Failure)
      → (try_candidate owner name_of now built x campaign session ttl policy id s).1 ≡ failed_by f
      → IsOpen now mine endpoint s
      → IsOpen now mine endpoint
          (try_candidate owner name_of now built x campaign session ttl policy id s).0
  unfolding try_candidate
  candidate-IsOpen id s f e free = provider-IsOpen id s (provider_named id x.providers) f e free

  -- No route: every candidate has failed, one after the other.
  all-IsOpen :
      (ids : List String) (failures found : List (String × Failure)) (s : Desk)
      → (try_all owner name_of now built x campaign session ttl policy ids failures s).1
        ≡ no_route found
      → IsOpen now mine endpoint s
      → IsOpen now mine endpoint
          (try_all owner name_of now built x campaign session ttl policy ids failures s).0
  unfolding try_all
  all-IsOpen [] failures found s e free = free
  all-IsOpen (id ∷ ids) failures found s e free =
      elim (tried_cases
        (try_candidate owner name_of now built x campaign session ttl policy id s).1) [
          | inl (r, took) ↦ absurd (ground (arith, took, e))
          | inr (f, failed) ↦
              rw (try_all, failed)
                (all-IsOpen ids (failures ++ ((id, f) ∷ [])) found
                  (try_candidate owner name_of now built x campaign session ttl policy id s).0
                  (ground (arith, failed, e)) (candidate-IsOpen id s f failed free))
        ]

module _ (owner : String) (name_of : ℕ → String) (now : ℕ) (built : Lease → Bool) (x : Tables)
    (i : Input) (s : Desk) (found : List (String × Failure)) (mine endpoint : String) where
  session-IsOpen :
      (policy : RoutePolicy) (session : Option String)
      → (with_session owner name_of now built x i s policy session).1 ≡ no_route found
      → IsOpen now mine endpoint s
      → IsOpen now mine endpoint (with_session owner name_of now built x i s policy session).0
  session-IsOpen policy none e free = free
  session-IsOpen policy (some id) e free =
      all-IsOpen owner name_of now built x (trim i.campaign_record_id) id (route_ttl i.lease_ttl_ms)
        policy mine endpoint (candidates_of policy) [] found s e free

  policy-IsOpen :
      (o : Option RoutePolicy)
      → (with_policy owner name_of now built x i s o).1 ≡ no_route found
      → IsOpen now mine endpoint s
      → IsOpen now mine endpoint (with_policy owner name_of now built x i s o).0
  policy-IsOpen none e free = free
  policy-IsOpen (some policy) e free =
      branch-IsOpen now mine endpoint policy.enabled found s
        (with_session owner name_of now built x i s policy (browser_session i.session_id))
        (s, policy_not_found) e (session-IsOpen policy (browser_session i.session_id)) (λ h f. f)
        free

  -- A call that ends without a route, all its candidates having failed, takes nothing: an endpoint that nobody
  -- leased and whose lock for a provider nobody held is so after it, also where a lease was got for it and the proxy
  -- could then not be built.
  pub resolve-IsOpen :
      (resolve owner name_of now built x i s).1 ≡ no_route found
      → IsOpen now mine endpoint s
      → IsOpen now mine endpoint (resolve owner name_of now built x i s).0
  unfolding resolve
  resolve-IsOpen e free =
      branch-IsOpen now mine endpoint (is_empty (trim i.campaign_record_id)) found s
        (s, policy_not_found)
        (with_policy owner name_of now built x i s (x.get_policy (trim i.campaign_record_id))) e
        (λ h f. f) (policy-IsOpen (x.get_policy (trim i.campaign_record_id))) free
