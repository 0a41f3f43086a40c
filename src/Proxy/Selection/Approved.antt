-- ===== src/Proxy/Selection/Approved.antt =====
-- What a choice of a saved proxy is checked for.
use link_suffix.Base.{
  ◌≡◌, ◌⊎◌, refl, ap, subst, ◌∙◌, if◌then◌else◌, Bool, true, false, not, ◌&&◌, ◌||◌, Option, none,
  some, String, str_eq, is_some, Bool-cases, inl, inr, arith,
}
use link_suffix.Base.Text.{codes, is_empty, trim}
use link_suffix.Proxy.Selection.{
  Choice, selection_made, refused, ProxyPool, Provider, Service, Setting, Wish, Campaign, Selection,
  is_country, service_of, policy_of, current_pool_id, pool_of, provider_of, both_enabled,
  has_secret, is_pending, Refusal, invalid_pool, runtime_disabled, journeys_required,
  country_required, storage_unavailable, not_enabled, no_secret, still_running, still_runs,
  selection_of, chosen_for, for_pool, is_pool_name, prepare_selection,
}

-- A saved proxy that is chosen: its pool and its provider are found and enabled, its secret can be read unless addresses
-- are allowed, the assignment names both, and the run is a browser journey without MITM to a country.
pub record IsSaved (o : Setting) (w : Wish) (existing : Option Campaign) (s : Selection)
    : Type 0 where
  pub service : Service
  pub pool : ProxyPool
  pub provider : Provider
  pub asked : service_of o true existing ≡ some service
  pub pool_found : service.get_pool s.pool_id ≡ some pool
  pub provider_found : service.get_provider pool.provider_id ≡ some provider
  pub enabled : (pool.enabled ≡ true) × (provider.enabled ≡ true)
  pub secret :
      (str_eq provider.auth_mode "ip-allowlist" || service.runtime_secret provider.provider_id)
      ≡ true
  pub names_pool : s.assignment.primary_pool_id ≡ some pool.pool_id
  pub names_provider : s.assignment.primary_provider_id ≡ some provider.provider_id
  pub runtime : o.runtime_enabled ≡ true
  pub journey : (str_eq w.tier "human" ≡ true) × (w.mitm ≡ false)
  pub country : is_country (codes w.country) ≡ true

-- An existing campaign has stopped, is not to run and has no run.
abbrev pub IsAtRest : Option Campaign → Type 0
IsAtRest none = Unit
IsAtRest (some c) =
    (str_eq c.status "stopped" ≡ true)
    × (c.desired_running ≡ false)
    × (is_some c.active_run_id ≡ false)

-- What a choice is checked for: it gives up the saved proxy, or is of an approved one; it changes nothing and none is
-- pending, or the campaign is at rest.
abbrev pub IsApproved : Setting → Wish → Option Campaign → Selection → Type 0
IsApproved o w existing s =
    (((s.registry ≡ false) × (s.assignment.enabled ≡ false))
      ⊎ (IsSaved o w existing s × (s.assignment.enabled ≡ true)))
    × (((s.changed ≡ false) × (is_pending existing ≡ false)) ⊎ IsAtRest existing)

still_runs-IsAtRest : (e : Option Campaign) → still_runs e ≡ false → IsAtRest e
still_runs-IsAtRest none h = tt
still_runs-IsAtRest (some c) h = ground (arith, h)

-- A guard that did not refuse.
past :
    (t : Bool) (e : Refusal) (rest : Choice (Option Selection)) (x : Option Selection)
    → (if t then refused e else rest) ≡ selection_made x
    → (t ≡ false) × (rest ≡ selection_made x)
past true e rest x h = absurd (ground (arith, h))
past false e rest x h = (refl, h)

module _ (o : Setting) (w : Wish) (existing : Option Campaign) (s : Selection) where
  -- What the last part checks.
  pub record IsChosen (registry : Bool) (service : Option Service) (pool : Option ProxyPool)
      (provider : Option Provider) (pool_id : String) : Type 0 where
    pub both : registry ≡ true → both_enabled pool provider ≡ true
    pub readable : registry ≡ true → has_secret service provider ≡ true
    pub rests : s.changed ≡ true → still_runs existing ≡ false
    pub same :
        s
        ≡ selection_of w pool_id registry
            (not (str_eq pool_id (current_pool_id (policy_of service existing)))
              || is_pending existing)
            pool
            provider

  chosen_for-IsChosen :
      (pool_id : String) (registry : Bool) (service : Option Service) (pool : Option ProxyPool)
      (provider : Option Provider)
      → chosen_for w existing pool_id registry service pool provider ≡ selection_made (some s)
      → IsChosen registry service pool provider pool_id
  chosen_for-IsChosen pool_id registry service pool provider h =
      let changed =
        not (str_eq pool_id (current_pool_id (policy_of service existing)))
        || is_pending existing in
      let x = selection_of w pool_id registry changed pool provider in
      let (both, h1) =
        past (registry && not (both_enabled pool provider)) not_enabled _ (some s) h in
      let (readable, h2) =
        past (registry && not (has_secret service provider)) no_secret _ (some s) h1 in
      let (rests, h3) =
        past (changed && still_runs existing) still_running (selection_made (some x)) (some s) h2 in
      let same : s ≡ x = cc h3 in
      record {
        both = λ e. ground (arith, both, e);
        readable = λ e. ground (arith, readable, e);
        rests = λ e. ground (arith, rests, ap (λ (y : Selection). y.changed) same, e);
        same = same;
      }

  -- What a registry's part checks before.
  pub record IsAsked (registry : Bool) : Type 0 where
    pub runtime : registry ≡ true → o.runtime_enabled ≡ true
    pub journey : registry ≡ true → (str_eq w.tier "human" ≡ true) × (w.mitm ≡ false)
    pub country : registry ≡ true → is_country (codes w.country) ≡ true

  for_pool-IsAsked :
      (pool_id : String)
      → for_pool o w existing pool_id ≡ selection_made (some s)
      → let registry = not (is_empty pool_id) in
        let service = service_of o registry existing in
        IsAsked registry
        × (registry ≡ true → is_some service ≡ true)
        × IsChosen registry service
            (pool_of registry service pool_id)
            (provider_of service (pool_of registry service pool_id))
            pool_id
  for_pool-IsAsked pool_id h =
      let registry = not (is_empty pool_id) in
      let (named, h1) =
        past (registry && not (is_pool_name (codes pool_id))) invalid_pool _ (some s) h in
      let (runtime, h2) = past (registry && not o.runtime_enabled) runtime_disabled _ (some s) h1 in
      let (journey, h3) =
        past (registry && (not (str_eq w.tier "human") || w.mitm)) journeys_required _ (some s)
          h2 in
      let (country, h4) =
        past (registry && not (is_country (codes w.country))) country_required _ (some s) h3 in
      let service = service_of o registry existing in
      let (stored, h5) =
        past (registry && not (is_some service)) storage_unavailable _ (some s) h4 in
      (
        record {
          runtime = λ e. ground (arith, runtime, e);
          journey = λ e. ground (arith, journey, e);
          country = λ e. ground (arith, country, e);
        },
        λ e. ground (arith, stored, e),
        chosen_for-IsChosen pool_id registry service (pool_of registry service pool_id)
            (provider_of service (pool_of registry service pool_id)) h5,
      )

  -- The parts of a choice of a saved proxy.
  found-IsSaved :
      (pool_id : String) (service : Option Service) (pool : Option ProxyPool)
      (provider : Option Provider)
      → service_of o true existing ≡ service
      → pool_of true service pool_id ≡ pool
      → provider_of service pool ≡ provider
      → IsAsked true
      → IsChosen true service pool provider pool_id
      → IsSaved o w existing s
  found-IsSaved pool_id (some v) (some p) (some r) e f g asked chosen = record {
    service = v;
    pool = p;
    provider = r;
    asked = e;
    pool_found = ap v.get_pool (ap (λ (y : Selection). y.pool_id) chosen.same) ∙ f;
    provider_found = g;
    enabled = ground (arith, chosen.both refl);
    secret = chosen.readable refl;
    names_pool = ap (λ (y : Selection). y.assignment.primary_pool_id) chosen.same;
    names_provider = ap (λ (y : Selection). y.assignment.primary_provider_id) chosen.same;
    runtime = asked.runtime refl;
    journey = asked.journey refl;
    country = asked.country refl;
  }
  found-IsSaved pool_id (some v) (some p) none e f g asked chosen =
      absurd (ground (arith, chosen.both refl))
  found-IsSaved pool_id (some v) none provider e f g asked chosen =
      absurd (ground (arith, chosen.both refl))
  found-IsSaved pool_id none (some p) provider e f g asked chosen = absurd (ground (arith, f))
  found-IsSaved pool_id none none provider e f g asked chosen =
      absurd (ground (arith, chosen.both refl))

  named-IsSaved :
      (pool_id : String)
      → not (is_empty pool_id) ≡ true
      → IsAsked (not (is_empty pool_id))
      → let service = service_of o (not (is_empty pool_id)) existing in
        let pool = pool_of (not (is_empty pool_id)) service pool_id in
        IsChosen (not (is_empty pool_id)) service pool (provider_of service pool) pool_id
        → IsSaved o w existing s
  named-IsSaved pool_id named asked chosen =
      let service = service_of o true existing in
      let pool = pool_of true service pool_id in
      found-IsSaved pool_id service pool (provider_of service pool) refl refl refl
        (subst IsAsked named asked)
        (subst
          (λ r.
            IsChosen r (service_of o r existing) (pool_of r (service_of o r existing) pool_id)
              (provider_of (service_of o r existing) (pool_of r (service_of o r existing) pool_id))
              pool_id)
          named chosen)

  for_pool-IsApproved :
      (pool_id : String)
      → for_pool o w existing pool_id ≡ selection_made (some s)
      → IsApproved o w existing s
  for_pool-IsApproved pool_id h =
      let (asked, stored, chosen) = for_pool-IsAsked pool_id h in
      let registered = ap (λ (y : Selection). y.registry) chosen.same in
      let enabled = ap (λ (y : Selection). y.assignment.enabled) chosen.same in
      (
        elim (Bool-cases (not (is_empty pool_id))) [
          | inl named ↦ inr (named-IsSaved pool_id named asked chosen, enabled ∙ named)
          | inr legacy ↦ inl (registered ∙ legacy, enabled ∙ legacy)
        ],
        elim (Bool-cases s.changed) [
          | inl changed ↦ inr (still_runs-IsAtRest existing (chosen.rests changed))
          | inr same ↦
              inl (same, ground (arith, ap (λ (y : Selection). y.changed) chosen.same, same))
        ],
      )

  wish-IsApproved :
      (id : Option String)
      → w.proxy_pool_id ≡ id
      → prepare_selection o w existing ≡ selection_made (some s)
      → IsApproved o w existing s
  unfolding prepare_selection
  wish-IsApproved none e h = absurd (ground (arith, e, h))
  wish-IsApproved (some id) e h = for_pool-IsApproved (trim id) (ground (arith, e, h))

-- A choice that is made gives up the saved proxy, or is of one whose pool and provider are found and enabled and whose
-- secret can be read where it is needed, in a run that may use it, and only then the assignment is enabled. It
-- changes nothing and none was pending, or an existing campaign has stopped, is not to run and has no run.
pub prepare_selection-IsApproved :
    (o : Setting) (w : Wish) (existing : Option Campaign) (s : Selection)
    → prepare_selection o w existing ≡ selection_made (some s)
    → IsApproved o w existing s
prepare_selection-IsApproved o w existing s h =
    wish-IsApproved o w existing s w.proxy_pool_id refl h
