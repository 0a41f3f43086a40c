-- ===== src/Examples/Proxies.antt =====
-- The leases of two endpoints at concrete requests.
use link_suffix.Base.{
  ℕ, suc, ◌≡◌, ◌↔◌, refl, List, [], ◌∷◌, Option, none, some, String, true, false, arith, any,
  str_eq,
}
use link_suffix.Base.Text.{decimal}
use link_suffix.Base.Maps.{get}
use link_suffix.Proxy.Leases.{
  Terms, Lease, active, expired, released, Repository, Holder, empty_repository, reserve, renew,
  release, reap_expired,
}
use link_suffix.Proxy.Leases.Exclusive.{IsExclusive}
use link_suffix.Proxy.Leases.History.{Steps, here, next, reserves, reaps, Steps-one_holder}
use link_suffix.Proxy.Leases.Fenced.{stale_holder}
use link_suffix.Proxy.Leases.Spec.{view, Moves, is_taken}
use link_suffix.Proxy.Leases.Refines.{Steps-refine}
use link_suffix.Proxy.Coordinator.{Request, Desk, acquired, acquire}
use link_suffix.Proxy.Coordinator.Given.{is_free}
use link_suffix.Proxy.Coordinator.Progress.{acquire-serves, acquire-gives_back}

abbrev first_terms : Terms
first_terms = record {
  lease_id = "lease-1";
  provider_id = "evomi";
  pool_id = "pool";
  campaign_id = "c-1";
  endpoint_key = "gw:1000";
  owner_id = "runtime";
  ttl_ms = 10_000;
}

abbrev second_terms : Terms
second_terms = record first_terms { lease_id = "lease-2"; campaign_id = "c-2" }

abbrev one_lease : Repository
one_lease = (reserve 1_000 first_terms empty_repository).0

one_step : Steps empty_repository one_lease
unfolding get
one_step = next here (reserves 1_000 first_terms refl refl)

Steps-one_holder_example : IsExclusive one_lease
Steps-one_holder_example = Steps-one_holder one_step

abbrev reaped : Repository
reaped = (reap_expired 20_000 one_lease).0

abbrev stale : Lease
stale = record {
  terms = first_terms;
  fencing_token = 1;
  state = expired;
  created_at = 1_000;
  expires_at = 11_000;
  released_at = none;
}

abbrev first_holder : Holder
first_holder = record { lease_id = "lease-1"; owner_id = "runtime"; fencing_token = 1 }

stale_holder_example :
    let later = (reserve 21_000 second_terms reaped).0 in
    (renew 22_000 first_holder 10_000 later ≡ (later, none))
    × (release 22_000 first_holder released later ≡ (later, false))
unfolding reserve reap_expired get link_suffix.Base.Maps.put
stale_holder_example =
    stale_holder "lease-1" stale first_holder 22_000 10_000 released
      (Steps-one_holder (next one_step (reaps 20_000))) refl refl refl
      (next here (reserves 21_000 second_terms refl refl))

abbrev wanted : Request
wanted = record {
  provider_id = "evomi";
  pool_id = "pool";
  campaign_id = "c-2";
  endpoint_keys = "gw:1000" ∷ "gw:1001" ∷ [];
  ttl_ms = none;
}

abbrev desk : Desk
desk = record { repository = one_lease; locks = []; drawn = 2 }

acquire-serves_example :
    (l : Lease) × ((acquire "runtime" decimal 2_000 wanted desk).1 ≡ acquired l)
unfolding get reserve link_suffix.Base.Maps.put
acquire-serves_example = acquire-serves "runtime" decimal 2_000 wanted desk "gw:1001" refl refl refl

abbrev same_endpoint : Request
same_endpoint = record wanted { endpoint_keys = "gw:1000" ∷ "gw:1000" ∷ [] }

acquire-gives_back_example :
    let after = (acquire "runtime" decimal 2_000 same_endpoint desk).0 in
    (is_free 2_000 "gw:1001" after.repository ≡ true) × (after.locks ≡ desk.locks)
unfolding get reserve acquire link_suffix.Base.Maps.put
acquire-gives_back_example =
    acquire-gives_back "runtime" decimal 2_000 same_endpoint desk "gw:1001" refl refl

Steps-refine_example : Moves 20_000 none (view one_lease) (view reaped)
Steps-refine_example = Steps-refine one_step (reaps 20_000)

-- A release that sets the state "active" frees the endpoint and leaves its lease: two leases of one endpoint are then
-- live at once.
abbrev released_as_active : Repository
released_as_active = (reserve 3_000 second_terms (release 2_000 first_holder active one_lease).0).0

two_holders :
    (is_taken 3_000 (get released_as_active.leases "lease-1") ≡ true)
    × (is_taken 3_000 (get released_as_active.leases "lease-2") ≡ true)
unfolding reserve release get link_suffix.Base.Maps.put link_suffix.Base.Maps.delete
two_holders = (refl, refl)
