-- ===== src/Redirects.antt =====
-- packages/tiers/trivial-http/src/redirectResolver.ts: a chain of redirects is followed without a browser. A URL object
-- is its `href`, from which the parser gives its parts; what the network answers to a request, and the time
-- since the start, are arguments by the number of the hop; the name service is asked at 0 for the seed, and after
-- it at the hop's number and one.
pub mod Locations
pub mod Refresh
pub mod Allowed
pub mod Chain
pub mod Resolved
use link_suffix.Base.{
  ℕ, zero, suc, ◌+◌, ◌-◌, Bool, true, false, not, ◌&&◌, ◌||◌, List, [], ◌∷◌, ◌++◌, map, Option,
  none, some, String, leb, ltb, ◌==◌, if◌then◌else◌, length, any, find?, is_some,
}
use link_suffix.Base.Text.{codes, same_codes, starts_with, lower, is_digit}
use link_suffix.Outbound.Addresses.{trim_codes, ends_with, without_open, without_close}
use link_suffix.Capture.Query.{has_exact_query}
use link_suffix.Capture.Policy.{Headers}
use link_suffix.Capture.Addresses.{Address, Browser}
use link_suffix.Capture.Edge.{Event, edge_stop_for_response, Code}
use link_suffix.Network.{Net, public_http_url, resolve_public_address}
use link_suffix.Redirects.Refresh.{parse_refresh_location}
use link_suffix.Redirects.Locations.{
  is_in_172, is_hex, is_unique_local, is_private_hostname, Target, is_absolute, is_web, target_at,
  target_of, resolve_location, header_at, refreshed, location_or, present, location_in,
}

-- What a request comes to: an answer, or the error of the proxy's transport, of the proxy's answer, or another.
pub data Answer : Type 0 where
  responded : ℕ → Headers → Answer
  transport_failed request_failed : Answer
  proxy_responded : ℕ → Headers → Answer

-- RedirectResolutionHop
pub record Redirect : Type 0 where
  pub from : List ℕ
  pub to : List ℕ
  pub status : ℕ

pub data Reason : Type 0 where
  invalid_seed_url redirect_total_timeout challenge_url_blocked redirect_request_failed
        edge_response_stopped redirect_without_location redirect_hop_limit
        unsupported_redirect_location private_redirect_blocked external_redirect_requires_browser
        challenge_or_rate_limit browser_navigation_required :
      Reason

-- `outcome` with its reason; `thrown` is the error that is passed on to the caller.
pub data Outcome : Type 0 where
  captured : List ℕ → Outcome
  browser_required : Reason → Outcome
  stopped : Reason → List ℕ → Outcome
  thrown : Outcome

-- RedirectFirstResult
pub record Resolution : Type 0 where
  pub outcome : Outcome
  pub events : List Event
  pub redirects : List Redirect

-- The settings, the scenario's switch, and what the world answers at a hop.
pub record Journey : Type 0 where
  pub net : Net
  pub max_hops : ℕ
  pub total_timeout_ms : ℕ
  pub follow_external : Bool
  pub fire : ℕ → List ℕ → Answer
  pub elapsed : ℕ → ℕ

abbrev pub event_at : List ℕ → Option ℕ → Headers → Event
event_at url status hs = record {
  url = some url;
  status = status;
  headers = hs;
  main_document = true;
  capture_path = some (codes "redirect-first");
  destination_visited = none;
  egress_guard = none;
}

abbrev pub ends : Outcome → List Event → List Redirect → Resolution
ends o es rs = record { outcome = o; events = es; redirects = rs }

-- The target passes both tests of its address.
abbrev pub is_reachable : Net → ℕ → Target → Bool
is_reachable n hop t =
    is_some (public_http_url n t.request_url)
    && is_some (resolve_public_address n hop t.address.hostname)

-- The rest of the loop after a redirect: `next` is the following hop. The name service is asked once more.
abbrev pub on_target :
    Journey
    → List ℕ
    → ℕ
    → List ℕ
    → ℕ
    → List Event
    → List Redirect
    → (List ℕ → List Redirect → Resolution)
    → Option Target
    → Resolution
on_target j seed_origin hop current status es rs next none =
    ends (browser_required unsupported_redirect_location) es rs
on_target j seed_origin hop current status es rs next (some t) =
    let rs' = rs ++ (record { from = current; to = t.captured_url; status = status } ∷ []) in
    if is_private_hostname t.address.hostname || not (is_reachable j.net (suc hop) t)
    then ends (browser_required private_redirect_blocked) es rs
    else if not (same_codes t.address.origin seed_origin) && not j.follow_external
    then (if has_exact_query t.captured_url
        then ends (captured t.captured_url) es rs'
        else ends (browser_required external_redirect_requires_browser) es rs')
    else next t.request_url rs'

abbrev pub on_location :
    Journey
    → List ℕ
    → ℕ
    → List ℕ
    → ℕ
    → List Event
    → List Redirect
    → (List ℕ → List Redirect → Resolution)
    → Option (List ℕ)
    → Resolution
on_location j seed_origin hop current status es rs next none =
    ends (browser_required redirect_without_location) es rs
on_location j seed_origin hop current status es rs next (some l) =
    if leb j.max_hops hop
    then ends (browser_required redirect_hop_limit) es rs
    else on_target j seed_origin hop current status es rs next
        (resolve_location j.net.browser l current)

abbrev pub last_to : List Redirect → Option (List ℕ)
last_to [] = none
last_to (r ∷ []) = some r.to
last_to (r ∷ r' ∷ rs) = last_to (r' ∷ rs)

abbrev pub at_end : ℕ → List Event → List Redirect → Resolution
at_end status es rs =
    ends
      (browser_required (
        if status == 403 || status == 429
        then challenge_or_rate_limit
        else browser_navigation_required))
      es rs

-- An answer that is no redirect: the last redirect counts if it was answered with a success.
abbrev pub on_final : ℕ → List Event → List Redirect → Option (List ℕ) → Resolution
on_final status es rs none = at_end status es rs
on_final status es rs (some to) =
    if leb 200 status && ltb status 300 && has_exact_query to
    then ends (captured to) es rs
    else at_end status es rs

abbrev pub on_response :
    Journey
    → List ℕ
    → ℕ
    → List ℕ
    → ℕ
    → Headers
    → List Event
    → List Redirect
    → (List ℕ → List Redirect → Resolution)
    → Resolution
on_response j seed_origin hop current status hs es rs next =
    if is_some (edge_stop_for_response j.net.browser (event_at current (some status) hs))
    then ends (stopped edge_response_stopped current) es rs
    else if leb 300 status && ltb status 400
    then on_location j seed_origin hop current status es rs next (location_in hs)
    else on_final status es rs (last_to rs)

abbrev pub on_answer :
    Journey
    → List ℕ
    → ℕ
    → List ℕ
    → List Event
    → List Redirect
    → (List Event → List ℕ → List Redirect → Resolution)
    → Answer
    → Resolution
on_answer j seed_origin hop current es rs next (responded status hs) =
    let es' = es ++ (event_at current (some status) hs ∷ []) in
    on_response j seed_origin hop current status hs es' rs (next es')
on_answer j seed_origin hop current es rs next transport_failed =
    if length es == 0
    then ends thrown es rs
    else ends (stopped redirect_request_failed current) es rs
on_answer j seed_origin hop current es rs next (proxy_responded status hs) =
    ends (stopped redirect_request_failed current) (es ++ (event_at current (some status) hs ∷ []))
      rs
on_answer j seed_origin hop current es rs next request_failed =
    ends (stopped redirect_request_failed current) es rs

-- One hop.
unfoldable pub at_hop :
    Journey
    → List ℕ
    → ℕ
    → List ℕ
    → List Event
    → List Redirect
    → (List Event → List ℕ → List Redirect → Resolution)
    → Resolution
unfolding resolve_location is_private_hostname
at_hop j seed_origin hop current es rs next =
    if leb j.total_timeout_ms (j.elapsed hop)
    then ends (browser_required redirect_total_timeout) es rs
    else if is_some (edge_stop_for_response j.net.browser (event_at current none []))
    then ends (stopped challenge_url_blocked current) (es ++ (event_at current (some 0) [] ∷ [])) rs
    else on_answer j seed_origin hop current es rs next (j.fire hop current)

-- The loop, with the hops that are left.
unfoldable pub hops : Journey → List ℕ → ℕ → ℕ → List ℕ → List Event → List Redirect → Resolution
hops j seed_origin zero hop current es rs = ends (browser_required redirect_hop_limit) es rs
hops j seed_origin (suc left) hop current es rs =
    at_hop j seed_origin hop current es rs
      (λ es' url rs'. hops j seed_origin left (suc hop) url es' rs')

abbrev pub seeded : Journey → List ℕ → Option Address → Resolution
seeded j seed none = ends (browser_required invalid_seed_url) [] []
seeded j seed (some a) =
    if is_some (resolve_public_address j.net 0 a.hostname)
    then hops j a.origin (suc j.max_hops) 0 seed [] []
    else ends (browser_required invalid_seed_url) [] []

-- `resolveRedirectFirst`, from the seed's `href`.
unfoldable pub resolve_redirect_first : Journey → List ℕ → Resolution
unfolding hops
resolve_redirect_first j seed = seeded j seed (public_http_url j.net seed)
