-- ===== src/Examples/Captures.antt =====
-- A journey that ends at a shop, and one that ends at the redirect of an affiliate.
use link_suffix.Base.{
  ℕ, ◌≡◌, refl, true, List, [], ◌∷◌, Option, none, some, String, if◌then◌else◌, All,
}
use link_suffix.Base.Text.{codes, same_codes}
use link_suffix.Capture.Query.{nonempty, extract_exact_query_suffix, query_suffix}
use link_suffix.Capture.Query.Late.{hash_first, query_suffix-extract}
use link_suffix.Capture.Policy.{
  Policy, Given, absent, fields, policy, parse_redirect_capture_policy,
}
use link_suffix.Capture.Addresses.{Address, Browser}
use link_suffix.Capture.Evidence.{JourneyResult, evaluate_capture_result}
use link_suffix.Capture.Confirmed.{accepted, document_response, redirect_only}
use link_suffix.Capture.Edge.{Event}
use link_suffix.Capture.Evidence.Sound.{IsSound, evaluate-IsSound}
use link_suffix.Capture.Evidence.Unvisited.{IsElsewhere, evaluate-unvisited}

abbrev landing : List ℕ
landing = codes "https://shop.example.com/p?irclickid=a1"

abbrev shop : List ℕ
shop = codes "https://shop.example.com"

abbrev tracker : List ℕ
tracker = codes "https://track.example.net"

abbrev at : String → List ℕ → String → String → List ℕ → Address
at host origin path search document = record {
  protocol = codes "https:";
  username = [];
  password = [];
  hostname = codes host;
  origin = origin;
  pathname = codes path;
  search = search;
  document = document;
}

-- A platform that knows three addresses.
abbrev known : List ℕ → Option Address
known url =
    if same_codes url landing
    then some (at "shop.example.com" shop "/p" "?irclickid=a1" landing)
    else if same_codes url shop
    then some (at "shop.example.com" shop "/" "" shop)
    else if same_codes url tracker
    then some (at "track.example.net" tracker "/" "" tracker)
    else none

abbrev one_field : String → List (String × String)
one_field s = ("irclickid", "a1") ∷ []

abbrev browser : Browser
browser = record { parse = known; href = λ l base. some l; search_params = one_field }

abbrev rendered_shop : Event
rendered_shop = record {
  url = some landing;
  status = some 200;
  headers = [];
  main_document = true;
  capture_path = none;
  destination_visited = none;
  egress_guard = none;
}

abbrev visit : JourneyResult
visit = record {
  final_landing_url = some landing;
  events = rendered_shop ∷ [];
  error = none;
  challenge_status = none;
  final_verdict = codes "allow";
  redirect_capture = absent;
}

visit-accepted :
    evaluate_capture_result browser none visit
    ≡ accepted landing (codes "irclickid=a1") document_response
unfolding evaluate_capture_result link_suffix.Capture.Edge.edge_stop_for_response
    link_suffix.Capture.Landing.capture_url_issue link_suffix.Capture.Suffix.delivery_suffix_issue
    link_suffix.Capture.Suffix.is_challenge_key link_suffix.Capture.Suffix.empty_identifier
    link_suffix.Outbound.Addresses.trim_codes query_suffix
visit-accepted = refl

evaluate-IsSound_example :
    IsSound browser none visit landing (codes "irclickid=a1") document_response
evaluate-IsSound_example =
    evaluate-IsSound browser none visit landing (codes "irclickid=a1") document_response
      visit-accepted

abbrev redirect : Event
redirect = record {
  url = some tracker;
  status = some 302;
  headers = (codes "Location", landing) ∷ [];
  main_document = true;
  capture_path = some (codes "browser-redirect-only");
  destination_visited = some (codes "false");
  egress_guard = some (codes "origin_allowlist");
}

abbrev affiliate : Given
affiliate = fields (record {
  keys = "mode" ∷ "issuer_origin" ∷ [];
  mode = some (codes "redirect_only");
  issuer_origin = some tracker;
  destination_origin = some shop;
  required_parameter = "irclickid";
  navigation_origins = some (some tracker ∷ []);
})

abbrev guarded_visit : JourneyResult
guarded_visit = record visit { events = redirect ∷ []; redirect_capture = affiliate }

guarded_visit-accepted :
    evaluate_capture_result browser none guarded_visit
    ≡ accepted landing (codes "irclickid=a1") redirect_only
unfolding evaluate_capture_result link_suffix.Capture.Edge.edge_stop_for_response
    link_suffix.Capture.Landing.capture_url_issue link_suffix.Capture.Suffix.delivery_suffix_issue
    link_suffix.Capture.Suffix.is_challenge_key link_suffix.Capture.Suffix.empty_identifier
    link_suffix.Outbound.Addresses.trim_codes query_suffix parse_redirect_capture_policy
    link_suffix.Capture.Origins.is_public_name
    link_suffix.Capture.Policy.redirect_location_for_policy
guarded_visit-accepted = refl

evaluate-unvisited_example :
    (p : Policy) × (parse_redirect_capture_policy browser none affiliate ≡ policy p)
    × All (IsElsewhere browser p) (redirect ∷ [])
evaluate-unvisited_example =
    evaluate-unvisited browser none guarded_visit landing (codes "irclickid=a1")
      guarded_visit-accepted

late_query : extract_exact_query_suffix (codes "https://a/#b?c=1") ≡ codes "c=1"
unfolding extract_exact_query_suffix
late_query = refl

-- An address whose fragment stands before its question mark.
query_suffix-extract_example : query_suffix (codes "https://a/#b?c=1") ≡ (
    if hash_first (codes "https://a/#b?c=1")
    then none
    else nonempty (extract_exact_query_suffix (codes "https://a/#b?c=1")))
query_suffix-extract_example = query_suffix-extract (codes "https://a/#b?c=1")
