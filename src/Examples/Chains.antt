-- ===== src/Examples/Chains.antt =====
-- A tracking link that redirects to a shop on another host.
use link_suffix.Base.{
  ℕ, ◌≡◌, refl, false, List, [], ◌∷◌, Option, none, some, String, if◌then◌else◌, All,
}
use link_suffix.Base.Text.{codes, same_codes}
use link_suffix.Capture.Addresses.{Address}
use link_suffix.Network.{Net, public_http_url, public_bytes}
use link_suffix.Redirects.{
  Journey, Answer, responded, request_failed, captured, resolve_redirect_first,
}
use link_suffix.Redirects.Allowed.{Visits, Confirmed}
use link_suffix.Redirects.Resolved.{resolve-Visits, resolve-Confirmed}

abbrev link : List ℕ
link = codes "https://track.example.net/go"

abbrev landing : List ℕ
landing = codes "https://shop.example.com/?irclickid=a1"

abbrev at : String → String → List ℕ → Address
at host origin document = record {
  protocol = codes "https:";
  username = [];
  password = [];
  hostname = codes host;
  origin = codes origin;
  pathname = codes "/";
  search = "";
  document = document;
}

abbrev parse : List ℕ → Option Address
parse url =
    if same_codes url link
    then some (at "track.example.net" "https://track.example.net" link)
    else if same_codes url landing
    then some (at "shop.example.com" "https://shop.example.com" landing)
    else none

abbrev is_ip : List ℕ → ℕ
is_ip host = if same_codes host (codes "93.184.216.34") then 4 else 0

abbrev net : Net
net = record {
  browser = record { parse = parse; href = λ l base. some l; search_params = λ s. [] };
  is_ip = is_ip;
  lookup = λ time host. some ((codes "93.184.216.34", 4) ∷ []);
}

abbrev answer : ℕ → List ℕ → Answer
answer hop url =
    if same_codes url link then responded 302 ((codes "location", landing) ∷ []) else request_failed

abbrev journey : Journey
journey = record {
  net = net;
  max_hops = 10;
  total_timeout_ms = 20_000;
  follow_external = false;
  fire = answer;
  elapsed = λ hop. 0;
}

link-public :
    public_http_url net link ≡ some (at "track.example.net" "https://track.example.net" link)
unfolding public_http_url
link-public = refl

resolve-Visits_example :
    All
      (Visits journey (codes "https://track.example.net"))
      (resolve_redirect_first journey link).events
resolve-Visits_example =
    resolve-Visits journey link (at "track.example.net" "https://track.example.net" link)
      link-public

link-captured : (resolve_redirect_first journey link).outcome ≡ captured landing
unfolding resolve_redirect_first public_http_url link_suffix.Network.resolve_public_address
    link_suffix.Redirects.at_hop link_suffix.Capture.Edge.edge_stop_for_response
    link_suffix.Capture.Landing.capture_url_issue link_suffix.Capture.Suffix.delivery_suffix_issue
    link_suffix.Capture.Query.has_exact_query
link-captured = refl

resolve-Confirmed_example : Confirmed journey landing (resolve_redirect_first journey link)
resolve-Confirmed_example = resolve-Confirmed journey link landing link-captured
