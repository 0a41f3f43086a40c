-- ===== src/Capture/Edge.antt =====
-- packages/contracts/src/captureSafety.ts: the events of a journey, and `edgeStopForResponse`.
use link_suffix.Base.{
  ℕ, Bool, false, not, ◌&&◌, ◌||◌, List, [], map, Option, none, some, String, ◌==◌, if◌then◌else◌,
  length, get_or,
}
use link_suffix.Base.Text.{codes, same_codes, lower}
use link_suffix.Outbound.Addresses.{trim_codes}
use link_suffix.Capture.Policy.{Headers, raw_header}
use link_suffix.Capture.Addresses.{Browser}
use link_suffix.Capture.Landing.{UrlIssue, names_cloudflare, capture_url_issue}

-- One event, with the signals that are read; a status that is no number is none.
pub record Event : Type 0 where
  pub url : Option (List ℕ)
  pub status : Option ℕ
  pub headers : Headers
  pub main_document : Bool
  pub capture_path : Option (List ℕ)
  pub destination_visited : Option (List ℕ)
  pub egress_guard : Option (List ℕ)

-- `header`
abbrev pub header : Headers → String → List ℕ
header hs name = trim_codes (get_or (raw_header hs (codes name)) [])

abbrev pub is_text : Option (List ℕ) → String → Bool
is_text none t = false
is_text (some cs) t = same_codes cs (codes t)

abbrev pub href_issue : Browser → Option (List ℕ) → Option UrlIssue
href_issue b none = none
href_issue b (some url) = capture_url_issue b (some url)

-- `challengeLocation`
abbrev pub challenge_location : Browser → Event → Bool
challenge_location b e =
    not (length (header e.headers "location") == 0)
    && names_cloudflare (href_issue b (b.href (header e.headers "location") e.url))

abbrev pub is_mitigated : Event → Bool
is_mitigated e = same_codes (map lower (header e.headers "cf-mitigated")) (codes "challenge")

abbrev pub status_is : Option ℕ → ℕ → Bool
status_is none n = false
status_is (some s) n = s == n

-- The codes of rejections.
pub data Code : Type 0 where
  cloudflare_challenge rate_limited blocked_response browser_closed capture_error
        empty_identifier_code invalid_url unresolved_challenge missing_suffix unverified_destination
        redirect_policy_mismatch missing_tracking_identifier :
      Code

abbrev pub is_cloudflare : Browser → Event → Bool
is_cloudflare b e =
    names_cloudflare (capture_url_issue b e.url) || challenge_location b e || is_mitigated e

-- `edgeStopForResponse`
unfoldable pub edge_stop_for_response : Browser → Event → Option Code
edge_stop_for_response b e =
    if is_cloudflare b e
    then some cloudflare_challenge
    else if status_is e.status 429
    then some rate_limited
    else if status_is e.status 403
    then some blocked_response
    else none
