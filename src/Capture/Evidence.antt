-- ===== src/Capture/Evidence.antt =====
-- packages/contracts/src/captureSafety.ts: `captureUrlIssue`, `edgeStopForResponse` and `evaluateCaptureResult`, by
-- which a journey's result becomes a capture. The diagnostics that a rejection carries are left out.
pub mod Sound
pub mod Unvisited
use link_suffix.Base.{
  ℕ, Bool, true, false, not, ◌&&◌, ◌||◌, List, [], ◌∷◌, map, Option, none, some, String, ltb, leb,
  ◌==◌, str_eq, if◌then◌else◌, length, filter, any, get_or, is_some,
}
use link_suffix.Base.Text.{codes, same_codes, starts_with, lower, is_blank}
use link_suffix.Outbound.Addresses.{trim_codes}
use link_suffix.Capture.Suffix.{
  Issue, challenge_parameters, empty_tracking_identifier, delivery_suffix_issue,
}
use link_suffix.Capture.Query.{query_suffix, drop}
use link_suffix.Capture.Policy.{
  Policy, Given, absent, Parsed, policy, Headers, raw_header, parse_redirect_capture_policy,
  redirect_location_for_policy,
}
use link_suffix.Capture.Addresses.{Address, Browser}
use link_suffix.Capture.Landing.{
  UrlIssue, invalid_landing_url, invalid_protocol, challenge_page, suffix_issue, is_challenge_issue,
  names_cloudflare, is_challenge_path, without_first, as_suffix_issue, is_web_protocol,
  address_issue, capture_url_issue,
}
use link_suffix.Capture.Edge.{
  Event, header, is_text, href_issue, challenge_location, is_mitigated, status_is, Code,
  cloudflare_challenge, rate_limited, blocked_response, browser_closed, capture_error,
  empty_identifier_code, invalid_url, unresolved_challenge, missing_suffix, unverified_destination,
  redirect_policy_mismatch, missing_tracking_identifier, is_cloudflare, edge_stop_for_response,
}
use link_suffix.Capture.Closed.{
  contains, is_line_end, line_of, is_closed_phrase, closed_after, says_closed,
}
use link_suffix.Capture.Confirmed.{
  EvidenceKind, document_response, redirect_location, redirect_only, Decision, accepted, rejected,
  document_in, document_url, same_document, origin_of, origin_listed, is_within, all_within,
  field_values, one_filled, identified, is_guarded, same_location, main_location, by_policy,
  is_success, is_moved, location_leads, rendered, redirected, by_document,
}

-- The result of a journey: what is no text is none; an error or a challenge's status that is empty is none too.
pub record JourneyResult : Type 0 where
  pub final_landing_url : Option (List ℕ)
  pub events : List Event
  pub error : Option (List ℕ)
  pub challenge_status : Option (List ℕ)
  pub final_verdict : List ℕ
  pub redirect_capture : Given

abbrev url_code : UrlIssue → Code
url_code challenge_page = cloudflare_challenge
url_code (suffix_issue challenge_parameters) = cloudflare_challenge
url_code (suffix_issue (empty_tracking_identifier key)) = empty_identifier_code
url_code _ = invalid_url

abbrev bad_verdicts : List String
bad_verdicts = "block" ∷ "blocked" ∷ "challenge" ∷ "error" ∷ "deny" ∷ "denied" ∷ []

abbrev pub is_bad_verdict : List ℕ → Bool
is_bad_verdict v = any (λ t. same_codes (map lower v) (codes t)) bad_verdicts

abbrev pub is_unresolved : Option (List ℕ) → Bool
is_unresolved none = false
is_unresolved (some s) = not (same_codes s (codes "resolved"))

-- `options`: none where they are not given, and their policy.
abbrev pub chosen : Option Given → Given → Given
chosen none own = own
chosen (some g) own = g

abbrev is_given : Given → Bool
is_given absent = false
is_given _ = true

abbrev option_given : Option Given → Bool
option_given none = false
option_given (some g) = is_given g

abbrev pub wants_policy : Option Given → Given → Event → Bool
wants_policy options own main =
    is_text main.capture_path "browser-redirect-only" || is_given own || option_given options

abbrev pub with_main :
    Browser → Option Given → JourneyResult → List Event → List ℕ → List ℕ → Option Event → Decision
with_main b options r documents url suffix none = rejected unverified_destination
with_main b options r documents url suffix (some main) =
    if wants_policy options r.redirect_capture main
    then by_policy b documents main url suffix
        (parse_redirect_capture_policy b none (chosen options r.redirect_capture))
    else by_document b main url suffix

abbrev pub with_suffix :
    Browser
    → Option Given
    → JourneyResult
    → List Event
    → Option Event
    → List ℕ
    → Option (List ℕ)
    → Decision
with_suffix b options r documents main url none = rejected missing_suffix
with_suffix b options r documents main url (some suffix) =
    with_main b options r documents url suffix main

abbrev main_mitigated : Option Event → Bool
main_mitigated none = false
main_mitigated (some e) = is_mitigated e

abbrev failed_code : Option (List ℕ) → Code
failed_code none = capture_error
failed_code (some e) = if says_closed e then browser_closed else capture_error

abbrev pub with_issue :
    Browser → Option Given → JourneyResult → List Event → Option Event → Option UrlIssue → Decision
with_issue b options r documents main (some i) =
    if is_some r.error && not (names_cloudflare (some i))
    then rejected (failed_code r.error)
    else rejected (url_code i)
with_issue b options r documents main none =
    if is_some r.error
    then rejected (failed_code r.error)
    else if main_mitigated main
    then rejected cloudflare_challenge
    else if is_unresolved r.challenge_status
    then rejected unresolved_challenge
    else if is_bad_verdict r.final_verdict
    then rejected blocked_response
    else with_suffix b options r documents main (get_or r.final_landing_url [])
        (query_suffix (get_or r.final_landing_url []))

abbrev pub first_stop : Browser → List Event → Option Code
first_stop b [] = none
first_stop b (e ∷ es) = elim (edge_stop_for_response b e) [
  | some code ↦ some code
  | none ↦ first_stop b es
]

abbrev pub last_of : List Event → Option Event
last_of [] = none
last_of (e ∷ []) = some e
last_of (e ∷ f ∷ es) = last_of (f ∷ es)

abbrev pub documents_of : JourneyResult → List Event
documents_of r = filter (λ e. e.main_document) r.events

abbrev pub unless_stopped : Browser → Option Given → JourneyResult → Option Code → Decision
unless_stopped b options r (some code) = rejected code
unless_stopped b options r none =
    with_issue b options r (documents_of r) (last_of (documents_of r))
      (capture_url_issue b r.final_landing_url)

-- `evaluateCaptureResult`
unfoldable pub evaluate_capture_result : Browser → Option Given → JourneyResult → Decision
evaluate_capture_result b options r = unless_stopped b options r (first_stop b (documents_of r))
