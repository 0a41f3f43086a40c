-- ===== src/Capture/Landing.antt =====
-- packages/contracts/src/captureSafety.ts: `captureUrlIssue`.
use link_suffix.Base.{
  ℕ, Bool, true, false, not, ◌||◌, List, map, Option, none, some, String, if◌then◌else◌,
}
use link_suffix.Base.Text.{codes, same_codes, starts_with, lower}
use link_suffix.Capture.Suffix.{Issue, challenge_parameters, delivery_suffix_issue}
use link_suffix.Capture.Addresses.{Address, Browser}

-- What `captureUrlIssue` finds.
pub data UrlIssue : Type 0 where
  invalid_landing_url invalid_protocol challenge_page : UrlIssue
  suffix_issue : Issue → UrlIssue

-- `/Cloudflare/` in the text of an issue.
abbrev pub is_challenge_issue : Issue → Bool
is_challenge_issue challenge_parameters = true
is_challenge_issue _ = false

abbrev pub names_cloudflare : Option UrlIssue → Bool
names_cloudflare (some challenge_page) = true
names_cloudflare (some (suffix_issue i)) = is_challenge_issue i
names_cloudflare _ = false

-- The pattern of a challenge page's path.
abbrev pub is_challenge_path : List ℕ → Bool
is_challenge_path path =
    let p = map lower path in
    starts_with (codes "/cdn-cgi/challenge-platform/") p
    || same_codes p (codes "/cdn-cgi/challenge-platform")
    || starts_with (codes "/cdn-cgi/challenge/") p
    || same_codes p (codes "/cdn-cgi/challenge")

-- `slice(1)`
abbrev pub without_first : String → String
without_first String.[] = ""
without_first (String.◌∷◌ c s) = s

abbrev pub as_suffix_issue : Option Issue → Option UrlIssue
as_suffix_issue none = none
as_suffix_issue (some i) = some (suffix_issue i)

abbrev pub is_web_protocol : List ℕ → Bool
is_web_protocol p = same_codes p (codes "http:") || same_codes p (codes "https:")

abbrev pub address_issue : Browser → Option Address → Option UrlIssue
address_issue b none = some invalid_landing_url
address_issue b (some a) =
    if not (is_web_protocol a.protocol)
    then some invalid_protocol
    else if is_challenge_path a.pathname
    then some challenge_page
    else as_suffix_issue (delivery_suffix_issue b.search_params (some (without_first a.search)))

-- `captureUrlIssue`
unfoldable pub capture_url_issue : Browser → Option (List ℕ) → Option UrlIssue
capture_url_issue b none = some invalid_landing_url
capture_url_issue b (some raw) = address_issue b (b.parse raw)
