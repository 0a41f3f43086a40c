-- ===== src/Capture/Confirmed.antt =====
-- packages/contracts/src/captureSafety.ts: what `evaluateCaptureResult` accepts as evidence of an address.
use link_suffix.Base.{
  ℕ, Bool, true, false, not, ◌&&◌, List, [], ◌∷◌, Option, none, some, String, ltb, leb, ◌==◌,
  str_eq, if◌then◌else◌, length, any, is_some,
}
use link_suffix.Base.Text.{same_codes, is_blank}
use link_suffix.Capture.Policy.{Policy, Parsed, policy, redirect_location_for_policy}
use link_suffix.Capture.Addresses.{Address, Browser}
use link_suffix.Capture.Landing.{without_first, capture_url_issue}
use link_suffix.Capture.Edge.{
  Event, header, is_text, Code, unverified_destination, redirect_policy_mismatch,
  missing_tracking_identifier,
}

pub data EvidenceKind : Type 0 where
  document_response redirect_location redirect_only : EvidenceKind

pub data Decision : Type 0 where
  accepted : List ℕ → List ℕ → EvidenceKind → Decision
  rejected : Code → Decision

abbrev pub document_in : Option Address → Option (List ℕ)
document_in none = none
document_in (some a) = some a.document

-- `documentUrl`
abbrev pub document_url : Browser → Option (List ℕ) → Option (List ℕ)
document_url b none = none
document_url b (some raw) = document_in (b.parse raw)

abbrev pub same_document : Option (List ℕ) → Option (List ℕ) → Bool
same_document none none = true
same_document (some x) (some y) = same_codes x y
same_document _ _ = false

abbrev pub origin_of : Browser → Option (List ℕ) → Option (List ℕ)
origin_of b none = none
origin_of b (some url) = elim (b.parse url) [ none ↦ none | some a ↦ some a.origin ]

abbrev pub origin_listed : List (List ℕ) → Option (List ℕ) → Bool
origin_listed os none = false
origin_listed os (some o) = any (same_codes o) os

-- A document within the policy; an address that does not parse is an error, which fails as well.
abbrev pub is_within : Browser → Policy → Event → Bool
is_within b p e =
    origin_listed p.navigation_origins (origin_of b e.url)
    && not (is_some (capture_url_issue b e.url))

abbrev pub all_within : Browser → Policy → List Event → Bool
all_within b p [] = true
all_within b p (e ∷ es) = is_within b p e && all_within b p es

abbrev pub field_values : String → List (String × String) → List String
field_values key [] = []
field_values key ((k, v) ∷ fs) =
    if str_eq k key then v ∷ field_values key fs else field_values key fs

abbrev pub one_filled : List String → Bool
one_filled (v ∷ []) = not (is_blank v)
one_filled _ = false

abbrev pub identified : Browser → String → Option Address → Bool
identified b parameter none = false
identified b parameter (some a) =
    one_filled (field_values parameter (b.search_params (without_first a.search)))

abbrev pub is_guarded : Event → Bool
is_guarded main =
    is_text main.capture_path "browser-redirect-only"
    && is_text main.destination_visited "false"
    && is_text main.egress_guard "origin_allowlist"

abbrev pub same_location : Option (List ℕ) → List ℕ → Bool
same_location none url = false
same_location (some l) url = same_codes l url

abbrev pub main_location : Browser → Policy → Event → Option (List ℕ)
main_location b p e = elim e.url [
  | none ↦ none
  | some url ↦ elim e.status [
    | none ↦ none
    | some s ↦ redirect_location_for_policy b p url s e.headers
  ]
]

-- The branch for a run with a redirect policy.
abbrev pub by_policy : Browser → List Event → Event → List ℕ → List ℕ → Parsed → Decision
by_policy b documents main url suffix (policy p) =
    if not (is_guarded main && all_within b p documents)
    then rejected redirect_policy_mismatch
    else if not (same_location (main_location b p main) url)
    then rejected unverified_destination
    else if not (identified b p.required_parameter (b.parse url))
    then rejected missing_tracking_identifier
    else accepted url suffix redirect_only
by_policy b documents main url suffix _ = rejected redirect_policy_mismatch

abbrev pub is_success : Option ℕ → Bool
is_success none = false
is_success (some s) = leb 200 s && ltb s 300

abbrev pub is_moved : Option ℕ → Bool
is_moved none = false
is_moved (some s) = any (λ r. r == s) (301 ∷ 302 ∷ 303 ∷ 307 ∷ 308 ∷ [])

-- The resolved Location of the main document, if it is the landing address.
abbrev pub location_leads : Browser → Event → List ℕ → Bool
location_leads b main url = elim (b.href (header main.headers "location") main.url) [
  | none ↦ false
  | some to ↦ same_document (document_url b (some to)) (document_url b (some url))
]

abbrev pub rendered : Browser → Event → List ℕ → Bool
rendered b main url =
    is_success main.status && same_document (document_url b main.url) (document_url b (some url))

abbrev pub redirected : Browser → Event → List ℕ → Bool
redirected b main url =
    is_text main.capture_path "redirect-first"
    && is_moved main.status
    && not (length (header main.headers "location") == 0)
    && not (is_some (capture_url_issue b main.url))
    && location_leads b main url

abbrev pub by_document : Browser → Event → List ℕ → List ℕ → Decision
by_document b main url suffix =
    if rendered b main url
    then accepted url suffix document_response
    else if redirected b main url
    then accepted url suffix redirect_location
    else rejected unverified_destination
