-- ===== src/Capture/Policy.antt =====
-- packages/contracts/src/redirectCapture.ts: the policy under which a capture may end at a redirect, and the
-- Location that it accepts. A text is the list of its characters' codes; what is no text is none.
use link_suffix.Base.{
  str_eq, ℕ, Bool, true, false, not, ◌&&◌, ◌||◌, List, [], ◌∷◌, map, Option, none, some, String,
  leb, ◌==◌, if◌then◌else◌, length, any, find?,
}
use link_suffix.Base.Text.{codes, same_codes, starts_with, lower, is_space}
use link_suffix.Capture.Addresses.{Address, Browser}
use link_suffix.Capture.Origins.{is_https, approved_origin, approved_origins}

-- RedirectCapturePolicy
pub record Policy : Type 0 where
  pub issuer_origin : List ℕ
  pub destination_origin : List ℕ
  pub required_parameter : String
  pub navigation_origins : List (List ℕ)

-- A value that is an object, and its fields.
pub record Fields : Type 0 where
  pub keys : List String
  pub mode : Option (List ℕ)
  pub issuer_origin : Option (List ℕ)
  pub destination_origin : Option (List ℕ)
  pub required_parameter : String
  pub navigation_origins : Option (List (Option (List ℕ)))

pub data Given : Type 0 where
  absent not_an_object : Given
  fields : Fields → Given

-- What the parser of policies comes to: `undefined`, an error or a policy.
pub data Parsed : Type 0 where
  undefined throws : Parsed
  policy : Policy → Parsed

-- `new URL(origin).hostname`
abbrev host_in : Option Address → Option (List ℕ)
host_in none = none
host_in (some a) = some a.hostname

abbrev hostname_of : Browser → List ℕ → Option (List ℕ)
hostname_of b origin = host_in (b.parse origin)

abbrev same_option : Option (List ℕ) → Option (List ℕ) → Bool
same_option (some a) (some b) = same_codes a b
same_option _ _ = false

abbrev pub same_host : Browser → List ℕ → List ℕ → Bool
same_host b x y = same_option (hostname_of b x) (hostname_of b y)

abbrev all_distinct : List (List ℕ) → Bool
all_distinct [] = true
all_distinct (o ∷ os) = not (any (same_codes o) os) && all_distinct os

abbrev pub are_allowed : Browser → List ℕ → List ℕ → List (List ℕ) → Bool
are_allowed b issuer destination os =
    not (any (λ o. same_host b o issuer && not (same_codes o issuer)) os)
    && all_distinct os
    && any (same_codes issuer) os
    && not (any (λ o. same_host b o destination) os)

abbrev seed_address : List (List ℕ) → Option Address → Bool
seed_address os none = false
seed_address os (some a) =
    is_https a.protocol
    && length a.username == 0
    && length a.password == 0
    && any (same_codes a.origin) os

abbrev pub seed_is_allowed : Browser → List (List ℕ) → Option (List ℕ) → Bool
seed_is_allowed b os none = true
seed_is_allowed b os (some seed) = seed_address os (b.parse seed)

abbrev pub with_origins :
    Browser → Option (List ℕ) → String → List ℕ → List ℕ → Option (List (List ℕ)) → Parsed
with_origins b seed parameter issuer destination none = throws
with_origins b seed parameter issuer destination (some os) =
    if are_allowed b issuer destination os && seed_is_allowed b os seed
    then policy (record {
      issuer_origin = issuer;
      destination_origin = destination;
      required_parameter = parameter;
      navigation_origins = os;
    })
    else throws

abbrev pub counted_origins : Browser → Option (List (Option (List ℕ))) → Option (List (List ℕ))
counted_origins b none = none
counted_origins b (some vs) =
    if leb 1 (length vs) && leb (length vs) 16 then approved_origins b vs else none

abbrev pub with_ends :
    Browser → Option (List ℕ) → Fields → Option (List ℕ) → Option (List ℕ) → Parsed
with_ends b seed f (some issuer) (some destination) =
    with_origins b seed f.required_parameter issuer destination
      (counted_origins b f.navigation_origins)
with_ends b seed f _ _ = throws

abbrev policy_keys : List String
policy_keys =
    "mode" ∷ "issuer_origin" ∷ "destination_origin" ∷ "required_parameter" ∷ "navigation_origins"
    ∷ []

abbrev is_redirect_only : Option (List ℕ) → Bool
is_redirect_only none = false
is_redirect_only (some mode) = same_codes mode (codes "redirect_only")

abbrev pub well_formed : Fields → Bool
well_formed f =
    not (any (λ k. not (any (str_eq k) policy_keys)) f.keys)
    && is_redirect_only f.mode
    && (str_eq f.required_parameter "irclickid" || str_eq f.required_parameter "im_ref")

-- `parseRedirectCapturePolicy`; its errors are one.
unfoldable pub parse_redirect_capture_policy : Browser → Option (List ℕ) → Given → Parsed
unfolding approved_origin
parse_redirect_capture_policy b seed absent = undefined
parse_redirect_capture_policy b seed not_an_object = throws
parse_redirect_capture_policy b seed (fields f) =
    if well_formed f
    then with_ends b seed f (approved_origin b false f.issuer_origin)
        (approved_origin b false f.destination_origin)
    else throws

abbrev is_redirect_status : ℕ → Bool
is_redirect_status s = any (λ r. r == s) (301 ∷ 302 ∷ 303 ∷ 307 ∷ 308 ∷ [])

-- Entries of headers in their order.
abbrev pub Headers : Type 0
Headers = List (List ℕ × List ℕ)

abbrev value_of : Option (List ℕ × List ℕ) → Option (List ℕ)
value_of none = none
value_of (some e) = some e.1

-- The first header of a name, whatever its case.
abbrev pub raw_header : Headers → List ℕ → Option (List ℕ)
raw_header hs name = value_of (find? (λ e. same_codes (map lower e.0) name) hs)

abbrev is_exact_location : List ℕ → Bool
is_exact_location l =
    not (length l == 0)
    && leb (length l) 32_768
    && not (any (λ c. is_space c || c == b'\\') l)
    && starts_with (codes "https://") l

abbrev to_destination : Policy → List ℕ → Option Address → Option (List ℕ)
to_destination p l none = none
to_destination p l (some a) =
    if same_codes a.origin p.destination_origin && length a.username == 0 && length a.password == 0
    then some l
    else none

abbrev located : Browser → Policy → Option (List ℕ) → Option (List ℕ)
located b p none = none
located b p (some l) = if is_exact_location l then to_destination p l (b.parse l) else none

abbrev from_issuer : Browser → Policy → Headers → Option Address → Option (List ℕ)
from_issuer b p hs none = none
from_issuer b p hs (some a) =
    if same_codes a.origin p.issuer_origin
    then located b p (raw_header hs (codes "location"))
    else none

-- `redirectLocationForPolicy`
unfoldable pub redirect_location_for_policy :
    Browser → Policy → List ℕ → ℕ → Headers → Option (List ℕ)
redirect_location_for_policy b p url status hs =
    if is_redirect_status status then from_issuer b p hs (b.parse url) else none
