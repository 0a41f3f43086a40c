-- ===== src/Capture/Suffix.antt =====
-- The delivery gate of packages/contracts/src/captureSafety.ts: `deliverySuffixIssue`.
-- `URLSearchParams` is the platform's: its decoded fields are the argument `fields`.
pub mod Deliverable
use Prim.Native.String.{◌++◌ as append}
use link_suffix.Base.{Bool, ◌||◌, List, [], ◌∷◌, Option, none, some, String, if◌then◌else◌}
use link_suffix.Base.Text.{codes, lowered, same_codes, starts_with, is_blank}

-- `/^(?:__cf_chl(?:_|$)|cf_chl_(?:prog|seq)$)/i`
unfoldable pub is_challenge_key : String → Bool
is_challenge_key key =
    starts_with (codes "__cf_chl_") (lowered key)
    || same_codes (lowered key) (codes "__cf_chl")
    || same_codes (lowered key) (codes "cf_chl_prog")
    || same_codes (lowered key) (codes "cf_chl_seq")

-- `/^(?:irclickid|im_ref)$/i`, with the key in lower case.
unfoldable pub identifier_key : String → Option String
identifier_key key =
    if same_codes (lowered key) (codes "irclickid")
    then some "irclickid"
    else if same_codes (lowered key) (codes "im_ref")
    then some "im_ref"
    else none

-- A click identifier that the field leaves empty.
unfoldable pub empty_identifier : String × String → Option String
empty_identifier (key, field) = if is_blank field then identifier_key key else none

pub data Issue : Type 0 where
  not_text : Issue
  challenge_parameters : Issue
  empty_tracking_identifier : String → Issue

-- The text of an issue.
unfoldable pub message : Issue → String
message not_text = "Invalid final URL suffix"
message challenge_parameters =
    "Invalid final URL suffix: Cloudflare challenge parameters cannot be delivered"
message (empty_tracking_identifier key) =
    append "Invalid final URL suffix: empty tracking identifier "
      (append key "; preserve the last valid suffix")

abbrev finish : Option String → Option Issue
finish none = none
finish (some key) = some (empty_tracking_identifier key)

-- A later empty identifier takes the place of an earlier one.
abbrev latest_of : Option String → Option String → Option String
latest_of (some key) _ = some key
latest_of none seen = seen

-- The loop over the fields; `seen` is `incompleteIdentifier`.
scan_fields : List (String × String) → Option String → Option Issue
scan_fields [] seen = finish seen
scan_fields (f ∷ fs) seen =
    let rest = scan_fields fs (latest_of (empty_identifier f) seen) in
    if is_challenge_key f.0 then some challenge_parameters else rest

-- `deliverySuffixIssue`; `none` for the value is one that is not a text.
unfoldable pub delivery_suffix_issue :
    (String → List (String × String)) → Option String → Option Issue
unfolding scan_fields
delivery_suffix_issue search_params none = some not_text
delivery_suffix_issue search_params (some value) = scan_fields (search_params value) none
