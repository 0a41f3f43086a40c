-- ===== src/Capture/Origins.antt =====
-- packages/contracts/src/redirectCapture.ts: the origins that a policy may name.
use link_suffix.Base.{
  ℕ, Bool, true, false, not, ◌&&◌, ◌||◌, List, [], ◌∷◌, Option, none, some, ltb, leb, ◌==◌,
  if◌then◌else◌, length,
}
use link_suffix.Base.Text.{codes, same_codes, is_digit, all_codes}
use link_suffix.Outbound.Addresses.{split_on, ends_with}
use link_suffix.Capture.Addresses.{Address, Browser}

abbrev is_lower : ℕ → Bool
is_lower c = leb b'a' c && leb c b'z'

abbrev is_word : ℕ → Bool
is_word c = is_lower c || is_digit c

abbrev last_is_word : List ℕ → Bool
last_is_word [] = false
last_is_word (c ∷ []) = is_word c
last_is_word (c ∷ d ∷ cs) = last_is_word (d ∷ cs)

abbrev first_is_word : List ℕ → Bool
first_is_word [] = false
first_is_word (c ∷ cs) = is_word c

-- `[a-z0-9](?:[a-z0-9-]*[a-z0-9])?`
abbrev is_label : List ℕ → Bool
is_label cs = first_is_word cs && last_is_word cs && all_codes (λ c. is_word c || c == b'-') cs

-- `[a-z]{2,63}`
abbrev is_top_label : List ℕ → Bool
is_top_label cs = all_codes is_lower cs && leb 2 (length cs) && leb (length cs) 63

abbrev are_labels : List (List ℕ) → Bool
are_labels [] = false
are_labels (l ∷ []) = is_top_label l
are_labels (l ∷ m ∷ ls) = is_label l && are_labels (m ∷ ls)

abbrev is_dotted_name : List (List ℕ) → Bool
is_dotted_name (l ∷ m ∷ ls) = are_labels (l ∷ m ∷ ls)
is_dotted_name _ = false

-- The two patterns for the host.
unfoldable pub is_public_name : List ℕ → Bool
unfolding split_on ends_with
is_public_name host =
    is_dotted_name (split_on b'.' host)
    && not (
        ends_with (codes ".localhost") host
        || ends_with (codes ".local") host
        || ends_with (codes ".internal") host)

abbrev pub is_https : List ℕ → Bool
is_https p = same_codes p (codes "https:")

abbrev allows_protocol : Bool → List ℕ → Bool
allows_protocol allow_http p = is_https p || (allow_http && same_codes p (codes "http:"))

abbrev approves : Bool → List ℕ → Address → Bool
approves allow_http value a =
    allows_protocol allow_http a.protocol
    && same_codes a.origin value
    && length a.username == 0
    && length a.password == 0
    && is_public_name a.hostname

abbrev approved_address : Bool → List ℕ → Option Address → Option (List ℕ)
approved_address allow_http value none = none
approved_address allow_http value (some a) =
    if approves allow_http value a then some value else none

-- `approvedOrigin`
unfoldable pub approved_origin : Browser → Bool → Option (List ℕ) → Option (List ℕ)
approved_origin b allow_http none = none
approved_origin b allow_http (some value) =
    if ltb 300 (length value) then none else approved_address allow_http value (b.parse value)

abbrev cons_approved : Option (List ℕ) → Option (List (List ℕ)) → Option (List (List ℕ))
cons_approved (some o) (some os) = some (o ∷ os)
cons_approved _ _ = none

abbrev pub approved_origins : Browser → List (Option (List ℕ)) → Option (List (List ℕ))
approved_origins b [] = some []
approved_origins b (v ∷ vs) = cons_approved (approved_origin b true v) (approved_origins b vs)
