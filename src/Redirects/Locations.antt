-- ===== src/Redirects/Locations.antt =====
-- packages/tiers/trivial-http/src/redirectResolver.ts: where an answer leads, and which hosts are private.
use link_suffix.Base.{
  ℕ, Bool, false, ◌&&◌, ◌||◌, List, [], ◌∷◌, map, Option, none, some, String, leb, ◌==◌,
  if◌then◌else◌, length, any,
}
use link_suffix.Base.Text.{codes, same_codes, starts_with, lower, is_digit}
use link_suffix.Outbound.Addresses.{trim_codes, ends_with, without_open, without_close}
use link_suffix.Capture.Policy.{Headers}
use link_suffix.Capture.Addresses.{Address, Browser}
use link_suffix.Redirects.Refresh.{parse_refresh_location}

abbrev pub is_in_172 : List ℕ → Bool
is_in_172 host =
    any (λ p. starts_with (codes p) host)
      ("172.16." ∷ "172.17." ∷ "172.18." ∷ "172.19." ∷ "172.20." ∷ "172.21." ∷ "172.22." ∷ "172.23."
        ∷ "172.24." ∷ "172.25." ∷ "172.26." ∷ "172.27." ∷ "172.28." ∷ "172.29." ∷ "172.30."
        ∷ "172.31." ∷ [])

abbrev pub is_hex : ℕ → Bool
is_hex c = is_digit c || (leb b'a' c && leb c b'f')

-- `/^f[cd][0-9a-f]{2}:/`
abbrev pub is_unique_local : List ℕ → Bool
is_unique_local (a ∷ b ∷ c ∷ d ∷ e ∷ cs) =
    a == b'f' && (b == b'c' || b == b'd') && is_hex c && is_hex d && e == b':'
is_unique_local _ = false

-- `isPrivateHostname`
unfoldable pub is_private_hostname : List ℕ → Bool
unfolding ends_with
is_private_hostname hostname =
    let host = without_close (without_open (map lower hostname)) in
    same_codes host (codes "localhost")
    || ends_with (codes ".localhost") host
    || ends_with (codes ".local") host
    || same_codes host (codes "0.0.0.0")
    || same_codes host (codes "::1")
    || is_unique_local host
    || starts_with (codes "fe80:") host
    || starts_with (codes "127.") host
    || starts_with (codes "10.") host
    || starts_with (codes "192.168.") host
    || starts_with (codes "169.254.") host
    || is_in_172 host

-- `resolveLocationPreservingQuery`: the address to request, with its parts, and the one to capture.
pub record Target : Type 0 where
  pub request_url : List ℕ
  pub address : Address
  pub captured_url : List ℕ

abbrev pub is_absolute : List ℕ → Bool
is_absolute raw =
    starts_with (codes "http://") (map lower raw) || starts_with (codes "https://") (map lower raw)

abbrev pub is_web : List ℕ → Bool
is_web p = same_codes p (codes "http:") || same_codes p (codes "https:")

abbrev pub target_at : List ℕ → List ℕ → Option Address → Option Target
target_at raw href none = none
target_at raw href (some a) =
    if is_web a.protocol
    then some (record {
      request_url = href;
      address = a;
      captured_url = if is_absolute raw then raw else href;
    })
    else none

abbrev pub target_of : Browser → List ℕ → Option (List ℕ) → Option Target
target_of b raw none = none
target_of b raw (some href) = target_at raw href (b.parse href)

unfoldable pub resolve_location : Browser → List ℕ → List ℕ → Option Target
unfolding trim_codes
resolve_location b location current =
    let raw = trim_codes location in
    if length raw == 0 then none else target_of b raw (b.href raw (some current))

abbrev pub header_at : Headers → String → Option (List ℕ)
header_at [] name = none
header_at ((k, v) ∷ hs) name = if same_codes k (codes name) then some v else header_at hs name

abbrev pub refreshed : Option (List ℕ) → Option (List ℕ)
refreshed none = none
refreshed (some r) = parse_refresh_location r

abbrev pub location_or : Option (List ℕ) → Option (List ℕ) → Option (List ℕ)
location_or (some l) refresh = some l
location_or none refresh = refreshed refresh

-- An empty text counts as no location.
abbrev pub present : Option (List ℕ) → Option (List ℕ)
present (some (c ∷ cs)) = some (c ∷ cs)
present _ = none

-- `response.headers.location ?? parseRefreshLocation(response.headers.refresh)`
abbrev pub location_in : Headers → Option (List ℕ)
location_in hs = present (location_or (header_at hs "location") (header_at hs "refresh"))
