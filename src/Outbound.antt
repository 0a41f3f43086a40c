-- ===== src/Outbound.antt =====
-- web/lib/url-security.ts: which addresses the server may open on a caller's behalf. A text is the list of its
-- characters' codes. What the platform gives (`isIP`, the URL parser, the name service) is the record Platform.
pub mod Addresses
pub mod Reserved
pub mod Public
use link_suffix.Base.{
  ℕ, ◌<◌, Bool, true, false, not, ◌&&◌, ◌||◌, List, [], ◌∷◌, map, Option, none, some, ltb, ◌==◌,
  if◌then◌else◌, any, filter, length, get_or,
}
use link_suffix.Base.Text.{codes, same_codes, starts_with, lower}
use link_suffix.Outbound.Addresses.{split_on, ends_with, trim_codes, is_blocked_address}

-- What the URL parser makes of a text.
pub record Url : Type 0 where
  pub protocol : List ℕ
  pub username : List ℕ
  pub password : List ℕ
  pub hostname : List ℕ

-- `lookup` gives none when the name service fails or the time is up.
pub record Platform : Type 0 where
  pub is_ip : List ℕ → ℕ
  pub parse : List ℕ → Option Url
  pub lookup : List ℕ → Option (List (List ℕ))

-- The variables that the policy reads.
pub record Settings : Type 0 where
  pub allowed_hosts : List ℕ
  pub target_policy : Option (List ℕ)
  pub production : Bool
  pub allow_unlisted : Bool

-- The errors, in the order in which they are found.
pub data Refusal : Type 0 where
  not_a_url wrong_protocol has_credentials local_host not_listed private_address unresolved
        resolves_to_private :
      Refusal

pub data Checked : Type 0 where
  safe : Url → Checked
  refused : Refusal → Checked

abbrev blocked_host_suffixes : List (List ℕ)
blocked_host_suffixes = map codes (".localhost" ∷ ".local" ∷ ".internal" ∷ ".home" ∷ ".lan" ∷ [])

abbrev blocked_hosts : List (List ℕ)
blocked_hosts = map codes (
    "localhost" ∷ "metadata.google.internal" ∷ "metadata.google" ∷ "instance-data"
    ∷ "kubernetes.default" ∷ [])

abbrev pub is_local_host : List ℕ → Bool
is_local_host host =
    length host == 0
    || any (same_codes host) blocked_hosts
    || any (λ suffix. ends_with suffix host) blocked_host_suffixes

-- `replace(/^\*\./, ".")`
abbrev wildcard : List ℕ → List ℕ
wildcard (a ∷ b ∷ cs) = if a == b'*' && b == b'.' then b ∷ cs else a ∷ b ∷ cs
wildcard cs = cs

abbrev allowlist : Settings → List (List ℕ)
allowlist e =
    filter (λ h. not (length h == 0))
      (map (λ h. wildcard (map lower (trim_codes h))) (split_on b',' e.allowed_hosts))

abbrev matches_entry : List ℕ → List ℕ → Bool
matches_entry host entry =
    if starts_with (b'.' ∷ []) entry
    then ends_with entry host && ltb (length entry) (length host)
    else same_codes host entry

-- `allowedHostname`
unfoldable pub allowed_hostname : Settings → List ℕ → Bool
unfolding split_on trim_codes ends_with
allowed_hostname e host =
    any (matches_entry host) (allowlist e)
    || same_codes (map lower (trim_codes (get_or e.target_policy (codes "allowlist"))))
        (codes "public")
    || (length (allowlist e) == 0 && not e.production && e.allow_unlisted)

-- `replace(/\.$/, "")`
abbrev pub without_dot : List ℕ → List ℕ
without_dot [] = []
without_dot (c ∷ cs) = if c == b'.' && length cs == 0 then [] else c ∷ without_dot cs

abbrev pub host_of : Url → List ℕ
host_of u = without_dot (map lower u.hostname)

abbrev pub resolved : Platform → Url → Option (List (List ℕ)) → Checked
resolved p u none = refused unresolved
resolved p u (some records) =
    if length records == 0
    then refused unresolved
    else if any (is_blocked_address p.is_ip) records
    then refused resolves_to_private
    else safe u

-- The last test of `assertSafeOutboundUrl`: where the host leads.
abbrev pub routed : Platform → Url → Checked
routed p u =
    if not (p.is_ip (host_of u) == 0)
    then (if is_blocked_address p.is_ip (host_of u) then refused private_address else safe u)
    else resolved p u (p.lookup (host_of u))

abbrev pub is_web : List ℕ → Bool
is_web protocol = same_codes protocol (codes "http:") || same_codes protocol (codes "https:")

abbrev pub check_url : Platform → Settings → Option Url → Checked
check_url p e none = refused not_a_url
check_url p e (some u) =
    if not (is_web u.protocol)
    then refused wrong_protocol
    else if not (length u.username == 0) || not (length u.password == 0)
    then refused has_credentials
    else if is_local_host (host_of u)
    then refused local_host
    else if not (allowed_hostname e (host_of u))
    then refused not_listed
    else routed p u

-- `assertSafeOutboundUrl`
unfoldable pub assert_safe_outbound_url : Platform → Settings → List ℕ → Checked
unfolding is_blocked_address ends_with
assert_safe_outbound_url p e input = check_url p e (p.parse input)
