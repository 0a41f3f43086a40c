-- ===== src/Network.antt =====
-- packages/proxy/src/network.ts: which destinations a capture may open. `isIP`, the URL parser and the name service are
-- fields of the record Net; the name service may answer differently each time it is asked.
pub mod Blocks
use link_suffix.Base.{
  ℕ, Bool, true, false, not, ◌&&◌, ◌||◌, List, [], ◌∷◌, ◌++◌, map, Option, none, some, leb, ◌==◌,
  if◌then◌else◌, length, any, find?, get_or,
}
use link_suffix.Base.Text.{codes, same_codes, starts_with, lower, is_digit, all_codes}
use link_suffix.Outbound.{without_dot}
use link_suffix.Outbound.Addresses.{
  Bytes, ipv4_bytes, ends_with, without_open, without_close, split_on,
}
use link_suffix.Capture.Addresses.{Address, Browser}

-- An address of the name service and its family.
abbrev pub Resolved : Type 0
Resolved = List ℕ × ℕ

pub record Net : Type 0 where
  pub browser : Browser
  pub is_ip : List ℕ → ℕ
  pub lookup : ℕ → List ℕ → Option (List Resolved)

-- `normalizedHost`
unfoldable pub normalized_host : List ℕ → List ℕ
normalized_host host = without_dot (without_close (without_open (map lower host)))

-- The tests of the fourth version.
unfoldable pub public_bytes : Bytes → Bool
public_bytes x = not (
    x.a == 0
    || x.a == 10
    || x.a == 127
    || leb 224 x.a
    || (x.a == 100 && leb 64 x.b && leb x.b 127)
    || (x.a == 169 && x.b == 254)
    || (x.a == 172 && leb 16 x.b && leb x.b 31)
    || (x.a == 192 && (x.b == 0 || x.b == 168))
    || (x.a == 198 && (x.b == 18 || x.b == 19 || (x.b == 51 && x.c == 100)))
    || (x.a == 203 && x.b == 0 && x.c == 113))

-- `isIP` gives 4 only for four bytes in decimal.
abbrev public_four : Option Bytes → Bool
public_four none = false
public_four (some x) = public_bytes x

abbrev is_hex : ℕ → Bool
is_hex c = is_digit c || (leb b'a' c && leb c b'f')

-- `/^[23][0-9a-f]{3}:/`
abbrev is_global_unicast : List ℕ → Bool
is_global_unicast (a ∷ b ∷ c ∷ d ∷ e ∷ cs) =
    (a == b'2' || a == b'3') && is_hex b && is_hex c && is_hex d && e == b':'
is_global_unicast _ = false

abbrev public_six : List ℕ → Bool
public_six ip =
    is_global_unicast ip
    && not (
        starts_with (codes "2001:0:") ip
        || starts_with (codes "2001::") ip
        || starts_with (codes "2001:db8:") ip)
    && not (starts_with (codes "2002:") ip)

abbrev public_literal : Net → List ℕ → Bool
public_literal n ip =
    if n.is_ip ip == 4 then public_four (ipv4_bytes ip) else n.is_ip ip == 6 && public_six ip

-- The spelling that the URL parser gives an address of the sixth version.
abbrev respelled : Net → List ℕ → Option (List ℕ)
respelled n ip = elim (n.browser.parse (codes "http://[" ++ (ip ++ codes "]/"))) [
  | none ↦ none
  | some a ↦ some (normalized_host a.hostname)
]

abbrev public_respelled : Net → Option (List ℕ) → Bool
public_respelled n none = false
public_respelled n (some ip) = public_literal n ip

-- `isPublicAddress`
unfoldable pub is_public_address : Net → List ℕ → Bool
unfolding normalized_host public_bytes split_on
is_public_address n raw =
    if n.is_ip (normalized_host raw) == 6
    then public_respelled n (respelled n (normalized_host raw))
    else public_literal n (normalized_host raw)

abbrev is_web : List ℕ → Bool
is_web p = same_codes p (codes "http:") || same_codes p (codes "https:")

abbrev pub is_local_name : List ℕ → Bool
is_local_name host =
    same_codes host (codes "localhost")
    || ends_with (codes ".localhost") host
    || ends_with (codes ".local") host
    || ends_with (codes ".internal") host

abbrev pub public_site : Net → Address → Bool
public_site n a =
    let host = normalized_host a.hostname in
    is_web a.protocol
    && length a.username == 0
    && length a.password == 0
    && not (is_local_name host)
    && (n.is_ip host == 0 || is_public_address n host)

abbrev pub kept_site : Net → Option Address → Option Address
kept_site n none = none
kept_site n (some a) = if public_site n a then some a else none

-- `publicHttpUrl`; its errors are none.
unfoldable pub public_http_url : Net → List ℕ → Option Address
unfolding is_public_address normalized_host ends_with
public_http_url n raw = kept_site n (n.browser.parse raw)

abbrev head_address : List Resolved → Option (List ℕ)
head_address [] = none
head_address (x ∷ xs) = some x.0

abbrev first_address : List Resolved → Option Resolved → Option (List ℕ)
first_address xs (some x) = some x.0
first_address xs none = head_address xs

abbrev all_public : Net → List Resolved → Bool
all_public n xs = not (any (λ x. not (is_public_address n x.0)) xs)

abbrev chosen_address : Net → Option (List Resolved) → Option (List ℕ)
chosen_address n none = none
chosen_address n (some xs) =
    if all_public n xs then first_address xs (find? (λ x. x.1 == 4) xs) else none

abbrev asked : Net → ℕ → List ℕ → Option (List Resolved)
asked n time host =
    if n.is_ip host == 0 then n.lookup time host else some ((host, n.is_ip host) ∷ [])

-- `resolvePublicAddress`, asked at a time; its errors are none.
unfoldable pub resolve_public_address : Net → ℕ → List ℕ → Option (List ℕ)
unfolding normalized_host is_public_address
resolve_public_address n time hostname = chosen_address n (asked n time (normalized_host hostname))
