-- ===== src/Outbound/Public.antt =====
-- What a URL that passes the check may lead to.
use link_suffix.Base.{
  subst, ◌∙◌, sym, map, ◌⊎◌, ℕ, ◌≡◌, ◌≤◌, ◌==◌, List, [], ◌∷◌, Option, none, some, any, arith, All,
  refl, inl, inr, Bool-cases, true, false, length, any-false, All-imp, ==_iff,
}
use link_suffix.Base.Text.{same_codes→eq, lower, same_codes, codes}
use link_suffix.Outbound.Addresses.{
  blocked_or, without_open, without_close, four, byte_of, before, bytes_of, bare, Bytes, ipv4_bytes,
  is_blocked_address, blocked_ipv6, split_on,
}
use link_suffix.Outbound.Reserved.{
  number, in_block, reserved_blocks, IsBytes, blocked_bytes-in_block,
}
use link_suffix.Outbound.{
  is_web, Platform, Settings, Url, safe, is_local_host, host_of, allowed_hostname, resolved, routed,
  check_url, assert_safe_outbound_url,
}

-- An address of the fourth version outside the reserved blocks.
pub record IsOutside (address : List ℕ) : Type 0 where
  pub bytes : Bytes
  pub read : ipv4_bytes address ≡ some bytes
  pub small : IsBytes bytes
  pub outside : any (in_block (number bytes)) reserved_blocks ≡ false

-- An address that may be opened, by its version.
abbrev pub IsRoutable : Platform → List ℕ → Type 0
IsRoutable p address =
    (p.is_ip (bare address) ≡ 4) × IsOutside address
    ⊎ (p.is_ip (bare address) ≡ 6)
      × (blocked_ipv6 (before b'%' (without_close (without_open (map lower address)))) ≡ false)

byte_of-le : (part : List ℕ) (n : ℕ) → byte_of part ≡ some n → n ≤ 255
byte_of-le part n e = ground arith

four-IsBytes :
    (a b c d : Option ℕ) (x : Bytes)
    → ((n : ℕ) → a ≡ some n → n ≤ 255)
    → ((n : ℕ) → b ≡ some n → n ≤ 255)
    → ((n : ℕ) → c ≡ some n → n ≤ 255)
    → ((n : ℕ) → d ≡ some n → n ≤ 255)
    → four a b c d ≡ some x
    → IsBytes x
four-IsBytes (some a) (some b) (some c) (some d) x ha hb hc hd e =
    ground (arith, ha a refl, hb b refl, hc c refl, hd d refl)
four-IsBytes _ _ _ _ x ha hb hc hd e = absurd (ground arith)

bytes_of-IsBytes : (parts : List (List ℕ)) (x : Bytes) → bytes_of parts ≡ some x → IsBytes x
bytes_of-IsBytes (a ∷ b ∷ c ∷ d ∷ []) x e =
    four-IsBytes (byte_of a) (byte_of b) (byte_of c) (byte_of d) x (byte_of-le a) (byte_of-le b)
      (byte_of-le c) (byte_of-le d) e
bytes_of-IsBytes _ x e = absurd (ground arith)

ipv4-IsOutside :
    (address : List ℕ) (o : Option Bytes)
    → ipv4_bytes address ≡ o
    → blocked_or o ≡ false
    → IsOutside address
ipv4-IsOutside address none e h = absurd (ground arith)
ipv4-IsOutside address (some x) e h =
    let small = bytes_of-IsBytes (split_on b'.' address) x e in
    record {
      bytes = x;
      read = e;
      small = small;
      outside = sym (blocked_bytes-in_block x small) ∙ h;
    }

-- An address that is not blocked may be opened.
not_blocked-IsRoutable :
    (p : Platform) (address : List ℕ)
    → is_blocked_address p.is_ip address ≡ false
    → IsRoutable p address
unfolding is_blocked_address
not_blocked-IsRoutable p address h = elim (Bool-cases (p.is_ip (bare address) == 4)) [
  | inl v4 ↦ inl (
    (==_iff (p.is_ip (bare address)) 4).0 v4,
    ipv4-IsOutside address (ipv4_bytes address) refl (ground (arith, v4, h)),
  )
  | inr other ↦ elim (Bool-cases (p.is_ip (bare address) == 6)) [
    | inl v6 ↦ inr ((==_iff (p.is_ip (bare address)) 6).0 v6, ground (arith, other, v6, h))
    | inr neither ↦ absurd (ground (arith, other, neither, h))
  ]
]

-- The host is an address, or every address that it resolves to is meant.
abbrev pub LeadsOut : Platform → Url → Type 0
LeadsOut p u =
    ((p.is_ip (host_of u) == 0) ≡ false) × IsRoutable p (host_of u)
    ⊎ (rs : List (List ℕ)) × (p.lookup (host_of u) ≡ some rs)
      × ((length rs == 0) ≡ false)
      × All (IsRoutable p) rs

pub record IsPublic (p : Platform) (e : Settings) (u : Url) : Type 0 where
  pub web : (u.protocol ≡ codes "http:") ⊎ (u.protocol ≡ codes "https:")
  pub anonymous : (u.username ≡ []) × (u.password ≡ [])
  pub foreign_host : is_local_host (host_of u) ≡ false
  pub allowed : allowed_hostname e (host_of u) ≡ true
  pub leads_out : LeadsOut p u

resolved-LeadsOut :
    (p : Platform) (u v : Url) (o : Option (List (List ℕ)))
    → p.lookup (host_of u) ≡ o
    → resolved p u o ≡ safe v
    → LeadsOut p u
resolved-LeadsOut p u v none e h = absurd (ground arith)
resolved-LeadsOut p u v (some rs) e h = inr (
  rs,
  e,
  ground arith,
  All-imp (λ a. is_blocked_address p.is_ip a ≡ false) (IsRoutable p) (not_blocked-IsRoutable p) rs
      (any-false (is_blocked_address p.is_ip) rs (ground arith)),
)

routed-LeadsOut : (p : Platform) (u v : Url) → routed p u ≡ safe v → LeadsOut p u
routed-LeadsOut p u v h = elim (Bool-cases (p.is_ip (host_of u) == 0)) [
  | inl name ↦ resolved-LeadsOut p u v (p.lookup (host_of u)) refl (ground (arith, name, h))
  | inr address ↦ inl (address, not_blocked-IsRoutable p (host_of u) (ground (arith, address, h)))
]

empty-of : (cs : List ℕ) → (length cs == 0) ≡ true → cs ≡ []
empty-of [] h = refl
empty-of (c ∷ cs) h = absurd (ground arith)

resolved-same :
    (p : Platform) (u v : Url) (o : Option (List (List ℕ))) → resolved p u o ≡ safe v → u ≡ v
resolved-same p u v none h = absurd (ground arith)
resolved-same p u v (some rs) h = ground arith

routed-same : (p : Platform) (u v : Url) → routed p u ≡ safe v → u ≡ v
routed-same p u v h = ground (arith, resolved-same p u v (p.lookup (host_of u)))

either-web : (cs : List ℕ) → is_web cs ≡ true → (cs ≡ codes "http:") ⊎ (cs ≡ codes "https:")
either-web cs h = elim (Bool-cases (same_codes cs (codes "http:"))) [
  | inl plain ↦ inl (same_codes→eq cs (codes "http:") plain)
  | inr other ↦ inr (same_codes→eq cs (codes "https:") (ground (arith, other, h)))
]

-- Every test of the check was passed.
check_url-tests :
    (p : Platform) (e : Settings) (v u : Url)
    → check_url p e (some v) ≡ safe u
    → (is_web v.protocol ≡ true)
      × (((length v.username == 0) ≡ true) × ((length v.password == 0) ≡ true))
      × (is_local_host (host_of v) ≡ false)
      × (allowed_hostname e (host_of v) ≡ true)
      × (routed p v ≡ safe u)
check_url-tests p e v u h = ground arith

check_url-IsPublic :
    (p : Platform) (e : Settings) (o : Option Url) (u : Url)
    → check_url p e o ≡ safe u
    → (o ≡ some u) × IsPublic p e u
check_url-IsPublic p e none u h = absurd (ground arith)
check_url-IsPublic p e (some v) u h =
    let (web, (no_user, no_pass), foreign, allowed, routes) = check_url-tests p e v u h in
    let same = routed-same p v u routes in
    subst (λ (x : Url). (some v ≡ some x) × IsPublic p e x) same
      (
        refl,
        record {
          web = either-web v.protocol web;
          anonymous = (empty-of v.username no_user, empty-of v.password no_pass);
          foreign_host = foreign;
          allowed = allowed;
          leads_out = routed-LeadsOut p v u routes;
        },
      )

-- Whatever the platform answers, a URL that passes the check is a web URL without credentials, its host is not
-- local and is allowed by the settings, and every address that the host is or resolves to (there is one) is of
-- the fourth version outside the reserved blocks, or of the sixth version and not blocked.
pub assert-IsPublic :
    (p : Platform) (e : Settings) (input : List ℕ) (u : Url)
    → assert_safe_outbound_url p e input ≡ safe u
    → IsPublic p e u
unfolding assert_safe_outbound_url
assert-IsPublic p e input u h = (check_url-IsPublic p e (p.parse input) u h).1
