-- ===== src/Examples/Opening.antt =====
-- The check of URLs at a concrete platform that knows two hosts.
use link_suffix.Base.{◌≡◌, refl, [], ◌∷◌, none, some, true, false, if◌then◌else◌, any}
use link_suffix.Base.Text.{codes, same_codes}
use link_suffix.Outbound.Addresses.{Bytes}
use link_suffix.Outbound.{
  allowed_hostname, Platform, Settings, Url, refused, resolves_to_private, assert_safe_outbound_url,
}
use link_suffix.Outbound.Public.{IsPublic, assert-IsPublic}

abbrev loopback : Bytes
loopback = record { a = 127; b = 0; c = 0; d = 1 }

abbrev shop : Url
shop = record {
  protocol = codes "https:";
  username = [];
  password = [];
  hostname = codes "Shop.example.";
}

abbrev internal : Url
internal = record shop { hostname = codes "evil.example" }

-- Addresses are told by their first character here.
abbrev platform : Platform
platform = record {
  is_ip = λ a. if any (same_codes a) (codes "8.8.8.8" ∷ codes "10.0.0.7" ∷ []) then 4 else 0;
  parse = λ a. if same_codes a (codes "https://shop.example/") then some shop else some internal;
  lookup = λ a.
      if same_codes a (codes "shop.example")
      then some (codes "8.8.8.8" ∷ [])
      else some (codes "8.8.8.8" ∷ codes "10.0.0.7" ∷ []);
}

abbrev settings : Settings
settings = record {
  allowed_hosts = codes " *.Example, other.test";
  target_policy = none;
  production = true;
  allow_unlisted = false;
}

assert-IsPublic_example : IsPublic platform settings shop
unfolding assert_safe_outbound_url allowed_hostname
assert-IsPublic_example =
    assert-IsPublic platform settings (codes "https://shop.example/") shop refl

-- One private address among several is enough to be refused.
refused_private :
    assert_safe_outbound_url platform settings (codes "https://evil.example/")
    ≡ refused resolves_to_private
unfolding assert_safe_outbound_url allowed_hostname
refused_private = refl
