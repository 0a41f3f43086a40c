-- ===== src/Capture/Addresses.antt =====
-- The URL parser, as packages/contracts/src uses it.
use link_suffix.Base.{ℕ, List, Option, String}

-- What the URL parser makes of a text: `search` as a text, and `document` as `href` without the fragment.
pub record Address : Type 0 where
  pub protocol : List ℕ
  pub username : List ℕ
  pub password : List ℕ
  pub hostname : List ℕ
  pub origin : List ℕ
  pub pathname : List ℕ
  pub search : String
  pub document : List ℕ

-- The URL parser, its `href` for a reference and a base, and `URLSearchParams`; none is an error.
pub record Browser : Type 0 where
  pub parse : List ℕ → Option Address
  pub href : List ℕ → Option (List ℕ) → Option (List ℕ)
  pub search_params : String → List (String × String)
