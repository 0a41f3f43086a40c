-- ===== src/Redirects/Resolved.antt =====
-- What the redirect resolver guarantees of its result.
use native.Mathlib.Nat.{zero-add}
use link_suffix.Base.{
  subst, ℕ, suc, ◌≤◌, ◌≡◌, refl, inr, inl, List, [], Option, none, some, length, is_some, All,
  Bool-cases, arith,
}
use link_suffix.Capture.Addresses.{Address}
use link_suffix.Network.{public_http_url, resolve_public_address}
use link_suffix.Redirects.{Journey, captured, hops, seeded, resolve_redirect_first}
use link_suffix.Redirects.Allowed.{IsGood, Visits, Confirmed}
use link_suffix.Redirects.Chain.{hops-IsGood}

seeded-IsGood :
    (j : Journey) (seed : List ℕ) (a : Address)
    → public_http_url j.net seed ≡ some a
    → IsGood j a.origin (suc j.max_hops) (seeded j seed (some a))
seeded-IsGood j seed a e = elim (Bool-cases (is_some (resolve_public_address j.net 0 a.hostname))) [
  | inr lost ↦
      rw lost (record {
        visited = tt;
        within = omega arith;
        confirmed = λ u h. absurd (ground (arith, h));
      })
  | inl there ↦ rw there (
      subst (λ n. IsGood j a.origin n (hops j a.origin (suc j.max_hops) 0 seed [] []))
        (zero-add (suc j.max_hops))
        (hops-IsGood j a.origin (suc j.max_hops) 0 seed [] []
          (record { address = a; public = e; asked = 0; resolves = there; allowed = inr refl }) tt
          tt))
]

-- Whatever the network and the name service answer to a seed that passes the test of its URL, each request of
-- the chain that is recorded goes to a public address: it passes the test of its URL, its host resolves to
-- public addresses alone when it is asked, and unless external redirects are followed it has the seed's origin.
pub resolve-Visits :
    (j : Journey) (seed : List ℕ) (a : Address)
    → public_http_url j.net seed ≡ some a
    → All (Visits j a.origin) (resolve_redirect_first j seed).events
unfolding resolve_redirect_first
resolve-Visits j seed a e = rw e (seeded-IsGood j seed a e).visited

seeded-within :
    (j : Journey) (seed : List ℕ) (o : Option Address)
    → public_http_url j.net seed ≡ o
    → length (seeded j seed o).events ≤ suc j.max_hops
seeded-within j seed none e = omega arith
seeded-within j seed (some a) e = (seeded-IsGood j seed a e).within

-- A chain ends after one request for each hop that is allowed and one more, whatever is answered.
pub resolve-within :
    (j : Journey) (seed : List ℕ) → length (resolve_redirect_first j seed).events ≤ suc j.max_hops
unfolding resolve_redirect_first
resolve-within j seed = seeded-within j seed (public_http_url j.net seed) refl

seeded-Confirmed :
    (j : Journey) (seed : List ℕ) (o : Option Address) (url : List ℕ)
    → public_http_url j.net seed ≡ o
    → (seeded j seed o).outcome ≡ captured url
    → Confirmed j url (seeded j seed o)
seeded-Confirmed j seed none url e h = absurd (ground (arith, h))
seeded-Confirmed j seed (some a) url e h = (seeded-IsGood j seed a e).confirmed url h

-- An address that is captured without a browser is the target of the last redirect, has a query that is not
-- empty, and no answer on the way to it was a refusal or a challenge.
pub resolve-Confirmed :
    (j : Journey) (seed url : List ℕ)
    → (resolve_redirect_first j seed).outcome ≡ captured url
    → Confirmed j url (resolve_redirect_first j seed)
unfolding resolve_redirect_first
resolve-Confirmed j seed url h = seeded-Confirmed j seed (public_http_url j.net seed) url refl h
