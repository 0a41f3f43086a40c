-- ===== src/Capture/Evidence/Unvisited.antt =====
-- A capture that ends at a redirect: the destination itself was never opened.
use link_suffix.Base.{
  String, ℕ, ◌≡◌, refl, subst, inl, inr, Bool, true, false, not, ◌&&◌, List, [], ◌∷◌, Option, none,
  some, is_some, All, any, Bool-cases, &&-parts, arith,
}
use link_suffix.Base.Text.{same_codes, same_codes→eq}
use link_suffix.Capture.Policy.{
  Policy, Given, Fields, fields, absent, not_an_object, Parsed, policy,
  parse_redirect_capture_policy, same_host, are_allowed, with_origins, with_ends, counted_origins,
  well_formed, seed_is_allowed,
}
use link_suffix.Capture.Origins.{approved_origin}
use link_suffix.Capture.Addresses.{Browser}
use link_suffix.Capture.Evidence.{JourneyResult, documents_of, chosen, evaluate_capture_result}
use link_suffix.Capture.Confirmed.{
  accepted, redirect_only, origin_of, origin_listed, is_within, all_within,
}
use link_suffix.Capture.Edge.{Event}
use link_suffix.Capture.Landing.{capture_url_issue}
use link_suffix.Capture.Evidence.Sound.{evaluate-IsSound}

-- What a policy promises of its origins.
abbrev Promises : Browser → Parsed → Type 0
Promises b (policy p) = any (λ o. same_host b o p.destination_origin) p.navigation_origins ≡ false
Promises b _ = Unit

with_origins-Promises :
    (b : Browser) (seed : Option (List ℕ)) (parameter : String) (issuer destination : List ℕ)
    (o : Option (List (List ℕ)))
    → Promises b (with_origins b seed parameter issuer destination o)
with_origins-Promises b seed parameter issuer destination none = tt
with_origins-Promises b seed parameter issuer destination (some os) =
    elim (Bool-cases (are_allowed b issuer destination os && seed_is_allowed b os seed)) [
      | inl allowed ↦ rw allowed (ground (arith, allowed))
      | inr other ↦ rw other tt
    ]

with_ends-Promises :
    (b : Browser) (seed : Option (List ℕ)) (f : Fields) (issuer destination : Option (List ℕ))
    → Promises b (with_ends b seed f issuer destination)
with_ends-Promises b seed f none destination = tt
with_ends-Promises b seed f (some issuer) none = tt
with_ends-Promises b seed f (some issuer) (some destination) =
    with_origins-Promises b seed f.required_parameter issuer destination
      (counted_origins b f.navigation_origins)

parse-Promises :
    (b : Browser) (seed : Option (List ℕ)) (g : Given)
    → Promises b (parse_redirect_capture_policy b seed g)
unfolding parse_redirect_capture_policy
parse-Promises b seed absent = tt
parse-Promises b seed not_an_object = tt
parse-Promises b seed (fields f) = elim (Bool-cases (well_formed f)) [
  | inl good ↦ rw good (
      with_ends-Promises b seed f (approved_origin b false f.issuer_origin)
        (approved_origin b false f.destination_origin))
  | inr bad ↦ rw bad tt
]

listed-elsewhere :
    (p : List ℕ → Bool) (o : List ℕ) (os : List (List ℕ))
    → any (same_codes o) os ≡ true
    → any p os ≡ false
    → p o ≡ false
listed-elsewhere p o [] h k = absurd (ground (arith, h))
listed-elsewhere p o (x ∷ xs) h k = elim (Bool-cases (same_codes o x)) [
  | inl same ↦ rw (same_codes→eq o x same) (ground (arith, k))
  | inr other ↦ listed-elsewhere p o xs (ground (arith, other, h)) (ground (arith, k))
]

-- A document on an origin of the policy, whose host is not the destination's.
abbrev pub IsElsewhere : Browser → Policy → Event → Type 0
IsElsewhere b p e =
    (o : List ℕ) × (origin_of b e.url ≡ some o)
    × (any (same_codes o) p.navigation_origins ≡ true)
    × (same_host b o p.destination_origin ≡ false)

listed-IsElsewhere :
    (b : Browser) (p : Policy) (e : Event) (o : Option (List ℕ))
    → any (λ x. same_host b x p.destination_origin) p.navigation_origins ≡ false
    → origin_of b e.url ≡ o
    → origin_listed p.navigation_origins o ≡ true
    → IsElsewhere b p e
listed-IsElsewhere b p e none h at listed = absurd (ground (arith, listed))
listed-IsElsewhere b p e (some o) h at listed = (
  o,
  at,
  listed,
  listed-elsewhere (λ x. same_host b x p.destination_origin) o p.navigation_origins listed h,
)

all_within-All :
    (b : Browser) (p : Policy) (es : List Event)
    → any (λ x. same_host b x p.destination_origin) p.navigation_origins ≡ false
    → all_within b p es ≡ true
    → All (IsElsewhere b p) es
all_within-All b p [] h k = tt
all_within-All b p (e ∷ es) h k =
    let (here, rest) = &&-parts (is_within b p e) (all_within b p es) k in
    let (listed, fine) =
      &&-parts (origin_listed p.navigation_origins (origin_of b e.url))
        (not (is_some (capture_url_issue b e.url))) here in
    (listed-IsElsewhere b p e (origin_of b e.url) h refl listed, all_within-All b p es h rest)

-- A capture that is accepted as a redirect alone had a policy, and every document of its journey was on one of the
-- policy's origins and so on another host than the destination: the destination was never opened.
pub evaluate-unvisited :
    (b : Browser) (options : Option Given) (r : JourneyResult) (url suffix : List ℕ)
    → evaluate_capture_result b options r ≡ accepted url suffix redirect_only
    → (p : Policy) × (parse_redirect_capture_policy b none (chosen options r.redirect_capture)
        ≡ policy p)
      × All (IsElsewhere b p) (documents_of r)
evaluate-unvisited b options r url suffix e =
    let (p, given, under) = (evaluate-IsSound b options r url suffix redirect_only e).confirmed in
    let promised : Promises b (policy p) =
      subst (Promises b) given (parse-Promises b none (chosen options r.redirect_capture)) in
    (p, given, all_within-All b p (documents_of r) promised under.within)
