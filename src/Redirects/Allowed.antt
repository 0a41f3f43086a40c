-- ===== src/Redirects/Allowed.antt =====
-- What a chain of redirects requests, and what it captures.
use link_suffix.Base.{
  ℕ, suc, ◌≤◌, ◌≡◌, refl, ap, ◌∙◌, ◌⊎◌, inl, inr, true, not, ◌&&◌, ◌||◌, List, [], ◌∷◌, ◌++◌,
  Option, none, some, leb, ltb, length, is_some, All, Bool-cases, arith,
}
use link_suffix.Base.Text.{same_codes, same_codes→eq}
use link_suffix.Capture.Query.{has_exact_query}
use link_suffix.Capture.Addresses.{Address, Browser}
use link_suffix.Capture.Edge.{Event, edge_stop_for_response}
use link_suffix.Outbound.Addresses.{trim_codes}
use link_suffix.Network.{Net, public_http_url, resolve_public_address, kept_site}
use link_suffix.Redirects.{
  Journey, Redirect, Resolution, Reason, captured, browser_required, stopped, is_reachable, ends,
  on_target, on_location, on_final, at_end, last_to,
}
use link_suffix.Redirects.Locations.{
  Target, target_at, target_of, resolve_location, is_private_hostname,
}

-- An address that may be requested.
pub record IsOpen (j : Journey) (seed_origin url : List ℕ) : Type 0 where
  pub address : Address
  pub public : public_http_url j.net url ≡ some address
  pub asked : ℕ
  pub resolves : is_some (resolve_public_address j.net asked address.hostname) ≡ true
  pub allowed : (j.follow_external ≡ true) ⊎ (address.origin ≡ seed_origin)

abbrev pub Visits : Journey → List ℕ → Event → Type 0
Visits j seed_origin e = (url : List ℕ) × (e.url ≡ some url) × IsOpen j seed_origin url

-- What a captured address rests on.
abbrev pub Confirmed : Journey → List ℕ → Resolution → Type 0
Confirmed j url r =
    (has_exact_query url ≡ true)
    × (last_to r.redirects ≡ some url)
    × All (λ e. edge_stop_for_response j.net.browser e ≡ none) r.events

pub record IsGood (j : Journey) (seed_origin : List ℕ) (bound : ℕ) (r : Resolution) : Type 0 where
  pub visited : All (Visits j seed_origin) r.events
  pub within : length r.events ≤ bound
  pub confirmed : (url : List ℕ) → r.outcome ≡ captured url → Confirmed j url r

last_to-last : (rs : List Redirect) (r : Redirect) → last_to (rs ++ (r ∷ [])) ≡ some r.to
last_to-last [] r = refl
last_to-last (x ∷ []) r = refl
last_to-last (x ∷ y ∷ rs) r = last_to-last (y ∷ rs) r

pub length-last : (es : List Event) (e : Event) → length (es ++ (e ∷ [])) ≡ suc (length es)
length-last [] e = refl
length-last (x ∷ es) e = omega (arith, length-last es e)

kept-same :
    (n : Net) (o : Option Address) (a : Address)
    → o ≡ some a
    → is_some (kept_site n o) ≡ true
    → kept_site n o ≡ some a
kept-same n none a e h = absurd (ground (arith, e))
kept-same n (some b) a e h = ground (arith, e, h)

at-parsed :
    (b : Browser) (raw href : List ℕ) (o : Option Address) (t : Target)
    → b.parse href ≡ o
    → target_at raw href o ≡ some t
    → b.parse t.request_url ≡ some t.address
at-parsed b raw href none t e h = absurd (ground (arith, h))
at-parsed b raw href (some a) t e h = ground (arith, e, h)

of-parsed :
    (b : Browser) (raw : List ℕ) (o : Option (List ℕ)) (t : Target)
    → target_of b raw o ≡ some t
    → b.parse t.request_url ≡ some t.address
of-parsed b raw none t h = absurd (ground (arith, h))
of-parsed b raw (some href) t h = at-parsed b raw href (b.parse href) t refl h

-- The parts of a target are those of the address that is requested.
resolved-parsed :
    (b : Browser) (l current : List ℕ) (t : Target)
    → resolve_location b l current ≡ some t
    → b.parse t.request_url ≡ some t.address
unfolding resolve_location
resolved-parsed b l current t h =
    of-parsed b (trim_codes l) (b.href (trim_codes l) (some current)) t (ground (arith, h))

module _ (j : Journey) (seed_origin : List ℕ) (bound : ℕ) (es : List Event)
    (visited : All (Visits j seed_origin) es) (within : length es ≤ bound)
    (clean : All (λ e. edge_stop_for_response j.net.browser e ≡ none) es) where
  required :
      (x : Reason) (rs : List Redirect)
      → IsGood j seed_origin bound (ends (browser_required x) es rs)
  required x rs = record {
    visited = visited;
    within = within;
    confirmed = λ url e. absurd (ground (arith, e));
  }

  module _ (hop : ℕ) (current : List ℕ) (status : ℕ) (rs : List Redirect)
      (next : List ℕ → List Redirect → Resolution)
      (onward : (url : List ℕ) (rs' : List Redirect)
        → IsOpen j seed_origin url
        → IsGood j seed_origin bound (next url rs')) where
    target-IsOpen :
        (t : Target)
        → j.net.browser.parse t.request_url ≡ some t.address
        → is_reachable j.net (suc hop) t ≡ true
        → (j.follow_external ≡ true) ⊎ (t.address.origin ≡ seed_origin)
        → IsOpen j seed_origin t.request_url
    unfolding public_http_url
    target-IsOpen t parsed reach allowed = record {
      address = t.address;
      public =
          kept-same j.net (j.net.browser.parse t.request_url) t.address parsed
            (ground (arith, reach));
      asked = suc hop;
      resolves = ground (arith, reach);
      allowed = allowed;
    }

    on_target-IsGood :
        (o : Option Target)
        → ((t : Target) → o ≡ some t → j.net.browser.parse t.request_url ≡ some t.address)
        → IsGood j seed_origin bound (on_target j seed_origin hop current status es rs next o)
    on_target-IsGood none parsed = required _ rs
    on_target-IsGood (some t) parsed =
        elim (Bool-cases
          (is_private_hostname t.address.hostname || not (is_reachable j.net (suc hop) t))) [
            | inl blocked ↦ rw blocked (required _ rs)
            | inr reach ↦
                rw reach
                  (elim (Bool-cases
                    (not (same_codes t.address.origin seed_origin) && not j.follow_external)) [
                      | inl leaves ↦ rw leaves (elim (Bool-cases (has_exact_query t.captured_url)) [
                        | inr bare ↦ rw bare (required _ _)
                        | inl exact ↦ rw exact (record {
                          visited = visited;
                          within = within;
                          confirmed = λ url e.
                              let same : t.captured_url ≡ url = ground (arith, e) in
                              (rw (← same) exact, last_to-last rs _ ∙ ap some same, clean);
                        })
                      ])
                      | inr stays ↦ rw stays (
                          onward t.request_url _ (
                            target-IsOpen t (parsed t refl) (ground (arith, reach))
                              (elim (Bool-cases j.follow_external) [
                                | inl follows ↦ inl follows
                                | inr keeps ↦ inr (
                                    same_codes→eq t.address.origin seed_origin
                                      (ground (arith, keeps, stays)))
                              ])))
                    ])
          ]

    pub on_location-IsGood :
        (o : Option (List ℕ))
        → IsGood j seed_origin bound (on_location j seed_origin hop current status es rs next o)
    on_location-IsGood none = required _ rs
    on_location-IsGood (some l) = elim (Bool-cases (leb j.max_hops hop)) [
      | inl over ↦ rw over (required _ rs)
      | inr more ↦ rw more (
          on_target-IsGood (resolve_location j.net.browser l current)
            (resolved-parsed j.net.browser l current))
    ]

    at_end-IsGood : IsGood j seed_origin bound (at_end status es rs)
    at_end-IsGood = required _ rs

    pub on_final-IsGood :
        (o : Option (List ℕ))
        → last_to rs ≡ o
        → IsGood j seed_origin bound (on_final status es rs o)
    on_final-IsGood none e = at_end-IsGood
    on_final-IsGood (some to) e =
        elim (Bool-cases (leb 200 status && ltb status 300 && has_exact_query to)) [
          | inr other ↦ rw other at_end-IsGood
          | inl good ↦ rw good (record {
            visited = visited;
            within = within;
            confirmed = λ url h.
                let same : to ≡ url = ground (arith, h) in
                (rw (← same) (ground (arith, good)), e ∙ ap some same, clean);
          })
        ]

pub stopped-IsGood :
    (j : Journey) (seed_origin : List ℕ) (bound : ℕ) (es : List Event) (rs : List Redirect)
    (x : Reason) (url : List ℕ)
    → All (Visits j seed_origin) es
    → length es ≤ bound
    → IsGood j seed_origin bound (ends (stopped x url) es rs)
stopped-IsGood j seed_origin bound es rs x url visited within = record {
  visited = visited;
  within = within;
  confirmed = λ u e. absurd (ground (arith, e));
}
