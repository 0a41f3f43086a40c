-- ===== src/Capture/Evidence/Sound.antt =====
-- What an accepted capture rests on.
use link_suffix.Base.{
  sym, is_some, subst, &&-parts, ℕ, ◌≡◌, refl, inl, inr, Bool, true, false, ◌&&◌, List, [], ◌∷◌,
  Option, none, some, All, Bool-cases, Option-cases, arith,
}
use link_suffix.Capture.Query.Exact.{query_suffix-IsCut, IsCut}
use link_suffix.Capture.Policy.{
  Policy, Given, Parsed, undefined, throws, policy, parse_redirect_capture_policy,
}
use link_suffix.Capture.Addresses.{Browser}
use link_suffix.Capture.Evidence.{
  unless_stopped, evaluate_capture_result, with_suffix, with_main, with_issue, JourneyResult,
  first_stop, documents_of, last_of, wants_policy, is_unresolved, is_bad_verdict, chosen,
}
use link_suffix.Capture.Confirmed.{
  Decision, accepted, rejected, EvidenceKind, document_response, redirect_location, redirect_only,
  by_document, by_policy, rendered, redirected, is_guarded, all_within, main_location,
  same_location, identified,
}
use link_suffix.Capture.Edge.{Code, Event, edge_stop_for_response}
use link_suffix.Capture.Landing.{UrlIssue, capture_url_issue}
use link_suffix.Capture.Query.{query_suffix}

-- What stands behind the redirect of a run with a policy.
pub record IsRedirectOnly (b : Browser) (documents : List Event) (main : Event) (url : List ℕ)
    (p : Policy) : Type 0 where
  pub guarded : is_guarded main ≡ true
  pub within : all_within b p documents ≡ true
  pub location : same_location (main_location b p main) url ≡ true
  pub identifier : identified b p.required_parameter (b.parse url) ≡ true

-- The evidence of each kind.
abbrev pub Confirms : Browser → Given → List Event → Event → List ℕ → EvidenceKind → Type 0
Confirms b given documents main url document_response = rendered b main url ≡ true
Confirms b given documents main url redirect_location = redirected b main url ≡ true
Confirms b given documents main url redirect_only =
    (p : Policy) × (parse_redirect_capture_policy b none given ≡ policy p)
    × IsRedirectOnly b documents main url p

abbrev pub is_redirect_only : EvidenceKind → Bool
is_redirect_only redirect_only = true
is_redirect_only _ = false

pub record IsSound (b : Browser) (options : Option Given) (r : JourneyResult) (url suffix : List ℕ)
    (kind : EvidenceKind) : Type 0 where
  pub main : Event
  pub landing : r.final_landing_url ≡ some url
  pub cut : IsCut url suffix
  pub no_stop : All (λ e. edge_stop_for_response b e ≡ none) (documents_of r)
  pub no_issue : capture_url_issue b (some url) ≡ none
  pub no_error : r.error ≡ none
  pub resolved : is_unresolved r.challenge_status ≡ false
  pub verdict : is_bad_verdict r.final_verdict ≡ false
  pub last : last_of (documents_of r) ≡ some main
  pub confirmed : Confirms b (chosen options r.redirect_capture) (documents_of r) main url kind
  pub asked : wants_policy options r.redirect_capture main ≡ is_redirect_only kind

first_stop-All :
    (b : Browser) (es : List Event)
    → first_stop b es ≡ none
    → All (λ e. edge_stop_for_response b e ≡ none) es
first_stop-All b [] h = tt
first_stop-All b (e ∷ es) h = elim (Option-cases (edge_stop_for_response b e)) [
  | inl goes ↦ (goes, first_stop-All b es (ground (arith, goes, h)))
  | inr (code, stops) ↦ absurd (ground (arith, stops, h))
]

module _ (b : Browser) (options : Option Given) (r : JourneyResult) where
  -- A decision over the address and the suffix, if it accepts.
  abbrev Backed : Event → List ℕ → List ℕ → Decision → Type 0
  Backed main url suffix (rejected code) = Unit
  Backed main url suffix (accepted u s kind) =
      (u ≡ url)
      × (s ≡ suffix)
      × Confirms b (chosen options r.redirect_capture) (documents_of r) main url kind
      × (wants_policy options r.redirect_capture main ≡ is_redirect_only kind)

  by_document-Backed :
      (main : Event) (url suffix : List ℕ)
      → wants_policy options r.redirect_capture main ≡ false
      → Backed main url suffix (by_document b main url suffix)
  by_document-Backed main url suffix h = elim (Bool-cases (rendered b main url)) [
    | inl seen ↦ rw seen (refl, refl, seen, h)
    | inr unseen ↦ rw unseen (elim (Bool-cases (redirected b main url)) [
      | inl moved ↦ rw moved (refl, refl, moved, h)
      | inr stays ↦ rw stays tt
    ])
  ]

  by_policy-Backed :
      (main : Event) (url suffix : List ℕ) (found : Parsed)
      → wants_policy options r.redirect_capture main ≡ true
      → parse_redirect_capture_policy b none (chosen options r.redirect_capture) ≡ found
      → Backed main url suffix (by_policy b (documents_of r) main url suffix found)
  by_policy-Backed main url suffix undefined h e = tt
  by_policy-Backed main url suffix throws h e = tt
  by_policy-Backed main url suffix (policy p) h e =
      elim (Bool-cases (is_guarded main && all_within b p (documents_of r))) [
        | inr open_path ↦ rw open_path tt
        | inl kept ↦ rw kept (elim (Bool-cases (same_location (main_location b p main) url)) [
          | inr elsewhere ↦ rw elsewhere tt
          | inl located ↦
              rw located (elim (Bool-cases (identified b p.required_parameter (b.parse url))) [
                | inr anonymous ↦ rw anonymous tt
                | inl named ↦ rw named (
                  refl,
                  refl,
                  (
                    p,
                    e,
                    record {
                      guarded =
                          (&&-parts (is_guarded main) (all_within b p (documents_of r)) kept).0;
                      within =
                          (&&-parts (is_guarded main) (all_within b p (documents_of r)) kept).1;
                      location = located;
                      identifier = named;
                    },
                  ),
                  h,
                )
              ])
        ])
      ]

  main-Backed :
      (main : Event) (url suffix : List ℕ)
      → Backed main url suffix (with_main b options r (documents_of r) url suffix (some main))
  main-Backed main url suffix = elim (Bool-cases (wants_policy options r.redirect_capture main)) [
    | inl wants ↦ rw wants (
        by_policy-Backed main url suffix
          (parse_redirect_capture_policy b none (chosen options r.redirect_capture)) wants refl)
    | inr free ↦ rw free (by_document-Backed main url suffix free)
  ]

  with_main-accepted :
      (o : Option Event) (url suffix u s : List ℕ) (kind : EvidenceKind)
      → with_main b options r (documents_of r) url suffix o ≡ accepted u s kind
      → (main : Event) × (o ≡ some main) × Backed main url suffix (accepted u s kind)
  with_main-accepted none url suffix u s kind e = absurd (ground (arith, e))
  with_main-accepted (some main) url suffix u s kind e =
      (main, refl, subst (Backed main url suffix) e (main-Backed main url suffix))

  with_suffix-accepted :
      (o : Option Event) (url : List ℕ) (c : Option (List ℕ)) (u s : List ℕ) (kind : EvidenceKind)
      → query_suffix url ≡ c
      → with_suffix b options r (documents_of r) o url c ≡ accepted u s kind
      → (main : Event) × (o ≡ some main)
        × (query_suffix url ≡ some s)
        × Backed main url s (accepted u s kind)
  with_suffix-accepted o url none u s kind q e = absurd (ground (arith, e))
  with_suffix-accepted o url (some suffix) u s kind q e =
      let (main, last, h) = with_main-accepted o url suffix u s kind e in
      (main, last, rw h.1 q, (h.0, refl, h.2, h.3))

  -- The result once its address is free of issues.
  clear-IsSound :
      (url u s : List ℕ) (kind : EvidenceKind)
      → r.final_landing_url ≡ some url
      → All (λ e. edge_stop_for_response b e ≡ none) (documents_of r)
      → capture_url_issue b (some url) ≡ none
      → with_issue b options r (documents_of r) (last_of (documents_of r)) none ≡ accepted u s kind
      → IsSound b options r u s kind
  clear-IsSound url u s kind landing stops issue e =
      let no_error : is_some r.error ≡ false = ground (arith, e) in
      let resolved : is_unresolved r.challenge_status ≡ false = ground (arith, no_error, e) in
      let verdict : is_bad_verdict r.final_verdict ≡ false =
        ground (arith, no_error, resolved, e) in
      let found : with_suffix b options r (documents_of r) (last_of (documents_of r)) url
            (query_suffix url)
          ≡ accepted u s kind =
        ground (arith, no_error, resolved, verdict, landing, e) in
      let (main, last, cut, h) =
        with_suffix-accepted (last_of (documents_of r)) url (query_suffix url) u s kind refl
          found in
      let at_url : IsSound b options r url s kind = record {
        main = main;
        landing = landing;
        cut = query_suffix-IsCut url s cut;
        no_stop = stops;
        no_issue = issue;
        no_error = ground (arith, no_error);
        resolved = resolved;
        verdict = verdict;
        last = last;
        confirmed = h.2;
        asked = h.3;
      } in
      subst (λ x. IsSound b options r x s kind) (sym h.0) at_url

  with_issue-IsSound :
      (i : Option UrlIssue) (landing : Option (List ℕ)) (u s : List ℕ) (kind : EvidenceKind)
      → r.final_landing_url ≡ landing
      → capture_url_issue b landing ≡ i
      → All (λ e. edge_stop_for_response b e ≡ none) (documents_of r)
      → with_issue b options r (documents_of r) (last_of (documents_of r)) i ≡ accepted u s kind
      → IsSound b options r u s kind
  unfolding capture_url_issue
  with_issue-IsSound (some i) landing u s kind lands issue stops e = absurd (ground (arith, e))
  with_issue-IsSound none none u s kind lands issue stops e = absurd (ground (arith, issue))
  with_issue-IsSound none (some url) u s kind lands issue stops e =
      clear-IsSound url u s kind lands stops issue e

  stopped-IsSound :
      (o : Option Code) (u s : List ℕ) (kind : EvidenceKind)
      → first_stop b (documents_of r) ≡ o
      → unless_stopped b options r o ≡ accepted u s kind
      → IsSound b options r u s kind
  stopped-IsSound (some code) u s kind stops e = absurd (ground (arith, e))
  stopped-IsSound none u s kind stops e =
      with_issue-IsSound (capture_url_issue b r.final_landing_url) r.final_landing_url u s kind refl
        refl (first_stop-All b (documents_of r) stops) e

  -- Whatever the platform answers, an accepted capture rests on evidence: no document of the journey was a refusal
  -- or a challenge, the landing address has no issue, the journey ended without an error, with a resolved
  -- challenge if any and without a verdict against it, the suffix is cut out of the address byte for byte, and the
  -- last document confirms the address: it is that address with a success, or a redirect whose Location it is, or,
  -- exactly where a policy is asked for, a guarded redirect under the policy that was given.
  pub evaluate-IsSound :
      (url suffix : List ℕ) (kind : EvidenceKind)
      → evaluate_capture_result b options r ≡ accepted url suffix kind
      → IsSound b options r url suffix kind
  unfolding evaluate_capture_result
  evaluate-IsSound url suffix kind e =
      stopped-IsSound (first_stop b (documents_of r)) url suffix kind refl e
