-- ===== src/Redirects/Chain.antt =====
-- The chain, hop by hop.
use link_suffix.Base.{
  ℕ, zero, suc, ◌+◌, ◌≤◌, ◌≡◌, refl, subst, inl, inr, ◌&&◌, List, [], ◌∷◌, ◌++◌, Option, none, some,
  leb, ltb, ◌==◌, length, is_some, All, All-append, Bool-cases, Option-cases, arith,
}
use link_suffix.Capture.Policy.{Headers}
use link_suffix.Capture.Edge.{Event, edge_stop_for_response}
use link_suffix.Redirects.{
  Journey, Redirect, Resolution, Answer, responded, transport_failed, proxy_responded,
  request_failed, event_at, on_response, on_answer, at_hop, hops, last_to,
}
use link_suffix.Redirects.Locations.{location_in}
use link_suffix.Redirects.Allowed.{
  IsOpen, Visits, IsGood, stopped-IsGood, length-last, on_location-IsGood, on_final-IsGood,
}

module _ (j : Journey) (seed_origin : List ℕ) (bound : ℕ) where
  abbrev IsClean : List Event → Type 0
  IsClean = All (λ e. edge_stop_for_response j.net.browser e ≡ none)

  -- The rest of the chain, from the next hop.
  abbrev Onward : ℕ → (List Event → List ℕ → List Redirect → Resolution) → Type 0
  Onward used next =
      (es : List Event) (url : List ℕ) (rs : List Redirect)
      → All (Visits j seed_origin) es
      → IsClean es
      → length es ≡ suc used
      → IsOpen j seed_origin url
      → IsGood j seed_origin bound (next es url rs)

  module _ (hop : ℕ) (current : List ℕ) (here : IsOpen j seed_origin current) (es : List Event)
      (rs : List Redirect) (next : List Event → List ℕ → List Redirect → Resolution)
      (visited : All (Visits j seed_origin) es) (clean : IsClean es)
      (room : suc (length es) ≤ bound) (onward : Onward (length es) next) where
    visited_too :
        (status : Option ℕ) (hs : Headers)
        → All (Visits j seed_origin) (es ++ (event_at current status hs ∷ []))
    visited_too status hs =
        All-append (Visits j seed_origin) es (event_at current status hs ∷ []) visited
          ((current, refl, here), tt)

    within_too :
        (status : Option ℕ) (hs : Headers)
        → length (es ++ (event_at current status hs ∷ [])) ≤ bound
    within_too status hs = omega (arith, room, length-last es (event_at current status hs))

    on_response-IsGood :
        (status : ℕ) (hs : Headers)
        → let es' = es ++ (event_at current (some status) hs ∷ []) in
          IsGood j seed_origin bound
            (on_response j seed_origin hop current status hs es' rs (next es'))
    on_response-IsGood status hs =
        let e = event_at current (some status) hs in
        let es' = es ++ (e ∷ []) in
        elim (Option-cases (edge_stop_for_response j.net.browser e)) [
          | inr (code, stops) ↦ rw stops (
              stopped-IsGood j seed_origin bound es' rs _ current (visited_too (some status) hs)
                (within_too (some status) hs))
          | inl goes ↦
              let clean' : IsClean es' =
                All-append (λ x. edge_stop_for_response j.net.browser x ≡ none) es (e ∷ []) clean
                  (goes, tt) in
              rw goes (elim (Bool-cases (leb 300 status && ltb status 400)) [
                | inl moved ↦ rw moved (
                    on_location-IsGood j seed_origin bound es' (visited_too (some status) hs)
                      (within_too (some status) hs) clean' hop current status rs (next es')
                      (λ url rs' o.
                        onward es' url rs' (visited_too (some status) hs) clean' (length-last es e)
                          o)
                      (location_in hs))
                | inr final ↦ rw final (
                    on_final-IsGood j seed_origin bound es' (visited_too (some status) hs)
                      (within_too (some status) hs) clean' hop current status rs (next es')
                      (λ url rs' o.
                        onward es' url rs' (visited_too (some status) hs) clean' (length-last es e)
                          o)
                      (last_to rs) refl)
              ])
        ]

    on_answer-IsGood :
        (a : Answer) → IsGood j seed_origin bound (on_answer j seed_origin hop current es rs next a)
    on_answer-IsGood (responded status hs) = on_response-IsGood status hs
    on_answer-IsGood (proxy_responded status hs) =
        stopped-IsGood j seed_origin bound _ rs _ current (visited_too (some status) hs)
          (within_too (some status) hs)
    on_answer-IsGood request_failed =
        stopped-IsGood j seed_origin bound es rs _ current visited (omega (arith, room))
    on_answer-IsGood transport_failed = elim (Bool-cases (length es == 0)) [
      | inl first ↦ rw first (record {
        visited = visited;
        within = omega (arith, room);
        confirmed = λ u e. absurd (ground (arith, e));
      })
      | inr later ↦
          rw later
            (stopped-IsGood j seed_origin bound es rs _ current visited (omega (arith, room)))
    ]

    at_hop-IsGood : IsGood j seed_origin bound (at_hop j seed_origin hop current es rs next)
    unfolding at_hop
    at_hop-IsGood = elim (Bool-cases (leb j.total_timeout_ms (j.elapsed hop))) [
      | inl late ↦ rw late (record {
        visited = visited;
        within = omega (arith, room);
        confirmed = λ u e. absurd (ground (arith, e));
      })
      | inr soon ↦
          rw soon
            (elim (Bool-cases
              (is_some (edge_stop_for_response j.net.browser (event_at current none [])))) [
                | inl stops ↦ rw stops (
                    stopped-IsGood j seed_origin bound _ rs _ current (visited_too (some 0) [])
                      (within_too (some 0) []))
                | inr goes ↦ rw goes (on_answer-IsGood (j.fire hop current))
              ])
    ]

pub hops-IsGood :
    (j : Journey) (seed_origin : List ℕ) (left hop : ℕ) (current : List ℕ) (es : List Event)
    (rs : List Redirect)
    → IsOpen j seed_origin current
    → All (Visits j seed_origin) es
    → IsClean j seed_origin (length es + left) es
    → IsGood j seed_origin (length es + left) (hops j seed_origin left hop current es rs)
unfolding hops
hops-IsGood j seed_origin zero hop current es rs here visited clean = record {
  visited = visited;
  within = omega arith;
  confirmed = λ u e. absurd (ground (arith, e));
}
hops-IsGood j seed_origin (suc left) hop current es rs here visited clean =
    at_hop-IsGood j seed_origin (length es + suc left) hop current here es rs
      (λ es' url rs'. hops j seed_origin left (suc hop) url es' rs') visited clean (omega arith)
      (λ es' url rs' visited' clean' longer here'.
        let total : length es' + left ≡ length es + suc left = omega (arith, longer) in
        subst (λ n. IsGood j seed_origin n (hops j seed_origin left (suc hop) url es' rs')) total
          (hops-IsGood j seed_origin left (suc hop) url es' rs' here' visited' clean'))
