-- ===== src/Capture/Suffix/Deliverable.antt =====
-- When a suffix may be delivered, as a condition on its decoded fields.
use link_suffix.Base.{
  true, false, ◌≡◌, List, [], ◌∷◌, Option, none, some, String, arith, All, ◌↔◌, any,
}
use link_suffix.Capture.Suffix.{
  is_challenge_key, empty_identifier, challenge_parameters, latest_of, scan_fields,
  delivery_suffix_issue,
}

-- A field that does not stand in the way of delivery.
abbrev pub IsHarmless : String × String → Type 0
IsHarmless f = (is_challenge_key f.0 ≡ false) × (empty_identifier f ≡ none)

scan_fields-none :
    (fs : List (String × String)) (seen : Option String)
    → (scan_fields fs seen ≡ none) ↔ ((seen ≡ none) × All IsHarmless fs)
unfolding scan_fields
scan_fields-none [] none = ground arith
scan_fields-none [] (some key) = ground arith
scan_fields-none (f ∷ fs) seen =
    ground (arith, scan_fields-none fs (latest_of (empty_identifier f) seen))

-- A suffix that is a text is deliverable exactly when none of its decoded fields is a Cloudflare
-- challenge parameter or a click identifier with an empty value.
pub delivery_suffix_issue-none_iff :
    (search_params : String → List (String × String)) (value : String)
    → (delivery_suffix_issue search_params (some value) ≡ none)
      ↔ All IsHarmless (search_params value)
unfolding delivery_suffix_issue
delivery_suffix_issue-none_iff search_params value =
    grind (arith, scan_fields-none (search_params value) none)

scan_fields-challenge :
    (fs : List (String × String)) (seen : Option String)
    → any (λ f. is_challenge_key f.0) fs ≡ true
    → scan_fields fs seen ≡ some challenge_parameters
unfolding scan_fields
scan_fields-challenge [] seen h = ground arith
scan_fields-challenge (f ∷ fs) seen h =
    ground (arith, scan_fields-challenge fs (latest_of (empty_identifier f) seen))
