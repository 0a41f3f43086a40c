-- ===== src/Pacing/RedirectCache/Probes.antt =====
-- At most one direct request at a time probes a host.
use link_suffix.Base.{
  ℕ, ◌≡◌, refl, true, false, List, [], ◌∷◌, ◌++◌, map, Option, none, some, String, arith, find?,
  find?-passes, ltb, ◌||◌, any, if◌then◌else◌, subst, Bool-cases, inl, inr, eq_iff,
}
use link_suffix.Pacing.RedirectCache.{
  Entry, Cache, is_host, set_entry, prune_entries, unclassified, claim_entry, claim,
}

find?-append :
    (e : Entry) (es : List Entry)
    → any (is_host e.hostname) es ≡ false
    → find? (is_host e.hostname) (es ++ (e ∷ [])) ≡ some e
find?-append e [] h = ground (arith, eq_iff e.hostname e.hostname)
find?-append e (x ∷ es) h = ground (arith, find?-append e es)

find?-replace :
    (e : Entry) (es : List Entry)
    → any (is_host e.hostname) es ≡ true
    → find? (is_host e.hostname) (map (λ x. if is_host e.hostname x then e else x) es) ≡ some e
find?-replace e [] h = ground arith
find?-replace e (x ∷ es) h = ground (arith, find?-replace e es, eq_iff e.hostname e.hostname)

-- An entry that is set is found.
pub find?-set_entry :
    (e : Entry) (es : List Entry) → find? (is_host e.hostname) (set_entry e es) ≡ some e
find?-set_entry e es = elim (Bool-cases (any (is_host e.hostname) es)) [
  | inl old ↦ ground (arith, old, find?-replace e es)
  | inr new ↦ ground (arith, new, find?-append e es)
]

find?-passes_host :
    (host : String) (es : List Entry) (e : Entry)
    → find? (is_host host) es ≡ some e
    → e.hostname ≡ host
find?-passes_host host es e h =
    let passes = find?-passes (is_host host) es e h in
    ground (arith, passes, eq_iff e.hostname host)

-- The host has an entry whose probe is under way.
IsProbed : String → Cache → Type 0
IsProbed host c =
    (e : Entry) × (find? (is_host host) c.entries ≡ some e) × (e.probe_in_flight ≡ true)

claim_entry-IsProbed :
    (c : Cache) (host : String) (now : ℕ) (o : Option Entry)
    → find? (is_host host) c.entries ≡ o
    → (claim_entry c host now o).1.attempt_preflight ≡ true
    → IsProbed host (claim_entry c host now o).0
unfolding IsProbed
claim_entry-IsProbed c host now none found h =
    let e = unclassified host now in (e, find?-set_entry e (prune_entries c now c.entries), refl)
claim_entry-IsProbed c host now (some e) found h =
    elim (Bool-cases (e.probe_in_flight || ltb now e.skip_until)) [
      | inl stop ↦ ground (arith, stop)
      | inr go ↦
          let probing : Entry = record e { probe_in_flight = true; updated_at = now } in
          let named = find?-passes_host host c.entries e found in
          let set : find? (is_host host) (set_entry probing c.entries) ≡ some probing =
            subst (λ x. find? (is_host x) (set_entry probing c.entries) ≡ some probing) named
              (find?-set_entry probing c.entries) in
          rw go (probing, set, refl)
    ]

-- After a claim that allows a direct request, a second claim of the same host is refused at any time, as
-- long as nothing happens to the cache in between: two requests do not probe one host at once.
pub claim_twice :
    (c : Cache) (host : String) (now later : ℕ)
    → (claim c host now).1.attempt_preflight ≡ true
    → (claim (claim c host now).0 host later).1.attempt_preflight ≡ false
unfolding claim IsProbed
claim_twice c host now later h =
    let (e, found, flying) =
      claim_entry-IsProbed c host now (find? (is_host host) c.entries) refl h in
    rw found (ground (arith, flying))
