-- ===== src/Pacing/RedirectCache/Size.antt =====
-- The memory of hosts does not grow past its limit.
use link_suffix.Base.{
  Option, refl, ◌||◌, ltb, any, if◌then◌else◌, length-map, filter, find?, ◌++◌, ℕ, zero, suc, ◌≡◌,
  ◌≤◌, ◌<◌, true, not, List, [], ◌∷◌, none, some, String, leb, arith, length, All, any, head?,
  length-filter, subst, Bool-cases, Option-cases, inl, inr, eq_iff, All-imp,
}
use link_suffix.Base.Sorting.{sort, All-sort, sort-head}
use link_suffix.Pacing.RedirectCache.{
  unclassified, claim_entry, required_entry, is_over, record_browser_required, record_captured,
  claim, Cache, prune_entries, set_entry, Entry, is_host, delete_entry, is_older, oldest, evict,
}

-- The oldest entry is one of the entries.
head-All : {A : Type 0} (P : A → Type 0) (xs : List A) (a : A) → head? xs ≡ some a → All P xs → P a
head-All P [] a h k = ground arith
head-All P (x ∷ xs) a h k = let same : x ≡ a = ground arith in subst P same k.0

any_self : (es : List Entry) → All (λ e. any (is_host e.hostname) es ≡ true) es
any_self [] = tt
any_self (e ∷ es) = (
  ground (arith, eq_iff e.hostname e.hostname),
  All-imp (λ x. any (is_host x.hostname) es ≡ true) (λ x. any (is_host x.hostname) (e ∷ es) ≡ true)
      (λ x h. ground (arith, h)) es (any_self es),
)

oldest-member :
    (es : List Entry) (o : Entry) → oldest es ≡ some o → any (is_host o.hostname) es ≡ true
unfolding oldest
oldest-member es o h =
    head-All (λ x. any (is_host x.hostname) es ≡ true) (sort is_older es) o h
      (All-sort is_older (λ x. any (is_host x.hostname) es ≡ true) es (any_self es))

oldest-none : (es : List Entry) → oldest es ≡ none → es ≡ []
unfolding oldest
oldest-none es h = sort-head is_older es h

-- Deleting a host that is there makes the list shorter.
delete_entry-shorter :
    (host : String) (es : List Entry)
    → any (is_host host) es ≡ true
    → length (delete_entry host es) < length es
delete_entry-shorter host [] h = ground arith
delete_entry-shorter host (e ∷ es) h = elim (Bool-cases (is_host host e)) [
  | inl hit ↦ ground (arith, hit, length-filter (λ x. not (is_host host x)) es)
  | inr miss ↦ ground (arith, miss, delete_entry-shorter host es)
]

-- With a round for each entry, the loop ends below the limit.
evict-small :
    (fuel most : ℕ) (es : List Entry)
    → 0 < most
    → length es ≤ fuel
    → length (evict fuel most es) < most
unfolding evict
evict-small zero most es p h = omega (arith, h, p)
evict-small (suc fuel) most es p h = elim (Option-cases (oldest es)) [
  | inl nothing ↦ let empty = oldest-none es nothing in ground (arith, nothing, empty)
  | inr (o, found) ↦
      let rest =
        evict-small fuel most (delete_entry o.hostname es) p
          (omega (arith, h, delete_entry-shorter o.hostname es (oldest-member es o found))) in
      elim (Bool-cases (leb most (length es))) [
        | inl full ↦ ground (arith, found, full, rest)
        | inr room ↦ ground (arith, found, room)
      ]
]

length-append-one : (e : Entry) (es : List Entry) → length (es ++ (e ∷ [])) ≡ suc (length es)
length-append-one e [] = refl
length-append-one e (x ∷ es) = omega (arith, length-append-one e es)

-- An entry that is set takes at most one more place.
length-set_entry : (e : Entry) (es : List Entry) → length (set_entry e es) ≤ suc (length es)
length-set_entry e es = elim (Bool-cases (any (is_host e.hostname) es)) [
  | inl old ↦ ground (arith, old, length-map (λ x. if is_host e.hostname x then e else x) es)
  | inr new ↦ ground (arith, new, length-append-one e es)
]

prune_entries-small :
    (c : Cache) (now : ℕ) (es : List Entry)
    → 0 < c.max_entries
    → length (prune_entries c now es) < c.max_entries
unfolding prune_entries
prune_entries-small c now es p =
    let live = filter (λ e. not (is_over c now e)) es in
    evict-small (length live) c.max_entries live p (omega arith)

-- A cache that has room for an entry and holds no more than its limit.
pub record IsBounded (c : Cache) : Type 0 where
  pub room : 0 < c.max_entries
  pub size : length c.entries ≤ c.max_entries

keeps-size :
    (e : Entry) (es : List Entry) (most : ℕ)
    → any (is_host e.hostname) es ≡ true
    → length es ≤ most
    → length (set_entry e es) ≤ most
keeps-size e es most old h =
    ground (arith, old, h, length-map (λ x. if is_host e.hostname x then e else x) es)

found-host :
    (host : String) (es : List Entry) (e : Entry)
    → find? (is_host host) es ≡ some e
    → (any (is_host host) es ≡ true) × (e.hostname ≡ host)
found-host host [] e h = ground arith
found-host host (x ∷ es) e h = elim (Bool-cases (is_host host x)) [
  | inl hit ↦
      let same : x ≡ e = ground arith in
      (
        ground (arith, hit),
        subst (λ y. y.hostname ≡ host) same (ground (arith, eq_iff x.hostname host)),
      )
  | inr miss ↦
      let (old, named) = found-host host es e (ground arith) in (ground (arith, old), named)
]

claim_entry-IsBounded :
    (c : Cache) (host : String) (now : ℕ) (o : Option Entry)
    → find? (is_host host) c.entries ≡ o
    → IsBounded c
    → IsBounded (claim_entry c host now o).0
claim_entry-IsBounded c host now none found h = record {
  room = h.room;
  size = omega (
    arith,
    length-set_entry (unclassified host now) (prune_entries c now c.entries),
    prune_entries-small c now c.entries h.room,
  );
}
claim_entry-IsBounded c host now (some e) found h =
    let probing : Entry = record e { probe_in_flight = true; updated_at = now } in
    let (old, named) = found-host host c.entries e found in
    let there : any (is_host e.hostname) c.entries ≡ true = rw named old in
    let next : IsBounded (record c { entries = set_entry probing c.entries }) = record {
      room = h.room;
      size = keeps-size probing c.entries c.max_entries there h.size;
    } in
    elim (Bool-cases (e.probe_in_flight || ltb now e.skip_until)) [
      | inl stop ↦ rw stop h
      | inr go ↦ rw go next
    ]

-- Whatever is asked of the cache and told to it, it does not grow past its limit: a claim, a captured
-- redirect and a fallback keep it bounded.
pub operations-IsBounded :
    (c : Cache) (host reason : String) (now : ℕ)
    → IsBounded c
    → IsBounded (claim c host now).0
      × IsBounded (record_captured c host)
      × IsBounded (record_browser_required c host reason now).0
unfolding claim record_captured record_browser_required
operations-IsBounded c host reason now h = (
  claim_entry-IsBounded c host now (find? (is_host host) c.entries) refl h,
  record {
    room = h.room;
    size = omega (arith, h.size, length-filter (λ e. not (is_host host e)) c.entries);
  },
  record {
    room = h.room;
    size = omega (
      arith,
      prune_entries-small c now (set_entry (required_entry c host reason now) c.entries) h.room,
    );
  },
)
