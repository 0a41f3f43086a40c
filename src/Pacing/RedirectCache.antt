-- ===== src/Pacing/RedirectCache.antt =====
-- packages/orchestrator/src/redirectFallbackCache.ts: which hosts are known to need a browser, so that no
-- direct request is tried there for a while. A host name comes from the platform's URL parser: it is given.
pub mod Size
pub mod Probes
use link_suffix.Base.{
  ℕ, zero, suc, ◌+◌, Bool, true, false, not, ◌&&◌, ◌||◌, List, [], ◌∷◌, ◌++◌, map, Option, none,
  some, String, min, max, ltb, leb, length, filter, find?, any, head?, str_eq, if◌then◌else◌,
  get_or,
}
use link_suffix.Base.Sorting.{sort}
use link_suffix.Base.Text.{or_else}

-- RedirectFallbackEntry, under its host name.
pub record Entry : Type 0 where
  pub hostname : String
  pub reason : String
  pub fallback_count : ℕ
  pub skip_until : ℕ
  pub probe_in_flight : Bool
  pub updated_at : ℕ

-- The entries in the order of the map.
pub record Cache : Type 0 where
  pub entries : List Entry
  pub ttl_ms : ℕ
  pub max_entries : ℕ

-- The constructor.
abbrev pub new_cache : Option ℕ → Option ℕ → Cache
new_cache ttl most = record {
  entries = [];
  ttl_ms = min 3_600_000 (max 900_000 (get_or ttl 1_800_000));
  max_entries = min 50_000 (max 100 (get_or most 10_000));
}

-- RedirectFallbackClaim
pub record Claim : Type 0 where
  pub attempt_preflight : Bool
  pub reason : Option String
  pub cache_until : Option ℕ
  pub periodic_probe : Bool

abbrev pub is_host : String → Entry → Bool
is_host host e = str_eq e.hostname host

-- `Map.set`
abbrev pub set_entry : Entry → List Entry → List Entry
set_entry e es =
    if any (is_host e.hostname) es
    then map (λ x. if is_host e.hostname x then e else x) es
    else (es ++ (e ∷ []))

-- `Map.delete`
abbrev pub delete_entry : String → List Entry → List Entry
delete_entry host = filter (λ e. not (is_host host e))

abbrev pub is_older : Entry → Entry → Bool
is_older a b = ltb a.updated_at b.updated_at

-- The entry that was updated first.
pub oldest : List Entry → Option Entry
unfolding sort
oldest es = head? (sort is_older es)

-- The loop that makes room; each round deletes an entry, so that the number of entries is fuel enough.
pub evict : ℕ → ℕ → List Entry → List Entry
unfolding oldest
evict zero most es = es
evict (suc fuel) most es = elim (oldest es) [
  | none ↦ es
  | some o ↦
      let rest = evict fuel most (delete_entry o.hostname es) in
      if leb most (length es) then rest else es
]

-- An entry whose time is long over.
abbrev pub is_over : Cache → ℕ → Entry → Bool
is_over c now e = not e.probe_in_flight && ltb (e.skip_until + c.ttl_ms) now

-- `prune`
pub prune_entries : Cache → ℕ → List Entry → List Entry
unfolding evict
prune_entries c now es =
    let live = filter (λ e. not (is_over c now e)) es in evict (length live) c.max_entries live

abbrev pub unclassified : String → ℕ → Entry
unclassified host now = record {
  hostname = host;
  reason = "unclassified";
  fallback_count = 0;
  skip_until = 0;
  probe_in_flight = true;
  updated_at = now;
}

abbrev pub refused : Entry → Claim
refused e = record {
  attempt_preflight = false;
  reason = some e.reason;
  cache_until = some e.skip_until;
  periodic_probe = false;
}

-- The answer to a claim, by the host's entry.
abbrev pub claim_entry : Cache → String → ℕ → Option Entry → Cache × Claim
claim_entry c host now none = (
  record c { entries = set_entry (unclassified host now) (prune_entries c now c.entries) },
  record { attempt_preflight = true; reason = none; cache_until = none; periodic_probe = false },
)
claim_entry c host now (some e) =
    if e.probe_in_flight || ltb now e.skip_until then (c, refused e) else (
      record c {
        entries = set_entry (record e { probe_in_flight = true; updated_at = now }) c.entries;
      },
      record {
        attempt_preflight = true;
        reason = some e.reason;
        cache_until = none;
        periodic_probe = ltb 0 e.fallback_count;
      },
    )

-- `claim`
unfoldable pub claim : Cache → String → ℕ → Cache × Claim
unfolding prune_entries
claim c host now = claim_entry c host now (find? (is_host host) c.entries)

-- `recordCaptured`
unfoldable pub record_captured : Cache → String → Cache
record_captured c host = record c { entries = delete_entry host c.entries }

abbrev fallbacks : Option Entry → ℕ
fallbacks none = 0
fallbacks (some e) = e.fallback_count

abbrev pub required_entry : Cache → String → String → ℕ → Entry
required_entry c host reason now = record {
  hostname = host;
  reason = or_else reason "browser_required";
  fallback_count = fallbacks (find? (is_host host) c.entries) + 1;
  skip_until = now + c.ttl_ms;
  probe_in_flight = false;
  updated_at = now;
}

-- `recordBrowserRequired`
unfoldable pub record_browser_required : Cache → String → String → ℕ → Cache × ℕ
unfolding prune_entries
record_browser_required c host reason now =
    let entries = set_entry (required_entry c host reason now) c.entries in
    (record c { entries = prune_entries c now entries }, now + c.ttl_ms)
