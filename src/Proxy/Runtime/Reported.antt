-- ===== src/Proxy/Runtime/Reported.antt =====
-- `renew`, `release` and `report` of web/server/proxy-runtime-service.mjs, which find the lease by its name, and the
-- table of circuits that a report changes, a row of which keeps its place.
use link_suffix.Base.{
  ℕ, ◌+◌, ◌≡◌, refl, sym, ap, subst, ◌∙◌, Bool, true, false, ◌&&◌, List, [], ◌∷◌, Option, none,
  some, String, leb, ltb, ◌==◌, length, str_eq, eq_iff, if◌then◌else◌, find?, inl, inr, Bool-cases,
  arith,
}
use link_suffix.Base.Text.{codes, same_codes, same_codes→eq}
use link_suffix.Base.Maps.{get}
use link_suffix.Proxy.Circuit.{Circuit, new_circuit, circuit_blocks, next_circuit}
use link_suffix.Proxy.Leases.{Lease, LeaseState}
use link_suffix.Proxy.Coordinator.{Desk, renew_desk, release_desk}
use link_suffix.Proxy.Runtime.Keys.{physical_endpoint_key}
use link_suffix.Proxy.Runtime.{
  CircuitRow, Tables, Input, Route, routed, is_row_of, blocks_row, endpoint_blocked, resolve,
}
use link_suffix.Proxy.Runtime.Routed.{resolve-IsHealthy}

module _ (owner : String) (name_of : ℕ → String) where
  abbrev renew_found : ℕ → Option ℕ → Desk → Option Lease → Desk × Option Lease
  renew_found now ttl s none = (s, none)
  renew_found now ttl s (some l) = renew_desk owner name_of now l ttl s

  -- `renew`
  abbrev pub renew_route : ℕ → String → Option ℕ → Desk → Desk × Option Lease
  renew_route now id ttl s = renew_found now ttl s (get s.repository.leases id)

  abbrev release_found : ℕ → LeaseState → Desk → Option Lease → Desk × Bool
  release_found now st s none = (s, false)
  release_found now st s (some l) = release_desk owner name_of now l st s

  -- `release`
  abbrev pub release_route : ℕ → String → LeaseState → Desk → Desk × Bool
  release_route now id st s = release_found now st s (get s.repository.leases id)

-- The row of a lease's provider and pool, and of the endpoint `key`.
abbrev is_circuit_of : Lease → List ℕ → CircuitRow → Bool
is_circuit_of l key row = is_row_of l.provider_id l.pool_id row && same_codes row.endpoint_key key

abbrev circuit_or_new : Option CircuitRow → Circuit
circuit_or_new none = new_circuit
circuit_or_new (some row) = row.circuit

-- `current`
abbrev current_circuit : Lease → List CircuitRow → Circuit
current_circuit l rows =
    circuit_or_new (find? (is_circuit_of l (physical_endpoint_key l.endpoint_key)) rows)

-- `item.endpointKey || "*"`
abbrev stored_key : List ℕ → List ℕ
stored_key key = if length key == 0 then codes "*" else key

-- `upsertCircuit`
unfoldable upsert_circuit : Lease → List ℕ → Circuit → List CircuitRow → List CircuitRow
upsert_circuit l key c [] =
    record { provider_id = l.provider_id; pool_id = l.pool_id; endpoint_key = key; circuit = c }
    ∷ []
upsert_circuit l key c (row ∷ rows) =
    let rest = upsert_circuit l key c rows in
    if is_circuit_of l key row then record row { circuit = c } ∷ rows else row ∷ rest

abbrev report_found : ℕ → Bool → List CircuitRow → Option Lease → Option (List CircuitRow)
report_found now healthy rows none = none
report_found now healthy rows (some l) = some (
    upsert_circuit l (stored_key (physical_endpoint_key l.endpoint_key))
      (next_circuit now healthy (current_circuit l rows)) rows)

-- `report`, as far as it changes the circuits; none is its error.
unfoldable pub report : ℕ → Bool → String → Desk → List CircuitRow → Option (List CircuitRow)
unfolding upsert_circuit
report now healthy id s rows = report_found now healthy rows (get s.repository.leases id)

same_codes_self : (as' : List ℕ) → same_codes as' as' ≡ true
same_codes_self [] = refl
same_codes_self (a ∷ as') = ground (arith, same_codes_self as')

-- The circuit that is stored is the one that is found.
upsert-found :
    (later : ℕ) (l : Lease) (key : List ℕ) (c : Circuit) (rows : List CircuitRow)
    → blocks_row later (find? (is_circuit_of l key) (upsert_circuit l key c rows))
      ≡ circuit_blocks later c
unfolding upsert_circuit
upsert-found later l key c [] =
    ground
      (arith, eq_iff l.provider_id l.provider_id, eq_iff l.pool_id l.pool_id, same_codes_self key)
upsert-found later l key c (row ∷ rows) = elim (Bool-cases (is_circuit_of l key row)) [
  | inl mine ↦ ground (arith, mine)
  | inr other ↦ ground (arith, other, upsert-found later l key c rows)
]

struck-rests :
    (now later : ℕ) (c : Circuit)
    → leb 4 c.consecutive_failures ≡ true
    → ltb later (now + 60_000) ≡ true
    → circuit_blocks later (next_circuit now false c) ≡ true
unfolding circuit_blocks next_circuit
struck-rests now later c often soon = ground (arith, often, soon)

stored_key-same : (key : List ℕ) → (length key == 0) ≡ false → stored_key key ≡ key
stored_key-same key h = rw h refl

-- What a report of a failure stores for the endpoint of its lease.
reported-blocks :
    (now later : ℕ) (l : Lease) (rows after : List CircuitRow)
    → leb 4 (current_circuit l rows).consecutive_failures ≡ true
    → (length (physical_endpoint_key l.endpoint_key) == 0) ≡ false
    → ltb later (now + 60_000) ≡ true
    → report_found now false rows (some l) ≡ some after
    → endpoint_blocked later after l.provider_id l.pool_id l.endpoint_key ≡ true
reported-blocks now later l rows after often named soon e =
    let key = physical_endpoint_key l.endpoint_key in
    let c = next_circuit now false (current_circuit l rows) in
    let stored : upsert_circuit l (stored_key key) c rows ≡ after = cc e in
    let same = ap (λ k. upsert_circuit l k c rows) (sym (stored_key-same key named)) ∙ stored in
    subst (λ rs. endpoint_blocked later rs l.provider_id l.pool_id l.endpoint_key ≡ true) same
      (upsert-found later l key c rows ∙ struck-rests now later (current_circuit l rows) often soon)

both : (a b c : Bool) → (a && b && c) ≡ true → (a ≡ true) × (b ≡ true) × (c ≡ true)
both a b c h = (ground (arith, h), ground (arith, h), ground (arith, h))

-- Two keys of one endpoint.
blocked-same :
    (later : ℕ) (rows : List CircuitRow) (p p' q q' e e' : String)
    → (str_eq p p'
        && str_eq q q'
        && same_codes (physical_endpoint_key e) (physical_endpoint_key e'))
      ≡ true
    → endpoint_blocked later rows p q e ≡ endpoint_blocked later rows p' q' e'
blocked-same later rows p p' q q' e e' h =
    let (ps, qs, es) =
      both (str_eq p p') (str_eq q q')
        (same_codes (physical_endpoint_key e) (physical_endpoint_key e')) h in
    let pp : p ≡ p' = (eq_iff p p').0 ps in
    let qq : q ≡ q' = (eq_iff q q').0 qs in
    let ee = same_codes→eq (physical_endpoint_key e) (physical_endpoint_key e') es in
    ap (λ a. endpoint_blocked later rows a q e) pp
    ∙ ap (λ b. endpoint_blocked later rows p' b e) qq
    ∙ ap
        (λ (k : List ℕ).
          blocks_row later
            (find? (λ row. is_row_of p' q' row && same_codes row.endpoint_key k) rows))
        ee

module _ (owner : String) (name_of : ℕ → String) (now later : ℕ) (built : Lease → Bool) (x : Tables)
    (id : String) (l : Lease) (s t : Desk) (rows after : List CircuitRow) (i : Input)
    (r : Route) where
  -- Once a failure is reported for a lease whose endpoint had failed at least four times in a row before, no call
  -- within the next minute that reads these circuits is routed to the endpoint behind it in that provider's pool.
  pub report-shuns :
      get s.repository.leases id ≡ some l
      → leb 4 (current_circuit l rows).consecutive_failures ≡ true
      → (length (physical_endpoint_key l.endpoint_key) == 0) ≡ false
      → ltb later (now + 60_000) ≡ true
      → report now false id s rows ≡ some after
      → (resolve owner name_of later built (record x { circuits = after }) i t).1 ≡ routed r
      → (str_eq r.provider_id l.provider_id
          && str_eq r.pool_id l.pool_id
          && same_codes
              (physical_endpoint_key r.lease.endpoint_key)
              (physical_endpoint_key l.endpoint_key))
        ≡ false
  unfolding report
  report-shuns there often named soon e took =
      elim (Bool-cases (
        str_eq r.provider_id l.provider_id
        && str_eq r.pool_id l.pool_id
        && same_codes (physical_endpoint_key r.lease.endpoint_key)
            (physical_endpoint_key l.endpoint_key))) [
              | inr other ↦ other
              | inl same ↦
                  let found : report_found now false rows (some l) ≡ some after =
                    subst (λ o. report_found now false rows o ≡ some after) there e in
                  let blocked = reported-blocks now later l rows after often named soon found in
                  let (policy, known, on, h) =
                    resolve-IsHealthy owner name_of later built (record x { circuits = after }) i t
                      r took in
                  let is_open =
                    blocked-same later after r.provider_id l.provider_id r.pool_id l.pool_id
                      r.lease.endpoint_key l.endpoint_key same in
                  absurd (ground (arith, sym is_open ∙ h.endpoint_open, blocked))
            ]
