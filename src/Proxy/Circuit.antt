-- ===== src/Proxy/Circuit.antt =====
-- web/server/proxy-runtime-service.mjs: the circuit of an endpoint, which rests after failures, and the report
-- that moves it. An instant that does not parse is none.
use link_suffix.Base.{
  ℕ, ◌+◌, ◌≡◌, Bool, true, false, ◌||◌, Option, none, some, leb, ltb, if◌then◌else◌, arith,
}

pub data CircuitState : Type 0 where
  closed open_circuit half_open : CircuitState

pub record Circuit : Type 0 where
  pub state : CircuitState
  pub consecutive_failures : ℕ
  pub consecutive_successes : ℕ
  pub opened_at : Option ℕ
  pub retry_at : Option ℕ

-- FAILURE_THRESHOLD, RECOVERY_SUCCESSES and OPEN_DURATION_MS
abbrev pub failure_threshold : ℕ
failure_threshold = 5

abbrev pub recovery_successes : ℕ
recovery_successes = 2

abbrev pub open_duration_ms : ℕ
open_duration_ms = 60_000

abbrev is_closed : CircuitState → Bool
is_closed closed = true
is_closed _ = false

-- The circuit of an endpoint without one.
abbrev pub new_circuit : Circuit
new_circuit = record {
  state = closed;
  consecutive_failures = 0;
  consecutive_successes = 0;
  opened_at = none;
  retry_at = none;
}

abbrev waits_until : ℕ → Option ℕ → Bool
waits_until now none = true
waits_until now (some at) = ltb now at

abbrev blocks_in : CircuitState → ℕ → Option ℕ → Bool
blocks_in open_circuit now retry_at = waits_until now retry_at
blocks_in _ now retry_at = false

-- `circuitBlocks`
unfoldable pub circuit_blocks : ℕ → Circuit → Bool
circuit_blocks now c = blocks_in c.state now c.retry_at

abbrev succeeded : Circuit → Circuit
succeeded c =
    let successes = c.consecutive_successes + 1 in
    let recovered = is_closed c.state || leb recovery_successes successes in
    record {
      state = if recovered then closed else half_open;
      consecutive_failures = 0;
      consecutive_successes = if recovered then 0 else successes;
      opened_at = none;
      retry_at = none;
    }

abbrev struck : ℕ → Circuit → Circuit
struck now c =
    let failures = c.consecutive_failures + 1 in
    let opens = leb failure_threshold failures in
    record {
      state = if opens then open_circuit else closed;
      consecutive_failures = failures;
      consecutive_successes = 0;
      opened_at = if opens then some now else c.opened_at;
      retry_at = if opens then some (now + open_duration_ms) else none;
    }

-- What `report` makes of a circuit.
unfoldable pub next_circuit : ℕ → Bool → Circuit → Circuit
next_circuit now healthy c = if healthy then succeeded c else struck now c

-- The fifth failure in a row closes the endpoint to callers for a minute.
pub struck-blocks :
    (now : ℕ) (c : Circuit)
    → leb 4 c.consecutive_failures ≡ true
    → circuit_blocks (now + 59_999) (next_circuit now false c) ≡ true
unfolding circuit_blocks next_circuit
struck-blocks now c h = ground (arith, h)

-- A success lets callers in again.
pub succeeded-opens :
    (now later : ℕ) (c : Circuit) → circuit_blocks later (next_circuit now true c) ≡ false
unfolding circuit_blocks next_circuit
succeeded-opens now later c = ground arith

-- A failure of a half-open circuit closes the circuit, since its count begins anew.
pub struck-half_open :
    (now : ℕ) (c : Circuit) → c.consecutive_failures ≡ 0 → (next_circuit now false c).state ≡ closed
unfolding next_circuit
struck-half_open now c h = ground (arith, h)
