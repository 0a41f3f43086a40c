-- ===== src/Capture/Outcome.antt =====
-- Why a journey failed: packages/proxy/src/transportFailure.ts and packages/orchestrator/src/attemptOutcome.ts, and
-- the pace of continuous journeys, packages/orchestrator/src/continuousCadence.ts.
pub mod Domains
use Prim.Native.String.{◌++◌ as append}
use link_suffix.Base.{
  ℕ, ◌+◌, ◌-◌, Bool, true, false, not, ◌&&◌, ◌||◌, List, [], ◌∷◌, map, Option, none, some, String,
  min, max, any, str_eq, if◌then◌else◌,
}
use link_suffix.Base.Text.{codes, starts_with, is_empty, or_else}

-- ProxyTransportCode
pub data TransportCode : Type 0 where
  connection_refused connection_reset network_unreachable connect_timeout node_unavailable :
      TransportCode

abbrev pub code_name : TransportCode → String
code_name connection_refused = "connection_refused"
code_name connection_reset = "connection_reset"
code_name network_unreachable = "network_unreachable"
code_name connect_timeout = "connect_timeout"
code_name node_unavailable = "node_unavailable"

-- The message of a ProxyTransportError.
abbrev pub transport_message : TransportCode → String
transport_message c = append "Proxy transport failure: " (code_name c)

abbrev all_transport_codes : List TransportCode
all_transport_codes =
    connection_refused ∷ connection_reset ∷ network_unreachable ∷ connect_timeout ∷ node_unavailable
    ∷ []

-- `isProxyTransportFailure`, on the message: one of the five texts and no other.
unfoldable pub is_transport_failure : String → Bool
is_transport_failure message = any (str_eq message) (map transport_message all_transport_codes)

-- What is thrown while a connection is made.
pub data ConnectError : Type 0 where
  transport : TransportCode → ConnectError
  -- A ProxyResponseError, and what is no Error at all.
  response other : ConnectError
  -- Any other Error: its code, or "", and its message.
  failure : String → String → ConnectError

abbrev classify_failure : String → String → Option TransportCode
classify_failure code message =
    if str_eq code "ECONNREFUSED"
    then some connection_refused
    else if str_eq code "ECONNRESET" || str_eq code "EPIPE"
    then some connection_reset
    else if any (str_eq code) ("ENETUNREACH" ∷ "EHOSTUNREACH" ∷ "EAI_AGAIN" ∷ "ENOTFOUND" ∷ [])
    then some network_unreachable
    else if str_eq code "ETIMEDOUT" || str_eq message "Operation deadline exceeded"
    then some connect_timeout
    else if str_eq message "Proxy closed during handshake"
    then some node_unavailable
    else none

-- `classifyProxyConnectError`
unfoldable pub classify_connect_error : ConnectError → Option TransportCode
classify_connect_error (transport c) = some c
classify_connect_error response = none
classify_connect_error other = none
classify_connect_error (failure code message) = classify_failure code message

pub data FailureDomain : Type 0 where
  cancelled target proxy unknown : FailureDomain

pub record AttemptOutcome : Type 0 where
  pub healthy : Bool
  pub reason : Option String
  pub failure_domain : Option FailureDomain

-- `classifyAttemptOutcome`; `names_proxy_error` is the search for the word ERR_PROXY_CONNECTION_FAILED.
unfoldable pub classify_attempt : (String → Bool) → Bool → String → Bool → AttemptOutcome
unfolding is_transport_failure
classify_attempt names_proxy_error succeeded reason was_cancelled =
    if was_cancelled
    then record { healthy = false; reason = some "cancelled"; failure_domain = some cancelled }
    else if succeeded
    then record { healthy = true; reason = none; failure_domain = none }
    else if starts_with (codes "Target rejected capture:") (codes reason)
    then record { healthy = false; reason = some reason; failure_domain = some target }
    else record {
      healthy = false;
      reason = some (or_else reason "Journey failed without a transport diagnosis");
      failure_domain =
          some (if is_transport_failure reason || names_proxy_error reason then proxy else unknown);
    }

-- `continuousIntervalMs`, of a number that is finite; none stands for one that is not.
unfoldable pub continuous_interval_ms : Option ℕ → ℕ
continuous_interval_ms none = 58_000
continuous_interval_ms (some n) = min 3_600_000 (max 58_000 n)

-- `remainingContinuousDelayMs`
unfoldable pub remaining_delay_ms : ℕ → ℕ → ℕ → ℕ
remaining_delay_ms started now interval = (started + interval) - now
