-- ===== src/Capture/Outcome/Domains.antt =====
-- Which failures are laid to the proxy, and how fast journeys follow each other.
use link_suffix.Base.{ℕ, ◌≡◌, ◌≤◌, refl, ◌+◌, Bool, false, Option, none, some, String, arith}
use link_suffix.Capture.Outcome.{
  TransportCode, connection_refused, connection_reset, network_unreachable, connect_timeout,
  node_unavailable, transport_message, classify_attempt, proxy, continuous_interval_ms,
  remaining_delay_ms,
}

-- An attempt that was not cancelled and failed with the message of a transport error is laid to the proxy,
-- for each of the codes, whatever else is taken for a sign of the proxy.
pub classify_attempt-proxy :
    (names_proxy_error : String → Bool) (c : TransportCode)
    → (classify_attempt names_proxy_error false (transport_message c) false).failure_domain
      ≡ some proxy
unfolding classify_attempt
classify_attempt-proxy names_proxy_error connection_refused = refl
classify_attempt-proxy names_proxy_error connection_reset = refl
classify_attempt-proxy names_proxy_error network_unreachable = refl
classify_attempt-proxy names_proxy_error connect_timeout = refl
classify_attempt-proxy names_proxy_error node_unavailable = refl

-- A wait that begins before the configured interval is over, and lasts as long as it is told, ends at least
-- 58 seconds and at most an hour after the journey's start, whatever number was configured.
pub cadence-bounds :
    (configured : Option ℕ) (started now : ℕ)
    → now ≤ started + continuous_interval_ms configured
    → (started + 58_000 ≤ now + remaining_delay_ms started now (continuous_interval_ms configured))
      × (now + remaining_delay_ms started now (continuous_interval_ms configured)
          ≤ started + 3_600_000)
unfolding continuous_interval_ms remaining_delay_ms
cadence-bounds none started now h = (omega arith, omega arith)
cadence-bounds (some n) started now h = (omega arith, omega arith)
