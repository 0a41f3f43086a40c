-- ===== src/Pacing/Backoff.antt =====
-- packages/orchestrator/src/captureBackoff.ts: how long a campaign waits after captures that were blocked.
pub mod Bounds
use link_suffix.Base.{
  ℕ, ◌+◌, ◌-◌, ◌*◌, ◌^◌, Bool, true, false, not, ◌&&◌, ◌||◌, List, [], ◌∷◌, Option, none, some,
  String, min, max, leb, ◌==◌, str_eq, any, if◌then◌else◌,
}

-- What the backoff reads of a CaptureRejection.
pub record Rejection : Type 0 where
  pub code : String
  pub http_status : Option ℕ
  pub retry_after_ms : Option ℕ

-- CaptureDecision
pub data Decision : Type 0 where
  accepted : Decision
  rejected : Rejection → Decision

abbrev pub base_delay_ms : ℕ
base_delay_ms = 60_000

abbrev pub max_delay_ms : ℕ
max_delay_ms = 300_000

abbrev is_refusal : Option ℕ → Bool
is_refusal none = false
is_refusal (some status) = status == 403 || status == 429

-- `isBlockedCapture`
abbrev pub is_blocked_capture : Rejection → Bool
is_blocked_capture r =
    any (str_eq r.code)
      ("cloudflare_challenge" ∷ "unresolved_challenge" ∷ "blocked_response" ∷ "rate_limited" ∷ [])
    || is_refusal r.http_status

-- The rejections that are followed by a pause.
abbrev pub is_transient : Rejection → Bool
is_transient r =
    is_blocked_capture r
    || any (str_eq r.code) ("browser_closed" ∷ "capture_error" ∷ "empty_tracking_identifier" ∷ [])

-- CaptureBackoff
pub record Backoff : Type 0 where
  pub consecutive_blocks : ℕ
  pub not_before : ℕ

abbrev pub fresh : Backoff
fresh = record { consecutive_blocks = 0; not_before = 0 }

-- `remainingMs`
unfoldable pub remaining_ms : Backoff → ℕ → ℕ
remaining_ms b now = min max_delay_ms (b.not_before - now)

-- The retry of a rejection.
pub record Retry : Type 0 where
  pub not_before : ℕ
  pub delay_ms : ℕ
  pub consecutive_blocks : ℕ

abbrev pub ordinary_delay : ℕ → ℕ
ordinary_delay blocks = min max_delay_ms (base_delay_ms * 2 ^ min 3 (blocks - 1))

-- A Retry-After that is a safe integer and leads to a date that the platform has.
abbrev pub asked_delay : Option ℕ → ℕ → ℕ
asked_delay none now = 0
asked_delay (some r) now =
    if leb r 9_007_199_254_740_991 && leb (now + r) 8_640_000_000_000_000 then r else 0

-- The pause after a rejection that is transient.
abbrev pub blocked : Backoff → Rejection → ℕ → Backoff × Option Retry
blocked b r now =
    let blocks = min 32 (b.consecutive_blocks + 1) in
    let delay = max (ordinary_delay blocks) (asked_delay r.retry_after_ms now) in
    (
      record { consecutive_blocks = blocks; not_before = now + delay },
      some (record { not_before = now + delay; delay_ms = delay; consecutive_blocks = blocks }),
    )

-- `observe`
unfoldable pub observe : Backoff → Decision → ℕ → Backoff × Option Retry
observe b accepted now = (fresh, none)
observe b (rejected r) now = if is_transient r then blocked b r now else (fresh, none)

-- A run of rejections, each at its instant.
pub observe_all : Backoff → List (Rejection × ℕ) → Backoff
observe_all b [] = b
observe_all b ((r, now) ∷ rs) = observe_all (observe b (rejected r) now).0 rs
