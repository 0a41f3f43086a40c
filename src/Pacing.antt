-- ===== src/Pacing.antt =====
-- What slows the program down: the pauses between captures, the limits on requests, and the memory of which
-- hosts need a browser.
pub mod Backoff
pub mod RateLimit
pub mod RedirectCache
