-- ===== src/Pacing/Backoff/Bounds.antt =====
-- How long the pauses are.
use link_suffix.Base.{
  zero, suc, ℕ, ◌≡◌, ◌≤◌, refl, ◌+◌, ◌-◌, ◌^◌, true, List, [], ◌∷◌, some, min, max, arith, length,
  All,
}
use link_suffix.Pacing.Backoff.{
  Rejection, rejected, Backoff, Retry, is_transient, remaining_ms, ordinary_delay, asked_delay,
  observe, observe_all,
}

one-le-pow : (k : ℕ) → 1 ≤ 2 ^ k
one-le-pow zero = omega arith
one-le-pow (suc k) = omega (arith, one-le-pow k)

ordinary_delay-bounds : (n : ℕ) → (60_000 ≤ ordinary_delay n) × (ordinary_delay n ≤ 300_000)
ordinary_delay-bounds n = (omega (arith, one-le-pow (min 3 (n - 1))), omega arith)

-- A transient rejection is followed by a pause that starts now, of at least a minute and at least the
-- Retry-After that is heeded; whoever asks at any time is told to wait five minutes at most.
pub observe-pause :
    (b : Backoff) (r : Rejection) (now later : ℕ)
    → is_transient r ≡ true
    → (retry : Retry) × ((observe b (rejected r) now).1 ≡ some retry)
      × (retry.not_before ≡ now + retry.delay_ms)
      × ((observe b (rejected r) now).0.not_before ≡ retry.not_before)
      × (60_000 ≤ retry.delay_ms)
      × (asked_delay r.retry_after_ms now ≤ retry.delay_ms)
      × (remaining_ms (observe b (rejected r) now).0 later ≤ 300_000)
unfolding observe remaining_ms
observe-pause b r now later h =
    let retry : Retry = record {
      not_before =
          now
          + max (ordinary_delay (min 32 (b.consecutive_blocks + 1)))
              (asked_delay r.retry_after_ms now);
      delay_ms =
          max (ordinary_delay (min 32 (b.consecutive_blocks + 1)))
            (asked_delay r.retry_after_ms now);
      consecutive_blocks = min 32 (b.consecutive_blocks + 1);
    } in
    (
      retry,
      ground (arith, h),
      refl,
      ground (arith, h),
      omega (arith, (ordinary_delay-bounds (min 32 (b.consecutive_blocks + 1))).0),
      omega arith,
      omega arith,
    )

observe-count :
    (b : Backoff) (r : Rejection) (now : ℕ)
    → is_transient r ≡ true
    → (observe b (rejected r) now).0.consecutive_blocks ≡ min 32 (b.consecutive_blocks + 1)
unfolding observe
observe-count b r now h = ground (arith, h)

-- A run of transient rejections counts each of them, up to 32.
pub observe_all-count :
    (b : Backoff) (rs : List (Rejection × ℕ))
    → All (λ x. is_transient x.0 ≡ true) rs
    → b.consecutive_blocks ≤ 32
    → (observe_all b rs).consecutive_blocks ≡ min 32 (b.consecutive_blocks + length rs)
unfolding observe_all
observe_all-count b [] h k = omega (arith, k)
observe_all-count b ((r, now) ∷ rs) h k =
    let next = (observe b (rejected r) now).0 in
    let counted = observe-count b r now h.0 in
    omega (arith, counted, observe_all-count next rs h.1 (omega (arith, counted)))
