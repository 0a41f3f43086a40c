-- ===== src/Bridge/Window/Plan.antt =====
-- The order of the instants in a plan.
use native.Mathlib.Nat.{div-add-mod', mod-lt, add-mul, one-mul}
use link_suffix.Base.{
  ℕ, ◌≡◌, ◌≤◌, ◌<◌, ◌⊎◌, refl, ap, ◌∙◌, ◌+◌, ◌-◌, ◌*◌, ◌/◌, ◌%◌, String, max, ltb, ◌==◌, arith, inl,
  inr, Bool-cases,
}
use link_suffix.Bridge.{Shard}
use link_suffix.Bridge.Window.{
  Schedule, next_slot, Mode, learning, scheduled, schedule_shift, off_cycle, Learned, Window,
  next_expected, plan, adaptive_execution_window,
}

-- The next slot lies in the future.
next_slot-later :
    (cfg : Schedule) (anchor now : ℕ) → 0 < cfg.interval_ms → now < next_slot cfg anchor now
unfolding next_slot
next_slot-later cfg anchor now p =
    let i = cfg.interval_ms in
    let q = (now - anchor) / i in
    let whole : q * i + (now - anchor) % i ≡ now - anchor = div-add-mod' (now - anchor) i in
    let part : (now - anchor) % i < i = mod-lt (now - anchor) p in
    let periods : max 1 (q + 1) ≡ q + 1 = omega arith in
    let product : (q + 1) * i ≡ q * i + i = add-mul q 1 i ∙ ap (λ x. q * i + x) (one-mul i) in
    let slot : now < anchor + max 1 (q + 1) * i =
      rw (periods, product) (omega (arith, whole, part)) in
    elim (Bool-cases (anchor == 0)) [
      | inl zero_anchor ↦ rw zero_anchor (omega (arith, p))
      | inr set ↦ rw set slot
    ]

next_expected-later :
    (cfg : Schedule) (l : Learned) (started : ℕ) (m : Mode)
    → l.mode ≡ m
    → 0 < cfg.interval_ms
    → started < next_expected cfg l started
next_expected-later cfg l started off_cycle e p = rw e (next_slot-later cfg l.anchor started p)
next_expected-later cfg l started learning e p = rw e (omega (arith, p))
next_expected-later cfg l started scheduled e p = rw e (omega (arith, p))
next_expected-later cfg l started schedule_shift e p = rw e (omega (arith, p))

-- The first phase ends within the run and its maximum, and before the reserve unless there is none; the run
-- ends the margin before the next is expected, unless it ends at once; the next is expected later.
pub record IsOrdered (cfg : Schedule) (w : Window) : Type 0 where
  pub starts : w.started_at ≤ w.phase_one_stop_at
  pub fits : w.phase_one_stop_at ≤ w.hard_stop_at
  pub reserves :
      (w.phase_one_stop_at ≡ w.started_at)
      ⊎ (w.phase_one_stop_at + w.phase_two_reserve_ms ≤ w.hard_stop_at)
  pub hands_off :
      (w.hard_stop_at ≡ w.started_at) ⊎ (w.hard_stop_at + w.handoff_margin_ms ≤ w.next_expected_at)
  pub later : w.started_at < w.next_expected_at
  pub capped : w.phase_one_stop_at ≤ w.started_at + cfg.phase_one_max_ms
  pub yields : w.should_yield ≡ ltb (w.hard_stop_at - w.started_at) cfg.min_useful_ms

plan-IsOrdered :
    (cfg : Schedule) (l : Learned) (started : ℕ) (invocation : String)
    → 0 < cfg.interval_ms
    → IsOrdered cfg (plan cfg l started invocation)
unfolding plan
plan-IsOrdered cfg l started invocation p =
    let later = next_expected-later cfg l started l.mode refl p in
    record {
      starts = omega arith;
      fits = ground arith;
      reserves = ground arith;
      hands_off = ground (arith, later);
      later = later;
      capped = ground arith;
      yields = refl;
    }

-- Whatever the shard's past, where the interval of runs is not 0, the plan of a run is in order: its first
-- phase stops between the start and the hard stop, by the phase's maximum and before the reserve of the second
-- phase (or at the start), the hard stop keeps the margin to the next expected start (or is the start), that
-- lies after this start, and the run is to yield exactly if less than the useful time is left.
pub adaptive_execution_window-IsOrdered :
    (cfg : Schedule) (sh : Shard) (started : ℕ) (invocation : String)
    → 0 < cfg.interval_ms
    → IsOrdered cfg (adaptive_execution_window cfg sh started invocation)
unfolding adaptive_execution_window
adaptive_execution_window-IsOrdered cfg sh started invocation p =
    plan-IsOrdered cfg _ started invocation p
