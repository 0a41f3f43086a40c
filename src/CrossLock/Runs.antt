-- ===== src/CrossLock/Runs.antt =====
-- How often the work is done.
use link_suffix.Base.{
  true, none, refl, Option, some, ◌↔◌, ◌≢◌, ℕ, suc, ◌≡◌, ◌≤◌, Bool, false, List, arith,
}
use link_suffix.CrossLock.{
  no_pool, no_connection, no_lock, wait_for_file, value, Ended, thrown, Database, locked, Look,
  Waited, holds, timed_out, broke, undecided, with_database_lock, under_file, after_database,
  with_cross_process_lock,
}

module _ {ℓ κ} {S : Type ℓ} {A : Type κ} (work : S → S × Ended A) where
  -- The work with a count of how often it was done.
  abbrev pub counted : S × ℕ → (S × ℕ) × Ended A
  counted (s, n) = (((work s).0, suc n), (work s).1)

  -- The count after a call from nought.
  abbrev pub runs : Bool → Database → ℕ → ℕ → List (ℕ × Look) → S → ℕ
  runs required db stale_ms deadline rounds s =
      (with_cross_process_lock counted required db stale_ms deadline rounds (s, 0)).0.1

  -- It failed under the lock of the database, which is not required, and a lock file is had.
  abbrev pub IsRepeated : Bool → Database → Waited → S → Type κ
  IsRepeated required db waited s =
      (db ≡ locked) × ((work s).1 ≡ thrown) × (required ≡ false) × (waited ≡ holds)

  -- The count after what follows the database, by what came of it.
  runs_after : Bool → Waited → S → ℕ → Option (Ended A) → ℕ
  runs_after required waited s n o = (after_database counted required waited ((s, n), o)).0.1

  file-runs : (waited : Waited) (s : S) → (under_file counted (s, 0) waited).0.1 ≤ 1
  file-runs holds s = omega arith
  file-runs timed_out s = omega arith
  file-runs broke s = omega arith
  file-runs undecided s = omega arith

  file-twice :
      (waited : Waited) (s : S) → ((under_file counted (s, 1) waited).0.1 ≡ 2) ↔ (waited ≡ holds)
  file-twice holds s = (λ e. refl, λ e. refl)
  file-twice timed_out s = (λ e. absurd (omega arith), λ e. absurd (ground arith))
  file-twice broke s = (λ e. absurd (omega arith), λ e. absurd (ground arith))
  file-twice undecided s = (λ e. absurd (omega arith), λ e. absurd (ground arith))

  locked-twice :
      (required : Bool) (waited : Waited) (s : S) (o : Ended A)
      → (runs_after required waited s 1 (some o) ≡ 2)
        ↔ ((o ≡ thrown) × (required ≡ false) × (waited ≡ holds))
  unfolding runs_after
  locked-twice required waited s (value a) = (λ e. absurd (omega arith), λ h. absurd (ground arith))
  locked-twice true waited s thrown = (λ e. absurd (omega arith), λ h. absurd (ground arith))
  locked-twice false waited s thrown =
      let (to, from) = file-twice waited s in (λ e. (refl, refl, to e), λ h. from h.2)

  unlocked-once :
      (required : Bool) (waited : Waited) (s : S) (o : Option (Ended A))
      → ((a : A) → o ≢ some (value a))
      → runs_after required waited s 0 o ≤ 1
  unfolding runs_after
  unlocked-once required waited s none h = file-runs waited s
  unlocked-once required waited s (some (value a)) h = absurd (h a refl)
  unlocked-once true waited s (some thrown) h = omega arith
  unlocked-once false waited s (some thrown) h = file-runs waited s

  runs-by :
      (required : Bool) (db : Database) (waited : Waited) (s : S)
      → let n =
          (after_database counted required waited (with_database_lock counted db (s, 0))).0.1 in
        (n ≡ 2) ↔ IsRepeated required db waited s
  unfolding runs_after
  runs-by required no_pool waited s =
      (λ e. absurd (omega (arith, file-runs waited s)), λ h. absurd (ground (arith, h.0)))
  runs-by required no_connection waited s = (
    λ e. absurd (
        omega
          (arith, unlocked-once required waited s (some thrown) (λ a k. absurd (ground arith)), e)),
    λ h. absurd (ground (arith, h.0)),
  )
  runs-by required no_lock waited s = (
    λ e. absurd (
        omega
          (arith, unlocked-once required waited s (some thrown) (λ a k. absurd (ground arith)), e)),
    λ h. absurd (ground (arith, h.0)),
  )
  runs-by required locked waited s =
      let (to, from) = locked-twice required waited (work s).0 (work s).1 in
      (
        λ e. let (failed, optional, held) = to e in (refl, failed, optional, held),
        λ h. from (h.1, h.2, h.3),
      )

  -- The work is done twice exactly when it fails under the lock of the database while that lock is not
  -- required and a lock file is then had.
  pub runs-twice :
      (required : Bool) (db : Database) (stale_ms deadline : ℕ) (rounds : List (ℕ × Look)) (s : S)
      → (runs required db stale_ms deadline rounds s ≡ 2)
        ↔ IsRepeated required db (wait_for_file stale_ms deadline rounds) s
  unfolding with_cross_process_lock
  runs-twice required db stale_ms deadline rounds s =
      runs-by required db (wait_for_file stale_ms deadline rounds) s
