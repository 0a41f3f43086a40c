-- ===== src/Examples/CrossLocks.antt =====
-- Work that fails under the lock of the database and is done again under that of a file.
use link_suffix.Base.{◌+◌, ℕ, ◌≡◌, ◌↔◌, refl, List, [], ◌∷◌, some, false}
use link_suffix.CrossLock.{
  Ended, thrown, locked, Look, present, created, wait_for_file, with_cross_process_lock,
}
use link_suffix.CrossLock.Runs.{runs, IsRepeated, runs-twice}

-- It changes the state before it fails.
abbrev charge : ℕ → ℕ × Ended ℕ
charge n = (n + 10, thrown)

-- A fresh lock file at first, which is then released.
abbrev rounds : List (ℕ × Look)
rounds = (1_000, present (some 900)) ∷ (1_040, created) ∷ []

runs-twice_example :
    (runs charge false locked 120_000 31_000 rounds 0 ≡ 2)
    ↔ IsRepeated charge false locked (wait_for_file 120_000 31_000 rounds) 0
runs-twice_example = runs-twice charge false locked 120_000 31_000 rounds 0

charged_twice : runs charge false locked 120_000 31_000 rounds 0 ≡ 2
unfolding with_cross_process_lock
charged_twice = refl
