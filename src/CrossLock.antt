-- ===== src/CrossLock.antt =====
-- web/lib/cross-process-lock.ts: work under a lock of the database or of a file. What the database and the file
-- system answer is given; a call of one process waits for the earlier ones of the same key, and is alone here.
pub mod Runs
use link_suffix.Base.{
  ℕ, ◌+◌, ◌-◌, Bool, true, false, ◌||◌, List, [], ◌∷◌, Option, none, some, leb, ltb, if◌then◌else◌,
}

-- How a piece of work, or a lock around it, ends.
pub data Ended {ℓ} (A : Type ℓ) : Type ℓ where
  value : A → Ended A
  thrown : Ended A

-- What the database gives: no pool is configured, the connection or the query for the lock fails, or the lock
-- is held.
pub data Database : Type 0 where
  no_pool no_connection no_lock locked : Database

-- What one attempt to create the lock file meets: it is created, another error than EEXIST, or a file that is
-- there, with the instant that it names (none where it cannot be read or names none).
pub data Look : Type 0 where
  created broken : Look
  present : Option ℕ → Look

-- The end of the loop, or that the answers given are used up before it ends.
pub data Waited : Type 0 where
  holds timed_out broke undecided : Waited

-- A lock file that is removed: it cannot be read, names no instant, or is older than `stale_ms`.
abbrev pub is_stale : ℕ → ℕ → Option ℕ → Bool
is_stale stale_ms now none = true
is_stale stale_ms now (some at) = leb at 0 || ltb stale_ms (now - at)

-- The loop of `withFileLock`, with each round's instant and answer.
unfoldable pub wait_for_file : ℕ → ℕ → List (ℕ × Look) → Waited
wait_for_file stale_ms deadline [] = undecided
wait_for_file stale_ms deadline ((now, created) ∷ rounds) = holds
wait_for_file stale_ms deadline ((now, broken) ∷ rounds) = broke
wait_for_file stale_ms deadline ((now, present at) ∷ rounds) =
    let rest = wait_for_file stale_ms deadline rounds in
    if is_stale stale_ms now at then rest else if leb deadline now then timed_out else rest

module _ {ℓ κ} {S : Type ℓ} {A : Type κ} (work : S → S × Ended A) where
  -- `withDatabaseLock`; none is its null, without a pool.
  abbrev pub with_database_lock : Database → S → S × Option (Ended A)
  with_database_lock no_pool s = (s, none)
  with_database_lock no_connection s = (s, some thrown)
  with_database_lock no_lock s = (s, some thrown)
  with_database_lock locked s = ((work s).0, some (work s).1)

  -- `withFileLock` after its loop; a loop that does not end is no end of the call.
  abbrev pub under_file : S → Waited → S × Option (Ended A)
  under_file s holds = ((work s).0, some (work s).1)
  under_file s timed_out = (s, some thrown)
  under_file s broke = (s, some thrown)
  under_file s undecided = (s, none)

  -- What follows `withDatabaseLock`.
  abbrev pub after_database : Bool → Waited → S × Option (Ended A) → S × Option (Ended A)
  after_database required waited (s, some (value a)) = (s, some (value a))
  after_database required waited (s, some thrown) =
      if required then (s, some thrown) else under_file s waited
  after_database required waited (s, none) = under_file s waited

  -- `withCrossProcessLock`; `required` is TAH_DISTRIBUTED_REQUIRED.
  unfoldable pub with_cross_process_lock :
      Bool → Database → ℕ → ℕ → List (ℕ × Look) → S → S × Option (Ended A)
  unfolding wait_for_file
  with_cross_process_lock required db stale_ms deadline rounds s =
      after_database required (wait_for_file stale_ms deadline rounds) (with_database_lock db s)
