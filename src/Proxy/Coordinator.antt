-- ===== src/Proxy/Coordinator.antt =====
-- `createProxyLeaseCoordinator` of web/server/proxy-lease-coordinator.mjs over the two stores in memory: a
-- lease counts once the endpoint's lock is held too. A call is one step, at the time `now`.
pub mod Returned
pub mod Taken
pub mod Given
pub mod Progress
use Prim.Native.String.{◌++◌ as append}
use link_suffix.Base.{
  ℕ, suc, Bool, true, false, not, List, [], ◌∷◌, Option, none, some, String, filter, min, max,
  str_eq, if◌then◌else◌,
}
use link_suffix.Base.Text.{decimal}
use link_suffix.Proxy.Leases.{
  Terms, Lease, LeaseState, released, expired, Repository, Holder, reserve, renew, release,
  reap_expired,
}
use link_suffix.Proxy.Locks.{Locks, acquire_lock, renew_lock, release_lock}

-- `boundedTtl`; a value that is no number is none.
abbrev pub bounded_ttl : Option ℕ → ℕ
bounded_ttl none = 120_000
bounded_ttl (some ttl) = min 86_400_000 (max 10_000 ttl)

pub record Request : Type 0 where
  pub provider_id : String
  pub pool_id : String
  pub campaign_id : String
  pub endpoint_keys : List String
  pub ttl_ms : Option ℕ

-- The two stores, and how many names of leases were drawn.
pub record Desk : Type 0 where
  pub repository : Repository
  pub locks : Locks
  pub drawn : ℕ

-- `[...new Set(keys)]`
unfoldable pub distinct : List String → List String
distinct [] = []
distinct (k ∷ ks) = k ∷ filter (λ x. not (str_eq k x)) (distinct ks)

abbrev pub lock_key : String → String → String
lock_key provider endpoint = append provider (append ":" endpoint)

-- `lockValue`
abbrev pub lock_value : Lease → String
lock_value l =
    append l.lease_id (append ":" (append l.owner_id (append ":" (decimal l.fencing_token))))

-- What an attempt to take an endpoint comes to; none when the list is at its end.
pub data Outcome : Type 0 where
  acquired : Lease → Outcome
  unavailable no_endpoints : Outcome

-- `ownerId` and `idFactory`, whose n-th value is `name_of n`.
module _ (owner : String) (name_of : ℕ → String) where
  abbrev pub terms_of : Request → String → ℕ → Terms
  terms_of q endpoint n = record {
    lease_id = name_of n;
    provider_id = q.provider_id;
    pool_id = q.pool_id;
    campaign_id = q.campaign_id;
    endpoint_key = endpoint;
    owner_id = owner;
    ttl_ms = bounded_ttl q.ttl_ms;
  }

  abbrev pub own_holder : Lease → Holder
  own_holder l = record { lease_id = l.lease_id; owner_id = owner; fencing_token = l.fencing_token }

  -- The lease was reserved: it counts if the lock is taken, and is given back otherwise.
  abbrev pub locked_or_back : ℕ → Request → Desk → Lease → Locks × Bool → Desk × Option Lease
  locked_or_back now q s l (ls, true) = (record s { locks = ls }, some l)
  locked_or_back now q s l (ls, false) = (
    record s { locks = ls; repository = (release now (own_holder l) released s.repository).0 },
    none,
  )

  abbrev pub try_lock : ℕ → Request → Desk → Option Lease → Desk × Option Lease
  try_lock now q s none = (s, none)
  try_lock now q s (some l) = locked_or_back now q s l (
      acquire_lock now (lock_key l.provider_id l.endpoint_key) (lock_value l) (bounded_ttl q.ttl_ms)
        s.locks)

  -- One endpoint of the loop in `acquire`.
  pub attempt : ℕ → Request → String → Desk → Desk × Option Lease
  attempt now q endpoint s =
      let got = reserve now (terms_of q endpoint s.drawn) s.repository in
      try_lock now q (record s { repository = got.0; drawn = suc s.drawn }) got.1

  pub attempts : ℕ → Request → List String → Desk → Desk × Outcome
  unfolding attempt
  attempts now q [] s = (s, unavailable)
  attempts now q (e ∷ es) s = elim (attempt now q e s).1 [
    | some l ↦ ((attempt now q e s).0, acquired l)
    | none ↦ attempts now q es (attempt now q e s).0
  ]

  abbrev acquire_from : ℕ → Request → List String → Desk → Desk × Outcome
  acquire_from now q [] s = (s, no_endpoints)
  acquire_from now q (e ∷ es) s = attempts now q (e ∷ es) s

  -- `acquire`
  unfoldable pub acquire : ℕ → Request → Desk → Desk × Outcome
  unfolding attempts distinct
  acquire now q s = acquire_from now q (distinct q.endpoint_keys) s

  abbrev renewed_lock : ℕ → ℕ → Lease → Desk → Option Lease → Desk × Option Lease
  renewed_lock now ttl l s none = (s, none)
  renewed_lock now ttl l s (some m) =
      let got = renew_lock now (lock_key l.provider_id l.endpoint_key) (lock_value l) ttl s.locks in
      if got.1
      then (record s { locks = got.0 }, some m)
      else (record s { repository = (release now (own_holder l) expired s.repository).0 }, none)

  -- `renew`
  unfoldable pub renew_desk : ℕ → Lease → Option ℕ → Desk → Desk × Option Lease
  renew_desk now l ttl s =
      let got = renew now (own_holder l) (bounded_ttl ttl) s.repository in
      renewed_lock now (bounded_ttl ttl) l (record s { repository = got.0 }) got.1

  -- `release`
  unfoldable pub release_desk : ℕ → Lease → LeaseState → Desk → Desk × Bool
  release_desk now l st s =
      let got = release now (own_holder l) st s.repository in
      if got.1
      then (
        record s {
          repository = got.0;
          locks = (release_lock (lock_key l.provider_id l.endpoint_key) (lock_value l) s.locks).0;
        },
        true,
      )
      else (record s { repository = got.0 }, false)

  -- `reapExpired`
  abbrev pub reap_desk : ℕ → Desk → Desk × ℕ
  reap_desk now s =
      let got = reap_expired now s.repository in (record s { repository = got.0 }, got.1)
