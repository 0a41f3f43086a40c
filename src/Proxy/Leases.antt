-- ===== src/Proxy/Leases.antt =====
-- `createMemoryProxyLeaseRepository` of web/server/proxy-lease-coordinator.mjs: who holds which endpoint,
-- under which fencing token. Each call is one step, at the time `now`.
pub mod Exclusive
mod Calls
pub mod History
pub mod Fenced
pub mod Spec
pub mod Refines
use link_suffix.Base.{
  ℕ, suc, ◌+◌, Bool, true, false, ◌&&◌, ◌||◌, not, List, [], ◌∷◌, Option, none, some, String, leb,
  ltb, ◌==◌, str_eq, if◌then◌else◌,
}
use link_suffix.Base.Text.{is_empty}
use link_suffix.Base.Maps.{Map, get, put, delete, keys}

-- The states of a lease, as the table's CHECK has them.
pub data LeaseState : Type 0 where
  active released expired quarantined : LeaseState

abbrev pub is_active : LeaseState → Bool
is_active active = true
is_active _ = false

-- What a caller asks for.
pub record Terms : Type 0 where
  pub lease_id : String
  pub provider_id : String
  pub pool_id : String
  pub campaign_id : String
  pub endpoint_key : String
  pub owner_id : String
  pub ttl_ms : ℕ

pub record Lease : Type 0 where
  pub terms : Terms
  pub open terms use *
  pub fencing_token : ℕ
  pub state : LeaseState
  pub created_at : ℕ
  pub expires_at : ℕ
  pub released_at : Option ℕ

pub record Repository : Type 0 where
  pub leases : Map Lease
  pub active_endpoints : Map String
  pub fence : ℕ

abbrev pub empty_repository : Repository
empty_repository = record { leases = []; active_endpoints = []; fence = 0 }

-- Who asks to renew or release, and under which token.
pub record Holder : Type 0 where
  pub lease_id : String
  pub owner_id : String
  pub fencing_token : ℕ

-- `activeId ? leases.get(activeId) : null`
abbrev pub lease_under : Repository → Option String → Option Lease
lease_under r none = none
lease_under r (some id) = if is_empty id then none else get r.leases id

abbrev pub endpoint_lease : Repository → String → Option Lease
endpoint_lease r endpoint = lease_under r (get r.active_endpoints endpoint)

abbrev pub is_live : ℕ → Lease → Bool
is_live now l = is_active l.state && ltb now l.expires_at

abbrev pub new_lease : ℕ → Terms → ℕ → Lease
new_lease now t token = record {
  terms = t;
  fencing_token = token;
  state = active;
  created_at = now;
  expires_at = now + t.ttl_ms;
  released_at = none;
}

-- A lease ends, and an endpoint is no longer taken.
abbrev pub ended : Lease → LeaseState → String → Repository → Repository
ended l st endpoint r = record r {
  leases = put l.lease_id (record l { state = st }) r.leases;
  active_endpoints = delete endpoint r.active_endpoints;
}

abbrev pub granted : ℕ → Terms → Repository → Repository × Option Lease
granted now t r =
    let lease = new_lease now t (suc r.fence) in
    (
      record {
        leases = put t.lease_id lease r.leases;
        active_endpoints = put t.endpoint_key t.lease_id r.active_endpoints;
        fence = suc r.fence;
      },
      some lease,
    )

abbrev pub reserve_over : ℕ → Terms → Repository → Option Lease → Repository × Option Lease
reserve_over now t r none = granted now t r
reserve_over now t r (some l) =
    if is_live now l then (r, none) else granted now t (ended l expired t.endpoint_key r)

-- `reserve`
unfoldable pub reserve : ℕ → Terms → Repository → Repository × Option Lease
reserve now t r = reserve_over now t r (endpoint_lease r t.endpoint_key)

-- The lease is active, and this owner's under this token.
abbrev pub is_held_by : Holder → Lease → Bool
is_held_by h l =
    is_active l.state && str_eq l.owner_id h.owner_id && l.fencing_token == h.fencing_token

abbrev pub renew_lease : ℕ → Holder → ℕ → Repository → Option Lease → Repository × Option Lease
renew_lease now h ttl r none = (r, none)
renew_lease now h ttl r (some l) =
    let longer : Lease = record l { expires_at = now + ttl } in
    if is_held_by h l && ltb now l.expires_at
    then (record r { leases = put h.lease_id longer r.leases }, some longer)
    else (r, none)

-- `renew`
unfoldable pub renew : ℕ → Holder → ℕ → Repository → Repository × Option Lease
renew now h ttl r = renew_lease now h ttl r (get r.leases h.lease_id)

abbrev pub release_lease : ℕ → Holder → LeaseState → Repository → Option Lease → Repository × Bool
release_lease now h st r none = (r, false)
release_lease now h st r (some l) =
    if is_held_by h l
    then (ended (record l { released_at = some now }) st l.endpoint_key r, true)
    else (r, false)

-- `release`
unfoldable pub release : ℕ → Holder → LeaseState → Repository → Repository × Bool
release now h st r = release_lease now h st r (get r.leases h.lease_id)

abbrev pub is_due : ℕ → Lease → Bool
is_due now l = is_active l.state && leb l.expires_at now

abbrev pub reap_lease : ℕ → Repository × ℕ → Option Lease → Repository × ℕ
reap_lease now s none = s
reap_lease now (r, count) (some l) =
    if is_due now l then (ended l expired l.endpoint_key r, suc count) else (r, count)

pub reap_each : ℕ → List String → Repository × ℕ → Repository × ℕ
reap_each now [] s = s
reap_each now (id ∷ ids) s = reap_each now ids (reap_lease now s (get s.0.leases id))

-- `reapExpired`
unfoldable pub reap_expired : ℕ → Repository → Repository × ℕ
unfolding reap_each
reap_expired now r = reap_each now (keys r.leases) (r, 0)
