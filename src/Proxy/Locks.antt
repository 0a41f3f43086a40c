-- ===== src/Proxy/Locks.antt =====
-- `createMemoryProxyLeaseLock` of web/server/proxy-lease-coordinator.mjs: locks that run out.
use link_suffix.Base.{
  ℕ, ◌+◌, Bool, true, false, ◌&&◌, Option, none, some, String, ltb, str_eq, if◌then◌else◌,
}
use link_suffix.Base.Maps.{Map, get, put, delete}

pub record Held : Type 0 where
  pub value : String
  pub expires_at : ℕ

abbrev pub Locks : Type 0
Locks = Map Held

abbrev pub is_held : ℕ → Option Held → Bool
is_held now none = false
is_held now (some h) = ltb now h.expires_at

-- `acquire`
unfoldable pub acquire_lock : ℕ → String → String → ℕ → Locks → Locks × Bool
acquire_lock now key value ttl ls =
    if is_held now (get ls key)
    then (ls, false)
    else (put key (record { value = value; expires_at = now + ttl }) ls, true)

abbrev is_of : String → Option Held → Bool
is_of value none = false
is_of value (some h) = str_eq h.value value

-- `renew`
unfoldable pub renew_lock : ℕ → String → String → ℕ → Locks → Locks × Bool
renew_lock now key value ttl ls =
    if is_of value (get ls key) && is_held now (get ls key)
    then (put key (record { value = value; expires_at = now + ttl }) ls, true)
    else (ls, false)

-- `release`
unfoldable pub release_lock : String → String → Locks → Locks × Bool
release_lock key value ls = if is_of value (get ls key) then (delete key ls, true) else (ls, false)
