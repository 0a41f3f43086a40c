-- ===== src/Proxy/Sessions.antt =====
-- web/lib/proxy-session-manager.ts: the local tunnels that proxy sessions use. A start waits for its port and
-- for its tunnel; what happens in between is a step of its own. Text is given trimmed and in one case.
pub mod Assign
pub mod Ports
mod Shrink
pub mod Room
pub mod Burst
pub mod Limit
use link_suffix.Base.{
  ℕ, zero, suc, ◌+◌, ◌-◌, Bool, true, false, not, ◌&&◌, ◌||◌, List, [], ◌∷◌, map, Option, none,
  some, String, leb, ltb, ◌==◌, str_eq, if◌then◌else◌, filter, any, take, length, head?,
}
use link_suffix.Base.Sorting.{sort}
use link_suffix.Base.Text.{is_empty}
use link_suffix.Base.Maps.{Map, get, put, delete, values, has}

pub data Status : Type 0 where
  starting ready failed stopped : Status

abbrev pub is_stopped : Status → Bool
is_stopped stopped = true
is_stopped _ = false

abbrev is_starting : Status → Bool
is_starting starting = true
is_starting _ = false

abbrev pub is_ready : Status → Bool
is_ready ready = true
is_ready _ = false

-- A session that no start is waiting for.
abbrev is_idle : Status → Bool
is_idle ready = true
is_idle failed = true
is_idle _ = false

-- ProxySession
pub record Session : Type 0 where
  pub id : String
  pub local_port : ℕ
  pub country : String
  pub state : String
  pub city : String
  pub status : Status
  pub started_at : ℕ
  pub last_used_at : ℕ

pub record Config : Type 0 where
  pub max_sessions : ℕ
  pub ttl_ms : ℕ
  pub gc_interval_ms : ℕ
  pub port_min : ℕ
  pub port_max : ℕ

-- The variables of the module; of a start that was asked for by an assignment, the value tells whether it
-- still waits for its port.
pub record Manager : Type 0 where
  pub sessions : Map Session
  pub starting_sessions : Map Bool
  pub reserved_ports : List ℕ
  pub next_local_port : ℕ
  pub next_gc : ℕ

-- PORT_MIN, and an empty module.
abbrev pub new_manager : Config → Manager
new_manager c = record {
  sessions = [];
  starting_sessions = [];
  reserved_ports = [];
  next_local_port = c.port_min;
  next_gc = 0;
}

abbrev pub free_port : ℕ → List ℕ → List ℕ
free_port port = filter (λ p. not (p == port))

abbrev stop_found : String → Manager → Option Session → Manager
stop_found id m none = m
stop_found id m (some s) = if is_stopped s.status then m else record m {
  sessions = delete id m.sessions;
  reserved_ports = free_port s.local_port m.reserved_ports;
}

-- `stopSession`
unfoldable pub stop_session : String → Manager → Manager
stop_session id m = stop_found id m (get m.sessions id)

pub stop_all : List Session → Manager → Manager
unfolding stop_session
stop_all [] m = m
stop_all (s ∷ ss) m = stop_all ss (stop_session s.id m)

abbrev pub used_before : Session → Session → Bool
used_before a b = ltb a.last_used_at b.last_used_at

module _ (c : Config) where
  abbrev is_due : ℕ → Session → Bool
  is_due now s = is_idle s.status && ltb c.ttl_ms (now - s.last_used_at)

  abbrev surplus : Manager → List Session
  surplus m =
      take (length m.sessions - c.max_sessions)
        (sort used_before (filter (λ s. is_idle s.status) (values m.sessions)))

  -- `pruneSessions`
  pub prune_sessions : ℕ → Manager → Manager
  unfolding stop_all sort
  prune_sessions now m =
      let m' = stop_all (filter (is_due now) (values m.sessions)) m in
      if leb (length m'.sessions) c.max_sessions then m' else stop_all (surplus m') m'

  -- `maybeGcSessions`
  pub maybe_gc_sessions : ℕ → Manager → Manager
  unfolding prune_sessions
  maybe_gc_sessions now m =
      if ltb now m.next_gc
      then m
      else prune_sessions now (record m { next_gc = now + c.gc_interval_ms })

  pub oldest_session : Manager → Option Session
  unfolding sort
  oldest_session m =
      head? (sort used_before (filter (λ s. not (is_starting s.status)) (values m.sessions)))

  abbrev make_room : Manager → Option Session → Option Manager
  make_room m none = none
  make_room m (some s) = some (stop_session s.id m)

  -- What `startSession` does before it waits for a port; none is the error of a full manager.
  unfoldable pub begin_start : ℕ → Manager → Option Manager
  unfolding maybe_gc_sessions oldest_session stop_session
  begin_start now m =
      let g = maybe_gc_sessions now m in
      if leb c.max_sessions (length g.sessions + length g.starting_sessions)
      then make_room g (oldest_session g)
      else some g

  -- `portIsAvailable`, where the system tells whether a port can be listened on.
  abbrev pub port_is_available : (ℕ → Bool) → Manager → ℕ → Bool
  port_is_available can_listen m port =
      not (any (λ p. p == port) m.reserved_ports) && can_listen port

  abbrev pub next_port : ℕ → ℕ
  next_port port = if leb c.port_max port then c.port_min else port + 1

  pub reserve_within : (ℕ → Bool) → ℕ → Manager → Manager × Option ℕ
  reserve_within can_listen zero m = (m, none)
  reserve_within can_listen (suc attempts) m =
      let port = m.next_local_port in
      let m' : Manager = record m { next_local_port = next_port port } in
      let rest = reserve_within can_listen attempts m' in
      if port_is_available can_listen m' port
      then (record m' { reserved_ports = port ∷ m.reserved_ports }, some port)
      else rest

  -- `reservePort`; none is the error when every port was tried.
  unfoldable pub reserve_port : (ℕ → Bool) → Manager → Manager × Option ℕ
  unfolding reserve_within
  reserve_port can_listen m = reserve_within can_listen (c.port_max - c.port_min + 1) m

-- The session is listed, and its tunnel starts.
abbrev open_session : ℕ → String → String → String → String → ℕ → Manager → Manager
open_session now id country state city port m = record m {
  sessions =
      put id
        (record {
          id = id;
          local_port = port;
          country = country;
          state = state;
          city = city;
          status = starting;
          started_at = now;
          last_used_at = now;
        })
        m.sessions;
}

abbrev with_status : String → Status → Manager → Option Session → Manager
with_status id st m none = m
with_status id st m (some s) = record m { sessions = put id (record s { status = st }) m.sessions }

-- A start goes on once the search for its port is over: without a port it fails, and is no longer waited for.
abbrev placed : ℕ → String → String → String → String → String → Manager × Option ℕ → Manager
placed now key id country state city (m, none) = record m {
  starting_sessions = delete key m.starting_sessions;
}
placed now key id country state city (m, some port) =
    open_session now id country state city port
      (record m { starting_sessions = put key false m.starting_sessions })

unfoldable pub place_start :
    Config → (ℕ → Bool) → ℕ → String → String → String → String → String → Manager → Manager
unfolding reserve_port
place_start c can_listen now key id country state city m =
    placed now key id country state city (reserve_port c can_listen m)

-- The start of an assignment is over: `finally(() => startingSessions.delete(key))`.
abbrev pub settle_start : String → Manager → Manager
settle_start key m = record m { starting_sessions = delete key m.starting_sessions }

-- The tunnel says that it is ready.
unfoldable pub tunnel_ready : String → Manager → Manager
tunnel_ready id m = with_status id ready m (get m.sessions id)

-- The tunnel failed before it was ready.
unfoldable pub tunnel_failed : String → ℕ → Manager → Manager
tunnel_failed id port m = record m {
  sessions = delete id m.sessions;
  reserved_ports = free_port port m.reserved_ports;
}

-- The process of the tunnel ends later; a session that was stopped is no longer listed.
unfoldable pub tunnel_exited : String → ℕ → Manager → Manager
tunnel_exited id port m =
    let m' : Manager = record m { reserved_ports = free_port port m.reserved_ports } in
    with_status id failed m' (get m.sessions id)
