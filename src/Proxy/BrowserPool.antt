-- ===== src/Proxy/BrowserPool.antt =====
-- packages/tiers/human-sim/src/browserPool.ts: browsers that journeys share, one journey to a proxy route. A
-- call of acquireBrowserLease is a ticket; it begins, and ends when the browser is there or is not.
pub mod Routes
pub mod Journeys
use link_suffix.Base.{
  ℕ, suc, ◌-◌, Bool, true, false, not, ◌&&◌, ◌||◌, List, [], Option, none, some, String, ◌==◌,
  if◌then◌else◌,
}
use link_suffix.Base.Maps.{Map, get, put, delete, has}

-- PoolEntry
pub record Entry : Type 0 where
  pub connected : Bool
  pub active_contexts : ℕ
  pub idle_timer : Bool

pub data Phase : Type 0 where
  launching held over : Phase

abbrev pub is_open : Phase → Bool
is_open launching = true
is_open held = true
is_open over = false

-- What one call remembers: `proxyRoute`, `key` and `acquiredGeneration`.
pub record Ticket : Type 0 where
  pub proxy_route : Option String
  pub key : String
  pub acquired_generation : ℕ
  pub phase : Phase

-- The variables of the module; a route's value is the name of the ticket that added it.
pub record Pool : Type 0 where
  pub entries : Map Entry
  pub active_proxy_routes : Map String
  pub tickets : Map Ticket
  pub generation : ℕ
  pub closing : Bool

abbrev pub new_pool : Pool
new_pool = record {
  entries = [];
  active_proxy_routes = [];
  tickets = [];
  generation = 0;
  closing = false;
}

abbrev pub route_is_assigned : Pool → Option String → Bool
route_is_assigned p none = false
route_is_assigned p (some route) = has p.active_proxy_routes route

abbrev add_route : Option String → String → Map String → Map String
add_route none id m = m
add_route (some route) id m = put route id m

abbrev pub drop_route : Option String → Map String → Map String
drop_route none m = m
drop_route (some route) m = delete route m

-- The entry for a key, made if it is missing, without its idle timer.
abbrev awake : Option Entry → Entry
awake none = record { connected = false; active_contexts = 0; idle_timer = false }
awake (some e) = record e { idle_timer = false }

-- The ticket that begins, with its route and its entry.
abbrev pub begun_pool : String → String → Option String → Pool → Pool
begun_pool id key route p = record p {
  active_proxy_routes = add_route route id p.active_proxy_routes;
  entries = put key (awake (get p.entries key)) p.entries;
  tickets =
      put id
        (record {
          proxy_route = route;
          key = key;
          acquired_generation = p.generation;
          phase = launching;
        })
        p.tickets;
}

-- The call until it waits for a browser; none is its error.
unfoldable pub begin_lease : String → String → Option String → Pool → Option Pool
begin_lease id key route p =
    if p.closing || route_is_assigned p route then none else some (begun_pool id key route p)

abbrev with_context : Option Entry → Entry
with_context none = record { connected = true; active_contexts = 1; idle_timer = false }
with_context (some e) = record e { connected = true; active_contexts = suc e.active_contexts }

-- The rest of the call, if the browser is there (`launched`) or not. A ticket of an earlier generation fails.
abbrev finish_ticket : String → Bool → Pool → Ticket → Pool
finish_ticket id launched p t =
    if not (t.acquired_generation == p.generation)
    then record p { tickets = put id (record t { phase = over }) p.tickets }
    else if launched
    then record p {
      entries = put t.key (with_context (get p.entries t.key)) p.entries;
      tickets = put id (record t { phase = held }) p.tickets;
    }
    else record p {
      active_proxy_routes = drop_route t.proxy_route p.active_proxy_routes;
      tickets = put id (record t { phase = over }) p.tickets;
    }

-- A ticket ends once.
abbrev finish_by : Phase → String → Bool → Pool → Ticket → Pool
finish_by launching id launched p t = finish_ticket id launched p t
finish_by _ id launched p t = p

abbrev finish_open : String → Bool → Pool → Option Ticket → Pool
finish_open id launched p none = p
finish_open id launched p (some t) = finish_by t.phase id launched p t

unfoldable pub finish_lease : String → Bool → Pool → Pool
finish_lease id launched p = finish_open id launched p (get p.tickets id)

abbrev without_context : Option Entry → Entry
without_context none = record { connected = false; active_contexts = 0; idle_timer = true }
without_context (some e) = record e {
  active_contexts = e.active_contexts - 1;
  idle_timer = e.idle_timer || e.active_contexts - 1 == 0;
}

-- `release` of a lease: only its first call does anything, and only in its own generation.
abbrev release_ticket : String → Pool → Ticket → Pool
release_ticket id p t =
    if not (t.acquired_generation == p.generation)
    then record p { tickets = put id (record t { phase = over }) p.tickets }
    else record p {
      active_proxy_routes = drop_route t.proxy_route p.active_proxy_routes;
      entries = put t.key (without_context (get p.entries t.key)) p.entries;
      tickets = put id (record t { phase = over }) p.tickets;
    }

abbrev release_by : Phase → String → Pool → Ticket → Pool
release_by held id p t = release_ticket id p t
release_by _ id p t = p

abbrev release_held : String → Pool → Option Ticket → Pool
release_held id p none = p
release_held id p (some t) = release_by t.phase id p t

unfoldable pub release_lease : String → Pool → Pool
release_lease id p = release_held id p (get p.tickets id)

-- The browser of an entry is gone: it disconnects, or its idle timer fires.
abbrev lost : String → Pool → Option Entry → Pool
lost key p none = p
lost key p (some e) = record p {
  entries = put key (record e { connected = false; idle_timer = false }) p.entries;
}

unfoldable pub lose_browser : String → Pool → Pool
lose_browser key p = lost key p (get p.entries key)

-- `closeBrowserPool` until it waits; a second call waits for the first.
abbrev close_unless : Bool → Pool → Pool
close_unless true p = p
close_unless false p = record p {
  generation = suc p.generation;
  entries = [];
  active_proxy_routes = [];
  closing = true;
}

unfoldable pub close_pool : Pool → Pool
close_pool p = close_unless p.closing p

-- And when all browsers are shut.
abbrev pub pool_closed : Pool → Pool
pool_closed p = record p { closing = false }
