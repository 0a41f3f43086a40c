-- ===== src/Proxy/BrowserPool/Routes.antt =====
-- The routes of the tickets that are open, and what keeps them.
use link_suffix.Base.{
  subst, false, if◌then◌else◌, ◌≡◌, ◌≤◌, true, Option, none, some, String, refl, str_eq, arith,
  eq_iff,
}
use link_suffix.Base.Maps.{Map, get, put, get-put_at, get-delete_at}
use link_suffix.Proxy.BrowserPool.{
  route_is_assigned, add_route, begun_pool, Entry, launching, over, Pool, Ticket, Phase, is_open,
  begin_lease, drop_route,
}

-- An open ticket of the present generation has its route; no ticket is of a later generation.
pub record IsRouted (p : Pool) : Type 0 where
  pub tracked :
      (id : String) (t : Ticket) (route : String)
      → get p.tickets id ≡ some t
      → is_open t.phase ≡ true
      → t.acquired_generation ≡ p.generation
      → t.proxy_route ≡ some route
      → get p.active_proxy_routes route ≡ some id
  pub begun :
      (id : String) (t : Ticket) → get p.tickets id ≡ some t → t.acquired_generation ≤ p.generation

-- A ticket that is over gives its route back.
pub dropped-IsRouted :
    (p : Pool) (id : String) (t : Ticket)
    → IsRouted p
    → get p.tickets id ≡ some t
    → is_open t.phase ≡ true
    → t.acquired_generation ≡ p.generation
    → IsRouted (record p {
      active_proxy_routes = drop_route t.proxy_route p.active_proxy_routes;
      tickets = put id (record t { phase = over }) p.tickets;
    })
dropped-IsRouted p id t x there on now = by-route t.proxy_route refl
  where
    at :
        (j : String)
        → get (put id (record t { phase = over }) p.tickets) j
          ≡ (if str_eq id j then some (record t { phase = over }) else get p.tickets j)
    at j = get-put_at j id (record t { phase = over }) p.tickets

    by-route :
        (o : Option String)
        → t.proxy_route ≡ o
        → IsRouted (record p {
          active_proxy_routes = drop_route o p.active_proxy_routes;
          tickets = put id (record t { phase = over }) p.tickets;
        })
    by-route none e = record {
      tracked = λ j m route f act same r. ground (arith, at j, x.tracked j m route);
      begun = λ j m f. ground (arith, at j, x.begun j m, x.begun id t there);
    }
    by-route (some own) e = record {
      tracked = λ j m route f act same r. ground (
        arith,
        at j,
        x.tracked j m route,
        x.tracked id t own there on now e,
        eq_iff own route,
        eq_iff id j,
        get-delete_at route own p.active_proxy_routes,
      );
      begun = λ j m f. ground (arith, at j, x.begun j m, x.begun id t there);
    }

-- A ticket goes on with its route, or is over in a later generation.
pub kept-IsRouted :
    (p : Pool) (id : String) (t : Ticket) (phase : Phase)
    → IsRouted p
    → get p.tickets id ≡ some t
    → is_open t.phase ≡ true
    → IsRouted (record p { tickets = put id (record t { phase = phase }) p.tickets })
kept-IsRouted p id t phase x there on = record {
  tracked = λ j m route f act same r.
      ground (arith, at j, x.tracked j m route, x.tracked id t route there on, eq_iff id j);
  begun = λ j m f. ground (arith, at j, x.begun j m, x.begun id t there);
}
  where
    at :
        (j : String)
        → get (put id (record t { phase = phase }) p.tickets) j
          ≡ (if str_eq id j then some (record t { phase = phase }) else get p.tickets j)
    at j = get-put_at j id (record t { phase = phase }) p.tickets

-- A new ticket has no route, or one that is not assigned.
begun-IsRouted :
    (p : Pool) (id key : String) (route : Option String)
    → IsRouted p
    → get p.tickets id ≡ none
    → route_is_assigned p route ≡ false
    → IsRouted (begun_pool id key route p)
begun-IsRouted p id key route x new free = by-route route refl free
  where
    fresh : Ticket
    fresh = record {
      proxy_route = route;
      key = key;
      acquired_generation = p.generation;
      phase = launching;
    }

    at :
        (j : String)
        → get (put id fresh p.tickets) j ≡ (if str_eq id j then some fresh else get p.tickets j)
    at j = get-put_at j id fresh p.tickets

    by-route :
        (o : Option String)
        → route ≡ o
        → route_is_assigned p o ≡ false
        → IsRouted (record (begun_pool id key route p) {
          active_proxy_routes = add_route o id p.active_proxy_routes;
        })
    by-route none e f = record {
      tracked = λ j m own found act same r. ground (arith, at j, x.tracked j m own);
      begun = λ j m found. ground (arith, at j, x.begun j m);
    }
    by-route (some mine) e f = record {
      tracked = λ j m own found act same r. ground (
        arith,
        at j,
        x.tracked j m own,
        eq_iff id j,
        eq_iff mine own,
        get-put_at own mine id p.active_proxy_routes,
      );
      begun = λ j m found. ground (arith, at j, x.begun j m);
    }

pub begin-IsRouted :
    (p q : Pool) (id key : String) (route : Option String)
    → IsRouted p
    → get p.tickets id ≡ none
    → begin_lease id key route p ≡ some q
    → IsRouted q
unfolding begin_lease
begin-IsRouted p q id key route x new made =
    let free : route_is_assigned p route ≡ false = ground (arith, made) in
    let same : begun_pool id key route p ≡ q = ground (arith, made) in
    subst IsRouted same (begun-IsRouted p id key route x new free)

-- What a ticket's entry becomes does not matter to the routes.
pub entries-IsRouted :
    (p : Pool) (es : Map Entry) → IsRouted p → IsRouted (record p { entries = es })
entries-IsRouted p es x = record { tracked = x.tracked; begun = x.begun }
