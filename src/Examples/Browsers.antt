-- ===== src/Examples/Browsers.antt =====
-- A route that is given back and taken by the next journey.
use link_suffix.Base.{true, ◌≡◌, refl, some, String}
use link_suffix.Base.Maps.{get, put, delete}
use link_suffix.Proxy.BrowserPool.{
  Pool, Ticket, launching, new_pool, begun_pool, finish_lease, release_lease, begin_lease,
}
use link_suffix.Proxy.BrowserPool.Journeys.{
  Reach, start, later, begins, finishes, releases, Reach-one_route,
}

abbrev first : Pool
first = begun_pool "journey-1" "chromium:headless" (some "route-a") new_pool

abbrev freed : Pool
freed = release_lease "journey-1" (finish_lease "journey-1" true first)

abbrev second : Pool
second = begun_pool "journey-2" "chromium:headless" (some "route-a") freed

abbrev second_ticket : Ticket
second_ticket = record {
  proxy_route = some "route-a";
  key = "chromium:headless";
  acquired_generation = 0;
  phase = launching;
}

second_reached : Reach second
unfolding get put delete begin_lease finish_lease release_lease
second_reached =
    later
      (later
        (later (later start (begins "journey-1" "chromium:headless" (some "route-a") refl refl))
          (finishes "journey-1" true))
        (releases "journey-1"))
      (begins "journey-2" "chromium:headless" (some "route-a") refl refl)

Reach-one_route_example : ◌≡◌ {A = String} "journey-2" "journey-2"
unfolding get put delete begin_lease finish_lease release_lease
Reach-one_route_example =
    Reach-one_route second_reached "journey-2" "journey-2" second_ticket second_ticket "route-a"
      refl refl refl refl refl refl refl refl
