-- ===== src/Examples/Tunnels.antt =====
-- Sessions of two tunnels at most, over a hundred ports.
use link_suffix.Base.{◌≤◌, ◌+◌, ◌==◌, refl, true, arith, length}
use link_suffix.Base.Maps.{put, get}
use link_suffix.Proxy.Sessions.{Config, Manager, new_manager, place_start, reserve_port}
use link_suffix.Proxy.Sessions.Assign.{assign_session}
use link_suffix.Proxy.Sessions.Ports.{IsReservation, reserve_port-finds}
use link_suffix.Proxy.Sessions.Room.{waiting}
use link_suffix.Proxy.Sessions.Limit.{start, later, assigns, places, Reach-limit}

abbrev config : Config
config = record {
  max_sessions = 2;
  ttl_ms = 900_000;
  gc_interval_ms = 30_000;
  port_min = 12_000;
  port_max = 12_100;
}

-- The last port of the range is in use by another program, and so the first is found.
abbrev at_the_end : Manager
at_the_end = record (new_manager config) { next_local_port = 12_100 }

reserve_port-finds_example :
    IsReservation config
      (λ p. p == 12_000)
      12_000
      at_the_end
      (reserve_port config (λ p. p == 12_000) at_the_end)
reserve_port-finds_example =
    reserve_port-finds config (λ p. p == 12_000) 12_000 at_the_end (omega arith) (omega arith)
      (omega arith) (omega arith) refl

abbrev asked : Manager
asked = (assign_session config 1_000 "US||" "US" "" "" (new_manager config)).0

abbrev listed : Manager
listed = place_start config (λ p. true) 1_001 "US||" "sess_1" "US" "" "" asked

Reach-limit_example :
    length listed.sessions + waiting listed.starting_sessions ≤ config.max_sessions
unfolding assign_session get put
Reach-limit_example = Reach-limit (
    later (later start (assigns 1_000 "US||" "US" "" ""))
      (places (λ p. true) 1_001 "US||" "sess_1" "US" "" "" refl))
