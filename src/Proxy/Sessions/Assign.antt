-- ===== src/Proxy/Sessions/Assign.antt =====
-- web/lib/proxy-session-manager.ts: the session that a request is assigned.
use link_suffix.Base.{ℕ, Bool, true, ◌&&◌, ◌||◌, Option, none, some, String, str_eq, filter, head?}
use link_suffix.Base.Sorting.{sort}
use link_suffix.Base.Text.{is_empty}
use link_suffix.Base.Maps.{get, put, values}
use link_suffix.Proxy.Sessions.{
  is_ready, Session, Config, Manager, used_before, maybe_gc_sessions, begin_start,
}

-- The parts of a place that a caller names; an empty text names none.
abbrev fits : String → String → Bool
fits wanted has_it = is_empty wanted || str_eq has_it wanted

abbrev pub is_candidate_for : String → String → String → Session → Bool
is_candidate_for country state city s =
    is_ready s.status && fits country s.country && fits state s.state && fits city s.city

-- What an assignment comes to.
pub data Assigned : Type 0 where
  reused : String → Assigned
  awaits begun : Assigned
  full : Assigned

abbrev pub begun_for : String → Manager → Option Manager → Manager × Assigned
begun_for key m none = (m, full)
begun_for key m (some g) =
    (record g { starting_sessions = put key true g.starting_sessions }, begun)

abbrev pub assign_new : Config → ℕ → String → Manager → Option Bool → Manager × Assigned
assign_new c now key m (some waits) = (m, awaits)
assign_new c now key m none = begun_for key (maybe_gc_sessions c now m) (begin_start c now m)

abbrev pub assign_to : Config → ℕ → String → Manager → Option Session → Manager × Assigned
assign_to c now key m (some s) =
    (record m { sessions = put s.id (record s { last_used_at = now }) m.sessions }, reused s.id)
assign_to c now key m none = assign_new c now key m (get m.starting_sessions key)

-- `assignSession`, where `key` is the `sessionKey` of the place.
unfoldable pub assign_session :
    Config → ℕ → String → String → String → String → Manager → Manager × Assigned
unfolding maybe_gc_sessions begin_start sort
assign_session c now key country state city m =
    let g = maybe_gc_sessions c now m in
    assign_to c now key g
      (head? (sort used_before (filter (is_candidate_for country state city) (values g.sessions))))
