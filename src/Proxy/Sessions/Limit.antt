-- ===== src/Proxy/Sessions/Limit.antt =====
-- With starts that are asked for by assignments only, the limit on sessions holds at every moment.
use link_suffix.Base.{
  sym, zero, ◌-◌, ap, subst, ℕ, suc, ◌+◌, ◌≡◌, ◌≤◌, Bool, true, false, Option, none, some, String,
  arith, refl, length, head?, filter,
}
use link_suffix.Base.Maps.{
  length-put, Entries-delete, length-delete, Entries-put, length-put_there, get, values, Entries,
  Entries-get,
}
use link_suffix.Base.Sorting.{sort}
use link_suffix.Proxy.Sessions.{
  starting, free_port, failed, ready, with_status, next_port, reserve_within, Status, placed,
  reserve_port, used_before, is_stopped, Config, Manager, Session, new_manager, stop_session,
  begin_start, maybe_gc_sessions, place_start, settle_start, tunnel_ready, tunnel_failed,
  tunnel_exited,
}
use link_suffix.Proxy.Sessions.Assign.{
  is_candidate_for, assign_new, begun_for, assign_to, assign_session,
}
use link_suffix.Proxy.Sessions.Shrink.{IsListed, stop_session-Shrinks, gc-Shrinks}
use link_suffix.Proxy.Sessions.Room.{
  waiting, waiting-delete, waiting-put, waiting-put_placed, Within, Shrinks-Within, chosen-found,
  HasRoom, begin-HasRoom,
}

-- One step of the module; `can_listen` is what the system answers during the search for a port.
pub data Step (c : Config) (m : Manager) : Manager → Type 0 where
  assigns :
      (now : ℕ) (key country state city : String)
      → Step c m (assign_session c now key country state city m).0
  places :
      (can_listen : ℕ → Bool) (now : ℕ) (key id country state city : String)
      → get m.starting_sessions key ≡ some true
      → Step c m (place_start c can_listen now key id country state city m)
  settles : (key : String) → Step c m (settle_start key m)
  readies : (id : String) → Step c m (tunnel_ready id m)
  fails : (id : String) (port : ℕ) → Step c m (tunnel_failed id port m)
  exits : (id : String) (port : ℕ) → Step c m (tunnel_exited id port m)
  stops : (id : String) → Step c m (stop_session id m)

pub data Reach (c : Config) : Manager → Type 0 where
  start : Reach c (new_manager c)
  later : {m n : Manager} → Reach c m → Step c m n → Reach c n

begun_for-Within :
    (c : Config) (key : String) (b m : Manager) (o : Option Manager)
    → Within c m
    → ((h : Manager) → o ≡ some h → HasRoom c b h)
    → Within c (begun_for key m o).0
begun_for-Within c key b m none w rooms = w
begun_for-Within c key b m (some h) w rooms =
    let r = rooms h refl in
    let same : waiting h.starting_sessions ≡ waiting b.starting_sessions = ap waiting r.starts in
    record {
      room = omega (arith, r.more, same, waiting-put key h.starting_sessions);
      listed = r.all_listed;
    }

assign_new-Within :
    (c : Config) (now : ℕ) (key : String) (m : Manager) (o : Option Bool)
    → Within c m
    → Within c (assign_new c now key m o).0
assign_new-Within c now key m (some waits) w = w
assign_new-Within c now key m none w =
    begun_for-Within c key m (maybe_gc_sessions c now m) (begin_start c now m)
      (Shrinks-Within (gc-Shrinks c now m) w) (λ h e. begin-HasRoom c now m h w e)

assign_to-Within :
    (c : Config) (now : ℕ) (key : String) (m : Manager) (o : Option Session)
    → Within c m
    → ((s : Session)
        → o ≡ some s
        → (t : Session) × (get m.sessions s.id ≡ some t) × (is_stopped s.status ≡ false))
    → Within c (assign_to c now key m o).0
assign_to-Within c now key m none w found =
    assign_new-Within c now key m (get m.starting_sessions key) w
assign_to-Within c now key m (some s) w found =
    let (t, there, on) = found s refl in
    let used : Session = record s { last_used_at = now } in
    record {
      room = omega (arith, w.room, length-put_there s.id used t m.sessions there);
      listed = Entries-put IsListed s.id used m.sessions (refl, on) w.listed;
    }

reserve_within-same :
    (c : Config) (can_listen : ℕ → Bool) (k : ℕ) (m : Manager)
    → ((reserve_within c can_listen k m).0.sessions ≡ m.sessions)
      × ((reserve_within c can_listen k m).0.starting_sessions ≡ m.starting_sessions)
unfolding reserve_within
reserve_within-same c can_listen zero m = (refl, refl)
reserve_within-same c can_listen (suc k) m = ground (
  arith,
  reserve_within-same c can_listen k (record m { next_local_port = next_port c m.next_local_port }),
)

placed-Within :
    (c : Config) (now : ℕ) (key id country state city : String) (m : Manager)
    (r : Manager × Option ℕ)
    → Within c m
    → get m.starting_sessions key ≡ some true
    → r.0.sessions ≡ m.sessions
    → r.0.starting_sessions ≡ m.starting_sessions
    → Within c (placed now key id country state city r)
placed-Within c now key id country state city m (n, none) w waits same_s same_w =
    let shown : length n.sessions ≡ length m.sessions = ap length same_s in
    let wait : waiting n.starting_sessions ≡ waiting m.starting_sessions = ap waiting same_w in
    record {
      room = omega (arith, w.room, shown, wait, waiting-delete key n.starting_sessions);
      listed = subst (Entries IsListed) (sym same_s) w.listed;
    }
placed-Within c now key id country state city m (n, some port) w waits same_s same_w =
    let shown : length n.sessions ≡ length m.sessions = ap length same_s in
    let wait : waiting n.starting_sessions ≡ waiting m.starting_sessions = ap waiting same_w in
    let fresh : Session = record {
      id = id;
      local_port = port;
      country = country;
      state = state;
      city = city;
      status = starting;
      started_at = now;
      last_used_at = now;
    } in
    record {
      room = omega (
        arith,
        w.room,
        shown,
        wait,
        length-put id fresh n.sessions,
        waiting-put_placed key n.starting_sessions (rw same_w waits),
      );
      listed =
          Entries-put IsListed id fresh n.sessions (refl, refl)
            (subst (Entries IsListed) (sym same_s) w.listed);
    }

with_status-Within :
    (c : Config) (id : String) (st : Status) (m : Manager) (o : Option Session)
    → Within c m
    → get m.sessions id ≡ o
    → is_stopped st ≡ false
    → Within c (with_status id st m o)
with_status-Within c id st m none w there on = w
with_status-Within c id st m (some s) w there on =
    let (same, _) = Entries-get IsListed id s m.sessions w.listed there in
    let next : Session = record s { status = st } in
    record {
      room = omega (arith, w.room, length-put_there id next s m.sessions there);
      listed = Entries-put IsListed id next m.sessions (same, on) w.listed;
    }

Step-Within : {c : Config} {m n : Manager} → Step c m n → Within c m → Within c n
unfolding assign_session place_start reserve_port tunnel_ready tunnel_failed tunnel_exited
Step-Within {c} {m} (assigns now key country state city) w =
    let g = maybe_gc_sessions c now m in
    let wg = Shrinks-Within (gc-Shrinks c now m) w in
    let fit = is_candidate_for country state city in
    assign_to-Within c now key g (head? (sort used_before (filter fit (values g.sessions)))) wg
      λ s e. let (t, there, _, on) = chosen-found g fit used_before s wg.listed e in (t, there, on)
Step-Within {c} {m} (places can_listen now key id country state city waits) w =
    let span = c.port_max - c.port_min + 1 in
    let (same_s, same_w) = reserve_within-same c can_listen span m in
    placed-Within c now key id country state city m (reserve_within c can_listen span m) w waits
      same_s same_w
Step-Within {c} {m} (settles key) w = record {
  room = omega (arith, w.room, waiting-delete key m.starting_sessions);
  listed = w.listed;
}
Step-Within {c} {m} (readies id) w = with_status-Within c id ready m (get m.sessions id) w refl refl
Step-Within {c} {m} (fails id port) w = record {
  room = omega (arith, w.room, length-delete id m.sessions);
  listed = Entries-delete IsListed id m.sessions w.listed;
}
Step-Within {c} {m} (exits id port) w =
    with_status-Within c id failed (record m { reserved_ports = free_port port m.reserved_ports })
      (get m.sessions id) (record { room = w.room; listed = w.listed }) refl refl
Step-Within {c} {m} (stops id) w = Shrinks-Within (stop_session-Shrinks id m) w

Reach-Within : {c : Config} {m : Manager} → Reach c m → Within c m
Reach-Within start = record { room = omega arith; listed = tt }
Reach-Within (later r s) = Step-Within s (Reach-Within r)

-- Whatever the order of assignments, ports that are found, tunnels that come up, fail or end, and sessions that
-- are stopped: the sessions that are listed and the starts that wait for a port are together no more than the limit.
pub Reach-limit :
    {c : Config} {m : Manager}
    → Reach c m
    → length m.sessions + waiting m.starting_sessions ≤ c.max_sessions
Reach-limit r = (Reach-Within r).room
