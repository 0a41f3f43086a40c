-- ===== src/Proxy/Sessions/Room.antt =====
-- Why a start that begins leaves room: the limit counts the sessions and the starts that wait.
use link_suffix.Base.{
  List, All-head, All-filter, ap, subst, ℕ, suc, ◌+◌, ◌≡◌, ◌≤◌, Bool, true, false, [], ◌∷◌, Option,
  none, some, String, arith, refl, inl, inr, Bool-cases, Option-cases, length, All, leb, head?,
  filter, not, ◌∙◌,
}
use link_suffix.Base.Maps.{
  Entries-values, Map, get, put, delete, has, values, Entries, Entries-get, has_self,
  length-delete_there,
}
use link_suffix.Base.Sorting.{sort, All-sort}
use link_suffix.Proxy.Sessions.{
  used_before, is_starting, make_room, is_stopped, Config, Manager, Session, stop_session,
  oldest_session, begin_start, maybe_gc_sessions,
}
use link_suffix.Proxy.Sessions.Shrink.{IsListed, Shrinks, stop_session-Shrinks, gc-Shrinks}

-- How many starts still wait for a port.
abbrev pub waiting : Map Bool → ℕ
waiting [] = 0
waiting ((k, true) ∷ m) = suc (waiting m)
waiting ((k, false) ∷ m) = waiting m

waiting-le : (m : Map Bool) → waiting m ≤ length m
waiting-le [] = omega arith
waiting-le ((k, true) ∷ m) = omega (arith, waiting-le m)
waiting-le ((k, false) ∷ m) = omega (arith, waiting-le m)

pub waiting-delete : (k : String) (m : Map Bool) → waiting (delete k m) ≤ waiting m
unfolding delete
waiting-delete k [] = omega arith
waiting-delete k ((j, true) ∷ m) = ground (arith, waiting-delete k m)
waiting-delete k ((j, false) ∷ m) = ground (arith, waiting-delete k m)

pub waiting-put : (k : String) (m : Map Bool) → waiting (put k true m) ≤ suc (waiting m)
unfolding put
waiting-put k [] = omega arith
waiting-put k ((j, true) ∷ m) = ground (arith, waiting-put k m)
waiting-put k ((j, false) ∷ m) = ground (arith, waiting-put k m)

pub waiting-put_placed :
    (k : String) (m : Map Bool) → get m k ≡ some true → suc (waiting (put k false m)) ≤ waiting m
unfolding put get
waiting-put_placed k [] h = absurd (ground arith)
waiting-put_placed k ((j, true) ∷ m) h = ground (arith, waiting-put_placed k m)
waiting-put_placed k ((j, false) ∷ m) h = ground (arith, waiting-put_placed k m)

-- Listed sessions and those that will be listed stay within the limit.
pub record Within (c : Config) (m : Manager) : Type 0 where
  pub room : length m.sessions + waiting m.starting_sessions ≤ c.max_sessions
  pub listed : Entries IsListed m.sessions

pub Shrinks-Within : {c : Config} {m n : Manager} → Shrinks m n → Within c m → Within c n
Shrinks-Within {c} {m} {n} p w = record {
  room =
      let same : waiting n.starting_sessions ≡ waiting m.starting_sessions =
        ap waiting p.same_starts in
      omega (arith, w.room, p.fewer, same);
  listed = p.keeps w.listed;
}

found-from :
    (m n : Map Session)
    → Entries IsListed m
    → Entries (λ a s. has n a ≡ true) m
    → All (λ s. has n s.id ≡ true) (values m)
found-from [] n h k = tt
found-from ((a, s) ∷ m) n h k = (rw h.0.0 k.0, found-from m n h.1 k.1)

first-has :
    (P : Session → Type 0) (ss : List Session) (p : Session → Bool)
    (less : Session → Session → Bool) (s : Session)
    → All P ss
    → head? (sort less (filter p ss)) ≡ some s
    → P s
first-has P ss p less s h e =
    All-head P (sort less (filter p ss)) s (All-sort less P (filter p ss) (All-filter P p ss h)) e

-- A session that is first in some order of some of the sessions is found under its name, and on.
pub chosen-found :
    (m : Manager) (p : Session → Bool) (less : Session → Session → Bool) (s : Session)
    → Entries IsListed m.sessions
    → head? (sort less (filter p (values m.sessions))) ≡ some s
    → (t : Session) × (get m.sessions s.id ≡ some t)
      × (is_stopped t.status ≡ false)
      × (is_stopped s.status ≡ false)
chosen-found m p less s h e =
    let found =
      first-has (λ x. has m.sessions x.id ≡ true) (values m.sessions) p less s
        (found-from m.sessions m.sessions h (has_self m.sessions)) e in
    let on =
      first-has (λ x. is_stopped x.status ≡ false) (values m.sessions) p less s
        (Entries-values IsListed (λ x. is_stopped x.status ≡ false) (λ a x k. k.1) m.sessions h)
        e in
    elim (Option-cases (get m.sessions s.id)) [
      | inl nothing ↦ absurd (ground (arith, found, nothing))
      | inr (t, there) ↦ (t, there, (Entries-get IsListed s.id t m.sessions h there).1, on)
    ]

stop-fewer :
    (m : Manager) (id : String) (t : Session)
    → get m.sessions id ≡ some t
    → is_stopped t.status ≡ false
    → suc (length (stop_session id m).sessions) ≤ length m.sessions
unfolding stop_session
stop-fewer m id t there on = ground (arith, there, on, length-delete_there id m.sessions t there)

-- A start that begins leaves room for its session.
pub record HasRoom (c : Config) (m g : Manager) : Type 0 where
  pub more : length g.sessions + suc (waiting m.starting_sessions) ≤ c.max_sessions
  pub starts : g.starting_sessions ≡ m.starting_sessions
  pub all_listed : Entries IsListed g.sessions

room-HasRoom :
    (c : Config) (m g h : Manager) (o : Option Session)
    → Within c m
    → Shrinks m g
    → oldest_session c g ≡ o
    → make_room c g o ≡ some h
    → HasRoom c m h
unfolding oldest_session
room-HasRoom c m g h none w p e made = absurd (ground arith)
room-HasRoom c m g h (some s) w p e made =
    let (t, there, on, _) =
      chosen-found g (λ x. not (is_starting x.status)) used_before s (p.keeps w.listed) e in
    let q = stop_session-Shrinks s.id g in
    let is_h : stop_session s.id g ≡ h = ground arith in
    subst (HasRoom c m) is_h (record {
      more = omega (arith, w.room, p.fewer, stop-fewer g s.id t there on);
      starts = q.same_starts ∙ p.same_starts;
      all_listed = q.keeps (p.keeps w.listed);
    })

pub begin-HasRoom :
    (c : Config) (now : ℕ) (m h : Manager)
    → Within c m
    → begin_start c now m ≡ some h
    → HasRoom c m h
unfolding begin_start
begin-HasRoom c now m h w begun_h =
    let g = maybe_gc_sessions c now m in
    let p = gc-Shrinks c now m in
    elim (Bool-cases (leb c.max_sessions (length g.sessions + length g.starting_sessions))) [
      | inl crowded ↦
          room-HasRoom c m g h (oldest_session c g) w p refl (ground (arith, crowded, begun_h))
      | inr free ↦
          let is_h : g ≡ h = ground (arith, free, begun_h) in
          let same : length g.starting_sessions ≡ length m.starting_sessions =
            ap length p.same_starts in
          subst (HasRoom c m) is_h (record {
            more = ground (arith, free, same, waiting-le m.starting_sessions);
            starts = p.same_starts;
            all_listed = p.keeps w.listed;
          })
    ]
