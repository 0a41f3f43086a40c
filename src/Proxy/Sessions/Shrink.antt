-- ===== src/Proxy/Sessions/Shrink.antt =====
-- What stopping sessions does to a manager, and so a clean-up.
use link_suffix.Base.{
  false, leb, ◌+◌, filter, ◌∙◌, ltb, ℕ, ◌≡◌, ◌≤◌, List, [], ◌∷◌, Option, none, some, String, arith,
  refl, inl, inr, Bool-cases, length,
}
use link_suffix.Base.Maps.{Entries, Entries-delete, values, get, length-delete}
use link_suffix.Proxy.Sessions.{
  surplus, is_stopped, is_due, stop_found, Config, Manager, Session, stop_session, stop_all,
  prune_sessions, maybe_gc_sessions,
}

-- Each session is listed under its own name, and is not one that was stopped.
abbrev pub IsListed : String → Session → Type 0
IsListed id s = (s.id ≡ id) × (is_stopped s.status ≡ false)

-- No session is added, and the starts and the next port stay.
pub record Shrinks (m n : Manager) : Type 0 where
  pub fewer : length n.sessions ≤ length m.sessions
  pub same_starts : n.starting_sessions ≡ m.starting_sessions
  pub keeps : Entries IsListed m.sessions → Entries IsListed n.sessions
  pub same_port : n.next_local_port ≡ m.next_local_port

Shrinks-refl : (m : Manager) → Shrinks m m
Shrinks-refl m = record {
  fewer = omega arith;
  same_starts = refl;
  keeps = λ h. h;
  same_port = refl;
}

Shrinks-trans : {l m n : Manager} → Shrinks l m → Shrinks m n → Shrinks l n
Shrinks-trans p q = record {
  fewer = omega (arith, p.fewer, q.fewer);
  same_starts = q.same_starts ∙ p.same_starts;
  keeps = λ h. q.keeps (p.keeps h);
  same_port = q.same_port ∙ p.same_port;
}

stop_found-Shrinks :
    (id : String) (m : Manager) (o : Option Session) → Shrinks m (stop_found id m o)
stop_found-Shrinks id m none = Shrinks-refl m
stop_found-Shrinks id m (some s) = elim (Bool-cases (is_stopped s.status)) [
  | inl over ↦ rw over (Shrinks-refl m)
  | inr on ↦ rw on (record {
    fewer = length-delete id m.sessions;
    same_starts = refl;
    keeps = Entries-delete IsListed id m.sessions;
    same_port = refl;
  })
]

pub stop_session-Shrinks : (id : String) (m : Manager) → Shrinks m (stop_session id m)
unfolding stop_session
stop_session-Shrinks id m = stop_found-Shrinks id m (get m.sessions id)

stop_all-Shrinks : (ss : List Session) (m : Manager) → Shrinks m (stop_all ss m)
unfolding stop_all
stop_all-Shrinks [] m = Shrinks-refl m
stop_all-Shrinks (s ∷ ss) m =
    Shrinks-trans (stop_session-Shrinks s.id m) (stop_all-Shrinks ss (stop_session s.id m))

prune-Shrinks : (c : Config) (now : ℕ) (m : Manager) → Shrinks m (prune_sessions c now m)
unfolding prune_sessions
prune-Shrinks c now m =
    let due = filter (is_due c now) (values m.sessions) in
    let m' = stop_all due m in
    elim (Bool-cases (leb (length m'.sessions) c.max_sessions)) [
      | inl small ↦ rw small (stop_all-Shrinks due m)
      | inr large ↦
          rw large (Shrinks-trans (stop_all-Shrinks due m) (stop_all-Shrinks (surplus c m') m'))
    ]

-- A clean-up only stops sessions.
pub gc-Shrinks : (c : Config) (now : ℕ) (m : Manager) → Shrinks m (maybe_gc_sessions c now m)
unfolding maybe_gc_sessions
gc-Shrinks c now m = elim (Bool-cases (ltb now m.next_gc)) [
  | inl early ↦ rw early (Shrinks-refl m)
  | inr late ↦
      let p = prune-Shrinks c now (record m { next_gc = now + c.gc_interval_ms }) in
      rw late (record {
        fewer = p.fewer;
        same_starts = p.same_starts;
        keeps = p.keeps;
        same_port = p.same_port;
      })
]
