-- ===== src/Proxy/Sessions/Burst.antt =====
-- Starts that are not asked for by an assignment are not counted until their session is listed.
use link_suffix.Base.{
  ◌∙◌, ℕ, ◌≡◌, ◌<◌, Bool, true, false, List, [], ◌∷◌, none, some, arith, refl, length,
}
use link_suffix.Proxy.Sessions.Shrink.{gc-Shrinks}
use link_suffix.Proxy.Sessions.{Config, Manager, begin_start, maybe_gc_sessions}

-- Starts that begin one after the other at the given instants, none of which has its port yet.
unfoldable pub all_begin : Config → List ℕ → Manager → Bool
unfolding begin_start
all_begin c [] m = true
all_begin c (now ∷ later) m = elim (begin_start c now m) [
  | none ↦ false
  | some g ↦ all_begin c later g
]

-- Nothing is listed, and no assignment waits.
record IsIdle (m : Manager) : Type 0 where
  none_listed : m.sessions ≡ []
  none_waits : m.starting_sessions ≡ []

nil-of : {A : Type 0} (xs : List A) → length xs ≡ 0 → xs ≡ []
nil-of [] h = refl
nil-of (x ∷ xs) h = absurd (ground arith)

gc-IsIdle : (c : Config) (now : ℕ) (m : Manager) → IsIdle m → IsIdle (maybe_gc_sessions c now m)
gc-IsIdle c now m h =
    let p = gc-Shrinks c now m in
    record {
      none_listed =
          nil-of (maybe_gc_sessions c now m).sessions (ground (arith, h.none_listed, p.fewer));
      none_waits = p.same_starts ∙ h.none_waits;
    }

begin-IsIdle :
    (c : Config) (now : ℕ) (m : Manager)
    → 0 < c.max_sessions
    → IsIdle m
    → begin_start c now m ≡ some (maybe_gc_sessions c now m)
unfolding begin_start
begin-IsIdle c now m room h = ground (arith, gc-IsIdle c now m h)

-- With room for one session, all starts that begin while nothing is listed are admitted, however many they
-- are and whatever the limit on sessions is: the limit counts those that are listed.
pub burst-admitted :
    (c : Config) (m : Manager) (nows : List ℕ)
    → 0 < c.max_sessions
    → m.sessions ≡ []
    → m.starting_sessions ≡ []
    → all_begin c nows m ≡ true
unfolding all_begin
burst-admitted c m [] room s w = refl
burst-admitted c m (now ∷ later) room s w =
    let idle = gc-IsIdle c now m (record { none_listed = s; none_waits = w }) in
    rw (all_begin, begin-IsIdle c now m room (record { none_listed = s; none_waits = w }))
      (burst-admitted c (maybe_gc_sessions c now m) later room idle.none_listed idle.none_waits)
