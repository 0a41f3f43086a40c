-- ===== src/Proxy/BrowserPool/Journeys.antt =====
-- Two journeys are never on one proxy route.
use link_suffix.Base.{
  inl, inr, ◌==◌, ==_iff, false, Bool-cases, ◌≡◌, Bool, true, Option, none, some, String, refl,
  arith,
}
use link_suffix.Base.Maps.{get, put}
use link_suffix.Proxy.BrowserPool.{
  close_unless, with_context, without_context, lost, finish_by, release_by, Entry, release_held,
  launching, held, over, finish_open, Pool, Ticket, Phase, is_open, new_pool, begin_lease,
  finish_lease, release_lease, lose_browser, close_pool, pool_closed,
}
use link_suffix.Proxy.BrowserPool.Routes.{
  IsRouted, dropped-IsRouted, kept-IsRouted, begin-IsRouted, entries-IsRouted,
}

-- One call, or what the browsers do.
pub data Step (p : Pool) : Pool → Type 0 where
  begins :
      (id key : String) (route : Option String) {q : Pool}
      → get p.tickets id ≡ none
      → begin_lease id key route p ≡ some q
      → Step p q
  finishes : (id : String) (launched : Bool) → Step p (finish_lease id launched p)
  releases : (id : String) → Step p (release_lease id p)
  loses : (key : String) → Step p (lose_browser key p)
  closes : Step p (close_pool p)
  closed : Step p (pool_closed p)

pub data Reach : Pool → Type 0 where
  start : Reach new_pool
  later : {p q : Pool} → Reach p → Step p q → Reach q

finish-IsRouted :
    (f : Phase) (p : Pool) (id : String) (launched : Bool) (t : Ticket)
    → IsRouted p
    → get p.tickets id ≡ some t
    → t.phase ≡ f
    → IsRouted (finish_by f id launched p t)
finish-IsRouted held p id launched t x there e = x
finish-IsRouted over p id launched t x there e = x
finish-IsRouted launching p id launched t x there e =
    let on : is_open t.phase ≡ true = rw e refl in
    elim (Bool-cases (t.acquired_generation == p.generation)) [
      | inr old ↦ rw old (kept-IsRouted p id t over x there on)
      | inl now ↦ rw now (elim (Bool-cases launched) [
        | inl there_is ↦ rw there_is (
            entries-IsRouted (record p { tickets = put id (record t { phase = held }) p.tickets })
              (put t.key (with_context (get p.entries t.key)) p.entries)
              (kept-IsRouted p id t held x there on))
        | inr failed ↦
            rw failed (
              dropped-IsRouted p id t x there on
                ((==_iff t.acquired_generation p.generation).0 now))
      ])
    ]

release-IsRouted :
    (f : Phase) (p : Pool) (id : String) (t : Ticket)
    → IsRouted p
    → get p.tickets id ≡ some t
    → t.phase ≡ f
    → IsRouted (release_by f id p t)
release-IsRouted launching p id t x there e = x
release-IsRouted over p id t x there e = x
release-IsRouted held p id t x there e =
    let on : is_open t.phase ≡ true = rw e refl in
    elim (Bool-cases (t.acquired_generation == p.generation)) [
      | inr old ↦ rw old (kept-IsRouted p id t over x there on)
      | inl now ↦ rw now (
          entries-IsRouted _ (put t.key (without_context (get p.entries t.key)) p.entries) (
            dropped-IsRouted p id t x there on ((==_iff t.acquired_generation p.generation).0 now)))
    ]

finish_open-IsRouted :
    (p : Pool) (id : String) (launched : Bool) (o : Option Ticket)
    → IsRouted p
    → get p.tickets id ≡ o
    → IsRouted (finish_open id launched p o)
finish_open-IsRouted p id launched none x there = x
finish_open-IsRouted p id launched (some t) x there =
    finish-IsRouted t.phase p id launched t x there refl

release_held-IsRouted :
    (p : Pool) (id : String) (o : Option Ticket)
    → IsRouted p
    → get p.tickets id ≡ o
    → IsRouted (release_held id p o)
release_held-IsRouted p id none x there = x
release_held-IsRouted p id (some t) x there = release-IsRouted t.phase p id t x there refl

lost-IsRouted : (p : Pool) (key : String) (o : Option Entry) → IsRouted p → IsRouted (lost key p o)
lost-IsRouted p key none x = x
lost-IsRouted p key (some e) x =
    entries-IsRouted p (put key (record e { connected = false; idle_timer = false }) p.entries) x

-- The pool of a new generation has no ticket yet.
close-IsRouted : (again : Bool) (p : Pool) → IsRouted p → IsRouted (close_unless again p)
close-IsRouted true p x = x
close-IsRouted false p x = record {
  tracked = λ id t route f act same r. absurd (omega (arith, x.begun id t f, same));
  begun = λ id t f. omega (arith, x.begun id t f);
}

Step-IsRouted : {p q : Pool} → Step p q → IsRouted p → IsRouted q
unfolding close_pool finish_lease release_lease lose_browser
Step-IsRouted {p} {q} (begins id key route new made) x = begin-IsRouted p q id key route x new made
Step-IsRouted {p} (finishes id launched) x =
    finish_open-IsRouted p id launched (get p.tickets id) x refl
Step-IsRouted {p} (releases id) x = release_held-IsRouted p id (get p.tickets id) x refl
Step-IsRouted {p} (loses key) x = lost-IsRouted p key (get p.entries key) x
Step-IsRouted {p} closes x = close-IsRouted p.closing p x
Step-IsRouted {p} closed x = record { tracked = x.tracked; begun = x.begun }

Reach-IsRouted : {p : Pool} → Reach p → IsRouted p
unfolding get
Reach-IsRouted start = record {
  tracked = λ id t route f. ground (arith, f);
  begun = λ id t f. ground (arith, f);
}
Reach-IsRouted (later r s) = Step-IsRouted s (Reach-IsRouted r)

-- However calls, launches, releases, losses of browsers and shutdowns follow each other, two tickets of the
-- present generation that are open, waiting for a browser or holding one, are not on one proxy route.
pub Reach-one_route :
    {p : Pool}
    → Reach p
    → (id jd : String) (t u : Ticket) (route : String) → get p.tickets id ≡ some t
    → get p.tickets jd ≡ some u
    → is_open t.phase ≡ true
    → is_open u.phase ≡ true
    → t.acquired_generation ≡ p.generation
    → u.acquired_generation ≡ p.generation
    → t.proxy_route ≡ some route
    → u.proxy_route ≡ some route
    → id ≡ jd
Reach-one_route r id jd t u route there there' on on' now now' on_route on_route' =
    let x = Reach-IsRouted r in
    ground (
      arith,
      x.tracked id t route there on now on_route,
      x.tracked jd u route there' on' now' on_route',
    )
