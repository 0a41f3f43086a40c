-- ===== src/Proxy/Coordinator/Given.antt =====
-- One endpoint of a request: what an attempt leaves alone, and when it takes it.
use link_suffix.Base.{
  not, ap, eq_iff, true, ℕ, suc, ◌≡◌, false, some, none, Option, String, Bool, refl, inl, inr,
  str_eq, arith, Bool-cases,
}
use link_suffix.Base.Maps.{get, get-put, get-put_at, get-delete_at}
use link_suffix.Proxy.Leases.{
  released, lease_under, is_held_by, Terms, Lease, Repository, expired, ended, granted, new_lease,
  endpoint_lease, reserve_over, is_live, reserve, release, Holder,
}
use link_suffix.Proxy.Locks.{Locks, is_held, acquire_lock}
use link_suffix.Proxy.Coordinator.{try_lock, terms_of, own_holder, Desk, attempt, Request, lock_key}

abbrev is_live_lease : ℕ → Option Lease → Bool
is_live_lease now none = false
is_live_lease now (some l) = is_live now l

-- No live lease stands where the endpoint leads.
abbrev pub is_free : ℕ → String → Repository → Bool
is_free now endpoint r = not (is_live_lease now (endpoint_lease r endpoint))

-- Nobody holds the lock of the endpoint.
abbrev pub is_unlocked : ℕ → String → String → Locks → Bool
is_unlocked now provider endpoint ls = not (is_held now (get ls (lock_key provider endpoint)))

-- What a reservation leaves alone, and what it gives.
pub record Reserved (now : ℕ) (t : Terms) (r : Repository) (got : Repository × Option Lease)
    : Type 0 where
  pub refused : got.1 ≡ none → got.0 ≡ r
  pub given :
      (l : Lease)
      → got.1 ≡ some l
      → (l ≡ new_lease now t (suc r.fence)) × (get got.0.leases t.lease_id ≡ some l)
  pub elsewhere :
      (endpoint : String)
      → str_eq t.endpoint_key endpoint ≡ false
      → get got.0.active_endpoints endpoint ≡ get r.active_endpoints endpoint
  pub others :
      (id : String)
      → str_eq t.lease_id id ≡ false
      → is_live_lease now (get r.leases id) ≡ false
      → is_live_lease now (get got.0.leases id) ≡ false

granted-Reserved : (now : ℕ) (t : Terms) (r : Repository) → Reserved now t r (granted now t r)
granted-Reserved now t r = record {
  refused = λ e. ground arith;
  given = λ l e. ground (arith, get-put t.lease_id (new_lease now t (suc r.fence)) r.leases);
  elsewhere = λ endpoint e.
      ground (arith, get-put_at endpoint t.endpoint_key t.lease_id r.active_endpoints);
  others = λ id other h.
      ground (arith, get-put_at id t.lease_id (new_lease now t (suc r.fence)) r.leases);
}

pub reserve_over-Reserved :
    (now : ℕ) (t : Terms) (r : Repository) (o : Option Lease)
    → Reserved now t r (reserve_over now t r o)
reserve_over-Reserved now t r none = granted-Reserved now t r
reserve_over-Reserved now t r (some l) = elim (Bool-cases (is_live now l)) [
  | inl live ↦ rw live (record {
    refused = λ e. refl;
    given = λ m e. ground arith;
    elsewhere = λ endpoint e. refl;
    others = λ id other h. h;
  })
  | inr over ↦ rw over (record {
    refused = λ e. ground arith;
    given = λ m e. ground (arith, again.given m e);
    elsewhere = λ endpoint e. ground (
      arith,
      again.elsewhere endpoint e,
      get-delete_at endpoint t.endpoint_key r.active_endpoints,
    );
    others = λ id other h.
        again.others id other
          (ground (arith, h, get-put_at id l.lease_id (record l { state = expired }) r.leases));
  })
]
  where
    again :
        Reserved now t
          (ended l expired t.endpoint_key r)
          (granted now t (ended l expired t.endpoint_key r))
    again = granted-Reserved now t (ended l expired t.endpoint_key r)

-- What is given back is gone, and nothing else has changed.
gone : ℕ → Lease → Repository → Repository
gone now l r = ended (record l { released_at = some now }) released l.endpoint_key r

release-gone :
    (now : ℕ) (h : Holder) (l : Lease) (r : Repository)
    → get r.leases h.lease_id ≡ some l
    → is_held_by h l ≡ true
    → (release now h released r).0 ≡ gone now l r
unfolding release gone
release-gone now h l r there mine = ground (arith, there, mine)

under-not-live :
    (now : ℕ) (t : Terms) (r : Repository) (got : Repository × Option Lease) (l : Lease)
    (k : Option String)
    → Reserved now t r got
    → l.lease_id ≡ t.lease_id
    → is_live_lease now (lease_under r k) ≡ false
    → is_live_lease now (lease_under (gone now l got.0) k) ≡ false
unfolding gone
under-not-live now t r got l none R same h = refl
under-not-live now t r got l (some id) R same h = ground (
  arith,
  R.others id,
  eq_iff l.lease_id id,
  eq_iff t.lease_id id,
  get-put_at id l.lease_id (record l { released_at = some now; state = released }) got.0.leases,
)

gone-is_free :
    (now : ℕ) (t : Terms) (r : Repository) (got : Repository × Option Lease) (l : Lease)
    (other : String)
    → Reserved now t r got
    → l.terms ≡ t
    → is_free now other r ≡ true
    → is_free now other (gone now l got.0) ≡ true
unfolding gone
gone-is_free now t r got l other R same free = elim (Bool-cases (str_eq t.endpoint_key other)) [
  | inl here ↦ ground (arith, same, get-delete_at other l.endpoint_key got.0.active_endpoints)
  | inr differ ↦
      let kept : get (gone now l got.0).active_endpoints other ≡ get r.active_endpoints other =
        ground (
          arith,
          same,
          R.elsewhere other differ,
          get-delete_at other l.endpoint_key got.0.active_endpoints,
        ) in
      rw kept (
        ground (
          arith,
          free,
          under-not-live now t r got l (get r.active_endpoints other) R
              (ap (λ (x : Terms). x.lease_id) same),
        ))
]

module _ (owner : String) (name_of : ℕ → String) (now : ℕ) (q : Request) where
  pub new_held :
      (endpoint : String) (n fence : ℕ)
      → let l = new_lease now (terms_of owner name_of q endpoint n) fence in
        is_held_by (own_holder owner name_of l) l ≡ true
  new_held endpoint n fence = ground (arith, eq_iff owner owner)

  -- The lock of a reserved endpoint is taken by another.
  pub back-leaves :
      (endpoint other : String) (s : Desk) (got : Repository × Option Lease) (l : Lease)
      → Reserved now (terms_of owner name_of q endpoint s.drawn) s.repository got
      → got.1 ≡ some l
      → is_free now other s.repository ≡ true
      → is_free now other (release now (own_holder owner name_of l) released got.0).0 ≡ true
  back-leaves endpoint other s got l R e free =
      let (is_new, there) = R.given l e in
      let mine : is_held_by (own_holder owner name_of l) l ≡ true =
        rw is_new (new_held endpoint s.drawn (suc s.repository.fence)) in
      let named : get got.0.leases l.lease_id ≡ some l = ground (arith, there, is_new) in
      rw (release-gone now (own_holder owner name_of l) l got.0 named mine) (
        gone-is_free now (terms_of owner name_of q endpoint s.drawn) s.repository got l other R
          (ap (λ (x : Lease). x.terms) is_new) free)

  try_lock-leaves :
      (endpoint other : String) (s : Desk) (got : Repository × Option Lease) (o : Option Lease)
      → Reserved now (terms_of owner name_of q endpoint s.drawn) s.repository got
      → got.1 ≡ o
      → is_free now other s.repository ≡ true
      → let after =
          try_lock owner name_of now q (record s { repository = got.0; drawn = suc s.drawn }) o in
        after.1 ≡ none → (is_free now other after.0.repository ≡ true) × (after.0.locks ≡ s.locks)
  unfolding acquire_lock
  try_lock-leaves endpoint other s got none R e free failed = (rw (R.refused e) free, refl)
  try_lock-leaves endpoint other s got (some l) R e free failed =
      elim (Bool-cases (is_held now (get s.locks (lock_key l.provider_id l.endpoint_key)))) [
        | inl held ↦ rw held (back-leaves endpoint other s got l R e free, refl)
        | inr open_lock ↦ absurd (ground (arith, open_lock))
      ]

  -- A refused or given back endpoint leaves the others free, and every lock as it was.
  pub attempt-leaves :
      (endpoint other : String) (s : Desk)
      → (attempt owner name_of now q endpoint s).1 ≡ none
      → is_free now other s.repository ≡ true
      → (is_free now other (attempt owner name_of now q endpoint s).0.repository ≡ true)
        × ((attempt owner name_of now q endpoint s).0.locks ≡ s.locks)
  unfolding attempt reserve
  attempt-leaves endpoint other s failed free =
      let t = terms_of owner name_of q endpoint s.drawn in
      try_lock-leaves endpoint other s (reserve now t s.repository) (reserve now t s.repository).1
        (reserve_over-Reserved now t s.repository (endpoint_lease s.repository endpoint)) refl free
        failed

  try_lock-takes :
      (s : Desk) (l : Lease)
      → is_unlocked now l.provider_id l.endpoint_key s.locks ≡ true
      → (try_lock owner name_of now q s (some l)).1 ≡ some l
  unfolding acquire_lock
  try_lock-takes s l open_lock = ground arith

  reserve-takes :
      (t : Terms) (r : Repository) (o : Option Lease)
      → not (is_live_lease now o) ≡ true
      → (reserve_over now t r o).1 ≡ some (new_lease now t (suc r.fence))
  reserve-takes t r none h = refl
  reserve-takes t r (some l) h = ground arith

  pub attempt-takes :
      (endpoint : String) (s : Desk)
      → is_free now endpoint s.repository ≡ true
      → is_unlocked now q.provider_id endpoint s.locks ≡ true
      → (l : Lease) × ((attempt owner name_of now q endpoint s).1 ≡ some l)
  unfolding attempt reserve
  attempt-takes endpoint s free open_lock =
      let t = terms_of owner name_of q endpoint s.drawn in
      let l = new_lease now t (suc s.repository.fence) in
      (
        l,
        rw (reserve-takes t s.repository (endpoint_lease s.repository endpoint) free) (
            try_lock-takes
              (record s { repository = (reserve now t s.repository).0; drawn = suc s.drawn }) l
              open_lock),
      )
