-- ===== src/Proxy/Coordinator/Returned.antt =====
-- A lease that a request was given is released at once: the endpoints and locks that were free are free again.
use link_suffix.Base.{
  ℕ, suc, ◌+◌, ◌≡◌, refl, sym, ap, subst, ◌∙◌, ◌⊎◌, inl, inr, true, false, List, [], ◌∷◌, Option,
  none, some, String, Bool-cases, Option-cases, arith, eq_iff,
}
use link_suffix.Base.Maps.{get, put, get-put, get-put_at, get-delete_at}
use link_suffix.Proxy.Leases.{
  Lease, LeaseState, Repository, released, reserve, release, endpoint_lease, is_held_by, Holder,
}
use link_suffix.Proxy.Locks.{Locks, Held, is_held, acquire_lock, release_lock}
use link_suffix.Proxy.Coordinator.{
  Request, Desk, acquired, unavailable, no_endpoints, terms_of, own_holder, try_lock, attempt,
  attempts, acquire_from, acquire, distinct, lock_key, lock_value, bounded_ttl, release_desk,
}
use link_suffix.Proxy.Coordinator.Given.{
  is_free, is_unlocked, Reserved, reserve_over-Reserved, back-leaves, new_held, attempt-leaves,
}
use link_suffix.Proxy.Coordinator.Progress.{acquire-gives_back}

-- An endpoint is free, and nobody holds its lock for the provider.
abbrev pub IsOpen : ℕ → String → String → Desk → Type 0
IsOpen now provider endpoint s =
    (is_free now endpoint s.repository ≡ true) × (is_unlocked now provider endpoint s.locks ≡ true)

-- A lock that is taken and released is as it was, or gone.
unlocked-again :
    (now : ℕ) (key value : String) (ttl : ℕ) (ls : Locks) (provider endpoint : String)
    → is_held now (get ls key) ≡ false
    → is_unlocked now provider endpoint ls ≡ true
    → is_unlocked now provider endpoint
        (release_lock key value (acquire_lock now key value ttl ls).0).0
      ≡ true
unfolding acquire_lock release_lock
unlocked-again now key value ttl ls provider endpoint open_lock free =
    let held : Held = record { value = value; expires_at = now + ttl } in
    ground (
      arith,
      open_lock,
      free,
      eq_iff value value,
      get-put key held ls,
      get-put_at (lock_key provider endpoint) key held ls,
      get-delete_at (lock_key provider endpoint) key (put key held ls),
    )

release-held :
    (now : ℕ) (k : Holder) (l : Lease) (st : LeaseState) (r : Repository)
    → get r.leases k.lease_id ≡ some l
    → is_held_by k l ≡ true
    → (release now k st r).1 ≡ true
unfolding release
release-held now k l st r there mine = ground (arith, there, mine)

module _ (owner : String) (name_of : ℕ → String) (now : ℕ) (q : Request) where
  -- What a lock that is got adds to the store.
  locked : Desk → Repository → Lease → Desk
  locked s r l = record {
    repository = r;
    locks =
        (acquire_lock now (lock_key l.provider_id l.endpoint_key) (lock_value l)
          (bounded_ttl q.ttl_ms) s.locks).0;
    drawn = suc s.drawn;
  }

  try_lock-locked :
      (s : Desk) (r : Repository) (o : Option Lease) (l : Lease)
      → (try_lock owner name_of now q (record s { repository = r; drawn = suc s.drawn }) o).1
        ≡ some l
      → (o ≡ some l)
        × (is_held now (get s.locks (lock_key l.provider_id l.endpoint_key)) ≡ false)
        × ((try_lock owner name_of now q (record s { repository = r; drawn = suc s.drawn }) o).0
            ≡ locked s r l)
  unfolding acquire_lock locked
  try_lock-locked s r none l e = absurd (ground (arith, e))
  try_lock-locked s r (some k) l e =
      elim (Bool-cases (is_held now (get s.locks (lock_key k.provider_id k.endpoint_key)))) [
        | inl held ↦ absurd (ground (arith, held, e))
        | inr open_lock ↦
            let same : k ≡ l = ground (arith, open_lock, e) in
            (
              ap some same,
              subst (λ m. is_held now (get s.locks (lock_key m.provider_id m.endpoint_key)) ≡ false)
                  same open_lock,
              subst
                  (λ m.
                    (try_lock owner name_of now q (record s { repository = r; drawn = suc s.drawn })
                      (some k)).0
                    ≡ locked s r m)
                  same (rw open_lock refl),
            )
      ]

  -- The lease of an endpoint that was got, with its lock, is released at once.
  back-IsOpen :
      (endpoint other provider : String) (s : Desk) (got : Repository × Option Lease) (l : Lease)
      → Reserved now (terms_of owner name_of q endpoint s.drawn) s.repository got
      → got.1 ≡ some l
      → is_held now (get s.locks (lock_key l.provider_id l.endpoint_key)) ≡ false
      → IsOpen now provider other s
      → IsOpen now provider other (release_desk owner name_of now l released (locked s got.0 l)).0
  unfolding release_desk locked
  back-IsOpen endpoint other provider s got l R e open_lock free =
      let (is_new, there) = R.given l e in
      let mine : is_held_by (own_holder owner name_of l) l ≡ true =
        rw is_new (new_held owner name_of now q endpoint s.drawn (suc s.repository.fence)) in
      let named : get got.0.leases l.lease_id ≡ some l = ground (arith, there, is_new) in
      rw (release-held now (own_holder owner name_of l) l released got.0 named mine) (
        back-leaves owner name_of now q endpoint other s got l R e free.0,
        unlocked-again now (lock_key l.provider_id l.endpoint_key) (lock_value l)
            (bounded_ttl q.ttl_ms) s.locks provider other open_lock free.1,
      )

  attempt-IsOpen :
      (endpoint other provider : String) (s : Desk) (l : Lease)
      → (attempt owner name_of now q endpoint s).1 ≡ some l
      → IsOpen now provider other s
      → IsOpen now provider other
          (release_desk owner name_of now l released (attempt owner name_of now q endpoint s).0).0
  unfolding attempt reserve
  attempt-IsOpen endpoint other provider s l e free =
      let t = terms_of owner name_of q endpoint s.drawn in
      let got = reserve now t s.repository in
      let (given, open_lock, same) = try_lock-locked s got.0 got.1 l e in
      subst (λ d. IsOpen now provider other (release_desk owner name_of now l released d).0)
        (sym same)
        (back-IsOpen endpoint other provider s got l
          (reserve_over-Reserved now t s.repository (endpoint_lease s.repository endpoint)) given
          open_lock free)

  attempts-IsOpen :
      (ks : List String) (other provider : String) (s : Desk) (l : Lease)
      → (attempts owner name_of now q ks s).1 ≡ acquired l
      → IsOpen now provider other s
      → IsOpen now provider other
          (release_desk owner name_of now l released (attempts owner name_of now q ks s).0).0
  unfolding attempts
  attempts-IsOpen [] other provider s l e free = absurd (ground (arith, e))
  attempts-IsOpen (k ∷ ks) other provider s l e free =
      elim (Option-cases (attempt owner name_of now q k s).1) [
        | inr (m, took) ↦
            let same : m ≡ l = ground (arith, took, e) in
            rw (attempts, took) (attempt-IsOpen k other provider s l (took ∙ ap some same) free)
        | inl failed ↦
            let (still, locks) = attempt-leaves owner name_of now q k other s failed free.0 in
            rw (attempts, failed)
              (attempts-IsOpen ks other provider (attempt owner name_of now q k s).0 l
                (ground (arith, failed, e)) (still, rw locks free.1))
      ]

  attempts-endpoints :
      (ks : List String) (s : Desk) → (attempts owner name_of now q ks s).1 ≡ no_endpoints → ⊥
  unfolding attempts
  attempts-endpoints [] s e = ground (arith, e)
  attempts-endpoints (k ∷ ks) s e = elim (Option-cases (attempt owner name_of now q k s).1) [
    | inr (m, took) ↦ ground (arith, took, e)
    | inl failed ↦
        attempts-endpoints ks (attempt owner name_of now q k s).0 (ground (arith, failed, e))
  ]

  from-IsOpen :
      (ks : List String) (other provider : String) (s : Desk) (l : Lease)
      → (acquire_from owner name_of now q ks s).1 ≡ acquired l
      → IsOpen now provider other s
      → IsOpen now provider other
          (release_desk owner name_of now l released (acquire_from owner name_of now q ks s).0).0
  from-IsOpen [] other provider s l e free = absurd (ground (arith, e))
  from-IsOpen (k ∷ ks) other provider s l e free =
      attempts-IsOpen (k ∷ ks) other provider s l e free

  from-same :
      (ks : List String) (s : Desk)
      → (acquire_from owner name_of now q ks s).1 ≡ no_endpoints
      → (acquire_from owner name_of now q ks s).0 ≡ s
  from-same [] s e = refl
  from-same (k ∷ ks) s e = absurd (attempts-endpoints (k ∷ ks) s e)

  -- After a lease that was got is released, every endpoint that was open before the request is open.
  pub acquire-IsOpen :
      (other provider : String) (s : Desk) (l : Lease)
      → (acquire owner name_of now q s).1 ≡ acquired l
      → IsOpen now provider other s
      → IsOpen now provider other
          (release_desk owner name_of now l released (acquire owner name_of now q s).0).0
  unfolding acquire
  acquire-IsOpen other provider s l e free =
      from-IsOpen (distinct q.endpoint_keys) other provider s l e free

  -- A request that is not served leaves every open endpoint open.
  pub refused-IsOpen :
      (other provider : String) (s : Desk)
      → ((acquire owner name_of now q s).1 ≡ unavailable)
        ⊎ ((acquire owner name_of now q s).1 ≡ no_endpoints)
      → IsOpen now provider other s
      → IsOpen now provider other (acquire owner name_of now q s).0
  unfolding acquire
  refused-IsOpen other provider s (inl e) free =
      let (still, locks) = acquire-gives_back owner name_of now q s other e free.0 in
      (still, rw locks free.1)
  refused-IsOpen other provider s (inr e) free = rw (from-same (distinct q.endpoint_keys) s e) free
