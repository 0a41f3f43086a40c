-- ===== src/Proxy/Leases/Fenced.antt =====
-- A lease that has ended stays as it is, whatever is called after.
use link_suffix.Base.Maps.{get, get-put_at, keys}
use link_suffix.Base.{
  ◌+◌, ℕ, suc, ◌≡◌, ◌&&◌, true, false, List, [], ◌∷◌, some, none, Option, String, refl, inl, inr,
  ltb, arith, Bool-cases, eq_iff,
}
use link_suffix.Proxy.Leases.{
  new_lease, expired, is_due, ended, is_held_by, reap_expired, is_live, endpoint_lease, is_active,
  granted, reap_lease, release, release_lease, renew_lease, reap_each, renew, LeaseState, reserve,
  Holder, Terms, Repository, Lease,
}
use link_suffix.Proxy.Leases.Exclusive.{IsExclusive, endpoint_lease-active}
use link_suffix.Proxy.Leases.Calls.{reap_lease-IsExclusive}
use link_suffix.Proxy.Leases.History.{
  Step, Steps, here, next, reserves, renews, releases, reaps, Steps-IsExclusive,
}

-- The lease under a name, which is over.
abbrev pub IsOver : String → Lease → Repository → Type 0
IsOver id l r = (get r.leases id ≡ some l) × (is_active l.state ≡ false)

module _ (id : String) (l : Lease) where
  ended-IsOver :
      (r : Repository) (jd : String) (o : Lease) (when : Option ℕ) (st : LeaseState)
      (endpoint : String)
      → IsExclusive r
      → IsOver id l r
      → get r.leases jd ≡ some o
      → is_active o.state ≡ true
      → IsOver id l (ended (record o { released_at = when }) st endpoint r)
  ended-IsOver r jd o when st endpoint x h there on = (
    ground (
      arith,
      h,
      x.named jd o there,
      eq_iff o.lease_id id,
      get-put_at id o.lease_id (record o { released_at = when; state = st }) r.leases,
    ),
    h.1,
  )

  granted-IsOver :
      (now : ℕ) (t : Terms) (r : Repository)
      → IsOver id l r
      → get r.leases t.lease_id ≡ none
      → IsOver id l (granted now t r).0
  granted-IsOver now t r h new = (
    ground (
      arith,
      h,
      eq_iff t.lease_id id,
      get-put_at id t.lease_id (new_lease now t (suc r.fence)) r.leases,
    ),
    h.1,
  )

  reserve-IsOver :
      (now : ℕ) (t : Terms) (r : Repository)
      → IsExclusive r
      → IsOver id l r
      → get r.leases t.lease_id ≡ none
      → IsOver id l (reserve now t r).0
  unfolding reserve
  reserve-IsOver now t r x h new =
      elim (endpoint_lease-active r t.endpoint_key (get r.active_endpoints t.endpoint_key)
        (endpoint_lease r t.endpoint_key) x refl refl) [
          | inl (nothing, open_endpoint) ↦ rw nothing (granted-IsOver now t r h new)
          | inr (jd, o, found, there, on, same) ↦ rw found (elim (Bool-cases (is_live now o)) [
            | inl live ↦ rw live h
            | inr over ↦ rw over (
                granted-IsOver now t (ended o expired t.endpoint_key r)
                  (ended-IsOver r jd o o.released_at expired t.endpoint_key x h there on)
                  (ground (
                    arith,
                    get-put_at t.lease_id o.lease_id (record o { state = expired }) r.leases,
                    x.named jd o there,
                    eq_iff o.lease_id t.lease_id,
                  )))
          ])
        ]

  renew_lease-IsOver :
      (now ttl : ℕ) (k : Holder) (r : Repository) (o : Option Lease)
      → IsOver id l r
      → get r.leases k.lease_id ≡ o
      → IsOver id l (renew_lease now k ttl r o).0
  renew_lease-IsOver now ttl k r none h found = h
  renew_lease-IsOver now ttl k r (some o) h found =
      elim (Bool-cases (is_held_by k o && ltb now o.expires_at)) [
        | inl good ↦ rw good (
          ground (
            arith,
            h,
            eq_iff k.lease_id id,
            get-put_at id k.lease_id (record o { expires_at = now + ttl }) r.leases,
          ),
          h.1,
        )
        | inr bad ↦ rw bad h
      ]

  release_lease-IsOver :
      (now : ℕ) (k : Holder) (st : LeaseState) (r : Repository) (o : Option Lease)
      → IsExclusive r
      → IsOver id l r
      → get r.leases k.lease_id ≡ o
      → IsOver id l (release_lease now k st r o).0
  release_lease-IsOver now k st r none x h found = h
  release_lease-IsOver now k st r (some o) x h found = elim (Bool-cases (is_held_by k o)) [
    | inl mine ↦
        rw mine (ended-IsOver r k.lease_id o (some now) st o.endpoint_key x h found (ground arith))
    | inr other ↦ rw other h
  ]

  reap_lease-IsOver :
      (now : ℕ) (jd : String) (s : Repository × ℕ) (o : Option Lease)
      → IsExclusive s.0
      → IsOver id l s.0
      → get s.0.leases jd ≡ o
      → IsOver id l (reap_lease now s o).0
  reap_lease-IsOver now jd s none x h found = h
  reap_lease-IsOver now jd (r, count) (some o) x h found = elim (Bool-cases (is_due now o)) [
    | inl due ↦
        rw due (ended-IsOver r jd o o.released_at expired o.endpoint_key x h found (ground arith))
    | inr not_due ↦ rw not_due h
  ]

  reap_each-IsOver :
      (now : ℕ) (ids : List String) (s : Repository × ℕ)
      → IsExclusive s.0
      → IsOver id l s.0
      → IsOver id l (reap_each now ids s).0
  unfolding reap_each
  reap_each-IsOver now [] s x h = h
  reap_each-IsOver now (jd ∷ ids) s x h =
      let o = get s.0.leases jd in
      reap_each-IsOver now ids (reap_lease now s o) (reap_lease-IsExclusive now jd s o x refl)
        (reap_lease-IsOver now jd s o x h refl)

  Step-IsOver : {r s : Repository} → Step r s → IsExclusive r → IsOver id l r → IsOver id l s
  unfolding renew release reap_expired
  Step-IsOver {r} (reserves now t filled new) x h = reserve-IsOver now t r x h new
  Step-IsOver {r} (renews now k ttl) x h =
      renew_lease-IsOver now ttl k r (get r.leases k.lease_id) h refl
  Step-IsOver {r} (releases now k st over) x h =
      release_lease-IsOver now k st r (get r.leases k.lease_id) x h refl
  Step-IsOver {r} (reaps now) x h = reap_each-IsOver now (keys r.leases) (r, 0) x h

  Steps-IsOver : {r s : Repository} → Steps r s → IsExclusive r → IsOver id l r → IsOver id l s
  Steps-IsOver here x h = h
  Steps-IsOver (next p q) x h = Step-IsOver q (Steps-IsExclusive p x) (Steps-IsOver p x h)

-- In a repository that keeps its invariant, a holder whose lease has ended is fenced out for good: neither renewing nor
-- releasing it does anything, after whatever calls in which each reservation brings a name that is not empty and that
-- no lease has yet, and no release sets the state "active".
pub stale_holder :
    {r s : Repository} (id : String) (l : Lease) (k : Holder) (now ttl : ℕ) (st : LeaseState)
    → IsExclusive r
    → get r.leases id ≡ some l
    → is_active l.state ≡ false
    → k.lease_id ≡ id
    → Steps r s
    → (renew now k ttl s ≡ (s, none)) × (release now k st s ≡ (s, false))
unfolding renew release
stale_holder id l k now ttl st x there over same p =
    let h = Steps-IsOver id l p x (there, over) in ground (arith, h)
