-- ===== src/Proxy/Leases/Refines.antt =====
-- The repository implements the table of holders.
use link_suffix.Base.{
  subst, ltb, ◌&&◌, suc, ℕ, ◌+◌, ◌≡◌, true, false, List, [], ◌∷◌, some, none, Option, String, refl,
  inl, inr, str_eq, arith, Bool-cases, eq_iff, sym,
}
use link_suffix.Base.Maps.{get-put, get, put, get-put_at, keys}
use link_suffix.Proxy.Leases.{
  empty_repository, reap_each, is_due, reap_lease, is_held_by, renew_lease, release_lease, Terms,
  Lease, LeaseState, expired, is_active, is_live, Repository, Holder, ended, granted, new_lease,
  endpoint_lease, reserve, renew, release, reap_expired,
}
use link_suffix.Base.Text.{is_empty}
use link_suffix.Proxy.Leases.Exclusive.{ended-IsExclusive, IsExclusive, endpoint_lease-active}
use link_suffix.Proxy.Leases.Calls.{reap_lease-IsExclusive}
use link_suffix.Proxy.Leases.History.{
  instant, caller, Steps-one_holder, Steps, Step, reserves, renews, releases, reaps,
}
use link_suffix.Proxy.Leases.Spec.{
  View, view, SameBut, Move, takes, prolongs, Moves, done, more, once, same-view, view-of,
  ended-others, ended-frees, granted-others, granted-holds, SameBut-trans,
}

-- An endpoint whose lease has run out is taken again.
retakes :
    (now : ℕ) (t : Terms) (r : Repository) (id : String) (l : Lease)
    → IsExclusive r
    → is_empty t.lease_id ≡ false
    → get r.leases t.lease_id ≡ none
    → get r.leases id ≡ some l
    → is_active l.state ≡ true
    → is_live now l ≡ false
    → l.endpoint_key ≡ t.endpoint_key
    → Move now none (view r) (view (granted now t (ended l expired t.endpoint_key r)).0)
retakes now t r id l x filled new there on over same =
    takes (new_lease now t (suc r.fence))
      (rw (view-of r r t.endpoint_key id l x there on same) over) refl refl
      (granted-holds now t freed filled)
      (SameBut-trans {v = view freed}
        (subst (λ k. SameBut k (view r) (view (ended l expired k r))) same
          (ended-others r id l l.released_at expired x there))
        (granted-others now t freed unseen freed-IsExclusive))
  where
    freed : Repository
    freed = ended l expired t.endpoint_key r

    freed-IsExclusive : IsExclusive freed
    freed-IsExclusive =
        subst (λ k. IsExclusive (ended l expired k r)) same
          (ended-IsExclusive r id l l.released_at expired x there on refl)

    unseen : get freed.leases t.lease_id ≡ none
    unseen = ground (
      arith,
      new,
      there,
      x.named id l there,
      eq_iff l.lease_id t.lease_id,
      get-put_at t.lease_id l.lease_id (record l { state = expired }) r.leases,
    )

reserve-Moves :
    (now : ℕ) (t : Terms) (r : Repository)
    → IsExclusive r
    → is_empty t.lease_id ≡ false
    → get r.leases t.lease_id ≡ none
    → Moves now none (view r) (view (reserve now t r).0)
unfolding reserve
reserve-Moves now t r x filled new =
    elim (endpoint_lease-active r t.endpoint_key (get r.active_endpoints t.endpoint_key)
      (endpoint_lease r t.endpoint_key) x refl refl) [
        | inl (nothing, open_endpoint) ↦ rw nothing (
            once (
              takes (new_lease now t (suc r.fence)) (rw nothing refl) refl refl
                (granted-holds now t r filled) (granted-others now t r new x)))
        | inr (id, l, found, there, on, same) ↦ rw found (elim (Bool-cases (is_live now l)) [
          | inl live ↦ rw live done
          | inr over ↦ rw over (once (retakes now t r id l x filled new there on over same))
        ])
      ]

renewed-prolongs :
    (now ttl : ℕ) (h : Holder) (r : Repository) (l : Lease)
    → IsExclusive r
    → get r.leases h.lease_id ≡ some l
    → is_held_by h l ≡ true
    → ltb now l.expires_at ≡ true
    → Move now
        (some h)
        (view r)
        (view (record r { leases = put h.lease_id (record l { expires_at = now + ttl }) r.leases }))
renewed-prolongs now ttl h r l x found mine live =
    prolongs l (now + ttl) mine (ground (arith, mine, live))
      (view-of r r l.endpoint_key h.lease_id l x found on refl)
      (ground (
        arith,
        x.tracked h.lease_id l found on,
        x.named h.lease_id l found,
        get-put h.lease_id (record l { expires_at = now + ttl }) r.leases,
      ))
      others
  where
    on : is_active l.state ≡ true
    on = ground (arith, mine)

    after : Repository
    after = record r { leases = put h.lease_id (record l { expires_at = now + ttl }) r.leases }

    others : SameBut l.endpoint_key (view r) (view after)
    others e = elim (Bool-cases (str_eq l.endpoint_key e)) [
      | inl hit ↦ inl (sym ((eq_iff l.endpoint_key e).0 hit))
      | inr miss ↦ inr (
          same-view r after e refl λ jd lead.
            let (m, there, _, same) = x.leads e jd lead in
            ground (
              arith,
              miss,
              found,
              there,
              same,
              eq_iff h.lease_id jd,
              eq_iff l.endpoint_key e,
              get-put_at jd h.lease_id (record l { expires_at = now + ttl }) r.leases,
            ))
    ]

renew_lease-Moves :
    (now ttl : ℕ) (h : Holder) (r : Repository) (o : Option Lease)
    → IsExclusive r
    → get r.leases h.lease_id ≡ o
    → Moves now (some h) (view r) (view (renew_lease now h ttl r o).0)
renew_lease-Moves now ttl h r none x found = done
renew_lease-Moves now ttl h r (some l) x found =
    elim (Bool-cases (is_held_by h l && ltb now l.expires_at)) [
      | inl good ↦ rw good (
          once
            (renewed-prolongs now ttl h r l x found (ground (arith, good)) (ground (arith, good))))
      | inr bad ↦ rw bad done
    ]

release_lease-Moves :
    (now : ℕ) (h : Holder) (st : LeaseState) (r : Repository) (o : Option Lease)
    → IsExclusive r
    → get r.leases h.lease_id ≡ o
    → Moves now (some h) (view r) (view (release_lease now h st r o).0)
release_lease-Moves now h st r none x found = done
release_lease-Moves now h st r (some l) x found = elim (Bool-cases (is_held_by h l)) [
  | inl mine ↦ rw mine (
      once
        (ended-frees now (some h) r h.lease_id l (some now) st x found (ground arith) (inr mine)))
  | inr other ↦ rw other done
]

Moves-trans :
    {now : ℕ} {by : Option Holder} {u v w : View}
    → Moves now by u v
    → Moves now by v w
    → Moves now by u w
Moves-trans done q = q
Moves-trans (more m p) q = more m (Moves-trans p q)

reap_lease-Moves :
    (now : ℕ) (id : String) (s : Repository × ℕ) (o : Option Lease)
    → IsExclusive s.0
    → get s.0.leases id ≡ o
    → Moves now none (view s.0) (view (reap_lease now s o).0)
reap_lease-Moves now id s none x found = done
reap_lease-Moves now id (r, count) (some l) x found = elim (Bool-cases (is_due now l)) [
  | inl due ↦ rw due (
      once (
        ended-frees now none r id l l.released_at expired x found (ground arith)
          (inl (ground (arith, due)))))
  | inr not_due ↦ rw not_due done
]

reap_each-Moves :
    (now : ℕ) (ids : List String) (s : Repository × ℕ)
    → IsExclusive s.0
    → Moves now none (view s.0) (view (reap_each now ids s).0)
unfolding reap_each
reap_each-Moves now [] s x = done
reap_each-Moves now (id ∷ ids) s x =
    let o = get s.0.leases id in
    Moves-trans (reap_lease-Moves now id s o x refl)
      (reap_each-Moves now ids (reap_lease now s o) (reap_lease-IsExclusive now id s o x refl))

Step-Moves :
    {r s : Repository} (q : Step r s)
    → IsExclusive r
    → Moves (instant q) (caller q) (view r) (view s)
unfolding renew release reap_expired
Step-Moves {r} (reserves now t filled new) x = reserve-Moves now t r x filled new
Step-Moves {r} (renews now h ttl) x = renew_lease-Moves now ttl h r (get r.leases h.lease_id) x refl
Step-Moves {r} (releases now h st over) x =
    release_lease-Moves now h st r (get r.leases h.lease_id) x refl
Step-Moves {r} (reaps now) x = reap_each-Moves now (keys r.leases) (r, 0) x

-- The repository implements the table of holders: after any sequence of calls on the empty repository, in which each
-- reservation brings a name that is not empty and new and no release sets the state "active", a further such call
-- changes the table by moves of single endpoints. An endpoint is only taken, by a lease of that instant, where no
-- lease holds it that is live at that instant; only a live lease of the caller is prolonged; and only leases that
-- have run out at that instant, and the caller's own, lose their endpoints.
pub Steps-refine :
    {r s : Repository}
    → Steps empty_repository r
    → (q : Step r s) → Moves (instant q) (caller q) (view r) (view s)
Steps-refine p q = Step-Moves q (Steps-one_holder p)
