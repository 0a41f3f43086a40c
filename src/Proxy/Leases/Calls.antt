-- ===== src/Proxy/Leases/Calls.antt =====
-- Every call on the repository keeps one active lease to an endpoint.
use link_suffix.Base.{
  subst, ltb, ◌+◌, if◌then◌else◌, ℕ, ◌≡◌, ◌&&◌, true, false, List, [], ◌∷◌, some, none, Option,
  String, refl, inl, inr, str_eq, arith, Bool-cases, eq_iff,
}
use link_suffix.Base.Text.{is_empty}
use link_suffix.Base.Maps.{get-put_at, get, put, get-delete}
use link_suffix.Proxy.Leases.{
  reserve, is_held_by, release_lease, renew_lease, is_due, Holder, reap_each, is_live, reap_lease,
  endpoint_lease, Terms, Lease, LeaseState, expired, is_active, Repository, ended, granted,
}
use link_suffix.Proxy.Leases.Exclusive.{
  IsExclusive, ended-IsExclusive, granted-IsExclusive, endpoint_lease-active,
}

-- An expired lease ends and the endpoint is granted anew.
regranted-IsExclusive :
    (now : ℕ) (t : Terms) (r : Repository) (id : String) (l : Lease)
    → IsExclusive r
    → is_empty t.lease_id ≡ false
    → get r.leases t.lease_id ≡ none
    → get r.leases id ≡ some l
    → is_active l.state ≡ true
    → l.endpoint_key ≡ t.endpoint_key
    → IsExclusive (granted now t (ended l expired t.endpoint_key r)).0
regranted-IsExclusive now t r id l x filled new there on same =
    granted-IsExclusive now t (ended l expired t.endpoint_key r)
      (subst (λ k. IsExclusive (ended l expired k r)) same
        (ended-IsExclusive r id l l.released_at expired x there on refl))
      filled
      (ground (
        arith,
        get-put_at t.lease_id l.lease_id (record l { state = expired }) r.leases,
        x.named id l there,
        eq_iff l.lease_id t.lease_id,
      ))
      (get-delete t.endpoint_key r.active_endpoints)

pub reserve-IsExclusive :
    (now : ℕ) (t : Terms) (r : Repository)
    → IsExclusive r
    → is_empty t.lease_id ≡ false
    → get r.leases t.lease_id ≡ none
    → IsExclusive (reserve now t r).0
unfolding reserve
reserve-IsExclusive now t r x filled new =
    elim (endpoint_lease-active r t.endpoint_key (get r.active_endpoints t.endpoint_key)
      (endpoint_lease r t.endpoint_key) x refl refl) [
        | inl (nothing, open_endpoint) ↦
            rw nothing (granted-IsExclusive now t r x filled new open_endpoint)
        | inr (id, l, found, there, on, same) ↦ rw found (elim (Bool-cases (is_live now l)) [
          | inl live ↦ rw live x
          | inr over ↦ rw over (regranted-IsExclusive now t r id l x filled new there on same)
        ])
      ]

pub renew_lease-IsExclusive :
    (now ttl : ℕ) (h : Holder) (r : Repository) (o : Option Lease)
    → IsExclusive r
    → get r.leases h.lease_id ≡ o
    → IsExclusive (renew_lease now h ttl r o).0
renew_lease-IsExclusive now ttl h r none x found = x
renew_lease-IsExclusive now ttl h r (some l) x found =
    elim (Bool-cases (is_held_by h l && ltb now l.expires_at)) [
      | inl good ↦ rw good longer
      | inr bad ↦ rw bad x
    ]
  where
    at :
        (id : String)
        → get (put h.lease_id (record l { expires_at = now + ttl }) r.leases) id ≡ (
            if str_eq h.lease_id id
            then some (record l { expires_at = now + ttl })
            else get r.leases id)
    at id = get-put_at id h.lease_id (record l { expires_at = now + ttl }) r.leases

    kept :
        (endpoint j : String) (m : Lease)
        → get r.leases j ≡ some m
        → is_active m.state ≡ true
        → m.endpoint_key ≡ endpoint
        → (n : Lease) × (get (put h.lease_id (record l { expires_at = now + ttl }) r.leases) j
            ≡ some n)
          × (is_active n.state ≡ true)
          × (n.endpoint_key ≡ endpoint)
    kept endpoint j m there on same = elim (Bool-cases (str_eq h.lease_id j)) [
      | inl hit ↦ (
        record l { expires_at = now + ttl },
        ground (arith, at j),
        ground (arith, eq_iff h.lease_id j),
        ground (arith, eq_iff h.lease_id j),
      )
      | inr miss ↦ (m, ground (arith, at j), on, same)
    ]

    longer :
        IsExclusive
          (record r { leases = put h.lease_id (record l { expires_at = now + ttl }) r.leases })
    longer = record {
      named = λ id m e.
          ground (arith, at id, x.named id m, x.named h.lease_id l found, eq_iff h.lease_id id);
      tracked = λ id m e on.
          ground (arith, at id, x.tracked id m, x.tracked h.lease_id l found, eq_iff h.lease_id id);
      leads = λ endpoint j e.
          let (m, there, on, same) = x.leads endpoint j e in kept endpoint j m there on same;
      fenced = λ id m e. ground (arith, at id, x.fenced id m, x.fenced h.lease_id l found);
      unique = λ id jd m n e f same. ground (
        arith,
        at id,
        at jd,
        x.unique id jd m n,
        x.unique h.lease_id jd l n,
        x.unique id h.lease_id m l,
        eq_iff h.lease_id id,
        eq_iff h.lease_id jd,
      );
    }

pub release_lease-IsExclusive :
    (now : ℕ) (h : Holder) (st : LeaseState) (r : Repository) (o : Option Lease)
    → IsExclusive r
    → is_active st ≡ false
    → get r.leases h.lease_id ≡ o
    → IsExclusive (release_lease now h st r o).0
release_lease-IsExclusive now h st r none x over found = x
release_lease-IsExclusive now h st r (some l) x over found = elim (Bool-cases (is_held_by h l)) [
  | inl mine ↦ rw mine (ended-IsExclusive r h.lease_id l (some now) st x found (ground arith) over)
  | inr other ↦ rw other x
]

pub reap_lease-IsExclusive :
    (now : ℕ) (id : String) (s : Repository × ℕ) (o : Option Lease)
    → IsExclusive s.0
    → get s.0.leases id ≡ o
    → IsExclusive (reap_lease now s o).0
reap_lease-IsExclusive now id s none x found = x
reap_lease-IsExclusive now id (r, count) (some l) x found = elim (Bool-cases (is_due now l)) [
  | inl due ↦ rw due (ended-IsExclusive r id l l.released_at expired x found (ground arith) refl)
  | inr not_due ↦ rw not_due x
]

pub reap_each-IsExclusive :
    (now : ℕ) (ids : List String) (s : Repository × ℕ)
    → IsExclusive s.0
    → IsExclusive (reap_each now ids s).0
unfolding reap_each
reap_each-IsExclusive now [] s x = x
reap_each-IsExclusive now (id ∷ ids) s x =
    reap_each-IsExclusive now ids (reap_lease now s (get s.0.leases id))
      (reap_lease-IsExclusive now id s (get s.0.leases id) x refl)
