-- ===== src/Proxy/Leases/History.antt =====
-- The repository after any sequence of calls: who can be refused, and who is fenced out.
use link_suffix.Proxy.Leases.Exclusive.{IsExclusive, endpoint_lease-active}
use link_suffix.Proxy.Leases.Calls.{
  reserve-IsExclusive, renew_lease-IsExclusive, release_lease-IsExclusive, reap_each-IsExclusive,
}
use link_suffix.Base.{refl, inl, inr, arith, true, some, String, Option, ◌↔◌, false, none, ℕ, ◌≡◌}
use link_suffix.Proxy.Leases.{
  endpoint_lease, is_live, is_active, LeaseState, Holder, Lease, reap_expired, release, renew,
  empty_repository, Terms, reserve, Repository,
}
use link_suffix.Base.Maps.{keys, get}
use link_suffix.Base.Text.{is_empty}

-- One call; a new lease has a name that no lease has yet, and a release does not make a lease active.
pub data Step (r : Repository) : Repository → Type 0 where
  reserves :
      (now : ℕ) (t : Terms)
      → is_empty t.lease_id ≡ false
      → get r.leases t.lease_id ≡ none
      → Step r (reserve now t r).0
  renews : (now : ℕ) (h : Holder) (ttl : ℕ) → Step r (renew now h ttl r).0
  releases :
      (now : ℕ) (h : Holder) (st : LeaseState)
      → is_active st ≡ false
      → Step r (release now h st r).0
  reaps : (now : ℕ) → Step r (reap_expired now r).0

-- The instant of a call, and who makes it, where it names a holder.
abbrev pub instant : {r s : Repository} → Step r s → ℕ
instant (reserves now t filled new) = now
instant (renews now h ttl) = now
instant (releases now h st over) = now
instant (reaps now) = now

abbrev pub caller : {r s : Repository} → Step r s → Option Holder
caller (reserves now t filled new) = none
caller (renews now h ttl) = some h
caller (releases now h st over) = some h
caller (reaps now) = none

pub data Steps (r : Repository) : Repository → Type 0 where
  here : Steps r r
  next : {s t : Repository} → Steps r s → Step s t → Steps r t

pub Step-IsExclusive : {r s : Repository} → Step r s → IsExclusive r → IsExclusive s
unfolding renew release reap_expired
Step-IsExclusive {r} (reserves now t filled new) x = reserve-IsExclusive now t r x filled new
Step-IsExclusive {r} (renews now h ttl) x =
    renew_lease-IsExclusive now ttl h r (get r.leases h.lease_id) x refl
Step-IsExclusive {r} (releases now h st over) x =
    release_lease-IsExclusive now h st r (get r.leases h.lease_id) x over refl
Step-IsExclusive {r} (reaps now) x = reap_each-IsExclusive now (keys r.leases) (r, 0) x

pub Steps-IsExclusive : {r s : Repository} → Steps r s → IsExclusive r → IsExclusive s
Steps-IsExclusive here x = x
Steps-IsExclusive (next p q) x = Step-IsExclusive q (Steps-IsExclusive p x)

empty-IsExclusive : IsExclusive empty_repository
unfolding get
empty-IsExclusive = record {
  named = λ id l e. ground arith;
  tracked = λ id l e. ground arith;
  leads = λ endpoint id e. absurd (ground arith);
  fenced = λ id l e. ground arith;
  unique = λ id jd l m e. ground arith;
}

-- After any sequence of calls on the empty repository, in which each reservation brings a name that is not empty and
-- that no lease has yet, and no release sets the state "active": an endpoint has at most one active lease, to which it
-- leads, and no fencing token was given out twice.
pub Steps-one_holder : {r : Repository} → Steps empty_repository r → IsExclusive r
Steps-one_holder p = Steps-IsExclusive p empty-IsExclusive

-- After any sequence of such calls on the empty repository, a reservation is refused exactly when some lease on
-- the endpoint is active and has not run out; otherwise it is granted.
pub reserve-refuses :
    {r : Repository}
    → Steps empty_repository r
    → (now : ℕ) (t : Terms)
    → ((reserve now t r).1 ≡ none) ↔ (
        (id : String) × (l : Lease) × (get r.leases id ≡ some l)
        × (is_live now l ≡ true)
        × (l.endpoint_key ≡ t.endpoint_key))
unfolding reserve
reserve-refuses {r} p now t =
    elim (endpoint_lease-active r t.endpoint_key (get r.active_endpoints t.endpoint_key)
      (endpoint_lease r t.endpoint_key) x refl refl) [
        | inl (nothing, open_endpoint) ↦ (
          λ e. absurd (ground (arith, nothing)),
          λ h. absurd (ground (arith, open_endpoint, h.3, x.tracked h.0 h.1 h.2)),
        )
        | inr (id, l, found, there, on, same) ↦ (
          λ e. (id, l, there, ground (arith, found), same),
          λ h. ground (arith, found, h.3, x.named h.0 h.1 h.2, x.tracked h.0 h.1 h.2),
        )
      ]
  where
    x : IsExclusive r
    x = Steps-one_holder p
