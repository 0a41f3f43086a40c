-- ===== src/Proxy/Leases/Exclusive.antt =====
-- One endpoint, one active lease: what every call on the repository keeps.
use link_suffix.Base.{
  sym, ◌⊎◌, if◌then◌else◌, ℕ, suc, ◌≡◌, ◌≤◌, true, false, some, none, Option, String, refl, inl,
  inr, str_eq, arith, Bool-cases, eq_iff,
}
use link_suffix.Base.Text.{is_empty}
use link_suffix.Base.Maps.{delete, get-delete_at, get-put_at, get, put}
use link_suffix.Proxy.Leases.{
  lease_under, Terms, Lease, LeaseState, is_active, Repository, ended, granted, new_lease,
}

-- Each lease stands under its name, which is not empty; an active lease's endpoint leads to it, and an
-- endpoint leads to an active lease on it; no token was given out twice.
pub record IsExclusive (r : Repository) : Type 0 where
  pub named :
      (id : String) (l : Lease)
      → get r.leases id ≡ some l
      → (l.lease_id ≡ id) × (is_empty id ≡ false)
  pub tracked :
      (id : String) (l : Lease)
      → get r.leases id ≡ some l
      → is_active l.state ≡ true
      → get r.active_endpoints l.endpoint_key ≡ some id
  pub leads :
      (endpoint id : String)
      → get r.active_endpoints endpoint ≡ some id
      → (l : Lease) × (get r.leases id ≡ some l)
        × (is_active l.state ≡ true)
        × (l.endpoint_key ≡ endpoint)
  pub fenced : (id : String) (l : Lease) → get r.leases id ≡ some l → l.fencing_token ≤ r.fence
  pub unique :
      (id jd : String) (l m : Lease)
      → get r.leases id ≡ some l
      → get r.leases jd ≡ some m
      → l.fencing_token ≡ m.fencing_token
      → id ≡ jd

-- An active lease ends, and its endpoint is free.
pub ended-IsExclusive :
    (r : Repository) (id : String) (o : Lease) (when : Option ℕ) (st : LeaseState)
    → IsExclusive r
    → get r.leases id ≡ some o
    → is_active o.state ≡ true
    → is_active st ≡ false
    → IsExclusive (ended (record o { released_at = when }) st o.endpoint_key r)
ended-IsExclusive r id o when st x there on over = record {
  named = λ j m e. ground (arith, at j, x.named j m, x.named id o there, eq_iff o.lease_id j);
  tracked = λ j m e act. ground (
    arith,
    at j,
    x.tracked j m,
    x.tracked id o there on,
    x.named id o there,
    free m.endpoint_key,
    eq_iff o.lease_id j,
    eq_iff o.endpoint_key m.endpoint_key,
  );
  leads = λ endpoint j e.
      let old : (str_eq o.endpoint_key endpoint ≡ false)
          × (get r.active_endpoints endpoint ≡ some j) =
        ground (arith, free endpoint) in
      let (l, there_l, on_l, same) = x.leads endpoint j old.1 in
      (
        l,
        ground (
          arith,
          at j,
          x.named id o there,
          old,
          eq_iff o.lease_id j,
          eq_iff o.endpoint_key endpoint,
        ),
        on_l,
        same,
      );
  fenced = λ j m e. ground (arith, at j, x.fenced j m, x.fenced id o there);
  unique = λ j k m n e f same. ground (
    arith,
    at j,
    at k,
    x.named id o there,
    x.unique j k m n,
    x.unique id k o n,
    x.unique j id m o,
    eq_iff o.lease_id j,
    eq_iff o.lease_id k,
  );
}
  where
    gone : Lease
    gone = record o { released_at = when; state = st }

    at :
        (j : String)
        → get (ended (record o { released_at = when }) st o.endpoint_key r).leases j
          ≡ (if str_eq o.lease_id j then some gone else get r.leases j)
    at j = get-put_at j o.lease_id gone r.leases

    free :
        (endpoint : String)
        → get (delete o.endpoint_key r.active_endpoints) endpoint
          ≡ (if str_eq o.endpoint_key endpoint then none else get r.active_endpoints endpoint)
    free endpoint = get-delete_at endpoint o.endpoint_key r.active_endpoints

-- A new lease takes an endpoint that leads nowhere.
pub granted-IsExclusive :
    (now : ℕ) (t : Terms) (r : Repository)
    → IsExclusive r
    → is_empty t.lease_id ≡ false
    → get r.leases t.lease_id ≡ none
    → get r.active_endpoints t.endpoint_key ≡ none
    → IsExclusive (granted now t r).0
granted-IsExclusive now t r x filled new open_endpoint = record {
  named = λ id m e. ground (arith, at id, x.named id m, eq_iff t.lease_id id);
  tracked = λ id m e on. ground (
    arith,
    at id,
    x.tracked id m,
    taken m.endpoint_key,
    eq_iff t.lease_id id,
    eq_iff t.endpoint_key m.endpoint_key,
  );
  leads = λ endpoint j e. lead endpoint j e (Bool-cases (str_eq t.endpoint_key endpoint));
  fenced = λ id m e. ground (arith, at id, x.fenced id m);
  unique = λ id jd m n e f same. ground (
    arith,
    at id,
    at jd,
    x.unique id jd m n,
    x.fenced id m,
    x.fenced jd n,
    eq_iff t.lease_id id,
    eq_iff t.lease_id jd,
  );
}
  where
    at :
        (id : String)
        → get (granted now t r).0.leases id
          ≡ (if str_eq t.lease_id id then some (new_lease now t (suc r.fence)) else get r.leases id)
    at id = get-put_at id t.lease_id (new_lease now t (suc r.fence)) r.leases

    taken :
        (endpoint : String)
        → get (put t.endpoint_key t.lease_id r.active_endpoints) endpoint ≡ (
            if str_eq t.endpoint_key endpoint
            then some t.lease_id
            else get r.active_endpoints endpoint)
    taken endpoint = get-put_at endpoint t.endpoint_key t.lease_id r.active_endpoints

    lead :
        (endpoint j : String)
        → get (granted now t r).0.active_endpoints endpoint ≡ some j
        → (str_eq t.endpoint_key endpoint ≡ true) ⊎ (str_eq t.endpoint_key endpoint ≡ false)
        → (l : Lease) × (get (granted now t r).0.leases j ≡ some l)
          × (is_active l.state ≡ true)
          × (l.endpoint_key ≡ endpoint)
    lead endpoint j e (inl hit) = (
      new_lease now t (suc r.fence),
      ground (arith, at j, taken endpoint, eq_iff t.lease_id j),
      refl,
      (eq_iff t.endpoint_key endpoint).0 hit,
    )
    lead endpoint j e (inr miss) =
        let (l, there, on, same) = x.leads endpoint j (ground (arith, taken endpoint)) in
        (l, ground (arith, at j, eq_iff t.lease_id j), on, same)

-- What an endpoint leads to is an active lease on it.
pub endpoint_lease-active :
    (r : Repository) (endpoint : String) (k : Option String) (o : Option Lease)
    → IsExclusive r
    → get r.active_endpoints endpoint ≡ k
    → lease_under r k ≡ o
    → ((o ≡ none) × (k ≡ none))
      ⊎ ((id : String) × (l : Lease) × (o ≡ some l)
          × (get r.leases id ≡ some l)
          × (is_active l.state ≡ true)
          × (l.endpoint_key ≡ endpoint))
endpoint_lease-active r endpoint none o x e found = inl (sym found, refl)
endpoint_lease-active r endpoint (some id) o x e found =
    let (l, there, on, same) = x.leads endpoint id e in
    inr (id, l, ground (arith, x.named id l there), there, on, same)
