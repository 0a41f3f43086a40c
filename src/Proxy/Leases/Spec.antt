-- ===== src/Proxy/Leases/Spec.antt =====
-- What the repository promises: each endpoint has a holder or none. Names, tokens and leases that are over are
-- not seen.
use link_suffix.Base.{
  ◌∙◌, suc, ◌⊎◌, ℕ, ◌≡◌, true, false, some, none, Option, String, refl, inl, inr, str_eq, arith,
  Bool, Bool-cases, Option-cases, eq_iff, sym,
}
use link_suffix.Base.Maps.{get-put, get, get-put_at, get-delete_at}
use link_suffix.Proxy.Leases.{
  Holder, is_held_by, Terms, Lease, LeaseState, is_active, is_live, Repository, ended, granted,
  new_lease, endpoint_lease,
}
use link_suffix.Base.Text.{is_empty}
use link_suffix.Proxy.Leases.Exclusive.{IsExclusive}

abbrev pub View : Type 0
View = String → Option Lease

-- The holder of each endpoint.
abbrev pub view : Repository → View
view r endpoint = endpoint_lease r endpoint

abbrev pub is_taken : ℕ → Option Lease → Bool
is_taken now none = false
is_taken now (some l) = is_live now l

abbrev pub SameBut : String → View → View → Type 0
SameBut endpoint v w = (e : String) → (e ≡ endpoint) ⊎ (w e ≡ v e)

-- The caller holds the lease: it is active, and the caller's under its token.
abbrev pub IsHeld : Option Holder → Lease → Type 0
IsHeld none l = ⊥
IsHeld (some h) l = is_held_by h l ≡ true

-- One change of one endpoint by a call at the instant `now`: it is taken, by a lease that begins then, while no lease
-- holds it that is live then; the caller's lease, which is live, is prolonged; or it is freed, of a lease that has run
-- out, or of the caller's.
pub data Move (now : ℕ) (by : Option Holder) (v w : View) : Type 0 where
  takes :
      (l : Lease)
      → is_taken now (v l.endpoint_key) ≡ false
      → l.created_at ≡ now
      → is_active l.state ≡ true
      → w l.endpoint_key ≡ some l
      → SameBut l.endpoint_key v w
      → Move now by v w
  prolongs :
      (l : Lease) (until : ℕ)
      → IsHeld by l
      → is_live now l ≡ true
      → v l.endpoint_key ≡ some l
      → w l.endpoint_key ≡ some (record l { expires_at = until })
      → SameBut l.endpoint_key v w
      → Move now by v w
  frees :
      (l : Lease)
      → (is_live now l ≡ false) ⊎ IsHeld by l
      → v l.endpoint_key ≡ some l
      → w l.endpoint_key ≡ none
      → SameBut l.endpoint_key v w
      → Move now by v w

pub data Moves (now : ℕ) (by : Option Holder) : View → View → Type 0 where
  done : {v : View} → Moves now by v v
  more : {u v w : View} → Move now by v u → Moves now by u w → Moves now by v w

pub once : {now : ℕ} {by : Option Holder} {v w : View} → Move now by v w → Moves now by v w
once m = more m done

module _ (r s : Repository) (e : String) where
  -- Where an endpoint leads to the same name, and that to the same lease, the holder is the same.
  pub same-view :
      get s.active_endpoints e ≡ get r.active_endpoints e
      → ((id : String) → get r.active_endpoints e ≡ some id → get s.leases id ≡ get r.leases id)
      → view s e ≡ view r e
  same-view leads same = elim (Option-cases (get r.active_endpoints e)) [
    | inl nothing ↦ ground (arith, leads, nothing)
    | inr (id, there) ↦ ground (arith, leads, there, same id there)
  ]

  pub view-of :
      (id : String) (l : Lease)
      → IsExclusive s
      → get s.leases id ≡ some l
      → is_active l.state ≡ true
      → l.endpoint_key ≡ e
      → view s e ≡ some l
  view-of id l x there on same = ground (arith, x.tracked id l there on, x.named id l there)

-- An active lease that ends leaves the other endpoints alone.
pub ended-others :
    (r : Repository) (id : String) (o : Lease) (when : Option ℕ) (st : LeaseState)
    → IsExclusive r
    → get r.leases id ≡ some o
    → SameBut o.endpoint_key
        (view r)
        (view (ended (record o { released_at = when }) st o.endpoint_key r))
ended-others r id o when st x there e = elim (Bool-cases (str_eq o.endpoint_key e)) [
  | inl hit ↦ inl (sym ((eq_iff o.endpoint_key e).0 hit))
  | inr miss ↦ inr (
      same-view r after e (ground (arith, miss, get-delete_at e o.endpoint_key r.active_endpoints))
        λ jd lead.
          let (m, found, _, same) = x.leads e jd lead in
          ground (
            arith,
            miss,
            found,
            same,
            there,
            x.named id o there,
            eq_iff o.lease_id jd,
            eq_iff o.endpoint_key e,
            get-put_at jd o.lease_id (record o { released_at = when; state = st }) r.leases,
          ))
]
  where
    after : Repository
    after = ended (record o { released_at = when }) st o.endpoint_key r

-- And frees its own.
pub ended-frees :
    (now : ℕ) (by : Option Holder) (r : Repository) (id : String) (o : Lease) (when : Option ℕ)
    (st : LeaseState)
    → IsExclusive r
    → get r.leases id ≡ some o
    → is_active o.state ≡ true
    → (is_live now o ≡ false) ⊎ IsHeld by o
    → Move now by (view r) (view (ended (record o { released_at = when }) st o.endpoint_key r))
ended-frees now by r id o when st x there on over =
    frees o over (view-of r r o.endpoint_key id o x there on refl)
      (ground (
        arith,
        get-delete_at o.endpoint_key o.endpoint_key r.active_endpoints,
        eq_iff o.endpoint_key o.endpoint_key,
      ))
      (ended-others r id o when st x there)

-- A granted lease takes an endpoint that leads nowhere, under a new name.
pub granted-others :
    (now : ℕ) (t : Terms) (r : Repository)
    → get r.leases t.lease_id ≡ none
    → IsExclusive r
    → SameBut t.endpoint_key (view r) (view (granted now t r).0)
granted-others now t r new x e = elim (Bool-cases (str_eq t.endpoint_key e)) [
  | inl hit ↦ inl (sym ((eq_iff t.endpoint_key e).0 hit))
  | inr miss ↦ inr (
      same-view r (granted now t r).0 e
        (ground (arith, miss, get-put_at e t.endpoint_key t.lease_id r.active_endpoints))
        λ jd lead.
          let (m, found, _, _) = x.leads e jd lead in
          ground (
            arith,
            found,
            new,
            eq_iff t.lease_id jd,
            get-put_at jd t.lease_id (new_lease now t (suc r.fence)) r.leases,
          ))
]

pub granted-holds :
    (now : ℕ) (t : Terms) (r : Repository)
    → is_empty t.lease_id ≡ false
    → view (granted now t r).0 t.endpoint_key ≡ some (new_lease now t (suc r.fence))
granted-holds now t r filled = ground (
  arith,
  filled,
  get-put t.endpoint_key t.lease_id r.active_endpoints,
  get-put t.lease_id (new_lease now t (suc r.fence)) r.leases,
)

pub SameBut-trans : {e : String} {u v w : View} → SameBut e u v → SameBut e v w → SameBut e u w
SameBut-trans p q j = elim (p j) [
  | inl here ↦ inl here
  | inr same ↦ elim (q j) [ inl here ↦ inl here | inr again ↦ inr (again ∙ same) ]
]
