-- ===== src/Proxy/Coordinator/Progress.antt =====
-- A request over all its endpoints: one that is free is not missed, and nothing is kept by a refusal.
use link_suffix.Base.{
  sym, [], ◌∷◌, filter, not, any, Option-cases, List, eq_iff, true, ℕ, ◌≡◌, false, String, refl,
  inl, inr, str_eq, arith, Bool-cases,
}
use link_suffix.Proxy.Leases.{Lease}
use link_suffix.Proxy.Coordinator.{
  acquire_from, distinct, acquire, acquired, unavailable, attempts, Desk, attempt, Request,
}
use link_suffix.Proxy.Coordinator.Given.{is_free, is_unlocked, attempt-leaves, attempt-takes}

module _ (owner : String) (name_of : ℕ → String) (now : ℕ) (q : Request) where
  pub attempts-takes :
      (ks : List String) (endpoint : String) (s : Desk)
      → any (λ k. str_eq k endpoint) ks ≡ true
      → is_free now endpoint s.repository ≡ true
      → is_unlocked now q.provider_id endpoint s.locks ≡ true
      → (l : Lease) × ((attempts owner name_of now q ks s).1 ≡ acquired l)
  unfolding attempts
  attempts-takes [] endpoint s asked free open_lock = absurd (ground arith)
  attempts-takes (k ∷ ks) endpoint s asked free open_lock =
      elim (Option-cases (attempt owner name_of now q k s).1) [
        | inr (l, e) ↦ (l, rw (attempts, e) refl)
        | inl e ↦
            rw (attempts, e)
              (elim (Bool-cases (str_eq k endpoint)) [
                | inl hit ↦
                    let is_k : k ≡ endpoint = (eq_iff k endpoint).0 hit in
                    let (l, took) =
                      attempt-takes owner name_of now q k s (rw is_k free) (rw is_k open_lock) in
                    absurd (ground (arith, e, took))
                | inr miss ↦
                    let (still, locks) = attempt-leaves owner name_of now q k endpoint s e free in
                    attempts-takes ks endpoint (attempt owner name_of now q k s).0 (ground arith)
                      still (rw locks open_lock)
              ])
      ]

  -- A call that gets nothing takes nothing.
  attempts-leaves :
      (ks : List String) (other : String) (s : Desk)
      → (attempts owner name_of now q ks s).1 ≡ unavailable
      → is_free now other s.repository ≡ true
      → (is_free now other (attempts owner name_of now q ks s).0.repository ≡ true)
        × ((attempts owner name_of now q ks s).0.locks ≡ s.locks)
  unfolding attempts
  attempts-leaves [] other s e free = (free, refl)
  attempts-leaves (k ∷ ks) other s e free =
      elim (Option-cases (attempt owner name_of now q k s).1) [
        | inr (l, took) ↦ absurd (ground (arith, took))
        | inl failed ↦
            let (still, locks) = attempt-leaves owner name_of now q k other s failed free in
            let rest = attempts-leaves ks other (attempt owner name_of now q k s).0 in
            ground (arith, failed, still, locks, rest)
      ]

any-filter_other :
    (k e : String) (xs : List String)
    → str_eq k e ≡ false
    → any (λ x. str_eq x e) xs ≡ true
    → any (λ x. str_eq x e) (filter (λ x. not (str_eq k x)) xs) ≡ true
any-filter_other k e [] h asked = asked
any-filter_other k e (x ∷ xs) h asked =
    ground (arith, any-filter_other k e xs h, eq_iff k x, eq_iff x e, eq_iff k e)

any-distinct :
    (e : String) (ks : List String)
    → any (λ x. str_eq x e) ks ≡ true
    → any (λ x. str_eq x e) (distinct ks) ≡ true
unfolding distinct
any-distinct e [] asked = asked
any-distinct e (k ∷ ks) asked = elim (Bool-cases (str_eq k e)) [
  | inl hit ↦ ground (arith, hit)
  | inr miss ↦ ground (
    arith,
    miss,
    any-filter_other k e (distinct ks) miss (any-distinct e ks (ground (arith, miss))),
  )
]

asked-attempts :
    (owner : String) (name_of : ℕ → String) (now : ℕ) (q : Request) (ks : List String) (e : String)
    (s : Desk)
    → any (λ k. str_eq k e) ks ≡ true
    → acquire_from owner name_of now q ks s ≡ attempts owner name_of now q ks s
asked-attempts owner name_of now q [] e s asked = absurd (ground arith)
asked-attempts owner name_of now q (k ∷ ks) e s asked = refl

unavailable-attempts :
    (owner : String) (name_of : ℕ → String) (now : ℕ) (q : Request) (ks : List String) (s : Desk)
    → (acquire_from owner name_of now q ks s).1 ≡ unavailable
    → acquire_from owner name_of now q ks s ≡ attempts owner name_of now q ks s
unavailable-attempts owner name_of now q [] s failed = absurd (ground arith)
unavailable-attempts owner name_of now q (k ∷ ks) s failed = refl

-- A request is served whenever one of the endpoints that it names is free and its lock is not held, whatever
-- the state of the others.
pub acquire-serves :
    (owner : String) (name_of : ℕ → String) (now : ℕ) (q : Request) (s : Desk) (endpoint : String)
    → any (λ k. str_eq k endpoint) q.endpoint_keys ≡ true
    → is_free now endpoint s.repository ≡ true
    → is_unlocked now q.provider_id endpoint s.locks ≡ true
    → (l : Lease) × ((acquire owner name_of now q s).1 ≡ acquired l)
unfolding acquire
acquire-serves owner name_of now q s endpoint asked free open_lock =
    let here = any-distinct endpoint q.endpoint_keys asked in
    rw (asked-attempts owner name_of now q (distinct q.endpoint_keys) endpoint s here)
      (attempts-takes owner name_of now q (distinct q.endpoint_keys) endpoint s here free open_lock)

-- A request that is not served leaves every free endpoint free and every lock as it was: what it reserved
-- on the way is given back.
pub acquire-gives_back :
    (owner : String) (name_of : ℕ → String) (now : ℕ) (q : Request) (s : Desk) (endpoint : String)
    → (acquire owner name_of now q s).1 ≡ unavailable
    → is_free now endpoint s.repository ≡ true
    → (is_free now endpoint (acquire owner name_of now q s).0.repository ≡ true)
      × ((acquire owner name_of now q s).0.locks ≡ s.locks)
unfolding acquire
acquire-gives_back owner name_of now q s endpoint failed free =
    let same = unavailable-attempts owner name_of now q (distinct q.endpoint_keys) s failed in
    rw same (
      attempts-leaves owner name_of now q (distinct q.endpoint_keys) endpoint s
        (rw (sym same) failed) free)
