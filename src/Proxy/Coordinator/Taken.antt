-- ===== src/Proxy/Coordinator/Taken.antt =====
-- The endpoint of the lease that a request is given, and what is left when the lease is released at once.
use link_suffix.Base.{
  ℕ, suc, ◌≡◌, ap, ◌∙◌, inl, inr, true, not, Bool, List, [], ◌∷◌, Option, none, some, String,
  str_eq, All, All-filter, Option-cases, arith,
}
use link_suffix.Proxy.Leases.{Terms, Lease, Repository, reserve, reserve_over, endpoint_lease}
use link_suffix.Proxy.Locks.{acquire_lock}
use link_suffix.Proxy.Coordinator.{
  Request, Desk, acquired, terms_of, try_lock, attempt, attempts, acquire_from, acquire, distinct,
}

reserved-terms :
    (now : ℕ) (t : Terms) (r : Repository) (o : Option Lease) (l : Lease)
    → (reserve_over now t r o).1 ≡ some l
    → l.terms ≡ t
reserved-terms now t r none l e = cc e
reserved-terms now t r (some k) l e = ground (arith, e)

All-distinct :
    (p : String → Bool) (ks : List String)
    → All (λ x. p x ≡ true) ks
    → All (λ x. p x ≡ true) (distinct ks)
unfolding distinct
All-distinct p [] h = tt
All-distinct p (k ∷ ks) h = (
  h.0,
  All-filter (λ x. p x ≡ true) (λ x. not (str_eq k x)) (distinct ks) (All-distinct p ks h.1),
)

module _ (owner : String) (name_of : ℕ → String) (now : ℕ) (q : Request) where
  try_lock-same :
      (s : Desk) (o : Option Lease) (l : Lease)
      → (try_lock owner name_of now q s o).1 ≡ some l
      → o ≡ some l
  unfolding acquire_lock
  try_lock-same s none l e = absurd (ground (arith, e))
  try_lock-same s (some k) l e = ground (arith, e)

  attempt-terms :
      (endpoint : String) (s : Desk) (l : Lease)
      → (attempt owner name_of now q endpoint s).1 ≡ some l
      → l.endpoint_key ≡ endpoint
  unfolding attempt reserve
  attempt-terms endpoint s l e =
      let t = terms_of owner name_of q endpoint s.drawn in
      let got = reserve now t s.repository in
      let same = try_lock-same (record s { repository = got.0; drawn = suc s.drawn }) got.1 l e in
      ap (λ (x : Terms). x.endpoint_key)
        (reserved-terms now t s.repository (endpoint_lease s.repository endpoint) l same)

  attempts-passes :
      (p : String → Bool) (ks : List String) (s : Desk) (l : Lease)
      → All (λ x. p x ≡ true) ks
      → (attempts owner name_of now q ks s).1 ≡ acquired l
      → p l.endpoint_key ≡ true
  unfolding attempts
  attempts-passes p [] s l h e = absurd (ground (arith, e))
  attempts-passes p (k ∷ ks) s l h e = elim (Option-cases (attempt owner name_of now q k s).1) [
    | inr (m, took) ↦
        let same : m ≡ l = ground (arith, took, e) in
        ap p (attempt-terms k s l (took ∙ ap some same)) ∙ h.0
    | inl failed ↦
        attempts-passes p ks (attempt owner name_of now q k s).0 l h.1 (ground (arith, failed, e))
  ]

  from-passes :
      (p : String → Bool) (ks : List String) (s : Desk) (l : Lease)
      → All (λ x. p x ≡ true) ks
      → (acquire_from owner name_of now q ks s).1 ≡ acquired l
      → p l.endpoint_key ≡ true
  from-passes p [] s l h e = absurd (ground (arith, e))
  from-passes p (k ∷ ks) s l h e = attempts-passes p (k ∷ ks) s l h e

  -- The endpoint that is leased is one that was asked for.
  pub acquire-passes :
      (p : String → Bool) (s : Desk) (l : Lease)
      → All (λ x. p x ≡ true) q.endpoint_keys
      → (acquire owner name_of now q s).1 ≡ acquired l
      → p l.endpoint_key ≡ true
  unfolding acquire
  acquire-passes p s l h e =
      from-passes p (distinct q.endpoint_keys) s l (All-distinct p q.endpoint_keys h) e
