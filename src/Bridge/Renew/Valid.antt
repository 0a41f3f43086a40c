-- ===== src/Bridge/Renew/Valid.antt =====
-- A renewal changes no lease but those of the worker that asks, and the jobs stay valid.
use link_suffix.Base.{
  ℕ, ◌≡◌, refl, true, List, [], ◌∷◌, some, String, arith, any, Each, Each-refl, Each-trans,
  Each-map, subst, ap, ◌∙◌, holds_text→eq, Bool-cases, inl, inr, if◌then◌else◌, take, ◌⊎◌,
}
use link_suffix.Bridge.{Store, Job, Env, is_leased, update_where, max_lease_jobs}
use link_suffix.Bridge.Invariant.{IsValid, IsTame, update_where-IsValid}
use link_suffix.Bridge.Renew.{is_renewable, renewed_job, renew_rows, renew_bridge_leases}

IsTame-renewed : (env : Env) (now : ℕ) → IsTame env (renewed_job env now)
IsTame-renewed env now = record {
  id = λ j. refl;
  target = λ j. refl;
  capture = λ j. refl;
  lease = λ j e. e;
  sound = λ j h. record {
    attempts = h.attempts;
    holder = h.holder;
    token = h.token;
    until = λ e. refl;
  };
}

module _ (env : Env) (now : ℕ) (s : Store) (shard_id worker : String) where
  renew_rows-IsValid :
      (ls : List (String × String)) (jobs : List Job)
      → IsValid env jobs
      → IsValid env (renew_rows env now s shard_id worker ls jobs).0
  unfolding renew_rows
  renew_rows-IsValid [] jobs v = v
  renew_rows-IsValid ((id, token) ∷ ls) jobs v =
      let test = is_renewable env s shard_id worker id token in
      let next = update_where test (renewed_job env now) jobs in
      let rest =
        renew_rows-IsValid ls next
          (update_where-IsValid env test (renewed_job env now) jobs (IsTame-renewed env now) v) in
      elim (Bool-cases (any test jobs)) [
        | inl e ↦ rw (e, renew_rows) rest
        | inr e ↦ rw (e, renew_rows) rest
      ]

  -- A job after a renewal: as it was, or one that the worker holds, with the full term from now on.
  abbrev pub Renewed : Job → Job → Type 0
  Renewed a b =
      (b ≡ a)
      ⊎ ((is_leased a.state ≡ true) × (a.worker_id ≡ some worker) × (b ≡ renewed_job env now a))

  Renewed-trans : (a b c : Job) → Renewed a b → Renewed b c → Renewed a c
  Renewed-trans a b c (inl e) k = subst (λ x. Renewed x c) e k
  Renewed-trans a b c (inr h) (inl e) = inr (h.0, h.1, e ∙ h.2)
  Renewed-trans a b c (inr h) (inr k) = inr (h.0, h.1, k.2 ∙ ap (renewed_job env now) h.2)

  update-Renewed :
      (id token : String) (j : Job)
      → Renewed j
          (if is_renewable env s shard_id worker id token j then renewed_job env now j else j)
  update-Renewed id token j = elim (Bool-cases (is_renewable env s shard_id worker id token j)) [
    | inl hit ↦ rw hit (inr (ground arith, holds_text→eq j.worker_id worker (ground arith), refl))
    | inr miss ↦ rw miss (inl refl)
  ]

  renew_rows-Renewed :
      (ls : List (String × String)) (jobs : List Job)
      → Each Renewed jobs (renew_rows env now s shard_id worker ls jobs).0
  unfolding renew_rows
  renew_rows-Renewed [] jobs = Each-refl Renewed (λ j. inl refl) jobs
  renew_rows-Renewed ((id, token) ∷ ls) jobs =
      let next =
        update_where (is_renewable env s shard_id worker id token) (renewed_job env now) jobs in
      let step = Each-map Renewed _ (update-Renewed id token) jobs in
      let rest = Each-trans Renewed Renewed-trans jobs next _ step (renew_rows-Renewed ls next) in
      elim (Bool-cases (any (is_renewable env s shard_id worker id token) jobs)) [
        | inl e ↦ rw (e, renew_rows) rest
        | inr e ↦ rw (e, renew_rows) rest
      ]

-- A renewal leaves every job as it was but those that are leased to the worker that asks, whose leases
-- then end a full term from now: no other lease changes, and none is revived.
pub renew-Renewed :
    (env : Env) (now : ℕ) (shard_id worker : String) (leases : List (String × String)) (s : Store)
    → Each
        (Renewed env now s shard_id worker)
        s.jobs
        (renew_bridge_leases env now shard_id worker leases s).0.jobs
unfolding renew_bridge_leases
renew-Renewed env now shard_id worker leases s =
    renew_rows-Renewed env now s shard_id worker (take max_lease_jobs leases) s.jobs

-- A renewal keeps the jobs valid.
pub renew-IsValid :
    (env : Env) (now : ℕ) (shard_id worker : String) (leases : List (String × String)) (s : Store)
    → IsValid env s.jobs
    → IsValid env (renew_bridge_leases env now shard_id worker leases s).0.jobs
unfolding renew_bridge_leases
renew-IsValid env now shard_id worker leases s =
    renew_rows-IsValid env now s shard_id worker (take max_lease_jobs leases) s.jobs
