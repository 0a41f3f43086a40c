-- ===== src/Bridge/Invariant.antt =====
-- The invariant of tah_delivery_jobs, and the updates that plainly keep it.
use link_suffix.Base.{
  ℕ, ◌≤◌, ◌≡◌, ◌≢◌, refl, Bool, true, false, List, [], ◌∷◌, map, String, arith, eq_iff,
  if◌then◌else◌, is_some, All, Pairwise, Pairwise-map, subst, any, Bool-cases, inl, inr,
}
use link_suffix.Bridge.{
  Job, JobState, Env, max_attempts, is_leased, is_job_of, has_id, update_where, insert_job, new_job,
  released,
}
use link_suffix.Bridge.Results.{ok}

-- Two rows differ in their primary key and in their target and capture, and not both are leased for one
-- target.
pub record Apart (a b : Job) : Type 0 where
  pub ids : a.job_id ≢ b.job_id
  pub pairs : a.target_id ≡ b.target_id → a.capture_id ≢ b.capture_id
  pub fenced : is_leased a.state ≡ true → is_leased b.state ≡ true → a.target_id ≢ b.target_id

-- A row has not used up more attempts than it is given, and a leased one names its holder, the hash of the
-- holder's token and the end of the lease.
pub record IsSound (env : Env) (j : Job) : Type 0 where
  pub attempts : j.attempt_count ≤ max_attempts env
  pub holder : is_leased j.state ≡ true → is_some j.worker_id ≡ true
  pub token : is_leased j.state ≡ true → is_some j.lease_token_hash ≡ true
  pub until : is_leased j.state ≡ true → is_some j.leased_until ≡ true

pub record IsValid (env : Env) (jobs : List Job) : Type 0 where
  pub apart : Pairwise Apart jobs
  pub sound : All (IsSound env) jobs

-- An update that moves no row to another target or capture and leases none.
pub record IsTame (env : Env) (f : Job → Job) : Type 0 where
  pub id : (j : Job) → (f j).job_id ≡ j.job_id
  pub target : (j : Job) → (f j).target_id ≡ j.target_id
  pub capture : (j : Job) → (f j).capture_id ≡ j.capture_id
  pub lease : (j : Job) → is_leased (f j).state ≡ true → is_leased j.state ≡ true
  pub sound : (j : Job) → IsSound env j → IsSound env (f j)

Apart-tame :
    (env : Env) (f : Job → Job) → IsTame env f → (a b : Job) → Apart a b → Apart (f a) (f b)
Apart-tame env f t a b h = record {
  ids = λ e. h.ids (ground (arith, t.id a, t.id b));
  pairs = λ e. ground (arith, h.pairs, t.target a, t.target b, t.capture a, t.capture b);
  fenced = λ la lb. ground (arith, h.fenced (t.lease a la) (t.lease b lb), t.target a, t.target b);
}

pub IsValid-tame :
    (env : Env) (f : Job → Job) (jobs : List Job)
    → IsTame env f
    → IsValid env jobs
    → IsValid env (map f jobs)
IsValid-tame env f jobs t v = record {
  apart =
      Pairwise-map (IsSound env) Apart Apart f (λ a b _ _ h. Apart-tame env f t a b h) jobs v.sound
        v.apart;
  sound = map-sound jobs v.sound;
}
  where
    map-sound : (js : List Job) → All (IsSound env) js → All (IsSound env) (map f js)
    map-sound [] h = tt
    map-sound (j ∷ js) h = (t.sound j h.0, map-sound js h.1)

pub IsTame-where :
    (env : Env) (test : Job → Bool) (f : Job → Job)
    → IsTame env f
    → IsTame env (λ a. if test a then f a else a)
IsTame-where env test f t = record {
  id = λ j. ground (arith, t.id j);
  target = λ j. ground (arith, t.target j);
  capture = λ j. ground (arith, t.capture j);
  lease = λ j. ground (arith, t.lease j);
  sound = λ j h. elim (Bool-cases (test j)) [ inl e ↦ rw e (t.sound j h) | inr e ↦ rw e h ];
}

-- A row update by a condition keeps the invariant if the update is tame.
pub update_where-IsValid :
    (env : Env) (test : Job → Bool) (f : Job → Job) (jobs : List Job)
    → IsTame env f
    → IsValid env jobs
    → IsValid env (update_where test f jobs)
update_where-IsValid env test f jobs t =
    IsValid-tame env (λ a. if test a then f a else a) jobs (IsTame-where env test f t)

pub IsTame-released :
    (env : Env) (st : JobState) (now : ℕ) → is_leased st ≡ false → IsTame env (released st now)
IsTame-released env st now h = record {
  id = λ j. refl;
  target = λ j. refl;
  capture = λ j. refl;
  lease = λ j e. ground arith;
  sound = λ j s. record {
    attempts = s.attempts;
    holder = λ e. ground arith;
    token = λ e. ground arith;
    until = λ e. ground arith;
  };
}

no_job_of :
    (id t : String) (c now : ℕ) (jobs : List Job)
    → any (is_job_of t c) jobs ≡ false
    → any (has_id id) jobs ≡ false
    → All (Apart (new_job id t c now)) jobs
no_job_of id t c now [] p q = tt
no_job_of id t c now (j ∷ js) p q = (
  record {
    ids = λ e. ground (arith, eq_iff j.job_id id);
    pairs = λ e. ground (arith, eq_iff j.target_id t);
    fenced = λ e. ground arith;
  },
  no_job_of id t c now js (ground arith) (ground arith),
)

new_job-IsSound : (env : Env) (id t : String) (c now : ℕ) → IsSound env (new_job id t c now)
new_job-IsSound env id t c now = record {
  attempts = omega arith;
  holder = λ e. ground arith;
  token = λ e. ground arith;
  until = λ e. ground arith;
}

-- An insert keeps the invariant: the table's constraints see to it.
pub insert_job-IsValid :
    (env : Env) (f : Job → Job) (id t : String) (c now : ℕ) (jobs : List Job) {js : List Job}
    → IsTame env f
    → IsValid env jobs
    → insert_job f id t c now jobs ≡ ok js
    → IsValid env js
unfolding insert_job
insert_job-IsValid env f id t c now jobs tame v e = elim (Bool-cases (any (is_job_of t c) jobs)) [
  | inl old ↦
      subst (IsValid env) (ground arith) (update_where-IsValid env (is_job_of t c) f jobs tame v)
  | inr new ↦ elim (Bool-cases (any (has_id id) jobs)) [
    | inl used ↦ ground arith
    | inr free ↦ subst (IsValid env) {x = new_job id t c now ∷ jobs} (ground arith) (record {
      apart = (no_job_of id t c now jobs new free, v.apart);
      sound = (new_job-IsSound env id t c now, v.sound);
    })
  ]
]
