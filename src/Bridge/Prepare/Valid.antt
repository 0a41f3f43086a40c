-- ===== src/Bridge/Prepare/Valid.antt =====
-- What the preparing statements of a lease call keep.
use link_suffix.Base.{ℕ, ◌+◌, ◌≡◌, refl, List, [], ◌∷◌, String, arith, subst, ◌&&◌, filter}
use link_suffix.Base.Text.{digits_only}
use link_suffix.Bridge.{
  Store, Job, superseded, Env, insert_job, Capture, is_waiting, is_leased, is_other_capture,
  latest_capture, released,
}
use link_suffix.Bridge.Results.{ok, >>=-eq-ok}
use link_suffix.Bridge.Candidates.{is_served}
use link_suffix.Bridge.Invariant.{
  IsValid, IsTame, IsTame-released, update_where-IsValid, insert_job-IsValid,
}
use link_suffix.Bridge.Prepare.{
  Request, insert_missing, supersede_old, expire_leases, expired, prepared, before_now,
  missing_jobs,
}

IsTame-id : (env : Env) → IsTame env (λ j. j)
IsTame-id env = record {
  id = λ j. refl;
  target = λ j. refl;
  capture = λ j. refl;
  lease = λ j e. e;
  sound = λ j h. h;
}

insert_missing-IsValid :
    (env : Env) (uuid : ℕ → String) (now i : ℕ) (rows : List (String × ℕ)) (jobs : List Job)
    {js : List Job}
    → IsValid env jobs
    → insert_missing uuid now i rows jobs ≡ ok js
    → IsValid env js
unfolding insert_missing
insert_missing-IsValid env uuid now i [] jobs v e = subst (IsValid env) (ground arith) v
insert_missing-IsValid env uuid now i ((t, c) ∷ rows) jobs v e =
    let (mid, first, then_) =
      >>=-eq-ok (insert_job (λ j. j) (uuid i) t c now jobs) (insert_missing uuid now (i + 1) rows)
        e in
    insert_missing-IsValid env uuid now (i + 1) rows mid
      (insert_job-IsValid env (λ j. j) (uuid i) t c now jobs (IsTame-id env) v first) then_

supersede_old-IsValid :
    (env : Env) (captures : List Capture) (now : ℕ) (jobs : List Job)
    → IsValid env jobs
    → IsValid env (supersede_old captures now jobs)
unfolding supersede_old
supersede_old-IsValid env captures now jobs =
    update_where-IsValid env
      (λ j.
        is_waiting j.state && is_other_capture (latest_capture captures j.target_id) j.capture_id)
      (released superseded now) jobs (IsTame-released env superseded now refl)

IsTame-expired : (env : Env) (now : ℕ) → IsTame env (expired env now)
unfolding expired
IsTame-expired env now = record {
  id = λ j. refl;
  target = λ j. refl;
  capture = λ j. refl;
  lease = λ j e. ground arith;
  sound = λ j h. record {
    attempts = h.attempts;
    holder = λ e. ground arith;
    token = λ e. ground arith;
    until = λ e. ground arith;
  };
}

expire_leases-IsValid :
    (env : Env) (now : ℕ) (jobs : List Job)
    → IsValid env jobs
    → IsValid env (expire_leases env now jobs)
unfolding expire_leases
expire_leases-IsValid env now jobs =
    update_where-IsValid env (λ j. is_leased j.state && before_now j.leased_until now)
      (expired env now) jobs (IsTame-expired env now)

-- The other tables are as they were.
pub record IsPrepared (env : Env) (s p : Store) : Type 0 where
  pub targets : p.targets ≡ s.targets
  pub captures : p.captures ≡ s.captures
  pub shards : p.shards ≡ s.shards
  pub valid : IsValid env p.jobs

pub prepared-IsPrepared :
    (env : Env) (r : Request) (uuid : ℕ → String) (now : ℕ) (s : Store) {p : Store}
    → IsValid env s.jobs
    → prepared env r uuid now s ≡ ok p
    → IsPrepared env s p
unfolding prepared
prepared-IsPrepared env r uuid now s {p} v e =
    let rows =
      missing_jobs s (filter (is_served r.shard_id (digits_only r.requested_customer)) s.targets) in
    let built = λ (js : List Job). record s {
      jobs = expire_leases env now (supersede_old s.captures now js);
    } in
    let (jobs, inserted, same) =
      >>=-eq-ok (insert_missing uuid now 0 rows s.jobs) (λ js. ok (built js)) e in
    let is_built : built jobs ≡ p = ground arith in
    subst (IsPrepared env s) is_built (record {
      targets = refl;
      captures = refl;
      shards = refl;
      valid = expire_leases-IsValid env now (supersede_old s.captures now jobs) (
          supersede_old-IsValid env s.captures now jobs
            (insert_missing-IsValid env uuid now 0 rows s.jobs v inserted));
    })
