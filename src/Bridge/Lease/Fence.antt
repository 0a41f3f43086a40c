-- ===== src/Bridge/Lease/Fence.antt =====
-- Leasing keeps the invariant of the jobs: no campaign is leased twice.
use link_suffix.Base.{
  ℕ, ◌+◌, refl, inl, inr, List, [], ◌∷◌, some, String, arith, eq_iff, All, All-imp, All-zip,
  All-map, Pairwise, Pairwise-map, Option-cases, Bool-cases, if◌then◌else◌,
}
use link_suffix.Bridge.{Job, dead, Env, has_id}
use link_suffix.Bridge.Invariant.{
  Apart, IsSound, IsValid, IsTame, IsTame-released, update_where-IsValid,
}
use link_suffix.Bridge.Candidates.{Candidate}
use link_suffix.Bridge.Candidates.Ready.{IsClear, IsReady, Differ}
use link_suffix.Bridge.Lease.{leased_job, rejected_job, lease_row, lease_rows}
use link_suffix.Capture.Suffix.{delivery_suffix_issue, message}

IsTame-rejected : (env : Env) (issue : String) (now : ℕ) → IsTame env (rejected_job issue now)
IsTame-rejected env issue now =
    let t = IsTame-released env dead now refl in
    record {
      id = t.id;
      target = t.target;
      capture = t.capture;
      lease = t.lease;
      sound = λ j h. record {
        attempts = h.attempts;
        holder = λ e. ground arith;
        token = λ e. ground arith;
        until = λ e. ground arith;
      };
    }

module _ (env : Env) (worker shard_id token : String) (now : ℕ) (c : Candidate) where
  lease_it : Job → Job
  lease_it j = if has_id c.job.job_id j then leased_job env worker shard_id token now j else j

  lease_it-Apart :
      (a b : Job) → IsClear env c a → IsClear env c b → Apart a b → Apart (lease_it a) (lease_it b)
  unfolding lease_it
  lease_it-Apart a b ca cb h = record {
    ids = λ e. ground (arith, h.ids);
    pairs = λ e. ground (arith, h.pairs);
    fenced = λ la lb e. ground (
      arith,
      eq_iff a.job_id c.job.job_id,
      eq_iff b.job_id c.job.job_id,
      h.ids,
      h.fenced,
      ca.same,
      cb.same,
      ca.fenced,
      cb.fenced,
    );
  }

  lease_it-IsSound : (j : Job) → IsClear env c j → IsSound env j → IsSound env (lease_it j)
  unfolding lease_it
  lease_it-IsSound j k h = elim (Bool-cases (has_id c.job.job_id j)) [
    | inl hit ↦ rw hit (record {
      attempts = ground (arith, k.same, eq_iff j.job_id c.job.job_id);
      holder = λ _. refl;
      token = λ _. refl;
      until = λ _. refl;
    })
    | inr miss ↦ rw miss h
  ]

  lease_row-IsValid :
      (jobs : List Job)
      → IsReady env jobs c
      → IsValid env jobs
      → IsValid env (lease_row env worker shard_id token now c jobs).0
  unfolding lease_row lease_it
  lease_row-IsValid jobs ready v =
      elim (Option-cases (delivery_suffix_issue env.search_params (some c.capture.exact_suffix))) [
        | inl fine ↦
            rw (fine, lease_row)
              (record {
                apart =
                    Pairwise-map (IsClear env c) Apart Apart lease_it lease_it-Apart jobs ready
                      v.apart;
                sound = All-map (IsSound env) lease_it jobs (
                    All-zip (IsClear env c) (IsSound env) (λ j. IsSound env (lease_it j))
                      lease_it-IsSound jobs ready v.sound);
              })
        | inr (issue, e) ↦
            rw (e, lease_row)
              (update_where-IsValid env (has_id c.job.job_id) (rejected_job (message issue) now)
                jobs (IsTame-rejected env (message issue) now) v)
      ]

  -- The other candidates stay ready.
  lease_row-IsReady :
      (jobs : List Job) (d : Candidate)
      → Differ c d
      → IsReady env jobs c
      → IsReady env jobs d
      → IsReady env (lease_row env worker shard_id token now c jobs).0 d
  unfolding lease_row
  lease_row-IsReady jobs d h rc rd =
      elim (Option-cases (delivery_suffix_issue env.search_params (some c.capture.exact_suffix))) [
        | inl fine ↦
            rw (fine, lease_row)
              (All-map (IsClear env d) _ jobs
                (All-zip (IsClear env c) (IsClear env d) _ leased_clear jobs rc rd))
        | inr (issue, e) ↦
            rw (e, lease_row)
              (All-map (IsClear env d) _ jobs
                (All-imp (IsClear env d) _ (λ j k. rejected_clear (message issue) j k) jobs rd))
      ]
    where
      leased_clear :
          (j : Job)
          → IsClear env c j
          → IsClear env d j
          → IsClear env d
              (if has_id c.job.job_id j then leased_job env worker shard_id token now j else j)
      leased_clear j kc kd = record {
        fenced = λ l e. ground (arith, eq_iff j.job_id c.job.job_id, kc.same, kd.fenced, h.targets);
        same = λ e. ground (arith, eq_iff j.job_id c.job.job_id, kd.same, h.ids);
      }

      rejected_clear :
          (issue : String) (j : Job)
          → IsClear env d j
          → IsClear env d (if has_id c.job.job_id j then rejected_job issue now j else j)
      rejected_clear issue j kd = record {
        fenced = λ l e. ground (arith, kd.fenced);
        same = λ e. ground (arith, kd.same);
      }

module _ (env : Env) (worker shard_id : String) (token : ℕ → String) (now : ℕ) where
  rest-IsReady :
      (i : ℕ) (c : Candidate) (jobs : List Job) (cs : List Candidate)
      → IsReady env jobs c
      → All (Differ c) cs
      → All (IsReady env jobs) cs
      → All (IsReady env (lease_row env worker shard_id (token i) now c jobs).0) cs
  rest-IsReady i c jobs [] r d h = tt
  rest-IsReady i c jobs (k ∷ cs) r d h = (
    lease_row-IsReady env worker shard_id (token i) now c jobs k d.0 r h.0,
    rest-IsReady i c jobs cs r d.1 h.1,
  )

  pub lease_rows-IsValid :
      (i : ℕ) (cs : List Candidate) (jobs : List Job)
      → Pairwise Differ cs
      → All (IsReady env jobs) cs
      → IsValid env jobs
      → IsValid env (lease_rows env worker shard_id token now i cs jobs).0
  unfolding lease_rows
  lease_rows-IsValid i [] jobs d r v = v
  lease_rows-IsValid i (c ∷ cs) jobs d r v =
      lease_rows-IsValid (i + 1) cs (lease_row env worker shard_id (token i) now c jobs).0 d.1
        (rest-IsReady i c jobs cs r.0 d.0 r.1)
        (lease_row-IsValid env worker shard_id (token i) now c jobs r.0 v)
