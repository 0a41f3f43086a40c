-- ===== src/Bridge/Lease/Valid.antt =====
-- What a call of `leaseBridgeJobs` keeps, and what it hands out.
use link_suffix.Base.{
  Mem, Pairwise, All-imp, sym, ℕ, suc, ◌+◌, ◌≤◌, ◌<◌, ◌≡◌, refl, subst, ap, true, ◌||◌, List, [],
  ◌∷◌, Option, none, some, String, arith, All, length, Option-cases, inl, inr,
}
use link_suffix.Base.Text.{digits_only, is_empty}
use link_suffix.Capture.Suffix.{delivery_suffix_issue}
use link_suffix.Bridge.{
  Store, Job, Env, find_target, is_waiting, find_capture, latest_capture, is_capture,
  max_lease_jobs, max_attempts,
}
use link_suffix.Bridge.Results.{Result, ok, or_value, >>=-eq-ok, ◌>>=◌, guard}
use link_suffix.Bridge.Invariant.{IsValid}
use link_suffix.Bridge.Prepare.{Request, prepared, lock_active_shard, lease_limit}
use link_suffix.Bridge.Prepare.Valid.{IsPrepared, prepared-IsPrepared}
use link_suffix.Bridge.Candidates.{Candidate, is_served, select_candidates, interval_elapsed}
use link_suffix.Bridge.Candidates.Ready.{
  Differ, IsFrom, select_candidates-IsReady, select_candidates-IsFrom, select_candidates-Differ,
  length-select_candidates,
}
use link_suffix.Bridge.Lease.{
  Lease, lease_of, leased_job, lease_row, lease_rows, finished, lease_bridge_jobs, is_customer_id,
  push,
}
use link_suffix.Bridge.Lease.Fence.{lease_rows-IsValid}
use link_suffix.Bridge.Lease.Held.{row-own, rows-others, row-rest}

-- The parts of a call that succeeds.
record Run (env : Env) (r : Request) (uuid token : ℕ → String) (now : ℕ) (s t : Store)
    (ls : List Lease) : Type 0 where
  p : Store
  locked : lock_active_shard s r.shard_id ≡ ok tt
  prepares : prepared env r uuid now s ≡ ok p
  leases :
      (lease_rows env r.worker_id r.shard_id token now 0
        (select_candidates env p r.shard_id (digits_only r.requested_customer) now (lease_limit r))
        p.jobs).1
      ≡ ls
  jobs :
      (lease_rows env r.worker_id r.shard_id token now 0
        (select_candidates env p r.shard_id (digits_only r.requested_customer) now (lease_limit r))
        p.jobs).0
      ≡ t.jobs

lease_bridge_jobs-Run :
    (env : Env) (r : Request) (uuid token : ℕ → String) (now : ℕ) (s t : Store) (ls : List Lease)
    → lease_bridge_jobs env r uuid token now s ≡ ok (t, ls)
    → Run env r uuid token now s t ls
unfolding lease_bridge_jobs finished
lease_bridge_jobs-Run env r uuid token now s t ls e =
    let customer = digits_only r.requested_customer in
    let rows = λ (p : Store). select_candidates env p r.shard_id customer now (lease_limit r) in
    let final = λ (p : Store). lease_rows env r.worker_id r.shard_id token now 0 (rows p) p.jobs in
    let pair : Store → Store × List Lease = λ p. (finished r now p (final p).0, (final p).1) in
    let answer = λ (p : Store). ok (pair p) in
    let (_, _, e1) =
      >>=-eq-ok
        (guard (is_empty customer || is_customer_id customer)
          "A valid 10-digit customer filter is required")
        (λ _. lock_active_shard s r.shard_id >>= λ _. prepared env r uuid now s >>= answer) e in
    let (_, locked, e2) =
      >>=-eq-ok (lock_active_shard s r.shard_id) (λ _. prepared env r uuid now s >>= answer) e1 in
    let (p, prepares, e3) = >>=-eq-ok (prepared env r uuid now s) answer e2 in
    record {
      p = p;
      locked = locked;
      prepares = prepares;
      leases = ap (λ (a : Result (Store × List Lease)). (or_value a (t, ls)).1) e3;
      jobs = ap (λ (a : Result (Store × List Lease)). (or_value a (t, ls)).0.jobs) e3;
    }

-- A lease call that succeeds keeps the jobs valid: keys stay unique, no campaign is leased twice, no job
-- exceeds its attempts, and each leased job names its worker, the hash of its token and its end.
pub lease_bridge_jobs-IsValid :
    (env : Env) (r : Request) (uuid token : ℕ → String) (now : ℕ) (s t : Store) (ls : List Lease)
    → IsValid env s.jobs
    → lease_bridge_jobs env r uuid token now s ≡ ok (t, ls)
    → IsValid env t.jobs
lease_bridge_jobs-IsValid env r uuid token now s t ls v e =
    let run = lease_bridge_jobs-Run env r uuid token now s t ls e in
    let kept = prepared-IsPrepared env r uuid now s v run.prepares in
    let customer = digits_only r.requested_customer in
    subst (IsValid env) run.jobs (
      lease_rows-IsValid env r.worker_id r.shard_id token now 0 _ run.p.jobs
        (select_candidates-Differ env run.p r.shard_id customer now (lease_limit r) kept.valid)
        (select_candidates-IsReady env run.p r.shard_id customer now (lease_limit r) kept.valid)
        kept.valid)

-- What a lease that is handed out stands for, with the jobs as the call's preparing statements leave them and as the
-- call itself does.
pub record IsGranted (env : Env) (r : Request) (now : ℕ) (s : Store) (found final : List Job)
    (l : Lease) : Type 0 where
  pub row : Candidate
  pub job_found : Mem row.job found
  pub waits : is_waiting row.job.state ≡ true
  pub due : row.job.available_at ≤ now
  pub holds : Mem (leased_job env r.worker_id r.shard_id l.lease_token now row.job) final
  pub target_found : find_target s row.job.target_id ≡ some row.target
  pub capture_found : find_capture s row.job.capture_id ≡ some row.capture
  pub served : is_served r.shard_id (digits_only r.requested_customer) row.target ≡ true
  pub newest : is_capture (latest_capture s.captures row.job.target_id) row.job.capture_id ≡ true
  pub elapsed : interval_elapsed row.target now ≡ true
  pub tried : row.job.attempt_count < max_attempts env
  pub deliverable : delivery_suffix_issue env.search_params (some row.capture.exact_suffix) ≡ none
  pub handed : l ≡ lease_of l.lease_token row

All-push {κ} :
    (P : Lease → Type κ) (o : Option Lease) (ls : List Lease)
    → ((l : Lease) → o ≡ some l → P l)
    → All P ls
    → All P (push o ls)
All-push P none ls f h = h
All-push P (some l) ls f h = (f l refl, h)

length-push : (o : Option Lease) (ls : List Lease) → length (push o ls) ≤ suc (length ls)
length-push none ls = omega arith
length-push (some l) ls = omega arith

module _ (env : Env) (r : Request) (token : ℕ → String) (now : ℕ) (s p : Store)
    (kept : IsPrepared env s p) where
  abbrev customer : String
  customer = digits_only r.requested_customer

  grant :
      (tok : String) (c : Candidate)
      → IsFrom env p r.shard_id customer now c
      → delivery_suffix_issue env.search_params (some c.capture.exact_suffix) ≡ none
      → (final : List Job) → Mem (leased_job env r.worker_id r.shard_id tok now c.job) final
      → IsGranted env r now s p.jobs final (lease_of tok c)
  grant tok c (j, m, o) fine final held = record {
    row = c;
    job_found = subst (λ k. Mem k p.jobs) (sym o.job) m;
    waits = ground (arith, o.passes, o.job);
    due = ground (arith, o.passes, o.job);
    holds = held;
    target_found = ground (arith, o.target, o.job, kept.targets);
    capture_found = ground (arith, o.capture, o.job, kept.captures);
    served = ground (arith, o.passes);
    newest = ground (arith, o.passes, o.job, kept.captures);
    elapsed = ground (arith, o.passes);
    tried = ground (arith, o.passes, o.job);
    deliverable = fine;
    handed = refl;
  }

  lease_row-IsGranted :
      (tok : String) (c : Candidate) (jobs final : List Job) (l : Lease)
      → IsFrom env p r.shard_id customer now c
      → (lease_row env r.worker_id r.shard_id tok now c jobs).1 ≡ some l
      → (delivery_suffix_issue env.search_params (some c.capture.exact_suffix) ≡ none
          → Mem (leased_job env r.worker_id r.shard_id tok now c.job) final)
      → IsGranted env r now s p.jobs final l
  unfolding lease_row
  lease_row-IsGranted tok c jobs final l h e held =
      elim (Option-cases (delivery_suffix_issue env.search_params (some c.capture.exact_suffix))) [
        | inl fine ↦
            let is_lease : lease_of tok c ≡ l = ground arith in
            subst (IsGranted env r now s p.jobs final) is_lease
              (grant tok c h fine final (held fine))
        | inr (issue, e') ↦ ground arith
      ]

  lease_rows-IsGranted :
      (i : ℕ) (cs : List Candidate) (jobs : List Job)
      → All (IsFrom env p r.shard_id customer now) cs
      → Pairwise Differ cs
      → All (λ c. Mem c.job jobs) cs
      → All
          (IsGranted env r now s p.jobs
            (lease_rows env r.worker_id r.shard_id token now i cs jobs).0)
          (lease_rows env r.worker_id r.shard_id token now i cs jobs).1
  unfolding lease_rows
  lease_rows-IsGranted i [] jobs h apart there = tt
  lease_rows-IsGranted i (c ∷ cs) jobs h apart there =
      let round = lease_row env r.worker_id r.shard_id (token i) now c jobs in
      let final = (lease_rows env r.worker_id r.shard_id token now (i + 1) cs round.0).0 in
      All-push (IsGranted env r now s p.jobs final) round.1 _
        (λ l e. lease_row-IsGranted (token i) c jobs final l h.0 e λ fine.
          rows-others env r.worker_id r.shard_id token now (i + 1) cs c
            (leased_job env r.worker_id r.shard_id (token i) now c.job) round.0 refl apart.0
            (row-own env r.worker_id r.shard_id token now (token i) c jobs fine there.0))
        (lease_rows-IsGranted (i + 1) cs round.0 h.1 apart.1
          (row-rest env r.worker_id r.shard_id token now (token i) c cs jobs apart.0 there.1))

  -- The candidates are rows of the table.
  from-there :
      (cs : List Candidate)
      → All (IsFrom env p r.shard_id customer now) cs
      → All (λ c. Mem c.job p.jobs) cs
  from-there =
      All-imp (IsFrom env p r.shard_id customer now) (λ c. Mem c.job p.jobs)
        λ c h. subst (λ k. Mem k p.jobs) (sym h.2.job) h.1

module _ (env : Env) (worker shard_id : String) (token : ℕ → String) (now : ℕ) where
  length-lease_rows :
      (i : ℕ) (cs : List Candidate) (jobs : List Job)
      → length (lease_rows env worker shard_id token now i cs jobs).1 ≤ length cs
  unfolding lease_rows
  length-lease_rows i [] jobs = omega arith
  length-lease_rows i (c ∷ cs) jobs =
      let o = (lease_row env worker shard_id (token i) now c jobs).1 in
      omega (
        arith,
        length-push o (lease_rows env worker shard_id token now (i + 1) cs _).1,
        length-lease_rows (i + 1) cs (lease_row env worker shard_id (token i) now c jobs).0,
      )

-- In a store whose jobs are valid, a lease call that answers hands out at most 200 leases. Each is for an
-- enabled target of the shard (and of the named customer), whose newest capture it carries, whose minimum
-- interval since the last applied update has passed, and whose suffix is deliverable. Its job stands in the
-- table that the preparing statements of the call leave, where it waits, is due and has attempts left; behind the
-- call it stands there leased to the worker under the token that is handed out, with one attempt more.
pub lease_bridge_jobs-IsGranted :
    (env : Env) (r : Request) (uuid token : ℕ → String) (now : ℕ) (s t : Store) (ls : List Lease)
    → IsValid env s.jobs
    → lease_bridge_jobs env r uuid token now s ≡ ok (t, ls)
    → (length ls ≤ max_lease_jobs)
      × (p : Store) × (prepared env r uuid now s ≡ ok p)
      × All (IsGranted env r now s p.jobs t.jobs) ls
lease_bridge_jobs-IsGranted env r uuid token now s t ls v e =
    let run = lease_bridge_jobs-Run env r uuid token now s t ls e in
    let kept = prepared-IsPrepared env r uuid now s v run.prepares in
    let customer = digits_only r.requested_customer in
    let rows = select_candidates env run.p r.shard_id customer now (lease_limit r) in
    let all_from = select_candidates-IsFrom env run.p r.shard_id customer now (lease_limit r) in
    let granted =
      lease_rows-IsGranted env r token now s run.p kept 0 rows run.p.jobs all_from
        (select_candidates-Differ env run.p r.shard_id customer now (lease_limit r) kept.valid)
        (from-there env r token now s run.p kept rows all_from) in
    (
      subst (λ (l : List Lease). length l ≤ max_lease_jobs) run.leases
          (omega (
            arith,
            length-lease_rows env r.worker_id r.shard_id token now 0 rows run.p.jobs,
            length-select_candidates env run.p r.shard_id customer now (lease_limit r),
          )),
      run.p,
      run.prepares,
      subst (λ (js : List Job). All (IsGranted env r now s run.p.jobs js) ls) run.jobs
          (subst
            (λ (l : List Lease).
              All
                (IsGranted env r now s run.p.jobs
                  (lease_rows env r.worker_id r.shard_id token now 0 rows run.p.jobs).0)
                l)
            run.leases granted),
    )
