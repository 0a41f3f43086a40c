-- ===== src/Bridge/Lease/Held.antt =====
-- The rows of the jobs that a lease call hands out: each is leased by its own round, and left alone by the others.
use link_suffix.Base.{
  Mem, mem-map_of_mem, ℕ, ◌+◌, ◌≡◌, ◌≢◌, inl, inr, true, false, List, [], ◌∷◌, none, some, String,
  eq_iff, All, subst, refl, ◌∙◌, sym, Bool-cases, Option-cases, if◌then◌else◌,
}
use link_suffix.Capture.Suffix.{delivery_suffix_issue}
use link_suffix.Bridge.{Job, Env, has_id, update_where}
use link_suffix.Bridge.Candidates.{Candidate}
use link_suffix.Bridge.Candidates.Ready.{Differ}
use link_suffix.Bridge.Lease.{leased_job, lease_row, lease_rows}

other-id : (a b : Job) → a.job_id ≢ b.job_id → has_id a.job_id b ≡ false
other-id a b ne = elim (Bool-cases (has_id a.job_id b)) [
  | inl hit ↦ absurd (ne (sym ((eq_iff b.job_id a.job_id).0 hit)))
  | inr miss ↦ miss
]

-- An update of the rows of another key keeps a row.
update-other :
    (a b : Job) (f : Job → Job) (jobs : List Job)
    → has_id a.job_id b ≡ false
    → Mem b jobs
    → Mem b (update_where (has_id a.job_id) f jobs)
update-other a b f jobs miss m =
    let g : Job → Job = λ j. if has_id a.job_id j then f j else j in
    let same : g b ≡ b = rw miss refl in
    subst (λ j. Mem j (update_where (has_id a.job_id) f jobs)) same (mem-map_of_mem g m)

update-own :
    (a : Job) (f : Job → Job) (jobs : List Job)
    → Mem a jobs
    → Mem (f a) (update_where (has_id a.job_id) f jobs)
update-own a f jobs m =
    let g : Job → Job = λ j. if has_id a.job_id j then f j else j in
    let hit : has_id a.job_id a ≡ true = (eq_iff a.job_id a.job_id).1 refl in
    let same : g a ≡ f a = rw hit refl in
    subst (λ j. Mem j (update_where (has_id a.job_id) f jobs)) same (mem-map_of_mem g m)

module _ (env : Env) (worker shard_id : String) (token : ℕ → String) (now : ℕ) where
  row-other :
      (tok : String) (c : Candidate) (b : Job) (jobs : List Job)
      → has_id c.job.job_id b ≡ false
      → Mem b jobs
      → Mem b (lease_row env worker shard_id tok now c jobs).0
  unfolding lease_row
  row-other tok c b jobs miss m =
      elim (Option-cases (delivery_suffix_issue env.search_params (some c.capture.exact_suffix))) [
        | inl fine ↦ rw (lease_row, fine) (update-other c.job b _ jobs miss m)
        | inr (issue, bad) ↦ rw (lease_row, bad) (update-other c.job b _ jobs miss m)
      ]

  pub row-own :
      (tok : String) (c : Candidate) (jobs : List Job)
      → delivery_suffix_issue env.search_params (some c.capture.exact_suffix) ≡ none
      → Mem c.job jobs
      → Mem
          (leased_job env worker shard_id tok now c.job)
          (lease_row env worker shard_id tok now c jobs).0
  unfolding lease_row
  row-own tok c jobs fine m =
      rw (lease_row, fine) (update-own c.job (leased_job env worker shard_id tok now) jobs m)

  -- The rounds of the other candidates.
  pub rows-others :
      (i : ℕ) (cs : List Candidate) (c : Candidate) (b : Job) (jobs : List Job)
      → b.job_id ≡ c.job.job_id
      → All (Differ c) cs
      → Mem b jobs
      → Mem b (lease_rows env worker shard_id token now i cs jobs).0
  unfolding lease_rows
  rows-others i [] c b jobs same h m = m
  rows-others i (d ∷ ds) c b jobs same h m =
      rows-others (i + 1) ds c b (lease_row env worker shard_id (token i) now d jobs).0 same h.1
        (row-other (token i) d b jobs (other-id d.job b λ e. h.0.ids (sym same ∙ sym e)) m)

  -- The candidates that are still to come are in the table.
  pub row-rest :
      (tok : String) (c : Candidate) (cs : List Candidate) (jobs : List Job)
      → All (Differ c) cs
      → All (λ d. Mem d.job jobs) cs
      → All (λ d. Mem d.job (lease_row env worker shard_id tok now c jobs).0) cs
  row-rest tok c [] jobs h there = tt
  row-rest tok c (d ∷ ds) jobs h there = (
    row-other tok c d.job jobs (other-id c.job d.job h.0.ids) there.0,
    row-rest tok c ds jobs h.1 there.1,
  )
