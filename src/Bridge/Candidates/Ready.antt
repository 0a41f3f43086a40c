-- ===== src/Bridge/Candidates/Ready.antt =====
-- Why a candidate may be leased: no other row of its target is, and no two candidates share a target.
use link_suffix.Base.{
  Mem, mem-cons_self, mem-cons_of_mem, All-imp, ℕ, ◌<◌, ◌≡◌, ◌≢◌, ◌⊎◌, sym, ap, All-intro, length,
  length-take, length-map, ◌≤◌, ◌∙◌, str_eq, not, ◌&&◌, inl, inr, Bool, true, false, List, [], ◌∷◌,
  some, String, arith, eq_iff, All, All-zip, All-take, All-map, Pairwise, Pairwise-take,
  Pairwise-map, Pairwise-Sees, Sees, any, any-false, Option-cases, Bool-cases,
}
use link_suffix.Base.Sorting.{All-sort, Pairwise-sort}
use link_suffix.Bridge.{
  Store, Job, Env, max_attempts, is_leased, is_waiting, latest_capture, find_target, find_capture,
  is_capture,
}
use link_suffix.Bridge.Invariant.{Apart, IsValid}
use link_suffix.Bridge.Candidates.{
  Candidate, Ranked, candidate_of, candidates_of, is_candidate, select_candidates, leased_before,
}

All-mem : (js : List Job) → All (λ j. Mem j js) js
All-mem [] = tt
All-mem (j ∷ js) = (
  mem-cons_self,
  All-imp (λ k. Mem k js) (λ k. Mem k (j ∷ js)) (λ k m. mem-cons_of_mem j m) js (All-mem js),
)

pub Apart-symm : (a b : Job) → Apart a b → Apart b a
Apart-symm a b h = record {
  ids = λ e. h.ids (sym e);
  pairs = λ e k. h.pairs (sym e) (sym k);
  fenced = λ p q e. h.fenced q p (sym e);
}

-- A row of the table beside a candidate: it is leased for another target, and is the candidate's only
-- under its target and with attempts left.
pub record IsClear (env : Env) (c : Candidate) (j : Job) : Type 0 where
  pub fenced : is_leased j.state ≡ true → j.target_id ≢ c.job.target_id
  pub same :
      j.job_id ≡ c.job.job_id
      → (j.target_id ≡ c.job.target_id) × (j.attempt_count < max_attempts env)

abbrev pub IsReady : Env → List Job → Candidate → Type 0
IsReady env jobs c = All (IsClear env c) jobs

pub record Differ (a b : Candidate) : Type 0 where
  pub targets : a.job.target_id ≢ b.job.target_id
  pub ids : a.job.job_id ≢ b.job.job_id

pub Differ-symm : (a b : Candidate) → Differ a b → Differ b a
Differ-symm a b h = record { targets = λ e. h.targets (sym e); ids = λ e. h.ids (sym e) }

-- Where a candidate comes from.
pub record Origin (env : Env) (s : Store) (shard_id customer : String) (now : ℕ) (j : Job)
    (c : Candidate) : Type 0 where
  pub job : c.job ≡ j
  pub target : find_target s j.target_id ≡ some c.target
  pub capture : find_capture s j.capture_id ≡ some c.capture
  pub passes : is_candidate env s shard_id customer now j c.target ≡ true

module _ (env : Env) (s : Store) (shard_id customer : String) (now : ℕ) where
  candidate_of-Origin :
      (j : Job) (c : Candidate)
      → candidate_of env s shard_id customer now j ≡ some c
      → Origin env s shard_id customer now j c
  unfolding candidate_of
  candidate_of-Origin j c e = elim (Option-cases (find_target s j.target_id)) [
    | inl no_target ↦ ground arith
    | inr (t, found_target) ↦ elim (Option-cases (find_capture s j.capture_id)) [
      | inl no_capture ↦ ground arith
      | inr (k, found_capture) ↦ elim (Bool-cases (is_candidate env s shard_id customer now j t)) [
        | inl passes ↦ record {
          job = ground arith;
          target = ground arith;
          capture = ground arith;
          passes = ground arith;
        }
        | inr fails ↦ ground arith
      ]
    ]
  ]

  Origin-IsReady :
      (j : Job) (c : Candidate)
      → Origin env s shard_id customer now j c
      → Sees Apart Apart-symm s.jobs j
      → IsReady env s.jobs c
  Origin-IsReady j c o sees =
      All-zip _ (λ a. blocks a ≡ false) (IsClear env c) clear s.jobs sees
        (any-false blocks s.jobs unblocked)
    where
      blocks : Job → Bool
      blocks a =
          str_eq a.target_id j.target_id && is_leased a.state && not (str_eq a.job_id j.job_id)

      unblocked : any blocks s.jobs ≡ false
      unblocked = ground (arith, o.passes)

      waits : is_waiting j.state ≡ true
      waits = ground (arith, o.passes)

      room : j.attempt_count < max_attempts env
      room = ground (arith, o.passes)

      clear : (a : Job) → (a ≡ j) ⊎ Apart a j → blocks a ≡ false → IsClear env c a
      clear a (inl e) b = record {
        fenced = λ l. ground (arith, waits, ap (λ (x : Job). x.state) e);
        same = λ _. (
          ground (arith, ap (λ (x : Job). x.target_id) (e ∙ sym o.job)),
          ground (arith, room, ap (λ (x : Job). x.attempt_count) e),
        );
      }
      clear a (inr r) b = record {
        fenced = λ l e.
            ground
              (arith, b, eq_iff a.target_id j.target_id, eq_iff a.job_id j.job_id, r.ids, o.job);
        same = λ e. absurd (r.ids (e ∙ ap (λ (x : Job). x.job_id) o.job));
      }

  candidates_of-IsReady :
      (js : List Job)
      → All (Sees Apart Apart-symm s.jobs) js
      → All (IsReady env s.jobs) (candidates_of env s shard_id customer now js)
  unfolding candidates_of
  candidates_of-IsReady [] h = tt
  candidates_of-IsReady (j ∷ js) h =
      elim (Option-cases (candidate_of env s shard_id customer now j)) [
        | inl e ↦ rw (e, candidates_of) (candidates_of-IsReady js h.1)
        | inr (c, e) ↦
            rw (e, candidates_of)
              (Origin-IsReady j c (candidate_of-Origin j c e) h.0, candidates_of-IsReady js h.1)
      ]

  Origin-Differ :
      (i j : Job) (a b : Candidate)
      → Origin env s shard_id customer now i a
      → Origin env s shard_id customer now j b
      → Apart i j
      → Differ a b
  Origin-Differ i j a b oa ob h = record {
    targets = λ e. h.pairs (same e) (newest i j (passes i a oa) (passes j b ob) (same e));
    ids = λ e.
        h.ids (sym (ap (λ (x : Job). x.job_id) oa.job) ∙ e ∙ ap (λ (x : Job). x.job_id) ob.job);
  }
    where
      same : a.job.target_id ≡ b.job.target_id → i.target_id ≡ j.target_id
      same e = sym (ap (λ (x : Job). x.target_id) oa.job) ∙ e ∙ ap (λ (x : Job). x.target_id) ob.job

      passes :
          (k : Job) (c : Candidate)
          → Origin env s shard_id customer now k c
          → is_capture (latest_capture s.captures k.target_id) k.capture_id ≡ true
      passes k c o = ground (arith, o.passes)

      newest :
          (k l : Job)
          → is_capture (latest_capture s.captures k.target_id) k.capture_id ≡ true
          → is_capture (latest_capture s.captures l.target_id) l.capture_id ≡ true
          → k.target_id ≡ l.target_id
          → k.capture_id ≡ l.capture_id
      newest k l p q e = ground arith

  candidates_of-All-Differ :
      (j : Job) (c : Candidate) (js : List Job)
      → Origin env s shard_id customer now j c
      → All (Apart j) js
      → All (Differ c) (candidates_of env s shard_id customer now js)
  unfolding candidates_of
  candidates_of-All-Differ j c [] o h = tt
  candidates_of-All-Differ j c (k ∷ js) o h =
      elim (Option-cases (candidate_of env s shard_id customer now k)) [
        | inl e ↦ rw (e, candidates_of) (candidates_of-All-Differ j c js o h.1)
        | inr (d, e) ↦
            rw (e, candidates_of)
              (
                Origin-Differ j k c d o (candidate_of-Origin k d e) h.0,
                candidates_of-All-Differ j c js o h.1,
              )
      ]

  candidates_of-Differ :
      (js : List Job)
      → Pairwise Apart js
      → Pairwise Differ (candidates_of env s shard_id customer now js)
  unfolding candidates_of
  candidates_of-Differ [] h = tt
  candidates_of-Differ (j ∷ js) h =
      elim (Option-cases (candidate_of env s shard_id customer now j)) [
        | inl e ↦ rw (e, candidates_of) (candidates_of-Differ js h.1)
        | inr (c, e) ↦
            rw (e, candidates_of)
              (
                candidates_of-All-Differ j c js (candidate_of-Origin j c e) h.0,
                candidates_of-Differ js h.1,
              )
      ]

  -- A row of the answer stems from a job of the table.
  abbrev pub IsFrom : Candidate → Type 0
  IsFrom c = (j : Job) × Mem j s.jobs × Origin env s shard_id customer now j c

  candidates_of-IsFrom :
      (js : List Job)
      → All (λ j. Mem j s.jobs) js
      → All IsFrom (candidates_of env s shard_id customer now js)
  unfolding candidates_of
  candidates_of-IsFrom [] h = tt
  candidates_of-IsFrom (j ∷ js) h =
      elim (Option-cases (candidate_of env s shard_id customer now j)) [
        | inl e ↦ rw (e, candidates_of) (candidates_of-IsFrom js h.1)
        | inr (c, e) ↦
            rw (e, candidates_of) ((j, h.0, candidate_of-Origin j c e), candidates_of-IsFrom js h.1)
      ]

  -- Ranking, sorting and the limit keep what holds of every candidate, and of every two.
  select_candidates-All {κ} :
      (P : Candidate → Type κ) (limit : ℕ)
      → All P (candidates_of env s shard_id customer now s.jobs)
      → All P (select_candidates env s shard_id customer now limit)
  unfolding select_candidates
  select_candidates-All P limit h =
      All-map P (λ (r : Ranked). r.row) _
        (All-take (λ (r : Ranked). P r.row) limit _
          (All-sort (leased_before env) (λ (r : Ranked). P r.row) _
            (All-map (λ (r : Ranked). P r.row) _ (candidates_of env s shard_id customer now s.jobs)
              h)))

  pub select_candidates-IsReady :
      (limit : ℕ)
      → IsValid env s.jobs
      → All (IsReady env s.jobs) (select_candidates env s shard_id customer now limit)
  select_candidates-IsReady limit v =
      select_candidates-All (IsReady env s.jobs) limit
        (candidates_of-IsReady s.jobs (Pairwise-Sees Apart Apart-symm s.jobs v.apart))

  pub select_candidates-IsFrom :
      (limit : ℕ) → All IsFrom (select_candidates env s shard_id customer now limit)
  select_candidates-IsFrom limit =
      select_candidates-All IsFrom limit (candidates_of-IsFrom s.jobs (All-mem s.jobs))

  pub select_candidates-Differ :
      (limit : ℕ)
      → IsValid env s.jobs
      → Pairwise Differ (select_candidates env s shard_id customer now limit)
  unfolding select_candidates
  select_candidates-Differ limit v =
      let D = λ (a b : Ranked). Differ a.row b.row in
      let all = candidates_of env s shard_id customer now s.jobs in
      Pairwise-map (λ _. Unit {0}) D Differ (λ r. r.row) (λ x y _ _ h. h) _
        (All-intro (λ _. Unit {0}) (λ _. tt) _)
        (Pairwise-take D limit _ (
          Pairwise-sort (leased_before env) D (λ a b. Differ-symm a.row b.row) _
            (Pairwise-map (λ _. Unit {0}) Differ D _ (λ x y _ _ h. h) all
              (All-intro (λ _. Unit {0}) (λ _. tt) all) (candidates_of-Differ s.jobs v.apart))))

  pub length-select_candidates :
      (limit : ℕ) → length (select_candidates env s shard_id customer now limit) ≤ limit
  unfolding select_candidates
  length-select_candidates limit = rw length-map (length-take limit _)
