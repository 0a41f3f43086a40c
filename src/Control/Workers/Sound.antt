-- ===== src/Control/Workers/Sound.antt =====
-- The invariant of the pool, and that every call and every event keeps it.
use link_suffix.Base.{
  length-filter, ℕ, suc, ◌≤◌, ◌<◌, ◌≡◌, refl, subst, true, false, not, List, [], ◌∷◌, ◌++◌, none,
  some, String, ◌==◌, str_eq, eq_iff, length, filter, any, All, All-imp, All-append, Pairwise,
  Pairwise-filter, Bool-cases, arith, inl, inr,
}
use link_suffix.Base.Maps.{
  Map, get, put, delete, get-put, get-put_at, get-delete_at, length-put, length-delete_there,
}
use link_suffix.Control.Workers.{
  Worker, Options, Pool, find_worker, change_worker, with_task, without_task,
}
use link_suffix.Control.Workers.Table.{
  IsUnique, total, number_of_found, length-change, total-change, All-change, IsUnique-change,
  Pairwise-last,
}

-- The tasks of a worker are owned by it.
abbrev pub Owned : Map ℕ → Worker → Type 0
Owned m w = All (λ r. get m r ≡ some w.number) w.tasks

abbrev pub IsDistinct : List String → Type 0
IsDistinct = Pairwise (λ r s. str_eq r s ≡ false)

-- What holds of one worker of a pool.
pub record IsKept (o : Options) (p : Pool) (w : Worker) : Type 0 where
  pub owned : Owned p.task_owners w
  pub distinct : IsDistinct w.tasks
  pub within : length w.tasks ≤ o.slots_per_process
  pub numbered : w.number ≤ p.worker_sequence

pub record IsSound (o : Options) (p : Pool) : Type 0 where
  pub kept : All (IsKept o p) p.workers
  pub unique : IsUnique p.workers
  pub few : length p.workers ≤ o.process_count
  pub counted : length p.task_owners ≤ total p.workers

-- A task that no worker has yet.
owned-put :
    (m : Map ℕ) (run : String) (n k : ℕ) (ts : List String)
    → get m run ≡ none
    → All (λ r. get m r ≡ some k) ts
    → All (λ r. get (put run n m) r ≡ some k) ts
owned-put m run n k [] free h = tt
owned-put m run n k (t ∷ ts) free h =
    (ground (arith, h.0, free, get-put_at t run n m, eq_iff run t), owned-put m run n k ts free h.1)

fresh_task :
    (m : Map ℕ) (run : String) (k : ℕ) (ts : List String)
    → get m run ≡ none
    → All (λ r. get m r ≡ some k) ts
    → All (λ r. str_eq r run ≡ false) ts
fresh_task m run k [] free h = tt
fresh_task m run k (t ∷ ts) free h =
    (ground (arith, h.0, free, eq_iff t run), fresh_task m run k ts free h.1)

pub found-All {κ} :
    (P : Worker → Type κ) (n : ℕ) (ws : List Worker) (w : Worker)
    → All P ws
    → find_worker n ws ≡ some w
    → P w
found-All P n [] w h e = absurd (ground arith)
found-All P n (v ∷ vs) w h e = elim (Bool-cases (v.number == n)) [
  | inl hit ↦ let same : v ≡ w = ground (arith, hit, e) in subst P same h.0
  | inr miss ↦ found-All P n vs w h.1 (ground (arith, miss, e))
]

length-last : (x : String) (xs : List String) → length (xs ++ (x ∷ [])) ≡ suc (length xs)
length-last x [] = refl
length-last x (y ∷ ys) = omega (arith, length-last x ys)

-- A task of a worker that is not the owner's stays.
owned-delete :
    (m : Map ℕ) (run : String) (n k : ℕ) (ts : List String)
    → get m run ≡ some n
    → (k == n) ≡ false
    → All (λ r. get m r ≡ some k) ts
    → All (λ r. get (delete run m) r ≡ some k) ts
owned-delete m run n k [] mine d h = tt
owned-delete m run n k (t ∷ ts) mine d h = (
  ground (arith, h.0, mine, d, get-delete_at t run m, eq_iff run t),
  owned-delete m run n k ts mine d h.1,
)

-- And so do the owner's other tasks.
owned-filter :
    (m : Map ℕ) (run : String) (k : ℕ) (ts : List String)
    → All (λ r. get m r ≡ some k) ts
    → All (λ r. get (delete run m) r ≡ some k) (filter (λ r. not (str_eq r run)) ts)
owned-filter m run k [] h = tt
owned-filter m run k (t ∷ ts) h =
    ground (arith, get-delete_at t run m, eq_iff run t, eq_iff t run, owned-filter m run k ts h.1)

owner-any :
    (m : Map ℕ) (run : String) (k : ℕ) (ts : List String)
    → All (λ r. get m r ≡ some k) ts
    → any (λ r. str_eq r run) ts ≡ true
    → get m run ≡ some k
owner-any m run k [] h e = absurd (ground (arith, e))
owner-any m run k (t ∷ ts) h e = ground (arith, eq_iff t run, h.0, owner-any m run k ts h.1)

length-kept :
    (run : String) (ts : List String)
    → All (λ r. str_eq run r ≡ false) ts
    → length (filter (λ r. not (str_eq r run)) ts) ≡ length ts
length-kept run [] h = refl
length-kept run (t ∷ ts) h = ground (arith, h.0, eq_iff run t, eq_iff t run, length-kept run ts h.1)

-- One task at most goes.
length-filter_one :
    (run : String) (ts : List String)
    → IsDistinct ts
    → length ts ≤ suc (length (filter (λ r. not (str_eq r run)) ts))
length-filter_one run [] d = omega arith
length-filter_one run (t ∷ ts) d = elim (Bool-cases (str_eq t run)) [
  | inl hit ↦
      let same : t ≡ run = (eq_iff t run).0 hit in
      rw hit
        (omega (arith, length-kept run ts (subst (λ x. All (λ r. str_eq x r ≡ false) ts) same d.0)))
  | inr miss ↦ rw miss (omega (arith, length-filter_one run ts d.1))
]

module _ (o : Options) where
  -- A worker with room takes a run that nobody has.
  pub assigned-IsSound :
      (p : Pool) (run : String) (n : ℕ) (w : Worker)
      → IsSound o p
      → get p.task_owners run ≡ none
      → find_worker n p.workers ≡ some w
      → length w.tasks < o.slots_per_process
      → IsSound o (record p {
        workers = change_worker n (with_task run) p.workers;
        task_owners = put run n p.task_owners;
      })
  assigned-IsSound p run n w s free found room =
      let q : Pool = record p {
        workers = change_worker n (with_task run) p.workers;
        task_owners = put run n p.task_owners;
      } in
      let mine = found-All (IsKept o p) n p.workers w s.kept found in
      let named = number_of_found n p.workers w found in
      record {
        kept =
            All-change n (with_task run) (IsKept o q) p.workers w s.unique
              (All-imp (IsKept o p) (λ v. (v.number == n) ≡ false → IsKept o q v)
                (λ v k d. record {
                  owned = owned-put p.task_owners run n v.number v.tasks free k.owned;
                  distinct = k.distinct;
                  within = k.within;
                  numbered = k.numbered;
                })
                p.workers s.kept)
              found
              (record {
                owned =
                    All-append (λ r. get (put run n p.task_owners) r ≡ some w.number) w.tasks
                      (run ∷ []) (owned-put p.task_owners run n w.number w.tasks free mine.owned)
                      (rw named (get-put run n p.task_owners), tt);
                distinct =
                    Pairwise-last (λ r t. str_eq r t ≡ false) w.tasks run
                      (fresh_task p.task_owners run w.number w.tasks free mine.owned) mine.distinct;
                within = omega (arith, room, length-last run w.tasks);
                numbered = mine.numbered;
              });
        unique = IsUnique-change n (with_task run) (λ v. refl) p.workers s.unique;
        few = omega (arith, length-change n (with_task run) p.workers, s.few);
        counted = omega (
          arith,
          s.counted,
          length-put run n p.task_owners,
          length-last run w.tasks,
          total-change n (with_task run) p.workers w found,
        );
      }

  -- A task ends.
  pub ended-IsSound :
      (p : Pool) (run : String) (n : ℕ) (w : Worker)
      → IsSound o p
      → find_worker n p.workers ≡ some w
      → any (λ r. str_eq r run) w.tasks ≡ true
      → IsSound o (record p {
        workers = change_worker n (without_task run) p.workers;
        task_owners = delete run p.task_owners;
      })
  ended-IsSound p run n w s found there =
      let q : Pool = record p {
        workers = change_worker n (without_task run) p.workers;
        task_owners = delete run p.task_owners;
      } in
      let mine = found-All (IsKept o p) n p.workers w s.kept found in
      let named = number_of_found n p.workers w found in
      let owns : get p.task_owners run ≡ some n =
        rw (← named) (owner-any p.task_owners run w.number w.tasks mine.owned there) in
      record {
        kept =
            All-change n (without_task run) (IsKept o q) p.workers w s.unique
              (All-imp (IsKept o p) (λ v. (v.number == n) ≡ false → IsKept o q v)
                (λ v k d. record {
                  owned = owned-delete p.task_owners run n v.number v.tasks owns d k.owned;
                  distinct = k.distinct;
                  within = k.within;
                  numbered = k.numbered;
                })
                p.workers s.kept)
              found
              (record {
                owned = owned-filter p.task_owners run w.number w.tasks mine.owned;
                distinct =
                    Pairwise-filter (λ r t. str_eq r t ≡ false) (λ r. not (str_eq r run)) w.tasks
                      mine.distinct;
                within =
                    omega (arith, mine.within, length-filter (λ r. not (str_eq r run)) w.tasks);
                numbered = mine.numbered;
              });
        unique = IsUnique-change n (without_task run) (λ v. refl) p.workers s.unique;
        few = omega (arith, length-change n (without_task run) p.workers, s.few);
        counted = omega (
          arith,
          s.counted,
          length-delete_there run p.task_owners n owns,
          length-filter_one run w.tasks mine.distinct,
          total-change n (without_task run) p.workers w found,
        );
      }
