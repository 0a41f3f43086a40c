-- ===== src/Control/Workers/Runs.antt =====
-- Every order of calls and events on the pool.
use link_suffix.Base.{
  ℕ, suc, ◌*◌, ◌≤◌, ◌<◌, ◌≡◌, refl, Bool, true, false, List, [], ◌∷◌, ◌++◌, Option, none, some,
  String, ltb, ltb→lt, ==_iff, str_eq, eq_iff, if◌then◌else◌, length, filter, any, head?, All,
  All-imp, Bool-cases, arith, inl, inr,
}
use link_suffix.Base.Maps.{Map, get, has}
use link_suffix.Base.Sorting.{sort}
use link_suffix.Control.Workers.{
  Worker, Options, Pool, new_pool, find_worker, is_available, has_fewer, spawned, spawn_worker,
  select_or_spawn, select_worker, assign_task, start, end_task, task_exited, worker_ready,
  worker_died, lose_worker, worker_exited, shutdown, active_tasks, capacity, Started, shutting_down,
  already_assigned,
}
use link_suffix.Control.Workers.Table.{total, chosen-found, number_of_found}
use link_suffix.Control.Workers.Sound.{IsKept, IsSound, found-All, assigned-IsSound, ended-IsSound}
use link_suffix.Control.Workers.Capacity.{marked-IsSound, lost-IsSound, spawned-IsSound}

find-last :
    (ws : List Worker) (n k : ℕ)
    → All (λ w. w.number ≤ n) ws
    → n < k
    → find_worker k (ws ++ (spawned k ∷ [])) ≡ some (spawned k)
find-last [] n k h lt = ground (arith, ==_iff k k)
find-last (w ∷ ws) n k h lt = ground (arith, h.0, find-last ws n k h.1 lt)

has-none : (m : Map ℕ) (r : String) → has m r ≡ false → get m r ≡ none
has-none m r h = ground (arith, h)

module _ (o : Options) (has_slots : 0 < o.slots_per_process) where
  chosen-IsSound :
      (sent : Bool) (run : String) (p : Pool) (c : Option Worker)
      → IsSound o p
      → get p.task_owners run ≡ none
      → head? (sort has_fewer (filter (is_available o) p.workers)) ≡ c
      → IsSound o (assign_task sent run (select_or_spawn o p c)).0
  chosen-IsSound sent run p (some w) s free e =
      let (fit, found) = chosen-found o p.workers w s.unique e in
      assigned-IsSound o p run w.number w s free found (ground (arith, fit))
  chosen-IsSound sent run p none s free e =
      elim (Bool-cases (ltb (length p.workers) o.process_count)) [
        | inr full ↦ rw full s
        | inl room ↦
            let n = suc p.worker_sequence in
            rw room (
              assigned-IsSound o (spawn_worker p) run n (spawned n)
                (spawned-IsSound o p s (ltb→lt (length p.workers) o.process_count room)) free
                (find-last p.workers p.worker_sequence n
                  (All-imp (IsKept o p) (λ w. w.number ≤ p.worker_sequence) (λ w k. k.numbered)
                    p.workers s.kept)
                  (omega arith))
                has_slots)
      ]

  guarded-IsSound :
      (p : Pool) (closing known : Bool) (x : Pool × Started)
      → IsSound o p
      → (known ≡ false → IsSound o x.0)
      → IsSound o
          (if closing then (p, shutting_down) else if known then (p, already_assigned) else x).0
  guarded-IsSound p true known x s h = s
  guarded-IsSound p false true x s h = s
  guarded-IsSound p false false x s h = h refl

  start-IsSound :
      (sent : Bool) (run : String) (p : Pool) → IsSound o p → IsSound o (start o sent run p).0
  unfolding start select_worker
  start-IsSound sent run p s =
      guarded-IsSound p p.closing (has p.task_owners run) (assign_task sent run (select_worker o p))
        s
        (λ new.
          chosen-IsSound sent run p (head? (sort has_fewer (filter (is_available o) p.workers))) s
            (has-none p.task_owners run new) refl)

  end_task-IsSound :
      (n : ℕ) (run : String) (p : Pool) (c : Option Worker)
      → IsSound o p
      → find_worker n p.workers ≡ c
      → IsSound o (end_task n run p c)
  end_task-IsSound n run p none s e = s
  end_task-IsSound n run p (some w) s e = elim (Bool-cases (any (λ r. str_eq r run) w.tasks)) [
    | inl there ↦ rw there (ended-IsSound o p run n w s e there)
    | inr gone ↦ rw gone s
  ]

  lose-IsSound :
      (n : ℕ) (p : Pool) (c : Option Worker)
      → IsSound o p
      → find_worker n p.workers ≡ c
      → IsSound o (lose_worker n p c)
  lose-IsSound n p none s e = s
  lose-IsSound n p (some w) s e = lost-IsSound o p n w s e

-- One call, or one event of a worker.
pub data Step (o : Options) (p : Pool) : Pool → Type 0 where
  starts : (sent : Bool) (run : String) → Step o p (start o sent run p).0
  exits : (n : ℕ) (run : String) → Step o p (task_exited n run p)
  is_ready : (n : ℕ) → Step o p (worker_ready n p)
  dies : (n : ℕ) → Step o p (worker_died n p)
  leaves : (n : ℕ) → Step o p (worker_exited n p)
  shuts : Step o p (shutdown p)

pub data Reach (o : Options) : Pool → Type 0 where
  begin : Reach o new_pool
  later : {p q : Pool} → Reach o p → Step o p q → Reach o q

Step-IsSound :
    (o : Options) → 0 < o.slots_per_process → {p q : Pool} → Step o p q → IsSound o p → IsSound o q
unfolding task_exited worker_exited
Step-IsSound o h {p} (starts sent run) s = start-IsSound o h sent run p s
Step-IsSound o h {p} (exits n run) s = end_task-IsSound o h n run p (find_worker n p.workers) s refl
Step-IsSound o h {p} (is_ready n) s =
    marked-IsSound n (λ w. record w { ready = true }) (λ v. (refl, refl)) o p s
Step-IsSound o h {p} (dies n) s =
    marked-IsSound n (λ w. record w { live = false }) (λ v. (refl, refl)) o p s
Step-IsSound o h {p} (leaves n) s = lose-IsSound o h n p (find_worker n p.workers) s refl
Step-IsSound o h {p} shuts s = record {
  kept =
      All-imp (IsKept o p) (IsKept o (shutdown p))
        (λ v k. record {
          owned = k.owned;
          distinct = k.distinct;
          within = k.within;
          numbered = k.numbered;
        })
        p.workers s.kept;
  unique = s.unique;
  few = s.few;
  counted = s.counted;
}

pub Reach-IsSound : (o : Options) → 0 < o.slots_per_process → {p : Pool} → Reach o p → IsSound o p
Reach-IsSound o h begin = record {
  kept = tt;
  unique = tt;
  few = omega arith;
  counted = omega arith;
}
Reach-IsSound o h (later r s) = Step-IsSound o h s (Reach-IsSound o h r)

owned_by :
    (m : Map ℕ) (run : String) (k : ℕ) (ts : List String)
    → All (λ r. get m r ≡ some k) ts
    → any (str_eq run) ts ≡ true
    → get m run ≡ some k
owned_by m run k [] h e = absurd (ground (arith, e))
owned_by m run k (t ∷ ts) h e = ground (arith, eq_iff run t, h.0, owned_by m run k ts h.1)

-- Where a process has at least one slot: however starts, exits, deaths of workers and a shutdown follow each
-- other, sent or not, a run is never a task of two workers, and the owner that is noted for a task of a worker
-- is that worker.
pub Reach-one_worker :
    (o : Options)
    → 0 < o.slots_per_process
    → {p : Pool} → Reach o p
    → (run : String) (n k : ℕ) (v w : Worker) → find_worker n p.workers ≡ some v
    → find_worker k p.workers ≡ some w
    → any (str_eq run) v.tasks ≡ true
    → any (str_eq run) w.tasks ≡ true
    → (n ≡ k) × (get p.task_owners run ≡ some n)
Reach-one_worker o h {p} r run n k v w found found' there there' =
    let s = Reach-IsSound o h r in
    let mine : get p.task_owners run ≡ some v.number =
      owned_by p.task_owners run v.number v.tasks
        (found-All (IsKept o p) n p.workers v s.kept found).owned there in
    let yours : get p.task_owners run ≡ some w.number =
      owned_by p.task_owners run w.number w.tasks
        (found-All (IsKept o p) k p.workers w s.kept found').owned there' in
    ground (
      arith,
      mine,
      yours,
      number_of_found n p.workers v found,
      number_of_found k p.workers w found',
    )

total_within :
    (s : ℕ) (ws : List Worker) → All (λ w. length w.tasks ≤ s) ws → total ws ≤ length ws * s
total_within s [] h = omega arith
total_within s (w ∷ ws) h = grind (arith, h.0, total_within s ws h.1)

-- Where a process has at least one slot: at every moment there are no more runs than processes times slots, no
-- more workers than processes, and no worker has more tasks than slots.
pub Reach-capacity :
    (o : Options)
    → 0 < o.slots_per_process
    → {p : Pool} → Reach o p
    → (active_tasks p ≤ capacity o)
      × (length p.workers ≤ o.process_count)
      × All (λ w. length w.tasks ≤ o.slots_per_process) p.workers
Reach-capacity o h {p} r =
    let s = Reach-IsSound o h r in
    let within =
      All-imp (IsKept o p) (λ w. length w.tasks ≤ o.slots_per_process) (λ w k. k.within) p.workers
        s.kept in
    (
      grind (arith, s.counted, s.few, total_within o.slots_per_process p.workers within),
      s.few,
      within,
    )
