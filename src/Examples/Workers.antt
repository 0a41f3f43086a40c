-- ===== src/Examples/Workers.antt =====
-- Two processes of one slot each.
use link_suffix.Base.{
  ℕ, ◌≤◌, ◌≡◌, ◌↔◌, refl, Bool, true, false, List, [], ◌∷◌, Option, none, some, String, any, length,
  All, ltb, arith,
}
use link_suffix.Base.Maps.{get, has}
use link_suffix.Control.Workers.{
  Worker, Options, Pool, new_pool, find_worker, start, active_tasks, capacity, already_assigned,
  capacity_reached, not_sent,
}
use link_suffix.Control.Workers.Runs.{Reach, begin, later, starts, Reach-one_worker, Reach-capacity}
use link_suffix.Control.Workers.Refused.{IsFull, IsOwned, start-refuses, start-unsent}

abbrev options : Options
options = record { process_count = 2; slots_per_process = 1 }

abbrev one_run : Pool
one_run = (start options true "run-1" new_pool).0

abbrev two_runs : Pool
two_runs = (start options true "run-2" one_run).0

two_runs-Reach : Reach options two_runs
two_runs-Reach = later (later begin (starts true "run-1")) (starts true "run-2")

abbrev first : Worker
first = record { number = 1; tasks = "run-1" ∷ []; live = true; ready = false }

first-found : find_worker 1 two_runs.workers ≡ some first
unfolding start get link_suffix.Base.Maps.put
first-found = refl

Reach-one_worker_example : (◌≡◌ {A = ℕ} 1 1) × (get two_runs.task_owners "run-1" ≡ some 1)
Reach-one_worker_example =
    Reach-one_worker options (omega arith) two_runs-Reach "run-1" 1 1 first first first-found
      first-found refl refl

Reach-capacity_example :
    (active_tasks two_runs ≤ capacity options)
    × (length two_runs.workers ≤ 2)
    × All (λ w. length w.tasks ≤ 1) two_runs.workers
Reach-capacity_example = Reach-capacity options (omega arith) two_runs-Reach

two_runs-new : (two_runs.closing ≡ false) × (has two_runs.task_owners "run-3" ≡ false)
unfolding start get link_suffix.Base.Maps.put
two_runs-new = (refl, refl)

start-refuses_example :
    ((start options true "run-3" two_runs).1 ≡ capacity_reached)
    ↔ (All (IsFull options) two_runs.workers × (2 ≤ length two_runs.workers))
start-refuses_example = start-refuses options true "run-3" two_runs two_runs-new.0 two_runs-new.1

unsent : (start options false "run-1" new_pool).1 ≡ not_sent
unfolding start get
unsent = refl

start-unsent_example :
    IsOwned "run-1" (start options false "run-1" new_pool).0
    × ((sent : Bool)
        → (start options sent "run-1" (start options false "run-1" new_pool).0).1
          ≡ already_assigned)
start-unsent_example = start-unsent options "run-1" new_pool unsent
