-- ===== src/Control/Workers.antt =====
-- web/server/orchestrator-worker-pool.mjs: processes that many runs share. A worker's id `shared-NN` is its number;
-- the answers of the operating system (whether a message could be sent) are arguments, and the statistics that a
-- worker sends are left out.
pub mod Table
pub mod Sound
pub mod Capacity
pub mod Runs
pub mod Refused
use link_suffix.Base.{
  ℕ, suc, ◌+◌, ◌*◌, Bool, true, false, not, ◌&&◌, List, [], ◌∷◌, ◌++◌, Option, none, some, String,
  ltb, ◌==◌, str_eq, if◌then◌else◌, length, filter, head?, any,
}
use link_suffix.Base.Maps.{Map, get, put, delete, has}
use link_suffix.Base.Sorting.{sort}

-- `live` is `child.exitCode === null`; a task stands for the handlers of its run.
pub record Worker : Type 0 where
  pub number : ℕ
  pub tasks : List String
  pub live : Bool
  pub ready : Bool

-- `options`
pub record Options : Type 0 where
  pub process_count : ℕ
  pub slots_per_process : ℕ

-- The variables of the pool; a run's owner is the number of its worker.
pub record Pool : Type 0 where
  pub workers : List Worker
  pub task_owners : Map ℕ
  pub worker_sequence : ℕ
  pub closing : Bool

abbrev pub new_pool : Pool
new_pool = record { workers = []; task_owners = []; worker_sequence = 0; closing = false }

abbrev pub find_worker : ℕ → List Worker → Option Worker
find_worker n [] = none
find_worker n (w ∷ ws) = if w.number == n then some w else find_worker n ws

-- What happens to a worker of the map.
abbrev pub change_worker : ℕ → (Worker → Worker) → List Worker → List Worker
change_worker n f [] = []
change_worker n f (w ∷ ws) = if w.number == n then f w ∷ ws else w ∷ change_worker n f ws

abbrev pub remove_worker : ℕ → List Worker → List Worker
remove_worker n [] = []
remove_worker n (w ∷ ws) = if w.number == n then ws else w ∷ remove_worker n ws

abbrev pub is_available : Options → Worker → Bool
is_available o w = w.live && ltb (length w.tasks) o.slots_per_process

abbrev pub has_fewer : Worker → Worker → Bool
has_fewer v w = ltb (length v.tasks) (length w.tasks)

abbrev pub spawned : ℕ → Worker
spawned n = record { number = n; tasks = []; live = true; ready = false }

-- `spawnWorker`
abbrev pub spawn_worker : Pool → Pool
spawn_worker p = record p {
  worker_sequence = suc p.worker_sequence;
  workers = p.workers ++ (spawned (suc p.worker_sequence) ∷ []);
}

abbrev pub select_or_spawn : Options → Pool → Option Worker → Pool × Option ℕ
select_or_spawn o p (some w) = (p, some w.number)
select_or_spawn o p none =
    if ltb (length p.workers) o.process_count
    then (spawn_worker p, some (suc p.worker_sequence))
    else (p, none)

-- `selectWorker`: the first of the available workers with the fewest tasks, or a new one.
unfoldable pub select_worker : Options → Pool → Pool × Option ℕ
unfolding sort
select_worker o p = select_or_spawn o p (head? (sort has_fewer (filter (is_available o) p.workers)))

pub data Started : Type 0 where
  assigned : ℕ → Started
  shutting_down already_assigned capacity_reached not_sent : Started

abbrev pub with_task : String → Worker → Worker
with_task run w = record w { tasks = w.tasks ++ (run ∷ []) }

abbrev pub assign_task : Bool → String → Pool × Option ℕ → Pool × Started
assign_task sent run (p, none) = (p, capacity_reached)
assign_task sent run (p, some n) = (
  record p {
    workers = change_worker n (with_task run) p.workers;
    task_owners = put run n p.task_owners;
  },
  if sent then assigned n else not_sent,
)

-- `start`; `sent` tells whether the message reaches the worker.
unfoldable pub start : Options → Bool → String → Pool → Pool × Started
unfolding select_worker
start o sent run p =
    if p.closing
    then (p, shutting_down)
    else if has p.task_owners run
    then (p, already_assigned)
    else assign_task sent run (select_worker o p)

abbrev pub without_task : String → Worker → Worker
without_task run w = record w { tasks = filter (λ r. not (str_eq r run)) w.tasks }

abbrev pub end_task : ℕ → String → Pool → Option Worker → Pool
end_task n run p none = p
end_task n run p (some w) =
    if any (λ r. str_eq r run) w.tasks
    then record p {
      workers = change_worker n (without_task run) p.workers;
      task_owners = delete run p.task_owners;
    }
    else p

-- The message "exit" of a worker for a run. A worker that has left the map has no tasks any more.
unfoldable pub task_exited : ℕ → String → Pool → Pool
task_exited n run p = end_task n run p (find_worker n p.workers)

-- The message "ready".
abbrev pub worker_ready : ℕ → Pool → Pool
worker_ready n p = record p { workers = change_worker n (λ w. record w { ready = true }) p.workers }

-- The process ends: from then on `exitCode` is a number, and the event "exit" is to come.
abbrev pub worker_died : ℕ → Pool → Pool
worker_died n p = record p { workers = change_worker n (λ w. record w { live = false }) p.workers }

abbrev pub delete_all : List String → Map ℕ → Map ℕ
delete_all [] m = m
delete_all (r ∷ rs) m = delete_all rs (delete r m)

abbrev pub lose_worker : ℕ → Pool → Option Worker → Pool
lose_worker n p none = p
lose_worker n p (some w) = record p {
  workers = remove_worker n p.workers;
  task_owners = delete_all w.tasks p.task_owners;
}

-- The event "exit" of a process.
unfoldable pub worker_exited : ℕ → Pool → Pool
worker_exited n p = lose_worker n p (find_worker n p.workers)

abbrev pub live_owner : Option Worker → Bool
live_owner none = false
live_owner (some w) = w.live

abbrev owner_of : Pool → Option ℕ → Option Worker
owner_of p none = none
owner_of p (some n) = find_worker n p.workers

-- What `stop` answers; it changes nothing here, and a worker that is told answers by "exit".
unfoldable pub stop : String → Pool → Bool
stop run p = live_owner (owner_of p (get p.task_owners run))

-- `has` and `capacity`
abbrev pub has_run : String → Pool → Bool
has_run run p = has p.task_owners run

abbrev pub capacity : Options → ℕ
capacity o = o.process_count * o.slots_per_process

-- `activeTasks` of the snapshot.
abbrev pub active_tasks : Pool → ℕ
active_tasks p = length p.task_owners

-- `shutdown`, whose signals end the workers by and by.
abbrev pub shutdown : Pool → Pool
shutdown p = record p { closing = true }
