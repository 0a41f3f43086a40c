-- ===== src/Control/Workers/Refused.antt =====
-- When a start is refused, and what a start leaves behind whose message cannot be sent.
use link_suffix.Base.{
  ℕ, ◌++◌, ◌==◌, str_eq, eq_iff, All-imp, All-head, All-filter, suc, ◌≡◌, ◌≤◌, ◌⊎◌, All, ◌↔◌, refl,
  sym, ◌∙◌, ap, Bool, true, false, List, [], ◌∷◌, Option, none, some, String, ltb, length, filter,
  any, head?, Bool-cases, arith, inl, inr,
}
use link_suffix.Base.Maps.{get, has, get-put}
use link_suffix.Base.Sorting.{sort, sort-head, All-sort}
use link_suffix.Control.Workers.{
  Worker, Options, Pool, is_available, has_fewer, select_or_spawn, select_worker, assign_task,
  find_worker, change_worker, with_task, spawned, spawn_worker, start, already_assigned,
  capacity_reached, not_sent,
}

none_available :
    (o : Options) (ws : List Worker)
    → filter (is_available o) ws ≡ []
    → any (is_available o) ws ≡ false
none_available o [] e = refl
none_available o (w ∷ ws) e = ground (arith, e, none_available o ws)

start-new :
    (o : Options) (sent : Bool) (run : String) (p : Pool)
    → p.closing ≡ false
    → has p.task_owners run ≡ false
    → start o sent run p
      ≡ assign_task sent run
          (select_or_spawn o p (head? (sort has_fewer (filter (is_available o) p.workers))))
unfolding start select_worker
start-new o sent run p open_pool new = ground (arith, open_pool, new)

start-known :
    (o : Options) (sent : Bool) (run : String) (p : Pool)
    → p.closing ≡ false
    → has p.task_owners run ≡ true
    → (start o sent run p).1 ≡ already_assigned
unfolding start
start-known o sent run p open_pool known = ground (arith, open_pool, known)

unsent-new :
    (o : Options) (run : String) (p : Pool)
    → (start o false run p).1 ≡ not_sent
    → (p.closing ≡ false) × (has p.task_owners run ≡ false)
unfolding start
unsent-new o run p e = ground (arith, e)

any-last : (run : String) (rs : List String) → any (λ r. str_eq r run) (rs ++ (run ∷ [])) ≡ true
any-last run [] = ground (arith, eq_iff run run)
any-last run (r ∷ rs) = ground (arith, any-last run rs)

-- The owner of the run is a worker that counts it among its tasks.
pub IsOwned : String → Pool → Type 0
IsOwned run p =
    (n : ℕ) × (w : Worker) × (get p.task_owners run ≡ some n)
    × (find_worker n p.workers ≡ some w)
    × (any (λ r. str_eq r run) w.tasks ≡ true)

changed-holds :
    (n : ℕ) (run : String) (ws : List Worker)
    → any (λ x. x.number == n) ws ≡ true
    → (w : Worker) × (find_worker n (change_worker n (with_task run) ws) ≡ some w)
      × (any (λ r. str_eq r run) w.tasks ≡ true)
changed-holds n run [] h = absurd (ground (arith, h))
changed-holds n run (v ∷ ws) h = elim (Bool-cases (v.number == n)) [
  | inl hit ↦ (with_task run v, ground (arith, hit), any-last run v.tasks)
  | inr miss ↦
      let (w, found, held) = changed-holds n run ws (ground (arith, miss, h)) in
      (w, ground (arith, miss, found), held)
]

assigned-IsOwned :
    (run : String) (n : ℕ) (p : Pool)
    → any (λ x. x.number == n) p.workers ≡ true
    → IsOwned run (assign_task false run (p, some n)).0
unfolding IsOwned
assigned-IsOwned run n p there =
    let (w, found, held) = changed-holds n run p.workers there in
    (n, w, get-put run n p.task_owners, found, held)

numbered : (ws : List Worker) → All (λ w. any (λ x. x.number == w.number) ws ≡ true) ws
numbered [] = tt
numbered (w ∷ ws) = (
  ground arith,
  All-imp (λ v. any (λ x. x.number == v.number) ws ≡ true)
      (λ v. any (λ x. x.number == v.number) (w ∷ ws) ≡ true) (λ v h. ground (arith, h)) ws
      (numbered ws),
)

-- The worker that is selected is one of the pool's.
selected-numbered :
    (o : Options) (p : Pool) (w : Worker)
    → head? (sort has_fewer (filter (is_available o) p.workers)) ≡ some w
    → any (λ x. x.number == w.number) p.workers ≡ true
selected-numbered o p w e =
    let P : Worker → Type 0 = λ v. any (λ x. x.number == v.number) p.workers ≡ true in
    All-head P (sort has_fewer (filter (is_available o) p.workers)) w
      (All-sort has_fewer P (filter (is_available o) p.workers)
        (All-filter P (is_available o) p.workers (numbered p.workers)))
      e

spawned-numbered :
    (n : ℕ) (ws : List Worker) → any (λ x. x.number == n) (ws ++ (spawned n ∷ [])) ≡ true
spawned-numbered n [] = ground arith
spawned-numbered n (w ∷ ws) = ground (arith, spawned-numbered n ws)

unsent-IsOwned :
    (o : Options) (run : String) (p : Pool) (c : Option Worker)
    → head? (sort has_fewer (filter (is_available o) p.workers)) ≡ c
    → (assign_task false run (select_or_spawn o p c)).1 ≡ not_sent
    → IsOwned run (assign_task false run (select_or_spawn o p c)).0
unsent-IsOwned o run p (some w) found e =
    assigned-IsOwned run w.number p (selected-numbered o p w found)
unsent-IsOwned o run p none found e = elim (Bool-cases (ltb (length p.workers) o.process_count)) [
  | inl room ↦ rw room (
      assigned-IsOwned run (suc p.worker_sequence) (spawn_worker p)
        (spawned-numbered (suc p.worker_sequence) p.workers))
  | inr full ↦ absurd (ground (arith, full, e))
]

unsent-parts :
    (o : Options) (run : String) (p : Pool) (c : Option Worker)
    → (assign_task false run (select_or_spawn o p c)).1 ≡ not_sent
    → (has (assign_task false run (select_or_spawn o p c)).0.task_owners run ≡ true)
      × ((assign_task false run (select_or_spawn o p c)).0.closing ≡ p.closing)
unsent-parts o run p (some w) e = (ground (arith, get-put run w.number p.task_owners), refl)
unsent-parts o run p none e = elim (Bool-cases (ltb (length p.workers) o.process_count)) [
  | inl room ↦ rw room (ground (arith, get-put run (suc p.worker_sequence) p.task_owners), refl)
  | inr full ↦ absurd (ground (arith, full, e))
]

some_available :
    (o : Options) (ws : List Worker)
    → any (is_available o) ws ≡ false
    → filter (is_available o) ws ≡ []
some_available o [] e = refl
some_available o (w ∷ ws) e = ground (arith, e, some_available o ws)

sorted-none :
    (o : Options) (p : Pool) (w : Worker)
    → filter (is_available o) p.workers ≡ []
    → head? (sort has_fewer (filter (is_available o) p.workers)) ≡ some w
    → ⊥
unfolding sort
sorted-none o p w e h = ground (arith, ap (λ ws. head? (sort has_fewer ws)) e, h)

refuses-when :
    (o : Options) (sent : Bool) (run : String) (p : Pool) (c : Option Worker)
    → head? (sort has_fewer (filter (is_available o) p.workers)) ≡ c
    → ((assign_task sent run (select_or_spawn o p c)).1 ≡ capacity_reached) ↔ (
        (any (is_available o) p.workers ≡ false) × (ltb (length p.workers) o.process_count ≡ false))
refuses-when o sent run p (some w) e = (
  λ h. absurd (ground (arith, h)),
  λ h. absurd (sorted-none o p w (some_available o p.workers h.0) e),
)
refuses-when o sent run p none e =
    let nobody =
      none_available o p.workers (sort-head has_fewer (filter (is_available o) p.workers) e) in
    elim (Bool-cases (ltb (length p.workers) o.process_count)) [
      | inl room ↦ rw room (λ h. absurd (ground (arith, h)), λ h. absurd (ground (arith, h)))
      | inr full ↦ rw full (λ h. (nobody, refl), λ h. refl)
    ]

-- A worker that takes no run: its process has ended, or its slots are used up.
abbrev pub IsFull : Options → Worker → Type 0
IsFull o w = (w.live ≡ false) ⊎ (o.slots_per_process ≤ length w.tasks)

unavailable-IsFull :
    (o : Options) (ws : List Worker) → any (is_available o) ws ≡ false → All (IsFull o) ws
unavailable-IsFull o [] e = tt
unavailable-IsFull o (w ∷ ws) e = (
  elim (Bool-cases w.live) [ inl alive ↦ inr (ground (arith, e, alive)) | inr gone ↦ inl gone ],
  unavailable-IsFull o ws (ground (arith, e)),
)

full-unavailable : (o : Options) (w : Worker) → IsFull o w → is_available o w ≡ false
full-unavailable o w (inl gone) = rw gone refl
full-unavailable o w (inr used) = ground (arith, used)

IsFull-unavailable :
    (o : Options) (ws : List Worker) → All (IsFull o) ws → any (is_available o) ws ≡ false
IsFull-unavailable o [] h = refl
IsFull-unavailable o (w ∷ ws) h =
    ground (arith, full-unavailable o w h.0, IsFull-unavailable o ws h.1)

-- A run that is new to an open pool is refused exactly when each worker's process has ended or has no free slot, and
-- there are as many workers as processes or more.
pub start-refuses :
    (o : Options) (sent : Bool) (run : String) (p : Pool)
    → p.closing ≡ false
    → has p.task_owners run ≡ false
    → ((start o sent run p).1 ≡ capacity_reached)
      ↔ (All (IsFull o) p.workers × (o.process_count ≤ length p.workers))
start-refuses o sent run p open_pool new =
    let c = head? (sort has_fewer (filter (is_available o) p.workers)) in
    let when = refuses-when o sent run p c refl in
    rw (start-new o sent run p open_pool new) (
      λ h.
          let (nobody, crowded) = when.0 h in
          (unavailable-IsFull o p.workers nobody, ground (arith, crowded)),
      λ h. when.1 (IsFull-unavailable o p.workers h.0, ground (arith, h.1)),
    )

-- A start whose message cannot be sent is an error to its caller, but its run keeps a slot: it is owned by a worker of
-- the pool that counts it among its tasks, and the next start of it is refused as already assigned.
pub start-unsent :
    (o : Options) (run : String) (p : Pool)
    → (start o false run p).1 ≡ not_sent
    → IsOwned run (start o false run p).0
      × ((sent : Bool) → (start o sent run (start o false run p).0).1 ≡ already_assigned)
start-unsent o run p e =
    let (open_pool, new) = unsent-new o run p e in
    let (owned, still_open) =
      unsent-parts o run p (head? (sort has_fewer (filter (is_available o) p.workers)))
        (ap (λ x. x.1) (sym (start-new o false run p open_pool new)) ∙ e) in
    let stays : (has (start o false run p).0.task_owners run ≡ true)
        × ((start o false run p).0.closing ≡ false) =
      rw (start-new o false run p open_pool new) (owned, still_open ∙ open_pool) in
    let held : IsOwned run (start o false run p).0 = rw (start-new o false run p open_pool new) (
      unsent-IsOwned o run p (head? (sort has_fewer (filter (is_available o) p.workers))) refl
        (ap (λ x. x.1) (sym (start-new o false run p open_pool new)) ∙ e)) in
    (held, λ sent. start-known o sent run (start o false run p).0 stays.1 stays.0)
