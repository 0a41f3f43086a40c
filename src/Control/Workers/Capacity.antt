-- ===== src/Control/Workers/Capacity.antt =====
-- The pool through every order of calls and events: no run has two workers, and the runs fit into the slots.
use link_suffix.Base.{
  All-append, suc, subst, ◌++◌, ◌≤◌, ◌<◌, ◌+◌, length, ℕ, ◌≡◌, refl, false, List, [], ◌∷◌, some,
  String, ◌==◌, str_eq, eq_iff, All, All-imp, arith,
}
use link_suffix.Base.Maps.{length-delete_there, Map, get, delete, get-delete_at}
use link_suffix.Control.Workers.{
  spawned, spawn_worker, remove_worker, find_worker, Worker, Options, Pool, change_worker,
  delete_all,
}
use link_suffix.Control.Workers.Table.{
  total-append, total-remove, Pairwise-last, length-remove, IsUnique-remove, All-remove,
  number_of_found, total, length-change, IsUnique-change,
}
use link_suffix.Control.Workers.Sound.{found-All, IsDistinct, IsKept, IsSound}

module _ (n : ℕ) (f : Worker → Worker)
    (same : (v : Worker) → ((f v).number ≡ v.number) × ((f v).tasks ≡ v.tasks)) where
  total-mark : (ws : List Worker) → total (change_worker n f ws) ≡ total ws
  total-mark [] = refl
  total-mark (w ∷ ws) = ground (arith, same w, total-mark ws)

  All-mark :
      (P : Worker → Type 0)
      → ((v : Worker) → P v → P (f v))
      → (ws : List Worker) → All P ws
      → All P (change_worker n f ws)
  All-mark P g [] h = tt
  All-mark P g (w ∷ ws) h = ground (arith, g w, All-mark P g ws h.1)

  pub marked-IsSound :
      (o : Options) (p : Pool)
      → IsSound o p
      → IsSound o (record p { workers = change_worker n f p.workers })
  marked-IsSound o p s = record {
    kept =
        All-mark (IsKept o (record p { workers = change_worker n f p.workers }))
          (λ v k. record {
            owned = rw ((same v).0, (same v).1) k.owned;
            distinct = rw (same v).1 k.distinct;
            within = rw (same v).1 k.within;
            numbered = rw (same v).0 k.numbered;
          })
          p.workers
          (All-imp (IsKept o p) (IsKept o (record p { workers = change_worker n f p.workers }))
            (λ v k. record {
              owned = k.owned;
              distinct = k.distinct;
              within = k.within;
              numbered = k.numbered;
            })
            p.workers s.kept);
    unique = IsUnique-change n f (λ v. (same v).0) p.workers s.unique;
    few = omega (arith, length-change n f p.workers, s.few);
    counted = omega (arith, total-mark p.workers, s.counted);
  }

-- The runs of a worker that is gone are deleted one by one.
still :
    (m : Map ℕ) (n : ℕ) (t : String) (ts : List String)
    → All (λ x. get m x ≡ some n) ts
    → All (λ x. str_eq t x ≡ false) ts
    → All (λ x. get (delete t m) x ≡ some n) ts
still m n t [] h u = tt
still m n t (x ∷ xs) h u = (ground (arith, h.0, u.0, get-delete_at x t m), still m n t xs h.1 u.1)

get-delete_all :
    (m : Map ℕ) (n k : ℕ) (r : String) (ts : List String)
    → All (λ t. get m t ≡ some n) ts
    → (k == n) ≡ false
    → get m r ≡ some k
    → IsDistinct ts
    → get (delete_all ts m) r ≡ some k
get-delete_all m n k r [] h d e u = e
get-delete_all m n k r (t ∷ ts) h d e u =
    get-delete_all (delete t m) n k r ts (still m n t ts h.1 u.0) d
      (ground (arith, h.0, d, e, get-delete_at r t m, eq_iff t r)) u.1

owned-delete_all :
    (m : Map ℕ) (n k : ℕ) (rs ts : List String)
    → All (λ t. get m t ≡ some n) ts
    → (k == n) ≡ false
    → IsDistinct ts
    → All (λ r. get m r ≡ some k) rs
    → All (λ r. get (delete_all ts m) r ≡ some k) rs
owned-delete_all m n k [] ts h d u e = tt
owned-delete_all m n k (r ∷ rs) ts h d u e =
    (get-delete_all m n k r ts h d e.0 u, owned-delete_all m n k rs ts h d u e.1)

length-delete_all :
    (m : Map ℕ) (n : ℕ) (ts : List String)
    → All (λ t. get m t ≡ some n) ts
    → IsDistinct ts
    → length (delete_all ts m) + length ts ≤ length m
length-delete_all m n [] h u = omega arith
length-delete_all m n (t ∷ ts) h u = omega (
  arith,
  length-delete_there t m n h.0,
  length-delete_all (delete t m) n ts (still m n t ts h.1 u.0) u.1,
)

module _ (o : Options) where
  pub lost-IsSound :
      (p : Pool) (n : ℕ) (w : Worker)
      → IsSound o p
      → find_worker n p.workers ≡ some w
      → IsSound o (record p {
        workers = remove_worker n p.workers;
        task_owners = delete_all w.tasks p.task_owners;
      })
  lost-IsSound p n w s found =
      let q : Pool = record p {
        workers = remove_worker n p.workers;
        task_owners = delete_all w.tasks p.task_owners;
      } in
      let mine = found-All (IsKept o p) n p.workers w s.kept found in
      let owns : All (λ r. get p.task_owners r ≡ some n) w.tasks =
        subst (λ k. All (λ r. get p.task_owners r ≡ some k) w.tasks)
          (number_of_found n p.workers w found) mine.owned in
      record {
        kept = All-remove n (IsKept o q) p.workers s.unique (
            All-imp (IsKept o p) (λ v. (v.number == n) ≡ false → IsKept o q v)
              (λ v k d. record {
                owned =
                    owned-delete_all p.task_owners n v.number v.tasks w.tasks owns d mine.distinct
                      k.owned;
                distinct = k.distinct;
                within = k.within;
                numbered = k.numbered;
              })
              p.workers s.kept);
        unique = IsUnique-remove n p.workers s.unique;
        few = omega (arith, s.few, length-remove n p.workers);
        counted = omega (
          arith,
          s.counted,
          total-remove n p.workers w found,
          length-delete_all p.task_owners n w.tasks owns mine.distinct,
        );
      }

  pub spawned-IsSound :
      (p : Pool) → IsSound o p → length p.workers < o.process_count → IsSound o (spawn_worker p)
  spawned-IsSound p s room = record {
    kept =
        All-append (IsKept o (spawn_worker p)) p.workers (spawned (suc p.worker_sequence) ∷ [])
          (All-imp (IsKept o p) (IsKept o (spawn_worker p))
            (λ v k. record {
              owned = k.owned;
              distinct = k.distinct;
              within = k.within;
              numbered = omega (arith, k.numbered);
            })
            p.workers s.kept)
          (record { owned = tt; distinct = tt; within = omega arith; numbered = omega arith }, tt);
    unique =
        Pairwise-last (λ v w. (v.number == w.number) ≡ false) p.workers
          (spawned (suc p.worker_sequence))
          (All-imp (IsKept o p) (λ v. (v.number == suc p.worker_sequence) ≡ false)
            (λ v k. ground (arith, k.numbered)) p.workers s.kept)
          s.unique;
    few = omega (arith, room, length-snoc p.workers);
    counted =
        omega (arith, s.counted, total-append p.workers (spawned (suc p.worker_sequence) ∷ []));
  }
    where
      length-snoc :
          (ws : List Worker)
          → length (ws ++ (spawned (suc p.worker_sequence) ∷ [])) ≡ suc (length ws)
      length-snoc [] = refl
      length-snoc (v ∷ vs) = omega (arith, length-snoc vs)
