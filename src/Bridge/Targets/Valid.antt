-- ===== src/Bridge/Targets/Valid.antt =====
-- Resuming and deleting a target: what the jobs and the shards keep.
use link_suffix.Base.{
  ℕ, ◌≡◌, ap, sym, subst, Bool, true, false, not, ◌&&◌, ◌||◌, ◌||◌, List, [], ◌∷◌, Option, none,
  some, String, arith, str_eq, length, leb, find?, filter, All, Pairwise-filter, All-filter,
}
use link_suffix.Base.Text.{is_empty, trim, codes}
use link_suffix.Bridge.{Store, Target, Capture, Job, update_where, Env}
use link_suffix.Bridge.Results.{Result, ok, >>=-eq-ok, guard}
use link_suffix.Bridge.Invariant.{Apart, IsSound, IsValid}
use link_suffix.Bridge.Names.{normalize_fleet_manager_id}
use link_suffix.Bridge.Shards.Tokens.{bind-shards, bind-jobs}
use link_suffix.Bridge.Shards.{bind_fleet_shard_manager, is_deleted}
use link_suffix.Bridge.{find_shard}
use link_suffix.Bridge.Targets.{
  enable_row, enable_target, is_target_id, selected, delete_found, delete_bridge_target,
  is_active_record,
}

enabled-keeps :
    (s s' t : Store) (ts : List Target) {L : Type 0}
    → ◌≡◌ {A = Result Store} (ok (record s' { targets = ts })) (ok t)
    → (s'.jobs ≡ s.jobs) × (s'.captures ≡ s.captures) × (s'.shards ≡ s.shards)
    → L
    → (t.jobs ≡ s.jobs) × (t.shards ≡ s.shards) × (t.captures ≡ s.captures) × L
enabled-keeps s s' t ts h (jobs, captures, shards) l =
    (ground (arith, jobs), ground (arith, shards), ground (arith, captures), l)

enable_row-keeps :
    (record_id : String) (now : ℕ) (s t : Store) (o : Option Target)
    → enable_row record_id now s o ≡ ok t
    → (t.jobs ≡ s.jobs)
      × (t.shards ≡ s.shards)
      × (t.captures ≡ s.captures)
      × ((x : Target) → o ≡ some x → is_deleted (find_shard s x.shard_id) ≡ false)
enable_row-keeps record_id now s t none h = ground arith
enable_row-keeps record_id now s t (some x) h =
    let (manager, e, h1) = >>=-eq-ok (normalize_fleet_manager_id x.manager_customer_id) _ h in
    let ((s', m), b, h2) = >>=-eq-ok (bind_fleet_shard_manager s x.shard_id manager) _ h1 in
    let (shards, live) = bind-shards s s' x.shard_id m manager b in
    let (jobs, captures) = bind-jobs s s' x.shard_id m manager b in
    enabled-keeps s s' t
      (update_where (is_active_record record_id)
        (λ y. record y { enabled = true; updated_at = now }) s'.targets)
      h2 (jobs, captures, shards) (λ y e. ground (arith, live))

-- A target that is resumed is on a shard that is not deleted, and its jobs, the captures and the shards
-- stay as they are.
pub enable_target-keeps :
    (record_id : String) (now : ℕ) (s t : Store) (x : Target)
    → find? (is_active_record record_id) s.targets ≡ some x
    → enable_target record_id now s ≡ ok t
    → (t.jobs ≡ s.jobs)
      × (t.shards ≡ s.shards)
      × (t.captures ≡ s.captures)
      × (is_deleted (find_shard s x.shard_id) ≡ false)
unfolding enable_target
enable_target-keeps record_id now s t x e h =
    let (jobs, shards, captures, live) =
      enable_row-keeps record_id now s t (find? (is_active_record record_id) s.targets) h in
    (jobs, shards, captures, live x e)

pub enable_target-IsValid :
    (env : Env) (record_id : String) (now : ℕ) (s t : Store)
    → IsValid env s.jobs
    → enable_target record_id now s ≡ ok t
    → IsValid env t.jobs
unfolding enable_target
enable_target-IsValid env record_id now s t v h =
    subst (IsValid env) (sym (enable_row-keeps record_id now s t _ h).0) v

-- A filter keeps the invariant.
pub filter-IsValid :
    (env : Env) (test : Job → Bool) (jobs : List Job)
    → IsValid env jobs
    → IsValid env (filter test jobs)
filter-IsValid env test jobs v = record {
  apart = Pairwise-filter Apart test jobs v.apart;
  sound = All-filter (IsSound env) test jobs v.sound;
}

-- No row refers to the target.
pub record IsErased (id : String) (s : Store) : Type 0 where
  pub targets : All (λ (t : Target). str_eq t.target_id id ≡ false) s.targets
  pub captures : All (λ (c : Capture). str_eq c.target_id id ≡ false) s.captures
  pub jobs : All (λ (j : Job). str_eq j.target_id id ≡ false) s.jobs

filter-erased :
    {A : Type 0} (f : A → String) (id : String) (xs : List A)
    → All (λ a. str_eq (f a) id ≡ false) (filter (λ a. not (str_eq (f a) id)) xs)
filter-erased f id [] = tt
filter-erased f id (x ∷ xs) = ground (arith, filter-erased f id xs)

delete_found-IsErased :
    (s t : Store) (o : Option Target) (x : Target)
    → ◌≡◌ {A = Store × Option Target} (delete_found s o) (t, some x)
    → IsErased x.target_id t
delete_found-IsErased s t none x h = ground arith
delete_found-IsErased s t (some y) x h =
    let same : y ≡ x = ground arith in
    let same_store : (delete_found s (some y)).0 ≡ t = ap (λ p. p.0) h in
    let erased : IsErased y.target_id (delete_found s (some y)).0 = record {
      targets = filter-erased Target.target_id y.target_id s.targets;
      captures = filter-erased Capture.target_id y.target_id s.captures;
      jobs = filter-erased Job.target_id y.target_id s.jobs;
    } in
    subst (λ z. IsErased z.target_id t) same (subst (IsErased y.target_id) same_store erased)

delete_found-IsValid :
    (env : Env) (s t : Store) (o r : Option Target)
    → ◌≡◌ {A = Store × Option Target} (delete_found s o) (t, r)
    → IsValid env s.jobs
    → IsValid env t.jobs
delete_found-IsValid env s t none r h v = subst (λ p. IsValid env p.0.jobs) h v
delete_found-IsValid env s t (some y) r h v =
    subst (λ p. IsValid env p.0.jobs) h
      (filter-IsValid env (λ j. not (str_eq j.target_id y.target_id)) s.jobs v)

delete-end :
    (target_id record_id : String) (s : Store) {r : Store × Option Target}
    → delete_bridge_target target_id record_id s ≡ ok r
    → delete_found s (find? (selected (trim target_id) (trim record_id)) s.targets) ≡ r
unfolding delete_bridge_target
delete-end target_id record_id s h =
    let (u, a, h1) =
      >>=-eq-ok (guard (is_empty (trim target_id) || is_target_id (trim target_id)) _) _ h in
    let (v, b, h2) =
      >>=-eq-ok (guard (not (is_empty (trim target_id) && is_empty (trim record_id))) _) _ h1 in
    let (w, c, h3) = >>=-eq-ok (guard (leb (length (codes (trim record_id))) 120) _) _ h2 in
    ground arith

-- After a deletion that found a target, no target, capture or job refers to it.
pub delete_bridge_target-IsErased :
    (target_id record_id : String) (s t : Store) (x : Target)
    → delete_bridge_target target_id record_id s ≡ ok (t, some x)
    → IsErased x.target_id t
delete_bridge_target-IsErased target_id record_id s t x h =
    delete_found-IsErased s t _ x (delete-end target_id record_id s h)

-- A deletion keeps the jobs valid.
pub delete_bridge_target-IsValid :
    (env : Env) (target_id record_id : String) (s t : Store) (o : Option Target)
    → IsValid env s.jobs
    → delete_bridge_target target_id record_id s ≡ ok (t, o)
    → IsValid env t.jobs
delete_bridge_target-IsValid env target_id record_id s t o v h =
    delete_found-IsValid env s t _ o (delete-end target_id record_id s h) v
