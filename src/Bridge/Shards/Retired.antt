-- ===== src/Bridge/Shards/Retired.antt =====
-- What remains of a shard that is deleted: its name, which nothing can use.
use link_suffix.Base.{
  ℕ, ◌≡◌, refl, ap, sym, subst, ◌∙◌, Bool, true, false, Option, none, some, String, arith, str_eq,
  is_some, length, leb, any, eq_iff,
}
use link_suffix.Base.Text.{codes}
use link_suffix.Bridge.{Store, Shard, Env, find_shard}
use link_suffix.Bridge.Results.{ok, err, >>=-eq-ok, guard}
use link_suffix.Bridge.Names.{normalize_fleet_shard_id}
use link_suffix.Bridge.Prepare.{lock_active_shard}
use link_suffix.Bridge.Shards.Tokens.{find_shard-update, bind-jobs}
use link_suffix.Bridge.Shards.{
  assert_shard_not_deleted, bind_fleet_shard_manager, register_bridge_shard, is_assigned,
  authenticate_bridge_shard, requested_manager, upsert_shard,
}
use link_suffix.Bridge.Shards.Deletion.{retire, delete_row, delete_bridge_shard, blocks_delete}

-- A row that is marked as deleted and is not enabled.
pub IsRetired : Store → String → Type 0
IsRetired s id =
    (sh : Shard) × (find_shard s id ≡ some sh)
    × (sh.enabled ≡ false)
    × (is_some sh.deleted_at ≡ true)

-- A shard whose row is disabled and marked as deleted is not authenticated by any token, cannot lease and cannot be bound to a manager.
pub IsRetired-refuses :
    (env : Env) (s : Store) (id token requested : String)
    → IsRetired s id
    → (authenticate_bridge_shard env s id token ≡ false)
      × (lock_active_shard s id ≡ err "This shard is disabled, deleted or not registered.")
      × (bind_fleet_shard_manager s id requested
          ≡ err "This shard was deleted and its name is reserved. Choose a new shard name.")
unfolding IsRetired authenticate_bridge_shard lock_active_shard bind_fleet_shard_manager
    assert_shard_not_deleted
IsRetired-refuses env s id token requested (sh, found, off, gone) =
    (ground (arith, found, off), ground (arith, found, off), ground (arith, found, gone))

retire-IsRetired :
    (env : Env) (now : ℕ) (fresh id : String) (s : Store) (sh : Shard)
    → find_shard s id ≡ some sh
    → IsRetired (retire env now fresh id s) id
unfolding IsRetired
retire-IsRetired env now fresh id s sh found =
    let set : Shard → Shard = λ x. record x {
      enabled = false;
      deleted_at = some now;
      token_hash = env.digest fresh;
      updated_at = now;
    } in
    (set sh, find_shard-update s id set (λ x. refl) sh found, refl, refl)

-- What a deletion leaves: the history of the shard, and no work that is still assigned or leased to it.
pub record IsDeletion (now : ℕ) (id : String) (s t : Store) : Type 0 where
  pub retired : IsRetired t id
  pub jobs : t.jobs ≡ s.jobs
  pub captures : t.captures ≡ s.captures
  pub targets : t.targets ≡ s.targets
  pub unassigned : any (is_assigned id) s.targets ≡ false
  pub unleased : any (blocks_delete s now id) s.jobs ≡ false

delete_row-IsDeletion :
    (env : Env) (now : ℕ) (fresh id : String) (s t : Store) (o : Option Shard)
    → find_shard s id ≡ o
    → delete_row env now fresh id s o ≡ ok (t, false)
    → IsDeletion now id s t
delete_row-IsDeletion env now fresh id s t none e h = ground arith
delete_row-IsDeletion env now fresh id s t (some sh) e h =
    let same : retire env now fresh id s ≡ t = ground arith in
    record {
      retired = subst (λ x. IsRetired x id) same (retire-IsRetired env now fresh id s sh e);
      jobs = ap Store.jobs (sym same);
      captures = ap Store.captures (sym same);
      targets = ap Store.targets (sym same);
      unassigned = ground arith;
      unleased = ground arith;
    }

-- When a shard is deleted for the first time, the row of the confirmed name is disabled and marked as
-- deleted; jobs, captures and targets stay as they are; no target that is not archived was assigned to the
-- shard, and no job leased to it had time left.
pub delete-IsDeletion :
    (env : Env) (now : ℕ) (fresh shard_id confirmed : String) (s t : Store)
    → delete_bridge_shard env now fresh shard_id confirmed s ≡ ok (t, false)
    → IsDeletion now confirmed s t
unfolding delete_bridge_shard
delete-IsDeletion env now fresh shard_id confirmed s t h =
    let (id, e, h1) = >>=-eq-ok (normalize_fleet_shard_id shard_id) _ h in
    let (u, exact, h2) = >>=-eq-ok (guard (str_eq confirmed id) _) _ h1 in
    let same : id ≡ confirmed = ground (arith, eq_iff confirmed id) in
    subst (λ x. IsDeletion now x s t) same
      (delete_row-IsDeletion env now fresh id s t (find_shard s id) refl h2)

-- A deletion that succeeds does not touch the jobs.
pub delete_bridge_shard-jobs :
    (env : Env) (now : ℕ) (fresh shard_id confirmed : String) (s t : Store) (already : Bool)
    → delete_bridge_shard env now fresh shard_id confirmed s ≡ ok (t, already)
    → t.jobs ≡ s.jobs
unfolding delete_bridge_shard
delete_bridge_shard-jobs env now fresh shard_id confirmed s t already h =
    let (id, e, h1) = >>=-eq-ok (normalize_fleet_shard_id shard_id) _ h in
    let (u, exact, h2) = >>=-eq-ok (guard (str_eq confirmed id) _) _ h1 in
    by_row id (find_shard s id) h2
  where
    by_row :
        (id : String) (o : Option Shard)
        → delete_row env now fresh id s o ≡ ok (t, already)
        → t.jobs ≡ s.jobs
    by_row id none e = ground arith
    by_row id (some sh) e = ground arith

-- A registration does not touch the jobs.
pub register-jobs :
    (env : Env) (now : ℕ) (s t : Store) (shard_id token requested id m : String)
    → register_bridge_shard env now shard_id token requested s ≡ ok (t, (id, m))
    → t.jobs ≡ s.jobs
unfolding register_bridge_shard
register-jobs env now s t shard_id token requested id m h =
    let (id', e1, h1) = >>=-eq-ok (normalize_fleet_shard_id shard_id) _ h in
    let (u, strong, h2) = >>=-eq-ok (guard (leb 24 (length (codes token))) _) _ h1 in
    let (m', e3, h3) = >>=-eq-ok (requested_manager requested) _ h2 in
    let ((t', m2), e4, h4) = >>=-eq-ok (bind_fleet_shard_manager s id' m') _ h3 in
    let same : upsert_shard id' (env.digest token) now t' ≡ t = ground arith in
    let kept : t'.jobs ≡ s.jobs = (bind-jobs s t' id' m2 m' e4).0 in
    ap Store.jobs (sym same) ∙ (ground (arith, kept))
