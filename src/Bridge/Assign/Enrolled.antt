-- ===== src/Bridge/Assign/Enrolled.antt =====
-- A campaign that is enrolled is served by the shard it is assigned to.
use link_suffix.Base.{
  ◌||◌, leb, length, ℕ, ◌≡◌, refl, Bool, true, Option, none, some, String, str_eq, if◌then◌else◌,
  map, find?, find?-map-some, find?-passes, arith, Bool-cases, inl, inr, eq_iff, subst, ap, ◌∙◌,
}
use link_suffix.Base.Text.{digits_only}
use link_suffix.Bridge.Rooms.{occupants, check_occupants, other_shard}
use link_suffix.Bridge.{
  shard_capacity, Store, Target, Env, find_target, find_shard, min_interval_ms,
}
use link_suffix.Bridge.Results.{Result, ok, >>=-eq-ok}
use link_suffix.Bridge.Shards.{is_deleted, bind_fleet_shard_manager}
use link_suffix.Bridge.Rooms.{check_occupants}
use link_suffix.Bridge.Assign.{
  Enrolment, check_enrolment, bind_choice, first_choice, save_row, save_target, enrolled,
  blank_target, target_id_of, upsert_bridge_target,
}

-- The row of a campaign that is enrolled.
pub record IsEnrolled (env : Env) (i : Enrolment) (id shard_id : String) (s : Store) : Type 0 where
  pub row : Target
  pub found : find_target s id ≡ some row
  pub on : row.enabled ≡ true
  pub current : row.archived_at ≡ none
  pub shard : row.shard_id ≡ shard_id
  pub campaign : row.campaign_record_id ≡ i.campaign_record_id
  pub pause : row.min_delivery_interval_ms ≡ min_interval_ms env

save_row-IsEnrolled :
    (env : Env) (i : Enrolment) (id shard_id : String) (now : ℕ) (s : Store) (o : Option Target)
    → find_target s id ≡ o
    → IsEnrolled env i id shard_id (save_row env i id shard_id now s o)
save_row-IsEnrolled env i id shard_id now s none h = record {
  row = enrolled env i shard_id now (blank_target id now);
  found = ground (arith, eq_iff id id);
  on = refl;
  current = refl;
  shard = refl;
  campaign = refl;
  pause = refl;
}
save_row-IsEnrolled env i id shard_id now s (some owner) h =
    let test : Target → Bool = λ x. str_eq x.target_id id in
    let set : Target → Target = enrolled env i shard_id now in
    let g : Target → Target = λ x. if test x then set x else x in
    let same : (x : Target) → test (g x) ≡ test x = λ x. elim (Bool-cases (test x)) [
      | inl hit ↦ ground (arith, hit)
      | inr miss ↦ ground (arith, miss)
    ] in
    let passes : test owner ≡ true = find?-passes test s.targets owner h in
    let moved : find? test (map g s.targets) ≡ some (g owner) =
      find?-map-some test g same s.targets owner h in
    let is_set : g owner ≡ set owner = ground (arith, passes) in
    record {
      row = set owner;
      found = moved ∙ ap some is_set;
      on = refl;
      current = refl;
      shard = refl;
      campaign = refl;
      pause = refl;
    }

save_target-IsEnrolled :
    (env : Env) (i : Enrolment) (id shard_id : String) (now : ℕ) (s t : Store)
    → save_target env i id shard_id now s ≡ ok t
    → IsEnrolled env i id shard_id t
unfolding save_target
save_target-IsEnrolled env i id shard_id now s t h =
    let same : save_row env i id shard_id now s (find_target s id) ≡ t = ground arith in
    subst (IsEnrolled env i id shard_id) same
      (save_row-IsEnrolled env i id shard_id now s (find_target s id) refl)

-- The end of an enrolment: the answer names the row that is saved.
finish-IsEnrolled :
    (env : Env) (i : Enrolment) (now : ℕ) (s u t : Store) (assigned id shard_id : String)
    → save_target env i (target_id_of env i) assigned now s ≡ ok u
    → ◌≡◌ {A = Result (Store × (String × String))}
        (ok (u, (target_id_of env i, assigned)))
        (ok (t, (id, shard_id)))
    → IsEnrolled env i id shard_id t
finish-IsEnrolled env i now s u t assigned id shard_id e h =
    let saved = save_target-IsEnrolled env i (target_id_of env i) assigned now s u e in
    let same_id : target_id_of env i ≡ id = ground arith in
    let same_shard : assigned ≡ shard_id = ground arith in
    let same_store : u ≡ t = ground arith in
    subst (λ x. IsEnrolled env i id shard_id x) same_store
      (subst (λ x. IsEnrolled env i id x u) same_shard
        (subst (λ x. IsEnrolled env i x assigned u) same_id saved))

-- An enrolment that succeeds leaves the target's row enabled and not archived, on the shard that the answer
-- names, under the campaign's record and with the minimum interval.
pub upsert-IsEnrolled :
    (env : Env) (i : Enrolment) (now : ℕ) (s t : Store) (id shard_id : String)
    → upsert_bridge_target env i now s ≡ ok (t, (id, shard_id))
    → IsEnrolled env i id shard_id t
unfolding upsert_bridge_target
upsert-IsEnrolled env i now s t id shard_id h =
    let manager = digits_only i.manager_customer_id in
    let choice = first_choice i in
    let retired = is_deleted (find_shard s choice) in
    let (a, e1, h1) = >>=-eq-ok (check_enrolment i) _ h in
    let (s₁, e2, h2) = >>=-eq-ok (bind_choice i s retired) _ h1 in
    let others = occupants s₁ choice i.campaign_record_id in
    let assigned =
      if leb shard_capacity (length others) || retired
      then other_shard env s₁ manager i.campaign_record_id
      else choice in
    let (c, e3, h3) = >>=-eq-ok (check_occupants others manager) _ h2 in
    let ((s₂, m), e4, h4) = >>=-eq-ok (bind_fleet_shard_manager s₁ assigned manager) _ h3 in
    let (s₃, e5, h5) = >>=-eq-ok (save_target env i (target_id_of env i) assigned now s₂) _ h4 in
    finish-IsEnrolled env i now s₂ s₃ t assigned id shard_id e5 h5
