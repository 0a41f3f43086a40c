-- ===== src/Bridge/Shards/Tokens.antt =====
-- What a shard's token is good for: from its registration to its deletion.
use link_suffix.Base.{
  option_map, ◌&&◌, not, ℕ, ◌≡◌, refl, ap, subst, ◌∙◌, Bool, true, false, [], Option, none, some,
  String, arith, Bool-cases, Option-cases, inl, inr, eq_iff, str_eq, if◌then◌else◌, find?,
  find?-map-some, find?-passes, is_some, length, leb,
}
use link_suffix.Base.Text.{is_empty, codes}
use link_suffix.Bridge.{Store, Shard, Env, find_shard, update_shard}
use link_suffix.Bridge.Results.{Result, ok, >>=-eq-ok, guard}
use link_suffix.Bridge.Names.{normalize_fleet_shard_id}
use link_suffix.Bridge.Shards.{
  assert_shard_not_deleted, bind_fleet_shard_manager, bind_first, collect, named_managers, add_new,
  upsert_shard, requested_manager, register_bridge_shard, authenticate_bridge_shard, is_deleted,
  new_shard,
}

-- An update of a shard's row that keeps its name is found under that name.
pub find_shard-update :
    (s : Store) (id : String) (f : Shard → Shard)
    → ((sh : Shard) → (f sh).shard_id ≡ sh.shard_id)
    → (sh : Shard) → find_shard s id ≡ some sh
    → find_shard (update_shard id f s) id ≡ some (f sh)
find_shard-update s id f keeps sh h =
    let test : Shard → Bool = λ x. str_eq x.shard_id id in
    let g : Shard → Shard = λ x. if test x then f x else x in
    let same : (x : Shard) → test (g x) ≡ test x = λ x. elim (Bool-cases (test x)) [
      | inl hit ↦ ground (arith, keeps x)
      | inr miss ↦ ground arith
    ] in
    let passes : test sh ≡ true = find?-passes test s.shards sh h in
    let moved : find? test (update_shard id f s).shards ≡ some (g sh) =
      find?-map-some test g same s.shards sh h in
    let is_f : g sh ≡ f sh = ground arith in moved ∙ ap some is_f

bind_first-shards :
    (s t : Store) (id m : String) (o : Option String)
    → bind_first s id o ≡ ok (t, m)
    → t.shards ≡ s.shards
bind_first-shards s t id m none h = ground arith
bind_first-shards s t id m (some x) h = ground arith

-- Binding a manager leaves the shards alone, and fails on a deleted shard.
pub bind-shards :
    (s t : Store) (id m requested : String)
    → bind_fleet_shard_manager s id requested ≡ ok (t, m)
    → (t.shards ≡ s.shards) × (is_deleted (find_shard s id) ≡ false)
unfolding bind_fleet_shard_manager assert_shard_not_deleted
bind-shards s t id m requested h =
    let (u, live, rest) = >>=-eq-ok (assert_shard_not_deleted s id) _ h in
    let (found, c, rest2) = >>=-eq-ok (collect (named_managers s id) []) _ rest in
    let (v, one, rest3) =
      >>=-eq-ok
        (guard (leb (length (if is_empty requested then found else add_new requested found)) 1) _) _
        rest2 in
    (bind_first-shards s t id m _ rest3, ground arith)

-- The row of a shard that has just registered.
pub IsRegistered : Store → String → String → Type 0
IsRegistered s id hash =
    (sh : Shard) × (find_shard s id ≡ some sh)
    × (sh.token_hash ≡ hash)
    × (sh.enabled ≡ true)
    × (is_some sh.deleted_at ≡ false)

upsert_shard-IsRegistered :
    (s : Store) (id hash : String) (now : ℕ)
    → is_deleted (find_shard s id) ≡ false
    → IsRegistered (upsert_shard id hash now s) id hash
unfolding IsRegistered
upsert_shard-IsRegistered s id hash now live = elim (Option-cases (find_shard s id)) [
  | inl missing ↦ (new_shard id hash now, ground (arith, eq_iff id id), refl, refl, refl)
  | inr (sh, found) ↦
      let set : Shard → Shard =
        λ x. record x { token_hash = hash; enabled = true; updated_at = now } in
      (
        set sh,
        ground (arith, find_shard-update s id set (λ x. refl) sh found),
        refl,
        refl,
        ground arith,
      )
]

-- The end of a registration, once the shard is bound to its manager.
finish-IsRegistered :
    (now : ℕ) (s t' t : Store) (id' id m2 m hash requested : String)
    → bind_fleet_shard_manager s id' requested ≡ ok (t', m2)
    → ◌≡◌ {A = Result (Store × (String × String))}
        (ok (upsert_shard id' hash now t', (id', m2)))
        (ok (t, (id, m)))
    → IsRegistered t id hash
finish-IsRegistered now s t' t id' id m2 m hash requested e h =
    let (kept, live) = bind-shards s t' id' m2 requested e in
    let done : IsRegistered (upsert_shard id' hash now t') id' hash =
      upsert_shard-IsRegistered t' id' hash now (ground arith) in
    let same_id : id' ≡ id = ground arith in
    let same_store : upsert_shard id' hash now t' ≡ t = ground arith in
    subst (λ x. IsRegistered t x hash) same_id
      (subst (λ x. IsRegistered x id' hash) same_store done)

pub register-IsRegistered :
    (env : Env) (now : ℕ) (s t : Store) (shard_id token requested id m : String)
    → register_bridge_shard env now shard_id token requested s ≡ ok (t, (id, m))
    → IsRegistered t id (env.digest token) × (leb 24 (length (codes token)) ≡ true)
unfolding register_bridge_shard
register-IsRegistered env now s t shard_id token requested id m h =
    let (id', e1, h1) = >>=-eq-ok (normalize_fleet_shard_id shard_id) _ h in
    let (u, strong, h2) = >>=-eq-ok (guard (leb 24 (length (codes token))) _) _ h1 in
    let (m', e3, h3) = >>=-eq-ok (requested_manager requested) _ h2 in
    let ((t', m2), e4, h4) = >>=-eq-ok (bind_fleet_shard_manager s id' m') _ h3 in
    (finish-IsRegistered now s t' t id' id m2 m (env.digest token) m' e4 h4, ground arith)

long-not_empty : (s : String) → leb 24 (length (codes s)) ≡ true → is_empty s ≡ false
long-not_empty String.[] h = ground arith
long-not_empty (String.◌∷◌ c s) h = refl

bind_first-jobs :
    (s t : Store) (id m : String) (o : Option String)
    → bind_first s id o ≡ ok (t, m)
    → (t.jobs ≡ s.jobs) × (t.captures ≡ s.captures)
bind_first-jobs s t id m none h = ground arith
bind_first-jobs s t id m (some x) h = ground arith

-- Binding a manager leaves the jobs and the captures alone.
pub bind-jobs :
    (s t : Store) (id m requested : String)
    → bind_fleet_shard_manager s id requested ≡ ok (t, m)
    → (t.jobs ≡ s.jobs) × (t.captures ≡ s.captures)
unfolding bind_fleet_shard_manager
bind-jobs s t id m requested h =
    let (u, live, rest) = >>=-eq-ok (assert_shard_not_deleted s id) _ h in
    let (found, c, rest2) = >>=-eq-ok (collect (named_managers s id) []) _ rest in
    let (v, one, rest3) =
      >>=-eq-ok
        (guard (leb (length (if is_empty requested then found else add_new requested found)) 1) _) _
        rest2 in
    bind_first-jobs s t id m _ rest3

-- What a row is asked for when its shard shows a token.
abbrev pub credentials : Shard → String × Bool × Bool
credentials sh = (sh.token_hash, sh.enabled, is_some sh.deleted_at)

same-credentials :
    (o : Option Shard) (sh : Shard)
    → option_map credentials o ≡ some (credentials sh)
    → (x : Shard) × (o ≡ some x)
      × (x.token_hash ≡ sh.token_hash)
      × (x.enabled ≡ sh.enabled)
      × (is_some x.deleted_at ≡ is_some sh.deleted_at)
same-credentials none sh e = absurd (ground (arith, e))
same-credentials (some x) sh e =
    let get : Option (String × Bool × Bool) → String × Bool × Bool =
      λ o. elim o [ none ↦ credentials sh | some c ↦ c ] in
    (x, refl, ap (λ o. (get o).0) e, ap (λ o. (get o).1) e, ap (λ o. (get o).2) e)

-- As long as the hash, the mark of enabling and the mark of deletion in a shard's row are those that its registration
-- left there, the token it registered with is accepted, and another one exactly if it is not empty and has the same
-- digest.
pub register-authenticates :
    (env : Env) (now : ℕ) (s t u : Store) (shard_id token requested id m other : String)
    → register_bridge_shard env now shard_id token requested s ≡ ok (t, (id, m))
    → option_map credentials (find_shard u id) ≡ option_map credentials (find_shard t id)
    → (authenticate_bridge_shard env u id token ≡ true)
      × (authenticate_bridge_shard env u id other
          ≡ (not (is_empty other) && str_eq (env.digest token) (env.digest other)))
unfolding authenticate_bridge_shard IsRegistered
register-authenticates env now s t u shard_id token requested id m other h kept =
    let ((sh, seen, hash', on', there'), strong) =
      register-IsRegistered env now s t shard_id token requested id m h in
    let (row, found, hash_kept, on_kept, there_kept) =
      same-credentials (find_shard u id) sh (kept ∙ ap (option_map credentials) seen) in
    let hash = hash_kept ∙ hash' in
    let on = on_kept ∙ on' in
    let there = there_kept ∙ there' in
    (
      ground (
        arith,
        found,
        hash,
        on,
        there,
        long-not_empty token strong,
        eq_iff row.token_hash (env.digest token),
      ),
      ground (arith, found, hash, on, there),
    )
