-- ===== src/Bridge/Manifest/Recovery.antt =====
-- A plan that a manifest hands out can be read back.
use link_suffix.Base.{
  inl, inr, Bool-cases, Bool-cases, subst, ℕ, ◌≡◌, refl, true, false, Option, none, some, String,
  arith,
}
use link_suffix.Base.Text.{is_empty, trim}
use link_suffix.Bridge.{Store, Shard, Env, find_shard, update_shard}
use link_suffix.Bridge.Results.{ok}
use link_suffix.Bridge.Shards.Tokens.{find_shard-update}
use link_suffix.Bridge.Window.{Schedule, Window, plan, adaptive_execution_window}
use link_suffix.Bridge.Manifest.{
  Options, Manifest, save_window, invocation_of, manifest_of, write_manifest, refresh_accounts,
  account_ids, manifest_row, bridge_shard_manifest,
}
use link_suffix.Bridge.Manifest.Active.{Recovered, recovered, active_execution_window}

-- The recovered plan is the one that was handed out.
pub record IsSame (w : Window) (r : Recovered) : Type 0 where
  pub invocation : r.invocation_id ≡ w.invocation_id
  pub started : r.started_at ≡ some w.started_at
  pub phase_one : r.phase_one_stop_at ≡ w.phase_one_stop_at
  pub hard_stop : r.hard_stop_at ≡ w.hard_stop_at
  pub next : r.next_expected_at ≡ some w.next_expected_at
  pub samples : r.sample_count ≡ w.learned.samples
  pub anchor : r.anchor_at ≡ some w.learned.anchor

window-invocation :
    (cfg : Schedule) (sh : Shard) (now : ℕ) (invocation : String)
    → (adaptive_execution_window cfg sh now invocation).invocation_id ≡ invocation
unfolding adaptive_execution_window plan
window-invocation cfg sh now invocation = refl

-- The shard's row after a manifest with a plan.
IsSaved : Options → ℕ → String → Store → Window → Type 0
IsSaved o now id t w =
    (sh : Shard) × (find_shard t id ≡ some (save_window w now sh))
    × (sh.enabled ≡ true)
    × (w.invocation_id ≡ invocation_of o)

manifest_row-IsSaved :
    (env : Env) (cfg : Schedule) (o : Options) (now : ℕ) (id : String) (s t : Store)
    (row : Option Shard) (m : Manifest) (w : Window)
    → find_shard s id ≡ row
    → manifest_row env cfg o now id s row ≡ ok (t, m)
    → m.execution_window ≡ some w
    → IsSaved o now id t w
unfolding IsSaved
manifest_row-IsSaved env cfg o now id s t none m w found e h = ground arith
manifest_row-IsSaved env cfg o now id s t (some sh) m w found e h =
    let win = adaptive_execution_window cfg sh now (invocation_of o) in
    let seen = record s {
      activities = refresh_accounts id now (account_ids env s id) s.activities;
    } in
    let on : sh.enabled ≡ true = ground arith in
    let same : ok (manifest_of env cfg o now id sh s) ≡ ok (t, m) = ground arith in
    let planned : (o.preview ≡ false) × (o.adaptive ≡ true) = ground (arith, same) in
    let same_store : update_shard id (save_window win now) seen ≡ t =
      ground (arith, same, planned) in
    let same_window : win ≡ w = ground (arith, same, planned) in
    let saved : IsSaved o now id (update_shard id (save_window win now) seen) win = (
      sh,
      find_shard-update seen id (save_window win now) (λ x. refl) sh found,
      on,
      window-invocation cfg sh now (invocation_of o),
    ) in
    subst (IsSaved o now id t) same_window (subst (λ x. IsSaved o now id x win) same_store saved)

-- A plan that a manifest hands out to a named invocation is read back, at any later time before the shard
-- changes: the invocation, its instants and what was learned of the schedule are the same.
pub manifest-recovers :
    (env : Env) (cfg : Schedule) (o : Options) (now later : ℕ) (id : String) (s t : Store)
    (m : Manifest) (w : Window)
    → is_empty (invocation_of o) ≡ false
    → bridge_shard_manifest env cfg o now id s ≡ ok (t, m)
    → m.execution_window ≡ some w
    → (r : Recovered) × (active_execution_window cfg later id t ≡ ok r) × IsSame w r
unfolding bridge_shard_manifest active_execution_window IsSaved
manifest-recovers env cfg o now later id s t m w named e h =
    let (sh, found, on, invocation) =
      manifest_row-IsSaved env cfg o now (trim id) s t (find_shard s (trim id)) m w refl
        (ground arith) h in
    let text : is_empty (trim id) ≡ false = ground arith in
    let known : is_empty w.invocation_id ≡ false = rw invocation named in
    (
      recovered cfg later (save_window w now sh) w.invocation_id w.phase_one_stop_at w.hard_stop_at,
      rw (text, found, on, known) refl,
      record {
        invocation = refl;
        started = refl;
        phase_one = refl;
        hard_stop = refl;
        next = refl;
        samples = refl;
        anchor = refl;
      },
    )

manifest_row-jobs :
    (env : Env) (cfg : Schedule) (o : Options) (now : ℕ) (id : String) (s t : Store)
    (row : Option Shard) (m : Manifest)
    → manifest_row env cfg o now id s row ≡ ok (t, m)
    → s.jobs ≡ t.jobs
manifest_row-jobs env cfg o now id s t none m e = ground arith
manifest_row-jobs env cfg o now id s t (some sh) m e =
    let same : ok (manifest_of env cfg o now id sh s) ≡ ok (t, m) = ground arith in
    let same_store : (write_manifest env cfg o now id sh s).0 ≡ t = ground (arith, same) in
    written-jobs same_store
  where
    written-jobs : (write_manifest env cfg o now id sh s).0 ≡ t → s.jobs ≡ t.jobs
    written-jobs h = elim (Bool-cases o.preview) [
      | inl shown ↦ ground (arith, h, shown)
      | inr run ↦ elim (Bool-cases o.adaptive) [
        | inl planned ↦ ground (arith, h, run, planned)
        | inr plain ↦ ground (arith, h, run, plain)
      ]
    ]

-- A manifest does not touch the jobs.
pub manifest-jobs :
    (env : Env) (cfg : Schedule) (o : Options) (now : ℕ) (id : String) (s t : Store) (m : Manifest)
    → bridge_shard_manifest env cfg o now id s ≡ ok (t, m)
    → s.jobs ≡ t.jobs
unfolding bridge_shard_manifest
manifest-jobs env cfg o now id s t m e =
    manifest_row-jobs env cfg o now (trim id) s t (find_shard s (trim id)) m (ground arith)
